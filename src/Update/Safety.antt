-- ===== src/Update/Safety.antt =====
-- When the self-update merges, and that it never breaks the command.
use filecoin_porep_market_to.Prelude.{
  ℕ, ◌≡◌, ◌≢◌, ◌<◌, ◌⊎◌, inl, inr, refl, ◌∙◌, Bool, true, false, Option, none, some, List, [], ◌∷◌,
  Result, ok, err, arith, Option-cases, Bool-cases, ◌==◌,
}
use filecoin_porep_market_to.Confirm.{Text}
use filecoin_porep_market_to.Confirm.Answers.{same_text-eq}
use filecoin_porep_market_to.Update.{
  Fault, raised, exited, Event, fetched, asked, merged, MergeEnd, merge_done, git_error,
  other_error, Git, Run, Step, UpdateInfo, skip_self_update, commit_counts, fetch_shas,
  compare_with_remote, checked_branch, check_for_update, update_unsafe, confirm_update, pull_update,
  prompt_and_update, check_and_update, check_and_prompt, ◌>>=◌,
}

-- The merges of a log, the last first.
abbrev pub merges : List Event → List (Text × Text)
merges [] = []
merges (fetched r b ∷ log) = merges log
merges (asked a ∷ log) = merges log
merges (merged r b ∷ log) = (r, b) ∷ merges log

module _ {W : Type 0} (git : Git W) where
  abbrev ends_in : MergeEnd → Result Fault (Unit {0})
  ends_in end = elim end [ MergeEnd.other_error ↦ err raised | _ ↦ err exited ]

  -- The prompt with its merge: nothing, or a clean checkout of the branch, a yes and the merge.
  abbrev Prompted : UpdateInfo → Run W → Result Fault (Unit {0}) × Run W → Type 0
  Prompted info s (r, s') =
      ((merges s'.log ≡ merges s.log) × ((r ≡ ok tt) ⊎ (r ≡ err raised)))
      ⊎ ((info.commits_ahead ≡ 0)
          × (git.is_dirty s.world ≡ some false)
          × (git.detached s.world ≡ false)
          × (git.active_branch s.world ≡ some info.branch_name)
          × ((git.confirm s.world).0 ≡ some true)
          × (s'.log ≡ merged info.remote_name info.branch_name ∷ asked true ∷ s.log)
          × (r
              ≡ ends_in
                  (git.merge_ff_only info.remote_name info.branch_name (git.confirm s.world).1).0))

  pull_update-end :
      (info : UpdateInfo) (s : Run W)
      → ((pull_update git info s).1.log ≡ merged info.remote_name info.branch_name ∷ s.log)
        × ((pull_update git info s).0
            ≡ ends_in (git.merge_ff_only info.remote_name info.branch_name s.world).0)
  unfolding pull_update
  pull_update-end info s = ground arith

  update_unsafe-false :
      (info : UpdateInfo) (s : Run W)
      → ((update_unsafe git info s).1 ≡ s)
        × (((update_unsafe git info s).0 ≡ ok true)
            ⊎ ((update_unsafe git info s).0 ≡ err raised)
            ⊎ (((update_unsafe git info s).0 ≡ ok false)
                × (info.commits_ahead ≡ 0)
                × (git.is_dirty s.world ≡ some false)
                × (git.detached s.world ≡ false)
                × (git.active_branch s.world ≡ some info.branch_name)))
  unfolding update_unsafe
  update_unsafe-false info s = elim (Option-cases (git.active_branch s.world)) [
    | inl unknown ↦ ground (arith, unknown)
    | inr (branch, there) ↦ ground (arith, there, same_text-eq branch info.branch_name)
  ]

  prompt_and_update-Prompted :
      (info : UpdateInfo) (s : Run W) → Prompted info s (prompt_and_update git info s)
  unfolding prompt_and_update confirm_update
  prompt_and_update-Prompted info s =
      let safe = update_unsafe-false info s in
      let s1 : Run W = record { world = (git.confirm s.world).1; log = asked true ∷ s.log } in
      let ends = pull_update-end info s1 in ground (arith, safe, ends)

  -- The commits that the remote branch and HEAD differ by, when HEAD is behind.
  abbrev pub IsBehind : ℕ → UpdateInfo → W → Type 0
  IsBehind local_sha info w =
      (local_sha ≢ info.remote_sha)
      × (git.count_commits info.remote_sha local_sha w ≡ some info.commits_ahead)
      × (git.count_commits local_sha info.remote_sha w ≡ some info.commits_behind)
      × (0 < info.commits_behind)

  compare_with_remote-IsBehind :
      (remote_name branch_name : Text) (local_sha remote_sha : ℕ) (s : Run W)
      → let (r, s') =
          compare_with_remote git remote_name branch_name (some (local_sha, remote_sha)) s in
        (s' ≡ s)
        × ((r ≡ ok none)
            ⊎ (r ≡ err raised)
            ⊎ ((info : UpdateInfo) × (r ≡ ok (some info))
                × (info.remote_name ≡ remote_name)
                × (info.branch_name ≡ branch_name)
                × (info.remote_sha ≡ remote_sha)
                × IsBehind local_sha info s.world))
  unfolding compare_with_remote commit_counts
  compare_with_remote-IsBehind remote_name branch_name local_sha remote_sha s =
      elim (Option-cases (git.count_commits remote_sha local_sha s.world)) [
        | inl unknown ↦ (ground arith, ground arith)
        | inr (ahead, counted) ↦
            elim (Option-cases (git.count_commits local_sha remote_sha s.world)) [
              | inl unknown ↦ (ground arith, ground arith)
              | inr (behind, counted') ↦
                  let info : UpdateInfo = record {
                    remote_name = remote_name;
                    branch_name = branch_name;
                    remote_sha = remote_sha;
                    commits_behind = behind;
                    commits_ahead = ahead;
                  } in
                  elim (Bool-cases (remote_sha == local_sha)) [
                    | inl same ↦ (ground arith, ground arith)
                    | inr other ↦ elim (Bool-cases (behind == 0)) [
                      | inl none_behind ↦ (ground arith, ground arith)
                      | inr some_behind ↦ (
                        ground arith,
                        inr (
                            inr (
                              info,
                              ground arith,
                              refl,
                              refl,
                              refl,
                              (ground arith, counted, counted', ground arith),
                            )),
                      )
                    ]
                  ]
            ]
      ]

  -- The check: nothing to update, or the facts behind the information that it returns.
  abbrev Found : Bool → Run W → UpdateInfo → Run W → Type 0
  Found manual s info s' =
      (checked_branch git manual s.world ≡ some (info.remote_name, info.branch_name))
      × (git.fetch info.remote_name info.branch_name s.world ≡ (true, s'.world))
      × (s'.log ≡ fetched info.remote_name info.branch_name ∷ s.log)
      × (git.remote_sha info.remote_name info.branch_name s'.world ≡ some info.remote_sha)
      × (local_sha : ℕ) × (git.head_sha s'.world ≡ some local_sha)
      × IsBehind local_sha info s'.world

  fetch_shas-read :
      (remote_name branch_name : Text) (s : Run W)
      → let (r, s') = fetch_shas git remote_name branch_name s in
        (s'.log ≡ fetched remote_name branch_name ∷ s.log)
        × ((r ≡ ok none)
            ⊎ ((local_sha remote_sha : ℕ) × (r ≡ ok (some (local_sha, remote_sha)))
                × (git.fetch remote_name branch_name s.world ≡ (true, s'.world))
                × (git.remote_sha remote_name branch_name s'.world ≡ some remote_sha)
                × (git.head_sha s'.world ≡ some local_sha)))
  unfolding fetch_shas
  fetch_shas-read remote_name branch_name s =
      let world = (git.fetch remote_name branch_name s.world).1 in
      elim (Bool-cases (git.fetch remote_name branch_name s.world).0) [
        | inr broken ↦ (ground arith, ground arith)
        | inl ended ↦ elim (Option-cases (git.remote_sha remote_name branch_name world)) [
          | inl unknown ↦ (ground arith, ground arith)
          | inr (remote_sha, there) ↦ elim (Option-cases (git.head_sha world)) [
            | inl unknown ↦ (ground arith, ground arith)
            | inr (local_sha, here) ↦ (
              ground arith,
              inr (local_sha, remote_sha, ground arith, ground arith, ground arith, ground arith),
            )
          ]
        ]
      ]

  -- The branch that is checked behind the skip.
  fetch_and_compare :
      (remote_name branch_name : Text) (s : Run W)
      → let (r, s') =
          (fetch_shas git remote_name branch_name
              >>= compare_with_remote git remote_name branch_name)
            s in
        ((merges s'.log ≡ merges s.log) × ((r ≡ ok none) ⊎ (r ≡ err raised)))
        ⊎ ((info : UpdateInfo) × (r ≡ ok (some info))
            × (info.remote_name ≡ remote_name)
            × (info.branch_name ≡ branch_name)
            × (git.fetch remote_name branch_name s.world ≡ (true, s'.world))
            × (s'.log ≡ fetched remote_name branch_name ∷ s.log)
            × (git.remote_sha remote_name branch_name s'.world ≡ some info.remote_sha)
            × (local_sha : ℕ) × (git.head_sha s'.world ≡ some local_sha)
            × IsBehind local_sha info s'.world)
  unfolding compare_with_remote
  fetch_and_compare remote_name branch_name s =
      let s1 = (fetch_shas git remote_name branch_name s).1 in
      let (logged, ends) = fetch_shas-read remote_name branch_name s in
      elim ends [
        | inl nothing ↦ ground (arith, logged, nothing)
        | inr (local_sha, remote_sha, read, fetched_world, there, here) ↦
            let (same, result) =
              compare_with_remote-IsBehind remote_name branch_name local_sha remote_sha s1 in
            elim result [
              | inl nothing ↦ ground (arith, logged, read, same, nothing)
              | inr (inl fault) ↦ ground (arith, logged, read, same, fault)
              | inr (inr (info, found_info, remote_same, branch_same, sha_same, behind)) ↦
                  let ran : (fetch_shas git remote_name branch_name
                          >>= compare_with_remote git remote_name branch_name)
                        s
                      ≡ (ok (some info), s1) =
                    ground (arith, read, same, found_info) in
                  rw (ran) (
                    inr (
                      info,
                      refl,
                      remote_same,
                      branch_same,
                      fetched_world,
                      logged,
                      rw (sha_same) there,
                      local_sha,
                      here,
                      behind,
                    ))
            ]
      ]

  -- The check behind the skip.
  abbrev check_branch : Bool → Step W (Option UpdateInfo)
  check_branch manual s = elim (checked_branch git manual s.world) [
    | none ↦ (ok none, s)
    | some (remote_name, branch_name) ↦
        (fetch_shas git remote_name branch_name >>= compare_with_remote git remote_name branch_name)
          s
  ]

  check_branch-Found :
      (manual : Bool) (s : Run W)
      → let (r, s') = check_branch manual s in
        ((merges s'.log ≡ merges s.log) × ((r ≡ ok none) ⊎ (r ≡ err raised)))
        ⊎ ((info : UpdateInfo) × (r ≡ ok (some info)) × Found manual s info s')
  check_branch-Found manual s = elim (Option-cases (checked_branch git manual s.world)) [
    | inl nothing ↦ inl (ground (arith, nothing))
    | inr ((remote_name, branch_name), here) ↦
        let ran : check_branch manual s
            ≡ (fetch_shas git remote_name branch_name
                  >>= compare_with_remote git remote_name branch_name)
                s =
          ground (arith, here) in
        rw (ran) (elim (fetch_and_compare remote_name branch_name s) [
          | inl nothing ↦ inl nothing
          | inr
                (
                  info, result, remote_same, branch_same, fetched_world, logged, there, local_sha,
                  head, behind,
                ) ↦
              inr (
                info,
                result,
                rw (remote_same, branch_same)
                    (here, fetched_world, logged, there, local_sha, head, behind),
              )
        ])
  ]

  -- The check: nothing to update, or the facts behind the information that it returns.
  abbrev pub Checked : Bool → Run W → UpdateInfo → Run W → Type 0
  Checked manual s info s' =
      ((manual ≡ true) ⊎ (skip_self_update git s.world ≡ some false)) × Found manual s info s'

  check_for_update-Checked :
      (manual : Bool) (s : Run W)
      → let (r, s') = check_for_update git manual s in
        ((merges s'.log ≡ merges s.log) × ((r ≡ ok none) ⊎ (r ≡ err raised)))
        ⊎ ((info : UpdateInfo) × (r ≡ ok (some info)) × Checked manual s info s')
  unfolding check_for_update
  check_for_update-Checked true s =
      let ran : check_for_update git true s ≡ check_branch true s = ground arith in
      rw (ran) (elim (check_branch-Found true s) [
        | inl nothing ↦ inl nothing
        | inr (info, result, found) ↦ inr (info, result, (inl refl, found))
      ])
  check_for_update-Checked false s = elim (Option-cases (skip_self_update git s.world)) [
    | inl broken ↦
        let ran : check_for_update git false s ≡ (err raised, s) = ground (arith, broken) in
        inl (rw (ran) (refl, inr refl))
    | inr (true, skipped) ↦
        let ran : check_for_update git false s ≡ (ok none, s) = ground (arith, skipped) in
        inl (rw (ran) (refl, inl refl))
    | inr (false, checked) ↦
        let ran : check_for_update git false s ≡ check_branch false s = ground (arith, checked) in
        rw (ran) (elim (check_branch-Found false s) [
          | inl nothing ↦ inl nothing
          | inr (info, result, found) ↦ inr (info, result, (inr checked, found))
        ])
  ]

  -- The merge behind a check: the checkout is clean, on the branch that was checked and with no commit of its own, and the user agreed.
  abbrev pub MergesSafely : Bool → Run W → Bool → Run W → Type 0
  MergesSafely manual s exits s' =
      (info : UpdateInfo) × (checked : Run W) × Checked manual s info checked
      × (info.commits_ahead ≡ 0)
      × (git.is_dirty checked.world ≡ some false)
      × (git.detached checked.world ≡ false)
      × (git.active_branch checked.world ≡ some info.branch_name)
      × ((git.confirm checked.world).0 ≡ some true)
      × (s'.log
          ≡ merged info.remote_name info.branch_name
            ∷ asked true
            ∷ fetched info.remote_name info.branch_name
            ∷ s.log)
      × (exits
          ≡ (elim (git.merge_ff_only info.remote_name info.branch_name
              (git.confirm checked.world).1).0 [ MergeEnd.other_error ↦ false | _ ↦ true ]))

  module _ (manual : Bool) (s s' : Run W) where
    continues :
        (r : Result Fault (Unit {0}))
        → check_and_update git manual s ≡ (r, s')
        → (r ≡ ok tt) ⊎ (r ≡ err raised)
        → check_and_prompt git manual s ≡ (false, s')
    unfolding check_and_prompt
    continues r ran ends = ground arith

    ends_with :
        (end : MergeEnd)
        → check_and_update git manual s ≡ (ends_in end, s')
        → check_and_prompt git manual s
          ≡ ((elim end [ MergeEnd.other_error ↦ false | _ ↦ true ]), s')
    unfolding check_and_prompt
    ends_with merge_done ran = ground (arith, ran)
    ends_with git_error ran = ground (arith, ran)
    ends_with other_error ran = ground (arith, ran)

  updates :
      (manual : Bool) (s s1 : Run W) (info : UpdateInfo)
      → check_for_update git manual s ≡ (ok (some info), s1)
      → check_and_update git manual s ≡ prompt_and_update git info s1
  unfolding check_and_update
  updates manual s s1 info checked = ground (arith, checked)

  nothing_to_do :
      (manual : Bool) (s : Run W)
      → ((check_for_update git manual s).0 ≡ ok none)
        ⊎ ((check_for_update git manual s).0 ≡ err raised)
      → check_and_prompt git manual s ≡ (false, (check_for_update git manual s).1)
  unfolding check_and_prompt check_and_update
  nothing_to_do manual s nothing = ground arith

-- Whatever git, the environment and the user answer, and whatever raises, `check_and_prompt` either merges nothing and goes on with the command, or
-- merges once, behind a fetch and a yes. Then the branch tracks the fetched one, which is main or master unless the user asked for the update,
-- and the check is not switched off in the environment unless the user asked for it; HEAD is behind the fetched commit, has no commit that it lacks and no local change, and is
-- on a branch of the same name. The command is ended behind the merge unless it raised an error that is not git's.
pub check_and_prompt-MergesSafely :
    {W : Type 0} (git : Git W) (manual : Bool) (s : Run W)
    → let (exits, s') = check_and_prompt git manual s in
      ((merges s'.log ≡ merges s.log) × (exits ≡ false)) ⊎ MergesSafely git manual s exits s'
check_and_prompt-MergesSafely git manual s = elim (check_for_update-Checked git manual s) [
  | inl (same, nothing) ↦ rw (nothing_to_do git manual s nothing) (inl (same, refl))
  | inr (info, result, checked) ↦
      let s1 = (check_for_update git manual s).1 in
      let s2 = (prompt_and_update git info s1).1 in
      let (skip, (on_branch, fetch_ended, log_fetched, _, _, _, _)) = checked in
      let ran = updates git manual s s1 info (ground (arith, result)) in
      let end = (git.merge_ff_only info.remote_name info.branch_name (git.confirm s1.world).1).0 in
      elim (prompt_and_update-Prompted git info s1) [
        | inl (same, ends) ↦
            rw (continues git manual s s2 _ ran ends)
              (inl (ground (arith, same, log_fetched), refl))
        | inr (ahead, clean, attached, branch, agreed, logged, ends) ↦
            rw (ends_with git manual s s2 end (ran ∙ ground (arith, ends))) (
              inr (
                info,
                s1,
                checked,
                ahead,
                clean,
                attached,
                branch,
                agreed,
                ground (arith, logged, log_fetched),
                refl,
              ))
      ]
]
