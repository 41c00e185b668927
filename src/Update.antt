-- ===== src/Update.antt =====
-- cli/services/self_update.py, with `get_env` and `string_to_bool` of cli/utils.py. Git, the environment and the user are
-- functions of a world; a call of git that may raise returns an option, or a flag. A text is the list of its ASCII codes.
pub mod Safety
use filecoin_porep_market_to.Prelude.{
  ℕ, zero, suc, ◌==◌, ltb, Bool, true, false, not, ◌&&◌, ◌||◌, Option, none, some, List, [], ◌∷◌,
  nonempty, Result, ok, err, if◌then◌else◌,
}
use filecoin_porep_market_to.Confirm.{Text, same_text, text_in, strip_start, normal}

-- An exception that is an `Exception`, or `SystemExit`.
pub data Fault : Type 0 where
  raised exited : Fault

pub data Event : Type 0 where
  fetched : Text → Text → Event
  asked : Bool → Event
  merged : Text → Text → Event

-- How `git merge --ff-only` ends: without an error, with a `GitCommandError`, or with another exception.
pub data MergeEnd : Type 0 where
  merge_done git_error other_error : MergeEnd

pub record Git (W : Type 0) : Type 0 where
  pub env : Text → W → Option Text
  pub repo_opens : W → Bool
  pub detached : W → Bool
  pub tracking_branch : W → Option (Option (Text × Text))
  pub fetch : Text → Text → W → Bool × W
  pub remote_sha : Text → Text → W → Option ℕ
  pub head_sha : W → Option ℕ
  pub count_commits : ℕ → ℕ → W → Option ℕ
  pub is_dirty : W → Option Bool
  pub active_branch : W → Option Text
  pub confirm : W → Option Bool × W
  pub merge_ff_only : Text → Text → W → MergeEnd × W

pub record Run (W : Type 0) : Type 0 where
  pub world : W
  pub log : List Event

abbrev pub Step : Type 0 → Type 0 → Type 0
Step W A = Run W → Result Fault A × Run W

infixl 5 ◌>>=◌
abbrev pub ◌>>=◌ : {W A B : Type 0} → Step W A → (A → Step W B) → Step W B
◌>>=◌ m f s = let (r, s') = m s in elim r [ ok a ↦ f a s' | err e ↦ (err e, s') ]

abbrev pub pure : {W A : Type 0} → A → Step W A
pure a s = (ok a, s)

-- A read of the world that may raise.
abbrev pub reads : {W A : Type 0} → (W → Option A) → Step W A
reads f s = elim (f s.world) [ some a ↦ (ok a, s) | none ↦ (err raised, s) ]

pub data EnvError : Type 0 where
  not_set unknown_boolean : EnvError

-- `v is None or v.strip() == ""`
unfoldable pub is_empty : Option Text → Bool
is_empty none = true
is_empty (some text) = not (nonempty (strip_start text))

-- The value in the required type.
unfoldable pub parsed {ℓ} :
    {T : Type ℓ} → Option Text → (Text → Result EnvError T) → Result EnvError (Option T)
parsed none parse = ok none
parsed (some text) parse = elim (parse text) [ ok t ↦ ok (some t) | err e ↦ err e ]

-- `get_env`, of what `os.getenv` returns; `parse` is the required type.
unfoldable pub get_env {ℓ} :
    {T : Type ℓ}
    → Option Text
    → Bool
    → Option T
    → (Text → Result EnvError T)
    → Result EnvError (Option T)
get_env value required default parse = elim default [
  | some d ↦ if is_empty value then ok (some d) else parsed value parse
  | none ↦
      if is_empty value
      then (if required then err EnvError.not_set else ok none)
      else parsed value parse
]

-- `string_to_bool`
unfoldable pub string_to_bool : Option Text → Result EnvError (Option Bool)
string_to_bool none = ok none
string_to_bool (some value) =
    let word = normal value in
    if text_in word
      ((116 ∷ 114 ∷ 117 ∷ 101 ∷ []) ∷ (49 ∷ []) ∷ (121 ∷ 101 ∷ 115 ∷ []) ∷ (121 ∷ []) ∷ [])
    then ok (some true)
    else if text_in word
        ((102 ∷ 97 ∷ 108 ∷ 115 ∷ 101 ∷ []) ∷ (48 ∷ []) ∷ (110 ∷ 111 ∷ []) ∷ (110 ∷ []) ∷ [])
    then ok (some false)
    else err EnvError.unknown_boolean

-- `SKIP_SELF_UPDATE`
abbrev pub skip_variable : Text
skip_variable = 83 ∷ 75 ∷ 73 ∷ 80 ∷ 95 ∷ 83 ∷ 69 ∷ 76 ∷ 70 ∷ 95 ∷ 85 ∷ 80 ∷ 68 ∷ 65 ∷ 84 ∷ 69 ∷ []

abbrev pub main_branch : Text
main_branch = 109 ∷ 97 ∷ 105 ∷ 110 ∷ []

abbrev pub master_branch : Text
master_branch = 109 ∷ 97 ∷ 115 ∷ 116 ∷ 101 ∷ 114 ∷ []

abbrev pub false_text : Text
false_text = 102 ∷ 97 ∷ 108 ∷ 115 ∷ 101 ∷ []

-- `UpdateInfo`, without the repository, which the world holds.
pub record UpdateInfo : Type 0 where
  pub remote_name : Text
  pub branch_name : Text
  pub remote_sha : ℕ
  pub commits_behind : ℕ
  pub commits_ahead : ℕ

module _ {W : Type 0} (git : Git W) where
  -- `_skip_self_update`
  unfoldable pub skip_self_update : W → Option Bool
  skip_self_update w = elim (get_env (git.env skip_variable w) false (some false_text) ok) [
    | err _ ↦ none
    | ok value ↦ elim (string_to_bool value) [
      | err _ ↦ none
      | ok none ↦ some false
      | ok (some skip) ↦ some skip
    ]
  ]

  -- `_get_tracking_branch` of the repository, in the first `try` of `check_for_update`: none for an exception or no branch.
  unfoldable pub tracking_branch : W → Option (Text × Text)
  tracking_branch w =
      if not (git.repo_opens w) || git.detached w
      then none
      else elim (git.tracking_branch w) [ none ↦ none | some branch ↦ branch ]

  -- `_commit_counts`, ahead and behind
  unfoldable pub commit_counts : ℕ → ℕ → Step W (ℕ × ℕ)
  commit_counts local_sha remote_sha = if remote_sha == local_sha then pure (0, 0) else do
    ahead ← reads (git.count_commits remote_sha local_sha)
    behind ← reads (git.count_commits local_sha remote_sha)
    pure (ahead, behind)

  -- The second `try` of `check_for_update`: the commits of the remote branch and of HEAD, none for an exception.
  unfoldable pub fetch_shas : Text → Text → Step W (Option (ℕ × ℕ))
  fetch_shas remote_name branch_name s =
      let (fetch_ended, world) = git.fetch remote_name branch_name s.world in
      let s' : Run W = record { world = world; log = fetched remote_name branch_name ∷ s.log } in
      if not fetch_ended
      then (ok none, s')
      else elim (git.remote_sha remote_name branch_name world) [
        | none ↦ (ok none, s')
        | some remote_sha ↦ elim (git.head_sha world) [
          | none ↦ (ok none, s')
          | some local_sha ↦ (ok (some (local_sha, remote_sha)), s')
        ]
      ]

  -- What follows the fetch.
  unfoldable pub compare_with_remote : Text → Text → Option (ℕ × ℕ) → Step W (Option UpdateInfo)
  compare_with_remote remote_name branch_name none = pure none
  compare_with_remote remote_name branch_name (some (local_sha, remote_sha)) = do
    (ahead, behind) ← commit_counts local_sha remote_sha
    if behind == 0
        then pure none
        else pure (
            some (record {
              remote_name = remote_name;
              branch_name = branch_name;
              remote_sha = remote_sha;
              commits_behind = behind;
              commits_ahead = ahead;
            }))

  -- The branch that is checked: in the automatic check none but main and master.
  unfoldable pub checked_branch : Bool → W → Option (Text × Text)
  checked_branch manual w = elim (tracking_branch w) [
    | none ↦ none
    | some (remote_name, branch_name) ↦
        if not manual && not (text_in branch_name (main_branch ∷ master_branch ∷ []))
        then none
        else some (remote_name, branch_name)
  ]

  unfoldable pub check_for_update : Bool → Step W (Option UpdateInfo)
  check_for_update manual = do
    skip ← (if manual then pure false else reads skip_self_update)
    if skip then pure none else λ s. elim (checked_branch manual s.world) [
      | none ↦ (ok none, s)
      | some (remote_name, branch_name) ↦
          (do
            shas ← fetch_shas remote_name branch_name
            compare_with_remote remote_name branch_name shas)
            s
    ]

  -- Whether `_update_unsafe_reason` returns a reason.
  unfoldable pub update_unsafe : UpdateInfo → Step W Bool
  update_unsafe update_info = if ltb 0 update_info.commits_ahead then pure true else do
    dirty ← reads git.is_dirty
    if dirty then pure true else λ s.
        if git.detached s.world then (ok true, s) else elim (git.active_branch s.world) [
          | none ↦ (err raised, s)
          | some branch ↦ (ok (not (same_text branch update_info.branch_name)), s)
        ]

  -- `utils.confirm`, which raises when the user interrupts it.
  unfoldable pub confirm_update : Step W Bool
  confirm_update s =
      let (answer, world) = git.confirm s.world in
      elim answer [
        | none ↦ (err raised, record s { world = world })
        | some yes_answer ↦
            (ok yes_answer, record { world = world; log = asked yes_answer ∷ s.log })
      ]

  -- `_pull_update` and the exit behind it.
  unfoldable pub pull_update : UpdateInfo → Step W (Unit {0})
  pull_update update_info s =
      let (end, world) =
        git.merge_ff_only update_info.remote_name update_info.branch_name s.world in
      let s' : Run W = record {
        world = world;
        log = merged update_info.remote_name update_info.branch_name ∷ s.log;
      } in
      elim end [ other_error ↦ (err raised, s') | _ ↦ (err exited, s') ]

  unfoldable pub prompt_and_update : UpdateInfo → Step W (Unit {0})
  prompt_and_update update_info = do
    unsafe ← update_unsafe update_info
    if unsafe
        then pure tt
        else do yes_answer ← confirm_update; if yes_answer then pull_update update_info else pure tt

  -- The body of the `try` of `check_and_prompt`.
  unfoldable pub check_and_update : Bool → Step W (Unit {0})
  check_and_update manual = do
    update_info ← check_for_update manual
    elim update_info [ none ↦ pure tt | some info ↦ prompt_and_update info ]

  -- `check_and_prompt`: whether it exits, and the run behind it.
  unfoldable pub check_and_prompt : Bool → Run W → Bool × Run W
  check_and_prompt manual s =
      let (r, s') = check_and_update manual s in
      elim r [ ok _ ↦ (false, s') | err e ↦ elim e [ exited ↦ (true, s') | raised ↦ (false, s') ] ]
