-- ===== src/Manifest/Fetch.antt =====
-- The requests that the fetch of a manifest makes.
use filecoin_porep_market_to.Prelude.{
  ℕ, zero, suc, ◌+◌, ◌≤◌, ◌≡◌, ◌⊎◌, inl, inr, Bool, true, false, Option, none, some, List, [], ◌∷◌,
  Result, ok, err, is_err, arith, nonempty, Option-cases, Result-cases,
}
use filecoin_porep_market_to.Confirm.{Text, text_in}
use filecoin_porep_market_to.Manifest.{
  PieceEntry, ManifestError, network_error, unanswered, fetch_asking, ParsedUrl, Address, Response,
  web_schemes, private_urls_allowed, is_disallowed, validate_url, fetch_once, fetch_loop,
  fetch_manifest,
}

-- The guard lets a URL pass: it has a host and a web scheme, and either private addresses are allowed or the host resolves to an address that is
-- neither private, loopback, reserved, link-local nor multicast.
abbrev pub IsAllowed : Option Text → (Text → Option Address) → ParsedUrl → Type 0
IsAllowed variable resolve parsed =
    (nonempty parsed.hostname ≡ true)
    × (text_in parsed.scheme web_schemes ≡ true)
    × ((private_urls_allowed variable ≡ ok true)
        ⊎ ((address : Address) × (resolve parsed.hostname ≡ some address)
            × (address.is_private ≡ false)
            × (address.is_loopback ≡ false)
            × (address.is_reserved ≡ false)
            × (address.is_link_local ≡ false)
            × (address.is_multicast ≡ false)))

validate_url-IsAllowed :
    (variable : Option Text) (resolve : Text → Option Address) (parsed : ParsedUrl)
    → validate_url variable resolve parsed ≡ ok tt
    → IsAllowed variable resolve parsed
unfolding validate_url is_disallowed
validate_url-IsAllowed variable resolve parsed h = elim (Option-cases (resolve parsed.hostname)) [
  | inl unresolved ↦ (ground (arith, h), ground (arith, h), ground (arith, h, unresolved))
  | inr (address, resolved) ↦ elim (Result-cases (private_urls_allowed variable)) [
    | inr (e, bad) ↦ absurd (ground (arith, h, bad))
    | inl (true, allowed) ↦ (ground (arith, h), ground (arith, h), inl allowed)
    | inl (false, guarded) ↦ (
      ground (arith, h),
      ground (arith, h),
      inr (
        address,
        resolved,
        ground (arith, h, guarded, resolved),
        ground (arith, h, guarded, resolved),
        ground (arith, h, guarded, resolved),
        ground (arith, h, guarded, resolved),
        ground (arith, h, guarded, resolved),
      ),
    )
  ]
]

-- The requests from `i` on, so many of them, end without an answer.
abbrev pub Unanswered : (ℕ → Response) → ℕ → ℕ → Type 0
Unanswered responses i zero = Unit {0}
Unanswered responses i (suc n) = (fetch_once (responses i) ≡ none) × Unanswered responses (suc i) n

-- The answer comes from the first response that is no network error, behind at most so many retries, or all the requests failed.
abbrev pub FirstAnswer :
    ManifestError → (ℕ → Response) → ℕ → ℕ → Result ManifestError (List PieceEntry) × ℕ → Type 0
FirstAnswer failure responses retries i (r, requests) =
    ((failures : ℕ) × (failures ≤ retries)
      × (requests ≡ suc (i + failures))
      × Unanswered responses i failures
      × (fetch_once (responses (i + failures)) ≡ some r))
    ⊎ ((requests ≡ suc (i + retries)) × (r ≡ err failure) × Unanswered responses i (suc retries))

fetch_loop-FirstAnswer :
    (responses : ℕ → Response) (retries i : ℕ)
    → FirstAnswer network_error responses retries i (fetch_loop responses retries i)
unfolding fetch_loop
fetch_loop-FirstAnswer responses zero i = elim (Option-cases (fetch_once (responses i))) [
  | inl failed ↦ inr (ground (arith, failed), ground (arith, failed), (failed, tt))
  | inr (r, answered) ↦
      let here : i + 0 ≡ i = omega arith in
      inl (0, omega arith, ground (arith, answered), tt, rw (here) (ground (arith, answered)))
]
fetch_loop-FirstAnswer responses (suc retries) i = elim (Option-cases (fetch_once (responses i))) [
  | inr (r, answered) ↦
      let here : i + 0 ≡ i = omega arith in
      inl (0, omega arith, ground (arith, answered), tt, rw (here) (ground (arith, answered)))
  | inl failed ↦
      let again : fetch_loop responses (suc retries) i ≡ fetch_loop responses retries (suc i) =
        ground (arith, failed) in
      elim (fetch_loop-FirstAnswer responses retries (suc i)) [
        | inl (failures, few, count, missed, answered) ↦
            let later : i + suc failures ≡ suc i + failures = omega arith in
            inl (
              suc failures,
              omega arith,
              rw (later, again) count,
              (failed, missed),
              rw (later, again) answered,
            )
        | inr (count, ended, missed) ↦
            let later : i + suc retries ≡ suc i + retries = omega arith in
            inr (rw (later, again) count, rw (again) ended, (failed, missed))
      ]
]

-- How often the user agrees before the first no, and how the loop ends when all those requests fail.
abbrev pub agreed : List Bool → ℕ
agreed [] = 0
agreed (true ∷ answers) = suc (agreed answers)
agreed (false ∷ answers) = 0

abbrev pub failure_of : List Bool → ManifestError
failure_of [] = unanswered
failure_of (true ∷ answers) = failure_of answers
failure_of (false ∷ answers) = network_error

fetch_asking-FirstAnswer :
    (responses : ℕ → Response) (answers : List Bool) (i : ℕ)
    → FirstAnswer
        (failure_of answers)
        responses
        (agreed answers)
        i
        (fetch_asking responses answers i)
unfolding fetch_asking
fetch_asking-FirstAnswer responses [] i = elim (Option-cases (fetch_once (responses i))) [
  | inl failed ↦ inr (ground (arith, failed), ground (arith, failed), (failed, tt))
  | inr (r, answered) ↦
      let here : i + 0 ≡ i = omega arith in
      inl (0, omega arith, ground (arith, answered), tt, rw (here) (ground (arith, answered)))
]
fetch_asking-FirstAnswer responses (false ∷ answers) i =
    elim (Option-cases (fetch_once (responses i))) [
      | inl failed ↦ inr (ground (arith, failed), ground (arith, failed), (failed, tt))
      | inr (r, answered) ↦
          let here : i + 0 ≡ i = omega arith in
          inl (0, omega arith, ground (arith, answered), tt, rw (here) (ground (arith, answered)))
    ]
fetch_asking-FirstAnswer responses (true ∷ answers) i =
    elim (Option-cases (fetch_once (responses i))) [
      | inr (r, answered) ↦
          let here : i + 0 ≡ i = omega arith in
          inl (0, omega arith, ground (arith, answered), tt, rw (here) (ground (arith, answered)))
      | inl failed ↦
          let again : fetch_asking responses (true ∷ answers) i
              ≡ fetch_asking responses answers (suc i) =
            ground (arith, failed) in
          elim (fetch_asking-FirstAnswer responses answers (suc i)) [
            | inl (failures, few, count, missed, answered) ↦
                let later : i + suc failures ≡ suc i + failures = omega arith in
                inl (
                  suc failures,
                  omega arith,
                  rw (later, again) count,
                  (failed, missed),
                  rw (later, again) answered,
                )
            | inr (count, ended, missed) ↦
                let later : i + suc (agreed answers) ≡ suc i + agreed answers = omega arith in
                inr (rw (later, again) count, rw (again) ended, (failed, missed))
          ]
    ]

-- The number of retries and the last error, by the option and the user's answers.
abbrev pub budget : List Bool → Option ℕ → ℕ
budget answers none = agreed answers
budget answers (some n) = n

abbrev pub last_error : List Bool → Option ℕ → ManifestError
last_error answers none = failure_of answers
last_error answers (some n) = network_error

-- `fetch_manifest` makes no request unless the URL has a host and the scheme http or https, and either
-- private addresses are allowed by the environment or the host resolves to an address that is not
-- private, loopback, reserved, link-local or multicast. Otherwise, with `n` retries, or with `n` prompts that
-- the user answers with yes before the first other one, it makes at most `n + 1` requests, and always returns: what the first response that is no network error and no
-- error of the server gives, a refusal or the checked pieces, with no request behind it, or an error when
-- all `n + 1` requests failed so, which is the network error unless a prompt has no answer.
pub fetch_manifest-FirstAnswer :
    (variable : Option Text) (resolve : Text → Option Address) (responses : ℕ → Response)
    (answers : List Bool) (parsed : ParsedUrl) (retries : Option ℕ)
    → let (r, requests) = fetch_manifest variable resolve responses answers parsed retries in
      ((requests ≡ 0) × (is_err r ≡ true))
      ⊎ (IsAllowed variable resolve parsed
          × FirstAnswer
              (last_error answers retries)
              responses
              (budget answers retries)
              0
              (r, requests))
unfolding fetch_manifest
fetch_manifest-FirstAnswer variable resolve responses answers parsed retries =
    elim (Result-cases (validate_url variable resolve parsed)) [
      | inr (e, refused) ↦ inl (ground (arith, refused), ground (arith, refused))
      | inl (u, passed) ↦
          inr (validate_url-IsAllowed variable resolve parsed passed, behind_guard u passed retries)
    ]
  where
    behind_guard :
        (u : Unit {0})
        → validate_url variable resolve parsed ≡ ok u
        → (retries : Option ℕ)
        → FirstAnswer
            (last_error answers retries)
            responses
            (budget answers retries)
            0
            (fetch_manifest variable resolve responses answers parsed retries)
    behind_guard u passed (some n) =
        let ran : fetch_manifest variable resolve responses answers parsed (some n)
            ≡ fetch_loop responses n 0 =
          ground (arith, passed) in
        rw (ran) (fetch_loop-FirstAnswer responses n 0)
    behind_guard u passed none =
        let ran : fetch_manifest variable resolve responses answers parsed none
            ≡ fetch_asking responses answers 0 =
          ground (arith, passed) in
        rw (ran) (fetch_asking-FirstAnswer responses answers 0)
