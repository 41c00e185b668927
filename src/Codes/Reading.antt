-- ===== src/Codes/Reading.antt =====
-- What it is to read the members of an enumeration, and a table that does.
use Prim.Native.String.{String, ◌++◌}
use text.Mathlib.Text.{◌==◌ as str_eq}
use text.Mathlib.TextEquality.{eq_iff}
use filecoin_porep_market_to.Prelude.{
  ℕ, zero, suc, ◌/◌, ◌%◌, ltb, ◌≡◌, ◌≢◌, ◌⊎◌, inl, inr, ◌↔◌, none, some, [], ◌∷◌, if◌then◌else◌,
  arith, Bool-cases, get_elem?,
}
use filecoin_porep_market_to.Codes.{Codes, find_code, from_web3}

abbrev digit : ℕ → String
digit n =
    elim (get_elem? {A = String} ("0" ∷ "1" ∷ "2" ∷ "3" ∷ "4" ∷ "5" ∷ "6" ∷ "7" ∷ "8" ∷ "9" ∷ [])
      n) [ none ↦ "" | some text ↦ text ]

-- The decimal text of a number of at most so many digits.
abbrev decimal_in : ℕ → ℕ → String
decimal_in zero n = ""
decimal_in (suc digits) n =
    let front = decimal_in digits (n / 10) in if ltb n 10 then digit n else front ++ digit (n % 10)

-- The values of the members have three digits at most.
unfoldable pub decimal : ℕ → String
decimal n = decimal_in 3 n

-- The parser of a text reads it as a member exactly if it is not empty and is, normalized, the number
-- of the member or its name.
abbrev pub ReadsMembers :
    {A : Type 0} → (String → String) → String → Codes A → (A → String) → (A → String) → Type 0
ReadsMembers {A} normalize s codes number name =
    (a : A)
    → (from_web3 normalize codes (some s) ≡ some a)
      ↔ ((s ≢ "") × ((normalize s ≡ number a) ⊎ (normalize s ≡ name a)))

module _ {A : Type 0} (number name : A → String) where
  -- The texts of each row are those of its member.
  abbrev pub Texts : Codes A → Type 0
  Texts [] = Unit {0}
  Texts ((code, text, a) ∷ rest) = ((code ≡ number a) × (text ≡ name a)) × Texts rest

  abbrev pub FindsAll : Codes A → Type 0
  FindsAll codes =
      (a : A) → (find_code (number a) codes ≡ some a) × (find_code (name a) codes ≡ some a)

  find_code-Texts :
      (s : String) (codes : Codes A) (a : A)
      → Texts codes
      → find_code s codes ≡ some a
      → (s ≡ number a) ⊎ (s ≡ name a)
  unfolding find_code
  find_code-Texts s [] a texts h = cc
  find_code-Texts s ((code, text, b) ∷ rest) a ((is_code, is_text), texts) h =
      let later = find_code-Texts s rest a texts in
      elim (Bool-cases (str_eq s code)) [
        | inl same ↦
            let e : s ≡ code = (eq_iff s code).0 same in
            let is : b ≡ a = ground arith in inl (cc (e, is_code, is))
        | inr other ↦ elim (Bool-cases (str_eq s text)) [
          | inl same ↦
              let e : s ≡ text = (eq_iff s text).0 same in
              let is : b ≡ a = ground arith in inr (cc (e, is_text, is))
          | inr neither ↦ later (ground arith)
        ]
      ]

  pub from_web3-Reads :
      (normalize : String → String) (s : String) (codes : Codes A)
      → Texts codes
      → FindsAll codes
      → ReadsMembers normalize s codes number name
  unfolding from_web3
  from_web3-Reads normalize s codes texts finds a = (
    λ h. ground (arith, eq_iff s "", find_code-Texts (normalize s) codes a texts),
    λ (some_text, either).
        let found : find_code (normalize s) codes ≡ some a = elim either [
          | inl e ↦ rw (e) (finds a).0
          | inr e ↦ rw (e) (finds a).1
        ] in
        ground (arith, eq_iff s "", found),
  )
