-- ===== src/Prelude/Results.antt =====
-- Results of code that may raise, and methods over a state that may raise. What was written
-- before a raise stays written, so the state comes back beside the error too.
use mathlib.Core.Path.{◌≡◌, refl}
use mathlib.Core.Logic.{◌⊎◌, inl, inr}
use mathlib.Core.Bool.{Bool, true, false}

pub data Result {ℓ κ} (E : Type κ) (A : Type ℓ) : Type (ℓ ⊔ κ) where
  ok : A → Result E A
  err : E → Result E A

-- `if b: raise e`
abbrev pub raise_if {κ} : {E : Type κ} → Bool → E → Result E (Unit {0})
raise_if true e = err e
raise_if false e = ok tt

infixl 5 ◌>>◌ ◌>>=◌
abbrev pub ◌>>=◌ {ι κ ℓ} :
    {A : Type ℓ} {E : Type κ} {B : Type ι} → Result E A → (A → Result E B) → Result E B
err raised >>= next = err raised
ok value >>= next = next value

abbrev pub ◌>>◌ {ι κ} : {E : Type κ} {B : Type ι} → Result E (Unit {0}) → Result E B → Result E B
first >> rest = first >>= λ _. rest

pub Result-cases {ℓ κ} :
    {E : Type κ} {A : Type ℓ} (r : Result E A) → ((a : A) × (r ≡ ok a)) ⊎ ((e : E) × (r ≡ err e))
Result-cases (ok a) = inl (a, refl)
Result-cases (err e) = inr (e, refl)

abbrev pub is_err {ℓ κ} : {E : Type κ} {A : Type ℓ} → Result E A → Bool
is_err (ok a) = false
is_err (err e) = true

-- What a chain that returned says of its first action.
pub >>=-returned {ι κ ℓ} :
    {A : Type ℓ} {E : Type κ} {B : Type ι} (action : Result E A) (next : A → Result E B) (final : B)
    → (action >>= next) ≡ ok final
    → (middle : A) × (next middle ≡ ok final) × (action ≡ ok middle)
>>=-returned (err raised) next final returned = cc
>>=-returned (ok middle) next final returned = (middle, returned, refl)
