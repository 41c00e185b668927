-- ===== src/Prelude/BitLength.antt =====
-- Python's `int.bit_length` of a number that is not negative.
use native.Mathlib.Nat.{pow-suc, pow-le-pow_right}
use native.Mathlib.Decide.{dec_lt}
use filecoin_porep_market_to.Prelude.{
  ℕ, zero, suc, ◌*◌, ◌/◌, ◌^◌, ◌≤◌, ◌<◌, ◌≡◌, refl, true, false, arith, ◌==◌,
}

zero_lt_two : 0 < 2
zero_lt_two = omega arith

-- The number of halvings until 0, on fuel.
halvings : ℕ → ℕ → ℕ
halvings zero n = 0
halvings (suc fuel) n = elim (n == 0) [ true ↦ 0 | false ↦ suc (halvings fuel (n / 2)) ]

unfoldable pub bit_length : ℕ → ℕ
unfolding halvings
bit_length n = halvings n n

halvings_zero : (fuel : ℕ) → halvings fuel 0 ≡ 0
unfolding halvings
halvings_zero zero = refl
halvings_zero (suc fuel) = refl

halvings_step : (fuel n : ℕ) → 0 < n → halvings (suc fuel) n ≡ suc (halvings fuel (n / 2))
unfolding halvings
halvings_step fuel n positive = let z : (n == 0) ≡ false = ground arith in rw (z, halvings)

halvings_bounds :
    (fuel n : ℕ) → 0 < n → n ≤ fuel → (2 ^ halvings fuel n ≤ 2 * n) × (n < 2 ^ halvings fuel n)
halvings_bounds zero n positive enough = absurd (omega arith)
halvings_bounds (suc fuel) n positive enough = elim (dec_lt 1 n) [
  | yes large ↦ rw (halvings_step fuel n positive) (
      omega (
        arith,
        pow-suc 2 (halvings fuel (n / 2)),
        halvings_bounds fuel (n / 2) (omega arith) (omega arith),
      ))
  | no small ↦
      let one : n ≡ 1 = omega arith in
      rw (one, halvings_step fuel 1 (omega arith), halvings_zero fuel) (omega arith)
]

-- The bit length k of a positive n is the one with 2 ^ (k - 1) ≤ n < 2 ^ k.
pub bit_length_bounds : (n : ℕ) → 0 < n → (2 ^ bit_length n ≤ 2 * n) × (n < 2 ^ bit_length n)
unfolding bit_length
bit_length_bounds n positive = halvings_bounds n n positive (omega arith)

-- Powers of two are ordered as their exponents.
pub lt_of_pow_lt : (a b : ℕ) → 2 ^ a < 2 ^ b → a < b
lt_of_pow_lt a b h = elim (dec_lt a b) [
  | yes below ↦ below
  | no above ↦ absurd (omega (arith, pow-le-pow_right zero_lt_two {i = b} {j = a} (omega arith)))
]
