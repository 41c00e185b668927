-- ===== src/Deposit/Rounding.antt =====
-- The quotient rounded up does not depend on how the fraction is written.
use native.Mathlib.Nat.{div-lt_iff_lt-mul, lt-div-mul-add, mul-le-mul_right, le_of_mul-le-mul_right}
use filecoin_porep_market_to.Prelude.{ℕ, ◌+◌, ◌-◌, ◌*◌, ◌≤◌, ◌<◌, ◌≡◌, sym, arith}
use filecoin_porep_market_to.Deposit.Amount.{ceil_div}

-- The least number that covers the quotient.
le_ceil_div : (a d : ℕ) → 0 < d → a ≤ ceil_div a d * d
le_ceil_div a d h = omega (arith, lt-div-mul-add {a = a + d - 1} {b = d} h)

ceil_div_least : (a d c : ℕ) → 0 < d → a ≤ c * d → ceil_div a d ≤ c
ceil_div_least a d c h bound =
    let e : (c + 1) * d ≡ c * d + d = omega arith in
    let below : a + d - 1 < (c + 1) * d = omega arith in
    omega (arith, (div-lt_iff_lt-mul {k = d} {x = a + d - 1} {y = c + 1} h).1 below)

ceil_div_le : (a k b d : ℕ) → 0 < k → 0 < d → a * d ≡ b * k → ceil_div a k ≤ ceil_div b d
ceil_div_le a k b d some_k some_d same =
    let c = ceil_div b d in
    let covers = le_ceil_div b d some_d in
    let scaled = mul-le-mul_right k covers in
    let e : c * d * k ≡ c * k * d = grind arith in
    ceil_div_least a k c some_k (le_of_mul-le-mul_right (omega arith) some_d)

pub ceil_div_eq : (a k b d : ℕ) → 0 < k → 0 < d → a * d ≡ b * k → ceil_div a k ≡ ceil_div b d
ceil_div_eq a k b d some_k some_d same =
    let below = ceil_div_le a k b d some_k some_d same in
    let above = ceil_div_le b d a k some_d some_k (sym same) in omega arith
