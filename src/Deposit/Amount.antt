-- ===== src/Deposit/Amount.antt =====
-- `calculate_deposit_amount` of cli/commands/utils.py and `bytes_to_sectors` of cli/utils.py. Python's
-- floating-point operations are parameters.
use filecoin_porep_market_to.Prelude.{
  ℕ, ◌-◌, ◌/◌, ◌+◌, ◌*◌, ◌≤◌, ◌<◌, ◌≡◌, ◌^◌, Bool, if◌then◌else◌, ◌==◌,
}
use filecoin_porep_market_to.Session.{assertion_failed, Node, Exec, pure, ◌>>◌, raise_when}
use filecoin_porep_market_to.Transactions.{confirm_or_abort}

-- Python's floats: `a / b` of integers for a `b` that is not zero, the product of a float with an
-- integer, `math.ceil`, and the comparison `x == ceil(x)`.
pub record Floats : Type 1 where
  pub Float : Type 0
  pub divide : ℕ → ℕ → Float
  pub times : Float → ℕ → Float
  pub ceil : Float → ℕ
  pub is_whole : Float → Bool

-- `ceil(a / d)` of numbers
abbrev pub ceil_div : ℕ → ℕ → ℕ
ceil_div a d = (a + d - 1) / d

-- What IEEE 754 says of doubles that are a number of at most 53 bits over a power of two: such a
-- quotient is exact, such a product is exact, and `ceil` is that of the fraction.
-- `Equals x a k` says that x is exactly a / 2 ^ k.
pub record IsIeee (floats : Floats) : Type 1 where
  pub Equals : floats.Float → ℕ → ℕ → Type 0
  pub exact_quotient :
      (a d q k : ℕ) → 0 < d → q ≤ 2 ^ 53 → a * 2 ^ k ≡ q * d → Equals (floats.divide a d) q k
  pub exact_product :
      (x : floats.Float) (a k b : ℕ)
      → Equals x a k
      → b ≤ 2 ^ 53
      → a * b ≤ 2 ^ 53
      → Equals (floats.times x b) (a * b) k
  pub exact_ceil : (x : floats.Float) (a k : ℕ) → Equals x a k → floats.ceil x ≡ ceil_div a (2 ^ k)

unfoldable pub bytes_to_sectors : (floats : Floats) → ℕ → ℕ → floats.Float
bytes_to_sectors floats bytes_size sector_size_bytes = floats.divide bytes_size sector_size_bytes

-- The product before it is rounded up.
unfoldable pub deposit_result : (floats : Floats) → ℕ → ℕ → ℕ → ℕ → floats.Float
unfolding bytes_to_sectors
deposit_result floats size_bytes price sector_size months =
    floats.times (floats.times (bytes_to_sectors floats size_bytes sector_size) price) months

unfoldable pub calculate_deposit_amount : {W : Type 0} → Node W → Floats → ℕ → ℕ → ℕ → ℕ → Exec W ℕ
unfolding deposit_result
calculate_deposit_amount node floats size_bytes price sector_size months = do
  raise_when (months == 0) assertion_failed
  let result = deposit_result floats size_bytes price sector_size months
  if floats.is_whole result then pure tt else confirm_or_abort node
  pure (floats.ceil result)
