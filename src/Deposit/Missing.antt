-- ===== src/Deposit/Missing.antt =====
-- A deposit covers exactly what is missing.
use filecoin_porep_market_to.Prelude.{ℕ, ◌*◌, ◌^◌, ◌≡◌, ◌≤◌, List, map, sum}
use filecoin_porep_market_to.Chain.{DealView}
use filecoin_porep_market_to.Session.{Session}
use filecoin_porep_market_to.Deposit.Amount.{Floats, ceil_div, deposit_result}

-- What the deals need for some months, the amount of each rounded up.
abbrev required : Floats → ℕ → ℕ → List DealView → ℕ
required floats sector_size months deals = sum (
    map
      (λ deal. floats.ceil (
        deposit_result floats deal.requested_size_bytes deal.price_per_32_gib_per_month sector_size
          months))
      deals)

-- The deal's size in sectors is q / 2 ^ k, and the numbers on the way to its amount have at most 53 bits.
abbrev pub FitsFloats : ℕ → ℕ → DealView → Type 0
FitsFloats sector_size months deal =
    let price = deal.price_per_32_gib_per_month in
    (q : ℕ) × (k : ℕ) × (deal.requested_size_bytes * 2 ^ k ≡ q * sector_size)
    × (q ≤ 2 ^ 53)
    × (price ≤ 2 ^ 53)
    × (q * price ≤ 2 ^ 53)
    × (q * price * months ≤ 2 ^ 53)

-- For each deal its size times the price of a sector times the months, over the sector size, rounded
-- up: the exact fraction, without floats.
abbrev pub exact_required : ℕ → ℕ → List DealView → ℕ
exact_required sector_size months deals = sum (
    map
      (λ deal.
        ceil_div (deal.requested_size_bytes * deal.price_per_32_gib_per_month * months) sector_size)
      deals)
