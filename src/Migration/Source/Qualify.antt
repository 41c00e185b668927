-- ===== src/Migration/Source/Qualify.antt =====
-- Which V1 deals may be migrated, and which are listed as still paying.
use filecoin_porep_market_to.Prelude.{◌<◌, ◌≡◌, ◌≢◌, ◌↔◌, some, ok, arith}
use filecoin_porep_market_to.Chain.{Chain, LegacyDeal, Rail, found, legacy_completed}
use filecoin_porep_market_to.Migration.Source.{open_rail, belongs, source_rail, qualify_source}

-- A rail of the deal that is on chain and between its client and its validator.
pub record IsRailOf (chain : Chain) (source : LegacyDeal) (rail : Rail) : Type 0 where
  pub has_rail : source.rail_id ≢ 0
  pub on_chain : chain.rail source.rail_id ≡ found rail
  pub payer : rail.from_address ≡ source.client
  pub validator : rail.validator ≡ source.validator

pub source_rail-IsRailOf :
    (chain : Chain) (source : LegacyDeal) (rail : Rail)
    → source_rail chain source ≡ ok (some rail)
    → IsRailOf chain source rail
unfolding source_rail open_rail belongs
source_rail-IsRailOf chain source rail h = ground arith

-- A V1 deal qualifies for migration exactly with a rail such that the deal is completed, the rail
-- is the deal's own, between its client and its validator, and the rail is not terminated and
-- pays a positive rate.
pub qualify_source_iff :
    (chain : Chain) (source : LegacyDeal) (rail : Rail)
    → (qualify_source chain source ≡ ok rail) ↔ (
        (source.state ≡ legacy_completed)
        × IsRailOf chain source rail
        × (rail.end_epoch ≡ 0)
        × (0 < rail.payment_rate))
unfolding qualify_source source_rail open_rail belongs
qualify_source_iff chain source rail = (λ h. ground arith, λ h. ground arith)
