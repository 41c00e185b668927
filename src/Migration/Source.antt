-- ===== src/Migration/Source.antt =====
-- The V1 side of `MigrationService` in cli/migration/service.py, over a snapshot of the chain.
pub mod Qualify
pub mod Claims
use Prim.Native.String.{String}
use text.Mathlib.Text.{◌==◌ as str_eq}
use filecoin_porep_market_to.Prelude.{
  ℕ, ◌+◌, Bool, true, false, Option, none, some, List, [], ◌∷◌, Result, ok, err, leb, ltb, ◌==◌,
  ◌&&◌, ◌||◌, not, if◌then◌else◌, ◌>>=◌, ◌>>◌, raise_if, map, sum, distinct, nonempty, keep_if,
  take,
}
use filecoin_porep_market_to.Migration.Claim.{
  MigrationError, no_payment_rail, rail_of_another_deal, rail_read_failed, not_completed,
  rail_settled, rail_terminated, rail_not_paying, source_ids_invalid, claim_missing,
  claim_of_another_client, claim_of_another_provider, claim_data_invalid, claims_terminated,
  claim_bytes_mismatch, Claim, RpcClaim, from_rpc,
}
use filecoin_porep_market_to.Chain.{
  Chain, LegacyDeal, Rail, RailRead, found, inactive_or_settled, failed, legacy_completed,
  legacy_terminated,
}

-- `open_rail`: none once the rail was settled and finalized; another error is raised again.
unfoldable pub open_rail : Chain → ℕ → Result MigrationError (Option Rail)
open_rail chain rail_id = elim (chain.rail rail_id) [
  | found rail ↦ ok (some rail)
  | inactive_or_settled ↦ ok none
  | failed ↦ err (rail_read_failed rail_id)
]

-- The rail must be the one between the deal's client and validator.
belongs : LegacyDeal → Rail → Bool
belongs source rail = (rail.from_address == source.client) && (rail.validator == source.validator)

check_rail : LegacyDeal → Option Rail → Result MigrationError (Option Rail)
unfolding belongs
check_rail source none = ok none
check_rail source (some rail) =
    if not (belongs source rail) then err (rail_of_another_deal source.rail_id) else ok (some rail)

unfoldable pub source_rail : Chain → LegacyDeal → Result MigrationError (Option Rail)
unfolding check_rail
source_rail chain source = do
  raise_if (source.rail_id == 0) (no_payment_rail source.deal_id)
  rail ← open_rail chain source.rail_id
  check_rail source rail

-- The part of `qualify_source` behind the read of the rail.
qualify_rail : LegacyDeal → Option Rail → Result MigrationError Rail
qualify_rail source none = err (rail_settled source.rail_id)
qualify_rail source (some rail) = do
  raise_if (not (rail.end_epoch == 0)) (rail_terminated source.rail_id)
  raise_if (leb rail.payment_rate 0) (rail_not_paying source.rail_id)
  ok rail

unfoldable pub qualify_source : Chain → LegacyDeal → Result MigrationError Rail
unfolding qualify_rail
qualify_source chain source = do
  raise_if (not (source.state == legacy_completed)) (not_completed source.deal_id)
  rail ← source_rail chain source
  qualify_rail source rail

-- A deal that `open_source_deals` skips before it reads the rail. A client filter of none takes
-- the deals of every client.
skipped : Option ℕ → LegacyDeal → Bool
skipped client deal =
    (elim client [ none ↦ false | some address ↦ not (deal.client == address) ])
    || (not ((deal.state == legacy_completed) || (deal.state == legacy_terminated))
        || (deal.rail_id == 0))

paying : Option Rail → Option Rail
paying none = none
paying (some rail) = if ltb 0 rail.payment_rate then some rail else none

-- The loop of `open_source_deals`.
open_deals : Chain → Option ℕ → List LegacyDeal → Result MigrationError (List (LegacyDeal × Rail))
unfolding skipped paying
open_deals chain client [] = ok []
open_deals chain client (deal ∷ deals) =
    let rest = open_deals chain client deals in
    if skipped client deal then rest else do
      rail ← source_rail chain deal
      result ← rest
      ok (elim (paying rail) [ none ↦ result | some payer ↦ (deal, payer) ∷ result ])

unfoldable pub open_source_deals :
    Chain → Option ℕ → Result MigrationError (List (LegacyDeal × Rail))
unfolding open_deals
open_source_deals chain client = open_deals chain client chain.source_deals

-- One round of the loop of `source_claims`: the claim behind an ID, checked.
source_claim : Chain → LegacyDeal → ℕ → Option RpcClaim → Result MigrationError Claim
source_claim chain source claim_id none = err (claim_missing claim_id)
source_claim chain source claim_id (some raw) = do
  claim ← from_rpc claim_id raw
  raise_if (not (claim.client == chain.source_client_actor)) (claim_of_another_client claim_id)
  raise_if (not (claim.provider == source.provider)) (claim_of_another_provider claim_id)
  raise_if (str_eq claim.piece "" || leb claim.size 0) (claim_data_invalid claim_id)
  ok claim

read_claims : Chain → LegacyDeal → List ℕ → Result MigrationError (List Claim)
unfolding source_claim
read_claims chain source [] = ok []
read_claims chain source (id ∷ ids) = do
  claim ← source_claim chain source id (chain.claim source.provider id)
  claims ← read_claims chain source ids
  ok (claim ∷ claims)

-- `_terminated_claim_ids`: the answers come back in the order of the IDs.
terminated_claim_ids : Chain → List ℕ → List ℕ
terminated_claim_ids chain = keep_if chain.source_claim_terminated

unfoldable pub source_claims : Chain → LegacyDeal → Result MigrationError (List Claim)
unfolding read_claims terminated_claim_ids
source_claims chain source =
    let ids = chain.source_allocation_ids source.deal_id in
    let terminated = terminated_claim_ids chain ids in
    do
      raise_if (not (nonempty ids && distinct ids)) source_ids_invalid
      claims ← read_claims chain source ids
      raise_if (nonempty terminated) (claims_terminated (take 10 terminated))
      raise_if
          (not
            (sum (map (λ claim. claim.size) claims) == chain.source_allocated_size source.deal_id))
          (claim_bytes_mismatch source.deal_id)
      ok claims
