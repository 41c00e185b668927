-- ===== src/Migration/Pair.antt =====
-- The V1/V2 pair of `MigrationService` in cli/migration/service.py, over a snapshot of the chain.
pub mod Ready
pub mod Receipt
pub mod Matching
use mathlib.Core.Option
use filecoin_porep_market_to.Prelude.{
  ℕ, ◌+◌, ◌*◌, ◌/◌, Bool, true, false, Option, none, some, List, [], ◌∷◌, Result, ok, err, leb, ltb,
  ◌==◌, ◌&&◌, ◌||◌, not, if◌then◌else◌, ◌>>=◌, ◌>>◌, raise_if, map, sum, nonempty, difference,
  intersection, take,
}
use filecoin_porep_market_to.Bytes.{big_endian_minimal}
use filecoin_porep_market_to.Chain.{
  Chain, Adapter, LegacyDeal, Rail, Deal, DealView, DealState, EvidenceType, is_state, is_evidence,
}
use filecoin_porep_market_to.Migration.Claim.{
  MigrationError, client_differs, provider_differs, another_market, not_verif_reg,
  already_registered, size_outside_padding, not_accepted, posting_finished, adapter_not_operational,
  registered_bytes_mismatch, not_registered, registered_outside, claim_disappeared,
  claim_not_extended, key_error, chain_mismatch, Claim, RpcClaim, from_rpc,
}
use filecoin_porep_market_to.Migration.Plan.{
  AdoptionPlan, ClaimExtension, source_ids, extension_ids, registered_bytes, size_within_padding,
  build_adoption_plan, datacap_amount, claim_extension_cbor,
}
use filecoin_porep_market_to.Migration.Paging.{adapter_claim_ids}
use filecoin_porep_market_to.Migration.Source.{source_rail, qualify_source, source_claims}

pub record MigrationPair : Type 0 where
  pub source : LegacyDeal
  pub source_rail : Option Rail
  pub target : DealView

-- The check in `MigrationService.__init__`.
unfoldable pub check_chain : Chain → ℕ → Result MigrationError (Unit {0})
check_chain chain source_chain_id =
    raise_if (not (source_chain_id == chain.chain_id))
      (chain_mismatch source_chain_id chain.chain_id)

-- The rail of a pair: one that still pays, where that is required.
pair_rail : Chain → LegacyDeal → Bool → Result MigrationError (Option Rail)
pair_rail chain source true = do rail ← qualify_source chain source; ok (some rail)
pair_rail chain source false = source_rail chain source

unfoldable pub pair : Chain → ℕ → ℕ → Bool → Result MigrationError MigrationPair
unfolding pair_rail
pair chain target_deal_id source_deal_id require_paying =
    let target = chain.deal_view target_deal_id in
    let source = chain.source_deal source_deal_id in
    do
      raise_if (not (target.deal.client_address == source.client))
          (client_differs target_deal_id source_deal_id)
      raise_if (not (target.deal.provider_id == source.provider))
          (provider_differs target_deal_id source_deal_id)
      rail ← pair_rail chain source require_paying
      ok (record { source = source; source_rail = rail; target = target })

-- `DataCapEvidenceAdapter(pair.target.deal.evidence_adapter_address)`
abbrev pub target_adapter : Chain → MigrationPair → Adapter
target_adapter chain p = chain.adapter p.target.deal.evidence_adapter_address

-- `MigrationService.adapter`
unfoldable pub checked_adapter : Chain → MigrationPair → Result MigrationError Adapter
checked_adapter chain p =
    let adapter = target_adapter chain p in
    do
      raise_if (not (adapter.market_address == chain.market)) another_market
      raise_if (not (is_evidence adapter.evidence_type EvidenceType.verif_reg_claims)) not_verif_reg
      ok adapter

-- `ensure_unregistered`
unfoldable pub ensure_unregistered :
    Chain → MigrationPair → AdoptionPlan → Result MigrationError (Unit {0})
ensure_unregistered chain p batch = do
  registered ← adapter_claim_ids (target_adapter chain p) p.target.deal.deal_id
  raise_if (nonempty (intersection (extension_ids batch.extensions) registered))
      (already_registered (take 10 (intersection (extension_ids batch.extensions) registered)))

-- `adoption_progress`: the V1 claim IDs, and those that the V2 adapter holds.
unfoldable pub adoption_progress : Chain → MigrationPair → Result MigrationError (List ℕ × List ℕ)
adoption_progress chain p = do
  registered ← adapter_claim_ids (target_adapter chain p) p.target.deal.deal_id
  ok (chain.source_allocation_ids p.source.deal_id, registered)

unfoldable pub check_target_size :
    Chain → MigrationPair → List Claim → Result MigrationError (Unit {0})
check_target_size chain p claims =
    let claimed = sum (map (λ claim. claim.size) claims) in
    raise_if
      (not (size_within_padding claimed p.target.requested_size_bytes chain.activation_padding))
      (size_outside_padding p.target.requested_size_bytes claimed)

expect_bytes : ℕ → Option ℕ → Result MigrationError (Unit {0})
expect_bytes actual none = err key_error
expect_bytes actual (some expected) =
    raise_if (not (actual == expected)) (registered_bytes_mismatch actual expected)

-- `_check_registered_bytes`
unfoldable pub check_registered_bytes :
    Adapter → ℕ → AdoptionPlan → Result MigrationError (Unit {0})
unfolding expect_bytes
check_registered_bytes adapter deal_id plan =
    expect_bytes (adapter.allocated_bytes deal_id)
      (registered_bytes plan.source_claims plan.registered_ids)

unfoldable pub adoption_plan : Chain → MigrationPair → Bool → Result MigrationError AdoptionPlan
adoption_plan chain p require_operational =
    let deal = p.target.deal in
    do
      raise_if (not (is_state deal.state DealState.accepted)) (not_accepted deal.deal_id)
      adapter ← checked_adapter chain p
      raise_if (adapter.posting_finished deal.deal_id) (posting_finished deal.deal_id)
      raise_if (require_operational && not adapter.operational) adapter_not_operational
      claims ← source_claims chain p.source
      check_target_size chain p claims
      registered ← adapter_claim_ids adapter deal.deal_id
      plan ← build_adoption_plan claims registered chain.block_number
      check_registered_bytes adapter deal.deal_id plan
      ok plan

-- `DataCapTransferParams`: the registry's address, the amount as bytes with no sign, and the
-- operator data.
pub record DataCapTransferParams : Type 0 where
  pub to : List ℕ
  pub amount : List ℕ
  pub amount_is_negative : Bool
  pub operator_data : List ℕ

abbrev pub verified_registry_actor_address : List ℕ
verified_registry_actor_address = 0 ∷ 6 ∷ []

unfoldable pub transfer_params :
    (List (List ℕ) → List (List ℕ) → List ℕ)
    → AdoptionPlan
    → Result MigrationError DataCapTransferParams
transfer_params cbor_dumps batch = do
  operator_data ← claim_extension_cbor cbor_dumps batch.extensions
  ok (record {
    to = verified_registry_actor_address;
    amount = big_endian_minimal (datacap_amount batch);
    amount_is_negative = false;
    operator_data = operator_data;
  })

-- The readback of one extension in `validate_batch_receipt`.
check_extension : ClaimExtension → Option RpcClaim → Result MigrationError (Unit {0})
check_extension extension none = err (claim_disappeared extension.claim_id)
check_extension extension (some raw) = do
  claim ← from_rpc extension.claim_id raw
  raise_if (ltb claim.term_max extension.new_term_max) (claim_not_extended extension.claim_id)

check_extensions : Chain → ℕ → List ClaimExtension → Result MigrationError (Unit {0})
unfolding check_extension
check_extensions chain provider [] = ok tt
check_extensions chain provider (extension ∷ extensions) = do
  check_extension extension (chain.claim provider extension.claim_id)
  check_extensions chain provider extensions

unfoldable pub validate_batch_receipt :
    Chain → MigrationPair → AdoptionPlan → AdoptionPlan → Result MigrationError (Unit {0})
unfolding check_extensions
validate_batch_receipt chain p plan batch =
    let adapter = target_adapter chain p in
    do
      registered ← adapter_claim_ids adapter p.target.deal.deal_id
      let unadopted = difference (extension_ids batch.extensions) registered
      let foreign = difference registered (source_ids plan)
      raise_if (nonempty unadopted) (not_registered unadopted)
      raise_if (nonempty foreign) (registered_outside foreign)
      check_registered_bytes adapter p.target.deal.deal_id (record {
        source_claims = plan.source_claims;
        registered_ids = registered;
        extensions = [];
      })
      check_extensions chain p.source.provider batch.extensions

-- The first V1 deal in the order given that has an ID in common with `registered`.
first_source : Chain → List ℕ → List LegacyDeal → Option ℕ
first_source chain registered [] = none
first_source chain registered (source ∷ sources) =
    let rest = first_source chain registered sources in
    if nonempty (intersection registered (chain.source_allocation_ids source.deal_id))
    then some source.deal_id
    else rest

add_pair : ℕ → Option ℕ → List (ℕ × ℕ) → List (ℕ × ℕ)
add_pair target_id none result = result
add_pair target_id (some source_id) result = (target_id, source_id) ∷ result

-- `pair_by_claims`: V2 deal IDs with the V1 deal that their adapter holds claims of.
unfoldable pub pair_by_claims :
    Chain → List DealView → List LegacyDeal → Result MigrationError (List (ℕ × ℕ))
unfolding first_source add_pair
pair_by_claims chain [] sources = ok []
pair_by_claims chain (target ∷ targets) sources =
    let rest = pair_by_claims chain targets sources in
    let adapter = chain.adapter target.deal.evidence_adapter_address in
    if target.deal.evidence_adapter_address == 0
      || not (is_evidence adapter.evidence_type EvidenceType.verif_reg_claims)
    then rest
    else do
      registered ← adapter_claim_ids adapter target.deal.deal_id
      result ← rest
      ok (add_pair target.deal.deal_id (first_source chain registered sources) result)
