-- ===== src/Chain.antt =====
-- What the tool reads of the chain: the views of the contract services under
-- cli/services/contracts and cli/migration/legacy_porep_market.py, and a snapshot of the answers
-- of the RPC node. Addresses, actor IDs and epochs are numbers, and the zero address is 0.
use Prim.Native.String.{String}
use filecoin_porep_market_to.Prelude.{ℕ, Bool, Option, List, ◌==◌}
use filecoin_porep_market_to.Migration.Claim.{RpcClaim}

pub data DealState : Type 0 where
  unset proposed accepted active finalized rejected expired early_terminated : DealState

-- The values of the enumeration `PoRepMarketDealState`.
abbrev pub state_value : DealState → ℕ
state_value DealState.unset = 0
state_value DealState.proposed = 10
state_value DealState.accepted = 20
state_value DealState.active = 30
state_value DealState.finalized = 40
state_value DealState.rejected = 50
state_value DealState.expired = 60
state_value DealState.early_terminated = 70

abbrev pub is_state : DealState → DealState → Bool
is_state s t = state_value s == state_value t

pub data EvidenceType : Type 0 where
  unset verif_reg_claims sector_placement : EvidenceType

-- The values of the enumeration `EvidenceType`.
abbrev pub evidence_value : EvidenceType → ℕ
evidence_value EvidenceType.unset = 0
evidence_value EvidenceType.verif_reg_claims = 10
evidence_value EvidenceType.sector_placement = 20

abbrev pub is_evidence : EvidenceType → EvidenceType → Bool
is_evidence s t = evidence_value s == evidence_value t

pub data RailStatus : Type 0 where
  unset prepared active terminated : RailStatus

-- The values of the enumeration `FileCoinPayRailStatus`.
abbrev pub status_value : RailStatus → ℕ
status_value RailStatus.unset = 0
status_value RailStatus.prepared = 10
status_value RailStatus.active = 20
status_value RailStatus.terminated = 100

abbrev pub is_status : RailStatus → RailStatus → Bool
is_status s t = status_value s == status_value t

-- `LegacyDeal`, the V1 deal.
pub record LegacyDeal : Type 0 where
  pub deal_id : ℕ
  pub client : ℕ
  pub provider : ℕ
  pub requirements : List ℕ
  pub size_bytes : ℕ
  pub price_per_32_gib_per_month : ℕ
  pub duration_days : ℕ
  pub validator : ℕ
  pub state : ℕ
  pub rail_id : ℕ
  pub proposed_at_epoch : ℕ
  pub manifest_location : String
  pub manifest_hash : List ℕ

-- `LegacyDeal.COMPLETED` and `LegacyDeal.TERMINATED`
abbrev pub legacy_completed : ℕ
legacy_completed = 2

abbrev pub legacy_terminated : ℕ
legacy_terminated = 4

-- `FileCoinPayRailView`
pub record Rail : Type 0 where
  pub token : ℕ
  pub from_address : ℕ
  pub to_address : ℕ
  pub operator : ℕ
  pub validator : ℕ
  pub payment_rate : ℕ
  pub lockup_period : ℕ
  pub lockup_fixed : ℕ
  pub settled_up_to : ℕ
  pub end_epoch : ℕ
  pub commission_rate_bps : ℕ
  pub service_fee_recipient : ℕ

-- The answer to `FileCoinPay().get_rail`: the view, the revert `RailInactiveOrSettled`, or
-- another error.
pub data RailRead : Type 0 where
  found : Rail → RailRead
  inactive_or_settled : RailRead
  failed : RailRead

-- `PoRepMarketDeal`
pub record Deal : Type 0 where
  pub deal_id : ℕ
  pub client_address : ℕ
  pub provider_id : ℕ
  pub offer_id : ℕ
  pub state : DealState
  pub evidence_adapter_address : ℕ
  pub validator_address : ℕ
  pub rail_id : ℕ
  pub proposed_at_epoch : ℕ

-- `PoRepMarketDealView`, with the fields of its parts that are read here.
pub record DealView : Type 0 where
  pub deal : Deal
  pub manifest_hash : List ℕ
  pub manifest_location : String
  pub requested_size_bytes : ℕ
  pub duration_epochs : ℕ
  pub service_start_epoch : ℕ
  pub service_end_epoch : ℕ
  pub payment_token : ℕ
  pub price_per_32_gib_per_month : ℕ

-- `SPRegistryProviderInput`
pub record ProviderInput : Type 0 where
  pub provider_id : ℕ
  pub organization_address : ℕ
  pub available_bytes : ℕ
  pub payee_address : ℕ

-- `SPRegistryProviderView`
pub record ProviderView : Type 0 where
  pub provider_id : ℕ
  pub organization_address : ℕ
  pub payee_address : ℕ
  pub paused : Bool
  pub blocked : Bool
  pub available_bytes : ℕ
  pub committed_bytes : ℕ
  pub pending_bytes : ℕ

-- `SPRegistryOfferPaymentView`
pub record OfferPayment : Type 0 where
  pub token : ℕ
  pub active : Bool
  pub price_per_32_gib_per_month : ℕ

-- `SPRegistryOfferTerms`
pub record OfferTerms : Type 0 where
  pub min_size_bytes : ℕ
  pub max_size_bytes : ℕ
  pub min_duration_epochs : ℕ
  pub max_duration_epochs : ℕ

-- `PoRepMarketSLIThresholds`
pub record SliThresholds : Type 0 where
  pub retrievability_bps : ℕ
  pub bandwidth_bytes_per_second : ℕ
  pub latency_ms : ℕ
  pub indexing_pct : ℕ

-- `SPRegistryOfferInput`
pub record OfferInput : Type 0 where
  pub provider_id : ℕ
  pub terms : OfferTerms
  pub slis : SliThresholds
  pub payments : List OfferPayment

-- The reads of an evidence adapter. A page is asked for by deal, offset and limit, and comes with
-- the total number of IDs.
pub record Adapter : Type 0 where
  pub market_address : ℕ
  pub evidence_type : EvidenceType
  pub allocation_page : ℕ → ℕ → ℕ → List ℕ × ℕ
  pub claim_page : ℕ → ℕ → ℕ → List ℕ × ℕ
  pub posting_finished : ℕ → Bool
  pub operational : Bool
  pub allocated_bytes : ℕ → ℕ

-- The answers at one moment. The fields that begin with `source` are those of the V1 contracts.
pub record Chain : Type 0 where
  pub chain_id : ℕ
  pub block_number : ℕ
  pub rail : ℕ → RailRead
  pub source_deal : ℕ → LegacyDeal
  pub source_deals : List LegacyDeal
  pub source_allocation_ids : ℕ → List ℕ
  pub source_allocated_size : ℕ → ℕ
  pub source_claim_terminated : ℕ → Bool
  pub source_client_actor : ℕ
  pub claim : ℕ → ℕ → Option RpcClaim
  pub deal_view : ℕ → DealView
  pub deal_views : List DealView
  pub adapter : ℕ → Adapter
  pub market : ℕ
  pub activation_padding : ℕ
  pub rail_status : ℕ → RailStatus
  pub operator_approved : ℕ → ℕ → ℕ → Bool
  pub validator_instance : ℕ → ℕ
  pub token_balance : ℕ → ℕ → ℕ
  pub sector_size : ℕ
  pub funds : ℕ → ℕ → ℕ
  pub lockup_current : ℕ → ℕ → ℕ
  pub all_deals : List Deal
  pub epochs_in_month : ℕ
  pub is_provider_registered : ℕ → Bool
  pub provider_row : ℕ → ProviderView
