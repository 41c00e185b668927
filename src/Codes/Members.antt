-- ===== src/Codes/Members.antt =====
-- The members of the enumerations of cli/services/contracts: the value of each and its name. The values
-- of the states of a deal, of the types of evidence and of the states of a rail are in Chain.
use Prim.Native.String.{String}
use filecoin_porep_market_to.Prelude.{ℕ}
use filecoin_porep_market_to.Chain.{DealState, EvidenceType, RailStatus}
use filecoin_porep_market_to.Codes.{
  DealType, SettlementReason, SettlementResult, EvidenceResult, AllocationStatus,
}

abbrev pub deal_type_value : DealType → ℕ
deal_type_value DealType.unset = 0
deal_type_value DealType.public = 10
deal_type_value DealType.private = 20

-- `name.lower()`
abbrev pub deal_type_name : DealType → String
deal_type_name DealType.unset = "none"
deal_type_name DealType.public = "public"
deal_type_name DealType.private = "private"

-- `name.lower()`
abbrev pub deal_state_name : DealState → String
deal_state_name DealState.unset = "none"
deal_state_name DealState.proposed = "proposed"
deal_state_name DealState.accepted = "accepted"
deal_state_name DealState.active = "active"
deal_state_name DealState.finalized = "finalized"
deal_state_name DealState.rejected = "rejected"
deal_state_name DealState.expired = "expired"
deal_state_name DealState.early_terminated = "early_terminated"

abbrev pub settlement_reason_value : SettlementReason → ℕ
settlement_reason_value SettlementReason.ok_reason = 0
settlement_reason_value SettlementReason.deal_ended = 10
settlement_reason_value SettlementReason.deal_terminated = 20
settlement_reason_value SettlementReason.too_early = 30
settlement_reason_value SettlementReason.score_below_threshold = 40
settlement_reason_value SettlementReason.data_size_mismatch = 50
settlement_reason_value SettlementReason.evidence_too_stale = 60

-- `name.lower()`
abbrev pub settlement_reason_name : SettlementReason → String
settlement_reason_name SettlementReason.ok_reason = "ok"
settlement_reason_name SettlementReason.deal_ended = "deal_ended"
settlement_reason_name SettlementReason.deal_terminated = "deal_terminated"
settlement_reason_name SettlementReason.too_early = "too_early"
settlement_reason_name SettlementReason.score_below_threshold = "score_below_threshold"
settlement_reason_name SettlementReason.data_size_mismatch = "data_size_mismatch"
settlement_reason_name SettlementReason.evidence_too_stale = "evidence_too_stale"

abbrev pub settlement_result_value : SettlementResult → ℕ
settlement_result_value SettlementResult.unset = 0
settlement_result_value SettlementResult.accepted = 10
settlement_result_value SettlementResult.modified = 20
settlement_result_value SettlementResult.rejected = 30

-- `name.lower()`
abbrev pub settlement_result_name : SettlementResult → String
settlement_result_name SettlementResult.unset = "none"
settlement_result_name SettlementResult.accepted = "accepted"
settlement_result_name SettlementResult.modified = "modified"
settlement_result_name SettlementResult.rejected = "rejected"

-- `name.lower()`
abbrev pub evidence_type_name : EvidenceType → String
evidence_type_name EvidenceType.unset = "none"
evidence_type_name EvidenceType.verif_reg_claims = "verif_reg_claims"
evidence_type_name EvidenceType.sector_placement = "sector_placement"

abbrev pub evidence_result_value : EvidenceResult → ℕ
evidence_result_value EvidenceResult.unset = 0
evidence_result_value EvidenceResult.partial = 10
evidence_result_value EvidenceResult.accepted = 20
evidence_result_value EvidenceResult.rejected = 30
evidence_result_value EvidenceResult.active = 40
evidence_result_value EvidenceResult.inactive = 50
evidence_result_value EvidenceResult.covered_bytes_mismatch = 60

-- `name.lower()`
abbrev pub evidence_result_name : EvidenceResult → String
evidence_result_name EvidenceResult.unset = "none"
evidence_result_name EvidenceResult.partial = "partial"
evidence_result_name EvidenceResult.accepted = "accepted"
evidence_result_name EvidenceResult.rejected = "rejected"
evidence_result_name EvidenceResult.active = "active"
evidence_result_name EvidenceResult.inactive = "inactive"
evidence_result_name EvidenceResult.covered_bytes_mismatch = "covered_bytes_mismatch"

-- `name.lower()`
abbrev pub rail_status_name : RailStatus → String
rail_status_name RailStatus.unset = "none"
rail_status_name RailStatus.prepared = "prepared"
rail_status_name RailStatus.active = "active"
rail_status_name RailStatus.terminated = "terminated"

abbrev pub allocation_status_value : AllocationStatus → ℕ
allocation_status_value AllocationStatus.unset = 0
allocation_status_value AllocationStatus.allocated = 10
allocation_status_value AllocationStatus.claimed = 20
allocation_status_value AllocationStatus.inactive = 30

-- `name.lower()`
abbrev pub allocation_status_name : AllocationStatus → String
allocation_status_name AllocationStatus.unset = "none"
allocation_status_name AllocationStatus.allocated = "allocated"
allocation_status_name AllocationStatus.claimed = "claimed"
allocation_status_name AllocationStatus.inactive = "inactive"
