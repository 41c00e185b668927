-- ===== src/Codes/Parsing.antt =====
-- A parser of codes accepts exactly the number and the name of a member, for each member.
use Prim.Native.String.{String}
use filecoin_porep_market_to.Prelude.{refl}
use filecoin_porep_market_to.Chain.{
  DealState, EvidenceType, RailStatus, state_value, evidence_value, status_value,
}
use filecoin_porep_market_to.Codes.{
  DealType, SettlementReason, SettlementResult, EvidenceResult, AllocationStatus, find_code,
  deal_type_codes, deal_state_codes, settlement_reason_codes, settlement_result_codes,
  evidence_type_codes, evidence_result_codes, rail_status_codes, allocation_status_codes,
}
use filecoin_porep_market_to.Codes.Members.{
  deal_type_value, settlement_reason_value, settlement_result_value, evidence_result_value,
  allocation_status_value, deal_type_name, deal_state_name, settlement_reason_name,
  settlement_result_name, evidence_type_name, evidence_result_name, rail_status_name,
  allocation_status_name,
}
use filecoin_porep_market_to.Codes.Reading.{decimal, ReadsMembers, Texts, FindsAll, from_web3-Reads}

deal_type_codes-Texts : Texts (λ a. decimal (deal_type_value a)) deal_type_name deal_type_codes
unfolding decimal
deal_type_codes-Texts = ((refl, refl), ((refl, refl), ((refl, refl), tt)))

deal_type_codes-FindsAll :
    FindsAll (λ a. decimal (deal_type_value a)) deal_type_name deal_type_codes
unfolding find_code decimal
deal_type_codes-FindsAll DealType.unset = (refl, refl)
deal_type_codes-FindsAll DealType.public = (refl, refl)
deal_type_codes-FindsAll DealType.private = (refl, refl)

deal_state_codes-Texts : Texts (λ a. decimal (state_value a)) deal_state_name deal_state_codes
unfolding decimal
deal_state_codes-Texts = (
  (refl, refl),
  (
    (refl, refl),
    (
      (refl, refl),
      ((refl, refl), ((refl, refl), ((refl, refl), ((refl, refl), ((refl, refl), tt))))),
    ),
  ),
)

deal_state_codes-FindsAll : FindsAll (λ a. decimal (state_value a)) deal_state_name deal_state_codes
unfolding find_code decimal
deal_state_codes-FindsAll DealState.unset = (refl, refl)
deal_state_codes-FindsAll DealState.proposed = (refl, refl)
deal_state_codes-FindsAll DealState.accepted = (refl, refl)
deal_state_codes-FindsAll DealState.active = (refl, refl)
deal_state_codes-FindsAll DealState.finalized = (refl, refl)
deal_state_codes-FindsAll DealState.rejected = (refl, refl)
deal_state_codes-FindsAll DealState.expired = (refl, refl)
deal_state_codes-FindsAll DealState.early_terminated = (refl, refl)

settlement_reason_codes-Texts :
    Texts (λ a. decimal (settlement_reason_value a)) settlement_reason_name settlement_reason_codes
unfolding decimal
settlement_reason_codes-Texts = (
  (refl, refl),
  (
    (refl, refl),
    ((refl, refl), ((refl, refl), ((refl, refl), ((refl, refl), ((refl, refl), tt))))),
  ),
)

settlement_reason_codes-FindsAll :
    FindsAll
      (λ a. decimal (settlement_reason_value a))
      settlement_reason_name
      settlement_reason_codes
unfolding find_code decimal
settlement_reason_codes-FindsAll SettlementReason.ok_reason = (refl, refl)
settlement_reason_codes-FindsAll SettlementReason.deal_ended = (refl, refl)
settlement_reason_codes-FindsAll SettlementReason.deal_terminated = (refl, refl)
settlement_reason_codes-FindsAll SettlementReason.too_early = (refl, refl)
settlement_reason_codes-FindsAll SettlementReason.score_below_threshold = (refl, refl)
settlement_reason_codes-FindsAll SettlementReason.data_size_mismatch = (refl, refl)
settlement_reason_codes-FindsAll SettlementReason.evidence_too_stale = (refl, refl)

settlement_result_codes-Texts :
    Texts (λ a. decimal (settlement_result_value a)) settlement_result_name settlement_result_codes
unfolding decimal
settlement_result_codes-Texts = ((refl, refl), ((refl, refl), ((refl, refl), ((refl, refl), tt))))

settlement_result_codes-FindsAll :
    FindsAll
      (λ a. decimal (settlement_result_value a))
      settlement_result_name
      settlement_result_codes
unfolding find_code decimal
settlement_result_codes-FindsAll SettlementResult.unset = (refl, refl)
settlement_result_codes-FindsAll SettlementResult.accepted = (refl, refl)
settlement_result_codes-FindsAll SettlementResult.modified = (refl, refl)
settlement_result_codes-FindsAll SettlementResult.rejected = (refl, refl)

evidence_type_codes-Texts :
    Texts (λ a. decimal (evidence_value a)) evidence_type_name evidence_type_codes
unfolding decimal
evidence_type_codes-Texts = ((refl, refl), ((refl, refl), ((refl, refl), tt)))

evidence_type_codes-FindsAll :
    FindsAll (λ a. decimal (evidence_value a)) evidence_type_name evidence_type_codes
unfolding find_code decimal
evidence_type_codes-FindsAll EvidenceType.unset = (refl, refl)
evidence_type_codes-FindsAll EvidenceType.verif_reg_claims = (refl, refl)
evidence_type_codes-FindsAll EvidenceType.sector_placement = (refl, refl)

evidence_result_codes-Texts :
    Texts (λ a. decimal (evidence_result_value a)) evidence_result_name evidence_result_codes
unfolding decimal
evidence_result_codes-Texts = (
  (refl, refl),
  (
    (refl, refl),
    ((refl, refl), ((refl, refl), ((refl, refl), ((refl, refl), ((refl, refl), tt))))),
  ),
)

evidence_result_codes-FindsAll :
    FindsAll (λ a. decimal (evidence_result_value a)) evidence_result_name evidence_result_codes
unfolding find_code decimal
evidence_result_codes-FindsAll EvidenceResult.unset = (refl, refl)
evidence_result_codes-FindsAll EvidenceResult.partial = (refl, refl)
evidence_result_codes-FindsAll EvidenceResult.accepted = (refl, refl)
evidence_result_codes-FindsAll EvidenceResult.rejected = (refl, refl)
evidence_result_codes-FindsAll EvidenceResult.active = (refl, refl)
evidence_result_codes-FindsAll EvidenceResult.inactive = (refl, refl)
evidence_result_codes-FindsAll EvidenceResult.covered_bytes_mismatch = (refl, refl)

rail_status_codes-Texts : Texts (λ a. decimal (status_value a)) rail_status_name rail_status_codes
unfolding decimal
rail_status_codes-Texts = ((refl, refl), ((refl, refl), ((refl, refl), ((refl, refl), tt))))

rail_status_codes-FindsAll :
    FindsAll (λ a. decimal (status_value a)) rail_status_name rail_status_codes
unfolding find_code decimal
rail_status_codes-FindsAll RailStatus.unset = (refl, refl)
rail_status_codes-FindsAll RailStatus.prepared = (refl, refl)
rail_status_codes-FindsAll RailStatus.active = (refl, refl)
rail_status_codes-FindsAll RailStatus.terminated = (refl, refl)

allocation_status_codes-Texts :
    Texts (λ a. decimal (allocation_status_value a)) allocation_status_name allocation_status_codes
unfolding decimal
allocation_status_codes-Texts = ((refl, refl), ((refl, refl), ((refl, refl), ((refl, refl), tt))))

allocation_status_codes-FindsAll :
    FindsAll
      (λ a. decimal (allocation_status_value a))
      allocation_status_name
      allocation_status_codes
unfolding find_code decimal
allocation_status_codes-FindsAll AllocationStatus.unset = (refl, refl)
allocation_status_codes-FindsAll AllocationStatus.allocated = (refl, refl)
allocation_status_codes-FindsAll AllocationStatus.claimed = (refl, refl)
allocation_status_codes-FindsAll AllocationStatus.inactive = (refl, refl)

-- Each of the eight parsers reads a text as a member exactly if the text is not empty and, stripped and
-- in lower case, is the decimal value of the member in its Python class or the member's name in
-- lower case; this holds for every text and every member.
pub from_web3-ReadsMembers :
    (normalize : String → String) (s : String)
    → ReadsMembers normalize s deal_type_codes (λ a. decimal (deal_type_value a)) deal_type_name
      × ReadsMembers normalize s deal_state_codes (λ a. decimal (state_value a)) deal_state_name
      × ReadsMembers normalize s settlement_reason_codes
          (λ a. decimal (settlement_reason_value a))
          settlement_reason_name
      × ReadsMembers normalize s settlement_result_codes
          (λ a. decimal (settlement_result_value a))
          settlement_result_name
      × ReadsMembers normalize s evidence_type_codes
          (λ a. decimal (evidence_value a))
          evidence_type_name
      × ReadsMembers normalize s evidence_result_codes
          (λ a. decimal (evidence_result_value a))
          evidence_result_name
      × ReadsMembers normalize s rail_status_codes (λ a. decimal (status_value a)) rail_status_name
      × ReadsMembers normalize s allocation_status_codes
          (λ a. decimal (allocation_status_value a))
          allocation_status_name
from_web3-ReadsMembers normalize s = (
  from_web3-Reads (λ a. decimal (deal_type_value a)) deal_type_name normalize s deal_type_codes
      deal_type_codes-Texts deal_type_codes-FindsAll,
  from_web3-Reads (λ a. decimal (state_value a)) deal_state_name normalize s deal_state_codes
      deal_state_codes-Texts deal_state_codes-FindsAll,
  from_web3-Reads (λ a. decimal (settlement_reason_value a)) settlement_reason_name normalize s
      settlement_reason_codes settlement_reason_codes-Texts settlement_reason_codes-FindsAll,
  from_web3-Reads (λ a. decimal (settlement_result_value a)) settlement_result_name normalize s
      settlement_result_codes settlement_result_codes-Texts settlement_result_codes-FindsAll,
  from_web3-Reads (λ a. decimal (evidence_value a)) evidence_type_name normalize s
      evidence_type_codes evidence_type_codes-Texts evidence_type_codes-FindsAll,
  from_web3-Reads (λ a. decimal (evidence_result_value a)) evidence_result_name normalize s
      evidence_result_codes evidence_result_codes-Texts evidence_result_codes-FindsAll,
  from_web3-Reads (λ a. decimal (status_value a)) rail_status_name normalize s rail_status_codes
      rail_status_codes-Texts rail_status_codes-FindsAll,
  from_web3-Reads (λ a. decimal (allocation_status_value a)) allocation_status_name normalize s
      allocation_status_codes allocation_status_codes-Texts allocation_status_codes-FindsAll,
)
