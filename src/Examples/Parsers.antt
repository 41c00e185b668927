-- ===== src/Examples/Parsers.antt =====
-- The parsers of codes at a text that is normal already.
use Prim.Native.String.{String}
use filecoin_porep_market_to.Prelude.{◌≡◌, refl, some}
use filecoin_porep_market_to.Chain.{DealState, state_value, evidence_value, status_value}
use filecoin_porep_market_to.Codes.{
  from_web3, find_code, deal_type_codes, deal_state_codes, settlement_reason_codes,
  settlement_result_codes, evidence_type_codes, evidence_result_codes, rail_status_codes,
  allocation_status_codes,
}
use filecoin_porep_market_to.Codes.Members.{
  deal_type_value, settlement_reason_value, settlement_result_value, evidence_result_value,
  allocation_status_value, deal_type_name, deal_state_name, settlement_reason_name,
  settlement_result_name, evidence_type_name, evidence_result_name, rail_status_name,
  allocation_status_name,
}
use filecoin_porep_market_to.Codes.Parsing.{from_web3-ReadsMembers}
use filecoin_porep_market_to.Codes.Reading.{decimal, ReadsMembers}

abbrev unchanged : String → String
unchanged s = s

state_by_number : from_web3 unchanged deal_state_codes (some "20") ≡ some DealState.accepted
unfolding from_web3 find_code
state_by_number = refl

decimal_state : decimal (state_value DealState.early_terminated) ≡ "70"
unfolding decimal
decimal_state = refl

decimal_status : decimal 100 ≡ "100"
unfolding decimal
decimal_status = refl

from_web3-ReadsMembers_example :
    ReadsMembers unchanged "accepted" deal_type_codes
      (λ a. decimal (deal_type_value a))
      deal_type_name
    × ReadsMembers unchanged "accepted" deal_state_codes
        (λ a. decimal (state_value a))
        deal_state_name
    × ReadsMembers unchanged "accepted" settlement_reason_codes
        (λ a. decimal (settlement_reason_value a))
        settlement_reason_name
    × ReadsMembers unchanged "accepted" settlement_result_codes
        (λ a. decimal (settlement_result_value a))
        settlement_result_name
    × ReadsMembers unchanged "accepted" evidence_type_codes
        (λ a. decimal (evidence_value a))
        evidence_type_name
    × ReadsMembers unchanged "accepted" evidence_result_codes
        (λ a. decimal (evidence_result_value a))
        evidence_result_name
    × ReadsMembers unchanged "accepted" rail_status_codes
        (λ a. decimal (status_value a))
        rail_status_name
    × ReadsMembers unchanged "accepted" allocation_status_codes
        (λ a. decimal (allocation_status_value a))
        allocation_status_name
from_web3-ReadsMembers_example = from_web3-ReadsMembers unchanged "accepted"
