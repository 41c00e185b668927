-- ===== src/Codes.antt =====
-- The enumerations of cli/services/contracts and their parsers `from_web3`. The text that they compare,
-- `str(s).strip().lower()`, is a parameter: a function `normalize` of the text of the input.
pub mod Members
pub mod Parsing
pub mod Reading
use Prim.Native.String.{String}
use text.Mathlib.Text.{◌==◌ as str_eq}
use filecoin_porep_market_to.Prelude.{
  Bool, true, false, ◌||◌, Option, none, some, List, [], ◌∷◌, if◌then◌else◌,
}
use filecoin_porep_market_to.Chain.{DealState, EvidenceType, RailStatus}

pub data DealType : Type 0 where
  unset public private : DealType

pub data SettlementReason : Type 0 where
  ok_reason deal_ended deal_terminated too_early score_below_threshold data_size_mismatch
        evidence_too_stale :
      SettlementReason

pub data SettlementResult : Type 0 where
  unset accepted modified rejected : SettlementResult

pub data EvidenceResult : Type 0 where
  unset partial accepted rejected active inactive covered_bytes_mismatch : EvidenceResult

pub data AllocationStatus : Type 0 where
  unset allocated claimed inactive : AllocationStatus

-- The branches of a parser, in order: the texts of the number and of the name, and the result.
abbrev pub Codes : Type 0 → Type 0
Codes A = List (String × String × A)

unfoldable pub find_code : {A : Type 0} → String → Codes A → Option A
find_code s [] = none
find_code s ((code, name, a) ∷ rest) =
    let later = find_code s rest in if str_eq s code || str_eq s name then some a else later

-- `from_web3` of an enumeration; none stands for the `ValueError`.
unfoldable pub from_web3 : {A : Type 0} → (String → String) → Codes A → Option String → Option A
from_web3 normalize codes none = none
from_web3 normalize codes (some s) =
    let parsed = find_code (normalize s) codes in if str_eq s "" then none else parsed

abbrev pub deal_type_codes : Codes DealType
deal_type_codes =
    ("0", "none", DealType.unset)
    ∷ ("10", "public", DealType.public)
    ∷ ("20", "private", DealType.private)
    ∷ []

abbrev pub deal_state_codes : Codes DealState
deal_state_codes =
    ("0", "none", DealState.unset)
    ∷ ("10", "proposed", DealState.proposed)
    ∷ ("20", "accepted", DealState.accepted)
    ∷ ("30", "active", DealState.active)
    ∷ ("40", "finalized", DealState.finalized)
    ∷ ("50", "rejected", DealState.rejected)
    ∷ ("60", "expired", DealState.expired)
    ∷ ("70", "early_terminated", DealState.early_terminated)
    ∷ []

abbrev pub settlement_reason_codes : Codes SettlementReason
settlement_reason_codes =
    ("0", "ok", ok_reason)
    ∷ ("10", "deal_ended", deal_ended)
    ∷ ("20", "deal_terminated", deal_terminated)
    ∷ ("30", "too_early", too_early)
    ∷ ("40", "score_below_threshold", score_below_threshold)
    ∷ ("50", "data_size_mismatch", data_size_mismatch)
    ∷ ("60", "evidence_too_stale", evidence_too_stale)
    ∷ []

abbrev pub settlement_result_codes : Codes SettlementResult
settlement_result_codes =
    ("0", "none", SettlementResult.unset)
    ∷ ("10", "accepted", SettlementResult.accepted)
    ∷ ("20", "modified", SettlementResult.modified)
    ∷ ("30", "rejected", SettlementResult.rejected)
    ∷ []

abbrev pub evidence_type_codes : Codes EvidenceType
evidence_type_codes =
    ("0", "none", EvidenceType.unset)
    ∷ ("10", "verif_reg_claims", EvidenceType.verif_reg_claims)
    ∷ ("20", "sector_placement", EvidenceType.sector_placement)
    ∷ []

abbrev pub evidence_result_codes : Codes EvidenceResult
evidence_result_codes =
    ("0", "none", EvidenceResult.unset)
    ∷ ("10", "partial", EvidenceResult.partial)
    ∷ ("20", "accepted", EvidenceResult.accepted)
    ∷ ("30", "rejected", EvidenceResult.rejected)
    ∷ ("40", "active", EvidenceResult.active)
    ∷ ("50", "inactive", EvidenceResult.inactive)
    ∷ ("60", "covered_bytes_mismatch", EvidenceResult.covered_bytes_mismatch)
    ∷ []

abbrev pub rail_status_codes : Codes RailStatus
rail_status_codes =
    ("0", "none", RailStatus.unset)
    ∷ ("10", "prepared", RailStatus.prepared)
    ∷ ("20", "active", RailStatus.active)
    ∷ ("100", "terminated", RailStatus.terminated)
    ∷ []

abbrev pub allocation_status_codes : Codes AllocationStatus
allocation_status_codes =
    ("0", "none", AllocationStatus.unset)
    ∷ ("10", "allocated", AllocationStatus.allocated)
    ∷ ("20", "claimed", AllocationStatus.claimed)
    ∷ ("30", "inactive", AllocationStatus.inactive)
    ∷ []
