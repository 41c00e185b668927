-- ===== src/Deposit/Eligible.antt =====
-- Which deals a deposit is made for.
use filecoin_porep_market_to.Prelude.{ℕ, ◌≡◌, ◌≢◌, ◌⊎◌, ◌↔◌, true, arith}
use filecoin_porep_market_to.Chain.{Chain, Deal, DealState, EvidenceType}
use filecoin_porep_market_to.Deposit.{validate_deal, is_deal_eligible_for_deposit}

-- The deal takes deposits: it is ACTIVE, or it is ACCEPTED and either not evidenced by claims or with
-- its DataCap posting finished.
abbrev pub TakesDeposits : Chain → Deal → Type 0
TakesDeposits chain deal =
    let adapter = chain.adapter deal.evidence_adapter_address in
    (deal.state ≡ DealState.active)
    ⊎ ((deal.state ≡ DealState.accepted)
        × ((adapter.evidence_type ≢ EvidenceType.verif_reg_claims)
            ⊎ (adapter.posting_finished deal.deal_id ≡ true)))

-- A deal is eligible for a deposit exactly if it is of the client, has a rail and a validator, and
-- is ACTIVE, or ACCEPTED with an adapter that is not for claims or whose DataCap posting is finished
-- for the deal.
pub is_deal_eligible_for_deposit_iff :
    (chain : Chain) (client : ℕ) (deal : Deal)
    → (is_deal_eligible_for_deposit chain client deal ≡ true) ↔ (
        (deal.client_address ≡ client)
        × (deal.rail_id ≢ 0)
        × (deal.validator_address ≢ 0)
        × TakesDeposits chain deal)
unfolding is_deal_eligible_for_deposit validate_deal
is_deal_eligible_for_deposit_iff chain client deal = ground arith
