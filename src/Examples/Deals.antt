-- ===== src/Examples/Deals.antt =====
-- The theorems on the client's commands at a deal that is being prepared.
use filecoin_porep_market_to.Prelude.{
  ℕ, ◌*◌, ◌%◌, ◌^◌, ◌==◌, ◌≡◌, refl, ◌≢◌, ◌<◌, ◌⊎◌, ◌↔◌, true, [], ◌∷◌,
}
use filecoin_porep_market_to.Chain.{DealView, DealState}
use filecoin_porep_market_to.Session.{Session}
use filecoin_porep_market_to.Deposit.{
  is_deal_eligible_for_deposit, total_required, deposit_for_token,
}
use filecoin_porep_market_to.Deposit.Eligible.{TakesDeposits, is_deal_eligible_for_deposit_iff}
use filecoin_porep_market_to.Deposit.Missing.{exact_required}
use filecoin_porep_market_to.Deposit.Amount.{Floats, ceil_div}
use filecoin_porep_market_to.InitDeal.{
  deploy_and_set_validator, deposit_and_approve_operator, initialize_rail, init_deal,
}
use filecoin_porep_market_to.InitDeal.Steps.{Deploys, Deposits, Initializes, init_deal-Steps}
use filecoin_porep_market_to.Examples.{adopting_node, half_adopted, deal_in, fresh}

abbrev no_number : ℕ
no_number = 0

-- Exact fractions in place of floats.
abbrev fractions : Floats
fractions = record {
  Float = ℕ × ℕ;
  divide = λ a b. (a, b);
  times = λ x n. (x.0 * n, x.1);
  ceil = λ x. ceil_div x.0 x.1;
  is_whole = λ x. x.0 % x.1 == 0;
}

abbrev IsFraction : ℕ × ℕ → ℕ → ℕ → Type 0
IsFraction x q k = (0 < x.1) × (x.0 * 2 ^ k ≡ q * x.1)

abbrev after_deploying : Session ℕ
after_deploying = (deploy_and_set_validator adopting_node fractions 9 fresh).1

abbrev after_deposit : Session ℕ
after_deposit = (deposit_and_approve_operator adopting_node fractions 9 after_deploying).1

abbrev after_rail : Session ℕ
after_rail = (initialize_rail adopting_node fractions 9 after_deposit).1

init_deal-Steps_example :
    ((init_deal adopting_node fractions 9 fresh).1 ≡ fresh)
    ⊎ ((DealState.accepted ≡ DealState.accepted)
        × ((adopting_node.client) ≡ adopting_node.client)
        × Deploys adopting_node fractions 9 fresh after_deploying
        × Deposits adopting_node fractions 9 after_deploying after_deposit
        × Initializes adopting_node fractions 9 after_deposit after_rail
        × (((init_deal adopting_node fractions 9 fresh).1 ≡ after_deploying)
            ⊎ ((init_deal adopting_node fractions 9 fresh).1 ≡ after_deposit)
            ⊎ ((init_deal adopting_node fractions 9 fresh).1 ≡ after_rail)))
init_deal-Steps_example = init_deal-Steps adopting_node fractions 9 fresh

is_deal_eligible_for_deposit_iff_example :
    (is_deal_eligible_for_deposit half_adopted 500 (deal_in DealState.accepted).deal ≡ true) ↔ (
      (500 ≡ adopting_node.client)
      × (8 ≢ no_number)
      × (610 ≢ no_number)
      × TakesDeposits half_adopted (deal_in DealState.accepted).deal)
is_deal_eligible_for_deposit_iff_example =
    is_deal_eligible_for_deposit_iff half_adopted 500 (deal_in DealState.accepted).deal

abbrev three_sectors : DealView
three_sectors = deal_in DealState.accepted

abbrev deposited : Session ℕ
deposited = (deposit_for_token adopting_node fractions 3 1 (three_sectors ∷ []) fresh).1

abbrev totalled : Session ℕ
totalled = (total_required adopting_node fractions 1024 3 (three_sectors ∷ []) fresh).1

three_sectors_amount : exact_required 1024 3 (three_sectors ∷ []) ≡ 45
three_sectors_amount = refl

rounded_up : exact_required 2048 3 (three_sectors ∷ []) ≡ 23
rounded_up = refl
