-- ===== src/InitDeal.antt =====
-- `init_deal` of cli/commands/client/init_deal.py. The check for a new release before it and the waits for pending transactions
-- between the steps are left out; the signature of the token permit counts as part of the deposit's.
pub mod Steps
use filecoin_porep_market_to.Prelude.{ℕ, Bool, true, false, not, Result, if◌then◌else◌, ltb, ◌==◌}
use filecoin_porep_market_to.Chain.{Chain, Deal, DealState, is_state}
use filecoin_porep_market_to.Session.{
  create_validator, deposit_and_approve, create_rail, not_the_client, wrong_state,
  validator_mismatch, validator_not_found, operator_not_approved, balance_too_low, Node, Exec, pure,
  raise, gets, ◌>>=◌, ◌>>◌, raise_when,
}
use filecoin_porep_market_to.Deposit.Amount.{Floats, calculate_deposit_amount}
use filecoin_porep_market_to.Transactions.{confirm_or_abort, sign_and_send_tx}

module _ {W : Type 0} (node : Node W) (floats : Floats) where
  -- `__get_validator_address_for_deal`
  unfoldable pub validator_for_deal : Chain → Deal → Exec W ℕ
  validator_for_deal chain deal = do
    raise_when (not (chain.validator_instance deal.deal_id == deal.validator_address))
        validator_mismatch
    pure (chain.validator_instance deal.deal_id)

  unfoldable pub deploy_and_set_validator : ℕ → Exec W (Unit {0})
  deploy_and_set_validator deal_id = do
    chain ← gets node.chain
    let view = chain.deal_view deal_id
    validator ← validator_for_deal chain view.deal
    if not (validator == 0) then pure tt else do
      confirm_or_abort node
      tx_hash ← sign_and_send_tx node (create_validator view.deal.deal_id)
      pure tt

  unfoldable pub deposit_and_approve_operator : ℕ → Exec W (Unit {0})
  deposit_and_approve_operator deal_id = do
    chain ← gets node.chain
    let view = chain.deal_view deal_id
    validator ← validator_for_deal chain view.deal
    raise_when (validator == 0) validator_not_found
    if chain.operator_approved view.payment_token view.deal.client_address
          view.deal.validator_address
        then pure tt
        else do
          deposit_amount ←
              calculate_deposit_amount node floats view.requested_size_bytes
                view.price_per_32_gib_per_month chain.sector_size 1
          raise_when (ltb (chain.token_balance view.payment_token node.client) deposit_amount)
              balance_too_low
          confirm_or_abort node
          tx_hash ←
              sign_and_send_tx node
                (deposit_and_approve view.payment_token deposit_amount view.deal.validator_address)
          pure tt

  unfoldable pub initialize_rail : ℕ → Exec W (Unit {0})
  initialize_rail deal_id = do
    chain ← gets node.chain
    let view = chain.deal_view deal_id
    validator ← validator_for_deal chain view.deal
    raise_when (validator == 0) validator_not_found
    raise_when
        (not (
          chain.operator_approved view.payment_token view.deal.client_address
            view.deal.validator_address))
        operator_not_approved
    if not (view.deal.rail_id == 0) then pure tt else do
      confirm_or_abort node
      tx_hash ← sign_and_send_tx node (create_rail view.deal.validator_address)
      pure tt

  unfoldable pub init_deal : ℕ → Exec W (Unit {0})
  init_deal deal_id = do
    chain ← gets node.chain
    let deal = (chain.deal_view deal_id).deal
    if is_state deal.state DealState.active then pure tt else do
      raise_when (not (deal.client_address == node.client)) not_the_client
      raise_when (not (is_state deal.state DealState.accepted)) wrong_state
      deploy_and_set_validator deal.deal_id
      deposit_and_approve_operator deal.deal_id
      initialize_rail deal.deal_id
