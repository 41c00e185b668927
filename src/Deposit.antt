-- ===== src/Deposit.antt =====
-- cli/commands/client/deposit_for_deals.py, and `deposit_to_filecoinpay` of
-- cli/commands/client/_utils.py. The available funds, `funds - lockup_current`, are not formed on
-- their own: the missing amount is written as one difference, and is zero here where the source's is
-- not positive.
pub mod Amount
pub mod Eligible
pub mod Missing
pub mod Rounding
use filecoin_porep_market_to.Prelude.{
  ℕ, zero, suc, ◌+◌, ◌-◌, ◌/◌, Bool, true, false, not, Option, none, some, List, [], ◌∷◌, ◌++◌,
  Result, ok, err, if◌then◌else◌, ltb, ◌==◌, map, keep_if, nonempty, raise_if, is_err,
}
use filecoin_porep_market_to.Chain.{
  Chain, Deal, DealView, DealState, EvidenceType, is_state, is_evidence,
}
use filecoin_porep_market_to.Session.{
  deposit_with_permit, CliError, aborted, not_the_client, wrong_state, balance_too_low, no_rail_set,
  no_validator_set, posting_unfinished, Node, Session, Exec, pure, raise, gets, ◌>>=◌, ◌>>◌,
  raise_when,
}
use filecoin_porep_market_to.Transactions.{confirm, confirm_or_abort, sign_and_send_tx}
use filecoin_porep_market_to.Deposit.Amount.{Floats, calculate_deposit_amount}

-- `_validate_deal`
unfoldable pub validate_deal : Chain → ℕ → Deal → Result CliError (Unit {0})
validate_deal chain client deal =
    let adapter = chain.adapter deal.evidence_adapter_address in
    if not (deal.client_address == client)
    then err not_the_client
    else if deal.rail_id == 0
    then err no_rail_set
    else if deal.validator_address == 0
    then err no_validator_set
    else if is_state deal.state DealState.accepted
    then (if is_evidence adapter.evidence_type EvidenceType.verif_reg_claims
        then (if not (adapter.posting_finished deal.deal_id) then err posting_unfinished else ok tt)
        else ok tt)
    else if not (is_state deal.state DealState.active)
    then err wrong_state
    else ok tt

-- `_is_deal_eligible_for_deposit`, where every read of a contract succeeds: the source also returns
-- False for a read that raises a `ClickException`.
unfoldable pub is_deal_eligible_for_deposit : Chain → ℕ → Deal → Bool
is_deal_eligible_for_deposit chain client deal = not (is_err (validate_deal chain client deal))

-- `get_client_deals` of cli/commands/utils.py
unfoldable pub get_client_deals : Chain → ℕ → List Deal
get_client_deals chain client = keep_if (λ deal. deal.client_address == client) chain.all_deals

-- `deals_per_token.setdefault(token, []).append(deal)`
unfoldable pub add_deal : DealView → List (ℕ × List DealView) → List (ℕ × List DealView)
add_deal deal [] = (deal.payment_token, deal ∷ []) ∷ []
add_deal deal ((token, deals) ∷ groups) =
    let rest = add_deal deal groups in
    if token == deal.payment_token
    then (token, deals ++ (deal ∷ [])) ∷ groups
    else (token, deals) ∷ rest

unfoldable pub group_deals : List DealView → List (ℕ × List DealView) → List (ℕ × List DealView)
group_deals [] groups = groups
group_deals (deal ∷ deals) groups = group_deals deals (add_deal deal groups)

module _ {W : Type 0} (node : Node W) (floats : Floats) where
  unfoldable pub deposit_to_filecoinpay : ℕ → ℕ → Exec W (Unit {0})
  deposit_to_filecoinpay deposit_amount token = do
    chain ← gets node.chain
    raise_when (ltb (chain.token_balance token node.client) deposit_amount) balance_too_low
    confirm_or_abort node
    tx_hash ← sign_and_send_tx node (deposit_with_permit token deposit_amount)
    pure tt

  unfoldable pub total_required : ℕ → ℕ → List DealView → Exec W ℕ
  total_required sector_size months [] = pure 0
  total_required sector_size months (deal ∷ deals) = do
    amount ←
        calculate_deposit_amount node floats deal.requested_size_bytes
          deal.price_per_32_gib_per_month sector_size months
    rest ← total_required sector_size months deals
    pure (amount + rest)

  -- `__deposit_for_deals`
  unfoldable pub deposit_for_token : ℕ → ℕ → List DealView → Exec W (Unit {0})
  deposit_for_token months token deals = do
    chain ← gets node.chain
    total_required_amount ← total_required chain.sector_size months deals
    let deposit_amount =
        total_required_amount
        + chain.lockup_current token node.client
        - chain.funds token node.client
    if deposit_amount == 0 then pure tt else deposit_to_filecoinpay deposit_amount token

  -- `except click.Abort:` the token is skipped.
  unfoldable pub skip_aborted : Exec W (Unit {0}) → Exec W (Unit {0})
  skip_aborted block s =
      let (r, s') = block s in
      elim r [
        | ok done ↦ (ok tt, s')
        | err e ↦ elim e [ aborted ↦ (ok tt, s') | other ↦ (err other, s') ]
      ]

  unfoldable pub deposit_for_tokens : ℕ → List (ℕ × List DealView) → Exec W (Unit {0})
  deposit_for_tokens months [] = pure tt
  deposit_for_tokens months ((token, deals) ∷ groups) = do
    skip_aborted (deposit_for_token months token deals)
    deposit_for_tokens months groups

  -- The command: for the deal with an ID, or for all eligible deals of the client.
  unfoldable pub deposit_for_deals : Option ℕ → ℕ → Exec W (Unit {0})
  deposit_for_deals (some deal_id) months = do
    chain ← gets node.chain
    elim (validate_deal chain node.client (chain.deal_view deal_id).deal) [
      | err e ↦ raise e
      | ok valid ↦ deposit_for_tokens months (group_deals (chain.deal_view deal_id ∷ []) [])
    ]
  deposit_for_deals none months = do
    chain ← gets node.chain
    let eligible =
        keep_if (is_deal_eligible_for_deposit chain node.client)
          (get_client_deals chain node.client)
    if not (nonempty eligible) then pure tt else do
      printed ← confirm node
      later ← gets node.chain
      deposit_for_tokens months
          (group_deals (map (λ deal. later.deal_view deal.deal_id) eligible) [])

  -- `deposit_for_whole_deal`
  unfoldable pub deposit_for_whole_deal : ℕ → Exec W (Unit {0})
  deposit_for_whole_deal deal_id = do
    chain ← gets node.chain
    elim (validate_deal chain node.client (chain.deal_view deal_id).deal) [
      | err e ↦ raise e
      | ok valid ↦
          deposit_for_tokens ((chain.deal_view deal_id).duration_epochs / chain.epochs_in_month)
            (group_deals (chain.deal_view deal_id ∷ []) [])
    ]
