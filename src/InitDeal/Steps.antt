-- ===== src/InitDeal/Steps.antt =====
-- The steps of `init_deal` send in their order, each only where the chain still asks for it.
use filecoin_porep_market_to.Prelude.{ℕ, ◌≡◌, ◌≢◌, ◌≤◌, ◌⊎◌, inl, inr, true, false, ◌∷◌, arith}
use filecoin_porep_market_to.Chain.{Chain, DealView, DealState}
use filecoin_porep_market_to.Session.{
  create_validator, deposit_and_approve, create_rail, Node, Session, sends,
}
use filecoin_porep_market_to.Transactions.{confirm_or_abort}
use filecoin_porep_market_to.Transactions.Consent.{sign_and_send_tx-sends, confirm_or_abort-sends}
use filecoin_porep_market_to.Deposit.Amount.{Floats, deposit_result, calculate_deposit_amount}
use filecoin_porep_market_to.InitDeal.{
  validator_for_deal, deploy_and_set_validator, deposit_and_approve_operator, initialize_rail,
  init_deal,
}

-- The factory knows the deal's validator, and it is there.
abbrev pub HasValidator : Chain → DealView → Type 0
HasValidator chain view =
    (chain.validator_instance view.deal.deal_id ≡ view.deal.validator_address)
    × (view.deal.validator_address ≢ 0)

module _ {W : Type 0} (node : Node W) (floats : Floats) (deal_id : ℕ) where
  -- What a step may send, by the chain that it begins on.
  abbrev pub Deploys : Session W → Session W → Type 0
  Deploys s s' =
      let chain = node.chain s.world in
      let view = chain.deal_view deal_id in
      (sends s'.log ≡ sends s.log)
      ⊎ ((sends s'.log ≡ create_validator view.deal.deal_id ∷ sends s.log)
          × (chain.validator_instance view.deal.deal_id ≡ 0)
          × (view.deal.validator_address ≡ 0))

  abbrev pub Deposits : Session W → Session W → Type 0
  Deposits s s' =
      let chain = node.chain s.world in
      let view = chain.deal_view deal_id in
      let amount = floats.ceil (
        deposit_result floats view.requested_size_bytes view.price_per_32_gib_per_month
          chain.sector_size 1) in
      (sends s'.log ≡ sends s.log)
      ⊎ ((sends s'.log
            ≡ deposit_and_approve view.payment_token amount view.deal.validator_address
              ∷ sends s.log)
          × HasValidator chain view
          × (chain.operator_approved view.payment_token view.deal.client_address
                view.deal.validator_address
              ≡ false)
          × (amount ≤ chain.token_balance view.payment_token node.client))

  abbrev pub Initializes : Session W → Session W → Type 0
  Initializes s s' =
      let chain = node.chain s.world in
      let view = chain.deal_view deal_id in
      (sends s'.log ≡ sends s.log)
      ⊎ ((sends s'.log ≡ create_rail view.deal.validator_address ∷ sends s.log)
          × HasValidator chain view
          × (chain.operator_approved view.payment_token view.deal.client_address
                view.deal.validator_address
              ≡ true)
          × (view.deal.rail_id ≡ 0))

  deploy-Deploys : (s : Session W) → Deploys s (deploy_and_set_validator node floats deal_id s).1
  unfolding deploy_and_set_validator validator_for_deal
  deploy-Deploys s = ground (
    arith,
    confirm_or_abort-sends node s,
    sign_and_send_tx-sends node
        (create_validator ((node.chain s.world).deal_view deal_id).deal.deal_id)
        (confirm_or_abort node s).1,
  )

  initialize_rail-Initializes :
      (s : Session W) → Initializes s (initialize_rail node floats deal_id s).1
  unfolding initialize_rail validator_for_deal
  initialize_rail-Initializes s = ground (
    arith,
    confirm_or_abort-sends node s,
    sign_and_send_tx-sends node
        (create_rail ((node.chain s.world).deal_view deal_id).deal.validator_address)
        (confirm_or_abort node s).1,
  )

  deposit-Deposits :
      (s : Session W) → Deposits s (deposit_and_approve_operator node floats deal_id s).1
  unfolding deposit_and_approve_operator validator_for_deal calculate_deposit_amount
  deposit-Deposits s =
      let chain = node.chain s.world in
      let view = chain.deal_view deal_id in
      let amount = floats.ceil (
        deposit_result floats view.requested_size_bytes view.price_per_32_gib_per_month
          chain.sector_size 1) in
      let s1 =
        (calculate_deposit_amount node floats view.requested_size_bytes
          view.price_per_32_gib_per_month chain.sector_size 1 s).1 in
      ground (
        arith,
        confirm_or_abort-sends node s,
        confirm_or_abort-sends node s1,
        sign_and_send_tx-sends node
            (deposit_and_approve view.payment_token amount view.deal.validator_address)
            (confirm_or_abort node s1).1,
      )

-- Whatever the node and the user answer, a run of `init_deal` that broadcasts anything begins with a
-- deal that is ACCEPTED and of this client. It ends behind one of its three steps. The first
-- sends nothing, or deploys the validator when the factory has none; the second nothing, or the
-- deposit with the approval, when there is a validator that is not approved and the balance
-- covers the deposit; the third nothing, or creates the rail, when there is an approved validator
-- and no rail. Each step judges by the chain that it begins on.
pub init_deal-Steps :
    {W : Type 0} (node : Node W) (floats : Floats) (deal_id : ℕ) (s : Session W)
    → let id = ((node.chain s.world).deal_view deal_id).deal.deal_id in
      let s' = (init_deal node floats deal_id s).1 in
      let s1 = (deploy_and_set_validator node floats id s).1 in
      let s2 = (deposit_and_approve_operator node floats id s1).1 in
      let s3 = (initialize_rail node floats id s2).1 in
      (s' ≡ s)
      ⊎ ((((node.chain s.world).deal_view deal_id).deal.state ≡ DealState.accepted)
          × (((node.chain s.world).deal_view deal_id).deal.client_address ≡ node.client)
          × Deploys node floats id s s1
          × Deposits node floats id s1 s2
          × Initializes node floats id s2 s3
          × ((s' ≡ s1) ⊎ (s' ≡ s2) ⊎ (s' ≡ s3)))
unfolding init_deal
init_deal-Steps node floats deal_id s =
    let id = ((node.chain s.world).deal_view deal_id).deal.deal_id in
    let s1 = (deploy_and_set_validator node floats id s).1 in
    let s2 = (deposit_and_approve_operator node floats id s1).1 in
    let s3 = (initialize_rail node floats id s2).1 in
    let ends : ((init_deal node floats deal_id s).1 ≡ s)
        ⊎ ((((node.chain s.world).deal_view deal_id).deal.state ≡ DealState.accepted)
            × (((node.chain s.world).deal_view deal_id).deal.client_address ≡ node.client)
            × (((init_deal node floats deal_id s).1 ≡ s1)
                ⊎ ((init_deal node floats deal_id s).1 ≡ s2)
                ⊎ ((init_deal node floats deal_id s).1 ≡ s3))) =
      ground arith in
    elim ends [
      | inl unchanged ↦ inl unchanged
      | inr (state, client, last) ↦ inr (
        state,
        client,
        deploy-Deploys node floats id s,
        deposit-Deposits node floats id s1,
        initialize_rail-Initializes node floats id s2,
        last,
      )
    ]
