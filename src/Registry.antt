-- ===== src/Registry.antt =====
-- The registration of storage providers in cli/commands/utils.py, with the calls of
-- cli/services/contracts/sp_registry.py that it makes. The answer to a prompt that belongs to a session may come from the session;
-- both are `confirm` of the node.
pub mod Views
mod Steps
pub mod Refine
pub mod Sends
use filecoin_porep_market_to.Prelude.{
  ℕ, Bool, true, false, not, ◌&&◌, ◌||◌, Option, none, some, List, [], ◌∷◌, Result, ok, err,
  if◌then◌else◌, ◌==◌,
}
use filecoin_porep_market_to.Chain.{Chain, ProviderInput, ProviderView, OfferInput}
use filecoin_porep_market_to.Session.{
  Tx, provider_registration, payee_change, space_change, provider_pause, provider_unpause,
  provider_block, provider_unblock, offer_creation, CliError, provider_not_found, already_paused,
  not_paused, already_blocked, not_blocked, Node, Session, Exec, pure, raise, gets, ◌>>=◌, ◌>>◌,
  raise_when,
}
use filecoin_porep_market_to.Transactions.{confirm, confirm_or_abort, sign_and_send_tx}

-- `SPRegistryProviderView.from_web3`, of the row that the contract returns. The zero address is false.
unfoldable pub view_from_web3 : ProviderView → ℕ → Option ProviderView
view_from_web3 row expected_provider_id =
    if (row.organization_address == 0) || not (row.provider_id == expected_provider_id)
    then none
    else some row

-- Whether a parameter of `provider_info` differs from the registered one.
unfoldable pub differs : ProviderInput → ProviderView → Bool
differs provider_info registered_info =
    not (provider_info.provider_id == registered_info.provider_id)
    || (not (provider_info.organization_address == registered_info.organization_address)
        || (not (provider_info.available_bytes == registered_info.available_bytes)
            || not (provider_info.payee_address == registered_info.payee_address)))

module _ {W : Type 0} (node : Node W) where
  -- `get_provider_view`
  unfoldable pub get_provider_view : ℕ → Exec W ProviderView
  get_provider_view provider_id s =
      elim (view_from_web3 ((node.chain s.world).provider_row provider_id) provider_id) [
        | none ↦ (err provider_not_found, s)
        | some view ↦ (ok view, s)
      ]

  unfoldable pub pause_sp : ℕ → Exec W ℕ
  pause_sp provider_id = do
    provider ← get_provider_view provider_id
    raise_when provider.paused already_paused
    confirm_or_abort node
    sign_and_send_tx node (provider_pause provider.provider_id)

  unfoldable pub unpause_sp : ℕ → Exec W ℕ
  unpause_sp provider_id = do
    provider ← get_provider_view provider_id
    raise_when (not provider.paused) not_paused
    confirm_or_abort node
    sign_and_send_tx node (provider_unpause provider.provider_id)

  unfoldable pub block_sp : ℕ → Exec W ℕ
  block_sp provider_id = do
    provider ← get_provider_view provider_id
    raise_when provider.blocked already_blocked
    confirm_or_abort node
    sign_and_send_tx node (provider_block provider.provider_id)

  unfoldable pub unblock_sp : ℕ → Exec W ℕ
  unblock_sp provider_id = do
    provider ← get_provider_view provider_id
    raise_when (not provider.blocked) not_blocked
    confirm_or_abort node
    sign_and_send_tx node (provider_unblock provider.provider_id)

  -- The prompt before one parameter of `_update_sp_params` and its transaction.
  unfoldable pub update_parameter : Bool → Tx → Exec W (Unit {0})
  update_parameter different tx = if not different then pure tt else do
    yes_answer ← confirm node
    if not yes_answer then pure tt else do tx_hash ← sign_and_send_tx node tx; pure tt

  -- `_update_sp_params`
  unfoldable pub update_sp_params : ProviderInput → ProviderView → Exec W (Unit {0})
  update_sp_params provider_info registered_info = do
    go_on ←
        (if not (provider_info.organization_address == registered_info.organization_address)
          then confirm node
          else pure true)
    if not go_on then pure tt else do
      update_parameter (not (provider_info.payee_address == registered_info.payee_address))
          (payee_change provider_info.provider_id provider_info.payee_address)
      update_parameter (not (provider_info.available_bytes == registered_info.available_bytes))
          (space_change provider_info.provider_id provider_info.available_bytes)

  -- The body of the loop of `register_or_update_sps`.
  unfoldable pub register_or_update_sp : ProviderInput → Exec W (Unit {0})
  register_or_update_sp provider_info = do
    chain ← gets node.chain
    if chain.is_provider_registered provider_info.provider_id
        then (do
          registered_info ← get_provider_view provider_info.provider_id
          if not (differs provider_info registered_info) then pure tt else do
            yes_answer ← confirm node
            if not yes_answer then pure tt else update_sp_params provider_info registered_info)
        else (do
          yes_answer ← confirm node
          if not yes_answer then pure tt else do
            sure ← confirm node
            if not sure then pure tt else do
              tx_hash ← sign_and_send_tx node (provider_registration provider_info)
              pure tt)

  unfoldable pub register_or_update_sps : List ProviderInput → Exec W (Unit {0})
  register_or_update_sps [] = pure tt
  register_or_update_sps (provider_info ∷ providers) = do
    register_or_update_sp provider_info
    register_or_update_sps providers

  unfoldable pub register_offers : List OfferInput → Exec W (Unit {0})
  register_offers [] = pure tt
  register_offers (offer ∷ offers) = do
    yes_answer ← confirm node
    (if not yes_answer
        then pure tt
        else (do tx_hash ← sign_and_send_tx node (offer_creation offer); pure tt))
    register_offers offers
