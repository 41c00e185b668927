-- ===== src/Migration/Finish.antt =====
-- `finish_migration` of cli/migration/client.py.
pub mod Readiness
use filecoin_porep_market_to.Prelude.{
  ℕ, Bool, false, not, ◌&&◌, ◌||◌, Result, if◌then◌else◌, ◌==◌, difference, nonempty,
}
use filecoin_porep_market_to.Chain.{Chain, DealState, RailStatus, is_state, is_status}
use filecoin_porep_market_to.Migration.Plan.{size_within_padding}
use filecoin_porep_market_to.Migration.Pair.{
  MigrationPair, check_chain, pair, checked_adapter, adoption_progress,
}
use filecoin_porep_market_to.Migration.Close.{require_client}
use filecoin_porep_market_to.Session.{
  finish_datacap_posting, migration, wrong_state, no_rail_yet, rail_not_prepared, claims_missing,
  bytes_outside_padding, Node, Exec, pure, raise, lift_error, gets, ◌>>=◌, ◌>>◌, raise_when,
}
use filecoin_porep_market_to.Transactions.{confirm_or_abort, sign_and_send_tx, sent}

-- How the command ended when it did not raise.
pub data FinishOutcome : Type 0 where
  already_active already_finished ready_to_finish finished : FinishOutcome

module _ {W : Type 0} (node : Node W) where
  -- The checks between the state of the V2 deal and the confirmation.
  unfoldable pub require_ready : ℕ → Chain → MigrationPair → Exec W (Unit {0})
  require_ready v2_deal_id chain p = do
    raise_when (p.target.deal.validator_address == 0 || p.target.deal.rail_id == 0) no_rail_yet
    raise_when
        (not (is_status (chain.rail_status p.target.deal.validator_address) RailStatus.prepared))
        rail_not_prepared
    (source_ids, registered) ← lift_error migration (adoption_progress chain p)
    raise_when (nonempty (difference source_ids registered)) claims_missing
    raise_when
        (not (
          size_within_padding
            ((chain.adapter p.target.deal.evidence_adapter_address).allocated_bytes v2_deal_id)
            p.target.requested_size_bytes chain.activation_padding))
        bytes_outside_padding

  unfoldable pub finish_posting : ℕ → Bool → Exec W FinishOutcome
  finish_posting v2_deal_id print_only = if print_only then pure ready_to_finish else do
    confirm_or_abort node
    tx_hash ← sign_and_send_tx node (finish_datacap_posting v2_deal_id)
    sent_hash ← sent node tx_hash
    pure finished

  unfoldable pub finish_pair : ℕ → Chain → MigrationPair → Bool → Exec W FinishOutcome
  finish_pair v2_deal_id chain p print_only =
      if is_state p.target.deal.state DealState.active then pure already_active else do
        raise_when (not (is_state p.target.deal.state DealState.accepted)) wrong_state
        adapter ← lift_error migration (checked_adapter chain p)
        if adapter.posting_finished v2_deal_id
            then pure already_finished
            else do require_ready v2_deal_id chain p; finish_posting v2_deal_id print_only

  -- The command, with the chain ID from the environment.
  unfoldable pub finish_migration : ℕ → ℕ → ℕ → Bool → Exec W FinishOutcome
  finish_migration source_chain_id v2_deal_id v1_deal_id print_only = do
    chain ← gets node.chain
    lift_error migration (check_chain chain source_chain_id)
    p ← lift_error migration (pair chain v2_deal_id v1_deal_id false)
    require_client node p
    finish_pair v2_deal_id chain p (node.dry_run || print_only)
