-- ===== src/Migration/Close.antt =====
-- `close_v1_deal`, `_require_client`, `_require_v2_replaces_v1` and `_wait_past_epoch` of
-- cli/migration/client.py. Output is left out. Between two prompts, transactions or sleeps the
-- reads are of one moment.
pub mod Safety
pub mod Sends
pub mod Waiting
use filecoin_porep_market_to.Prelude.{
  ℕ, zero, suc, ◌+◌, ◌-◌, ◌*◌, Bool, true, false, not, ◌&&◌, ◌||◌, Option, none, some, List, [],
  ◌∷◌, Result, ok, err, if◌then◌else◌, ◌==◌, ltb, leb, length, difference, nonempty,
}
use filecoin_porep_market_to.Chain.{Chain, Rail, DealState, is_state}
use filecoin_porep_market_to.Migration.Claim.{MigrationError, epochs_in_day}
use filecoin_porep_market_to.Migration.Source.{open_rail}
use filecoin_porep_market_to.Migration.Pair.{MigrationPair, check_chain, pair, adoption_progress}
use filecoin_porep_market_to.Session.{
  Tx, terminate_rail, settle_terminated_rail, CliError, migration, not_the_client, claims_missing,
  wrong_state, lockup_too_long, cannot_operate, still_waiting, Node, Session, Exec, pure, raise,
  lift_error, gets, ◌>>=◌, ◌>>◌, raise_when,
}
use filecoin_porep_market_to.Transactions.{confirm_or_abort, sign_and_send_tx, sent}

abbrev pub max_v1_notice_epochs : ℕ
max_v1_notice_epochs = 2 * epochs_in_day

abbrev pub same_run_settlement_epochs : ℕ
same_run_settlement_epochs = 10

-- How the command ended when it did not raise.
pub data Outcome : Type 0 where
  already_settled still_paying ready terminated settle_later settled : Outcome

module _ {W : Type 0} (node : Node W) where
  -- `_require_client`
  unfoldable pub require_client : MigrationPair → Exec W (Unit {0})
  require_client p = raise_when (not (p.source.client == node.client)) not_the_client

  -- `_require_v2_replaces_v1`
  unfoldable pub require_v2_replaces_v1 : MigrationPair → Exec W (Unit {0})
  require_v2_replaces_v1 p = do
    chain ← gets node.chain
    (source_ids, registered) ← lift_error migration (adoption_progress chain p)
    raise_when (nonempty (difference source_ids registered)) claims_missing
    raise_when (not (is_state p.target.deal.state DealState.active)) wrong_state

  -- `_wait_past_epoch`, followed for a number of polls. The source polls without a limit;
  -- `still_waiting` is not an error of it and says that the run goes on behind the last poll.
  unfoldable pub wait_past_epoch : ℕ → ℕ → Exec W ℕ
  wait_past_epoch zero epoch s = (err still_waiting, s)
  wait_past_epoch (suc fuel) epoch s =
      let current_epoch = (node.chain s.world).block_number in
      let rest = wait_past_epoch fuel epoch (record s { world = node.sleep s.world }) in
      if leb current_epoch epoch then rest else (ok current_epoch, s)

  -- The transaction that a rail calls for, or none while it is terminated and still pays. An open
  -- rail is terminated only behind the checks.
  unfoldable pub choose_operation : MigrationPair → Rail → Bool → Exec W (Option Tx)
  choose_operation p rail force =
      if rail.end_epoch == 0
      then (do
        require_v2_replaces_v1 p
        raise_when (ltb max_v1_notice_epochs rail.lockup_period && not force)
            (lockup_too_long rail.lockup_period)
        pure (some (terminate_rail p.source.rail_id)))
      else (do
        chain ← gets node.chain
        if leb chain.block_number rail.end_epoch
            then pure none
            else pure (some (settle_terminated_rail p.source.rail_id)))

  unfoldable pub settle : ℕ → Exec W Outcome
  settle rail_id = do
    tx_hash ← sign_and_send_tx node (settle_terminated_rail rail_id)
    sent_hash ← sent node tx_hash
    pure settled

-- A run that waits is followed for a number of polls, whichever that is.
module _ {W : Type 0} (node : Node W) (polls : ℕ) where
  -- Behind the termination: the end epoch is read again, and a rail that ends within a few epochs
  -- is settled in the same run.
  unfoldable pub settle_after_termination : ℕ → Option Rail → Exec W Outcome
  settle_after_termination rail_id none = pure terminated
  settle_after_termination rail_id (some rail) = do
    chain ← gets node.chain
    if rail.end_epoch == 0
        then pure terminated
        else if ltb same_run_settlement_epochs (rail.end_epoch - chain.block_number)
        then pure settle_later
        else do past ← wait_past_epoch node polls rail.end_epoch; settle node rail_id

  unfoldable pub terminate : ℕ → Exec W Outcome
  terminate rail_id = do
    tx_hash ← sign_and_send_tx node (terminate_rail rail_id)
    sent_hash ← sent node tx_hash
    chain ← gets node.chain
    rail ← lift_error migration (open_rail chain rail_id)
    settle_after_termination rail_id rail

  -- Behind the choice: the preflight call, the confirmation, and the transaction.
  unfoldable pub operate : Bool → Rail → ℕ → Option Tx → Exec W Outcome
  operate print_only rail rail_id none = pure still_paying
  operate print_only rail rail_id (some tx) = do
    callable ← gets (node.call tx)
    raise_when (not callable) cannot_operate
    if print_only then pure ready else do
      confirm_or_abort node
      if rail.end_epoch == 0 then terminate rail_id else settle node rail_id

  unfoldable pub close_rail : MigrationPair → Bool → Bool → Option Rail → Exec W Outcome
  close_rail p print_only force none = pure already_settled
  close_rail p print_only force (some rail) = do
    tx ← choose_operation node p rail force
    operate print_only rail p.source.rail_id tx

  -- The command, with the chain ID from the environment.
  unfoldable pub close_v1_deal : ℕ → ℕ → ℕ → Bool → Bool → Exec W Outcome
  close_v1_deal source_chain_id v1_deal_id v2_deal_id print_only force = do
    chain ← gets node.chain
    lift_error migration (check_chain chain source_chain_id)
    p ← lift_error migration (pair chain v2_deal_id v1_deal_id false)
    require_client node p
    close_rail p (node.dry_run || print_only) force p.source_rail
