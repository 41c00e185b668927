-- ===== src/Migration/Adopt.antt =====
-- `adopt_v1_claims` of cli/migration/client.py, with `batch_confirmation` of
-- cli/services/contract_service.py. The estimate of the gas is output.
pub mod Batch
pub mod Adopted
pub mod Order
use filecoin_porep_market_to.Prelude.{
  ℕ, Bool, true, false, not, ◌||◌, List, [], ◌∷◌, Result, if◌then◌else◌, ◌==◌, difference, nonempty,
}
use filecoin_porep_market_to.Migration.Plan.{AdoptionPlan, batches, complete}
use filecoin_porep_market_to.Migration.Pair.{
  MigrationPair, check_chain, pair, adoption_plan, ensure_unregistered, transfer_params,
  validate_batch_receipt, adoption_progress,
}
use filecoin_porep_market_to.Migration.Close.{require_client}
use filecoin_porep_market_to.Session.{
  submit_datacap_batch, migration, readback_mismatch, pending_transactions, operation_failed,
  no_rail_yet, claims_missing, Node, Exec, pure, raise, lift_error, gets, ◌>>=◌, ◌>>◌, raise_when,
}
use filecoin_porep_market_to.Transactions.{confirm_or_abort, sign_and_send_tx}

-- How the command ended when it did not raise.
pub data AdoptOutcome : Type 0 where
  nothing_left no_rail_shown preflighted adopted_all : AdoptOutcome

-- `with ContractService.batch_confirmation():` the flag is set for the block, and reset after it,
-- also when the block raises.
unfoldable pub batch_confirmation : {W A : Type 0} → Exec W A → Exec W A
batch_confirmation block s =
    let (r, s') = block (record s { batch_confirmed = true }) in
    (r, record s' { batch_confirmed = s.batch_confirmed })

module _ {W : Type 0} (node : Node W) where
  -- The last look at what is missing.
  unfoldable pub check_adopted : MigrationPair → Exec W AdoptOutcome
  check_adopted p = do
    chain ← gets node.chain
    (source_ids, registered) ← lift_error migration (adoption_progress chain p)
    raise_when (nonempty (difference source_ids registered)) claims_missing
    pure adopted_all

module _ {W : Type 0} (node : Node W) (cbor_dumps : List (List ℕ) → List (List ℕ) → List ℕ) where
  -- The calls of every batch, before any is sent.
  unfoldable pub preflight : ℕ → List AdoptionPlan → Exec W (Unit {0})
  preflight v2_deal_id [] = pure tt
  preflight v2_deal_id (batch ∷ rest) = do
    params ← lift_error migration (transfer_params cbor_dumps batch)
    callable ← gets (node.call (submit_datacap_batch params v2_deal_id))
    raise_when (not callable) operation_failed
    preflight v2_deal_id rest

  -- One round of the sending loop.
  unfoldable pub send_batch : MigrationPair → AdoptionPlan → ℕ → AdoptionPlan → Exec W (Unit {0})
  send_batch p plan v2_deal_id batch = do
    before ← gets node.chain
    lift_error migration (ensure_unregistered before p batch)
    params ← lift_error migration (transfer_params cbor_dumps batch)
    tx_hash ← sign_and_send_tx node (submit_datacap_batch params v2_deal_id)
    landed ← gets node.chain
    lift_error readback_mismatch (validate_batch_receipt landed p plan batch)

  unfoldable pub send_batches :
      MigrationPair → AdoptionPlan → ℕ → List AdoptionPlan → Exec W (Unit {0})
  send_batches p plan v2_deal_id [] = pure tt
  send_batches p plan v2_deal_id (batch ∷ rest) = do
    send_batch p plan v2_deal_id batch
    send_batches p plan v2_deal_id rest

  -- Behind the preflight: the confirmation, the batches, and the last look at what is missing.
  unfoldable pub send_plan :
      MigrationPair → AdoptionPlan → ℕ → List AdoptionPlan → Exec W AdoptOutcome
  send_plan p plan v2_deal_id bs = do
    confirm_or_abort node
    is_pending ← gets node.pending
    raise_when is_pending pending_transactions
    batch_confirmation (send_batches p plan v2_deal_id bs)
    check_adopted node p

  unfoldable pub adopt_plan : MigrationPair → AdoptionPlan → ℕ → Bool → ℕ → Exec W AdoptOutcome
  adopt_plan p plan v2_deal_id print_only batch_size =
      if complete plan
      then pure nothing_left
      else if p.target.deal.rail_id == 0
      then (if print_only then pure no_rail_shown else raise no_rail_yet)
      else do
        bs ← lift_error migration (batches plan batch_size)
        preflight v2_deal_id bs
        if print_only then pure preflighted else send_plan p plan v2_deal_id bs

  -- The command, with the chain ID from the environment.
  unfoldable pub adopt_v1_claims : ℕ → ℕ → ℕ → Bool → ℕ → Exec W AdoptOutcome
  adopt_v1_claims source_chain_id v2_deal_id v1_deal_id print_only batch_size = do
    chain ← gets node.chain
    lift_error migration (check_chain chain source_chain_id)
    p ← lift_error migration (pair chain v2_deal_id v1_deal_id true)
    require_client node p
    plan ← lift_error migration (adoption_plan chain p true)
    adopt_plan p plan v2_deal_id (node.dry_run || print_only) batch_size
