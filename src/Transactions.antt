-- ===== src/Transactions.antt =====
-- `sign_and_send_tx` of cli/services/contract_service.py, with the prompts of `confirm` in
-- cli/utils.py as answers of the user. The wait for pending transactions before a nonce is taken
-- outside a batch only lets time pass, and is left out.
pub mod Consent
use filecoin_porep_market_to.Prelude.{
  ℕ, Bool, true, false, not, List, [], ◌∷◌, Result, ok, err, if◌then◌else◌,
}
use filecoin_porep_market_to.Session.{
  Tx, Event, answered, broadcast, CliError, aborted, pending_transactions, operation_failed,
  reverted, not_sent, Node, Session, Exec, pure, raise, gets, ◌>>=◌, ◌>>◌, raise_when,
}
use filecoin_porep_market_to.Prelude.{◌==◌, ◌&&◌}

-- `Web3Service.ZERO_TX_HASH`
abbrev pub zero_tx_hash : ℕ
zero_tx_hash = 0

module _ {W : Type 0} (node : Node W) where
  -- `utils.confirm(...)`: a prompt and its answer.
  unfoldable pub confirm : Exec W Bool
  confirm s =
      let (yes_answer, world) = node.confirm s.world in
      (ok yes_answer, record s { world = world; log = answered yes_answer ∷ s.log })

  -- `utils.confirm(..., abort=True)`
  unfoldable pub confirm_or_abort : Exec W (Unit {0})
  unfolding confirm
  confirm_or_abort = do yes_answer ← confirm; raise_when (not yes_answer) aborted

  -- Send the signed transaction and wait for its receipt.
  transmit : Tx → Exec W ℕ
  transmit tx s =
      let ((hash, succeeded), world) = node.send tx s.world in
      (
        if succeeded then ok hash else err reverted,
        record s { world = world; log = broadcast tx ∷ s.log },
      )

  -- `_sign_and_send_tx`
  sign_and_send : Tx → Bool → Exec W ℕ
  unfolding transmit
  sign_and_send tx dry_run = do
    signed ← gets (node.sign tx)
    raise_when (not signed) operation_failed
    if dry_run then pure zero_tx_hash else transmit tx

  -- The final confirmation: an answer of no makes it a dry run. It is not asked in a batch.
  final_confirmation : Bool → Exec W Bool
  unfolding confirm
  final_confirmation true = pure node.dry_run
  final_confirmation false = do
    yes_answer ← confirm
    pure (if yes_answer then node.dry_run else true)

  unfoldable pub sign_and_send_tx : Tx → Exec W ℕ
  unfolding sign_and_send final_confirmation
  sign_and_send_tx tx s =
      (do
        has_pending ← gets node.pending
        raise_when (s.batch_confirmed && has_pending) pending_transactions
        built ← gets (node.build tx)
        raise_when (not built) operation_failed
        dry_run ← final_confirmation s.batch_confirmed
        sign_and_send tx dry_run)
        s

  -- `_sent` of cli/migration/client.py: a hash of zero is a transaction that was not sent.
  unfoldable pub sent : ℕ → Exec W ℕ
  sent tx_hash = do raise_when (tx_hash == zero_tx_hash) not_sent; pure tx_hash
