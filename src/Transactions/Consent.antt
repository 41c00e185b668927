-- ===== src/Transactions/Consent.antt =====
-- Nothing is broadcast without the user's consent, and nothing in a dry run.
use filecoin_porep_market_to.Prelude.{true, false, ◌∷◌, ok, ◌≡◌, ◌⊎◌, arith, is_err}
use filecoin_porep_market_to.Session.{Tx, answered, broadcast, Node, Session, sends}
use filecoin_porep_market_to.Transactions.{confirm_or_abort, sign_and_send_tx, zero_tx_hash}

-- How a call can change the log: not at all, by an answer to the final confirmation after which
-- nothing is sent, or by a yes to it and the transaction. In a confirmed batch there is no prompt.
abbrev pub Consented : {W : Type 0} → Node W → Tx → Session W → Session W → Type 0
Consented node tx s s' =
    (s'.log ≡ s.log)
    ⊎ ((s.batch_confirmed ≡ false) × (s'.log ≡ answered (node.confirm s.world).0 ∷ s.log))
    ⊎ ((node.dry_run ≡ false)
        × (s.batch_confirmed ≡ false)
        × (s'.log ≡ broadcast tx ∷ answered true ∷ s.log))
    ⊎ ((node.dry_run ≡ false)
        × (s.batch_confirmed ≡ true)
        × (node.pending s.world ≡ false)
        × (s'.log ≡ broadcast tx ∷ s.log))

-- Whatever the node and the user answer, `sign_and_send_tx` broadcasts the transaction at most once,
-- and only if dry-run mode is off and either the user answered the final confirmation with yes just
-- before, or a batch was confirmed and the sender has no pending transaction. A call that returns
-- a hash other than the zero hash has broadcast it.
pub sign_and_send_tx-Consented :
    {W : Type 0} (node : Node W) (tx : Tx) (s : Session W)
    → let (r, s') = sign_and_send_tx node tx s in
      Consented node tx s s'
      × ((r ≡ ok zero_tx_hash) ⊎ (sends s'.log ≡ tx ∷ sends s.log) ⊎ (is_err r ≡ true))
unfolding sign_and_send_tx
sign_and_send_tx-Consented node tx s = ground arith

module _ {W : Type 0} (node : Node W) where
  -- What a call adds to the broadcast transactions.
  pub sign_and_send_tx-sends :
      (tx : Tx) (s : Session W)
      → (sends (sign_and_send_tx node tx s).1.log ≡ sends s.log)
        ⊎ (sends (sign_and_send_tx node tx s).1.log ≡ tx ∷ sends s.log)
  sign_and_send_tx-sends tx s = ground (arith, sign_and_send_tx-Consented node tx s)

  -- A prompt broadcasts nothing.
  pub confirm_or_abort-sends : (s : Session W) → sends (confirm_or_abort node s).1.log ≡ sends s.log
  unfolding confirm_or_abort
  confirm_or_abort-sends s = ground arith

  -- In a confirmed batch outside dry-run mode a call either fails and sends nothing, or sends the
  -- transaction; in both cases the batch stays confirmed.
  pub sign_and_send_tx-batch :
      (tx : Tx) (s : Session W)
      → node.dry_run ≡ false
      → s.batch_confirmed ≡ true
      → let (r, s') = sign_and_send_tx node tx s in
        (s'.batch_confirmed ≡ true)
        × (((is_err r ≡ true) × (sends s'.log ≡ sends s.log)) ⊎ ((sends s'.log ≡ tx ∷ sends s.log)))
  unfolding sign_and_send_tx
  sign_and_send_tx-batch tx s live confirmed = ground arith
