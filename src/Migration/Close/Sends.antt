-- ===== src/Migration/Close/Sends.antt =====
-- What a run of `close_v1_deal` in cli/migration/client.py sends of a rail.
use filecoin_porep_market_to.Prelude.{
  ℕ, zero, suc, ◌≡◌, refl, Bool, Option, none, some, arith, ◌∷◌, ◌⊎◌, inl, inr, Result-cases,
}
use filecoin_porep_market_to.Chain.{Rail}
use filecoin_porep_market_to.Migration.Source.{open_rail}
use filecoin_porep_market_to.Session.{
  Tx, terminate_rail, settle_terminated_rail, Node, Session, sends,
}
use filecoin_porep_market_to.Transactions.{confirm_or_abort, sign_and_send_tx, sent}
use filecoin_porep_market_to.Transactions.Consent.{sign_and_send_tx-sends, confirm_or_abort-sends}
use filecoin_porep_market_to.Migration.Close.{
  wait_past_epoch, settle, settle_after_termination, terminate, operate,
}

-- The log ends with the termination of the rail, or with its settlement behind that.
abbrev pub Ends : {W : Type 0} → ℕ → Session W → Session W → Type 0
Ends rail_id s s' =
    (sends s'.log ≡ terminate_rail rail_id ∷ sends s.log)
    ⊎ (sends s'.log ≡ settle_terminated_rail rail_id ∷ terminate_rail rail_id ∷ sends s.log)

-- What a run may have sent of a rail: nothing, its termination, its settlement, or both.
abbrev pub Closing : {W : Type 0} → ℕ → Session W → Session W → Type 0
Closing rail_id s s' =
    (sends s'.log ≡ sends s.log)
    ⊎ (sends s'.log ≡ settle_terminated_rail rail_id ∷ sends s.log)
    ⊎ Ends rail_id s s'

module _ {W : Type 0} (node : Node W) where
  wait_past_epoch-log :
      (fuel epoch : ℕ) (s : Session W) → (wait_past_epoch node fuel epoch s).1.log ≡ s.log
  unfolding wait_past_epoch
  wait_past_epoch-log zero epoch s = refl
  wait_past_epoch-log (suc fuel) epoch s =
      ground (arith, wait_past_epoch-log fuel epoch (record s { world = node.sleep s.world }))

  module _ (polls : ℕ) where
    settle-sends :
        (rail_id : ℕ) (s : Session W)
        → (sends (settle node rail_id s).1.log ≡ sends s.log)
          ⊎ (sends (settle node rail_id s).1.log ≡ settle_terminated_rail rail_id ∷ sends s.log)
    unfolding settle sent
    settle-sends rail_id s =
        ground (arith, sign_and_send_tx-sends node (settle_terminated_rail rail_id) s)

    settle_after-sends :
        (rail_id : ℕ) (rail : Option Rail) (s : Session W)
        → (sends (settle_after_termination node polls rail_id rail s).1.log ≡ sends s.log)
          ⊎ (sends (settle_after_termination node polls rail_id rail s).1.log
              ≡ settle_terminated_rail rail_id ∷ sends s.log)
    unfolding settle_after_termination
    settle_after-sends rail_id none s = inl refl
    settle_after-sends rail_id (some rail) s =
        let waited = (wait_past_epoch node polls rail.end_epoch s).1 in
        ground (arith, wait_past_epoch-log polls rail.end_epoch s, settle-sends rail_id waited)

    terminate-Closing :
        (rail_id : ℕ) (s : Session W) → Closing rail_id s (terminate node polls rail_id s).1
    unfolding terminate sent
    terminate-Closing rail_id s =
        let signed = sign_and_send_tx node (terminate_rail rail_id) s in
        let chain = node.chain signed.1.world in
        let asked = sign_and_send_tx-sends node (terminate_rail rail_id) s in
        elim (Result-cases (open_rail chain rail_id)) [
          | inr (x, e) ↦ ground (arith, asked)
          | inl (rail, e) ↦ ground (arith, asked, settle_after-sends rail_id rail signed.1)
        ]

    pub operate-Closing :
        (print_only : Bool) (rail : Rail) (rail_id : ℕ) (tx : Option Tx) (s : Session W)
        → Closing rail_id s (operate node polls print_only rail rail_id tx s).1
    unfolding operate
    operate-Closing print_only rail rail_id none s = inl refl
    operate-Closing print_only rail rail_id (some tx) s =
        let asked = confirm_or_abort-sends node s in
        let after = settle-sends rail_id (confirm_or_abort node s).1 in
        let ended = terminate-Closing rail_id (confirm_or_abort node s).1 in
        ground (arith, asked, after, ended)
