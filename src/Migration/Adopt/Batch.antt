-- ===== src/Migration/Adopt/Batch.antt =====
-- The batches are sent in their order, each only once the ones before it landed as expected.
use filecoin_porep_market_to.Prelude.{
  ℕ, ◌≡◌, ◌⊎◌, inl, inr, refl, true, false, List, [], ◌∷◌, ok, arith, Result-cases,
}
use filecoin_porep_market_to.Migration.Plan.{AdoptionPlan}
use filecoin_porep_market_to.Migration.Pair.{
  DataCapTransferParams, MigrationPair, ensure_unregistered, transfer_params,
  validate_batch_receipt,
}
use filecoin_porep_market_to.Session.{Tx, submit_datacap_batch, Node, Session, sends}
use filecoin_porep_market_to.Transactions.{sign_and_send_tx}
use filecoin_porep_market_to.Transactions.Consent.{sign_and_send_tx-batch}
use filecoin_porep_market_to.Migration.Adopt.{send_batch, send_batches}

module _ {W : Type 0} (node : Node W) (cbor_dumps : List (List ℕ) → List (List ℕ) → List ℕ)
    (p : MigrationPair) (plan : AdoptionPlan) (v2_deal_id : ℕ) where
  -- The transactions `log` that the batches lead to from a session. Either nothing is sent any more,
  -- or the next batch is, none of its claims registered, and then, from a session that has sent it,
  -- the batches after it are, provided that its receipt passes.
  abbrev pub Submits : List AdoptionPlan → Session W → List Tx → Type 0
  Submits [] s log = log ≡ sends s.log
  Submits (batch ∷ rest) s log =
      (log ≡ sends s.log)
      ⊎ ((params : DataCapTransferParams) × (ensure_unregistered (node.chain s.world) p batch
            ≡ ok tt)
          × (transfer_params cbor_dumps batch ≡ ok params)
          × ((log ≡ submit_datacap_batch params v2_deal_id ∷ sends s.log)
              ⊎ ((s' : Session W) × (sends s'.log
                    ≡ submit_datacap_batch params v2_deal_id ∷ sends s.log)
                  × (validate_batch_receipt (node.chain s'.world) p plan batch ≡ ok tt)
                  × Submits rest s' log)))

  -- The end of the sending loop, by what a round does.
  pub send_batches-Submits :
      node.dry_run ≡ false
      → (bs : List AdoptionPlan) (s : Session W) → s.batch_confirmed ≡ true
      → Submits bs s (sends (send_batches node cbor_dumps p plan v2_deal_id bs s).1.log)
  unfolding send_batches send_batch
  send_batches-Submits live [] s confirmed = refl
  send_batches-Submits live (batch ∷ rest) s confirmed =
      elim (Result-cases (ensure_unregistered (node.chain s.world) p batch)) [
        | inr (x, e) ↦ inl (ground arith)
        | inl (unregistered, e) ↦ elim (Result-cases (transfer_params cbor_dumps batch)) [
          | inr (x, t) ↦ inl (ground arith)
          | inl (params, t) ↦
              (let (same_flag, case) =
                  sign_and_send_tx-batch node (submit_datacap_batch params v2_deal_id) s live
                    confirmed in
                elim case [
                  | inl (failed, same) ↦ inl (ground arith)
                  | inr sent_it ↦
                      (let s' =
                          (sign_and_send_tx node (submit_datacap_batch params v2_deal_id) s).1 in
                        let later = send_batches-Submits live rest s' (ground arith) in
                        elim (Result-cases
                          (sign_and_send_tx node (submit_datacap_batch params v2_deal_id) s).0) [
                            | inr (x, r) ↦ inr (params, e, t, inl (ground arith))
                            | inl (hash, r) ↦
                                elim (Result-cases
                                  (validate_batch_receipt (node.chain s'.world) p plan batch)) [
                                    | inr (x, v) ↦ inr (params, e, t, inl (ground arith))
                                    | inl (checked, v) ↦
                                        (let same : (send_batches node cbor_dumps p plan v2_deal_id
                                                (batch ∷ rest) s).1
                                              ≡ (send_batches node cbor_dumps p plan v2_deal_id rest
                                                  s').1 =
                                            ground arith in
                                          inr (params, e, t, inr (s', sent_it, v, rw (same) later)))
                                  ]
                          ])
                ])
        ]
      ]
