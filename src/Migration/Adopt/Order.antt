-- ===== src/Migration/Adopt/Order.antt =====
-- What a run of `adopt_v1_claims` sends, and behind which answers.
use filecoin_porep_market_to.Prelude.{
  ℕ, ◌≡◌, ◌⊎◌, inl, inr, refl, Bool, true, false, ◌||◌, List, ◌∷◌, ok, arith, Result-cases,
  Bool-cases,
}
use filecoin_porep_market_to.Migration.Plan.{AdoptionPlan, batches}
use filecoin_porep_market_to.Migration.Pair.{MigrationPair, pair, adoption_plan}
use filecoin_porep_market_to.Migration.Close.{require_client}
use filecoin_porep_market_to.Session.{Tx, answered, Node, Session, sends}
use filecoin_porep_market_to.Transactions.{confirm_or_abort}
use filecoin_porep_market_to.Migration.Adopt.{
  batch_confirmation, send_batches, send_plan, adopt_plan, adopt_v1_claims,
}
use filecoin_porep_market_to.Migration.Adopt.Batch.{Submits, send_batches-Submits}
use filecoin_porep_market_to.Migration.Adopt.Adopted.{check_adopted-session, preflight-session}

module _ {W : Type 0} (node : Node W) (cbor_dumps : List (List ℕ) → List (List ℕ) → List ℕ) where
  -- The batches are sent from a session where the user has just agreed.
  abbrev pub Sending :
      MigrationPair → AdoptionPlan → ℕ → List AdoptionPlan → Session W → List Tx → Type 0
  Sending p plan v2_deal_id bs s log =
      (s0 : Session W) × (s0.log ≡ answered true ∷ s.log)
      × (node.pending s0.world ≡ false)
      × Submits node cbor_dumps p plan v2_deal_id bs s0 log

  send_plan-Sending :
      (p : MigrationPair) (plan : AdoptionPlan) (v2_deal_id : ℕ) (bs : List AdoptionPlan)
      (s : Session W)
      → node.dry_run ≡ false
      → let s' = (send_plan node cbor_dumps p plan v2_deal_id bs s).1 in
        (s'.batch_confirmed ≡ s.batch_confirmed)
        × ((sends s'.log ≡ sends s.log) ⊎ Sending p plan v2_deal_id bs s (sends s'.log))
  unfolding send_plan confirm_or_abort batch_confirmation
  send_plan-Sending p plan v2_deal_id bs s live =
      let s1 = (confirm_or_abort node s).1 in
      let s2 = record s1 { batch_confirmed = true } in
      let submits = send_batches-Submits node cbor_dumps p plan v2_deal_id live bs s2 refl in
      let s3 = (batch_confirmation (send_batches node cbor_dumps p plan v2_deal_id bs) s1).1 in
      let ended = check_adopted-session node p s3 in
      elim (Bool-cases (node.confirm s.world).0) [
        | inr refused ↦ (ground arith, inl (ground arith))
        | inl agreed ↦ elim (Bool-cases (node.pending s1.world)) [
          | inl is_pending ↦ (ground arith, inl (ground arith))
          | inr idle ↦
              (let same_log : (send_plan node cbor_dumps p plan v2_deal_id bs s).1.log ≡ s3.log =
                  ground (arith, ended) in
                (ground (arith, ended), inr (s2, ground arith, idle, rw (same_log) submits)))
        ]
      ]

  adopt_plan-Sending :
      (p : MigrationPair) (plan : AdoptionPlan) (v2_deal_id : ℕ) (print_only : Bool)
      (batch_size : ℕ) (s : Session W)
      → let s' =
          (adopt_plan node cbor_dumps p plan v2_deal_id
            (node.dry_run || print_only)
            batch_size
            s).1 in
        (s'.batch_confirmed ≡ s.batch_confirmed)
        × ((sends s'.log ≡ sends s.log)
            ⊎ ((bs : List AdoptionPlan) × (node.dry_run ≡ false)
                × (print_only ≡ false)
                × (batches plan batch_size ≡ ok bs)
                × Sending p plan v2_deal_id bs s (sends s'.log)))
  unfolding adopt_plan
  adopt_plan-Sending p plan v2_deal_id print_only batch_size s =
      elim (Result-cases (batches plan batch_size)) [
        | inr (x, e) ↦ (ground arith, inl (ground arith))
        | inl (bs, e) ↦
            (let same = preflight-session node cbor_dumps v2_deal_id bs s in
              elim (Bool-cases (node.dry_run || print_only)) [
                | inl shown ↦ (ground (arith, same), inl (ground (arith, same)))
                | inr sending ↦
                    (let (same_flag, case) =
                        send_plan-Sending p plan v2_deal_id bs s (ground arith) in
                      let ends : ((adopt_plan node cbor_dumps p plan v2_deal_id
                              (node.dry_run || print_only) batch_size s).1
                            ≡ s)
                          ⊎ ((adopt_plan node cbor_dumps p plan v2_deal_id
                                (node.dry_run || print_only) batch_size s).1
                              ≡ (send_plan node cbor_dumps p plan v2_deal_id bs s).1) =
                        ground (arith, same) in
                      elim ends [
                        | inl stopped ↦ (ground arith, inl (ground arith))
                        | inr went_on ↦ (
                          ground arith,
                          elim case [
                            | inl silent ↦ inl (ground arith)
                            | inr sent_some ↦
                                inr (bs, ground arith, ground arith, e, rw (went_on) sent_some)
                          ],
                        )
                      ])
              ])
      ]

  -- Whatever the node and the user answer, `adopt_v1_claims` leaves the flag that switches off the
  -- prompts as it was, and broadcasts nothing at all, or batches of the adoption plan. It does the
  -- latter only outside dry-run mode and without `--print-only`, in the name of the V1 client,
  -- directly after the user agreed and with no transaction pending. The batches go out in their
  -- order, each only when none of its claims is registered, and only if the receipts of all before
  -- it were found right on the chain.
  pub adopt_v1_claims-Sending :
      (source_chain_id v2_deal_id v1_deal_id : ℕ) (print_only : Bool) (batch_size : ℕ)
      (s : Session W)
      → let s' =
          (adopt_v1_claims node cbor_dumps source_chain_id v2_deal_id v1_deal_id print_only
            batch_size s).1 in
        (s'.batch_confirmed ≡ s.batch_confirmed)
        × ((sends s'.log ≡ sends s.log)
            ⊎ ((p : MigrationPair) × (plan : AdoptionPlan) × (bs : List AdoptionPlan) × (pair
                    (node.chain s.world)
                    v2_deal_id
                    v1_deal_id
                    true
                  ≡ ok p)
                × (p.source.client ≡ node.client)
                × (adoption_plan (node.chain s.world) p true ≡ ok plan)
                × (node.dry_run ≡ false)
                × (print_only ≡ false)
                × (batches plan batch_size ≡ ok bs)
                × Sending p plan v2_deal_id bs s (sends s'.log)))
  unfolding adopt_v1_claims require_client
  adopt_v1_claims-Sending source_chain_id v2_deal_id v1_deal_id print_only batch_size s =
      elim (Result-cases (pair (node.chain s.world) v2_deal_id v1_deal_id true)) [
        | inr (x, e) ↦ (ground arith, inl (ground arith))
        | inl (p, e) ↦ elim (Result-cases (adoption_plan (node.chain s.world) p true)) [
          | inr (x, h) ↦ (ground arith, inl (ground arith))
          | inl (plan, h) ↦
              (let (same_flag, case) =
                  adopt_plan-Sending p plan v2_deal_id print_only batch_size s in
                let ends : ((adopt_v1_claims node cbor_dumps source_chain_id v2_deal_id v1_deal_id
                        print_only batch_size s).1
                      ≡ s)
                    ⊎ ((p.source.client ≡ node.client)
                        × ((adopt_v1_claims node cbor_dumps source_chain_id v2_deal_id v1_deal_id
                              print_only batch_size s).1
                            ≡ (adopt_plan node cbor_dumps p plan v2_deal_id
                                (node.dry_run || print_only) batch_size s).1)) =
                  ground arith in
                elim ends [
                  | inl stopped ↦ (ground arith, inl (ground arith))
                  | inr (client, went_on) ↦ (
                    ground arith,
                    elim case [
                      | inl silent ↦ inl (ground arith)
                      | inr (bs, live, shown, made, sent_some) ↦
                          inr (p, plan, bs, e, client, h, live, shown, made, rw (went_on) sent_some)
                    ],
                  )
                ])
        ]
      ]
