-- ===== src/Migration/Adopt/Adopted.antt =====
-- The command ends well only when nothing is left to adopt, and sends only behind its confirmation.
use filecoin_porep_market_to.Prelude.{
  ℕ, ◌≡◌, ◌⊎◌, inl, inr, refl, Bool, true, ◌||◌, List, [], ◌∷◌, ok, arith, Result-cases, Bool-cases,
  difference,
}
use filecoin_porep_market_to.Chain.{Chain}
use filecoin_porep_market_to.Migration.Paging.{adapter_claim_ids}
use filecoin_porep_market_to.Migration.Plan.{AdoptionPlan, batches, complete}
use filecoin_porep_market_to.Migration.Plan.Adoption.{build_adoption_plan-missing}
use filecoin_porep_market_to.Migration.Source.Claims.{source_claims-Sound}
use filecoin_porep_market_to.Migration.Pair.{
  MigrationPair, target_adapter, pair, adoption_plan, adoption_progress,
}
use filecoin_porep_market_to.Migration.Pair.Ready.{adoption_plan-IsReady}
use filecoin_porep_market_to.Migration.Close.{require_client}
use filecoin_porep_market_to.Session.{Node, Session}
use filecoin_porep_market_to.Transactions.{confirm_or_abort}
use filecoin_porep_market_to.Migration.Adopt.{
  AdoptOutcome, nothing_left, adopted_all, batch_confirmation, preflight, send_batches,
  check_adopted, send_plan, adopt_plan, adopt_v1_claims,
}

-- The adapter of the V2 deal holds every allocation of the V1 deal.
abbrev pub HoldsAll : Chain → MigrationPair → Type 0
HoldsAll chain p =
    (registered : List ℕ) × (adapter_claim_ids (target_adapter chain p) p.target.deal.deal_id
      ≡ ok registered)
    × (difference (chain.source_allocation_ids p.source.deal_id) registered ≡ [])

complete-HoldsAll :
    (chain : Chain) (p : MigrationPair) (plan : AdoptionPlan)
    → adoption_plan chain p true ≡ ok plan
    → complete plan ≡ true
    → HoldsAll chain p
complete-HoldsAll chain p plan h done =
    let parts = adoption_plan-IsReady chain p true plan h in
    let (ids, some_ids, distinct_ids, valid, live, sized) =
      source_claims-Sound chain p.source parts.claims parts.read in
    let (extended, counted, is_complete) =
      build_adoption_plan-missing parts.claims parts.registered chain.block_number plan
        parts.built in
    (parts.registered, parts.held, ground (arith, ids, is_complete))

module _ {W : Type 0} (node : Node W) where
  pub check_adopted-session : (p : MigrationPair) (s : Session W) → (check_adopted node p s).1 ≡ s
  unfolding check_adopted
  check_adopted-session p s = ground arith

  check_adopted-HoldsAll :
      (p : MigrationPair) (outcome : AdoptOutcome) (s : Session W)
      → (check_adopted node p s).0 ≡ ok outcome
      → HoldsAll (node.chain s.world) p
  unfolding check_adopted adoption_progress
  check_adopted-HoldsAll p outcome s h =
      elim (Result-cases
        (adapter_claim_ids (target_adapter (node.chain s.world) p) p.target.deal.deal_id)) [
          | inr (x, e) ↦ absurd (ground arith)
          | inl (registered, e) ↦ (registered, e, ground arith)
        ]

module _ {W : Type 0} (node : Node W) (cbor_dumps : List (List ℕ) → List (List ℕ) → List ℕ) where
  pub preflight-session :
      (v2_deal_id : ℕ) (bs : List AdoptionPlan) (s : Session W)
      → (preflight node cbor_dumps v2_deal_id bs s).1 ≡ s
  unfolding preflight
  preflight-session v2_deal_id [] s = refl
  preflight-session v2_deal_id (b ∷ bs) s = ground (arith, preflight-session v2_deal_id bs s)

  send_plan-HoldsAll :
      (p : MigrationPair) (plan : AdoptionPlan) (v2_deal_id : ℕ) (bs : List AdoptionPlan)
      (outcome : AdoptOutcome) (s : Session W)
      → (send_plan node cbor_dumps p plan v2_deal_id bs s).0 ≡ ok outcome
      → HoldsAll (node.chain (send_plan node cbor_dumps p plan v2_deal_id bs s).1.world) p
  unfolding send_plan
  send_plan-HoldsAll p plan v2_deal_id bs outcome s h =
      let s' =
        (batch_confirmation (send_batches node cbor_dumps p plan v2_deal_id bs)
          (confirm_or_abort node s).1).1 in
      let same_end : (send_plan node cbor_dumps p plan v2_deal_id bs s).1 ≡ s' =
        ground (arith, check_adopted-session node p s') in
      rw (same_end) (check_adopted-HoldsAll node p outcome s' (ground arith))

  adopt_plan-HoldsAll :
      (p : MigrationPair) (plan : AdoptionPlan) (v2_deal_id : ℕ) (print_only : Bool)
      (batch_size : ℕ) (s : Session W)
      → adoption_plan (node.chain s.world) p true ≡ ok plan
      → let (r, s') = adopt_plan node cbor_dumps p plan v2_deal_id print_only batch_size s in
        (r ≡ ok adopted_all) ⊎ (r ≡ ok nothing_left) → HoldsAll (node.chain s'.world) p
  unfolding adopt_plan
  adopt_plan-HoldsAll p plan v2_deal_id print_only batch_size s h ended =
      elim (Bool-cases (complete plan)) [
        | inl done ↦
            (let same_end : (adopt_plan node cbor_dumps p plan v2_deal_id print_only batch_size s).1
                  ≡ s =
                ground arith in
              rw (same_end) (complete-HoldsAll (node.chain s.world) p plan h done))
        | inr missing ↦ elim (Result-cases (batches plan batch_size)) [
          | inr (x, e) ↦ absurd (ground arith)
          | inl (bs, e) ↦
              (let same = preflight-session v2_deal_id bs s in
                let same_end : adopt_plan node cbor_dumps p plan v2_deal_id print_only batch_size s
                    ≡ send_plan node cbor_dumps p plan v2_deal_id bs s =
                  ground arith in
                elim ended [
                  | inl r ↦
                      rw (same_end)
                        (send_plan-HoldsAll p plan v2_deal_id bs adopted_all s (rw (← same_end) r))
                  | inr r ↦
                      rw (same_end)
                        (send_plan-HoldsAll p plan v2_deal_id bs nothing_left s (rw (← same_end) r))
                ])
        ]
      ]

  -- When `adopt_v1_claims` ends with all claims adopted, or with nothing left to adopt, the pair was
  -- read without an error, and at the end of the run the adapter of its V2 deal holds every
  -- allocation that the V1 client then records for its V1 deal.
  pub adopt_v1_claims-HoldsAll :
      (source_chain_id v2_deal_id v1_deal_id : ℕ) (print_only : Bool) (batch_size : ℕ)
      (s : Session W)
      → let (r, s') =
          adopt_v1_claims node cbor_dumps source_chain_id v2_deal_id v1_deal_id print_only
            batch_size s in
        (r ≡ ok adopted_all) ⊎ (r ≡ ok nothing_left)
        → (p : MigrationPair) × (pair (node.chain s.world) v2_deal_id v1_deal_id true ≡ ok p)
          × HoldsAll (node.chain s'.world) p
  unfolding adopt_v1_claims require_client
  adopt_v1_claims-HoldsAll source_chain_id v2_deal_id v1_deal_id print_only batch_size s ended =
      elim (Result-cases (pair (node.chain s.world) v2_deal_id v1_deal_id true)) [
        | inr (x, e) ↦ absurd (ground arith)
        | inl (p, e) ↦ elim (Result-cases (adoption_plan (node.chain s.world) p true)) [
          | inr (x, h) ↦ absurd (ground arith)
          | inl (plan, h) ↦
              (let same_end : adopt_v1_claims node cbor_dumps source_chain_id v2_deal_id v1_deal_id
                      print_only batch_size s
                    ≡ adopt_plan node cbor_dumps p plan v2_deal_id (node.dry_run || print_only)
                        batch_size s =
                  ground arith in
                (
                  p,
                  e,
                  rw (same_end) (
                      adopt_plan-HoldsAll p plan v2_deal_id (node.dry_run || print_only) batch_size
                        s h (rw (← same_end) ended)),
                ))
        ]
      ]
