-- ===== src/Migration/Finish/Readiness.antt =====
-- DataCap posting is finished only for a deal that took over everything.
use filecoin_porep_market_to.Prelude.{
  ℕ, ◌≡◌, ◌⊎◌, inl, inr, ◌≢◌, Bool, true, false, ◌||◌, List, [], ◌∷◌, ok, arith, difference,
  Result-cases,
}
use filecoin_porep_market_to.Chain.{Chain, Adapter, DealState, RailStatus}
use filecoin_porep_market_to.Migration.Plan.{size_within_padding}
use filecoin_porep_market_to.Migration.Pair.{
  MigrationPair, target_adapter, pair, checked_adapter, adoption_progress,
}
use filecoin_porep_market_to.Migration.Close.{require_client}
use filecoin_porep_market_to.Transactions.Consent.{sign_and_send_tx-sends, confirm_or_abort-sends}
use filecoin_porep_market_to.Session.{finish_datacap_posting, Node, Session, sends}
use filecoin_porep_market_to.Transactions.{confirm_or_abort, sent}
use filecoin_porep_market_to.Migration.Finish.{
  require_ready, finish_posting, finish_pair, finish_migration,
}

-- The V2 deal can be finished at this moment.
pub record IsReady (v2_deal_id : ℕ) (chain : Chain) (p : MigrationPair) : Type 0 where
  pub state : p.target.deal.state ≡ DealState.accepted
  pub own_adapter : checked_adapter chain p ≡ ok (target_adapter chain p)
  pub open_posting : (target_adapter chain p).posting_finished v2_deal_id ≡ false
  pub has_validator : p.target.deal.validator_address ≢ 0
  pub has_rail : p.target.deal.rail_id ≢ 0
  pub prepared : chain.rail_status p.target.deal.validator_address ≡ RailStatus.prepared
  pub source_ids : List ℕ
  pub registered : List ℕ
  pub progress : adoption_progress chain p ≡ ok (source_ids, registered)
  pub adopted : difference source_ids registered ≡ []
  pub sized :
      size_within_padding
        ((target_adapter chain p).allocated_bytes v2_deal_id)
        p.target.requested_size_bytes
        chain.activation_padding
      ≡ true

checked_adapter-target :
    (chain : Chain) (p : MigrationPair) (adapter : Adapter)
    → checked_adapter chain p ≡ ok adapter
    → adapter ≡ target_adapter chain p
unfolding checked_adapter
checked_adapter-target chain p adapter h = ground arith

module _ {W : Type 0} (node : Node W) where
  finish_posting-sends :
      (v2_deal_id : ℕ) (print_only : Bool) (s : Session W)
      → (sends (finish_posting node v2_deal_id print_only s).1.log ≡ sends s.log)
        ⊎ ((print_only ≡ false)
            × (sends (finish_posting node v2_deal_id print_only s).1.log
                ≡ finish_datacap_posting v2_deal_id ∷ sends s.log))
  unfolding finish_posting sent
  finish_posting-sends v2_deal_id print_only s = ground (
    arith,
    confirm_or_abort-sends node s,
    sign_and_send_tx-sends node (finish_datacap_posting v2_deal_id) (confirm_or_abort node s).1,
  )

  require_ready-IsReady :
      (v2_deal_id : ℕ) (chain : Chain) (p : MigrationPair) (s : Session W)
      → (require_ready node v2_deal_id chain p s).0 ≡ ok tt
      → p.target.deal.state ≡ DealState.accepted
      → checked_adapter chain p ≡ ok (target_adapter chain p)
      → (target_adapter chain p).posting_finished v2_deal_id ≡ false
      → IsReady v2_deal_id chain p
  unfolding require_ready
  require_ready-IsReady v2_deal_id chain p s h state own posting =
      elim (Result-cases (adoption_progress chain p)) [
        | inr (x, e) ↦ absurd (ground arith)
        | inl ((ids, held), e) ↦ record {
          state = state;
          own_adapter = own;
          open_posting = posting;
          has_validator = ground arith;
          has_rail = ground arith;
          prepared = ground arith;
          source_ids = ids;
          registered = held;
          progress = e;
          adopted = ground arith;
          sized = ground arith;
        }
      ]

  require_ready-session :
      (v2_deal_id : ℕ) (chain : Chain) (p : MigrationPair) (s : Session W)
      → (require_ready node v2_deal_id chain p s).1 ≡ s
  unfolding require_ready
  require_ready-session v2_deal_id chain p s = ground arith

  finish_pair-IsReady :
      (v2_deal_id : ℕ) (chain : Chain) (p : MigrationPair) (print_only : Bool) (s : Session W)
      → let s' = (finish_pair node v2_deal_id chain p print_only s).1 in
        (sends s'.log ≡ sends s.log)
        ⊎ ((sends s'.log ≡ finish_datacap_posting v2_deal_id ∷ sends s.log)
            × (print_only ≡ false)
            × IsReady v2_deal_id chain p)
  unfolding finish_pair
  finish_pair-IsReady v2_deal_id chain p print_only s =
      elim (Result-cases (checked_adapter chain p)) [
        | inr (x, e) ↦ inl (ground arith)
        | inl (adapter, e) ↦ elim (Result-cases (require_ready node v2_deal_id chain p s).0) [
          | inr (x, r) ↦ inl (ground (arith, require_ready-session v2_deal_id chain p s))
          | inl (checked, r) ↦
              (let own = checked_adapter-target chain p adapter e in
                ground (
                  arith,
                  require_ready-session v2_deal_id chain p s,
                  finish_posting-sends v2_deal_id print_only s,
                  require_ready-IsReady v2_deal_id chain p s,
                ))
        ]
      ]

  -- `finish_migration` broadcasts nothing, or exactly the transaction that finishes the posting. It
  -- does that only outside dry-run mode and without `--print-only`, in the name of the V1 client, for
  -- a pair that was read without an error, whose V2 deal is ACCEPTED with its posting open on the
  -- market's own adapter, has a validator and a rail that is PREPARED, holds all V1 allocations, and
  -- has adapter bytes within the padding of the requested size.
  pub finish_migration-IsReady :
      (source_chain_id v2_deal_id v1_deal_id : ℕ) (print_only : Bool) (s : Session W)
      → let s' = (finish_migration node source_chain_id v2_deal_id v1_deal_id print_only s).1 in
        (sends s'.log ≡ sends s.log)
        ⊎ ((p : MigrationPair) × (pair (node.chain s.world) v2_deal_id v1_deal_id false ≡ ok p)
            × (sends s'.log ≡ finish_datacap_posting v2_deal_id ∷ sends s.log)
            × (node.dry_run ≡ false)
            × (print_only ≡ false)
            × (p.source.client ≡ node.client)
            × IsReady v2_deal_id (node.chain s.world) p)
  unfolding finish_migration require_client
  finish_migration-IsReady source_chain_id v2_deal_id v1_deal_id print_only s =
      elim (Result-cases (pair (node.chain s.world) v2_deal_id v1_deal_id false)) [
        | inr (x, e) ↦ inl (ground arith)
        | inl (p, e) ↦
            (let finished =
                finish_pair-IsReady v2_deal_id (node.chain s.world) p (node.dry_run || print_only)
                  s in
              ground (arith, finished))
      ]
