-- ===== src/Migration/Close/Safety.antt =====
-- A V1 rail is terminated only once its V2 deal replaces it.
use filecoin_porep_market_to.Prelude.{
  ℕ, ◌≤◌, ◌≡◌, refl, Bool, true, false, ◌||◌, Option, none, some, List, [], ok, arith, ◌⊎◌, inl,
  inr, any, difference, Result-cases,
}
use filecoin_porep_market_to.Chain.{Chain, Rail, DealState}
use filecoin_porep_market_to.Migration.Pair.{MigrationPair, pair, adoption_progress}
use filecoin_porep_market_to.Session.{
  Tx, terminate_rail, settle_terminated_rail, Node, Session, sends,
}
use filecoin_porep_market_to.Transactions.{confirm_or_abort, sent}
use filecoin_porep_market_to.Transactions.Consent.{sign_and_send_tx-sends, confirm_or_abort-sends}
use filecoin_porep_market_to.Migration.Close.Sends.{Ends, Closing, operate-Closing}
use filecoin_porep_market_to.Migration.Close.{
  max_v1_notice_epochs, require_client, require_v2_replaces_v1, choose_operation, settle, operate,
  close_rail, close_v1_deal,
}

abbrev pub is_terminate : Tx → Bool
is_terminate (terminate_rail rail_id) = true
is_terminate _ = false

-- A transaction of a log terminates a rail.
abbrev pub terminates : List Tx → Bool
terminates = any is_terminate

module _ {W : Type 0} (node : Node W) where
  settle-terminates :
      (rail_id : ℕ) (s : Session W)
      → terminates (sends (settle node rail_id s).1.log) ≡ terminates (sends s.log)
  unfolding settle sent
  settle-terminates rail_id s =
      ground (arith, sign_and_send_tx-sends node (settle_terminated_rail rail_id) s)

  -- The V2 deal replaces the V1 deal at this moment, and the notice is acceptable.
  abbrev pub Replaces : Chain → MigrationPair → Rail → Bool → Type 0
  Replaces chain p rail force =
      (source_ids : List ℕ) × (registered : List ℕ) × (adoption_progress chain p
        ≡ ok (source_ids, registered))
      × (difference source_ids registered ≡ [])
      × (p.target.deal.state ≡ DealState.active)
      × ((rail.lockup_period ≤ max_v1_notice_epochs) ⊎ (force ≡ true))

  choose_operation-session :
      (p : MigrationPair) (rail : Rail) (force : Bool) (s : Session W)
      → (choose_operation node p rail force s).1 ≡ s
  unfolding choose_operation require_v2_replaces_v1
  choose_operation-session p rail force s = ground arith

  choose_operation-Replaces :
      (p : MigrationPair) (rail : Rail) (force : Bool) (s : Session W) (tx : Tx)
      → (choose_operation node p rail force s).0 ≡ ok (some tx)
      → rail.end_epoch ≡ 0
      → Replaces (node.chain s.world) p rail force
  unfolding choose_operation require_v2_replaces_v1
  choose_operation-Replaces p rail force s tx h z =
      elim (Result-cases (adoption_progress (node.chain s.world) p)) [
        | inr (x, e) ↦ absurd (ground arith)
        | inl ((ids, registered), e) ↦
            (ids, registered, e, ground arith, ground arith, ground arith)
      ]

  module _ (polls : ℕ) where
    operate-terminates :
        (print_only : Bool) (rail : Rail) (rail_id : ℕ) (tx : Option Tx) (s : Session W)
        → terminates (sends (operate node polls print_only rail rail_id tx s).1.log) ≡ true
        → terminates (sends s.log) ≡ false
        → (rail.end_epoch ≡ 0) × (print_only ≡ false)
    unfolding operate confirm_or_abort
    operate-terminates print_only rail rail_id none s h z = cc
    operate-terminates print_only rail rail_id (some tx) s h z =
        let asked = confirm_or_abort-sends node s in
        let after = settle-terminates rail_id (confirm_or_abort node s).1 in
        ground (arith, asked, after)

    Closing-Ends :
        (rail_id : ℕ) (s s' : Session W)
        → Closing rail_id s s'
        → terminates (sends s'.log) ≡ true
        → terminates (sends s.log) ≡ false
        → Ends rail_id s s'
    Closing-Ends rail_id s s' (inl e) h z = absurd (ground (arith, e))
    Closing-Ends rail_id s s' (inr (inl e)) h z = absurd (ground (arith, e))
    Closing-Ends rail_id s s' (inr (inr ends)) h z = ends

    operate-nothing :
        (print_only : Bool) (rail : Rail) (rail_id : ℕ) (s : Session W)
        → (operate node polls print_only rail rail_id none s).1 ≡ s
    unfolding operate
    operate-nothing print_only rail rail_id s = refl

    close_rail-Replaces :
        (p : MigrationPair) (print_only force : Bool) (source_rail : Option Rail) (s : Session W)
        → terminates (sends (close_rail node polls p print_only force source_rail s).1.log) ≡ true
        → terminates (sends s.log) ≡ false
        → (rail : Rail) × (source_rail ≡ some rail)
          × (rail.end_epoch ≡ 0)
          × (print_only ≡ false)
          × Ends p.source.rail_id s (close_rail node polls p print_only force source_rail s).1
          × Replaces (node.chain s.world) p rail force
    unfolding close_rail
    close_rail-Replaces p print_only force none s h z = cc
    close_rail-Replaces p print_only force (some rail) s h z =
        let same = choose_operation-session p rail force s in
        elim (Result-cases (choose_operation node p rail force s).0) [
          | inr (x, e) ↦ absurd (ground (arith, same))
          | inl (none, e) ↦
              absurd (ground (arith, same, operate-nothing print_only rail p.source.rail_id s))
          | inl (some tx, e) ↦
              (let after =
                  operate-terminates print_only rail p.source.rail_id (some tx) s
                    (ground (arith, same)) z in
                let closed : Closing p.source.rail_id s
                    (close_rail node polls p print_only force (some rail) s).1 =
                  ground (
                    arith,
                    same,
                    operate-Closing node polls print_only rail p.source.rail_id (some tx) s,
                  ) in
                (
                  rail,
                  refl,
                  after.0,
                  after.1,
                  Closing-Ends p.source.rail_id s
                      (close_rail node polls p print_only force (some rail) s).1 closed h z,
                  choose_operation-Replaces p rail force s tx e after.0,
                ))
        ]

    -- A run of `close_v1_deal` that broadcasts a termination does so outside dry-run mode and
    -- without `--print-only`, in the name of the V1 client, for a pair that was read without an
    -- error, whose V1 rail is still open. It broadcasts the termination of that rail and nothing else,
    -- but for the settlement of the rail behind it. At the moment it begins, all V1 allocations are
    -- registered for the V2 deal, the V2 deal is active, and the notice is within two days unless
    -- `--force` was given.
    pub close_v1_deal-Replaces :
        (source_chain_id v1_deal_id v2_deal_id : ℕ) (print_only force : Bool) (s : Session W)
        → terminates (
            sends
              (close_v1_deal node polls source_chain_id v1_deal_id v2_deal_id print_only force
                s).1.log)
          ≡ true
        → terminates (sends s.log) ≡ false
        → (p : MigrationPair) × (rail : Rail) × (pair
              (node.chain s.world)
              v2_deal_id
              v1_deal_id
              false
            ≡ ok p)
          × (p.source.client ≡ node.client)
          × (p.source_rail ≡ some rail)
          × (rail.end_epoch ≡ 0)
          × (node.dry_run ≡ false)
          × (print_only ≡ false)
          × Ends p.source.rail_id s
              (close_v1_deal node polls source_chain_id v1_deal_id v2_deal_id print_only force s).1
          × Replaces (node.chain s.world) p rail force
    unfolding close_v1_deal require_client
    close_v1_deal-Replaces source_chain_id v1_deal_id v2_deal_id print_only force s h z =
        elim (Result-cases (pair (node.chain s.world) v2_deal_id v1_deal_id false)) [
          | inr (x, e) ↦ absurd (ground arith)
          | inl (p, e) ↦
              (let (rail, is_source, is_open, is_sent, ends, replaces) =
                  close_rail-Replaces p (node.dry_run || print_only) force p.source_rail s
                    (ground arith) z in
                (
                  p,
                  rail,
                  e,
                  ground arith,
                  is_source,
                  is_open,
                  ground arith,
                  ground arith,
                  ground (arith, ends),
                  replaces,
                ))
        ]
