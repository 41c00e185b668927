-- ===== src/Migration/Pair/Matching.antt =====
-- The V1 deal that a V2 deal is matched to.
use Prim.Native.Nat.{ℕ}
use filecoin_porep_market_to.Prelude.{
  ◌≡◌, refl, Bool, true, false, none, some, List, [], ◌∷◌, ok, err, arith, map, All, keep_if, inl,
  inr, Result-cases, Option-cases, Bool-cases, not, intersection, nonempty, any, ◌==◌, ◌||◌, ◌&&◌,
}
use filecoin_porep_market_to.Chain.{Chain, LegacyDeal, DealView, EvidenceType, is_evidence}
use filecoin_porep_market_to.Migration.Paging.{adapter_claim_ids}
use filecoin_porep_market_to.Migration.Pair.{first_source, add_pair, pair_by_claims}

-- A V2 deal stands behind an adapter for verified claims that holds one of the IDs.
abbrev pub holds : Chain → List ℕ → DealView → Bool
holds chain ids target =
    let adapter = chain.adapter target.deal.evidence_adapter_address in
    not (target.deal.evidence_adapter_address == 0)
    && (is_evidence adapter.evidence_type EvidenceType.verif_reg_claims
        && (elim (adapter_claim_ids adapter target.deal.deal_id) [
          | ok registered ↦ nonempty (intersection registered ids)
          | err e ↦ false
        ]))

-- One of the V2 deals with the first ID holds an ID of the V1 deal with the second, which is one
-- of the sources.
abbrev pub Shares : Chain → List DealView → List LegacyDeal → ℕ × ℕ → Type 0
Shares chain targets sources (target_id, source_id) =
    (any (λ t. t.deal.deal_id == target_id && holds chain (chain.source_allocation_ids source_id) t)
        targets
      ≡ true)
    × (any (λ source. source.deal_id == source_id) sources ≡ true)

-- The V2 deals that hold an ID of one of the sources.
abbrev pub matched : Chain → List LegacyDeal → DealView → Bool
matched chain sources target =
    any (λ source. holds chain (chain.source_allocation_ids source.deal_id) target) sources

first_source-shares :
    (chain : Chain) (registered : List ℕ) (sources : List LegacyDeal) (source_id : ℕ)
    → first_source chain registered sources ≡ some source_id
    → (nonempty (intersection registered (chain.source_allocation_ids source_id)) ≡ true)
      × (any (λ source. source.deal_id == source_id) sources ≡ true)
unfolding first_source
first_source-shares chain registered [] id h = cc
first_source-shares chain registered (s ∷ sources) id h =
    ground (arith, first_source-shares chain registered sources id)

-- A V2 deal whose adapter is not read holds nothing.
matched_unread :
    (chain : Chain) (sources : List LegacyDeal) (t : DealView)
    → (t.deal.evidence_adapter_address == 0
        || not (
            is_evidence
              (chain.adapter t.deal.evidence_adapter_address).evidence_type
              EvidenceType.verif_reg_claims))
      ≡ true
    → matched chain sources t ≡ false
matched_unread chain [] t h = refl
matched_unread chain (s ∷ sources) t h = ground (arith, matched_unread chain sources t h)

first_source-matched :
    (chain : Chain) (sources : List LegacyDeal) (t : DealView) (registered : List ℕ)
    → adapter_claim_ids (chain.adapter t.deal.evidence_adapter_address) t.deal.deal_id
      ≡ ok registered
    → (t.deal.evidence_adapter_address == 0
        || not (
            is_evidence
              (chain.adapter t.deal.evidence_adapter_address).evidence_type
              EvidenceType.verif_reg_claims))
      ≡ false
    → (elim (first_source chain registered sources) [ none ↦ false | some id ↦ true ])
      ≡ matched chain sources t
unfolding first_source
first_source-matched chain [] t registered e h = refl
first_source-matched chain (s ∷ sources) t registered e h =
    ground (arith, first_source-matched chain sources t registered e h)

Shares-more :
    (chain : Chain) (t : DealView) (targets : List DealView) (sources : List LegacyDeal)
    (result : List (ℕ × ℕ))
    → All (Shares chain targets sources) result
    → All (Shares chain (t ∷ targets) sources) result
Shares-more chain t targets sources [] h = tt
Shares-more chain t targets sources ((a, b) ∷ result) h =
    ((ground arith, h.0.1), Shares-more chain t targets sources result h.1)

abbrev Pairs : Chain → List DealView → List LegacyDeal → List (ℕ × ℕ) → Type 0
Pairs chain targets sources result =
    All (Shares chain targets sources) result
    × (map (λ e. e.0) result ≡ map (λ t. t.deal.deal_id) (keep_if (matched chain sources) targets))

-- One more V2 deal, which is read and holds these IDs.
Pairs-add :
    (chain : Chain) (t : DealView) (targets : List DealView) (sources : List LegacyDeal)
    (registered : List ℕ) (result : List (ℕ × ℕ))
    → adapter_claim_ids (chain.adapter t.deal.evidence_adapter_address) t.deal.deal_id
      ≡ ok registered
    → (t.deal.evidence_adapter_address == 0
        || not (
            is_evidence
              (chain.adapter t.deal.evidence_adapter_address).evidence_type
              EvidenceType.verif_reg_claims))
      ≡ false
    → Pairs chain targets sources result
    → Pairs chain
        (t ∷ targets)
        sources
        (add_pair t.deal.deal_id (first_source chain registered sources) result)
unfolding add_pair
Pairs-add chain t targets sources registered result held read ih =
    elim (Option-cases (first_source chain registered sources)) [
      | inl nothing ↦
          let m = first_source-matched chain sources t registered held read in
          rw nothing (Shares-more chain t targets sources result ih.0, ground arith)
      | inr (id, e) ↦
          let m = first_source-matched chain sources t registered held read in
          let shares = first_source-shares chain registered sources id e in
          rw e ((ground arith, Shares-more chain t targets sources result ih.0), ground arith)
    ]

-- When `pair_by_claims` returns, each pair (V2 deal, V1 deal) is of a V2 deal of the list behind an
-- adapter for verified claims that holds an ID of that V1 deal, which is one of the sources; and the
-- V2 deals that are paired are, in order, exactly those that hold an ID of some source.
pub pair_by_claims-Shares :
    (chain : Chain) (targets : List DealView) (sources : List LegacyDeal) (result : List (ℕ × ℕ))
    → pair_by_claims chain targets sources ≡ ok result
    → All (Shares chain targets sources) result
      × (map (λ e. e.0) result
          ≡ map (λ t. t.deal.deal_id) (keep_if (matched chain sources) targets))
unfolding pair_by_claims
pair_by_claims-Shares chain [] sources [] h = (tt, refl)
pair_by_claims-Shares chain [] sources (e ∷ es) h = cc
pair_by_claims-Shares chain (t ∷ targets) sources result h =
    elim (Bool-cases (
      t.deal.evidence_adapter_address == 0
      || not (
          is_evidence (chain.adapter t.deal.evidence_adapter_address).evidence_type
            EvidenceType.verif_reg_claims))) [
              | inl unread ↦
                  let ih = pair_by_claims-Shares chain targets sources result (ground arith) in
                  rw (matched_unread chain sources t unread)
                    (Shares-more chain t targets sources result ih.0, ih.1)
              | inr read ↦
                  elim (Result-cases (
                    adapter_claim_ids (chain.adapter t.deal.evidence_adapter_address)
                      t.deal.deal_id)) [
                        | inr (x, e) ↦ absurd (ground arith)
                        | inl (registered, held) ↦
                            elim (Result-cases (pair_by_claims chain targets sources)) [
                              | inr (x, e) ↦ absurd (ground arith)
                              | inl (rest, e) ↦
                                  let same : add_pair t.deal.deal_id
                                        (first_source chain registered sources) rest
                                      ≡ result =
                                    ground arith in
                                  rw (← same) (
                                    Pairs-add chain t targets sources registered rest held read
                                      (pair_by_claims-Shares chain targets sources rest e))
                            ]
                      ]
            ]
