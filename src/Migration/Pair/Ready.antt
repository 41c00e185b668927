-- ===== src/Migration/Pair/Ready.antt =====
-- What an accepted adoption plan rests on.
use filecoin_porep_market_to.Prelude.{
  ℕ, ◌+◌, ◌*◌, ◌≡◌, Bool, true, false, some, List, ok, arith, map, sum, inl, inr, ◌⊎◌, Result-cases,
  Option-cases,
}
use filecoin_porep_market_to.Chain.{Chain, Adapter, DealState, EvidenceType}
use filecoin_porep_market_to.Migration.Claim.{Claim}
use filecoin_porep_market_to.Migration.Plan.{
  AdoptionPlan, registered_bytes, size_within_padding, build_adoption_plan, datacap_amount,
  datacap_precision,
}
use filecoin_porep_market_to.Migration.Plan.Partition.{build_adoption_plan-IsPlan}
use filecoin_porep_market_to.Migration.Plan.Conservation.{datacap_amount-registered_bytes}
use filecoin_porep_market_to.Migration.Paging.{adapter_claim_ids}
use filecoin_porep_market_to.Migration.Source.{source_claims}
use filecoin_porep_market_to.Migration.Source.Claims.{source_claims-Sound}
use filecoin_porep_market_to.Migration.Pair.{
  MigrationPair, target_adapter, checked_adapter, check_target_size, check_registered_bytes,
  adoption_plan,
}

-- The deal and its adapter can take the claims.
pub record IsOpen (chain : Chain) (p : MigrationPair) (require_operational : Bool) : Type 0 where
  pub state : p.target.deal.state ≡ DealState.accepted
  pub market : (target_adapter chain p).market_address ≡ chain.market
  pub evidence : (target_adapter chain p).evidence_type ≡ EvidenceType.verif_reg_claims
  pub posting : (target_adapter chain p).posting_finished p.target.deal.deal_id ≡ false
  pub operational : (require_operational ≡ false) ⊎ ((target_adapter chain p).operational ≡ true)

pub check_registered_bytes-eq :
    (adapter : Adapter) (deal_id : ℕ) (plan : AdoptionPlan)
    → check_registered_bytes adapter deal_id plan ≡ ok tt
    → registered_bytes plan.source_claims plan.registered_ids
      ≡ some (adapter.allocated_bytes deal_id)
unfolding check_registered_bytes
check_registered_bytes-eq adapter deal_id plan h =
    elim (Option-cases (registered_bytes plan.source_claims plan.registered_ids)) [
      | inl missing ↦ ground arith
      | inr (n, e) ↦ ground arith
    ]

-- The parts that an accepted plan was made of.
pub record IsReady (chain : Chain) (p : MigrationPair) (plan : AdoptionPlan) : Type 0 where
  pub claims : List Claim
  pub registered : List ℕ
  pub read : source_claims chain p.source ≡ ok claims
  pub held : adapter_claim_ids (target_adapter chain p) p.target.deal.deal_id ≡ ok registered
  pub built : build_adoption_plan claims registered chain.block_number ≡ ok plan
  pub bytes : check_registered_bytes (target_adapter chain p) p.target.deal.deal_id plan ≡ ok tt
  pub sized :
      size_within_padding
        (sum (map (λ c. c.size) claims))
        p.target.requested_size_bytes
        chain.activation_padding
      ≡ true

module _ (chain : Chain) (p : MigrationPair) (require_operational : Bool) (plan : AdoptionPlan)
    (h : adoption_plan chain p require_operational ≡ ok plan) where
  adoption_plan-IsOpen : IsOpen chain p require_operational
  unfolding adoption_plan checked_adapter
  adoption_plan-IsOpen = ground arith

  adoption_plan-sized :
      (claims : List Claim)
      → source_claims chain p.source ≡ ok claims
      → size_within_padding
          (sum (map (λ c. c.size) claims))
          p.target.requested_size_bytes
          chain.activation_padding
        ≡ true
  unfolding adoption_plan checked_adapter check_target_size
  adoption_plan-sized claims read = ground arith

  pub adoption_plan-IsReady : IsReady chain p plan
  unfolding adoption_plan checked_adapter check_target_size
  adoption_plan-IsReady = elim (Result-cases (source_claims chain p.source)) [
    | inr (x, e) ↦ ground arith
    | inl (claims, read) ↦
        elim (Result-cases (adapter_claim_ids (target_adapter chain p) p.target.deal.deal_id)) [
          | inr (x, e) ↦ ground arith
          | inl (registered, held) ↦
              elim (Result-cases (build_adoption_plan claims registered chain.block_number)) [
                | inr (x, e) ↦ ground arith
                | inl (made, built) ↦
                    let same : made ≡ plan = ground arith in
                    record {
                      claims = claims;
                      registered = registered;
                      read = read;
                      held = held;
                      built = rw (← same) built;
                      bytes = ground arith;
                      sized = adoption_plan-sized claims read;
                    }
              ]
        ]
  ]

-- Whenever `adoption_plan` returns a plan, the V2 deal is ACCEPTED, its adapter is the market's own
-- of the type for verified claims, its DataCap posting is open, and the adapter is operational if
-- that is asked for; the bytes of the V1 claims are within the padding of the requested size; and
-- the bytes that the adapter records already, with those that the plan pays DataCap for, are
-- exactly the bytes that the V1 client recorded for the deal.
pub adoption_plan-Accounts :
    (chain : Chain) (p : MigrationPair) (require_operational : Bool) (plan : AdoptionPlan)
    → adoption_plan chain p require_operational ≡ ok plan
    → IsOpen chain p require_operational
      × (size_within_padding
            (chain.source_allocated_size p.source.deal_id)
            p.target.requested_size_bytes
            chain.activation_padding
          ≡ true)
      × (datacap_amount plan
            + (target_adapter chain p).allocated_bytes p.target.deal.deal_id * datacap_precision
          ≡ chain.source_allocated_size p.source.deal_id * datacap_precision)
adoption_plan-Accounts chain p require_operational plan h =
    let ready = adoption_plan-IsReady chain p require_operational plan h in
    let sound = source_claims-Sound chain p.source ready.claims ready.read in
    let (bytes, known, total) =
      datacap_amount-registered_bytes ready.claims ready.registered chain.block_number plan
        ready.built in
    let is_plan =
      build_adoption_plan-IsPlan ready.claims ready.registered chain.block_number plan
        ready.built in
    let recorded =
      check_registered_bytes-eq (target_adapter chain p) p.target.deal.deal_id plan ready.bytes in
    let same : registered_bytes plan.source_claims plan.registered_ids
        ≡ registered_bytes ready.claims ready.registered =
      cc (is_plan.source, is_plan.adopted) in
    let equal : bytes ≡ (target_adapter chain p).allocated_bytes p.target.deal.deal_id =
      ground arith in
    (
      adoption_plan-IsOpen chain p require_operational plan h,
      rw (← sound.5) ready.sized,
      rw (← equal, ← sound.5) total,
    )
