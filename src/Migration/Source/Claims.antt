-- ===== src/Migration/Source/Claims.antt =====
-- The claims of a V1 deal that the migration accepts.
use filecoin_porep_market_to.Prelude.{
  ℕ, ◌<◌, ◌≡◌, refl, true, Option, none, some, List, [], ◌∷◌, ok, arith, All, map, sum, inl, inr,
  Result-cases, keep_if, distinct, nonempty, >>=-returned,
}
use filecoin_porep_market_to.Migration.Claim.{Claim, from_rpc, RpcClaim}
use filecoin_porep_market_to.Migration.Plan.{claim_ids}
use filecoin_porep_market_to.Chain.{Chain, LegacyDeal}
use filecoin_porep_market_to.Migration.Source.{source_claim, read_claims, source_claims}

-- `Claim.from_rpc` keeps the ID that it is given.
from_rpc-claim_id :
    (id : ℕ) (raw : RpcClaim) (claim : Claim) → from_rpc id raw ≡ ok claim → claim.claim_id ≡ id
unfolding from_rpc
from_rpc-claim_id id raw claim h = ground arith

-- A claim as the chain has it, checked against the deal.
pub record IsClaimOf (chain : Chain) (source : LegacyDeal) (claim : Claim) : Type 0 where
  pub client : claim.client ≡ chain.source_client_actor
  pub provider : claim.provider ≡ source.provider
  pub has_bytes : 0 < claim.size

source_claim-IsClaimOf :
    (chain : Chain) (source : LegacyDeal) (id : ℕ) (raw : Option RpcClaim) (claim : Claim)
    → source_claim chain source id raw ≡ ok claim
    → (claim.claim_id ≡ id) × IsClaimOf chain source claim
unfolding source_claim
source_claim-IsClaimOf chain source id none claim h = cc
source_claim-IsClaimOf chain source id (some raw) claim h = elim (Result-cases (from_rpc id raw)) [
  | inl (c, e) ↦ ground (arith, from_rpc-claim_id id raw c e)
  | inr (x, e) ↦ ground arith
]

read_claims-All :
    (chain : Chain) (source : LegacyDeal) (ids : List ℕ) (claims : List Claim)
    → read_claims chain source ids ≡ ok claims
    → (claim_ids claims ≡ ids) × All (IsClaimOf chain source) claims
unfolding read_claims
read_claims-All chain source [] [] h = (refl, tt)
read_claims-All chain source [] (c ∷ cs) h = cc
read_claims-All chain source (id ∷ ids) claims h =
    let (c, h', read) =
      >>=-returned (source_claim chain source id (chain.claim source.provider id)) _ claims h in
    let (cs, end, more) = >>=-returned (read_claims chain source ids) _ claims h' in
    let (same, valid) =
      source_claim-IsClaimOf chain source id (chain.claim source.provider id) c read in
    let (same_ids, all_valid) = read_claims-All chain source ids cs more in
    let e : c ∷ cs ≡ claims = ground arith in rw (← e) (cc (same, same_ids), (valid, all_valid))

-- The claims that `source_claims` accepts are those of the IDs that the V1 client recorded for the
-- deal, in their order; the IDs are some and are distinct; every claim belongs to the V1 client
-- contract's actor and to the deal's provider, and has bytes; none is marked terminated; and
-- together they have the bytes that the V1 client recorded.
pub source_claims-Sound :
    (chain : Chain) (source : LegacyDeal) (claims : List Claim)
    → source_claims chain source ≡ ok claims
    → (claim_ids claims ≡ chain.source_allocation_ids source.deal_id)
      × (nonempty (claim_ids claims) ≡ true)
      × (distinct (claim_ids claims) ≡ true)
      × All (IsClaimOf chain source) claims
      × (keep_if chain.source_claim_terminated (claim_ids claims) ≡ [])
      × (sum (map (λ c. c.size) claims) ≡ chain.source_allocated_size source.deal_id)
unfolding source_claims
source_claims-Sound chain source claims h =
    elim (Result-cases (read_claims chain source (chain.source_allocation_ids source.deal_id))) [
      | inl (cs, e) ↦
          ground
            (arith, read_claims-All chain source (chain.source_allocation_ids source.deal_id) cs e)
      | inr (x, e) ↦ ground arith
    ]
