-- ===== src/Migration/Pair/Receipt.antt =====
-- What the readback after a batch assures.
use filecoin_porep_market_to.Prelude.{
  ℕ, ◌≤◌, ◌≡◌, some, List, [], ◌∷◌, ok, arith, All, inl, inr, Result-cases, Option-cases,
  difference,
}
use filecoin_porep_market_to.Chain.{Chain}
use filecoin_porep_market_to.Migration.Claim.{Claim, RpcClaim, from_rpc}
use filecoin_porep_market_to.Migration.Plan.{
  AdoptionPlan, ClaimExtension, registered_bytes, extension_ids, source_ids,
}
use filecoin_porep_market_to.Migration.Paging.{adapter_claim_ids}
use filecoin_porep_market_to.Migration.Pair.{
  MigrationPair, target_adapter, check_extension, check_extensions, validate_batch_receipt,
}
use filecoin_porep_market_to.Migration.Pair.Ready.{check_registered_bytes-eq}

-- The chain has the claim of an extension, with a term that is long enough.
abbrev pub IsExtended : Chain → ℕ → ClaimExtension → Type 0
IsExtended chain provider extension =
    (raw : RpcClaim) × (claim : Claim) × (chain.claim provider extension.claim_id ≡ some raw)
    × (from_rpc extension.claim_id raw ≡ ok claim)
    × (extension.new_term_max ≤ claim.term_max)

check_extension-IsExtended :
    (chain : Chain) (provider : ℕ) (extension : ClaimExtension)
    → check_extension extension (chain.claim provider extension.claim_id) ≡ ok tt
    → IsExtended chain provider extension
unfolding check_extension
check_extension-IsExtended chain provider extension h =
    elim (Option-cases (chain.claim provider extension.claim_id)) [
      | inl missing ↦ absurd (ground arith)
      | inr (raw, e) ↦ elim (Result-cases (from_rpc extension.claim_id raw)) [
        | inr (x, bad) ↦ absurd (ground arith)
        | inl (claim, good) ↦ (raw, claim, e, good, ground arith)
      ]
    ]

check_extensions-All :
    (chain : Chain) (provider : ℕ) (extensions : List ClaimExtension)
    → check_extensions chain provider extensions ≡ ok tt
    → All (IsExtended chain provider) extensions
unfolding check_extensions
check_extensions-All chain provider [] h = tt
check_extensions-All chain provider (e ∷ es) h = (
  check_extension-IsExtended chain provider e (ground arith),
  check_extensions-All chain provider es (ground arith),
)

-- If `validate_batch_receipt` passes, then on the chain that it reads the adapter holds every claim
-- of the batch and none from outside the V1 deal, it records exactly the bytes of the claims that
-- it holds, and every extension of the batch has a claim whose term is as long as was asked for,
-- or longer.
pub validate_batch_receipt-Sound :
    (chain : Chain) (p : MigrationPair) (plan batch : AdoptionPlan)
    → validate_batch_receipt chain p plan batch ≡ ok tt
    → (registered : List ℕ) × (adapter_claim_ids (target_adapter chain p) p.target.deal.deal_id
        ≡ ok registered)
      × (difference (extension_ids batch.extensions) registered ≡ [])
      × (difference registered (source_ids plan) ≡ [])
      × (registered_bytes plan.source_claims registered
          ≡ some ((target_adapter chain p).allocated_bytes p.target.deal.deal_id))
      × All (IsExtended chain p.source.provider) batch.extensions
unfolding validate_batch_receipt
validate_batch_receipt-Sound chain p plan batch h =
    elim (Result-cases (adapter_claim_ids (target_adapter chain p) p.target.deal.deal_id)) [
      | inr (x, e) ↦ absurd (ground arith)
      | inl (registered, held) ↦
          let held_plan : AdoptionPlan = record {
            source_claims = plan.source_claims;
            registered_ids = registered;
            extensions = [];
          } in
          (
            registered,
            held,
            ground arith,
            ground arith,
            check_registered_bytes-eq (target_adapter chain p) p.target.deal.deal_id held_plan
                (ground arith),
            check_extensions-All chain p.source.provider batch.extensions (ground arith),
          )
    ]
