-- ===== src/Migration/Plan/Partition.antt =====
-- A plan splits the claims of the V1 deal into those that are registered and those to extend.
use filecoin_porep_market_to.Prelude.{
  ℕ, ◌≡◌, true, false, List, [], ◌∷◌, ok, arith, contains, difference, keep_if, distinct, nonempty,
  if◌then◌else◌, inl, inr, Result-cases,
}
use filecoin_porep_market_to.Migration.Claim.{Claim, extension_term_max}
use filecoin_porep_market_to.Migration.Plan.{
  ClaimExtension, AdoptionPlan, claim_ids, extend_missing, build_adoption_plan,
}

abbrev pub unregistered : List ℕ → List Claim → List Claim
unregistered registered = keep_if (λ c. if contains registered c.claim_id then false else true)

-- The extensions stand for these claims, in order: same provider, ID and size, and the term of
-- `extension_term_max`.
abbrev pub Extends : ℕ → List Claim → List ClaimExtension → Type 0
Extends now [] [] = Unit
Extends now [] (e ∷ es) = ⊥
Extends now (c ∷ cs) [] = ⊥
Extends now (c ∷ cs) (e ∷ es) =
    ((e.provider ≡ c.provider)
      × (e.claim_id ≡ c.claim_id)
      × (e.size ≡ c.size)
      × (extension_term_max c now ≡ ok e.new_term_max))
    × Extends now cs es

extend_missing-Extends :
    (registered : List ℕ) (now : ℕ) (claims : List Claim) (es : List ClaimExtension)
    → extend_missing registered now claims ≡ ok es
    → Extends now (unregistered registered claims) es
unfolding extend_missing
extend_missing-Extends registered now [] [] h = tt
extend_missing-Extends registered now [] (e ∷ es) h = cc
extend_missing-Extends registered now (c ∷ cs) [] h =
    ground (arith, extend_missing-Extends registered now cs [])
extend_missing-Extends registered now (c ∷ cs) (e ∷ es) h = ground (
  arith,
  extend_missing-Extends registered now cs (e ∷ es),
  extend_missing-Extends registered now cs es,
)

-- What a plan that was built says: of distinct claims some, without repetition, are registered,
-- and each other one is extended.
pub record IsPlan (claims : List Claim) (registered : List ℕ) (now : ℕ) (plan : AdoptionPlan)
    : Type 0 where
  pub source : plan.source_claims ≡ claims
  pub adopted : plan.registered_ids ≡ registered
  pub extended : Extends now (unregistered registered claims) plan.extensions
  pub claims_present : nonempty claims ≡ true
  pub claims_distinct : distinct (claim_ids claims) ≡ true
  pub registered_distinct : distinct registered ≡ true
  pub registered_known : nonempty (difference registered (claim_ids claims)) ≡ false

pub build_adoption_plan-IsPlan :
    (claims : List Claim) (registered : List ℕ) (now : ℕ) (plan : AdoptionPlan)
    → build_adoption_plan claims registered now ≡ ok plan
    → IsPlan claims registered now plan
unfolding build_adoption_plan
build_adoption_plan-IsPlan claims registered now plan h =
    elim (Result-cases (extend_missing registered now claims)) [
      | inl (es, e) ↦ ground (arith, extend_missing-Extends registered now claims es e)
      | inr (x, e) ↦ ground arith
    ]
