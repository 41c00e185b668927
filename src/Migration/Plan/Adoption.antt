-- ===== src/Migration/Plan/Adoption.antt =====
-- What a plan leaves to adopt, and when it is complete.
use filecoin_porep_market_to.Prelude.{
  ℕ, ◌+◌, ◌≡◌, refl, List, [], ◌∷◌, ok, arith, length, contains, difference, nonempty, not, ap,
}
use filecoin_porep_market_to.Prelude.Sets.{weight, weight-keep_if, weight_subset}
use filecoin_porep_market_to.Migration.Claim.{Claim}
use filecoin_porep_market_to.Migration.Plan.{
  ClaimExtension, AdoptionPlan, claim_ids, extension_ids, build_adoption_plan, complete,
}
use filecoin_porep_market_to.Migration.Plan.Partition.{
  unregistered, Extends, IsPlan, build_adoption_plan-IsPlan,
}

extension_ids-Extends :
    (now : ℕ) (cs : List Claim) (es : List ClaimExtension)
    → Extends now cs es
    → extension_ids es ≡ claim_ids cs
extension_ids-Extends now [] [] h = refl
extension_ids-Extends now [] (e ∷ es) h = absurd h
extension_ids-Extends now (c ∷ cs) [] h = absurd h
extension_ids-Extends now (c ∷ cs) (e ∷ es) h = cc (h.0.1, extension_ids-Extends now cs es h.1)

claim_ids-unregistered :
    (registered : List ℕ) (cs : List Claim)
    → claim_ids (unregistered registered cs) ≡ difference (claim_ids cs) registered
claim_ids-unregistered registered [] = refl
claim_ids-unregistered registered (c ∷ cs) = ground (arith, claim_ids-unregistered registered cs)

length-ids : (es : List ClaimExtension) → length es ≡ weight (λ _. 1) (extension_ids es)
length-ids [] = refl
length-ids (e ∷ es) = omega (arith, length-ids es)

length-weight : (xs : List ℕ) → length xs ≡ weight (λ _. 1) xs
length-weight [] = refl
length-weight (x ∷ xs) = omega (arith, length-weight xs)

length-claim_ids : (cs : List Claim) → length cs ≡ weight (λ _. 1) (claim_ids cs)
length-claim_ids [] = refl
length-claim_ids (c ∷ cs) = omega (arith, length-claim_ids cs)

nonempty-ids : (es : List ClaimExtension) → nonempty es ≡ nonempty (extension_ids es)
nonempty-ids [] = refl
nonempty-ids (e ∷ es) = refl

-- A plan that was built adopts, in order, exactly the IDs of the V1 deal that the adapter does not
-- hold yet; with those that it holds they are as many as the claims; and the plan counts as
-- complete exactly if no ID of the V1 deal is missing on the adapter.
pub build_adoption_plan-missing :
    (claims : List Claim) (registered : List ℕ) (now : ℕ) (plan : AdoptionPlan)
    → build_adoption_plan claims registered now ≡ ok plan
    → (extension_ids plan.extensions ≡ difference (claim_ids claims) registered)
      × (length plan.extensions + length registered ≡ length claims)
      × (complete plan ≡ not (nonempty (difference (claim_ids claims) registered)))
unfolding complete
build_adoption_plan-missing claims registered now plan h = (ids, count, done)
  where
    is_plan : IsPlan claims registered now plan
    is_plan = build_adoption_plan-IsPlan claims registered now plan h

    ids : extension_ids plan.extensions ≡ difference (claim_ids claims) registered
    ids = cc (
      extension_ids-Extends now (unregistered registered claims) plan.extensions is_plan.extended,
      claim_ids-unregistered registered claims,
    )

    count : length plan.extensions + length registered ≡ length claims
    count = omega (
      arith,
      length-ids plan.extensions,
      ap (weight (λ _. 1)) ids,
      length-weight registered,
      length-claim_ids claims,
      weight-keep_if (λ _. 1) (λ id. contains registered id) (claim_ids claims),
      weight_subset (λ _. 1) registered (claim_ids claims) is_plan.claims_distinct
          is_plan.registered_distinct is_plan.registered_known,
    )

    done : complete plan ≡ not (nonempty (difference (claim_ids claims) registered))
    done =
        rw (is_plan.source, is_plan.adopted)
          (ground (arith, nonempty-ids plan.extensions, ap nonempty ids, is_plan.registered_known))
