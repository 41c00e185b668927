-- ===== src/Migration/Plan/Conservation.antt =====
-- Every byte of the V1 deal is either registered on the adapter or paid for by the plan.
use filecoin_porep_market_to.Prelude.{
  ℕ, ◌+◌, ◌*◌, ◌≡◌, refl, Bool, true, false, Option, none, some, List, [], ◌∷◌, ok, arith, map,
  contains, difference, keep_if, distinct, nonempty, inl, inr, Bool-cases, ap, sum, All, All-imp,
}
use filecoin_porep_market_to.Prelude.Sets.{weight, weight-keep_if, weight_subset}
use filecoin_porep_market_to.Migration.Claim.{Claim}
use filecoin_porep_market_to.Migration.Plan.{
  ClaimExtension, AdoptionPlan, claim_ids, size_of, registered_bytes, build_adoption_plan,
  datacap_amount, datacap_precision,
}
use filecoin_porep_market_to.Migration.Plan.Partition.{
  unregistered, Extends, IsPlan, build_adoption_plan-IsPlan,
}

abbrev or_zero : Option ℕ → ℕ
or_zero none = 0
or_zero (some n) = n

size_of_absent :
    (cs : List Claim) (id : ℕ) → contains (claim_ids cs) id ≡ false → size_of cs id ≡ none
unfolding size_of
size_of_absent [] id h = refl
size_of_absent (c ∷ cs) id h = ground (arith, size_of_absent cs id)

size_of_present :
    (cs : List Claim) (id : ℕ)
    → contains (claim_ids cs) id ≡ true
    → (n : ℕ) × (size_of cs id ≡ some n)
unfolding size_of
size_of_present [] id h = cc
size_of_present (c ∷ cs) id h = elim (Bool-cases (contains (claim_ids cs) id)) [
  | inl later ↦ let (n, e) = size_of_present cs id later in (n, rw (e, size_of))
  | inr here ↦ (c.size, ground (arith, size_of_absent cs id here))
]

size_of_later :
    (c : Claim) (cs : List Claim) (id n : ℕ) → size_of cs id ≡ some n → size_of (c ∷ cs) id ≡ some n
unfolding size_of
size_of_later c cs id n h = rw (h, size_of)

-- Among distinct IDs each claim is found under its own.
size_of-All :
    (cs : List Claim)
    → distinct (claim_ids cs) ≡ true
    → All (λ c. size_of cs c.claim_id ≡ some c.size) cs
unfolding size_of
size_of-All [] d = tt
size_of-All (c ∷ cs) d = (
  ground (arith, size_of_absent cs c.claim_id),
  All-imp (λ x e. size_of_later c cs x.claim_id x.size e) cs (size_of-All cs (ground arith)),
)

weight-claim_ids :
    (sz : ℕ → ℕ) (p : ℕ → Bool) (cs : List Claim)
    → All (λ c. sz c.claim_id ≡ c.size) cs
    → weight (λ c. c.size) (keep_if (λ c. p c.claim_id) cs) ≡ weight sz (keep_if p (claim_ids cs))
weight-claim_ids sz p [] h = refl
weight-claim_ids sz p (c ∷ cs) h = ground (arith, weight-claim_ids sz p cs h.1)

registered_bytes_total :
    (cs : List Claim) (ids : List ℕ)
    → nonempty (difference ids (claim_ids cs)) ≡ false
    → registered_bytes cs ids ≡ some (weight (λ id. or_zero (size_of cs id)) ids)
unfolding registered_bytes
registered_bytes_total cs [] h = refl
registered_bytes_total cs (id ∷ ids) h = elim (Bool-cases (contains (claim_ids cs) id)) [
  | inl known ↦
      let (n, e) = size_of_present cs id known in ground (arith, e, registered_bytes_total cs ids)
  | inr unknown ↦ ground arith
]

extensions_weight :
    (now : ℕ) (cs : List Claim) (es : List ClaimExtension)
    → Extends now cs es
    → sum (map (λ e. e.size) es) ≡ weight (λ c. c.size) cs
extensions_weight now [] [] h = refl
extensions_weight now [] (e ∷ es) h = absurd h
extensions_weight now (c ∷ cs) [] h = absurd h
extensions_weight now (c ∷ cs) (e ∷ es) h = omega (arith, extensions_weight now cs es h.1)

sum-map : (cs : List Claim) → sum (map (λ c. c.size) cs) ≡ weight (λ c. c.size) cs
sum-map [] = refl
sum-map (c ∷ cs) = omega (arith, sum-map cs)

-- For a plan that was built, the IDs that the adapter holds have a known number of bytes, and
-- these with the bytes that the plan pays for make up the bytes of all claims: the DataCap amount
-- of the plan is for exactly the claims that are not registered yet.
pub datacap_amount-registered_bytes :
    (claims : List Claim) (registered : List ℕ) (now : ℕ) (plan : AdoptionPlan)
    → build_adoption_plan claims registered now ≡ ok plan
    → (bytes : ℕ) × (registered_bytes claims registered ≡ some bytes)
      × (datacap_amount plan + bytes * datacap_precision
          ≡ sum (map (λ c. c.size) claims) * datacap_precision)
unfolding datacap_amount
datacap_amount-registered_bytes claims registered now plan h =
    let is_plan = build_adoption_plan-IsPlan claims registered now plan h in
    (
      weight sz registered,
      registered_bytes_total claims registered is_plan.registered_known,
      total is_plan,
    )
  where
    sz : ℕ → ℕ
    sz id = or_zero (size_of claims id)

    total :
        IsPlan claims registered now plan
        → datacap_amount plan + weight sz registered * datacap_precision
          ≡ sum (map (λ c. c.size) claims) * datacap_precision
    total is_plan =
        let agree =
          All-imp {P = λ c. size_of claims c.claim_id ≡ some c.size} (λ c e. ap or_zero e) claims
            (size_of-All claims is_plan.claims_distinct) in
        grind (
          arith,
          extensions_weight now (unregistered registered claims) plan.extensions is_plan.extended,
          weight-keep_if (λ (c : Claim). c.size) (λ c. contains registered c.claim_id) claims,
          weight-claim_ids sz (λ id. contains registered id) claims agree,
          weight_subset sz registered (claim_ids claims) is_plan.claims_distinct
              is_plan.registered_distinct is_plan.registered_known,
          sum-map claims,
        )
