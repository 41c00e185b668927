-- ===== src/Migration/Plan/Batches.antt =====
-- The batches of a plan are its extensions, cut into pieces.

use mathlib.Core.List.{flatten}
use filecoin_porep_market_to.Prelude.{
  ℕ, zero, suc, ◌+◌, ◌*◌, ◌≤◌, ◌<◌, ◌≡◌, refl, ap, List, [], ◌∷◌, ◌++◌, ok, err, ◌⊎◌, inl, inr, ◌∙◌,
  arith, length, map, All, drop, take-append-drop, length-take, length-drop, sum,
}
use filecoin_porep_market_to.Migration.Claim.{batch_size_not_positive}
use filecoin_porep_market_to.Migration.Plan.{
  ClaimExtension, AdoptionPlan, slices, batches, datacap_amount, datacap_precision,
}

flatten-slices {ℓ} :
    {A : Type ℓ} (fuel n : ℕ) (xs : List A)
    → length xs ≤ fuel
    → flatten (slices fuel (suc n) xs) ≡ xs
unfolding slices flatten
flatten-slices zero n [] h = refl
flatten-slices zero n (x ∷ xs) h = absurd (omega arith)
flatten-slices (suc fuel) n [] h = refl
flatten-slices (suc fuel) n (x ∷ xs) h =
    cc (flatten-slices fuel n (drop n xs) (omega (arith, length-drop n xs)), take-append-drop n xs)

-- The slices are neither empty nor longer than asked for.
slices-All {ℓ} :
    {A : Type ℓ} (fuel n : ℕ) (xs : List A)
    → All (λ (s : List A). (0 < length s) × (length s ≤ suc n)) (slices fuel (suc n) xs)
unfolding slices
slices-All zero n xs = tt
slices-All (suc fuel) n [] = tt
slices-All (suc fuel) n (x ∷ xs) =
    ((omega arith, omega (arith, length-take n xs)), slices-All fuel n (drop n xs))

abbrev with_extensions : AdoptionPlan → List ClaimExtension → AdoptionPlan
with_extensions plan extensions = record plan { extensions = extensions }

extensions-map :
    (plan : AdoptionPlan) (ss : List (List ClaimExtension))
    → map (λ b. b.extensions) (map (with_extensions plan) ss) ≡ ss
extensions-map plan [] = refl
extensions-map plan (s ∷ ss) =
    ap (λ (t : List (List ClaimExtension)). s ∷ t) (extensions-map plan ss)

-- What a batch of a plan is: of the same claims, with 1 to `size` of the extensions.
abbrev pub IsBatch : AdoptionPlan → ℕ → AdoptionPlan → Type 0
IsBatch plan size batch =
    (batch.source_claims ≡ plan.source_claims)
    × (batch.registered_ids ≡ plan.registered_ids)
    × (0 < length batch.extensions)
    × (length batch.extensions ≤ size)

map-IsBatch :
    (plan : AdoptionPlan) (n : ℕ) (ss : List (List ClaimExtension))
    → All (λ (s : List ClaimExtension). (0 < length s) × (length s ≤ suc n)) ss
    → All (IsBatch plan (suc n)) (map (with_extensions plan) ss)
map-IsBatch plan n [] h = tt
map-IsBatch plan n (s ∷ ss) h = ((refl, refl, h.0.0, h.0.1), map-IsBatch plan n ss h.1)

abbrev sizes : List ClaimExtension → ℕ
sizes es = sum (map (λ e. e.size) es)

sizes-append : (es fs : List ClaimExtension) → sizes (es ++ fs) ≡ sizes es + sizes fs
sizes-append [] fs = omega arith
sizes-append (e ∷ es) fs = omega (arith, sizes-append es fs)

datacap_amount-flatten :
    (bs : List AdoptionPlan)
    → sum (map datacap_amount bs) ≡ sizes (flatten (map (λ b. b.extensions) bs)) * datacap_precision
unfolding datacap_amount flatten
datacap_amount-flatten [] = refl
datacap_amount-flatten (b ∷ bs) = omega (
  arith,
  datacap_amount-flatten bs,
  ap (λ (t : ℕ). t * datacap_precision)
      (sizes-append b.extensions (flatten (map (λ c. c.extensions) bs))),
)

batches_parts :
    (plan : AdoptionPlan) (n : ℕ)
    → (bs : List AdoptionPlan) × (batches plan (suc n) ≡ ok bs)
      × (flatten (map (λ b. b.extensions) bs) ≡ plan.extensions)
      × All (IsBatch plan (suc n)) bs
unfolding batches
batches_parts plan n =
    let ss = slices (length plan.extensions) (suc n) plan.extensions in
    (
      map (with_extensions plan) ss,
      ground arith,
      rw (extensions-map plan ss)
          (flatten-slices (length plan.extensions) n plan.extensions (omega arith)),
      map-IsBatch plan n ss (slices-All (length plan.extensions) n plan.extensions),
    )

-- A batch size of 0 is refused. With any other size, the batches put together are the extensions
-- of the plan in order, none lost and none twice; each is of the plan's claims and has between one
-- extension and the batch size; and their DataCap amounts add up to that of the plan.
pub batches-flatten :
    (plan : AdoptionPlan) (size : ℕ)
    → ((size ≡ 0) × (batches plan size ≡ err batch_size_not_positive))
      ⊎ ((bs : List AdoptionPlan) × (batches plan size ≡ ok bs)
          × (flatten (map (λ b. b.extensions) bs) ≡ plan.extensions)
          × All (IsBatch plan size) bs
          × (sum (map datacap_amount bs) ≡ datacap_amount plan))
batches-flatten plan zero = inl (refl, unfold batches in refl)
batches-flatten plan (suc n) =
    let (bs, e, flat, each) = batches_parts plan n in
    inr (
      bs,
      e,
      flat,
      each,
      datacap_amount-flatten bs
          ∙ unfold datacap_amount in
            ap (λ (t : List ClaimExtension). sizes t * datacap_precision) flat,
    )
