-- ===== src/Migration/Plan.antt =====
-- `AdoptionPlan`, `ClaimExtension`, `build_adoption_plan`, `claim_extension_cbor` and
-- `size_within_padding` of cli/migration/service.py. The sets of IDs are lists.
pub mod Partition
pub mod Adoption
pub mod Conservation
pub mod Batches
use mathlib.Core.Option
use filecoin_porep_market_to.Prelude.{
  Option, none, some, ℕ, zero, suc, ◌+◌, ◌-◌, ◌*◌, ◌^◌, Bool, true, false, ◌&&◌, not, List, [], ◌∷◌,
  Result, ok, err, leb, ltb, ◌==◌, if◌then◌else◌, ◌>>=◌, ◌>>◌, raise_if, map, length, take, drop,
  sum, contains, distinct, difference, keep_if, nonempty, any, all,
}
use filecoin_porep_market_to.Migration.Claim.{
  Claim, MigrationError, source_ids_invalid, registered_duplicated, foreign_registered,
  batch_size_not_positive, value_out_of_range, extension_term_max,
}

pub record ClaimExtension : Type 0 where
  pub provider : ℕ
  pub claim_id : ℕ
  pub new_term_max : ℕ
  pub size : ℕ

pub record AdoptionPlan : Type 0 where
  pub source_claims : List Claim
  pub registered_ids : List ℕ
  pub extensions : List ClaimExtension

abbrev pub adoption_batch_size : ℕ
adoption_batch_size = 100

abbrev pub max_bps : ℕ
max_bps = 10000

abbrev pub datacap_precision : ℕ
datacap_precision = 10 ^ 18

abbrev pub max_uint64 : ℕ
max_uint64 = 2 ^ 64 - 1

abbrev pub claim_ids : List Claim → List ℕ
claim_ids = map (λ claim. claim.claim_id)

abbrev pub extension_ids : List ClaimExtension → List ℕ
extension_ids = map (λ extension. extension.claim_id)

-- `xs <= ys` of sets
abbrev pub is_subset : List ℕ → List ℕ → Bool
is_subset xs ys = not (nonempty (difference xs ys))

-- `AdoptionPlan.source_ids`
abbrev pub source_ids : AdoptionPlan → List ℕ
source_ids plan = claim_ids plan.source_claims

-- `AdoptionPlan.complete`: nothing to extend, and the two sets of IDs are equal.
unfoldable pub complete : AdoptionPlan → Bool
complete plan =
    not (nonempty plan.extensions)
    && (is_subset plan.registered_ids (source_ids plan)
        && is_subset (source_ids plan) plan.registered_ids)

-- `AdoptionPlan.datacap_amount`
unfoldable pub datacap_amount : AdoptionPlan → ℕ
datacap_amount plan = sum (map (λ extension. extension.size) plan.extensions) * datacap_precision

-- The slices of `AdoptionPlan.batches`, on fuel: one round for each batch.
slices {ℓ} : {A : Type ℓ} → ℕ → ℕ → List A → List (List A)
slices zero size xs = []
slices (suc fuel) size [] = []
slices (suc fuel) size (x ∷ xs) = take size (x ∷ xs) ∷ slices fuel size (drop size (x ∷ xs))

-- `AdoptionPlan.batches`. There are at most as many slices as extensions.
unfoldable pub batches : AdoptionPlan → ℕ → Result MigrationError (List AdoptionPlan)
unfolding slices
batches plan size =
    if leb size 0
    then err batch_size_not_positive
    else ok (
        map (λ extensions. record plan { extensions = extensions })
          (slices (length plan.extensions) size plan.extensions))

-- The extensions of the claims that are not registered yet, in the claims' order.
extend_missing : List ℕ → ℕ → List Claim → Result MigrationError (List ClaimExtension)
extend_missing registered current_epoch [] = ok []
extend_missing registered current_epoch (claim ∷ claims) =
    let rest = extend_missing registered current_epoch claims in
    if contains registered claim.claim_id then rest else do
      term ← extension_term_max claim current_epoch
      extensions ← rest
      ok (
          record {
            provider = claim.provider;
            claim_id = claim.claim_id;
            new_term_max = term;
            size = claim.size;
          }
          ∷ extensions)

unfoldable pub build_adoption_plan : List Claim → List ℕ → ℕ → Result MigrationError AdoptionPlan
unfolding extend_missing
build_adoption_plan source_claims registered current_epoch =
    let ids = claim_ids source_claims in
    let foreign = difference registered ids in
    do
      raise_if (not (nonempty ids && distinct ids)) source_ids_invalid
      raise_if (not (distinct registered)) registered_duplicated
      raise_if (nonempty foreign) (foreign_registered foreign)
      extensions ← extend_missing registered current_epoch source_claims
      ok (record {
        source_claims = source_claims;
        registered_ids = registered;
        extensions = extensions;
      })

-- A row of the operator data, refused if a value is outside the CBOR uint64 range.
extension_rows : List ClaimExtension → Result MigrationError (List (List ℕ))
extension_rows [] = ok []
extension_rows (extension ∷ extensions) =
    let row = extension.provider ∷ extension.claim_id ∷ extension.new_term_max ∷ [] in
    do
      raise_if (any (λ value. ltb max_uint64 value) row) value_out_of_range
      rows ← extension_rows extensions
      ok (row ∷ rows)

-- `claim_extension_cbor`, over the third-party encoder of the pair [allocation requests, claim
-- extension requests].
unfoldable pub claim_extension_cbor :
    (List (List ℕ) → List (List ℕ) → List ℕ) → List ClaimExtension → Result MigrationError (List ℕ)
unfolding extension_rows
claim_extension_cbor cbor_dumps extensions = do
  rows ← extension_rows extensions
  ok (cbor_dumps [] rows)

-- `{claim.claim_id: claim.size for claim in claims}[id]`: of equal IDs the last one counts.
unfoldable pub size_of : List Claim → ℕ → Option ℕ
size_of [] id = none
size_of (claim ∷ claims) id = elim (size_of claims id) [
  | some size ↦ some size
  | none ↦ if id == claim.claim_id then some claim.size else none
]

-- `sum(sizes[claim_id] for claim_id in ids)`; `none` is the `KeyError` of an ID with no claim.
unfoldable pub registered_bytes : List Claim → List ℕ → Option ℕ
registered_bytes claims [] = some 0
registered_bytes claims (id ∷ ids) = elim (size_of claims id) [
  | none ↦ none
  | some size ↦ Option.map (λ bytes. size + bytes) (registered_bytes claims ids)
]

-- A padding above 100 % makes the lower bound negative in the source and zero here: both hold.
unfoldable pub size_within_padding : ℕ → ℕ → ℕ → Bool
size_within_padding allocated_bytes requested_bytes padding_bps =
    leb (requested_bytes * (max_bps - padding_bps)) (allocated_bytes * max_bps)
    && leb (allocated_bytes * max_bps) (requested_bytes * (max_bps + padding_bps))
