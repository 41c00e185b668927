-- ===== src/Migration/Paging/Complete.antt =====
-- The loop over the pages of an adapter ends, and has read every ID.
use mathlib.Core.List.{append_assoc}
use filecoin_porep_market_to.Prelude.{
  ℕ, zero, suc, ◌+◌, ◌≤◌, ◌<◌, ◌≡◌, refl, ap, true, false, List, [], ◌∷◌, ◌++◌, ok, err, arith,
  length, take, drop, length-drop, nonempty, intersection, Bool-cases, inl, inr, leb, not, ◌||◌,
  if◌then◌else◌,
}
use filecoin_porep_market_to.Migration.Claim.{ids_overlap}
use filecoin_porep_market_to.Chain.{Adapter}
use filecoin_porep_market_to.Migration.Paging.{
  page_size, ids_loop, all_adapter_ids, adapter_claim_ids,
}

-- A getter serves a list of IDs if each page is the slice at its offset, and reports their number.
abbrev pub Serves : (ℕ → ℕ → ℕ → List ℕ × ℕ) → ℕ → List ℕ → Type 0
Serves get_page deal_id ids =
    (offset limit : ℕ) → get_page deal_id offset limit ≡ (take limit (drop offset ids), length ids)

drop_nil {ℓ} : {A : Type ℓ} (n : ℕ) → drop {A = A} n [] ≡ []
drop_nil zero = refl
drop_nil (suc n) = refl

drop-drop {ℓ} : {A : Type ℓ} (n m : ℕ) (xs : List A) → drop n (drop m xs) ≡ drop (m + n) xs
drop-drop n zero xs = let e : 0 + n ≡ n = omega arith in rw e
drop-drop n (suc m) [] = rw (drop_nil n, drop_nil (suc m + n))
drop-drop n (suc m) (x ∷ xs) =
    let e : suc m + n ≡ suc (m + n) = omega arith in rw e (drop-drop n m xs)

take-append-rest {ℓ} :
    {A : Type ℓ} (n : ℕ) (xs : List A) → take n xs ++ drop (length (take n xs)) xs ≡ xs
take-append-rest zero xs = refl
take-append-rest (suc n) [] = refl
take-append-rest (suc n) (x ∷ xs) = rw (take-append-rest n xs)

take_whole {ℓ} :
    {A : Type ℓ} (n : ℕ) (xs : List A) → length xs ≤ length (take n xs) → take n xs ≡ xs
take_whole zero [] h = refl
take_whole zero (x ∷ xs) h = absurd (omega arith)
take_whole (suc n) [] h = refl
take_whole (suc n) (x ∷ xs) h = ap (λ t. x ∷ t) (take_whole n xs (omega arith))

take-nonempty {ℓ} :
    {A : Type ℓ} (n : ℕ) (xs : List A) → nonempty (take (suc n) xs) ≡ false → length xs ≡ 0
take-nonempty n [] h = refl
take-nonempty n (x ∷ xs) h = cc

length-nonempty {ℓ} : {A : Type ℓ} (xs : List A) → nonempty xs ≡ true → 0 < length xs
length-nonempty [] h = cc
length-nonempty (x ∷ xs) h = omega arith

-- The loop stops at a page after which nothing is left.
last_page :
    (n offset : ℕ) (ids : List ℕ)
    → (not (nonempty (take (suc n) (drop offset ids)))
        || leb (length ids) (offset + length (take (suc n) (drop offset ids))))
      ≡ true
    → offset ≤ length ids
    → take (suc n) (drop offset ids) ≡ drop offset ids
last_page n offset ids stop inside =
    take_whole (suc n) (drop offset ids)
      (ground (arith, length-drop offset ids, take-nonempty n (drop offset ids)))

module _ (get_page : ℕ → ℕ → ℕ → List ℕ × ℕ) (deal_id : ℕ) (ids : List ℕ)
    (serves : Serves get_page deal_id ids) where
  ids_loop-drop :
      (fuel offset : ℕ) (acc : List ℕ)
      → length ids < fuel + offset
      → offset ≤ length ids
      → ids_loop get_page deal_id fuel offset acc ≡ ok (acc ++ drop offset ids)
  unfolding ids_loop
  ids_loop-drop zero offset acc enough inside = absurd (omega arith)
  ids_loop-drop (suc fuel) offset acc enough inside =
      let page = take page_size (drop offset ids) in
      elim (Bool-cases (not (nonempty page) || leb (length ids) (offset + length page))) [
        | inl stop ↦ ground (arith, serves offset page_size, last_page 499 offset ids stop inside)
        | inr more ↦
            let rest =
              ids_loop-drop fuel (offset + length page) (acc ++ page)
                (ground (arith, length-nonempty page)) (ground arith) in
            ground (
              arith,
              serves offset page_size,
              rest,
              append_assoc acc page (drop (offset + length page) ids),
              take-append-rest page_size (drop offset ids),
              drop-drop (length page) offset ids,
            )
      ]

  -- Served from a list, the pages put together are that list.
  pub all_adapter_ids-Serves : all_adapter_ids get_page deal_id ≡ ok ids
  unfolding all_adapter_ids
  all_adapter_ids-Serves =
      ids_loop-drop (suc (get_page deal_id 0 page_size).1) 0 [] (ground (arith, serves 0 page_size))
        (omega arith)

-- From an adapter that serves two lists of IDs page by page, each page the slice at its offset and
-- with the number of all, the loop over the pages ends and reads both lists whole. The result is
-- the pending IDs followed by the confirmed ones, or, if an ID stands in both, the error that
-- names the IDs that do.
pub adapter_claim_ids-Serves :
    (adapter : Adapter) (deal_id : ℕ) (pending confirmed : List ℕ)
    → Serves adapter.allocation_page deal_id pending
    → Serves adapter.claim_page deal_id confirmed
    → adapter_claim_ids adapter deal_id ≡ (
        if nonempty (intersection pending confirmed)
        then err (ids_overlap (intersection pending confirmed))
        else ok (pending ++ confirmed))
unfolding adapter_claim_ids
adapter_claim_ids-Serves adapter deal_id pending confirmed p c =
    rw
      (
        all_adapter_ids-Serves adapter.allocation_page deal_id pending p,
        all_adapter_ids-Serves adapter.claim_page deal_id confirmed c,
      )
      (ground arith)
