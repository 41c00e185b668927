-- ===== src/SubmitDdo/Loop.antt =====
-- The loop of `submit_ddo` over its plan.
use mathlib.Core.List.{append_assoc}
use filecoin_porep_market_to.Prelude.{
  ℕ, suc, ◌+◌, ◌≡◌, ◌⊎◌, inl, inr, refl, Bool, true, false, none, some, List, [], ◌∷◌, ◌++◌, length,
  All, Result, ok, is_err, arith, Result-cases, Bool-cases, length-append,
}
use filecoin_porep_market_to.Confirm.{Text}
use filecoin_porep_market_to.Curio.{Ddo, Market, get_deal_status_or_none, post_ddo, invalid_ddo}
use filecoin_porep_market_to.SubmitDdo.{
  DdoDeal, DdoError, Planned, Submission, ddo_of, submit_piece, submit_pieces,
}

module _ {W : Type 0} (market : Market W) (confirm : W → Bool × W) (view : DdoDeal)
    (url : Text) where
  -- The post is that of an entry that the endpoint did not know at some moment of the run.
  abbrev pub Among : Ddo → List Planned → Type 0
  Among ddo [] = ⊥
  Among ddo (planned ∷ plan) =
      ((ddo ≡ ddo_of view planned)
        × (w : W) × (get_deal_status_or_none market url planned.identifier w ≡ ok none))
      ⊎ Among ddo plan

  -- What the loop adds to the posts, the last first, and what it counts.
  abbrev pub Submits : List Planned → Submission W → Result DdoError (ℕ × ℕ) × Submission W → Type 0
  Submits plan s (r, s') =
      (new : List Ddo) × (s'.posts ≡ new ++ s.posts)
      × All (λ ddo. Among ddo plan) new
      × ((is_err r ≡ true)
          ⊎ ((submitted already : ℕ) × (r ≡ ok (submitted, already))
              × (submitted + already ≡ length plan)
              × (length new ≡ submitted)))

  submit_piece-posts :
      (planned : Planned) (s : Submission W)
      → let (r, s') = submit_piece market confirm view url planned s in
        ((s'.posts ≡ s.posts) × ((is_err r ≡ true) ⊎ (r ≡ ok false)))
        ⊎ ((get_deal_status_or_none market url planned.identifier s.world ≡ ok none)
            × (s'.posts ≡ ddo_of view planned ∷ s.posts)
            × ((is_err r ≡ true) ⊎ (r ≡ ok true)))
  unfolding submit_piece post_ddo
  submit_piece-posts planned s =
      elim (Result-cases (get_deal_status_or_none market url planned.identifier s.world)) [
        | inr (e, broken) ↦ ground (arith, broken)
        | inl (some status, known) ↦ ground (arith, known)
        | inl (none, unknown) ↦ elim (Bool-cases (invalid_ddo (ddo_of view planned))) [
          | inl refused ↦ inl (ground (arith, unknown, refused), ground (arith, unknown, refused))
          | inr valid ↦
              inr (unknown, ground (arith, unknown, valid), ground (arith, unknown, valid))
        ]
      ]

  Among-later :
      (planned : Planned) (plan : List Planned) (new : List Ddo)
      → All (λ ddo. Among ddo plan) new
      → All (λ ddo. Among ddo (planned ∷ plan)) new
  Among-later planned plan [] h = tt
  Among-later planned plan (ddo ∷ new) h = (inr h.0, Among-later planned plan new h.1)

  append-All : (xs ys : List Ddo) (P : Ddo → Type 0) → All P xs → All P ys → All P (xs ++ ys)
  append-All [] ys P hx hy = hy
  append-All (x ∷ xs) ys P hx hy = (hx.0, append-All xs ys P hx.1 hy)

  pub submit_pieces-Submits :
      (plan : List Planned) (s : Submission W)
      → Submits plan s (submit_pieces market confirm view url plan s)
  unfolding submit_pieces
  submit_pieces-Submits [] s = ([], refl, tt, inr (0, 0, refl, refl, refl))
  submit_pieces-Submits (planned ∷ plan) s =
      let s1 = (submit_piece market confirm view url planned s).1 in
      let (new, grown, among, ends) = submit_pieces-Submits plan s1 in
      elim (submit_piece-posts planned s) [
        | inl (same, inl broken) ↦
            ([], ground (arith, same, broken), tt, inl (ground (arith, broken)))
        | inl (same, inr known) ↦ (
          new,
          ground (arith, grown, same, known),
          Among-later planned plan new among,
          elim ends [
            | inl failed ↦ inl (ground (arith, known, failed))
            | inr (submitted, already, ran, total, count) ↦
                inr (submitted, suc already, ground (arith, known, ran), omega arith, count)
          ],
        )
        | inr (unknown, posted, inl broken) ↦ (
          ddo_of view planned ∷ [],
          ground (arith, posted, broken),
          (inl (refl, s.world, unknown), tt),
          inl (ground (arith, broken)),
        )
        | inr (unknown, posted, inr done) ↦ (
          new ++ ddo_of view planned ∷ [],
          ground (arith, grown, posted, done, append_assoc new (ddo_of view planned ∷ []) s.posts),
          append-All new (ddo_of view planned ∷ []) (λ ddo. Among ddo (planned ∷ plan))
              (Among-later planned plan new among) (inl (refl, s.world, unknown), tt),
          elim ends [
            | inl failed ↦ inl (ground (arith, done, failed))
            | inr (submitted, already, ran, total, count) ↦ inr (
              suc submitted,
              already,
              ground (arith, done, ran),
              omega arith,
              omega (arith, length-append new (ddo_of view planned ∷ [])),
            )
          ],
        )
      ]
