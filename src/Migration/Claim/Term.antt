-- ===== src/Migration/Claim/Term.antt =====
-- The term that an adopted claim is extended to.
use filecoin_porep_market_to.Prelude.{ℕ, ◌+◌, ◌-◌, ◌≤◌, ◌<◌, ◌≡◌, ◌⊎◌, inl, inr, ok, err, arith}
use native.Mathlib.Decide.{dec_le}
use filecoin_porep_market_to.Migration.Claim.{
  Claim, claim_expired, nothing_to_extend, end_epoch, maximum_verified_allocation_term,
  claim_term_reserve_epochs, extension_term_max,
}

-- Exactly one of three things happens to a claim. It has expired, and is refused as expired. It is
-- live and its end already reaches the reserve below the actor's limit of five years from now, and
-- there is nothing to extend. Or it is live and its end does not reach that far: then the new term
-- is longer, and moves the end to one day below the actor's limit.
pub extension_term_max-cases :
    (claim : Claim) (now : ℕ)
    → ((end_epoch claim ≤ now)
        × (extension_term_max claim now ≡ err (claim_expired claim.claim_id (end_epoch claim))))
      ⊎ ((now < end_epoch claim)
          × (now + maximum_verified_allocation_term ≤ end_epoch claim + claim_term_reserve_epochs)
          × (extension_term_max claim now ≡ err (nothing_to_extend claim.claim_id claim.term_max)))
      ⊎ ((now < end_epoch claim)
          × (term : ℕ) × (extension_term_max claim now ≡ ok term)
          × (claim.term_max < term)
          × (claim.term_start + term + claim_term_reserve_epochs
              ≡ now + maximum_verified_allocation_term))
unfolding extension_term_max
extension_term_max-cases claim now = elim (dec_le (end_epoch claim) now) [
  | yes expired ↦ inl (expired, ground arith)
  | no live ↦
      elim (dec_le (now + maximum_verified_allocation_term)
        (end_epoch claim + claim_term_reserve_epochs)) [
          | yes long ↦ inr (inl (omega arith, long, ground arith))
          | no short ↦ inr (
              inr (
                omega arith,
                now + maximum_verified_allocation_term - claim.term_start
                    - claim_term_reserve_epochs,
                ground arith,
                omega arith,
                omega arith,
              ))
        ]
]
