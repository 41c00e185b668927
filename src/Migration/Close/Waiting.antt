-- ===== src/Migration/Close/Waiting.antt =====
-- The poll of `_wait_past_epoch` in cli/migration/client.py ends once the chain has moved on.
use native.Mathlib.Decide.{dec_lt}
use filecoin_porep_market_to.Prelude.{ℕ, zero, suc, ◌≤◌, ◌<◌, ◌≡◌, ok, arith}
use filecoin_porep_market_to.Session.{Node, Session}
use filecoin_porep_market_to.Migration.Close.{wait_past_epoch}

module _ {W : Type 0} (node : Node W) where
  -- The world after a number of sleeps, and the block number there.
  abbrev pub after_sleeps : ℕ → W → W
  after_sleeps zero w = w
  after_sleeps (suc n) w = after_sleeps n (node.sleep w)

  abbrev pub block_after : ℕ → W → ℕ
  block_after n w = (node.chain (after_sleeps n w)).block_number

  before_next :
      (epoch n : ℕ) (w : W)
      → block_after zero w ≤ epoch
      → ((i : ℕ) → i < n → block_after i (node.sleep w) ≤ epoch)
      → (i : ℕ) → i < suc n
      → block_after i w ≤ epoch
  before_next epoch n w now before zero below = now
  before_next epoch n w now before (suc i) below = before i (omega arith)

  -- If the block number is past the epoch after some number of sleeps, whatever it was before, then a
  -- run that is followed for more polls than that returns: it sleeps until the first poll that is
  -- past the epoch, returns the block number of that poll, and changes nothing else.
  pub wait_past_epoch-returns :
      (polls epoch m : ℕ) (s : Session W)
      → epoch < block_after m s.world
      → m < polls
      → (n : ℕ) × (n ≤ m)
        × (epoch < block_after n s.world)
        × ((i : ℕ) → i < n → block_after i s.world ≤ epoch)
        × (wait_past_epoch node polls epoch s
            ≡ (ok (block_after n s.world), record s { world = after_sleeps n s.world }))
  unfolding wait_past_epoch
  wait_past_epoch-returns zero epoch m s past more = absurd (omega arith)
  wait_past_epoch-returns (suc polls) epoch zero s past more =
      (zero, omega arith, past, λ i before. absurd (omega arith), ground arith)
  wait_past_epoch-returns (suc polls) epoch (suc m) s past more =
      elim (dec_lt epoch (node.chain s.world).block_number) [
        | yes now ↦ (zero, omega arith, now, λ i before. absurd (omega arith), ground arith)
        | no wait ↦
            let slept = record s { world = node.sleep s.world } in
            let (n, few, there, before, run) =
              wait_past_epoch-returns polls epoch m slept past (omega arith) in
            (
              suc n,
              omega arith,
              there,
              before_next epoch n s.world (omega arith) before,
              ground (arith, run),
            )
      ]
