-- ===== src/PieceSize/Bounds.antt =====
-- The padded piece size is the least one that holds the payload.
use native.Mathlib.Numerals.{towards_suc}
use native.Mathlib.Decide.{dec_lt}
use filecoin_porep_market_to.Prelude.{
  ℕ, ◌+◌, ◌-◌, ◌*◌, ◌/◌, ◌^◌, ◌≤◌, ◌<◌, ◌≡◌, ◌∙◌, ap, ◌⊎◌, inl, inr, ok, err, arith,
}
use filecoin_porep_market_to.PieceSize.{
  fr32_size, tree_height_for, piece_tree_height_and_padding, payload_too_small,
  padded_piece_size_for_payload,
}
use filecoin_porep_market_to.Prelude.BitLength.{bit_length, bit_length_bounds, lt_of_pow_lt}

-- The Fr32 size is the ceiling of payload_size * 128 / 127.
fr32_size_bounds :
    (p : ℕ) → 0 < p → (p * 128 ≤ fr32_size p * 127) × (fr32_size p * 127 < p * 128 + 127)
unfolding fr32_size
fr32_size_bounds p h = ground arith

tree_height_large : (n : ℕ) → 32 < n → tree_height_for n ≡ bit_length (n - 1) - 5
unfolding tree_height_for
tree_height_large n h = ground arith

pow_by_seven : (j : ℕ) → 2 ^ (j + 7) ≡ 128 * 2 ^ j
pow_by_seven j = simp towards_suc (omega arith)

pow_by_two : (j : ℕ) → 2 ^ (j + 2) ≡ 4 * 2 ^ j
pow_by_two j = simp towards_suc (omega arith)

-- From 127 bytes on the tree has height j + 2 for the j with 64 * 2 ^ j < fr32 size ≤ 128 * 2 ^ j.
tree_height_bounds :
    (n : ℕ) → 128 ≤ n → (j : ℕ) × (tree_height_for n ≡ j + 2) × (n ≤ 128 * 2 ^ j) × (64 * 2 ^ j < n)
tree_height_bounds n large =
    let bounds = bit_length_bounds (n - 1) (omega arith) in
    let long : 6 < bit_length (n - 1) = lt_of_pow_lt 6 (bit_length (n - 1)) (omega arith) in
    let j = bit_length (n - 1) - 7 in
    let e : bit_length (n - 1) ≡ j + 7 = omega arith in
    let p : 2 ^ bit_length (n - 1) ≡ 128 * 2 ^ j = ap (λ (t : ℕ). 2 ^ t) e ∙ pow_by_seven j in
    (j, tree_height_large n (omega arith) ∙ omega arith, omega arith, omega arith)

-- What the calculation returns for a payload that it accepts: the payload with the padding fills
-- 127 of every 128 bytes of a piece of 32 * 2 ^ height bytes, half of it has no room for the
-- payload, and `padded_piece_size_for_payload` is its size.
abbrev pub Fits : ℕ → ℕ → ℕ → Type 0
Fits payload height padding =
    (piece_tree_height_and_padding payload ≡ ok (height, padding))
    × (padded_piece_size_for_payload payload ≡ ok (32 * 2 ^ height))
    × ((payload + padding) * 128 ≡ 32 * 2 ^ height * 127)
    × (16 * 2 ^ height * 127 < payload * 128)

pub height_and_padding_fit :
    (payload : ℕ) → 127 ≤ payload → (height : ℕ) × (padding : ℕ) × Fits payload height padding
unfolding piece_tree_height_and_padding padded_piece_size_for_payload
height_and_padding_fit payload h =
    let n = fr32_size payload in
    let height = tree_height_for n in
    let size = fr32_size_bounds payload (omega arith) in
    let (j, e, room, above) = tree_height_bounds n (omega arith) in
    let p : 2 ^ height ≡ 4 * 2 ^ j = ap (λ (t : ℕ). 2 ^ t) e ∙ pow_by_two j in
    let capacity : 32 * 2 ^ height / 128 * 127 ≡ 2 ^ j * 127 = omega arith in
    (
      height,
      32 * 2 ^ height / 128 * 127 - payload,
      (ground arith, ground arith, omega arith, omega arith),
    )

-- A payload below 127 bytes is refused. For every other one the calculation does not raise: it
-- returns a height and a padding such that the payload with the padding fills 127 of every 128
-- bytes of a piece of 32 * 2 ^ height bytes, `padded_piece_size_for_payload` returns the size of
-- that piece, and a piece of half that size has no room for the payload.
pub piece_tree_height_and_padding-IsLeast :
    (payload : ℕ)
    → ((payload < 127) × (piece_tree_height_and_padding payload ≡ err (payload_too_small payload)))
      ⊎ ((height : ℕ) × (padding : ℕ) × Fits payload height padding)
unfolding piece_tree_height_and_padding
piece_tree_height_and_padding-IsLeast payload = elim (dec_lt payload 127) [
  | yes small ↦ inl (small, ground arith)
  | no large ↦ inr (height_and_padding_fit payload (omega arith))
]
