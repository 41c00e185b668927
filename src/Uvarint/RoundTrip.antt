-- ===== src/Uvarint/RoundTrip.antt =====
-- Decoding what `_encode_uvarint` writes.
use native.Mathlib.Nat.{pow-suc}
use native.Mathlib.Decide.{dec_lt}
use native.Mathlib.Numerals.{towards_suc}
use filecoin_porep_market_to.Prelude.{
  drop, drop-append, length-drop, ℕ, zero, suc, ◌+◌, ◌*◌, ◌/◌, ◌%◌, ◌^◌, ◌≤◌, ◌<◌, ◌≡◌, refl, ap,
  ◌∙◌, true, false, List, [], ◌∷◌, ◌++◌, ok, arith, length, All, ◌==◌, ltb, leb,
}
use filecoin_porep_market_to.Prelude.Int.{pos}
use filecoin_porep_market_to.Uvarint.{encode_loop, decode_loop, encode_uvarint, decode_uvarint}

pow_shift : (s : ℕ) → 2 ^ (s + 7) ≡ 128 * 2 ^ s
pow_shift s = simp towards_suc (omega arith)

-- One more group of seven bits.
next_group : (acc v s : ℕ) → acc + v % 128 * 2 ^ s + v / 128 * 2 ^ (s + 7) ≡ acc + v * 2 ^ s
next_group acc v s =
    let e : v ≡ v % 128 + 128 * (v / 128) = omega arith in
    rw pow_shift (omega (arith, ap (λ (t : ℕ). t * 2 ^ s) e))

encode_loop_last : (fuel v : ℕ) → v < 128 → encode_loop (suc fuel) v ≡ v ∷ []
unfolding encode_loop
encode_loop_last fuel v h =
    let e : v % 128 ≡ v = omega arith in
    let z : (v / 128 == 0) ≡ true = ground arith in rw (z, encode_loop) (rw e)

encode_loop_more :
    (fuel v : ℕ) → 128 ≤ v → encode_loop (suc fuel) v ≡ (v % 128 + 128) ∷ encode_loop fuel (v / 128)
unfolding encode_loop
encode_loop_more fuel v h = let z : (v / 128 == 0) ≡ false = ground arith in rw (z, encode_loop)

module _ (b : ℕ) (bytes : List ℕ) (o acc s : ℕ) where
  decode_loop_last : b < 128 → decode_loop (b ∷ bytes) o acc s ≡ ok (acc + b * 2 ^ s, o + 1)
  unfolding decode_loop
  decode_loop_last h =
      let e : b % 128 ≡ b = omega arith in let z : ltb b 128 ≡ true = ground arith in rw (z, e)

  decode_loop_more :
      128 ≤ b
      → s + 7 < 64
      → decode_loop (b ∷ bytes) o acc s ≡ decode_loop bytes (o + 1) (acc + b % 128 * 2 ^ s) (s + 7)
  unfolding decode_loop
  decode_loop_more h short =
      let z : ltb b 128 ≡ false = ground arith in
      let w : leb 64 (s + 7) ≡ false = ground arith in rw (z, w)

quotient_bound : (k v : ℕ) → v < 128 ^ suc (suc k) → v / 128 < 128 ^ suc k
quotient_bound k v h = omega (arith, pow-suc 128 (suc k))

low_bits : (v : ℕ) → (v % 128 + 128) % 128 ≡ v % 128
low_bits v = omega arith

-- A value below 128 ^ suc k is read back in suc k rounds at most, whatever stands after it.
decode_loop-encode_loop :
    (k fuel v : ℕ) (rest : List ℕ) (o acc s : ℕ)
    → v < 128 ^ suc k
    → v < fuel
    → s + 7 * k < 64
    → decode_loop (encode_loop fuel v ++ rest) o acc s
      ≡ ok (acc + v * 2 ^ s, o + length (encode_loop fuel v))
decode_loop-encode_loop k zero v rest o acc s bound enough short = absurd (omega arith)
decode_loop-encode_loop zero (suc fuel) v rest o acc s bound enough short =
    let small : v < 128 = omega arith in
    rw (encode_loop_last fuel v small) (decode_loop_last v rest o acc s small)
decode_loop-encode_loop (suc k) (suc fuel) v rest o acc s bound enough short = elim (dec_lt v 128) [
  | yes small ↦ rw (encode_loop_last fuel v small) (decode_loop_last v rest o acc s small)
  | no large ↦
      let bytes = encode_loop fuel (v / 128) in
      let next : o + 1 + length bytes ≡ o + suc (length bytes) = omega arith in
      rw (encode_loop_more fuel v (omega arith)) (
        decode_loop_more (v % 128 + 128) (bytes ++ rest) o acc s (omega arith) (omega arith)
        ∙ cc (
          decode_loop-encode_loop k fuel (v / 128) rest (o + 1) (acc + v % 128 * 2 ^ s) (s + 7)
              (quotient_bound k v bound) (omega arith) (omega arith),
          low_bits v,
          next_group acc v s,
          next,
        ))
]

-- A read of several bytes keeps the shift of its last round below 64.
decode_loop_bounds :
    (bytes : List ℕ) (o acc s value end : ℕ)
    → decode_loop bytes o acc s ≡ ok (value, end)
    → s < 64
    → (o < end) × (7 * end + s < 7 * o + 71) × (end ≤ o + length bytes)
unfolding decode_loop
decode_loop_bounds [] o acc s value end h below = cc
decode_loop_bounds (b ∷ bytes) o acc s value end h below =
    ground (arith, decode_loop_bounds bytes (o + 1) (acc + b % 128 * 2 ^ s) (s + 7) value end)

encode_loop-All : (fuel v : ℕ) → All (λ b. b < 256) (encode_loop fuel v)
unfolding encode_loop
encode_loop-All zero v = tt
encode_loop-All (suc fuel) v = elim (dec_lt v 128) [
  | yes small ↦ rw (encode_loop_last fuel v small) (omega arith, tt)
  | no large ↦
      rw (encode_loop_more fuel v (omega arith)) (omega arith, encode_loop-All fuel (v / 128))
]

-- The round trip on the whole range of the decoder, ten groups of seven bits. For a value below
-- 2 ^ 70, `_encode_uvarint` returns a list of bytes, each below 256, and `_decode_uvarint` at
-- their offset reads the value back and returns the offset of their end, whatever stands before
-- and after them.
pub decode_uvarint-encode_uvarint :
    (v : ℕ) (pre rest : List ℕ)
    → v < 2 ^ 70
    → (bytes : List ℕ) × (encode_uvarint (pos v) ≡ ok bytes)
      × All (λ b. b < 256) bytes
      × (decode_uvarint (pre ++ (bytes ++ rest)) (length pre) ≡ ok (v, length pre + length bytes))
unfolding encode_uvarint decode_uvarint
decode_uvarint-encode_uvarint v pre rest h =
    let bytes = encode_loop (suc v) v in
    let one : 0 + v * 2 ^ 0 ≡ v = omega arith in
    (
      bytes,
      refl,
      encode_loop-All (suc v) v,
      rw (drop-append pre (bytes ++ rest)) (
          decode_loop-encode_loop 9 (suc v) v rest (length pre) 0 0 h (omega arith) (omega arith)
          ∙ ap (λ (t : ℕ). ok (t, length pre + length bytes)) one),
    )

-- The decoder reads no more than ten bytes of the data and never past its end: the offset that it
-- returns lies behind the one it began at, by ten at most, and not behind the end.
pub decode_uvarint_bounds :
    (bytes : List ℕ) (offset value end : ℕ)
    → decode_uvarint bytes offset ≡ ok (value, end)
    → (offset < end) × (end ≤ offset + 10) × (end ≤ length bytes)
unfolding decode_uvarint
decode_uvarint_bounds bytes offset value end h =
    let (after, few, inside) =
      decode_loop_bounds (drop offset bytes) offset 0 0 value end h (omega arith) in
    let left = length-drop offset bytes in (after, omega arith, omega arith)
