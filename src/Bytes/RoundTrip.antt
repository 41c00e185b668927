-- ===== src/Bytes/RoundTrip.antt =====
-- Reading back what `to_bytes` and `uint_to_bytes` write.
use native.Mathlib.Nat.{pow-suc, pow-le-pow_right, div-div-eq-div-mul, div-eq_of_lt}
use native.Mathlib.Decide.{dec_lt}
use native.Mathlib.Numerals.{towards_suc}
use filecoin_porep_market_to.Prelude.{
  ℕ, zero, suc, ◌+◌, ◌*◌, ◌/◌, ◌%◌, ◌^◌, ◌≤◌, ◌<◌, ◌≡◌, refl, ap, ◌∙◌, none, some, List, [], ◌∷◌,
  ok, err, arith, length, All, ◌⊎◌, inl, inr,
}
use filecoin_porep_market_to.Prelude.Int.{pos}
use filecoin_porep_market_to.Prelude.BitLength.{bit_length, bit_length_bounds, lt_of_pow_lt}
use filecoin_porep_market_to.Bytes.{
  big_endian, from_bytes, minimal_size, uint_to_bytes, overflow, invalid_size,
}

length-big_endian : (size x : ℕ) → length (big_endian size x) ≡ size
unfolding big_endian
length-big_endian zero x = refl
length-big_endian (suc size) x = ap suc (length-big_endian size x)

big_endian-All : (size x : ℕ) → All (λ b. b < 256) (big_endian size x)
unfolding big_endian
big_endian-All zero x = tt
big_endian-All (suc size) x = (omega arith, big_endian-All size x)

next_byte : (q acc : ℕ) → q / 256 ≡ acc → q ≡ acc * 256 + q % 256
next_byte q acc h = omega arith

-- The bytes stand for the number below 256 ^ size.
from_bytes-big_endian :
    (size x acc : ℕ) → x / 256 ^ size ≡ acc → from_bytes acc (big_endian size x) ≡ x
unfolding big_endian from_bytes
from_bytes-big_endian zero x acc h = omega arith
from_bytes-big_endian (suc size) x acc h =
    from_bytes-big_endian size x (acc * 256 + x / 256 ^ size % 256)
      (next_byte (x / 256 ^ size) acc (h' ∙ h))
  where
    h' : x / 256 ^ size / 256 ≡ x / 256 ^ suc size
    h' = rw (pow-suc 256 size) (div-div-eq-div-mul x (256 ^ size) 256)

big_endian-from_bytes : (size x : ℕ) → x < 256 ^ size → from_bytes 0 (big_endian size x) ≡ x
big_endian-from_bytes size x h = from_bytes-big_endian size x 0 (div-eq_of_lt h)

pow_256 : (k : ℕ) → 256 ^ k ≡ 2 ^ (k * 8)
pow_256 zero = refl
pow_256 (suc k) =
    let e : suc k * 8 ≡ k * 8 + 8 = omega arith in
    rw (pow-suc 256 k, e, pow_256 k) (simp towards_suc (omega arith))

pow_seven : (k : ℕ) → 2 ^ (k + 7) ≡ 128 * 2 ^ k
pow_seven k = simp towards_suc (omega arith)

two_pos : 0 < 2
two_pos = omega arith

-- The size that the source takes has room for the number, and one byte less has not.
minimal_size_bounds :
    (x : ℕ)
    → 0 < x
    → (0 < minimal_size x) × (x < 256 ^ minimal_size x) × (256 ^ minimal_size x ≤ 256 * x)
minimal_size_bounds x h =
    let k = bit_length x in
    let bounds = bit_length_bounds x h in
    let long : 0 < k = lt_of_pow_lt 0 k (omega arith) in
    let size = minimal_size x in
    let room = pow-le-pow_right two_pos {i = k} {j = size * 8} (omega arith) in
    let tight = pow-le-pow_right two_pos {i = size * 8} {j = k + 7} (omega arith) in
    (omega arith, omega (arith, pow_256 size), omega (arith, pow_256 size, pow_seven k))

-- What a list of bytes for a number is: every byte below 256, and read back as the number.
abbrev pub Stands : List ℕ → ℕ → Type 0
Stands bytes x = All (λ b. b < 256) bytes × (from_bytes 0 bytes ≡ x)

-- A number that is not negative is written by `uint_to_bytes` as bytes that read back as it. With
-- no size given, it always is, in the fewest bytes: one for zero, and otherwise so many that one
-- less has no room for it.
pub from_bytes-uint_to_bytes :
    (x : ℕ)
    → (bytes : List ℕ) × (uint_to_bytes (pos x) none ≡ ok bytes)
      × Stands bytes x
      × (0 < length bytes)
      × (((x ≡ 0) × (length bytes ≡ 1)) ⊎ (256 ^ length bytes ≤ 256 * x))
unfolding uint_to_bytes from_bytes
from_bytes-uint_to_bytes zero =
    (0 ∷ [], refl, ((omega arith, tt), refl), omega arith, inl (refl, refl))
from_bytes-uint_to_bytes (suc y) =
    let x = suc y in
    let (some_bytes, room, fewest) = minimal_size_bounds x (omega arith) in
    let n = length-big_endian (minimal_size x) x in
    (
      big_endian (minimal_size x) x,
      ground arith,
      (big_endian-All (minimal_size x) x, big_endian-from_bytes (minimal_size x) x room),
      rw n some_bytes,
      inr (rw n fewest),
    )

-- With a size given, the number is written in that many bytes exactly if the size is positive and
-- it has room for the number; otherwise `uint_to_bytes` raises.
pub uint_to_bytes_size :
    (x size : ℕ)
    → ((0 < size)
        × (x < 256 ^ size)
        × (bytes : List ℕ) × (uint_to_bytes (pos x) (some size) ≡ ok bytes)
        × Stands bytes x
        × (length bytes ≡ size))
      ⊎ ((size ≡ 0) × (uint_to_bytes (pos x) (some size) ≡ err invalid_size))
      ⊎ ((256 ^ size ≤ x) × (uint_to_bytes (pos x) (some size) ≡ err overflow))
unfolding uint_to_bytes
uint_to_bytes_size x zero = inr (inl (refl, refl))
uint_to_bytes_size x (suc k) = elim (dec_lt x (256 ^ suc k)) [
  | yes room ↦ inl (
    omega arith,
    room,
    big_endian (suc k) x,
    ground arith,
    (big_endian-All (suc k) x, big_endian-from_bytes (suc k) x room),
    length-big_endian (suc k) x,
  )
  | no large ↦ inr (inr (omega arith, ground arith))
]
