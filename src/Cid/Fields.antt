-- ===== src/Cid/Fields.antt =====
-- The V2 piece CID of a V1 piece CID, read field by field.

use filecoin_porep_market_to.Prelude.BitLength.{lt_of_pow_lt}
use filecoin_porep_market_to.Prelude.Int.{pos}
use filecoin_porep_market_to.Prelude.{
  drop-append, ℕ, zero, suc, ◌+◌, ◌^◌, ◌≤◌, ◌<◌, ◌≡◌, refl, ap, List, [], ◌∷◌, ◌++◌, ok, arith,
  length, length-append, true, ltb, drop, take, All,
}
use filecoin_porep_market_to.Uvarint.{encode_uvarint, decode_uvarint, encode_loop, decode_loop}
use filecoin_porep_market_to.Uvarint.RoundTrip.{
  decode_uvarint-encode_uvarint, decode_uvarint_bounds,
}
use filecoin_porep_market_to.PieceSize.{piece_tree_height_and_padding}
use filecoin_porep_market_to.PieceSize.Bounds.{Fits, height_and_padding_fit}
use filecoin_porep_market_to.Base32.{encode_base32_cid, decode_base32_cid}
use filecoin_porep_market_to.Base32.RoundTrip.{decode_base32_cid-encode_base32_cid}
use filecoin_porep_market_to.Cid.{
  of_uvarint, of_payload, extract_piece_commitment_v1, piece_cid_v1_to_v2,
}

abbrev pub IsBytes : List ℕ → Type 0
IsBytes bytes = All (λ n. n < 256) bytes

-- The bytes of a V1 piece CID: version 1, codec 0xF101, multihash 0x1012, 32 bytes of commitment.
abbrev pub v1_bytes : List ℕ → List ℕ
v1_bytes commitment = 1 ∷ 129 ∷ 226 ∷ 3 ∷ 146 ∷ 32 ∷ 32 ∷ commitment

-- The fields of the bytes of a V2 piece CID, in their order.
abbrev pub IsPieceCidV2 : List ℕ → ℕ → ℕ → List ℕ → Type 0
IsPieceCidV2 bytes height padding commitment =
    (decode_uvarint bytes 0 ≡ ok (1, 1))
    × (decode_uvarint bytes 1 ≡ ok (85, 2))
    × (decode_uvarint bytes 2 ≡ ok (4113, 4))
    × (size : ℕ) × (decode_uvarint bytes 4 ≡ ok (size, 5))
    × (size + 5 ≡ length bytes)
    × (end : ℕ) × (decode_uvarint bytes 5 ≡ ok (padding, end))
    × (drop end bytes ≡ height ∷ commitment)

v1_bytes-IsBytes : (commitment : List ℕ) → IsBytes commitment → IsBytes (v1_bytes commitment)
v1_bytes-IsBytes commitment h = (
  omega arith,
  (omega arith, (omega arith, (omega arith, (omega arith, (omega arith, (omega arith, h)))))),
)

take_all : (n : ℕ) (xs : List ℕ) → length xs ≡ n → take n xs ≡ xs
take_all zero [] h = refl
take_all zero (x ∷ xs) h = absurd (omega arith)
take_all (suc n) [] h = refl
take_all (suc n) (x ∷ xs) h = ap (λ t. x ∷ t) (take_all n xs (omega arith))

extract_piece_commitment_v1-v1_bytes :
    (commitment : List ℕ)
    → IsBytes commitment
    → length commitment ≡ 32
    → extract_piece_commitment_v1 (encode_base32_cid (v1_bytes commitment)) ≡ ok commitment
unfolding extract_piece_commitment_v1 of_uvarint decode_uvarint decode_loop
extract_piece_commitment_v1-v1_bytes commitment h size =
    let decoded =
      decode_base32_cid-encode_base32_cid (v1_bytes commitment) (v1_bytes-IsBytes commitment h) in
    let all = take_all 32 commitment size in rw (decoded, all, size) refl

encode_short : (n : ℕ) → n < 128 → encode_uvarint (pos n) ≡ ok (n ∷ [])
unfolding encode_uvarint encode_loop
encode_short n h = ground arith

append-IsBytes : (xs ys : List ℕ) → IsBytes xs → IsBytes ys → IsBytes (xs ++ ys)
append-IsBytes [] ys hx hy = hy
append-IsBytes (x ∷ xs) ys hx hy = (hx.0, append-IsBytes xs ys hx.1 hy)

-- The bytes of the V2 CID, by the bytes of its padding.
abbrev v2_bytes : List ℕ → ℕ → List ℕ → List ℕ
v2_bytes padding_bytes height commitment =
    1
    ∷ 85
    ∷ 145
    ∷ 32
    ∷ length (padding_bytes ++ (height ∷ commitment))
    ∷ (padding_bytes ++ (height ∷ commitment))

v2_size :
    (padding_bytes : List ℕ) (height : ℕ) (commitment : List ℕ)
    → length commitment ≡ 32
    → length (padding_bytes ++ (height ∷ commitment)) ≡ length padding_bytes + 33
v2_size padding_bytes height commitment size =
    omega (arith, length-append padding_bytes (height ∷ commitment))

short_here :
    (n : ℕ) (rest : List ℕ) → n < 128 → decode_uvarint (1 ∷ 85 ∷ 145 ∷ 32 ∷ n ∷ rest) 4 ≡ ok (n, 5)
unfolding decode_uvarint decode_loop
short_here n rest h = ground arith

v2_bytes-IsPieceCidV2 :
    (padding_bytes : List ℕ) (height padding : ℕ) (commitment : List ℕ)
    → length (padding_bytes ++ (height ∷ commitment)) < 128
    → decode_uvarint (v2_bytes padding_bytes height commitment) 5
      ≡ ok (padding, 5 + length padding_bytes)
    → IsPieceCidV2 (v2_bytes padding_bytes height commitment) height padding commitment
unfolding decode_uvarint decode_loop
v2_bytes-IsPieceCidV2 padding_bytes height padding commitment small read =
    let digest = padding_bytes ++ (height ∷ commitment) in
    let e : 5 + length padding_bytes ≡ length (1 ∷ 85 ∷ 145 ∷ 32 ∷ length digest ∷ padding_bytes) =
      omega arith in
    (
      refl,
      refl,
      refl,
      length digest,
      short_here (length digest) digest small,
      omega arith,
      5 + length padding_bytes,
      read,
      rw (e)
          (drop-append (1 ∷ 85 ∷ 145 ∷ 32 ∷ length digest ∷ padding_bytes) (height ∷ commitment)),
    )

constant_fields :
    (encode_uvarint (pos 1) ≡ ok (1 ∷ []))
    × (encode_uvarint (pos 85) ≡ ok (85 ∷ []))
    × (encode_uvarint (pos 4113) ≡ ok (145 ∷ 32 ∷ []))
unfolding encode_uvarint encode_loop
constant_fields = (refl, refl, refl)

-- The CID that the conversion returns, by the bytes of its padding.
v2_encoded :
    (commitment padding_bytes : List ℕ) (payload height padding : ℕ)
    → IsBytes commitment
    → length commitment ≡ 32
    → piece_tree_height_and_padding payload ≡ ok (height, padding)
    → encode_uvarint (pos padding) ≡ ok padding_bytes
    → height < 256
    → length (padding_bytes ++ (height ∷ commitment)) < 128
    → piece_cid_v1_to_v2 (encode_base32_cid (v1_bytes commitment)) payload
      ≡ ok (encode_base32_cid (v2_bytes padding_bytes height commitment))
unfolding piece_cid_v1_to_v2 of_uvarint of_payload
v2_encoded commitment padding_bytes payload height padding h size fits coded low short =
    let extracted = extract_piece_commitment_v1-v1_bytes commitment h size in
    let size_byte = encode_short (length (padding_bytes ++ (height ∷ commitment))) short in
    let allowed : ltb height 256 ≡ true = ground arith in
    rw
      (
        extracted, fits, coded, allowed, constant_fields.0, constant_fields.1, constant_fields.2,
        size_byte,
      )
      refl

-- A varint is read back where it stands.
field_at :
    (v : ℕ) (bytes pre rest : List ℕ)
    → v < 2 ^ 70
    → encode_uvarint (pos v) ≡ ok bytes
    → decode_uvarint (pre ++ (bytes ++ rest)) (length pre) ≡ ok (v, length pre + length bytes)
field_at v bytes pre rest bound coded =
    let (same, coded', are_bytes, read) = decode_uvarint-encode_uvarint v pre rest bound in
    let e : same ≡ bytes = cc in rw (← e) read

-- The padding is read back from the CID, in ten bytes at most.
padding_field :
    (height padding : ℕ) (commitment : List ℕ)
    → padding < 2 ^ 70
    → length commitment ≡ 32
    → (padding_bytes : List ℕ) × (encode_uvarint (pos padding) ≡ ok padding_bytes)
      × IsBytes padding_bytes
      × (length (padding_bytes ++ (height ∷ commitment)) < 128)
      × (decode_uvarint (v2_bytes padding_bytes height commitment) 5
          ≡ ok (padding, 5 + length padding_bytes))
padding_field height padding commitment bound size =
    let (padding_bytes, coded, are_bytes, alone) =
      decode_uvarint-encode_uvarint padding [] [] bound in
    let (after, few, inside) =
      decode_uvarint_bounds (padding_bytes ++ []) 0 padding (0 + length padding_bytes) alone in
    let digest = padding_bytes ++ (height ∷ commitment) in
    let read =
      field_at padding padding_bytes (1 ∷ 85 ∷ 145 ∷ 32 ∷ length digest ∷ []) (height ∷ commitment)
        bound coded in
    (
      padding_bytes,
      coded,
      are_bytes,
      omega (arith, v2_size padding_bytes height commitment size),
      read,
    )

-- Every payload of 127 bytes to 2 ^ 60 with the V1 CID of any 32 bytes of commitment has a V2 CID, and
-- its bytes are the version 1, the raw codec, the multihash 0x1011, the size of all that follows, the
-- padding, the height of the tree and the commitment of the V1 CID, where the payload with the padding
-- fills the tree of that height and overfills one of half its size.
pub piece_cid_v1_to_v2-IsPieceCidV2 :
    (commitment : List ℕ) (payload : ℕ)
    → IsBytes commitment
    → length commitment ≡ 32
    → 127 ≤ payload
    → payload ≤ 2 ^ 60
    → (cid bytes : List ℕ) × (height padding : ℕ) × (piece_cid_v1_to_v2
          (encode_base32_cid (v1_bytes commitment))
          payload
        ≡ ok cid)
      × (decode_base32_cid cid ≡ ok bytes)
      × IsPieceCidV2 bytes height padding commitment
      × Fits payload height padding
piece_cid_v1_to_v2-IsPieceCidV2 commitment payload h size least most =
    let (height, padding, fits) = height_and_padding_fit payload least in
    let (at, sized, full, above) = fits in
    let low : height < 60 = lt_of_pow_lt height 60 (omega arith) in
    let (padding_bytes, coded, are_bytes, short, read) =
      padding_field height padding commitment (omega arith) size in
    let bytes = v2_bytes padding_bytes height commitment in
    let digest_ok = append-IsBytes padding_bytes (height ∷ commitment) are_bytes (omega arith, h) in
    (
      encode_base32_cid bytes,
      bytes,
      height,
      padding,
      v2_encoded commitment padding_bytes payload height padding h size at coded (omega arith)
          short,
      decode_base32_cid-encode_base32_cid bytes
          (omega arith, (omega arith, (omega arith, (omega arith, (omega arith, digest_ok))))),
      v2_bytes-IsPieceCidV2 padding_bytes height padding commitment short read,
      fits,
    )
