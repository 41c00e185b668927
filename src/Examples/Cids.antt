-- ===== src/Examples/Cids.antt =====
-- The theorems on CIDs at a V1 piece CID of 32 bytes and a payload of 1000 bytes.
use filecoin_porep_market_to.Prelude.{ℕ, ◌≡◌, refl, List, [], ◌∷◌, ok, arith}
use filecoin_porep_market_to.Bytes.{from_bytes}
use filecoin_porep_market_to.Base32.{
  encode_base32_cid, decode_base32_cid, b32encode, group_letters, digits32, letter, lower, rstrip,
  pads,
}
use filecoin_porep_market_to.Base32.RoundTrip.{decode_base32_cid-encode_base32_cid}
use filecoin_porep_market_to.Cid.{piece_cid_v1_to_v2}
use filecoin_porep_market_to.Cid.Fields.{
  IsBytes, IsPieceCidV2, v1_bytes, piece_cid_v1_to_v2-IsPieceCidV2,
}
use filecoin_porep_market_to.PieceSize.Bounds.{Fits}

abbrev seven_bytes : List ℕ
seven_bytes = 1 ∷ 85 ∷ 145 ∷ 32 ∷ 255 ∷ 0 ∷ 7 ∷ []

decode_base32_cid-encode_base32_cid_example :
    decode_base32_cid (encode_base32_cid seven_bytes) ≡ ok seven_bytes
decode_base32_cid-encode_base32_cid_example = decode_base32_cid-encode_base32_cid seven_bytes (
  omega arith,
  (omega arith, (omega arith, (omega arith, (omega arith, (omega arith, (omega arith, tt)))))),
)

-- `bafkzcibcaa`
written :
    encode_base32_cid (1 ∷ 85 ∷ 145 ∷ 32 ∷ 34 ∷ 0 ∷ [])
    ≡ 98 ∷ 97 ∷ 102 ∷ 107 ∷ 122 ∷ 99 ∷ 105 ∷ 98 ∷ 99 ∷ 97 ∷ 97 ∷ []
unfolding encode_base32_cid b32encode group_letters digits32 from_bytes letter lower rstrip pads
written = refl

abbrev commitment : List ℕ
commitment =
    1 ∷ 2 ∷ 3 ∷ 4 ∷ 5 ∷ 6 ∷ 7 ∷ 8 ∷ 9 ∷ 10 ∷ 11 ∷ 12 ∷ 13 ∷ 14 ∷ 15 ∷ 16 ∷ 17 ∷ 18 ∷ 19 ∷ 20 ∷ 21
    ∷ 22 ∷ 23 ∷ 24 ∷ 25 ∷ 26 ∷ 27 ∷ 28 ∷ 29 ∷ 30 ∷ 31 ∷ 255 ∷ []

commitment-IsBytes : IsBytes commitment
commitment-IsBytes = ground arith

piece_cid_v1_to_v2-IsPieceCidV2_example :
    (cid bytes : List ℕ) × (height padding : ℕ) × (piece_cid_v1_to_v2
        (encode_base32_cid (v1_bytes commitment))
        1000
      ≡ ok cid)
    × (decode_base32_cid cid ≡ ok bytes)
    × IsPieceCidV2 bytes height padding commitment
    × Fits 1000 height padding
piece_cid_v1_to_v2-IsPieceCidV2_example =
    piece_cid_v1_to_v2-IsPieceCidV2 commitment 1000 commitment-IsBytes refl (omega arith)
      (omega arith)
