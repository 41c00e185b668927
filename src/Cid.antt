-- ===== src/Cid.antt =====
-- `_extract_piece_commitment_v1`, `piece_cid_v1_to_v2` and `cid_to_bytes` of
-- cli/services/cid_converter.py. A CID is the list of the ASCII codes of its text.
pub mod Fields
use filecoin_porep_market_to.Prelude.{
  ℕ, zero, suc, ◌+◌, ◌<◌, not, List, [], ◌∷◌, ◌++◌, Result, ok, err, ltb, ◌==◌, ◌>>=◌, ◌>>◌,
  raise_if, length, take, drop,
}
use filecoin_porep_market_to.Prelude.Int.{pos}
use filecoin_porep_market_to.Uvarint.{UvarintError, encode_uvarint, decode_uvarint}
use filecoin_porep_market_to.PieceSize.{PieceSizeError, piece_tree_height_and_padding}
use filecoin_porep_market_to.Base32.{
  CidError, truncated, trailing_bytes, height_too_large, unsupported_version, unexpected_codec,
  unexpected_multihash, unexpected_digest_size, invalid_uvarint, invalid_payload, encode_base32_cid,
  decode_base32_cid,
}

abbrev pub cid_version : ℕ
cid_version = 1

abbrev pub codec_raw : ℕ
codec_raw = 85

-- 0xF101
abbrev pub codec_fil_commitment_unsealed : ℕ
codec_fil_commitment_unsealed = 61697

-- 0x1011
abbrev pub mh_fr32_sha256_trunc254_padbintree : ℕ
mh_fr32_sha256_trunc254_padbintree = 4113

-- 0x1012
abbrev pub mh_sha2_256_trunc254_padded : ℕ
mh_sha2_256_trunc254_padded = 4114

-- The errors of the other parts are all `ValueError`s, which pass through.
unfoldable pub of_uvarint {ℓ} : {A : Type ℓ} → Result UvarintError A → Result CidError A
of_uvarint (ok x) = ok x
of_uvarint (err e) = err invalid_uvarint

unfoldable pub of_payload {ℓ} : {A : Type ℓ} → Result PieceSizeError A → Result CidError A
of_payload (ok x) = ok x
of_payload (err e) = err invalid_payload

-- `_extract_piece_commitment_v1`
unfoldable pub extract_piece_commitment_v1 : List ℕ → Result CidError (List ℕ)
extract_piece_commitment_v1 piece_cid_v1 = do
  bytes ← decode_base32_cid piece_cid_v1
  (version, after_version) ← of_uvarint (decode_uvarint bytes 0)
  (codec, after_codec) ← of_uvarint (decode_uvarint bytes after_version)
  (mh_code, after_code) ← of_uvarint (decode_uvarint bytes after_codec)
  (digest_size, offset) ← of_uvarint (decode_uvarint bytes after_code)
  raise_if (not (version == cid_version)) (unsupported_version version)
  raise_if (not (codec == codec_fil_commitment_unsealed)) (unexpected_codec codec)
  raise_if (not (mh_code == mh_sha2_256_trunc254_padded)) (unexpected_multihash mh_code)
  raise_if (not (digest_size == 32)) (unexpected_digest_size digest_size)
  let digest = take digest_size (drop offset bytes)
  raise_if (not (length digest == digest_size)) truncated
  raise_if (not (offset + digest_size == length bytes)) trailing_bytes
  ok digest

-- `cid_to_bytes`
unfoldable pub cid_to_bytes : List ℕ → Result CidError (List ℕ)
cid_to_bytes = decode_base32_cid

-- `piece_cid_v1_to_v2`; `bytes([tree_height])` raises from 256 on.
unfoldable pub piece_cid_v1_to_v2 : List ℕ → ℕ → Result CidError (List ℕ)
piece_cid_v1_to_v2 piece_cid_v1 payload_size = do
  commitment ← extract_piece_commitment_v1 piece_cid_v1
  (tree_height, padding) ← of_payload (piece_tree_height_and_padding payload_size)
  padding_bytes ← of_uvarint (encode_uvarint (pos padding))
  raise_if (not (ltb tree_height 256)) height_too_large
  let digest = padding_bytes ++ (tree_height ∷ commitment)
  code ← of_uvarint (encode_uvarint (pos mh_fr32_sha256_trunc254_padbintree))
  size ← of_uvarint (encode_uvarint (pos (length digest)))
  version ← of_uvarint (encode_uvarint (pos cid_version))
  codec ← of_uvarint (encode_uvarint (pos codec_raw))
  ok (encode_base32_cid (version ++ (codec ++ (code ++ (size ++ digest)))))
