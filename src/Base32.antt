-- ===== src/Base32.antt =====
-- `_encode_base32_cid` and `_decode_base32_cid` of cli/services/cid_converter.py, with Python's
-- `base64.b32encode` and `b32decode` written out. A text is the list of its ASCII codes, bytes are
-- numbers below 256.
mod Groups
pub mod RoundTrip
use filecoin_porep_market_to.Prelude.{
  ℕ, zero, suc, ◌+◌, ◌-◌, ◌*◌, ◌/◌, ◌%◌, ◌^◌, Bool, true, false, not, ◌&&◌, ◌||◌, Option, none,
  some, List, [], ◌∷◌, ◌++◌, Result, ok, err, ltb, leb, ◌==◌, if◌then◌else◌, ◌>>=◌, ◌>>◌, raise_if,
  length, take, drop, map, nonempty,
}
use filecoin_porep_market_to.Bytes.{from_bytes, big_endian}

pub data CidError : Type 0 where
  unsupported_multibase invalid_base32 truncated trailing_bytes height_too_large : CidError
  unsupported_version unexpected_codec unexpected_multihash unexpected_digest_size : ℕ → CidError
  invalid_uvarint invalid_payload : CidError

-- `=`
abbrev pub pad : ℕ
pad = 61

-- `[x] * n`
unfoldable pub pads : ℕ → List ℕ
pads zero = []
pads (suc n) = pad ∷ pads n

-- The base 32 alphabet, `A` to `Z` and `2` to `7`.
unfoldable pub letter : ℕ → ℕ
letter digit = if ltb digit 26 then 65 + digit else 24 + digit

unfoldable pub digit_of : ℕ → Option ℕ
digit_of c =
    if leb 65 c && leb c 90
    then some (c - 65)
    else if leb 50 c && leb c 55
    then some (c - 24)
    else none

-- The lowest `size` digits of a number in base 32, the highest of them first.
unfoldable pub digits32 : ℕ → ℕ → List ℕ
digits32 zero x = []
digits32 (suc size) x = x / 32 ^ size % 32 ∷ digits32 size x

-- The eight letters of five bytes.
unfoldable pub group_letters : List ℕ → List ℕ
group_letters bytes = map letter (digits32 8 (from_bytes 0 bytes))

-- `base64.b32encode`: the last bytes are padded with zeros, and the letters that stand for them alone
-- are replaced by `=`.
unfoldable pub b32encode : List ℕ → List ℕ
b32encode [] = []
b32encode (a ∷ []) = take 2 (group_letters (a ∷ 0 ∷ 0 ∷ 0 ∷ 0 ∷ [])) ++ pads 6
b32encode (a ∷ b ∷ []) = take 4 (group_letters (a ∷ b ∷ 0 ∷ 0 ∷ 0 ∷ [])) ++ pads 4
b32encode (a ∷ b ∷ c ∷ []) = take 5 (group_letters (a ∷ b ∷ c ∷ 0 ∷ 0 ∷ [])) ++ pads 3
b32encode (a ∷ b ∷ c ∷ d ∷ []) = take 7 (group_letters (a ∷ b ∷ c ∷ d ∷ 0 ∷ [])) ++ pads 1
b32encode (a ∷ b ∷ c ∷ d ∷ e ∷ bytes) = group_letters (a ∷ b ∷ c ∷ d ∷ e ∷ []) ++ b32encode bytes

-- `.rstrip("=")`
unfoldable pub rstrip : List ℕ → List ℕ
rstrip [] = []
rstrip (c ∷ cs) = let rest = rstrip cs in if (c == pad) && not (nonempty rest) then [] else c ∷ rest

-- `.lower()` and `.upper()` of an ASCII text
unfoldable pub lower : ℕ → ℕ
lower c = if leb 65 c && leb c 90 then c + 32 else c

unfoldable pub upper : ℕ → ℕ
upper c = if leb 97 c && leb c 122 then c - 32 else c

-- `_encode_base32_cid`, with the multibase prefix `b`
unfoldable pub encode_base32_cid : List ℕ → List ℕ
encode_base32_cid bytes = 98 ∷ rstrip (map lower (b32encode bytes))

-- The number of up to eight letters.
unfoldable pub letters_value : ℕ → List ℕ → Result CidError ℕ
letters_value acc [] = ok acc
letters_value acc (c ∷ cs) = elim (digit_of c) [
  | none ↦ err invalid_base32
  | some digit ↦ letters_value (acc * 32 + digit) cs
]

-- The bytes of the last letters, of which `missing` are missing, by the number of padding characters.
unfoldable pub last_bytes : ℕ → ℕ → List ℕ
last_bytes missing acc = take ((43 - 5 * missing) / 8) (big_endian 5 (acc * 32 ^ missing))

-- `base64.b32decode` behind the check of the padding, on the text without it; on fuel, one round for
-- each group of eight letters.
unfoldable pub decode_groups : ℕ → List ℕ → ℕ → Result CidError (List ℕ)
decode_groups zero letters missing = ok []
decode_groups (suc fuel) [] missing = ok []
decode_groups (suc fuel) (c ∷ cs) missing =
    let rest = decode_groups fuel (drop 8 (c ∷ cs)) missing in
    do
      acc ← letters_value 0 (take 8 (c ∷ cs))
      if nonempty (drop 8 (c ∷ cs))
          then (do bytes ← rest; ok (big_endian 5 acc ++ bytes))
          else ok (last_bytes missing acc)

-- The padding of a text of whole groups.
abbrev pub is_padding : ℕ → Bool
is_padding missing =
    (missing == 0) || ((missing == 1) || ((missing == 3) || ((missing == 4) || (missing == 6))))

unfoldable pub b32decode : List ℕ → Result CidError (List ℕ)
b32decode text =
    let stripped = rstrip text in
    let missing = length text - length stripped in
    do
      raise_if (not (length text % 8 == 0) || not (is_padding missing)) invalid_base32
      decode_groups (length stripped) stripped missing

-- `_decode_base32_cid`
unfoldable pub decode_base32_cid : List ℕ → Result CidError (List ℕ)
decode_base32_cid [] = err unsupported_multibase
decode_base32_cid (c ∷ cs) =
    let encoded = map upper cs in
    do
      raise_if (not (c == 98)) unsupported_multibase
      b32decode (encoded ++ pads ((8 - length encoded % 8) % 8))
