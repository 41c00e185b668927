-- ===== src/Uvarint.antt =====
-- `_encode_uvarint` and `_decode_uvarint` of cli/services/cid_converter.py. Bytes are numbers
-- below 256.
pub mod RoundTrip
use filecoin_porep_market_to.Prelude.{
  ℕ, zero, suc, ◌+◌, ◌*◌, ◌/◌, ◌%◌, ◌^◌, Bool, true, false, none, some, List, [], ◌∷◌, Result, ok,
  err, drop, ltb, leb, ◌==◌, if◌then◌else◌,
}
use filecoin_porep_market_to.Prelude.Int.{ℤ, pos, negsuc}

pub data UvarintError : Type 0 where
  negative unexpected_end overflow : UvarintError

-- The loop of `_encode_uvarint`, on fuel: `byte | 0x80` is `byte + 128`, since byte < 128.
unfoldable pub encode_loop : ℕ → ℕ → List ℕ
encode_loop zero value = []
encode_loop (suc fuel) value = elim (value / 128 == 0) [
  | true ↦ value % 128 ∷ []
  | false ↦ (value % 128 + 128) ∷ encode_loop fuel (value / 128)
]

unfoldable pub encode_uvarint : ℤ → Result UvarintError (List ℕ)
unfolding encode_loop
encode_uvarint (pos value) = ok (encode_loop (suc value) value)
encode_uvarint (negsuc n) = err negative

-- The loop of `_decode_uvarint` over the bytes from `offset` on: the offset is past the end when
-- none are left. The bits of `value` lie below `shift`, so `|=` adds.
unfoldable pub decode_loop : List ℕ → ℕ → ℕ → ℕ → Result UvarintError (ℕ × ℕ)
decode_loop [] offset value shift = err unexpected_end
decode_loop (byte ∷ bytes) offset value shift =
    let value' = value + byte % 128 * 2 ^ shift in
    let rest = decode_loop bytes (offset + 1) value' (shift + 7) in
    if ltb byte 128
    then ok (value', offset + 1)
    else if leb 64 (shift + 7)
    then err overflow
    else rest

unfoldable pub decode_uvarint : List ℕ → ℕ → Result UvarintError (ℕ × ℕ)
unfolding decode_loop
decode_uvarint bytes offset = decode_loop (drop offset bytes) offset 0 0
