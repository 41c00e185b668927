-- ===== src/Bytes.antt =====
-- Python's `int.to_bytes` and `int.from_bytes` in big-endian order, and `uint_to_bytes` of
-- cli/utils.py. Bytes are numbers below 256.
pub mod RoundTrip
use filecoin_porep_market_to.Prelude.{
  ℕ, zero, suc, ◌+◌, ◌*◌, ◌/◌, ◌%◌, ◌^◌, Option, none, some, List, [], ◌∷◌, Result, ok, err, ltb,
  leb, ◌==◌, if◌then◌else◌, ◌>>=◌, ◌>>◌, raise_if,
}
use filecoin_porep_market_to.Prelude.Int.{ℤ, pos, negsuc}
use filecoin_porep_market_to.Prelude.BitLength.{bit_length}

pub data BytesError : Type 0 where
  overflow negative invalid_size : BytesError

-- The lowest `size` bytes of a number, the highest of them first.
unfoldable pub big_endian : ℕ → ℕ → List ℕ
big_endian zero x = []
big_endian (suc size) x = x / 256 ^ size % 256 ∷ big_endian size x

-- `x.to_bytes(size, "big")`
unfoldable pub to_bytes : ℕ → ℕ → Result BytesError (List ℕ)
unfolding big_endian
to_bytes x size = if ltb x (256 ^ size) then ok (big_endian size x) else err overflow

-- `int.from_bytes(bytes, "big")`
unfoldable pub from_bytes : ℕ → List ℕ → ℕ
from_bytes acc [] = acc
from_bytes acc (b ∷ bytes) = from_bytes (acc * 256 + b) bytes

-- `(x.bit_length() + 7) // 8`
abbrev pub minimal_size : ℕ → ℕ
minimal_size x = (bit_length x + 7) / 8

-- `x.to_bytes((x.bit_length() + 7) // 8, "big")`, which has room for x.
unfoldable pub big_endian_minimal : ℕ → List ℕ
unfolding big_endian
big_endian_minimal x = big_endian (minimal_size x) x

-- The size of none asks for the fewest bytes, and for one at least.
unfoldable pub uint_to_bytes : ℤ → Option ℕ → Result BytesError (List ℕ)
unfolding to_bytes
uint_to_bytes (negsuc n) size = err negative
uint_to_bytes (pos x) (some size) = if size == 0 then err invalid_size else to_bytes x size
uint_to_bytes (pos x) none =
    if x == 0
    then ok (0 ∷ [])
    else if minimal_size x == 0
    then err invalid_size
    else to_bytes x (minimal_size x)
