-- ===== src/PieceSize.antt =====
-- `_piece_tree_height_and_padding` and `padded_piece_size_for_payload` of
-- cli/services/cid_converter.py.
pub mod Bounds
use filecoin_porep_market_to.Prelude.BitLength.{bit_length}
use filecoin_porep_market_to.Prelude.{
  ℕ, ◌+◌, ◌-◌, ◌*◌, ◌/◌, ◌^◌, Result, ok, err, ltb, leb, ◌==◌, if◌then◌else◌, ◌>>=◌,
}

pub data PieceSizeError : Type 0 where
  payload_too_small : ℕ → PieceSizeError
  invalid_padding : PieceSizeError

-- The size after Fr32 expansion: ceil(payload_size * 128 / 127), as the source computes it.
unfoldable pub fr32_size : ℕ → ℕ
fr32_size payload_size =
    let size = payload_size * 128 / 127 in
    if size * 127 == payload_size * 128 then size else size + 1

-- ceil(log2(fr32_data_size)) - log2(32)
unfoldable pub tree_height_for : ℕ → ℕ
tree_height_for fr32_data_size =
    if leb fr32_data_size 32 then 0 else bit_length (fr32_data_size - 1) - 5

unfoldable pub piece_tree_height_and_padding : ℕ → Result PieceSizeError (ℕ × ℕ)
piece_tree_height_and_padding payload_size =
    let tree_height = tree_height_for (fr32_size payload_size) in
    let padded_data_size = 32 * 2 ^ tree_height / 128 * 127 in
    if ltb payload_size 127
    then err (payload_too_small payload_size)
    else if ltb padded_data_size payload_size
    then err invalid_padding
    else ok (tree_height, padded_data_size - payload_size)

unfoldable pub padded_piece_size_for_payload : ℕ → Result PieceSizeError ℕ
unfolding piece_tree_height_and_padding
padded_piece_size_for_payload payload_size = do
  (tree_height, padding) ← piece_tree_height_and_padding payload_size
  ok (32 * 2 ^ tree_height)
