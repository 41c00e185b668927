-- ===== src/Examples/Pieces.antt =====
-- The theorems on piece sets at a manifest of two pieces.
use filecoin_porep_market_to.Prelude.{
  ℕ, zero, suc, ◌^◌, ◌≤◌, ◌<◌, ◌≡◌, refl, some, List, [], ◌∷◌, ◌++◌, length,
}
use filecoin_porep_market_to.Prelude.Int.{pos}
use filecoin_porep_market_to.PieceSet.{
  Codec, Piece, PieceSetRow, PieceSet, max_uint32, commp_cid_prefix, sort_pieces, check_duplicates,
  number_rows, parse_piece, parse_pieces, leaf, node, empty_leaf, piece_set,
}
use filecoin_porep_market_to.PieceSet.Tree.{
  Bytes, width_from, repeated, root_of, proof_from, next_level, levels_from, build_tree,
}
use filecoin_porep_market_to.PieceSet.Tree.Proof.{climb}
use filecoin_porep_market_to.PieceSet.Membership.{piece_set-climb}
use filecoin_porep_market_to.PieceSet.Rows.{Zip, HasRow, manifest_size, piece_set-HasRow}
use mathlib.Core.List.{Perm}

abbrev zeros : ℕ → Bytes
zeros zero = []
zeros (suc n) = 0 ∷ zeros n

-- A codec that can be evaluated: every CID has a digest of zeros, and the hash keeps nothing.
abbrev pub plain_codec : Codec
plain_codec = record {
  decode = λ cid. some (commp_cid_prefix ++ zeros 32);
  keccak = λ bytes. bytes;
  keccak_text = λ name. [];
  encode = λ values. length values ∷ [];
}

abbrev two_pieces : List Piece
two_pieces =
    record { piece_cid = "baga2"; piece_size = pos 256 }
    ∷ record { piece_cid = "baga1"; piece_size = pos 128 }
    ∷ []

abbrev first_row : PieceSetRow
first_row = record { index = 0; piece_cid = "baga1"; digest = zeros 32; padded_size = 128 }

abbrev second_row : PieceSetRow
second_row = record { index = 1; piece_cid = "baga2"; digest = zeros 32; padded_size = 256 }

abbrev two_rows : PieceSet
two_rows = record {
  rows = first_row ∷ second_row ∷ [];
  size_bytes = 384;
  levels = ((5 ∷ []) ∷ (5 ∷ []) ∷ []) ∷ ((3 ∷ []) ∷ []) ∷ [];
}

piece_set-climb_example :
    (second_row.index ≡ 1)
    × (path : List Bytes) × (proof_from two_rows.levels 1 ≡ some path)
    × (2 ≤ 2 ^ length path)
    × (root_of two_rows.levels
        ≡ some (climb (node plain_codec) (leaf plain_codec second_row) 1 path))
unfolding piece_set parse_pieces parse_piece sort_pieces check_duplicates number_rows leaf node
    empty_leaf build_tree levels_from next_level width_from repeated
piece_set-climb_example = piece_set-climb plain_codec two_pieces two_rows 1 second_row refl refl

piece_set-HasRow_example :
    (ordered : List Piece) × Perm ordered two_pieces
    × Zip (HasRow plain_codec) ordered two_rows.rows
    × (0 < 2)
    × (2 ≤ max_uint32)
    × (384 ≡ manifest_size two_pieces)
unfolding piece_set parse_pieces parse_piece sort_pieces check_duplicates number_rows leaf node
    empty_leaf build_tree levels_from next_level width_from repeated
piece_set-HasRow_example = piece_set-HasRow plain_codec two_pieces two_rows refl
