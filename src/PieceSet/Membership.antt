-- ===== src/PieceSet/Membership.antt =====
-- Each row of a piece set has a proof that leads to the root.
use filecoin_porep_market_to.Prelude.{
  ℕ, zero, suc, ◌+◌, ◌^◌, ◌≤◌, ◌≡◌, refl, some, List, [], ◌∷◌, ok, arith, ap, Result-cases, inl,
  inr, length, map, get_elem?,
}
use filecoin_porep_market_to.PieceSet.{
  Codec, Piece, PieceSetRow, PieceSet, Parsed, sort_pieces, number_rows, parse_pieces, leaf, node,
  empty_leaf, piece_set,
}
use filecoin_porep_market_to.PieceSet.Tree.{Bytes, build_tree, root_of, proof_from}
use filecoin_porep_market_to.PieceSet.Tree.Proof.{climb, build_tree-climb}

number_rows-index :
    (start : ℕ) (ps : List Parsed) (i : ℕ) (row : PieceSetRow)
    → get_elem? (number_rows start ps) i ≡ some row
    → row.index ≡ start + i
unfolding number_rows
number_rows-index start [] i row h = cc
number_rows-index start (p ∷ ps) zero row h = ground arith
number_rows-index start (p ∷ ps) (suc i) row h =
    ground (arith, number_rows-index (start + 1) ps i row)

get_elem?-map {ℓ κ} :
    {A : Type ℓ} {B : Type κ} (f : A → B) (xs : List A) (i : ℕ) (x : A)
    → get_elem? xs i ≡ some x
    → get_elem? (map f xs) i ≡ some (f x)
get_elem?-map f [] i x h = cc
get_elem?-map f (y ∷ xs) zero x h = cc
get_elem?-map f (y ∷ xs) (suc i) x h = get_elem?-map f xs i x h

length-map {ℓ κ} :
    {A : Type ℓ} {B : Type κ} (f : A → B) (xs : List A) → length (map f xs) ≡ length xs
length-map f [] = refl
length-map f (x ∷ xs) = ap suc (length-map f xs)

piece_set-index :
    (codec : Codec) (pieces : List Piece) (set : PieceSet) (i : ℕ) (row : PieceSetRow)
    → piece_set codec pieces ≡ ok set
    → get_elem? set.rows i ≡ some row
    → row.index ≡ 0 + i
unfolding piece_set
piece_set-index codec pieces set i row h at_i = elim (Result-cases (parse_pieces codec pieces)) [
  | inr (x, e) ↦ absurd (ground arith)
  | inl (parsed, e) ↦
      let same_rows : set.rows ≡ number_rows 0 (sort_pieces parsed) = ground arith in
      number_rows-index 0 (sort_pieces parsed) i row (rw (← same_rows) at_i)
]

-- Row `i` of a piece set that was built has the index `i` and a proof, and from the row's leaf at that
-- index the proof leads, through hashes of two nodes, to the root of the set; the proof has so
-- many hashes that two to that number has room for all rows.
pub piece_set-climb :
    (codec : Codec) (pieces : List Piece) (set : PieceSet) (i : ℕ) (row : PieceSetRow)
    → piece_set codec pieces ≡ ok set
    → get_elem? set.rows i ≡ some row
    → (row.index ≡ i)
      × (path : List Bytes) × (proof_from set.levels i ≡ some path)
      × (length set.rows ≤ 2 ^ length path)
      × (root_of set.levels ≡ some (climb (node codec) (leaf codec row) i path))
unfolding piece_set
piece_set-climb codec pieces set i row h at_i =
    let tree : set.levels ≡ build_tree (node codec) (empty_leaf codec) (map (leaf codec) set.rows) =
      ground arith in
    let indexed : row.index ≡ 0 + i = piece_set-index codec pieces set i row h at_i in
    let (path, proved, room, rooted) =
      build_tree-climb (node codec) (empty_leaf codec) (map (leaf codec) set.rows) i
        (leaf codec row) (get_elem?-map (leaf codec) set.rows i row at_i) in
    let same_length = length-map (leaf codec) set.rows in
    (omega arith, path, rw (tree) proved, rw (← same_length) room, rw (tree) rooted)
