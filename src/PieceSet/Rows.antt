-- ===== src/PieceSet/Rows.antt =====
-- The rows of a piece set are the pieces of the manifest.
use Prim.Native.String.{String}
use mathlib.Core.List.Perm
use filecoin_porep_market_to.Prelude.{
  ℕ, suc, ◌+◌, ◌≤◌, ◌<◌, ◌≡◌, refl, ap, sym, ◌∙◌, some, List, [], ◌∷◌, ◌++◌, ok, arith,
  Result-cases, Option-cases, Bool-cases, inl, inr, length, map, sum, take, drop, true,
  take-append-drop, length-drop,
}
use mathlib.Core.List.{Perm, Permᴰ}
use mathlib.Core.Logic.{∥∥₁_elim}
use native.Mathlib.Nat.{ℕ_set}
use filecoin_porep_market_to.Prelude.Int.{ℤ, pos, negsuc}
use filecoin_porep_market_to.PieceSet.{
  Codec, Piece, PieceSetRow, PieceSet, Parsed, commp_cid_prefix, bytes_eq, key_lt, max_uint32,
  max_uint64, insert_piece, sort_pieces, number_rows, check_size, check_cid, parse_piece,
  parse_pieces, piece_set,
}
use filecoin_porep_market_to.PieceSet.Tree.{Bytes}

-- The lists have the same length, and their elements are related one by one.
abbrev pub Zip {ℓ κ} : {A : Type ℓ} {B : Type κ} → (A → B → Type 0) → List A → List B → Type 0
Zip R [] [] = Unit {0}
Zip R [] (y ∷ ys) = ⊥
Zip R (x ∷ xs) [] = ⊥
Zip R (x ∷ xs) (y ∷ ys) = R x y × Zip R xs ys

-- The size of a piece of the manifest, which counts for nothing if it is negative.
abbrev pub natural : ℤ → ℕ
natural (pos n) = n
natural (negsuc n) = 0

abbrev pub manifest_size : List Piece → ℕ
manifest_size pieces = sum (map (λ piece. natural piece.piece_size) pieces)

-- The CID, the digest and the size are those of the piece: the bytes of its CID are the prefix of a
-- piece commitment with the digest, of 32 bytes, and its size is positive and has 64 bits at most.
abbrev pub IsOfPiece : Codec → Piece → String → Bytes → ℕ → Type 0
IsOfPiece codec piece cid digest size =
    (cid ≡ piece.piece_cid)
    × (codec.decode piece.piece_cid ≡ some (commp_cid_prefix ++ digest))
    × (length digest ≡ 32)
    × (pos size ≡ piece.piece_size)
    × (0 < size)
    × (size ≤ max_uint64)

abbrev pub HasRow : Codec → Piece → PieceSetRow → Type 0
HasRow codec piece row = IsOfPiece codec piece row.piece_cid row.digest row.padded_size

abbrev IsParsed : Codec → Piece → Parsed → Type 0
IsParsed codec piece (cid, digest, size) = IsOfPiece codec piece cid digest size

bytes_eq-eq : (xs ys : Bytes) → bytes_eq xs ys ≡ true → xs ≡ ys
bytes_eq-eq [] [] h = refl
bytes_eq-eq [] (y ∷ ys) h = cc
bytes_eq-eq (x ∷ xs) [] h = cc
bytes_eq-eq (x ∷ xs) (y ∷ ys) h = ground (arith, bytes_eq-eq xs ys)

check_size-ok :
    (cid cid' : String) (digest digest' : Bytes) (amount : ℤ) (size : ℕ)
    → check_size cid digest amount ≡ ok (cid', digest', size)
    → (cid' ≡ cid) × (digest' ≡ digest) × (pos size ≡ amount) × (0 < size) × (size ≤ max_uint64)
unfolding check_size
check_size-ok cid cid' digest digest' (negsuc n) size h = ground arith
check_size-ok cid cid' digest digest' (pos n) size h = ground arith

-- A CID that is accepted is 39 bytes, of which the first are the prefix.
check_cid-ok :
    (piece : Piece) (cid_bytes : Bytes) (parsed : Parsed)
    → check_cid piece (some cid_bytes) ≡ ok parsed
    → (length cid_bytes ≡ 39)
      × (take 7 cid_bytes ≡ commp_cid_prefix)
      × (check_size piece.piece_cid (drop 7 cid_bytes) piece.piece_size ≡ ok parsed)
unfolding check_cid
check_cid-ok piece cid_bytes parsed h =
    let same = bytes_eq-eq (take 7 cid_bytes) commp_cid_prefix in ground (arith, same)

module _ (codec : Codec) where
  parse_piece-IsParsed :
      (piece : Piece) (parsed : Parsed)
      → parse_piece codec piece ≡ ok parsed
      → IsParsed codec piece parsed
  unfolding parse_piece check_cid
  parse_piece-IsParsed piece (cid, digest, size) h =
      elim (Option-cases (codec.decode piece.piece_cid)) [
        | inl missing ↦ absurd (ground arith)
        | inr (cid_bytes, e) ↦
            (let checked : check_cid piece (some cid_bytes) ≡ ok (cid, digest, size) = cc in
              let (long, starts, sized) =
                check_cid-ok piece cid_bytes (cid, digest, size) checked in
              let (cid_same, digest_same, size_same, positive, small) =
                check_size-ok piece.piece_cid cid (drop 7 cid_bytes) digest piece.piece_size size
                  sized in
              let split = take-append-drop 7 cid_bytes in
              let left = length-drop 7 cid_bytes in
              let whole : cid_bytes ≡ commp_cid_prefix ++ digest = cc in
              (cid_same, cc, rw (digest_same) (omega arith), size_same, positive, small))
      ]

  parse_pieces-IsParsed :
      (pieces : List Piece) (parsed : List Parsed)
      → parse_pieces codec pieces ≡ ok parsed
      → Zip (IsParsed codec) pieces parsed
  unfolding parse_pieces
  parse_pieces-IsParsed [] [] h = tt
  parse_pieces-IsParsed [] (p ∷ ps) h = ground arith
  parse_pieces-IsParsed (piece ∷ pieces) [] h = ground arith
  parse_pieces-IsParsed (piece ∷ pieces) (p ∷ ps) h =
      (parse_piece-IsParsed piece p (ground arith), parse_pieces-IsParsed pieces ps (ground arith))

  -- Sorting brings the pieces along.
  abbrev Arranged : List Piece → List Parsed → Type 0
  Arranged pieces ps =
      (ordered : List Piece) × Perm ordered pieces × Zip (IsParsed codec) ordered ps

  insert_piece-Arranged :
      (piece : Piece) (p : Parsed) (pieces : List Piece) (ps : List Parsed)
      → IsParsed codec piece p
      → Zip (IsParsed codec) pieces ps
      → Arranged (piece ∷ pieces) (insert_piece p ps)
  unfolding insert_piece
  insert_piece-Arranged piece p [] [] is all = (piece ∷ [], Perm.refl (piece ∷ []), (is, tt))
  insert_piece-Arranged piece p [] (q ∷ qs) is all = absurd all
  insert_piece-Arranged piece p (other ∷ pieces) [] is all = absurd all
  insert_piece-Arranged piece p (other ∷ pieces) (q ∷ qs) is (first, all) =
      elim (Bool-cases (key_lt q p)) [
        | inl before ↦
            let (ordered, same, zipped) = insert_piece-Arranged piece p pieces qs is all in
            (
              other ∷ ordered,
              Perm.trans (Perm.cons other same) (Perm.swap piece other pieces),
              rw (before) (first, zipped),
            )
        | inr behind ↦ (
          piece ∷ other ∷ pieces,
          Perm.refl (piece ∷ other ∷ pieces),
          rw (behind) (is, (first, all)),
        )
      ]

  sort_pieces-Arranged :
      (pieces : List Piece) (ps : List Parsed)
      → Zip (IsParsed codec) pieces ps
      → Arranged pieces (sort_pieces ps)
  unfolding sort_pieces
  sort_pieces-Arranged [] [] all = ([], Perm.refl [], tt)
  sort_pieces-Arranged [] (p ∷ ps) all = absurd all
  sort_pieces-Arranged (piece ∷ pieces) [] all = absurd all
  sort_pieces-Arranged (piece ∷ pieces) (p ∷ ps) (is, all) =
      let (ordered, same, zipped) = sort_pieces-Arranged pieces ps all in
      let (ordered', same', zipped') =
        insert_piece-Arranged piece p ordered (sort_pieces ps) is zipped in
      (ordered', Perm.trans same' (Perm.cons piece same), zipped')

  number_rows-HasRow :
      (i : ℕ) (pieces : List Piece) (ps : List Parsed)
      → Zip (IsParsed codec) pieces ps
      → Zip (HasRow codec) pieces (number_rows i ps)
  unfolding number_rows
  number_rows-HasRow i [] [] all = tt
  number_rows-HasRow i [] (p ∷ ps) all = absurd all
  number_rows-HasRow i (piece ∷ pieces) [] all = absurd all
  number_rows-HasRow i (piece ∷ pieces) (p ∷ ps) (is, all) =
      (is, number_rows-HasRow (i + 1) pieces ps all)

Permᴰ-manifest_size : {xs ys : List Piece} → Permᴰ xs ys → manifest_size xs ≡ manifest_size ys
Permᴰ-manifest_size Permᴰ.nil = refl
Permᴰ-manifest_size (Permᴰ.cons same p) = cc (same, Permᴰ-manifest_size p)
Permᴰ-manifest_size (Permᴰ.swap {a} {b} {a'} {b'} {l} first second) =
    let swapped : natural a.piece_size + (natural b.piece_size + manifest_size l)
        ≡ natural b.piece_size + (natural a.piece_size + manifest_size l) =
      omega arith in
    cc (first, second, swapped)
Permᴰ-manifest_size (Permᴰ.trans p q) = Permᴰ-manifest_size p ∙ Permᴰ-manifest_size q

length-number_rows : (i : ℕ) (ps : List Parsed) → length (number_rows i ps) ≡ length ps
unfolding number_rows
length-number_rows i [] = refl
length-number_rows i (p ∷ ps) = ap suc (length-number_rows (i + 1) ps)

manifest_size-perm : (xs ys : List Piece) → Perm xs ys → manifest_size xs ≡ manifest_size ys
manifest_size-perm xs ys p = ∥∥₁_elim p (ℕ_set _ _) Permᴰ-manifest_size

Zip-manifest_size :
    (codec : Codec) (pieces : List Piece) (rows : List PieceSetRow)
    → Zip (HasRow codec) pieces rows
    → sum (map (λ row. row.padded_size) rows) ≡ manifest_size pieces
Zip-manifest_size codec [] [] all = refl
Zip-manifest_size codec [] (row ∷ rows) all = absurd all
Zip-manifest_size codec (piece ∷ pieces) [] all = absurd all
Zip-manifest_size codec (piece ∷ pieces) (row ∷ rows)
      ((cid, decoded, long, size, positive, small), all) =
    let same : natural piece.piece_size ≡ row.padded_size = ap natural (sym size) in
    omega (arith, same, Zip-manifest_size codec pieces rows all)

-- The rows of a piece set that was built are the pieces of the manifest in some order: each row has its
-- piece's CID and its size, which is positive and below 2 ^ 64, and the bytes of the CID are the
-- prefix of a piece commitment and the row's digest, of 32 bytes. There is one row at least and
-- at most 2 ^ 32 - 1, and the size of the set is the sum of the sizes in the manifest.
pub piece_set-HasRow :
    (codec : Codec) (pieces : List Piece) (set : PieceSet)
    → piece_set codec pieces ≡ ok set
    → (ordered : List Piece) × Perm ordered pieces
      × Zip (HasRow codec) ordered set.rows
      × (0 < length set.rows)
      × (length set.rows ≤ max_uint32)
      × (set.size_bytes ≡ manifest_size pieces)
unfolding piece_set
piece_set-HasRow codec pieces set h = elim (Result-cases (parse_pieces codec pieces)) [
  | inr (x, e) ↦ absurd (ground arith)
  | inl (parsed, e) ↦
      (let sorted = sort_pieces parsed in
        let (ordered, same, zipped) =
          sort_pieces-Arranged codec pieces parsed (parse_pieces-IsParsed codec pieces parsed e) in
        let rows = number_rows 0 sorted in
        let zipped_rows = number_rows-HasRow codec 0 ordered sorted zipped in
        let same_rows : set.rows ≡ rows = ground arith in
        let same_size : set.size_bytes ≡ sum (map (λ row. row.padded_size) rows) = ground arith in
        let some_rows : 0 < length sorted = ground arith in
        let few_rows : length sorted ≤ max_uint32 = ground arith in
        let counted = length-number_rows 0 sorted in
        let summed = Zip-manifest_size codec ordered rows zipped_rows in
        let permuted = manifest_size-perm ordered pieces same in
        (
          ordered,
          same,
          rw (same_rows) zipped_rows,
          rw (same_rows) (omega arith),
          rw (same_rows) (omega arith),
          same_size ∙ summed ∙ permuted,
        ))
]
