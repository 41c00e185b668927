-- ===== src/Manifest/Shape.antt =====
-- The shape of a manifest that is accepted.
use filecoin_porep_market_to.Prelude.{
  ◌+◌, ◌≤◌, ◌≡◌, inl, inr, refl, ap, true, false, some, List, [], ◌∷◌, ◌++◌, length, All, ok, arith,
  Bool-cases, Option-cases,
}
use filecoin_porep_market_to.Confirm.{Text, same_text}
use filecoin_porep_market_to.Confirm.Answers.{same_text-eq}
use filecoin_porep_market_to.Manifest.{
  PieceEntry, Document, data_text, dag_text, of_type, total_size, is_positive, is_small_dag,
  all_same, check_pieces, manifest_pieces, validate_manifest,
}

abbrev pub IsData : PieceEntry → Type 0
IsData p = p.piece_type ≡ data_text

-- Of these pieces one is a dag piece, and all the others, at least one, are data pieces.
abbrev pub HasOneDag : List PieceEntry → PieceEntry → Type 0
HasOneDag pieces dag =
    (before after : List PieceEntry) × (pieces ≡ before ++ dag ∷ after)
    × (dag.piece_type ≡ dag_text)
    × All IsData before
    × All IsData after

of_type_bound : (t : Text) (ps : List PieceEntry) → length (of_type t ps) ≤ length ps
unfolding of_type
of_type_bound t [] = omega arith
of_type_bound t (p ∷ ps) = ground (arith, of_type_bound t ps)

all-IsData : (ps : List PieceEntry) → length (of_type data_text ps) ≡ length ps → All IsData ps
unfolding of_type
all-IsData [] h = tt
all-IsData (p ∷ ps) h = elim (Bool-cases (same_text p.piece_type data_text)) [
  | inl yes_data ↦
      (same_text-eq p.piece_type data_text yes_data, all-IsData ps (ground (arith, h, yes_data)))
  | inr not_data ↦ absurd (ground (arith, h, not_data, of_type_bound data_text ps))
]

no_dag : (ps : List PieceEntry) → All IsData ps → of_type dag_text ps ≡ []
unfolding of_type same_text
no_dag [] h = refl
no_dag (p ∷ ps) h =
    let e : same_text p.piece_type dag_text ≡ false = rw (h.0) refl in
    rw (e, of_type) (no_dag ps h.1)

one_dag :
    (ps rest : List PieceEntry) (dag : PieceEntry)
    → length (of_type data_text ps) + 1 ≡ length ps
    → of_type dag_text ps ≡ dag ∷ rest
    → HasOneDag ps dag
unfolding of_type same_text
one_dag [] rest dag h dags = absurd (omega arith)
one_dag (p ∷ ps) rest dag h dags = elim (Bool-cases (same_text p.piece_type data_text)) [
  | inl yes_data ↦
      let is_data : IsData p = same_text-eq p.piece_type data_text yes_data in
      let e : same_text p.piece_type dag_text ≡ false = rw (is_data) refl in
      let (before, after, split, typed, h1, h2) =
        one_dag ps rest dag (ground (arith, h, yes_data)) (ground (arith, dags, e)) in
      (p ∷ before, after, ap (λ t. p ∷ t) split, typed, (is_data, h1), h2)
  | inr not_data ↦
      let others = all-IsData ps (ground (arith, h, not_data)) in
      let none_there = no_dag ps others in
      elim (Bool-cases (same_text p.piece_type dag_text)) [
        | inr other ↦ absurd (ground (arith, dags, other, none_there))
        | inl yes_dag ↦
            let e : p ≡ dag = ground (arith, dags, yes_dag, none_there) in
            rw (← e) ([], ps, refl, same_text-eq p.piece_type dag_text yes_dag, tt, others)
      ]
]

-- The accepted pieces.
abbrev pub IsAccepted : List PieceEntry → Type 0
IsAccepted pieces =
    (dag first : PieceEntry) × HasOneDag pieces dag
    × (is_small_dag dag.piece_size ≡ false)
    × (2 ≤ length pieces)
    × (is_positive (total_size pieces) ≡ true)
    × (all_same (λ p. p.preparation_id) first.preparation_id pieces ≡ true)
    × (all_same (λ p. p.attachment_id) first.attachment_id pieces ≡ true)

check_pieces-IsAccepted :
    (first : PieceEntry) (others pieces : List PieceEntry)
    → check_pieces first others ≡ ok pieces
    → (pieces ≡ first ∷ others) × IsAccepted (first ∷ others)
unfolding check_pieces
check_pieces-IsAccepted first others pieces h = go (of_type dag_text (first ∷ others)) refl
  where
    go :
        (dags : List PieceEntry)
        → of_type dag_text (first ∷ others) ≡ dags
        → (pieces ≡ first ∷ others) × IsAccepted (first ∷ others)
    go [] e = absurd (ground (arith, h, e))
    go (dag ∷ rest) e = (
      ground (arith, h, e),
      (
        dag,
        first,
        one_dag (first ∷ others) rest dag (ground (arith, h, e)) e,
        ground (arith, h, e),
        ground (arith, h, e),
        ground (arith, h, e),
        ground (arith, h, e),
        ground (arith, h, e),
      ),
    )

-- A manifest that `_validate_manifest` accepts is returned as its pieces, at least two of them: exactly one is a dag piece, of 1 MiB or more, and all the
-- others are data pieces; all have the same preparation and the same attachment, and their sizes add up to more than zero.
pub validate_manifest-IsAccepted :
    (document : Document) (pieces : List PieceEntry)
    → validate_manifest document ≡ ok pieces
    → (manifest_pieces document ≡ some pieces) × IsAccepted pieces
unfolding validate_manifest
validate_manifest-IsAccepted document pieces h = elim (Option-cases (manifest_pieces document)) [
  | inl malformed ↦ absurd (ground (arith, h, malformed))
  | inr ([], empty) ↦ absurd (ground (arith, h, empty))
  | inr (first ∷ others, there) ↦
      let (same, accepted) =
        check_pieces-IsAccepted first others pieces (ground (arith, h, there)) in
      rw (same) (there, accepted)
]
