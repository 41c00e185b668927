-- ===== src/PieceSet/Tree.antt =====
-- `_build_tree`, `root` and `proof` of cli/services/piece_set_commitment.py, over the hash of two
-- nodes and the empty leaf. What is read out of range is none.
pub mod Proof
use filecoin_porep_market_to.Prelude.{
  ℕ, zero, suc, ◌+◌, ◌-◌, ◌*◌, ◌/◌, ◌%◌, Bool, true, false, Option, none, some, List, [], ◌∷◌, ◌++◌,
  if◌then◌else◌, ltb, leb, ◌==◌, length, get_elem?,
}

abbrev pub Bytes : Type 0
Bytes = List ℕ

-- The first power of two, from `width` on, that is not below `count`; on fuel.
unfoldable pub width_from : ℕ → ℕ → ℕ → ℕ
width_from zero width count = width
width_from (suc fuel) width count =
    let rest = width_from fuel (width * 2) count in if ltb width count then rest else width

-- `[x] * n`
unfoldable pub repeated : ℕ → Bytes → List Bytes
repeated zero x = []
repeated (suc n) x = x ∷ repeated n x

-- `(index >> depth) ^ 1` at depth 0
abbrev pub sibling : ℕ → ℕ
sibling index = if index % 2 == 0 then index + 1 else index - 1

-- `levels[-1][0]`
unfoldable pub root_of : List (List Bytes) → Option Bytes
root_of [] = none
root_of (level ∷ []) = get_elem? level 0
root_of (level ∷ next ∷ levels) = root_of (next ∷ levels)

-- `proof`, with the index shifted from level to level; the last level has no sibling in it.
unfoldable pub proof_from : List (List Bytes) → ℕ → Option (List Bytes)
proof_from [] index = some []
proof_from (level ∷ []) index = some []
proof_from (level ∷ next ∷ levels) index = elim (get_elem? level (sibling index)) [
  | none ↦ none
  | some node ↦ elim (proof_from (next ∷ levels) (index / 2)) [
    | none ↦ none
    | some path ↦ some (node ∷ path)
  ]
]

module _ (node : Bytes → Bytes → Bytes) where
  -- The level above; a level of more than one node has an even number of them.
  unfoldable pub next_level : List Bytes → List Bytes
  next_level [] = []
  next_level (x ∷ []) = []
  next_level (x ∷ y ∷ xs) = node x y ∷ next_level xs

  -- The loop over the levels, on fuel: each level is shorter.
  unfoldable pub levels_from : ℕ → List Bytes → List (List Bytes)
  levels_from zero level = level ∷ []
  levels_from (suc fuel) level =
      let rest = levels_from fuel (next_level level) in
      if ltb 1 (length level) then level ∷ rest else level ∷ []

module _ (node : Bytes → Bytes → Bytes) (empty_leaf : Bytes) where
  unfoldable pub build_tree : List Bytes → List (List Bytes)
  build_tree leaves =
      let width = width_from (length leaves) 1 (length leaves) in
      levels_from node width (leaves ++ repeated (width - length leaves) empty_leaf)
