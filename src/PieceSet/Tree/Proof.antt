-- ===== src/PieceSet/Tree/Proof.antt =====
-- Every leaf's proof leads to the root.
use native.Mathlib.Nat.{pow-suc}
use filecoin_porep_market_to.Prelude.{
  ℕ, zero, suc, ◌+◌, ◌-◌, ◌*◌, ◌/◌, ◌%◌, ◌^◌, ◌≤◌, ◌<◌, ◌≡◌, inl, inr, refl, some, List, [], ◌∷◌,
  ◌++◌, arith, ap, if◌then◌else◌, ltb, ◌==◌, length, length-append, get_elem?, Bool-cases,
}
use filecoin_porep_market_to.PieceSet.Tree.{
  Bytes, width_from, repeated, sibling, root_of, proof_from, next_level, levels_from, build_tree,
}

pow_positive : (d : ℕ) → 0 < 2 ^ d
pow_positive zero = omega arith
pow_positive (suc d) = let step = pow-suc 2 d in let below = pow_positive d in omega arith

width_from-pow :
    (fuel d count : ℕ)
    → count ≤ 2 ^ d + fuel
    → (e : ℕ) × (width_from fuel (2 ^ d) count ≡ 2 ^ e) × (count ≤ 2 ^ e)
unfolding width_from
width_from-pow zero d count enough = (d, refl, omega arith)
width_from-pow (suc fuel) d count enough =
    let step = pow-suc 2 d in
    let positive = pow_positive d in
    elim (Bool-cases (ltb (2 ^ d) count)) [
      | inr wide ↦ (d, ground arith, ground arith)
      | inl narrow ↦
          (let (e, eq, le) = width_from-pow fuel (suc d) count (omega arith) in
            let doubled : width_from fuel (2 ^ d * 2) count ≡ 2 ^ e = rw (← step) eq in
            (e, ground (arith, doubled), le))
    ]

length-repeated : (n : ℕ) (x : Bytes) → length (repeated n x) ≡ n
unfolding repeated
length-repeated zero x = refl
length-repeated (suc n) x = ground (arith, length-repeated n x)

module _ (node : Bytes → Bytes → Bytes) where
  -- The hash that a leaf and a proof lead to: at an even index the leaf is the left one.
  unfoldable pub climb : Bytes → ℕ → List Bytes → Bytes
  climb x index [] = x
  climb x index (y ∷ path) =
      let left_up = climb (node x y) (index / 2) path in
      let right_up = climb (node y x) (index / 2) path in
      if index % 2 == 0 then left_up else right_up

  climb-cons :
      (x y : Bytes) (i : ℕ) (path : List Bytes)
      → climb (if i % 2 == 0 then node x y else node y x) (i / 2) path ≡ climb x i (y ∷ path)
  unfolding climb
  climb-cons x y i path = ground arith

  length-next_level :
      (m : ℕ) (xs : List Bytes) → length xs ≡ 2 * m → length (next_level node xs) ≡ m
  unfolding next_level
  length-next_level zero [] h = refl
  length-next_level zero (x ∷ xs) h = ground arith
  length-next_level (suc m) [] h = absurd (omega arith)
  length-next_level (suc m) (x ∷ []) h = ground arith
  length-next_level (suc m) (x ∷ y ∷ xs) h = ground (arith, length-next_level m xs)

  -- An element of a level of even length has a sibling, and the level above has their hash.
  get_elem?-next_level :
      (m : ℕ) (xs : List Bytes) (i : ℕ) (x : Bytes)
      → length xs ≡ 2 * m
      → get_elem? xs i ≡ some x
      → (y : Bytes) × (get_elem? xs (sibling i) ≡ some y)
        × (get_elem? (next_level node xs) (i / 2)
            ≡ some (if i % 2 == 0 then node x y else node y x))
  unfolding next_level
  get_elem?-next_level m [] i x even h = cc
  get_elem?-next_level m (z ∷ []) i x even h = absurd (omega arith)
  get_elem?-next_level m (z ∷ y ∷ xs) zero x even h = (y, refl, ground arith)
  get_elem?-next_level m (z ∷ y ∷ xs) (suc zero) x even h = (z, refl, ground arith)
  get_elem?-next_level zero (z ∷ y ∷ xs) (suc (suc i)) x even h = absurd (omega arith)
  get_elem?-next_level (suc m) (z ∷ y ∷ xs) (suc (suc i)) x even h =
      let (w, found, above) = get_elem?-next_level m xs i x (ground arith) h in
      let shift : sibling (suc (suc i)) ≡ suc (suc (sibling i)) = ground arith in
      let half : suc (suc i) / 2 ≡ suc (i / 2) = omega arith in
      let parity : suc (suc i) % 2 ≡ i % 2 = omega arith in
      (w, rw (shift) found, rw (half, parity) above)

  levels_from-cons :
      (fuel : ℕ) (level : List Bytes)
      → (above : List (List Bytes)) × (levels_from node fuel level ≡ level ∷ above)
  unfolding levels_from
  levels_from-cons zero level = ([], refl)
  levels_from-cons (suc fuel) level = elim (Bool-cases (ltb 1 (length level))) [
    | inl many ↦ (levels_from node fuel (next_level node level), ground arith)
    | inr single ↦ ([], ground arith)
  ]

  levels_from-single : (fuel : ℕ) (x : Bytes) → levels_from node fuel (x ∷ []) ≡ (x ∷ []) ∷ []
  unfolding levels_from
  levels_from-single zero x = refl
  levels_from-single (suc fuel) x = refl

  proof_from-cons :
      (fuel : ℕ) (level above : List Bytes) (i : ℕ) (y : Bytes) (path : List Bytes)
      → get_elem? level (sibling i) ≡ some y
      → proof_from (levels_from node fuel above) (i / 2) ≡ some path
      → proof_from (level ∷ levels_from node fuel above) i ≡ some (y ∷ path)
  unfolding proof_from
  proof_from-cons fuel level above i y path beside proved =
      let (rest, e) = levels_from-cons fuel above in
      let proved' : proof_from (above ∷ rest) (i / 2) ≡ some path = rw (← e) proved in
      rw (e) (ground (arith, beside, proved'))

  root_of-cons :
      (fuel : ℕ) (level above : List Bytes)
      → root_of (level ∷ levels_from node fuel above) ≡ root_of (levels_from node fuel above)
  unfolding root_of
  root_of-cons fuel level above = let (rest, e) = levels_from-cons fuel above in rw (e)

  -- Enough levels from a level of 2 ^ d nodes end in one root, and every proof leads to it.
  levels_from-climb :
      (d fuel : ℕ) (xs : List Bytes) (i : ℕ) (x : Bytes)
      → length xs ≡ 2 ^ d
      → d ≤ fuel
      → get_elem? xs i ≡ some x
      → (path : List Bytes) × (proof_from (levels_from node fuel xs) i ≡ some path)
        × (length path ≡ d)
        × (root_of (levels_from node fuel xs) ≡ some (climb x i path))
  unfolding levels_from proof_from root_of climb
  levels_from-climb zero fuel [] i x full enough h = absurd (ground arith)
  levels_from-climb zero fuel (y ∷ []) zero x full enough h =
      let e = levels_from-single fuel y in ([], rw (e), refl, rw (e, h))
  levels_from-climb zero fuel (y ∷ []) (suc i) x full enough h = absurd (ground arith)
  levels_from-climb zero fuel (y ∷ z ∷ xs) i x full enough h = absurd (ground arith)
  levels_from-climb (suc d) zero xs i x full enough h = absurd (omega arith)
  levels_from-climb (suc d) (suc fuel) xs i x full enough h =
      let step = pow-suc 2 d in
      let positive = pow_positive d in
      let (y, beside, above) = get_elem?-next_level (2 ^ d) xs i x (omega arith) h in
      let (path, proved, tall, rooted) =
        levels_from-climb d fuel (next_level node xs) (i / 2) _
          (length-next_level (2 ^ d) xs (omega arith)) (omega arith) above in
      let unrolled : levels_from node (suc fuel) xs
          ≡ xs ∷ levels_from node fuel (next_level node xs) =
        ground arith in
      (
        y ∷ path,
        rw (unrolled) (proof_from-cons fuel xs (next_level node xs) i y path beside proved),
        cc (tall),
        rw (unrolled, root_of-cons fuel xs (next_level node xs), rooted)
            (ap some (climb-cons x y i path)),
      )

exponent_lt_pow : (d : ℕ) → d < 2 ^ d
exponent_lt_pow zero = omega arith
exponent_lt_pow (suc d) = let step = pow-suc 2 d in let below = exponent_lt_pow d in omega arith

get_elem?-append_left :
    (xs ys : List Bytes) (i : ℕ) (x : Bytes)
    → get_elem? xs i ≡ some x
    → get_elem? (xs ++ ys) i ≡ some x
get_elem?-append_left [] ys i x h = cc
get_elem?-append_left (z ∷ xs) ys zero x h = h
get_elem?-append_left (z ∷ xs) ys (suc i) x h = get_elem?-append_left xs ys i x h

-- Every leaf has a proof in the tree of the leaves, with at least as many hashes as the leaves need
-- halvings, and from the leaf at its index the proof leads to the root.
pub build_tree-climb :
    (node : Bytes → Bytes → Bytes) (empty_leaf : Bytes) (leaves : List Bytes) (i : ℕ) (x : Bytes)
    → get_elem? leaves i ≡ some x
    → (path : List Bytes) × (proof_from (build_tree node empty_leaf leaves) i ≡ some path)
      × (length leaves ≤ 2 ^ length path)
      × (root_of (build_tree node empty_leaf leaves) ≡ some (climb node x i path))
unfolding build_tree
build_tree-climb node empty_leaf leaves i x h =
    let count = length leaves in
    let (d, wide, room) = width_from-pow count 0 count (omega arith) in
    let width_eq : width_from count 1 count ≡ 2 ^ d = wide in
    let padding = repeated (width_from count 1 count - count) empty_leaf in
    let full : length (leaves ++ padding) ≡ 2 ^ d =
      (let joined = length-append leaves padding in
        let padded = length-repeated (width_from count 1 count - count) empty_leaf in
        omega arith) in
    let enough : d ≤ width_from count 1 count = (let below = exponent_lt_pow d in omega arith) in
    let (path, proved, tall, rooted) =
      levels_from-climb node d (width_from count 1 count) (leaves ++ padding) i x full enough
        (get_elem?-append_left leaves padding i x h) in
    (path, proved, rw (tall) room, rooted)
