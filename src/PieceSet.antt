-- ===== src/PieceSet.antt =====
-- `PieceSet` of cli/services/piece_set_commitment.py. `multibase.decode`, keccak and the ABI encoder
-- are parameters. Bytes are numbers below 256.
pub mod Tree
pub mod Membership
pub mod Rows
use Prim.Native.String.{String}
use filecoin_porep_market_to.Prelude.{
  ℕ, zero, suc, ◌+◌, ◌-◌, ◌*◌, ◌/◌, ◌%◌, ◌^◌, Bool, true, false, not, ◌&&◌, ◌||◌, Option, none,
  some, List, [], ◌∷◌, ◌++◌, Result, ok, err, if◌then◌else◌, ◌>>=◌, ◌>>◌, raise_if, ltb, leb, ◌==◌,
  length, take, drop, map, sum, get_elem?,
}
use filecoin_porep_market_to.Prelude.Int.{ℤ, pos, negsuc}
use filecoin_porep_market_to.PieceSet.Tree.{Bytes, build_tree, root_of, proof_from}

pub data PieceSetError : Type 0 where
  invalid_cid unsupported_cid invalid_size : String → PieceSetError
  no_pieces : PieceSetError
  too_large : ℕ → PieceSetError
  duplicate : String → ℕ → PieceSetError

-- An argument of `encode`, with its ABI type.
pub data AbiValue : Type 0 where
  bytes32 : Bytes → AbiValue
  uint8 uint32 uint64 uint256 : ℕ → AbiValue
  bytes32_list : List Bytes → AbiValue

-- The third-party code: `multibase.decode`, none where it raises, `Web3.keccak` of bytes and of a
-- text, and `eth_abi.encode`.
pub record Codec : Type 0 where
  pub decode : String → Option Bytes
  pub keccak : Bytes → Bytes
  pub keccak_text : String → Bytes
  pub encode : List AbiValue → Bytes

-- An entry of the manifest.
pub record Piece : Type 0 where
  pub piece_cid : String
  pub piece_size : ℤ

pub record PieceSetRow : Type 0 where
  pub index : ℕ
  pub piece_cid : String
  pub digest : Bytes
  pub padded_size : ℕ

abbrev pub version : ℕ
version = 1

-- `_COMMP_CID_PREFIX`
abbrev pub commp_cid_prefix : Bytes
commp_cid_prefix = 1 ∷ 129 ∷ 226 ∷ 3 ∷ 146 ∷ 32 ∷ 32 ∷ []

abbrev pub max_uint32 : ℕ
max_uint32 = 2 ^ 32 - 1

abbrev pub max_uint64 : ℕ
max_uint64 = 2 ^ 64 - 1

abbrev pub bytes_eq : Bytes → Bytes → Bool
bytes_eq [] [] = true
bytes_eq [] (b ∷ bs) = false
bytes_eq (a ∷ xs) [] = false
bytes_eq (a ∷ xs) (b ∷ bs) = (a == b) && bytes_eq xs bs

-- `a < b` of bytes, in lexicographic order
abbrev pub bytes_lt : Bytes → Bytes → Bool
bytes_lt xs [] = false
bytes_lt [] (b ∷ bs) = true
bytes_lt (a ∷ xs) (b ∷ bs) = ltb a b || ((a == b) && bytes_lt xs bs)

-- A parsed piece: the CID, the digest and the size.
abbrev pub Parsed : Type 0
Parsed = String × Bytes × ℕ

abbrev pub parsed_size : Parsed → ℕ
parsed_size (cid, digest, size) = size

-- `a < b` of the keys (digest, size)
abbrev pub key_lt : Parsed → Parsed → Bool
key_lt (c, d, m) (c', d', n) = bytes_lt d d' || (bytes_eq d d' && ltb m n)

abbrev pub key_eq : Parsed → Parsed → Bool
key_eq (c, d, m) (c', d', n) = bytes_eq d d' && (m == n)

check_size : String → Bytes → ℤ → Result PieceSetError Parsed
check_size cid digest (negsuc n) = err (invalid_size cid)
check_size cid digest (pos size) = do
  raise_if (not (ltb 0 size && leb size max_uint64)) (invalid_size cid)
  ok (cid, digest, size)

check_cid : Piece → Option Bytes → Result PieceSetError Parsed
unfolding check_size
check_cid piece none = err (invalid_cid piece.piece_cid)
check_cid piece (some cid_bytes) = do
  raise_if (not (length cid_bytes == 39) || not (bytes_eq (take 7 cid_bytes) commp_cid_prefix))
      (unsupported_cid piece.piece_cid)
  check_size piece.piece_cid (drop 7 cid_bytes) piece.piece_size

-- A stable sort by key, as `sorted` is: a piece goes behind the pieces with its key.
insert_piece : Parsed → List Parsed → List Parsed
insert_piece p [] = p ∷ []
insert_piece p (q ∷ qs) =
    let rest = insert_piece p qs in if key_lt q p then q ∷ rest else p ∷ q ∷ qs

unfoldable pub sort_pieces : List Parsed → List Parsed
unfolding insert_piece
sort_pieces [] = []
sort_pieces (p ∷ ps) = insert_piece p (sort_pieces ps)

-- The first two neighbours with the same key are refused.
unfoldable pub check_duplicates : List Parsed → Result PieceSetError (Unit {0})
check_duplicates [] = ok tt
check_duplicates (p ∷ []) = ok tt
check_duplicates (p ∷ (cid, digest, size) ∷ ps) = do
  raise_if (key_eq p (cid, digest, size)) (duplicate cid size)
  check_duplicates ((cid, digest, size) ∷ ps)

unfoldable pub number_rows : ℕ → List Parsed → List PieceSetRow
number_rows i [] = []
number_rows i ((cid, digest, size) ∷ ps) =
    record { index = i; piece_cid = cid; digest = digest; padded_size = size }
    ∷ number_rows (i + 1) ps

pub record PieceSet : Type 0 where
  pub rows : List PieceSetRow
  pub size_bytes : ℕ
  pub levels : List (List Bytes)

module _ (codec : Codec) where
  unfoldable pub parse_piece : Piece → Result PieceSetError Parsed
  unfolding check_cid
  parse_piece piece = check_cid piece (codec.decode piece.piece_cid)

  unfoldable pub parse_pieces : List Piece → Result PieceSetError (List Parsed)
  parse_pieces [] = ok []
  parse_pieces (piece ∷ pieces) = do
    parsed ← parse_piece piece
    rest ← parse_pieces pieces
    ok (parsed ∷ rest)

  unfoldable pub leaf : PieceSetRow → Bytes
  leaf row = codec.keccak (
      codec.encode (
        bytes32 (codec.keccak_text "PoRepMarket.PieceSet.Leaf")
        ∷ uint8 version
        ∷ uint32 row.index
        ∷ bytes32 row.digest
        ∷ uint64 row.padded_size
        ∷ []))

  unfoldable pub node : Bytes → Bytes → Bytes
  node left right = codec.keccak (
      codec.encode (
        bytes32 (codec.keccak_text "PoRepMarket.PieceSet.Node")
        ∷ bytes32 left
        ∷ bytes32 right
        ∷ []))

  unfoldable pub empty_leaf : Bytes
  empty_leaf =
      codec.keccak (
        codec.encode
          (bytes32 (codec.keccak_text "PoRepMarket.PieceSet.Empty") ∷ uint8 version ∷ []))

  -- `PieceSet(pieces)`
  unfoldable pub piece_set : List Piece → Result PieceSetError PieceSet
  piece_set pieces = do
    parsed ← parse_pieces pieces
    let sorted = sort_pieces parsed
    raise_if (length sorted == 0) no_pieces
    raise_if (ltb max_uint32 (length sorted)) (too_large (length sorted))
    check_duplicates sorted
    let all_rows = number_rows 0 sorted
    ok (record {
      rows = all_rows;
      size_bytes = sum (map (λ row. row.padded_size) all_rows);
      levels = build_tree node empty_leaf (map leaf all_rows);
    })

  unfoldable pub commitment : PieceSet → Option Bytes
  commitment set = elim (root_of set.levels) [
    | none ↦ none
    | some root ↦ some (
        codec.keccak (
          codec.encode (
            bytes32 (codec.keccak_text "PoRepMarket.PieceSet.Commitment")
            ∷ uint8 version
            ∷ uint32 (length set.rows)
            ∷ uint256 set.size_bytes
            ∷ bytes32 root
            ∷ [])))
  ]

  unfoldable pub notification_payload : PieceSet → ℕ → ℕ → Option Bytes
  notification_payload set deal_id index = elim (proof_from set.levels index) [
    | none ↦ none
    | some proof ↦ some (
        codec.encode
          (uint256 deal_id ∷ uint32 index ∷ uint32 (length set.rows) ∷ bytes32_list proof ∷ []))
  ]
