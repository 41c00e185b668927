-- ===== src/Manifest.antt =====
-- The manifest of a deal, cli/commands/utils.py: the guard of its URL, the fetch with its retries, and the checks of its pieces. The
-- responses, the resolution of a host and the environment are parameters. A text is the list of its ASCII codes.
pub mod Fetch
pub mod Shape
use filecoin_porep_market_to.Prelude.{
  ℕ, zero, suc, ◌+◌, ◌==◌, ltb, leb, Bool, true, false, not, ◌&&◌, ◌||◌, Option, none, some, List,
  [], ◌∷◌, Result, ok, err, if◌then◌else◌, length, nonempty,
}
use filecoin_porep_market_to.Prelude.Int.{ℤ, pos, negsuc, ◌+ℤ◌}
use filecoin_porep_market_to.Confirm.{Text, same_text, text_in}
use filecoin_porep_market_to.Update.{get_env, string_to_bool}

-- The entry of a piece, with the seven keys; a size of another type than a number is left out.
pub record PieceEntry : Type 0 where
  pub piece_type : Text
  pub piece_size : ℤ
  pub file_size : ℤ
  pub preparation_id : Text
  pub attachment_id : Text

-- An element of the list of pieces: a piece, or a value that is no dictionary or lacks a key.
pub data Entry : Type 0 where
  piece : PieceEntry → Entry
  not_a_piece : Entry

-- An element of the manifest: a dictionary with a list of pieces, or any other value.
pub data Element : Type 0 where
  pieces_of : List Entry → Element
  no_pieces : Element

-- The JSON document: a list, or any other value.
pub data Document : Type 0 where
  list_of : List Element → Document
  not_a_list : Document

pub data ManifestError : Type 0 where
  no_hostname wrong_scheme unresolved disallowed_address bad_environment : ManifestError
  http_error : ℕ → ManifestError
  network_error unanswered not_json unreadable : ManifestError
  invalid_format no_size wrong_pieces mixed_preparations mixed_attachments small_dag : ManifestError

unfoldable pub all_pieces : List Entry → Option (List PieceEntry)
all_pieces [] = some []
all_pieces (not_a_piece ∷ entries) = none
all_pieces (piece p ∷ entries) =
    let rest = all_pieces entries in elim rest [ none ↦ none | some ps ↦ some (p ∷ ps) ]

-- The format: a list of one dictionary, with a list of pieces that is not empty.
unfoldable pub manifest_pieces : Document → Option (List PieceEntry)
manifest_pieces (list_of (pieces_of (entry ∷ entries) ∷ [])) = all_pieces (entry ∷ entries)
manifest_pieces document = none

-- `data` and `dag`
abbrev pub data_text : Text
data_text = 100 ∷ 97 ∷ 116 ∷ 97 ∷ []

abbrev pub dag_text : Text
dag_text = 100 ∷ 97 ∷ 103 ∷ []

unfoldable pub of_type : Text → List PieceEntry → List PieceEntry
of_type t [] = []
of_type t (p ∷ ps) = let rest = of_type t ps in if same_text p.piece_type t then p ∷ rest else rest

unfoldable pub total_size : List PieceEntry → ℤ
total_size [] = pos 0
total_size (p ∷ ps) = p.piece_size +ℤ total_size ps

abbrev pub is_positive : ℤ → Bool
is_positive (pos n) = ltb 0 n
is_positive (negsuc n) = false

-- `MINIMUM_DAG_PIECE_SIZE_BYTES`
abbrev pub minimum_dag_size : ℕ
minimum_dag_size = 1048576

abbrev pub is_small_dag : ℤ → Bool
is_small_dag (pos n) = ltb n minimum_dag_size
is_small_dag (negsuc n) = true

unfoldable pub all_same : (PieceEntry → Text) → Text → List PieceEntry → Bool
all_same key value [] = true
all_same key value (p ∷ ps) = let rest = all_same key value ps in same_text (key p) value && rest

-- The checks of the pieces, which are not empty.
unfoldable pub check_pieces : PieceEntry → List PieceEntry → Result ManifestError (List PieceEntry)
check_pieces first others =
    let pieces = first ∷ others in
    let dags = of_type dag_text pieces in
    if not (is_positive (total_size pieces))
    then err no_size
    else if leb (length pieces) 1
        || (not (length (of_type data_text pieces) + 1 == length pieces) || not (length dags == 1))
    then err wrong_pieces
    else if not (all_same (λ p. p.preparation_id) first.preparation_id pieces)
    then err mixed_preparations
    else if not (all_same (λ p. p.attachment_id) first.attachment_id pieces)
    then err mixed_attachments
    else elim dags [
      | [] ↦ err wrong_pieces
      | dag ∷ _ ↦ if is_small_dag dag.piece_size then err small_dag else ok pieces
    ]

-- `_validate_manifest`
unfoldable pub validate_manifest : Document → Result ManifestError (List PieceEntry)
validate_manifest document = elim (manifest_pieces document) [
  | none ↦ err invalid_format
  | some [] ↦ err invalid_format
  | some (first ∷ others) ↦ check_pieces first others
]

-- What `urlparse` returns, and the properties of an address that the guard reads.
pub record ParsedUrl : Type 0 where
  pub hostname : Text
  pub scheme : Text

pub record Address : Type 0 where
  pub is_private : Bool
  pub is_loopback : Bool
  pub is_reserved : Bool
  pub is_link_local : Bool
  pub is_multicast : Bool

-- `_private_manifest_urls_allowed`, of the value of the variable.
unfoldable pub private_urls_allowed : Option Text → Result ManifestError Bool
private_urls_allowed value =
    elim (get_env value false (some (102 ∷ 97 ∷ 108 ∷ 115 ∷ 101 ∷ [])) ok) [
      | err _ ↦ err bad_environment
      | ok text ↦ elim (string_to_bool text) [
        | err _ ↦ err bad_environment
        | ok none ↦ ok false
        | ok (some b) ↦ ok b
      ]
    ]

-- `http` and `https`
abbrev pub web_schemes : List Text
web_schemes = (104 ∷ 116 ∷ 116 ∷ 112 ∷ []) ∷ (104 ∷ 116 ∷ 116 ∷ 112 ∷ 115 ∷ []) ∷ []

unfoldable pub is_disallowed : Address → Bool
is_disallowed a =
    a.is_private || (a.is_loopback || (a.is_reserved || (a.is_link_local || a.is_multicast)))

-- `validate_and_parse_url`, of the parsed URL and the resolution of a host.
unfoldable pub validate_url :
    Option Text → (Text → Option Address) → ParsedUrl → Result ManifestError (Unit {0})
validate_url variable resolve parsed =
    if not (nonempty parsed.hostname)
    then err no_hostname
    else if not (text_in parsed.scheme web_schemes)
    then err wrong_scheme
    else elim (private_urls_allowed variable) [
      | err e ↦ err e
      | ok true ↦ ok tt
      | ok false ↦ elim (resolve parsed.hostname) [
        | none ↦ err unresolved
        | some address ↦ if is_disallowed address then err disallowed_address else ok tt
      ]
    ]

-- The answer to one request: no response, or a status with a body that is JSON or not.
pub data Response : Type 0 where
  no_response : Response
  response : ℕ → Option Document → Response

-- `_fetch_manifest`: none for a `RequestException`, which `raise_for_status` raises too.
unfoldable pub fetch_once : Response → Option (Result ManifestError (List PieceEntry))
fetch_once no_response = none
fetch_once (response status body) =
    if leb 400 status && ltb status 500
    then some (err (http_error status))
    else if leb 500 status && ltb status 600
    then none
    else elim body [
      | none ↦ some (err not_json)
      | some document ↦ some (validate_manifest document)
    ]

-- The loop of `fetch_manifest` with a number of retries, from the request `i` on; the result, and how many requests were made in all.
unfoldable pub fetch_loop : (ℕ → Response) → ℕ → ℕ → Result ManifestError (List PieceEntry) × ℕ
fetch_loop responses zero i = elim (fetch_once (responses i)) [
  | some r ↦ (r, suc i)
  | none ↦ (err network_error, suc i)
]
fetch_loop responses (suc retries) i =
    let again = fetch_loop responses retries (suc i) in
    elim (fetch_once (responses i)) [ some r ↦ (r, suc i) | none ↦ again ]

-- The loop that asks the user for each retry, over the user's answers; `unanswered` is a prompt that they do not answer.
unfoldable pub fetch_asking :
    (ℕ → Response) → List Bool → ℕ → Result ManifestError (List PieceEntry) × ℕ
fetch_asking responses [] i = elim (fetch_once (responses i)) [
  | some r ↦ (r, suc i)
  | none ↦ (err unanswered, suc i)
]
fetch_asking responses (retry ∷ answers) i =
    let again = fetch_asking responses answers (suc i) in
    elim (fetch_once (responses i)) [
      | some r ↦ (r, suc i)
      | none ↦ if retry then again else (err network_error, suc i)
    ]

-- `fetch_manifest`; without a number of retries the user is asked.
unfoldable pub fetch_manifest :
    Option Text
    → (Text → Option Address)
    → (ℕ → Response)
    → List Bool
    → ParsedUrl
    → Option ℕ
    → Result ManifestError (List PieceEntry) × ℕ
fetch_manifest variable resolve responses answers parsed retries =
    elim (validate_url variable resolve parsed) [
      | err e ↦ (err e, 0)
      | ok _ ↦ elim retries [
        | some n ↦ fetch_loop responses n 0
        | none ↦ fetch_asking responses answers 0
      ]
    ]

-- `fetch_local_manifest`, of the file as it is read, and parsed: none for an `OSError`, and none for text that is not JSON.
unfoldable pub fetch_local_manifest :
    Option (Option Document) → Result ManifestError (List PieceEntry)
fetch_local_manifest none = err unreadable
fetch_local_manifest (some none) = err not_json
fetch_local_manifest (some (some document)) = validate_manifest document
