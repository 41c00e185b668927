-- ===== src/SubmitDdo.antt =====
-- `submit_ddo` of cli/commands/client/submit_ddo.py. The update check before it, the fetch of the manifest and the discovery of the
-- endpoints are arguments: their results. The market address is none, as in the source.
mod Loop
pub mod Posts
use Prim.Native.String.{String}
use Prim.Native.Char.{code}
use text.Mathlib.Text.{◌==◌ as str_eq}
use filecoin_porep_market_to.Prelude.{
  ℕ, zero, suc, ◌==◌, Bool, true, false, not, ◌&&◌, ◌||◌, Option, none, some, List, [], ◌∷◌, ◌++◌,
  Result, ok, err, if◌then◌else◌, map, nonempty,
}
use filecoin_porep_market_to.Prelude.Int.{ℤ, pos, negsuc}
use filecoin_porep_market_to.Chain.{Deal, DealState, EvidenceType, is_state, is_evidence}
use filecoin_porep_market_to.PieceSize.{padded_piece_size_for_payload}
use filecoin_porep_market_to.PieceSet.{
  Codec, Piece, PieceSetRow, PieceSet, bytes_eq, piece_set, commitment, notification_payload,
}
use filecoin_porep_market_to.Cid.{piece_cid_v1_to_v2}
use filecoin_porep_market_to.Confirm.{Text, same_text}
use filecoin_porep_market_to.Curio.{
  Step, pure, ◌>>=◌, ◌>>◌, raise_when, CurioError, Ddo, Market, find_endpoint,
  get_deal_status_or_none, invalid_ddo, post_ddo, deterministic_ulid,
}

-- An entry of the manifest, with the fields that are read here.
pub record ManifestPiece : Type 0 where
  pub piece_cid : String
  pub piece_size : ℤ
  pub file_size : ℤ

-- What the command reads of the deal and of its contracts.
pub record DdoDeal : Type 0 where
  pub deal : Deal
  pub is_public : Bool
  pub manifest_hash : List ℕ
  pub requested_size_bytes : ℕ
  pub duration_epochs : ℕ
  pub operator_approved : Bool
  pub evidence_type : EvidenceType
  pub accepted : ℕ → Bool
  pub notification_address : ℕ

pub data DdoError : Type 0 where
  not_the_client wrong_state no_rail no_validator operator_not_approved wrong_evidence : DdoError
  source_refused manifest_failed invalid_pieces commitment_mismatch size_mismatch : DdoError
  no_manifest_piece piece_size_mismatch invalid_cid no_endpoints aborted : DdoError
  failed_in_curio unexpected_status : DdoError
  curio : CurioError → DdoError

-- The options of the command, with the results of what it calls: whether the source URL is allowed, the manifest, and the
-- endpoints. The source URL has no slash at its end any more, and is none when it is empty.
pub record Request : Type 0 where
  pub client : ℕ
  pub dry_run : Bool
  pub print_only : Bool
  pub skip_preflight : Bool
  pub source_url : Option Text
  pub source_allowed : Bool
  pub manifest : Option (List ManifestPiece)
  pub endpoints : Option (List Text)

-- The third-party code: the encodings of the piece set, SHA-256, and the text `{chain_id}:{market}:{deal_id}:` of an identifier.
pub record Tools : Type 0 where
  pub codec : Codec
  pub sha256 : List ℕ → List ℕ
  pub seed_prefix : ℕ → Text

-- An entry of `pieces_to_submit`.
pub record Planned : Type 0 where
  pub row : PieceSetRow
  pub piece_cid_v2 : Text
  pub identifier : Text
  pub payload : List ℕ
  pub source : List Text

unfoldable pub codes : String → Text
codes String.[] = []
codes (String.◌∷◌ c s) = code c ∷ codes s

-- `_validate_deal`
unfoldable pub validate_deal : ℕ → DdoDeal → Result DdoError (Unit {0})
validate_deal client view =
    if not (view.deal.client_address == client)
    then err not_the_client
    else if not (is_state view.deal.state DealState.accepted)
    then err wrong_state
    else if view.deal.rail_id == 0
    then err no_rail
    else if view.deal.validator_address == 0
    then err no_validator
    else if not view.operator_approved
    then err operator_not_approved
    else if not (is_evidence view.evidence_type EvidenceType.sector_placement)
    then err wrong_evidence
    else ok tt

abbrev pub same_size : ℤ → ℕ → Bool
same_size (pos m) n = m == n
same_size (negsuc m) n = false

-- `manifest_pieces.get(...)`: of the entries with a key the last one is in the dictionary.
unfoldable pub find_piece : String → ℕ → List ManifestPiece → Option ManifestPiece
find_piece cid size [] = none
find_piece cid size (piece ∷ pieces) =
    let later = find_piece cid size pieces in
    elim later [
      | some p ↦ some p
      | none ↦
          if str_eq piece.piece_cid cid && same_size piece.piece_size size then some piece else none
    ]

-- `{source_url}/piece/{row.piece_cid}`
unfoldable pub piece_source : Option Text → String → List Text
piece_source none cid = []
piece_source (some url) cid =
    (url ++ ((47 ∷ 112 ∷ 105 ∷ 101 ∷ 99 ∷ 101 ∷ 47 ∷ []) ++ codes cid)) ∷ []

module _ (tools : Tools) (view : DdoDeal) (set : PieceSet) (source_url : Option Text) where
  -- `piece_identifier`
  unfoldable pub piece_identifier : Text → Text
  piece_identifier cid_v2 =
      deterministic_ulid tools.sha256 (tools.seed_prefix view.deal.deal_id ++ (cid_v2 ++ (58 ∷ [])))

  -- One entry, of the size of its file; a negative one is below 127.
  unfoldable pub plan_piece : PieceSetRow → ℤ → Result DdoError Planned
  plan_piece row (negsuc n) = err invalid_cid
  plan_piece row (pos file_size) = elim (padded_piece_size_for_payload file_size) [
    | err e ↦ err invalid_cid
    | ok implied_piece_size ↦
        if not (implied_piece_size == row.padded_size)
        then err piece_size_mismatch
        else elim (piece_cid_v1_to_v2 (codes row.piece_cid) file_size) [
          | err e ↦ err invalid_cid
          | ok cid_v2 ↦ elim (notification_payload tools.codec set view.deal.deal_id row.index) [
            | none ↦ err invalid_pieces
            | some payload ↦ ok (record {
              row = row;
              piece_cid_v2 = cid_v2;
              identifier = piece_identifier cid_v2;
              payload = payload;
              source = piece_source source_url row.piece_cid;
            })
          ]
        ]
  ]

  unfoldable pub plan_pieces :
      List ManifestPiece → List PieceSetRow → Result DdoError (List Planned)
  plan_pieces manifest [] = ok []
  plan_pieces manifest (row ∷ rows) =
      let rest = plan_pieces manifest rows in
      if view.accepted row.index
      then rest
      else elim (find_piece row.piece_cid row.padded_size manifest) [
        | none ↦ err no_manifest_piece
        | some piece ↦ elim (plan_piece row piece.file_size) [
          | err e ↦ err e
          | ok planned ↦ elim rest [ err e ↦ err e | ok plan ↦ ok (planned ∷ plan) ]
        ]
      ]

-- What `PieceSet` reads of the manifest, and the two comparisons with the deal.
unfoldable pub checked_set : Tools → DdoDeal → List ManifestPiece → Result DdoError PieceSet
checked_set tools view manifest =
    elim (piece_set tools.codec (
      map (λ piece. record { piece_cid = piece.piece_cid; piece_size = piece.piece_size })
        manifest)) [
          | err e ↦ err invalid_pieces
          | ok set ↦ elim (commitment tools.codec set) [
            | none ↦ err invalid_pieces
            | some hash ↦
                if not (bytes_eq hash view.manifest_hash)
                then err commitment_mismatch
                else if not (set.size_bytes == view.requested_size_bytes)
                then err size_mismatch
                else ok set
          ]
        ]

-- What the command works out before it asks: the deals to submit.
unfoldable pub make_plan : Tools → DdoDeal → Request → Result DdoError (List Planned)
make_plan tools view request = elim (validate_deal request.client view) [
  | err e ↦ err e
  | ok _ ↦ if not request.source_allowed then err source_refused else elim request.manifest [
    | none ↦ err manifest_failed
    | some manifest ↦ elim (checked_set tools view manifest) [
      | err e ↦ err e
      | ok set ↦ plan_pieces tools view set request.source_url manifest set.rows
    ]
  ]
]

-- The post of an entry.
unfoldable pub ddo_of : DdoDeal → Planned → Ddo
ddo_of view planned = record {
  identifier = planned.identifier;
  provider = view.deal.provider_id;
  piece_cid_v2 = planned.piece_cid_v2;
  duration = view.duration_epochs;
  market = none;
  start_epoch = none;
  notification = some (view.notification_address, planned.payload);
  indexing = true;
  announce_payload = view.is_public;
  source_urls = planned.source;
}

-- `failed`
abbrev pub failed_text : Text
failed_text = 102 ∷ 97 ∷ 105 ∷ 108 ∷ 101 ∷ 100 ∷ []

-- The world, and the deals that were posted, the last first.
pub record Submission (W : Type 0) : Type 0 where
  pub world : W
  pub posts : List Ddo

module _ {W : Type 0} (market : Market W) (confirm : W → Bool × W) (view : DdoDeal) where
  -- One round of the loop: false for a deal that Curio has already.
  unfoldable pub submit_piece : Text → Planned → Step (Submission W) DdoError Bool
  submit_piece url planned s =
      elim (get_deal_status_or_none market url planned.identifier s.world) [
        | err e ↦ (err (curio e), s)
        | ok (some status) ↦
            if same_text status failed_text
            then (err failed_in_curio, s)
            else if not (nonempty status)
            then (err unexpected_status, s)
            else (ok false, s)
        | ok none ↦
            let ddo = ddo_of view planned in
            let (answer, world) = post_ddo market url ddo s.world in
            let s' : Submission W = record {
              world = world;
              posts = if invalid_ddo ddo then s.posts else ddo ∷ s.posts;
            } in
            elim answer [ err e ↦ (err (curio e), s') | ok _ ↦ (ok true, s') ]
      ]

  -- The loop, with the numbers of deals that were submitted and that were there already.
  unfoldable pub submit_pieces : Text → List Planned → Step (Submission W) DdoError (ℕ × ℕ)
  submit_pieces url [] = pure (0, 0)
  submit_pieces url (planned ∷ plan) = do
    posted ← submit_piece url planned
    (submitted, already_submitted) ← submit_pieces url plan
    pure (if posted then (suc submitted, already_submitted) else (submitted, suc already_submitted))

  unfoldable pub confirm_submission : Step (Submission W) DdoError (Unit {0})
  confirm_submission s =
      let (yes_answer, world) = confirm s.world in
      ((if yes_answer then ok tt else err aborted), record s { world = world })

  -- The data source of the preflight: `http` or `offline`.
  abbrev pub data_source : Option Text → Text
  data_source none = 111 ∷ 102 ∷ 102 ∷ 108 ∷ 105 ∷ 110 ∷ 101 ∷ []
  data_source (some url) = 104 ∷ 116 ∷ 116 ∷ 112 ∷ []

  -- The endpoint that is used.
  unfoldable pub choose_endpoint : Request → Step (Submission W) DdoError Text
  choose_endpoint request s = elim request.endpoints [
    | none ↦ (err no_endpoints, s)
    | some urls ↦
        elim (find_endpoint market urls none request.skip_preflight (data_source request.source_url)
          s.world) [ err e ↦ (err (curio e), s) | ok url ↦ (ok url, s) ]
  ]

  unfoldable pub submit_ddo : Tools → Request → Step (Submission W) DdoError (ℕ × ℕ)
  submit_ddo tools request = elim (make_plan tools view request) [
    | err e ↦ λ s. (err e, s)
    | ok plan ↦
        if not (nonempty plan) || (request.print_only || request.dry_run)
        then pure (0, 0)
        else do url ← choose_endpoint request; confirm_submission; submit_pieces url plan
  ]
