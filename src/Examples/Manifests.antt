-- ===== src/Examples/Manifests.antt =====
-- The theorems on manifests at one of two pieces, whose first request fails.
use filecoin_porep_market_to.Prelude.{
  ℕ, zero, suc, ◌≡◌, ◌⊎◌, refl, true, false, none, some, Option, List, [], ◌∷◌, ok, is_err,
}
use filecoin_porep_market_to.Prelude.Int.{pos}
use filecoin_porep_market_to.Confirm.{Text, same_text}
use filecoin_porep_market_to.Manifest.{
  PieceEntry, Document, Response, Address, ParsedUrl, piece, pieces_of, list_of, no_response,
  response, data_text, dag_text, validate_manifest, manifest_pieces, all_pieces, check_pieces,
  of_type, total_size, all_same, fetch_manifest,
}
use filecoin_porep_market_to.Manifest.Fetch.{
  IsAllowed, FirstAnswer, budget, last_error, fetch_manifest-FirstAnswer,
}
use filecoin_porep_market_to.Manifest.Shape.{IsAccepted, validate_manifest-IsAccepted}

abbrev entry : Text → PieceEntry
entry piece_type = record {
  piece_type = piece_type;
  piece_size = pos 2097152;
  file_size = pos 2000000;
  preparation_id = 49 ∷ [];
  attachment_id = 50 ∷ [];
}

abbrev two_entries : List PieceEntry
two_entries = entry data_text ∷ entry dag_text ∷ []

abbrev small_manifest : Document
small_manifest = list_of (pieces_of (piece (entry data_text) ∷ piece (entry dag_text) ∷ []) ∷ [])

accepted : validate_manifest small_manifest ≡ ok two_entries
unfolding validate_manifest manifest_pieces all_pieces check_pieces of_type total_size all_same
    same_text
accepted = refl

validate_manifest-IsAccepted_example :
    (manifest_pieces small_manifest ≡ some two_entries) × IsAccepted two_entries
validate_manifest-IsAccepted_example =
    validate_manifest-IsAccepted small_manifest two_entries accepted

abbrev answers : ℕ → Response
answers zero = no_response
answers (suc i) = response 200 (some small_manifest)

abbrev public_address : Text → Option Address
public_address host = some (record {
  is_private = false;
  is_loopback = false;
  is_reserved = false;
  is_link_local = false;
  is_multicast = false;
})

-- `http://a`
abbrev small_url : ParsedUrl
small_url = record { hostname = 97 ∷ []; scheme = 104 ∷ 116 ∷ 116 ∷ 112 ∷ [] }

fetch_manifest-FirstAnswer_example :
    let (r, requests) = fetch_manifest none public_address answers (true ∷ []) small_url none in
    ((requests ≡ 0) × (is_err r ≡ true))
    ⊎ (IsAllowed none public_address small_url
        × FirstAnswer
            (last_error (true ∷ []) none)
            answers
            (budget (true ∷ []) none)
            0
            (r, requests))
fetch_manifest-FirstAnswer_example =
    fetch_manifest-FirstAnswer none public_address answers (true ∷ []) small_url none
