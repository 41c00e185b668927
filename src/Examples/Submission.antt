-- ===== src/Examples/Submission.antt =====
-- The theorem on `submit_ddo` at a manifest of one piece and an endpoint that knows no deal.
use filecoin_porep_market_to.Prelude.{ℕ, ◌≡◌, ◌⊎◌, Bool, true, false, none, some, [], ◌∷◌}
use filecoin_porep_market_to.Prelude.Int.{pos}
use filecoin_porep_market_to.Chain.{DealState, EvidenceType}
use filecoin_porep_market_to.Curio.{Market, reply, failed, list_of}
use filecoin_porep_market_to.SubmitDdo.{
  DdoDeal, ManifestPiece, Request, Tools, Submission, submit_ddo,
}
use filecoin_porep_market_to.SubmitDdo.Posts.{IsBacked, submit_ddo-IsBacked}
use filecoin_porep_market_to.Examples.{deal_in}
use filecoin_porep_market_to.Examples.Pieces.{plain_codec}

-- The V1 piece CID of a commitment of zeros, and the size of its file.
abbrev one_piece : ManifestPiece
one_piece = record {
  piece_cid = "baga6ea4seaqaaaaaaaaaaaaaaaaaaaaaaaaaaaaaaaaaaaaaaaaaaaaaaaaaaaa";
  piece_size = pos 128;
  file_size = pos 127;
}

abbrev submittable : DdoDeal
submittable = record {
  deal = (deal_in DealState.accepted).deal;
  is_public = true;
  manifest_hash = 5 ∷ [];
  requested_size_bytes = 128;
  duration_epochs = 1000;
  operator_approved = true;
  evidence_type = EvidenceType.sector_placement;
  accepted = λ index. false;
  notification_address = 77;
}

abbrev plain_tools : Tools
plain_tools = record {
  codec = plain_codec;
  sha256 = λ bytes. bytes;
  seed_prefix = λ deal_id. deal_id ∷ [];
}

abbrev small_request : Request
small_request = record {
  client = (deal_in DealState.accepted).deal.client_address;
  dry_run = false;
  print_only = false;
  skip_preflight = true;
  source_url = none;
  source_allowed = true;
  manifest = some (one_piece ∷ []);
  endpoints = some ((104 ∷ []) ∷ []);
}

-- The world counts the deals that were posted.
abbrev new_market : Market ℕ
new_market = record {
  products = λ url w. reply (list_of []);
  sources = λ url w. reply (list_of []);
  contracts = λ url w. reply (list_of []);
  status = λ url identifier w. failed (some 404);
  post = λ url ddo w. (reply tt, 1);
}

abbrev agreeing : ℕ → Bool × ℕ
agreeing w = (true, w)

abbrev unsubmitted : Submission ℕ
unsubmitted = record { world = 0; posts = [] }

submit_ddo-IsBacked_example :
    let (r, s') =
      submit_ddo new_market agreeing submittable plain_tools small_request unsubmitted in
    (s'.posts ≡ [])
    ⊎ IsBacked new_market agreeing submittable plain_tools small_request unsubmitted (r, s')
submit_ddo-IsBacked_example =
    submit_ddo-IsBacked new_market agreeing submittable plain_tools small_request unsubmitted
