-- ===== src/Examples.antt =====
-- Concrete data of a market: one V1 deal with two claims, the V2 deal that takes it over, and the
-- chain before and after the adoption.
pub mod Manifests
pub mod Submission
pub mod Prompting
pub mod Cids
pub mod Registration
pub mod Runs
pub mod Pieces
pub mod Deals
pub mod Parsers
use filecoin_porep_market_to.Prelude.{
  ℕ, ◌+◌, ◌*◌, Bool, true, false, Option, none, some, List, [], ◌∷◌, ◌==◌, ltb, if◌then◌else◌, take,
  drop, length,
}
use filecoin_porep_market_to.Chain.{
  Chain, Adapter, LegacyDeal, Rail, RailRead, found, Deal, DealView, DealState, EvidenceType,
  RailStatus,
}
use filecoin_porep_market_to.Migration.Claim.{Claim, RpcClaim, number, link}
use filecoin_porep_market_to.Session.{Node, Session, Tx, CliError}

abbrev pub claim_eleven : Claim
claim_eleven = record {
  claim_id = 11;
  provider = 1000;
  client = 42;
  piece = "baga";
  size = 1024;
  term_min = 500000;
  term_max = 1000000;
  term_start = 100;
  sector = 1;
}

abbrev pub claim_twelve : Claim
claim_twelve = record claim_eleven { claim_id = 12; size = 2048 }

-- The JSON object of a claim with a size and a term.
abbrev pub rpc_claim : ℕ → ℕ → RpcClaim
rpc_claim size term =
    ("Provider", number 1000)
    ∷ ("Client", number 42)
    ∷ ("Data", link "baga")
    ∷ ("Size", number size)
    ∷ ("TermMin", number 500000)
    ∷ ("TermMax", number term)
    ∷ ("TermStart", number 100)
    ∷ ("Sector", number 1)
    ∷ []

abbrev pub legacy_deal : LegacyDeal
legacy_deal = record {
  deal_id = 7;
  client = 500;
  provider = 1000;
  requirements = [];
  size_bytes = 3072;
  price_per_32_gib_per_month = 5;
  duration_days = 365;
  validator = 600;
  state = 2;
  rail_id = 3;
  proposed_at_epoch = 10;
  manifest_location = "manifest";
  manifest_hash = [];
}

abbrev pub legacy_rail : Rail
legacy_rail = record {
  token = 1;
  from_address = 500;
  to_address = 700;
  operator = 600;
  validator = 600;
  payment_rate = 2;
  lockup_period = 5760;
  lockup_fixed = 0;
  settled_up_to = 0;
  end_epoch = 0;
  commission_rate_bps = 0;
  service_fee_recipient = 0;
}

-- The V2 deal in a state.
abbrev pub deal_in : DealState → DealView
deal_in deal_state = record {
  deal = record {
    deal_id = 9;
    client_address = 500;
    provider_id = 1000;
    offer_id = 4;
    state = deal_state;
    evidence_adapter_address = 77;
    validator_address = 610;
    rail_id = 8;
    proposed_at_epoch = 900;
  };
  manifest_hash = [];
  manifest_location = "manifest";
  requested_size_bytes = 3072;
  duration_epochs = 1000000;
  service_start_epoch = 1000;
  service_end_epoch = 1001000;
  payment_token = 1;
  price_per_32_gib_per_month = 5;
}

-- The page of a list at an offset, with the number of all.
abbrev pub page_of : List ℕ → ℕ → ℕ → ℕ → List ℕ × ℕ
page_of ids deal_id offset limit = (take limit (drop offset ids), length ids)

-- The adapter that holds `ids` as claims.
abbrev pub adapter_with : List ℕ → ℕ → Adapter
adapter_with ids bytes = record {
  market_address = 90;
  evidence_type = EvidenceType.verif_reg_claims;
  allocation_page = page_of [];
  claim_page = page_of ids;
  posting_finished = λ deal_id. false;
  operational = true;
  allocated_bytes = λ deal_id. bytes;
}

-- The chain at epoch 5000 with the V2 deal in a state, the claims' term and what the adapter holds.
abbrev pub chain_with : DealState → ℕ → List ℕ → ℕ → Chain
chain_with deal_state term ids bytes = record {
  chain_id = 314;
  block_number = 5000;
  rail = λ rail_id. found legacy_rail;
  source_deal = λ deal_id. legacy_deal;
  source_deals = legacy_deal ∷ [];
  source_allocation_ids = λ deal_id. 11 ∷ 12 ∷ [];
  source_allocated_size = λ deal_id. 3072;
  source_claim_terminated = λ claim_id. false;
  source_client_actor = 42;
  claim = λ provider claim_id. some (rpc_claim (if claim_id == 11 then 1024 else 2048) term);
  deal_view = λ deal_id. deal_in deal_state;
  deal_views = deal_in deal_state ∷ [];
  adapter = λ address. adapter_with ids bytes;
  market = 90;
  activation_padding = 100;
  rail_status = λ validator. RailStatus.prepared;
  operator_approved = λ token payer operator. false;
  validator_instance = λ deal_id. 610;
  token_balance = λ token owner. 1000;
  sector_size = 1024;
  funds = λ token owner. 50;
  lockup_current = λ token owner. 40;
  all_deals = (deal_in deal_state).deal ∷ [];
  epochs_in_month = 86400;
  is_provider_registered = λ id. false;
  provider_row = λ id. record {
    provider_id = 0;
    organization_address = 0;
    payee_address = 0;
    paused = false;
    blocked = false;
    available_bytes = 0;
    committed_bytes = 0;
    pending_bytes = 0;
  };
}

-- Claim 11 is adopted, claim 12 is not.
abbrev pub half_adopted : Chain
half_adopted = chain_with DealState.accepted 1000000 (11 ∷ []) 1024

-- Both are, and their terms are extended.
abbrev pub adopted : Chain
adopted = chain_with DealState.active 6000000 (11 ∷ 12 ∷ []) 3072

-- A node whose world is the number of sleeps, where everything succeeds and every answer is yes.
abbrev pub willing_node : Node ℕ
willing_node = record {
  chain = λ w. record adopted { block_number = 5000 + w };
  confirm = λ w. (true, w);
  pending = λ w. false;
  build = λ tx w. true;
  sign = λ tx w. true;
  call = λ tx w. true;
  send = λ tx w. ((1, true), w);
  sleep = λ w. w + 1;
  dry_run = false;
  client = 500;
}

abbrev pub fresh : Session ℕ
fresh = record { world = 0; log = []; batch_confirmed = false }

-- The deal is still ACCEPTED, and both claims are adopted.
abbrev pub fully_adopted : Chain
fully_adopted = chain_with DealState.accepted 6000000 (11 ∷ 12 ∷ []) 3072

-- The first transaction adopts what is missing.
abbrev pub adopting_node : Node ℕ
adopting_node = record willing_node {
  chain = λ w. if w == 0 then half_adopted else fully_adopted;
  send = λ tx w. ((1, true), w + 1);
}

abbrev pub no_cbor : List (List ℕ) → List (List ℕ) → List ℕ
no_cbor allocations extensions = []
