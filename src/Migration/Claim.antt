-- ===== src/Migration/Claim.antt =====
-- `Claim`, `ClaimExtension`, `MigrationError` and `extension_term_max` of cli/migration/service.py.
-- Actor IDs and epochs are naturals; a raw claim is the JSON object of the Filecoin RPC.
pub mod Term
use Prim.Native.String.{String}
use text.Mathlib.Text.{◌==◌ as str_eq}
use filecoin_porep_market_to.Prelude.{
  ℕ, ◌+◌, ◌-◌, ◌*◌, ◌^◌, Option, none, some, List, [], ◌∷◌, Result, ok, err, leb, if◌then◌else◌,
  ◌>>=◌,
}

-- One constructor for each place that raises `MigrationError`, with what the message names;
-- and `key_error`, Python's own for a missing key.
pub data MigrationError : Type 0 where
  claim_field_missing : ℕ → String → MigrationError
  claim_field_invalid : ℕ → String → MigrationError
  value_out_of_range : MigrationError
  claim_expired : ℕ → ℕ → MigrationError
  nothing_to_extend : ℕ → ℕ → MigrationError
  source_ids_invalid : MigrationError
  registered_duplicated : MigrationError
  foreign_registered : List ℕ → MigrationError
  ids_overlap : List ℕ → MigrationError
  pages_unread : MigrationError
  batch_size_not_positive : MigrationError
  no_payment_rail : ℕ → MigrationError
  rail_of_another_deal : ℕ → MigrationError
  rail_read_failed : ℕ → MigrationError
  not_completed : ℕ → MigrationError
  rail_settled : ℕ → MigrationError
  rail_terminated : ℕ → MigrationError
  rail_not_paying : ℕ → MigrationError
  claim_missing : ℕ → MigrationError
  claim_of_another_client : ℕ → MigrationError
  claim_of_another_provider : ℕ → MigrationError
  claim_data_invalid : ℕ → MigrationError
  claims_terminated : List ℕ → MigrationError
  claim_bytes_mismatch : ℕ → MigrationError
  client_differs : ℕ → ℕ → MigrationError
  provider_differs : ℕ → ℕ → MigrationError
  another_market : MigrationError
  not_verif_reg : MigrationError
  already_registered : List ℕ → MigrationError
  size_outside_padding : ℕ → ℕ → MigrationError
  not_accepted : ℕ → MigrationError
  posting_finished : ℕ → MigrationError
  adapter_not_operational : MigrationError
  registered_bytes_mismatch : ℕ → ℕ → MigrationError
  not_registered : List ℕ → MigrationError
  registered_outside : List ℕ → MigrationError
  claim_disappeared : ℕ → MigrationError
  claim_not_extended : ℕ → MigrationError
  chain_mismatch : ℕ → ℕ → MigrationError
  key_error : MigrationError

abbrev pub epochs_in_day : ℕ
epochs_in_day = 2880

abbrev pub maximum_verified_allocation_term : ℕ
maximum_verified_allocation_term = 5 * 365 * epochs_in_day

abbrev pub claim_term_reserve_epochs : ℕ
claim_term_reserve_epochs = epochs_in_day

pub record Claim : Type 0 where
  pub claim_id : ℕ
  pub provider : ℕ
  pub client : ℕ
  pub piece : String
  pub size : ℕ
  pub term_min : ℕ
  pub term_max : ℕ
  pub term_start : ℕ
  pub sector : ℕ

abbrev pub end_epoch : Claim → ℕ
end_epoch claim = claim.term_start + claim.term_max

-- A field's value: a number, a text with the number that `int` or `ActorId` reads from it, none
-- where that raises, or the object {"/": text}.
pub data RpcValue : Type 0 where
  number : ℕ → RpcValue
  text_value : String → Option ℕ → RpcValue
  link : String → RpcValue

abbrev pub RpcClaim : Type 0
RpcClaim = List (String × RpcValue)

lookup : String → RpcClaim → Option RpcValue
lookup name [] = none
lookup name ((key, found) ∷ fields) = if str_eq key name then some found else lookup name fields

-- `value(*names)`: the field under its first spelling, else under its second.
unfoldable pub value : ℕ → RpcClaim → String → String → Result MigrationError RpcValue
unfolding lookup
value claim_id fields name other = elim (lookup name fields) [
  | some found ↦ ok found
  | none ↦ elim (lookup other fields) [
    | some found ↦ ok found
    | none ↦ err (claim_field_missing claim_id name)
  ]
]

-- `int(...)` of a field. `claim_field_invalid` stands for the `ValueError` and the `TypeError`.
int_value : ℕ → String → RpcValue → Result MigrationError ℕ
int_value claim_id name (number n) = ok n
int_value claim_id name (text_value text none) = err (claim_field_invalid claim_id name)
int_value claim_id name (text_value text (some n)) = ok n
int_value claim_id name (link cid) = err (claim_field_invalid claim_id name)

-- `int(value(name, other))`
unfoldable pub number_field : ℕ → RpcClaim → String → String → Result MigrationError ℕ
unfolding int_value
number_field claim_id fields name other = do
  found ← value claim_id fields name other
  int_value claim_id name found

-- `str(piece["/"] if isinstance(piece, dict) else piece)`
unfoldable pub piece_text : ℕ → RpcValue → Result MigrationError String
piece_text claim_id (link cid) = ok cid
piece_text claim_id (text_value cid read) = ok cid
piece_text claim_id (number n) = err (claim_field_invalid claim_id "Data")

-- `Claim.from_rpc`
unfoldable pub from_rpc : ℕ → RpcClaim → Result MigrationError Claim
from_rpc id fields = do
  raw_piece ← value id fields "Data" "data"
  provider_id ← number_field id fields "Provider" "provider"
  client_id ← number_field id fields "Client" "client"
  cid ← piece_text id raw_piece
  size_bytes ← number_field id fields "Size" "size"
  min_epochs ← number_field id fields "TermMin" "term_min"
  max_epochs ← number_field id fields "TermMax" "term_max"
  start_epoch ← number_field id fields "TermStart" "term_start"
  sector_number ← number_field id fields "Sector" "sector"
  ok (record {
    claim_id = id;
    provider = provider_id;
    client = client_id;
    piece = cid;
    size = size_bytes;
    term_min = min_epochs;
    term_max = max_epochs;
    term_start = start_epoch;
    sector = sector_number;
  })

-- The new term of a claim. A difference below zero is cut off at zero here; the comparison that
-- follows refuses both.
unfoldable pub extension_term_max : Claim → ℕ → Result MigrationError ℕ
extension_term_max claim current_epoch =
    let limit = current_epoch + maximum_verified_allocation_term in
    let new_term_max = limit - claim.term_start - claim_term_reserve_epochs in
    if leb (end_epoch claim) current_epoch
    then err (claim_expired claim.claim_id (end_epoch claim))
    else if leb new_term_max claim.term_max
    then err (nothing_to_extend claim.claim_id claim.term_max)
    else ok new_term_max
