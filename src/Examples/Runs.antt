-- ===== src/Examples/Runs.antt =====
-- The theorems at concrete values: a claim's ID, a piece's size, the market's deals.
use filecoin_porep_market_to.Prelude.{
  ℕ, ◌+◌, ◌*◌, ◌^◌, ◌≤◌, ◌<◌, ◌≡◌, refl, arith, ◌⊎◌, inl, ◌↔◌, true, false, not, none, some, List,
  [], ◌∷◌, ◌++◌, ok, err, if◌then◌else◌, length, map, sum, All, is_err, difference, intersection,
  nonempty, distinct, keep_if,
}
use mathlib.Core.List.{flatten}
use filecoin_porep_market_to.Prelude.Int.{pos}
use filecoin_porep_market_to.Uvarint.{encode_uvarint, decode_uvarint}
use filecoin_porep_market_to.Uvarint.RoundTrip.{
  decode_uvarint-encode_uvarint, decode_uvarint_bounds,
}
use filecoin_porep_market_to.PieceSize.{payload_too_small, piece_tree_height_and_padding}
use filecoin_porep_market_to.PieceSize.Bounds.{Fits, piece_tree_height_and_padding-IsLeast}
use filecoin_porep_market_to.Bytes.{uint_to_bytes, invalid_size, overflow}
use filecoin_porep_market_to.Bytes.RoundTrip.{Stands, from_bytes-uint_to_bytes, uint_to_bytes_size}
use filecoin_porep_market_to.Chain.{Rail, DealState, legacy_completed}
use filecoin_porep_market_to.Migration.Claim.{
  Claim, end_epoch, extension_term_max, claim_expired, nothing_to_extend,
  maximum_verified_allocation_term, claim_term_reserve_epochs, ids_overlap, batch_size_not_positive,
  value, number_field, piece_text, from_rpc,
}
use filecoin_porep_market_to.Migration.Claim.Term.{extension_term_max-cases}
use filecoin_porep_market_to.Migration.Plan.{
  claim_extension_cbor, ClaimExtension, AdoptionPlan, claim_ids, extension_ids, source_ids,
  complete, datacap_amount, datacap_precision, batches, build_adoption_plan, registered_bytes,
  size_of, size_within_padding,
}
use filecoin_porep_market_to.Migration.Plan.Adoption.{build_adoption_plan-missing}
use filecoin_porep_market_to.Migration.Plan.Conservation.{datacap_amount-registered_bytes}
use filecoin_porep_market_to.Migration.Plan.Batches.{IsBatch, batches-flatten}
use filecoin_porep_market_to.Migration.Paging.{all_adapter_ids, adapter_claim_ids}
use filecoin_porep_market_to.Migration.Paging.Complete.{adapter_claim_ids-Serves}
use filecoin_porep_market_to.Migration.Sector.{new_expiration, sector_target_epoch, sectors_below}
use filecoin_porep_market_to.Migration.Sector.Margin.{sectors_below-new_expiration}
use filecoin_porep_market_to.Migration.Source.{
  open_rail, source_rail, qualify_source, source_claims,
}
use filecoin_porep_market_to.Migration.Source.Qualify.{IsRailOf, qualify_source_iff}
use filecoin_porep_market_to.Migration.Source.Claims.{IsClaimOf, source_claims-Sound}
use filecoin_porep_market_to.Migration.Pair.{
  MigrationPair, target_adapter, checked_adapter, check_target_size, check_registered_bytes,
  adoption_plan, validate_batch_receipt, pair_by_claims, pair, check_chain, adoption_progress,
}
use filecoin_porep_market_to.Migration.Pair.Ready.{IsOpen, adoption_plan-Accounts}
use filecoin_porep_market_to.Migration.Pair.Receipt.{IsExtended, validate_batch_receipt-Sound}
use filecoin_porep_market_to.Migration.Pair.Matching.{Shares, matched, pair_by_claims-Shares}
use filecoin_porep_market_to.Session.{settle_terminated_rail, sends}
use filecoin_porep_market_to.Transactions.{zero_tx_hash, confirm_or_abort, sign_and_send_tx, sent}
use filecoin_porep_market_to.Transactions.Consent.{Consented, sign_and_send_tx-Consented}
use filecoin_porep_market_to.Migration.Close.{
  require_client, require_v2_replaces_v1, wait_past_epoch, choose_operation, settle,
  settle_after_termination, terminate, operate, close_rail, close_v1_deal,
}
use filecoin_porep_market_to.Migration.Close.Safety.{Replaces, close_v1_deal-Replaces}
use filecoin_porep_market_to.Migration.Close.Sends.{Ends}
use filecoin_porep_market_to.Migration.Close.Waiting.{
  block_after, after_sleeps, wait_past_epoch-returns,
}
use filecoin_porep_market_to.Migration.Finish.{finish_migration}
use filecoin_porep_market_to.Migration.Finish.Readiness
use filecoin_porep_market_to.Migration.Finish.Readiness.{finish_migration-IsReady}
use filecoin_porep_market_to.Migration.Adopt.{
  adopt_v1_claims, adopt_plan, preflight, send_plan, check_adopted, batch_confirmation,
  send_batches, send_batch,
}
use filecoin_porep_market_to.Migration.Adopt.Adopted.{HoldsAll, adopt_v1_claims-HoldsAll}
use filecoin_porep_market_to.Migration.Adopt.Order.{Sending, adopt_v1_claims-Sending}
use filecoin_porep_market_to.Session.{finish_datacap_posting}
use filecoin_porep_market_to.Migration.Pair.{ensure_unregistered, transfer_params}
use filecoin_porep_market_to.Examples.{
  adopting_node, no_cbor, claim_eleven, claim_twelve, legacy_deal, legacy_rail, deal_in,
  adapter_with, half_adopted, adopted, willing_node, fresh,
}

decode_uvarint-encode_uvarint_example :
    (bytes : List ℕ) × (encode_uvarint (pos 300) ≡ ok bytes)
    × All (λ b. b < 256) bytes
    × (decode_uvarint ((1 ∷ []) ++ (bytes ++ (5 ∷ []))) 1 ≡ ok (300, 1 + length bytes))
decode_uvarint-encode_uvarint_example =
    decode_uvarint-encode_uvarint 300 (1 ∷ []) (5 ∷ []) (omega arith)

decode_uvarint_bounds_example : (1 < 3) × (3 ≤ 11) × (3 ≤ 4)
unfolding decode_uvarint
decode_uvarint_bounds_example = decode_uvarint_bounds (1 ∷ 172 ∷ 2 ∷ 5 ∷ []) 1 300 3 refl

piece_tree_height_and_padding-IsLeast_example :
    ((2000 < 127) × (piece_tree_height_and_padding 2000 ≡ err (payload_too_small 2000)))
    ⊎ ((height : ℕ) × (padding : ℕ) × Fits 2000 height padding)
piece_tree_height_and_padding-IsLeast_example = piece_tree_height_and_padding-IsLeast 2000

abbrev large_number : ℕ
large_number = 70000

abbrev short_size : ℕ
short_size = 2

from_bytes-uint_to_bytes_example :
    (bytes : List ℕ) × (uint_to_bytes (pos large_number) none ≡ ok bytes)
    × Stands bytes large_number
    × (0 < length bytes)
    × (((large_number ≡ 0) × (length bytes ≡ 1)) ⊎ (256 ^ length bytes ≤ 256 * large_number))
from_bytes-uint_to_bytes_example = from_bytes-uint_to_bytes large_number

uint_to_bytes_size_example :
    ((0 < short_size)
      × (large_number < 256 ^ short_size)
      × (bytes : List ℕ) × (uint_to_bytes (pos large_number) (some short_size) ≡ ok bytes)
      × Stands bytes large_number
      × (length bytes ≡ short_size))
    ⊎ ((short_size ≡ 0) × (uint_to_bytes (pos large_number) (some short_size) ≡ err invalid_size))
    ⊎ ((256 ^ short_size ≤ large_number)
        × (uint_to_bytes (pos large_number) (some short_size) ≡ err overflow))
uint_to_bytes_size_example = uint_to_bytes_size large_number short_size

extension_term_max-cases_example :
    ((end_epoch claim_eleven ≤ 5000)
      × (extension_term_max claim_eleven 5000 ≡ err (claim_expired 11 (end_epoch claim_eleven))))
    ⊎ ((5000 < end_epoch claim_eleven)
        × (5000 + maximum_verified_allocation_term
            ≤ end_epoch claim_eleven + claim_term_reserve_epochs)
        × (extension_term_max claim_eleven 5000 ≡ err (nothing_to_extend 11 1000000)))
    ⊎ ((5000 < end_epoch claim_eleven)
        × (term : ℕ) × (extension_term_max claim_eleven 5000 ≡ ok term)
        × (1000000 < term)
        × (100 + term + claim_term_reserve_epochs ≡ 5000 + maximum_verified_allocation_term))
extension_term_max-cases_example = extension_term_max-cases claim_eleven 5000

abbrev two_claims : List Claim
two_claims = claim_eleven ∷ claim_twelve ∷ []

-- The extension that claim 12 needs at epoch 5000.
abbrev extension_twelve : ClaimExtension
extension_twelve = record { provider = 1000; claim_id = 12; new_term_max = 5258020; size = 2048 }

abbrev half_plan : AdoptionPlan
half_plan = record {
  source_claims = two_claims;
  registered_ids = 11 ∷ [];
  extensions = extension_twelve ∷ [];
}

build_adoption_plan-missing_example :
    (extension_ids half_plan.extensions ≡ difference (claim_ids two_claims) (11 ∷ []))
    × (length half_plan.extensions + 1 ≡ 2)
    × (complete half_plan ≡ not (nonempty (difference (claim_ids two_claims) (11 ∷ []))))
unfolding build_adoption_plan extension_term_max
build_adoption_plan-missing_example =
    build_adoption_plan-missing two_claims (11 ∷ []) 5000 half_plan refl

datacap_amount-registered_bytes_example :
    (bytes : ℕ) × (registered_bytes two_claims (11 ∷ []) ≡ some bytes)
    × (datacap_amount half_plan + bytes * datacap_precision
        ≡ sum (map (λ c. c.size) two_claims) * datacap_precision)
unfolding build_adoption_plan extension_term_max
datacap_amount-registered_bytes_example =
    datacap_amount-registered_bytes two_claims (11 ∷ []) 5000 half_plan refl

batches-flatten_example :
    ((short_size ≡ 0) × (batches half_plan short_size ≡ err batch_size_not_positive))
    ⊎ ((bs : List AdoptionPlan) × (batches half_plan short_size ≡ ok bs)
        × (flatten (map (λ b. b.extensions) bs) ≡ half_plan.extensions)
        × All (IsBatch half_plan short_size) bs
        × (sum (map datacap_amount bs) ≡ datacap_amount half_plan))
batches-flatten_example = batches-flatten half_plan short_size

adapter_claim_ids-Serves_example : adapter_claim_ids (adapter_with (11 ∷ 12 ∷ []) 3072) 9 ≡ (
    if nonempty (intersection [] (11 ∷ 12 ∷ []))
    then err (ids_overlap (intersection [] (11 ∷ 12 ∷ [])))
    else ok ([] ++ (11 ∷ 12 ∷ [])))
adapter_claim_ids-Serves_example =
    adapter_claim_ids-Serves (adapter_with (11 ∷ 12 ∷ []) 3072) 9 [] (11 ∷ 12 ∷ [])
      (λ offset limit. refl) (λ offset limit. refl)

sectors_below-new_expiration_example :
    sectors_below
      (deal_in DealState.accepted)
      0
      6000
      (record { sector = 1; expiration = 2000000 } ∷ [])
    ≡ []
unfolding sector_target_epoch new_expiration
sectors_below-new_expiration_example =
    sectors_below-new_expiration (deal_in DealState.accepted) 5000 6000
      (record { sector = 1; expiration = 2000000 } ∷ []) (omega arith, tt) (omega arith)

qualify_source_iff_example : (qualify_source half_adopted legacy_deal ≡ ok legacy_rail) ↔ (
    (legacy_deal.state ≡ legacy_completed)
    × IsRailOf half_adopted legacy_deal legacy_rail
    × (legacy_rail.end_epoch ≡ 0)
    × (0 < legacy_rail.payment_rate))
qualify_source_iff_example = qualify_source_iff half_adopted legacy_deal legacy_rail

source_claims-Sound_example :
    (claim_ids two_claims ≡ 11 ∷ 12 ∷ [])
    × (nonempty (claim_ids two_claims) ≡ true)
    × (distinct (claim_ids two_claims) ≡ true)
    × All (IsClaimOf half_adopted legacy_deal) two_claims
    × (keep_if half_adopted.source_claim_terminated (claim_ids two_claims) ≡ [])
    × (sum (map (λ c. c.size) two_claims) ≡ 3072)
unfolding source_claims from_rpc value number_field piece_text
source_claims-Sound_example = source_claims-Sound half_adopted legacy_deal two_claims refl

abbrev accepted_pair : MigrationPair
accepted_pair = record {
  source = legacy_deal;
  source_rail = some legacy_rail;
  target = deal_in DealState.accepted;
}

adoption_plan-Accounts_example :
    IsOpen half_adopted accepted_pair true
    × (size_within_padding 3072 3072 100 ≡ true)
    × (datacap_amount half_plan + 1024 * datacap_precision ≡ 3072 * datacap_precision)
unfolding adoption_plan source_claims from_rpc value number_field piece_text checked_adapter
    check_target_size size_within_padding adapter_claim_ids all_adapter_ids build_adoption_plan
    extension_term_max check_registered_bytes registered_bytes size_of
adoption_plan-Accounts_example =
    adoption_plan-Accounts half_adopted accepted_pair true half_plan refl

validate_batch_receipt-Sound_example :
    (registered : List ℕ) × (adapter_claim_ids (target_adapter adopted accepted_pair) 9
      ≡ ok registered)
    × (difference (extension_ids half_plan.extensions) registered ≡ [])
    × (difference registered (source_ids half_plan) ≡ [])
    × (registered_bytes two_claims registered ≡ some 3072)
    × All (IsExtended adopted 1000) half_plan.extensions
unfolding validate_batch_receipt from_rpc value number_field piece_text adapter_claim_ids
    all_adapter_ids check_registered_bytes registered_bytes size_of
validate_batch_receipt-Sound_example =
    validate_batch_receipt-Sound adopted accepted_pair half_plan half_plan refl

pair_by_claims-Shares_example :
    All (Shares half_adopted (deal_in DealState.accepted ∷ []) (legacy_deal ∷ [])) ((9, 7) ∷ [])
    × (9 ∷ []
        ≡ map
            (λ t. t.deal.deal_id)
            (keep_if (matched half_adopted (legacy_deal ∷ [])) (deal_in DealState.accepted ∷ [])))
unfolding pair_by_claims adapter_claim_ids all_adapter_ids
pair_by_claims-Shares_example =
    pair_by_claims-Shares half_adopted (deal_in DealState.accepted ∷ []) (legacy_deal ∷ [])
      ((9, 7) ∷ []) refl

sign_and_send_tx-Consented_example :
    Consented willing_node
      (settle_terminated_rail 3)
      fresh
      (sign_and_send_tx willing_node (settle_terminated_rail 3) fresh).1
    × (((sign_and_send_tx willing_node (settle_terminated_rail 3) fresh).0 ≡ ok zero_tx_hash)
        ⊎ (sends (sign_and_send_tx willing_node (settle_terminated_rail 3) fresh).1.log
            ≡ settle_terminated_rail 3 ∷ [])
        ⊎ (is_err (sign_and_send_tx willing_node (settle_terminated_rail 3) fresh).0 ≡ true))
sign_and_send_tx-Consented_example =
    sign_and_send_tx-Consented willing_node (settle_terminated_rail 3) fresh

close_v1_deal-Replaces_example :
    (p : MigrationPair) × (rail : Rail) × (pair adopted 9 7 false ≡ ok p)
    × (p.source.client ≡ 500)
    × (p.source_rail ≡ some rail)
    × (rail.end_epoch ≡ 0)
    × (false ≡ false)
    × (false ≡ false)
    × Ends p.source.rail_id fresh (close_v1_deal willing_node 20 314 7 9 false false fresh).1
    × Replaces willing_node adopted p rail false
unfolding close_v1_deal require_client close_rail operate choose_operation require_v2_replaces_v1
    terminate settle_after_termination settle sent confirm_or_abort sign_and_send_tx check_chain
    pair source_rail open_rail adoption_progress adapter_claim_ids all_adapter_ids
close_v1_deal-Replaces_example =
    close_v1_deal-Replaces willing_node 20 314 7 9 false false fresh refl refl

wait_past_epoch-returns_example :
    (n : ℕ) × (n ≤ 7)
    × (5002 < block_after willing_node n 0)
    × ((i : ℕ) → i < n → block_after willing_node i 0 ≤ 5002)
    × (wait_past_epoch willing_node 9 5002 fresh ≡ (
      ok (block_after willing_node n 0),
      record fresh { world = after_sleeps willing_node n 0 },
    ))
wait_past_epoch-returns_example =
    wait_past_epoch-returns willing_node 9 5002 7 fresh (omega arith) (omega arith)

finish_migration-IsReady_example :
    (sends (finish_migration willing_node 314 9 7 false fresh).1.log ≡ [])
    ⊎ ((p : MigrationPair) × (pair adopted 9 7 false ≡ ok p)
        × (sends (finish_migration willing_node 314 9 7 false fresh).1.log
            ≡ finish_datacap_posting 9 ∷ [])
        × (false ≡ false)
        × (false ≡ false)
        × (p.source.client ≡ 500)
        × Readiness.IsReady 9 adopted p)
finish_migration-IsReady_example = finish_migration-IsReady willing_node 314 9 7 false fresh

adopt_v1_claims-HoldsAll_example :
    (p : MigrationPair) × (pair half_adopted 9 7 true ≡ ok p)
    × HoldsAll
        (adopting_node.chain
          (adopt_v1_claims adopting_node no_cbor 314 9 7 false 100 fresh).1.world)
        p
unfolding adopt_v1_claims require_client adopt_plan complete preflight send_plan check_adopted
    batch_confirmation send_batches send_batch sign_and_send_tx confirm_or_abort adoption_plan
    source_claims from_rpc value number_field piece_text checked_adapter check_target_size
    size_within_padding adapter_claim_ids all_adapter_ids build_adoption_plan extension_term_max
    check_registered_bytes registered_bytes size_of check_chain pair qualify_source source_rail
    open_rail adoption_progress batches transfer_params claim_extension_cbor ensure_unregistered
    validate_batch_receipt datacap_amount
adopt_v1_claims-HoldsAll_example =
    adopt_v1_claims-HoldsAll adopting_node no_cbor 314 9 7 false 100 fresh (inl refl)

adopt_v1_claims-Sending_example :
    ((adopt_v1_claims adopting_node no_cbor 314 9 7 false 100 fresh).1.batch_confirmed ≡ false)
    × ((sends (adopt_v1_claims adopting_node no_cbor 314 9 7 false 100 fresh).1.log ≡ [])
        ⊎ ((p : MigrationPair) × (plan : AdoptionPlan) × (bs : List AdoptionPlan) × (pair
                half_adopted 9 7 true
              ≡ ok p)
            × (p.source.client ≡ 500)
            × (adoption_plan half_adopted p true ≡ ok plan)
            × (false ≡ false)
            × (false ≡ false)
            × (batches plan 100 ≡ ok bs)
            × Sending adopting_node no_cbor p plan 9 bs fresh
                (sends (adopt_v1_claims adopting_node no_cbor 314 9 7 false 100 fresh).1.log)))
adopt_v1_claims-Sending_example =
    adopt_v1_claims-Sending adopting_node no_cbor 314 9 7 false 100 fresh
