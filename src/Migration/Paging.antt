-- ===== src/Migration/Paging.antt =====
-- `_all_adapter_ids` and `adapter_claim_ids` of cli/migration/service.py.
pub mod Complete
use filecoin_porep_market_to.Prelude.{
  ℕ, zero, suc, ◌+◌, List, [], ◌++◌, Result, ok, err, leb, if◌then◌else◌, ◌>>=◌, ◌>>◌, raise_if,
  length, nonempty, intersection, ◌||◌, not,
}
use filecoin_porep_market_to.Migration.Claim.{MigrationError, pages_unread, ids_overlap}
use filecoin_porep_market_to.Chain.{Adapter}

abbrev pub page_size : ℕ
page_size = 500

-- The loop, on fuel: one round for each page.
ids_loop : (ℕ → ℕ → ℕ → List ℕ × ℕ) → ℕ → ℕ → ℕ → List ℕ → Result MigrationError (List ℕ)
ids_loop get_page deal_id zero offset ids = err pages_unread
ids_loop get_page deal_id (suc fuel) offset ids =
    let (page, total) = get_page deal_id offset page_size in
    let rest = ids_loop get_page deal_id fuel (offset + length page) (ids ++ page) in
    if not (nonempty page) || leb total (offset + length page) then ok (ids ++ page) else rest

-- The fuel is one more than the total that the first page reports: every page but the last moves
-- the offset on.
unfoldable pub all_adapter_ids : (ℕ → ℕ → ℕ → List ℕ × ℕ) → ℕ → Result MigrationError (List ℕ)
unfolding ids_loop
all_adapter_ids get_page deal_id =
    ids_loop get_page deal_id (suc (get_page deal_id 0 page_size).1) 0 []

-- The IDs that the adapter holds: pending and confirmed ones, which must not overlap.
unfoldable pub adapter_claim_ids : Adapter → ℕ → Result MigrationError (List ℕ)
adapter_claim_ids adapter deal_id = do
  pending ← all_adapter_ids adapter.allocation_page deal_id
  confirmed ← all_adapter_ids adapter.claim_page deal_id
  raise_if (nonempty (intersection pending confirmed))
      (ids_overlap (intersection pending confirmed))
  ok (pending ++ confirmed)
