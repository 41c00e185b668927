-- ===== src/Migration/Sector.antt =====
-- `sector_target_epoch` and `sector_required_epoch` of cli/migration/service.py, and the choice of
-- the sectors to extend in `extend_deal_sectors` of cli/migration/sp.py.
pub mod Margin
use filecoin_porep_market_to.Prelude.{ℕ, ◌+◌, ◌*◌, Bool, List, ltb, if◌then◌else◌, keep_if}
use filecoin_porep_market_to.Migration.Claim.{epochs_in_day}
use filecoin_porep_market_to.Chain.{DealState, DealView, is_state}

abbrev pub active_deal_sector_margin_epochs : ℕ
active_deal_sector_margin_epochs = 30 * epochs_in_day

abbrev pub accepted_deal_sector_margin_epochs : ℕ
accepted_deal_sector_margin_epochs = 60 * epochs_in_day

unfoldable pub sector_target_epoch : DealView → ℕ → ℕ
sector_target_epoch target current_epoch =
    if is_state target.deal.state DealState.active
    then target.service_end_epoch + active_deal_sector_margin_epochs
    else current_epoch + target.duration_epochs + accepted_deal_sector_margin_epochs

unfoldable pub sector_required_epoch : DealView → ℕ → ℕ
sector_required_epoch target current_epoch =
    if is_state target.deal.state DealState.active
    then sector_target_epoch target current_epoch
    else current_epoch + target.duration_epochs + active_deal_sector_margin_epochs

-- A sector with its expiration epoch.
pub record SectorExpiration : Type 0 where
  pub sector : ℕ
  pub expiration : ℕ

-- `below` in `extend_deal_sectors`: the sectors that expire before the required epoch, which is
-- the `--target-epoch` option where it is given (an option of 0 is refused by the command line).
unfoldable pub sectors_below : DealView → ℕ → ℕ → List SectorExpiration → List SectorExpiration
sectors_below target target_option current_epoch =
    let required_epoch =
      if ltb 0 target_option then target_option else sector_required_epoch target current_epoch in
    keep_if (λ s. ltb s.expiration required_epoch)

-- The new expiration that `extend_deal_sectors` passes to `sptool`.
unfoldable pub new_expiration : DealView → ℕ → ℕ → ℕ
new_expiration target target_option current_epoch =
    if ltb 0 target_option then target_option else sector_target_epoch target current_epoch
