-- ===== src/Migration/Sector/Margin.antt =====
-- Sectors that were extended to the target do not show up as too short on a later run.
use filecoin_porep_market_to.Prelude.{
  ℕ, ◌+◌, ◌*◌, ◌≤◌, ◌≡◌, refl, List, [], ◌∷◌, arith, ltb, keep_if, All,
}
use filecoin_porep_market_to.Migration.Claim.{epochs_in_day}
use filecoin_porep_market_to.Chain.{DealView}
use filecoin_porep_market_to.Migration.Sector.{
  SectorExpiration, sector_target_epoch, sector_required_epoch, sectors_below, new_expiration,
}

-- Every sector of a list reaches an epoch.
abbrev pub Reaches : ℕ → List SectorExpiration → Type 0
Reaches epoch = All (λ s. epoch ≤ s.expiration)

no_sector_below :
    (epoch : ℕ) (sectors : List SectorExpiration)
    → Reaches epoch sectors
    → keep_if (λ s. ltb s.expiration epoch) sectors ≡ []
no_sector_below epoch [] h = refl
no_sector_below epoch (s ∷ sectors) h = ground (arith, no_sector_below epoch sectors h.1)

Reaches-later :
    (low high : ℕ) (sectors : List SectorExpiration)
    → low ≤ high
    → Reaches high sectors
    → Reaches low sectors
Reaches-later low high [] le h = tt
Reaches-later low high (s ∷ sectors) le h = (omega arith, Reaches-later low high sectors le h.1)

required-le-target :
    (target : DealView) (now later : ℕ)
    → later ≤ now + 30 * epochs_in_day
    → sector_required_epoch target later ≤ sector_target_epoch target now
unfolding sector_required_epoch sector_target_epoch
required-le-target target now later soon = ground arith

-- Once every sector of a V2 deal reaches the expiration that `extend_deal_sectors` asks for at
-- epoch `now`, a run of it at any epoch up to 30 days after `now` finds no sector to extend, if the
-- deal reads the same and no `--target-epoch` is given.
pub sectors_below-new_expiration :
    (target : DealView) (now later : ℕ) (sectors : List SectorExpiration)
    → Reaches (new_expiration target 0 now) sectors
    → later ≤ now + 30 * epochs_in_day
    → sectors_below target 0 later sectors ≡ []
unfolding sectors_below new_expiration
sectors_below-new_expiration target now later sectors reach soon =
    no_sector_below (sector_required_epoch target later) sectors (
      Reaches-later _ (sector_target_epoch target now) sectors
        (required-le-target target now later soon) reach)
