-- ===== src/Migration.antt =====
-- The V1 to V2 migration (cli/migration).
pub mod Claim
pub mod Plan
pub mod Paging
pub mod Sector
pub mod Source
pub mod Pair
pub mod Close
pub mod Adopt
pub mod Finish
