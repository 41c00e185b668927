-- ===== src/Registry/Refine.antt =====
-- Registering providers refines the abstract registry.

use filecoin_porep_market_to.Session.{Session}
