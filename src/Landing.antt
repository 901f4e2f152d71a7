-- ===== src/Landing.antt =====
-- The landing of verified task branches on the Hub publish target.
pub mod Queue
pub mod Transaction
