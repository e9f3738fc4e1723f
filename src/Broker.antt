-- ===== src/Broker.antt =====
-- The custodian of injected credentials (internal/broker): its store, what it answers, and the loop
-- that keeps a minted token fresh.
pub mod Store
pub mod Server
pub mod Refresher
