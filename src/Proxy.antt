-- ===== src/Proxy.antt =====
-- internal/proxy: the lifecycle of the shared proxy.
pub mod Ledger
pub mod Lock
pub mod Program
pub mod Broker
pub mod Attach
pub mod Teardown
pub mod Reach
pub mod Session
