-- ===== src/Config.antt =====
-- internal/config: the configuration of a project.
pub mod Model
pub mod Merge
pub mod Validate
pub mod HostService
pub mod Load
