-- ===== src/Policy.antt =====
-- internal/policy: the egress matcher.
pub mod Rule
pub mod Host
pub mod Glob
pub mod Path
pub mod Specificity
pub mod Match
pub mod Disposition
pub mod FromConfig
pub mod Compile
