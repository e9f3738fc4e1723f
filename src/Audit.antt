-- ===== src/Audit.antt =====
-- The reader of the egress audit log (internal/audit). The decoder of a line (encoding/json) and
-- the text of an entry are arguments.
pub mod Lines
pub mod Summary
pub mod Follow
