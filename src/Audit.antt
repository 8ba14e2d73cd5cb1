-- ===== src/Audit.antt =====
-- app/audit: the recheck of a report that is held.
pub mod Recheck
