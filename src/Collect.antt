-- ===== src/Collect.antt =====
-- app/collect: collectors that read the host directly.
pub mod Binds
