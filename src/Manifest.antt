-- ===== src/Manifest.antt =====
-- app/collect/manifest: reading the plan.
pub mod Ports
pub mod Interpolate
pub mod Dotenv
