-- ===== src/Pkg.antt =====
-- app/pkgmgr: package managers.
pub mod Debian
pub mod Rpm
