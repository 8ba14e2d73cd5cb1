-- ===== src/Vuln.antt =====
-- app/vuln: which installed packages have a known vulnerability.
pub mod Osv
