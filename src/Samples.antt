-- ===== src/Samples.antt =====
-- Inputs for the tests, the tests themselves, and the theorems at concrete inputs.
mod Inputs
mod Outcomes
mod PortMatch
mod Ownership
mod PortConflict
mod Debian
mod Ports
mod Rpm
mod Names
mod FreePort
mod Networks
mod Runs
mod Plans
mod Advisories
mod Rechecks
mod Proxies
mod Binds
mod Rollbacks
