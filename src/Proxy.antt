-- ===== src/Proxy.antt =====
-- app/collect/proxy: reading the configuration of a web server.
pub mod Nginx
pub mod Walk
pub mod Accumulator
