-- ===== src/Net.antt =====
-- What the program uses of Go's package net: IP addresses.
pub mod Ip
pub mod Endpoint
