-- ===== src/Net.antt =====
-- The network layer of the database crate (crates/open-sdbl-db/src/net/).
pub mod Socks5
