-- ===== src/Net/Socks5.antt =====
-- crates/open-sdbl-db/src/net/socks5.rs: the SOCKS5 transport of a database connection. A text is
-- the list of its characters, and what goes over the connection a list of bytes.
pub mod Text
pub mod Proxy
pub mod Request
pub mod Wire
pub mod Negotiation
pub mod Conversation
pub mod Opened
pub mod Negotiated
pub mod Layout
pub mod Shown
mod Tests
