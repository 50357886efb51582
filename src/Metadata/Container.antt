-- ===== src/Metadata/Container.antt =====
-- src/metadata/container.rs: the named documents of a container. A container is the list of its
-- bytes, and a name the list of its characters.
pub mod Utf16
pub mod Blocks
pub mod Pieces
pub mod Total
pub mod Table
pub mod Records
pub mod Entries
pub mod Ends
pub mod Names
pub mod Setting
mod Tests
