-- ===== src/Metadata.antt =====
-- The crate's module `metadata` (src/metadata/): errors, and the two decoders of a stored resource.
pub mod Error
pub mod Inflate
pub mod Guid
pub mod Utf8
pub mod Value
pub mod Container
pub mod StoredValue
