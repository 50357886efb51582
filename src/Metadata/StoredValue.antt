-- ===== src/Metadata/StoredValue.antt =====
-- src/metadata/value_storage.rs: the values that a configuration keeps in a storage field.
pub mod Reference
pub mod Content
pub mod Decode
mod Tests
