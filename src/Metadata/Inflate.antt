-- ===== src/Metadata/Inflate.antt =====
-- src/metadata/deflate.rs: the raw-DEFLATE (RFC 1951) decoder.
pub mod BitReader
pub mod Huffman
pub mod Lengths
pub mod Block
pub mod Stream
mod Tests
