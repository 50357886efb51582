-- ===== src/Metadata/Value.antt =====
-- src/metadata/value.rs: the parser of brace-serialized values. The input from the parser's offset
-- on is `rest`, character by character; the offset counts bytes.
pub mod Data
pub mod Parse
pub mod Print
pub mod Reads
pub mod RoundTrip
pub mod Total
pub mod Depth
pub mod Sequence
mod Tests
