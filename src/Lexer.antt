-- ===== src/Lexer.antt =====
-- src/lexer.rs: the lexer of the query language.
pub mod Keyword
pub mod Keywords
pub mod Chars
pub mod Token
pub mod Lookup
pub mod Scan
pub mod Consumed
pub mod Shape
pub mod Tiling
pub mod Tokens
mod Tests
pub mod Spellings
