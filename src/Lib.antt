-- ===== src/Lib.antt =====
-- Verification of the core of open-sdbl, which reads the metadata of a database and compiles
-- queries in its query language.
--
-- Parts. A resource of the metadata is a raw-DEFLATE stream: src/metadata/deflate.rs decodes it,
-- and src/metadata/value.rs reads the text into a tree of values. A setting is a container of
-- named documents, which src/metadata/container.rs reads, and src/metadata/value_storage.rs reads
-- the values that a storage field keeps. A query is split into tokens by src/lexer.rs, and the
-- statements of a batch share the temporary tables of src/query/core/temp_tables.rs. The
-- restriction texts of roles go through the preprocessor of src/access.rs. The database crate may
-- reach its server through crates/open-sdbl-db/src/net/socks5.rs. Errors of the metadata are the
-- MetadataError of src/metadata/mod.rs.
--
-- Files. Metadata/Error is the error value. Metadata/Inflate is the decoder: BitReader is the
-- reader, a byte list and a bit position, whose operations are functions of the state; Huffman is
-- `Huffman::build` and `decode` over the shared table; Lengths is `fixed_lengths` and
-- `dynamic_lengths`; Block is `compressed_block`, `stored_block`, `copy_back_reference` and
-- `reserve_output`; Stream is `inflate_raw_deflate_bounded`. Metadata/Utf8 is the decoding of
-- UTF-8 that the standard library does for the parser. Metadata/Guid is src/metadata/guid.rs.
-- Metadata/Value is the parser: Data is `Value` and its accessors, with `identity_collection` of
-- src/metadata/runtime_metadata/identity.rs; Parse is `Parser`. Lexer has Keyword and Keywords
-- (the enum and the table of spellings), Chars, Token, Lookup (`keyword`) and Scan (`Lexer` and
-- `tokenize`); Shape and Tiling describe the tokens of a text. Metadata/Value/Print is a printer
-- of values. Metadata/Container has Utf16 (`utf16_name`), Blocks (`document`, whose loop is
-- `walk`) and Table (`read_container_entry`), and Setting is `decode_common_setting`.
-- Metadata/StoredValue is src/metadata/value_storage.rs: Reference and Content. Names is
-- src/names.rs. TempTables is the manager of temporary tables of src/query/core/temp_tables.rs,
-- whose operations return the result and the manager that the call leaves; its children are Checks
-- (materialization, sources and bindings), Spec, an abstract table of numbered names, Valid, what
-- holds of every manager, and Run, the statements of a batch in a row. Net/Socks5 is the
-- transport: Proxy (`parse_socks5_proxy`, `socks5_password`), Request (`socks5_connect_request`),
-- Wire, the connection, and Negotiation (`connect_socks5`). Access is src/access.rs: Comments
-- (`strip_comments`, `blank_comments`) and Directives, the preprocessor (`process_pieces`,
-- `process_if`), where the cursor into the pieces is the list of those that are left; Tree is the
-- nesting of blocks that the pieces spell. Prelude holds what all share. Modules named Tests run
-- the code on concrete inputs.
--
-- State. The reader, the lexer and the parser are records that each operation takes and returns.
-- The slice of the source from the offset on is the field `rest`, a list of characters; the offset
-- counts bytes. A vector that the code mutates is a list that the function returns. A result is
-- `ok`, `err`, or `stuck`, which is no value of the program: fuel ran out or the program would
-- panic. In Metadata/Inflate an index past the end of a table, of a constant one too, is `stuck`.
--
-- Fuel. A block of the stream takes three bits at least, a symbol one bit, so the decoder gets the
-- number of bits of its input. A token takes a character, so the lexer gets the length of the
-- source and one more. A round of a list passes over a character or is the last, so the parser
-- gets the length of the text and one more. The code follows at most 1,000,000 blocks of a
-- document, so the walk gets one round more. A round of the preprocessor passes over a piece, so
-- it gets the number of pieces and one more. `parse_serialized_sequence` takes its fuel as an
-- argument.
--
-- Not modelled: the Unicode tables behind `is_alphabetic`, `is_alphanumeric` and `to_uppercase`,
-- which are the parameter CharTables with the facts that Unicode documents, and the one behind
-- `to_lowercase`, which is the parameter CaseTable; the parser of addresses of the standard
-- library, which is the parameter IpParser; the opening of a connection and the timer, which are
-- arguments of `connect_socks5`; the evaluation of an expression in src/access.rs, which is the
-- argument `evaluate` of the preprocessor; capacities and reservations of vectors; the query
-- parser, the generators and the database drivers, which only use these parts.
mod Prelude
pub mod Metadata
pub mod Lexer
pub mod Names
pub mod TempTables
pub mod Net
pub mod Access
