-- ===== src/Parser.antt =====
-- crates/hyperindex-parser: positions in a file and the cache of parsed files.
pub mod LineIndex
pub mod ParseCache
