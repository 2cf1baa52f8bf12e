-- ===== src/W2c2/Reader.antt =====
-- The reader of wasm files, w2c2/reader.c, for a reader with `debug` off.
pub mod Parse
pub mod Module
pub mod Entries
pub mod Sections
pub mod File
pub mod Advance
pub mod Code
pub mod Format
pub mod Accept
pub mod Ensure
pub mod Typed
