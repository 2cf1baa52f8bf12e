-- ===== src/W2c2.antt =====
-- The translator from wasm to C, w2c2/.
pub mod Buffer
pub mod Leb128
pub mod Reader
