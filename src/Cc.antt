-- ===== src/Cc.antt =====
-- The compiler from C to wasm and to x86-64, cc/.
pub mod ByteBuf
pub mod Codegen
pub mod Asm
pub mod Elf
pub mod Instr
pub mod Lines
pub mod Stable
pub mod Syntax
pub mod Assemble
