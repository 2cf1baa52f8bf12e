-- ===== src/Tests.antt =====
-- Runs of the definitions on concrete inputs, and the theorems at such inputs.
mod Memory
mod Runtime
mod Sandbox
mod Alloc
mod Asm
mod Program
mod Codegen
mod Integers
mod Reader
mod Framing
mod Count
mod Str
