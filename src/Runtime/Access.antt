-- ===== src/Runtime/Access.antt =====
-- The loads and stores that rt/w2c2_base.h defines by its macros, as wasm's instructions name them.
pub mod RoundTrip
use sandbox_stack.Prelude.{ℕ, true, false}
use sandbox_stack.Runtime.{Outcome}
use sandbox_stack.Runtime.Memory.{Memory, Arena, CType, define_load, define_store}

abbrev pub u8 : CType
u8 = record { bytes = 1; signed = false }

abbrev pub i8 : CType
i8 = record { bytes = 1; signed = true }

abbrev pub u16 : CType
u16 = record { bytes = 2; signed = false }

abbrev pub i16 : CType
i16 = record { bytes = 2; signed = true }

abbrev pub u32 : CType
u32 = record { bytes = 4; signed = false }

abbrev pub i32 : CType
i32 = record { bytes = 4; signed = true }

abbrev pub u64 : CType
u64 = record { bytes = 8; signed = false }

abbrev pub i64 : CType
i64 = record { bytes = 8; signed = true }

-- The bit patterns of `F32` and `F64`.
abbrev pub f32 : CType
f32 = record { bytes = 4; signed = false }

abbrev pub f64 : CType
f64 = record { bytes = 8; signed = false }

abbrev pub LoadOp : Type 0
LoadOp = Memory → Arena → ℕ → Outcome ℕ

abbrev pub StoreOp : Type 0
StoreOp = Memory → Arena → ℕ → ℕ → Outcome Arena

abbrev pub i32_load : LoadOp
i32_load = define_load u32 u32 u32

abbrev pub i64_load : LoadOp
i64_load = define_load u64 u64 u64

abbrev pub f32_load : LoadOp
f32_load = define_load f32 f32 f32

abbrev pub f64_load : LoadOp
f64_load = define_load f64 f64 f64

abbrev pub i32_load8_s : LoadOp
i32_load8_s = define_load i8 i32 u32

abbrev pub i64_load8_s : LoadOp
i64_load8_s = define_load i8 i64 u64

abbrev pub i32_load8_u : LoadOp
i32_load8_u = define_load u8 u32 u32

abbrev pub i64_load8_u : LoadOp
i64_load8_u = define_load u8 u64 u64

abbrev pub i32_load16_s : LoadOp
i32_load16_s = define_load i16 i32 u32

abbrev pub i64_load16_s : LoadOp
i64_load16_s = define_load i16 i64 u64

abbrev pub i32_load16_u : LoadOp
i32_load16_u = define_load u16 u32 u32

abbrev pub i64_load16_u : LoadOp
i64_load16_u = define_load u16 u64 u64

abbrev pub i64_load32_s : LoadOp
i64_load32_s = define_load i32 i64 u64

abbrev pub i64_load32_u : LoadOp
i64_load32_u = define_load u32 u64 u64

abbrev pub i32_store : StoreOp
i32_store = define_store u32 u32

abbrev pub i64_store : StoreOp
i64_store = define_store u64 u64

abbrev pub f32_store : StoreOp
f32_store = define_store f32 f32

abbrev pub f64_store : StoreOp
f64_store = define_store f64 f64

abbrev pub i32_store8 : StoreOp
i32_store8 = define_store u8 u32

abbrev pub i32_store16 : StoreOp
i32_store16 = define_store u16 u32

abbrev pub i64_store8 : StoreOp
i64_store8 = define_store u8 u64

abbrev pub i64_store16 : StoreOp
i64_store16 = define_store u16 u64

abbrev pub i64_store32 : StoreOp
i64_store32 = define_store u32 u64
