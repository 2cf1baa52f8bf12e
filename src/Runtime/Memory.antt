-- ===== src/Runtime/Memory.antt =====
-- Linear memory of rt/w2c2_base.h: one static arena, and a `wasmMemory` that limits what of it is
-- the guest's. Memory values are passed as the C passes pointers to them; the arena's bytes are
-- the state that stores change.
pub mod Laws
pub mod Bulk
use sandbox_stack.Prelude.{ℕ, zero, suc, ◌+◌, ◌-◌, ◌*◌, ◌%◌, ◌^◌, Bool, true, false, ◌&&◌, ◌||◌}
use sandbox_stack.Prelude.{List, ltb, leb, if◌then◌else◌, length, take, drop, not}
use sandbox_stack.Bytes.{Store, memmove, memset, memcpy_in, memcpy_out, bytes_of, number_of}
use sandbox_stack.Runtime.{Outcome, done, trapped, fault, ◌>>=◌, ◌>>◌, trap_if, defined_if}
use sandbox_stack.Runtime.{Trap, allocation_failed, out_of_bounds_memory}

-- `WASM_PAGE_SIZE`
abbrev pub page_size : ℕ
page_size = 65536

abbrev pub u32_mod : ℕ
u32_mod = 2 ^ 32

-- `struct wasmMemory`. Its `data` is null or the start of the arena: `attached` says which.
pub record Memory : Type 0 where
  pub attached : Bool
  pub size : ℕ
  pub pages : ℕ
  pub max_pages : ℕ

-- `wasm_arena` and `wasm_arena_pages`; the array has `arena_pages * 65536` bytes.
pub record Arena : Type 0 where
  pub cell : Store
  pub arena_pages : ℕ

-- The static `wasm_memory0` before the module is instantiated.
abbrev pub unattached : Memory
unattached = record { attached = false; size = 0; pages = 0; max_pages = 0 }

-- `wasmMemoryAllocate`: `m0` is `wasm_memory0` at the call.
unfoldable pub memory_allocate : Memory → Arena → ℕ → ℕ → Bool → Outcome Memory
memory_allocate m0 a initial_pages max_pages shared =
    let max = if ltb a.arena_pages max_pages then a.arena_pages else max_pages in
    do
      trap_if (shared || m0.attached || leb 65536 a.arena_pages || ltb max initial_pages)
          allocation_failed
      done (record {
        attached = true;
        size = initial_pages * page_size % u32_mod;
        pages = initial_pages;
        max_pages = max;
      })

-- `wasmMemoryGrow`: the value returned, and the memory after the call.
unfoldable pub memory_grow : Memory → ℕ → ℕ × Memory
memory_grow m delta =
    let old = m.pages in
    let new = (old + delta) % u32_mod in
    if ltb new old || ltb m.max_pages new
    then (u32_mod - 1, m)
    else (old, record m { pages = new; size = new * page_size % u32_mod })

-- `wasm_check`: the sum is one of `U64`s.
unfoldable pub check : Memory → ℕ → ℕ → Outcome (Unit {0})
check m addr n = trap_if (ltb m.size ((addr + n) % 2 ^ 64)) out_of_bounds_memory

-- The C abstract machine: `n` bytes from `data + addr` lie inside the arena.
unfoldable pub access : Memory → Arena → ℕ → ℕ → Outcome (Unit {0})
access m a addr n = defined_if (m.attached && leb (addr + n) (a.arena_pages * page_size))

-- `wasmMemoryCopy`
unfoldable pub memory_copy : Memory → Memory → Arena → ℕ → ℕ → ℕ → Outcome Arena
memory_copy d s a da sa n = do
  check d da n
  check s sa n
  access d a da n
  access s a sa n
  done (record a { cell = memmove da sa n a.cell })

-- `wasmMemoryFill`
unfoldable pub memory_fill : Memory → Arena → ℕ → ℕ → ℕ → Outcome Arena
memory_fill m a da v n = do
  check m da n
  access m a da n
  done (record a { cell = memset da v n a.cell })

-- `wasm_memory_init`: `seg` is the data segment's array, `seg_len` its length or 0 once dropped.
unfoldable pub memory_init : Memory → Arena → ℕ → List ℕ → ℕ → ℕ → ℕ → Outcome Arena
memory_init m a dest seg seg_len src n = do
  trap_if (ltb seg_len ((src + n) % 2 ^ 64)) out_of_bounds_memory
  check m dest n
  access m a dest n
  defined_if (leb (src + n) (length seg))
  done (record a { cell = memcpy_in dest (take n (drop src seg)) a.cell })

-- `LOAD_DATA`: a whole data segment of `s` bytes at offset `o`.
unfoldable pub load_data : Memory → Arena → ℕ → List ℕ → ℕ → Outcome Arena
load_data m a o i s = do
  check m o s
  access m a o s
  defined_if (leb s (length i))
  done (record a { cell = memcpy_in o (take s i) a.cell })

-- The C types of the load and store macros. A float is its bit pattern: it is only copied.
pub record CType : Type 0 where
  pub bytes : ℕ
  pub signed : Bool

abbrev pub bits : CType → ℕ
bits t = 8 * t.bytes

-- The conversion of C between these types, on bit patterns.
unfoldable pub convert : CType → CType → ℕ → ℕ
convert from to x =
    if from.signed && leb (2 ^ bits from) (2 * x)
    then (x + 2 ^ 64 - 2 ^ bits from) % 2 ^ bits to
    else x % 2 ^ bits to

-- `DEFINE_LOAD(name, t1, t2, t3)`
unfoldable pub define_load : CType → CType → CType → Memory → Arena → ℕ → Outcome ℕ
define_load t1 t2 t3 m a addr = do
  check m addr t1.bytes
  access m a addr t1.bytes
  let r = number_of (memcpy_out addr t1.bytes a.cell)
  done (convert t2 t3 (convert t1 t2 r))

-- `DEFINE_STORE(name, t1, t2)`
unfoldable pub define_store : CType → CType → Memory → Arena → ℕ → ℕ → Outcome Arena
define_store t1 t2 m a addr v = do
  let w = convert t2 t1 v
  check m addr t1.bytes
  access m a addr t1.bytes
  done (record a { cell = memcpy_in addr (bytes_of t1.bytes w) a.cell })
