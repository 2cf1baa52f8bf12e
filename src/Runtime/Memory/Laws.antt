-- ===== src/Runtime/Memory/Laws.antt =====
-- Memory safety of the runtime header: a valid memory stays valid, and no operation on it leaves
-- the arena.
use sandbox_stack.Prelude.{ℕ, ◌+◌, ◌-◌, ◌*◌, ◌%◌, ◌≤◌, ◌<◌, Bool, true, false}
use sandbox_stack.Prelude.{◌≡◌, ◌||◌, Bool-cases, ◌⊎◌, ltb, leb, arith}
use sandbox_stack.Prelude.{if◌then◌else◌, inl, inr}
use sandbox_stack.Bytes.{Store, memcpy_in, memcpy_out, bytes_of, number_of}
use sandbox_stack.Runtime.{done, trapped, allocation_failed, out_of_bounds_memory}
use sandbox_stack.Runtime.Memory.{Memory, Arena, page_size, u32_mod, CType, convert}
use sandbox_stack.Runtime.Memory.{memory_allocate, memory_grow, check, access}
use sandbox_stack.Runtime.Memory.{define_load, define_store}

-- What `wasmMemoryAllocate` establishes and `wasmMemoryGrow` keeps.
pub record IsValid (m : Memory) (a : Arena) : Type 0 where
  pub attached : m.attached ≡ true
  pub sized : m.size ≡ m.pages * page_size
  pub below_max : m.pages ≤ m.max_pages
  pub in_arena : m.max_pages ≤ a.arena_pages
  pub small : a.arena_pages < 65536

-- Validity does not depend on the bytes.
pub IsValid-cell :
    {m : Memory} {a : Arena} (c : Store) → IsValid m a → IsValid m (record a { cell = c })
IsValid-cell c v = ground arith

-- The first call of `wasmMemoryAllocate`, for a 32-bit page count: with an unshared memory, an arena of
-- fewer than 65536 pages and an initial size within both the maximum and the arena it returns a valid
-- memory of that size, whose maximum is no larger than asked for. Otherwise it traps.
pub memory_allocate_lem :
    (m0 : Memory) (a : Arena) (initial_pages max_pages : ℕ) (shared : Bool)
    → initial_pages < u32_mod
    → m0.attached ≡ false
    → ((shared ≡ false)
        × (a.arena_pages < 65536)
        × (initial_pages ≤ max_pages)
        × (initial_pages ≤ a.arena_pages)
        × ((m : Memory) × (memory_allocate m0 a initial_pages max_pages shared ≡ done m)
            × IsValid m a
            × (m.pages ≡ initial_pages)
            × (m.max_pages ≤ max_pages)))
      ⊎ ((shared ≡ true)
          ⊎ (65536 ≤ a.arena_pages)
          ⊎ (max_pages < initial_pages)
          ⊎ (a.arena_pages < initial_pages))
        × (memory_allocate m0 a initial_pages max_pages shared ≡ trapped allocation_failed)
unfolding memory_allocate
memory_allocate_lem m0 a i x shared hi free =
    let max : ℕ = if ltb a.arena_pages x then a.arena_pages else x in
    elim (Bool-cases (shared || m0.attached || leb 65536 a.arena_pages || ltb max i)) [
      | inl refused ↦ inr (ground arith, ground arith)
      | inr granted ↦ inl (
        ground arith,
        ground arith,
        ground arith,
        ground arith,
        (
          record { attached = true; size = i * page_size % u32_mod; pages = i; max_pages = max },
          rw granted,
          ground arith,
          ground arith,
          ground arith,
        ),
      )
    ]

-- `wasmMemoryGrow` keeps a valid memory valid, whatever 32-bit number is asked for: within the maximum
-- it returns the old page count and adds the pages; past it, it returns 2^32 - 1 and changes nothing.
pub memory_grow_lem :
    (m : Memory) (a : Arena) (delta : ℕ)
    → IsValid m a
    → delta < u32_mod
    → IsValid (memory_grow m delta).1 a
      × ((m.pages + delta ≤ m.max_pages)
            × ((memory_grow m delta).0 ≡ m.pages)
            × ((memory_grow m delta).1.pages ≡ m.pages + delta)
            × ((memory_grow m delta).1.max_pages ≡ m.max_pages)
          ⊎ (m.max_pages < m.pages + delta) × (memory_grow m delta ≡ (u32_mod - 1, m)))
unfolding memory_grow
memory_grow_lem m a delta v h = ground arith

-- On a valid memory and 32-bit arguments `wasm_check` passes exactly the ranges inside the memory,
-- which are then inside the arena, and traps on all others.
pub check_lem :
    (m : Memory) (a : Arena) (addr n : ℕ)
    → IsValid m a
    → addr < u32_mod
    → n < u32_mod
    → (addr + n ≤ m.size) × (check m addr n ≡ done tt) × (access m a addr n ≡ done tt)
      ⊎ (m.size < addr + n) × (check m addr n ≡ trapped out_of_bounds_memory)
unfolding check access
check_lem m a addr n v ha hn = ground arith

-- A load is done exactly when its bytes are inside, and then its value is the conversion of the
-- little-endian number that they spell. Otherwise it traps.
pub define_load_lem :
    (t1 t2 t3 : CType) (m : Memory) (a : Arena) (addr : ℕ)
    → IsValid m a
    → addr < u32_mod
    → t1.bytes ≤ 8
    → ((addr + t1.bytes ≤ m.size)
        × (define_load t1 t2 t3 m a addr
            ≡ done (convert t2 t3 (convert t1 t2 (number_of (memcpy_out addr t1.bytes a.cell))))))
      ⊎ (m.size < addr + t1.bytes) × (define_load t1 t2 t3 m a addr ≡ trapped out_of_bounds_memory)
unfolding define_load
define_load_lem t1 t2 t3 m a addr vm h hb = elim (check_lem m a addr t1.bytes vm h (omega arith)) [
  | inr (out, c) ↦ inr (out, rw c)
  | inl (fits, c, x) ↦ inl (fits, rw (c, x))
]

-- A store is done exactly when its bytes are inside, and then copies the bytes of the converted value,
-- lowest first, to the address. Otherwise it traps.
pub define_store_lem :
    (t1 t2 : CType) (m : Memory) (a : Arena) (addr v : ℕ)
    → IsValid m a
    → addr < u32_mod
    → t1.bytes ≤ 8
    → ((addr + t1.bytes ≤ m.size)
        × (define_store t1 t2 m a addr v
            ≡ done
                (record a { cell = memcpy_in addr (bytes_of t1.bytes (convert t2 t1 v)) a.cell })))
      ⊎ (m.size < addr + t1.bytes) × (define_store t1 t2 m a addr v ≡ trapped out_of_bounds_memory)
unfolding define_store
define_store_lem t1 t2 m a addr v vm h hb = elim (check_lem m a addr t1.bytes vm h (omega arith)) [
  | inr (out, c) ↦ inr (out, rw c)
  | inl (fits, c, x) ↦ inl (fits, rw (c, x))
]

pub access_lem :
    {m : Memory} {a : Arena} (addr n : ℕ)
    → IsValid m a
    → addr + n ≤ m.size
    → access m a addr n ≡ done tt
unfolding access
access_lem addr n v fits = ground arith
