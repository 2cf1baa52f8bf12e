-- ===== src/Runtime/Table.antt =====
-- Function tables of rt/w2c2_base.h: one static array of functions and one of their type ids.
use sandbox_stack.Prelude.{ℕ, ◌+◌, ◌%◌, ◌^◌, ◌≤◌, ◌<◌, ◌≡◌, ◌≢◌, ◌⊎◌, inl, inr, arith}
use sandbox_stack.Prelude.{Bool, true, false, ◌||◌, not, Option, none, some, ltb, leb, ◌==◌}
use sandbox_stack.Prelude.{if◌then◌else◌, Option-cases, Bool-cases}
use sandbox_stack.Runtime.{Outcome, done, trapped, ◌>>=◌, ◌>>◌, trap_if, defined_if}
use sandbox_stack.Runtime.{allocation_failed, out_of_bounds_table, null_function}
use sandbox_stack.Runtime.{indirect_call_type_mismatch}

-- `struct wasmTable`; `attached` says that `data` and `types` point to the arrays.
pub record Table : Type 0 where
  pub attached : Bool
  pub size : ℕ
  pub max_size : ℕ

-- `wasm_table_arena`, `wasm_table_types_arena` and `wasm_table_arena_size`. A function pointer is a
-- number, and `none` is the null pointer.
pub record TableArena : Type 0 where
  pub funcs : ℕ → Option ℕ
  pub types : ℕ → ℕ
  pub arena_size : ℕ

-- `wasmTableAllocate`
unfoldable pub table_allocate : Table → TableArena → ℕ → ℕ → Outcome Table
table_allocate t a size max_size =
    let max = if ltb a.arena_size max_size then a.arena_size else max_size in
    do
      trap_if (t.attached || ltb max size) allocation_failed
      done (record { attached = true; size = size; max_size = max })

-- `wasm_table_init`
unfoldable pub table_init : Table → ℕ → ℕ → Outcome (Unit {0})
table_init t offset count = trap_if (ltb t.size ((offset + count) % 2 ^ 64)) out_of_bounds_table

-- `if (!t->data[i]) trap(trapNullFunction);`
abbrev pub non_null : Option ℕ → Outcome ℕ
non_null none = trapped null_function
non_null (some f) = done f

-- `wasm_table_get`, which `call_indirect` goes through.
unfoldable pub table_get : Table → TableArena → ℕ → ℕ → Outcome ℕ
table_get t a i expected_type = do
  trap_if (leb t.size i) out_of_bounds_table
  defined_if (if t.attached then ltb i a.arena_size else false)
  f ← non_null (a.funcs i)
  trap_if (not (a.types i == expected_type)) indirect_call_type_mismatch
  done f

pub record IsValid (t : Table) (a : TableArena) : Type 0 where
  pub attached : t.attached ≡ true
  pub below_max : t.size ≤ t.max_size
  pub in_arena : t.max_size ≤ a.arena_size

-- `wasmTableAllocate` on a table that has no array yet returns a valid table of the size asked for, if
-- that is at most the maximum asked for and the array's size; otherwise it traps.
pub table_allocate_lem :
    (t : Table) (a : TableArena) (size max_size : ℕ)
    → t.attached ≡ false
    → ((size ≤ max_size)
        × (size ≤ a.arena_size)
        × ((u : Table) × (table_allocate t a size max_size ≡ done u)
            × IsValid u a
            × (u.size ≡ size)
            × (u.max_size ≤ max_size)))
      ⊎ ((max_size < size) ⊎ (a.arena_size < size))
        × (table_allocate t a size max_size ≡ trapped allocation_failed)
unfolding table_allocate
table_allocate_lem t a size max_size free =
    let max : ℕ = if ltb a.arena_size max_size then a.arena_size else max_size in
    elim (Bool-cases (ltb max size)) [
      | inl out ↦ inr (ground arith, ground arith)
      | inr fits ↦ inl (
        ground arith,
        ground arith,
        (
          record { attached = true; size = size; max_size = max },
          ground arith,
          ground arith,
          ground arith,
          ground arith,
        ),
      )
    ]

-- On a valid table `wasm_table_get` hands out the function at an index exactly when the index is
-- inside, the entry is not null and its type id is the expected one. An index outside traps; inside,
-- a null entry traps as such whatever its type id is; and an entry that is not null, of another
-- type, traps with the mismatch. No case reads outside the arrays.
pub table_get_lem :
    (t : Table) (a : TableArena) (i expected_type : ℕ)
    → IsValid t a
    → ((f : ℕ) × (table_get t a i expected_type ≡ done f)
        × (i < t.size)
        × (a.funcs i ≡ some f)
        × (a.types i ≡ expected_type))
      ⊎ (t.size ≤ i) × (table_get t a i expected_type ≡ trapped out_of_bounds_table)
      ⊎ (i < t.size) × (a.funcs i ≡ none) × (table_get t a i expected_type ≡ trapped null_function)
      ⊎ (i < t.size)
        × ((f : ℕ) × (a.funcs i ≡ some f))
        × (a.types i ≢ expected_type)
        × (table_get t a i expected_type ≡ trapped indirect_call_type_mismatch)
unfolding table_get
table_get_lem t a i expected_type v = elim (Option-cases (a.funcs i)) [
  | inl null ↦ elim (Bool-cases (leb t.size i)) [
    | inl out ↦ inr (inl (ground arith, ground arith))
    | inr at ↦ inr (inr (inl (ground arith, null, ground arith)))
  ]
  | inr (f, e) ↦ elim (Bool-cases (leb t.size i)) [
    | inl out ↦ inr (inl (ground arith, ground arith))
    | inr at ↦ elim (Bool-cases (a.types i == expected_type)) [
      | inl same ↦ inl (f, ground arith, ground arith, e, ground arith)
      | inr other ↦ inr (inr (inr (ground arith, (f, e), ground arith, ground arith)))
    ]
  ]
]
