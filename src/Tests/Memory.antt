-- ===== src/Tests/Memory.antt =====
-- The linear memory of rt/w2c2_base.h on a memory of two pages.
use sandbox_stack.Prelude.{ℕ, ◌+◌, ◌-◌, ◌^◌, ◌≤◌, ◌<◌, ◌≡◌, ◌⊎◌, inl, refl, arith, true, false}
use sandbox_stack.Prelude.{List, [], ◌∷◌, if◌then◌else◌, get_or}
use sandbox_stack.Bytes.{Store, memcpy_out, number_of, memcpy_in, bytes_of, update}
use sandbox_stack.Bytes.Laws.{inside}
use sandbox_stack.Runtime.{done, trapped, out_of_bounds_memory}
use sandbox_stack.Runtime.Memory.{Memory, Arena, unattached, u32_mod, memory_allocate, memory_grow}
use sandbox_stack.Runtime.Memory.{check, access, memory_copy, memory_init}
use sandbox_stack.Runtime.Memory.{define_load, define_store, convert}
use sandbox_stack.Runtime.Memory.Bulk.{memory_copy_lem}
use sandbox_stack.Runtime.Memory.Bulk.{memory_init_lem}
use sandbox_stack.Runtime.Memory.Laws.{IsValid, memory_grow_lem, check_lem}
use sandbox_stack.Runtime.Access.{u8, u32, i8, i32}
use sandbox_stack.Runtime.Access.RoundTrip.{load-store, load-store_disjoint}

abbrev pub two_pages : Memory
two_pages = record { attached = true; size = 131072; pages = 2; max_pages = 4 }

abbrev pub numbered : Arena
numbered = record { cell = λ j. j; arena_pages = 4 }

pub two_pages-IsValid : IsValid two_pages numbered
two_pages-IsValid = record {
  attached = refl;
  sized = refl;
  below_max = omega arith;
  in_arena = omega arith;
  small = omega arith;
}

allocates : memory_allocate unattached numbered 2 9 false ≡ done two_pages
unfolding memory_allocate
allocates = refl

grows : memory_grow two_pages 3 ≡ (u32_mod - 1, two_pages)
unfolding memory_grow
grows = refl

sign_extends : define_load i8 i32 u32 two_pages numbered 200 ≡ done (2 ^ 32 - 56)
unfolding define_load check access convert memcpy_out number_of
sign_extends = refl

memory_grow_lem_example :
    IsValid (memory_grow two_pages 1).1 numbered
    × ((3 ≤ 4)
          × ((memory_grow two_pages 1).0 ≡ 2)
          × ((memory_grow two_pages 1).1.pages ≡ 3)
          × ((memory_grow two_pages 1).1.max_pages ≡ 4)
        ⊎ (4 < 3) × (memory_grow two_pages 1 ≡ (u32_mod - 1, two_pages)))
memory_grow_lem_example = memory_grow_lem two_pages numbered 1 two_pages-IsValid (omega arith)

check_lem_example :
    (131069 + 4 ≤ 131072)
      × (check two_pages 131069 4 ≡ done tt)
      × (access two_pages numbered 131069 4 ≡ done tt)
    ⊎ (131072 < 131069 + 4) × (check two_pages 131069 4 ≡ trapped out_of_bounds_memory)
check_lem_example =
    check_lem two_pages numbered 131069 4 two_pages-IsValid (omega arith) (omega arith)

memory_copy_lem_example :
    ((12 + 8 ≤ 131072)
      × (10 + 8 ≤ 131072)
      × ((c : Store) × (memory_copy two_pages two_pages numbered 12 10 8
            ≡ done (record numbered { cell = c }))
          × ((j : ℕ) → c j ≡ (if inside 12 8 j then 10 + (j - 12) else j))))
    ⊎ ((131072 < 12 + 8) ⊎ (131072 < 10 + 8))
      × (memory_copy two_pages two_pages numbered 12 10 8 ≡ trapped out_of_bounds_memory)
memory_copy_lem_example =
    memory_copy_lem two_pages two_pages numbered 12 10 8 two_pages-IsValid two_pages-IsValid
      (omega arith) (omega arith) (omega arith)

abbrev segment : List ℕ
segment = 7 ∷ 8 ∷ 9 ∷ []

memory_init_lem_example :
    ((1 + 2 ≤ 3)
      × (5 + 2 ≤ 131072)
      × ((c : Store) × (memory_init two_pages numbered 5 segment 3 1 2
            ≡ done (record numbered { cell = c }))
          × ((j : ℕ) → c j ≡ (if inside 5 2 j then get_or segment (1 + (j - 5)) 0 else j))))
    ⊎ ((3 < 1 + 2) ⊎ (131072 < 5 + 2))
      × (memory_init two_pages numbered 5 segment 3 1 2 ≡ trapped out_of_bounds_memory)
memory_init_lem_example =
    memory_init_lem two_pages numbered 5 segment 3 1 2 two_pages-IsValid (omega arith) (omega arith)
      (omega arith) (omega arith)

load-store_example :
    (a' : Arena) × (define_store u8 u32 two_pages numbered 8 511 ≡ done a')
    × (define_load i8 i32 u32 two_pages a' 8
        ≡ done (convert i32 u32 (convert i8 i32 (convert u32 u8 511))))
load-store_example =
    load-store u8 u32 i8 i32 u32 two_pages numbered 8 511 two_pages-IsValid (omega arith)
      (omega arith) refl (omega arith)

stored :
    define_store u8 u32 two_pages numbered 8 511
    ≡ done (record numbered { cell = update (λ j. j) 8 255 })
unfolding define_store check access convert memcpy_in bytes_of
stored = refl

load-store_disjoint_example :
    define_load u32 u32 u32 two_pages (record numbered { cell = update (λ j. j) 8 255 }) 9
    ≡ define_load u32 u32 u32 two_pages numbered 9
load-store_disjoint_example =
    load-store_disjoint u8 u32 u32 u32 u32 two_pages numbered
      (record numbered { cell = update (λ j. j) 8 255 }) 8 9 511 two_pages-IsValid (omega arith)
      (omega arith) (omega arith) (omega arith) (inl (omega arith)) stored
