-- ===== src/Tests/Alloc.antt =====
-- The allocator of libc/libc.c in a fresh memory of two pages.
use sandbox_stack.Prelude.{ℕ, ◌+◌, ◌*◌, ◌≤◌, ◌<◌, ◌≡◌, ◌⊎◌, refl, arith}
use sandbox_stack.Bytes.{memcpy_in, memcpy_out, bytes_of, number_of, update}
use sandbox_stack.Runtime.Memory.{u32_mod, check}
use sandbox_stack.Runtime.{done, trapped, out_of_bounds_memory}
use sandbox_stack.Libc.Alloc.{Heap, reserve, heap_end, malloc, calloc, header, realloc}
use sandbox_stack.Libc.Alloc.Laws.{IsHeap, Gives, malloc_lem}
use sandbox_stack.Libc.Alloc.Resize.{Cleared, Moved, calloc_lem, realloc_lem}
use sandbox_stack.Libc.Alloc.Wrap.{malloc_overlaps}
use sandbox_stack.Tests.Memory.{two_pages, numbered, two_pages-IsValid}

abbrev base : ℕ
base = 1000

abbrev fresh : Heap
fresh = record { heap_top = 0; memory = two_pages; cell = λ j. 0 }

-- A block of 32 bytes is at 1024.
abbrev used : Heap
used = record { heap_top = 1056; memory = two_pages; cell = update (λ j. 0) 1008 32 }

fresh-IsHeap : IsHeap base numbered fresh
fresh-IsHeap = record {
  valid = two_pages-IsValid;
  aligned = refl;
  inside = omega arith;
  positive = omega arith;
}

used-IsHeap : IsHeap base numbered used
used-IsHeap = record {
  valid = two_pages-IsValid;
  aligned = refl;
  inside = omega arith;
  positive = omega arith;
}

first_block :
    malloc base 20 fresh
    ≡ done (
      1024,
      record {
        heap_top = 1056;
        memory = two_pages;
        cell = memcpy_in 1008 (bytes_of 4 32) (λ j. 0);
      },
    )
unfolding malloc reserve check
first_block = refl

-- A heap that ends at the memory's end has no room for a header.
abbrev full : Heap
full = record { heap_top = two_pages.size; memory = two_pages; cell = λ j. 0 }

no_header : malloc base 4294967270 full ≡ trapped out_of_bounds_memory
unfolding malloc reserve check
no_header = refl

malloc_lem_example :
    (p : ℕ) × (h' : Heap) × (malloc base 20 fresh ≡ done (p, h'))
    × IsHeap base numbered h'
    × Gives base 20 fresh p h'
malloc_lem_example = malloc_lem base 20 numbered fresh fresh-IsHeap (omega arith)

calloc_lem_example :
    (u32_mod ≤ 3 * 5) × (calloc base 3 5 fresh ≡ done (0, fresh))
    ⊎ (3 * 5 + 32 ≤ u32_mod) × Cleared base (3 * 5) 3 5 fresh
    ⊎ (u32_mod < 3 * 5 + 32)
      × (3 * 5 < u32_mod)
      × ((calloc base 3 5 fresh ≡ trapped out_of_bounds_memory)
          ⊎ (h' : Heap) × (calloc base 3 5 fresh ≡ done (0, h')))
calloc_lem_example = calloc_lem base 3 5 numbered fresh fresh-IsHeap

header_read : header base used 1024 ≡ 32
unfolding memcpy_out number_of update
header_read = refl

realloc_lem_example :
    (1024 < 16) × (realloc base 1024 40 used ≡ trapped out_of_bounds_memory)
    ⊎ (40 ≤ header base used 1024) × (realloc base 1024 40 used ≡ done (1024, used))
    ⊎ (header base used 1024 < 40) × Moved base 1024 40 used
realloc_lem_example =
    realloc_lem base 1024 40 numbered used used-IsHeap (ground arith) (omega (arith, header_read))
      (omega arith)

abbrev huge : ℕ
huge = 4294967270

malloc_overlaps_example :
    (fresh.memory.size < heap_end base fresh + 4)
      × (malloc base huge fresh ≡ trapped out_of_bounds_memory)
    ⊎ (h' : Heap) × (malloc base huge fresh ≡ done (heap_end base fresh + 16, h'))
      × (heap_end base h' ≡ heap_end base fresh)
      × ((h'' : Heap) × (malloc base huge h' ≡ done (heap_end base fresh + 16, h'')))
malloc_overlaps_example =
    malloc_overlaps base huge numbered fresh fresh-IsHeap (omega arith) (omega arith)
