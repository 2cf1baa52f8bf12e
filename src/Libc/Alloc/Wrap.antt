-- ===== src/Libc/Alloc/Wrap.antt =====
-- The arguments of `malloc` for which its 32-bit sums wrap past its test (libc/libc.c).
use sandbox_stack.Prelude.{
  ℕ, ◌+◌, ◌*◌, ◌%◌, ◌≤◌, ◌<◌, ◌≡◌, ◌⊎◌, inl, inr, ◌∙◌, ltb, leb, false, Bool-cases, refl, arith,
}
use sandbox_stack.Runtime.Memory.{Arena, u32_mod}
use sandbox_stack.Libc.Alloc.{Heap, round_up, placed, stored, heap_end, reserve, malloc}
use sandbox_stack.Libc.Alloc.Laws.{IsHeap, current_set, size_small}
use sandbox_stack.Libc.Alloc.Loops.{check_inside, check_outside}
use sandbox_stack.Runtime.{done, trapped, out_of_bounds_memory}

enough :
    (h : Heap) (top : ℕ)
    → top ≤ h.memory.pages * 65536 % u32_mod
    → reserve h.memory top ≡ (0, h.memory)
unfolding reserve
enough h top e = ground arith

-- One such call: the sum of its place, the header and the rounded size wraps back to its place.
wrapped_call :
    (heap_base n cur : ℕ) (h : Heap)
    → heap_end heap_base h ≡ cur
    → cur < u32_mod
    → u32_mod < n + 32
    → n + 16 ≤ u32_mod
    → cur ≤ h.memory.pages * 65536 % u32_mod
    → malloc heap_base n h ≡ placed h h.memory cur (round_up n) cur
unfolding malloc
wrapped_call heap_base n cur h e below big fits room =
    let wraps : (cur + 16 + round_up n) % u32_mod ≡ cur = ground arith in
    let still : ltb cur cur ≡ false = ground arith in rw (e, wraps, enough h cur room, still) refl

-- In a valid heap, `malloc` of 2^32 - 31 to 2^32 - 16 bytes does not fail: where the memory has no room
-- for a header at the heap's end, its store traps; otherwise it gives the place behind that header
-- and leaves the end where it was, so that a second such call gives the same block.
pub malloc_overlaps :
    (heap_base n : ℕ) (a : Arena) (h : Heap)
    → IsHeap heap_base a h
    → u32_mod < n + 32
    → n + 16 ≤ u32_mod
    → (h.memory.size < heap_end heap_base h + 4)
        × (malloc heap_base n h ≡ trapped out_of_bounds_memory)
      ⊎ (h' : Heap) × (malloc heap_base n h ≡ done (heap_end heap_base h + 16, h'))
        × (heap_end heap_base h' ≡ heap_end heap_base h)
        × ((h'' : Heap) × (malloc heap_base n h' ≡ done (heap_end heap_base h + 16, h'')))
malloc_overlaps heap_base n a h v big fits =
    let cur = heap_end heap_base h in
    let after = stored h h.memory cur (round_up n) cur in
    let end = size_small h.memory a v.valid in
    let room : cur ≤ h.memory.pages * 65536 % u32_mod = omega (arith, v.valid, v.inside) in
    let below : cur < u32_mod = omega (arith, end, v.inside) in
    let place : (cur + 16) % u32_mod ≡ cur + 16 = omega (arith, end, v.inside) in
    let first = wrapped_call heap_base n cur h refl below big fits room in
    let same : heap_end heap_base after ≡ cur = current_set heap_base after cur v.positive refl in
    let second = wrapped_call heap_base n cur after same below big fits room in
    elim (Bool-cases (leb (cur + 4) h.memory.size)) [
      | inr short ↦
          let out = check_outside h.memory cur 4 below (omega arith) (ground arith) in
          inl (ground arith, first ∙ rw out refl)
      | inl stores ↦
          let header = check_inside h.memory cur 4 (omega (arith, end)) (ground arith) in
          inr (
            after,
            first ∙ rw (header, place) refl,
            same,
            (stored after h.memory cur (round_up n) cur, second ∙ rw (header, place) refl),
          )
    ]
