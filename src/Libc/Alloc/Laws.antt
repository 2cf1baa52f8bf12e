-- ===== src/Libc/Alloc/Laws.antt =====
-- What a call of `malloc` gives: a fresh, aligned block inside the memory, or null.
use sandbox_stack.Prelude.{
  ℕ, ◌+◌, ◌-◌, ◌*◌, ◌/◌, ◌%◌, ◌≤◌, ◌<◌, ◌≡◌, ◌≢◌, ◌⊎◌, inl, inr, refl, ap, ◌∙◌, List, arith,
}
use sandbox_stack.Prelude.{ltb, leb, ◌==◌, Bool-cases, length, false}
use sandbox_stack.Bytes.{memcpy_in, memcpy_out, bytes_of, number_of}
use sandbox_stack.Bytes.Laws.{
  inside, memcpy_in-at, memcpy_out-memcpy_in, length-bytes_of, number_of-bytes_of,
}
use native.Mathlib.Nat.{mod-eq_of_lt}
use sandbox_stack.Runtime.Memory.{Memory, Arena, u32_mod, page_size}
use sandbox_stack.Runtime.Memory.Laws.{IsValid, memory_grow_lem}
use sandbox_stack.Libc.Alloc.{Heap, round_up, reserve, stored, heap_end, malloc, header, header_at}
use sandbox_stack.Libc.Alloc.Loops.{check_inside, check_outside}
use sandbox_stack.Runtime.{done, trapped, out_of_bounds_memory}

-- What the program starts from and every call keeps: the memory is valid, and the next block's place
-- is aligned and inside the memory.
pub record IsHeap (heap_base : ℕ) (a : Arena) (h : Heap) : Type 0 where
  pub valid : IsValid h.memory a
  pub aligned : heap_end heap_base h % 16 ≡ 0
  pub inside : heap_end heap_base h ≤ h.memory.size
  pub positive : 0 < heap_end heap_base h

-- `reserve` gives a memory that reaches `top`, or fails and changes nothing.
reserve_lem :
    (m : Memory) (a : Arena) (top : ℕ)
    → IsValid m a
    → 0 < m.size
    → top < u32_mod
    → (IsValid (reserve m top).1 a
        × (top ≤ (reserve m top).1.size)
        × (m.size ≤ (reserve m top).1.size)
        × ((reserve m top).0 ≢ u32_mod - 1))
      ⊎ (reserve m top ≡ (u32_mod - 1, m)) × (m.max_pages * page_size < top)
unfolding reserve
reserve_lem m a top v started h = elim (Bool-cases (ltb (m.pages * 65536 % u32_mod) top)) [
  | inr enough ↦ inl (rw enough v, ground arith, ground arith, ground arith)
  | inl short ↦
      let need = (top - m.pages * 65536 % u32_mod + 65535) % u32_mod / 65536 in
      let (valid, cases) = memory_grow_lem m a need v (omega arith) in
      elim cases [
        | inl (fits, old, pages, max) ↦
            let whole : top ≤ (m.pages + need) * 65536 = omega arith in
            inl (
              rw short valid,
              rw short (omega arith),
              rw short (omega arith),
              rw short (omega arith),
            )
        | inr (over, same) ↦ inr (rw short same, ground arith)
      ]
]

-- The next block's place after a call that has set `heap_top`.
pub current_set :
    (heap_base : ℕ) (h : Heap) (top : ℕ) → 0 < top → h.heap_top ≡ top → heap_end heap_base h ≡ top
current_set heap_base h top p e = ground arith

ne→== : (x y : ℕ) → x ≢ y → (x == y) ≡ false
ne→== x y h = ground arith

-- `heap_top` is set on the first call.
started-heap_end :
    (heap_base : ℕ) (h : Heap)
    → 0 < heap_end heap_base h
    → heap_end heap_base (record h { heap_top = heap_end heap_base h }) ≡ heap_end heap_base h
started-heap_end heap_base h p =
    current_set heap_base (record h { heap_top = heap_end heap_base h }) (heap_end heap_base h) p
      refl

started-IsHeap :
    (heap_base : ℕ) (a : Arena) (h : Heap)
    → IsHeap heap_base a h
    → IsHeap heap_base a (record h { heap_top = heap_end heap_base h })
started-IsHeap heap_base a h v =
    let e = started-heap_end heap_base h v.positive in
    record {
      valid = v.valid;
      aligned = rw e v.aligned;
      inside = rw e v.inside;
      positive = rw e v.positive;
    }

-- What a successful call leaves: the block of `size` bytes behind its header, and the rest as it was.
pub record IsBlock (heap_base size p : ℕ) (h h' : Heap) : Type 0 where
  pub place : p ≡ heap_end heap_base h + 16
  pub end : heap_end heap_base h' ≡ p + size
  pub kept : (j : ℕ) → inside (heap_end heap_base h) 4 j ≡ false → h'.cell j ≡ h.cell j

-- A block put at the heap's end, in a memory that reaches `top`.
module _ (heap_base size top : ℕ) (a : Arena) (h : Heap) (m : Memory) (v : IsHeap heap_base a h)
    (exact : top ≡ heap_end heap_base h + 16 + size) (whole : size % 16 ≡ 0) (valid : IsValid m a)
    (small_size : m.size < u32_mod) (fits : top ≤ m.size) where
  abbrev after : Heap
  after = stored h m (heap_end heap_base h) size top

  after-heap_end : heap_end heap_base after ≡ top
  after-heap_end = current_set heap_base after top (omega arith) refl

  placed-IsHeap : IsHeap heap_base a after
  placed-IsHeap = record {
    valid = valid;
    aligned = rw after-heap_end (omega (arith, v.aligned));
    inside = rw after-heap_end fits;
    positive = rw after-heap_end (omega arith);
  }

  placed-IsBlock : IsBlock heap_base size (heap_end heap_base h + 16) h after
  placed-IsBlock = record {
    place = refl;
    end = after-heap_end ∙ exact;
    kept = λ j out. ground (
      arith,
      memcpy_in-at (bytes_of 4 size) (heap_end heap_base h) j h.cell,
      length-bytes_of 4 size,
    );
  }

  placed-header : size < u32_mod → header heap_base after (heap_end heap_base h + 16) ≡ size
  placed-header small =
      let place : header_at (heap_end heap_base h + 16) ≡ heap_end heap_base h =
        omega (arith, small_size) in
      rw place (
        ap number_of (written (bytes_of 4 size) (length-bytes_of 4 size))
        ∙ number_of-bytes_of 4 size
        ∙ mod-eq_of_lt small)
    where
      written :
          (bs : List ℕ)
          → length bs ≡ 4
          → memcpy_out (heap_end heap_base h) 4 (memcpy_in (heap_end heap_base h) bs h.cell) ≡ bs
      written bs e = rw (← e) (memcpy_out-memcpy_in bs (heap_end heap_base h) h.cell)

-- What a call of `malloc` that does not trap gives: a block, or null
abbrev pub Gives : ℕ → ℕ → Heap → ℕ → Heap → Type 0
Gives heap_base n h p h' =
    (n ≤ round_up n)
      × (p % 16 ≡ 0)
      × IsBlock heap_base (round_up n) p h h'
      × (header heap_base h' p ≡ round_up n)
    ⊎ (p ≡ 0) × (h'.cell ≡ h.cell) × (heap_end heap_base h' ≡ heap_end heap_base h)

-- The memory ends before the address space does.
pub size_small : (m : Memory) (a : Arena) → IsValid m a → m.size + 65536 ≤ u32_mod
size_small m a v = omega (arith, v.sized, v.below_max, v.in_arena, v.small)

-- In a valid heap `malloc` of at most 2^32 - 32 bytes does not trap. It gives a block that starts at a
-- multiple of 16, holds the bytes asked for, lies at the old end of the heap and inside the memory,
-- and has its size in the header; of the bytes before only the header's change. Or it gives null,
-- changes no byte and leaves the heap's end where it was. Either way the heap stays valid.
pub malloc_lem :
    (heap_base n : ℕ) (a : Arena) (h : Heap)
    → IsHeap heap_base a h
    → n + 32 ≤ u32_mod
    → (p : ℕ) × (h' : Heap) × (malloc heap_base n h ≡ done (p, h'))
      × IsHeap heap_base a h'
      × Gives heap_base n h p h'
unfolding malloc
malloc_lem heap_base n a h v small =
    let cur = heap_end heap_base h in
    let top = (cur + 16 + round_up n) % u32_mod in
    let m = (reserve h.memory top).1 in
    let started = record h { heap_top = cur } in
    let again = started-heap_end heap_base h v.positive in
    elim (Bool-cases (ltb top cur)) [
      | inl wrapped ↦
          (0, started, rw wrapped refl, started-IsHeap heap_base a h v, inr (refl, refl, again))
      | inr forward ↦
          let exact : top ≡ cur + 16 + round_up n = ground arith in
          elim (reserve_lem h.memory a top v.valid (omega (arith, v.positive)) (omega arith)) [
            | inl (valid, fits, grown, got) ↦
                let place : (cur + 16) % u32_mod ≡ cur + 16 = omega (arith, v.inside, fits) in
                let whole : round_up n % 16 ≡ 0 = omega arith in
                let limit : m.size < u32_mod = omega (arith, size_small m a valid) in
                let stores = check_inside m cur 4 limit (omega arith) in
                (
                  cur + 16,
                  stored h m cur (round_up n) top,
                  rw (forward, ne→== _ _ got, stores, place) refl,
                  placed-IsHeap heap_base (round_up n) top a h m v exact whole valid limit fits,
                  inl (
                    omega arith,
                    omega (arith, v.aligned),
                    placed-IsBlock heap_base (round_up n) top a h m v exact whole valid limit fits,
                    placed-header heap_base (round_up n) top a h m v exact whole valid limit fits
                        (omega arith),
                  ),
                )
            | inr (same, over) ↦ (
              0,
              started,
              rw (forward, same) refl,
              started-IsHeap heap_base a h v,
              inr (refl, refl, again),
            )
          ]
    ]

-- For any size: the store of the header traps, or what `malloc` gives is null or behind a header, and
-- the memory is valid.
pub malloc-cases :
    (heap_base n : ℕ) (a : Arena) (h : Heap)
    → IsHeap heap_base a h
    → (malloc heap_base n h ≡ trapped out_of_bounds_memory)
      ⊎ (p : ℕ) × (h' : Heap) × (malloc heap_base n h ≡ done (p, h'))
        × ((p ≡ 0) ⊎ (16 ≤ p) × (p < u32_mod) × IsValid h'.memory a)
unfolding malloc
malloc-cases heap_base n a h v =
    let cur = heap_end heap_base h in
    let top = (cur + 16 + round_up n) % u32_mod in
    let m = (reserve h.memory top).1 in
    elim (Bool-cases (ltb top cur)) [
      | inl wrapped ↦ inr (0, record h { heap_top = cur }, rw wrapped refl, inl refl)
      | inr forward ↦
          elim (reserve_lem h.memory a top v.valid (omega (arith, v.positive, v.inside))
            (omega arith)) [
              | inr (same, over) ↦
                  inr (0, record h { heap_top = cur }, rw (forward, same) refl, inl refl)
              | inl (valid, fits, grown, got) ↦
                  let below = size_small h.memory a v.valid in
                  let place : (cur + 16) % u32_mod ≡ cur + 16 = omega (arith, v.inside, below) in
                  elim (Bool-cases (leb (cur + 4) m.size)) [
                    | inl stores ↦
                        let limit : m.size < u32_mod = omega (arith, size_small m a valid) in
                        inr (
                          cur + 16,
                          stored h m cur (round_up n) top,
                          rw
                              (
                                forward,
                                ne→== _ _ got,
                                check_inside m cur 4 limit (ground arith),
                                place,
                              )
                              refl,
                          inr (omega arith, omega (arith, v.inside, below), valid),
                        )
                    | inr beyond ↦ inl (
                        rw
                          (
                            forward,
                            ne→== _ _ got,
                            check_outside m cur 4 (omega (arith, v.inside, below)) (omega arith)
                                (ground arith),
                          )
                          refl)
                  ]
            ]
    ]
