-- ===== src/Libc/Alloc/Resize.antt =====
-- `calloc` and `realloc` of libc/libc.c.
use sandbox_stack.Prelude.{
  ℕ, zero, suc, ◌+◌, ◌-◌, ◌*◌, ◌/◌, ◌≤◌, ◌<◌, ◌≡◌, ◌≢◌, ◌⊎◌, inl, inr, refl, ap, ◌∙◌, true, false,
  arith,
}
use sandbox_stack.Prelude.{ltb, ltb→lt, leb, not, ◌&&◌, ◌==◌, if◌then◌else◌, Bool-cases}
use sandbox_stack.Bytes.{Store, update, memset, copy_forward}
use sandbox_stack.Bytes.Laws.{inside, memset-at}
use sandbox_stack.Runtime.Memory.{Arena, u32_mod, check}
use sandbox_stack.Libc.Alloc.{
  Heap, round_up, heap_end, header, header_at, malloc, calloc, cleared, realloc,
}
use sandbox_stack.Libc.Alloc.Loops.{
  check_inside, check_outside, fill_inside, fill_outside, copy_inside,
}
use sandbox_stack.Runtime.{done, trapped, out_of_bounds_memory}
use sandbox_stack.Libc.Alloc.Laws.{IsHeap, IsBlock, malloc_lem, malloc-cases, size_small}
use native.Mathlib.Nat.{mod-eq_of_lt, div-add-mod', mod-lt}

-- The test of `calloc` refuses exactly the products that do not fit.
product_test :
    (n m : ℕ)
    → (u32_mod ≤ n * m) × ((not (m == 0) && ltb ((u32_mod - 1) / m) n) ≡ true)
      ⊎ (n * m < u32_mod) × ((not (m == 0) && ltb ((u32_mod - 1) / m) n) ≡ false)
product_test n zero = inr (omega arith, refl)
product_test n (suc m) =
    let q = (u32_mod - 1) / suc m in
    let split = div-add-mod' (u32_mod - 1) (suc m) in
    let rest = mod-lt (u32_mod - 1) {m = suc m} (omega arith) in
    elim (Bool-cases (ltb q n)) [
      | inl over ↦ inl (omega (arith, scale (suc q) n (suc m) (ltb→lt q n over)), ground arith)
      | inr fits ↦ inr (omega (arith, scale n q (suc m) (ground arith)), ground arith)
    ]
  where
    scale : (a b c : ℕ) → a ≤ b → a * c ≤ b * c
    scale a b c h = grind arith

-- The block of `malloc` is cleared where its bytes are inside the memory.
clears_lem :
    (p total : ℕ) (h : Heap)
    → p ≢ 0
    → h.memory.size < u32_mod
    → p + total ≤ h.memory.size
    → cleared total (p, h) ≡ done (p, record h { cell = memset p 0 total h.cell })
clears_lem p total h some_block small fits =
    let there : (p == 0) ≡ false = ground arith in
    rw (there, fill_inside total h.memory p 0 h.cell small fits) refl

-- What `calloc` gives for the product `total` that `malloc` has room for
abbrev pub Cleared : ℕ → ℕ → ℕ → ℕ → Heap → Type 0
Cleared heap_base total n m h =
    (p : ℕ) × (h' : Heap) × (malloc heap_base total h ≡ done (p, h'))
    × ((p ≡ 0) × (calloc heap_base n m h ≡ done (0, h'))
        ⊎ (c : Store) × (calloc heap_base n m h ≡ done (p, record h' { cell = c }))
          × ((j : ℕ) → c j ≡ (if inside p total j then 0 else h'.cell j)))

-- `calloc` of `n` objects of `m` bytes in a valid heap. It refuses, with the heap untouched, exactly the
-- products of 2^32 and more. For a product up to 2^32 - 32 it gives what `malloc` gives for it: null,
-- with the heap that `malloc` leaves, or its block with the bytes asked for set to 0 and no other
-- byte changed, and does not trap. For the products between, which `malloc` rounds and adds past
-- 2^32, it gives null or traps outside the memory, and never gives a block.
pub calloc_lem :
    (heap_base n m : ℕ) (a : Arena) (h : Heap)
    → IsHeap heap_base a h
    → (u32_mod ≤ n * m) × (calloc heap_base n m h ≡ done (0, h))
      ⊎ (n * m + 32 ≤ u32_mod) × Cleared heap_base (n * m) n m h
      ⊎ (u32_mod < n * m + 32)
        × (n * m < u32_mod)
        × ((calloc heap_base n m h ≡ trapped out_of_bounds_memory)
            ⊎ (h' : Heap) × (calloc heap_base n m h ≡ done (0, h')))
unfolding calloc
calloc_lem heap_base n m a h v = elim (product_test n m) [
  | inl (over, refused) ↦ inl (over, rw refused refl)
  | inr (fits, passed) ↦ elim (Bool-cases (leb (n * m + 32) u32_mod)) [
    | inl room ↦
        let small : n * m + 32 ≤ u32_mod = ground arith in
        let (p, h', got, v', cases) = malloc_lem heap_base (n * m) a h v small in
        inr (
          inl (
            small,
            elim cases [
              | inr (null, cells, end) ↦
                  (p, h', got, inl (null, rw (passed, mod-eq_of_lt fits, got, null) refl))
              | inl (holds, place, block, head) ↦
                  let limit : h'.memory.size < u32_mod =
                    omega (arith, size_small h'.memory a v'.valid) in
                  let some_block : p ≢ 0 = ground (arith, block.place) in
                  let whole : p + n * m ≤ h'.memory.size =
                    omega (arith, block.end, v'.inside, holds) in
                  (
                    p,
                    h',
                    got,
                    inr (
                      memset p 0 (n * m) h'.cell,
                      rw (passed, mod-eq_of_lt fits, got)
                          (clears_lem p (n * m) h' some_block limit whole),
                      λ j. memset-at (n * m) p 0 j h'.cell,
                    ),
                  )
            ],
          ))
    | inr wraps ↦
        let large : u32_mod < n * m + 32 = ground arith in
        inr (
          inr (
            large,
            fits,
            elim (malloc-cases heap_base (n * m) a h v) [
              | inl out ↦ inl (rw (passed, mod-eq_of_lt fits, out) refl)
              | inr (p, h', got, inl null) ↦
                  inr (h', rw (passed, mod-eq_of_lt fits, got, null) refl)
              | inr (p, h', got, inr (behind, below, valid)) ↦
                  let there : (p == 0) ≡ false = ground arith in
                  let end = size_small h'.memory a valid in
                  let traps =
                    fill_outside (n * m) h'.memory p 0 h'.cell (omega (arith, end)) below
                      (omega arith) (omega (arith, end)) in
                  inl (rw (passed, mod-eq_of_lt fits, got, there, traps) refl)
            ],
          ))
  ]
]

-- A forward copy to a place behind its source.
copy_forward_apart :
    (n x y j : ℕ) (c : Store)
    → y + n ≤ x
    → copy_forward n x y c j ≡ (if inside x n j then c (y + (j - x)) else c j)
unfolding copy_forward update
copy_forward_apart zero x y j c h = ground arith
copy_forward_apart (suc n) x y j c h =
    ground (arith, copy_forward_apart n (x + 1) (y + 1) j (update c x (c y)) (omega arith))

-- The copy of a lower block into the new block at the heap's end.
moved_lem :
    (heap_base size p q old : ℕ) (h h' : Heap)
    → IsBlock heap_base size q h h'
    → p + old ≤ heap_end heap_base h
    → ((j : ℕ)
        → j < old
        → copy_forward old q p h'.cell (heap_end heap_base h + 16 + j) ≡ h.cell (p + j))
      × ((j : ℕ) → j < heap_end heap_base h → copy_forward old q p h'.cell j ≡ h.cell j)
moved_lem heap_base size p q old h h' b below =
    let apart : p + old ≤ q = omega (arith, b.place) in
    (
      λ j small.
          let there : p + (heap_end heap_base h + 16 + j - q) ≡ p + j = omega (arith, b.place) in
          copy_forward_apart old q p (heap_end heap_base h + 16 + j) h'.cell apart
          ∙ ground (arith, ap h'.cell there, b.place)
          ∙ b.kept (p + j) (ground arith),
      λ j small.
          copy_forward_apart old q p j h'.cell apart
          ∙ ground (arith, b.place)
          ∙ b.kept j (ground arith),
    )

-- What `realloc` gives where the block `p` has to move
abbrev pub Moved : ℕ → ℕ → ℕ → Heap → Type 0
Moved heap_base p n h =
    (q : ℕ) × (h' : Heap) × (malloc heap_base n h ≡ done (q, h'))
    × ((q ≡ 0) × (realloc heap_base p n h ≡ done (0, h')) × (h'.cell ≡ h.cell)
        ⊎ (q ≡ heap_end heap_base h + 16)
          × ((c : Store) × (realloc heap_base p n h ≡ done (q, record h' { cell = c }))
              × ((j : ℕ) → j < header heap_base h p → c (q + j) ≡ h.cell (p + j))
              × ((j : ℕ) → j < heap_end heap_base h → c j ≡ h.cell j)))

-- The move, where the header can be read and says less than `n`
moves :
    (heap_base p n : ℕ) (a : Arena) (h : Heap)
    → IsHeap heap_base a h
    → p + header heap_base h p ≤ heap_end heap_base h
    → n + 32 ≤ u32_mod
    → (p == 0) ≡ false
    → check h.memory (header_at p) 4 ≡ done tt
    → leb n (header heap_base h p) ≡ false
    → Moved heap_base p n h
unfolding realloc
moves heap_base p n a h v below small there stands more =
    let old = header heap_base h p in
    let (q, h', got, v', cases) = malloc_lem heap_base n a h v small in
    elim cases [
      | inr (null, cells, _) ↦
          (q, h', got, inl (null, rw (there, stands, more, got, null) refl, cells))
      | inl (holds, _, block, _) ↦
          let some_block : (q == 0) ≡ false = ground (arith, block.place) in
          let limit : h'.memory.size < u32_mod = omega (arith, size_small h'.memory a v'.valid) in
          let larger : old < n = ground arith in
          let room : q + old ≤ h'.memory.size = omega (arith, block.end, v'.inside, holds) in
          let copies =
            copy_inside old h'.memory q p h'.cell limit room (omega (arith, block.place)) in
          let (new, kept) = moved_lem heap_base (round_up n) p q old h h' block below in
          (
            q,
            h',
            got,
            inr (
              block.place,
              (
                copy_forward old q p h'.cell,
                rw (there, stands, more, got, some_block, copies) refl,
                (λ j lt. ap (λ x. copy_forward old q p h'.cell (x + j)) block.place ∙ new j lt),
                kept,
              ),
            ),
          )
    ]

-- In a valid heap, for a pointer `p` that is not null, whose header holds `old`, with its `old` bytes
-- below the heap's end: for `p` below 16, which is no block, `realloc` traps. Else `realloc` to at
-- most `old` bytes gives the block back and changes nothing. To more, up to 2^32 - 32 bytes, it
-- gives what `malloc` gives and does not trap: null, with no byte changed; or a new block at the
-- heap's end that starts with the `old` bytes of `p`, while all bytes below the old end stay.
pub realloc_lem :
    (heap_base p n : ℕ) (a : Arena) (h : Heap)
    → IsHeap heap_base a h
    → p ≢ 0
    → p + header heap_base h p ≤ heap_end heap_base h
    → n + 32 ≤ u32_mod
    → (p < 16) × (realloc heap_base p n h ≡ trapped out_of_bounds_memory)
      ⊎ (n ≤ header heap_base h p) × (realloc heap_base p n h ≡ done (p, h))
      ⊎ (header heap_base h p < n) × Moved heap_base p n h
unfolding realloc
realloc_lem heap_base p n a h v some_block below small =
    let there : (p == 0) ≡ false = ground arith in
    let end = size_small h.memory a v.valid in
    elim (Bool-cases (ltb p 16)) [
      | inl low ↦
          let out =
            check_outside h.memory (header_at p) 4 (omega arith) (omega arith)
              (ground (arith, end)) in
          inl (ground arith, rw (there, out) refl)
      | inr behind ↦
          let first : 16 ≤ p = ground arith in
          let stands =
            check_inside h.memory (header_at p) 4 (omega (arith, end))
              (omega (arith, end, v.inside)) in
          elim (Bool-cases (leb n (header heap_base h p))) [
            | inl fits ↦ inr (inl (ground arith, rw (there, stands, fits) refl))
            | inr more ↦
                let larger : header heap_base h p < n = ground arith in
                inr (inr (larger, moves heap_base p n a h v below small there stands more))
          ]
    ]
