-- ===== src/Libc/Alloc.antt =====
-- The bump allocator of libc/libc.c over linear memory. `size_t` is 32 bits; the wasm memory
-- instructions are the runtime header's, as the translator emits them.
pub mod Laws
pub mod Loops
pub mod Resize
pub mod Wrap
use sandbox_stack.Prelude.{
  ℕ, zero, suc, ◌+◌, ◌-◌, ◌*◌, ◌/◌, ◌%◌, ◌^◌, ◌&&◌, not, ltb, leb, ◌==◌, if◌then◌else◌, length,
}
use sandbox_stack.Bytes.{Store, update, memcpy_in, memcpy_out, bytes_of, number_of}
use sandbox_stack.Runtime.{Outcome, done, ◌>>=◌, ◌>>◌}
use sandbox_stack.Runtime.Memory.{Memory, u32_mod, memory_grow, check}

-- `heap_top`, the memory and its bytes, as the guest sees them.
pub record Heap : Type 0 where
  pub heap_top : ℕ
  pub memory : Memory
  pub cell : Store

-- `(x + 15) & ~(size_t)15`
abbrev pub round_up : ℕ → ℕ
round_up x = (x + 15) % u32_mod / 16 * 16

-- The growth that `malloc` asks for when `top` passes the memory's end, and whether it got it.
unfoldable pub reserve : Memory → ℕ → ℕ × Memory
reserve m top =
    let end = m.pages * 65536 % u32_mod in
    let need = (top - end + 65535) % u32_mod / 65536 in
    if ltb end top then memory_grow m need else (0, m)

-- What the stores at the end of `malloc` leave: the block's header holds its size.
abbrev pub stored : Heap → Memory → ℕ → ℕ → ℕ → Heap
stored h m cur n top = record {
  heap_top = top;
  memory = m;
  cell = memcpy_in cur (bytes_of 4 n) h.cell;
}

-- The end of `malloc`: the store of the header traps outside the memory.
abbrev pub placed : Heap → Memory → ℕ → ℕ → ℕ → Outcome (ℕ × Heap)
placed h m cur n top = check m cur 4 >> done ((cur + 16) % u32_mod, stored h m cur n top)

-- The guest's `memset`: each byte is one store, and addresses have 32 bits.
unfoldable pub fill : Memory → ℕ → ℕ → ℕ → Store → Outcome Store
unfolding check update
fill m x v zero c = done c
fill m x v (suc n) c = check m x 1 >> fill m ((x + 1) % u32_mod) v n (update c x (v % 256))

-- The guest's `memcpy`, in the same way
unfoldable pub copy : Memory → ℕ → ℕ → ℕ → Store → Outcome Store
unfolding check update
copy m x y zero c = done c
copy m x y (suc n) c =
    check m y 1
    >> (check m x 1 >> copy m ((x + 1) % u32_mod) ((y + 1) % u32_mod) n (update c x (c y)))

-- A pointer, with the bytes that a loop leaves
abbrev pub with_cell : ℕ → Heap → Store → Outcome (ℕ × Heap)
with_cell p h c = done (p, record h { cell = c })

-- `if (p) memset(p, 0, n * m); return p;`
abbrev pub cleared : ℕ → ℕ × Heap → Outcome (ℕ × Heap)
cleared total (p, h) =
    if p == 0 then done (0, h) else (fill h.memory p 0 total h.cell >>= with_cell p h)

-- `if (q) memcpy(q, p, old); return q;`
abbrev pub moved : ℕ → ℕ → ℕ × Heap → Outcome (ℕ × Heap)
moved p old (q, h) =
    if q == 0 then done (0, h) else (copy h.memory q p old h.cell >>= with_cell q h)

-- `(char*)p - 16`
abbrev pub header_at : ℕ → ℕ
header_at p = (p + (u32_mod - 16)) % u32_mod

-- `malloc`; the null pointer is 0.
module _ (heap_base : ℕ) where
  -- the first two lines: where the next block's header goes
  abbrev pub heap_end : Heap → ℕ
  heap_end h = if h.heap_top == 0 then round_up heap_base else h.heap_top

  unfoldable pub malloc : ℕ → Heap → Outcome (ℕ × Heap)
  unfolding reserve check
  malloc bytes h =
      let cur = heap_end h in
      let started = record h { heap_top = cur } in
      let n = round_up bytes in
      let top = (cur + 16 + n) % u32_mod in
      let (grown, m) = reserve h.memory top in
      if ltb top cur
      then done (0, started)
      else if grown == u32_mod - 1
      then done (0, record started { memory = m })
      else placed h m cur n top

  -- `calloc`
  unfoldable pub calloc : ℕ → ℕ → Heap → Outcome (ℕ × Heap)
  unfolding fill
  calloc n m h =
      let total = n * m % u32_mod in
      if not (m == 0) && ltb ((u32_mod - 1) / m) n
      then done (0, h)
      else (malloc total h >>= cleared total)

  -- `*(size_t*)((char*)p - 16)`
  abbrev pub header : Heap → ℕ → ℕ
  header h p = number_of (memcpy_out (header_at p) 4 h.cell)

  -- `realloc`
  unfoldable pub realloc : ℕ → ℕ → Heap → Outcome (ℕ × Heap)
  unfolding copy check
  realloc p n h =
      let old = header h p in
      if p == 0
      then malloc n h
      else (check h.memory (header_at p) 4
          >> (if leb n old then done (p, h) else (malloc n h >>= moved p old)))
