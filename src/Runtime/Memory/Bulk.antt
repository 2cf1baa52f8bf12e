-- ===== src/Runtime/Memory/Bulk.antt =====
-- The operations of the runtime header on ranges of linear memory: each stays inside, and what it leaves.
use sandbox_stack.Prelude.{ℕ, ◌+◌, ◌-◌, ◌%◌, ◌^◌, ◌≤◌, ◌<◌, true, false}
use sandbox_stack.Prelude.{◌≡◌, ◌⊎◌, ltb, length, arith, List, take, drop}
use sandbox_stack.Prelude.{
  get_or, le→leb, length-slice, get_or-slice, length-take, get_or-take, if◌then◌else◌, inl, inr,
}
use sandbox_stack.Bytes.Laws.{inside, memmove-at, memset-at, memcpy_in-at}
use sandbox_stack.Bytes.{Store, memmove, memset, memcpy_in}
use sandbox_stack.Runtime.{done, trapped, out_of_bounds_memory}
use sandbox_stack.Runtime.Memory.{Memory, Arena, u32_mod}
use sandbox_stack.Runtime.Memory.{memory_copy}
use sandbox_stack.Runtime.Memory.{memory_fill, memory_init, load_data}
use sandbox_stack.Runtime.Memory.Laws.{IsValid, check_lem}

-- On valid memories and 32-bit arguments `wasmMemoryCopy` is done exactly when both ranges are
-- inside, and then moves the source's bytes as they were before the call, overlapping or not; every
-- other byte stays. Otherwise it traps.
pub memory_copy_lem :
    (d s : Memory) (a : Arena) (da sa n : ℕ)
    → IsValid d a
    → IsValid s a
    → da < u32_mod
    → sa < u32_mod
    → n < u32_mod
    → ((da + n ≤ d.size)
        × (sa + n ≤ s.size)
        × ((c : Store) × (memory_copy d s a da sa n ≡ done (record a { cell = c }))
            × ((j : ℕ) → c j ≡ (if inside da n j then a.cell (sa + (j - da)) else a.cell j))))
      ⊎ ((d.size < da + n) ⊎ (s.size < sa + n))
        × (memory_copy d s a da sa n ≡ trapped out_of_bounds_memory)
unfolding memory_copy
memory_copy_lem d s a da sa n vd vs hd hs hn = elim (check_lem d a da n vd hd hn) [
  | inr (out, c) ↦ inr (inl out, rw c)
  | inl (fits, c, x) ↦ elim (check_lem s a sa n vs hs hn) [
    | inr (out, c') ↦ inr (inr out, rw (c, c'))
    | inl (fits', c', x') ↦
        inl (
          fits,
          fits',
          (memmove da sa n a.cell, rw (c, c', x, x'), λ j. memmove-at da sa n j a.cell),
        )
  ]
]

-- On a valid memory and a 32-bit range `wasmMemoryFill` is done exactly when the range is inside,
-- and sets its bytes to the low byte of the value; every other byte stays. Otherwise it traps.
pub memory_fill_lem :
    (m : Memory) (a : Arena) (da v n : ℕ)
    → IsValid m a
    → da < u32_mod
    → n < u32_mod
    → ((da + n ≤ m.size)
        × ((c : Store) × (memory_fill m a da v n ≡ done (record a { cell = c }))
            × ((j : ℕ) → c j ≡ (if inside da n j then v % 256 else a.cell j))))
      ⊎ (m.size < da + n) × (memory_fill m a da v n ≡ trapped out_of_bounds_memory)
unfolding memory_fill
memory_fill_lem m a da v n vm hd hn = elim (check_lem m a da n vm hd hn) [
  | inr (out, c) ↦ inr (out, rw c)
  | inl (fits, c, x) ↦ inl (fits, (memset da v n a.cell, rw (c, x), λ j. memset-at n da v j a.cell))
]

range_test :
    (src n len : ℕ)
    → src < u32_mod
    → n < u32_mod
    → ((src + n ≤ len) × (ltb len ((src + n) % 2 ^ 64) ≡ false))
      ⊎ (len < src + n) × (ltb len ((src + n) % 2 ^ 64) ≡ true)
range_test src n len hs hn = ground arith

-- On a valid memory, 32-bit arguments and a segment whose recorded length does not pass its array,
-- `wasm_memory_init` is done exactly when the source range is inside that length and the
-- destination inside the memory; it then copies those bytes of the segment, and every other byte
-- stays. Otherwise it traps.
pub memory_init_lem :
    (m : Memory) (a : Arena) (dest : ℕ) (seg : List ℕ) (seg_len src n : ℕ)
    → IsValid m a
    → dest < u32_mod
    → src < u32_mod
    → n < u32_mod
    → seg_len ≤ length seg
    → ((src + n ≤ seg_len)
        × (dest + n ≤ m.size)
        × ((c : Store) × (memory_init m a dest seg seg_len src n ≡ done (record a { cell = c }))
            × ((j : ℕ)
                → c j ≡ (if inside dest n j then get_or seg (src + (j - dest)) 0 else a.cell j))))
      ⊎ ((seg_len < src + n) ⊎ (m.size < dest + n))
        × (memory_init m a dest seg seg_len src n ≡ trapped out_of_bounds_memory)
unfolding memory_init
memory_init_lem m a dest seg seg_len src n vm hd hs hn hseg =
    elim (range_test src n seg_len hs hn) [
      | inr (out, t) ↦ inr (inl out, rw t)
      | inl (fits, t) ↦ elim (check_lem m a dest n vm hd hn) [
        | inr (out, c) ↦ inr (inr out, rw (t, c))
        | inl (fits', c, x) ↦ inl (
          fits,
          fits',
          (
            memcpy_in dest (take n (drop src seg)) a.cell,
            rw (t, c, x, le→leb (src + n) (length seg) (omega arith)),
            λ j. ground (
              arith,
              memcpy_in-at (take n (drop src seg)) dest j a.cell,
              length-slice n src seg,
              get_or-slice n src seg (j - dest) 0,
            ),
          ),
        )
      ]
    ]

-- On a valid memory and 32-bit arguments `LOAD_DATA` of the first `s` bytes of a segment that has
-- as many is done exactly when their destination is inside the memory, and copies them; every other
-- byte stays. Otherwise it traps.
pub load_data_lem :
    (m : Memory) (a : Arena) (o : ℕ) (i : List ℕ) (s : ℕ)
    → IsValid m a
    → o < u32_mod
    → s < u32_mod
    → s ≤ length i
    → ((o + s ≤ m.size)
        × ((c : Store) × (load_data m a o i s ≡ done (record a { cell = c }))
            × ((j : ℕ) → c j ≡ (if inside o s j then get_or i (j - o) 0 else a.cell j))))
      ⊎ (m.size < o + s) × (load_data m a o i s ≡ trapped out_of_bounds_memory)
unfolding load_data
load_data_lem m a o i s vm ho hs hi = elim (check_lem m a o s vm ho hs) [
  | inr (out, c) ↦ inr (out, rw c)
  | inl (fits, c, x) ↦ inl (
    fits,
    (
      memcpy_in o (take s i) a.cell,
      rw (c, x, le→leb s (length i) hi),
      λ j.
          ground
            (arith, memcpy_in-at (take s i) o j a.cell, length-take s i, get_or-take s i (j - o) 0),
    ),
  )
]
