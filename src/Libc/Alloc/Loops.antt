-- ===== src/Libc/Alloc/Loops.antt =====
-- The byte loops of libc/libc.c inside the guest's memory, and at its end.
use sandbox_stack.Prelude.{
  ℕ, zero, suc, ◌+◌, ◌%◌, ◌≤◌, ◌<◌, ◌≡◌, inl, inr, refl, arith, ltb, Bool-cases,
}
use sandbox_stack.Bytes.{Store, memset, copy_forward}
use sandbox_stack.Runtime.{done, trapped, out_of_bounds_memory}
use sandbox_stack.Runtime.Memory.{Memory, u32_mod, check}
use sandbox_stack.Libc.Alloc.{fill, copy}

-- An access inside the memory
pub check_inside :
    (m : Memory) (x n : ℕ) → m.size < u32_mod → x + n ≤ m.size → check m x n ≡ done tt
unfolding check
check_inside m x n small h = ground arith

-- An access that is not inside
pub check_outside :
    (m : Memory) (x n : ℕ)
    → x < u32_mod
    → n < u32_mod
    → m.size < x + n
    → check m x n ≡ trapped out_of_bounds_memory
unfolding check
check_outside m x n hx hn h = ground arith

pub fill_inside :
    (n : ℕ) (m : Memory) (x v : ℕ) (c : Store)
    → m.size < u32_mod
    → x + n ≤ m.size
    → fill m x v n c ≡ done (memset x v n c)
unfolding fill memset
fill_inside zero m x v c small h = refl
fill_inside (suc n) m x v c small h =
    let next : (x + 1) % u32_mod ≡ x + 1 = omega arith in
    rw (check_inside m x 1 small (omega arith), next)
      (fill_inside n m (x + 1) v _ small (omega arith))

-- `memset` of bytes that are not all inside traps.
pub fill_outside :
    (n : ℕ) (m : Memory) (x v : ℕ) (c : Store)
    → m.size < u32_mod
    → x < u32_mod
    → 0 < n
    → m.size < x + n
    → fill m x v n c ≡ trapped out_of_bounds_memory
unfolding fill
fill_outside zero m x v c small hx some_bytes h = absurd (omega arith)
fill_outside (suc n) m x v c small hx some_bytes h = elim (Bool-cases (ltb x m.size)) [
  | inl in_memory ↦
      let below : x < m.size = ground arith in
      let next : (x + 1) % u32_mod ≡ x + 1 = omega arith in
      rw (check_inside m x 1 small (omega arith), next)
        (fill_outside n m (x + 1) v _ small (omega arith) (omega arith) (omega arith))
  | inr beyond ↦
      let out : m.size < x + 1 = ground arith in rw (check_outside m x 1 hx (omega arith) out) refl
]

pub copy_inside :
    (n : ℕ) (m : Memory) (x y : ℕ) (c : Store)
    → m.size < u32_mod
    → x + n ≤ m.size
    → y + n ≤ m.size
    → copy m x y n c ≡ done (copy_forward n x y c)
unfolding copy copy_forward
copy_inside zero m x y c small hx hy = refl
copy_inside (suc n) m x y c small hx hy =
    let x_next : (x + 1) % u32_mod ≡ x + 1 = omega arith in
    let y_next : (y + 1) % u32_mod ≡ y + 1 = omega arith in
    rw
      (
        check_inside m y 1 small (omega arith),
        check_inside m x 1 small (omega arith),
        x_next,
        y_next,
      )
      (copy_inside n m (x + 1) (y + 1) _ small (omega arith) (omega arith))
