-- ===== src/Cc/Lines/Align.antt =====
-- What the loop of .align in cc/asm.c leaves.
use sandbox_stack.Prelude.{
  ℕ, subst, bit_and, zero, suc, ◌+◌, ◌-◌, ◌*◌, ◌/◌, ◌%◌, ◌≤◌, ◌<◌, ◌≡◌, ◌⊎◌, inl, inr, refl, ap,
  sym, ◌∙◌, arith,
}
use sandbox_stack.Prelude.{true, false, Bool-cases, if◌then◌else◌, ◌==◌, length}
use native.Mathlib.Nat.{div-add-mod, mod-lt, mod_self, mod-eq_of_lt, add-mul-mod_self_left}
use sandbox_stack.Cc.Asm.{Asm, ok, current, emit8}
use sandbox_stack.Cc.Lines.{pad, align}
use sandbox_stack.Cc.Stable.Directives.{pad-Kept}
use sandbox_stack.Cc.Instr.Placed.{IsPlaced-IsStable, IsPlaced, emit8-Grows}

-- Counting on by one, modulo `a`.
suc-mod :
    (n a : ℕ)
    → 0 < a
    → (suc n % a ≡ 0) × (suc (n % a) ≡ a) ⊎ (suc n % a ≡ suc (n % a)) × (suc (n % a) < a)
suc-mod n a h =
    let whole : suc n ≡ suc (n % a) + a * (n / a) = omega (arith, div-add-mod n a) in
    let step : suc n % a ≡ suc (n % a) % a =
      ap (λ x. x % a) whole ∙ add-mul-mod_self_left (suc (n % a)) a (n / a) in
    elim (Bool-cases (suc (n % a) == a)) [
      | inl round ↦
          let full : suc (n % a) ≡ a = ground arith in
          inl (step ∙ ap (λ x. x % a) full ∙ mod_self a, full)
      | inr on ↦
          let low : suc (n % a) < a = ground (arith, mod-lt n h) in
          inr (step ∙ mod-eq_of_lt low, low)
    ]

-- One byte more, where the length is no multiple.
next_round :
    (fuel a n : ℕ)
    → 0 < a
    → n % a == 0 ≡ false
    → (n % a ≡ 0) ⊎ (a ≤ n % a + suc fuel)
    → (suc n % a ≡ 0) ⊎ (a ≤ suc n % a + fuel)
next_round fuel a n h more room = elim (suc-mod n a h) [
  | inl (full, e) ↦ inl full
  | inr (on, low) ↦ inr (ground arith)
]

-- The rest of the way is shorter by the byte.
next_left :
    (a n : ℕ)
    → 0 < a
    → n % a == 0 ≡ false
    → (m : ℕ) → m + suc n % a ≤ suc n + a
    → (suc n % a ≡ 0 → m ≡ suc n)
    → m + n % a ≤ n + a
next_left a n h more m left exact = elim (suc-mod n a h) [
  | inl (full, e) ↦ omega (arith, e, exact full)
  | inr (on, low) ↦ omega (arith, on, left)
]

-- `m` is the first multiple of `a` from `n` on.
pub NextMultiple : ℕ → ℕ → ℕ → Type 0
NextMultiple a n m = (m % a ≡ 0) × (n ≤ m) × (m < n + a)

-- What the loop leaves, with a bound that a round carries on
abbrev Padded : ℕ → ℕ → ℕ → Type 0
Padded a n m = (m % a ≡ 0) × (n ≤ m) × (m + n % a ≤ n + a) × (n % a ≡ 0 → m ≡ n)

Padded-suc : (a n n' m : ℕ) → 0 < a → n % a == 0 ≡ false → n' ≡ suc n → Padded a n' m → Padded a n m
Padded-suc a n n' m h more e =
    subst (λ k. Padded a k m → Padded a n m) (sym e)
      (λ (done, up, left, exact).
        (done, omega (arith, up), next_left a n h more m left exact, λ none. ground arith))

-- With a round for each missing byte, the length becomes the next multiple.
pad_loop :
    (fuel a : ℕ) (s : Asm)
    → 0 < a
    → (length (current s) % a ≡ 0) ⊎ (a ≤ length (current s) % a + fuel)
    → Padded a (length (current s)) (length (current (pad fuel a s)))
unfolding pad
pad_loop zero a s h (inl done) = (done, omega arith, omega (arith, done), λ e. refl)
pad_loop zero a s h (inr room) = absurd (omega (arith, room, mod-lt (length (current s)) h))
pad_loop (suc fuel) a s h room = elim (Bool-cases (length (current s) % a == 0)) [
  | inl done ↦
      let none : length (current s) % a ≡ 0 = ground arith in
      rw done (none, omega arith, omega (arith, none), λ e. refl)
  | inr more ↦
      let v : ℕ = if s.in_text then 0x90 else 0 in
      let (grown, one, at) = emit8-Grows v s in
      let left =
        subst (λ k. (k % a ≡ 0) ⊎ (a ≤ k % a + fuel)) (sym one)
          (next_round fuel a (length (current s)) h more room) in
      let rest = pad_loop fuel a (emit8 v s) h left in
      rw more (Padded-suc a (length (current s)) _ _ h more one rest)
]

-- For an alignment that passes the test for a power of two, outside `.bss`, the loop of `.align` ends
-- with the current section at the first multiple of the alignment from its old end on, and if the
-- fixups lay in their sections, one behind the other, they still do.
pub align_lem :
    (a : ℕ) (s : Asm)
    → 0 < a
    → bit_and a (a - 1) == 0 ≡ true
    → s.cur_bss ≡ false
    → (align a s ≡ ok (pad a a s))
      × NextMultiple a (length (current s)) (length (current (pad a a s)))
      × (IsPlaced s → IsPlaced (pad a a s))
unfolding align NextMultiple
align_lem a s h power other =
    let (done, up, left, exact) = pad_loop a a s h (inr (omega arith)) in
    (
      rw power (rw other refl),
      (done, up, ground (arith, left, exact)),
      pad-Kept IsPlaced-IsStable a a s,
    )
