-- ===== src/Cc/Asm/Bytes.antt =====
-- What the emitting functions of cc/asm.c leave in the current section.
use sandbox_stack.Prelude.{ℕ, zero, suc, ◌/◌, ◌%◌, ◌<◌, ◌≡◌, inl, inr, refl, ap, sym, ◌∙◌, arith}
use sandbox_stack.Prelude.{List, [], ◌∷◌, ◌++◌, All, Bool-cases}
use sandbox_stack.Cc.Asm.{Asm, Name, current, set_current, emit8, emits, add_fixup}
use sandbox_stack.Prelude.Int.{ℤ}
use sandbox_stack.Prelude.{Bool}
use sandbox_stack.Bytes.{bytes_of}
use mathlib.Core.List.{append_assoc, append-nil}
use native.Mathlib.Nat.{mod-eq_of_lt}

abbrev pub IsByte : ℕ → Type 0
IsByte x = x < 256

current-set_current : (xs : List ℕ) (s : Asm) → current (set_current xs s) ≡ xs
current-set_current xs s = elim (Bool-cases s.in_text) [
  | inl text ↦ rw text refl
  | inr other ↦ rw other refl
]

in_text-set_current : (xs : List ℕ) (s : Asm) → (set_current xs s).in_text ≡ s.in_text
in_text-set_current xs s = elim (Bool-cases s.in_text) [
  | inl text ↦ rw text refl
  | inr other ↦ rw other refl
]

pub current-emit8 : (v : ℕ) (s : Asm) → IsByte v → current (emit8 v s) ≡ current s ++ (v ∷ [])
current-emit8 v s h =
    current-set_current (current s ++ ((v % 256) ∷ [])) s
    ∙ ap (λ x. current s ++ (x ∷ [])) (mod-eq_of_lt h)

pub current-emits : (xs : List ℕ) (s : Asm) → All IsByte xs → current (emits xs s) ≡ current s ++ xs
unfolding emits
current-emits [] s h = sym (append-nil (current s))
current-emits (x ∷ xs) s h =
    current-emits xs (emit8 x s) h.1
    ∙ ap (λ t. t ++ xs) (current-emit8 x s h.0)
    ∙ append_assoc (current s) (x ∷ []) xs

pub current-add_fixup :
    (name : Name) (addend : ℤ) (abs64 : Bool) (s : Asm)
    → current (add_fixup name addend abs64 s) ≡ current s
unfolding add_fixup
current-add_fixup name addend abs64 s = refl

pub bytes_of-IsByte : (n w : ℕ) → All IsByte (bytes_of n w)
unfolding bytes_of
bytes_of-IsByte zero w = tt
bytes_of-IsByte (suc n) w = (omega arith, bytes_of-IsByte n (w / 256))
