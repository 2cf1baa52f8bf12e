-- ===== src/Cc/Assemble/Inside.antt =====
-- The symbols that cc/asm.c defines lie in their sections.
use sandbox_stack.Prelude.{ℕ, ◌%◌, ◌≤◌, ◌≡◌, inl, inr, refl, sym, subst, ◌∙◌, arith}
use sandbox_stack.Prelude.{Bool, Bool-cases, ◌==◌, if◌then◌else◌, All, All-map, All-append}
use sandbox_stack.Prelude.{List, [], ◌∷◌, length, length-append}
use sandbox_stack.Prelude.Int.{ℤ}
use sandbox_stack.Cc.Asm.{Asm, Name, Sym, emit8, emits, add_fixup}
use sandbox_stack.Cc.Lines.{here}
use sandbox_stack.Cc.Stable.{IsStable}

-- The length of the text, the data or `.bss`
abbrev pub section_size : Asm → ℕ → ℕ
section_size s sec =
    if sec == 0 then length s.text else if sec == 1 then length s.data_bytes else s.bss_len

-- A symbol lies in its section, or at its end.
abbrev pub Within : Asm → Name × Sym → Type 0
Within s e = e.1.off ≤ section_size s e.1.sec

abbrev pub IsInside : Asm → Type 0
IsInside s = All (Within s) s.syms

-- The same symbols, and no section is shorter.
abbrev Larger : Asm → Asm → Type 0
Larger s t =
    (t.syms ≡ s.syms)
    × (length s.text ≤ length t.text)
    × (length s.data_bytes ≤ length t.data_bytes)
    × (s.bss_len ≤ t.bss_len)

Larger-Within : (s t : Asm) → Larger s t → (e : Name × Sym) → Within s e → Within t e
Larger-Within s t (same, text, other, bss) (name, u) h = ground arith

Larger-IsInside : (s t : Asm) → Larger s t → IsInside s → IsInside t
Larger-IsInside s t larger h =
    subst (All (Within t)) (sym larger.0)
      (All-map (Within s) (Within t) (Larger-Within s t larger) s.syms h)

emit8-Larger : (v : ℕ) (s : Asm) → Larger s (emit8 v s)
emit8-Larger v s = elim (Bool-cases s.in_text) [
  | inl text ↦
      rw text (refl, omega (arith, length-append s.text ((v % 256) ∷ [])), omega arith, omega arith)
  | inr other ↦
      rw other
        (refl, omega arith, omega (arith, length-append s.data_bytes ((v % 256) ∷ [])), omega arith)
]

emits-Larger : (xs : List ℕ) (s : Asm) → Larger s (emits xs s)
unfolding emits
emits-Larger [] s = (refl, omega arith, omega arith, omega arith)
emits-Larger (x ∷ xs) s =
    let (same1, text1, data1, bss1) = emit8-Larger x s in
    let (same2, text2, data2, bss2) = emits-Larger xs (emit8 x s) in
    (same2 ∙ same1, omega arith, omega arith, omega arith)

covered-Larger :
    (name : Name) (addend : ℤ) (abs64 : Bool) (bs : List ℕ) (s : Asm)
    → Larger s (emits bs (add_fixup name addend abs64 s))
unfolding add_fixup
covered-Larger name addend abs64 bs s = emits-Larger bs (add_fixup name addend abs64 s)

here-Within : (name : Name) (s : Asm) → Within s (name, here s)
here-Within name s = elim (Bool-cases s.cur_bss) [
  | inl bss ↦ rw bss (omega arith)
  | inr other ↦ ground arith
]

pub IsInside-IsStable : IsStable IsInside
IsInside-IsStable = record {
  bytes = λ xs s h. Larger-IsInside s (emits xs s) (emits-Larger xs s) h;
  covered = λ name addend abs64 bs s room h.
      Larger-IsInside s (emits bs (add_fixup name addend abs64 s))
        (covered-Larger name addend abs64 bs s) h;
  moves = λ in_text cur_bss n s up h.
      Larger-IsInside s (record s { in_text = in_text; cur_bss = cur_bss; bss_len = n })
        (refl, omega arith, omega arith, up) h;
  symbol =
      λ name s new h. All-append (Within s) s.syms ((name, here s) ∷ []) h (here-Within name s, tt);
}
