-- ===== src/Cc/Stable.antt =====
-- Properties of the state of cc/asm.c that its steps keep, whatever they assemble.
pub mod Instructions
pub mod Directives
pub mod Lines
use sandbox_stack.Prelude.{
  ℕ, ◌≤◌, ◌≡◌, Bool, true, List, [], ◌∷◌, ◌++◌, none, length, if◌then◌else◌,
}
use sandbox_stack.Prelude.Int.{ℤ}
use sandbox_stack.Cc.Asm.{Asm, Name, emit8, emits, add_fixup}
use sandbox_stack.Cc.Elf.{lookup}
use sandbox_stack.Cc.Lines.{here}

-- The property is kept by bytes, by a fixup with at least the bytes that it covers, by a move to
-- another section or on in `.bss`, and by a new symbol.
pub record IsStable (P : Asm → Type 0) : Type 0 where
  pub bytes : (xs : List ℕ) (s : Asm) → P s → P (emits xs s)
  pub covered :
      (name : Name) (addend : ℤ) (abs64 : Bool) (bs : List ℕ) (s : Asm)
      → (if abs64 then 8 else 4) ≤ length bs
      → P s
      → P (emits bs (add_fixup name addend abs64 s))
  pub moves :
      (in_text cur_bss : Bool) (n : ℕ) (s : Asm)
      → s.bss_len ≤ n
      → P s
      → P (record s { in_text = in_text; cur_bss = cur_bss; bss_len = n })
  pub symbol :
      (name : Name) (s : Asm)
      → lookup name s.syms ≡ none
      → P s
      → P (record s { syms = s.syms ++ ((name, here s) ∷ []) })

module _ {P : Asm → Type 0} (stable : IsStable P) where
  -- One byte
  pub byte : (v : ℕ) (s : Asm) → P s → P (emit8 v s)
  unfolding emits
  byte v s h = stable.bytes (v ∷ []) s h

-- Two stable properties together
pub both-IsStable : {P Q : Asm → Type 0} → IsStable P → IsStable Q → IsStable (λ s. P s × Q s)
both-IsStable p q = record {
  bytes = λ xs s h. (p.bytes xs s h.0, q.bytes xs s h.1);
  covered = λ name addend abs64 bs s room h.
      (p.covered name addend abs64 bs s room h.0, q.covered name addend abs64 bs s room h.1);
  moves = λ in_text cur_bss n s up h.
      (p.moves in_text cur_bss n s up h.0, q.moves in_text cur_bss n s up h.1);
  symbol = λ name s new h. (p.symbol name s new h.0, q.symbol name s new h.1);
}
