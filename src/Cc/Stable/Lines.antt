-- ===== src/Cc/Stable/Lines.antt =====
-- The lines of cc/asm.c keep every stable property.
use sandbox_stack.Prelude.{
  ℕ, ◌+◌, ◌^◌, ◌≤◌, inl, inr, arith, Bool-cases, length, not, ◌&&◌, ◌==◌, ltb, leb, get_or,
}
use sandbox_stack.Prelude.{List, [], ◌∷◌, Option, some, none}
use sandbox_stack.Cc.Asm.{
  Asm, Name, Result, bad_label, int_overflow, section_overflow, instruction_in_bss,
}
use sandbox_stack.Cc.Instr.Choose.{at}
use sandbox_stack.Cc.Instr.Encodable.{
  Returns, returned, failed, Returns-bind, Returns-if, Returns-require, any,
}
use sandbox_stack.Cc.Lines.{Clib, trim, is_empty}
use sandbox_stack.Cc.Syntax.{cut, pieces, operands, first_text, instruction_text}
use sandbox_stack.Cc.Assemble.{
  Assembly, defining, each, lines, define_numeric, define_label, within_cap, first_word, statement,
  labelled, are_label_letters, assemble_line, assemble_pieces, beginning, assemble,
}
use sandbox_stack.Cc.Stable.{IsStable}
use sandbox_stack.Cc.Stable.Instructions.{instruction-Returns}
use sandbox_stack.Cc.Stable.Directives.{define_sym-Returns, directive-Returns}

-- Both sections have the bytes that `cap` counts to.
abbrev pub InLimits : Asm → Type 0
InLimits s = (length s.text ≤ 2 ^ 30) × (length s.data_bytes ≤ 2 ^ 30)

each-Kept :
    {Q : Assembly → Type 0} (step : Name → Assembly → Result Assembly)
    → ((p : Name) (t : Assembly) → Q t → Returns Q (step p t))
    → (ps : List Name) (t : Assembly) → Q t
    → Returns Q (each step ps t)
unfolding each
each-Kept step keeps [] t h = returned t h
each-Kept step keeps (p ∷ ps) t h =
    Returns-bind (keeps p t h) λ t' h'. each-Kept step keeps ps t' h'

module _ {P : Asm → Type 0} (stable : IsStable P) (lib : Clib) where
  abbrev Kept : Result Assembly → Type 0
  Kept r = Returns (λ t. P t.asm) r

  defining-Kept : (counts : List ℕ) (r : Result Asm) → Returns P r → Kept (defining counts r)
  defining-Kept counts r h = Returns-bind h λ s hs. returned _ hs

  define_numeric-Kept : (n : ℕ) (t : Assembly) → P t.asm → Kept (define_numeric lib n t)
  unfolding define_numeric
  define_numeric-Kept n t h =
      Returns-require (ltb (get_or t.counts n 0 + 1) (2 ^ 31)) int_overflow
        (defining-Kept _ _ (define_sym-Returns stable _ t.asm h))

  define_label-Kept : (name : Name) (t : Assembly) → P t.asm → Kept (define_label lib name t)
  unfolding define_label
  define_label-Kept name t h =
      Returns-if (lib.is_digit (at name 0))
        (Returns-if (at name 1 == 0) (define_numeric-Kept _ t h) (failed bad_label))
        (defining-Kept _ _ (define_sym-Returns stable name t.asm h))

  instruction_text-Returns :
      (counts : List ℕ) (mn rest : Name) (s : Asm)
      → P s
      → Returns P (instruction_text lib counts mn rest s)
  unfolding instruction_text
  instruction_text-Returns counts mn rest s h =
      Returns-bind (any (operands lib counts rest))
        λ ops _. instruction-Returns stable mn (first_text lib rest) ops s h

  statement-Kept : (s : Name) (t : Assembly) → P t.asm → Kept (statement lib s t)
  unfolding statement
  statement-Kept s t h =
      let (word, rest) = first_word lib s in
      Returns-if (at word 0 == b'.')
        (defining-Kept _ _ (directive-Returns stable lib word rest t.asm h))
        (Returns-if t.asm.cur_bss (failed instruction_in_bss)
          (defining-Kept _ _ (instruction_text-Returns t.counts word rest t.asm h)))

  labelled-Kept :
      (s : Name) (halves : Name × Option Name) (t : Assembly)
      → P t.asm
      → Kept (labelled lib s halves t)
  labelled-Kept s (before, none) t h = statement-Kept s t h
  labelled-Kept s (before, some behind) t h =
      Returns-if (are_label_letters lib before && not (is_empty lib before))
        (Returns-bind (define_label-Kept before t h) λ t' h'.
          Returns-if (is_empty lib (trim lib behind)) (returned t' h')
            (statement-Kept (trim lib behind) t' h'))
        (statement-Kept s t h)

  abbrev Limited : Assembly → Type 0
  Limited t = P t.asm × InLimits t.asm

  within_cap-Limited : (t : Assembly) → P t.asm → Returns Limited (within_cap lib t)
  within_cap-Limited t h =
      let fits = leb (length t.asm.text) (2 ^ 30) && leb (length t.asm.data_bytes) (2 ^ 30) in
      elim (Bool-cases fits) [
        | inl small ↦ rw small (returned t (h, (ground arith, ground arith)))
        | inr large ↦ rw large (failed section_overflow)
      ]

  assemble_line-Limited :
      (line : Name) (t : Assembly) → Limited t → Returns Limited (assemble_line lib line t)
  unfolding assemble_line
  assemble_line-Limited line t (h, small) =
      let s = trim lib (cut b'#' line).0 in
      Returns-bind (Returns-if (is_empty lib s) (returned t h) (labelled-Kept s (cut b':' s) t h))
        within_cap-Limited

  pub assemble-Returns :
      (text : Name)
      → P (beginning lib).asm
      → Returns (λ t. P t.asm × InLimits t.asm) (assemble lib text)
  unfolding assemble
  assemble-Returns text h =
      each-Kept (assemble_pieces lib)
        (λ line t k. each-Kept (assemble_line lib) assemble_line-Limited (pieces b';' line) t k)
        (lines text) (beginning lib) (h, (omega arith, omega arith))
