-- ===== src/Cc/Syntax/Parsed.antt =====
-- What cc/asm.c parses as an operand has the sizes that the choice of an encoding relies on.
use sandbox_stack.Prelude.{ℕ, zero, suc, ◌-◌, ◌≡◌, refl, arith, All}
use sandbox_stack.Prelude.{Bool, true, not, ◌&&◌, ◌||◌, ◌==◌, codes, get_or}
use sandbox_stack.Prelude.{List, [], ◌∷◌, Option, some, none}
use sandbox_stack.Cc.Asm.{Name, Op, Result, is_minus_one, o_mem}
use sandbox_stack.Cc.Asm.{
  unknown_register, bad_operand, bad_number, too_many_operands, undefined_numeric_label,
}
use sandbox_stack.Cc.Instr.{named, is_general}
use sandbox_stack.Cc.Instr.Choose.{at}
use sandbox_stack.Cc.Instr.Encodable.{
  Returns, returned, failed, Returns-bind, Returns-if, Returns-require, any, IsOperand,
}
use sandbox_stack.Cc.Instr.Whole.{IsOperands}
use sandbox_stack.Cc.Lines.{Clib, trim, is_empty}
use sandbox_stack.Cc.Syntax.{
  cut, has_any, before_text, pieces, empty_op, regs, find_reg, parse_reg, tail, reg_or_empty,
  read_immediate, immediate, symbolic, displacement, based, is_numeric, numeric, label_or_register,
  memory_or_label, parse_op, parse_trimmed, parse_ops, operands,
}

abbrev IsSizedRow : Name × Op → Type 0
IsSizedRow r = IsOperand r.1

-- The same as a test
are_sized : List (Name × Op) → Bool
are_sized [] = true
are_sized ((name, o) ∷ rest) =
    (not (is_general o) || (o.size == 1 || o.size == 2 || o.size == 4 || o.size == 8))
    && are_sized rest

are_sized-All : (rows : List (Name × Op)) → are_sized rows ≡ true → All IsSizedRow rows
unfolding are_sized
are_sized-All [] h = tt
are_sized-All ((name, o) ∷ rest) h = ((λ general. ground arith), are_sized-All rest (ground arith))

regs-IsSizedRow : All IsSizedRow regs
unfolding regs are_sized
regs-IsSizedRow = are_sized-All regs refl

find_reg-IsOperand :
    (s : Name) (rows : List (Name × Op)) → All IsSizedRow rows → Returns IsOperand (find_reg s rows)
find_reg-IsOperand s [] h = failed unknown_register
find_reg-IsOperand s ((name, o) ∷ rest) h =
    Returns-if (named name s) (returned o h.0) (find_reg-IsOperand s rest h.1)

-- A result that is such an operand, if it is one
abbrev Parsed : Result Op → Type 0
Parsed r = Returns IsOperand r

parse_reg-IsOperand : (s : Name) → Parsed (parse_reg s)
unfolding parse_reg
parse_reg-IsOperand s = find_reg-IsOperand s regs regs-IsSizedRow

reg_or_empty-IsOperand : (s : Name) → Parsed (reg_or_empty s)
reg_or_empty-IsOperand [] = returned _ (λ h. cc)
reg_or_empty-IsOperand (c ∷ s) =
    Returns-if (c == b'%') (parse_reg-IsOperand s) (returned _ (λ h. cc))

module _ (lib : Clib) where
  immediate-IsOperand : (s : Name) → Parsed (immediate lib s)
  unfolding immediate
  immediate-IsOperand s =
      let (v, left, overflow) = read_immediate lib s in
      Returns-require (is_empty lib left && not overflow) bad_number (returned _ (λ h. cc))

  symbolic-IsOperand :
      (name : Option Name) (s : Name) (o : Op) → IsOperand o → Parsed (symbolic lib name s o)
  symbolic-IsOperand (some name) s o h =
      Returns-require (not (has_any (codes "+-@ ") name)) bad_operand (returned _ h)
  symbolic-IsOperand none s o h =
      Returns-require (not (has_any (codes "+-@ ") s)) bad_operand (returned _ h)

  displacement-IsOperand : (s : Name) (o : Op) → IsOperand o → Parsed (displacement lib s o)
  unfolding displacement
  displacement-IsOperand s o h =
      let (v, left, overflow) = lib.strtoll_10 s in
      Returns-if (is_empty lib s) (returned o h) (
        Returns-if (at s 0 == b'-' || lib.is_digit (at s 0))
          (Returns-require (is_empty lib left) bad_number (returned _ h))
          (Returns-require (is_minus_one o.base) bad_operand
            (symbolic-IsOperand (before_text (codes "@GOTPCREL") s) s o h)))

  based-IsOperand : (before : Name) (halves : Name × Option Name) → Parsed (based lib before halves)
  based-IsOperand before (inner, none) = failed bad_operand
  based-IsOperand before (inner, some behind) = Returns-require (is_empty lib behind) bad_operand (
      Returns-require (not (has_any (codes ",") inner)) bad_operand (
        Returns-bind (any (reg_or_empty inner)) λ b _.
          displacement-IsOperand (trim lib before) (record empty_op { kind = o_mem; base = b.reg })
            (λ h. cc)))

  numeric-IsOperand : (counts : List ℕ) (s : Name) → Parsed (numeric lib counts s)
  unfolding numeric
  numeric-IsOperand counts s = Returns-if (at s 1 == b'f') (returned _ (λ h. cc)) (
      Returns-require (not (get_or counts (at s 0 - 48) 0 == 0)) undefined_numeric_label
        (returned _ (λ h. cc)))

  label_or_register-IsOperand : (s : Name) → Parsed (label_or_register lib s)
  unfolding label_or_register
  label_or_register-IsOperand s = Returns-require (not (has_any (codes "+-@ ()") s)) bad_operand (
      Returns-if (at s 0 == b'*')
        (Returns-require (at s 1 == b'%') bad_operand (reg_or_empty-IsOperand (tail s)))
        (returned _ (λ h. cc)))

  memory_or_label-IsOperand :
      (counts : List ℕ) (s : Name) (halves : Name × Option Name)
      → Parsed (memory_or_label lib counts s halves)
  memory_or_label-IsOperand counts s (before, some behind) =
      based-IsOperand before (cut b')' behind)
  memory_or_label-IsOperand counts s (before, none) =
      Returns-if (is_numeric lib s) (numeric-IsOperand counts s) (label_or_register-IsOperand s)

  parse_op-IsOperand : (counts : List ℕ) (s : Name) → Parsed (parse_op lib counts s)
  unfolding parse_op parse_trimmed
  parse_op-IsOperand counts s =
      let t = trim lib s in
      Returns-if (at t 0 == b'%') (parse_reg-IsOperand (tail t)) (
        Returns-if (at t 0 == b'$') (immediate-IsOperand (tail t))
          (memory_or_label-IsOperand counts t (cut b'(' t)))

  parse_ops-IsOperands :
      (counts : List ℕ) (n : ℕ) (ps : List Name) → Returns IsOperands (parse_ops lib counts n ps)
  unfolding parse_ops
  parse_ops-IsOperands counts n [] = returned [] tt
  parse_ops-IsOperands counts zero (p ∷ ps) = failed too_many_operands
  parse_ops-IsOperands counts (suc n) (p ∷ ps) =
      Returns-bind (parse_op-IsOperand counts p) λ o ho.
        Returns-bind (parse_ops-IsOperands counts n ps) λ os hos. returned (o ∷ os) (ho, hos)

  pub operands-IsOperands :
      (counts : List ℕ) (rest : Name) → Returns IsOperands (operands lib counts rest)
  unfolding operands
  operands-IsOperands counts rest =
      Returns-if (is_empty lib rest) (returned [] tt)
        (parse_ops-IsOperands counts 3 (pieces b',' rest))
