-- ===== src/Cc/Instr/Integer.antt =====
-- The integer instructions at the end of `instruction` in cc/asm.c, and the whole of it.
use sandbox_stack.Prelude.{ℕ, ◌+◌, ◌*◌, Bool, false, not, ◌&&◌, ◌||◌}
use sandbox_stack.Prelude.{
  List, [], ◌∷◌, ◌++◌, Option, none, some, length, leb, ltb, ◌==◌, if◌then◌else◌, codes,
}
use sandbox_stack.Prelude.Int.{ℤ, pos, negsuc}
use sandbox_stack.Cc.Asm.{Asm, Name, Op, Result, ok, stop, ◌>>=◌, ◌>>◌, require, low3, is_extended}
use sandbox_stack.Cc.Asm.{is_reg, is_imm, is_mem}
use sandbox_stack.Cc.Asm.{
  immediate_does_not_fit, bad_operands, unknown_instruction, unsupported, stem_overflow,
}
use sandbox_stack.Cc.Instr.{Out, plain, encoded, write, no_enc, named, op_size, op_size1}
use sandbox_stack.Cc.Instr.{set_size, need_rex_for, set_reg, set_rm, set_imm, set_group, same_width}
use sandbox_stack.Cc.Instr.{check_imm, alu, mov}
use sandbox_stack.Cc.Instr.Choose.{at, find, simple, no_operands}
use sandbox_stack.Cc.Instr.Dispatch.{
  Part, ◌or_else◌, when, with_two, takes_two, control, sse_two, extend, split_suffix,
}

-- The second operand, where there are two.
abbrev pub second : Option Op → ℕ → Option Op
second b n = if n == 2 then b else none

abbrev pub lea : Op → Op → Result Out
lea a b =
    require (is_mem a && is_reg b) bad_operands
    >> ok
        (encoded (record (simple (0x8D ∷ []) b.reg a) { w = b.size == 8; opsize16 = b.size == 2 }))

unfoldable pub test : Op → Op → ℕ → Result Out
test a b suffix = do
  require (is_reg a) bad_operands
  same_width a b
  size ← op_size a b suffix
  ok (encoded (need_rex_for b (set_rm b (set_reg a (set_size size 0x84 0x85 no_enc)))))

-- `push` and `pop`
abbrev pub push_pop : ℕ → Op → ℕ → Result Out
push_pop op a n =
    require (n == 1 && is_reg a && a.size == 8) bad_operands
    >> ok (plain ((if is_extended a.reg then 0x41 ∷ [] else []) ++ ((op + low3 a.reg) ∷ [])))

unfoldable pub imul : Op → Op → Result Out
imul a b = do
  require (is_reg b && not (b.size == 1) && (is_reg a || is_mem a)) bad_operands
  same_width a b
  ok (
      encoded
        (record (simple (0x0F ∷ 0xAF ∷ []) b.reg a) { w = b.size == 8; opsize16 = b.size == 2 }))

-- An operation on one operand: `not` to `idiv`, `inc` and `dec`, and a shift by one
unfoldable pub unary : ℕ → ℕ → ℕ → Op → ℕ → Result Out
unary op8 op g a suffix = do
  size ← op_size1 a suffix
  ok (encoded (need_rex_for a (set_rm a (set_group g (set_size size op8 op no_enc)))))

-- `a->imm >= size * 8`
abbrev pub too_large : ℕ → ℤ → Bool
too_large size (pos n) = leb (size * 8) n
too_large size (negsuc n) = false

abbrev pub is_one : ℤ → Bool
is_one (pos n) = n == 1
is_one (negsuc n) = false

-- A shift with two operands
unfoldable pub shift : ℕ → Op → Op → ℕ → Result Out
unfolding unary check_imm
shift g a dst suffix = do
  size ← op_size1 dst suffix
  if is_reg a && a.size == 1 && is_one a.reg
      then unary 0xD2 0xD3 g dst suffix
      else if is_imm a
      then (check_imm a.imm 8 false >>= λ v.
          require (not (too_large size a.imm)) immediate_does_not_fit
          >> ok (
              encoded (
                need_rex_for dst
                  (set_imm 1 v (set_rm dst (set_group g (set_size size 0xC0 0xC1 no_enc)))))))
      else stop bad_operands

-- Any other shift: the operand is sized, and with three operands it then fails.
abbrev pub shift_or_one : ℕ → Op → Option Op → ℕ → ℕ → Result Out
shift_or_one g a (some dst) n suffix = shift g a dst suffix
shift_or_one g a none n suffix =
    if n == 1 then unary 0xD0 0xD1 g a suffix else (op_size1 a suffix >>= λ size. stop bad_operands)

abbrev pub group1 : List (Name × ℕ)
group1 =
    (codes "add", 0)
    ∷ (codes "or", 1)
    ∷ (codes "and", 4)
    ∷ (codes "sub", 5)
    ∷ (codes "xor", 6)
    ∷ (codes "cmp", 7)
    ∷ []

abbrev pub group3 : List (Name × ℕ)
group3 =
    (codes "not", 2)
    ∷ (codes "neg", 3)
    ∷ (codes "mul", 4)
    ∷ (codes "imul", 5)
    ∷ (codes "div", 6)
    ∷ (codes "idiv", 7)
    ∷ []

abbrev pub shifts : List (Name × ℕ)
shifts = (codes "shl", 4) ∷ (codes "shr", 5) ∷ (codes "sar", 7) ∷ (codes "sal", 4) ∷ []

-- A part of a table of names.
abbrev pub by_table : Option ℕ → (ℕ → Result Out) → Part
by_table none f = none
by_table (some g) f = some (f g)

-- From `mov` on, with the suffix split off
unfoldable pub integer : Name → ℕ → Op → Option Op → ℕ → Result Out
unfolding alu mov test imul unary shift find
integer mn suffix a b n =
    when (named (codes "mov") mn) (with_two (second b n) λ dst. mov a dst suffix)
    or_else (when (named (codes "lea") mn) (with_two (second b n) λ dst. lea a dst)
        or_else (by_table (find mn group1) (λ g. with_two (second b n) λ dst. alu g a dst suffix)
            or_else (when (named (codes "test") mn) (with_two (second b n) λ dst. test a dst suffix)
                or_else (when (named (codes "push") mn) (push_pop 0x50 a n)
                    or_else (when (named (codes "pop") mn) (push_pop 0x58 a n)
                        or_else (when (named (codes "imul") mn)
                              (with_two (second b n) λ dst. imul a dst)
                            or_else (by_table (find mn group3)
                                  (λ g. require (n == 1) bad_operands >> unary 0xF6 0xF7 g a suffix)
                                or_else (when (named (codes "inc") mn)
                                      (require (n == 1) bad_operands >> unary 0xFE 0xFF 0 a suffix)
                                    or_else (when (named (codes "dec") mn) (
                                          require (n == 1) bad_operands
                                          >> unary 0xFE 0xFF 1 a suffix)
                                        or_else (by_table (find mn shifts)
                                              (λ g. shift_or_one g a (second b n) n suffix)
                                            or_else (if named (codes "xchg") mn
                                                  || named (codes "cmpxchg") mn
                                                then stop unsupported
                                                else stop unknown_instruction)))))))))))

-- `strcpy(stem, mn)` into 16 bytes, and what follows
abbrev pub suffixed : Name → Op → Option Op → ℕ → Result Out
suffixed mn a b n =
    let (stem, suffix) = split_suffix mn in
    require (ltb (length mn) 16) stem_overflow >> integer stem suffix a b n

abbrev pub sse_optional : Name → Op → Option Op → Result Out → Result Out
sse_optional mn a none rest = rest
sse_optional mn a (some b) rest = sse_two mn a b rest

-- The instructions with operands
unfoldable pub operate : Name → Op → Option Op → ℕ → Result Out
unfolding control sse_two split_suffix integer
operate mn a b n = control mn a n (
    if not (n == 2) && takes_two mn
    then stop bad_operands
    else sse_optional mn a (second b n)
        (if at mn 0 == b'f' then stop unsupported else extend mn a b n (suffixed mn a b n)))

-- What `instruction` writes; `rest` is the trimmed text behind the mnemonic.
unfoldable pub choose : Name → Name → List Op → Result Out
unfolding no_operands operate
choose mn rest ops =
    if named (codes "rep") mn
    then (require (named (codes "stosb") rest) unsupported >> ok (plain (0xF3 ∷ 0xAA ∷ [])))
    else if named (codes "lock") mn || named (codes "data16") mn || named (codes "rex64") mn
    then stop unsupported
    else elim ops [
      | [] ↦ no_operands mn
      | a ∷ [] ↦ operate mn a none 1
      | a ∷ (b ∷ more) ↦ operate mn a (some b) (2 + length more)
    ]

-- `instruction`
unfoldable pub instruction : Name → Name → List Op → Asm → Result Asm
unfolding choose write
instruction mn rest ops s = choose mn rest ops >>= λ out. write out s
