-- ===== src/Cc/Instr/Whole.antt =====
-- Every instruction that cc/asm.c accepts has the processor's format.
use sandbox_stack.Prelude.{ℕ, ◌+◌, ◌<◌, ◌≡◌, inl, inr, refl, ap, subst, arith}
use sandbox_stack.Prelude.{Bool, true, false, not, ◌&&◌, ◌||◌, Bool-cases, All, All-append}
use sandbox_stack.Prelude.{
  ltb→lt, List, [], ◌∷◌, Option, some, none, length, take, drop, ltb, ◌==◌, if◌then◌else◌, codes,
}
use sandbox_stack.Prelude.Int.{pos}
use sandbox_stack.Cc.Asm.{
  Name, Op, Enc, Result, ok, ◌>>=◌, is_reg, is_mem, is_label, is_imm, bad_operands,
  unknown_instruction, unsupported, stem_overflow, immediate_does_not_fit, is_extended,
}
use sandbox_stack.Cc.Asm.Bytes.{IsByte}
use sandbox_stack.Cc.Asm.Decode.{is_prefix}
use sandbox_stack.Cc.Asm.RoundTrip.{IsEncodable, Encoded, decode-encode}
use sandbox_stack.Cc.Asm.RoundTrip.Head.{IsOpcode}
use sandbox_stack.Cc.Elf.{same}
use sandbox_stack.Cc.Asm.{Asm, encode}
use sandbox_stack.Cc.Asm.Decode.{Operand}
use sandbox_stack.Cc.Asm.RoundTrip.Rm.{Shows}
use sandbox_stack.Cc.Instr.{write}
use sandbox_stack.Cc.Instr.Integer.{instruction}
use sandbox_stack.Cc.Instr.{Out, encoded, named, is_xmm, same_width, op_size, op_size1, check_imm}
use sandbox_stack.Cc.Instr.Choose.{at, find, starts, no_operands}
use sandbox_stack.Cc.Instr.Dispatch.{
  Part, ◌or_else◌, when, with_two, takes_two, control, sse_two, extend, split_suffix, find_sse,
  sse_ops, sse_named, sse_scalar, is_scalar, scalar_ops,
}
use sandbox_stack.Cc.Instr.Integer.{
  second, lea, test, push_pop, imul, unary, is_one, too_large, shift, shift_or_one, group1, group3,
  shifts, by_table, integer, sse_optional, operate, choose,
}
use sandbox_stack.Cc.Instr.Encodable.{
  All-optional, low_opcode, sized_opcode, alu-IsOut, mov-IsOut, Returns, returned, failed,
  Returns-bind, Returns-if, Returns-require, any, Fine, IsOut, IsOperand,
}
use sandbox_stack.Cc.Instr.Chosen.{
  prefix-IsKnown, find-below, and-both, sse-IsOut, no_operands-IsOut, movx-IsOut, jump-IsOut,
  jump_if-IsOut, set_if-IsOut, mov_scalar-IsOut, movq-IsOut, convert_to_float-IsOut,
  convert_to_int-IsOut,
}

-- A part that answers well, or leaves the mnemonic to what follows.
abbrev FinePart : Part → Type 0
FinePart none = Unit {0}
FinePart (some r) = Fine r

or_else-IsOut : (p : Part) (r : Result Out) → FinePart p → Fine r → Fine (p or_else r)
or_else-IsOut none r h k = k
or_else-IsOut (some r') r h k = h

when-IsOut : (c : Bool) {r rest : Result Out} → Fine r → Fine rest → Fine (when c r or_else rest)
when-IsOut true h k = h
when-IsOut false h k = k

by_table-IsOut :
    (o : Option ℕ) {f : ℕ → Result Out} {rest : Result Out}
    → ((v : ℕ) → o ≡ some v → Fine (f v))
    → Fine rest
    → Fine (by_table o f or_else rest)
by_table-IsOut none h k = k
by_table-IsOut (some v) h k = h v refl

lea-IsOut : (a b : Op) → Fine (lea a b)
lea-IsOut a b =
    Returns-require (is_mem a && is_reg b) bad_operands
      (returned _ (0x8D, [], refl, (refl, refl), (omega arith, tt), refl, refl))

test-IsOut : (a b : Op) (c : ℕ) → Fine (test a b c)
unfolding test
test-IsOut a b c = Returns-require (is_reg a) bad_operands (
    Returns-bind (any (same_width a b)) λ u _. Returns-bind (any (op_size a b c)) λ size _.
      returned _ (
        sized_opcode size 0x84 0x85 ((refl, refl), omega arith) ((refl, refl), omega arith) 0 refl))

push_pop-IsOut : (op : ℕ) (a : Op) (n : ℕ) → op < 0xF8 → Fine (push_pop op a n)
push_pop-IsOut op a n h = Returns-require (n == 1 && is_reg a && a.size == 8) bad_operands (
    returned _ (
      All-append IsByte (if is_extended a.reg then 0x41 ∷ [] else []) _
        (All-optional (is_extended a.reg) 0x41 (omega arith)) (low_opcode op a.reg h, tt)))

imul-IsOut : (a b : Op) → Fine (imul a b)
unfolding imul
imul-IsOut a b =
    let start : IsByte 0x0F = omega arith in
    let op : IsByte 0xAF = omega arith in
    Returns-require (is_reg b && not (b.size == 1) && (is_reg a || is_mem a)) bad_operands (
      Returns-bind (any (same_width a b))
        λ u _. returned _ (0x0F, 0xAF ∷ [], refl, (refl, refl), (start, (op, tt)), refl, refl))

IsOpcodeByte : ℕ → Type 0
IsOpcodeByte x = IsOpcode x × IsByte x

unary-IsOut :
    (x y g : ℕ) (a : Op) (c : ℕ) → IsOpcodeByte x → IsOpcodeByte y → Fine (unary x y g a c)
unfolding unary IsOpcodeByte
unary-IsOut x y g a c h k =
    Returns-bind (any (op_size1 a c)) λ size _. returned _ (sized_opcode size x y h k 0 refl)

shift-IsOut : (g : ℕ) (a b : Op) (c : ℕ) → Fine (shift g a b c)
unfolding shift IsOpcodeByte
shift-IsOut g a b c = Returns-bind (any (op_size1 b c)) λ size _.
    let by_imm =
      sized_opcode size 0xC0 0xC1 ((refl, refl), omega arith) ((refl, refl), omega arith) 1 refl in
    Returns-if (is_reg a && a.size == 1 && is_one a.reg)
      (unary-IsOut 0xD2 0xD3 g b c ((refl, refl), omega arith) ((refl, refl), omega arith))
      (Returns-if (is_imm a)
        (Returns-bind (any (check_imm a.imm 8 false)) λ v _.
          Returns-require (not (too_large size a.imm)) immediate_does_not_fit (returned _ by_imm))
        (failed bad_operands))

shift_or_one-IsOut : (g : ℕ) (a : Op) (o : Option Op) (n c : ℕ) → Fine (shift_or_one g a o n c)
unfolding IsOpcodeByte
shift_or_one-IsOut g a (some b) n c = shift-IsOut g a b c
shift_or_one-IsOut g a none n c =
    Returns-if (n == 1)
      (unary-IsOut 0xD0 0xD1 g a c ((refl, refl), omega arith) ((refl, refl), omega arith))
      (Returns-bind (any (op_size1 a c)) λ size _. failed bad_operands)

-- The operand, if there is one, has the size of a general register.
abbrev pub IsOptional : Option Op → Type 0
IsOptional none = Unit {0}
IsOptional (some b) = IsOperand b

second-IsOptional : (o : Option Op) (n : ℕ) → IsOptional o → IsOptional (second o n)
second-IsOptional o n h = elim (Bool-cases (n == 2)) [
  | inl two ↦ rw two h
  | inr other ↦ rw other tt
]

two-IsOut :
    (o : Option Op) (f : Op → Result Out)
    → IsOptional o
    → ((b : Op) → IsOperand b → Fine (f b))
    → Fine (with_two o f)
two-IsOut none f h k = failed bad_operands
two-IsOut (some b) f h k = k b h

integer-IsOut :
    (mn : Name) (c : ℕ) (a : Op) (o : Option Op) (n : ℕ)
    → IsOperand a
    → IsOptional o
    → Fine (integer mn c a o n)
unfolding integer IsOpcodeByte
integer-IsOut mn c a o n ha ho =
    let two = second-IsOptional o n ho in
    let high : IsOpcodeByte 0xFE × IsOpcodeByte 0xFF =
      (((refl, refl), omega arith), ((refl, refl), omega arith)) in
    let low : IsOpcodeByte 0xF6 × IsOpcodeByte 0xF7 =
      (((refl, refl), omega arith), ((refl, refl), omega arith)) in
    when-IsOut (named (codes "mov") mn) (two-IsOut _ _ two λ b hb. mov-IsOut a b c ha hb) (
      when-IsOut (named (codes "lea") mn) (two-IsOut _ _ two λ b hb. lea-IsOut a b) (
        by_table-IsOut (find mn group1)
          (λ g found.
            two-IsOut _ _ two λ b hb. alu-IsOut g a b c (find-below 8 mn group1 refl g found))
          (when-IsOut (named (codes "test") mn) (two-IsOut _ _ two λ b hb. test-IsOut a b c) (
            when-IsOut (named (codes "push") mn) (push_pop-IsOut 0x50 a n (omega arith)) (
              when-IsOut (named (codes "pop") mn) (push_pop-IsOut 0x58 a n (omega arith)) (
                when-IsOut (named (codes "imul") mn) (two-IsOut _ _ two λ b hb. imul-IsOut a b) (
                  by_table-IsOut (find mn group3)
                    (λ g found.
                      Returns-require (n == 1) bad_operands
                        (unary-IsOut 0xF6 0xF7 g a c low.0 low.1))
                    (when-IsOut (named (codes "inc") mn)
                      (Returns-require (n == 1) bad_operands
                        (unary-IsOut 0xFE 0xFF 0 a c high.0 high.1))
                      (when-IsOut (named (codes "dec") mn)
                        (Returns-require (n == 1) bad_operands
                          (unary-IsOut 0xFE 0xFF 1 a c high.0 high.1))
                        (by_table-IsOut (find mn shifts)
                          (λ g found. shift_or_one-IsOut g a (second o n) n c)
                          (Returns-if (named (codes "xchg") mn || named (codes "cmpxchg") mn)
                            (failed unsupported) (failed unknown_instruction))))))))))))

control-IsOut : (mn : Name) (a : Op) (n : ℕ) (r : Result Out) → Fine r → Fine (control mn a n r)
unfolding control
control-IsOut mn a n r h =
    Returns-if (named (codes "jmp") mn || named (codes "call") mn) (jump-IsOut mn a) (
      Returns-if (at mn 0 == b'j' && is_label a) (jump_if-IsOut a (drop 1 mn))
        (Returns-if (starts (codes "set") mn && n == 1) (set_if-IsOut a (drop 3 mn)) h))

-- The prefixes and opcodes of the table of SSE names.
abbrev sse_below : List (Name × ℕ × ℕ) → Bool
sse_below [] = true
sse_below ((name, prefix, op) ∷ rest) =
    ((prefix == 0 || is_prefix prefix) && ltb op 256) && sse_below rest

find_sse-below :
    (a b : Op) (mn : Name) (t : List (Name × ℕ × ℕ))
    → sse_below t ≡ true
    → FinePart (sse_named a b (find_sse mn t))
unfolding find_sse
find_sse-below a b mn [] h = tt
find_sse-below a b mn ((name, prefix, op) ∷ rest) h =
    let (first, others) = and-both _ _ h in
    let (known, byte) = and-both _ _ first in
    elim (Bool-cases (same name mn)) [
      | inl here ↦ rw here (sse-IsOut prefix op b a false known (ltb→lt _ _ byte))
      | inr further ↦ rw further (find_sse-below a b mn rest others)
    ]

sse_scalar-IsOut :
    (mn : Name) (a b : Op) (o : Option ℕ)
    → ((v : ℕ) → o ≡ some v → v < 256)
    → FinePart (sse_scalar mn a b o)
sse_scalar-IsOut mn a b none h = tt
sse_scalar-IsOut mn a b (some v) h =
    sse-IsOut _ v b a false (prefix-IsKnown (at mn 4 == b's')) (h v refl)

scalar-IsOut :
    (c : Bool) (mn : Name) (a b : Op)
    → FinePart (if c then sse_scalar mn a b (find (take 3 mn) scalar_ops) else none)
scalar-IsOut true mn a b =
    sse_scalar-IsOut mn a b _ (λ v found. find-below 256 (take 3 mn) scalar_ops refl v found)
scalar-IsOut false mn a b = tt

sse_two-IsOut : (mn : Name) (a b : Op) (r : Result Out) → Fine r → Fine (sse_two mn a b r)
unfolding sse_two
sse_two-IsOut mn a b r h =
    Returns-if (named (codes "movss") mn || named (codes "movsd") mn) (mov_scalar-IsOut mn a b) (
      Returns-if (named (codes "movq") mn && (is_xmm a || is_xmm b)) (movq-IsOut a b) (
        Returns-if (starts (codes "cvtsi2s") mn) (convert_to_float-IsOut mn a b) (
          Returns-if (starts (codes "cvtts") mn) (convert_to_int-IsOut mn a b) (
            or_else-IsOut (sse_named a b (find_sse mn sse_ops)) _
              (find_sse-below a b mn sse_ops refl)
              (or_else-IsOut
                (if is_scalar mn then sse_scalar mn a b (find (take 3 mn) scalar_ops) else none) r
                (scalar-IsOut (is_scalar mn) mn a b) h)))))

sse_optional-IsOut :
    (mn : Name) (a : Op) (o : Option Op) (r : Result Out) → Fine r → Fine (sse_optional mn a o r)
sse_optional-IsOut mn a none r h = h
sse_optional-IsOut mn a (some b) r h = sse_two-IsOut mn a b r h

extend-IsOut :
    (mn : Name) (a : Op) (o : Option Op) (n : ℕ) (r : Result Out)
    → IsOptional (second o n)
    → Fine r
    → Fine (extend mn a o n r)
extend-IsOut mn a o n r two h =
    Returns-if (starts (codes "movs") mn || starts (codes "movz") mn)
      (two-IsOut (second o n) _ two λ b hb. movx-IsOut mn a b) h

operate-IsOut :
    (mn : Name) (a : Op) (o : Option Op) (n : ℕ)
    → IsOperand a
    → IsOptional o
    → Fine (operate mn a o n)
unfolding operate
operate-IsOut mn a o n ha ho = control-IsOut mn a n _ (
    Returns-if (not (n == 2) && takes_two mn) (failed bad_operands) (
      sse_optional-IsOut mn a (second o n) _ (
        Returns-if (at mn 0 == b'f') (failed unsupported) (
          extend-IsOut mn a o n _ (second-IsOptional o n ho) (
            Returns-require (ltb (length mn) 16) stem_overflow
              (integer-IsOut (split_suffix mn).0 (split_suffix mn).1 a o n ha ho))))))

-- Operands with the sizes of general registers.
abbrev pub IsOperands : List Op → Type 0
IsOperands ops = All IsOperand ops

by_operands :
    (mn : Name) (ops : List Op)
    → IsOperands ops
    → Fine (elim ops [
      | [] ↦ no_operands mn
      | a ∷ [] ↦ operate mn a none 1
      | a ∷ (b ∷ more) ↦ operate mn a (some b) (2 + length more)
    ])
by_operands mn [] h = no_operands-IsOut mn
by_operands mn (a ∷ []) h = operate-IsOut mn a none 1 h.0 tt
by_operands mn (a ∷ (b ∷ more)) h = operate-IsOut mn a (some b) (2 + length more) h.0 h.1.0

pub choose-IsOut :
    (mn rest : Name) (ops : List Op) → IsOperands ops → Returns IsOut (choose mn rest ops)
unfolding choose
choose-IsOut mn rest ops h =
    Returns-if (named (codes "rep") mn)
      (Returns-require (named (codes "stosb") rest) unsupported
        (returned _ (omega arith, (omega arith, tt))))
      (Returns-if (named (codes "lock") mn || named (codes "data16") mn || named (codes "rex64") mn)
        (failed unsupported) (by_operands mn ops h))

Returns-ok : {P : Out → Type 0} {a : Out} → Returns P (ok a) → P a
Returns-ok (returned a h) = h

chosen-IsEncodable :
    (m : Result Out) (e : Enc) → Returns IsOut m → m ≡ ok (encoded e) → IsEncodable e
chosen-IsEncodable m e h same = Returns-ok (subst (Returns IsOut) same h)

-- For any mnemonic and operands whose general registers have 1, 2, 4 or 8 bytes, where
-- instruction chooses an encoding with a register below 16 and a register, a base register below
-- 16 with a displacement, or a place beside RIP as its operand: instruction ends with the
-- high-byte error, exactly if ah to bh meets REX; else with the displacement error, exactly if
-- the displacement does not fit 32 bits; else with bytes from which the independent decoder
-- reads that encoding again, whatever follows them.
pub instruction-decodes :
    (mn rest : Name) (ops : List Op) (e : Enc) (o : Op) (s : Asm) (r b : ℕ) (p : Operand)
    → IsOperands ops
    → choose mn rest ops ≡ ok (encoded e)
    → e.rm ≡ some o
    → Shows o b p
    → b < 16
    → e.reg ≡ pos r
    → r < 16
    → Encoded e s r p (instruction mn rest ops s)
unfolding instruction write
instruction-decodes mn rest ops e o s r b p sizes chosen rm shows hb reg hr =
    let same : instruction mn rest ops s ≡ encode e s = ap (λ m. m >>= λ out. write out s) chosen in
    rw same (
      decode-encode e o s r b p rm shows hb reg hr
        (chosen-IsEncodable _ e (choose-IsOut mn rest ops sizes) chosen))
