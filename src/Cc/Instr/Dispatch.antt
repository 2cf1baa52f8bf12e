-- ===== src/Cc/Instr/Dispatch.antt =====
-- `instruction` of cc/asm.c, with the operands parsed: which of its parts takes a mnemonic.
use sandbox_stack.Prelude.{ℕ, ◌-◌, Bool, true, false, not, ◌&&◌, ◌||◌}
use sandbox_stack.Prelude.{
  List, [], ◌∷◌, Option, none, some, length, take, drop, ltb, ◌==◌, if◌then◌else◌, codes,
}
use sandbox_stack.Cc.Asm.{Name, Op, Result, stop}
use sandbox_stack.Cc.Asm.{is_label}
use sandbox_stack.Cc.Asm.{bad_operands}
use sandbox_stack.Cc.Elf.{same}
use sandbox_stack.Cc.Instr.{Out, named, is_xmm}
use sandbox_stack.Cc.Instr.Choose.{starts, at, movx, find, cc_code, sse, jump, jump_if, set_if}
use sandbox_stack.Cc.Instr.Choose.{mov_scalar, movq, convert_to_float, convert_to_int}

-- What a part of `instruction` answers: it returns, fails, or leaves the mnemonic to what follows.
abbrev pub Part : Type 0
Part = Option (Result Out)

infixl 4 ◌or_else◌
abbrev pub ◌or_else◌ : Part → Result Out → Result Out
none or_else r = r
some r or_else r' = r

abbrev pub when : Bool → Result Out → Part
when true r = some r
when false r = none

-- A part with two operands, for one that `n` may not allow.
abbrev pub with_two : Option Op → (Op → Result Out) → Result Out
with_two none f = stop bad_operands
with_two (some b) f = f b

-- `mn[3] == 's' && (mn[4] == 's' || mn[4] == 'd')`, in five letters
abbrev pub is_scalar : Name → Bool
is_scalar mn = length mn == 5 && at mn 3 == b's' && (at mn 4 == b's' || at mn 4 == b'd')

abbrev pub scalar_ops : List (Name × ℕ)
scalar_ops =
    (codes "add", 0x58) ∷ (codes "mul", 0x59) ∷ (codes "sub", 0x5C) ∷ (codes "div", 0x5E) ∷ []

-- The mnemonics that the check on the number of operands names.
abbrev pub takes_two : Name → Bool
takes_two mn =
    starts (codes "movs") mn
    || starts (codes "cvt") mn
    || starts (codes "ucomis") mn
    || named (codes "xorps") mn
    || named (codes "xorpd") mn
    || named (codes "pxor") mn
    || is_scalar mn
      && (starts (codes "add") mn
          || starts (codes "sub") mn
          || starts (codes "mul") mn
          || starts (codes "div") mn)

-- Prefix and opcode of the SSE operations that have a fixed name.
abbrev pub sse_ops : List (Name × ℕ × ℕ)
sse_ops =
    (codes "cvtss2sd", 0xF3, 0x5A)
    ∷ (codes "cvtsd2ss", 0xF2, 0x5A)
    ∷ (codes "ucomiss", 0, 0x2E)
    ∷ (codes "ucomisd", 0x66, 0x2E)
    ∷ (codes "xorps", 0, 0x57)
    ∷ (codes "xorpd", 0x66, 0x57)
    ∷ (codes "pxor", 0x66, 0xEF)
    ∷ []

unfoldable pub find_sse : Name → List (Name × ℕ × ℕ) → Option (ℕ × ℕ)
unfolding same
find_sse mn [] = none
find_sse mn ((name, prefix, op) ∷ rest) =
    let later = find_sse mn rest in if same name mn then some (prefix, op) else later

abbrev pub sse_named : Op → Op → Option (ℕ × ℕ) → Part
sse_named a b none = none
sse_named a b (some (prefix, op)) = some (sse prefix op b a false)

abbrev pub sse_scalar : Name → Op → Op → Option ℕ → Part
sse_scalar mn a b none = none
sse_scalar mn a b (some op) = some (sse (if at mn 4 == b's' then 0xF3 else 0xF2) op b a false)

-- From `jmp` to `setcc`
unfoldable pub control : Name → Op → ℕ → Result Out → Result Out
unfolding jump find
control mn a n rest =
    if named (codes "jmp") mn || named (codes "call") mn
    then jump mn a
    else if at mn 0 == b'j' && is_label a
    then jump_if a (cc_code (drop 1 mn))
    else if starts (codes "set") mn && n == 1
    then set_if a (cc_code (drop 3 mn))
    else rest

-- The SSE instructions, with two operands
unfoldable pub sse_two : Name → Op → Op → Result Out → Result Out
unfolding mov_scalar movq convert_to_float convert_to_int sse find find_sse
sse_two mn a b rest =
    if named (codes "movss") mn || named (codes "movsd") mn
    then mov_scalar mn a b
    else if named (codes "movq") mn && (is_xmm a || is_xmm b)
    then movq a b
    else if starts (codes "cvtsi2s") mn
    then convert_to_float mn a b
    else if starts (codes "cvtts") mn
    then convert_to_int mn a b
    else (sse_named a b (find_sse mn sse_ops)
        or_else ((if is_scalar mn then sse_scalar mn a b (find (take 3 mn) scalar_ops) else none)
            or_else rest))

-- `movs…` and `movz…`
abbrev pub extend : Name → Op → Option Op → ℕ → Result Out → Result Out
extend mn a b n rest =
    if starts (codes "movs") mn || starts (codes "movz") mn
    then with_two (if n == 2 then b else none) (λ b'. movx mn a b')
    else rest

-- The letters that the first test for a suffix asks for
abbrev pub may_have_suffix : Name → Bool
may_have_suffix mn =
    starts (codes "mov") mn
    || starts (codes "add") mn
    || starts (codes "sub") mn
    || starts (codes "and") mn
    || starts (codes "cmp") mn
    || starts (codes "xor") mn
    || starts (codes "or") mn
    || starts (codes "test") mn
    || starts (codes "imul") mn
    || starts (codes "idiv") mn
    || starts (codes "div") mn
    || starts (codes "neg") mn
    || starts (codes "not") mn
    || starts (codes "shl") mn
    || starts (codes "shr") mn
    || starts (codes "sar") mn
    || starts (codes "push") mn
    || starts (codes "pop") mn
    || starts (codes "lea") mn
    || starts (codes "inc") mn
    || starts (codes "dec") mn

-- `stems`
abbrev pub stems : List (Name × ℕ)
stems =
    (codes "mov", 0)
    ∷ (codes "add", 0)
    ∷ (codes "sub", 0)
    ∷ (codes "and", 0)
    ∷ (codes "cmp", 0)
    ∷ (codes "xor", 0)
    ∷ (codes "or", 0)
    ∷ (codes "test", 0)
    ∷ (codes "imul", 0)
    ∷ (codes "idiv", 0)
    ∷ (codes "div", 0)
    ∷ (codes "neg", 0)
    ∷ (codes "not", 0)
    ∷ (codes "shl", 0)
    ∷ (codes "shr", 0)
    ∷ (codes "sar", 0)
    ∷ (codes "push", 0)
    ∷ (codes "pop", 0)
    ∷ (codes "lea", 0)
    ∷ (codes "inc", 0)
    ∷ (codes "dec", 0)
    ∷ []

abbrev pub is_suffix : ℕ → Bool
is_suffix c = c == b'b' || c == b'w' || c == b'l' || c == b'q'

abbrev pub found : Option ℕ → Bool
found none = false
found (some v) = true

-- The stem and the suffix, 0 without one.
unfoldable pub split_suffix : Name → Name × ℕ
unfolding find
split_suffix mn =
    let last = length mn - 1 in
    let stem = take last mn in
    let strips =
      ltb 3 (length mn)
      && is_suffix (at mn last)
      && may_have_suffix mn
      && not (
          named (codes "mul") mn
          || named (codes "shl") mn
          || named (codes "shr") mn
          || named (codes "sarl") mn)
      && found (find stem stems) in
    if strips then (stem, at mn last) else (mn, 0)
