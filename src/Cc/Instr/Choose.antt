-- ===== src/Cc/Instr/Choose.antt =====
-- `movx`, `cc_code`, `sse` and `instruction` of cc/asm.c, with the operands parsed.
use sandbox_stack.Prelude.{ℕ, ◌+◌, ◌-◌, Bool, true, false, not, ◌&&◌, ◌||◌}
use sandbox_stack.Prelude.{
  List, [], ◌∷◌, Option, none, some, get_or, length, take, ltb, ◌==◌, if◌then◌else◌, codes,
}
use sandbox_stack.Prelude.Int.{ℤ, pos}
use sandbox_stack.Cc.Asm.{Name, Op, Enc, Result, ok, stop, ◌>>=◌, ◌>>◌, require}
use sandbox_stack.Cc.Asm.{is_reg, is_mem, is_label}
use sandbox_stack.Cc.Asm.{bad_operands, unknown_instruction, unsupported}
use sandbox_stack.Cc.Elf.{same}
use sandbox_stack.Cc.Instr.{Out, plain, encoded, branch, no_enc, named, is_general, is_xmm}
use sandbox_stack.Cc.Instr.{need_rex_for, set_op}
use sandbox_stack.Cc.Instr.{set_width}

-- `strncmp(mn, …, n) == 0`
abbrev pub starts : Name → Name → Bool
unfolding same
starts prefix mn = same prefix (take (length prefix) mn)

-- `mn[i]`, 0 at the end
abbrev pub at : Name → ℕ → ℕ
at mn i = get_or mn i 0

-- The size of the source of `movs…` and `movz…`, by what follows the first four letters.
abbrev pub source_size : Name → Op → Result ℕ
source_size mn src =
    if named (codes "movsxd") mn || named (codes "movslq") mn
    then ok 4
    else if at mn 4 == b'b'
    then ok 1
    else if at mn 4 == b'w'
    then ok 2
    else if at mn 4 == b'x' || at mn 4 == 0
    then require (is_reg src) bad_operands >> ok src.size
    else stop unknown_instruction

unfoldable pub movx : Name → Op → Op → Result Out
movx mn src dst = do
  size ← source_size mn src
  require (is_reg dst) bad_operands
  let sign = at mn 3 == b's' in
      let second = (if sign then 0xBE else 0xB6) + (if size == 2 then 1 else 0) in
      let e =
        if size == 4
        then record no_enc { w = true; op = 0x63 ∷ [] }
        else set_width dst.size (set_op (0x0F ∷ second ∷ []) no_enc) in
      ok (encoded (need_rex_for src (record e { reg = dst.reg; rm = some src })))

-- `t` of `cc_code`
abbrev pub condition_codes : List (Name × ℕ)
condition_codes =
    (codes "o", 0)
    ∷ (codes "no", 1)
    ∷ (codes "b", 2)
    ∷ (codes "c", 2)
    ∷ (codes "nae", 2)
    ∷ (codes "ae", 3)
    ∷ (codes "nb", 3)
    ∷ (codes "e", 4)
    ∷ (codes "z", 4)
    ∷ (codes "ne", 5)
    ∷ (codes "nz", 5)
    ∷ (codes "be", 6)
    ∷ (codes "na", 6)
    ∷ (codes "a", 7)
    ∷ (codes "nbe", 7)
    ∷ (codes "s", 8)
    ∷ (codes "ns", 9)
    ∷ (codes "p", 10)
    ∷ (codes "np", 11)
    ∷ (codes "l", 12)
    ∷ (codes "ge", 13)
    ∷ (codes "le", 14)
    ∷ (codes "g", 15)
    ∷ []

-- A search of a table of names, as the `for` loops with `strcmp` do it.
unfoldable pub find : Name → List (Name × ℕ) → Option ℕ
unfolding same
find mn [] = none
find mn ((name, value) ∷ rest) =
    let later = find mn rest in if same name mn then some value else later

abbrev pub cc_code : Name → Option ℕ
cc_code mn = find mn condition_codes

-- `sse`, the register operand in the field `reg` first
unfoldable pub sse : ℕ → ℕ → Op → Op → Bool → Result Out
sse prefix op x m w = do
  require (is_xmm x) bad_operands
  require (is_mem m || is_reg m) bad_operands
  ok (
      encoded
        (record no_enc { prefix = prefix; op = 0x0F ∷ op ∷ []; w = w; reg = x.reg; rm = some m }))

-- An encoding with a register field, an operand and a general opcode.
abbrev pub simple : List ℕ → ℤ → Op → Enc
simple op r m = record no_enc { op = op; reg = r; rm = some m }

-- The instructions that have no operand.
unfoldable pub no_operands : Name → Result Out
unfolding same
no_operands mn =
    if named (codes "ret") mn
    then ok (plain (0xC3 ∷ []))
    else if named (codes "cqo") mn || named (codes "cqto") mn
    then ok (plain (0x48 ∷ 0x99 ∷ []))
    else if named (codes "cdq") mn || named (codes "cltd") mn
    then ok (plain (0x99 ∷ []))
    else if named (codes "syscall") mn
    then ok (plain (0x0F ∷ 0x05 ∷ []))
    else if named (codes "hlt") mn
    then ok (plain (0xF4 ∷ []))
    else if named (codes "nop") mn
    then ok (plain (0x90 ∷ []))
    else if at mn 0 == b'f'
    then stop unsupported
    else stop unknown_instruction

-- `jmp` and `call`
unfoldable pub jump : Name → Op → Result Out
unfolding same
jump mn a =
    let is_jmp = named (codes "jmp") mn in
    if is_label a
    then ok (branch ((if is_jmp then 0xE9 else 0xE8) ∷ []) a.sym)
    else if is_reg a && a.size == 8
    then ok (encoded (simple (0xFF ∷ []) (pos (if is_jmp then 4 else 2)) a))
    else stop bad_operands

abbrev pub jump_if : Op → Option ℕ → Result Out
jump_if a none = stop unknown_instruction
jump_if a (some cc) = ok (branch (0x0F ∷ (0x80 + cc) ∷ []) a.sym)

abbrev pub set_if : Op → Option ℕ → Result Out
set_if a none = stop bad_operands
set_if a (some cc) =
    require (is_reg a && a.size == 1) bad_operands
    >> ok (encoded (need_rex_for a (simple (0x0F ∷ (0x90 + cc) ∷ []) (pos 0) a)))

-- `movss` and `movsd`
unfoldable pub mov_scalar : Name → Op → Op → Result Out
unfolding sse
mov_scalar mn a b =
    let prefix = if at mn 4 == b's' then 0xF3 else 0xF2 in
    if is_xmm b
    then sse prefix 0x10 b a false
    else if is_xmm a && is_mem b
    then sse prefix 0x11 a b false
    else stop bad_operands

-- `movq` with an xmm register
unfoldable pub movq : Op → Op → Result Out
movq a b =
    if is_xmm a && is_xmm b
    then ok (encoded (record (simple (0x0F ∷ 0x7E ∷ []) b.reg a) { prefix = 0xF3 }))
    else if is_xmm b
    then (require (not (is_reg a) || a.size == 8) bad_operands
        >> ok (encoded (record (simple (0x0F ∷ 0x6E ∷ []) b.reg a) { prefix = 0x66; w = true })))
    else (require (not (is_reg b) || b.size == 8) bad_operands
        >> ok (encoded (record (simple (0x0F ∷ 0x7E ∷ []) a.reg b) { prefix = 0x66; w = true })))

-- `cvtsi2s…`
unfoldable pub convert_to_float : Name → Op → Op → Result Out
unfolding sse
convert_to_float mn a b =
    let prefix = if at mn 7 == b's' then 0xF3 else 0xF2 in
    let w = at mn 8 == b'q' || at mn 8 == 0 && is_reg a && a.size == 8 in
    require (not (is_reg a) || not a.xmm && a.size == (if w then 8 else 4)) bad_operands
    >> sse prefix 0x2A b a w

-- `cvtts…`
unfoldable pub convert_to_int : Name → Op → Op → Result Out
convert_to_int mn a b =
    let last = at mn (length mn - 1) in
    let suffixed = ltb 8 (length mn) in
    require (is_general b && (b.size == 4 || b.size == 8)) bad_operands
    >> (require (not (suffixed && last == b'l' && not (b.size == 4))) bad_operands
        >> (require (not (suffixed && last == b'q' && not (b.size == 8))) bad_operands
            >> ok (
                encoded (record (simple (0x0F ∷ 0x2C ∷ []) b.reg a) {
                  prefix = if at mn 5 == b's' then 0xF3 else 0xF2;
                  w = b.size == 8;
                }))))
