-- ===== src/Cc/Instr.antt =====
-- The choice of an encoding in cc/asm.c, from the helpers up to `movx` and `sse`.
pub mod Choose
pub mod Dispatch
pub mod Integer
pub mod Encodable
pub mod Chosen
pub mod Whole
pub mod Placed
pub mod Immediate
use sandbox_stack.Prelude.{ℕ, zero, suc, ◌+◌, ◌-◌, ◌*◌, ◌^◌, Bool, true, false, not, ◌&&◌, ◌||◌}
use sandbox_stack.Prelude.{
  List, [], ◌∷◌, ◌++◌, Option, none, some, get_or, bit_or, leb, ltb, ◌==◌, if◌then◌else◌, codes,
}
use sandbox_stack.Prelude.Int.{ℤ, pos, negsuc, sub_nat}
use sandbox_stack.Bytes.{bytes_of}
use sandbox_stack.Cc.Asm.{
  Asm, Name, Op, Enc, Result, ok, stop, ◌>>=◌, ◌>>◌, require, fits, int_bytes,
}
use sandbox_stack.Cc.Asm.{
  is_reg, is_imm, is_mem, is_label, low3, is_extended, emits, add_fixup, encode,
}
use sandbox_stack.Cc.Asm.{
  cannot_determine_operand_size, operand_size_mismatch, immediate_does_not_fit, bad_operands,
}
use sandbox_stack.Cc.Asm.{high_byte_register_with_rex, unknown_instruction}
use sandbox_stack.Cc.Elf.{same}

-- What an instruction writes: bytes, an encoding, or an opcode with the distance to a label.
pub data Out : Type 0 where
  plain : List ℕ → Out
  encoded : Enc → Out
  branch : List ℕ → Name → Out

-- It is written to the current section.
unfoldable pub write : Out → Asm → Result Asm
unfolding emits add_fixup encode
write (plain xs) s = ok (emits xs s)
write (encoded e) s = encode e s
write (branch xs name) s = ok (emits (bytes_of 4 0) (add_fixup name (negsuc 3) false (emits xs s)))

-- `Enc e = {0}`
abbrev pub no_enc : Enc
no_enc = record {
  prefix = 0;
  w = false;
  need_rex = false;
  op = [];
  reg = pos 0;
  reg_high8 = false;
  rm = none;
  imm_size = 0;
  imm = pos 0;
  opsize16 = false;
}

-- `strcmp(mn, …) == 0`
abbrev pub named : Name → Name → Bool
named name mn = same name mn

abbrev pub is_general : Op → Bool
is_general o = is_reg o && not o.xmm

abbrev pub is_xmm : Op → Bool
is_xmm o = is_reg o && o.xmm

-- The size that the suffix names; 0 is no suffix.
abbrev pub suffix_size : ℕ → Result ℕ
suffix_size c =
    if c == b'b'
    then ok 1
    else if c == b'w'
    then ok 2
    else if c == b'l'
    then ok 4
    else if c == b'q'
    then ok 8
    else stop cannot_determine_operand_size

-- `op_size` with two operands, and with `b` absent
abbrev pub op_size : Op → Op → ℕ → Result ℕ
op_size a b suffix =
    if is_general a then ok a.size else if is_general b then ok b.size else suffix_size suffix

abbrev pub op_size1 : Op → ℕ → Result ℕ
op_size1 a suffix = if is_general a then ok a.size else suffix_size suffix

abbrev pub set_size : ℕ → ℕ → ℕ → Enc → Enc
set_size size op8 op e = record e {
  op = (if size == 1 then op8 else op) ∷ [];
  w = size == 8;
  opsize16 = size == 2;
}

abbrev pub is_low_byte : ℤ → Bool
is_low_byte (pos n) = leb 4 n && leb n 7
is_low_byte (negsuc n) = false

abbrev pub needs_rex : Op → Bool
needs_rex r = is_reg r && r.size == 1 && not r.high8 && is_low_byte r.reg

abbrev pub need_rex_for : Op → Enc → Enc
need_rex_for r e = record e { need_rex = needs_rex r || e.need_rex }

abbrev pub set_reg : Op → Enc → Enc
set_reg r e = need_rex_for r (record e { reg = r.reg; reg_high8 = r.high8 })

abbrev pub set_rm : Op → Enc → Enc
set_rm o e = record e { rm = some o }

abbrev pub set_imm : ℕ → ℤ → Enc → Enc
set_imm size v e = record e { imm_size = size; imm = v }

-- `e.op[0] = …; e.oplen = …`
abbrev pub set_op : List ℕ → Enc → Enc
set_op xs e = record e { op = xs }

abbrev pub set_group : ℕ → Enc → Enc
set_group g e = record e { reg = pos g }

abbrev pub same_width : Op → Op → Result (Unit {0})
same_width a b =
    require (not (is_general a && is_general b) || a.size == b.size) operand_size_mismatch

-- `v < lo || v > hi` fails, with `half` the lower bound's magnitude and `top` above the upper one.
abbrev pub in_range : ℕ → ℕ → ℤ → Bool
in_range half top (pos n) = ltb n top
in_range half top (negsuc n) = leb (n + 1) half

unfoldable pub check_imm : ℤ → ℕ → Bool → Result ℤ
check_imm v bits sign_extended =
    require (in_range (2 ^ (bits - 1)) (if sign_extended then 2 ^ (bits - 1) else 2 ^ bits) v)
      immediate_does_not_fit
    >> ok v

-- `v > INT32_MAX` and `v > INT16_MAX`
abbrev pub above : ℕ → ℤ → Bool
above limit (pos n) = leb limit n
above limit (negsuc n) = false

-- The unsigned bit pattern of 32 or 16 bits, as a signed number.
unfoldable pub fold_sign : ℕ → ℤ → ℤ
fold_sign size v =
    if size == 4 && above (2 ^ 31) v
    then sub_nat v (2 ^ 32)
    else if size == 2 && above (2 ^ 15) v
    then sub_nat v (2 ^ 16)
    else v

-- Opcode and immediate of an operation of group 1 with an immediate.
unfoldable pub alu_imm : ℕ → ℤ → Enc → Enc
alu_imm size v e =
    if size == 1
    then set_op (0x80 ∷ []) (set_imm 1 v e)
    else if fits 128 v
    then set_op (0x83 ∷ []) (set_imm 1 v e)
    else set_op (0x81 ∷ []) (set_imm (if size == 2 then 2 else 4) v e)

-- `e.w = size == 8; e.opsize16 = size == 2;`
abbrev pub set_width : ℕ → Enc → Enc
set_width size e = record e { w = size == 8; opsize16 = size == 2 }

unfoldable pub alu : ℕ → Op → Op → ℕ → Result Out
unfolding check_imm fold_sign alu_imm
alu n src dst suffix = do
  same_width src dst
  size ← op_size dst src suffix
  if is_imm src
      then (require (is_reg dst || is_mem dst) bad_operands
          >> (check_imm src.imm (if size == 8 then 32 else size * 8) (size == 8) >>= λ v. ok (
              encoded (
                need_rex_for dst (
                  set_width size
                    (alu_imm size (fold_sign size v) (set_rm dst (set_group n no_enc))))))))
      else if is_reg src && (is_reg dst || is_mem dst)
      then ok (
          encoded (
            need_rex_for dst (set_rm dst (set_reg src (set_size size (n * 8) (n * 8 + 1) no_enc)))))
      else if is_mem src && is_reg dst
      then ok (encoded (set_rm src (set_reg dst (set_size size (n * 8 + 2) (n * 8 + 3) no_enc))))
      else stop bad_operands

-- `mov` of an immediate to a register
unfoldable pub mov_imm_reg : ℤ → Op → ℕ → Result Out
unfolding check_imm
mov_imm_reg imm dst size =
    if size == 8
    then ok (
        if fits (2 ^ 31) imm
        then encoded (record (set_imm 4 imm (set_rm dst (set_op (0xC7 ∷ []) no_enc))) { w = true })
        else plain (
            (if is_extended dst.reg then 0x49 else 0x48) ∷ (0xB8 + low3 dst.reg) ∷ int_bytes 8 imm))
    else (check_imm imm (size * 8) false >>= λ v.
        let extended = is_extended dst.reg in
        let prefixed = extended || size == 1 && is_low_byte dst.reg && not dst.high8 in
        require (not (prefixed && dst.high8)) high_byte_register_with_rex
        >> ok (
            plain (
              (if size == 2 then 0x66 ∷ [] else [])
              ++ ((if prefixed then (if extended then 0x41 else 0x40) ∷ [] else [])
                  ++ (((if size == 1 then 0xB0 else 0xB8) + low3 dst.reg) ∷ int_bytes size v)))))

unfoldable pub mov : Op → Op → ℕ → Result Out
unfolding mov_imm_reg check_imm
mov src dst suffix = do
  require (not (is_xmm src || is_xmm dst)) bad_operands
  same_width src dst
  size ← op_size dst src suffix
  if is_imm src && is_reg dst
      then mov_imm_reg src.imm dst size
      else if is_imm src && is_mem dst
      then (check_imm src.imm (if size == 8 then 32 else size * 8) (size == 8) >>= λ v. ok (
          encoded (
            set_imm (if size == 8 then 4 else size) v
              (set_rm dst (set_size size 0xC6 0xC7 no_enc)))))
      else if is_reg src && (is_reg dst || is_mem dst)
      then ok
          (encoded (need_rex_for dst (set_rm dst (set_reg src (set_size size 0x88 0x89 no_enc)))))
      else if is_mem src && is_reg dst
      then (if src.gotpcrel
          then (require (size == 8) bad_operands
              >> ok (
                  encoded
                    (record (set_rm src (set_op (0x8D ∷ []) no_enc)) { w = true; reg = dst.reg })))
          else ok (encoded (set_rm src (set_reg dst (set_size size 0x8A 0x8B no_enc)))))
      else stop bad_operands
