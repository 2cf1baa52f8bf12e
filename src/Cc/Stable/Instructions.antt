-- ===== src/Cc/Stable/Instructions.antt =====
-- The instructions of cc/asm.c keep every stable property.
use sandbox_stack.Prelude.{◌+◌, ◌^◌, arith}
use sandbox_stack.Prelude.{false, not, ◌&&◌, ◌||◌, ◌==◌}
use sandbox_stack.Prelude.{List, Option, some, none}
use sandbox_stack.Prelude.Int.{negsuc, sub_nat}
use sandbox_stack.Bytes.{bytes_of}
use sandbox_stack.Cc.Asm.{
  is_reg, is_minus_one, modrm, low3, memory_mod, memory_bytes, fits, high_rm, forces_rex,
  head_bytes, imm_bytes, displacement_out_of_range, high_byte_register_with_rex, Asm, Name, Op, Enc,
  encode, encode_operand, encode_rm,
}
use sandbox_stack.Cc.Instr.{Out, plain, encoded, branch, write}
use sandbox_stack.Cc.Instr.Integer.{choose, instruction}
use sandbox_stack.Cc.Instr.Encodable.{
  Returns, returned, Returns-bind, Returns-if, Returns-require, any,
}
use sandbox_stack.Cc.Stable.{IsStable, byte}

module _ {P : Asm → Type 0} (stable : IsStable P) where
  encode_operand-Returns : (e : Enc) (o : Op) (s : Asm) → P s → Returns P (encode_operand e o s)
  unfolding encode_operand bytes_of
  encode_operand-Returns e o s h =
      Returns-if (is_reg o) (returned _ (byte stable (modrm 3 (low3 e.reg) (low3 o.reg)) s h)) (
        Returns-if (is_minus_one o.base)
          (returned _ (
            stable.covered o.sym (sub_nat o.disp (4 + e.imm_size)) false (bytes_of 4 0) _
              (omega arith) (byte stable (modrm 0 (low3 e.reg) 5) s h)))
          (Returns-require (not (memory_mod o == 2) || fits (2 ^ 31) o.disp)
            displacement_out_of_range
            (returned _ (stable.bytes (memory_bytes (low3 e.reg) o) s h))))

  encode_rm-Returns : (e : Enc) (o : Option Op) (s : Asm) → P s → Returns P (encode_rm e o s)
  encode_rm-Returns e none s h = returned s h
  encode_rm-Returns e (some o) s h = encode_operand-Returns e o s h

  encode-Returns : (e : Enc) (s : Asm) → P s → Returns P (encode e s)
  unfolding encode
  encode-Returns e s h =
      Returns-require (not (high_rm e.rm && forces_rex e)) high_byte_register_with_rex (
        Returns-require (not (e.reg_high8 && forces_rex e)) high_byte_register_with_rex (
          Returns-bind (encode_rm-Returns e e.rm _ (stable.bytes (head_bytes e) s h))
            λ s' h'. returned _ (stable.bytes (imm_bytes e) s' h')))

  write-Returns : (out : Out) (s : Asm) → P s → Returns P (write out s)
  unfolding write bytes_of
  write-Returns (plain xs) s h = returned _ (stable.bytes xs s h)
  write-Returns (encoded e) s h = encode-Returns e s h
  write-Returns (branch xs name) s h =
      returned _
        (stable.covered name (negsuc 3) false (bytes_of 4 0) _ (omega arith) (stable.bytes xs s h))

  pub instruction-Returns :
      (mn rest : Name) (ops : List Op) (s : Asm) → P s → Returns P (instruction mn rest ops s)
  unfolding instruction
  instruction-Returns mn rest ops s h =
      Returns-bind (any (choose mn rest ops)) λ out _. write-Returns out s h
