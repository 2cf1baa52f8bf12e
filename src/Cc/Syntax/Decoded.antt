-- ===== src/Cc/Syntax/Decoded.antt =====
-- What cc/asm.c writes for an instruction, from its text.
use sandbox_stack.Prelude.{ℕ, ◌<◌, ◌≡◌, List, some, subst}
use sandbox_stack.Prelude.Int.{pos}
use sandbox_stack.Cc.Asm.{Asm, Name, Op, Enc, ok}
use sandbox_stack.Cc.Asm.Decode.{Operand}
use sandbox_stack.Cc.Asm.RoundTrip.{Encoded}
use sandbox_stack.Cc.Asm.RoundTrip.Rm.{Shows}
use sandbox_stack.Cc.Instr.{encoded}
use sandbox_stack.Cc.Instr.Encodable.{Returns, returned}
use sandbox_stack.Cc.Instr.Integer.{choose}
use sandbox_stack.Cc.Instr.Whole.{IsOperands, instruction-decodes}
use sandbox_stack.Cc.Lines.{Clib}
use sandbox_stack.Cc.Syntax.{operands, first_text, instruction_text}
use sandbox_stack.Cc.Syntax.Parsed.{operands-IsOperands}

returned-IsOperands : (ops : List Op) → Returns IsOperands (ok ops) → IsOperands ops
returned-IsOperands ops (returned _ h) = h

-- For any mnemonic and any text behind it that parses as operands, where instruction chooses an
-- encoding with a register below 16 and a register, a base register below 16 with a displacement,
-- or a place beside RIP as its operand: instruction ends with the high-byte error, exactly if ah
-- to bh meets REX; else with the displacement error, exactly if the displacement does not fit 32
-- bits; else with bytes from which the independent decoder reads that encoding again, whatever
-- follows them.
instruction_text-decodes :
    (lib : Clib) (counts : List ℕ) (mn rest : Name) (ops : List Op) (e : Enc) (o : Op) (s : Asm)
    (r b : ℕ) (p : Operand)
    → operands lib counts rest ≡ ok ops
    → choose mn (first_text lib rest) ops ≡ ok (encoded e)
    → e.rm ≡ some o
    → Shows o b p
    → b < 16
    → e.reg ≡ pos r
    → r < 16
    → Encoded e s r p (instruction_text lib counts mn rest s)
unfolding instruction_text
instruction_text-decodes lib counts mn rest ops e o s r b p parsed chosen rm shows hb reg hr =
    let sizes : IsOperands ops =
      returned-IsOperands ops
        (subst (Returns IsOperands) parsed (operands-IsOperands lib counts rest)) in
    rw parsed
      (instruction-decodes mn (first_text lib rest) ops e o s r b p sizes chosen rm shows hb reg hr)
