-- ===== src/Tests/Asm.antt =====
-- Runs of the assembler of cc/asm.c, and its theorems applied to concrete instructions.
use sandbox_stack.Prelude.{ℕ, ◌≡◌, refl, arith, true, false, codes}
use sandbox_stack.Prelude.{List, [], ◌∷◌, Option, some, none}
use sandbox_stack.Prelude.Int.{ℤ, pos, negsuc}
use sandbox_stack.Bytes.{bytes_of}
use sandbox_stack.Cc.Asm.{
  null_name, Asm, Op, Enc, Result, ok, stop, o_reg, o_imm, o_mem, encode, emits,
}
use sandbox_stack.Cc.Asm.Decode.{memory}
use sandbox_stack.Cc.Asm.RoundTrip.{Encoded, decode-encode}
use sandbox_stack.Cc.Asm.RoundTrip.Rm.{as_memory}
use sandbox_stack.Cc.Elf.{Layout, layout, resolve}
use sandbox_stack.Cc.Instr.{no_enc}
use sandbox_stack.Cc.Instr.Integer.{instruction}
use sandbox_stack.Cc.Instr.Choose.{movx}

abbrev no_op : Op
no_op = record {
  kind = o_imm;
  reg = pos 0;
  size = 0;
  high8 = false;
  xmm = false;
  imm = pos 0;
  base = pos 0;
  disp = pos 0;
  sym = null_name;
  gotpcrel = false;
}

abbrev general : ℕ → ℕ → Op
general r size = record no_op { kind = o_reg; reg = pos r; size = size }

abbrev xmm : ℕ → Op
xmm r = record no_op { kind = o_reg; reg = pos r; size = 16; xmm = true }

abbrev number : ℤ → Op
number z = record no_op { imm = z }

-- 8(%rsp)
abbrev slot : Op
slot = record no_op { kind = o_mem; base = pos 4; disp = pos 8 }

abbrev pub empty_asm : Asm
empty_asm = record {
  text = [];
  data_bytes = [];
  bss_len = 0;
  in_text = true;
  cur_bss = false;
  syms = [];
  fixups = [];
}

-- What is in the text after an instruction.
abbrev pub text_of : Result Asm → Option (List ℕ)
text_of (ok s) = some s.text
text_of (stop e) = none

-- The text after an instruction on operands.
abbrev assembled : List ℕ → List Op → Option (List ℕ)
assembled mn ops = text_of (instruction mn [] ops empty_asm)

-- addq $5, 8(%rsp)
adds :
    assembled (codes "addq") (number (pos 5) ∷ slot ∷ [])
    ≡ some (0x48 ∷ 0x83 ∷ 0x44 ∷ 0x24 ∷ 0x08 ∷ 0x05 ∷ [])
unfolding instruction emits bytes_of
adds = refl

-- movl $-1, 8(%rsp)
moves :
    assembled (codes "movl") (number (negsuc 0) ∷ slot ∷ [])
    ≡ some (0xC7 ∷ 0x44 ∷ 0x24 ∷ 0x08 ∷ 0xFF ∷ 0xFF ∷ 0xFF ∷ 0xFF ∷ [])
unfolding instruction emits bytes_of
moves = refl

-- movzbl %sil, %eax
extends :
    assembled (codes "movzbl") (general 6 1 ∷ general 0 4 ∷ [])
    ≡ some (0x40 ∷ 0x0F ∷ 0xB6 ∷ 0xC6 ∷ [])
unfolding instruction emits bytes_of movx
extends = refl

-- cvtsi2sdq %rax, %xmm1
converts :
    assembled (codes "cvtsi2sdq") (general 0 8 ∷ xmm 1 ∷ [])
    ≡ some (0xF2 ∷ 0x48 ∷ 0x0F ∷ 0x2A ∷ 0xC8 ∷ [])
unfolding instruction emits bytes_of
converts = refl

-- cmp %r12, %rdi
compares :
    assembled (codes "cmp") (general 12 8 ∷ general 7 8 ∷ []) ≡ some (0x4C ∷ 0x39 ∷ 0xE7 ∷ [])
unfolding instruction emits bytes_of
compares = refl

-- negl $5 is accepted, as negl (%rax).
accepts_immediate :
    assembled (codes "negl") (number (pos 5) ∷ [])
    ≡ assembled (codes "negl") (record no_op { kind = o_mem } ∷ [])
unfolding instruction emits bytes_of
accepts_immediate = refl

-- movzx %eax, %rax extends by the sign, as movslq does.
extends_sign :
    assembled (codes "movzx") (general 0 4 ∷ general 0 8 ∷ [])
    ≡ assembled (codes "movslq") (general 0 4 ∷ general 0 8 ∷ [])
unfolding instruction emits bytes_of movx
extends_sign = refl

-- sarl %eax is refused, shrl %eax is not.
refuses_sarl : assembled (codes "sarl") (general 0 4 ∷ []) ≡ none
unfolding instruction
refuses_sarl = refl

accepts_shrl : assembled (codes "shrl") (general 0 4 ∷ []) ≡ some (0xD1 ∷ 0xE8 ∷ [])
unfolding instruction emits bytes_of
accepts_shrl = refl

-- The encoding of addq $5, 8(%rsp)
abbrev add_slot : Enc
add_slot = record no_enc { w = true; op = 0x83 ∷ []; rm = some slot; imm_size = 1; imm = pos 5 }

decode-encode_example : Encoded add_slot empty_asm 0 (memory 4 (pos 8)) (encode add_slot empty_asm)
decode-encode_example =
    decode-encode add_slot slot empty_asm 0 4 (memory 4 (pos 8)) refl (as_memory 4 refl refl)
      (omega arith) refl (omega arith) (0x83, [], refl, (refl, refl), (omega arith, tt), refl, refl)

-- call f; ret, with f behind the call
abbrev pub f_name : List ℕ
f_name = codes "f"

abbrev pub call_ret : Asm
call_ret = record empty_asm {
  text = 0xE8 ∷ 0 ∷ 0 ∷ 0 ∷ 0 ∷ 0xC3 ∷ [];
  syms = (codes "_start", record { sec = 0; off = 0 }) ∷ (f_name, record { sec = 0; off = 5 }) ∷ [];
  fixups = record { in_text = true; off = 1; name = f_name; addend = negsuc 3; abs64 = false } ∷ [];
}

-- The image of the call, resolved: the distance from behind the call to f is 0.
abbrev one_page : Layout
one_page = record {
  text_off = 0x1000;
  text_addr = 0x401000;
  data_off = 0x2000;
  data_addr = 0x402000;
  bss_addr = 0x402000;
}

lays_out : layout call_ret ≡ ok one_page
unfolding layout
lays_out = refl

resolves : text_of (resolve one_page call_ret.fixups call_ret) ≡ some call_ret.text
unfolding resolve bytes_of
resolves = refl

-- sub $0xFFFFFFFF, %eax
abbrev all_ones : ℤ
all_ones = pos 0xFFFFFFFF

-- It takes one byte.
subtracts :
    assembled (codes "sub") (number all_ones ∷ general 0 4 ∷ []) ≡ some (0x83 ∷ 0xE8 ∷ 0xFF ∷ [])
unfolding instruction emits bytes_of
subtracts = refl
