-- ===== src/Cc/Asm.antt =====
-- The assembler of cc/asm.c: its state, and the encoder of an instruction.
pub mod Decode
pub mod Bytes
pub mod Operands
pub mod RoundTrip
use sandbox_stack.Prelude.{
  ℕ, zero, suc, ◌+◌, ◌-◌, ◌*◌, ◌%◌, ◌^◌, Bool, true, false, not, ◌&&◌, ◌||◌,
}
use sandbox_stack.Prelude.{
  List, [], ◌∷◌, ◌++◌, Option, none, some, length, bit_or, leb, ◌==◌, if◌then◌else◌,
}
use sandbox_stack.Prelude.Int.{ℤ, pos, negsuc, sub_nat, pattern}
use sandbox_stack.Bytes.{bytes_of}

-- What `asm_error` reports.
pub data AsmError : Type 0 where
  high_byte_register_with_rex displacement_out_of_range cannot_determine_operand_size : AsmError
  operand_size_mismatch immediate_does_not_fit bad_operands unknown_instruction : AsmError
  duplicate_symbol undefined_symbol relocation_out_of_range no_start unsupported bad_number
        bad_directive unknown_register bad_operand too_many_operands undefined_numeric_label
        bad_label instruction_in_bss :
      AsmError
  -- No message: C does not define what happens, with a NULL for a string, or an int that overflows,
  -- among them the `cap` of a section that gets more than 2^30 bytes.
  int_overflow stem_overflow null_symbol section_overflow : AsmError
  -- Not an end of the C: it converts a value that is no int to one, and goes on where the model ends.
  not_followed : AsmError

-- A call returns, or `asm_error` or `error` ends the program.
pub data Result {ℓ} (A : Type ℓ) : Type ℓ where
  ok : A → Result A
  stop : AsmError → Result A

infixl 5 ◌>>=◌
abbrev pub ◌>>=◌ {ℓ κ} : {A : Type ℓ} {B : Type κ} → Result A → (A → Result B) → Result B
stop e >>= f = stop e
ok x >>= f = f x

-- `if (!c) asm_error(…);`
abbrev pub require : Bool → AsmError → Result (Unit {0})
require c e = if c then ok tt else stop e

infixl 5 ◌>>◌
abbrev pub ◌>>◌ {ℓ} : {B : Type ℓ} → Result (Unit {0}) → Result B → Result B
r >> s = r >>= λ _. s

abbrev pub Name : Type 0
Name = List ℕ

-- NULL in the place of a string: no string of C has a byte 0.
abbrev pub null_name : Name
null_name = 0 ∷ []

-- `Fixup`; `in_text` is `sec == 0`.
pub record Fixup : Type 0 where
  pub in_text : Bool
  pub off : ℕ
  pub name : Name
  pub addend : ℤ
  pub abs64 : Bool

-- `Sym`, with the section 0, 1 or 2
pub record Sym : Type 0 where
  pub sec : ℕ
  pub off : ℕ

-- The file's variables. `in_text` says which section `cur` points to.
pub record Asm : Type 0 where
  pub text : List ℕ
  pub data_bytes : List ℕ
  pub bss_len : ℕ
  pub in_text : Bool
  pub cur_bss : Bool
  pub syms : List (Name × Sym)
  pub fixups : List Fixup

-- The bytes of `*cur`.
abbrev pub current : Asm → List ℕ
current s = if s.in_text then s.text else s.data_bytes

abbrev pub set_current : List ℕ → Asm → Asm
set_current xs s = if s.in_text then record s { text = xs } else record s { data_bytes = xs }

-- `emit8`, for a section of at most 2^30 bytes after it: `assemble_line` ends where one has more.
abbrev pub emit8 : ℕ → Asm → Asm
emit8 v s = set_current (current s ++ ((v % 256) ∷ [])) s

-- `emit8` in turn
unfoldable pub emits : List ℕ → Asm → Asm
emits [] s = s
emits (x ∷ xs) s = emits xs (emit8 x s)

-- `(v >> (8 * i)) & 0xff` for `i` below `n`
abbrev pub int_bytes : ℕ → ℤ → List ℕ
int_bytes n v = bytes_of n (pattern (8 * n) v)

-- `add_fixup`
unfoldable pub add_fixup : Name → ℤ → Bool → Asm → Asm
add_fixup name addend abs64 s = record s {
  fixups =
      s.fixups
      ++ (record {
        in_text = s.in_text;
        off = length (current s);
        name = name;
        addend = addend;
        abs64 = abs64;
      }
          ∷ []);
}

pub data Kind : Type 0 where
  o_none o_reg o_imm o_mem o_label : Kind

-- `Op`. A field that the kind does not use is 0, as `Op o = {0}` leaves it, and `sym` then is NULL.
pub record Op : Type 0 where
  pub kind : Kind
  pub reg : ℤ
  pub size : ℕ
  pub high8 : Bool
  pub xmm : Bool
  pub imm : ℤ
  pub base : ℤ
  pub disp : ℤ
  pub sym : Name
  pub gotpcrel : Bool

abbrev pub is_reg : Op → Bool
is_reg o = elim o.kind [ o_reg ↦ true | _ ↦ false ]

abbrev pub is_imm : Op → Bool
is_imm o = elim o.kind [ o_imm ↦ true | _ ↦ false ]

abbrev pub is_mem : Op → Bool
is_mem o = elim o.kind [ o_mem ↦ true | _ ↦ false ]

abbrev pub is_label : Op → Bool
is_label o = elim o.kind [ o_label ↦ true | _ ↦ false ]

-- `Enc`; the list is `op` up to `oplen`.
pub record Enc : Type 0 where
  pub prefix : ℕ
  pub w : Bool
  pub need_rex : Bool
  pub op : List ℕ
  pub reg : ℤ
  pub reg_high8 : Bool
  pub rm : Option Op
  pub imm_size : ℕ
  pub imm : ℤ
  pub opsize16 : Bool

-- `x >= 8` and `x & 7`
abbrev pub is_extended : ℤ → Bool
is_extended (pos n) = leb 8 n
is_extended (negsuc n) = false

abbrev pub low3 : ℤ → ℕ
low3 (pos n) = n % 8
low3 (negsuc n) = 7 - n % 8

abbrev pub is_minus_one : ℤ → Bool
is_minus_one (pos n) = false
is_minus_one (negsuc n) = n == 0

abbrev pub is_zero : ℤ → Bool
is_zero (pos n) = n == 0
is_zero (negsuc n) = false

-- `fits8` and `fits32`, for `half` of 128 and 2^31
abbrev pub fits : ℕ → ℤ → Bool
fits half (pos n) = leb (n + 1) half
fits half (negsuc n) = leb (n + 1) half

abbrev pub extended_rm : Option Op → Bool
extended_rm none = false
extended_rm (some o) = is_reg o && is_extended o.reg || is_mem o && is_extended o.base

abbrev pub high_rm : Option Op → Bool
high_rm none = false
high_rm (some o) = is_reg o && o.high8

unfoldable pub rex : Enc → ℕ
rex e =
    let r1 = if e.w then bit_or 0x40 8 else 0x40 in
    let r2 = if is_extended e.reg then bit_or r1 4 else r1 in
    if extended_rm e.rm then bit_or r2 1 else r2

-- `rex != 0x40 || e->need_rex`
unfoldable pub forces_rex : Enc → Bool
unfolding rex
forces_rex e = not (rex e == 0x40) || e.need_rex

-- The bytes up to the opcode's end.
unfoldable pub head_bytes : Enc → List ℕ
unfolding rex forces_rex
head_bytes e =
    (if e.opsize16 then 0x66 ∷ [] else [])
    ++ ((if e.prefix == 0 then [] else e.prefix ∷ [])
        ++ ((if forces_rex e then rex e ∷ [] else []) ++ e.op))

-- `(mod << 6) | (r << 3) | b`
abbrev pub modrm : ℕ → ℕ → ℕ → ℕ
modrm mode r b = bit_or (bit_or (mode * 64) (r * 8)) b

-- `mod` of a memory operand with a base register.
abbrev pub memory_mod : Op → ℕ
memory_mod o =
    if is_zero o.disp && not (low3 o.base == 5) then 0 else if fits 128 o.disp then 1 else 2

abbrev pub disp_bytes : ℕ → ℤ → List ℕ
disp_bytes mode d = if mode == 1 then int_bytes 1 d else if mode == 2 then int_bytes 4 d else []

-- The bytes of a memory operand with a base register.
unfoldable pub memory_bytes : ℕ → Op → List ℕ
memory_bytes r o =
    modrm (memory_mod o) r (low3 o.base) ∷ (if low3 o.base == 4 then 0x24 ∷ [] else [])
    ++ disp_bytes (memory_mod o) o.disp

unfoldable pub encode_operand : Enc → Op → Asm → Result Asm
unfolding emits add_fixup memory_bytes
encode_operand e o s =
    if is_reg o
    then ok (emit8 (modrm 3 (low3 e.reg) (low3 o.reg)) s)
    else if is_minus_one o.base
    then ok (
        emits (bytes_of 4 0) (
          add_fixup o.sym (sub_nat o.disp (4 + e.imm_size)) false
            (emit8 (modrm 0 (low3 e.reg) 5) s)))
    else (require (not (memory_mod o == 2) || fits (2 ^ 31) o.disp) displacement_out_of_range
        >> ok (emits (memory_bytes (low3 e.reg) o) s))

abbrev pub encode_rm : Enc → Option Op → Asm → Result Asm
encode_rm e none s = ok s
encode_rm e (some o) s = encode_operand e o s

-- The `switch` on the size of the immediate.
unfoldable pub imm_bytes : Enc → List ℕ
imm_bytes e =
    if e.imm_size == 1 || e.imm_size == 2 || e.imm_size == 4 || e.imm_size == 8
    then int_bytes e.imm_size e.imm
    else []

-- `encode`
unfoldable pub encode : Enc → Asm → Result Asm
unfolding head_bytes forces_rex encode_operand emits imm_bytes
encode e s = do
  require (not (high_rm e.rm && forces_rex e)) high_byte_register_with_rex
  require (not (e.reg_high8 && forces_rex e)) high_byte_register_with_rex
  s' ← encode_rm e e.rm (emits (head_bytes e) s)
  ok (emits (imm_bytes e) s')
