-- ===== src/Tests/Program.antt =====
-- Runs of the assembler of cc/asm.c on texts, and its theorems applied to them.
use sandbox_stack.Prelude.{
  ℕ, ◌+◌, ◌-◌, ◌*◌, ◌%◌, ◌≡◌, ◌⊎◌, refl, arith, Bool, true, false, ◌&&◌, ◌||◌, ◌==◌, leb, codes,
  if◌then◌else◌,
}
use sandbox_stack.Prelude.{List, [], ◌∷◌, ◌++◌, Option, some, none, length}
use sandbox_stack.Prelude.Int.{ℤ, pos, magnitude}
use sandbox_stack.Bytes.{bytes_of}
use sandbox_stack.Cc.Asm.{
  null_symbol, Asm, Name, Sym, Fixup, Result, ok, stop, current, duplicate_symbol, emits, ◌>>=◌,
}
use sandbox_stack.Cc.Elf.{layout, resolve, lookup, same}
use sandbox_stack.Cc.Instr.Integer.{instruction}
use sandbox_stack.Cc.Lines.{Clib, directive, data_directive, quad, align, pad, define_sym}
use sandbox_stack.Cc.Lines.Labels.{Defined, define_sym_lem}
use sandbox_stack.Cc.Lines.Align.{NextMultiple, align_lem}
use sandbox_stack.Cc.Assemble.{beginning, assemble, assemble_elf}
use sandbox_stack.Cc.Assemble.Numeric.{NumericLabel, numeric_lem, IsDigit}
use sandbox_stack.Cc.Instr.Placed.{IsPlaced}
use sandbox_stack.Tests.Asm.{empty_asm, call_ret, f_name, text_of}

-- A strtol for decimal numbers with a sign before them, without the bounds of a long.
abbrev digits : ℕ → Name → ℤ × Name × Bool
digits v [] = (pos v, [], false)
digits v (c ∷ s) =
    let rest = digits (v * 10 + (c - 48)) s in
    if leb 48 c && leb c 57 then rest else (pos v, c ∷ s, false)

abbrev signed_digits : Name → ℤ × Name × Bool
signed_digits [] = (pos 0, [], false)
signed_digits (c ∷ s) = if c == b'+' then digits 0 s else digits 0 (c ∷ s)

abbrev to_digit : ℕ → ℕ
to_digit n = 48 + n % 10

abbrev is_decimal : ℕ → Bool
is_decimal c = leb 48 c && leb c 57

abbrev decimal : Clib
decimal = record {
  is_space = λ c. c == 32;
  is_digit = is_decimal;
  is_alnum = λ c. is_decimal c || leb b'A' c && leb c b'Z' || leb b'a' c && leb c b'z';
  strtol = signed_digits;
  strtoull = λ s. let (v, left, overflow) = digits 0 s in (magnitude v, left, overflow);
  strtoll_10 = signed_digits;
  print_int = λ n. to_digit n ∷ [];
}

-- The fixups, where there is no error
abbrev fixups_of : Result Asm → Option (List Fixup)
fixups_of (ok s) = some s.fixups
fixups_of (stop e) = none

quad_f :
    fixups_of (directive decimal (codes ".quad") (codes " f+8") empty_asm)
    ≡ some (record { in_text = true; off = 0; name = f_name; addend = pos 8; abs64 = true } ∷ [])
unfolding directive data_directive quad same bytes_of
quad_f = refl

align_lem_example :
    (align 4 call_ret ≡ ok (pad 4 4 call_ret))
    × NextMultiple 4 6 (length (current (pad 4 4 call_ret)))
    × (IsPlaced call_ret → IsPlaced (pad 4 4 call_ret))
align_lem_example = align_lem 4 call_ret (omega arith) refl refl

-- It writes no-operations.
pads :
    text_of (directive decimal (codes ".align") (codes "4") call_ret)
    ≡ some (0xE8 ∷ 0 ∷ 0 ∷ 0 ∷ 0 ∷ 0xC3 ∷ 0x90 ∷ 0x90 ∷ [])
unfolding directive align pad same
pads = refl

defined_twice : define_sym f_name call_ret ≡ stop duplicate_symbol
unfolding define_sym
defined_twice = refl

define_sym_lem_example :
    ((u : Sym) × (lookup (codes "g") call_ret.syms ≡ some u)
      × (define_sym (codes "g") call_ret ≡ stop duplicate_symbol))
    ⊎ ((t : Asm) × (define_sym (codes "g") call_ret ≡ ok t) × Defined (codes "g") call_ret t)
define_sym_lem_example = define_sym_lem (codes "g") call_ret

-- The text behind the lines, where there is no error
abbrev lines_text : List ℕ → Option (List ℕ)
lines_text text = text_of (assemble decimal text >>= λ t. ok t.asm)

-- Call of a function, with a comment and two statements on a line.
abbrev program : List ℕ
program =
    codes "_start: call f # the function" ++ (10 ∷ codes "  hlt; nop" ++ (10 ∷ codes "f: ret"))

program_text : lines_text program ≡ some (0xE8 ∷ 0 ∷ 0 ∷ 0 ∷ 0 ∷ 0xF4 ∷ 0x90 ∷ 0xC3 ∷ [])
unfolding assemble instruction emits bytes_of
program_text = refl

-- A displacement beside RIP without a symbol: the name of its fixup is NULL.
abbrev nameless : List ℕ
nameless = codes "_start: movq 8(%rip), %rax"

nameless_lem : assemble_elf decimal nameless ≡ stop null_symbol
unfolding assemble_elf assemble instruction emits bytes_of layout resolve
nameless_lem = refl

-- A base without % is taken for the register 0, rax.
base_without_percent : lines_text (codes "negq 8(rbx)") ≡ lines_text (codes "negq 8(%rax)")
unfolding assemble instruction emits bytes_of
base_without_percent = refl

-- The size of a base is not looked at.
byte_as_base : lines_text (codes "negq 8(%ch)") ≡ lines_text (codes "negq 8(%rbp)")
unfolding assemble instruction emits bytes_of
byte_as_base = refl

-- %rip as an operand is encoded as %rdi.
rip_as_rdi : lines_text (codes "negq %rip") ≡ lines_text (codes "negq %rdi")
unfolding assemble instruction emits bytes_of
rip_as_rdi = refl

-- 1:
one-IsDigit : IsDigit decimal b'1'
one-IsDigit = record {
  above = omega arith;
  below = omega arith;
  digit = refl;
  no_space = refl;
  no_space_f = refl;
  no_space_b = refl;
}

numeric_lem_example : NumericLabel decimal b'1' (beginning decimal)
numeric_lem_example = numeric_lem decimal b'1' (beginning decimal) one-IsDigit refl

abbrev map_names : List Fixup → List Name
map_names [] = []
map_names (f ∷ fs) = f.name ∷ map_names fs

-- A jump back to the last label, and one on to the next
numeric_jumps :
    (assemble decimal (codes "1: jmp 1b; 1: jmp 1f; 1: ret") >>= λ t. ok (map_names t.asm.fixups))
    ≡ ok (codes ".num1.1" ∷ codes ".num1.3" ∷ [])
unfolding assemble instruction emits bytes_of
numeric_jumps = refl
