-- ===== src/Cc/Syntax.antt =====
-- The operands of an instruction in cc/asm.c: from their text to `Op`.
pub mod Parsed
pub mod Decoded
use sandbox_stack.Prelude.{
  ℕ, zero, suc, ◌+◌, ◌-◌, ◌*◌, ◌%◌, ◌^◌, Bool, true, false, not, ◌&&◌, ◌||◌,
}
use sandbox_stack.Prelude.{
  List, [], ◌∷◌, ◌++◌, Option, none, some, get_or, ltb, ◌==◌, if◌then◌else◌, codes,
}
use sandbox_stack.Prelude.Int.{ℤ, pos, negsuc, signed}
use sandbox_stack.Cc.Asm.{
  null_name, Asm, Name, Op, Result, ok, stop, ◌>>=◌, ◌>>◌, require, is_minus_one, o_none, o_reg,
  o_imm, o_mem, o_label,
}
use sandbox_stack.Cc.Asm.{
  unknown_register, bad_operand, bad_number, too_many_operands, undefined_numeric_label,
}
use sandbox_stack.Cc.Instr.{named}
use sandbox_stack.Cc.Instr.Choose.{at}
use sandbox_stack.Cc.Instr.Integer.{instruction}
use sandbox_stack.Cc.Lines.{Clib, trim, is_empty}

-- `strchr`: what is before the first such letter, and what is behind it, if there is one.
unfoldable pub cut : ℕ → Name → Name × Option Name
cut c [] = ([], none)
cut c (d ∷ s) =
    let (before, behind) = cut c s in if d == c then ([], some s) else (d ∷ before, behind)

-- `strpbrk`
abbrev pub is_one_of : Name → ℕ → Bool
is_one_of [] c = false
is_one_of (x ∷ xs) c = x == c || is_one_of xs c

unfoldable pub has_any : Name → Name → Bool
has_any letters [] = false
has_any letters (c ∷ s) = is_one_of letters c || has_any letters s

-- `strstr`: what is before the text, if it occurs.
abbrev pub starts : Name → Name → Bool
starts [] s = true
starts (p ∷ ps) [] = false
starts (p ∷ ps) (c ∷ s) = p == c && starts ps s

abbrev pub after_letter : ℕ → Option Name → Option Name
after_letter c none = none
after_letter c (some s) = some (c ∷ s)

unfoldable pub before_text : Name → Name → Option Name
before_text p [] = none
before_text p (c ∷ s) =
    let rest = before_text p s in if starts p (c ∷ s) then some [] else after_letter c rest

-- The pieces between such letters: one more than there are of them.
abbrev pub onto_first : ℕ → List Name → List Name
onto_first c [] = (c ∷ []) ∷ []
onto_first c (p ∷ ps) = (c ∷ p) ∷ ps

unfoldable pub pieces : ℕ → Name → List Name
pieces sep [] = [] ∷ []
pieces sep (c ∷ s) = let rest = pieces sep s in if c == sep then [] ∷ rest else onto_first c rest

-- `Op o = {0}`
abbrev pub empty_op : Op
empty_op = record {
  kind = o_none;
  reg = pos 0;
  size = 0;
  high8 = false;
  xmm = false;
  imm = pos 0;
  base = pos 0;
  disp = pos 0;
  sym = null_name;
  gotpcrel = false;
}

abbrev pub tail : Name → Name
tail [] = []
tail (c ∷ s) = s

-- Registers with these names and numbers from `first` on, as operands
abbrev pub numbered : Op → ℕ → List Name → List (Name × Op)
numbered o first [] = []
numbered o first (name ∷ names) =
    (name, record o { kind = o_reg; reg = pos first }) ∷ numbered o (suc first) names

abbrev pub sized : ℕ → Op
sized size = record empty_op { size = size }

-- `regs`
unfoldable pub regs : List (Name × Op)
regs =
    numbered (sized 8) 0 (
      codes "rax"
      ∷ codes "rcx"
      ∷ codes "rdx"
      ∷ codes "rbx"
      ∷ codes "rsp"
      ∷ codes "rbp"
      ∷ codes "rsi"
      ∷ codes "rdi"
      ∷ codes "r8"
      ∷ codes "r9"
      ∷ codes "r10"
      ∷ codes "r11"
      ∷ codes "r12"
      ∷ codes "r13"
      ∷ codes "r14"
      ∷ codes "r15"
      ∷ [])
    ++ (numbered (sized 4) 0 (
          codes "eax"
          ∷ codes "ecx"
          ∷ codes "edx"
          ∷ codes "ebx"
          ∷ codes "esp"
          ∷ codes "ebp"
          ∷ codes "esi"
          ∷ codes "edi"
          ∷ codes "r8d"
          ∷ codes "r9d"
          ∷ codes "r10d"
          ∷ codes "r11d"
          ∷ codes "r12d"
          ∷ codes "r13d"
          ∷ codes "r14d"
          ∷ codes "r15d"
          ∷ [])
        ++ (numbered (sized 2) 0 (
              codes "ax"
              ∷ codes "cx"
              ∷ codes "dx"
              ∷ codes "bx"
              ∷ codes "sp"
              ∷ codes "bp"
              ∷ codes "si"
              ∷ codes "di"
              ∷ codes "r8w"
              ∷ codes "r9w"
              ∷ codes "r10w"
              ∷ codes "r11w"
              ∷ codes "r12w"
              ∷ codes "r13w"
              ∷ codes "r14w"
              ∷ codes "r15w"
              ∷ [])
            ++ (numbered (sized 1) 0 (
                  codes "al"
                  ∷ codes "cl"
                  ∷ codes "dl"
                  ∷ codes "bl"
                  ∷ codes "spl"
                  ∷ codes "bpl"
                  ∷ codes "sil"
                  ∷ codes "dil"
                  ∷ codes "r8b"
                  ∷ codes "r9b"
                  ∷ codes "r10b"
                  ∷ codes "r11b"
                  ∷ codes "r12b"
                  ∷ codes "r13b"
                  ∷ codes "r14b"
                  ∷ codes "r15b"
                  ∷ [])
                ++ (numbered (record (sized 1) { high8 = true }) 4
                      (codes "ah" ∷ codes "ch" ∷ codes "dh" ∷ codes "bh" ∷ [])
                    ++ (numbered (record (sized 16) { xmm = true }) 0
                          (codes "xmm0"
                            ∷ codes "xmm1"
                            ∷ codes "xmm2"
                            ∷ codes "xmm3"
                            ∷ codes "xmm4"
                            ∷ codes "xmm5"
                            ∷ codes "xmm6"
                            ∷ codes "xmm7"
                            ∷ [])
                        ++ ((codes "rip", record (sized 8) { kind = o_reg; reg = negsuc 0 })
                            ∷ []))))))

abbrev pub find_reg : Name → List (Name × Op) → Result Op
find_reg s [] = stop unknown_register
find_reg s ((name, o) ∷ rest) = let later = find_reg s rest in if named name s then ok o else later

-- `parse_reg`, behind the `%`
unfoldable pub parse_reg : Name → Result Op
unfolding regs
parse_reg s = find_reg s regs

-- `parse_reg(s, &o)` on an `o` that is empty: without a `%` it stays so.
abbrev pub reg_or_empty : Name → Result Op
reg_or_empty [] = ok empty_op
reg_or_empty (c ∷ s) = if c == b'%' then parse_reg s else ok empty_op

abbrev pub label_op : Name → Op
label_op name = record empty_op { kind = o_label; sym = name }

module _ (lib : Clib) where
  -- The number behind `$`
  abbrev pub read_immediate : Name → ℤ × Name × Bool
  read_immediate s =
      if at s 0 == b'-'
      then lib.strtol s
      else (let (v, left, overflow) = lib.strtoull s in
          (signed (2 ^ 63) (v % 2 ^ 64), left, overflow))

  unfoldable pub immediate : Name → Result Op
  immediate s =
      let (v, left, overflow) = read_immediate s in
      require (is_empty lib left && not overflow) bad_number
      >> ok (record empty_op { kind = o_imm; imm = v })

  abbrev pub symbolic : Option Name → Name → Op → Result Op
  symbolic (some name) s o =
      require (not (has_any (codes "+-@ ") name)) bad_operand
      >> ok (record o { gotpcrel = true; sym = name })
  symbolic none s o =
      require (not (has_any (codes "+-@ ") s)) bad_operand >> ok (record o { sym = s })

  -- What is before the parenthesis
  unfoldable pub displacement : Name → Op → Result Op
  unfolding before_text has_any
  displacement s o =
      if is_empty lib s
      then ok o
      else if at s 0 == b'-' || lib.is_digit (at s 0)
      then (let (v, left, overflow) = lib.strtoll_10 s in
          require (is_empty lib left) bad_number >> ok (record o { disp = v }))
      else (require (is_minus_one o.base) bad_operand
          >> symbolic (before_text (codes "@GOTPCREL") s) s o)

  -- What is between the parentheses, and behind them
  abbrev pub based : Name → Name × Option Name → Result Op
  based before (inner, none) = stop bad_operand
  based before (inner, some behind) =
      require (is_empty lib behind) bad_operand
      >> (require (not (has_any (codes ",") inner)) bad_operand
          >> (reg_or_empty inner >>= λ b.
              displacement (trim lib before) (record empty_op { kind = o_mem; base = b.reg })))

  -- `1f` and `1b`
  abbrev pub is_numeric : Name → Bool
  is_numeric [] = false
  is_numeric (c ∷ []) = false
  is_numeric (c ∷ (d ∷ [])) = lib.is_digit c && (d == b'f' || d == b'b')
  is_numeric (c ∷ (d ∷ (e ∷ s))) = false

  -- `numeric_name`
  abbrev pub numeric_name : ℕ → ℕ → Name
  numeric_name n k = codes ".num" ++ (lib.print_int n ++ (b'.' ∷ lib.print_int k))

  unfoldable pub numeric : List ℕ → Name → Result Op
  numeric counts s =
      let n = at s 0 - 48 in
      let k = get_or counts n 0 in
      if at s 1 == b'f'
      then ok (label_op (numeric_name n (k + 1)))
      else (require (not (k == 0)) undefined_numeric_label >> ok (label_op (numeric_name n k)))

  -- `*%rax`, or a label
  unfoldable pub label_or_register : Name → Result Op
  unfolding has_any parse_reg
  label_or_register s =
      require (not (has_any (codes "+-@ ()") s)) bad_operand
      >> (if at s 0 == b'*'
          then (require (at s 1 == b'%') bad_operand >> reg_or_empty (tail s))
          else ok (label_op s))

  abbrev pub memory_or_label : List ℕ → Name → Name × Option Name → Result Op
  memory_or_label counts s (before, some behind) = based before (cut b')' behind)
  memory_or_label counts s (before, none) =
      if is_numeric s then numeric counts s else label_or_register s

  -- `parse_op`, on the trimmed text
  unfoldable pub parse_trimmed : List ℕ → Name → Result Op
  unfolding cut parse_reg immediate numeric label_or_register displacement
  parse_trimmed counts s =
      if at s 0 == b'%'
      then parse_reg (tail s)
      else if at s 0 == b'$'
      then immediate (tail s)
      else memory_or_label counts s (cut b'(' s)

  unfoldable pub parse_op : List ℕ → Name → Result Op
  unfolding parse_trimmed
  parse_op counts s = parse_trimmed counts (trim lib s)

  -- The loop over the operands: `n` more are taken.
  unfoldable pub parse_ops : List ℕ → ℕ → List Name → Result (List Op)
  unfolding parse_op
  parse_ops counts n [] = ok []
  parse_ops counts zero (p ∷ ps) = stop too_many_operands
  parse_ops counts (suc n) (p ∷ ps) =
      parse_op counts p >>= λ o. parse_ops counts n ps >>= λ os. ok (o ∷ os)

  unfoldable pub operands : List ℕ → Name → Result (List Op)
  unfolding pieces parse_ops
  operands counts rest = if is_empty lib rest then ok [] else parse_ops counts 3 (pieces b',' rest)

  -- What parsing leaves of the text of the first operand, where it writes zeros into it
  abbrev pub up_to_got : Option Name → Name → Name
  up_to_got (some before) s = before
  up_to_got none s = s

  abbrev pub left_of : Name × Option Name → Name
  left_of (before, some behind) = up_to_got (before_text (codes "@GOTPCREL") before) before
  left_of (before, none) = before

  abbrev pub first_text : Name → Name
  first_text rest = trim lib (left_of (cut b'(' (cut b',' rest).0))

  -- `instruction`, from the text behind the mnemonic
  unfoldable pub instruction_text : List ℕ → Name → Name → Asm → Result Asm
  unfolding operands cut before_text instruction
  instruction_text counts mn rest s =
      operands counts rest >>= λ ops. instruction mn (first_text rest) ops s
