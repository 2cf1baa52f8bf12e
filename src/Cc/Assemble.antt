-- ===== src/Cc/Assemble.antt =====
-- The lines of cc/asm.c, and `assemble_elf` as a whole.
pub mod Inside
pub mod Whole
pub mod Numeric
use sandbox_stack.Prelude.{ℕ, zero, suc, ◌+◌, ◌-◌, ◌^◌, Bool, true, false, not, ◌&&◌, ◌||◌}
use sandbox_stack.Prelude.{
  List, [], ◌∷◌, Option, none, some, get_or, set, length, ltb, leb, ◌==◌, if◌then◌else◌, codes,
}
use sandbox_stack.Cc.Asm.{Asm, Name, Result, ok, stop, ◌>>=◌, ◌>>◌, require}
use sandbox_stack.Cc.Asm.{int_overflow, section_overflow, bad_label, instruction_in_bss}
use sandbox_stack.Cc.Elf.{link}
use sandbox_stack.Cc.Instr.Choose.{at}
use sandbox_stack.Cc.Lines.{Clib, trim, is_empty, define_sym, directive}
use sandbox_stack.Cc.Syntax.{cut, is_one_of, pieces, onto_first, numeric_name, instruction_text}

-- The file's variables with the counts of the numeric labels, `numeric_count`
pub record Assembly : Type 0 where
  pub asm : Asm
  pub counts : List ℕ

-- What define_sym returns, with these counts
abbrev pub defining : List ℕ → Result Asm → Result Assembly
defining counts r = r >>= λ s. ok (record { asm = s; counts = counts })

-- The lines of a text: no line is behind the last end of line.
unfoldable pub lines : Name → List Name
lines [] = []
lines (c ∷ s) = let rest = lines s in if c == 10 then [] ∷ rest else onto_first c rest

-- `assemble_line` on pieces in turn
unfoldable pub each : (Name → Assembly → Result Assembly) → List Name → Assembly → Result Assembly
each step [] t = ok t
each step (p ∷ ps) t = step p t >>= λ t'. each step ps t'

module _ (lib : Clib) where
  -- `n:` with a digit: it is counted, and its name has the count.
  unfoldable pub define_numeric : ℕ → Assembly → Result Assembly
  unfolding define_sym
  define_numeric n t =
      let k = get_or t.counts n 0 in
      require (ltb (k + 1) (2 ^ 31)) int_overflow
      >> defining (set t.counts n (k + 1)) (define_sym (numeric_name lib n (k + 1)) t.asm)

  -- The definition of a label that is not empty
  unfoldable pub define_label : Name → Assembly → Result Assembly
  unfolding define_numeric define_sym
  define_label name t =
      if lib.is_digit (at name 0)
      then (if at name 1 == 0 then define_numeric (at name 0 - 48) t else stop bad_label)
      else defining t.counts (define_sym name t.asm)

  abbrev pub is_label_letter : ℕ → Bool
  is_label_letter c = lib.is_alnum c || c == b'_' || c == b'.' || c == b'$'

  abbrev pub are_label_letters : Name → Bool
  are_label_letters [] = true
  are_label_letters (c ∷ s) = is_label_letter c && are_label_letters s

  -- The first word, and what is behind the space after it
  unfoldable pub first_word : Name → Name × Name
  first_word [] = ([], [])
  first_word (c ∷ s) =
      let (word, rest) = first_word s in if lib.is_space c then ([], s) else (c ∷ word, rest)

  -- A directive or an instruction, which is not empty
  unfoldable pub statement : Name → Assembly → Result Assembly
  unfolding first_word directive instruction_text
  statement s t =
      let (word, rest) = first_word s in
      if at word 0 == b'.'
      then defining t.counts (directive lib word rest t.asm)
      else if t.asm.cur_bss
      then stop instruction_in_bss
      else defining t.counts (instruction_text lib t.counts word rest t.asm)

  abbrev pub optional_statement : Name → Assembly → Result Assembly
  optional_statement s t = if is_empty lib s then ok t else statement s t

  -- `label:` and what follows it, or a line with no label
  abbrev pub labelled : Name → Name × Option Name → Assembly → Result Assembly
  labelled s (before, none) t = statement s t
  labelled s (before, some behind) t =
      if are_label_letters before && not (is_empty lib before)
      then (define_label before t >>= λ t'. optional_statement (trim lib behind) t')
      else statement s t

  abbrev pub trimmed_line : Name → Assembly → Result Assembly
  trimmed_line s t = if is_empty lib s then ok t else labelled s (cut b':' s) t

  -- Every byte of the line found room in its section: with 2^30 bytes `cap * 2` overflows.
  abbrev pub within_cap : Assembly → Result Assembly
  within_cap t =
      require (leb (length t.asm.text) (2 ^ 30) && leb (length t.asm.data_bytes) (2 ^ 30))
        section_overflow
      >> ok t

  unfoldable pub assemble_line : Name → Assembly → Result Assembly
  unfolding cut define_label statement
  assemble_line line t = trimmed_line (trim lib (cut b'#' line).0) t >>= within_cap

  abbrev pub assemble_pieces : Name → Assembly → Result Assembly
  assemble_pieces line t = each assemble_line (pieces b';' line) t

  abbrev pub beginning : Assembly
  beginning = record {
    asm = record {
      text = [];
      data_bytes = [];
      bss_len = 0;
      in_text = true;
      cur_bss = false;
      syms = [];
      fixups = [];
    };
    counts = 0 ∷ 0 ∷ 0 ∷ 0 ∷ 0 ∷ 0 ∷ 0 ∷ 0 ∷ 0 ∷ 0 ∷ [];
  }

  -- The loop over the lines
  unfoldable pub assemble : Name → Result Assembly
  unfolding each lines pieces assemble_line
  assemble text = each assemble_pieces (lines text) beginning

  unfoldable pub assemble_elf : Name → Result (List ℕ)
  unfolding assemble link
  assemble_elf text = assemble text >>= λ t. link t.asm
