-- ===== src/Cc/Lines.antt =====
-- The directives and labels of cc/asm.c. What it calls of the C library is a parameter.
pub mod Labels
pub mod Align
pub mod Placed
use sandbox_stack.Prelude.{
  ℕ, zero, suc, ◌+◌, ◌-◌, ◌*◌, ◌%◌, ◌^◌, Bool, true, false, not, ◌&&◌, ◌||◌, bit_and,
}
use sandbox_stack.Prelude.{
  List, [], ◌∷◌, ◌++◌, Option, none, some, length, leb, ◌==◌, if◌then◌else◌, codes,
}
use sandbox_stack.Prelude.Int.{ℤ, pos, negsuc, pattern, magnitude}
use sandbox_stack.Bytes.{bytes_of}
use sandbox_stack.Cc.Asm.{
  Asm, Name, Sym, Result, ok, stop, ◌>>=◌, ◌>>◌, require, current, emit8, emits, add_fixup,
}
use sandbox_stack.Cc.Asm.{duplicate_symbol, unsupported, bad_number, bad_directive}
use sandbox_stack.Cc.Elf.{lookup, align_to, zeros}
use sandbox_stack.Cc.Instr.{named}

-- `strtol` and `strtoll` to base 0, `strtoull` to base 0, and `strtoll` to base 10: the value, what is
-- left behind it, and whether `errno` is set; what `%d` prints for an int that is not negative.
pub record Clib : Type 0 where
  pub is_space : ℕ → Bool
  pub is_digit : ℕ → Bool
  pub is_alnum : ℕ → Bool
  pub strtol : Name → ℤ × Name × Bool
  pub strtoull : Name → ℕ × Name × Bool
  pub strtoll_10 : Name → ℤ × Name × Bool
  pub print_int : ℕ → Name

-- The place of a symbol that is defined now.
abbrev pub here : Asm → Sym
here s = record {
  sec = if s.cur_bss then 2 else if s.in_text then 0 else 1;
  off = if s.cur_bss then s.bss_len else length (current s);
}

abbrev pub define_new : Name → Asm → Option Sym → Result Asm
define_new name s (some t) = stop duplicate_symbol
define_new name s none = ok (record s { syms = s.syms ++ ((name, here s) ∷ []) })

-- `define_sym`
unfoldable pub define_sym : Name → Asm → Result Asm
unfolding lookup
define_sym name s = define_new name s (lookup name s.syms)

-- `cur = …; cur_bss = …`
abbrev pub to_text : Asm → Asm
to_text s = record s { in_text = true; cur_bss = false }

abbrev pub to_data : Bool → Asm → Asm
to_data bss s = record s { in_text = false; cur_bss = bss }

-- `while (cur->len % a) emit8(…)`, with a round for each byte of `a`
unfoldable pub pad : ℕ → ℕ → Asm → Asm
pad zero a s = s
pad (suc fuel) a s =
    let padded = pad fuel a (emit8 (if s.in_text then 0x90 else 0) s) in
    if length (current s) % a == 0 then s else padded

abbrev pub align_bss : Asm → Result ℕ → Result Asm
align_bss s (ok n) = ok (record s { bss_len = n })
align_bss s (stop e) = stop e

-- `.align`, with the number read
unfoldable pub align : ℕ → Asm → Result Asm
unfolding pad
align a s =
    require (bit_and a (a - 1) == 0) bad_number
    >> (if s.cur_bss then align_bss s (align_to s.bss_len a) else ok (pad a a s))

module _ (lib : Clib) where
  abbrev pub drop_spaces : Name → Name
  drop_spaces [] = []
  drop_spaces (c ∷ s) = let rest = drop_spaces s in if lib.is_space c then rest else c ∷ s

  -- A letter before what is left of the rest.
  abbrev pub keep_letter : ℕ → Name → Name
  keep_letter c [] = if lib.is_space c then [] else c ∷ []
  keep_letter c (d ∷ s) = c ∷ (d ∷ s)

  abbrev pub drop_trailing : Name → Name
  drop_trailing [] = []
  drop_trailing (c ∷ s) = keep_letter c (drop_trailing s)

  abbrev pub trim : Name → Name
  trim s = drop_trailing (drop_spaces s)

  abbrev pub is_empty : Name → Bool
  is_empty [] = true
  is_empty (c ∷ s) = false

  -- `num`, with the bounds as tests
  abbrev pub num : Name → (ℤ → Bool) → Result ℤ
  num s within =
      let (v, rest, overflow) = lib.strtol (trim s) in
      require (not (is_empty (trim s) || not (is_empty rest) || overflow) && within v) bad_number
      >> ok v

  abbrev pub between : ℕ → ℕ → ℤ → Bool
  between low high (pos n) = leb low n && leb n high
  between low high (negsuc n) = false

  -- `lo` is negative, of this magnitude.
  abbrev pub from_minus : ℕ → ℕ → ℤ → Bool
  from_minus low high (pos n) = leb n high
  from_minus low high (negsuc n) = leb (n + 1) low

  abbrev pub is_sign : ℕ → Bool
  is_sign c = c == b'+' || c == b'-'

  -- What is before the first sign, and from it on
  abbrev pub split_sign : Name → Name × Name
  split_sign [] = ([], [])
  split_sign (c ∷ s) =
      let (before, after) = split_sign s in if is_sign c then ([], c ∷ s) else (c ∷ before, after)

  abbrev pub starts_number : Name → Bool
  starts_number [] = lib.is_digit 0
  starts_number (c ∷ s) = lib.is_digit c || c == b'-'

  abbrev pub addend_of : Name → Result ℤ
  addend_of after = if is_empty after then ok (pos 0) else num after (from_minus (2 ^ 40) (2 ^ 40))

  -- `.quad`, on the trimmed rest
  unfoldable pub quad : Name → Asm → Result Asm
  unfolding emits add_fixup
  quad rest s =
      if starts_number rest
      then (let (v, left, overflow) = lib.strtol rest in
          require (is_empty left && not overflow) bad_number
          >> ok (emits (bytes_of 8 (pattern 64 v)) s))
      else (let (before, after) = split_sign rest in
          addend_of after >>= λ addend.
          ok (emits (bytes_of 8 0) (add_fixup (trim before) addend true s)))

  -- `.section`
  abbrev pub to_section : Name → Asm → Result Asm
  to_section name s =
      if named (codes ".text") name
      then ok (to_text s)
      else if named (codes ".data") name
      then ok (to_data false s)
      else if named (codes ".bss") name
      then ok (to_data true s)
      else stop unsupported

  abbrev pub is_ignored : Name → Bool
  is_ignored d =
      named (codes ".globl") d
      || named (codes ".local") d
      || named (codes ".type") d
      || named (codes ".size") d
      || named (codes ".file") d
      || named (codes ".loc") d

  abbrev pub zero_fill : ℕ → Asm → Asm
  zero_fill n s = if s.cur_bss then record s { bss_len = s.bss_len + n } else emits (zeros n) s

  -- What follows the test for data in `.bss`
  unfoldable pub data_directive : Name → Name → Asm → Result Asm
  unfolding emits quad zeros
  data_directive d rest s =
      if named (codes ".byte") d
      then (num rest (from_minus 128 255) >>= λ v. ok (emit8 (pattern 8 v) s))
      else if named (codes ".zero") d
      then (num rest (between 0 (2 ^ 31)) >>= λ v. ok (zero_fill (magnitude v) s))
      else if named (codes ".quad") d
      then quad (trim rest) s
      else if named (codes ".comm") d
      then stop unsupported
      else stop bad_directive

  -- `directive`
  unfoldable pub directive : Name → Name → Asm → Result Asm
  unfolding align data_directive
  directive d rest s =
      if named (codes ".text") d
      then ok (to_text s)
      else if named (codes ".data") d
      then ok (to_data false s)
      else if named (codes ".bss") d
      then ok (to_data true s)
      else if named (codes ".section") d
      then to_section (trim rest) s
      else if is_ignored d
      then ok s
      else if named (codes ".align") d
      then (num rest (between 1 4096) >>= λ a. align (magnitude a) s)
      else if s.cur_bss && (named (codes ".byte") d || named (codes ".quad") d)
      then stop bad_directive
      else data_directive d rest s
