-- ===== src/Cc/Elf.antt =====
-- The end of `assemble_elf` in cc/asm.c: the layout, the fixups and the ELF file.
pub mod Put
pub mod Resolve
pub mod Image
use sandbox_stack.Prelude.{ℕ, zero, suc, ◌+◌, ◌-◌, ◌*◌, ◌/◌, ◌%◌, ◌^◌, Bool, true, false, ◌&&◌}
use sandbox_stack.Prelude.{
  List, [], ◌∷◌, ◌++◌, Option, none, some, length, leb, ◌==◌, if◌then◌else◌,
}
use sandbox_stack.Prelude.Int.{ℤ, sub_nat, pattern, signed}
use sandbox_stack.Bytes.{bytes_of}
use sandbox_stack.Cc.Asm.{Asm, Name, Sym, Fixup, Result, ok, stop, ◌>>=◌, ◌>>◌, require, fits}
use sandbox_stack.Cc.Asm.{
  undefined_symbol, relocation_out_of_range, no_start, int_overflow, null_symbol, not_followed,
  null_name,
}

abbrev pub image_base : ℕ
image_base = 0x400000

abbrev pub page : ℕ
page = 0x1000

-- `align_to` of cc/codegen.c, on `int`. A sum beyond 2^31 - 1 is not defined; a greater number than
-- that is converted when it is passed, which is not followed.
abbrev pub align_to : ℕ → ℕ → Result ℕ
align_to n align =
    if leb (2 ^ 31) n
    then stop not_followed
    else (require (leb (n + align) (2 ^ 31)) int_overflow >> ok ((n + align - 1) / align * align))

pub record Layout : Type 0 where
  pub text_off : ℕ
  pub text_addr : ℕ
  pub data_off : ℕ
  pub data_addr : ℕ
  pub bss_addr : ℕ

unfoldable pub layout : Asm → Result Layout
layout s = do
  data_off ← align_to (page + length s.text) page
  bss_addr ← align_to (image_base + data_off + length s.data_bytes) 16
  ok record {
    text_off = page;
    text_addr = image_base + page;
    data_off = data_off;
    data_addr = image_base + data_off;
    bss_addr = bss_addr;
  }

-- `sec_addr`
abbrev pub sec_addr : Layout → ℕ → ℕ
sec_addr l sec = if sec == 0 then l.text_addr else if sec == 1 then l.data_addr else l.bss_addr

-- The section of a fixup: `f->sec == 0 ? &text : &data`.
abbrev pub section : Bool → Asm → List ℕ
section true s = s.text
section false s = s.data_bytes

abbrev pub set_section : Bool → List ℕ → Asm → Asm
set_section true xs s = record s { text = xs }
set_section false xs s = record s { data_bytes = xs }

-- `strcmp(…) == 0`
unfoldable pub same : Name → Name → Bool
same [] [] = true
same [] (y ∷ ys) = false
same (x ∷ xs) [] = false
same (x ∷ xs) (y ∷ ys) = x == y && same xs ys

-- `hashmap_get`, on the symbols in the order of their definition
unfoldable pub lookup : Name → List (Name × Sym) → Option Sym
unfolding same
lookup name [] = none
lookup name ((key, value) ∷ rest) =
    let found = lookup name rest in if same key name then some value else found

-- Bytes written over those at the start; what lies beyond the end is lost.
unfoldable pub overwrite : List ℕ → List ℕ → List ℕ
overwrite [] xs = xs
overwrite (b ∷ bs) [] = []
overwrite (b ∷ bs) (x ∷ xs) = b ∷ overwrite bs xs

-- `put16`, `put32` and `put64`, by the bytes they write
unfoldable pub put : ℕ → List ℕ → List ℕ → List ℕ
unfolding overwrite
put zero bs xs = overwrite bs xs
put (suc k) bs [] = []
put (suc k) bs (x ∷ xs) = x ∷ put k bs xs

-- `(int64_t)target - (int64_t)(sec_addr[f->sec] + f->off)`; an address of the image is below 2^63.
abbrev pub relative : ℕ → ℕ → ℤ
relative target place = sub_nat (signed (2 ^ 63) target) place

-- `target`
abbrev pub target_of : Layout → Fixup → Sym → ℕ
target_of l f t = (sec_addr l t.sec + t.off + pattern 64 f.addend) % 2 ^ 64

-- `sec_addr[f->sec] + f->off`
abbrev pub place_of : Layout → Fixup → ℕ
place_of l f = (if f.in_text then l.text_addr else l.data_addr) + f.off

-- One turn of the loop on the fixups, with the symbol found.
unfoldable pub resolve_to : Layout → Fixup → Sym → Asm → Result Asm
unfolding put
resolve_to l f t s =
    if f.abs64
    then ok
        (set_section f.in_text (put f.off (bytes_of 8 (target_of l f t)) (section f.in_text s)) s)
    else (require (fits (2 ^ 31) (relative (target_of l f t) (place_of l f)))
          relocation_out_of_range
        >> ok (
            set_section f.in_text
              (put f.off (bytes_of 4 (pattern 32 (relative (target_of l f t) (place_of l f))))
                (section f.in_text s))
              s))

abbrev pub resolve_found : Layout → Fixup → Option Sym → Asm → Result Asm
resolve_found l f none s = stop undefined_symbol
resolve_found l f (some t) s = resolve_to l f t s

-- `hashmap_get` takes the length of the name first.
abbrev pub resolve_named : Layout → Fixup → Asm → Result Asm
resolve_named l f s =
    if same null_name f.name then stop null_symbol else resolve_found l f (lookup f.name s.syms) s

-- The loop.
unfoldable pub resolve : Layout → List Fixup → Asm → Result Asm
unfolding resolve_to lookup same
resolve l [] s = ok s
resolve l (f ∷ fs) s = resolve_named l f s >>= λ s'. resolve l fs s'

unfoldable pub zeros : ℕ → List ℕ
zeros zero = []
zeros (suc n) = 0 ∷ zeros n

-- The fields of a loadable segment that are set, from the offset of its program header.
unfoldable pub segment : ℕ → ℕ → ℕ → ℕ → ℕ → ℕ → ℕ → List ℕ → List ℕ
unfolding put
segment at kind flags off addr file_size mem_size xs =
    let typed = put (at + 4) (bytes_of 4 flags) (put at (bytes_of 4 kind) xs) in
    let placed =
      put (at + 24) (bytes_of 8 addr)
        (put (at + 16) (bytes_of 8 addr) (put (at + 8) (bytes_of 8 off) typed)) in
    put (at + 48) (bytes_of 8 page)
      (put (at + 40) (bytes_of 8 mem_size) (put (at + 32) (bytes_of 8 file_size) placed))

-- The ELF header and the program headers of text, data and the stack.
unfoldable pub headers : Layout → Asm → ℕ → List ℕ
unfolding put zeros segment
headers l s entry =
    let fields = put 0 (127 ∷ 69 ∷ 76 ∷ 70 ∷ 2 ∷ 1 ∷ 1 ∷ []) (zeros 232) in
    let ident = put 20 (bytes_of 4 1) (put 18 (bytes_of 2 62) (put 16 (bytes_of 2 2) fields)) in
    let offsets =
      put 40 (bytes_of 8 0) (put 32 (bytes_of 8 64) (put 24 (bytes_of 8 entry) ident)) in
    let sizes =
      put 56 (bytes_of 2 3)
        (put 54 (bytes_of 2 56) (put 52 (bytes_of 2 64) (put 48 (bytes_of 4 0) offsets))) in
    let file = put 62 (bytes_of 2 0) (put 60 (bytes_of 2 0) (put 58 (bytes_of 2 64) sizes)) in
    let text_end = l.text_off + length s.text in
    let text = segment 64 1 5 0 image_base text_end text_end file in
    let loaded =
      segment 120 1 6 l.data_off l.data_addr (length s.data_bytes)
        (l.bss_addr - l.data_addr + s.bss_len) text in
    put 224 (bytes_of 8 16) (put 180 (bytes_of 4 6) (put 176 (bytes_of 4 0x6474e551) loaded))

-- The file that is written.
unfoldable pub image : Layout → Asm → ℕ → List ℕ
image l s entry =
    headers l s entry
    ++ (zeros (l.text_off - 232)
        ++ (s.text ++ (zeros (l.data_off - (l.text_off + length s.text)) ++ s.data_bytes)))

abbrev pub entry_of : Layout → Option Sym → Result ℕ
entry_of l none = stop no_start
entry_of l (some t) = require (t.sec == 0) no_start >> ok (l.text_addr + t.off)

-- "_start"
abbrev pub start_name : Name
start_name = 95 ∷ 115 ∷ 116 ∷ 97 ∷ 114 ∷ 116 ∷ []

-- From the last line to the file.
unfoldable pub link : Asm → Result (List ℕ)
link s = do
  l ← layout s
  s' ← resolve l s.fixups s
  entry ← entry_of l (lookup start_name s.syms)
  ok (image l s' entry)
