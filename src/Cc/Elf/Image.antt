-- ===== src/Cc/Elf/Image.antt =====
-- The file that `assemble_elf` of cc/asm.c writes.
use sandbox_stack.Prelude.{
  ℕ, zero, suc, ◌+◌, ◌-◌, ◌*◌, ◌/◌, ◌%◌, ◌^◌, ◌≤◌, ◌<◌, ◌≡◌, ◌⊎◌, inl, inr, refl, ap, sym, ◌∙◌,
  arith,
}
use sandbox_stack.Prelude.{Bool, true, false, Bool-cases, Option-cases, All, Any, leb, ◌==◌}
use sandbox_stack.Prelude.{List, [], ◌++◌, Option, some, none, length, length-append, take}
use sandbox_stack.Bytes.{bytes_of, number_of}
use sandbox_stack.Bytes.Laws.{number_of-bytes_of}
use sandbox_stack.Cc.Asm.{
  Asm, Sym, Result, ok, stop, ◌>>=◌, int_overflow, undefined_symbol, relocation_out_of_range,
  no_start, null_symbol, not_followed,
}
use sandbox_stack.Cc.Asm.Operands.{take-whole, drop-whole}
use sandbox_stack.Cc.Elf.{
  page, image_base, align_to, Layout, layout, lookup, image, headers, zeros, entry_of, start_name,
  link,
}
use sandbox_stack.Cc.Elf.Put.{field}
use sandbox_stack.Cc.Elf.Resolve.{
  Fits, Separate, Done, Keeps, IsUndefined, IsNull, IsOut, resolve_lem,
}
use mathlib.Core.List.{append_assoc, append-nil}
use native.Mathlib.Nat.{mul-mod_left, div-add-mod', mod-lt}

-- Text and data lie on pages of their own, and .bss behind data; what is loaded does not overlap.
abbrev pub IsLayout : Layout → Asm → Type 0
IsLayout l s =
    (l.text_off ≡ page)
    × (l.text_addr ≡ image_base + l.text_off)
    × (l.data_addr ≡ image_base + l.data_off)
    × (l.text_off + length s.text ≤ l.data_off)
    × (l.data_off % page ≡ 0)
    × (l.data_addr + length s.data_bytes ≤ l.bss_addr)
    × (l.bss_addr % 16 ≡ 0)

-- Where the arithmetic of align_to is not defined, or its argument is no int
abbrev pub Overflows {ℓ} : {A : Type ℓ} → Result A → Type ℓ
Overflows m = (m ≡ stop int_overflow) ⊎ (m ≡ stop not_followed)

pub align_to_lem :
    (n k : ℕ)
    → 0 < k
    → (2 ^ 31 < n + k) × Overflows (align_to n k)
      ⊎ (m : ℕ) × (align_to n k ≡ ok m) × (n ≤ m) × (m < n + k) × (m % k ≡ 0)
align_to_lem n k h = elim (Bool-cases (leb (2 ^ 31) n)) [
  | inl beyond ↦ inl (ground arith, inr (rw beyond refl))
  | inr int ↦ elim (Bool-cases (leb (n + k) (2 ^ 31))) [
    | inl fits ↦
        let x = n + k - 1 in
        let above : n ≤ x / k * k = omega (arith, div-add-mod' x k, mod-lt x h) in
        let below : x / k * k < n + k = omega (arith, div-add-mod' x k) in
        inr ((n + k - 1) / k * k, rw (int, fits) refl, above, below, mul-mod_left (x / k) k)
    | inr beyond ↦ inl (ground arith, inl (rw (int, beyond) refl))
  ]
]

-- The image comes to 2 GB, but for less than two pages.
abbrev pub IsLarge : Asm → Type 0
IsLarge s = 2 ^ 31 < image_base + page + page + 16 + length s.text + length s.data_bytes

layout_lem :
    (s : Asm) → IsLarge s × Overflows (layout s) ⊎ (l : Layout) × (layout s ≡ ok l) × IsLayout l s
unfolding layout
layout_lem s = elim (align_to_lem (page + length s.text) page (omega arith)) [
  | inl (large, inl fails) ↦ inl (omega (arith, large), inl (rw fails refl))
  | inl (large, inr fails) ↦ inl (omega (arith, large), inr (rw fails refl))
  | inr (d, done, up, down, aligned) ↦
      elim (align_to_lem (image_base + d + length s.data_bytes) 16 (omega arith)) [
        | inl (large, inl fails) ↦ inl (omega (arith, large, down), inl (rw (done, fails) refl))
        | inl (large, inr fails) ↦ inl (omega (arith, large, down), inr (rw (done, fails) refl))
        | inr (b, done', up', down', aligned') ↦
            inr (_, rw (done, done') refl, (refl, refl, refl, up, aligned, up', aligned'))
      ]
]

length-zeros : (n : ℕ) → length (zeros n) ≡ n
unfolding zeros
length-zeros zero = refl
length-zeros (suc n) = ap suc (length-zeros n)

length-headers : (l : Layout) (s : Asm) (e : ℕ) → length (headers l s e) ≡ 232
unfolding headers bytes_of
length-headers l s e = refl

-- Where the file holds the sections.
abbrev pub Holds : Layout → Asm → List ℕ → Type 0
Holds l s file =
    (field l.text_off (length s.text) file ≡ s.text)
    × (field l.data_off (length s.data_bytes) file ≡ s.data_bytes)
    × (length file ≡ l.data_off + length s.data_bytes)

-- Two parts of a file, each behind a filling.
parts-Holds :
    (hs zs ts ys ds : List ℕ) (a b : ℕ)
    → length hs + length zs ≡ a
    → a + length ts + length ys ≡ b
    → let file = hs ++ (zs ++ (ts ++ (ys ++ ds))) in
      (field a (length ts) file ≡ ts)
      × (field b (length ds) file ≡ ds)
      × (length file ≡ b + length ds)
parts-Holds hs zs ts ys ds a b ea eb =
    let front : length (hs ++ zs) ≡ a = omega (arith, length-append hs zs) in
    let rest : hs ++ (zs ++ (ts ++ (ys ++ ds))) ≡ (hs ++ zs) ++ (ts ++ (ys ++ ds)) =
      sym (append_assoc hs zs _) in
    let middle : length (ts ++ ys) ≡ length ts + length ys = length-append ts ys in
    let whole : length ((hs ++ zs) ++ (ts ++ ys)) ≡ b =
      omega (arith, length-append (hs ++ zs) (ts ++ ys), middle, front) in
    let all : (hs ++ zs) ++ (ts ++ (ys ++ ds)) ≡ ((hs ++ zs) ++ (ts ++ ys)) ++ ds =
      ap (λ t. (hs ++ zs) ++ t) (sym (append_assoc ts ys ds))
      ∙ sym (append_assoc (hs ++ zs) (ts ++ ys) ds) in
    (
      ap (field a (length ts)) rest
          ∙ ap (take (length ts)) (drop-whole (hs ++ zs) _ a front)
          ∙ take-whole ts _ _ refl,
      ap (field b (length ds)) (rest ∙ all)
          ∙ ap (take (length ds)) (drop-whole _ ds b whole)
          ∙ ap (take (length ds)) (sym (append-nil ds))
          ∙ take-whole ds [] _ refl,
      ap length (rest ∙ all) ∙ length-append _ ds ∙ ap (λ n. n + length ds) whole,
    )

image-Holds :
    (l : Layout) (s : Asm) (e : ℕ)
    → l.text_off ≡ page
    → l.text_off + length s.text ≤ l.data_off
    → Holds l s (image l s e)
unfolding image
image-Holds l s e at room =
    parts-Holds (headers l s e) (zeros (l.text_off - 232)) s.text _ s.data_bytes l.text_off
      l.data_off (omega (arith, length-headers l s e, length-zeros (l.text_off - 232), at))
      (omega (arith, length-zeros (l.data_off - (l.text_off + length s.text)), room))

-- `!start || start->sec != 0` does not hold.
abbrev pub is_start : Option Sym → Bool
is_start none = false
is_start (some t) = t.sec == 0

-- The header's entry point.
abbrev pub entry_point : List ℕ → ℕ
entry_point file = number_of (field 24 8 file)

entry-image : (l : Layout) (s : Asm) (e : ℕ) → entry_point (image l s e) ≡ e % 2 ^ 64
unfolding image headers bytes_of
entry-image l s e = number_of-bytes_of 8 e

-- The file starts the program at `_start`, in the text.
abbrev pub Starts : Layout → Asm → List ℕ → Type 0
Starts l s file =
    (t : Sym) × (lookup start_name s.syms ≡ some t)
    × (t.sec ≡ 0)
    × (entry_point file ≡ (l.text_addr + t.off) % 2 ^ 64)

-- The whole file, from the layout and the sections with their fixups resolved.
abbrev pub IsFile : Layout → Asm → Asm → List ℕ → Type 0
IsFile l s s' file =
    IsLayout l s
    × All (Done l s.syms s') s.fixups
    × Keeps s.fixups s s'
    × Holds l s' file
    × Starts l s file

-- The last two steps.
entry-step :
    (l : Layout) (s s' : Asm)
    → IsLayout l s
    → All (Done l s.syms s') s.fixups
    → Keeps s.fixups s s'
    → (is_start (lookup start_name s.syms) ≡ false)
        × ((entry_of l (lookup start_name s.syms) >>= λ e. ok (image l s' e)) ≡ stop no_start)
      ⊎ (file : List ℕ) × ((entry_of l (lookup start_name s.syms) >>= λ e. ok (image l s' e))
          ≡ ok file)
        × IsFile l s s' file
entry-step l s s' placed all keeps = elim (Option-cases (lookup start_name s.syms)) [
  | inl absent ↦ inl (rw absent refl, rw absent refl)
  | inr (t, found) ↦ elim (Bool-cases (t.sec == 0)) [
    | inl text ↦
        let room : l.text_off + length s'.text ≤ l.data_off =
          omega (arith, placed.3, keeps.1 true) in
        inr (
          image l s' (l.text_addr + t.off),
          rw (found, text) refl,
          (
            placed,
            all,
            keeps,
            image-Holds l s' _ placed.0 room,
            (t, found, ground arith, entry-image l s' _),
          ),
        )
    | inr elsewhere ↦ inl (rw (found, elsewhere) refl, rw (found, elsewhere) refl)
  ]
]

-- How `link` ends: with an error and its cause, or with the file.
abbrev pub Linked : Asm → Result (List ℕ) → Type 0
Linked s m =
    IsLarge s × Overflows m
    ⊎ Any IsNull s.fixups × (m ≡ stop null_symbol)
    ⊎ Any (IsUndefined s.syms) s.fixups × (m ≡ stop undefined_symbol)
    ⊎ ((l : Layout) × IsLayout l s
        × Any (IsOut l s.syms) s.fixups
        × (m ≡ stop relocation_out_of_range))
    ⊎ (is_start (lookup start_name s.syms) ≡ false) × (m ≡ stop no_start)
    ⊎ ((l : Layout) × (s' : Asm) × (file : List ℕ) × (m ≡ ok file) × IsFile l s s' file)

-- Where the fixups lie in their sections, each behind the earlier ones of its section, the end
-- of assemble_elf does one of six things: align_to overflows or gets a number that is no int, and
-- the image comes to 2 GB, less 16 bytes and two pages at most; some fixup has NULL for its name,
-- whose lookup is undefined behaviour; it reports an undefined symbol, and
-- some fixup names none; it reports a distance out of range, and some fixup has such a distance
-- in the layout; it reports that there is no _start in the text, and there is none; or it writes
-- a file that holds text and data at the offsets of a layout whose segments do not overlap, with
-- the entry point at _start, in which every fixup leads to the address of its symbol plus the
-- addend, and all bytes that no fixup covers are as they were.
pub link_lem : (s : Asm) → All (Fits s) s.fixups → Separate s.fixups → Linked s (link s)
unfolding link
link_lem s fits apart = elim (layout_lem s) [
  | inl (large, inl fails) ↦ inl (large, inl (rw fails refl))
  | inl (large, inr fails) ↦ inl (large, inr (rw fails refl))
  | inr (l, laid, placed) ↦ elim (resolve_lem l s.fixups s fits apart) [
    | inl (any, fails) ↦ inr (inl (any, rw (laid, fails) refl))
    | inr (inl (any, fails)) ↦ inr (inr (inl (any, rw (laid, fails) refl)))
    | inr (inr (inl (any, fails))) ↦ inr (inr (inr (inl (l, placed, any, rw (laid, fails) refl))))
    | inr (inr (inr (s', done, all, keeps))) ↦ elim (entry-step l s s' placed all keeps) [
      | inl (absent, fails) ↦ inr (inr (inr (inr (inl (absent, rw (laid, done) fails)))))
      | inr (file, written, good) ↦
          inr (inr (inr (inr (inr (l, s', file, rw (laid, done) written, good)))))
    ]
  ]
]
