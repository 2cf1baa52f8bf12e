-- ===== src/Cc/Stable/Directives.antt =====
-- The directives and labels of cc/asm.c keep every stable property.
use sandbox_stack.Prelude.{
  ℕ, zero, suc, ◌+◌, ◌-◌, ◌%◌, ◌^◌, ◌≤◌, ◌<◌, ◌≡◌, inl, inr, refl, sym, subst, arith,
}
use sandbox_stack.Prelude.{Bool, true, false, not, ◌&&◌, ◌||◌, ◌==◌, bit_and, if◌then◌else◌, codes}
use sandbox_stack.Prelude.{length, Bool-cases, Option-cases}
use sandbox_stack.Prelude.Int.{ℤ, pos, negsuc, pattern, magnitude}
use sandbox_stack.Bytes.{bytes_of}
use sandbox_stack.Cc.Asm.{Asm, AsmError, Name, Result, ok, require, current, emit8, ◌>>◌}
use sandbox_stack.Cc.Asm.{
  bad_number, unsupported, bad_directive, int_overflow, not_followed, duplicate_symbol,
}
use sandbox_stack.Cc.Elf.{align_to, zeros, lookup}
use sandbox_stack.Cc.Elf.Image.{align_to_lem}
use sandbox_stack.Cc.Instr.{named}
use sandbox_stack.Cc.Instr.Encodable.{
  Returns, returned, failed, Returns-bind, Returns-if, Returns-require, any,
}
use sandbox_stack.Cc.Lines.{
  Clib, directive, data_directive, align, align_bss, pad, quad, to_section, zero_fill, define_sym,
  starts_number, split_sign, addend_of, trim, is_ignored, between, from_minus, num, is_empty,
}
use sandbox_stack.Cc.Stable.{IsStable, byte}

-- What has passed a test has what the test says.
Returns-tested :
    {Q : ℤ → Type 0} (c w : Bool) (e : AsmError) (v : ℤ)
    → (w ≡ true → Q v)
    → Returns Q (require (c && w) e >> ok v)
Returns-tested true true e v h = returned v (h refl)
Returns-tested true false e v h = failed e
Returns-tested false w e v h = failed e

between-pos : (lib : Clib) (high : ℕ) (v : ℤ) → between lib 1 high v ≡ true → 0 < magnitude v
between-pos lib high (pos n) h = ground arith
between-pos lib high (negsuc n) h = omega arith

num-between :
    (lib : Clib) (s : Name) (high : ℕ)
    → Returns (λ v. 0 < magnitude v) (num lib s (between lib 1 high))
num-between lib s high =
    let (v, rest, overflow) = lib.strtol (trim lib s) in
    Returns-tested (not (is_empty lib (trim lib s) || not (is_empty lib rest) || overflow))
      (between lib 1 high v) bad_number v (between-pos lib high v)

align_to-le : (n a : ℕ) → 0 < a → Returns (λ m. n ≤ m) (align_to n a)
align_to-le n a h = elim (align_to_lem n a h) [
  | inl (large, inl fails) ↦ rw fails (failed int_overflow)
  | inl (large, inr fails) ↦ rw fails (failed not_followed)
  | inr (m, done, up, near, whole) ↦ subst (Returns (λ m. n ≤ m)) (sym done) (returned m up)
]

module _ {P : Asm → Type 0} (stable : IsStable P) where
  pub define_sym-Returns : (name : Name) (s : Asm) → P s → Returns P (define_sym name s)
  unfolding define_sym
  define_sym-Returns name s h = elim (Option-cases (lookup name s.syms)) [
    | inl absent ↦ rw absent (returned _ (stable.symbol name s absent h))
    | inr (t, present) ↦ rw present (failed duplicate_symbol)
  ]

  pub pad-Kept : (fuel a : ℕ) (s : Asm) → P s → P (pad fuel a s)
  unfolding pad
  pad-Kept zero a s h = h
  pad-Kept (suc fuel) a s h = elim (Bool-cases (length (current s) % a == 0)) [
    | inl done ↦ rw done h
    | inr more ↦
        let v : ℕ = if s.in_text then 0x90 else 0 in
        rw more (pad-Kept fuel a (emit8 v s) (byte stable v s h))
  ]

  switched :
      (in_text cur_bss : Bool) (s : Asm)
      → P s
      → Returns P (ok (record s { in_text = in_text; cur_bss = cur_bss }))
  switched in_text cur_bss s h =
      returned _ (stable.moves in_text cur_bss s.bss_len s (omega arith) h)

  align_bss-Returns :
      (s : Asm) (n : Result ℕ) → Returns (λ m. s.bss_len ≤ m) n → P s → Returns P (align_bss s n)
  align_bss-Returns s _ (returned n up) h = returned _ (stable.moves s.in_text s.cur_bss n s up h)
  align_bss-Returns s _ (failed e) h = failed e

  align-Returns : (a : ℕ) (s : Asm) → 0 < a → P s → Returns P (align a s)
  unfolding align
  align-Returns a s ha h = Returns-require (bit_and a (a - 1) == 0) bad_number (
      Returns-if s.cur_bss
        (align_bss-Returns s (align_to s.bss_len a) (align_to-le s.bss_len a ha) h)
        (returned (pad a a s) (pad-Kept a a s h)))

  to_section-Returns :
      (lib : Clib) (name : Name) (s : Asm) → P s → Returns P (to_section lib name s)
  to_section-Returns lib name s h =
      Returns-if (named (codes ".text") name) (switched true false s h) (
        Returns-if (named (codes ".data") name) (switched false false s h)
          (Returns-if (named (codes ".bss") name) (switched false true s h) (failed unsupported)))

  if-Kept : (b : Bool) (x y : Asm) → P x → P y → P (if b then x else y)
  if-Kept true x y h k = h
  if-Kept false x y h k = k

  zero_fill-Kept : (lib : Clib) (n : ℕ) (s : Asm) → P s → P (zero_fill lib n s)
  zero_fill-Kept lib n s h =
      if-Kept s.cur_bss _ _ (stable.moves s.in_text s.cur_bss (s.bss_len + n) s (omega arith) h)
        (stable.bytes (zeros n) s h)

  quad-Returns : (lib : Clib) (rest : Name) (s : Asm) → P s → Returns P (quad lib rest s)
  unfolding quad bytes_of
  quad-Returns lib rest s h =
      let (v, left, overflow) = lib.strtol rest in
      let (before, after) = split_sign lib rest in
      Returns-if (starts_number lib rest)
        (Returns-require (is_empty lib left && not overflow) bad_number
          (returned _ (stable.bytes (bytes_of 8 (pattern 64 v)) s h)))
        (Returns-bind (any (addend_of lib after)) λ addend _.
          returned _
            (stable.covered (trim lib before) addend true (bytes_of 8 0) s (omega arith) h))

  -- The directives that write bytes
  data-Returns :
      (lib : Clib) (d rest : Name) (s : Asm) → P s → Returns P (data_directive lib d rest s)
  unfolding data_directive
  data-Returns lib d rest s h =
      Returns-if (named (codes ".byte") d)
        (Returns-bind (any (num lib rest (from_minus lib 128 255)))
          λ v _. returned _ (byte stable (pattern 8 v) s h))
        (Returns-if (named (codes ".zero") d)
          (Returns-bind (any (num lib rest (between lib 0 (2 ^ 31))))
            λ v _. returned _ (zero_fill-Kept lib (magnitude v) s h))
          (Returns-if (named (codes ".quad") d) (quad-Returns lib (trim lib rest) s h)
            (Returns-if (named (codes ".comm") d) (failed unsupported) (failed bad_directive))))

  pub directive-Returns :
      (lib : Clib) (d rest : Name) (s : Asm) → P s → Returns P (directive lib d rest s)
  unfolding directive
  directive-Returns lib d rest s h =
      Returns-if (named (codes ".text") d) (switched true false s h) (
        Returns-if (named (codes ".data") d) (switched false false s h) (
          Returns-if (named (codes ".bss") d) (switched false true s h) (
            Returns-if (named (codes ".section") d) (to_section-Returns lib (trim lib rest) s h) (
              Returns-if (is_ignored lib d) (returned s h) (
                Returns-if (named (codes ".align") d)
                  (Returns-bind (num-between lib rest 4096)
                    λ a ha. align-Returns (magnitude a) s ha h)
                  (Returns-if (s.cur_bss && (named (codes ".byte") d || named (codes ".quad") d))
                    (failed bad_directive) (data-Returns lib d rest s h)))))))
