-- ===== src/Cc/Instr/Chosen.antt =====
-- What `instruction` of cc/asm.c chooses has the processor's format: the whole.
use sandbox_stack.Prelude.{ℕ, ◌+◌, ◌-◌, ◌<◌, ◌≡◌, inl, inr, refl, ap, subst, arith}
use sandbox_stack.Prelude.{Bool, true, false, not, ◌&&◌, ◌||◌, Bool-cases, Option-cases}
use sandbox_stack.Prelude.{
  ltb→lt, List, [], ◌∷◌, Option, some, none, length, ltb, ◌==◌, if◌then◌else◌, codes,
}
use sandbox_stack.Cc.Asm.{Name, Op, is_reg, is_mem, is_label, bad_operands}
use sandbox_stack.Cc.Asm.Bytes.{IsByte}
use sandbox_stack.Cc.Asm.Decode.{is_prefix}
use sandbox_stack.Cc.Elf.{same}
use sandbox_stack.Cc.Instr.{named, is_xmm, is_general}
use sandbox_stack.Cc.Instr.Choose.{
  at, source_size, movx, find, cc_code, condition_codes, jump_if, set_if, sse, mov_scalar, movq,
  convert_to_float, convert_to_int, no_operands, jump,
}
use sandbox_stack.Cc.Instr.Encodable.{
  IsByte-if, returned, failed, Returns-bind, Returns-if, Returns-require, any, Fine,
}

-- The values of a table of names are below `n`.
abbrev pub all_below : ℕ → List (Name × ℕ) → Bool
all_below n [] = true
all_below n ((name, value) ∷ rest) = ltb value n && all_below n rest

pub and-both : (a b : Bool) → (a && b) ≡ true → (a ≡ true) × (b ≡ true)
and-both true b h = (refl, h)
and-both false b h = ground arith

abbrev value_of : Option ℕ → ℕ
value_of none = 0
value_of (some v) = v

pub find-below :
    (n : ℕ) (mn : Name) (t : List (Name × ℕ))
    → all_below n t ≡ true
    → (v : ℕ) → find mn t ≡ some v
    → v < n
unfolding find
find-below n mn [] h v e = ground arith
find-below n mn ((name, value) ∷ rest) h v e =
    let (first, others) = and-both _ _ h in
    elim (Bool-cases (same name mn)) [
      | inl here ↦
          let found : some value ≡ some v =
            subst (λ c. (if c then some value else find mn rest) ≡ some v) here e in
          subst (λ x. x < n) (ap value_of found) (ltb→lt _ _ first)
      | inr further ↦
          find-below n mn rest others v
            (subst (λ c. (if c then some value else find mn rest) ≡ some v) further e)
    ]

letter : (c d : Bool) → IsByte ((if c then 0xBE else 0xB6) + (if d then 1 else 0))
letter true true = omega arith
letter true false = omega arith
letter false true = omega arith
letter false false = omega arith

pub movx-IsOut : (mn : Name) (a b : Op) → Fine (movx mn a b)
unfolding movx
movx-IsOut mn a b = Returns-bind (any (source_size mn a)) λ size _.
    Returns-require (is_reg b) bad_operands elim (Bool-cases (size == 4)) [
      | inl four ↦
          rw four (returned _ (0x63, [], refl, (refl, refl), (omega arith, tt), refl, refl))
      | inr other ↦ rw other (
          returned _ (
            0x0F,
            _,
            refl,
            (refl, refl),
            (omega arith, (letter (at mn 3 == b's') (size == 2), tt)),
            refl,
            refl,
          ))
    ]

pub sse-IsOut :
    (p op : ℕ) (x m : Op) (w : Bool)
    → (p == 0 || is_prefix p) ≡ true
    → IsByte op
    → Fine (sse p op x m w)
unfolding sse
sse-IsOut p op x m w h k = Returns-require (is_xmm x) bad_operands (
    Returns-require (is_mem m || is_reg m) bad_operands
      (returned _ (0x0F, op ∷ [], refl, (refl, refl), (omega arith, (k, tt)), h, refl)))

pub no_operands-IsOut : (mn : Name) → Fine (no_operands mn)
unfolding no_operands
no_operands-IsOut mn = Returns-if (named (codes "ret") mn) (returned _ (omega arith, tt)) (
    Returns-if (named (codes "cqo") mn || named (codes "cqto") mn)
      (returned _ (omega arith, (omega arith, tt)))
      (Returns-if (named (codes "cdq") mn || named (codes "cltd") mn) (returned _ (omega arith, tt))
        (Returns-if (named (codes "syscall") mn) (returned _ (omega arith, (omega arith, tt))) (
          Returns-if (named (codes "hlt") mn) (returned _ (omega arith, tt)) (
            Returns-if (named (codes "nop") mn) (returned _ (omega arith, tt))
              (Returns-if (at mn 0 == b'f') (failed _) (failed _)))))))

pub jump-IsOut : (mn : Name) (a : Op) → Fine (jump mn a)
unfolding jump
jump-IsOut mn a =
    Returns-if (is_label a)
      (returned _ (IsByte-if (named (codes "jmp") mn) 0xE9 0xE8 (omega arith) (omega arith), tt))
      (Returns-if (is_reg a && a.size == 8)
        (returned _ (0xFF, [], refl, (refl, refl), (omega arith, tt), refl, refl)) (failed _))

cc_code-below : (mn : Name) (v : ℕ) → cc_code mn ≡ some v → v < 16
cc_code-below mn v e = find-below 16 mn condition_codes refl v e

pub jump_if-IsOut : (a : Op) (mn : Name) → Fine (jump_if a (cc_code mn))
jump_if-IsOut a mn = elim (Option-cases (cc_code mn)) [
  | inl absent ↦ rw absent (failed _)
  | inr (v, found) ↦
      let low = cc_code-below mn v found in
      rw found (returned _ (omega arith, (omega (arith, low), tt)))
]

pub set_if-IsOut : (a : Op) (mn : Name) → Fine (set_if a (cc_code mn))
set_if-IsOut a mn = elim (Option-cases (cc_code mn)) [
  | inl absent ↦ rw absent (failed _)
  | inr (v, found) ↦
      let low = cc_code-below mn v found in
      rw found (
        Returns-require (is_reg a && a.size == 1) bad_operands (
          returned _
            (0x0F, _, refl, (refl, refl), (omega arith, (omega (arith, low), tt)), refl, refl)))
]

pub prefix-IsKnown :
    (c : Bool) → let p : ℕ = if c then 0xF3 else 0xF2 in (p == 0 || is_prefix p) ≡ true
prefix-IsKnown true = refl
prefix-IsKnown false = refl

pub mov_scalar-IsOut : (mn : Name) (a b : Op) → Fine (mov_scalar mn a b)
unfolding mov_scalar
mov_scalar-IsOut mn a b =
    let p = prefix-IsKnown (at mn 4 == b's') in
    Returns-if (is_xmm b) (sse-IsOut _ 0x10 b a false p (omega arith))
      (Returns-if (is_xmm a && is_mem b) (sse-IsOut _ 0x11 a b false p (omega arith)) (failed _))

pub movq-IsOut : (a b : Op) → Fine (movq a b)
unfolding movq
movq-IsOut a b =
    let load : IsByte 0x7E = omega arith in
    let store : IsByte 0x6E = omega arith in
    let start : IsByte 0x0F = omega arith in
    Returns-if (is_xmm a && is_xmm b)
      (returned _ (0x0F, _, refl, (refl, refl), (start, (load, tt)), refl, refl))
      (Returns-if (is_xmm b)
        (Returns-require (not (is_reg a) || a.size == 8) bad_operands
          (returned _ (0x0F, _, refl, (refl, refl), (start, (store, tt)), refl, refl)))
        (Returns-require (not (is_reg b) || b.size == 8) bad_operands
          (returned _ (0x0F, _, refl, (refl, refl), (start, (load, tt)), refl, refl))))

pub convert_to_float-IsOut : (mn : Name) (a b : Op) → Fine (convert_to_float mn a b)
unfolding convert_to_float
convert_to_float-IsOut mn a b =
    Returns-require _ _ (sse-IsOut _ 0x2A b a _ (prefix-IsKnown (at mn 7 == b's')) (omega arith))

pub convert_to_int-IsOut : (mn : Name) (a b : Op) → Fine (convert_to_int mn a b)
unfolding convert_to_int
convert_to_int-IsOut mn a b =
    let start : IsByte 0x0F = omega arith in
    let op : IsByte 0x2C = omega arith in
    Returns-require (is_general b && (b.size == 4 || b.size == 8)) bad_operands (
      Returns-require
        (not (ltb 8 (length mn) && at mn (length mn - 1) == b'l' && not (b.size == 4))) bad_operands
        (Returns-require
          (not (ltb 8 (length mn) && at mn (length mn - 1) == b'q' && not (b.size == 8)))
          bad_operands
          (returned _ (
            0x0F,
            0x2C ∷ [],
            refl,
            (refl, refl),
            (start, (op, tt)),
            prefix-IsKnown (at mn 5 == b's'),
            refl,
          ))))
