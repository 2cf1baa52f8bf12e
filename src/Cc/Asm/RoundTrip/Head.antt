-- ===== src/Cc/Asm/RoundTrip/Head.antt =====
-- The prefixes, REX and the opcode of an instruction that cc/asm.c encodes.
use sandbox_stack.Prelude.{
  ℕ, ◌+◌, ◌-◌, ◌*◌, ◌/◌, ◌%◌, ◌<◌, ◌≤◌, ◌≡◌, inl, inr, refl, ap, sym, ◌∙◌, arith,
}
use sandbox_stack.Prelude.{Bool, true, false, ◌||◌, Bool-cases, bit_or}
use sandbox_stack.Prelude.{List, [], ◌∷◌, ◌++◌, leb, ◌==◌, if◌then◌else◌}
use sandbox_stack.Prelude.Int.{pos}
use sandbox_stack.Cc.Asm.{Enc, rex, forces_rex, head_bytes, extended_rm}
use sandbox_stack.Cc.Asm.Decode.{is_prefix, is_rex, split_prefixes, split_rex}
use mathlib.Core.List.{append_assoc}
use sandbox_stack.Cc.Asm.Operands.{IsRexOf}

-- A byte that starts an opcode.
abbrev pub IsOpcode : ℕ → Type 0
IsOpcode x = (is_prefix x ≡ false) × (is_rex x ≡ false)

-- `reg` is the register `r`, and the operand's register is `b` (0 without one).
abbrev pub Names : Enc → ℕ → ℕ → Type 0
Names e r b = (e.reg ≡ pos r) × (r < 16) × (extended_rm e.rm ≡ leb 8 b) × (b < 16)

-- The legacy prefixes it starts with.
abbrev pub prefixes : Enc → List ℕ
prefixes e = (if e.opsize16 then 0x66 ∷ [] else []) ++ (if e.prefix == 0 then [] else e.prefix ∷ [])

-- The low four bits of REX, 0 where none is written.
abbrev pub rex_bits : Enc → ℕ
rex_bits e = if forces_rex e then rex e - 0x40 else 0

rex-flags :
    (w r b : Bool)
    → let r1 : ℕ = if w then bit_or 0x40 8 else 0x40 in
      let r2 : ℕ = if r then bit_or r1 4 else r1 in
      (if b then bit_or r2 1 else r2)
      ≡ 0x40 + (if w then 8 else 0) + (if r then 1 else 0) * 4 + (if b then 1 else 0)
rex-flags true true true = refl
rex-flags true true false = refl
rex-flags true false true = refl
rex-flags true false false = refl
rex-flags false true true = refl
rex-flags false true false = refl
rex-flags false false true = refl
rex-flags false false false = refl

-- The fourth bit of a register's number.
fourth_bit : (r : ℕ) → r < 16 → (if leb 8 r then 1 else 0) ≡ r / 8
fourth_bit r h = ground arith

rex_lem :
    (e : Enc) (r b : ℕ) → Names e r b → rex e ≡ 0x40 + (if e.w then 8 else 0) + r / 8 * 4 + b / 8
unfolding rex
rex_lem e r b (reg, hr, rm, hb) =
    rw (reg, rm, sym (fourth_bit r hr), sym (fourth_bit b hb)) (rex-flags e.w (leb 8 r) (leb 8 b))

-- Leaving REX out is as good as writing 0x40.
rex_bits-rex : (e : Enc) → rex_bits e ≡ rex e - 0x40
unfolding forces_rex
rex_bits-rex e = elim (Bool-cases (rex e == 0x40)) [
  | inl plain ↦
      let nothing : rex e - 0x40 ≡ 0 = ground arith in
      rw (plain, nothing) elim (Bool-cases e.need_rex) [ inl a ↦ rw a refl | inr b ↦ rw b refl ]
  | inr used ↦ rw used refl
]

pub rex_bits_lem :
    (e : Enc) (r b : ℕ) → Names e r b → rex_bits e ≡ (if e.w then 8 else 0) + r / 8 * 4 + b / 8
rex_bits_lem e r b n = omega (arith, rex_bits-rex e, rex_lem e r b n)

pub rex_bits-IsRexOf : (e : Enc) (r b : ℕ) → Names e r b → IsRexOf (rex_bits e) r b
rex_bits-IsRexOf e r b n =
    let bits = rex_bits_lem e r b n in
    rw bits elim (Bool-cases e.w) [
      | inl wide ↦ rw wide (omega (arith, n.1, n.3), omega (arith, n.1, n.3))
      | inr narrow ↦ rw narrow (omega (arith, n.1, n.3), omega (arith, n.1, n.3))
    ]

pub rex_bits-w : (e : Enc) (r b : ℕ) → Names e r b → (rex_bits e / 8 % 2 == 1) ≡ e.w
rex_bits-w e r b n =
    let bits = rex_bits_lem e r b n in
    elim (Bool-cases e.w) [
      | inl wide ↦
          let bit : rex_bits e / 8 % 2 ≡ 1 = rw (bits, wide) (omega (arith, n.1, n.3)) in
          rw (bit, wide) refl
      | inr narrow ↦
          let bit : rex_bits e / 8 % 2 ≡ 0 = rw (bits, narrow) (omega (arith, n.1, n.3)) in
          rw (bit, narrow) refl
    ]

pub or-both : (a b : Bool) → (a || b) ≡ false → (a ≡ false) × (b ≡ false)
or-both true b h = ground arith
or-both false b h = (refl, h)

pub or_false : (a b : Bool) → (a || b) ≡ true → a ≡ false → b ≡ true
or_false true b h e = ground arith
or_false false b h e = h

split_prefixes-prefixes :
    (e : Enc) (x : ℕ) (xs : List ℕ)
    → (e.prefix == 0 || is_prefix e.prefix) ≡ true
    → is_prefix x ≡ false
    → split_prefixes (prefixes e ++ (x ∷ xs)) ≡ (prefixes e, x ∷ xs)
unfolding split_prefixes
split_prefixes-prefixes e x xs p h = elim (Bool-cases e.opsize16) [
  | inl wide ↦ elim (Bool-cases (e.prefix == 0)) [
    | inl absent ↦ rw (wide, absent, h) refl
    | inr written ↦ rw (wide, written, or_false _ _ p written, h) refl
  ]
  | inr plain ↦ elim (Bool-cases (e.prefix == 0)) [
    | inl absent ↦ rw (plain, absent, h) refl
    | inr written ↦ rw (plain, written, or_false _ _ p written, h) refl
  ]
]

pub rex-bounds : (e : Enc) (r b : ℕ) → Names e r b → (0x40 ≤ rex e) × (rex e < 0x50)
rex-bounds e r b n =
    let at = rex_lem e r b n in
    rw at elim (Bool-cases e.w) [
      | inl wide ↦ rw wide (omega (arith, n.1, n.3), omega (arith, n.1, n.3))
      | inr narrow ↦ rw narrow (omega (arith, n.1, n.3), omega (arith, n.1, n.3))
    ]

between : (x : ℕ) → 0x40 ≤ x → x < 0x50 → (is_rex x ≡ true) × (is_prefix x ≡ false)
between x low high = (ground arith, ground arith)

-- REX, or its absence, before an opcode.
pub split_rex-bits :
    (e : Enc) (r b x : ℕ) (xs : List ℕ)
    → Names e r b
    → is_rex x ≡ false
    → split_rex ((if forces_rex e then rex e ∷ [] else []) ++ (x ∷ xs)) ≡ (rex_bits e, x ∷ xs)
split_rex-bits e r b x xs n h =
    let (low, high) = rex-bounds e r b n in
    let (known, _) = between (rex e) low high in
    elim (Bool-cases (forces_rex e)) [
      | inl forced ↦ rw (forced, known) refl
      | inr absent ↦ rw (absent, h) refl
    ]

regroup : (ws xs ys zs : List ℕ) → ws ++ (xs ++ ys) ++ zs ≡ ws ++ xs ++ (ys ++ zs)
regroup ws xs ys zs =
    append_assoc ws (xs ++ ys) zs
    ∙ ap (λ t. ws ++ t) (append_assoc xs ys zs)
    ∙ sym (append_assoc ws xs (ys ++ zs))

pub head-split :
    (e : Enc) (r b x : ℕ) (xs rest : List ℕ)
    → Names e r b
    → e.op ≡ x ∷ xs
    → IsOpcode x
    → (e.prefix == 0 || is_prefix e.prefix) ≡ true
    → split_prefixes (head_bytes e ++ rest)
      ≡ (prefixes e, (if forces_rex e then rex e ∷ [] else []) ++ (e.op ++ rest))
unfolding head_bytes
head-split e r b x xs rest n op (plain, bare) p =
    let (low, high) = rex-bounds e r b n in
    let (_, other) = between (rex e) low high in
    elim (Bool-cases (forces_rex e)) [
      | inl forced ↦
          rw (forced, op)
            (ap split_prefixes (regroup (if e.opsize16 then 0x66 ∷ [] else []) _ _ rest)
              ∙ split_prefixes-prefixes e _ _ p other)
      | inr absent ↦
          rw (absent, op)
            (ap split_prefixes (regroup (if e.opsize16 then 0x66 ∷ [] else []) _ _ rest)
              ∙ split_prefixes-prefixes e _ _ p plain)
    ]
