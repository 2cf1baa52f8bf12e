-- ===== src/Cc/Asm/RoundTrip/Rm.antt =====
-- The operand that `encode` of cc/asm.c writes, read back by the processor's format.
use sandbox_stack.Prelude.{ℕ, ◌+◌, ◌%◌, ◌^◌, ◌<◌, ◌≡◌, ◌⊎◌, inl, inr, refl, ap, ◌∙◌, arith}
use sandbox_stack.Prelude.{Bool, true, false, not, ◌||◌, Bool-cases, All}
use sandbox_stack.Prelude.{List, [], ◌∷◌, ◌++◌, ◌==◌}
use mathlib.Core.List.{append_assoc}
use sandbox_stack.Prelude.Int.{ℤ, sub_nat, pos, negsuc}
use sandbox_stack.Bytes.{bytes_of}
use sandbox_stack.Cc.Asm.{
  Asm, Op, Enc, ok, stop, o_reg, o_mem, current, memory_mod, fits, encode_operand, emit8,
  is_minus_one, add_fixup, is_zero, disp_bytes, displacement_out_of_range, emits, low3,
  memory_bytes, modrm,
}
use sandbox_stack.Cc.Asm.Bytes.{
  IsByte, current-emits, current-emit8, bytes_of-IsByte, current-add_fixup,
}
use sandbox_stack.Cc.Asm.Decode.{Operand, register, memory, rip_relative}
use sandbox_stack.Cc.Asm.Operands.{
  modrm_lem, mode-IsBased, Splits, IsRexOf, register-Splits, memory-Splits, rip-Splits,
}

-- The operand `o` is the one that the processor calls `p`, with a register of number `b`.
pub data Shows (o : Op) : ℕ → Operand → Type 0 where
  as_register : (b : ℕ) → o.kind ≡ o_reg → o.reg ≡ pos b → Shows o b (register b)
  as_memory : (b : ℕ) → o.kind ≡ o_mem → o.base ≡ pos b → Shows o b (memory b o.disp)
  as_rip : o.kind ≡ o_mem → o.base ≡ negsuc 0 → Shows o 0 (rip_relative (pos 0))

-- A displacement that four bytes do not hold.
abbrev pub far : Operand → Bool
far (memory b d) = not (fits (2 ^ 31) d)
far p = false

not_fits : (d : ℤ) → fits (2 ^ 31) d ≡ false → (is_zero d ≡ false) × (fits 128 d ≡ false)
not_fits (pos n) h = (ground arith, ground arith)
not_fits (negsuc n) h = (refl, ground arith)

or-true : (a : Bool) → (a || true) ≡ true
or-true true = refl
or-true false = refl

-- The guard on the displacement is the one of `far`.
guard-far : (o : Op) → (not (memory_mod o == 2) || fits (2 ^ 31) o.disp) ≡ fits (2 ^ 31) o.disp
guard-far o = elim (Bool-cases (fits (2 ^ 31) o.disp)) [
  | inl near ↦ rw near (or-true _)
  | inr wide ↦ let (nonzero, big) = not_fits o.disp wide in rw (wide, nonzero, big) refl
]

-- The bytes that a call appends to the current section.
abbrev pub Appends : Asm → List ℕ → Asm → Type 0
Appends s xs s' = current s' ≡ current s ++ xs

modrm-IsByte : (m r rm : ℕ) → m < 4 → r < 8 → rm < 8 → IsByte (modrm m r rm)
modrm-IsByte m r rm hm hr hrm = rw (modrm_lem m r rm hr hrm) (omega arith)

low3-bound : (x : ℤ) → low3 x < 8
low3-bound (pos n) = omega arith
low3-bound (negsuc n) = omega arith

disp_bytes-IsByte : (m : ℕ) (d : ℤ) → All IsByte (disp_bytes m d)
disp_bytes-IsByte m d = elim (Bool-cases (m == 1)) [
  | inl one ↦ rw one (bytes_of-IsByte 1 _)
  | inr other ↦
      rw other elim (Bool-cases (m == 2)) [
        | inl two ↦ rw two (bytes_of-IsByte 4 _)
        | inr none ↦ rw none tt
      ]
]

memory_bytes-IsByte : (r : ℕ) (o : Op) → r < 8 → All IsByte (memory_bytes r o)
unfolding memory_bytes
memory_bytes-IsByte r o h =
    let (small, _) = mode-IsBased (is_zero o.disp) (fits 128 o.disp) (low3 o.base) in
    let tail = disp_bytes-IsByte (memory_mod o) o.disp in
    (
      modrm-IsByte (memory_mod o) r (low3 o.base) (omega (arith, small)) h (low3-bound o.base),
      elim (Bool-cases (low3 o.base == 4)) [
        | inl four ↦ rw four (omega arith, tail)
        | inr other ↦ rw other tail
      ],
    )

unfoldable pub Encodes : Enc → Op → Asm → ℕ → ℕ → Operand → Type 0
Encodes e o s rx r p =
    (s' : Asm) × (xs : List ℕ) × (encode_operand e o s ≡ ok s') × Appends s xs s' × Splits rx xs r p

register-Encodes :
    (e : Enc) (o : Op) (s : Asm) (r b rx : ℕ)
    → o.kind ≡ o_reg
    → o.reg ≡ pos b
    → e.reg ≡ pos r
    → IsRexOf rx r b
    → Encodes e o s rx r (register b)
unfolding encode_operand Encodes
register-Encodes e o s r b rx kind base reg at =
    let byte = modrm-IsByte 3 (r % 8) (b % 8) (omega arith) (omega arith) (omega arith) in
    (
      emit8 (modrm 3 (r % 8) (b % 8)) s,
      modrm 3 (r % 8) (b % 8) ∷ [],
      rw (kind, reg, base) refl,
      current-emit8 _ s byte,
      register-Splits rx r b at,
    )

rip-Encodes :
    (e : Enc) (o : Op) (s : Asm) (r rx : ℕ)
    → o.kind ≡ o_mem
    → o.base ≡ negsuc 0
    → e.reg ≡ pos r
    → IsRexOf rx r 0
    → Encodes e o s rx r (rip_relative (pos 0))
unfolding encode_operand Encodes
rip-Encodes e o s r rx kind base reg (eb, er) =
    let byte = modrm-IsByte 0 (r % 8) 5 (omega arith) (omega arith) (omega arith) in
    let s1 = emit8 (modrm 0 (r % 8) 5) s in
    let s2 = add_fixup o.sym (sub_nat o.disp (4 + e.imm_size)) false s1 in
    (
      emits (bytes_of 4 0) s2,
      modrm 0 (r % 8) 5 ∷ bytes_of 4 0,
      rw (kind, reg, base) refl,
      current-emits (bytes_of 4 0) s2 (bytes_of-IsByte 4 0)
          ∙ ap (λ t. t ++ bytes_of 4 0)
              (current-add_fixup o.sym (sub_nat o.disp (4 + e.imm_size)) false s1
                ∙ current-emit8 _ s byte)
          ∙ append_assoc (current s) (modrm 0 (r % 8) 5 ∷ []) (bytes_of 4 0),
      rip-Splits rx r er,
    )

memory-Encodes :
    (e : Enc) (o : Op) (s : Asm) (r b rx : ℕ)
    → o.kind ≡ o_mem
    → o.base ≡ pos b
    → e.reg ≡ pos r
    → IsRexOf rx r b
    → fits (2 ^ 31) o.disp ≡ true
    → Encodes e o s rx r (memory b o.disp)
unfolding encode_operand Encodes
memory-Encodes e o s r b rx kind base reg at near =
    let based : is_minus_one o.base ≡ false = ap is_minus_one base in
    let low : low3 e.reg ≡ r % 8 = ap low3 reg in
    let guard = guard-far o ∙ near in
    (
      emits (memory_bytes (r % 8) o) s,
      memory_bytes (r % 8) o,
      rw (kind, based, guard, low) refl,
      current-emits _ s (memory_bytes-IsByte (r % 8) o (omega arith)),
      memory-Splits rx r b o base at guard,
    )

-- The operand is written, unless its displacement has no room.
pub encode_operand-Shows :
    (e : Enc) (o : Op) (s : Asm) (r b rx : ℕ) (p : Operand)
    → Shows o b p
    → e.reg ≡ pos r
    → IsRexOf rx r b
    → (far p ≡ true) × (encode_operand e o s ≡ stop displacement_out_of_range)
      ⊎ (far p ≡ false) × Encodes e o s rx r p
unfolding encode_operand Encodes
encode_operand-Shows e o s r _ rx _ (as_register b kind base) reg at =
    inr (refl, register-Encodes e o s r b rx kind base reg at)
encode_operand-Shows e o s r _ rx _ (as_memory b kind base) reg at =
    elim (Bool-cases (fits (2 ^ 31) o.disp)) [
      | inl near ↦ inr (rw near refl, memory-Encodes e o s r b rx kind base reg at near)
      | inr wide ↦
          let based : is_minus_one o.base ≡ false = ap is_minus_one base in
          let guard = guard-far o ∙ wide in inl (rw wide refl, rw (kind, based, guard) refl)
    ]
encode_operand-Shows e o s r _ rx _ (as_rip kind base) reg at =
    inr (refl, rip-Encodes e o s r rx kind base reg at)
