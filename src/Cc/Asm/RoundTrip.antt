-- ===== src/Cc/Asm/RoundTrip.antt =====
-- An instruction that `encode` of cc/asm.c writes, read back by the processor's format.
pub mod Head
pub mod Rm
use sandbox_stack.Prelude.{
  ℕ, zero, suc, ◌+◌, ◌-◌, ◌*◌, ◌/◌, ◌%◌, ◌^◌, ◌<◌, ◌≤◌, ◌≡◌, ◌≢◌, ◌⊎◌, inl, inr, refl, ap, sym,
  subst, ◌∙◌, arith,
}
use sandbox_stack.Prelude.{Bool, true, false, not, ◌&&◌, ◌||◌, Bool-cases, bit_or, All, All-append}
use sandbox_stack.Prelude.{
  List, [], ◌∷◌, ◌++◌, Option, some, length, take, drop, leb, ltb, ◌==◌, if◌then◌else◌,
}
use mathlib.Core.List.{append_assoc}
use native.Mathlib.Nat.{mod-lt, mod-eq_of_lt, one-le-pow}
use sandbox_stack.Prelude.Int.{ℤ, sub_nat, pos, negsuc, pattern}
use sandbox_stack.Bytes.{bytes_of, number_of}
use sandbox_stack.Bytes.Laws.{pow_256, length-bytes_of, number_of-bytes_of}
use sandbox_stack.Cc.Asm.{
  rex, encode_rm, ◌>>=◌, Asm, Op, Enc, Result, ok, stop, o_reg, o_mem, current, encode, forces_rex,
  head_bytes, high_rm, memory_mod, fits, high_byte_register_with_rex, encode_operand, is_mem, emit8,
  is_minus_one, add_fixup, is_zero, disp_bytes, displacement_out_of_range, imm_bytes, int_bytes,
  emits, low3, memory_bytes, modrm, is_reg,
}
use sandbox_stack.Cc.Asm.Bytes.{
  IsByte, current-emits, current-emit8, bytes_of-IsByte, current-add_fixup,
}
use sandbox_stack.Cc.Asm.Decode.{
  Operand, register, memory, rip_relative, Inst, split_rex, finish, decode, is_prefix,
}
use sandbox_stack.Cc.Asm.Operands.{
  modrm_lem, mode-IsBased, Splits, IsRexOf, register-Splits, memory-Splits, rip-Splits,
}
use sandbox_stack.Cc.Asm.RoundTrip.Head.{
  or_false, or-both, IsOpcode, Names, prefixes, rex_bits, head-split,
}
use sandbox_stack.Cc.Asm.RoundTrip.Rm.{
  Shows, as_register, as_memory, as_rip, far, Appends, Encodes, encode_operand-Shows,
}
use sandbox_stack.Cc.Asm.Operands.{take-whole, drop-whole, enough}
use sandbox_stack.Cc.Asm.RoundTrip.Head.{split_rex-bits, rex_bits-w, rex_bits-IsRexOf, rex-bounds}

-- `ah` to `bh` beside something that needs REX.
abbrev pub high_conflict : Enc → Bool
high_conflict e = high_rm e.rm && forces_rex e || e.reg_high8 && forces_rex e

-- An opcode with a mandatory prefix, or 0, and an immediate of `k` bytes.
abbrev pub IsFormat : List ℕ → ℕ → ℕ → Type 0
IsFormat op prefix k =
    (x : ℕ) × (xs : List ℕ) × (op ≡ x ∷ xs)
    × IsOpcode x
    × All IsByte op
    × ((prefix == 0 || is_prefix prefix) ≡ true)
    × ((k == 0 || k == 1 || k == 2 || k == 4 || k == 8) ≡ true)

-- What the instructions put in an `Enc`.
abbrev pub IsEncodable : Enc → Type 0
IsEncodable e = IsFormat e.op e.prefix e.imm_size

-- The instruction that `e` stands for, with the register `r` and the operand `p`.
abbrev pub instruction_of : Enc → ℕ → Operand → Inst
instruction_of e r p = record {
  prefixes = prefixes e;
  wide = e.w;
  opcode = e.op;
  reg = r;
  operand = p;
  imm = pattern (8 * e.imm_size) e.imm;
}

or-false : (a : Bool) → (a || false) ≡ a
or-false true = refl
or-false false = refl

names :
    (e : Enc) (o : Op) (r b : ℕ) (p : Operand)
    → e.rm ≡ some o
    → Shows o b p
    → b < 16
    → e.reg ≡ pos r
    → r < 16
    → Names e r b
names e o r _ _ rm (as_register b kind base) hb reg hr =
    (reg, hr, rw (rm, kind, base) (or-false _), hb)
names e o r _ _ rm (as_memory b kind base) hb reg hr = (reg, hr, rw (rm, kind, base) refl, hb)
names e o r _ _ rm (as_rip kind base) hb reg hr = (reg, hr, rw (rm, kind, base) refl, hb)

imm_bytes_lem :
    (e : Enc)
    → (e.imm_size == 0 || e.imm_size == 1 || e.imm_size == 2 || e.imm_size == 4 || e.imm_size == 8)
      ≡ true
    → imm_bytes e ≡ int_bytes e.imm_size e.imm
unfolding imm_bytes bytes_of
imm_bytes_lem e h =
    elim (Bool-cases (e.imm_size == 1 || e.imm_size == 2 || e.imm_size == 4 || e.imm_size == 8)) [
      | inl known ↦ rw known refl
      | inr none ↦ let zero : e.imm_size ≡ 0 = ground arith in rw (none, zero) refl
    ]

pattern-bound : (w : ℕ) (z : ℤ) → pattern w z < 2 ^ w
pattern-bound w (pos n) = mod-lt n (one-le-pow w 2 (omega arith))
pattern-bound w (negsuc n) = omega (arith, one-le-pow w 2 (omega arith))

head_bytes-IsByte :
    (e : Enc) (r b : ℕ)
    → Names e r b
    → All IsByte e.op
    → (e.prefix == 0 || is_prefix e.prefix) ≡ true
    → All IsByte (head_bytes e)
unfolding head_bytes
head_bytes-IsByte e r b n op p =
    let (low, high) = rex-bounds e r b n in
    let written : All IsByte ((if forces_rex e then rex e ∷ [] else []) ++ e.op) =
      elim (Bool-cases (forces_rex e)) [
        | inl forced ↦ rw forced (omega (arith, high), op)
        | inr absent ↦ rw absent op
      ] in
    let prefixed : All IsByte (
        (if e.prefix == 0 then [] else e.prefix ∷ [])
        ++ ((if forces_rex e then rex e ∷ [] else []) ++ e.op)) =
      elim (Bool-cases (e.prefix == 0)) [
        | inl absent ↦ rw absent written
        | inr given ↦ rw given (ground arith, written)
      ] in
    elim (Bool-cases e.opsize16) [
      | inl short ↦ rw short (omega arith, prefixed)
      | inr other ↦ rw other prefixed
    ]

-- The end of the instruction.
finish_lem :
    (e : Enc) (r b : ℕ) (p : Operand)
    → Names e r b
    → (more : List ℕ)
    → finish
        (prefixes e)
        (rex_bits e)
        e.op
        e.imm_size
        (some (r, p, int_bytes e.imm_size e.imm ++ more))
      ≡ some (instruction_of e r p, more)
finish_lem e r b p n more =
    let value = pattern (8 * e.imm_size) e.imm in
    let whole = length-bytes_of e.imm_size value in
    let read : number_of (bytes_of e.imm_size value) ≡ value =
      number_of-bytes_of e.imm_size value
      ∙ ap (λ t. value % t) (pow_256 e.imm_size)
      ∙ mod-eq_of_lt (pattern-bound (8 * e.imm_size) e.imm) in
    rw
      (
        enough (bytes_of e.imm_size value) more _ whole,
        take-whole (bytes_of e.imm_size value) more _ whole,
        drop-whole (bytes_of e.imm_size value) more _ whole,
        read,
        rex_bits-w e r b n,
      )
      refl

decode-parts :
    (e : Enc) (r b : ℕ) (p : Operand) (ys : List ℕ)
    → Names e r b
    → IsEncodable e
    → Splits (rex_bits e) ys r p
    → (more : List ℕ)
    → decode (length e.op) e.imm_size (head_bytes e ++ (ys ++ (int_bytes e.imm_size e.imm ++ more)))
      ≡ some (instruction_of e r p, more)
unfolding decode
decode-parts e r b p ys n (x, xs, op, start, _, pre, _) splits more =
    let tail = ys ++ (int_bytes e.imm_size e.imm ++ more) in
    let head = head-split e r b x xs tail n op start pre in
    let bits : split_rex ((if forces_rex e then rex e ∷ [] else []) ++ (e.op ++ tail))
        ≡ (rex_bits e, e.op ++ tail) =
      ap (λ t. split_rex ((if forces_rex e then rex e ∷ [] else []) ++ (t ++ tail))) op
      ∙ split_rex-bits e r b x (xs ++ tail) n start.1
      ∙ ap (λ t. (rex_bits e, t ++ tail)) (sym op) in
    rw
      (
        head,
        bits,
        take-whole e.op tail (length e.op) refl,
        drop-whole e.op tail (length e.op) refl,
        splits (int_bytes e.imm_size e.imm ++ more),
      )
      (finish_lem e r b p n more)

encode-high :
    (e : Enc) (s : Asm) → high_conflict e ≡ true → encode e s ≡ stop high_byte_register_with_rex
unfolding encode
encode-high e s h = elim (Bool-cases (high_rm e.rm && forces_rex e)) [
  | inl operand ↦ rw operand refl
  | inr free ↦
      let reg : (e.reg_high8 && forces_rex e) ≡ true = or_false _ _ h free in rw (free, reg) refl
]

encode-free :
    (e : Enc) (o : Op) (s : Asm)
    → high_conflict e ≡ false
    → e.rm ≡ some o
    → encode e s
      ≡ (encode_operand e o (emits (head_bytes e) s) >>= λ s'. ok (emits (imm_bytes e) s'))
unfolding encode
encode-free e o s h rm =
    let (operand, reg) = or-both (high_rm e.rm && forces_rex e) _ h in
    rw (operand, reg)
      (ap (λ t. encode_rm e t (emits (head_bytes e) s) >>= λ s'. ok (emits (imm_bytes e) s')) rm)

-- The three parts, one after the other.
encode-Encodes :
    (e : Enc) (o : Op) (s : Asm) (r b : ℕ) (p : Operand)
    → Names e r b
    → IsEncodable e
    → high_conflict e ≡ false
    → e.rm ≡ some o
    → Encodes e o (emits (head_bytes e) s) (rex_bits e) r p
    → (s' : Asm) × (xs : List ℕ) × (encode e s ≡ ok s')
      × Appends s xs s'
      × ((more : List ℕ)
          → decode (length e.op) e.imm_size (xs ++ more) ≡ some (instruction_of e r p, more))
unfolding Encodes
encode-Encodes e o s r b p n enc h rm (s2, ys, done, appended, splits) =
    let imm = imm_bytes_lem e enc.6 in
    let head = current-emits (head_bytes e) s (head_bytes-IsByte e r b n enc.4 enc.5) in
    let tail = current-emits (int_bytes e.imm_size e.imm) s2 (bytes_of-IsByte e.imm_size _) in
    (
      emits (int_bytes e.imm_size e.imm) s2,
      head_bytes e ++ ys ++ int_bytes e.imm_size e.imm,
      encode-free e o s h rm ∙ rw (done, imm) refl,
      tail
          ∙ ap (λ t. t ++ int_bytes e.imm_size e.imm) (appended ∙ ap (λ t. t ++ ys) head)
          ∙ ap (λ t. t ++ int_bytes e.imm_size e.imm) (append_assoc (current s) (head_bytes e) ys)
          ∙ append_assoc (current s) (head_bytes e ++ ys) (int_bytes e.imm_size e.imm),
      λ more.
          ap (decode (length e.op) e.imm_size) (
            append_assoc (head_bytes e ++ ys) (int_bytes e.imm_size e.imm) more
            ∙ append_assoc (head_bytes e) ys _)
          ∙ decode-parts e r b p ys n enc splits more,
    )

-- How an encoding ends: with an error and its cause, or with bytes that are read back, whatever
-- follows them.
abbrev pub Encoded : Enc → Asm → ℕ → Operand → Result Asm → Type 0
Encoded e s r p m =
    (high_conflict e ≡ true) × (m ≡ stop high_byte_register_with_rex)
    ⊎ (high_conflict e ≡ false) × (far p ≡ true) × (m ≡ stop displacement_out_of_range)
    ⊎ (high_conflict e ≡ false)
      × (far p ≡ false)
      × ((s' : Asm) × (xs : List ℕ) × (m ≡ ok s')
          × Appends s xs s'
          × ((more : List ℕ)
              → decode (length e.op) e.imm_size (xs ++ more) ≡ some (instruction_of e r p, more)))

-- An encoding whose opcode starts with neither a prefix nor REX, whose mandatory prefix is 0,
-- 0x66, 0xF2 or 0xF3, whose immediate takes 0, 1, 2, 4 or 8 bytes, with a register below 16 and
-- an operand that is a register below 16, a base register below 16 with a displacement, or a
-- place beside RIP, ends in one of three ways: with the high-byte error, exactly if ah to bh
-- meets REX; else with the displacement error, exactly if the displacement does not fit 32 bits;
-- else with bytes at the end of the section from which the independent decoder reads prefixes,
-- operand width, opcode, register, operand and immediate again and stops where they end,
-- whatever follows.
pub decode-encode :
    (e : Enc) (o : Op) (s : Asm) (r b : ℕ) (p : Operand)
    → e.rm ≡ some o
    → Shows o b p
    → b < 16
    → e.reg ≡ pos r
    → r < 16
    → IsEncodable e
    → Encoded e s r p (encode e s)
decode-encode e o s r b p rm shows hb reg hr enc =
    let n = names e o r b p rm shows hb reg hr in
    elim (Bool-cases (high_conflict e)) [
      | inl high ↦ inl (high, encode-high e s high)
      | inr free ↦
          elim (encode_operand-Shows e o (emits (head_bytes e) s) r b _ p shows reg
            (rex_bits-IsRexOf e r b n)) [
              | inl (wide, fails) ↦
                  inr (inl (free, wide, encode-free e o s free rm ∙ rw fails refl))
              | inr (near, done) ↦
                  inr (inr (free, near, encode-Encodes e o s r b p n enc free rm done))
            ]
    ]
