-- ===== src/Cc/Instr/Immediate.antt =====
-- The immediate that `alu` of cc/asm.c writes, and what the processor makes of it.
use sandbox_stack.Prelude.{ℕ, ◌-◌, ◌*◌, ◌/◌, ◌^◌, ◌≡◌, ◌⊎◌}
use sandbox_stack.Prelude.{Bool, true, false, if◌then◌else◌, ◌==◌}
use sandbox_stack.Prelude.{Option, some, none, List, [], ◌∷◌}
use sandbox_stack.Prelude.Int.{ℤ, pos, pattern, signed}
use sandbox_stack.Cc.Asm.{Op, Enc, Result, ok, stop, immediate_does_not_fit}
use sandbox_stack.Cc.Instr.{Out, encoded, in_range}

-- The processor's value: the bytes of the immediate, extended by their sign to `size` bytes.
abbrev pub extended : ℕ → ℕ → ℤ → ℕ
extended size k v = pattern (8 * size) (signed (2 ^ (8 * k) / 2) (pattern (8 * k) v))

-- `check_imm` takes the immediate at this size.
abbrev pub accepts : ℕ → ℤ → Bool
accepts size v =
    let bits = if size == 8 then 32 else size * 8 in
    in_range (2 ^ (bits - 1)) (if size == 8 then 2 ^ (bits - 1) else 2 ^ bits) v

-- How many bytes of immediate the processor reads behind an opcode of group 1 for an operand of `size`
-- bytes: 80 is for bytes, 81 has two bytes for words and else four, 83 has one; no other is one.
abbrev pub group_one : ℕ → ℕ → Option ℕ
group_one o size =
    if o == 0x80
    then (if size == 1 then some 1 else none)
    else if o == 0x81
    then (if size == 1 then none else some (if size == 2 then 2 else 4))
    else if o == 0x83
    then (if size == 1 then none else some 1)
    else none

abbrev pub reads : List ℕ → ℕ → Option ℕ
reads [] size = none
reads (o ∷ []) size = group_one o size
reads (o ∷ (o' ∷ os)) size = none

-- The immediate of the encoding, read at the operand's size.
abbrev Extends : ℕ → ℤ → Enc → Enc → Type 0
Extends size v e e' =
    (extended size e'.imm_size e'.imm ≡ pattern (8 * size) v)
    × (e'.reg ≡ e.reg)
    × (e'.rm ≡ e.rm)
    × (reads e'.op size ≡ some e'.imm_size)

-- How `alu` ends with an immediate `v` and the operand `dst` of `size` bytes.
abbrev pub AluImmediate : ℕ → ℤ → Op → ℕ → Result Out → Type 0
AluImmediate n v dst size m =
    (accepts size v ≡ false) × (m ≡ stop immediate_does_not_fit)
    ⊎ (accepts size v ≡ true)
      × ((e : Enc) × (m ≡ ok (encoded e))
          × (reads e.op size ≡ some e.imm_size)
          × (e.reg ≡ pos n)
          × (e.rm ≡ some dst)
          × (e.w ≡ (size == 8))
          × (e.opsize16 ≡ (size == 2))
          × (extended size e.imm_size e.imm ≡ pattern (8 * size) v))
