-- ===== src/Cc/Asm/Decode.antt =====
-- The format of an instruction as the processor reads it: legacy prefixes, REX, opcode, ModRM with its
-- operand, immediate. An independent description of what the encoder of cc/asm.c writes.
use sandbox_stack.Prelude.{ℕ, ◌+◌, ◌-◌, ◌*◌, ◌/◌, ◌%◌, ◌^◌, Bool, ◌||◌, ◌&&◌}
use sandbox_stack.Prelude.{
  List, [], ◌∷◌, Option, none, some, length, take, drop, ltb, leb, ◌==◌, if◌then◌else◌,
}
use sandbox_stack.Prelude.Int.{ℤ, pos, signed}
use sandbox_stack.Bytes.{number_of}

-- The operand that ModRM names.
pub data Operand : Type 0 where
  register : ℕ → Operand
  memory : ℕ → ℤ → Operand
  rip_relative : ℤ → Operand

pub record Inst : Type 0 where
  pub prefixes : List ℕ
  pub wide : Bool
  pub opcode : List ℕ
  pub reg : ℕ
  pub operand : Operand
  pub imm : ℕ

-- Operand size and the two repeat prefixes.
abbrev pub is_prefix : ℕ → Bool
is_prefix x = x == 0x66 || x == 0xF2 || x == 0xF3

abbrev pub is_rex : ℕ → Bool
is_rex x = leb 0x40 x && ltb x 0x50

unfoldable pub split_prefixes : List ℕ → List ℕ × List ℕ
split_prefixes [] = ([], [])
split_prefixes (x ∷ xs) =
    let (ps, rest) = split_prefixes xs in if is_prefix x then (x ∷ ps, rest) else ([], x ∷ xs)

-- The low four bits of the REX prefix, 0 without one.
abbrev pub split_rex : List ℕ → ℕ × List ℕ
split_rex [] = (0, [])
split_rex (x ∷ xs) = if is_rex x then (x - 0x40, xs) else (0, x ∷ xs)

-- A displacement of `n` bytes.
abbrev pub displacement : ℕ → List ℕ → Option (ℤ × List ℕ)
displacement n xs =
    if ltb (length xs) n
    then none
    else some
        ((if n == 0 then pos 0 else signed (2 ^ (8 * n) / 2) (number_of (take n xs))), drop n xs)

abbrev pub with_base : ℕ → Option (ℤ × List ℕ) → Option (Operand × List ℕ)
with_base base none = none
with_base base (some (d, xs)) = some (memory base d, xs)

abbrev pub with_rip : Option (ℤ × List ℕ) → Option (Operand × List ℕ)
with_rip none = none
with_rip (some (d, xs)) = some (rip_relative d, xs)

-- The bytes of the displacement, by `mod`.
abbrev pub disp_size : ℕ → ℕ
disp_size mode = if mode == 1 then 1 else if mode == 2 then 4 else 0

-- SIB without an index register; with `mod` 0 a base of 5 would mean that there is none.
abbrev pub split_sib : ℕ → ℕ → List ℕ → Option (Operand × List ℕ)
split_sib mode ext [] = none
split_sib mode ext (sib ∷ xs) =
    if sib / 8 % 8 == 4 && ltb sib 64
    then (if mode == 0 && sib % 8 == 5
        then none
        else with_base (sib % 8 + ext * 8) (displacement (disp_size mode) xs))
    else none

-- The operand behind a ModRM byte with these fields; `ext` is REX.B.
unfoldable pub split_operand : ℕ → ℕ → ℕ → List ℕ → Option (Operand × List ℕ)
split_operand mode rm ext xs =
    if mode == 3
    then some (register (rm + ext * 8), xs)
    else if mode == 0 && rm == 5
    then with_rip (displacement 4 xs)
    else if rm == 4
    then split_sib mode ext xs
    else with_base (rm + ext * 8) (displacement (disp_size mode) xs)

abbrev pub with_reg : ℕ → Option (Operand × List ℕ) → Option (ℕ × Operand × List ℕ)
with_reg r none = none
with_reg r (some (o, rest)) = some (r, o, rest)

-- ModRM's operand, and its `reg` field with REX.R.
abbrev pub split_modrm : ℕ → List ℕ → Option (ℕ × Operand × List ℕ)
split_modrm rex [] = none
split_modrm rex (x ∷ xs) =
    with_reg (x / 8 % 8 + rex / 4 % 2 * 8) (split_operand (x / 64) (x % 8) (rex % 2) xs)

-- An instruction with an opcode of `n` bytes and an immediate of `k`.
abbrev pub finish : List ℕ → ℕ → List ℕ → ℕ → Option (ℕ × Operand × List ℕ) → Option (Inst × List ℕ)
finish ps rex op k none = none
finish ps rex op k (some (reg, o, xs)) =
    if ltb (length xs) k
    then none
    else some (
      record {
        prefixes = ps;
        wide = rex / 8 % 2 == 1;
        opcode = op;
        reg = reg;
        operand = o;
        imm = number_of (take k xs);
      },
      drop k xs,
    )

unfoldable pub decode : ℕ → ℕ → List ℕ → Option (Inst × List ℕ)
unfolding split_prefixes split_operand
decode n k xs =
    let (ps, ys) = split_prefixes xs in
    let (rex, zs) = split_rex ys in finish ps rex (take n zs) k (split_modrm rex (drop n zs))
