-- ===== src/Cc/Instr/Encodable.antt =====
-- What `instruction` of cc/asm.c chooses has the processor's format: the parts.
use sandbox_stack.Prelude.{ℕ, ◌+◌, ◌*◌, ◌^◌, ◌<◌, ◌≡◌, inl, inr, refl, subst, arith}
use sandbox_stack.Prelude.{Bool, true, false, not, ◌&&◌, ◌||◌, Bool-cases, All, All-append}
use sandbox_stack.Prelude.{[], ◌∷◌, ◌==◌, if◌then◌else◌}
use sandbox_stack.Prelude.Int.{ℤ, pos, negsuc}
use sandbox_stack.Cc.Asm.{Op, AsmError, Result, ok, stop, ◌>>=◌, ◌>>◌, require, low3, int_bytes}
use sandbox_stack.Cc.Asm.Bytes.{IsByte, bytes_of-IsByte}
use sandbox_stack.Cc.Asm.RoundTrip.{IsFormat, IsEncodable}
use sandbox_stack.Cc.Asm.RoundTrip.Head.{IsOpcode}
use sandbox_stack.Cc.Instr.{
  is_xmm, is_low_byte, Out, plain, encoded, branch, is_general, op_size, op_size1, suffix_size,
}
use sandbox_stack.Cc.Asm.{fits, is_reg, is_mem, is_imm, bad_operands, is_extended}
use sandbox_stack.Cc.Instr.{
  no_enc, set_rm, set_group, set_width, need_rex_for, same_width, check_imm, fold_sign, alu_imm,
  alu, mov_imm_reg, mov,
}

-- The result has the property, if there is one.
pub data Returns {ℓ} {A : Type ℓ} (P : A → Type 0) : Result A → Type ℓ where
  returned : (a : A) → P a → Returns P (ok a)
  failed : (e : AsmError) → Returns P (stop e)

module _ {ℓ κ} {A : Type ℓ} {B : Type κ} {P : B → Type 0} {Q : A → Type 0} where
  pub Returns-bind :
      {m : Result A} {f : A → Result B}
      → Returns Q m
      → ((a : A) → Q a → Returns P (f a))
      → Returns P (m >>= f)
  Returns-bind (returned a h) k = k a h
  Returns-bind (failed e) k = failed e

module _ {κ} {B : Type κ} {P : B → Type 0} where
  pub Returns-require :
      (c : Bool) {r : Result B} (e : AsmError) → Returns P r → Returns P (require c e >> r)
  Returns-require true e h = h
  Returns-require false e h = failed e

  pub Returns-if :
      (c : Bool) {x y : Result B} → Returns P x → Returns P y → Returns P (if c then x else y)
  Returns-if true h k = h
  Returns-if false h k = k

-- The sizes of general registers.
abbrev pub IsSize : ℕ → Type 0
IsSize n = (n == 1 || n == 2 || n == 4 || n == 8) ≡ true

-- A register that is not an xmm register has such a size.
abbrev pub IsOperand : Op → Type 0
IsOperand o = is_general o ≡ true → IsSize o.size

abbrev pub IsOut : Out → Type 0
IsOut (plain xs) = All IsByte xs
IsOut (encoded e) = IsEncodable e
IsOut (branch xs name) = All IsByte xs

abbrev pub Fine : Result Out → Type 0
Fine r = Returns IsOut r

suffix_size-IsSize : (c : ℕ) → Returns IsSize (suffix_size c)
suffix_size-IsSize c = Returns-if _ (returned 1 refl) (
    Returns-if _ (returned 2 refl)
      (Returns-if _ (returned 4 refl) (Returns-if _ (returned 8 refl) (failed _))))

sized :
    (o : Op) (r : Result ℕ)
    → IsOperand o
    → Returns IsSize r
    → Returns IsSize (if is_general o then ok o.size else r)
sized o r h k = elim (Bool-cases (is_general o)) [
  | inl general ↦ rw general (returned o.size (h general))
  | inr other ↦ rw other k
]

pub op_size-IsSize : (a b : Op) (c : ℕ) → IsOperand a → IsOperand b → Returns IsSize (op_size a b c)
op_size-IsSize a b c ha hb = sized a _ ha (sized b _ hb (suffix_size-IsSize c))

pub op_size1-IsSize : (a : Op) (c : ℕ) → IsOperand a → Returns IsSize (op_size1 a c)
op_size1-IsSize a c h = sized a _ h (suffix_size-IsSize c)

-- An opcode of one byte, by the size.
pub either :
    (c : Bool) (x y : ℕ)
    → IsOpcode x × IsByte x
    → IsOpcode y × IsByte y
    → let z = if c then x else y in IsOpcode z × IsByte z
either true x y h k = h
either false x y h k = k

-- Opcodes of group 1.
group-IsOpcode : (n k : ℕ) → n < 8 → k < 8 → IsOpcode (n * 8 + k) × IsByte (n * 8 + k)
group-IsOpcode n k h h' = ((ground arith, ground arith), omega arith)

group-IsOpcode_zero : (n : ℕ) → n < 8 → IsOpcode (n * 8) × IsByte (n * 8)
group-IsOpcode_zero n h =
    subst (λ x. IsOpcode x × IsByte x) (omega arith) (group-IsOpcode n 0 h (omega arith))

-- An opcode that `set_size` chooses.
pub sized_opcode :
    (size x y : ℕ)
    → IsOpcode x × IsByte x
    → IsOpcode y × IsByte y
    → (k : ℕ) → (k == 0 || k == 1 || k == 2 || k == 4 || k == 8) ≡ true
    → IsFormat ((if size == 1 then x else y) ∷ []) 0 k
sized_opcode size x y h h' k imm =
    let (start, byte) = either (size == 1) x y h h' in (_, _, refl, start, (byte, tt), refl, imm)

alu_imm-IsEncodable :
    (size : ℕ) (v : ℤ) (g : ℕ) (o : Op)
    → IsOut
        (encoded (need_rex_for o (set_width size (alu_imm size v (set_rm o (set_group g no_enc))))))
unfolding alu_imm
alu_imm-IsEncodable size v g o = elim (Bool-cases (size == 1)) [
  | inl byte ↦ rw byte (0x80, [], refl, (refl, refl), (omega arith, tt), refl, refl)
  | inr wider ↦ rw wider elim (Bool-cases (fits 128 v)) [
    | inl short ↦ rw short (0x83, [], refl, (refl, refl), (omega arith, tt), refl, refl)
    | inr long ↦ rw long elim (Bool-cases (size == 2)) [
      | inl two ↦ rw two (0x81, [], refl, (refl, refl), (omega arith, tt), refl, refl)
      | inr other ↦ rw other (0x81, [], refl, (refl, refl), (omega arith, tt), refl, refl)
    ]
  ]
]

-- Whatever a call returns.
pub any {ℓ} : {A : Type ℓ} (m : Result A) → Returns (λ x. Unit {0}) m
any (ok a) = returned a tt
any (stop e) = failed e

pub alu-IsOut : (n : ℕ) (a b : Op) (c : ℕ) → n < 8 → Fine (alu n a b c)
unfolding alu
alu-IsOut n a b c h = Returns-bind (any (same_width a b)) λ u _.
    Returns-bind (any (op_size b a c)) λ size _.
      let to =
        sized_opcode size (n * 8) (n * 8 + 1) (group-IsOpcode_zero n h)
          (group-IsOpcode n 1 h (omega arith)) 0 refl in
      let from =
        sized_opcode size (n * 8 + 2) (n * 8 + 3) (group-IsOpcode n 2 h (omega arith))
          (group-IsOpcode n 3 h (omega arith)) 0 refl in
      Returns-if (is_imm a)
        (Returns-require (is_reg b || is_mem b) bad_operands (
          Returns-bind (any (check_imm a.imm (if size == 8 then 32 else size * 8) (size == 8)))
            λ v _. returned _ (alu_imm-IsEncodable size (fold_sign size v) n b)))
        (Returns-if (is_reg a && (is_reg b || is_mem b)) (returned _ to)
          (Returns-if (is_mem a && is_reg b) (returned _ from) (failed bad_operands)))

-- The size of the immediate of `mov` to memory.
mov_size :
    (size : ℕ)
    → IsSize size
    → let k = if size == 8 then 4 else size in
      (k == 0 || k == 1 || k == 2 || k == 4 || k == 8) ≡ true
mov_size size h = ground arith

-- An opcode byte with a register in its low bits.
pub low_opcode : (x : ℕ) (r : ℤ) → x < 0xF8 → IsByte (x + low3 r)
low_opcode x (pos n) h = omega arith
low_opcode x (negsuc n) h = omega arith

pub IsByte-if : (c : Bool) (x y : ℕ) → IsByte x → IsByte y → IsByte (if c then x else y)
IsByte-if true x y h k = h
IsByte-if false x y h k = k

pub All-optional : (c : Bool) (x : ℕ) → IsByte x → All IsByte (if c then x ∷ [] else [])
All-optional true x h = (h, tt)
All-optional false x h = tt

IsOut-if : (c : Bool) (x y : Out) → IsOut x → IsOut y → IsOut (if c then x else y)
IsOut-if true x y h k = h
IsOut-if false x y h k = k

mov_imm_reg-IsOut : (imm : ℤ) (dst : Op) (size : ℕ) → Fine (mov_imm_reg imm dst size)
unfolding mov_imm_reg
mov_imm_reg-IsOut imm dst size =
    let whole : All IsByte
        ((if is_extended dst.reg then 0x49 else 0x48) ∷ (0xB8 + low3 dst.reg) ∷ int_bytes 8 imm) =
      (
        IsByte-if (is_extended dst.reg) 0x49 0x48 (omega arith) (omega arith),
        (low_opcode 0xB8 dst.reg (omega arith), bytes_of-IsByte 8 _),
      ) in
    let opcode : IsByte ((if size == 1 then 0xB0 else 0xB8) + low3 dst.reg) =
      elim (Bool-cases (size == 1)) [
        | inl one ↦ rw one (low_opcode 0xB0 dst.reg (omega arith))
        | inr more ↦ rw more (low_opcode 0xB8 dst.reg (omega arith))
      ] in
    Returns-if (size == 8)
      (returned _ (
        IsOut-if (fits (2 ^ 31) imm) _ _
          (0xC7, [], refl, (refl, refl), (omega arith, tt), refl, refl) whole))
      (Returns-bind (any (check_imm imm (size * 8) false)) λ v _. Returns-require _ _ (
        returned _ (
          All-append IsByte (if size == 2 then 0x66 ∷ [] else []) _
            (All-optional (size == 2) 0x66 (omega arith))
            (All-append IsByte
              (if is_extended dst.reg || size == 1 && is_low_byte dst.reg && not dst.high8
                then (if is_extended dst.reg then 0x41 else 0x40) ∷ []
                else [])
              _
              (All-optional
                (is_extended dst.reg || size == 1 && is_low_byte dst.reg && not dst.high8) _
                (IsByte-if (is_extended dst.reg) 0x41 0x40 (omega arith) (omega arith)))
              (opcode, bytes_of-IsByte size _)))))

pub mov-IsOut : (a b : Op) (c : ℕ) → IsOperand a → IsOperand b → Fine (mov a b c)
unfolding mov
mov-IsOut a b c ha hb = Returns-require (not (is_xmm a || is_xmm b)) bad_operands (
    Returns-bind (any (same_width a b)) λ u _. Returns-bind (op_size-IsSize b a c hb ha) λ size sz.
      let store =
        sized_opcode size 0xC6 0xC7 ((refl, refl), omega arith) ((refl, refl), omega arith)
          (if size == 8 then 4 else size) (mov_size size sz) in
      let to =
        sized_opcode size 0x88 0x89 ((refl, refl), omega arith) ((refl, refl), omega arith) 0
          refl in
      let from =
        sized_opcode size 0x8A 0x8B ((refl, refl), omega arith) ((refl, refl), omega arith) 0
          refl in
      Returns-if (is_imm a && is_reg b) (mov_imm_reg-IsOut a.imm b size) (
        Returns-if (is_imm a && is_mem b)
          (Returns-bind (any (check_imm a.imm (if size == 8 then 32 else size * 8) (size == 8)))
            λ v _. returned _ store)
          (Returns-if (is_reg a && (is_reg b || is_mem b)) (returned _ to) (
            Returns-if (is_mem a && is_reg b)
              (Returns-if a.gotpcrel
                (Returns-require (size == 8) bad_operands
                  (returned _ (0x8D, [], refl, (refl, refl), (omega arith, tt), refl, refl)))
                (returned _ from))
              (failed bad_operands)))))
