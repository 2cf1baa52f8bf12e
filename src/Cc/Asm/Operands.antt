-- ===== src/Cc/Asm/Operands.antt =====
-- The bytes that cc/asm.c writes for an operand, as the processor splits them.
use sandbox_stack.Prelude.{
  ℕ, zero, suc, ◌+◌, ◌*◌, ◌/◌, ◌%◌, ◌^◌, ◌<◌, ◌≡◌, inl, inr, refl, ap, sym, subst, ◌∙◌, arith,
}
use sandbox_stack.Prelude.{Bool, true, false, not, ◌&&◌, ◌||◌, Bool-cases, bit_or}
use sandbox_stack.Prelude.{List, [], ◌∷◌, ◌++◌, some, length, take, drop, ltb, ◌==◌, if◌then◌else◌}
use sandbox_stack.Prelude.{length-append, not_lt→ltb}
use sandbox_stack.Prelude.Bits.{bit_or_disjoint'}
use sandbox_stack.Prelude.Int.{ℤ, pos, negsuc, pattern, signed}
use sandbox_stack.Bytes.{bytes_of, number_of}
use sandbox_stack.Bytes.Laws.{length-bytes_of, number_of-bytes_of}
use mathlib.Core.List.{append_assoc}
use sandbox_stack.Cc.Asm.{
  Op, low3, fits, is_zero, int_bytes, modrm, memory_mod, disp_bytes, memory_bytes,
}
use sandbox_stack.Cc.Asm.Decode.{Operand, register, memory, rip_relative, displacement, disp_size}
use sandbox_stack.Cc.Asm.Decode.{split_sib, split_operand, split_modrm, with_rip}

-- The three fields of ModRM do not overlap.
pub modrm_lem : (m r b : ℕ) → r < 8 → b < 8 → modrm m r b ≡ m * 64 + r * 8 + b
modrm_lem m r b hr hb =
    let high : bit_or (m * 64) (r * 8) ≡ m * 64 + r * 8 =
      bit_or_disjoint' 6 (r * 8) m (omega arith) in
    let both : m * 64 + r * 8 ≡ (m * 8 + r) * 8 = omega arith in
    ap (λ t. bit_or t b) (high ∙ both)
    ∙ bit_or_disjoint' 3 b (m * 8 + r) (omega arith)
    ∙ omega arith

pub take-whole : (xs ys : List ℕ) (n : ℕ) → length xs ≡ n → take n (xs ++ ys) ≡ xs
take-whole [] ys zero e = refl
take-whole [] ys (suc n) e = absurd (omega arith)
take-whole (x ∷ xs) ys zero e = absurd (omega arith)
take-whole (x ∷ xs) ys (suc n) e = ap (λ t. x ∷ t) (take-whole xs ys n (omega arith))

pub drop-whole : (xs ys : List ℕ) (n : ℕ) → length xs ≡ n → drop n (xs ++ ys) ≡ ys
drop-whole [] ys zero e = refl
drop-whole [] ys (suc n) e = absurd (omega arith)
drop-whole (x ∷ xs) ys zero e = absurd (omega arith)
drop-whole (x ∷ xs) ys (suc n) e = drop-whole xs ys n (omega arith)

pub enough : (xs ys : List ℕ) (n : ℕ) → length xs ≡ n → ltb (length (xs ++ ys)) n ≡ false
enough xs ys n e = not_lt→ltb _ _ (λ h. omega (arith, length-append xs ys, h))

-- A displacement that fits its bytes is read back.
signed_byte : (d : ℤ) → fits 128 d ≡ true → signed 128 (pattern 8 d % 256) ≡ d
signed_byte (pos n) h = ground arith
signed_byte (negsuc n) h = ground arith

pub signed_word : (d : ℤ) → fits (2 ^ 31) d ≡ true → signed (2 ^ 31) (pattern 32 d % 2 ^ 32) ≡ d
signed_word (pos n) h = ground arith
signed_word (negsuc n) h = ground arith

displacement_byte :
    (d : ℤ) (more : List ℕ)
    → fits 128 d ≡ true
    → displacement 1 (int_bytes 1 d ++ more) ≡ some (d, more)
displacement_byte d more h =
    let whole = length-bytes_of 1 (pattern 8 d) in
    let read : number_of (bytes_of 1 (pattern 8 d)) ≡ pattern 8 d % 256 =
      number_of-bytes_of 1 (pattern 8 d) in
    rw
      (
        enough (int_bytes 1 d) more 1 whole,
        take-whole (int_bytes 1 d) more 1 whole,
        drop-whole (int_bytes 1 d) more 1 whole,
        read,
        signed_byte d h,
      )
      refl

displacement_word :
    (d : ℤ) (more : List ℕ)
    → fits (2 ^ 31) d ≡ true
    → displacement 4 (int_bytes 4 d ++ more) ≡ some (d, more)
displacement_word d more h =
    let whole = length-bytes_of 4 (pattern 32 d) in
    let read : number_of (bytes_of 4 (pattern 32 d)) ≡ pattern 32 d % 2 ^ 32 =
      number_of-bytes_of 4 (pattern 32 d) in
    rw
      (
        enough (int_bytes 4 d) more 4 whole,
        take-whole (int_bytes 4 d) more 4 whole,
        drop-whole (int_bytes 4 d) more 4 whole,
        read,
        signed_word d h,
      )
      refl

-- An operand field, split off with the REX bits `rx`, whatever follows.
abbrev pub Splits : ℕ → List ℕ → ℕ → Operand → Type 0
Splits rx xs r p = (more : List ℕ) → split_modrm rx (xs ++ more) ≡ some (r, p, more)

-- The REX bits that go with the numbers `r` and `b`.
abbrev pub IsRexOf : ℕ → ℕ → ℕ → Type 0
IsRexOf rx r b = (rx % 2 ≡ b / 8) × (rx / 4 % 2 ≡ r / 8)

fields :
    (m r rm : ℕ)
    → m < 4
    → rm < 8
    → (modrm m (r % 8) rm / 64 ≡ m)
      × (modrm m (r % 8) rm / 8 % 8 ≡ r % 8)
      × (modrm m (r % 8) rm % 8 ≡ rm)
fields m r rm h h' =
    let e = modrm_lem m (r % 8) rm (omega arith) h' in
    (rw e (omega arith), rw e (omega arith), rw e (omega arith))

-- A ModRM byte with these fields, before a tail that holds the operand.
split-byte :
    (rx x mode reg rm ext : ℕ) (xs : List ℕ) (r : ℕ) (o : Operand) (rest : List ℕ)
    → x / 64 ≡ mode
    → x / 8 % 8 ≡ reg
    → x % 8 ≡ rm
    → rx % 2 ≡ ext
    → reg + rx / 4 % 2 * 8 ≡ r
    → split_operand mode rm ext xs ≡ some (o, rest)
    → split_modrm rx (x ∷ xs) ≡ some (r, o, rest)
split-byte rx x mode reg rm ext xs r o rest e1 e2 e3 e4 e5 e6 = rw (e1, e2, e3, e4, e6, e5) refl

split-fields :
    (rx m r rm ext : ℕ) (xs : List ℕ) (o : Operand) (rest : List ℕ)
    → m < 4
    → rm < 8
    → rx % 2 ≡ ext
    → rx / 4 % 2 ≡ r / 8
    → split_operand m rm ext xs ≡ some (o, rest)
    → split_modrm rx (modrm m (r % 8) rm ∷ xs) ≡ some (r, o, rest)
split-fields rx m r rm ext xs o rest h h' eb er e =
    let (mode, reg, rm') = fields m r rm h h' in
    split-byte rx _ m (r % 8) rm ext xs r o rest mode reg rm' eb (omega arith) e

pub register-Splits :
    (rx r b : ℕ) → IsRexOf rx r b → Splits rx (modrm 3 (r % 8) (b % 8) ∷ []) r (register b)
unfolding split_operand
register-Splits rx r b (eb, er) more =
    let whole : b % 8 + b / 8 * 8 ≡ b = omega arith in
    split-fields rx 3 r (b % 8) (b / 8) more (register b) more (omega arith) (omega arith) eb er
      (ap (λ n. some (register n, more)) whole)

pub rip-Splits :
    (rx r : ℕ)
    → rx / 4 % 2 ≡ r / 8
    → Splits rx (modrm 0 (r % 8) 5 ∷ bytes_of 4 0) r (rip_relative (pos 0))
unfolding split_operand bytes_of number_of
rip-Splits rx r er more =
    split-fields rx 0 r 5 (rx % 2) (bytes_of 4 0 ++ more) (rip_relative (pos 0)) more (omega arith)
      (omega arith) refl er (ap with_rip (displacement_word (pos 0) more refl))

zero-displacement : (d : ℤ) (b : Bool) → (is_zero d && b) ≡ true → d ≡ pos 0
zero-displacement (pos n) b h = ap pos (ground arith)
zero-displacement (negsuc n) b h = ground arith

-- The same for the mode alone.
displacement-mode :
    (absent small : Bool) (d : ℤ) (more : List ℕ)
    → (absent ≡ true → d ≡ pos 0)
    → (small ≡ true → fits 128 d ≡ true)
    → let mode : ℕ = if absent then 0 else if small then 1 else 2 in
      (not (mode == 2) || fits (2 ^ 31) d) ≡ true
      → displacement (disp_size mode) (disp_bytes mode d ++ more) ≡ some (d, more)
displacement-mode true small d more z f h = rw (enough [] more 0 refl, z refl) refl
displacement-mode false true d more z f h = displacement_byte d more (f refl)
displacement-mode false false d more z f h = displacement_word d more h

-- The displacement of a memory operand, by its mode.
pub displacement_lem :
    (o : Op) (more : List ℕ)
    → (not (memory_mod o == 2) || fits (2 ^ 31) o.disp) ≡ true
    → displacement (disp_size (memory_mod o)) (disp_bytes (memory_mod o) o.disp ++ more)
      ≡ some (o.disp, more)
displacement_lem o more h =
    displacement-mode _ _ o.disp more (zero-displacement o.disp _) (λ e. e) h

and-false : (a : Bool) → (a && false) ≡ false
and-false true = refl
and-false false = refl

split-memory :
    (mode rm ext : ℕ) (d : ℤ) (xs more : List ℕ)
    → mode < 3
    → (mode == 0 && rm == 5) ≡ false
    → displacement (disp_size mode) xs ≡ some (d, more)
    → split_operand mode rm ext ((if rm == 4 then 0x24 ∷ [] else []) ++ xs)
      ≡ some (memory (rm + ext * 8) d, more)
unfolding split_operand
split-memory mode rm ext d xs more h based e =
    let three : (mode == 3) ≡ false = ground arith in
    rw (three, based)
      elim (Bool-cases (rm == 4)) [
        | inl four ↦
            let four' : rm ≡ 4 = ground arith in
            let indexed : (mode == 0 && false) ≡ false = and-false (mode == 0) in
            rw four (
              subst (λ n. split_sib mode ext (0x24 ∷ xs) ≡ some (memory (n + ext * 8) d, more))
                (sym four') (rw (indexed, e) refl))
        | inr other ↦ rw (other, e) refl
      ]

pub mode-IsBased :
    (absent small : Bool) (rm : ℕ)
    → let mode : ℕ = if absent && not (rm == 5) then 0 else if small then 1 else 2 in
      (mode < 3) × ((mode == 0 && rm == 5) ≡ false)
mode-IsBased true small rm = elim (Bool-cases (rm == 5)) [
  | inl five ↦ rw five elim (Bool-cases small) [
    | inl byte ↦ rw byte (omega arith, refl)
    | inr word ↦ rw word (omega arith, refl)
  ]
  | inr other ↦ rw other (omega arith, refl)
]
mode-IsBased false true rm = (omega arith, refl)
mode-IsBased false false rm = (omega arith, refl)

pub memory-Splits :
    (rx r b : ℕ) (o : Op)
    → o.base ≡ pos b
    → IsRexOf rx r b
    → (not (memory_mod o == 2) || fits (2 ^ 31) o.disp) ≡ true
    → Splits rx (memory_bytes (r % 8) o) r (memory b o.disp)
unfolding memory_bytes
memory-Splits rx r b o base (eb, er) h more =
    let whole : b % 8 + b / 8 * 8 ≡ b = omega arith in
    let (small, based) = mode-IsBased (is_zero o.disp) (fits 128 o.disp) (low3 o.base) in
    let read =
      split-memory (memory_mod o) (low3 o.base) (b / 8) o.disp _ more small based
        (displacement_lem o more h) in
    let rm : low3 o.base ≡ b % 8 = ap low3 base in
    let same : low3 o.base + b / 8 * 8 ≡ b = ap (λ n. n + b / 8 * 8) rm ∙ whole in
    ap (λ t. split_modrm rx (modrm (memory_mod o) (r % 8) (low3 o.base) ∷ t))
      (append_assoc _ _ more)
    ∙ split-fields rx (memory_mod o) r (low3 o.base) (b / 8) _ (memory b o.disp) more
        (omega (arith, small)) (omega (arith, rm)) eb er
        (read ∙ ap (λ n. some (memory n o.disp, more)) same)
