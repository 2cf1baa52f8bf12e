-- ===== src/Cc/Assemble/Numeric.antt =====
-- The numeric labels of cc/asm.c: `1f` is the next `1:`, `1b` the last one.
use sandbox_stack.Prelude.{ℕ, ◌+◌, ◌-◌, ◌^◌, ◌≤◌, ◌<◌, ◌≡◌, inl, inr, refl, ◌∙◌, arith}
use sandbox_stack.Prelude.{
  true, false, ◌==◌, ltb, Bool-cases, get_or, set, get_or-set_self, ◌||◌, ◌⊎◌,
}
use sandbox_stack.Prelude.{List, [], ◌∷◌, some, length}
use sandbox_stack.Cc.Asm.{Sym, Name, duplicate_symbol, ok, stop, int_overflow}
use sandbox_stack.Cc.Elf.{lookup}
use sandbox_stack.Cc.Lines.{Clib, here}
use sandbox_stack.Cc.Lines.Labels.{define_sym_lem}
use sandbox_stack.Cc.Syntax.{numeric_name, label_op, numeric, parse_op, parse_trimmed, cut}
use sandbox_stack.Cc.Assemble.{Assembly, define_label, define_numeric}

-- What isdigit and isspace of the C library say of a digit and of the letters `f` and `b`
pub record IsDigit (lib : Clib) (c : ℕ) : Type 0 where
  pub above : 48 ≤ c
  pub below : c ≤ 57
  pub digit : lib.is_digit c ≡ true
  pub no_space : lib.is_space c ≡ false
  pub no_space_f : lib.is_space b'f' ≡ false
  pub no_space_b : lib.is_space b'b' ≡ false

-- What stands beside a digit
module _ (lib : Clib) (c : ℕ) (d : IsDigit lib c) where
  other_letter : (x : ℕ) → x < 48 → c == x ≡ false
  other_letter x h = ground (arith, d.above)

  parse-numeric :
      (counts : List ℕ) (x : ℕ)
      → lib.is_space x ≡ false
      → (x == b'f' || x == b'b') ≡ true
      → parse_op lib counts (c ∷ x ∷ []) ≡ numeric lib counts (c ∷ x ∷ [])
  unfolding parse_op parse_trimmed cut
  parse-numeric counts x letter named =
      let low : x == b'(' ≡ false = ground arith in
      rw (d.no_space, letter, other_letter b'%' (omega arith), other_letter b'$' (omega arith))
        (rw (other_letter b'(' (omega arith), low, d.digit, named) refl)

-- The name of the next label with the digit
abbrev pub next_name : Clib → ℕ → Assembly → Name
next_name lib c t = numeric_name lib (c - 48) (get_or t.counts (c - 48) 0 + 1)

-- `t'` is the assembly behind the label.
abbrev pub Refers : Clib → ℕ → Assembly → Assembly → Type 0
Refers lib c t t' =
    (parse_op lib t.counts (c ∷ b'f' ∷ []) ≡ ok (label_op (next_name lib c t)))
    × (parse_op lib t'.counts (c ∷ b'b' ∷ []) ≡ ok (label_op (next_name lib c t)))
    × (lookup (next_name lib c t) t'.asm.syms ≡ some (here t.asm))

abbrev pub NumericLabel : Clib → ℕ → Assembly → Type 0
NumericLabel lib c t =
    (2 ^ 31 ≤ get_or t.counts (c - 48) 0 + 1) × (define_label lib (c ∷ []) t ≡ stop int_overflow)
    ⊎ ((u : Sym) × (lookup (next_name lib c t) t.asm.syms ≡ some u)
        × (define_label lib (c ∷ []) t ≡ stop duplicate_symbol))
    ⊎ ((t' : Assembly) × (define_label lib (c ∷ []) t ≡ ok t') × Refers lib c t t')

-- `nb` behind a label
backward :
    (lib : Clib) (c : ℕ) (counts : List ℕ)
    → c - 48 < length counts
    → (k : ℕ)
    → numeric lib (set counts (c - 48) (k + 1)) (c ∷ b'b' ∷ [])
      ≡ ok (label_op (numeric_name lib (c - 48) (k + 1)))
unfolding numeric
backward lib c counts h k =
    let some_label : k + 1 == 0 ≡ false = ground arith in
    rw (get_or-set_self counts (c - 48) (k + 1) 0 h) (rw some_label refl)

forward :
    (lib : Clib) (c : ℕ) (t : Assembly)
    → numeric lib t.counts (c ∷ b'f' ∷ []) ≡ ok (label_op (next_name lib c t))
unfolding numeric
forward lib c t = refl

-- For a digit, and counts of ten labels: the definition of the digit as a label overflows its count;
-- or it is refused, and the label's name is defined already; or it is accepted, and from then on the
-- operand with `b` names the label, as the operand with `f` did before it, which is found at the end
-- of the section that was current.
pub numeric_lem :
    (lib : Clib) (c : ℕ) (t : Assembly)
    → IsDigit lib c
    → length t.counts ≡ 10
    → NumericLabel lib c t
unfolding define_label define_numeric
numeric_lem lib c t d ten =
    let k = get_or t.counts (c - 48) 0 in
    elim (Bool-cases (ltb (k + 1) (2 ^ 31))) [
      | inr many ↦ inl (ground arith, rw (d.digit, many) refl)
      | inl few ↦ elim (define_sym_lem (next_name lib c t) t.asm) [
        | inl (u, present, refused) ↦ inr (inl (u, present, rw (d.digit, few, refused) refl))
        | inr (s, done, (absent, found, place, others, same)) ↦ inr (
            inr (
              record { asm = s; counts = set t.counts (c - 48) (k + 1) },
              rw (d.digit, few, done) refl,
              (
                parse-numeric lib c d t.counts b'f' d.no_space_f refl ∙ forward lib c t,
                parse-numeric lib c d _ b'b' d.no_space_b refl
                    ∙ backward lib c t.counts (omega (arith, d.above, d.below)) k,
                found,
              ),
            ))
      ]
    ]
