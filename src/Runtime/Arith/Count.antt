-- ===== src/Runtime/Arith/Count.antt =====
-- The loops of rt/w2c2_base.h that count the zeros at the ends of a word.
use sandbox_stack.Prelude.{
  ℕ, zero, suc, ◌+◌, ◌*◌, ◌/◌, ◌%◌, ◌^◌, ◌≤◌, ◌<◌, ◌≡◌, ◌⊎◌, inl, inr, refl, ap, ◌∙◌, arith,
}
use sandbox_stack.Prelude.{some, bit_and, ◌==◌, true, false}
use sandbox_stack.Prelude.Bits.{bit_and-pow, bit_and_mask}
use sandbox_stack.Runtime.Arith.{clz_loop, clz, ctz_loop, ctz}
use native.Mathlib.Nat.{pow-suc, one-le-pow, mod-eq_of_lt, div-eq_of_lt, div-eq_of_lt-le}
use native.Mathlib.Decide.{dec_lt, ℕ_discrete}

-- The bit `d` of a word of `suc d` bits.
top_clear : (d x : ℕ) → x < 2 ^ d → (bit_and x (2 ^ d) == 0) ≡ true
top_clear d x h =
    let e : bit_and x (2 ^ d) ≡ 0 = bit_and-pow d x ∙ rw (div-eq_of_lt h) (omega arith) in rw e refl

top_set : (d x : ℕ) → 2 ^ d ≤ x → x < 2 ^ suc d → (bit_and x (2 ^ d) == 0) ≡ false
top_set d x h k =
    let one : x / 2 ^ d ≡ 1 = div-eq_of_lt-le (2 ^ d) (omega arith) (omega (arith, pow-suc 2 d)) in
    let e : bit_and x (2 ^ d) ≡ 2 ^ d = bit_and-pow d x ∙ rw one (omega arith) in
    rw e (ground (arith, one-le-pow d 2))

double : (x m : ℕ) → x * 2 * 2 ^ m ≡ x * 2 ^ suc m
double x m = omega (arith, ap (λ (t : ℕ). x * t) (pow-suc 2 m))

clz_loop_lem :
    (d fuel x n : ℕ)
    → x < 2 ^ suc d
    → 2 ^ suc d ≤ x * 2 ^ fuel
    → (m : ℕ) × (clz_loop d fuel x n ≡ some (n + m))
      × (m < fuel)
      × (2 ^ d ≤ x * 2 ^ m)
      × (x * 2 ^ m < 2 ^ suc d)
unfolding clz_loop
clz_loop_lem d zero x n h k = absurd (omega arith)
clz_loop_lem d (suc fuel) x n h k = elim (dec_lt x (2 ^ d)) [
  | yes low ↦
      let fits : x * 2 < 2 ^ suc d = omega (arith, pow-suc 2 d) in
      let (m, e, below, lower, upper) =
        clz_loop_lem d fuel (x * 2) (n + 1) fits (rw (double x fuel) k) in
      (
        suc m,
        rw (top_clear d x low, mod-eq_of_lt fits) (e ∙ ap some (omega arith)),
        omega arith,
        rw (double x m) at lower,
        rw (double x m) at upper,
      )
  | no high ↦ (
    0,
    rw (top_set d x (omega arith) h) (ap some (omega arith)),
    omega arith,
    omega arith,
    omega arith,
  )
]

-- `I32_CLZ` and `I64_CLZ` of a word of `d + 1` bits: of 0 it is the width. Of any other word the loop ends
-- and yields less than the width, the count by which the word is to be shifted up for its top bit
-- to be set and none to be lost.
pub clz_lem :
    (d x : ℕ)
    → x < 2 ^ suc d
    → (x ≡ 0) × (clz d x ≡ some (suc d))
      ⊎ ((n : ℕ) × (clz d x ≡ some n) × (n < suc d) × (2 ^ d ≤ x * 2 ^ n) × (x * 2 ^ n < 2 ^ suc d))
unfolding clz
clz_lem d x h = elim (ℕ_discrete x 0) [
  | yes e ↦ inl (e, ground arith)
  | no other ↦
      let whole : 2 ^ suc d ≤ x * 2 ^ suc d = grind arith in
      let (m, e, below, lower, upper) = clz_loop_lem d (suc d) x 0 h whole in
      inr (m, ground (arith, e), below, lower, upper)
]

bit_clear : (x : ℕ) → x % 2 ≡ 0 → (bit_and x 1 == 0) ≡ true
bit_clear x h = let e : bit_and x 1 ≡ 0 = bit_and_mask 1 x ∙ h in rw e refl

bit_set : (x : ℕ) → x % 2 ≡ 1 → (bit_and x 1 == 0) ≡ false
bit_set x h = let e : bit_and x 1 ≡ 1 = bit_and_mask 1 x ∙ h in rw e refl

ctz_loop_lem :
    (fuel x n : ℕ)
    → 0 < x
    → x < 2 ^ fuel
    → (m q : ℕ) × (ctz_loop fuel x n ≡ some (n + m)) × (m < fuel) × (x ≡ (2 * q + 1) * 2 ^ m)
unfolding ctz_loop
ctz_loop_lem zero x n h k = absurd (omega arith)
ctz_loop_lem (suc fuel) x n h k = elim (ℕ_discrete (x % 2) 0) [
  | yes even ↦
      let (m, q, e, below, odd) =
        ctz_loop_lem fuel (x / 2) (n + 1) (omega arith) (omega (arith, pow-suc 2 fuel)) in
      (
        suc m,
        q,
        rw (bit_clear x even) (e ∙ ap some (omega arith)),
        omega arith,
        omega (arith, odd, double (2 * q + 1) m),
      )
  | no other ↦
      (0, x / 2, rw (bit_set x (omega arith)) (ap some (omega arith)), omega arith, omega arith)
]

-- `I32_CTZ` and `I64_CTZ` of a word of `w` bits: of 0 it is the width. Of any other word the loop ends and
-- yields less than the width, the exponent of 2 in the word.
pub ctz_lem :
    (w x : ℕ)
    → x < 2 ^ w
    → (x ≡ 0) × (ctz w x ≡ some w)
      ⊎ ((n q : ℕ) × (ctz w x ≡ some n) × (n < w) × (x ≡ (2 * q + 1) * 2 ^ n))
unfolding ctz
ctz_lem w x h = elim (ℕ_discrete x 0) [
  | yes e ↦ inl (e, ground arith)
  | no other ↦
      let (m, q, e, below, odd) = ctz_loop_lem w x 0 (omega arith) h in
      inr (m, q, ground (arith, e), below, odd)
]
