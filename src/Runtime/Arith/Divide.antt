-- ===== src/Runtime/Arith/Divide.antt =====
-- Signed division of the runtime header is division of integers, with wasm's two traps.
use sandbox_stack.Prelude.{
  ℕ, zero, suc, ◌+◌, ◌-◌, ◌*◌, ◌/◌, ◌%◌, ◌≤◌, ◌<◌, ◌≡◌, ◌≢◌, ◌⊎◌, inl, inr, refl, ap, arith,
}
use sandbox_stack.Prelude.{false, Bool-cases}
use sandbox_stack.Prelude.Int.{ℤ, pos, negsuc, quot, rem, magnitude, minus}
use sandbox_stack.Runtime.{done, trapped, div_by_zero, int_overflow}
use sandbox_stack.Runtime.Arith.{signed_of, unsigned_of, same_int, overflows, divide_signed}
use sandbox_stack.Runtime.Arith.{remainder_signed, div_s, rem_s}
use native.Mathlib.Nat.{div-add-mod, mod-lt, mod-eq_of_lt}

-- An integer that a word of `2 * half` patterns holds.
abbrev pub Fits : ℕ → ℤ → Type 0
Fits half (pos n) = n < half
Fits half (negsuc n) = n < half

mod_le : (a m : ℕ) → a % m ≤ a
mod_le a m = omega (arith, div-add-mod a m)

signed_of-Fits : (half x : ℕ) → x < 2 * half → Fits half (signed_of half x)
signed_of-Fits half x h = ground arith

-- The conversions are inverse to each other where the integer fits.
pub signed_of-unsigned_of :
    (half : ℕ) (z : ℤ) → Fits half z → signed_of half (unsigned_of half z) ≡ z
signed_of-unsigned_of half (pos n) h =
    let small : n < 2 * half = omega arith in rw (mod-eq_of_lt small) (ground arith)
signed_of-unsigned_of half (negsuc n) h =
    let small : n < 2 * half = omega arith in rw (mod-eq_of_lt small) (ground arith)

minus-Fits : (half k : ℕ) → 0 < half → k ≤ half → Fits half (minus k)
minus-Fits half zero p h = p
minus-Fits half (suc k) p h = h

div_le : (a b : ℕ) → a / b ≤ a
div_le a zero = omega arith
div_le a (suc b) = omega (arith, div-add-mod a (suc b), mul_ge (a / suc b) b)
  where
    mul_ge : (q c : ℕ) → q ≤ suc c * q
    mul_ge q c = grind arith

half_quotient : (a b : ℕ) → suc a / suc (suc b) < suc a
half_quotient a b = omega (arith, div-add-mod (suc a) (suc (suc b)), twice (suc a / suc (suc b)) b)
  where
    twice : (q c : ℕ) → 2 * q ≤ suc (suc c) * q
    twice q c = grind arith

-- Without the one overflowing pair a quotient fits.
quot-Fits :
    (half : ℕ) (x y : ℤ)
    → 0 < half
    → Fits half x
    → overflows half x y ≡ false
    → Fits half (quot x y)
unfolding quot
quot-Fits half (pos a) (pos b) p h e = omega (arith, div_le a b)
quot-Fits half (pos a) (negsuc b) p h e =
    minus-Fits half (a / suc b) p (omega (arith, div_le a (suc b)))
quot-Fits half (negsuc a) (pos b) p h e =
    minus-Fits half (suc a / b) p (omega (arith, div_le (suc a) b))
quot-Fits half (negsuc a) (negsuc zero) p h e =
    let inner : a ≢ half - 1 = ground arith in omega arith
quot-Fits half (negsuc a) (negsuc (suc b)) p h e = omega (arith, half_quotient a b)

rem-Fits : (half : ℕ) (x y : ℤ) → 0 < half → Fits half x → Fits half (rem x y)
unfolding rem
rem-Fits half (pos a) y p h = omega (arith, mod_le a (magnitude y))
rem-Fits half (negsuc a) y p h =
    minus-Fits half (suc a % magnitude y) p (omega (arith, mod_le (suc a) (magnitude y)))

magnitude-minus : (k : ℕ) → magnitude (minus k) ≡ k
magnitude-minus zero = refl
magnitude-minus (suc k) = refl

euclid : (a b : ℕ) → (a / suc b * suc b + a % suc b ≡ a) × (a % suc b < suc b)
euclid a b = omega (arith, div-add-mod a (suc b), mod-lt a {m = suc b} (omega arith))

-- `quot` and `rem` are the division of integers that truncates: quotient times divisor plus
-- remainder is the dividend, on magnitudes and signs.
pub quot-rem :
    (x y : ℤ)
    → y ≢ pos 0
    → (magnitude (quot x y) * magnitude y + magnitude (rem x y) ≡ magnitude x)
      × (magnitude (rem x y) < magnitude y)
unfolding quot rem
quot-rem (pos a) (pos zero) h = absurd (h refl)
quot-rem (pos a) (pos (suc b)) h = omega (arith, euclid a b)
quot-rem (pos a) (negsuc b) h = rw magnitude-minus (omega (arith, euclid a b))
quot-rem (negsuc a) (pos zero) h = absurd (h refl)
quot-rem (negsuc a) (pos (suc b)) h = omega (
  arith,
  euclid (suc a) b,
  magnitude-minus (suc a / suc b),
  magnitude-minus (suc a % suc b),
  ap (λ (t : ℕ). t * suc b) (magnitude-minus (suc a / suc b)),
)
quot-rem (negsuc a) (negsuc b) h = rw magnitude-minus (omega (arith, euclid (suc a) b))

-- For words of `2 * half` patterns, `I32_DIV_S` and `I64_DIV_S` trap on a zero divisor and on the
-- one quotient that does not fit, and the remainder of the latter is 0; otherwise the results stand
-- for the truncated quotient and its remainder.
pub div_s_lem :
    (half x y : ℕ)
    → 0 < half
    → x < 2 * half
    → y < 2 * half
    → (y ≡ 0) × (div_s half x y ≡ trapped div_by_zero) × (rem_s half x y ≡ trapped div_by_zero)
      ⊎ (x ≡ half)
        × (y ≡ 2 * half - 1)
        × (div_s half x y ≡ trapped int_overflow)
        × (rem_s half x y ≡ done 0)
      ⊎ ((q r : ℕ) × (div_s half x y ≡ done q)
          × (rem_s half x y ≡ done r)
          × (signed_of half q ≡ quot (signed_of half x) (signed_of half y))
          × (signed_of half r ≡ rem (signed_of half x) (signed_of half y)))
unfolding div_s rem_s divide_signed remainder_signed
div_s_lem half x y p hx hy = elim (Bool-cases (same_int (signed_of half y) (pos 0))) [
  | inl null ↦ inl (ground arith, rw null, rw null)
  | inr other ↦ elim (Bool-cases (overflows half (signed_of half x) (signed_of half y))) [
    | inl over ↦ inr (inl (ground arith, ground arith, rw (other, over), rw (other, over)))
    | inr fine ↦ inr (
        inr (
          unsigned_of half (quot (signed_of half x) (signed_of half y)),
          unsigned_of half (rem (signed_of half x) (signed_of half y)),
          rw (other, fine),
          rw (other, fine),
          signed_of-unsigned_of half _ (quot-Fits half _ _ p (signed_of-Fits half x hx) fine),
          signed_of-unsigned_of half _ (rem-Fits half _ _ p (signed_of-Fits half x hx)),
        ))
  ]
]
