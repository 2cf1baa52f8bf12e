-- ===== src/Runtime/Arith/Rotate.antt =====
-- The rotations of rt/w2c2_base.h, against a cut of the word in two parts that change places.
use sandbox_stack.Prelude.{
  ℕ, zero, suc, ◌+◌, ◌-◌, ◌*◌, ◌/◌, ◌%◌, ◌^◌, ◌<◌, ◌≡◌, ap, sym, ◌∙◌, arith,
}
use sandbox_stack.Prelude.{bit_or}
use sandbox_stack.Prelude.Bits.{
  bit_and_mask, bit_or_disjoint, bit_or_disjoint', bit_or_self, pow_add,
}
use sandbox_stack.Runtime.Arith.{other_count, rotl, rotr, i32_rotl, i32_rotr, i64_rotl, i64_rotr}
use native.Mathlib.Nat.{
  div-add-mod, mod-eq_of_lt, mod-lt, mod_self, div-eq_of_lt, mul-add-mod_self_left,
  mul-add-mod_self_right, div-eq_of_lt-le, one-le-pow,
}

-- The low part of `w - s` bits moves up by `s`, and the `s` bits above it become the low part.
abbrev pub turned : ℕ → ℕ → ℕ → ℕ
turned w s x = x % 2 ^ (w - s) * 2 ^ s + x / 2 ^ (w - s)

-- The parts of a number below `q * p`, `x / q` and `x % q`.
module _ (q p x : ℕ) (below : x < q * p) where
  upper-lt : 0 < q → x / q < p
  upper-lt positive = grind (arith, div-add-mod x q)

  lower-lt : 0 < q → x % q * p + x / q < q * p
  lower-lt positive = grind (arith, div-add-mod x q, upper-lt positive)

  shifted : 0 < q → x * p % (q * p) ≡ x % q * p
  shifted positive =
      let whole : x * p ≡ q * p * (x / q) + x % q * p =
        ap (λ (t : ℕ). t * p) (sym (div-add-mod x q)) ∙ omega arith in
      let small : x % q * p < q * p = grind (arith, lower-lt positive) in
      ap (λ (t : ℕ). t % (q * p)) whole
      ∙ mul-add-mod_self_left (q * p) (x / q) (x % q * p)
      ∙ mod-eq_of_lt small

  back : 0 < q → (x % q * p + x / q) % p * q + (x % q * p + x / q) / p ≡ x
  back positive =
      let small = upper-lt positive in
      let low : (x % q * p + x / q) % p ≡ x / q =
        mul-add-mod_self_right (x % q) p (x / q) ∙ mod-eq_of_lt small in
      let high : (x % q * p + x / q) / p ≡ x % q = div-eq_of_lt-le p (omega arith) (omega arith) in
      rw (low, high) (omega (arith, div-add-mod x q))

-- The other side of a cut at `s` bits, which a shift of 0 leaves at 0.
abbrev pub opposite : ℕ → ℕ → ℕ
opposite w s = (w - s) % w

module _ (w x : ℕ) (below : x < 2 ^ w) where
  turned-zero : turned w 0 x ≡ x
  turned-zero =
      let full : w - 0 ≡ w = omega arith in
      rw (full, mod-eq_of_lt below, div-eq_of_lt below) (omega arith)

  unshifted : x * 2 ^ 0 % 2 ^ w ≡ x
  unshifted =
      let e : x * 2 ^ 0 ≡ x = omega arith in ap (λ (t : ℕ). t % 2 ^ w) e ∙ mod-eq_of_lt below

  opposite-zero : opposite w 0 ≡ 0
  opposite-zero = let full : w - 0 ≡ w = omega arith in rw full (mod_self w)

module _ (w s x : ℕ) (inside : s < w) (below : x < 2 ^ w) where
  cut : 2 ^ w ≡ 2 ^ (w - s) * 2 ^ s
  cut = let e : w ≡ w - s + s = omega arith in ap (λ k. 2 ^ k) e ∙ pow_add (w - s) s

  turned-lt : turned w s x < 2 ^ w
  turned-lt =
      rw cut
        (lower-lt (2 ^ (w - s)) (2 ^ s) x (rw cut at below) (one-le-pow (w - s) 2 (omega arith)))

  -- A cut that is not at the ends: the parts do not overlap.
  module _ (proper : 0 < s) where
    opposite-proper : opposite w s ≡ w - s
    opposite-proper = let e : w - s < w = omega arith in mod-eq_of_lt e

    x_below : x < 2 ^ (w - s) * 2 ^ s
    x_below = rw cut at below

    high_small : x / 2 ^ (w - s) < 2 ^ s
    high_small = upper-lt (2 ^ (w - s)) (2 ^ s) x x_below (one-le-pow (w - s) 2 (omega arith))

    moved : x * 2 ^ s % 2 ^ w ≡ x % 2 ^ (w - s) * 2 ^ s
    moved =
        ap (λ (t : ℕ). x * 2 ^ s % t) cut
        ∙ shifted (2 ^ (w - s)) (2 ^ s) x x_below (one-le-pow (w - s) 2 (omega arith))

    left_proper : bit_or (x * 2 ^ s % 2 ^ w) (x / 2 ^ opposite w s) ≡ turned w s x
    left_proper =
        rw (opposite-proper, moved)
          (bit_or_disjoint' s (x / 2 ^ (w - s)) (x % 2 ^ (w - s)) high_small)

    right_proper : bit_or (x / 2 ^ (w - s)) (x * 2 ^ s % 2 ^ w) ≡ turned w s x
    right_proper =
        rw moved (bit_or_disjoint s (x / 2 ^ (w - s)) (x % 2 ^ (w - s)) high_small ∙ omega arith)

    turned_back : turned w (w - s) (turned w s x) ≡ x
    turned_back =
        let other : w - (w - s) ≡ s = omega arith in
        rw other (back (2 ^ (w - s)) (2 ^ s) x x_below (one-le-pow (w - s) 2 (omega arith)))

left_parts :
    (w s x : ℕ)
    → s < w
    → x < 2 ^ w
    → bit_or (x * 2 ^ s % 2 ^ w) (x / 2 ^ opposite w s) ≡ turned w s x
left_parts w zero x inside below =
    rw (opposite-zero w x below, unshifted w x below, turned-zero w x below)
      (let e : x / 2 ^ 0 ≡ x = omega arith in rw e (bit_or_self x))
left_parts w (suc s) x inside below = left_proper w (suc s) x inside below (omega arith)

right_parts :
    (w s x : ℕ)
    → s < w
    → x < 2 ^ w
    → bit_or (x / 2 ^ s) (x * 2 ^ opposite w s % 2 ^ w) ≡ turned w (opposite w s) x
right_parts w zero x inside below =
    rw (opposite-zero w x below, unshifted w x below, turned-zero w x below)
      (let e : x / 2 ^ 0 ≡ x = omega arith in rw e (bit_or_self x))
right_parts w (suc s) x inside below =
    let other : w - (w - suc s) ≡ suc s = omega arith in
    rw (opposite-proper w (suc s) x inside below (omega arith)) (
      ap (λ k. bit_or (x / 2 ^ k) (x * 2 ^ (w - suc s) % 2 ^ w)) (sym other)
      ∙ right_proper w (w - suc s) x (omega arith) below (omega arith))

turned_back_all : (w s x : ℕ) → s < w → x < 2 ^ w → turned w (opposite w s) (turned w s x) ≡ x
turned_back_all w zero x inside below =
    rw (opposite-zero w x below, turned-zero w x below) (turned-zero w x below)
turned_back_all w (suc s) x inside below =
    rw (opposite-proper w (suc s) x inside below (omega arith))
      (turned_back w (suc s) x inside below (omega arith))

module _ (k y : ℕ) (other : other_count k y ≡ opposite (2 ^ k) (y % 2 ^ k)) where
  count_inside : y % 2 ^ k < 2 ^ k
  count_inside = mod-lt y (one-le-pow k 2 (omega arith))

  rotl-turned : (x : ℕ) → x < 2 ^ (2 ^ k) → rotl k x y ≡ turned (2 ^ k) (y % 2 ^ k) x
  unfolding rotl
  rotl-turned x h = rw (bit_and_mask k y, other) (left_parts (2 ^ k) (y % 2 ^ k) x count_inside h)

  rotr-turned :
      (x : ℕ) → x < 2 ^ (2 ^ k) → rotr k x y ≡ turned (2 ^ k) (opposite (2 ^ k) (y % 2 ^ k)) x
  unfolding rotr
  rotr-turned x h = rw (bit_and_mask k y, other) (right_parts (2 ^ k) (y % 2 ^ k) x count_inside h)

  rotr-rotl : (x : ℕ) → x < 2 ^ (2 ^ k) → rotr k (rotl k x y) y ≡ x
  rotr-rotl x h = rw (rotl-turned x h) (
      rotr-turned (turned (2 ^ k) (y % 2 ^ k) x) (turned-lt (2 ^ k) (y % 2 ^ k) x count_inside h)
      ∙ turned_back_all (2 ^ k) (y % 2 ^ k) x count_inside h)

-- `I32_ROTL` by `y` moves the low 32 - y % 32 bits of a word up and the others to the bottom,
-- `I32_ROTR` does the same by the opposite count, and `I32_ROTR` undoes `I32_ROTL`.
pub i32_rotl_lem :
    (x y : ℕ)
    → x < 2 ^ 32
    → y < 2 ^ 32
    → (i32_rotl x y ≡ turned 32 (y % 32) x)
      × (i32_rotr x y ≡ turned 32 ((32 - y % 32) % 32) x)
      × (i32_rotr (i32_rotl x y) y ≡ x)
unfolding i32_rotl i32_rotr
i32_rotl_lem x y hx hy =
    let other : other_count 5 y ≡ opposite 32 (y % 32) = bit_and_mask 5 _ ∙ omega arith in
    (rotl-turned 5 y other x hx, rotr-turned 5 y other x hx, rotr-rotl 5 y other x hx)

-- `I64_ROTL` by `y` moves the low 64 - y % 64 bits of a word up and the others to the bottom,
-- `I64_ROTR` does the same by the opposite count, and `I64_ROTR` undoes `I64_ROTL`.
pub i64_rotl_lem :
    (x y : ℕ)
    → x < 2 ^ 64
    → y < 2 ^ 64
    → (i64_rotl x y ≡ turned 64 (y % 64) x)
      × (i64_rotr x y ≡ turned 64 ((64 - y % 64) % 64) x)
      × (i64_rotr (i64_rotl x y) y ≡ x)
unfolding i64_rotl i64_rotr
i64_rotl_lem x y hx hy =
    let other : other_count 6 y ≡ opposite 64 (y % 64) = bit_and_mask 6 _ ∙ omega arith in
    (rotl-turned 6 y other x hx, rotr-turned 6 y other x hx, rotr-rotl 6 y other x hx)
