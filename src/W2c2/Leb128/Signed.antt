-- ===== src/W2c2/Leb128/Signed.antt =====
-- What the signed decoders make of the groups of a signed number.
use sandbox_stack.Prelude.{
  ℕ, zero, suc, ◌+◌, ◌-◌, ◌*◌, ◌/◌, ◌%◌, ◌^◌, ◌≤◌, ◌<◌, ◌≡◌, refl, ap, ◌∙◌, arith,
}
use sandbox_stack.Prelude.{◌∷◌, ◌++◌, length, bit_and, bit_or, lt→ltb, not_lt→ltb}
use sandbox_stack.Prelude.Bits.{low_seven, sign_bit, bit_or_disjoint, pow_add}
use sandbox_stack.Groups.{positive_groups, negative_groups}
use sandbox_stack.W2c2.Buffer.{Buffer}
use sandbox_stack.W2c2.Leb128.{Reading, take_byte, read_loop, sign_extend}
use sandbox_stack.W2c2.Leb128.Laws.{
  joined, Reads, with_group, inner_Reads, last_round, split_group, shift_seven, below_next,
  read_last, mul_le,
}
use native.Mathlib.Nat.{
  mod-eq_of_lt, mul_comm, pow-suc, one-le-pow, add-mul-mod_self_left, pow-le-pow_right, mod-lt,
  div-add-mod,
}
use native.Mathlib.Decide.{dec_lt}

sign_extend_clear : (w : ℕ) (s : Reading) → s.byte < 64 → sign_extend w s ≡ s.value
unfolding sign_extend
sign_extend_clear w s h = ground (arith, sign_bit s.byte)

pub read_positive :
    (k w left : ℕ) (r : Reading) (n : ℕ) (b : Buffer)
    → k < left
    → r.rest ≡ positive_groups k n ++ b
    → r.value < 2 ^ r.shift
    → r.value + n * 2 ^ r.shift < 2 ^ w
    → n < 64 * 128 ^ k
    → Reads
        (sign_extend w)
        (r.value + n * 2 ^ r.shift)
        (r.count + length (positive_groups k n))
        b
        (read_loop w left r)
unfolding positive_groups
read_positive k w zero r n b hk e below fits h = absurd (omega arith)
read_positive zero w (suc left) r n b hk e below fits h =
    rw (last_round w left r n b e (omega arith) below (omega arith))
      (record { value = sign_extend_clear w _ (omega arith); counted = refl; rest = refl })
read_positive (suc k) w (suc left) r n b hk e below fits h = elim (dec_lt n 64) [
  | yes p ↦ rw (lt→ltb n 64 p) (
      rw (last_round w left r n b (rw (lt→ltb n 64 p) at e) (omega arith) below (omega arith))
        (record { value = sign_extend_clear w _ p; counted = refl; rest = refl }))
  | no p ↦
      let split = split_group n (2 ^ r.shift) (2 ^ (r.shift + 7)) (shift_seven r.shift) in
      let groups = positive_groups k (n / 128) in
      let next = with_group r (n % 128) (n % 128 + 128) (groups ++ b) in
      let whole : next.value + n / 128 * 2 ^ next.shift ≡ r.value + n * 2 ^ r.shift = omega arith in
      rw (not_lt→ltb n 64 p, ← whole)
        (inner_Reads (sign_extend w) w left r (n % 128) _ groups b (rw (not_lt→ltb n 64 p) at e)
          (omega arith) below (omega arith)
          (read_positive k w left next (n / 128) b (omega arith) refl
            (below_next r.value (n % 128) r.shift below (omega arith)) (omega arith)
            (omega (arith, pow-suc 128 k))))
]

ones_split : (q t : ℕ) → (suc q * suc t - 1) * suc q ≡ suc q * t + suc q * suc t * q
ones_split q t =
    let product : suc q * suc t ≡ suc (q * t + q + t) = omega arith in
    ap (λ x. (x - 1) * suc q) product
    ∙ (let e : (q * t + q + t) * suc q ≡ suc q * t + suc q * suc t * q = omega arith in
        ap (λ x. x * suc q) pred_suc ∙ e)
  where
    pred_suc : suc (q * t + q + t) - 1 ≡ q * t + q + t
    pred_suc = omega arith

-- `~0 << s` in a word of `p * t` values, where `p` is `2 ^ s`.
ones_from : (p t : ℕ) → 0 < p → 0 < t → (p * t - 1) * p % (p * t) ≡ p * (t - 1)
ones_from zero t hp ht = absurd (omega arith)
ones_from (suc q) zero hp ht = absurd (omega arith)
ones_from (suc q) (suc t) hp ht =
    ap (λ x. x % (suc q * suc t)) (ones_split q t)
    ∙ add-mul-mod_self_left (suc q * t) (suc q * suc t) q
    ∙ mod-eq_of_lt (omega arith)
    ∙ (let e : t ≡ suc t - 1 = omega arith in ap (λ x. suc q * x) e)

-- In a word that ends `d + 1 ≤ 7` bits above the place, the last group keeps its low bits only.
cut_group : (d n : ℕ) → d ≤ 6 → n < 2 ^ d → (127 - n) % 2 ^ suc d + (n + 1) ≡ 2 ^ suc d
cut_group zero n hd h = omega arith
cut_group (suc zero) n hd h = omega arith
cut_group (suc (suc zero)) n hd h = omega arith
cut_group (suc (suc (suc zero))) n hd h = omega arith
cut_group (suc (suc (suc (suc zero)))) n hd h = omega arith
cut_group (suc (suc (suc (suc (suc zero))))) n hd h = omega arith
cut_group (suc (suc (suc (suc (suc (suc zero)))))) n hd h = omega arith
cut_group (suc (suc (suc (suc (suc (suc (suc d))))))) n hd h = absurd (omega arith)

-- A group fits a word that has seven bits left.
group_fits : (s d g : ℕ) → 6 < d → g < 128 → g * 2 ^ s < 2 ^ (s + suc d)
group_fits s d g hd hg =
    let place : 2 ^ (s + 7) ≤ 2 ^ (s + suc d) = pow-le-pow_right (omega arith) (omega arith) in
    let p : 0 < 2 ^ s = one-le-pow s 2 (omega arith) in
    omega (arith, shift_seven s, mul_le (g + 1) 128 (2 ^ s) (omega arith))

complement : (n : ℕ) → n < 64 → (127 - n) + (n + 1) ≡ 128
complement n h = omega arith

one_less : (t : ℕ) → 0 < t → (t - 1) + 1 ≡ t
one_less t h = omega arith

mod_scaled : (p g m : ℕ) → 0 < p → 0 < m → g * p % (p * m) ≡ g % m * p
mod_scaled p g m hp hm =
    let split : g * p ≡ g % m * p + p * m * (g / m) =
      omega (arith, ap (λ (t : ℕ). t * p) (div-add-mod g m)) in
    ap (λ x. x % (p * m)) split
    ∙ add-mul-mod_self_left (g % m * p) (p * m) (g / m)
    ∙ mod-eq_of_lt (grind (arith, mod-lt g hm))

last_small :
    (s d n value : ℕ)
    → d ≤ 6
    → n < 2 ^ d
    → n < 64
    → value < 2 ^ s
    → bit_or value (bit_and (127 - n) 0x7f * 2 ^ s % 2 ^ (s + suc d)) + (n + 1) * 2 ^ s
      ≡ value + 2 ^ (s + suc d)
last_small s d n value hd h hn below =
    let p : ℕ = 2 ^ s in
    let g : ℕ = (127 - n) % 2 ^ suc d in
    let low : bit_and (127 - n) 0x7f ≡ 127 - n = omega (arith, low_seven (127 - n)) in
    let kept : bit_and (127 - n) 0x7f * 2 ^ s % 2 ^ (s + suc d) ≡ g * p =
      ap (λ t. t * p % 2 ^ (s + suc d)) low
      ∙ ap (λ w. (127 - n) * p % w) (pow_add s (suc d))
      ∙ mod_scaled p (127 - n) (2 ^ suc d) (one-le-pow s 2 (omega arith))
          (one-le-pow (suc d) 2 (omega arith)) in
    ap (λ t. bit_or value t + (n + 1) * p) kept
    ∙ omega (
      arith,
      bit_or_disjoint s value g below,
      ap (λ (t : ℕ). t * p) (cut_group d n hd h),
      pow_add s (suc d),
    )

-- In a word that goes on beyond the last group, the ones above it are filled in.
last_large :
    (s d n value : ℕ)
    → 6 < d
    → n < 64
    → value < 2 ^ s
    → bit_or (value + (127 - n) * 2 ^ s) ((2 ^ (s + suc d) - 1) * 2 ^ (s + 7) % 2 ^ (s + suc d))
        + (n + 1) * 2 ^ s
      ≡ value + 2 ^ (s + suc d)
last_large s d n value hd hn below =
    let p : ℕ = 2 ^ s in
    let t : ℕ = 2 ^ (d - 6) in
    let v : ℕ = value + (127 - n) * p in
    let positive : 0 < t = one-le-pow (d - 6) 2 (omega arith) in
    let width : 2 ^ (s + suc d) ≡ 2 ^ (s + 7) * t =
      (let e : s + suc d ≡ s + 7 + (d - 6) = omega arith in ap (λ k. 2 ^ k) e)
      ∙ pow_add (s + 7) (d - 6) in
    let ones : (2 ^ (s + suc d) - 1) * 2 ^ (s + 7) % 2 ^ (s + suc d) ≡ (t - 1) * 2 ^ (s + 7) =
      ap (λ w. (w - 1) * 2 ^ (s + 7) % w) width
      ∙ ones_from (2 ^ (s + 7)) t (one-le-pow (s + 7) 2 (omega arith)) positive
      ∙ mul_comm (2 ^ (s + 7)) (t - 1) in
    let counted : (127 - n) * p + (n + 1) * p ≡ 128 * p =
      omega (arith, ap (λ (x : ℕ). x * p) (complement n hn)) in
    let above : (t - 1) * 2 ^ (s + 7) + 2 ^ (s + 7) ≡ 2 ^ (s + 7) * t =
      omega (arith, ap (λ (x : ℕ). x * 2 ^ (s + 7)) (one_less t positive)) in
    ap (λ x. bit_or v x + (n + 1) * p) ones
    ∙ omega (
      arith,
      bit_or_disjoint (s + 7) v (t - 1) (below_next value (127 - n) s below (omega arith)),
      counted,
      above,
      width,
      shift_seven s,
    )

sign_set : (n : ℕ) → n < 64 → bit_and (127 - n) 0x40 ≡ 64
sign_set n h = omega (arith, sign_bit (127 - n))

inner_byte : (n : ℕ) → 255 - n % 128 ≡ 127 - n % 128 + 128
inner_byte n = omega arith

taken_large :
    (s d n value : ℕ)
    → 6 < d
    → n < 64
    → value < 2 ^ s
    → bit_or value (bit_and (127 - n) 0x7f * 2 ^ s % 2 ^ (s + suc d)) ≡ value + (127 - n) * 2 ^ s
taken_large s d n value hd hn below =
    let low : bit_and (127 - n) 0x7f ≡ 127 - n = omega (arith, low_seven (127 - n)) in
    ap (λ g. bit_or value (g * 2 ^ s % 2 ^ (s + suc d))) low
    ∙ joined value (127 - n) s (s + suc d) below (group_fits s d (127 - n) hd (omega arith))

-- The last group of `-(n + 1)` at the place `2 ^ s` of a word that ends `d + 1` bits above it.
negative_last :
    (s d n : ℕ) (r : Reading) (b : Buffer)
    → r.shift ≡ s
    → n < 2 ^ d
    → n < 64
    → r.value < 2 ^ s
    → sign_extend (s + suc d) (take_byte (s + suc d) r (127 - n) b) + (n + 1) * 2 ^ s
      ≡ r.value + 2 ^ (s + suc d)
unfolding sign_extend
negative_last s d n r b e hd hn below = elim (dec_lt 6 d) [
  | no small ↦
      rw (e, not_lt→ltb (s + 7) (s + suc d) (omega arith))
        (last_small s d n r.value (omega arith) hd hn below)
  | yes large ↦
      rw
        (
          e,
          lt→ltb (s + 7) (s + suc d) (omega arith),
          sign_set n hn,
          taken_large s d n r.value large hn below,
        )
        (last_large s d n r.value large hn below)
]

room_left : (d n : ℕ) → n < 2 ^ d → 64 ≤ n → 6 < d
room_left d n hd hn = elim (dec_lt 6 d) [
  | yes p ↦ p
  | no p ↦
      let small : 2 ^ d ≤ 2 ^ 6 =
        pow-le-pow_right {n = 2} (omega arith) {i = d} {j = 6} (omega arith) in
      absurd (omega arith)
]

quotient_below : (d n : ℕ) → 6 < d → n < 2 ^ d → n / 128 < 2 ^ (d - 7)
quotient_below d n hd h =
    let e : 2 ^ d ≡ 2 ^ (d - 7 + 7) = (let f : d ≡ d - 7 + 7 = omega arith in ap (λ k. 2 ^ k) f) in
    omega (arith, shift_seven (d - 7))

-- What is left to read after an inner group of `-(n + 1)`.
carried :
    (n value result s w : ℕ)
    → result + (n + 1) * 2 ^ s ≡ value + 2 ^ w
    → result + (n / 128 + 1) * 2 ^ (s + 7) ≡ value + (127 - n % 128) * 2 ^ s + 2 ^ w
carried n value result s w h =
    let e : (127 - n % 128) + n % 128 ≡ 127 = omega arith in
    omega (
      arith,
      split_group n (2 ^ s) (2 ^ (s + 7)) (shift_seven s),
      ap (λ (t : ℕ). t * 2 ^ s) e,
      shift_seven s,
    )

last_Reads :
    (w left d result : ℕ) (r : Reading) (n : ℕ) (b : Buffer)
    → w ≡ r.shift + suc d
    → r.rest ≡ (127 - n) ∷ b
    → r.value < 2 ^ r.shift
    → n < 2 ^ d
    → n < 64
    → result + (n + 1) * 2 ^ r.shift ≡ r.value + 2 ^ w
    → Reads (sign_extend w) result (r.count + 1) b (read_loop w (suc left) r)
last_Reads w left d result r n b hw e below hd hn hr =
    let last : sign_extend w (take_byte w r (127 - n) b) + (n + 1) * 2 ^ r.shift ≡ r.value + 2 ^ w =
      rw hw (negative_last r.shift d n r b refl hd hn below) in
    rw (read_last w left r (127 - n) b e (omega arith))
      (record { value = omega arith; counted = refl; rest = refl })

-- The groups of `-(n + 1)`, read at the place `2 ^ r.shift` of a word that ends `d + 1` bits above it,
-- leave the word's value `2 ^ w` short of what lies from that place on.
pub read_negative :
    (k w left d result : ℕ) (r : Reading) (n : ℕ) (b : Buffer)
    → k < left
    → w ≡ r.shift + suc d
    → r.rest ≡ negative_groups k n ++ b
    → r.value < 2 ^ r.shift
    → n < 2 ^ d
    → n < 64 * 128 ^ k
    → result + (n + 1) * 2 ^ r.shift ≡ r.value + 2 ^ w
    → Reads (sign_extend w) result (r.count + length (negative_groups k n)) b (read_loop w left r)
unfolding negative_groups
read_negative k w zero d result r n b hk hw e below hd h hr = absurd (omega arith)
read_negative zero w (suc left) d result r n b hk hw e below hd h hr =
    last_Reads w left d result r n b hw e below hd (omega arith) hr
read_negative (suc k) w (suc left) d result r n b hk hw e below hd h hr = elim (dec_lt n 64) [
  | yes p ↦
      rw (lt→ltb n 64 p)
        (last_Reads w left d result r n b hw (rw (lt→ltb n 64 p) at e) below hd p hr)
  | no p ↦
      let g = 127 - n % 128 in
      let groups = negative_groups k (n / 128) in
      let room : 6 < d = room_left d n hd (omega arith) in
      rw (not_lt→ltb n 64 p) (
        inner_Reads (sign_extend w) w left r g result groups b
          (rw (not_lt→ltb n 64 p, inner_byte n) at e) (omega arith) below
          (rw hw (group_fits r.shift d g room (omega arith)))
          (read_negative k w left (d - 7) result (with_group r g (g + 128) (groups ++ b)) (n / 128)
            b (omega arith) (omega arith) refl (below_next r.value g r.shift below (omega arith))
            (quotient_below d n room hd) (omega (arith, pow-suc 128 k))
            (carried n r.value result r.shift w hr)))
]
