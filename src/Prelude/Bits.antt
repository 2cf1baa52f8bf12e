-- ===== src/Prelude/Bits.antt =====
-- Laws of `bit_and` and `bit_or` at variables: one step per binary digit, then masks and fields
-- of any width.
use Prim.Native.Nat.{ℕ, zero, suc, ◌+◌, ◌-◌, ◌*◌, ◌/◌, ◌%◌, ◌^◌, ◌≤◌, ◌<◌, min, max}
use Prim.Native.Nat.{bit_and, bit_or, digits, bitwise, bit_and-bitwise, bit_or-bitwise}
use mathlib.Core.Path.{◌≡◌, refl, ap, sym, ◌∙◌}
use native.Mathlib.Nat.{le_refl, pow-suc, one-le-pow, mul_comm, div-div-eq-div-mul}
use mathlib.Core.Bool.{Bool, true, ◌&&◌}
use sandbox_stack.Prelude.Tests.{◌==◌}
use native.Mathlib.Omega.{arith}

-- One digit of a bitwise operation. The recursion of `digits` has a count of digits to go, and counts
-- beyond the number itself make no difference.
module _ (empty : ℕ → ℕ) (op : ℕ → ℕ → ℕ) where
  one_more :
      (count x y : ℕ) → x ≤ count → digits empty op (suc count) x y ≡ digits empty op count x y
  one_more zero zero y room = refl
  one_more (suc count) zero y room = refl
  one_more zero (suc x) y room = absurd (omega arith)
  one_more (suc count) (suc x) y room = rw (one_more count (suc x / 2) (y / 2) (omega arith))

  spare_digits :
      (spare count x y : ℕ)
      → x ≤ count
      → digits empty op (spare + count) x y ≡ digits empty op count x y
  spare_digits zero count x y room =
      let same : 0 + count ≡ count = omega arith in ap (λ k. digits empty op k x y) same
  spare_digits (suc spare) count x y room =
      let shift : suc spare + count ≡ suc (spare + count) = omega arith in
      ap (λ k. digits empty op k x y) shift
      ∙ one_more (spare + count) x y (omega arith)
      ∙ spare_digits spare count x y room

  lowest_digit :
      ((y : ℕ) → empty y ≡ empty (y / 2) * 2 + op 0 (y % 2))
      → (x y : ℕ) → bitwise empty op x y ≡ bitwise empty op (x / 2) (y / 2) * 2 + op (x % 2) (y % 2)
  lowest_digit at_zero zero y = at_zero y
  lowest_digit at_zero (suc x) y =
      let half = suc x / 2 in
      let whole : (x - half) + half ≡ x = omega arith in
      let rest : digits empty op x half (y / 2) ≡ digits empty op half half (y / 2) =
        ap (λ k. digits empty op k half (y / 2)) (sym whole)
        ∙ spare_digits (x - half) half half (y / 2) (le_refl half) in
      ap (λ d. d * 2 + op (suc x % 2) (y % 2)) rest

pub bit_and_step : (a b : ℕ) → bit_and a b ≡ bit_and (a / 2) (b / 2) * 2 + min (a % 2) (b % 2)
bit_and_step a b = simp bit_and-bitwise (lowest_digit (λ y. 0) min (λ y. omega arith) a b)

pub bit_or_step : (a b : ℕ) → bit_or a b ≡ bit_or (a / 2) (b / 2) * 2 + max (a % 2) (b % 2)
bit_or_step a b = simp bit_or-bitwise (lowest_digit (λ y. y) max (λ y. omega arith) a b)

bit_or-zero_below : (n a : ℕ) → a ≤ n → bit_or a 0 ≡ a
bit_or-zero_below n zero h = refl
bit_or-zero_below zero (suc a) h = absurd (omega arith)
bit_or-zero_below (suc n) (suc a) h =
    omega (arith, bit_or_step (suc a) 0, bit_or-zero_below n (suc a / 2) (omega arith))

pub bit_or-zero : (a : ℕ) → bit_or a 0 ≡ a
bit_or-zero a = bit_or-zero_below a a (le_refl a)

pub zero-bit_or : (a : ℕ) → bit_or 0 a ≡ a
zero-bit_or a = omega (arith, bit_or-bitwise 0 a)

bit_or_self_below : (n a : ℕ) → a ≤ n → bit_or a a ≡ a
bit_or_self_below n zero h = refl
bit_or_self_below zero (suc a) h = absurd (omega arith)
bit_or_self_below (suc n) (suc a) h =
    omega (arith, bit_or_step (suc a) (suc a), bit_or_self_below n (suc a / 2) (omega arith))

pub bit_or_self : (a : ℕ) → bit_or a a ≡ a
bit_or_self a = bit_or_self_below a a (le_refl a)

bit_and-zero_below : (n a : ℕ) → a ≤ n → bit_and a 0 ≡ 0
bit_and-zero_below n zero h = refl
bit_and-zero_below zero (suc a) h = absurd (omega arith)
bit_and-zero_below (suc n) (suc a) h =
    omega (arith, bit_and_step (suc a) 0, bit_and-zero_below n (suc a / 2) (omega arith))

pub bit_and-zero : (a : ℕ) → bit_and a 0 ≡ 0
bit_and-zero a = bit_and-zero_below a a (le_refl a)

pub mul-pow-suc : (q k : ℕ) → q * 2 ^ suc k ≡ 2 * (q * 2 ^ k)
mul-pow-suc q k = omega (arith, ap (λ (t : ℕ). q * t) (pow-suc 2 k))

-- A value shifted above `k` bits and one that fits them do not overlap: `|` is their sum.
pub bit_or_disjoint : (k r q : ℕ) → r < 2 ^ k → bit_or r (q * 2 ^ k) ≡ r + q * 2 ^ k
bit_or_disjoint zero r q fits = ground (arith, zero-bit_or q)
bit_or_disjoint (suc k) r q fits = ground (
  arith,
  bit_or_step r (q * 2 ^ suc k),
  mul-pow-suc q k,
  bit_or_disjoint k (r / 2) q (omega arith),
)

pub bit_or_disjoint' : (k r q : ℕ) → r < 2 ^ k → bit_or (q * 2 ^ k) r ≡ q * 2 ^ k + r
bit_or_disjoint' zero r q fits = ground (arith, bit_or-zero q)
bit_or_disjoint' (suc k) r q fits = ground (
  arith,
  bit_or_step (q * 2 ^ suc k) r,
  mul-pow-suc q k,
  bit_or_disjoint' k (r / 2) q (omega arith),
)

mask_field : (k r q : ℕ) → r < 2 ^ k → bit_and (q * 2 ^ k + r) (2 ^ k - 1) ≡ r
mask_field zero r q fits = ground (arith, bit_and-zero (q + 0), bit_and-zero (q * 1 + 0))
mask_field (suc k) r q fits = ground (
  arith,
  bit_and_step (q * 2 ^ suc k + r) (2 ^ suc k - 1),
  mul-pow-suc q k,
  pow-suc 2 k,
  one-le-pow k 2,
  mask_field k (r / 2) q (omega arith),
)

-- `a & (2^k - 1)` is the remainder by `2 ^ k`.
pub bit_and_mask : (k a : ℕ) → bit_and a (2 ^ k - 1) ≡ a % 2 ^ k
bit_and_mask k a = ground (arith, one-le-pow k 2, mask_field k (a % 2 ^ k) (a / 2 ^ k))

-- Over a small range a law is checked at every value by evaluation.
module _ (f g : ℕ → ℕ) where
  unfoldable pub agree_below : ℕ → Bool
  agree_below zero = true
  agree_below (suc n) = f n == g n && agree_below n

  pub agree_below→eq : (n : ℕ) → agree_below n ≡ true → (i : ℕ) → i < n → f i ≡ g i
  unfolding agree_below
  agree_below→eq zero e i h = absurd (omega arith)
  agree_below→eq (suc n) e i h =
      ground (arith, λ (e' : agree_below n ≡ true). agree_below→eq n e' i)

pub low_seven : (b : ℕ) → bit_and b 0x7f ≡ b % 128
low_seven b = bit_and_mask 7 b

pub top_bit : (b : ℕ) → b < 256 → bit_and b 0x80 ≡ b / 128 * 128
unfolding agree_below
top_bit = agree_below→eq (λ b. bit_and b 0x80) (λ b. b / 128 * 128) 256 refl

pub sign_bit : (b : ℕ) → b < 256 → bit_and b 0x40 ≡ b / 64 % 2 * 64
unfolding agree_below
sign_bit = agree_below→eq (λ b. bit_and b 0x40) (λ b. b / 64 % 2 * 64) 256 refl

pub set_top_bit : (b : ℕ) → b < 128 → bit_or b 0x80 ≡ b + 128
unfolding agree_below
set_top_bit = agree_below→eq (λ b. bit_or b 0x80) (λ b. b + 128) 128 refl

-- A mask of one bit.
pub bit_and-pow : (k a : ℕ) → bit_and a (2 ^ k) ≡ a / 2 ^ k % 2 * 2 ^ k
bit_and-pow zero a = omega (arith, bit_and_step a 1, bit_and-zero (a / 2))
bit_and-pow (suc k) a = ground (
  arith,
  bit_and_step a (2 ^ suc k),
  pow-suc 2 k,
  bit_and-pow k (a / 2),
  div-div-eq-div-mul a 2 (2 ^ k),
  mul_comm 2 (2 ^ k),
  mul-pow-suc (a / 2 / 2 ^ k % 2) k,
)

pub pow_add : (s d : ℕ) → 2 ^ (s + d) ≡ 2 ^ s * 2 ^ d
pow_add s zero = let e : s + 0 ≡ s = omega arith in ap (λ k. 2 ^ k) e ∙ omega arith
pow_add s (suc d) =
    let e : s + suc d ≡ suc (s + d) = omega arith in
    ap (λ k. 2 ^ k) e
    ∙ omega (
      arith,
      pow-suc 2 (s + d),
      pow-suc 2 d,
      pow_add s d,
      ap (λ (t : ℕ). 2 ^ s * t) (pow-suc 2 d),
    )
