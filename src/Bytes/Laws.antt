-- ===== src/Bytes/Laws.antt =====
-- What the byte loops leave at each address.
use mathlib.Core.Path.{ap, ap₂, sym, ◌∙◌}
use native.Mathlib.Nat.{
  pow-suc, mul_comm, one-le-pow, mod-eq_of_lt, add-mul-mod_self_left, div-add-mod,
}
use native.Mathlib.Numerals.{towards_suc}
use sandbox_stack.Prelude.{ℕ, zero, suc, ◌+◌, ◌-◌, ◌*◌, ◌/◌, ◌%◌, ◌^◌, ◌≤◌, ◌<◌, ◌≡◌, refl, arith}
use sandbox_stack.Prelude.{Bool, true, ◌&&◌, List, [], ◌∷◌, ltb, leb, if◌then◌else◌}
use sandbox_stack.Prelude.{length, get_or, ltb→lt}
use sandbox_stack.Bytes.{Store, update, copy_forward, copy_backward, memmove, memset}
use sandbox_stack.Bytes.{memcpy_in, memcpy_out, bytes_of, number_of}

-- The address lies in the `n` bytes from `x`.
abbrev pub inside : ℕ → ℕ → ℕ → Bool
inside x n j = leb x j && ltb j (x + n)

copy_forward-at :
    (n x y j : ℕ) (c : Store)
    → x < y
    → copy_forward n x y c j ≡ (if inside x n j then c (y + (j - x)) else c j)
unfolding copy_forward update
copy_forward-at zero x y j c h = ground arith
copy_forward-at (suc n) x y j c h =
    ground (arith, copy_forward-at n (x + 1) (y + 1) j (update c x (c y)) (omega arith))

copy_backward-at :
    (n x y j : ℕ) (c : Store)
    → y ≤ x
    → copy_backward n x y c j ≡ (if inside x n j then c (y + (j - x)) else c j)
unfolding copy_backward update
copy_backward-at zero x y j c h = ground arith
copy_backward-at (suc n) x y j c h =
    ground (arith, copy_backward-at n x y j (update c (x + n) (c (y + n))) h)

pub memmove-at :
    (d s n j : ℕ) (c : Store) → memmove d s n c j ≡ (if inside d n j then c (s + (j - d)) else c j)
unfolding memmove
memmove-at d s n j c = ground (
  arith,
  λ (h : ltb d s ≡ true). copy_forward-at n d s j c (ltb→lt d s h),
  λ (h : s ≤ d). copy_backward-at n d s j c h,
)

pub memset-at :
    (n x v j : ℕ) (c : Store) → memset x v n c j ≡ (if inside x n j then v % 256 else c j)
unfolding memset update
memset-at zero x v j c = ground arith
memset-at (suc n) x v j c = ground (arith, memset-at n (x + 1) v j (update c x (v % 256)))

get_or-pos : (b : ℕ) (bs : List ℕ) (i : ℕ) → 0 < i → get_or (b ∷ bs) i 0 ≡ get_or bs (i - 1) 0
get_or-pos b bs zero h = absurd (omega arith)
get_or-pos b bs (suc i) h = ap (λ k. get_or bs k 0) (omega arith)

pub memcpy_in-at :
    (bs : List ℕ) (x j : ℕ) (c : Store)
    → memcpy_in x bs c j ≡ (if inside x (length bs) j then get_or bs (j - x) 0 else c j)
unfolding memcpy_in update
memcpy_in-at [] x j c = ground arith
memcpy_in-at (b ∷ bs) x j c =
    ground (arith, memcpy_in-at bs (x + 1) j (update c x b), get_or-pos b bs (j - x))

pub length-memcpy_out : (n y : ℕ) (c : Store) → length (memcpy_out y n c) ≡ n
unfolding memcpy_out
length-memcpy_out zero y c = refl
length-memcpy_out (suc n) y c = omega (arith, length-memcpy_out n (y + 1) c)

-- A copy out depends on the bytes of its range alone.
pub memcpy_out_ext :
    (n y : ℕ) (c e : Store)
    → ((j : ℕ) → y ≤ j → j < y + n → c j ≡ e j)
    → memcpy_out y n c ≡ memcpy_out y n e
unfolding memcpy_out
memcpy_out_ext zero y c e h = refl
memcpy_out_ext (suc n) y c e h =
    ap₂ ◌∷◌ (h y (omega arith) (omega arith))
      (memcpy_out_ext n (y + 1) c e (λ j p q. h j (omega arith) (omega arith)))

-- What was copied in is copied out again.
pub memcpy_out-memcpy_in :
    (bs : List ℕ) (x : ℕ) (c : Store) → memcpy_out x (length bs) (memcpy_in x bs c) ≡ bs
unfolding memcpy_out memcpy_in
memcpy_out-memcpy_in [] x c = refl
memcpy_out-memcpy_in (b ∷ bs) x c =
    ap₂ ◌∷◌ (unfold update in ground (arith, memcpy_in-at bs (x + 1) x (update c x b)))
      (memcpy_out-memcpy_in bs (x + 1) (update c x b))

pub length-bytes_of : (n w : ℕ) → length (bytes_of n w) ≡ n
unfolding bytes_of
length-bytes_of zero w = refl
length-bytes_of (suc n) w = omega (arith, length-bytes_of n (w / 256))

-- The lowest byte and the remainder of the rest make up a remainder.
mod_digit : (w p : ℕ) → 0 < p → w % 256 + 256 * (w / 256 % p) ≡ w % (256 * p)
mod_digit w p h =
    let low : ℕ = w % 256 + 256 * (w / 256 % p) in
    let split : w ≡ low + 256 * p * (w / 256 / p) =
      omega (arith, ap (λ (t : ℕ). 256 * t) (div-add-mod (w / 256) p)) in
    sym (
      ap (λ t. t % (256 * p)) split
      ∙ add-mul-mod_self_left low (256 * p) (w / 256 / p)
      ∙ mod-eq_of_lt (grind arith))

-- The bytes of a number give back what of it fits them.

eight : (s : ℕ) → 2 ^ (s + 8) ≡ 2 ^ s * 256
eight s = simp towards_suc (omega arith)

pub pow_256 : (n : ℕ) → 256 ^ n ≡ 2 ^ (8 * n)
pow_256 zero = refl
pow_256 (suc n) =
    rw (pow-suc 256 n, pow_256 n)
      (sym (ap (λ k. 2 ^ k) (let e : 8 * suc n ≡ 8 * n + 8 = omega arith in e) ∙ eight (8 * n)))

pub number_of-bytes_of : (n w : ℕ) → number_of (bytes_of n w) ≡ w % 256 ^ n
unfolding bytes_of number_of
number_of-bytes_of zero w = omega arith
number_of-bytes_of (suc n) w =
    rw (number_of-bytes_of n (w / 256), pow-suc 256 n)
      (mod_digit w (256 ^ n) (one-le-pow n 256 (omega arith))
        ∙ ap (λ t. w % t) (mul_comm 256 (256 ^ n)))
