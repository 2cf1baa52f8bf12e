-- ===== src/Cc/ByteBuf/Encode.antt =====
-- What the encoders append.
use sandbox_stack.Prelude.{
  ℕ, zero, suc, ◌+◌, ◌-◌, ◌*◌, ◌/◌, ◌%◌, ◌^◌, ◌≤◌, ◌<◌, ◌≡◌, arith, List, [], ◌∷◌,
}
use sandbox_stack.Prelude.{◌++◌, Option, some}
use sandbox_stack.Prelude.Bits.{low_seven, set_top_bit, sign_bit}
use sandbox_stack.Prelude.Int.{pos, negsuc}
use sandbox_stack.Groups.{unsigned_groups, positive_groups, negative_groups}
use sandbox_stack.Cc.ByteBuf.{Buf, buf_u8, buf_uleb, buf_sleb}
use sandbox_stack.Prelude.{ap, ◌∙◌, lt→ltb, not_lt→ltb}
use mathlib.Core.List.{append_assoc}
use native.Mathlib.Nat.{mod-eq_of_lt, pow-suc}
use native.Mathlib.Decide.{dec_lt}

-- The call returned, and appended these bytes.
abbrev pub Appends : Buf → List ℕ → Option Buf → Type 0
Appends b xs r = (b' : Buf) × (r ≡ some b') × (b'.bytes ≡ b.bytes ++ xs)

quotient_lt : (k v : ℕ) → v < 128 ^ suc (suc k) → v / 128 < 128 ^ suc k
quotient_lt k v h = omega (arith, pow-suc 128 (suc k))

pub bytes-buf_u8 : (b : Buf) (c : ℕ) → c < 256 → (buf_u8 b c).bytes ≡ b.bytes ++ (c ∷ [])
unfolding buf_u8
bytes-buf_u8 b c h = ap (λ x. b.bytes ++ (x ∷ [])) (mod-eq_of_lt h)

Appends-last :
    (b : Buf) (c : ℕ) {r : Option Buf} → c < 256 → r ≡ some (buf_u8 b c) → Appends b (c ∷ []) r
Appends-last b c h e = (buf_u8 b c, e, bytes-buf_u8 b c h)

Appends-more :
    (b : Buf) (c : ℕ) (xs : List ℕ) {r s : Option Buf}
    → c < 256
    → r ≡ s
    → Appends (buf_u8 b c) xs s
    → Appends b (c ∷ xs) r
Appends-more b c xs h e (b', found, bytes) = (
  b',
  e ∙ found,
  bytes ∙ ap (λ l. l ++ xs) (bytes-buf_u8 b c h) ∙ append_assoc b.bytes (c ∷ []) xs,
)

uleb_last : (fuel : ℕ) (b : Buf) (v : ℕ) → v < 128 → buf_uleb (suc fuel) b v ≡ some (buf_u8 b v)
unfolding buf_uleb
uleb_last fuel b v h = ground (arith, low_seven v)

uleb_more :
    (fuel : ℕ) (b : Buf) (v : ℕ)
    → 128 ≤ v
    → buf_uleb (suc fuel) b v ≡ buf_uleb fuel (buf_u8 b (v % 128 + 128)) (v / 128)
unfolding buf_uleb
uleb_more fuel b v h = ground (arith, low_seven v, set_top_bit (v % 128))

-- With a round for each group `buf_uleb` returns, and appends the groups of the number.
pub uleb_groups :
    (k : ℕ) (b : Buf) (v : ℕ)
    → v < 128 ^ suc k
    → Appends b (unsigned_groups k v) (buf_uleb (suc k) b v)
unfolding unsigned_groups
uleb_groups zero b v h = Appends-last b v (omega arith) (uleb_last 0 b v (omega arith))
uleb_groups (suc k) b v h = elim (dec_lt v 128) [
  | yes p ↦ rw (lt→ltb v 128 p) (Appends-last b v (omega arith) (uleb_last (suc k) b v p))
  | no p ↦ rw (not_lt→ltb v 128 p) (
      Appends-more b (v % 128 + 128) (unsigned_groups k (v / 128)) (omega arith)
        (uleb_more (suc k) b v (omega arith))
        (uleb_groups k (buf_u8 b (v % 128 + 128)) (v / 128) (quotient_lt k v h)))
]

sleb_positive_last :
    (fuel : ℕ) (b : Buf) (n : ℕ) → n < 64 → buf_sleb (suc fuel) b (pos n) ≡ some (buf_u8 b n)
unfolding buf_sleb
sleb_positive_last fuel b n h = ground (arith, low_seven n, sign_bit n)

sleb_positive_more :
    (fuel : ℕ) (b : Buf) (n : ℕ)
    → 64 ≤ n
    → buf_sleb (suc fuel) b (pos n) ≡ buf_sleb fuel (buf_u8 b (n % 128 + 128)) (pos (n / 128))
unfolding buf_sleb
sleb_positive_more fuel b n h =
    ground (arith, low_seven n, sign_bit (n % 128), set_top_bit (n % 128))

sleb_negative_last :
    (fuel : ℕ) (b : Buf) (n : ℕ)
    → n < 64
    → buf_sleb (suc fuel) b (negsuc n) ≡ some (buf_u8 b (127 - n))
unfolding buf_sleb
sleb_negative_last fuel b n h = ground (arith, low_seven n, sign_bit (127 - n))

sleb_negative_more :
    (fuel : ℕ) (b : Buf) (n : ℕ)
    → 64 ≤ n
    → buf_sleb (suc fuel) b (negsuc n) ≡ buf_sleb fuel (buf_u8 b (255 - n % 128)) (negsuc (n / 128))
unfolding buf_sleb
sleb_negative_more fuel b n h =
    ground (arith, low_seven n, sign_bit (127 - n % 128), set_top_bit (127 - n % 128))

signed_quotient_lt : (k n : ℕ) → n < 64 * 128 ^ suc k → n / 128 < 64 * 128 ^ k
signed_quotient_lt k n h = omega (arith, pow-suc 128 k)

pub sleb_positive_groups :
    (k : ℕ) (b : Buf) (n : ℕ)
    → n < 64 * 128 ^ k
    → Appends b (positive_groups k n) (buf_sleb (suc k) b (pos n))
unfolding positive_groups
sleb_positive_groups zero b n h =
    Appends-last b n (omega arith) (sleb_positive_last 0 b n (omega arith))
sleb_positive_groups (suc k) b n h = elim (dec_lt n 64) [
  | yes p ↦ rw (lt→ltb n 64 p) (Appends-last b n (omega arith) (sleb_positive_last (suc k) b n p))
  | no p ↦ rw (not_lt→ltb n 64 p) (
      Appends-more b (n % 128 + 128) (positive_groups k (n / 128)) (omega arith)
        (sleb_positive_more (suc k) b n (omega arith))
        (sleb_positive_groups k (buf_u8 b (n % 128 + 128)) (n / 128) (signed_quotient_lt k n h)))
]

pub sleb_negative_groups :
    (k : ℕ) (b : Buf) (n : ℕ)
    → n < 64 * 128 ^ k
    → Appends b (negative_groups k n) (buf_sleb (suc k) b (negsuc n))
unfolding negative_groups
sleb_negative_groups zero b n h =
    Appends-last b (127 - n) (omega arith) (sleb_negative_last 0 b n (omega arith))
sleb_negative_groups (suc k) b n h = elim (dec_lt n 64) [
  | yes p ↦
      rw (lt→ltb n 64 p) (Appends-last b (127 - n) (omega arith) (sleb_negative_last (suc k) b n p))
  | no p ↦ rw (not_lt→ltb n 64 p) (
      Appends-more b (255 - n % 128) (negative_groups k (n / 128)) (omega arith)
        (sleb_negative_more (suc k) b n (omega arith))
        (sleb_negative_groups k (buf_u8 b (255 - n % 128)) (n / 128) (signed_quotient_lt k n h)))
]
