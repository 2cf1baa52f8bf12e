-- ===== src/W2c2/Leb128/Laws.antt =====
-- What the decoders make of the groups of a number, whatever bytes follow them.
use sandbox_stack.Prelude.{
  ℕ, zero, suc, ◌+◌, ◌*◌, ◌/◌, ◌%◌, ◌^◌, ◌≤◌, ◌<◌, ◌≡◌, refl, ap, ◌∙◌, arith,
}
use sandbox_stack.Prelude.{List, ◌∷◌, ◌++◌, length, bit_or, lt→ltb, not_lt→ltb}
use sandbox_stack.Prelude.Bits.{low_seven, top_bit, bit_or_disjoint}
use sandbox_stack.Groups.{unsigned_groups}
use sandbox_stack.W2c2.Buffer.{Buffer}
use sandbox_stack.W2c2.Leb128.{Reading, take_byte, read_loop}
use native.Mathlib.Nat.{mod-eq_of_lt, pow-suc, div-add-mod}
use native.Mathlib.Numerals.{towards_suc}
use native.Mathlib.Decide.{dec_lt}

-- A group joined to the value read so far, which lies below its place.
pub joined :
    (value g shift w : ℕ)
    → value < 2 ^ shift
    → g * 2 ^ shift < 2 ^ w
    → bit_or value (g * 2 ^ shift % 2 ^ w) ≡ value + g * 2 ^ shift
joined value g shift w below fits =
    ap (λ t. bit_or value t) (mod-eq_of_lt fits) ∙ bit_or_disjoint shift value g below

-- The reading after one more byte with the group `g`.
abbrev pub with_group : Reading → ℕ → ℕ → Buffer → Reading
with_group r g x b = record {
  value = r.value + g * 2 ^ r.shift;
  shift = r.shift + 7;
  count = r.count + 1;
  byte = x;
  rest = b;
}

pub take_byte_lem :
    (w : ℕ) (r : Reading) (x : ℕ) (b : Buffer)
    → r.value < 2 ^ r.shift
    → x % 128 * 2 ^ r.shift < 2 ^ w
    → take_byte w r x b ≡ with_group r (x % 128) x b
take_byte_lem w r x b below fits =
    ap (λ v. record r { value = v; shift = r.shift + 7; count = r.count + 1; byte = x; rest = b })
      (ap (λ g. bit_or r.value (g * 2 ^ r.shift % 2 ^ w)) (low_seven x)
        ∙ joined r.value (x % 128) r.shift w below fits)

-- One round on a byte without and with the continuation bit.
pub read_last :
    (w left : ℕ) (r : Reading) (x : ℕ) (b : Buffer)
    → r.rest ≡ x ∷ b
    → x < 128
    → read_loop w (suc left) r ≡ take_byte w r x b
unfolding read_loop
read_last w left r x b e h = rw e (ground (arith, top_bit x))

read_more :
    (w left : ℕ) (r : Reading) (x : ℕ) (b : Buffer)
    → r.rest ≡ x ∷ b
    → 128 ≤ x
    → x < 256
    → read_loop w (suc left) r ≡ read_loop w left (take_byte w r x b)
unfolding read_loop
read_more w left r x b e h hx = rw e (ground (arith, top_bit x))

pub mul_le : (a b p : ℕ) → a ≤ b → a * p ≤ b * p
mul_le a b p h = grind arith

pub shift_seven : (s : ℕ) → 2 ^ (s + 7) ≡ 128 * 2 ^ s
shift_seven s = simp towards_suc (omega arith)

-- A number from the place `p` on is its lowest group there and the rest seven bits higher.
pub split_group : (v p q : ℕ) → q ≡ 128 * p → v * p ≡ v % 128 * p + v / 128 * q
split_group v p q e =
    omega (arith, ap (λ (t : ℕ). t * p) (div-add-mod v 128), ap (λ (t : ℕ). v / 128 * t) e)

-- The round on the last group `g < 128`.
pub last_round :
    (w left : ℕ) (r : Reading) (g : ℕ) (b : Buffer)
    → r.rest ≡ g ∷ b
    → g < 128
    → r.value < 2 ^ r.shift
    → g * 2 ^ r.shift < 2 ^ w
    → read_loop w (suc left) r ≡ with_group r g g b
last_round w left r g b e h below fits =
    read_last w left r g b e h
    ∙ take_byte_lem w r g b below (rw (mod-eq_of_lt h) fits)
    ∙ ap (λ t. with_group r t g b) (mod-eq_of_lt h)

-- The round on an inner byte `g + 128`.
inner_round :
    (w left : ℕ) (r : Reading) (g : ℕ) (b : Buffer)
    → r.rest ≡ (g + 128) ∷ b
    → g < 128
    → r.value < 2 ^ r.shift
    → g * 2 ^ r.shift < 2 ^ w
    → read_loop w (suc left) r ≡ read_loop w left (with_group r g (g + 128) b)
inner_round w left r g b e h below fits =
    let group : (g + 128) % 128 ≡ g = omega arith in
    read_more w left r (g + 128) b e (omega arith) (omega arith)
    ∙ ap (read_loop w left) (
        take_byte_lem w r (g + 128) b below (rw group fits)
        ∙ ap (λ t. with_group r t (g + 128) b) group)

pub below_next : (value g s : ℕ) → value < 2 ^ s → g < 128 → value + g * 2 ^ s < 2 ^ (s + 7)
below_next value g s h k =
    rw (shift_seven s) (omega (arith, mul_le (g + 1) 128 (2 ^ s) (omega arith)))

-- What the loop has read: the result that `f` takes from its variables, the bytes counted, and the
-- buffer behind them.
pub record Reads (f : Reading → ℕ) (result count : ℕ) (b : Buffer) (s : Reading) : Type 0 where
  pub value : f s ≡ result
  pub counted : s.count ≡ count
  pub rest : s.rest ≡ b

-- An inner byte read, it is left to read the rest.
pub inner_Reads :
    (f : Reading → ℕ) (w left : ℕ) (r : Reading) (g result : ℕ) (groups b : List ℕ)
    → r.rest ≡ (g + 128) ∷ groups ++ b
    → g < 128
    → r.value < 2 ^ r.shift
    → g * 2 ^ r.shift < 2 ^ w
    → Reads f result
        (r.count + 1 + length groups)
        b
        (read_loop w left (with_group r g (g + 128) (groups ++ b)))
    → Reads f result (r.count + suc (length groups)) b (read_loop w (suc left) r)
inner_Reads f w left r g result groups b e h below fits ih =
    rw (inner_round w left r g (groups ++ b) e h below fits)
      (record { value = ih.value; counted = ih.counted ∙ omega arith; rest = ih.rest })

pub read_unsigned :
    (k w left : ℕ) (r : Reading) (v : ℕ) (b : Buffer)
    → k < left
    → r.rest ≡ unsigned_groups k v ++ b
    → r.value < 2 ^ r.shift
    → r.value + v * 2 ^ r.shift < 2 ^ w
    → v < 128 ^ suc k
    → Reads
        (λ s. s.value)
        (r.value + v * 2 ^ r.shift)
        (r.count + length (unsigned_groups k v))
        b
        (read_loop w left r)
unfolding unsigned_groups
read_unsigned k w zero r v b hk e below fits h = absurd (omega arith)
read_unsigned zero w (suc left) r v b hk e below fits h =
    rw (last_round w left r v b e (omega arith) below (omega arith))
      (record { value = refl; counted = refl; rest = refl })
read_unsigned (suc k) w (suc left) r v b hk e below fits h = elim (dec_lt v 128) [
  | yes p ↦ rw (lt→ltb v 128 p) (
      rw (last_round w left r v b (rw (lt→ltb v 128 p) at e) p below (omega arith))
        (record { value = refl; counted = refl; rest = refl }))
  | no p ↦
      let split = split_group v (2 ^ r.shift) (2 ^ (r.shift + 7)) (shift_seven r.shift) in
      let groups = unsigned_groups k (v / 128) in
      let next = with_group r (v % 128) (v % 128 + 128) (groups ++ b) in
      let whole : next.value + v / 128 * 2 ^ next.shift ≡ r.value + v * 2 ^ r.shift = omega arith in
      rw (not_lt→ltb v 128 p, ← whole)
        (inner_Reads (λ s. s.value) w left r (v % 128) _ groups b (rw (not_lt→ltb v 128 p) at e)
          (omega arith) below (omega arith)
          (read_unsigned k w left next (v / 128) b (omega arith) refl
            (below_next r.value (v % 128) r.shift below (omega arith)) (omega arith)
            (omega (arith, pow-suc 128 (suc k)))))
]
