-- ===== src/Wire.antt =====
-- What cc/codegen.c writes is what w2c2/leb128.h reads: the two programs that meet at a wasm file agree
-- on its integers.
pub mod Framing
use sandbox_stack.Prelude.{ℕ, ◌+◌, ◌-◌, ◌^◌, ◌<◌, ◌≡◌, refl, ◌∙◌, arith, List, ◌++◌, length, Option}
use sandbox_stack.Prelude.Int.{ℤ, pos, negsuc}
use sandbox_stack.Groups.{unsigned_groups, positive_groups, negative_groups}
use sandbox_stack.Cc.ByteBuf.{Buf, buf_uleb, buf_sleb}
use sandbox_stack.Cc.ByteBuf.Encode.{
  Appends, uleb_groups, sleb_positive_groups, sleb_negative_groups,
}
use sandbox_stack.W2c2.Buffer.{Buffer}
use sandbox_stack.W2c2.Leb128.{
  Decoded, Reading, begin, sign_extend, read_u32, read_i32, read_u64, read_i64,
}
use sandbox_stack.W2c2.Leb128.Laws.{Reads, read_unsigned}
use sandbox_stack.W2c2.Leb128.Signed.{read_positive, read_negative}

-- The encoder returned and appended some bytes, and the decoder, on those bytes and whatever follows
-- them, takes exactly them and yields this bit pattern.
abbrev pub Crosses : Buf → Option Buf → (Buffer → Decoded) → ℕ → Type 0
Crosses b written decode v =
    (xs : List ℕ) × Appends b xs written
    × ((more : List ℕ)
        → decode (xs ++ more) ≡ record { count = length xs; result = v; rest = more })

abbrev decoded : (f : Reading → ℕ) → Reading → Decoded
decoded f r = record { count = r.count; result = f r; rest = r.rest }

decoded_lem :
    (f : Reading → ℕ) (v v' n n' : ℕ) (b : Buffer) (s : Reading)
    → v' ≡ v
    → n' ≡ n
    → Reads f v' n' b s
    → decoded f s ≡ record { count = n; result = v; rest = b }
decoded_lem f v v' n n' b s e k h =
    λ i. record { count = (h.counted ∙ k) i; result = (h.value ∙ e) i; rest = h.rest i }

pub read_u32-groups :
    (v : ℕ) (more : List ℕ)
    → v < 2 ^ 32
    → read_u32 (unsigned_groups 4 v ++ more)
      ≡ record { count = length (unsigned_groups 4 v); result = v; rest = more }
unfolding read_u32
read_u32-groups v more h =
    decoded_lem (λ s. s.value) v _ _ _ more _ (omega arith) (omega arith)
      (read_unsigned 4 32 5 (begin (unsigned_groups 4 v ++ more)) v more (omega arith) refl
        (omega arith) (omega arith) (omega arith))

-- `uint32_t` values that `buf_uleb` writes, in 5 rounds at most, are read back by `leb128ReadU32`,
-- whatever follows them.
pub u32-Crosses : (b : Buf) (v : ℕ) → v < 2 ^ 32 → Crosses b (buf_uleb 5 b v) read_u32 v
u32-Crosses b v h =
    (unsigned_groups 4 v, uleb_groups 4 b v (omega arith), λ more. read_u32-groups v more h)

-- `uint64_t` values that `buf_uleb` writes, in 10 rounds at most, are read back by `leb128ReadU64`,
-- whatever follows them.
u64-Crosses : (b : Buf) (v : ℕ) → v < 2 ^ 64 → Crosses b (buf_uleb 10 b v) read_u64 v
unfolding read_u64
u64-Crosses b v h = (
  unsigned_groups 9 v,
  uleb_groups 9 b v (omega arith),
  λ more.
      decoded_lem (λ s. s.value) v _ _ _ more _ (omega arith) (omega arith)
        (read_unsigned 9 64 10 (begin (unsigned_groups 9 v ++ more)) v more (omega arith) refl
          (omega arith) (omega arith) (omega arith)),
)

-- A signed integer of `d + 1` bits, and its two's complement bit pattern.
abbrev pub IsSigned : ℕ → ℤ → Type 0
IsSigned d (pos n) = n < 2 ^ d
IsSigned d (negsuc n) = n < 2 ^ d

abbrev pub pattern_of : ℕ → ℤ → ℕ
pattern_of w (pos n) = n
pattern_of w (negsuc n) = 2 ^ w - (n + 1)

-- `int32_t` values that `buf_sleb` writes, in 5 rounds at most, are read back by `leb128ReadI32` as
-- their bit patterns, whatever follows them.
pub i32-Crosses :
    (b : Buf) (v : ℤ) → IsSigned 31 v → Crosses b (buf_sleb 5 b v) read_i32 (pattern_of 32 v)
unfolding read_i32
i32-Crosses b (pos n) h = (
  positive_groups 4 n,
  sleb_positive_groups 4 b n (omega arith),
  λ more. decoded_lem (sign_extend 32) n _ _ _ more _ (omega arith) (omega arith) (
      read_positive 4 32 5 (begin (positive_groups 4 n ++ more)) n more (omega arith) refl
        (omega arith) (omega arith) (omega arith)),
)
i32-Crosses b (negsuc n) h = (
  negative_groups 4 n,
  sleb_negative_groups 4 b n (omega arith),
  λ more. decoded_lem (sign_extend 32) (2 ^ 32 - (n + 1)) _ _ _ more _ refl (omega arith) (
      read_negative 4 32 5 31 (2 ^ 32 - (n + 1)) (begin (negative_groups 4 n ++ more)) n more
        (omega arith) (omega arith) refl (omega arith) h (omega arith) (omega arith)),
)

-- `int64_t` values that `buf_sleb` writes, in 10 rounds at most, are read back by `leb128ReadI64` as
-- their bit patterns, whatever follows them.
pub i64-Crosses :
    (b : Buf) (v : ℤ) → IsSigned 63 v → Crosses b (buf_sleb 10 b v) read_i64 (pattern_of 64 v)
unfolding read_i64
i64-Crosses b (pos n) h = (
  positive_groups 9 n,
  sleb_positive_groups 9 b n (omega arith),
  λ more. decoded_lem (sign_extend 64) n _ _ _ more _ (omega arith) (omega arith) (
      read_positive 9 64 10 (begin (positive_groups 9 n ++ more)) n more (omega arith) refl
        (omega arith) (omega arith) (omega arith)),
)
i64-Crosses b (negsuc n) h = (
  negative_groups 9 n,
  sleb_negative_groups 9 b n (omega arith),
  λ more. decoded_lem (sign_extend 64) (2 ^ 64 - (n + 1)) _ _ _ more _ refl (omega arith) (
      read_negative 9 64 10 63 (2 ^ 64 - (n + 1)) (begin (negative_groups 9 n ++ more)) n more
        (omega arith) (omega arith) refl (omega arith) h (omega arith) (omega arith)),
)
