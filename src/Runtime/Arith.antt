-- ===== src/Runtime/Arith.antt =====
-- Integer arithmetic of rt/w2c2_base.h. An `I32` or `I64` is its bit pattern, and the signed macros take
-- half the number of patterns: 2^31 or 2^63.
pub mod Divide
pub mod Rotate
pub mod Count
use sandbox_stack.Prelude.{ℕ, zero, suc, ◌+◌, ◌-◌, ◌*◌, ◌/◌, ◌%◌, ◌^◌, Bool, true, false, ◌&&◌, not}
use sandbox_stack.Prelude.{Option, none, some, bit_and, bit_or, ltb, ◌==◌, if◌then◌else◌}
use sandbox_stack.Prelude.Int.{ℤ, pos, negsuc, quot, rem, magnitude}
use sandbox_stack.Runtime.{Outcome, done, trapped, div_by_zero, int_overflow}

-- `(I32)(x)` and `(U32)(z)`
abbrev pub signed_of : ℕ → ℕ → ℤ
signed_of half x = if ltb x half then pos x else negsuc (2 * half - x - 1)

abbrev pub unsigned_of : ℕ → ℤ → ℕ
unsigned_of half (pos n) = n % (2 * half)
unsigned_of half (negsuc n) = 2 * half - 1 - n % (2 * half)

abbrev pub same_int : ℤ → ℤ → Bool
same_int (pos a) (pos b) = a == b
same_int (pos a) (negsuc b) = false
same_int (negsuc a) (pos b) = false
same_int (negsuc a) (negsuc b) = a == b

-- `(x) == (min) && (y) == -1`
abbrev pub overflows : ℕ → ℤ → ℤ → Bool
overflows half x y = same_int x (negsuc (half - 1)) && same_int y (negsuc 0)

-- `DIV_S`, on the converted operands
unfoldable pub divide_signed : ℕ → ℤ → ℤ → Outcome ℕ
divide_signed half x y =
    if same_int y (pos 0)
    then trapped div_by_zero
    else if overflows half x y
    then trapped int_overflow
    else done (unsigned_of half (quot x y))

-- `REM_S`
unfoldable pub remainder_signed : ℕ → ℤ → ℤ → Outcome ℕ
remainder_signed half x y =
    if same_int y (pos 0)
    then trapped div_by_zero
    else if overflows half x y
    then done 0
    else done (unsigned_of half (rem x y))

-- `I32_DIV_S` and `I64_DIV_S`, `I32_REM_S` and `I64_REM_S`
unfoldable pub div_s : ℕ → ℕ → ℕ → Outcome ℕ
div_s half x y = divide_signed half (signed_of half x) (signed_of half y)

unfoldable pub rem_s : ℕ → ℕ → ℕ → Outcome ℕ
rem_s half x y = remainder_signed half (signed_of half x) (signed_of half y)

-- `DIV_U` and `REM_U`
unfoldable pub div_u : ℕ → ℕ → Outcome ℕ
div_u x y = if y == 0 then trapped div_by_zero else done (x / y)

unfoldable pub rem_u : ℕ → ℕ → Outcome ℕ
rem_u x y = if y == 0 then trapped div_by_zero else done (x % y)

-- `ROTL` and `ROTR`, for a word of `2 ^ k` bits; `mask` is `2 ^ k - 1`. The second shift's count is
-- computed in a word.
abbrev pub rotation_mask : ℕ → ℕ
rotation_mask k = 2 ^ k - 1

abbrev pub other_count : ℕ → ℕ → ℕ
other_count k y = bit_and ((2 ^ (2 ^ k) + rotation_mask k - y + 1) % 2 ^ (2 ^ k)) (rotation_mask k)

unfoldable pub rotl : ℕ → ℕ → ℕ → ℕ
rotl k x y = bit_or (x * 2 ^ bit_and y (rotation_mask k) % 2 ^ (2 ^ k)) (x / 2 ^ other_count k y)

unfoldable pub rotr : ℕ → ℕ → ℕ → ℕ
rotr k x y = bit_or (x / 2 ^ bit_and y (rotation_mask k)) (x * 2 ^ other_count k y % 2 ^ (2 ^ k))

-- `I32_ROTL`, `I64_ROTL`, `I32_ROTR` and `I64_ROTR`
unfoldable pub i32_rotl : ℕ → ℕ → ℕ
unfolding rotl
i32_rotl x y = rotl 5 x y

unfoldable pub i64_rotl : ℕ → ℕ → ℕ
unfolding rotl
i64_rotl x y = rotl 6 x y

unfoldable pub i32_rotr : ℕ → ℕ → ℕ
unfolding rotr
i32_rotr x y = rotr 5 x y

unfoldable pub i64_rotr : ℕ → ℕ → ℕ
unfolding rotr
i64_rotr x y = rotr 6 x y

-- `while (!(x & top)) { x <<= 1; n++; }` for words of `suc d` bits, with fuel; `none` means that it ran
-- out.
unfoldable pub clz_loop : ℕ → ℕ → ℕ → ℕ → Option ℕ
clz_loop d zero x n = none
clz_loop d (suc fuel) x n =
    let more = clz_loop d fuel (x * 2 % 2 ^ suc d) (n + 1) in
    if bit_and x (2 ^ d) == 0 then more else some n

-- `I32_CLZ` and `I64_CLZ`, for `d` of 31 and 63
unfoldable pub clz : ℕ → ℕ → Option ℕ
unfolding clz_loop
clz d x = if x == 0 then some (suc d) else clz_loop d (suc d) x 0

-- `while (!(x & 1)) { x >>= 1; n++; }`
unfoldable pub ctz_loop : ℕ → ℕ → ℕ → Option ℕ
ctz_loop zero x n = none
ctz_loop (suc fuel) x n =
    let more = ctz_loop fuel (x / 2) (n + 1) in if bit_and x 1 == 0 then more else some n

-- `I32_CTZ` and `I64_CTZ`, for `w` of 32 and 64
unfoldable pub ctz : ℕ → ℕ → Option ℕ
unfolding ctz_loop
ctz w x = if x == 0 then some w else ctz_loop w x 0
