-- ===== src/Prelude/Int.antt =====
-- Signed integers over the native numbers, under the library's names (its ℤ stands on the unary ℕ).
use Prim.Native.Nat.{ℕ, zero, suc, ◌+◌, ◌-◌, ◌*◌, ◌/◌, ◌%◌, ◌^◌}
use sandbox_stack.Prelude.Tests.{leb, ltb, if◌then◌else◌}

-- `negsuc n` is -(n + 1).
pub data ℤ : Type 0 where
  pos : ℕ → ℤ
  negsuc : ℕ → ℤ

abbrev pub magnitude : ℤ → ℕ
magnitude (pos n) = n
magnitude (negsuc n) = suc n

-- The integer of this magnitude that is not positive.
abbrev pub minus : ℕ → ℤ
minus zero = pos 0
minus (suc n) = negsuc n

-- Division of C: the quotient is truncated towards zero, the remainder has the dividend's sign.
unfoldable pub quot : ℤ → ℤ → ℤ
quot (pos a) (pos b) = pos (a / b)
quot (pos a) (negsuc b) = minus (a / suc b)
quot (negsuc a) (pos b) = minus (suc a / b)
quot (negsuc a) (negsuc b) = pos (suc a / suc b)

unfoldable pub rem : ℤ → ℤ → ℤ
rem (pos a) b = pos (a % magnitude b)
rem (negsuc a) b = minus (suc a % magnitude b)

abbrev pub sub_nat : ℤ → ℕ → ℤ
sub_nat (pos n) k = if leb k n then pos (n - k) else negsuc (k - n - 1)
sub_nat (negsuc n) k = negsuc (n + k)

-- The two's complement pattern of `w` bits, as a C conversion to an unsigned type gives it.
abbrev pub pattern : ℕ → ℤ → ℕ
pattern w (pos n) = n % 2 ^ w
pattern w (negsuc n) = 2 ^ w - 1 - n % 2 ^ w

-- The value of a two's complement pattern whose sign bit counts `half`.
abbrev pub signed : ℕ → ℕ → ℤ
signed half x = if ltb x half then pos x else negsuc (2 * half - x - 1)
