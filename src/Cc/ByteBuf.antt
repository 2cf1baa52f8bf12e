-- ===== src/Cc/ByteBuf.antt =====
-- The byte buffers of cc/codegen.c and the LEB128 encoders that write to them.
pub mod Encode
pub mod Prefixed
use sandbox_stack.Prelude.{
  ℕ, zero, suc, ◌+◌, ◌-◌, ◌*◌, ◌/◌, ◌%◌, ◌^◌, Bool, not, ◌&&◌, ◌||◌, List, [], ◌∷◌,
}
use sandbox_stack.Prelude.{
  ◌++◌, bit_and, bit_or, ltb, ◌==◌, if◌then◌else◌, Option, none, some, length, take,
}
use sandbox_stack.Prelude.{true, false}
use sandbox_stack.Prelude.Int.{ℤ, pos, negsuc}

-- `Buf`: the `len` bytes of `data`, and `cap`.
pub record Buf : Type 0 where
  pub bytes : List ℕ
  pub cap : ℕ

-- `buf_u8`. `realloc` is taken to succeed, as the source takes it.
unfoldable pub buf_u8 : Buf → ℕ → Buf
buf_u8 b v =
    let cap = if length b.bytes == b.cap then (if b.cap == 0 then 256 else b.cap * 2) else b.cap in
    record { bytes = b.bytes ++ ((v % 256) ∷ []); cap = cap }

-- `buf_bytes`
unfoldable pub buf_bytes : Buf → List ℕ → Buf
buf_bytes b [] = b
buf_bytes b (x ∷ xs) = buf_bytes (buf_u8 b x) xs

-- `buf_uleb`, with fuel for the `do` loop; `none` means that it ran out.
unfoldable pub buf_uleb : ℕ → Buf → ℕ → Option Buf
buf_uleb zero b v = none
buf_uleb (suc fuel) b v =
    let c = bit_and v 0x7f in
    let v' = v / 128 in
    let last = buf_u8 b c in
    let more = buf_uleb fuel (buf_u8 b (bit_or c 0x80)) v' in if v' == 0 then some last else more

-- `v & 0x7f` and `v >>= 7` on a two's complement integer.
abbrev pub low_group : ℤ → ℕ
low_group (pos n) = bit_and n 0x7f
low_group (negsuc n) = 127 - bit_and n 0x7f

abbrev pub shift_group : ℤ → ℤ
shift_group (pos n) = pos (n / 128)
shift_group (negsuc n) = negsuc (n / 128)

abbrev pub is_zero : ℤ → Bool
is_zero (pos n) = n == 0
is_zero (negsuc n) = false

abbrev pub is_minus_one : ℤ → Bool
is_minus_one (pos n) = false
is_minus_one (negsuc n) = n == 0

-- `buf_sleb`
unfoldable pub buf_sleb : ℕ → Buf → ℤ → Option Buf
buf_sleb zero b v = none
buf_sleb (suc fuel) b v =
    let c = low_group v in
    let v' = shift_group v in
    let sign = not (bit_and c 0x40 == 0) in
    let done = is_zero v' && not sign || is_minus_one v' && sign in
    let last = buf_u8 b c in
    let more = buf_sleb fuel (buf_u8 b (bit_or c 0x80)) v' in if done then some last else more

-- The `int n` that `buf_bytes` makes of a length: its loop has no round for a negative one.
abbrev pub rounds : ℕ → ℕ
rounds n = if ltb (n % 2 ^ 32) (2 ^ 31) then n % 2 ^ 32 else 0

-- `strlen` and `len` are passed on to `buf_uleb`, in 10 rounds at most.
abbrev prefixed : Option Buf → List ℕ → Option Buf
prefixed none xs = none
prefixed (some b) xs = some (buf_bytes b (take (rounds (length xs)) xs))

-- `buf_name`, on the bytes of the string
unfoldable pub buf_name : Buf → List ℕ → Option Buf
unfolding buf_uleb buf_bytes
buf_name b s = prefixed (buf_uleb 10 b (length s)) s

-- `buf_section` and `buf_buf`, for a content shorter than 2^31 bytes, whose `len` an int holds
unfoldable pub buf_section : Buf → ℕ → Buf → Option Buf
unfolding buf_uleb buf_bytes buf_u8
buf_section out id content =
    prefixed (buf_uleb 10 (buf_u8 out id) (length content.bytes)) content.bytes
