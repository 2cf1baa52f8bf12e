-- ===== src/W2c2/Leb128.antt =====
-- The LEB128 decoders of w2c2/leb128.h. The four functions share the loop but for its constants.
pub mod Laws
pub mod Signed
use sandbox_stack.Prelude.{ℕ, zero, suc, ◌+◌, ◌-◌, ◌*◌, ◌%◌, ◌^◌, Bool, not, ◌&&◌, List, [], ◌∷◌}
use sandbox_stack.Prelude.{bit_and, bit_or, ltb, ◌==◌, if◌then◌else◌, Option, none, some}
use sandbox_stack.W2c2.Buffer.{Buffer, read_byte}

-- The loop's variables, and the buffer behind the bytes read.
pub record Reading : Type 0 where
  pub value : ℕ
  pub shift : ℕ
  pub count : ℕ
  pub byte : ℕ
  pub rest : Buffer

abbrev pub begin : Buffer → Reading
begin b = record { value = 0; shift = 0; count = 0; byte = 0; rest = b }

-- One round, on the byte read, for a type of `w` bits.
abbrev pub take_byte : ℕ → Reading → ℕ → Buffer → Reading
take_byte w r x b = record {
  value = bit_or r.value (bit_and x 0x7f * 2 ^ r.shift % 2 ^ w);
  shift = r.shift + 7;
  count = r.count + 1;
  byte = x;
  rest = b;
}

-- The `while` with `left` rounds until `count` reaches the maximum.
unfoldable pub read_loop : ℕ → ℕ → Reading → Reading
unfolding read_byte
read_loop w zero r = r
read_loop w (suc left) r = elim (read_byte r.rest) [
  | none ↦ r
  | some (x, b) ↦
      let more = read_loop w left (take_byte w r x b) in
      if bit_and x 0x80 == 0 then take_byte w r x b else more
]

-- `if ((shift < 8 * sizeof(T)) && (byte & 0x40)) value |= (T)(~(U)0 << shift);`
unfoldable pub sign_extend : ℕ → Reading → ℕ
sign_extend w r =
    if ltb r.shift w && not (bit_and r.byte 0x40 == 0)
    then bit_or r.value ((2 ^ w - 1) * 2 ^ r.shift % 2 ^ w)
    else r.value

-- What a decoder yields: the byte count that it returns, `*result` as a bit pattern, and the buffer.
pub record Decoded : Type 0 where
  pub count : ℕ
  pub result : ℕ
  pub rest : Buffer

-- `leb128ReadU32`
unfoldable pub read_u32 : Buffer → Decoded
unfolding read_loop
read_u32 b =
    let r = read_loop 32 5 (begin b) in record { count = r.count; result = r.value; rest = r.rest }

-- `leb128ReadI32`
unfoldable pub read_i32 : Buffer → Decoded
unfolding read_loop sign_extend
read_i32 b =
    let r = read_loop 32 5 (begin b) in
    record { count = r.count; result = sign_extend 32 r; rest = r.rest }

-- `leb128ReadU64`
unfoldable pub read_u64 : Buffer → Decoded
unfolding read_loop
read_u64 b =
    let r = read_loop 64 10 (begin b) in record { count = r.count; result = r.value; rest = r.rest }

-- `leb128ReadI64`
unfoldable pub read_i64 : Buffer → Decoded
unfolding read_loop sign_extend
read_i64 b =
    let r = read_loop 64 10 (begin b) in
    record { count = r.count; result = sign_extend 64 r; rest = r.rest }
