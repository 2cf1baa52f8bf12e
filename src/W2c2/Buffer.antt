-- ===== src/W2c2/Buffer.antt =====
-- The reader's cursor of w2c2/buffer.h. A `Buffer` is the bytes from `data` on, `length` of them, so a
-- function that advances it returns the bytes that are left.
use sandbox_stack.Prelude.{ℕ, Bool, true, false}
use sandbox_stack.Prelude.{List, [], ◌∷◌, Option, none, some, ltb, leb, ◌==◌, if◌then◌else◌}
use sandbox_stack.Prelude.{length, take, drop, ◌&&◌}
use sandbox_stack.Bytes.{number_of}

abbrev pub Buffer : Type 0
Buffer = List ℕ

-- `bufferSkipUnchecked`, where the buffer has `n` bytes: every call stands behind a test of the length,
-- but for the one that `take_unchecked` models, where more bytes are a fault.
unfoldable pub skip_unchecked : Buffer → ℕ → Buffer
skip_unchecked b n = drop n b

-- `memcmp(buffer->data, data, length) != 0`
abbrev pub same_bytes : List ℕ → List ℕ → Bool
same_bytes [] [] = true
same_bytes [] (y ∷ ys) = false
same_bytes (x ∷ xs) [] = false
same_bytes (x ∷ xs) (y ∷ ys) = x == y && same_bytes xs ys

-- `bufferReadEqual`; `none` is `false`, with the buffer unchanged.
unfoldable pub read_equal : Buffer → List ℕ → Option Buffer
unfolding skip_unchecked
read_equal b expected =
    if ltb (length b) (length expected)
    then none
    else if same_bytes (take (length expected) b) expected
    then some (skip_unchecked b (length expected))
    else none

-- `bufferReadByte`
unfoldable pub read_byte : Buffer → Option (ℕ × Buffer)
read_byte [] = none
read_byte (x ∷ b) = some (x, b)

-- `bufferReadF32` and `bufferReadF64` on a little-endian host: the bit pattern.
unfoldable pub read_f32 : Buffer → Option (ℕ × Buffer)
unfolding skip_unchecked
read_f32 b = if ltb (length b) 4 then none else some (number_of (take 4 b), skip_unchecked b 4)

unfoldable pub read_f64 : Buffer → Option (ℕ × Buffer)
unfolding skip_unchecked
read_f64 b = if ltb (length b) 8 then none else some (number_of (take 8 b), skip_unchecked b 8)

-- `bufferAtEnd`
unfoldable pub at_end : Buffer → Bool
at_end b = leb (length b) 0

-- `bufferSkip`
unfoldable pub skip : Buffer → ℕ → Buffer
unfolding skip_unchecked
skip b n = skip_unchecked b (if ltb (length b) n then length b else n)
