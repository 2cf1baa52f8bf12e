-- ===== src/W2c2/Reader/Sections/Skip.antt =====
-- Moves of the section readers of w2c2/reader.c over bytes that they do not look at.
use sandbox_stack.Prelude.{ℕ, ◌+◌, ◌-◌, ◌^◌, ◌%◌, List}
use sandbox_stack.Prelude.{length, take, ltb, if◌then◌else◌}
use sandbox_stack.W2c2.Buffer.{skip, skip_unchecked}
use sandbox_stack.W2c2.Reader.Parse.{ok, fault, Parser}

-- `reader->buffer.length`, and the next bytes
abbrev pub remaining : Parser ℕ
remaining b = ok (length b) b

abbrev pub peek : ℕ → Parser (List ℕ)
peek n b = ok (take n b) b

-- `(U32)` subtraction
abbrev pub sub32 : ℕ → ℕ → ℕ
sub32 a b = (a + 2 ^ 32 - b % 2 ^ 32) % 2 ^ 32

-- `bufferSkip`
abbrev pub skipped : ℕ → Parser (Unit {0})
skipped n b = ok tt (skip b n)

-- The next `n` bytes by `bufferSkipUnchecked`
unfoldable pub take_unchecked : ℕ → Parser (List ℕ)
unfolding skip_unchecked
take_unchecked n b = if ltb (length b) n then fault else ok (take n b) (skip_unchecked b n)
