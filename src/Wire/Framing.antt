-- ===== src/Wire/Framing.antt =====
-- Names and sections that cc/codegen.c writes, as w2c2/reader.c reads them.
use sandbox_stack.Prelude.{ℕ, ◌+◌, ◌-◌, ◌%◌, ◌^◌, ◌<◌, ◌≤◌, ◌≡◌, refl, ap, ◌∙◌, arith}
use sandbox_stack.Prelude.{List, [], ◌∷◌, ◌++◌, none, some, length, All, take, drop}
use sandbox_stack.Prelude.{
  true, false, ltb, ◌==◌, if◌then◌else◌, get_elem?, length-append, not_lt→ltb,
}
use sandbox_stack.Groups.{unsigned_groups, length-unsigned_groups}
use sandbox_stack.Cc.ByteBuf.{Buf, buf_name, buf_section}
use sandbox_stack.Cc.ByteBuf.Encode.{Appends}
use sandbox_stack.Cc.ByteBuf.Prefixed.{IsByte, Appends-buf_name, Appends-buf_section}
use sandbox_stack.W2c2.Buffer.{Buffer, read_byte, skip_unchecked}
use sandbox_stack.Wire.{read_u32-groups}
use sandbox_stack.W2c2.Leb128.{Decoded, read_u32}
use sandbox_stack.W2c2.Reader.Parse.{ok, Allocator, characters, leb_u32, c_string, read_name}
use sandbox_stack.W2c2.Reader.Module.{Module}
use sandbox_stack.W2c2.Reader.File.{SectionReader, section_readers, read_section}
use mathlib.Core.List.{append_assoc}

-- The groups of a length below 2^32, as the reader's calls of `leb128ReadU32` read them.
leb_u32-groups :
    (v : ℕ) (more : Buffer) → v < 2 ^ 32 → leb_u32 (unsigned_groups 4 v ++ more) ≡ some (v, more)
unfolding leb_u32 read_u32
leb_u32-groups v more h =
    let some_bytes : (length (unsigned_groups 4 v) == 0) ≡ false =
      ground (arith, length-unsigned_groups 4 v) in
    ap (λ (d : Decoded). if d.count == 0 then none else some (d.result, d.rest))
      (read_u32-groups v more h)
    ∙ rw some_bytes refl

take-length : (xs ys : List ℕ) → take (length xs) (xs ++ ys) ≡ xs
take-length [] ys = refl
take-length (x ∷ xs) ys = ap (λ t. x ∷ t) (take-length xs ys)

drop-length : (xs ys : List ℕ) → drop (length xs) (xs ++ ys) ≡ ys
drop-length [] ys = refl
drop-length (x ∷ xs) ys = drop-length xs ys

-- A byte of a C string before its end.
abbrev pub IsCharacter : ℕ → Type 0
IsCharacter x = (0 < x) × (x < 256)

c_string_whole : (s : List ℕ) → All IsCharacter s → c_string s ≡ s
unfolding c_string
c_string_whole [] h = refl
c_string_whole (x ∷ s) h = ground (arith, ap (λ t. x ∷ t) (c_string_whole s h.1))

characters-bytes : (s : List ℕ) → All IsCharacter s → All IsByte s
characters-bytes [] h = tt
characters-bytes (x ∷ s) h = (h.0.1, characters-bytes s h.1)

-- A C string that `buf_name` writes, to a buffer that stays below 2^30 bytes, is read back by
-- `wasmReadName`, whatever follows it, if there is memory for it.
pub read_name-buf_name :
    (alloc : Allocator) (b : Buf) (s : List ℕ)
    → length b.bytes + length s + 5 ≤ 2 ^ 30
    → All IsCharacter s
    → alloc characters (length s + 1) ≡ true
    → (xs : List ℕ) × Appends b xs (buf_name b s)
      × ((more : List ℕ) → read_name alloc (xs ++ more) ≡ some (s, more))
unfolding read_name skip_unchecked
read_name-buf_name alloc b s short chars room = (
  unsigned_groups 4 (length s) ++ s,
  Appends-buf_name b s (omega arith) (characters-bytes s chars),
  λ more.
      let there : ltb (length (s ++ more)) (length s) ≡ false =
        not_lt→ltb _ _ (λ h. omega (arith, length-append s more, h)) in
      let fits : (length s + 1) % 2 ^ 32 ≡ length s + 1 = omega arith in
      let split : (unsigned_groups 4 (length s) ++ s) ++ more
          ≡ unsigned_groups 4 (length s) ++ (s ++ more) =
        append_assoc (unsigned_groups 4 (length s)) s more in
      rw
        (
          split,
          leb_u32-groups (length s) (s ++ more) (omega arith),
          there,
          fits,
          room,
          take-length s more,
          drop-length s more,
          c_string_whole s chars,
        )
        refl,
)

-- A section that `buf_section` writes is read back by `wasmModuleReadSection`, whatever follows it, if
-- the table has a reader for it that reads exactly its content.
pub read_section-buf_section :
    (alloc : Allocator) (m m' : Module) (out : Buf) (id : ℕ) (content : Buf) (r : SectionReader)
    → IsByte id
    → length content.bytes < 2 ^ 31
    → All IsByte content.bytes
    → get_elem? (section_readers alloc) id ≡ some r
    → ((more : List ℕ) → r (length content.bytes) m (content.bytes ++ more) ≡ ok m' more)
    → (xs : List ℕ) × Appends out xs (buf_section out id content)
      × ((more : List ℕ) → read_section alloc m (xs ++ more) ≡ ok m' more)
unfolding read_section read_byte
read_section-buf_section alloc m m' out id content r small short bytes entry reads = (
  id ∷ unsigned_groups 4 (length content.bytes) ++ content.bytes,
  Appends-buf_section out id content small (omega arith) bytes,
  λ more.
      let xs = content.bytes in
      let split : (unsigned_groups 4 (length xs) ++ xs) ++ more
          ≡ unsigned_groups 4 (length xs) ++ (xs ++ more) =
        append_assoc (unsigned_groups 4 (length xs)) xs more in
      let same : (length (xs ++ more) - length more == length xs) ≡ true =
        ground (arith, length-append xs more) in
      rw (split, leb_u32-groups (length xs) (xs ++ more) (omega arith), entry, reads more, same)
        refl,
)
