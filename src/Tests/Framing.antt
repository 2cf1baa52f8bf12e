-- ===== src/Tests/Framing.antt =====
-- Names and sections between cc/codegen.c and w2c2/reader.c.
use sandbox_stack.Prelude.{ℕ, ◌≡◌, refl, arith, List, [], ◌∷◌, ◌++◌, some}
use sandbox_stack.Cc.ByteBuf.{Buf, buf_name, buf_section, buf_uleb, buf_bytes, buf_u8}
use sandbox_stack.Cc.ByteBuf.Encode.{Appends}
use sandbox_stack.W2c2.Buffer.{read_byte}
use sandbox_stack.W2c2.Leb128.{read_u32, read_loop}
use sandbox_stack.W2c2.Reader.Parse.{ok, read_name, leb_u32, read_array}
use sandbox_stack.W2c2.Reader.Module.{Module}
use sandbox_stack.W2c2.Reader.Sections.{read_type_section}
use sandbox_stack.W2c2.Reader.File.{read_section}
use sandbox_stack.Wire.Framing.{read_name-buf_name, read_section-buf_section}
use sandbox_stack.Tests.Integers.{empty}
use sandbox_stack.Tests.Reader.{plenty, one_type}

-- "env"
abbrev env : List ℕ
env = 101 ∷ 110 ∷ 118 ∷ []

writes_name : buf_name empty env ≡ some (record { bytes = 3 ∷ env; cap = 256 })
unfolding buf_name buf_uleb buf_bytes buf_u8
writes_name = refl

read_name-buf_name_example :
    (xs : List ℕ) × Appends empty xs (buf_name empty env)
    × ((more : List ℕ) → read_name plenty (xs ++ more) ≡ some (env, more))
read_name-buf_name_example = read_name-buf_name plenty empty env (omega arith) (omega arith) refl

-- The content of a type section without types.
abbrev no_entries : Buf
no_entries = record { bytes = 0 ∷ []; cap = 256 }

abbrev typeless : Module
typeless = record one_type { function_types = [] }

reads_no_entries :
    (more : List ℕ) → read_type_section plenty 1 one_type (0 ∷ more) ≡ ok typeless more
unfolding read_type_section leb_u32 read_u32 read_loop read_byte read_array
reads_no_entries more = refl

read_section-buf_section_example :
    (xs : List ℕ) × Appends empty xs (buf_section empty 1 no_entries)
    × ((more : List ℕ) → read_section plenty one_type (xs ++ more) ≡ ok typeless more)
read_section-buf_section_example =
    read_section-buf_section plenty one_type typeless empty 1 no_entries (read_type_section plenty)
      (omega arith) (omega arith) (omega arith) refl reads_no_entries
