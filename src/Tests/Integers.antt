-- ===== src/Tests/Integers.antt =====
-- LEB128 integers between cc/codegen.c and w2c2/leb128.h.
use sandbox_stack.Prelude.{ℕ, ◌-◌, ◌^◌, ◌≡◌, refl, arith, List, [], ◌∷◌, some}
use sandbox_stack.Prelude.Int.{negsuc}
use sandbox_stack.Cc.ByteBuf.{Buf, buf_uleb, buf_sleb, buf_u8}
use sandbox_stack.W2c2.Leb128.{read_u32, read_i32, read_i64, read_loop, sign_extend}
use sandbox_stack.W2c2.Buffer.{read_byte}
use sandbox_stack.Wire.{Crosses, u32-Crosses, i32-Crosses, i64-Crosses}

abbrev pub empty : Buf
empty = record { bytes = []; cap = 0 }

abbrev written : List ℕ
written = 0xe5 ∷ 0x8e ∷ 0x26 ∷ []

writes : buf_uleb 5 empty 624485 ≡ some (record { bytes = written; cap = 256 })
unfolding buf_uleb buf_u8
writes = refl

reads : (read_u32 written).result ≡ 624485
unfolding read_u32 read_loop read_byte
reads = refl

reads_signed : (read_i32 (0x7f ∷ [])).result ≡ 2 ^ 32 - 1
unfolding read_i32 read_loop read_byte sign_extend
reads_signed = refl

u32-Crosses_example : Crosses empty (buf_uleb 5 empty 624485) read_u32 624485
u32-Crosses_example = u32-Crosses empty 624485 (omega arith)

i32-Crosses_example : Crosses empty (buf_sleb 5 empty (negsuc 128)) read_i32 (2 ^ 32 - 129)
i32-Crosses_example = i32-Crosses empty (negsuc 128) (omega arith)

i64-Crosses_example : Crosses empty (buf_sleb 10 empty (negsuc 128)) read_i64 (2 ^ 64 - 129)
i64-Crosses_example = i64-Crosses empty (negsuc 128) (omega arith)
