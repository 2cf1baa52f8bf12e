-- ===== src/Bytes.antt =====
-- The byte loops of host/main.c (`memcpy`, `memmove`, `memset`) on a flat store of bytes.
-- A pointer is an address in the store. A copy from another object is a list of bytes.
pub mod Laws
use sandbox_stack.Prelude.{ℕ, zero, suc, ◌+◌, ◌*◌, ◌/◌, ◌%◌, Bool, List, [], ◌∷◌}
use sandbox_stack.Prelude.{ltb, ◌==◌, if◌then◌else◌}

-- The contents of a byte object, by address.
abbrev pub Store : Type 0
Store = ℕ → ℕ

-- `*x = v`
unfoldable pub update : Store → ℕ → ℕ → Store
update c x v j = if j == x then v else c j

-- `while (n--) *x++ = *y++;`
unfoldable pub copy_forward : ℕ → ℕ → ℕ → Store → Store
copy_forward zero x y c = c
copy_forward (suc n) x y c = copy_forward n (x + 1) (y + 1) (update c x (c y))

-- `x += n; y += n; while (n--) *--x = *--y;`, with the pointers before the first addition.
unfoldable pub copy_backward : ℕ → ℕ → ℕ → Store → Store
copy_backward zero x y c = c
copy_backward (suc n) x y c = copy_backward n x y (update c (x + n) (c (y + n)))

unfoldable pub memmove : ℕ → ℕ → ℕ → Store → Store
unfolding copy_forward copy_backward
memmove d s n c = if ltb d s then copy_forward n d s c else copy_backward n d s c

-- `while (n--) *x++ = (U8)c;`
unfoldable pub memset : ℕ → ℕ → ℕ → Store → Store
memset x v zero c = c
memset x v (suc n) c = memset (x + 1) v n (update c x (v % 256))

-- `memcpy` into the store, from an object whose bytes are the list.
unfoldable pub memcpy_in : ℕ → List ℕ → Store → Store
memcpy_in x [] c = c
memcpy_in x (b ∷ bs) c = memcpy_in (x + 1) bs (update c x b)

-- `memcpy` of `n` bytes out of the store, into another object.
unfoldable pub memcpy_out : ℕ → ℕ → Store → List ℕ
memcpy_out y zero c = []
memcpy_out y (suc n) c = c y ∷ memcpy_out (y + 1) n c

-- The bytes of an unsigned object on a little-endian host, and the number that they stand for.
unfoldable pub bytes_of : ℕ → ℕ → List ℕ
bytes_of zero w = []
bytes_of (suc n) w = (w % 256) ∷ bytes_of n (w / 256)

unfoldable pub number_of : List ℕ → ℕ
number_of [] = 0
number_of (b ∷ bs) = b + 256 * number_of bs
