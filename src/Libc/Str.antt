-- ===== src/Libc/Str.antt =====
-- The string functions of libc/libc.c on a store of bytes. A loop that ends at a byte has fuel, and
-- `none` means that it ran out.
pub mod Laws
use sandbox_stack.Prelude.{
  ℕ, zero, suc, ◌+◌, ◌-◌, ◌&&◌, not, Option, none, some, ltb, ◌==◌, if◌then◌else◌,
}
use sandbox_stack.Prelude.Int.{ℤ, pos, minus}
use sandbox_stack.Bytes.{Store, update}

-- The `int` difference of two bytes.
unfoldable pub difference : ℕ → ℕ → ℤ
difference a b = if ltb a b then minus (b - a) else pos (a - b)

-- `memcmp`
unfoldable pub memcmp : ℕ → ℕ → ℕ → Store → ℤ
unfolding difference
memcmp zero x y c = pos 0
memcmp (suc n) x y c =
    let rest = memcmp n (x + 1) (y + 1) c in if c x == c y then rest else difference (c x) (c y)

-- `while (*p) p++;`, and the count of the rounds
unfoldable pub strlen_loop : ℕ → ℕ → ℕ → Store → Option ℕ
strlen_loop zero p n c = none
strlen_loop (suc fuel) p n c =
    let rest = strlen_loop fuel (p + 1) (n + 1) c in if c p == 0 then some n else rest

-- `strlen`
unfoldable pub strlen : ℕ → ℕ → Store → Option ℕ
unfolding strlen_loop
strlen fuel s c = strlen_loop fuel s 0 c

-- `strcmp`
unfoldable pub strcmp : ℕ → ℕ → ℕ → Store → Option ℤ
unfolding difference
strcmp zero a b c = none
strcmp (suc fuel) a b c =
    let rest = strcmp fuel (a + 1) (b + 1) c in
    if not (c a == 0) && c a == c b then rest else some (difference (c a) (c b))

-- `strcpy`, and the store that it leaves
unfoldable pub strcpy : ℕ → ℕ → ℕ → Store → Option Store
unfolding update
strcpy zero d s c = none
strcpy (suc fuel) d s c =
    let copied = update c d (c s) in
    let rest = strcpy fuel (d + 1) (s + 1) copied in if c s == 0 then some copied else rest
