-- ===== src/Groups.antt =====
-- LEB128 in plain arithmetic: groups of seven bits, lowest first, with 128 added to all but the last.
-- cc/codegen.c writes this format and w2c2/leb128.h reads it.
use sandbox_stack.Prelude.{ℕ, zero, suc, ◌+◌, ◌-◌, ◌/◌, ◌%◌, ◌≤◌, List, [], ◌∷◌, length, arith}
use sandbox_stack.Prelude.{ltb, if◌then◌else◌}

-- An unsigned number in at most `k + 1` groups.
unfoldable pub unsigned_groups : ℕ → ℕ → List ℕ
unsigned_groups zero v = v ∷ []
unsigned_groups (suc k) v =
    let rest = unsigned_groups k (v / 128) in if ltb v 128 then v ∷ [] else (v % 128 + 128) ∷ rest

-- The signed number `n`: its last group leaves bit 6 clear.
unfoldable pub positive_groups : ℕ → ℕ → List ℕ
positive_groups zero n = n ∷ []
positive_groups (suc k) n =
    let rest = positive_groups k (n / 128) in if ltb n 64 then n ∷ [] else (n % 128 + 128) ∷ rest

-- The signed number `-(n + 1)`: its last group has bit 6 set.
unfoldable pub negative_groups : ℕ → ℕ → List ℕ
negative_groups zero n = (127 - n) ∷ []
negative_groups (suc k) n =
    let rest = negative_groups k (n / 128) in
    if ltb n 64 then (127 - n) ∷ [] else (255 - n % 128) ∷ rest

pub length-unsigned_groups :
    (k v : ℕ) → (1 ≤ length (unsigned_groups k v)) × (length (unsigned_groups k v) ≤ k + 1)
unfolding unsigned_groups
length-unsigned_groups zero v = omega arith
length-unsigned_groups (suc k) v = ground (arith, length-unsigned_groups k (v / 128))
