-- ===== src/Tests/Count.antt =====
-- The counts of zeros of rt/w2c2_base.h.
use sandbox_stack.Prelude.{ℕ, ◌+◌, ◌*◌, ◌^◌, ◌≤◌, ◌<◌, ◌≡◌, ◌⊎◌, refl, arith, some}
use sandbox_stack.Runtime.Arith.{clz_loop, clz, ctz_loop, ctz}
use sandbox_stack.Runtime.Arith.Count.{clz_lem, ctz_lem}

counts : (clz 31 0x00012000 ≡ some 15) × (ctz 32 0x00012000 ≡ some 13) × (ctz 64 0 ≡ some 64)
unfolding clz clz_loop ctz ctz_loop
counts = (refl, refl, refl)

abbrev word : ℕ
word = 0x00012000

clz_lem_example :
    (word ≡ 0) × (clz 31 word ≡ some 32)
    ⊎ ((n : ℕ) × (clz 31 word ≡ some n)
        × (n < 32)
        × (2 ^ 31 ≤ word * 2 ^ n)
        × (word * 2 ^ n < 2 ^ 32))
clz_lem_example = clz_lem 31 word (omega arith)

ctz_lem_example :
    (word ≡ 0) × (ctz 32 word ≡ some 32)
    ⊎ ((n q : ℕ) × (ctz 32 word ≡ some n) × (n < 32) × (word ≡ (2 * q + 1) * 2 ^ n))
ctz_lem_example = ctz_lem 32 word (omega arith)
