-- ===== src/Tests/Runtime.antt =====
-- The tables and the divisions of rt/w2c2_base.h.
use sandbox_stack.Prelude.{
  ◌%◌, ℕ, ◌+◌, ◌*◌, ◌-◌, ◌^◌, ◌≤◌, ◌<◌, ◌≡◌, ◌≢◌, ◌⊎◌, refl, arith, true, false,
}
use sandbox_stack.Prelude.{none, some, if◌then◌else◌, ◌==◌}
use sandbox_stack.Prelude.Int.{quot, rem}
use sandbox_stack.Runtime.{done, trapped, allocation_failed, out_of_bounds_table, null_function}
use sandbox_stack.Runtime.{indirect_call_type_mismatch, div_by_zero, int_overflow}
use sandbox_stack.Runtime.Table.{Table, TableArena, table_allocate, table_get, IsValid}
use sandbox_stack.Runtime.Table.{table_allocate_lem, table_get_lem}
use sandbox_stack.Runtime.Arith.{signed_of, div_s, rem_s, divide_signed, remainder_signed}
use sandbox_stack.Runtime.Arith.{rotl, rotr, i32_rotl, i32_rotr}
use sandbox_stack.Runtime.Arith.Rotate.{turned, i32_rotl_lem}
use sandbox_stack.Runtime.Arith.Divide.{div_s_lem}

abbrev detached : Table
detached = record { attached = false; size = 0; max_size = 0 }

abbrev three : Table
three = record { attached = true; size = 3; max_size = 4 }

-- The entry 1 is null; the function at `i` is `100 + i` and has the type `i`.
abbrev entries : TableArena
entries = record {
  funcs = λ i. if i == 1 then none else some (100 + i);
  types = λ i. i;
  arena_size = 4;
}

three-IsValid : IsValid three entries
three-IsValid = record { attached = refl; below_max = omega arith; in_arena = omega arith }

gets :
    (table_get three entries 2 2 ≡ done 102) × (table_get three entries 1 1 ≡ trapped null_function)
unfolding table_get
gets = (refl, refl)

table_allocate_lem_example :
    ((3 ≤ 9)
      × (3 ≤ 4)
      × ((u : Table) × (table_allocate detached entries 3 9 ≡ done u)
          × IsValid u entries
          × (u.size ≡ 3)
          × (u.max_size ≤ 9)))
    ⊎ ((9 < 3) ⊎ (4 < 3)) × (table_allocate detached entries 3 9 ≡ trapped allocation_failed)
table_allocate_lem_example = table_allocate_lem detached entries 3 9 refl

table_get_lem_example :
    ((f : ℕ) × (table_get three entries 2 5 ≡ done f)
      × (2 < 3)
      × (entries.funcs 2 ≡ some f)
      × (entries.types 2 ≡ 5))
    ⊎ (3 ≤ 2) × (table_get three entries 2 5 ≡ trapped out_of_bounds_table)
    ⊎ (2 < 3) × (entries.funcs 2 ≡ none) × (table_get three entries 2 5 ≡ trapped null_function)
    ⊎ (2 < 3)
      × ((f : ℕ) × (entries.funcs 2 ≡ some f))
      × (entries.types 2 ≢ 5)
      × (table_get three entries 2 5 ≡ trapped indirect_call_type_mismatch)
table_get_lem_example = table_get_lem three entries 2 5 three-IsValid

-- -7 / 2 is -3 and -7 % 2 is -1.
divides :
    (div_s (2 ^ 31) (2 ^ 32 - 7) 2 ≡ done (2 ^ 32 - 3))
    × (rem_s (2 ^ 31) (2 ^ 32 - 7) 2 ≡ done (2 ^ 32 - 1))
unfolding div_s rem_s divide_signed remainder_signed quot rem
divides = (refl, refl)

abbrev half : ℕ
half = 2 ^ 31

abbrev minus_seven : ℕ
minus_seven = 2 ^ 32 - 7

abbrev two : ℕ
two = 2

div_s_lem_example :
    (two ≡ 0)
      × (div_s half minus_seven two ≡ trapped div_by_zero)
      × (rem_s half minus_seven two ≡ trapped div_by_zero)
    ⊎ (minus_seven ≡ half)
      × (two ≡ 2 * half - 1)
      × (div_s half minus_seven two ≡ trapped int_overflow)
      × (rem_s half minus_seven two ≡ done 0)
    ⊎ ((q r : ℕ) × (div_s half minus_seven two ≡ done q)
        × (rem_s half minus_seven two ≡ done r)
        × (signed_of half q ≡ quot (signed_of half minus_seven) (signed_of half two))
        × (signed_of half r ≡ rem (signed_of half minus_seven) (signed_of half two)))
div_s_lem_example = div_s_lem half minus_seven two (omega arith) (omega arith) (omega arith)

rotates : (i32_rotl 0x80000001 36 ≡ 0x18) × (i32_rotr 0x18 4 ≡ 0x80000001)
unfolding i32_rotl i32_rotr rotl rotr
rotates = (refl, refl)

i32_rotl_lem_example :
    (i32_rotl 0x80000001 36 ≡ turned 32 (36 % 32) 0x80000001)
    × (i32_rotr 0x80000001 36 ≡ turned 32 ((32 - 36 % 32) % 32) 0x80000001)
    × (i32_rotr (i32_rotl 0x80000001 36) 36 ≡ 0x80000001)
i32_rotl_lem_example = i32_rotl_lem 0x80000001 36 (omega arith) (omega arith)
