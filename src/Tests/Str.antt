-- ===== src/Tests/Str.antt =====
-- The string functions of libc/libc.c on two short strings.
use sandbox_stack.Prelude.{
  ℕ, ◌≡◌, ◌≢◌, ◌⊎◌, inr, refl, arith, List, [], ◌∷◌, some, get_or, if◌then◌else◌,
}
use sandbox_stack.Prelude.Int.{ℤ, pos, negsuc}
use sandbox_stack.Bytes.{Store}
use sandbox_stack.Bytes.Laws.{inside}
use sandbox_stack.Libc.Str.{difference, memcmp, strlen, strcmp, strcpy}
use sandbox_stack.Libc.Str.Laws.{HasString, strlen_lem, strcmp_lem, strcpy_lem}

-- "ab" at 0 and "ac" at 3
abbrev bytes : Store
bytes j = get_or (97 ∷ 98 ∷ 0 ∷ 97 ∷ 99 ∷ 0 ∷ []) j 0

abbrev ab : List ℕ
ab = 97 ∷ 98 ∷ []

abbrev ac : List ℕ
ac = 97 ∷ 99 ∷ []

ab-HasString : HasString bytes 0 ab
ab-HasString = (refl, omega arith, (refl, omega arith, refl))

ac-HasString : HasString bytes 3 ac
ac-HasString = (refl, omega arith, (refl, omega arith, refl))

compares : (strcmp 9 0 3 bytes ≡ some (negsuc 0)) × (memcmp 2 3 0 bytes ≡ pos 1)
unfolding strcmp memcmp difference
compares = (refl, refl)

strlen_lem_example : strlen 3 0 bytes ≡ some 2
strlen_lem_example = strlen_lem ab 3 0 bytes ab-HasString (omega arith)

strcmp_lem_example :
    (ab ≡ ac) × (strcmp 3 0 3 bytes ≡ some (pos 0))
    ⊎ (ab ≢ ac) × ((z : ℤ) × (strcmp 3 0 3 bytes ≡ some z) × (z ≢ pos 0))
strcmp_lem_example = strcmp_lem ab ac 3 0 3 bytes ab-HasString ac-HasString (omega arith)

strcpy_lem_example :
    (c' : Store) × (strcpy 3 10 3 bytes ≡ some c')
    × HasString c' 10 ac
    × ((j : ℕ) → c' j ≡ (if inside 10 3 j then c' j else bytes j))
strcpy_lem_example = strcpy_lem ac 3 10 3 bytes ac-HasString (inr (omega arith)) (omega arith)
