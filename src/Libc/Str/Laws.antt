-- ===== src/Libc/Str/Laws.antt =====
-- The string functions of libc/libc.c on C strings.
use sandbox_stack.Prelude.{
  ℕ, zero, suc, ◌+◌, ◌-◌, ◌<◌, ◌≡◌, ◌≢◌, ◌⊎◌, inl, inr, refl, ap, ap₂, sym, ◌∙◌, arith,
}
use sandbox_stack.Prelude.{
  List, [], ◌∷◌, some, length, ◌==◌, if◌then◌else◌, true, false, ltb, Bool-cases,
}
use sandbox_stack.Prelude.Int.{ℤ, pos, minus}
use sandbox_stack.Bytes.{Store, update, memcpy_out}
use sandbox_stack.Bytes.Laws.{inside}
use sandbox_stack.Libc.Str.{difference, memcmp, strlen_loop, strlen, strcmp, strcpy}
use native.Mathlib.Decide.{ℕ_discrete}

-- The store has this C string at the address: bytes that are not 0, and a 0 behind them.
abbrev pub HasString : Store → ℕ → List ℕ → Type 0
HasString c p [] = c p ≡ 0
HasString c p (x ∷ xs) = (c p ≡ x) × (0 < x) × HasString c (p + 1) xs

strlen_loop_lem :
    (xs : List ℕ) (fuel p n : ℕ) (c : Store)
    → HasString c p xs
    → length xs < fuel
    → strlen_loop fuel p n c ≡ some (n + length xs)
unfolding strlen_loop
strlen_loop_lem xs zero p n c h k = absurd (omega arith)
strlen_loop_lem [] (suc fuel) p n c h k = rw h (ap some (omega arith))
strlen_loop_lem (x ∷ xs) (suc fuel) p n c h k =
    let going : (x == 0) ≡ false = ground arith in
    rw (h.0, going)
      (strlen_loop_lem xs fuel (p + 1) (n + 1) c h.2 (omega arith) ∙ ap some (omega arith))

-- `strlen` of a C string ends and returns its length, in as many rounds and one.
pub strlen_lem :
    (xs : List ℕ) (fuel s : ℕ) (c : Store)
    → HasString c s xs
    → length xs < fuel
    → strlen fuel s c ≡ some (length xs)
unfolding strlen
strlen_lem xs fuel s c h k = strlen_loop_lem xs fuel s 0 c h k ∙ ap some (omega arith)

minus-≢ : (n : ℕ) → 0 < n → minus n ≢ pos 0
minus-≢ zero h e = absurd (omega arith)
minus-≢ (suc n) h e = absurd (cc)

pos-≢ : (n : ℕ) → 0 < n → pos n ≢ pos 0
pos-≢ n h e = let same : n ≡ 0 = cc in omega arith

difference-≢ : (a b : ℕ) → a ≢ b → difference a b ≢ pos 0
unfolding difference
difference-≢ a b h e = elim (Bool-cases (ltb a b)) [
  | inl less ↦ minus-≢ (b - a) (ground arith) (rw less at e)
  | inr more ↦ pos-≢ (a - b) (ground arith) (rw more at e)
]

-- `memcmp` returns 0 exactly if the two ranges hold the same bytes, and the difference of the first two bytes
-- that differ otherwise.
pub memcmp_lem :
    (n x y : ℕ) (c : Store)
    → (memcmp n x y c ≡ pos 0) × (memcpy_out x n c ≡ memcpy_out y n c)
      ⊎ ((k : ℕ) × (k < n)
          × (memcpy_out x k c ≡ memcpy_out y k c)
          × (c (x + k) ≢ c (y + k))
          × (memcmp n x y c ≡ difference (c (x + k)) (c (y + k)))
          × (memcmp n x y c ≢ pos 0))
unfolding memcmp memcpy_out
memcmp_lem zero x y c = inl (refl, refl)
memcmp_lem (suc n) x y c = elim (ℕ_discrete (c x) (c y)) [
  | no other ↦
      let e : (c x == c y) ≡ false = ground arith in
      let at : x + 0 ≡ x = omega arith in
      let at' : y + 0 ≡ y = omega arith in
      inr (
        0,
        omega arith,
        refl,
        rw (at, at') other,
        rw (at, at', e) refl,
        rw e (difference-≢ (c x) (c y) other),
      )
  | yes same ↦
      let e : (c x == c y) ≡ true = ground arith in
      elim (memcmp_lem n (x + 1) (y + 1) c) [
        | inl (none_differ, equal) ↦ inl (rw e none_differ, ap₂ ◌∷◌ same equal)
        | inr (k, below, equal, other, result, nonzero) ↦
            let at : x + suc k ≡ x + 1 + k = omega arith in
            let at' : y + suc k ≡ y + 1 + k = omega arith in
            inr (
              suc k,
              omega arith,
              ap₂ ◌∷◌ same equal,
              rw (at, at') other,
              rw (e, at, at') result,
              rw e nonzero,
            )
      ]
]

strcmp_step :
    (fuel a b : ℕ) (c : Store)
    → 0 < c a
    → c a ≡ c b
    → strcmp (suc fuel) a b c ≡ strcmp fuel (a + 1) (b + 1) c
unfolding strcmp
strcmp_step fuel a b c h e = ground arith

strcmp_end :
    (fuel a b : ℕ) (c : Store)
    → c a ≢ c b
    → (z : ℤ) × (strcmp (suc fuel) a b c ≡ some z) × (z ≢ pos 0)
unfolding strcmp
strcmp_end fuel a b c other = (difference (c a) (c b), ground arith, difference-≢ (c a) (c b) other)

-- `strcmp` of two C strings ends, in as many rounds as the first has bytes and one, and returns 0
-- exactly if they are the same string.
pub strcmp_lem :
    (xs ys : List ℕ) (fuel a b : ℕ) (c : Store)
    → HasString c a xs
    → HasString c b ys
    → length xs < fuel
    → (xs ≡ ys) × (strcmp fuel a b c ≡ some (pos 0))
      ⊎ (xs ≢ ys) × ((z : ℤ) × (strcmp fuel a b c ≡ some z) × (z ≢ pos 0))
strcmp_lem xs ys zero a b c h k f = absurd (omega arith)
strcmp_lem [] [] (suc fuel) a b c h k f = inl (refl, unfold strcmp difference in rw (h, k) refl)
strcmp_lem [] (y ∷ ys) (suc fuel) a b c h k f =
    inr ((λ e. absurd (cc)), strcmp_end fuel a b c (λ e. omega (arith, h, k.0, k.1, e)))
strcmp_lem (x ∷ xs) [] (suc fuel) a b c h k f =
    inr ((λ e. absurd (cc)), strcmp_end fuel a b c (λ e. omega (arith, k, h.0, h.1, e)))
strcmp_lem (x ∷ xs) (y ∷ ys) (suc fuel) a b c h k f = elim (ℕ_discrete x y) [
  | no other ↦ inr (
    (λ e. other (let same : x ≡ y = cc in same)),
    strcmp_end fuel a b c (λ e. other (sym h.0 ∙ e ∙ k.0)),
  )
  | yes same ↦
      let step = strcmp_step fuel a b c (omega (arith, h.0, h.1)) (h.0 ∙ same ∙ sym k.0) in
      elim (strcmp_lem xs ys fuel (a + 1) (b + 1) c h.2 k.2 (omega arith)) [
        | inl (equal, e) ↦ inl (ap₂ ◌∷◌ same equal, step ∙ e)
        | inr (differ, (z, e, nonzero)) ↦
            inr ((λ e'. differ (let tails : xs ≡ ys = cc in tails)), (z, step ∙ e, nonzero))
      ]
]

-- A write in front of a string does not change it.
string_behind :
    (xs : List ℕ) (c : Store) (p d v : ℕ)
    → (d < p) ⊎ (p + length xs < d)
    → HasString c p xs
    → HasString (update c d v) p xs
unfolding update
string_behind [] c p d v apart h = ground arith
string_behind (x ∷ xs) c p d v apart h =
    (ground (arith, h.0), h.1, string_behind xs c (p + 1) d v (ground arith) h.2)

-- `strcpy` of a C string to a place that does not overlap it ends, in as many rounds as the string has bytes and
-- one: the copy is there, and only its bytes have changed.
pub strcpy_lem :
    (xs : List ℕ) (fuel d s : ℕ) (c : Store)
    → HasString c s xs
    → (d + length xs < s) ⊎ (s + length xs < d)
    → length xs < fuel
    → (c' : Store) × (strcpy fuel d s c ≡ some c')
      × HasString c' d xs
      × ((j : ℕ) → c' j ≡ (if inside d (length xs + 1) j then c' j else c j))
unfolding strcpy update
strcpy_lem xs zero d s c h apart f = absurd (omega arith)
strcpy_lem [] (suc fuel) d s c h apart f =
    (update c d (c s), rw h refl, ground arith, λ j. ground arith)
strcpy_lem (x ∷ xs) (suc fuel) d s c h apart f =
    let going : (c s == 0) ≡ false = ground (arith, h.0, h.1) in
    let kept = string_behind xs c (s + 1) d (c s) (ground arith) h.2 in
    let (c', e, has, frame) =
      strcpy_lem xs fuel (d + 1) (s + 1) (update c d (c s)) kept (ground arith) (omega arith) in
    (c', rw going e, (ground (arith, frame d, h.0), h.1, has), λ j. ground (arith, frame j))
