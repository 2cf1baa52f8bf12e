-- ===== src/Cc/Elf/Put.antt =====
-- What `put32` and `put64` of cc/asm.c leave in a section.
use sandbox_stack.Prelude.{ℕ, zero, suc, ◌+◌, ◌≤◌, ◌≡◌, refl, ap, arith}
use sandbox_stack.Prelude.{List, [], ◌∷◌, length, take, drop}
use sandbox_stack.Cc.Elf.{overwrite, put}

-- The `n` bytes from `k`.
abbrev pub field : ℕ → ℕ → List ℕ → List ℕ
field k n xs = take n (drop k xs)

take-overwrite : (bs xs : List ℕ) → length bs ≤ length xs → take (length bs) (overwrite bs xs) ≡ bs
unfolding overwrite
take-overwrite [] xs h = refl
take-overwrite (b ∷ bs) [] h = absurd (omega arith)
take-overwrite (b ∷ bs) (x ∷ xs) h = ap (λ t. b ∷ t) (take-overwrite bs xs (omega arith))

drop-overwrite : (bs xs : List ℕ) (k : ℕ) → length bs ≤ k → drop k (overwrite bs xs) ≡ drop k xs
unfolding overwrite
drop-overwrite [] xs k h = refl
drop-overwrite (b ∷ bs) [] zero h = refl
drop-overwrite (b ∷ bs) [] (suc k) h = refl
drop-overwrite (b ∷ bs) (x ∷ xs) zero h = absurd (omega arith)
drop-overwrite (b ∷ bs) (x ∷ xs) (suc k) h = drop-overwrite bs xs k (omega arith)

length-overwrite : (bs xs : List ℕ) → length (overwrite bs xs) ≡ length xs
unfolding overwrite
length-overwrite [] xs = refl
length-overwrite (b ∷ bs) [] = refl
length-overwrite (b ∷ bs) (x ∷ xs) = ap suc (length-overwrite bs xs)

pub length-put : (k : ℕ) (bs xs : List ℕ) → length (put k bs xs) ≡ length xs
unfolding put
length-put zero bs xs = length-overwrite bs xs
length-put (suc k) bs [] = refl
length-put (suc k) bs (x ∷ xs) = ap suc (length-put k bs xs)

pub field-put :
    (k : ℕ) (bs xs : List ℕ) → k + length bs ≤ length xs → field k (length bs) (put k bs xs) ≡ bs
unfolding put
field-put zero bs xs h = take-overwrite bs xs (omega arith)
field-put (suc k) bs [] h = absurd (omega arith)
field-put (suc k) bs (x ∷ xs) h = field-put k bs xs (omega arith)

-- Other fields keep their bytes.
pub drop-put :
    (k : ℕ) (bs xs : List ℕ) (i : ℕ) → k + length bs ≤ i → drop i (put k bs xs) ≡ drop i xs
unfolding put
drop-put zero bs xs i h = drop-overwrite bs xs i (omega arith)
drop-put (suc k) bs xs zero h = absurd (omega arith)
drop-put (suc k) bs [] (suc i) h = refl
drop-put (suc k) bs (x ∷ xs) (suc i) h = drop-put k bs xs i (omega arith)

take-put : (k : ℕ) (bs xs : List ℕ) (n : ℕ) → n ≤ k → take n (put k bs xs) ≡ take n xs
unfolding put
take-put k bs xs zero h = refl
take-put zero bs xs (suc n) h = absurd (omega arith)
take-put (suc k) bs [] (suc n) h = refl
take-put (suc k) bs (x ∷ xs) (suc n) h = ap (λ t. x ∷ t) (take-put k bs xs n (omega arith))

pub field-before :
    (k : ℕ) (bs xs : List ℕ) (i n : ℕ) → i + n ≤ k → field i n (put k bs xs) ≡ field i n xs
unfolding put
field-before k bs xs zero n h = take-put k bs xs n (omega arith)
field-before zero bs xs (suc i) n h = absurd (omega arith)
field-before (suc k) bs [] (suc i) n h = refl
field-before (suc k) bs (x ∷ xs) (suc i) n h = field-before k bs xs i n (omega arith)
