-- ===== src/W2c2/Reader/Advance.antt =====
-- Every reader leaves a rest of the bytes that it is given, and all but the one of the code section
-- stay inside them (w2c2/reader.c).
pub mod Entries
pub mod Sections
use sandbox_stack.Prelude.{
  ℕ, zero, suc, ◌+◌, ◌≡◌, refl, sym, ap, ◌∙◌, Bool, true, false, List, [], ◌∷◌, ◌++◌,
}
use sandbox_stack.Prelude.{
  Option, none, some, take, drop, ltb, ◌==◌, if◌then◌else◌, length, bit_and, ◌%◌, ◌^◌, Bool-cases,
  ◌⊎◌, inl, inr,
}
use mathlib.Core.List.{append_assoc}
use sandbox_stack.W2c2.Buffer.{Buffer, read_byte, skip_unchecked, skip, read_f32, read_f64}
use sandbox_stack.W2c2.Leb128.{Reading, begin, take_byte, read_loop, read_u32, read_i32, read_i64}
use sandbox_stack.W2c2.Reader.Parse.{
  ReaderError, Result, ok, err, fault, Parser, done, fail, ◌>>=◌, ◌>>◌,
}
use sandbox_stack.W2c2.Reader.Parse.{
  and_then, require, or_report, reported, must, leb_u32, Allocator, read_array,
}
use sandbox_stack.W2c2.Reader.Parse.{read_name, read_bytes, characters, bytes, c_string}
use sandbox_stack.W2c2.Reader.Entries.{leb_i32, leb_i64}

-- `b'` is what is left of `b`.
abbrev pub IsRest : Buffer → Buffer → Type 0
IsRest b b' = (pre : List ℕ) × (b ≡ pre ++ b')

pub IsRest-self : (b : Buffer) → IsRest b b
IsRest-self b = ([], refl)

pub IsRest-trans : {b c d : Buffer} → IsRest b c → IsRest c d → IsRest b d
IsRest-trans {b} {c} {d} (p, e) (q, k) = (p ++ q, e ∙ ap (λ x. p ++ x) k ∙ sym (append_assoc p q d))

pub drop-IsRest : (n : ℕ) (b : Buffer) → IsRest b (drop n b)
drop-IsRest zero b = IsRest-self b
drop-IsRest (suc n) [] = IsRest-self []
drop-IsRest (suc n) (x ∷ b) = let (p, e) = drop-IsRest n b in (x ∷ p, ap (λ t. x ∷ t) e)

-- What is said of a result: of a fault it is `F`.
abbrev pub Leaves {ℓ} : {A : Type ℓ} → Type 0 → Buffer → Result A → Type 0
Leaves F b (ok a b') = IsRest b b'
Leaves F b (err e) = Unit
Leaves F b fault = F

pub record Advances {ℓ} {A : Type ℓ} (F : Type 0) (p : Parser A) : Type ℓ where
  pub leaves : (b : Buffer) → Leaves F b (p b)

abbrev pub Left {ℓ} : {A : Type ℓ} → Buffer → Option (A × Buffer) → Type 0
Left b none = Unit
Left b (some (a, b')) = IsRest b b'

-- The same of a function that returns `bool`.
pub record Moves {ℓ} {A : Type ℓ} (p : Buffer → Option (A × Buffer)) : Type ℓ where
  pub left : (b : Buffer) → Left b (p b)

Leaves-trans {ℓ} :
    {A : Type ℓ} (F : Type 0) (b c : Buffer) (r : Result A)
    → IsRest b c
    → Leaves F c r
    → Leaves F b r
Leaves-trans F b c (ok a d) h k = IsRest-trans h k
Leaves-trans F b c (err e) h k = tt
Leaves-trans F b c fault h k = k

and_then-Leaves {ℓ κ} :
    {A : Type ℓ} {B : Type κ} (F : Type 0) (b : Buffer) (r : Result A) (f : A → Parser B)
    → Leaves F b r
    → ((a : A) → Advances F (f a))
    → Leaves F b (and_then r f)
and_then-Leaves F b (ok a c) f h k = Leaves-trans F b c (f a c) h ((k a).leaves c)
and_then-Leaves F b (err e) f h k = tt
and_then-Leaves F b fault f h k = h

reported-Leaves {ℓ} :
    {A : Type ℓ} (F : Type 0) (b : Buffer) (e : ReaderError) (o : Option (A × Buffer))
    → Left b o
    → Leaves F b (reported e o)
reported-Leaves F b e none h = tt
reported-Leaves F b e (some (a, c)) h = h

module _ {F : Type 0} where
  pub bind-Advances {ℓ κ} :
      {A : Type ℓ} {B : Type κ} {m : Parser A} {f : A → Parser B}
      → Advances F m
      → ((a : A) → Advances F (f a))
      → Advances F (m >>= f)
  bind-Advances {m} {f} h k = record { leaves = λ b. and_then-Leaves F b (m b) f (h.leaves b) k }

  pub done-Advances {ℓ} : {A : Type ℓ} (a : A) → Advances F (done a)
  done-Advances a = record { leaves = λ b. IsRest-self b }

  pub fail-Advances {ℓ} : {A : Type ℓ} (e : ReaderError) → Advances F (fail {A = A} e)
  fail-Advances e = record { leaves = λ b. tt }

  pub require-Advances : (c : Bool) (e : ReaderError) → Advances F (require c e)
  require-Advances true e = done-Advances tt
  require-Advances false e = fail-Advances e

  pub if-Advances {ℓ} :
      {A : Type ℓ} (c : Bool) {p q : Parser A}
      → Advances F p
      → Advances F q
      → Advances F (if c then p else q)
  if-Advances true h k = h
  if-Advances false h k = k

  pub or_report-Advances {ℓ} :
      {A : Type ℓ} {p : Buffer → Option (A × Buffer)} (e : ReaderError)
      → Moves p
      → Advances F (or_report p e)
  or_report-Advances {p} e h = record { leaves = λ b. reported-Leaves F b e (p b) (h.left b) }

  pub read_array-Advances {ℓ} :
      {A : Type ℓ} {p : Parser A} (n : ℕ) → Advances F p → Advances F (read_array n p)
  unfolding read_array
  read_array-Advances zero h = done-Advances []
  read_array-Advances (suc n) h =
      bind-Advances h (λ x. bind-Advances (read_array-Advances n h) (λ xs. done-Advances (x ∷ xs)))

pub must-Left {ℓ κ} :
    {A : Type ℓ} {B : Type κ} (b : Buffer) (o : Option (A × Buffer))
    (f : A → Buffer → Option (B × Buffer))
    → Left b o
    → ((a : A) (c : Buffer) → Left c (f a c))
    → Left b (must o f)
must-Left b none f h k = tt
must-Left {B = B} b (some (a, c)) f h k = further (f a c) (k a c)
  where
    further : (o : Option (B × Buffer)) → Left c o → Left b o
    further none j = tt
    further (some (x, d)) j = IsRest-trans h j

if-Left {ℓ} :
    {A : Type ℓ} (c : Bool) (b : Buffer) (o q : Option (A × Buffer))
    → Left b o
    → Left b q
    → Left b (if c then o else q)
if-Left true b o q h k = h
if-Left false b o q h k = k

pub read_byte-Moves : Moves read_byte
unfolding read_byte
read_byte-Moves = record { left = go }
  where
    go : (b : Buffer) → Left b (read_byte b)
    go [] = tt
    go (x ∷ b) = (x ∷ [], refl)

read_round-IsRest :
    (w left : ℕ) (r : Reading) (b rest : Buffer)
    → r.rest ≡ rest
    → IsRest b r.rest
    → ((s : Reading) → IsRest b s.rest → IsRest b (read_loop w left s).rest)
    → IsRest b (read_loop w (suc left) r).rest
unfolding read_loop
read_round-IsRest w left r b [] e h k = rw e (rw e at h)
read_round-IsRest w left r b (x ∷ rest) e h k =
    let tail : IsRest b rest = IsRest-trans (rw e at h) (x ∷ [], refl) in
    elim (Bool-cases (bit_and x 0x80 == 0)) [
      | inl last ↦ rw (e, last) tail
      | inr more ↦ rw (e, more) (k (take_byte w r x rest) tail)
    ]

read_loop-IsRest :
    (w left : ℕ) (r : Reading) (b : Buffer) → IsRest b r.rest → IsRest b (read_loop w left r).rest
read_loop-IsRest w zero r b h = unfold read_loop in h
read_loop-IsRest w (suc left) r b h =
    read_round-IsRest w left r b r.rest refl h (λ s. read_loop-IsRest w left s b)

counted-Left :
    (c n : ℕ) (b rest : Buffer) → IsRest b rest → Left b (if c == 0 then none else some (n, rest))
counted-Left c n b rest h = if-Left (c == 0) b none (some (n, rest)) tt h

pub leb_u32-Moves : Moves leb_u32
unfolding leb_u32 read_u32
leb_u32-Moves = record {
  left = λ b.
      counted-Left _ _ b _ (unfold read_u32 in read_loop-IsRest 32 5 (begin b) b (IsRest-self b));
}

pub leb_i32-Moves : Moves leb_i32
unfolding leb_i32 read_i32
leb_i32-Moves = record {
  left = λ b. counted-Left _ _ b _ (read_loop-IsRest 32 5 (begin b) b (IsRest-self b));
}

pub leb_i64-Moves : Moves leb_i64
unfolding leb_i64 read_i64
leb_i64-Moves = record {
  left = λ b. counted-Left _ _ b _ (read_loop-IsRest 64 10 (begin b) b (IsRest-self b));
}

fixed-Left :
    (c : Bool) (v n : ℕ) (b : Buffer) → Left b (if c then none else some (v, skip_unchecked b n))
unfolding skip_unchecked
fixed-Left c v n b = if-Left c b none (some (v, drop n b)) tt (drop-IsRest n b)

pub read_f32-Moves : Moves read_f32
unfolding read_f32
read_f32-Moves = record { left = λ b. fixed-Left _ _ 4 b }

pub read_f64-Moves : Moves read_f64
unfolding read_f64
read_f64-Moves = record { left = λ b. fixed-Left _ _ 8 b }

module _ (alloc : Allocator) where
  sized-Left :
      (f : ℕ → List ℕ → List ℕ) (a : Bool) (n : ℕ) (b : Buffer)
      → Left b
          (if ltb (length b) n then none else if a then some (f n b, skip_unchecked b n) else none)
  unfolding skip_unchecked
  sized-Left f a n b =
      if-Left (ltb (length b) n) b none _ tt
        (if-Left a b (some (f n b, drop n b)) none (drop-IsRest n b) tt)

  pub read_name-Moves : Moves (read_name alloc)
  unfolding read_name
  read_name-Moves = record {
    left = λ b.
        must-Left b (leb_u32 b) _ (leb_u32-Moves.left b) (λ n c.
          sized-Left (λ k d. c_string (take k d)) (alloc characters ((n + 1) % 2 ^ 32)) n c);
  }

  pub read_bytes-Moves : Moves (read_bytes alloc)
  unfolding read_bytes
  read_bytes-Moves = record {
    left = λ b.
        must-Left b (leb_u32 b) _ (leb_u32-Moves.left b)
          (λ n c. sized-Left take (alloc bytes n) n c);
  }
