-- ===== src/W2c2/Reader/Ensure.antt =====
-- Statements on the value of a reader of w2c2/reader.c that succeeds.
use sandbox_stack.Prelude.{ℕ, zero, suc, Bool, true, false, [], All, if◌then◌else◌}
use sandbox_stack.W2c2.Buffer.{Buffer}
use sandbox_stack.W2c2.Reader.Parse.{
  ReaderError, Result, ok, err, fault, Parser, done, fail, ◌>>=◌, and_then,
}
use sandbox_stack.W2c2.Reader.Parse.{read_array}

-- What holds of the value of a reader that succeeds.
abbrev pub Gives {ℓ} : {A : Type ℓ} → (A → Type 0) → Result A → Type 0
Gives Q (ok a b) = Q a
Gives Q (err e) = Unit
Gives Q fault = Unit

pub record Ensures {ℓ} {A : Type ℓ} (Q : A → Type 0) (p : Parser A) : Type ℓ where
  pub gives : (b : Buffer) → Gives Q (p b)

and_then-Gives {ℓ κ} :
    {A : Type ℓ} {B : Type κ} (P : A → Type 0) (Q : B → Type 0) (r : Result A) (f : A → Parser B)
    → Gives P r
    → ((a : A) → P a → Ensures Q (f a))
    → Gives Q (and_then r f)
and_then-Gives P Q (ok a b) f h k = (k a h).gives b
and_then-Gives P Q (err e) f h k = tt
and_then-Gives P Q fault f h k = tt

pub bind-Ensures {ℓ κ} :
    {A : Type ℓ} {B : Type κ} {P : A → Type 0} {Q : B → Type 0} {m : Parser A} {f : A → Parser B}
    → Ensures P m
    → ((a : A) → P a → Ensures Q (f a))
    → Ensures Q (m >>= f)
bind-Ensures {P} {Q} {m} {f} h k = record { gives = λ b. and_then-Gives P Q (m b) f (h.gives b) k }

any-Gives {ℓ} : {A : Type ℓ} (r : Result A) → Gives (λ a. Unit) r
any-Gives (ok a b) = tt
any-Gives (err e) = tt
any-Gives fault = tt

-- A reader of which nothing has to be known.
pub any-Ensures {ℓ κ} :
    {A : Type ℓ} {B : Type κ} {Q : B → Type 0} (m : Parser A) {f : A → Parser B}
    → ((a : A) → Ensures Q (f a))
    → Ensures Q (m >>= f)
any-Ensures m k = bind-Ensures (record { gives = λ b. any-Gives (m b) }) (λ a _. k a)

pub done-Ensures {ℓ} : {A : Type ℓ} {Q : A → Type 0} (a : A) → Q a → Ensures Q (done a)
done-Ensures a h = record { gives = λ b. h }

pub fail-Ensures {ℓ} : {A : Type ℓ} (Q : A → Type 0) (e : ReaderError) → Ensures Q (fail e)
fail-Ensures Q e = record { gives = λ b. tt }

pub if-Ensures {ℓ} :
    {A : Type ℓ} {Q : A → Type 0} (c : Bool) {p q : Parser A}
    → Ensures Q p
    → Ensures Q q
    → Ensures Q (if c then p else q)
if-Ensures true h k = h
if-Ensures false h k = k

pub read_array-Ensures {ℓ} :
    {A : Type ℓ} {Q : A → Type 0} {p : Parser A} (n : ℕ)
    → Ensures Q p
    → Ensures (All Q) (read_array n p)
unfolding read_array
read_array-Ensures zero h = done-Ensures [] tt
read_array-Ensures (suc n) h =
    bind-Ensures h
      (λ x px. bind-Ensures (read_array-Ensures n h) (λ xs pxs. done-Ensures _ (px, pxs)))
