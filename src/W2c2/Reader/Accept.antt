-- ===== src/W2c2/Reader/Accept.antt =====
-- What a file is that the reader accepts, and that it always comes to an end (`wasmModuleRead` of
-- w2c2/reader.c).
use sandbox_stack.Prelude.{
  ℕ, zero, suc, ◌≤◌, ◌<◌, ◌≡◌, inl, inr, refl, sym, ap, ap₂, subst, ◌∙◌, arith,
}
use sandbox_stack.Prelude.{true, false, List, [], ◌∷◌, ◌++◌, Option, none, some, length}
use sandbox_stack.Prelude.{length-append, take, drop, take-drop, ltb, ◌==◌, ==_iff, Bool-cases}
use sandbox_stack.W2c2.Buffer.{Buffer, read_equal, same_bytes, skip_unchecked, at_end}
use sandbox_stack.W2c2.Reader.Parse.{Result, ok, err, fault, leb_u32, Allocator, module_struct}
use sandbox_stack.W2c2.Reader.Parse.{allocation_failed, invalid_magic}
use sandbox_stack.W2c2.Reader.Module.{Module, empty_module}
use sandbox_stack.W2c2.Reader.File.{
  magic, go_on, read_section, read_sections, read_after_magic, module_read,
}
use sandbox_stack.W2c2.Reader.Advance.{IsRest, Left, leb_u32-Moves}
use sandbox_stack.W2c2.Reader.Format.{IsSections, at_end_of_file, section, read_section-lem}

at_end-cons : (x : ℕ) (b : Buffer) → at_end (x ∷ b) ≡ false
unfolding at_end
at_end-cons x b = ground arith

module _ (alloc : Allocator) where
  one_round :
      (fuel : ℕ) (m : Module) (id : ℕ) (b : Buffer)
      → read_sections alloc (suc fuel) m (id ∷ b)
        ≡ go_on (read_section alloc m (id ∷ b)) (read_sections alloc fuel)
  unfolding read_sections
  one_round fuel m id b = rw (at_end-cons id b)

  shorter :
      (m m' : Module) (id : ℕ) (b c : Buffer)
      → read_section alloc m (id ∷ b) ≡ ok m' c
      → length c ≤ length b
  shorter m m' id b c e =
      let (size, contents, got, _) = read_section-lem alloc m m' id b c e in
      let (pre, split) : IsRest b (contents ++ c) = inside b (size, contents ++ c) got in
      omega (
        arith,
        ap length split,
        length-append {0} pre (contents ++ c),
        length-append {0} contents c,
      )
    where
      inside : (b : Buffer) (r : ℕ × Buffer) → leb_u32 b ≡ some r → IsRest b r.1
      inside b r e = subst (Left b) e (leb_u32-Moves.left b)

  onward :
      (fuel : ℕ) (m : Module) (id : ℕ) (b : Buffer)
      → length b < fuel
      → ((m' : Module) (c : Buffer)
          → length c < fuel
          → (q : Result Module) × (read_sections alloc fuel m' c ≡ some q))
      → (r : Result Module) → read_section alloc m (id ∷ b) ≡ r
      → (q : Result Module) × (go_on r (read_sections alloc fuel) ≡ some q)
  onward fuel m id b h ih (ok m' c) e = ih m' c (omega (arith, shorter m m' id b c e))
  onward fuel m id b h ih (err x) e = (err x, refl)
  onward fuel m id b h ih fault e = (fault, refl)

  -- A section takes a byte at least, so that there is fuel for all.
  read_sections-total :
      (fuel : ℕ) (m : Module) (b : Buffer)
      → length b < fuel
      → (r : Result Module) × (read_sections alloc fuel m b ≡ some r)
  read_sections-total zero m b h = absurd (omega arith)
  read_sections-total (suc fuel) m [] h = (ok m [], unfold read_sections at_end in refl)
  read_sections-total (suc fuel) m (id ∷ b) h = rw (one_round fuel m id b) (
      onward fuel m id b (omega arith) (read_sections-total fuel) (read_section alloc m (id ∷ b))
        refl)

  accepted_step :
      (fuel : ℕ) (m m' : Module) (id : ℕ) (b c : Buffer)
      → ((m₁ : Module) (b₁ : Buffer)
          → read_sections alloc fuel m₁ b₁ ≡ some (ok m' c)
          → (c ≡ []) × IsSections b₁)
      → (r : Result Module) → read_section alloc m (id ∷ b) ≡ r
      → go_on r (read_sections alloc fuel) ≡ some (ok m' c)
      → (c ≡ []) × IsSections (id ∷ b)
  accepted_step fuel m m' id b c ih (ok m₁ b₁) e k =
      let (end, sections) = ih m₁ b₁ k in
      let (size, contents, got, exact) = read_section-lem alloc m m₁ id b b₁ e in
      (end, section id size b contents b₁ got exact sections)
  accepted_step fuel m m' id b c ih (err x) e k = absurd (cc)
  accepted_step fuel m m' id b c ih fault e k = absurd (cc)

  read_sections-IsSections :
      (fuel : ℕ) (m m' : Module) (b c : Buffer)
      → read_sections alloc fuel m b ≡ some (ok m' c)
      → (c ≡ []) × IsSections b
  read_sections-IsSections zero m m' b c e = absurd (unfold read_sections in cc)
  read_sections-IsSections (suc fuel) m m' [] c e = (
    (let same : some (ok m []) ≡ some (ok m' c) = unfold read_sections at_end in e in cc),
    at_end_of_file,
  )
  read_sections-IsSections (suc fuel) m m' (id ∷ b) c e =
      accepted_step fuel m m' id b c (λ m₁ b₁. read_sections-IsSections fuel m₁ m' b₁ c)
        (read_section alloc m (id ∷ b)) refl (sym (one_round fuel m id b) ∙ e)

same_bytes→≡ : (xs ys : List ℕ) → same_bytes xs ys ≡ true → xs ≡ ys
same_bytes→≡ [] [] e = refl
same_bytes→≡ [] (y ∷ ys) e = absurd (cc)
same_bytes→≡ (x ∷ xs) [] e = absurd (cc)
same_bytes→≡ (x ∷ xs) (y ∷ ys) e =
    let head : (x == y) ≡ true = ground arith in
    let tail : same_bytes xs ys ≡ true = ground arith in
    ap₂ ◌∷◌ ((==_iff x y).0 head) (same_bytes→≡ xs ys tail)

-- `bufferReadEqual` leaves what is behind the expected bytes.
pub read_equal_lem : (b expected c : List ℕ) → read_equal b expected ≡ some c → b ≡ expected ++ c
unfolding read_equal skip_unchecked
read_equal_lem b expected c e = elim (Bool-cases (ltb (length b) (length expected))) [
  | inl short ↦ absurd (let no : none ≡ some c = rw short at e in cc)
  | inr long ↦ elim (Bool-cases (same_bytes (take (length expected) b) expected)) [
    | inl same ↦
        let rest : some (drop (length expected) b) ≡ some c = rw (long, same) at e in
        sym (take-drop (length expected) b)
        ∙ ap₂ ◌++◌ (same_bytes→≡ _ _ same) (let e' : drop (length expected) b ≡ c = cc in e')
    | inr other ↦ absurd (let no : none ≡ some c = rw (long, other) at e in cc)
  ]
]

-- The reader always comes to a result, whatever the file and the allocator are: the fuel of one round
-- for each byte, and one, is enough.
pub module_read-total :
    (alloc : Allocator) (b : Buffer) → (r : Result Module) × (module_read alloc b ≡ some r)
unfolding module_read
module_read-total alloc b = after (read_equal b magic)
  where
    after :
        (o : Option Buffer) → (r : Result Module) × (read_after_magic alloc (length b) o ≡ some r)
    after none = (err invalid_magic, refl)
    after (some c) = elim (Bool-cases (alloc module_struct 1)) [
      | inl got ↦
          rw got
            (read_sections-total alloc (suc (length c)) (empty_module (length b)) c (omega arith))
      | inr refused ↦ (err allocation_failed, rw refused)
    ]

-- A file that is accepted is read to its end, and it is the magic number followed by sections, each of
-- which is exactly as long as it says, but for one of an unknown identifier that the file's end
-- cuts off.
pub module_read-IsSections :
    (alloc : Allocator) (b c : Buffer) (m : Module)
    → module_read alloc b ≡ some (ok m c)
    → (c ≡ []) × (sections : Buffer) × (b ≡ magic ++ sections) × IsSections sections
unfolding module_read
module_read-IsSections alloc b c m e = after (read_equal b magic) refl e
  where
    after :
        (o : Option Buffer)
        → read_equal b magic ≡ o
        → read_after_magic alloc (length b) o ≡ some (ok m c)
        → (c ≡ []) × (sections : Buffer) × (b ≡ magic ++ sections) × IsSections sections
    after none k h = absurd (cc)
    after (some s) k h = elim (Bool-cases (alloc module_struct 1)) [
      | inl got ↦
          let (end, sections) =
            read_sections-IsSections alloc (suc (length s)) (empty_module (length b)) m s c
              (rw got at h) in
          (end, s, read_equal_lem b magic s k, sections)
      | inr refused ↦
          absurd (let bad : some (err allocation_failed) ≡ some (ok m c) = rw refused at h in cc)
    ]
