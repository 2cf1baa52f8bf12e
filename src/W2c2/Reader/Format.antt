-- ===== src/W2c2/Reader/Format.antt =====
-- What one section of a wasm file is that the reader accepts (w2c2/reader.c).
use sandbox_stack.Prelude.{
  ℕ, zero, suc, ◌-◌, ◌≤◌, ◌<◌, ◌≡◌, ◌⊎◌, inl, inr, refl, sym, ap, subst, ◌∙◌, arith,
}
use sandbox_stack.Prelude.{List, [], ◌∷◌, ◌++◌, Option, none, some, length, length-append}
use sandbox_stack.Prelude.{take, drop, ltb, ◌==◌, get_elem?, Bool-cases, Option-cases}
use sandbox_stack.Prelude.{length-take, take-drop, ltb→lt}
use mathlib.Core.List.{append-nil}
use sandbox_stack.W2c2.Buffer.{Buffer, read_byte, skip, skip_unchecked}
use sandbox_stack.W2c2.Reader.Parse.{Result, ok, err, fault, leb_u32, Allocator}
use sandbox_stack.W2c2.Reader.Parse.{incorrect_section_read, invalid_section_size}
use sandbox_stack.W2c2.Reader.Module.{Module}
use sandbox_stack.W2c2.Reader.File.{
  SectionReader, check_end, read_contents, section_readers, read_section,
}
use sandbox_stack.W2c2.Reader.Advance.{IsRest, Leaves, Advances}
use sandbox_stack.W2c2.Reader.Advance.Sections

pub rest-le : {b c : Buffer} → IsRest b c → length c ≤ length b
rest-le {b} {c} (p, e) = omega (arith, ap length e, length-append {0} p c)

-- Every reader of the table leaves a rest, and `F` is what a fault of it would mean: only the code
-- section's wants one.
abbrev pub Fine : Type 0 → Option SectionReader → Type 0
Fine F none = Unit
Fine F (some r) = (size : ℕ) (m : Module) → Advances F (r size m)

pub readers-Fine :
    {F : Type 0} (alloc : Allocator) (id : ℕ)
    → (id ≡ 10 → F)
    → Fine F (get_elem? (section_readers alloc) id)
readers-Fine alloc zero may_fault = Sections.read_custom_section-Advances alloc
readers-Fine alloc (suc zero) may_fault = Sections.read_type_section-Advances alloc
readers-Fine alloc (suc (suc zero)) may_fault = Sections.read_import_section-Advances alloc
readers-Fine alloc (suc (suc (suc zero))) may_fault = Sections.read_function_section-Advances alloc
readers-Fine alloc (suc (suc (suc (suc zero)))) may_fault =
    Sections.read_table_section-Advances alloc
readers-Fine alloc (suc (suc (suc (suc (suc zero))))) may_fault =
    Sections.read_memory_section-Advances alloc
readers-Fine alloc (suc (suc (suc (suc (suc (suc zero)))))) may_fault =
    Sections.read_global_section-Advances alloc
readers-Fine alloc (suc (suc (suc (suc (suc (suc (suc zero))))))) may_fault =
    Sections.read_export_section-Advances alloc
readers-Fine alloc (suc (suc (suc (suc (suc (suc (suc (suc zero)))))))) may_fault =
    Sections.read_start_section-Advances alloc
readers-Fine alloc (suc (suc (suc (suc (suc (suc (suc (suc (suc zero))))))))) may_fault =
    Sections.read_element_section-Advances alloc
readers-Fine alloc (suc (suc (suc (suc (suc (suc (suc (suc (suc (suc zero)))))))))) may_fault =
    Sections.read_code_section-Advances (may_fault refl) alloc
readers-Fine alloc (suc (suc (suc (suc (suc (suc (suc (suc (suc (suc (suc zero)))))))))))
      may_fault =
    Sections.read_data_section-Advances alloc
readers-Fine alloc (suc (suc (suc (suc (suc (suc (suc (suc (suc (suc (suc (suc zero))))))))))))
      may_fault =
    Sections.read_data_count_section-Advances alloc
readers-Fine alloc (suc (suc (suc (suc (suc (suc (suc (suc (suc (suc (suc (suc (suc n)))))))))))))
      may_fault =
    tt

-- The sections of an accepted file: an identifier, a size, and contents that are exactly as long,
-- or, of an identifier that has no reader, the rest of the file if that is shorter.
abbrev pub IsContents : ℕ → ℕ → List ℕ → List ℕ → Type 0
IsContents id size contents rest =
    (length contents ≡ size) ⊎ (13 ≤ id) × (length contents < size) × (rest ≡ [])

pub data IsSections : Buffer → Type 0 where
  at_end_of_file : IsSections []
  section :
      (id size : ℕ) (b contents rest : List ℕ)
      → leb_u32 b ≡ some (size, contents ++ rest)
      → IsContents id size contents rest
      → IsSections rest
      → IsSections (id ∷ b)

-- What the contents of a section are, by the table's entry for it.
check_end-ok :
    (before size : ℕ) (r : Result Module) (m' : Module) (c : Buffer)
    → check_end before size r ≡ ok m' c
    → (r ≡ ok m' c) × (before - length c ≡ size)
check_end-ok before size (ok m b) m' c e = elim (Bool-cases (before - length b == size)) [
  | inl same ↦
      let done : ok m b ≡ ok m' c = rw same at e in
      let rest : b ≡ c = cc in (done, ground (arith, ap length rest))
  | inr other ↦ absurd (let bad : err incorrect_section_read ≡ ok m' c = rw other at e in cc)
]
check_end-ok before size (err x) m' c e = absurd (cc)
check_end-ok before size fault m' c e = absurd (cc)

get_elem?-none {ℓ} : {A : Type ℓ} (xs : List A) (i : ℕ) → get_elem? xs i ≡ none → length xs ≤ i
get_elem?-none [] i e = omega arith
get_elem?-none (x ∷ xs) zero e = absurd (cc)
get_elem?-none (x ∷ xs) (suc i) e = omega (arith, get_elem?-none xs i e)

skipped-IsContents :
    (id size : ℕ) (b c : Buffer)
    → 13 ≤ id
    → skip b size ≡ c
    → (contents : List ℕ) × (b ≡ contents ++ c) × IsContents id size contents c
unfolding skip skip_unchecked
skipped-IsContents id size b c h e = elim (Bool-cases (ltb (length b) size)) [
  | inl short ↦
      let e' : drop (length b) b ≡ c = rw short at e in
      let empty : c ≡ [] = sym e' ∙ drop_all b in
      (
        b,
        sym (append-nil b) ∙ ap (λ t. b ++ t) (sym empty),
        inr (h, ltb→lt (length b) size short, empty),
      )
  | inr fits ↦
      let e' : drop size b ≡ c = rw fits at e in
      (
        take size b,
        sym (take-drop size b) ∙ ap (λ t. take size b ++ t) e',
        inl (ground (arith, length-take size b)),
      )
]
  where
    drop_all : (xs : List ℕ) → drop (length xs) xs ≡ []
    drop_all [] = refl
    drop_all (x ∷ xs) = drop_all xs

read_contents-lem :
    (id size : ℕ) (m m' : Module) (b c : Buffer) (o : Option SectionReader)
    → Fine (Unit {0}) o
    → (o ≡ none → 13 ≤ id)
    → read_contents o size m b ≡ ok m' c
    → (contents : List ℕ) × (b ≡ contents ++ c) × IsContents id size contents c
read_contents-lem id size m m' b c none fine known e =
    skipped-IsContents id size b c (known refl) (cc)
read_contents-lem id size m m' b c (some r) fine known e =
    let (ran, long) = check_end-ok (length b) size (r size m b) m' c e in
    let (pre, split) : IsRest b c = subst (Leaves (Unit {0}) b) ran ((fine size m).leaves b) in
    (pre, split, inl (omega (arith, ap length split, length-append {0} pre c)))

module _ (alloc : Allocator) where
  pub read_section-lem :
      (m m' : Module) (id : ℕ) (b c : Buffer)
      → read_section alloc m (id ∷ b) ≡ ok m' c
      → (size : ℕ) × (contents : List ℕ) × (leb_u32 b ≡ some (size, contents ++ c))
        × IsContents id size contents c
  unfolding read_section read_byte
  read_section-lem m m' id b c e = elim (Option-cases (leb_u32 b)) [
    | inl bad ↦ absurd (let no : err invalid_section_size ≡ ok m' c = rw bad at e in cc)
    | inr ((size, b'), got) ↦
        let o = get_elem? (section_readers alloc) id in
        let (contents, split, exact) =
          read_contents-lem id size m m' b' c o (readers-Fine alloc id (λ _. tt))
            (get_elem?-none (section_readers alloc) id) (rw got at e) in
        (size, contents, got ∙ ap (λ t. some (size, t)) split, exact)
  ]
