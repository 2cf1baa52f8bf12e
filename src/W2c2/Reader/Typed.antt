-- ===== src/W2c2/Reader/Typed.antt =====
-- The type indices of the functions of a module that a section reader of w2c2/reader.c leaves.
use sandbox_stack.Prelude.{
  ℕ, zero, suc, ◌+◌, ◌-◌, ◌%◌, ◌^◌, ◌<◌, ◌≡◌, ◌≢◌, ◌⊎◌, inl, inr, refl, sym, ap, subst, ◌∙◌, arith,
}
use sandbox_stack.Prelude.{
  Bool, true, false, not, List, [], ◌∷◌, Option, none, some, length, set, get_elem?, All,
}
use sandbox_stack.Prelude.{ltb, ltb→lt, leb, ◌==◌, if◌then◌else◌, Bool-cases}
use sandbox_stack.W2c2.Buffer.{Buffer, read_byte}
use sandbox_stack.W2c2.Reader.Parse.{
  ReaderError, Result, ok, err, fault, Parser, done, fail, ◌>>=◌, and_then,
}
use sandbox_stack.W2c2.Reader.Parse.{require, Allocator, allocate, leb_u32, or_report, read_array}
use sandbox_stack.W2c2.Reader.Parse.{
  invalid_import_section_import_kind, invalid_import_section_import_module,
}
use sandbox_stack.W2c2.Reader.Parse.{
  invalid_import_section_import_name, invalid_type_section_type_count,
}
use sandbox_stack.W2c2.Reader.Parse.{
  invalid_function_section_function_count, functions, exports, read_name, function_types,
}
use sandbox_stack.W2c2.Reader.Parse.{incorrect_section_read, invalid_section_size}
use sandbox_stack.W2c2.Reader.Parse.{
  invalid_code_section_function_count, invalid_export_section_export_count,
}
use sandbox_stack.W2c2.Reader.Entries.{read_export}
use sandbox_stack.W2c2.Reader.Module.{Module, Function, Export, LocalsDeclaration}
use sandbox_stack.W2c2.Reader.Ensure.{
  Gives, Ensures, bind-Ensures, any-Ensures, done-Ensures, fail-Ensures,
}
use sandbox_stack.W2c2.Reader.Ensure.{if-Ensures, read_array-Ensures}
use sandbox_stack.W2c2.Reader.Sections
use sandbox_stack.W2c2.Reader.Sections.{
  remaining, skipped, read_sized_code, named, sub32, take_unchecked,
}
use sandbox_stack.W2c2.Reader.File.{
  SectionReader, check_end, read_contents, section_readers, read_section,
}
pub mod Accepted

-- Every function of the module has the index of a type of the module.
abbrev pub IsTypedBy : ℕ → Function → Type 0
IsTypedBy n f = f.function_type_index < n

pub record IsTyped (m : Module) : Type 0 where
  pub typed : All (IsTypedBy (length m.function_types)) m.functions

get_elem?-All {ℓ} :
    {A : Type ℓ} (P : A → Type 0) (xs : List A) (i : ℕ) (x : A)
    → All P xs
    → get_elem? xs i ≡ some x
    → P x
get_elem?-All P [] i x h e = absurd (cc)
get_elem?-All P (y ∷ ys) zero x h e = let same : y ≡ x = cc in subst P same h.0
get_elem?-All P (y ∷ ys) (suc i) x h e = get_elem?-All P ys i x h.1 e

set-All {ℓ} :
    {A : Type ℓ} (P : A → Type 0) (xs : List A) (i : ℕ) (x : A)
    → All P xs
    → P x
    → All P (set xs i x)
set-All P [] i x h p = tt
set-All P (y ∷ ys) zero x h p = (p, h.1)
set-All P (y ∷ ys) (suc i) x h p = (h.0, set-All P ys i x h.1 p)

named-All :
    (n : ℕ) (fs : List Function) (i : ℕ) (name : List ℕ) (o : Option Function)
    → get_elem? fs i ≡ o
    → All (IsTypedBy n) fs
    → All (IsTypedBy n) (named o fs i name)
named-All n fs i name none e h = h
named-All n fs i name (some f) e h =
    set-All (IsTypedBy n) fs i (record f { export_name = some name }) h
      (get_elem?-All (IsTypedBy n) fs i f h e)

apply_export-Ensures :
    (n k : ℕ) (fs : List Function) (e : Export)
    → All (IsTypedBy n) fs
    → Ensures (All (IsTypedBy n)) (Sections.apply_export k fs e)
unfolding Sections.apply_export
apply_export-Ensures n k fs e h = if-Ensures (not (e.kind == 0)) (done-Ensures fs h) (
    if-Ensures (leb ((k + length fs) % 2 ^ 32) e.index) (fail-Ensures _ _) (
      if-Ensures (ltb e.index k) (done-Ensures fs h)
        (done-Ensures _ (named-All n fs (e.index - k) e.name (get_elem? fs (e.index - k)) refl h))))

module _ (alloc : Allocator) where
  pub read_custom_section-IsTyped :
      (size : ℕ) (m : Module)
      → IsTyped m
      → Ensures IsTyped (Sections.read_custom_section alloc size m)
  unfolding Sections.read_custom_section
  read_custom_section-IsTyped size m h = record { gives = λ b. ground arith }

  pub read_table_section-IsTyped :
      (size : ℕ) (m : Module)
      → IsTyped m
      → Ensures IsTyped (Sections.read_table_section alloc size m)
  unfolding Sections.read_table_section
  read_table_section-IsTyped size m h = record { gives = λ b. ground arith }

  pub read_memory_section-IsTyped :
      (size : ℕ) (m : Module)
      → IsTyped m
      → Ensures IsTyped (Sections.read_memory_section alloc size m)
  unfolding Sections.read_memory_section
  read_memory_section-IsTyped size m h = record { gives = λ b. ground arith }

  pub read_global_section-IsTyped :
      (size : ℕ) (m : Module)
      → IsTyped m
      → Ensures IsTyped (Sections.read_global_section alloc size m)
  unfolding Sections.read_global_section
  read_global_section-IsTyped size m h = record { gives = λ b. ground arith }

  pub read_start_section-IsTyped :
      (size : ℕ) (m : Module)
      → IsTyped m
      → Ensures IsTyped (Sections.read_start_section alloc size m)
  unfolding Sections.read_start_section
  read_start_section-IsTyped size m h = record { gives = λ b. ground arith }

  pub read_element_section-IsTyped :
      (size : ℕ) (m : Module)
      → IsTyped m
      → Ensures IsTyped (Sections.read_element_section alloc size m)
  unfolding Sections.read_element_section
  read_element_section-IsTyped size m h = record { gives = λ b. ground arith }

  pub read_data_section-IsTyped :
      (size : ℕ) (m : Module)
      → IsTyped m
      → Ensures IsTyped (Sections.read_data_section alloc size m)
  unfolding Sections.read_data_section
  read_data_section-IsTyped size m h = record { gives = λ b. ground arith }

  pub read_data_count_section-IsTyped :
      (size : ℕ) (m : Module)
      → IsTyped m
      → Ensures IsTyped (Sections.read_data_count_section alloc size m)
  unfolding Sections.read_data_count_section
  read_data_count_section-IsTyped size m h = record { gives = λ b. ground arith }

  read_function_import-IsTyped :
      (module_name name : List ℕ) (m : Module)
      → IsTyped m
      → Ensures IsTyped (Sections.read_function_import alloc module_name name m)
  unfolding Sections.read_function_import
  read_function_import-IsTyped module_name name m h = record { gives = λ b. ground arith }

  read_table_import-IsTyped :
      (module_name name : List ℕ) (m : Module)
      → IsTyped m
      → Ensures IsTyped (Sections.read_table_import alloc module_name name m)
  unfolding Sections.read_table_import
  read_table_import-IsTyped module_name name m h = record { gives = λ b. ground arith }

  read_memory_import-IsTyped :
      (module_name name : List ℕ) (m : Module)
      → IsTyped m
      → Ensures IsTyped (Sections.read_memory_import alloc module_name name m)
  unfolding Sections.read_memory_import
  read_memory_import-IsTyped module_name name m h = record { gives = λ b. ground arith }

  read_global_import-IsTyped :
      (module_name name : List ℕ) (m : Module)
      → IsTyped m
      → Ensures IsTyped (Sections.read_global_import alloc module_name name m)
  unfolding Sections.read_global_import
  read_global_import-IsTyped module_name name m h = record { gives = λ b. ground arith }

  import_of_kind-IsTyped :
      (kind : ℕ) (module_name name : List ℕ) (m : Module)
      → IsTyped m
      → Ensures IsTyped (Sections.import_of_kind alloc kind module_name name m)
  import_of_kind-IsTyped kind module_name name m h =
      if-Ensures (kind == 0) (read_function_import-IsTyped module_name name m h) (
        if-Ensures (kind == 3) (read_global_import-IsTyped module_name name m h) (
          if-Ensures (kind == 2) (read_memory_import-IsTyped module_name name m h) (
            if-Ensures (kind == 1) (read_table_import-IsTyped module_name name m h)
              (fail-Ensures IsTyped invalid_import_section_import_kind))))

  read_import-IsTyped : (m : Module) → IsTyped m → Ensures IsTyped (Sections.read_import alloc m)
  unfolding Sections.read_import
  read_import-IsTyped m h =
      any-Ensures (or_report (read_name alloc) invalid_import_section_import_module) (λ module_name.
        any-Ensures (or_report (read_name alloc) invalid_import_section_import_name) (λ name.
          any-Ensures (or_report read_byte invalid_import_section_import_kind) (λ kind.
            any-Ensures (require (ltb kind 4) invalid_import_section_import_kind)
              (λ _. import_of_kind-IsTyped kind module_name name m h))))

  read_imports-IsTyped :
      (n : ℕ) (m : Module) → IsTyped m → Ensures IsTyped (Sections.read_imports alloc n m)
  unfolding Sections.read_imports
  read_imports-IsTyped zero m h = done-Ensures m h
  read_imports-IsTyped (suc n) m h =
      bind-Ensures (read_import-IsTyped m h) (λ m' h'. read_imports-IsTyped n m' h')

  pub read_import_section-IsTyped :
      (size : ℕ) (m : Module)
      → IsTyped m
      → Ensures IsTyped (Sections.read_import_section alloc size m)
  unfolding Sections.read_import_section
  read_import_section-IsTyped size m h =
      any-Ensures (or_report leb_u32 invalid_type_section_type_count)
        (λ n. read_imports-IsTyped n m h)

  read_function-Ensures : (n : ℕ) → Ensures (IsTypedBy n) (Sections.read_function alloc n)
  unfolding Sections.read_function
  read_function-Ensures n = record { gives = λ b. ground arith }

  pub read_function_section-IsTyped :
      (size : ℕ) (m : Module) → Ensures IsTyped (Sections.read_function_section alloc size m)
  unfolding Sections.read_function_section
  read_function_section-IsTyped size m =
      any-Ensures (or_report leb_u32 invalid_function_section_function_count) (λ n.
        any-Ensures (allocate alloc functions n) (λ _.
          bind-Ensures (read_array-Ensures n (read_function-Ensures (length m.function_types)))
            (λ fs h. done-Ensures (record m { functions = fs }) (record { typed = h }))))

  read_code-Ensures :
      (n k l : ℕ) (f : Function)
      → IsTypedBy n f
      → Ensures (IsTypedBy n) (Sections.read_code alloc k l f)
  unfolding Sections.read_code read_sized_code
  read_code-Ensures n k l f h = record { gives = λ b. ground arith }

  read_codes-Ensures :
      (n k l : ℕ) (fs : List Function)
      → All (IsTypedBy n) fs
      → Ensures (All (IsTypedBy n)) (Sections.read_codes alloc k l fs)
  unfolding Sections.read_codes
  read_codes-Ensures n k l [] h = done-Ensures [] tt
  read_codes-Ensures n k l (f ∷ fs) h = bind-Ensures (read_code-Ensures n k l f h.0) (λ f' p.
      bind-Ensures (read_codes-Ensures n k l fs h.1) (λ fs' ps. done-Ensures (f' ∷ fs') (p, ps)))

  pub read_code_section-IsTyped :
      (size : ℕ) (m : Module)
      → IsTyped m
      → Ensures IsTyped (Sections.read_code_section alloc size m)
  unfolding Sections.read_code_section
  read_code_section-IsTyped size m h = any-Ensures remaining (λ before.
      any-Ensures (or_report leb_u32 invalid_code_section_function_count) (λ n.
        any-Ensures (require (n == length m.functions) invalid_code_section_function_count) (λ _.
          bind-Ensures
            (read_codes-Ensures (length m.function_types) m.file_length (m.file_length - before)
              m.functions h.typed)
            (λ fs p. done-Ensures (record m { functions = fs }) (record { typed = p })))))

  read_exports-Ensures :
      (t k n : ℕ) (fs : List Function)
      → All (IsTypedBy t) fs
      → Ensures (λ r. All (IsTypedBy t) r.1) (Sections.read_exports alloc k n fs)
  unfolding Sections.read_exports
  read_exports-Ensures t k zero fs h = done-Ensures ([], fs) h
  read_exports-Ensures t k (suc n) fs h = any-Ensures (read_export alloc) (λ e.
      bind-Ensures (apply_export-Ensures t k fs e h) (λ fs' h'.
        bind-Ensures (read_exports-Ensures t k n fs' h') (λ r p. done-Ensures (e ∷ r.0, r.1) p)))

  pub read_export_section-IsTyped :
      (size : ℕ) (m : Module)
      → IsTyped m
      → Ensures IsTyped (Sections.read_export_section alloc size m)
  unfolding Sections.read_export_section
  read_export_section-IsTyped size m h =
      any-Ensures (or_report leb_u32 invalid_export_section_export_count) (λ n.
        any-Ensures (allocate alloc exports n) (λ _.
          bind-Ensures
            (read_exports-Ensures (length m.function_types) (length m.function_imports) n
              m.functions h.typed)
            (λ r p.
              done-Ensures (record m { exports = r.0; functions = r.1 }) (record { typed = p }))))
