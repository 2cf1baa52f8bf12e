-- ===== src/W2c2/Reader/Advance/Sections.antt =====
-- The section readers leave a rest of their bytes, and none but the code section's can leave the buffer
-- (w2c2/reader.c).
use sandbox_stack.Prelude.{ℕ, zero, suc, Bool, true, false, List, [], ◌∷◌, length}
use sandbox_stack.Prelude.{ltb, not, ◌==◌, ◌+◌, ◌-◌, if◌then◌else◌, take, drop}
use sandbox_stack.W2c2.Buffer.{Buffer, skip, skip_unchecked}
use sandbox_stack.W2c2.Reader.Parse.{
  Parser, ok, fault, done, leb_u32, Allocator, allocate, ReaderError, or_report, ◌>>=◌, read_array,
}
use sandbox_stack.W2c2.Reader.Parse.{invalid_import_section_import_module}
use sandbox_stack.W2c2.Reader.Parse.{
  invalid_import_section_import_name, invalid_import_section_import_kind,
}
use sandbox_stack.W2c2.Reader.Parse.{
  invalid_code_section_code_size, invalid_code_section_function_count,
}
use sandbox_stack.W2c2.Reader.Parse.{
  debug_sections, debug_section_append_failed, invalid_custom_section_name,
}
use sandbox_stack.W2c2.Reader.Module.{Module, Function, Export}
use sandbox_stack.W2c2.Reader.Sections
use sandbox_stack.W2c2.Reader.Sections.{
  remaining, peek, skipped, sub32, take_unchecked, read_sized_code,
}
use sandbox_stack.W2c2.Reader.Advance.{
  Advances, Leaves, IsRest-self, drop-IsRest, bind-Advances, done-Advances,
}
use sandbox_stack.W2c2.Reader.Advance.{
  fail-Advances, require-Advances, if-Advances, or_report-Advances,
}
use sandbox_stack.W2c2.Reader.Advance.{
  read_array-Advances, leb_u32-Moves, read_byte-Moves, read_name-Moves,
}
use sandbox_stack.W2c2.Reader.Advance.Entries.{read_value_type-Moves, read_global_type-Advances}
use sandbox_stack.W2c2.Reader.Advance.Entries.{read_memory_type-Advances, read_table_type-Advances}
use sandbox_stack.W2c2.Reader.Advance.Entries.{read_global-Advances, read_function_type-Advances}
use sandbox_stack.W2c2.Reader.Advance.Entries.{read_export-Advances, read_data_segment-Advances}
use sandbox_stack.W2c2.Reader.Advance.Entries.{read_element_segment-Advances}

module _ {F : Type 0} where
  pub remaining-Advances : Advances F remaining
  remaining-Advances = record { leaves = λ b. IsRest-self b }

  pub peek-Advances : (n : ℕ) → Advances F (peek n)
  peek-Advances n = record { leaves = λ b. IsRest-self b }

  pub skipped-Advances : (n : ℕ) → Advances F (skipped n)
  skipped-Advances n = record { leaves = λ b. unfold skip skip_unchecked in drop-IsRest _ b }

  -- An array behind its count, with what is made of it.
  counted-Advances :
      {A B : Type 0} {p : Parser A} (what : ℕ → Parser (Unit {0})) (f : List A → B)
      (e : ReaderError)
      → ((n : ℕ) → Advances F (what n))
      → Advances F p
      → Advances F
          (or_report leb_u32 e >>= λ n. what n >>= λ _. read_array n p >>= λ xs. done (f xs))
  counted-Advances what f e h k = bind-Advances (or_report-Advances e leb_u32-Moves) (λ n.
      bind-Advances (h n)
        (λ _. bind-Advances (read_array-Advances n k) (λ xs. done-Advances (f xs))))

  pub apply_export-Advances :
      (n : ℕ) (fs : List Function) (e : Export) → Advances F (Sections.apply_export n fs e)
  unfolding Sections.apply_export
  apply_export-Advances n fs e =
      if-Advances _ (done-Advances fs)
        (if-Advances _ (fail-Advances _) (if-Advances _ (done-Advances fs) (done-Advances _)))

  module _ (alloc : Allocator) where
    allocate-Advances : (what : _) (n : ℕ) → Advances F (allocate alloc what n)
    allocate-Advances what n = require-Advances (alloc what n) _

    custom_contents-Advances :
        (name from : List ℕ) (left : ℕ) (m : Module)
        → Advances F (Sections.custom_contents alloc name from left m)
    custom_contents-Advances name from left m =
        if-Advances _
          (bind-Advances
            (bind-Advances
              (require-Advances (alloc debug_sections (length m.debug_sections + 1))
                debug_section_append_failed)
              (λ _. skipped-Advances left))
            (λ _. done-Advances _))
          (bind-Advances (skipped-Advances left) (λ _. done-Advances m))

    pub read_custom_section-Advances :
        (size : ℕ) (m : Module) → Advances F (Sections.read_custom_section alloc size m)
    unfolding Sections.read_custom_section
    read_custom_section-Advances size m = bind-Advances remaining-Advances (λ before.
        bind-Advances (or_report-Advances invalid_custom_section_name (read_name-Moves alloc))
          (λ name. bind-Advances remaining-Advances (λ after.
            bind-Advances (peek-Advances after)
              (λ from. custom_contents-Advances name from (sub32 size (before - after)) m))))

    pub read_type_section-Advances :
        (size : ℕ) (m : Module) → Advances F (Sections.read_type_section alloc size m)
    unfolding Sections.read_type_section
    read_type_section-Advances size m =
        counted-Advances (allocate alloc _) _ _ (allocate-Advances _)
          (read_function_type-Advances alloc)

    append-Advances : {A : Type 0} (xs : List A) (x : A) → Advances F (Sections.append alloc xs x)
    append-Advances xs x = bind-Advances (allocate-Advances _ _) (λ _. done-Advances _)

    read_function_import-Advances :
        (module_name name : List ℕ) (m : Module)
        → Advances F (Sections.read_function_import alloc module_name name m)
    unfolding Sections.read_function_import
    read_function_import-Advances module_name name m =
        bind-Advances (or_report-Advances _ leb_u32-Moves)
          (λ x. bind-Advances (append-Advances _ _) (λ xs. done-Advances _))

    read_table_import-Advances :
        (module_name name : List ℕ) (m : Module)
        → Advances F (Sections.read_table_import alloc module_name name m)
    unfolding Sections.read_table_import
    read_table_import-Advances module_name name m =
        bind-Advances read_table_type-Advances
          (λ x. bind-Advances (append-Advances _ _) (λ xs. done-Advances _))

    read_memory_import-Advances :
        (module_name name : List ℕ) (m : Module)
        → Advances F (Sections.read_memory_import alloc module_name name m)
    unfolding Sections.read_memory_import
    read_memory_import-Advances module_name name m =
        bind-Advances read_memory_type-Advances
          (λ x. bind-Advances (append-Advances _ _) (λ xs. done-Advances _))

    read_global_import-Advances :
        (module_name name : List ℕ) (m : Module)
        → Advances F (Sections.read_global_import alloc module_name name m)
    unfolding Sections.read_global_import
    read_global_import-Advances module_name name m =
        bind-Advances read_global_type-Advances
          (λ x. bind-Advances (append-Advances _ _) (λ xs. done-Advances _))

    import_of_kind-Advances :
        (kind : ℕ) (module_name name : List ℕ) (m : Module)
        → Advances F (Sections.import_of_kind alloc kind module_name name m)
    import_of_kind-Advances kind module_name name m =
        if-Advances (kind == 0) (read_function_import-Advances module_name name m) (
          if-Advances (kind == 3) (read_global_import-Advances module_name name m) (
            if-Advances (kind == 2) (read_memory_import-Advances module_name name m) (
              if-Advances (kind == 1) (read_table_import-Advances module_name name m)
                (fail-Advances _))))

    read_import-Advances : (m : Module) → Advances F (Sections.read_import alloc m)
    unfolding Sections.read_import
    read_import-Advances m =
        bind-Advances
          (or_report-Advances invalid_import_section_import_module (read_name-Moves alloc))
          (λ module_name.
            bind-Advances
              (or_report-Advances invalid_import_section_import_name (read_name-Moves alloc))
              (λ name.
                bind-Advances
                  (or_report-Advances invalid_import_section_import_kind read_byte-Moves)
                  (λ kind.
                    bind-Advances (require-Advances (ltb kind 4) invalid_import_section_import_kind)
                      (λ _. import_of_kind-Advances kind module_name name m))))

    read_imports-Advances : (n : ℕ) (m : Module) → Advances F (Sections.read_imports alloc n m)
    unfolding Sections.read_imports
    read_imports-Advances zero m = done-Advances m
    read_imports-Advances (suc n) m =
        bind-Advances (read_import-Advances m) (read_imports-Advances n)

    pub read_import_section-Advances :
        (size : ℕ) (m : Module) → Advances F (Sections.read_import_section alloc size m)
    unfolding Sections.read_import_section
    read_import_section-Advances size m =
        bind-Advances (or_report-Advances _ leb_u32-Moves) (λ n. read_imports-Advances n m)

    read_function-Advances : (n : ℕ) → Advances F (Sections.read_function alloc n)
    unfolding Sections.read_function
    read_function-Advances n =
        bind-Advances (or_report-Advances _ leb_u32-Moves)
          (λ i. bind-Advances (require-Advances _ _) (λ _. done-Advances _))

    pub read_function_section-Advances :
        (size : ℕ) (m : Module) → Advances F (Sections.read_function_section alloc size m)
    unfolding Sections.read_function_section
    read_function_section-Advances size m =
        counted-Advances (allocate alloc _) _ _ (allocate-Advances _) (read_function-Advances _)

    pub read_memory_section-Advances :
        (size : ℕ) (m : Module) → Advances F (Sections.read_memory_section alloc size m)
    unfolding Sections.read_memory_section
    read_memory_section-Advances size m =
        counted-Advances (allocate alloc _) _ _ (allocate-Advances _) read_memory_type-Advances

    pub read_global_section-Advances :
        (size : ℕ) (m : Module) → Advances F (Sections.read_global_section alloc size m)
    unfolding Sections.read_global_section
    read_global_section-Advances size m =
        counted-Advances (allocate alloc _) _ _ (allocate-Advances _) read_global-Advances

    pub read_element_section-Advances :
        (size : ℕ) (m : Module) → Advances F (Sections.read_element_section alloc size m)
    unfolding Sections.read_element_section
    read_element_section-Advances size m =
        counted-Advances (allocate alloc _) _ _ (allocate-Advances _)
          (read_element_segment-Advances alloc)

    pub read_table_section-Advances :
        (size : ℕ) (m : Module) → Advances F (Sections.read_table_section alloc size m)
    unfolding Sections.read_table_section
    read_table_section-Advances size m =
        counted-Advances (allocate alloc _) _ _ (allocate-Advances _) read_table_type-Advances

    pub read_data_section-Advances :
        (size : ℕ) (m : Module) → Advances F (Sections.read_data_section alloc size m)
    unfolding Sections.read_data_section
    read_data_section-Advances size m =
        counted-Advances (allocate alloc _) _ _ (allocate-Advances _)
          (read_data_segment-Advances alloc)

    read_exports-Advances :
        (k n : ℕ) (fs : List Function) → Advances F (Sections.read_exports alloc k n fs)
    unfolding Sections.read_exports
    read_exports-Advances k zero fs = done-Advances _
    read_exports-Advances k (suc n) fs = bind-Advances (read_export-Advances alloc) (λ e.
        bind-Advances (apply_export-Advances k fs e)
          (λ fs'. bind-Advances (read_exports-Advances k n fs') (λ r. done-Advances _)))

    pub read_export_section-Advances :
        (size : ℕ) (m : Module) → Advances F (Sections.read_export_section alloc size m)
    unfolding Sections.read_export_section
    read_export_section-Advances size m = bind-Advances (or_report-Advances _ leb_u32-Moves) (λ n.
        bind-Advances (allocate-Advances _ _)
          (λ _. bind-Advances (read_exports-Advances _ n m.functions) (λ r. done-Advances _)))

    pub read_start_section-Advances :
        (size : ℕ) (m : Module) → Advances F (Sections.read_start_section alloc size m)
    unfolding Sections.read_start_section
    read_start_section-Advances size m =
        bind-Advances (or_report-Advances _ leb_u32-Moves) (λ i. done-Advances _)

    pub read_data_count_section-Advances :
        (size : ℕ) (m : Module) → Advances F (Sections.read_data_count_section alloc size m)
    unfolding Sections.read_data_count_section
    read_data_count_section-Advances size m =
        bind-Advances (or_report-Advances _ leb_u32-Moves) (λ i. done-Advances _)

    read_declaration-Advances : Advances F (Sections.read_declaration alloc)
    unfolding Sections.read_declaration
    read_declaration-Advances =
        bind-Advances (or_report-Advances _ leb_u32-Moves)
          (λ n. bind-Advances (or_report-Advances _ read_value_type-Moves) (λ t. done-Advances _))

    pub read_code_locals_declarations-Advances :
        Advances F (Sections.read_code_locals_declarations alloc)
    unfolding Sections.read_code_locals_declarations
    read_code_locals_declarations-Advances =
        bind-Advances (or_report-Advances _ leb_u32-Moves) (λ n.
          bind-Advances (require-Advances _ _)
            (λ _. read_array-Advances n read_declaration-Advances))

-- The one reader that may leave the buffer.
module _ {F : Type 0} (may_fault : F) (alloc : Allocator) where
  take_unchecked-Leaves :
      (c : Bool) (n : ℕ) (b : Buffer) → Leaves F b (if c then fault else ok (take n b) (drop n b))
  take_unchecked-Leaves true n b = may_fault
  take_unchecked-Leaves false n b = drop-IsRest n b

  take_unchecked-Advances : (n : ℕ) → Advances F (take_unchecked n)
  take_unchecked-Advances n = record {
    leaves =
        λ b. unfold take_unchecked skip_unchecked in take_unchecked-Leaves (ltb (length b) n) n b;
  }

  read_sized_code-Advances :
      (k l : ℕ) (f : Function) (size : ℕ)
      → Advances F (read_sized_code k l f (Sections.read_code_locals_declarations alloc) size)
  unfolding read_sized_code
  read_sized_code-Advances k l f size = bind-Advances remaining-Advances (λ before.
      bind-Advances (require-Advances (not (ltb before size)) invalid_code_section_code_size) (λ _.
        bind-Advances (peek-Advances size) (λ hashed.
          bind-Advances (read_code_locals_declarations-Advances alloc) (λ locals.
            bind-Advances remaining-Advances (λ after.
              bind-Advances (take_unchecked-Advances (sub32 size (before - after))) (λ code.
                done-Advances (record f {
                  locals_declarations = locals;
                  code = code;
                  start = k - after - l;
                  hashed = hashed;
                })))))))

  read_code-Advances : (k l : ℕ) (f : Function) → Advances F (Sections.read_code alloc k l f)
  unfolding Sections.read_code
  read_code-Advances k l f =
      bind-Advances (or_report-Advances _ leb_u32-Moves) (read_sized_code-Advances k l f)

  read_codes-Advances :
      (k l : ℕ) (fs : List Function) → Advances F (Sections.read_codes alloc k l fs)
  unfolding Sections.read_codes
  read_codes-Advances k l [] = done-Advances []
  read_codes-Advances k l (f ∷ fs) =
      bind-Advances (read_code-Advances k l f)
        (λ f'. bind-Advances (read_codes-Advances k l fs) (λ fs'. done-Advances _))

  pub read_code_section-Advances :
      (size : ℕ) (m : Module) → Advances F (Sections.read_code_section alloc size m)
  unfolding Sections.read_code_section
  read_code_section-Advances size m = bind-Advances remaining-Advances (λ before.
      bind-Advances (or_report-Advances invalid_code_section_function_count leb_u32-Moves) (λ n.
        bind-Advances
          (require-Advances (n == length m.functions) invalid_code_section_function_count)
          (λ _.
            bind-Advances (read_codes-Advances m.file_length (m.file_length - before) m.functions)
              (λ fs. done-Advances (record m { functions = fs })))))
