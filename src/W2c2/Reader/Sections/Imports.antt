-- ===== src/W2c2/Reader/Sections/Imports.antt =====
-- The import section of w2c2/reader.c.
use sandbox_stack.Prelude.{ℕ, zero, suc, ◌+◌, List, [], ◌∷◌}
use sandbox_stack.Prelude.{◌++◌, length, ltb, ◌==◌, if◌then◌else◌}
use sandbox_stack.W2c2.Buffer.{read_byte}
use sandbox_stack.W2c2.Reader.Parse.{Parser, done, fail, ◌>>=◌, ◌>>◌, require}
use sandbox_stack.W2c2.Reader.Parse.{or_report, leb_u32, Allocator, allocate, read_name}
use sandbox_stack.W2c2.Reader.Parse.{imports}
use sandbox_stack.W2c2.Reader.Parse.{invalid_type_section_type_count}
use sandbox_stack.W2c2.Reader.Parse.{
  invalid_import_section_import_module, invalid_import_section_import_name,
}
use sandbox_stack.W2c2.Reader.Parse.{invalid_import_section_import_kind}
use sandbox_stack.W2c2.Reader.Parse.{invalid_import_section_function_type_index}
use sandbox_stack.W2c2.Reader.Module.{Import, Module}
use sandbox_stack.W2c2.Reader.Entries.{read_global_type, read_memory_type, read_table_type}

module _ (alloc : Allocator) where
  -- Appending to an array of imports
  abbrev pub append : {A : Type 0} → List A → A → Parser (List A)
  append xs x = allocate alloc imports (length xs + 1) >> done (xs ++ (x ∷ []))

  unfoldable pub imported : {A : Type 0} → List ℕ → List ℕ → A → Import A
  imported module_name name x = record { import_module = module_name; name = name; what = x }

  -- `wasmReadFunctionImport`, `wasmReadTableImport`, `wasmReadMemoryImport`, `wasmReadGlobalImport`
  unfoldable pub read_function_import : List ℕ → List ℕ → Module → Parser Module
  unfolding leb_u32 imported
  read_function_import module_name name m = do
    i ← or_report leb_u32 invalid_import_section_function_type_index
    is ← append m.function_imports (imported module_name name i)
    done (record m { function_imports = is })

  unfoldable pub read_table_import : List ℕ → List ℕ → Module → Parser Module
  unfolding read_table_type imported
  read_table_import module_name name m = do
    t ← read_table_type
    is ← append m.table_imports (imported module_name name t)
    done (record m { table_imports = is })

  unfoldable pub read_memory_import : List ℕ → List ℕ → Module → Parser Module
  unfolding read_memory_type imported
  read_memory_import module_name name m = do
    t ← read_memory_type
    is ← append m.memory_imports (imported module_name name t)
    done (record m { memory_imports = is })

  unfoldable pub read_global_import : List ℕ → List ℕ → Module → Parser Module
  unfolding read_global_type imported
  read_global_import module_name name m = do
    t ← read_global_type
    is ← append m.global_imports (imported module_name name t)
    done (record m { global_imports = is })

  abbrev pub import_of_kind : ℕ → List ℕ → List ℕ → Module → Parser Module
  import_of_kind kind module_name name m =
      if kind == 0
      then read_function_import module_name name m
      else if kind == 3
      then read_global_import module_name name m
      else if kind == 2
      then read_memory_import module_name name m
      else if kind == 1
      then read_table_import module_name name m
      else fail invalid_import_section_import_kind

  -- `wasmReadImport`
  unfoldable pub read_import : Module → Parser Module
  unfolding read_name read_byte read_function_import read_table_import read_memory_import
      read_global_import
  read_import m = do
    module_name ← or_report (read_name alloc) invalid_import_section_import_module
    name ← or_report (read_name alloc) invalid_import_section_import_name
    kind ← or_report read_byte invalid_import_section_import_kind
    require (ltb kind 4) invalid_import_section_import_kind
    import_of_kind kind module_name name m

  unfoldable pub read_imports : ℕ → Module → Parser Module
  unfolding read_import
  read_imports zero m = done m
  read_imports (suc n) m = read_import m >>= λ m'. read_imports n m'

  -- `wasmReadImportSection`; its error for the count is the type section's.
  unfoldable pub read_import_section : ℕ → Module → Parser Module
  unfolding leb_u32 read_imports
  read_import_section size m = do
    n ← or_report leb_u32 invalid_type_section_type_count
    read_imports n m
