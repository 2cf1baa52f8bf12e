-- ===== src/W2c2/Reader/Sections.antt =====
-- The section readers of w2c2/reader.c. Each takes the section's size and the module so far.
mod Skip
mod Imports
mod Functions
unfoldable pub use sandbox_stack.W2c2.Reader.Sections.Skip.{take_unchecked}
pub use sandbox_stack.W2c2.Reader.Sections.Skip.{remaining, peek, sub32, skipped}
unfoldable pub use sandbox_stack.W2c2.Reader.Sections.Imports.{
  imported, read_function_import, read_table_import, read_memory_import, read_global_import,
  read_import, read_imports, read_import_section,
}
pub use sandbox_stack.W2c2.Reader.Sections.Imports.{append, import_of_kind}
unfoldable pub use sandbox_stack.W2c2.Reader.Sections.Functions.{
  read_sized_code, apply_export, read_declaration, read_code_locals_declarations, read_function,
  read_function_section, read_exports, read_export_section, read_code, read_codes,
  read_code_section,
}
pub use sandbox_stack.W2c2.Reader.Sections.Functions.{named}
use sandbox_stack.Prelude.{
  ℕ, zero, suc, ◌+◌, ◌-◌, ◌^◌, ◌%◌, true, not, List, [], ◌∷◌, Option, none, some,
}
use sandbox_stack.Prelude.{◌++◌, length, take, set, get_elem?, ltb, leb, ◌==◌, if◌then◌else◌}
use sandbox_stack.W2c2.Buffer.{read_byte, skip, skip_unchecked, same_bytes}
use sandbox_stack.W2c2.Reader.Parse.{ok, fault, Parser, done, fail, ◌>>=◌, ◌>>◌, require}
use sandbox_stack.W2c2.Reader.Parse.{or_report, leb_u32, Allocator, allocate, read_array, read_name}
use sandbox_stack.W2c2.Reader.Parse.{
  locals_declarations, function_types, functions, memories, globals, exports,
}
use sandbox_stack.W2c2.Reader.Parse.{
  data_segments, tables, element_segments, imports, debug_sections,
}
use sandbox_stack.W2c2.Reader.Parse.{invalid_custom_section_name}
use sandbox_stack.W2c2.Reader.Parse.{debug_section_append_failed, invalid_type_section_type_count}
use sandbox_stack.W2c2.Reader.Parse.{
  invalid_import_section_import_module, invalid_import_section_import_name,
}
use sandbox_stack.W2c2.Reader.Parse.{invalid_import_section_import_kind}
use sandbox_stack.W2c2.Reader.Parse.{
  invalid_import_section_function_type_index, invalid_function_type_index,
}
use sandbox_stack.W2c2.Reader.Parse.{invalid_function_section_function_count}
use sandbox_stack.W2c2.Reader.Parse.{
  invalid_code_section_function_count, invalid_code_section_code_size,
}
use sandbox_stack.W2c2.Reader.Parse.{invalid_code_section_locals_declarations}
use sandbox_stack.W2c2.Reader.Parse.{
  invalid_export_section_export_count, invalid_export_section_export_index,
}
use sandbox_stack.W2c2.Reader.Parse.{
  invalid_global_section_global_count, invalid_memory_section_memory_count,
}
use sandbox_stack.W2c2.Reader.Parse.{invalid_data_section_data_segment_count}
use sandbox_stack.W2c2.Reader.Parse.{
  invalid_data_count_section_data_count, invalid_table_section_table_count,
}
use sandbox_stack.W2c2.Reader.Parse.{invalid_element_section_element_segment_count}
use sandbox_stack.W2c2.Reader.Parse.{invalid_start_section_function_index}
use sandbox_stack.W2c2.Reader.Module.{LocalsDeclaration, Function, Export, Import, Module}
use sandbox_stack.W2c2.Reader.Entries.{
  read_value_type, read_global_type, read_memory_type, read_table_type,
}
use sandbox_stack.W2c2.Reader.Entries.{
  read_global, read_function_type, read_export, read_data_segment,
}
use sandbox_stack.W2c2.Reader.Entries.{read_element_segment}

module _ (alloc : Allocator) where
  -- ".debug_"
  abbrev pub debug_prefix : List ℕ
  debug_prefix = 46 ∷ 100 ∷ 101 ∷ 98 ∷ 117 ∷ 103 ∷ 95 ∷ []

  -- A debug section is kept, with the rest of the file and the length that it claims.
  abbrev pub keep_debug : List ℕ → List ℕ → ℕ → Module → Parser Module
  keep_debug name from left m =
      require (alloc debug_sections (length m.debug_sections + 1)) debug_section_append_failed
      >> skipped left
      >> done (record m {
        debug_sections =
            m.debug_sections ++ (record { name = name; from = from; section_length = left } ∷ []);
      })

  abbrev pub custom_contents : List ℕ → List ℕ → ℕ → Module → Parser Module
  custom_contents name from left m =
      if same_bytes (take 7 name) debug_prefix
      then keep_debug name from left m
      else (skipped left >> done m)

  -- `wasmReadCustomSection`
  unfoldable pub read_custom_section : ℕ → Module → Parser Module
  unfolding read_name
  read_custom_section size m = do
    before ← remaining
    name ← or_report (read_name alloc) invalid_custom_section_name
    after ← remaining
    from ← peek after
    custom_contents name from (sub32 size (before - after)) m

  -- `wasmReadTypeSection`
  unfoldable pub read_type_section : ℕ → Module → Parser Module
  unfolding leb_u32 read_array read_function_type
  read_type_section size m = do
    n ← or_report leb_u32 invalid_type_section_type_count
    allocate alloc function_types n
    ts ← read_array n (read_function_type alloc)
    done (record m { function_types = ts })

  -- `wasmReadMemorySection`
  unfoldable pub read_memory_section : ℕ → Module → Parser Module
  unfolding leb_u32 read_array read_memory_type
  read_memory_section size m = do
    n ← or_report leb_u32 invalid_memory_section_memory_count
    allocate alloc memories n
    ms ← read_array n read_memory_type
    done (record m { memories = ms })

  -- `wasmReadGlobalSection`
  unfoldable pub read_global_section : ℕ → Module → Parser Module
  unfolding leb_u32 read_array read_global
  read_global_section size m = do
    n ← or_report leb_u32 invalid_global_section_global_count
    allocate alloc globals n
    gs ← read_array n read_global
    done (record m { globals = gs })

  -- `wasmReadStartSection`
  unfoldable pub read_start_section : ℕ → Module → Parser Module
  unfolding leb_u32
  read_start_section size m = do
    i ← or_report leb_u32 invalid_start_section_function_index
    done (record m { start_function_index = i; has_start_function = true })

  -- `wasmReadElementSection`
  unfoldable pub read_element_section : ℕ → Module → Parser Module
  unfolding leb_u32 read_array read_element_segment
  read_element_section size m = do
    n ← or_report leb_u32 invalid_element_section_element_segment_count
    allocate alloc element_segments n
    es ← read_array n (read_element_segment alloc)
    done (record m { element_segments = es })

  -- `wasmReadTableSection`
  unfoldable pub read_table_section : ℕ → Module → Parser Module
  unfolding leb_u32 read_array read_table_type
  read_table_section size m = do
    n ← or_report leb_u32 invalid_table_section_table_count
    allocate alloc tables n
    ts ← read_array n read_table_type
    done (record m { tables = ts })

  -- `wasmReadDataSection`
  unfoldable pub read_data_section : ℕ → Module → Parser Module
  unfolding leb_u32 read_array read_data_segment
  read_data_section size m = do
    n ← or_report leb_u32 invalid_data_section_data_segment_count
    allocate alloc data_segments n
    ds ← read_array n (read_data_segment alloc)
    done (record m { data_segments = ds })

  -- `wasmReadDataCountSection`
  unfoldable pub read_data_count_section : ℕ → Module → Parser Module
  unfolding leb_u32
  read_data_count_section size m = do
    n ← or_report leb_u32 invalid_data_count_section_data_count
    done m
