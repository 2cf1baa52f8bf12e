-- ===== src/W2c2/Reader/File.antt =====
-- A whole file: the magic number and the sections (w2c2/reader.c).
use sandbox_stack.Prelude.{ℕ, zero, suc, ◌-◌, List, [], ◌∷◌, Option, none, some}
use sandbox_stack.Prelude.{length, get_elem?, ◌==◌, if◌then◌else◌}
use sandbox_stack.W2c2.Buffer.{Buffer, read_byte, read_equal, at_end}
use sandbox_stack.W2c2.Reader.Parse.{
  Result, ok, err, fault, Parser, done, ◌>>=◌, ◌>>◌, or_report, leb_u32,
}
use sandbox_stack.W2c2.Reader.Parse.{Allocator, module_struct}
use sandbox_stack.W2c2.Reader.Parse.{invalid_magic, allocation_failed, invalid_section_id}
use sandbox_stack.W2c2.Reader.Parse.{invalid_section_size, incorrect_section_read}
use sandbox_stack.W2c2.Reader.Module.{Module, empty_module}
use sandbox_stack.W2c2.Reader.Sections.{skipped, read_custom_section, read_type_section}
use sandbox_stack.W2c2.Reader.Sections.{
  read_import_section, read_function_section, read_table_section,
}
use sandbox_stack.W2c2.Reader.Sections.{
  read_memory_section, read_global_section, read_export_section,
}
use sandbox_stack.W2c2.Reader.Sections.{read_start_section, read_element_section, read_code_section}
use sandbox_stack.W2c2.Reader.Sections.{read_data_section, read_data_count_section}

abbrev pub SectionReader : Type 0
SectionReader = ℕ → Module → Parser Module

-- `wasmMagic`
abbrev pub magic : List ℕ
magic = 0x00 ∷ 0x61 ∷ 0x73 ∷ 0x6D ∷ 0x01 ∷ 0x00 ∷ 0x00 ∷ 0x00 ∷ []

-- `end != expectedEnd`
abbrev pub check_end : ℕ → ℕ → Result Module → Result Module
check_end before size (ok m b) =
    if before - length b == size then ok m b else err incorrect_section_read
check_end before size (err e) = err e
check_end before size fault = fault

-- The reader that stands in the table, or a skip of the section where there is none.
abbrev pub read_contents : Option SectionReader → ℕ → Module → Parser Module
read_contents none size m = skipped size >> done m
read_contents (some r) size m = λ b. check_end (length b) size (r size m b)

-- `if (*error != NULL) goto fail;`, or the next round
abbrev pub go_on :
    Result Module → (Module → Buffer → Option (Result Module)) → Option (Result Module)
go_on (ok m b) next = next m b
go_on (err e) next = some (err e)
go_on fault next = some fault

module _ (alloc : Allocator) where
  -- `wasmSectionReaders`
  abbrev pub section_readers : List SectionReader
  section_readers =
      read_custom_section alloc
      ∷ read_type_section alloc
      ∷ read_import_section alloc
      ∷ read_function_section alloc
      ∷ read_table_section alloc
      ∷ read_memory_section alloc
      ∷ read_global_section alloc
      ∷ read_export_section alloc
      ∷ read_start_section alloc
      ∷ read_element_section alloc
      ∷ read_code_section alloc
      ∷ read_data_section alloc
      ∷ read_data_count_section alloc
      ∷ []

  -- `wasmModuleReadSection`
  unfoldable pub read_section : Module → Parser Module
  unfolding read_byte leb_u32
  read_section m = do
    id ← or_report read_byte invalid_section_id
    size ← or_report leb_u32 invalid_section_size
    read_contents (get_elem? section_readers id) size m

  -- The `while` of `wasmModuleRead`; `none` means that the fuel ran out.
  unfoldable pub read_sections : ℕ → Module → Buffer → Option (Result Module)
  unfolding at_end read_section
  read_sections zero m b = none
  read_sections (suc fuel) m b =
      if at_end b then some (ok m b) else go_on (read_section m b) (read_sections fuel)

  abbrev pub read_after_magic : ℕ → Option Buffer → Option (Result Module)
  read_after_magic n none = some (err invalid_magic)
  read_after_magic n (some b) =
      if alloc module_struct 1
      then read_sections (suc (length b)) (empty_module n) b
      else some (err allocation_failed)

  -- `wasmModuleRead`, on the whole file, with fuel for a section to each byte
  unfoldable pub module_read : Buffer → Option (Result Module)
  unfolding read_equal read_sections
  module_read b = read_after_magic (length b) (read_equal b magic)
