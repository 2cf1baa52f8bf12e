-- ===== src/W2c2/Reader/Sections/Functions.antt =====
-- The sections of w2c2/reader.c that make the functions of a module: function, code and export section.
use sandbox_stack.Prelude.{
  ℕ, zero, suc, ◌+◌, ◌-◌, ◌^◌, ◌%◌, true, not, List, [], ◌∷◌, Option, none, some,
}
use sandbox_stack.Prelude.{length, set, get_elem?, ltb, leb, ◌==◌, if◌then◌else◌}
use sandbox_stack.W2c2.Reader.Parse.{Parser, done, fail, ◌>>=◌, ◌>>◌, require}
use sandbox_stack.W2c2.Reader.Parse.{or_report, leb_u32, Allocator, allocate, read_array}
use sandbox_stack.W2c2.Reader.Parse.{locals_declarations, functions, exports}
use sandbox_stack.W2c2.Reader.Parse.{invalid_function_type_index}
use sandbox_stack.W2c2.Reader.Parse.{invalid_function_section_function_count}
use sandbox_stack.W2c2.Reader.Parse.{
  invalid_code_section_function_count, invalid_code_section_code_size,
}
use sandbox_stack.W2c2.Reader.Parse.{invalid_code_section_locals_declarations}
use sandbox_stack.W2c2.Reader.Parse.{
  invalid_export_section_export_count, invalid_export_section_export_index,
}
use sandbox_stack.W2c2.Reader.Module.{LocalsDeclaration, Function, Export, Module}
use sandbox_stack.W2c2.Reader.Entries.{read_value_type}
use sandbox_stack.W2c2.Reader.Entries.{read_export}
use sandbox_stack.W2c2.Reader.Sections.Skip.{remaining, peek, sub32, take_unchecked}

-- `wasmReadCodeSection`: one function's code, from its size on
unfoldable pub read_sized_code :
    ℕ → ℕ → Function → Parser (List LocalsDeclaration) → ℕ → Parser Function
unfolding take_unchecked
read_sized_code file_length code_start f read_locals size = do
  before ← remaining
  require (not (ltb before size)) invalid_code_section_code_size
  hashed ← peek size
  locals ← read_locals
  after ← remaining
  code ← take_unchecked (sub32 size (before - after))
  done (record f {
    locals_declarations = locals;
    code = code;
    start = file_length - after - code_start;
    hashed = hashed;
  })

-- `functions.functions[i].exportName = name`
abbrev pub named : Option Function → List Function → ℕ → List ℕ → List Function
named none fs i name = fs
named (some f) fs i name = set fs i (record f { export_name = some name })

-- The checks of `wasmReadExportSection` on an export, and the functions after it.
unfoldable pub apply_export : ℕ → List Function → Export → Parser (List Function)
apply_export import_count fs e =
    if not (e.kind == 0)
    then done fs
    else if leb ((import_count + length fs) % 2 ^ 32) e.index
    then fail invalid_export_section_export_index
    else if ltb e.index import_count
    then done fs
    else done (named (get_elem? fs (e.index - import_count)) fs (e.index - import_count) e.name)

module _ (alloc : Allocator) where
  unfoldable pub read_declaration : Parser LocalsDeclaration
  unfolding leb_u32 read_value_type
  read_declaration = do
    n ← or_report leb_u32 invalid_code_section_locals_declarations
    t ← or_report read_value_type invalid_code_section_locals_declarations
    done (record { type = t; count = n })

  -- `wasmReadCodeLocalsDeclarations`; the caller reports its failure.
  unfoldable pub read_code_locals_declarations : Parser (List LocalsDeclaration)
  unfolding leb_u32 read_array read_declaration
  read_code_locals_declarations = do
    n ← or_report leb_u32 invalid_code_section_locals_declarations
    require (if n == 0 then true else alloc locals_declarations n)
        invalid_code_section_locals_declarations
    read_array n read_declaration

  -- One entry of the function section, against the number of types
  unfoldable pub read_function : ℕ → Parser Function
  unfolding leb_u32
  read_function type_count = do
    i ← or_report leb_u32 invalid_function_type_index
    require (ltb i type_count) invalid_function_type_index
    done (record {
      function_type_index = i;
      locals_declarations = [];
      code = [];
      start = 0;
      hashed = [];
      export_name = none;
    })

  -- `wasmReadFunctionSection`
  unfoldable pub read_function_section : ℕ → Module → Parser Module
  unfolding leb_u32 read_array read_function
  read_function_section size m = do
    n ← or_report leb_u32 invalid_function_section_function_count
    allocate alloc functions n
    fs ← read_array n (read_function (length m.function_types))
    done (record m { functions = fs })

  -- The loop of `wasmReadExportSection`
  unfoldable pub read_exports : ℕ → ℕ → List Function → Parser (List Export × List Function)
  unfolding read_export apply_export
  read_exports import_count zero fs = done ([], fs)
  read_exports import_count (suc n) fs = do
    e ← read_export alloc
    fs' ← apply_export import_count fs e
    r ← read_exports import_count n fs'
    done (e ∷ r.0, r.1)

  -- `wasmReadExportSection`
  unfoldable pub read_export_section : ℕ → Module → Parser Module
  unfolding leb_u32 read_exports
  read_export_section size m = do
    n ← or_report leb_u32 invalid_export_section_export_count
    allocate alloc exports n
    r ← read_exports (length m.function_imports) n m.functions
    done (record m { exports = r.0; functions = r.1 })

  unfoldable pub read_code : ℕ → ℕ → Function → Parser Function
  unfolding leb_u32 read_sized_code read_code_locals_declarations
  read_code file_length code_start f = do
    size ← or_report leb_u32 invalid_code_section_code_size
    read_sized_code file_length code_start f read_code_locals_declarations size

  unfoldable pub read_codes : ℕ → ℕ → List Function → Parser (List Function)
  unfolding read_code
  read_codes file_length code_start [] = done []
  read_codes file_length code_start (f ∷ fs) = do
    f' ← read_code file_length code_start f
    fs' ← read_codes file_length code_start fs
    done (f' ∷ fs')

  -- `wasmReadCodeSection`
  unfoldable pub read_code_section : ℕ → Module → Parser Module
  unfolding leb_u32 read_codes
  read_code_section size m = do
    before ← remaining
    n ← or_report leb_u32 invalid_code_section_function_count
    require (n == length m.functions) invalid_code_section_function_count
    fs ← read_codes m.file_length (m.file_length - before) m.functions
    done (record m { functions = fs })
