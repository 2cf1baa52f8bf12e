-- ===== src/W2c2/Reader/Module.antt =====
-- The module that the reader builds: w2c2/module.h and the headers of its parts. An array and its
-- count are a list. A `Buffer` that points into the file is the bytes that it holds.
use sandbox_stack.Prelude.{ℕ, Bool, false, List, [], Option}

-- `WasmValueType`
pub data ValueType : Type 0 where
  i32 i64 f32 f64 : ValueType

-- `WasmFunctionType`
pub record FunctionType : Type 0 where
  pub parameter_types : List ValueType
  pub result_types : List ValueType

-- `WasmGlobalType`
pub record GlobalType : Type 0 where
  pub value_type : ValueType
  pub mutable : Bool

-- `WasmLocalsDeclaration`
pub record LocalsDeclaration : Type 0 where
  pub type : ValueType
  pub count : ℕ

-- `WasmFunction`. Of `hash` it holds what is hashed: the locals' declarations and the code.
pub record Function : Type 0 where
  pub function_type_index : ℕ
  pub locals_declarations : List LocalsDeclaration
  pub code : List ℕ
  pub start : ℕ
  pub hashed : List ℕ
  pub export_name : Option (List ℕ)

-- `WasmMemory` and `WasmTable`
pub record Limits : Type 0 where
  pub min : ℕ
  pub max : ℕ
  pub shared : Bool

-- `WasmGlobal`
pub record Global : Type 0 where
  pub type : GlobalType
  pub init : List ℕ

-- `WasmExport`; the kind is a number below 4.
pub record Export : Type 0 where
  pub name : List ℕ
  pub kind : ℕ
  pub index : ℕ

-- `WasmFunctionImport`, `WasmGlobalImport`, and `WasmMemoryImport` and `WasmTableImport`
pub record Import (A : Type 0) : Type 0 where
  pub import_module : List ℕ
  pub name : List ℕ
  pub what : A

-- `WasmDataSegment`
pub record DataSegment : Type 0 where
  pub memory_index : ℕ
  pub offset : List ℕ
  pub bytes : List ℕ
  pub passive : Bool

-- `WasmElementSegment`
pub record ElementSegment : Type 0 where
  pub table_index : ℕ
  pub offset : List ℕ
  pub function_indices : List ℕ

-- `WasmDebugSection`: the file from the section's contents on, and the length that is recorded.
pub record DebugSection : Type 0 where
  pub name : List ℕ
  pub from : List ℕ
  pub section_length : ℕ

-- `WasmModule`, less what only a reader with `debug` on sets.
pub record Module : Type 0 where
  pub file_length : ℕ
  pub function_types : List FunctionType
  pub functions : List Function
  pub exports : List Export
  pub globals : List Global
  pub function_imports : List (Import ℕ)
  pub global_imports : List (Import GlobalType)
  pub memory_imports : List (Import Limits)
  pub memories : List Limits
  pub data_segments : List DataSegment
  pub table_imports : List (Import Limits)
  pub tables : List Limits
  pub element_segments : List ElementSegment
  pub start_function_index : ℕ
  pub has_start_function : Bool
  pub debug_sections : List DebugSection

-- `calloc(1, sizeof(WasmModule))`, with the length set.
abbrev pub empty_module : ℕ → Module
empty_module n = record {
  file_length = n;
  function_types = [];
  functions = [];
  exports = [];
  globals = [];
  function_imports = [];
  global_imports = [];
  memory_imports = [];
  memories = [];
  data_segments = [];
  table_imports = [];
  tables = [];
  element_segments = [];
  start_function_index = 0;
  has_start_function = false;
  debug_sections = [];
}
