-- ===== src/W2c2/Reader/Entries.antt =====
-- The entries of the sections, as w2c2/reader.c reads them one by one.
use sandbox_stack.Prelude.{ℕ, ◌-◌, ◌^◌, Bool, true, false, not, List, [], Option, none, some}
use sandbox_stack.Prelude.{length, take, ltb, ◌==◌, if◌then◌else◌}
use sandbox_stack.W2c2.Buffer.{Buffer, read_byte, read_f32, read_f64}
use sandbox_stack.W2c2.Leb128.{read_i32, read_i64}
use sandbox_stack.W2c2.Reader.Parse.{ReaderError, Parser, done, fail, ◌>>=◌, ◌>>◌, require}
use sandbox_stack.W2c2.Reader.Parse.{
  or_report, must, leb_u32, Allocator, allocate, read_array, read_name, read_bytes,
}
use sandbox_stack.W2c2.Reader.Parse.{value_types, function_indices}
use sandbox_stack.W2c2.Reader.Parse.{
  invalid_function_type_indicator, invalid_function_type_parameter_count,
}
use sandbox_stack.W2c2.Reader.Parse.{invalid_function_type_result_count, invalid_value_type}
use sandbox_stack.W2c2.Reader.Parse.{
  invalid_global_section_mutability_indicator, invalid_limit_kind,
}
use sandbox_stack.W2c2.Reader.Parse.{invalid_limit_minimum, invalid_limit_maximum}
use sandbox_stack.W2c2.Reader.Parse.{
  invalid_table_section_table_type, invalid_global_section_init_expression,
}
use sandbox_stack.W2c2.Reader.Parse.{
  invalid_export_section_export_name, invalid_export_section_export_kind,
}
use sandbox_stack.W2c2.Reader.Parse.{invalid_export_section_export_index, invalid_data_section_kind}
use sandbox_stack.W2c2.Reader.Parse.{invalid_data_section_memory_index, invalid_data_section_bytes}
use sandbox_stack.W2c2.Reader.Parse.{invalid_data_section_offset_expression}
use sandbox_stack.W2c2.Reader.Parse.{
  invalid_element_section_table_index, invalid_element_section_offset_expression,
}
use sandbox_stack.W2c2.Reader.Parse.{invalid_element_section_function_index_count}
use sandbox_stack.W2c2.Reader.Parse.{invalid_element_section_function_index}
use sandbox_stack.W2c2.Reader.Module.{ValueType, i32, i64, f32, f64, FunctionType, GlobalType}
use sandbox_stack.W2c2.Reader.Module.{Limits, Global, Export, DataSegment, ElementSegment}

-- `leb128ReadI32(buffer, &n) > 0` and `leb128ReadI64(buffer, &n) > 0`: the bit pattern
unfoldable pub leb_i32 : Buffer → Option (ℕ × Buffer)
unfolding read_i32
leb_i32 b = let d = read_i32 b in if d.count == 0 then none else some (d.result, d.rest)

unfoldable pub leb_i64 : Buffer → Option (ℕ × Buffer)
unfolding read_i64
leb_i64 b = let d = read_i64 b in if d.count == 0 then none else some (d.result, d.rest)

-- `wasmDecodeValueType`: -1, -2, -3, -4
unfoldable pub decode_value_type : ℕ → Option ValueType
decode_value_type n =
    if n == 2 ^ 32 - 1
    then some i32
    else if n == 2 ^ 32 - 2
    then some i64
    else if n == 2 ^ 32 - 3
    then some f32
    else if n == 2 ^ 32 - 4
    then some f64
    else none

abbrev pub decoded : Option ValueType → Buffer → Option (ValueType × Buffer)
decoded none b = none
decoded (some t) b = some (t, b)

-- `wasmReadValueType` of valuetype.h
unfoldable pub read_value_type : Buffer → Option (ValueType × Buffer)
unfolding leb_i32 decode_value_type
read_value_type b = must (leb_i32 b) λ n b'. decoded (decode_value_type n) b'

-- `wasmModuleReadValueType`
unfoldable pub module_read_value_type : Parser ValueType
unfolding read_value_type
module_read_value_type = or_report read_value_type invalid_value_type

-- A byte that passes the test, or the error.
unfoldable pub read_tested : (ℕ → Bool) → ReaderError → Parser ℕ
unfolding read_byte
read_tested test e = do x ← or_report read_byte e; require (test x) e; done x

-- `wasmReadGlobalType`
unfoldable pub read_global_type : Parser GlobalType
unfolding module_read_value_type read_tested
read_global_type = do
  t ← module_read_value_type
  m ← read_tested (λ x. not (ltb 1 x)) invalid_global_section_mutability_indicator
  done (record { value_type = t; mutable = m == 1 })

-- The `switch` of `wasmReadLimits`
abbrev pub read_max : ℕ → ℕ → Parser Limits
read_max kind min =
    if kind == 0
    then done (record { min = min; max = 0; shared = false })
    else if kind == 1
    then (do
      max ← or_report leb_u32 invalid_limit_maximum
      done (record { min = min; max = max; shared = false }))
    else if kind == 3
    then (do
      max ← or_report leb_u32 invalid_limit_maximum
      done (record { min = min; max = max; shared = true }))
    else fail invalid_limit_kind

-- `wasmReadLimits`
unfoldable pub read_limits : Parser Limits
unfolding leb_u32 read_byte
read_limits = do
  kind ← or_report read_byte invalid_limit_kind
  min ← or_report leb_u32 invalid_limit_minimum
  read_max kind min

-- `if (*max == 0) *max = most;`
abbrev pub default_max : ℕ → Limits → Limits
default_max most l = record l { max = if l.max == 0 then most else l.max }

-- `wasmReadMemoryType`: `UINT32_MAX / WASM_PAGE_SIZE`
unfoldable pub read_memory_type : Parser Limits
unfolding read_limits
read_memory_type = do l ← read_limits; done (default_max 65535 l)

-- `wasmReadTableType`
unfoldable pub read_table_type : Parser Limits
unfolding read_tested read_limits
read_table_type = do
  read_tested (λ x. x == 0x70) invalid_table_section_table_type >>= λ _. done tt
  l ← read_limits
  done (default_max (2 ^ 32 - 1) l)

abbrev pub forgotten : {A : Type 0} → Option (A × Buffer) → Option (Unit {0} × Buffer)
forgotten none = none
forgotten (some (a, b)) = some (tt, b)

-- The instruction of `wasmReadConstantExpr` behind its opcode: `wasmConstInstructionRead`,
-- `wasmGlobalInstructionRead`.
unfoldable pub read_operand : ℕ → Buffer → Option (Unit {0} × Buffer)
unfolding leb_i32 leb_i64 leb_u32 read_f32 read_f64
read_operand opcode b =
    if opcode == 0x41
    then forgotten (leb_i32 b)
    else if opcode == 0x42
    then forgotten (leb_i64 b)
    else if opcode == 0x43
    then forgotten (read_f32 b)
    else if opcode == 0x44
    then forgotten (read_f64 b)
    else if opcode == 0x23
    then forgotten (leb_u32 b)
    else none

abbrev pub read_end : ℕ → Buffer → Option (Unit {0} × Buffer)
read_end x b = if x == 0x0B then some (tt, b) else none

-- `wasmReadConstantExpr`
unfoldable pub read_constant_expr : Buffer → Option (Unit {0} × Buffer)
unfolding read_byte read_operand
read_constant_expr b = must (read_byte b) λ opcode b₁.
    if opcode == 0x0B
    then some (tt, b₁)
    else must (read_operand opcode b₁) λ _ b₂. must (read_byte b₂) read_end

abbrev pub spanned : Buffer → Option (Unit {0} × Buffer) → Option (List ℕ × Buffer)
spanned b none = none
spanned b (some (_, b')) = some (take (length b - length b') b, b')

-- `init = reader->buffer; wasmReadConstantExpr(&reader->buffer); init.length -= reader->buffer.length;`
unfoldable pub read_expression : Buffer → Option (List ℕ × Buffer)
unfolding read_constant_expr
read_expression b = spanned b (read_constant_expr b)

-- `wasmReadGlobal`
unfoldable pub read_global : Parser Global
unfolding read_global_type read_expression
read_global = do
  t ← read_global_type
  init ← or_report read_expression invalid_global_section_init_expression
  done (record { type = t; init = init })

module _ (alloc : Allocator) where
  -- `wasmReadValueTypes`
  unfoldable pub read_value_types : ℕ → Parser (List ValueType)
  unfolding module_read_value_type read_array
  read_value_types n = do allocate alloc value_types n; read_array n module_read_value_type

  -- `wasmReadFunctionType`
  unfoldable pub read_function_type : Parser FunctionType
  unfolding read_tested read_value_types leb_u32
  read_function_type = do
    read_tested (λ x. x == 0x60) invalid_function_type_indicator >>= λ _. done tt
    n ← or_report leb_u32 invalid_function_type_parameter_count
    ps ← read_value_types n
    m ← or_report leb_u32 invalid_function_type_result_count
    rs ← read_value_types m
    done (record { parameter_types = ps; result_types = rs })

  -- `wasmReadExport`
  unfoldable pub read_export : Parser Export
  unfolding read_name read_tested leb_u32
  read_export = do
    name ← or_report (read_name alloc) invalid_export_section_export_name
    kind ← read_tested (λ x. ltb x 4) invalid_export_section_export_kind
    index ← or_report leb_u32 invalid_export_section_export_index
    done (record { name = name; kind = kind; index = index })

  -- The optional parts of `wasmReadDataSegment`, by its flags
  abbrev pub memory_index_if : Bool → Parser ℕ
  memory_index_if true = or_report leb_u32 invalid_data_section_memory_index
  memory_index_if false = done 0

  abbrev pub offset_if : Bool → Parser (List ℕ)
  offset_if true = or_report read_expression invalid_data_section_offset_expression
  offset_if false = done []

  -- `wasmReadDataSegment`
  unfoldable pub read_data_segment : Parser DataSegment
  unfolding leb_u32 read_expression read_bytes
  read_data_segment = do
    kind ← or_report leb_u32 invalid_data_section_kind
    require (ltb kind 3) invalid_data_section_kind
    index ← memory_index_if (kind == 2)
    offset ← offset_if (not (kind == 1))
    bytes ← or_report (read_bytes alloc) invalid_data_section_bytes
    done (record { memory_index = index; offset = offset; bytes = bytes; passive = kind == 1 })

  -- `wasmReadElementSegment`
  unfoldable pub read_element_segment : Parser ElementSegment
  unfolding leb_u32 read_expression read_array
  read_element_segment = do
    table ← or_report leb_u32 invalid_element_section_table_index
    offset ← or_report read_expression invalid_element_section_offset_expression
    n ← or_report leb_u32 invalid_element_section_function_index_count
    allocate alloc function_indices n
    indices ← read_array n (or_report leb_u32 invalid_element_section_function_index)
    done (record { table_index = table; offset = offset; function_indices = indices })
