-- ===== src/W2c2/Reader/Parse.antt =====
-- What the functions of w2c2/reader.c share: the error that they report, the buffer that they advance,
-- and the integers, names and byte strings of the format.
use sandbox_stack.Prelude.{
  ℕ, zero, suc, ◌+◌, ◌%◌, ◌^◌, Bool, true, false, List, [], ◌∷◌, Option, none, some,
}
use sandbox_stack.Prelude.{length, take, ltb, ◌==◌, if◌then◌else◌}
use sandbox_stack.W2c2.Buffer.{Buffer, skip_unchecked}
use sandbox_stack.W2c2.Leb128.{read_u32}

-- `WasmModuleReaderErrorCode`
pub data ReaderError : Type 0 where
  invalid_magic allocation_failed invalid_section_id invalid_section_size : ReaderError
  incorrect_section_read invalid_custom_section_name debug_section_append_failed : ReaderError
  invalid_type_section_type_count invalid_function_type_indicator : ReaderError
  invalid_function_type_parameter_count invalid_function_type_result_count : ReaderError
  invalid_import_section_import_module invalid_import_section_import_name : ReaderError
  invalid_import_section_import_kind invalid_import_section_function_type_index : ReaderError
  invalid_value_type invalid_function_section_function_count : ReaderError
  invalid_function_type_index invalid_code_section_function_count : ReaderError
  invalid_code_section_code_size invalid_code_section_locals_declarations : ReaderError
  invalid_export_section_export_count invalid_export_section_export_name : ReaderError
  invalid_export_section_export_kind invalid_export_section_export_index : ReaderError
  invalid_global_section_global_count invalid_global_section_mutability_indicator : ReaderError
  invalid_global_section_init_expression invalid_memory_section_memory_count : ReaderError
  invalid_limit_kind invalid_limit_minimum invalid_limit_maximum : ReaderError
  invalid_data_section_data_segment_count invalid_data_section_kind : ReaderError
  invalid_data_section_memory_index invalid_data_section_offset_expression : ReaderError
  invalid_data_section_bytes invalid_data_count_section_data_count : ReaderError
  invalid_table_section_table_count invalid_table_section_table_type : ReaderError
  invalid_element_section_element_segment_count invalid_element_section_table_index : ReaderError
  invalid_element_section_offset_expression : ReaderError
  invalid_element_section_function_index_count : ReaderError
  invalid_element_section_function_index invalid_start_section_function_index : ReaderError
  invalid_import_section_import_count invalid_name_section_function_name_count : ReaderError
  invalid_name_section_function_index invalid_name_section_function_name : ReaderError

-- A result and the buffer behind it; `*error` set; or `fault`, undefined behaviour of C: the buffer is
-- advanced past its end. After an error the reader stops, and its buffer is not used.
pub data Result {ℓ} (A : Type ℓ) : Type ℓ where
  ok : A → Buffer → Result A
  err : ReaderError → Result A
  fault : Result A

abbrev pub Parser {ℓ} : Type ℓ → Type ℓ
Parser A = Buffer → Result A

abbrev pub done {ℓ} : {A : Type ℓ} → A → Parser A
done a b = ok a b

abbrev pub fail {ℓ} : {A : Type ℓ} → ReaderError → Parser A
fail e b = err e

-- `if (*error != NULL) return;` after each call.
abbrev pub and_then {ℓ κ} : {A : Type ℓ} {B : Type κ} → Result A → (A → Parser B) → Result B
and_then (ok a b) f = f a b
and_then (err e) f = err e
and_then fault f = fault

infixl 5 ◌>>=◌ ◌>>◌
abbrev pub ◌>>=◌ {ℓ κ} : {A : Type ℓ} {B : Type κ} → Parser A → (A → Parser B) → Parser B
(m >>= f) b = and_then (m b) f

abbrev pub ◌>>◌ {ℓ} : {B : Type ℓ} → Parser (Unit {0}) → Parser B → Parser B
m >> k = m >>= λ _. k

-- `if (!c) { *error = e; return; }`
abbrev pub require : Bool → ReaderError → Parser (Unit {0})
require true e = done tt
require false e = fail e

-- A function that returns `bool` and advances the buffer; it fails with this error.
abbrev pub reported {ℓ} : {A : Type ℓ} → ReaderError → Option (A × Buffer) → Result A
reported e none = err e
reported e (some (a, b)) = ok a b

abbrev pub or_report {ℓ} : {A : Type ℓ} → (Buffer → Option (A × Buffer)) → ReaderError → Parser A
or_report p e b = reported e (p b)

-- The same chain for functions that return `bool`: `MUST (...)`.
abbrev pub must {ℓ κ} :
    {A : Type ℓ} {B : Type κ}
    → Option (A × Buffer)
    → (A → Buffer → Option (B × Buffer))
    → Option (B × Buffer)
must none f = none
must (some (a, b)) f = f a b

-- `leb128ReadU32(buffer, &n) > 0`
unfoldable pub leb_u32 : Buffer → Option (ℕ × Buffer)
unfolding read_u32
leb_u32 b = let d = read_u32 b in if d.count == 0 then none else some (d.result, d.rest)

-- What `calloc` is asked for. Whether an array of some length can be had is the allocator's answer.
pub data Allocation : Type 0 where
  value_types characters bytes function_types functions memories globals exports : Allocation
  locals_declarations data_segments tables element_segments function_indices : Allocation
  module_struct imports debug_sections : Allocation

abbrev pub Allocator : Type 0
Allocator = Allocation → ℕ → Bool

-- What `strncpy` leaves of the bytes of a name, as a C string.
unfoldable pub c_string : List ℕ → List ℕ
c_string [] = []
c_string (x ∷ xs) = if x == 0 then [] else x ∷ c_string xs

-- `for (i = 0; i < count; i++) { read one; array[i] = it; }`
module _ {ℓ} {A : Type ℓ} where
  unfoldable pub read_array : ℕ → Parser A → Parser (List A)
  read_array zero p = done []
  read_array (suc n) p = do x ← p; xs ← read_array n p; done (x ∷ xs)

module _ (alloc : Allocator) where
  abbrev pub allocate : Allocation → ℕ → Parser (Unit {0})
  allocate what n = require (alloc what n) allocation_failed

  -- `wasmReadName`
  unfoldable pub read_name : Buffer → Option (List ℕ × Buffer)
  unfolding leb_u32 c_string skip_unchecked
  read_name b = must (leb_u32 b) λ n b'.
      if ltb (length b') n
      then none
      else if alloc characters ((n + 1) % 2 ^ 32)
      then some (c_string (take n b'), skip_unchecked b' n)
      else none

  -- `wasmReadBytes`
  unfoldable pub read_bytes : Buffer → Option (List ℕ × Buffer)
  unfolding leb_u32 skip_unchecked
  read_bytes b = must (leb_u32 b) λ n b'.
      if ltb (length b') n
      then none
      else if alloc bytes n
      then some (take n b', skip_unchecked b' n)
      else none
