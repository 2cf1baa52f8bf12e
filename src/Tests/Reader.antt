-- ===== src/Tests/Reader.antt =====
-- The reader of w2c2/reader.c on small files.
use sandbox_stack.Prelude.{ℕ, ◌+◌, ◌-◌, ◌<◌, ◌≤◌, ◌≡◌, ◌⊎◌, refl, arith, true}
use sandbox_stack.Prelude.{List, [], ◌∷◌, ◌++◌, none, some, length}
use sandbox_stack.W2c2.Buffer.{Buffer, read_byte, skip_unchecked, read_equal, at_end}
use sandbox_stack.W2c2.Leb128.{read_u32, read_loop}
use sandbox_stack.W2c2.Reader.Parse.{Result, ok, err, fault, Allocator, leb_u32}
use sandbox_stack.W2c2.Reader.Parse.{invalid_code_section_code_size, read_array}
use sandbox_stack.W2c2.Reader.Module.{
  Module, Function, FunctionType, LocalsDeclaration, i32, empty_module,
}
use sandbox_stack.W2c2.Reader.Sections
use sandbox_stack.W2c2.Reader.Sections.{
  read_sized_code, read_code_locals_declarations, read_declaration,
}
use sandbox_stack.W2c2.Reader.Entries.{read_value_type, decode_value_type}
use sandbox_stack.W2c2.Reader.File.{magic, read_section, read_sections, module_read}
use sandbox_stack.W2c2.Reader.Format.{IsSections}
use sandbox_stack.W2c2.Reader.Accept.{module_read-total, module_read-IsSections}
use sandbox_stack.W2c2.Reader.Code.{read_sized_code_lem}
use sandbox_stack.W2c2.Reader.Typed.{IsTyped}
use sandbox_stack.W2c2.Reader.Typed.Accepted.{read_section-IsTyped, type_section_untypes}

abbrev pub plenty : Allocator
plenty what n = true

-- A start section that names function 5.
abbrev start_file : Buffer
start_file = magic ++ (8 ∷ 1 ∷ 5 ∷ [])

abbrev empty : Buffer
empty = []

abbrev started : Module
started = record (empty_module 11) { start_function_index = 5; has_start_function = true }

reads_start : module_read plenty start_file ≡ some (ok started [])
unfolding module_read read_equal read_sections at_end read_section read_byte leb_u32 read_u32
    read_loop skip_unchecked Sections.read_start_section
reads_start = refl

module_read-total_example : (r : Result Module) × (module_read plenty start_file ≡ some r)
module_read-total_example = module_read-total plenty start_file

module_read-IsSections_example :
    (empty ≡ []) × (sections : Buffer) × (start_file ≡ magic ++ sections) × IsSections sections
module_read-IsSections_example = module_read-IsSections plenty start_file empty started reads_start

abbrev no_types : FunctionType
no_types = record { parameter_types = []; result_types = [] }

abbrev pub one_type : Module
one_type = record (empty_module 20) { function_types = no_types ∷ [] }

abbrev of_type_0 : Function
of_type_0 = record {
  function_type_index = 0;
  locals_declarations = [];
  code = [];
  start = 0;
  hashed = [];
  export_name = none;
}

abbrev one_function : Module
one_function = record one_type { functions = of_type_0 ∷ [] }

one_type-IsTyped : IsTyped one_type
one_type-IsTyped = record { typed = tt }

-- A function section of one function, of type 0.
reads_function : read_section plenty one_type (3 ∷ 2 ∷ 1 ∷ 0 ∷ []) ≡ ok one_function []
unfolding read_section read_byte leb_u32 read_u32 read_loop read_array
    Sections.read_function_section Sections.read_function
reads_function = refl

read_section-IsTyped_example : IsTyped one_function
read_section-IsTyped_example =
    read_section-IsTyped plenty one_type one_function 3 (2 ∷ 1 ∷ 0 ∷ []) [] (omega arith)
      one_type-IsTyped reads_function

type_section_untypes_example :
    (m' : Module) × (Sections.read_type_section plenty 1 one_function (0 ∷ []) ≡ ok m' [])
    × (m'.functions ≡ of_type_0 ∷ [])
    × ¬ IsTyped m'
type_section_untypes_example = type_section_untypes plenty 1 one_function of_type_0 [] [] refl refl

-- One declaration, of two locals of type i32, and a body of three bytes.
abbrev declarations : List ℕ
declarations = 1 ∷ 2 ∷ 0x7f ∷ []

abbrev body : List ℕ
body = 1 ∷ 1 ∷ 0x0b ∷ []

abbrev two_locals : List LocalsDeclaration
two_locals = record { type = i32; count = 2 } ∷ []

reads_locals : read_code_locals_declarations plenty (declarations ++ body) ≡ ok two_locals body
unfolding read_code_locals_declarations leb_u32 read_u32 read_loop read_byte read_array
    read_declaration read_value_type decode_value_type
reads_locals = refl

read_sized_code_lem_example :
    (length (declarations ++ body) < 6)
      × (read_sized_code 40 10 of_type_0
            (read_code_locals_declarations plenty)
            6
            (declarations ++ body)
          ≡ err invalid_code_section_code_size)
    ⊎ ((code rest : List ℕ) × (body ≡ code ++ rest)
        × (length declarations + length code ≡ 6)
        × (read_sized_code 40 10 of_type_0
              (read_code_locals_declarations plenty)
              6
              (declarations ++ body)
            ≡ ok
                (record of_type_0 {
                  locals_declarations = two_locals;
                  code = code;
                  start = 40 - length body - 10;
                  hashed = declarations ++ code;
                })
                rest))
    ⊎ (6 < length declarations)
      × (6 ≤ length (declarations ++ body))
      × (read_sized_code 40 10 of_type_0
            (read_code_locals_declarations plenty)
            6
            (declarations ++ body)
          ≡ fault)
read_sized_code_lem_example =
    read_sized_code_lem plenty 40 10 6 of_type_0 two_locals declarations body (omega arith)
      reads_locals
