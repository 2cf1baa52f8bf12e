-- ===== src/W2c2/Reader/Advance/Entries.antt =====
-- The readers of entries leave a rest of their bytes, and never leave the buffer (w2c2/reader.c).
use sandbox_stack.Prelude.{ℕ, Bool, true, false, not, Option, none, some, ltb, ◌==◌}
use sandbox_stack.W2c2.Buffer.{Buffer, read_byte}
use sandbox_stack.W2c2.Reader.Parse.{ReaderError, Allocator}
use sandbox_stack.W2c2.Reader.Parse.{invalid_data_section_kind, invalid_data_section_bytes}
use sandbox_stack.W2c2.Reader.Parse.{invalid_value_type, invalid_limit_kind}
use sandbox_stack.W2c2.Reader.Entries.{
  leb_i32, decode_value_type, decoded, read_value_type, module_read_value_type,
}
use sandbox_stack.W2c2.Reader.Entries.{
  read_tested, read_global_type, read_max, read_limits, read_memory_type,
}
use sandbox_stack.W2c2.Reader.Entries.{
  read_table_type, forgotten, read_operand, read_end, read_constant_expr,
}
use sandbox_stack.W2c2.Reader.Entries.{spanned, read_expression, read_global, read_value_types}
use sandbox_stack.W2c2.Reader.Entries.{read_function_type, read_export, memory_index_if, offset_if}
use sandbox_stack.W2c2.Reader.Entries.{read_data_segment, read_element_segment}
use sandbox_stack.W2c2.Reader.Advance.{
  Advances, Moves, Left, bind-Advances, done-Advances, fail-Advances,
}
use sandbox_stack.W2c2.Reader.Advance.{
  require-Advances, if-Advances, or_report-Advances, read_array-Advances,
}
use sandbox_stack.W2c2.Reader.Advance.{
  must-Left, if-Left, read_byte-Moves, leb_u32-Moves, leb_i32-Moves,
}
use sandbox_stack.W2c2.Reader.Advance.{
  leb_i64-Moves, read_f32-Moves, read_f64-Moves, read_name-Moves, read_bytes-Moves,
}
use sandbox_stack.W2c2.Reader.Advance.{IsRest-self}

decoded-Left : (o : Option _) (b : Buffer) → Left b (decoded o b)
decoded-Left none b = tt
decoded-Left (some t) b = IsRest-self b

pub read_value_type-Moves : Moves read_value_type
unfolding read_value_type
read_value_type-Moves = record {
  left = λ b.
      must-Left b (leb_i32 b) _ (leb_i32-Moves.left b)
        (λ n c. decoded-Left (decode_value_type n) c);
}

forgotten-Left :
    {A : Type 0} (b : Buffer) (o : Option (A × Buffer)) → Left b o → Left b (forgotten o)
forgotten-Left b none h = tt
forgotten-Left b (some (a, c)) h = h

read_operand-Moves : (opcode : ℕ) → Moves (read_operand opcode)
unfolding read_operand
read_operand-Moves opcode = record {
  left = λ b. if-Left (opcode == 0x41) b _ _ (forgotten-Left b _ (leb_i32-Moves.left b)) (
      if-Left (opcode == 0x42) b _ _ (forgotten-Left b _ (leb_i64-Moves.left b)) (
        if-Left (opcode == 0x43) b _ _ (forgotten-Left b _ (read_f32-Moves.left b)) (
          if-Left (opcode == 0x44) b _ _ (forgotten-Left b _ (read_f64-Moves.left b))
            (if-Left (opcode == 0x23) b _ none (forgotten-Left b _ (leb_u32-Moves.left b)) tt))));
}

pub read_constant_expr-Moves : Moves read_constant_expr
unfolding read_constant_expr
read_constant_expr-Moves = record {
  left = λ b. must-Left b (read_byte b) _ (read_byte-Moves.left b) (λ opcode c.
      if-Left (opcode == 0x0B) c _ _ (IsRest-self c) (
        must-Left c (read_operand opcode c) _ ((read_operand-Moves opcode).left c) (λ _ d.
          must-Left d (read_byte d) read_end (read_byte-Moves.left d)
            (λ x e. if-Left (x == 0x0B) e (some (tt, e)) none (IsRest-self e) tt))));
}

spanned-Left : (b : Buffer) (o : Option (Unit {0} × Buffer)) → Left b o → Left b (spanned b o)
spanned-Left b none h = tt
spanned-Left b (some (_, c)) h = h

pub read_expression-Moves : Moves read_expression
unfolding read_expression
read_expression-Moves = record {
  left = λ b. spanned-Left b (read_constant_expr b) (read_constant_expr-Moves.left b);
}

module _ {F : Type 0} where
  module_read_value_type-Advances : Advances F module_read_value_type
  unfolding module_read_value_type
  module_read_value_type-Advances = or_report-Advances invalid_value_type read_value_type-Moves

  pub read_tested-Advances : (test : ℕ → Bool) (e : ReaderError) → Advances F (read_tested test e)
  unfolding read_tested
  read_tested-Advances test e =
      bind-Advances (or_report-Advances e read_byte-Moves)
        (λ x. bind-Advances (require-Advances (test x) e) (λ _. done-Advances x))

  pub read_global_type-Advances : Advances F read_global_type
  unfolding read_global_type
  read_global_type-Advances =
      bind-Advances module_read_value_type-Advances
        (λ t. bind-Advances (read_tested-Advances _ _) (λ m. done-Advances _))

  read_max-Advances : (kind min : ℕ) → Advances F (read_max kind min)
  read_max-Advances kind min = if-Advances (kind == 0) (done-Advances _) (
      if-Advances (kind == 1)
        (bind-Advances (or_report-Advances _ leb_u32-Moves) (λ max. done-Advances _))
        (if-Advances (kind == 3)
          (bind-Advances (or_report-Advances _ leb_u32-Moves) (λ max. done-Advances _))
          (fail-Advances invalid_limit_kind)))

  read_limits-Advances : Advances F read_limits
  unfolding read_limits
  read_limits-Advances =
      bind-Advances (or_report-Advances _ read_byte-Moves)
        (λ kind. bind-Advances (or_report-Advances _ leb_u32-Moves) (read_max-Advances kind))

  pub read_memory_type-Advances : Advances F read_memory_type
  unfolding read_memory_type
  read_memory_type-Advances = bind-Advances read_limits-Advances (λ l. done-Advances _)

  pub read_table_type-Advances : Advances F read_table_type
  unfolding read_table_type
  read_table_type-Advances =
      bind-Advances (bind-Advances (read_tested-Advances _ _) (λ _. done-Advances tt))
        (λ _. bind-Advances read_limits-Advances (λ l. done-Advances _))

  pub read_global-Advances : Advances F read_global
  unfolding read_global
  read_global-Advances =
      bind-Advances read_global_type-Advances
        (λ t. bind-Advances (or_report-Advances _ read_expression-Moves) (λ init. done-Advances _))

  module _ (alloc : Allocator) where
    read_value_types-Advances : (n : ℕ) → Advances F (read_value_types alloc n)
    unfolding read_value_types
    read_value_types-Advances n =
        bind-Advances (require-Advances _ _)
          (λ _. read_array-Advances n module_read_value_type-Advances)

    pub read_function_type-Advances : Advances F (read_function_type alloc)
    unfolding read_function_type
    read_function_type-Advances =
        bind-Advances (bind-Advances (read_tested-Advances _ _) (λ _. done-Advances tt)) (λ _.
          bind-Advances (or_report-Advances _ leb_u32-Moves) (λ n.
            bind-Advances (read_value_types-Advances n) (λ ps.
              bind-Advances (or_report-Advances _ leb_u32-Moves)
                (λ m. bind-Advances (read_value_types-Advances m) (λ rs. done-Advances _)))))

    pub read_export-Advances : Advances F (read_export alloc)
    unfolding read_export
    read_export-Advances = bind-Advances (or_report-Advances _ (read_name-Moves alloc)) (λ name.
        bind-Advances (read_tested-Advances _ _)
          (λ kind. bind-Advances (or_report-Advances _ leb_u32-Moves) (λ i. done-Advances _)))

    memory_index_if-Advances : (c : Bool) → Advances F (memory_index_if alloc c)
    memory_index_if-Advances true = or_report-Advances _ leb_u32-Moves
    memory_index_if-Advances false = done-Advances 0

    offset_if-Advances : (c : Bool) → Advances F (offset_if alloc c)
    offset_if-Advances true = or_report-Advances _ read_expression-Moves
    offset_if-Advances false = done-Advances _

    pub read_data_segment-Advances : Advances F (read_data_segment alloc)
    unfolding read_data_segment
    read_data_segment-Advances = bind-Advances (or_report-Advances _ leb_u32-Moves) (λ kind.
        bind-Advances (require-Advances (ltb kind 3) invalid_data_section_kind) (λ _.
          bind-Advances (memory_index_if-Advances (kind == 2)) (λ index.
            bind-Advances (offset_if-Advances (not (kind == 1))) (λ offset.
              bind-Advances (or_report-Advances invalid_data_section_bytes (read_bytes-Moves alloc))
                (λ bytes. done-Advances _)))))

    pub read_element_segment-Advances : Advances F (read_element_segment alloc)
    unfolding read_element_segment
    read_element_segment-Advances = bind-Advances (or_report-Advances _ leb_u32-Moves) (λ table.
        bind-Advances (or_report-Advances _ read_expression-Moves) (λ offset.
          bind-Advances (or_report-Advances _ leb_u32-Moves) (λ n.
            bind-Advances (require-Advances _ _) (λ _.
              bind-Advances (read_array-Advances n (or_report-Advances _ leb_u32-Moves))
                (λ is. done-Advances _)))))
