-- ===== src/Cc/Codegen/Expr/Places.antt =====
-- The addresses of variables, and assignments, of cc/codegen.c.
use sandbox_stack.Prelude.{ℕ, ◌+◌}
use sandbox_stack.Prelude.{List, [], ◌∷◌, Option, none, some, if◌then◌else◌, codes}
use sandbox_stack.Prelude.Int.{pos}
use sandbox_stack.Cc.Asm.{Name}
use sandbox_stack.Cc.Elf.{same}
use sandbox_stack.Cc.Codegen.{
  Class, vc_none, vc_i32, vc_i64, vc_f32, vc_f64, CType, is_struct, is_vla, class_of, Instr, op_u,
  i32c, memory_copy, Gen, emit, fail, ◌>>◌, error_if, store, convert,
}
use sandbox_stack.Cc.Codegen.Expr.Tree.{Obj, Env, Part}
use sandbox_stack.Cc.Codegen.Expr.Operators.{gen_expr_as, plus}

module _ (env : Env) where
  -- `fp_plus`
  abbrev pub fp_plus : ℕ → List Instr
  fp_plus off = op_u 0x20 env.loc_fp ∷ plus off

  abbrev pub call_to : Option ℕ → Gen
  call_to none = fail
  call_to (some i) = emit (op_u 0x10 i ∷ [])

  abbrev pub address : Option ℕ → Gen
  address none = fail
  address (some a) = emit (i32c (pos a) ∷ [])

  abbrev pub or_heap_base : Name → Option ℕ → Option ℕ
  or_heap_base name (some a) = some a
  or_heap_base name none = if same (codes "__heap_base") name then some env.heap_base else none

  abbrev pub next_index : Option ℕ → Option ℕ
  next_index none = none
  next_index (some i) = some (i + 1)

  -- `global_addr`
  unfoldable pub global_addr : Obj → Option ℕ
  unfolding same
  global_addr v =
      if v.is_function
      then next_index (env.func_index v.name)
      else or_heap_base v.name (env.global_def v.name)

  -- The address of a variable
  unfoldable pub var_addr : Obj → Gen
  unfolding global_addr
  var_addr v =
      error_if (is_vla v.ty) (
        if v.is_local then emit (fp_plus v.offset) else error_if v.is_tls (address (global_addr v)))

  -- `scratch_local`
  abbrev pub scratch_local : Class → Option ℕ
  scratch_local c = elim c [
    | vc_none ↦ none
    | vc_i32 ↦ some env.loc_t32
    | vc_i64 ↦ some env.loc_t64
    | vc_f32 ↦ some env.loc_tf32
    | vc_f64 ↦ some env.loc_tf64
  ]

  abbrev pub store_and_keep : Option ℕ → CType → Gen
  store_and_keep none ty = fail
  store_and_keep (some l) ty = emit (op_u 0x22 l ∷ []) >> (store ty >> emit (op_u 0x20 l ∷ []))

  -- `ND_ASSIGN`
  unfoldable pub assigned : CType → Part → Part → Gen
  unfolding store convert ◌>>◌
  assigned ty a b =
      if is_struct ty
      then (a.addr
          >> (emit (op_u 0x22 env.loc_t32b ∷ [])
              >> (b.value
                  >> emit (i32c (pos ty.size) ∷ memory_copy ∷ op_u 0x20 env.loc_t32b ∷ []))))
      else (a.addr
          >> (gen_expr_as b (class_of ty) >> store_and_keep (scratch_local (class_of ty)) ty))
