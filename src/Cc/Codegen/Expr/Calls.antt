-- ===== src/Cc/Codegen/Expr/Calls.antt =====
-- `gen_funcall` of cc/codegen.c.
use sandbox_stack.Prelude.{ℕ, zero, suc, ◌+◌, ◌*◌, ◌/◌, Bool, true, false}
use sandbox_stack.Prelude.{List, [], ◌∷◌, Option, none, some, length, ◌==◌, if◌then◌else◌, codes}
use sandbox_stack.Prelude.Int.{pos}
use sandbox_stack.Cc.Elf.{same}
use sandbox_stack.Cc.Codegen.{
  Class, vc_none, vc_i32, vc_i64, vc_f32, vc_f64, CType, FuncType, is_struct, class_of, vclass,
  Instr, op, op_u, i32c, memarg, memory_size, memory_grow, call_indirect, sig_of, add_type_entry,
  Gen, emit, fail, ◌>>◌, error_if, FuncSig, convert,
}
use sandbox_stack.Cc.Codegen.Expr.Tree.{Obj, Node, nd_var, Env, Part}
use sandbox_stack.Cc.Codegen.Expr.Operators.{gen_expr_as, plus}
use sandbox_stack.Cc.Codegen.Expr.Places.{fp_plus, call_to}

module _ (env : Env) where
  abbrev pub callee_of : Node → Option Obj
  callee_of (nd_var ty v) = if v.is_function then some v else none
  callee_of _ = none

  -- `fp_plus(node->ret_buffer->offset)`, if there is one
  abbrev pub ret_address : Option ℕ → List Instr
  ret_address none = []
  ret_address (some off) = fp_plus env off

  -- The arguments for `n` parameters, and the rest; too few are dereferenced.
  abbrev pub fixed_args : ℕ → List Part → Gen
  fixed_args zero ps = emit []
  fixed_args (suc n) [] = fail
  fixed_args (suc n) (p ∷ ps) = p.value >> fixed_args n ps

  abbrev pub other_args : ℕ → List Part → List Part
  other_args zero ps = ps
  other_args (suc n) [] = []
  other_args (suc n) (p ∷ ps) = other_args n ps

  abbrev pub is_struct_part : Option CType → Bool
  is_struct_part none = false
  is_struct_part (some ty) = is_struct ty

  abbrev pub store_slot : Class → Gen
  store_slot c = elim c [
    | vc_none ↦ fail
    | vc_i32 ↦ emit (memarg 0x36 2 ∷ [])
    | vc_i64 ↦ emit (memarg 0x37 3 ∷ [])
    | vc_f32 ↦ emit (memarg 0x38 2 ∷ [])
    | vc_f64 ↦ emit (memarg 0x39 3 ∷ [])
  ]

  -- The variadic arguments, from this slot on
  abbrev pub variadic_args : ℕ → List Part → Gen
  variadic_args slot [] = emit []
  variadic_args slot (p ∷ ps) =
      error_if (is_struct_part p.ty)
        (emit (op_u 0x23 0 ∷ plus (slot * 8)) >> (p.value >> store_slot (vclass p.ty)))
      >> variadic_args (suc slot) ps

  -- `$sp` moves down, or up again
  abbrev pub move_sp : ℕ → ℕ → List Instr
  move_sp size o = if size == 0 then [] else op_u 0x23 0 ∷ i32c (pos size) ∷ op o ∷ op_u 0x24 0 ∷ []

  abbrev pub indirect : ℕ × List FuncSig → Option (List Instr × List FuncSig)
  indirect (i, ts) = some (call_indirect i ∷ [], ts)

  -- The call of a function, or of a table entry
  abbrev pub call_code : Option Obj → FuncType → Part → Gen
  call_code (some v) f a = call_to env (env.func_index v.name)
  call_code none f a = gen_expr_as a vc_i32 >> λ ts. indirect (add_type_entry (sig_of f) ts)

  -- What `align_to(nva * 8, 16)` makes of the number of variadic arguments
  abbrev pub slots_size : ℕ → ℕ
  slots_size n = (n * 8 + 15) / 16 * 16

  abbrev pub too_many : List Part → Bool
  too_many [] = false
  too_many (p ∷ ps) = true

  -- The arguments behind the fixed ones, and the call
  unfoldable pub rest_of_call : FuncType → Option Obj → Part → List Part → Gen
  unfolding ◌>>◌ convert add_type_entry
  rest_of_call f v a ps =
      if f.is_variadic
      then (emit (move_sp (slots_size (length ps)) 0x6b)
          >> (variadic_args 0 ps
              >> (emit (op_u 0x23 0 ∷ [])
                  >> (call_code v f a >> emit (move_sp (slots_size (length ps)) 0x6a)))))
      else error_if (too_many ps) (call_code v f a)

  abbrev pub all_dropped : List Part → Gen
  all_dropped [] = emit []
  all_dropped (p ∷ ps) = p.value >> (emit (op 0x1a ∷ []) >> all_dropped ps)

  abbrev pub grow_memory : CType → List Part → Gen
  grow_memory ty [] = fail
  grow_memory ty (p ∷ []) = fail
  grow_memory ty (p ∷ (q ∷ ps)) =
      p.value
      >> (emit (op 0x1a ∷ [])
          >> (gen_expr_as q vc_i32
              >> (emit (memory_grow ∷ []) >> convert vc_i32 (class_of ty) true)))

  -- A call that is no builtin
  unfoldable pub plain_call : FuncType → Option Obj → Part → List Part → Option ℕ → Gen
  unfolding rest_of_call
  plain_call f v a ps ret =
      emit (ret_address ret)
      >> (fixed_args (length f.params) ps
          >> (rest_of_call f v a (other_args (length f.params) ps) >> emit (ret_address ret)))

  abbrev pub builtin_call : CType → FuncType → Obj → Part → List Part → Option ℕ → Gen
  builtin_call ty f v a ps ret =
      if same (codes "__builtin_wasm_memory_size") v.name
      then (all_dropped ps >> (emit (memory_size ∷ []) >> convert vc_i32 (class_of ty) true))
      else if same (codes "__builtin_wasm_memory_grow") v.name
      then grow_memory ty ps
      else if same (codes "alloca") v.name
      then fail
      else plain_call f (some v) a ps ret

  -- `gen_funcall`
  unfoldable pub gen_funcall : CType → FuncType → Option Obj → Part → List Part → Option ℕ → Gen
  unfolding ◌>>◌ convert plain_call same
  gen_funcall ty f none a ps ret = plain_call f none a ps ret
  gen_funcall ty f (some v) a ps ret = builtin_call ty f v a ps ret
