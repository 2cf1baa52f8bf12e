-- ===== src/Cc/Codegen/Operations.antt =====
-- The binary operators of cc/codegen.c.
use sandbox_stack.Prelude.{◌≡◌, refl}
use sandbox_stack.Prelude.{Bool, true, false, ◌||◌, if◌then◌else◌, [], ◌∷◌, ◌++◌}
use sandbox_stack.Cc.Codegen.{
  Class, vc_none, vc_i32, vc_i64, vc_f32, vc_f64, CType, op, emit, is_ptr, is_array, is_flonum,
  is_float,
}
use sandbox_stack.Cc.Codegen.Expr.{
  Binary, nd_add, nd_sub, nd_mul, nd_div, nd_mod, nd_bitand, nd_bitor, nd_bitxor, nd_shl, nd_shr,
  nd_eq, nd_ne, nd_lt, nd_le, is_comparison, float_op, int_op, binary_op,
}
use sandbox_stack.Cc.Codegen.Validate.{Context, result_of}
use sandbox_stack.Cc.Codegen.Typed.{Types, emit-Types, fail-Types}
use sandbox_stack.Cc.Codegen.Parts.{has_value}
use sandbox_stack.Cc.Codegen.Typing.{op_if}

-- The result of a binary operator on this class
abbrev pub binary_class : Binary → Class → Class
binary_class k vc = if is_comparison k then vc_i32 else vc

module _ {ctx : Context} where
  float_op-f32 :
      (k : Binary)
      → Types ctx (float_op k false) (vc_f32 ∷ vc_f32 ∷ []) (result_of (binary_class k vc_f32))
  unfolding float_op
  float_op-f32 nd_add = emit-Types (λ all rest st fs. refl)
  float_op-f32 nd_sub = emit-Types (λ all rest st fs. refl)
  float_op-f32 nd_mul = emit-Types (λ all rest st fs. refl)
  float_op-f32 nd_div = emit-Types (λ all rest st fs. refl)
  float_op-f32 nd_mod = fail-Types
  float_op-f32 nd_bitand = fail-Types
  float_op-f32 nd_bitor = fail-Types
  float_op-f32 nd_bitxor = fail-Types
  float_op-f32 nd_shl = fail-Types
  float_op-f32 nd_shr = fail-Types
  float_op-f32 nd_eq = emit-Types (λ all rest st fs. refl)
  float_op-f32 nd_ne = emit-Types (λ all rest st fs. refl)
  float_op-f32 nd_lt = emit-Types (λ all rest st fs. refl)
  float_op-f32 nd_le = emit-Types (λ all rest st fs. refl)

  float_op-f64 :
      (k : Binary)
      → Types ctx (float_op k true) (vc_f64 ∷ vc_f64 ∷ []) (result_of (binary_class k vc_f64))
  unfolding float_op
  float_op-f64 nd_add = emit-Types (λ all rest st fs. refl)
  float_op-f64 nd_sub = emit-Types (λ all rest st fs. refl)
  float_op-f64 nd_mul = emit-Types (λ all rest st fs. refl)
  float_op-f64 nd_div = emit-Types (λ all rest st fs. refl)
  float_op-f64 nd_mod = fail-Types
  float_op-f64 nd_bitand = fail-Types
  float_op-f64 nd_bitor = fail-Types
  float_op-f64 nd_bitxor = fail-Types
  float_op-f64 nd_shl = fail-Types
  float_op-f64 nd_shr = fail-Types
  float_op-f64 nd_eq = emit-Types (λ all rest st fs. refl)
  float_op-f64 nd_ne = emit-Types (λ all rest st fs. refl)
  float_op-f64 nd_lt = emit-Types (λ all rest st fs. refl)
  float_op-f64 nd_le = emit-Types (λ all rest st fs. refl)

  int_op-i32 :
      (k : Binary) (u : Bool)
      → Types ctx
          (emit (op (int_op k false u) ∷ []))
          (vc_i32 ∷ vc_i32 ∷ [])
          (result_of (binary_class k vc_i32))
  unfolding int_op
  int_op-i32 nd_add u = emit-Types (λ all rest st fs. refl)
  int_op-i32 nd_sub u = emit-Types (λ all rest st fs. refl)
  int_op-i32 nd_mul u = emit-Types (λ all rest st fs. refl)
  int_op-i32 nd_div u = op_if u _ _ (λ all rest st fs. refl) (λ all rest st fs. refl)
  int_op-i32 nd_mod u = op_if u _ _ (λ all rest st fs. refl) (λ all rest st fs. refl)
  int_op-i32 nd_bitand u = emit-Types (λ all rest st fs. refl)
  int_op-i32 nd_bitor u = emit-Types (λ all rest st fs. refl)
  int_op-i32 nd_bitxor u = emit-Types (λ all rest st fs. refl)
  int_op-i32 nd_shl u = emit-Types (λ all rest st fs. refl)
  int_op-i32 nd_shr u = op_if u _ _ (λ all rest st fs. refl) (λ all rest st fs. refl)
  int_op-i32 nd_eq u = emit-Types (λ all rest st fs. refl)
  int_op-i32 nd_ne u = emit-Types (λ all rest st fs. refl)
  int_op-i32 nd_lt u = op_if u _ _ (λ all rest st fs. refl) (λ all rest st fs. refl)
  int_op-i32 nd_le u = op_if u _ _ (λ all rest st fs. refl) (λ all rest st fs. refl)

  int_op-i64 :
      (k : Binary) (u : Bool)
      → Types ctx
          (emit (op (int_op k true u) ∷ []))
          (vc_i64 ∷ vc_i64 ∷ [])
          (result_of (binary_class k vc_i64))
  unfolding int_op
  int_op-i64 nd_add u = emit-Types (λ all rest st fs. refl)
  int_op-i64 nd_sub u = emit-Types (λ all rest st fs. refl)
  int_op-i64 nd_mul u = emit-Types (λ all rest st fs. refl)
  int_op-i64 nd_div u = op_if u _ _ (λ all rest st fs. refl) (λ all rest st fs. refl)
  int_op-i64 nd_mod u = op_if u _ _ (λ all rest st fs. refl) (λ all rest st fs. refl)
  int_op-i64 nd_bitand u = emit-Types (λ all rest st fs. refl)
  int_op-i64 nd_bitor u = emit-Types (λ all rest st fs. refl)
  int_op-i64 nd_bitxor u = emit-Types (λ all rest st fs. refl)
  int_op-i64 nd_shl u = emit-Types (λ all rest st fs. refl)
  int_op-i64 nd_shr u = op_if u _ _ (λ all rest st fs. refl) (λ all rest st fs. refl)
  int_op-i64 nd_eq u = emit-Types (λ all rest st fs. refl)
  int_op-i64 nd_ne u = emit-Types (λ all rest st fs. refl)
  int_op-i64 nd_lt u = op_if u _ _ (λ all rest st fs. refl) (λ all rest st fs. refl)
  int_op-i64 nd_le u = op_if u _ _ (λ all rest st fs. refl) (λ all rest st fs. refl)

  pub binary_op-Types :
      (k : Binary) (t : CType) (vc : Class)
      → is_flonum t ≡ is_float vc
      → has_value vc ≡ true
      → Types ctx (binary_op k t vc) (result_of vc ++ result_of vc) (result_of (binary_class k vc))
  unfolding binary_op
  binary_op-Types k t vc_none fl h = cc
  binary_op-Types k t vc_i32 fl h = rw fl (int_op-i32 k (t.is_unsigned || is_ptr t || is_array t))
  binary_op-Types k t vc_i64 fl h = rw fl (int_op-i64 k (t.is_unsigned || is_ptr t || is_array t))
  binary_op-Types k t vc_f32 fl h = rw fl (float_op-f32 k)
  binary_op-Types k t vc_f64 fl h = rw fl (float_op-f64 k)
