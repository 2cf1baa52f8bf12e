-- ===== src/Cc/Codegen/Cases.antt =====
-- The cases of `gen_expr` of cc/codegen.c on typed parts.
use sandbox_stack.Prelude.{ℕ, ◌≡◌, refl, subst}
use sandbox_stack.Prelude.{
  Bool, true, false, not, ◌&&◌, if◌then◌else◌, [], ◌∷◌, ◌++◌, Option, none, some,
}
use sandbox_stack.Prelude.Int.{ℤ}
use sandbox_stack.Cc.Codegen.{
  Class, vc_none, vc_i32, vc_i64, vc_f32, vc_f64, same_class, CType, Gen, emit, class_of, vclass,
  is_struct, is_flonum, is_float, is_int,
}
use sandbox_stack.Cc.Codegen.Expr.{
  Part, Env, Binary, is_comparison, gen_binary, binary_op, num_const, negated, inverted,
  struct_addr,
}
use sandbox_stack.Cc.Codegen.Validate.{Context, result_of}
use sandbox_stack.Cc.Codegen.Typed.{Types, emit-Types, fail-Types, >>-Types, above, if_known-Types}
use sandbox_stack.Cc.Codegen.Typing.{same_class_eq}
use sandbox_stack.Cc.Codegen.Parts.{Valued, has_value, gen_expr_as-Types}
use sandbox_stack.Cc.Codegen.Arguments.{struct_class}
use sandbox_stack.Cc.Codegen.Operations.{binary_class, binary_op-Types}

-- A negated operand: a float of the class of the result, or an integer
abbrev pub is_negatable : Class → Class → Bool
is_negatable vc operand = if is_float vc then same_class operand vc else has_value vc

abbrev pub same_bool : Bool → Bool → Bool
same_bool a b = if a then b else not b

-- The class that `gen_binary` computes in, with a left operand of type `t`
abbrev pub operand_class : Binary → CType → CType → Class
operand_class k ty t = if is_comparison k then class_of t else class_of ty

-- The operands are computed in a class of values, that is one of floats where the left operand is
-- a float, and the result has the class of the operator.
abbrev pub is_operable : Binary → CType → Option CType → Bool
is_operable k ty none = true
is_operable k ty (some t) =
    same_bool (is_flonum t) (is_float (operand_class k ty t))
    && (has_value (operand_class k ty t)
        && same_class (binary_class k (operand_class k ty t)) (class_of ty))

same_bool_eq : (a b : Bool) → same_bool a b ≡ true → a ≡ b
same_bool_eq true true h = refl
same_bool_eq true false h = cc
same_bool_eq false true h = cc
same_bool_eq false false h = refl

and_left : (a b : Bool) → a && b ≡ true → a ≡ true
and_left true b h = refl
and_left false b h = cc

and_right : (a b : Bool) → a && b ≡ true → b ≡ true
and_right true b h = h
and_right false b h = cc

module _ {ctx : Context} where
  pub num_const-Types :
      (c : Class) (v : ℤ) (f d : ℕ)
      → has_value c ≡ true
      → Types ctx (emit (num_const c v f d ∷ [])) [] (result_of c)
  num_const-Types vc_none v f d h = cc
  num_const-Types vc_i32 v f d h = emit-Types (λ all rest st fs. refl)
  num_const-Types vc_i64 v f d h = emit-Types (λ all rest st fs. refl)
  num_const-Types vc_f32 v f d h = emit-Types (λ all rest st fs. refl)
  num_const-Types vc_f64 v f d h = emit-Types (λ all rest st fs. refl)

  pub negated-Types :
      (vc : Class) (a : Part)
      → is_negatable vc (vclass a.ty) ≡ true
      → Valued ctx a
      → Types ctx (negated vc a) [] (result_of vc)
  negated-Types vc_none a h ha = cc
  negated-Types vc_i32 a h ha = >>-Types {mid = vc_i32 ∷ []} (emit-Types (λ all rest st fs. refl)) (
      >>-Types (above (vc_i32 ∷ []) (gen_expr_as-Types a vc_i32 ha))
        (emit-Types (λ all rest st fs. refl)))
  negated-Types vc_i64 a h ha = >>-Types {mid = vc_i64 ∷ []} (emit-Types (λ all rest st fs. refl)) (
      >>-Types (above (vc_i64 ∷ []) (gen_expr_as-Types a vc_i64 ha))
        (emit-Types (λ all rest st fs. refl)))
  negated-Types vc_f32 a h ha =
      >>-Types
        (subst (λ c. Types ctx a.value [] (result_of c)) (same_class_eq (vclass a.ty) vc_f32 h) ha)
        (emit-Types (λ all rest st fs. refl))
  negated-Types vc_f64 a h ha =
      >>-Types
        (subst (λ c. Types ctx a.value [] (result_of c)) (same_class_eq (vclass a.ty) vc_f64 h) ha)
        (emit-Types (λ all rest st fs. refl))

  pub inverted-Types :
      (vc : Class) (a : Part)
      → is_int vc ≡ true
      → Valued ctx a
      → Types ctx (inverted vc a) [] (result_of vc)
  inverted-Types vc_none a h ha = cc
  inverted-Types vc_i32 a h ha =
      >>-Types (gen_expr_as-Types a vc_i32 ha) (emit-Types (λ all rest st fs. refl))
  inverted-Types vc_i64 a h ha =
      >>-Types (gen_expr_as-Types a vc_i64 ha) (emit-Types (λ all rest st fs. refl))
  inverted-Types vc_f32 a h ha = cc
  inverted-Types vc_f64 a h ha = cc

  pub gen_binary-Types :
      (k : Binary) (ty : CType) (left : Option CType) (a b : Part)
      → is_operable k ty left ≡ true
      → Valued ctx a
      → Valued ctx b
      → Types ctx (gen_binary k ty left a b) [] (result_of (class_of ty))
  gen_binary-Types k ty none a b h ha hb = fail-Types
  gen_binary-Types k ty (some t) a b h ha hb =
      let vc = operand_class k ty t in
      let floats = same_bool_eq (is_flonum t) (is_float vc) (and_left _ _ h) in
      let full = and_left _ _ (and_right _ _ h) in
      let class =
        same_class_eq (binary_class k vc) (class_of ty) (and_right _ _ (and_right _ _ h)) in
      >>-Types (gen_expr_as-Types a vc ha) (
        >>-Types (above (result_of vc) (gen_expr_as-Types b vc hb)) (
          subst (λ c. Types ctx (binary_op k t vc) (result_of vc ++ result_of vc) (result_of c))
            class (binary_op-Types k t vc floats full)))

  -- An address is the value of a struct.
  pub struct_addr-Types :
      (ty : CType) {g : Gen}
      → (env : Env) → Types ctx g [] (result_of (class_of ty))
      → Types ctx (struct_addr env ty g) [] (vc_i32 ∷ [])
  struct_addr-Types ty {g} env h =
      if_known-Types (is_struct ty)
        (λ struct. subst (λ c. Types ctx g [] (result_of c)) (struct_class ty struct) h)
        (λ other. fail-Types)
