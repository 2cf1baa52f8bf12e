-- ===== src/Cc/Codegen/Typing.antt =====
-- What the helpers of cc/codegen.c emit has the types that they promise.
use sandbox_stack.Prelude.{ℕ, ◌≡◌, inl, inr, refl, subst}
use sandbox_stack.Prelude.{Bool, true, false, Bool-cases, ◌==◌, if◌then◌else◌, List, [], ◌∷◌}
use sandbox_stack.Cc.Codegen.{
  Class, vc_none, vc_i32, vc_i64, vc_f32, vc_f64, same_class, CType, op, FuncSig, emit, to_bool,
  convert, convert_other, narrow, is_bool,
}
use sandbox_stack.Cc.Codegen.Validate.{Stack, Context, result_of}
use sandbox_stack.Cc.Codegen.Typed.{Runs, Types, emit-Types, fail-Types, nothing}

pub same_class_eq : (a b : Class) → same_class a b ≡ true → a ≡ b
same_class_eq vc_none vc_none h = refl
same_class_eq vc_i32 vc_i32 h = refl
same_class_eq vc_i64 vc_i64 h = refl
same_class_eq vc_f32 vc_f32 h = refl
same_class_eq vc_f64 vc_f64 h = refl
same_class_eq vc_none vc_i32 h = cc
same_class_eq vc_none vc_i64 h = cc
same_class_eq vc_none vc_f32 h = cc
same_class_eq vc_none vc_f64 h = cc
same_class_eq vc_i32 vc_none h = cc
same_class_eq vc_i32 vc_i64 h = cc
same_class_eq vc_i32 vc_f32 h = cc
same_class_eq vc_i32 vc_f64 h = cc
same_class_eq vc_i64 vc_none h = cc
same_class_eq vc_i64 vc_i32 h = cc
same_class_eq vc_i64 vc_f32 h = cc
same_class_eq vc_i64 vc_f64 h = cc
same_class_eq vc_f32 vc_none h = cc
same_class_eq vc_f32 vc_i32 h = cc
same_class_eq vc_f32 vc_i64 h = cc
same_class_eq vc_f32 vc_f64 h = cc
same_class_eq vc_f64 vc_none h = cc
same_class_eq vc_f64 vc_i32 h = cc
same_class_eq vc_f64 vc_i64 h = cc
same_class_eq vc_f64 vc_f32 h = cc

module _ {ctx : Context} where
  -- Written-out code is typed by running the validation.
  pub to_bool-Types :
      (c : Class)
      → same_class c vc_none ≡ false
      → Types ctx (emit (to_bool c)) (result_of c) (vc_i32 ∷ [])
  unfolding to_bool
  to_bool-Types vc_none h = cc
  to_bool-Types vc_i32 h = emit-Types (λ all rest st fs. refl)
  to_bool-Types vc_i64 h = emit-Types (λ all rest st fs. refl)
  to_bool-Types vc_f32 h = emit-Types (λ all rest st fs. refl)
  to_bool-Types vc_f64 h = emit-Types (λ all rest st fs. refl)

  pub op_if :
      (u : Bool) (a b : ℕ) {ins outs : Stack}
      → ((all : List FuncSig) → Runs ctx all (op a ∷ []) ins outs)
      → ((all : List FuncSig) → Runs ctx all (op b ∷ []) ins outs)
      → Types ctx (emit (op (if u then a else b) ∷ [])) ins outs
  op_if true a b h k = emit-Types h
  op_if false a b h k = emit-Types k

  convert_other-Types :
      (from to : Class) (u : Bool)
      → Types ctx (convert_other from to u) (result_of from) (result_of to)
  unfolding convert_other
  convert_other-Types vc_i32 vc_i64 u =
      op_if u _ _ (λ all rest st fs. refl) (λ all rest st fs. refl)
  convert_other-Types vc_i32 vc_f32 u =
      op_if u _ _ (λ all rest st fs. refl) (λ all rest st fs. refl)
  convert_other-Types vc_i32 vc_f64 u =
      op_if u _ _ (λ all rest st fs. refl) (λ all rest st fs. refl)
  convert_other-Types vc_i64 vc_i32 u = emit-Types (λ all rest st fs. refl)
  convert_other-Types vc_i64 vc_f32 u =
      op_if u _ _ (λ all rest st fs. refl) (λ all rest st fs. refl)
  convert_other-Types vc_i64 vc_f64 u =
      op_if u _ _ (λ all rest st fs. refl) (λ all rest st fs. refl)
  convert_other-Types vc_f32 vc_f64 u = emit-Types (λ all rest st fs. refl)
  convert_other-Types vc_f32 vc_i32 u =
      op_if u _ _ (λ all rest st fs. refl) (λ all rest st fs. refl)
  convert_other-Types vc_f32 vc_i64 u =
      op_if u _ _ (λ all rest st fs. refl) (λ all rest st fs. refl)
  convert_other-Types vc_f64 vc_f32 u = emit-Types (λ all rest st fs. refl)
  convert_other-Types vc_f64 vc_i32 u =
      op_if u _ _ (λ all rest st fs. refl) (λ all rest st fs. refl)
  convert_other-Types vc_f64 vc_i64 u =
      op_if u _ _ (λ all rest st fs. refl) (λ all rest st fs. refl)
  convert_other-Types vc_none to u = fail-Types
  convert_other-Types vc_i32 vc_none u = fail-Types
  convert_other-Types vc_i32 vc_i32 u = fail-Types
  convert_other-Types vc_i64 vc_none u = fail-Types
  convert_other-Types vc_i64 vc_i64 u = fail-Types
  convert_other-Types vc_f32 vc_none u = fail-Types
  convert_other-Types vc_f32 vc_f32 u = fail-Types
  convert_other-Types vc_f64 vc_none u = fail-Types
  convert_other-Types vc_f64 vc_f64 u = fail-Types

  pub convert-Types :
      (from to : Class) (u : Bool) → Types ctx (convert from to u) (result_of from) (result_of to)
  unfolding convert
  convert-Types from to u = elim (Bool-cases (same_class from to)) [
    | inl same ↦ rw same (
        subst (λ c. Types ctx (emit []) (result_of from) (result_of c)) (same_class_eq from to same)
          nothing)
    | inr other ↦ rw other (convert_other-Types from to u)
  ]

  -- Code of an i32 that stays one
  pub narrow-Types : (to : CType) → Types ctx (emit (narrow to)) (vc_i32 ∷ []) (vc_i32 ∷ [])
  unfolding narrow
  narrow-Types to = elim (Bool-cases (is_bool to)) [
    | inl bool ↦ rw bool nothing
    | inr other ↦ elim (Bool-cases (to.size == 1)) [
      | inl one ↦ elim (Bool-cases to.is_unsigned) [
        | inl u ↦ rw (other, one, u) (emit-Types (λ all rest st fs. refl))
        | inr s ↦ rw (other, one, s) (emit-Types (λ all rest st fs. refl))
      ]
      | inr more ↦ elim (Bool-cases (to.size == 2)) [
        | inl two ↦ elim (Bool-cases to.is_unsigned) [
          | inl u ↦ rw (other, more, two, u) (emit-Types (λ all rest st fs. refl))
          | inr s ↦ rw (other, more, two, s) (emit-Types (λ all rest st fs. refl))
        ]
        | inr large ↦ rw (other, more, large) nothing
      ]
    ]
  ]
