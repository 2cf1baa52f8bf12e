-- ===== src/Cc/Codegen/Parts.antt =====
-- The parts of an expression of cc/codegen.c: values converted, tested, combined.
use sandbox_stack.Prelude.{ℕ, ◌≡◌, inl, inr, refl, sym, subst, arith}
use sandbox_stack.Prelude.{
  Bool, true, false, not, ◌&&◌, ◌||◌, Bool-cases, ◌==◌, if◌then◌else◌, [], ◌∷◌, Option, none, some,
}
use sandbox_stack.Cc.Codegen.{
  Class, vc_none, vc_i32, vc_i64, vc_f32, vc_f64, same_class, CType, TypeKind, op, emit, ◌>>◌,
  to_bool, convert, narrow, cast, class_of, vclass, is_ptr, is_void, is_bool, ty_void, ty_bool,
  ty_char, ty_short, ty_int, ty_long, ty_float, ty_double, ty_ldouble, ty_enum, ty_ptr, ty_func,
  ty_array, ty_vla, ty_struct, ty_union, cast_unsigned, needs_narrow,
}
use sandbox_stack.Cc.Codegen.Expr.{
  Part, gen_expr_as, gen_cond, convert_as, plus, dropped, cast_from,
}
use sandbox_stack.Cc.Codegen.Validate.{Context, result_of}
use sandbox_stack.Cc.Codegen.Typed.{Types, emit-Types, fail-Types, >>-Types, nothing}
use sandbox_stack.Cc.Codegen.Typing.{same_class_eq, to_bool-Types, convert-Types, narrow-Types}

-- The value of a part has the class of its type, and its address is an i32.
abbrev pub Valued : Context → Part → Type 0
Valued ctx p = Types ctx p.value [] (result_of (vclass p.ty))

abbrev pub Addressed : Context → Part → Type 0
Addressed ctx p = Types ctx p.addr [] (vc_i32 ∷ [])

-- A class of values
abbrev pub has_value : Class → Bool
has_value c = not (same_class c vc_none)

-- A cast to `_Bool` tests a value, and `_Bool` has no 8 bytes.
abbrev pub is_castable : CType → CType → Bool
is_castable from to = not (is_bool to) || has_value (class_of from) && not (to.size == 8)

has_value_lem : (c : Class) → has_value c ≡ true → same_class c vc_none ≡ false
has_value_lem vc_none h = cc
has_value_lem vc_i32 h = refl
has_value_lem vc_i64 h = refl
has_value_lem vc_f32 h = refl
has_value_lem vc_f64 h = refl

pub one_value : (c : Class) → has_value c ≡ true → result_of c ≡ c ∷ []
one_value c h = rw (has_value_lem c h) refl

void_class :
    (k : TypeKind) (size : ℕ) (u : Bool)
    → is_void (record { kind = k; size = size; is_unsigned = u }) ≡ true
    → class_of (record { kind = k; size = size; is_unsigned = u }) ≡ vc_none
void_class ty_void size u h = refl
void_class ty_bool size u h = cc
void_class ty_char size u h = cc
void_class ty_short size u h = cc
void_class ty_int size u h = cc
void_class ty_long size u h = cc
void_class ty_float size u h = cc
void_class ty_double size u h = cc
void_class ty_ldouble size u h = cc
void_class ty_enum size u h = cc
void_class ty_ptr size u h = cc
void_class ty_func size u h = cc
void_class ty_array size u h = cc
void_class ty_vla size u h = cc
void_class ty_struct size u h = cc
void_class ty_union size u h = cc

bool_class :
    (k : TypeKind) (size : ℕ) (u : Bool)
    → is_bool (record { kind = k; size = size; is_unsigned = u }) ≡ true
    → size == 8 ≡ false
    → class_of (record { kind = k; size = size; is_unsigned = u }) ≡ vc_i32
bool_class ty_bool size u h e = rw e refl
bool_class ty_void size u h e = cc
bool_class ty_char size u h e = cc
bool_class ty_short size u h e = cc
bool_class ty_int size u h e = cc
bool_class ty_long size u h e = cc
bool_class ty_float size u h e = cc
bool_class ty_double size u h e = cc
bool_class ty_ldouble size u h e = cc
bool_class ty_enum size u h e = cc
bool_class ty_ptr size u h e = cc
bool_class ty_func size u h e = cc
bool_class ty_array size u h e = cc
bool_class ty_vla size u h e = cc
bool_class ty_struct size u h e = cc
bool_class ty_union size u h e = cc

abbrev pub castable_from : Option CType → CType → Bool
castable_from none to = true
castable_from (some from) to = is_castable from to

module _ {ctx : Context} where
  drop-Types :
      (c : Class)
      → Types ctx (emit (if same_class c vc_none then [] else op 0x1a ∷ [])) (result_of c) []
  drop-Types vc_none = nothing
  drop-Types vc_i32 = emit-Types (λ all rest st fs. refl)
  drop-Types vc_i64 = emit-Types (λ all rest st fs. refl)
  drop-Types vc_f32 = emit-Types (λ all rest st fs. refl)
  drop-Types vc_f64 = emit-Types (λ all rest st fs. refl)

  narrow-if :
      (b : Bool) (to : CType)
      → Types ctx (emit (if b then narrow to else [])) (vc_i32 ∷ []) (vc_i32 ∷ [])
  narrow-if true to = narrow-Types to
  narrow-if false to = nothing

  narrow_needed :
      (from to : CType)
      → Types ctx
          (emit (if needs_narrow from to then narrow to else []))
          (result_of (class_of to))
          (result_of (class_of to))
  narrow_needed from to = elim (Bool-cases (same_class (class_of to) vc_i32)) [
    | inl same ↦
        subst
          (λ c.
            Types ctx (emit (if needs_narrow from to then narrow to else [])) (result_of c)
              (result_of c))
          (sym (same_class_eq (class_of to) vc_i32 same)) (narrow-if (needs_narrow from to) to)
    | inr other ↦ rw other nothing
  ]

  cast-Types :
      (from to : CType)
      → is_castable from to ≡ true
      → Types ctx (cast from to) (result_of (class_of from)) (result_of (class_of to))
  unfolding cast
  cast-Types from to h = elim (Bool-cases (is_void to)) [
    | inl void ↦ rw void (
        subst
          (λ c.
            Types ctx (emit (if same_class (class_of from) vc_none then [] else op 0x1a ∷ []))
              (result_of (class_of from)) (result_of c))
          (sym (void_class to.kind to.size to.is_unsigned void)) (drop-Types (class_of from)))
    | inr value ↦ elim (Bool-cases (is_bool to)) [
      | inl bool ↦
          let small : to.size == 8 ≡ false = ground arith in
          let full : has_value (class_of from) ≡ true = ground arith in
          rw (value, bool)
            (subst
              (λ c.
                Types ctx (emit (to_bool (class_of from))) (result_of (class_of from))
                  (result_of c))
              (sym (bool_class to.kind to.size to.is_unsigned bool small))
              (to_bool-Types (class_of from) (has_value_lem (class_of from) full)))
      | inr other ↦ rw value (
          subst
            (λ b.
              Types ctx
                (if b
                  then emit (to_bool (class_of from))
                  else (convert (class_of from) (class_of to) (cast_unsigned from to)
                      >> emit (if needs_narrow from to then narrow to else [])))
                (result_of (class_of from)) (result_of (class_of to)))
            (sym other)
            (>>-Types (convert-Types (class_of from) (class_of to) (cast_unsigned from to))
              (narrow_needed from to)))
    ]
  ]

  convert_as-Types :
      (ty : Option CType) (vc : Class)
      → Types ctx (convert_as ty vc) (result_of (vclass ty)) (result_of vc)
  convert_as-Types none vc = fail-Types
  convert_as-Types (some ty) vc = convert-Types (class_of ty) vc (ty.is_unsigned || is_ptr ty)

  pub gen_expr_as-Types :
      (p : Part) (vc : Class) → Valued ctx p → Types ctx (gen_expr_as p vc) [] (result_of vc)
  gen_expr_as-Types p vc h = >>-Types h (convert_as-Types p.ty vc)

  pub gen_cond-Types :
      (p : Part)
      → has_value (vclass p.ty) ≡ true
      → Valued ctx p
      → Types ctx (gen_cond p) [] (vc_i32 ∷ [])
  gen_cond-Types p full h =
      >>-Types h (to_bool-Types (vclass p.ty) (has_value_lem (vclass p.ty) full))

  pub dropped-Types : (p : Part) → Valued ctx p → Types ctx (dropped p) [] []
  dropped-Types p h = >>-Types h (drop-Types (vclass p.ty))

  pub cast_from-Types :
      (from : Option CType) (to : CType)
      → castable_from from to ≡ true
      → Types ctx (cast_from from to) (result_of (vclass from)) (result_of (class_of to))
  cast_from-Types none to h = fail-Types
  cast_from-Types (some from) to h = cast-Types from to h

  pub plus-Types : (off : ℕ) → Types ctx (emit (plus off)) (vc_i32 ∷ []) (vc_i32 ∷ [])
  plus-Types off = elim (Bool-cases (off == 0)) [
    | inl none_added ↦ rw none_added nothing
    | inr some_added ↦ rw some_added (emit-Types (λ all rest st fs. refl))
  ]
