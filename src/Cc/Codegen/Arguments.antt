-- ===== src/Cc/Codegen/Arguments.antt =====
-- The arguments of a call of cc/codegen.c, the address of its result, and the builtins.
use sandbox_stack.Prelude.{ℕ, zero, suc, ◌*◌, ◌≡◌, ◌∙◌, inl, inr, refl, ap, sym, subst, arith}
use sandbox_stack.Prelude.{
  Bool, true, false, ◌&&◌, Bool-cases, ◌==◌, if◌then◌else◌, List, [], ◌∷◌, ◌++◌, Option, none, some,
  length, codes,
}
use sandbox_stack.Cc.Elf.{same}
use sandbox_stack.Cc.Codegen.{
  vc_i32, same_class, CType, TypeKind, FuncType, op_u, memory_size, param_classes, sig_of, emit,
  ◌>>◌, class_of, vclass, is_struct, convert, ty_void, ty_bool, ty_char, ty_short, ty_int, ty_long,
  ty_float, ty_double, ty_ldouble, ty_enum, ty_ptr, ty_func, ty_array, ty_vla, ty_struct, ty_union,
}
use sandbox_stack.Cc.Codegen.Expr.{
  Part, Obj, Env, plus, ret_address, fixed_args, other_args, variadic_args, is_struct_part,
  slots_size, call_code, too_many, rest_of_call, plain_call, all_dropped, grow_memory, gen_funcall,
}
use sandbox_stack.Cc.Codegen.Validate.{Stack, Context, result_of, reversed_onto}
use sandbox_stack.Cc.Codegen.Typed.{
  Types, emit-Types, fail-Types, >>-Types, above, if-Types, if_known-Types, error_if-Types, nothing,
}
use sandbox_stack.Cc.Codegen.Typing.{same_class_eq, convert-Types}
use sandbox_stack.Cc.Codegen.Parts.{Valued, has_value, one_value, gen_expr_as-Types}
use sandbox_stack.Cc.Codegen.Calls.{
  IsEnv, Callee, takes, call_code-Types, move_sp-Types, move_back-Types, fp_plus-Types,
  store_slot-Types,
}

abbrev pub AllValued : Context → List Part → Type 0
AllValued ctx [] = Unit {0}
AllValued ctx (p ∷ ps) = Valued ctx p × AllValued ctx ps

abbrev pub types_of : List Part → List (Option CType)
types_of [] = []
types_of (p ∷ ps) = p.ty ∷ types_of ps

-- Every argument for a parameter has the class of the parameter, which is a value.
abbrev pub fits : List CType → List (Option CType) → Bool
fits [] us = true
fits (t ∷ ts) [] = true
fits (t ∷ ts) (u ∷ us) =
    same_class (class_of t) (vclass u) && (has_value (class_of t) && fits ts us)

abbrev pub all_values : List (Option CType) → Bool
all_values [] = true
all_values (u ∷ us) = has_value (vclass u) && all_values us

-- A buffer for the result
abbrev pub has_buffer : Option ℕ → Bool
has_buffer none = false
has_buffer (some off) = true

-- The address of the result, if it is a struct
abbrev hidden : FuncType → Stack
hidden f = if is_struct f.return_ty then vc_i32 ∷ [] else []

reversed_onto-append :
    (xs ys acc : Stack) → reversed_onto (xs ++ ys) acc ≡ reversed_onto ys (reversed_onto xs acc)
reversed_onto-append [] ys acc = refl
reversed_onto-append (x ∷ xs) ys acc = reversed_onto-append xs ys (x ∷ acc)

hidden_first :
    (b : Bool) (zs : Stack)
    → reversed_onto ((if b then vc_i32 ∷ [] else []) ++ zs) []
      ≡ reversed_onto zs (if b then vc_i32 ∷ [] else [])
hidden_first true zs = refl
hidden_first false zs = refl

takes_lem :
    (f : FuncType)
    → takes (sig_of f)
      ≡ reversed_onto
          (if f.is_variadic then vc_i32 ∷ [] else [])
          (reversed_onto (param_classes f.params) (hidden f))
takes_lem f =
    hidden_first (is_struct f.return_ty) _
    ∙ reversed_onto-append (param_classes f.params) (if f.is_variadic then vc_i32 ∷ [] else [])
        (hidden f)

struct_kind :
    (k : TypeKind) (size : ℕ) (u : Bool)
    → is_struct (record { kind = k; size = size; is_unsigned = u }) ≡ true
    → class_of (record { kind = k; size = size; is_unsigned = u }) ≡ vc_i32
struct_kind ty_struct size u h = refl
struct_kind ty_union size u h = refl
struct_kind ty_void size u h = cc
struct_kind ty_bool size u h = cc
struct_kind ty_char size u h = cc
struct_kind ty_short size u h = cc
struct_kind ty_int size u h = cc
struct_kind ty_long size u h = cc
struct_kind ty_float size u h = cc
struct_kind ty_double size u h = cc
struct_kind ty_ldouble size u h = cc
struct_kind ty_enum size u h = cc
struct_kind ty_ptr size u h = cc
struct_kind ty_func size u h = cc
struct_kind ty_array size u h = cc
struct_kind ty_vla size u h = cc

-- The value of a struct is its address.
pub struct_class : (ty : CType) → is_struct ty ≡ true → class_of ty ≡ vc_i32
struct_class ty h = struct_kind ty.kind ty.size ty.is_unsigned h

other_args-AllValued :
    (ctx : Context) (env : Env) (n : ℕ) (ps : List Part)
    → AllValued ctx ps
    → AllValued ctx (other_args env n ps)
other_args-AllValued ctx env zero ps hs = hs
other_args-AllValued ctx env (suc n) [] hs = hs
other_args-AllValued ctx env (suc n) (p ∷ ps) (h, hs) = other_args-AllValued ctx env n ps hs

module _ {ctx : Context} (env : Env) where
  fixed_args-Types :
      (ts : List CType) (ps : List Part) (s : Stack)
      → AllValued ctx ps
      → fits ts (types_of ps) ≡ true
      → Types ctx (fixed_args env (length ts) ps) s (reversed_onto (param_classes ts) s)
  fixed_args-Types [] ps s hs fit = nothing
  fixed_args-Types (t ∷ ts) [] s hs fit = fail-Types
  fixed_args-Types (t ∷ ts) (p ∷ ps) s (h, hs) fit =
      let agree : same_class (class_of t) (vclass p.ty) ≡ true = ground arith in
      let full : has_value (class_of t) ≡ true = ground arith in
      let others : fits ts (types_of ps) ≡ true = ground arith in
      let top : result_of (vclass p.ty) ++ s ≡ class_of t ∷ s =
        ap (λ c. result_of c ++ s) (sym (same_class_eq (class_of t) (vclass p.ty) agree))
        ∙ ap (λ r. r ++ s) (one_value (class_of t) full) in
      >>-Types (subst (λ m. Types ctx p.value s m) top (above s h))
        (fixed_args-Types ts ps (class_of t ∷ s) hs others)

  slot_address-Types : (off : ℕ) → Types ctx (emit (op_u 0x23 0 ∷ plus off)) [] (vc_i32 ∷ [])
  slot_address-Types off = elim (Bool-cases (off == 0)) [
    | inl same_slot ↦ rw same_slot (emit-Types (λ all rest st fs. refl))
    | inr other ↦ rw other (emit-Types (λ all rest st fs. refl))
  ]

  variadic_args-Types :
      (slot : ℕ) (ps : List Part) (s : Stack)
      → AllValued ctx ps
      → Types ctx (variadic_args env slot ps) s s
  variadic_args-Types slot [] s hs = nothing
  variadic_args-Types slot (p ∷ ps) s (h, hs) =
      >>-Types
        (error_if-Types (is_struct_part env p.ty) (
          above s (
            >>-Types (slot_address-Types (slot * 8))
              (>>-Types (above (vc_i32 ∷ []) h) (store_slot-Types env (vclass p.ty))))))
        (variadic_args-Types (suc slot) ps s hs)

  rest_of_call-Types :
      (f : FuncType) (v : Option Obj) (a : Part) (ps : List Part)
      → Callee ctx env v f
      → Valued ctx a
      → AllValued ctx ps
      → Types ctx
          (rest_of_call env f v a ps)
          (reversed_onto (param_classes f.params) (hidden f))
          (result_of (sig_of f).result)
  unfolding rest_of_call
  rest_of_call-Types f v a ps called ha hs =
      let under = reversed_onto (param_classes f.params) (hidden f) in
      let size = slots_size env (length ps) in
      let called_on : (b : Bool)
          → f.is_variadic ≡ b
          → Types ctx (call_code env v f a) (reversed_onto (if b then vc_i32 ∷ [] else []) under)
              (result_of (sig_of f).result) =
        λ b is.
          subst (λ s. Types ctx (call_code env v f a) s (result_of (sig_of f).result))
            (takes_lem f ∙ ap (λ c. reversed_onto (if c then vc_i32 ∷ [] else []) under) is)
            (call_code-Types env v f a called ha) in
      if_known-Types f.is_variadic
        (λ variadic. >>-Types (move_sp-Types env size under) (
          >>-Types (variadic_args-Types 0 ps under hs) (
            >>-Types (above under (slot_address-Types 0)) (
              >>-Types (called_on true variadic)
                (move_back-Types env size (result_of (sig_of f).result))))))
        (λ fixed. error_if-Types (too_many env ps) (called_on false fixed))

  before_call :
      (f : FuncType) (ret : Option ℕ)
      → IsEnv ctx env
      → is_struct f.return_ty ≡ has_buffer ret
      → Types ctx (emit (ret_address env ret)) [] (hidden f)
  before_call f none e h = rw h nothing
  before_call f (some off) e h = rw h (fp_plus-Types env e off)

  after_call :
      (f : FuncType) (ret : Option ℕ)
      → IsEnv ctx env
      → is_struct f.return_ty ≡ has_buffer ret
      → Types ctx
          (emit (ret_address env ret))
          (result_of (sig_of f).result)
          (result_of (class_of f.return_ty))
  after_call f none e h = rw h nothing
  after_call f (some off) e h =
      let class = struct_class f.return_ty h in rw (h, class) (fp_plus-Types env e off)

  plain_call-Types :
      (f : FuncType) (v : Option Obj) (a : Part) (ps : List Part) (ret : Option ℕ)
      → IsEnv ctx env
      → is_struct f.return_ty ≡ has_buffer ret
      → fits f.params (types_of ps) ≡ true
      → Callee ctx env v f
      → Valued ctx a
      → AllValued ctx ps
      → Types ctx (plain_call env f v a ps ret) [] (result_of (class_of f.return_ty))
  unfolding plain_call
  plain_call-Types f v a ps ret e buffer fit called ha hs = >>-Types (before_call f ret e buffer) (
      >>-Types (fixed_args-Types f.params ps (hidden f) hs fit) (
        >>-Types
          (rest_of_call-Types f v a (other_args env (length f.params) ps) called ha
            (other_args-AllValued ctx env (length f.params) ps hs))
          (after_call f ret e buffer)))

  all_dropped-Types :
      (ps : List Part)
      → all_values (types_of ps) ≡ true
      → AllValued ctx ps
      → Types ctx (all_dropped env ps) [] []
  all_dropped-Types [] full hs = nothing
  all_dropped-Types (p ∷ ps) full (h, hs) =
      >>-Types (subst (λ s. Types ctx p.value [] s) (one_value (vclass p.ty) (ground arith)) h)
        (>>-Types (emit-Types (λ all rest st fs. refl)) (all_dropped-Types ps (ground arith) hs))

  memory_size-Types :
      (ty : CType) (ps : List Part)
      → all_values (types_of ps) ≡ true
      → AllValued ctx ps
      → Types ctx
          (all_dropped env ps >> (emit (memory_size ∷ []) >> convert vc_i32 (class_of ty) true))
          []
          (result_of (class_of ty))
  memory_size-Types ty ps full hs =
      >>-Types (all_dropped-Types ps full hs)
        (>>-Types (emit-Types (λ all rest st fs. refl)) (convert-Types vc_i32 (class_of ty) true))

  grow_memory-Types :
      (ty : CType) (ps : List Part)
      → all_values (types_of ps) ≡ true
      → AllValued ctx ps
      → Types ctx (grow_memory env ty ps) [] (result_of (class_of ty))
  grow_memory-Types ty [] full hs = fail-Types
  grow_memory-Types ty (p ∷ []) full hs = fail-Types
  grow_memory-Types ty (p ∷ (q ∷ ps)) full (h, (k, hs)) =
      >>-Types (subst (λ s. Types ctx p.value [] s) (one_value (vclass p.ty) (ground arith)) h) (
        >>-Types (emit-Types (λ all rest st fs. refl)) (
          >>-Types (gen_expr_as-Types q vc_i32 k) (
            >>-Types (emit-Types (λ all rest st fs. refl))
              (convert-Types vc_i32 (class_of ty) true))))

  -- A call leaves the value of the class of its type.
  pub gen_funcall-Types :
      (ty : CType) (f : FuncType) (v : Option Obj) (a : Part) (ps : List Part) (ret : Option ℕ)
      → IsEnv ctx env
      → class_of f.return_ty ≡ class_of ty
      → is_struct f.return_ty ≡ has_buffer ret
      → fits f.params (types_of ps) ≡ true
      → all_values (types_of ps) ≡ true
      → Callee ctx env v f
      → Valued ctx a
      → AllValued ctx ps
      → Types ctx (gen_funcall env ty f v a ps ret) [] (result_of (class_of ty))
  unfolding gen_funcall
  gen_funcall-Types ty f none a ps ret e class buffer fit full called ha hs =
      subst (λ c. Types ctx (plain_call env f none a ps ret) [] (result_of c)) class
        (plain_call-Types f none a ps ret e buffer fit called ha hs)
  gen_funcall-Types ty f (some v) a ps ret e class buffer fit full called ha hs =
      if-Types (same (codes "__builtin_wasm_memory_size") v.name) (memory_size-Types ty ps full hs)
        (if-Types (same (codes "__builtin_wasm_memory_grow") v.name)
          (grow_memory-Types ty ps full hs)
          (if-Types (same (codes "alloca") v.name) fail-Types (
            subst (λ c. Types ctx (plain_call env f (some v) a ps ret) [] (result_of c)) class
              (plain_call-Types f (some v) a ps ret e buffer fit called ha hs))))
