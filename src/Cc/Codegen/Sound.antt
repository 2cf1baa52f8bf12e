-- ===== src/Cc/Codegen/Sound.antt =====
-- `gen_expr` and `gen_addr` of cc/codegen.c on whole expressions.
use sandbox_stack.Prelude.{ℕ, ◌≡◌, ◌∙◌, refl, ap, sym, subst}
use sandbox_stack.Prelude.{List, [], ◌∷◌, ◌++◌, Option, none, some}
use mathlib.Core.List.{append-nil}
use sandbox_stack.Prelude.Int.{pos}
use sandbox_stack.Cc.Codegen.{
  vc_i32, CType, FuncType, Instr, i32c, FuncSig, Gen, class_of, vclass, is_struct,
}
use sandbox_stack.Cc.Codegen.Expr.{
  Env, Node, Nodes, no_nodes, node, ty_of, callee_of, gen, gen_args, gen_cond, if_buffer,
  is_bitfield, nd_null_expr, nd_num, nd_neg, nd_var, nd_member, nd_deref, nd_addr, nd_assign,
  nd_comma, nd_cast, nd_memzero, nd_cond, nd_not, nd_bitnot, nd_logand, nd_logor, nd_binary,
  nd_funcall, nd_unsupported,
}
use sandbox_stack.Cc.Codegen.Validate.{Stack, Context, Frame, check, result_of}
use sandbox_stack.Cc.Codegen.Typed.{
  Extends, Types, emit-Types, fail-Types, >>-Types, error_if-Types, nothing, branches-Types,
}
use sandbox_stack.Cc.Codegen.Access.{load-Types}
use sandbox_stack.Cc.Codegen.Parts.{
  Valued, Addressed, has_value, castable_from, cast_from-Types, gen_expr_as-Types, gen_cond-Types,
  dropped-Types, plus-Types,
}
use sandbox_stack.Cc.Codegen.Calls.{IsEnv}
use sandbox_stack.Cc.Codegen.Arguments.{
  AllValued, fits, all_values, has_buffer, struct_class, gen_funcall-Types,
}
use sandbox_stack.Cc.Codegen.Cases.{
  is_negatable, is_operable, num_const-Types, negated-Types, inverted-Types, gen_binary-Types,
  struct_addr-Types,
}
use sandbox_stack.Cc.Codegen.WellTyped.{WellTyped, AllWellTyped, Is, by_type, by_types, gen-ty_of}
use sandbox_stack.Cc.Codegen.Assigned.{is_assignable, var_addr-Types, assigned-Types, memzero-Types}

buffer-Types :
    {ctx : Context} (env : Env) (f : FuncType) (ty : CType) (ret : Option ℕ) {g : Gen}
    → class_of f.return_ty ≡ class_of ty
    → is_struct f.return_ty ≡ has_buffer ret
    → Types ctx g [] (result_of (class_of ty))
    → Types ctx (if_buffer env ret g) [] (vc_i32 ∷ [])
buffer-Types env f ty none class buffer h = fail-Types
buffer-Types {ctx} env f ty (some off) {g} class buffer h =
    subst (λ c. Types ctx g [] (result_of c)) (sym class ∙ struct_class f.return_ty buffer) h

module _ {ctx : Context} (env : Env) (e : IsEnv ctx env) where
  condition :
      (n : Node)
      → Is (has_value (vclass (ty_of n)))
      → Valued ctx (gen env n)
      → Types ctx (gen_cond (gen env n)) [] (vc_i32 ∷ [])
  condition n h v = gen_cond-Types (gen env n) (by_type env n (λ t. has_value (vclass t)) h) v

  as_class :
      (ty : CType) {g : Gen}
      → class_of ty ≡ vc_i32
      → Types ctx g [] (vc_i32 ∷ [])
      → Types ctx g [] (result_of (class_of ty))
  as_class ty {g} class h = subst (λ c. Types ctx g [] (result_of c)) (sym class) h

  -- The value of a node has the class of its type, and its address is an i32.
  mutual
    unfolding gen WellTyped

    gen_Types :
        (n : Node) → WellTyped ctx env n → Valued ctx (gen env n) × Addressed ctx (gen env n)
    gen_Types nd_null_expr w = (nothing, fail-Types)
    gen_Types (nd_num ty v f d) w = (num_const-Types (class_of ty) v f d w, fail-Types)
    gen_Types (nd_neg ty a) (wa, h) =
        let (va, aa) = gen_Types a wa in
        (
          negated-Types (class_of ty) (gen env a)
              (by_type env a (λ t. is_negatable (class_of ty) (vclass t)) h) va,
          fail-Types,
        )
    gen_Types (nd_var ty v) h =
        (>>-Types (var_addr-Types env e v) (load-Types ty h), var_addr-Types env e v)
    gen_Types (nd_member ty a off bitfield) (wa, h) =
        let (va, aa) = gen_Types a wa in
        (
          error_if-Types bitfield (>>-Types aa (>>-Types (plus-Types off) (load-Types ty h))),
          >>-Types aa (plus-Types off),
        )
    gen_Types (nd_deref ty a) (wa, h) =
        let (va, aa) = gen_Types a wa in
        let pointer = gen_expr_as-Types (gen env a) vc_i32 va in
        (>>-Types pointer (load-Types ty h), pointer)
    gen_Types (nd_addr ty a) (wa, class) =
        let (va, aa) = gen_Types a wa in
        (subst (λ c. Types ctx (gen env a).addr [] (result_of c)) (sym class) aa, fail-Types)
    gen_Types (nd_assign ty a b) (wa, (wb, h)) =
        let (va, aa) = gen_Types a wa in
        let (vb, ab) = gen_Types b wb in
        let value = error_if-Types (is_bitfield a) (
          assigned-Types env e ty (gen env a) (gen env b)
            (by_type env b (λ t. is_assignable ty t) h) aa vb) in
        (value, struct_addr-Types ty env value)
    gen_Types (nd_comma ty a b) (wa, (wb, class)) =
        let (va, aa) = gen_Types a wa in
        let (vb, ab) = gen_Types b wb in
        let first = dropped-Types (gen env a) va in
        (
          >>-Types first (
              subst (λ c. Types ctx (gen env b).value [] (result_of c))
                (ap vclass (gen-ty_of env b) ∙ sym class) vb),
          >>-Types first ab,
        )
    gen_Types (nd_cast ty a) (wa, h) =
        let (va, aa) = gen_Types a wa in
        (
          >>-Types va
              (cast_from-Types (gen env a).ty ty (by_type env a (λ t. castable_from t ty) h)),
          fail-Types,
        )
    gen_Types (nd_memzero v) w = (memzero-Types env e v.offset v.ty.size, fail-Types)
    gen_Types (nd_cond ty c a b) (wc, (wa, (wb, h))) =
        let (vc, ac) = gen_Types c wc in
        let (va, aa) = gen_Types a wa in
        let (vb, ab) = gen_Types b wb in
        let class = class_of ty in
        let value = >>-Types (condition c h vc) (
          branches-Types class (gen_expr_as-Types (gen env a) class va)
            (gen_expr_as-Types (gen env b) class vb)) in
        (value, struct_addr-Types ty env value)
    gen_Types (nd_not ty a) (wa, (h, class)) =
        let (va, aa) = gen_Types a wa in
        (
          as_class ty class (>>-Types (condition a h va) (emit-Types (λ all rest st fs. refl))),
          fail-Types,
        )
    gen_Types (nd_bitnot ty a) (wa, h) =
        let (va, aa) = gen_Types a wa in (inverted-Types (class_of ty) (gen env a) h va, fail-Types)
    gen_Types (nd_logand ty a b) (wa, (wb, (ha, (hb, class)))) =
        let (va, aa) = gen_Types a wa in
        let (vb, ab) = gen_Types b wb in
        (
          as_class ty class (
              >>-Types (condition a ha va) (
                branches-Types vc_i32 (condition b hb vb)
                  (emit-Types {c = i32c (pos 0) ∷ []} (λ all rest st fs. refl)))),
          fail-Types,
        )
    gen_Types (nd_logor ty a b) (wa, (wb, (ha, (hb, class)))) =
        let (va, aa) = gen_Types a wa in
        let (vb, ab) = gen_Types b wb in
        (
          as_class ty class (
              >>-Types (condition a ha va) (
                branches-Types vc_i32 (emit-Types {c = i32c (pos 1) ∷ []} (λ all rest st fs. refl))
                  (condition b hb vb))),
          fail-Types,
        )
    gen_Types (nd_binary k ty a b) (wa, (wb, h)) =
        let (va, aa) = gen_Types a wa in
        let (vb, ab) = gen_Types b wb in
        (
          gen_binary-Types k ty (gen env a).ty (gen env a) (gen env b)
              (by_type env a (λ t. is_operable k ty t) h) va vb,
          fail-Types,
        )
    gen_Types (nd_funcall ty f a args ret) (wa, (ws, (called, (class, (buffer, (fit, full)))))) =
        let (va, aa) = gen_Types a wa in
        let value =
          gen_funcall-Types env ty f (callee_of env a) (gen env a) (gen_args env args) ret e class
            buffer (by_types env args (λ ts. fits f.params ts) fit)
            (by_types env args all_values full) called va (gen_args_Types args ws) in
        (value, buffer-Types env f ty ret class buffer value)
    gen_Types (nd_unsupported ty) w = (fail-Types, fail-Types)

    gen_args_Types : (ns : Nodes) → AllWellTyped ctx env ns → AllValued ctx (gen_args env ns)
    gen_args_Types no_nodes w = w
    gen_args_Types (node a as') (wa, ws) =
        let (va, aa) = gen_Types a wa in (va, gen_args_Types as' ws)

-- In a context that declares the scratch locals of the backend with their types, for an expression
-- whose types agree and calls whose functions have the types of the calls: what `gen_expr` writes,
-- where it reports no error, is valid wasm, whatever operands and open frames there are before it
-- and whatever entries the type section gets behind those that it was given. It takes no operand and
-- leaves one of the class of the type of the expression, or none if that type has no value.
pub gen-IsValid :
    {ctx : Context} (env : Env) (e : IsEnv ctx env) (n : Node) (ts ts' all : List FuncSig)
    (code : List Instr) (st : Stack) (fs : List Frame)
    → WellTyped ctx env n
    → (gen env n).value ts ≡ some (code, ts')
    → Extends ts' all
    → check ctx all code (st, fs) ≡ some (result_of (vclass (ty_of n)) ++ st, fs)
gen-IsValid {ctx} env e n ts ts' all code st fs w made more =
    let (value, address) = gen_Types env e n w in
    let (grow, runs) = value.typed ts code ts' made in
    ap (λ c. check ctx all c (st, fs)) (sym (append-nil code))
    ∙ runs all more [] st fs
    ∙ ap (λ t. some (result_of (vclass t) ++ st, fs)) (gen-ty_of env n)

-- The code of `gen_addr`, where there is any, leaves one i32 in the same way.
pub gen-IsAddress :
    {ctx : Context} (env : Env) (e : IsEnv ctx env) (n : Node) (ts ts' all : List FuncSig)
    (code : List Instr) (st : Stack) (fs : List Frame)
    → WellTyped ctx env n
    → (gen env n).addr ts ≡ some (code, ts')
    → Extends ts' all
    → check ctx all code (st, fs) ≡ some (vc_i32 ∷ st, fs)
gen-IsAddress {ctx} env e n ts ts' all code st fs w made more =
    let (value, address) = gen_Types env e n w in
    let (grow, runs) = address.typed ts code ts' made in
    ap (λ c. check ctx all c (st, fs)) (sym (append-nil code)) ∙ runs all more [] st fs
