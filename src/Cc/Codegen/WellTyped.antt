-- ===== src/Cc/Codegen/WellTyped.antt =====
-- Expressions whose types agree, as the backend cc/codegen.c relies on it.
use sandbox_stack.Prelude.{◌≡◌, refl, ap₂, sym, subst}
use sandbox_stack.Prelude.{Bool, true, List, [], ◌∷◌, Option}
use sandbox_stack.Cc.Codegen.{vc_i32, CType, class_of, vclass, is_struct, is_int}
use sandbox_stack.Cc.Codegen.Expr.{
  Env, Node, Nodes, no_nodes, node, ty_of, callee_of, gen, gen_args, nd_null_expr, nd_num, nd_neg,
  nd_var, nd_member, nd_deref, nd_addr, nd_assign, nd_comma, nd_cast, nd_memzero, nd_cond, nd_not,
  nd_bitnot, nd_logand, nd_logor, nd_binary, nd_funcall, nd_unsupported,
}
use sandbox_stack.Cc.Codegen.Validate.{Context}
use sandbox_stack.Cc.Codegen.Access.{is_loadable}
use sandbox_stack.Cc.Codegen.Parts.{has_value, castable_from}
use sandbox_stack.Cc.Codegen.Calls.{Callee}
use sandbox_stack.Cc.Codegen.Arguments.{types_of, fits, all_values, has_buffer}
use sandbox_stack.Cc.Codegen.Assigned.{is_assignable}
use sandbox_stack.Cc.Codegen.Cases.{is_negatable, is_operable}

abbrev pub arg_types : Nodes → List (Option CType)
arg_types no_nodes = []
arg_types (node a as') = ty_of a ∷ arg_types as'

abbrev pub Is : Bool → Type 0
Is b = b ≡ true

-- The types that the front end gives to the parts of an expression agree, as far as the backend
-- relies on it. A call is of a function of the type that the context gives to its index.
module _ (ctx : Context) (env : Env) where
  unfoldable mutual
    pub WellTyped : Node → Type 0
    WellTyped nd_null_expr = Unit {0}
    WellTyped (nd_num ty v f d) = Is (has_value (class_of ty))
    WellTyped (nd_neg ty a) = WellTyped a × Is (is_negatable (class_of ty) (vclass (ty_of a)))
    WellTyped (nd_var ty v) = Is (is_loadable ty)
    WellTyped (nd_member ty a off bitfield) = WellTyped a × Is (is_loadable ty)
    WellTyped (nd_deref ty a) = WellTyped a × Is (is_loadable ty)
    WellTyped (nd_addr ty a) = WellTyped a × (class_of ty ≡ vc_i32)
    WellTyped (nd_assign ty a b) = WellTyped a × (WellTyped b × Is (is_assignable ty (ty_of b)))
    WellTyped (nd_comma ty a b) = WellTyped a × (WellTyped b × (class_of ty ≡ vclass (ty_of b)))
    WellTyped (nd_cast ty a) = WellTyped a × Is (castable_from (ty_of a) ty)
    WellTyped (nd_memzero v) = Unit {0}
    WellTyped (nd_cond ty c a b) =
        WellTyped c × (WellTyped a × (WellTyped b × Is (has_value (vclass (ty_of c)))))
    WellTyped (nd_not ty a) =
        WellTyped a × (Is (has_value (vclass (ty_of a))) × (class_of ty ≡ vc_i32))
    WellTyped (nd_bitnot ty a) = WellTyped a × Is (is_int (class_of ty))
    WellTyped (nd_logand ty a b) =
        WellTyped a
        × (WellTyped b
            × (Is (has_value (vclass (ty_of a)))
                × (Is (has_value (vclass (ty_of b))) × (class_of ty ≡ vc_i32))))
    WellTyped (nd_logor ty a b) =
        WellTyped a
        × (WellTyped b
            × (Is (has_value (vclass (ty_of a)))
                × (Is (has_value (vclass (ty_of b))) × (class_of ty ≡ vc_i32))))
    WellTyped (nd_binary k ty a b) = WellTyped a × (WellTyped b × Is (is_operable k ty (ty_of a)))
    WellTyped (nd_funcall ty f a args ret) =
        WellTyped a
        × (AllWellTyped args
            × (Callee ctx env (callee_of env a) f
                × ((class_of f.return_ty ≡ class_of ty)
                    × ((is_struct f.return_ty ≡ has_buffer ret)
                        × (Is (fits f.params (arg_types args))
                            × Is (all_values (arg_types args)))))))
    WellTyped (nd_unsupported ty) = Unit {0}

    pub AllWellTyped : Nodes → Type 0
    AllWellTyped no_nodes = Unit {0}
    AllWellTyped (node a as') = WellTyped a × AllWellTyped as'

-- The type of the part is that of the node.
pub gen-ty_of : (env : Env) (n : Node) → (gen env n).ty ≡ ty_of n
unfolding gen
gen-ty_of env nd_null_expr = refl
gen-ty_of env (nd_num ty v f d) = refl
gen-ty_of env (nd_neg ty a) = refl
gen-ty_of env (nd_var ty v) = refl
gen-ty_of env (nd_member ty a off b) = refl
gen-ty_of env (nd_deref ty a) = refl
gen-ty_of env (nd_addr ty a) = refl
gen-ty_of env (nd_assign ty a b) = refl
gen-ty_of env (nd_comma ty a b) = refl
gen-ty_of env (nd_cast ty a) = refl
gen-ty_of env (nd_memzero v) = refl
gen-ty_of env (nd_cond ty c a b) = refl
gen-ty_of env (nd_not ty a) = refl
gen-ty_of env (nd_bitnot ty a) = refl
gen-ty_of env (nd_logand ty a b) = refl
gen-ty_of env (nd_logor ty a b) = refl
gen-ty_of env (nd_binary k ty a b) = refl
gen-ty_of env (nd_funcall ty f a args r) = refl
gen-ty_of env (nd_unsupported ty) = refl

gen_args-arg_types : (env : Env) (ns : Nodes) → types_of (gen_args env ns) ≡ arg_types ns
unfolding gen
gen_args-arg_types env no_nodes = refl
gen_args-arg_types env (node a as') =
    ap₂ (λ t ts. t ∷ ts) (gen-ty_of env a) (gen_args-arg_types env as')

-- What holds of the type of a node holds of that of its part.
pub by_type :
    (env : Env) (n : Node) (holds : Option CType → Bool)
    → Is (holds (ty_of n))
    → Is (holds (gen env n).ty)
by_type env n holds h = subst (λ t. Is (holds t)) (sym (gen-ty_of env n)) h

pub by_types :
    (env : Env) (ns : Nodes) (holds : List (Option CType) → Bool)
    → Is (holds (arg_types ns))
    → Is (holds (types_of (gen_args env ns)))
by_types env ns holds h = subst (λ t. Is (holds t)) (sym (gen_args-arg_types env ns)) h
