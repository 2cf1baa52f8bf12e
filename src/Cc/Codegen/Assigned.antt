-- ===== src/Cc/Codegen/Assigned.antt =====
-- The addresses of variables, and assignments, of cc/codegen.c.
use sandbox_stack.Prelude.{ℕ, ◌≡◌, ◌∙◌, inl, inr, refl, ap, sym, subst}
use sandbox_stack.Prelude.{
  Bool, true, false, Bool-cases, ◌==◌, if◌then◌else◌, [], ◌∷◌, ◌++◌, Option, none, some,
}
use sandbox_stack.Prelude.Int.{pos}
use sandbox_stack.Cc.Codegen.{
  Class, vc_none, vc_i32, vc_i64, vc_f32, vc_f64, same_class, CType, op, op_u, i32c, memory_copy,
  memory_fill, emit, ◌>>◌, store, class_of, vclass, is_struct, is_vla,
}
use sandbox_stack.Cc.Codegen.Expr.{
  Part, Obj, Env, fp_plus, address, global_addr, var_addr, scratch_local, store_and_keep, assigned,
}
use sandbox_stack.Cc.Codegen.Validate.{Context, check, then_check, gets, tees, result_of}
use sandbox_stack.Cc.Codegen.Typed.{
  Types, emit-Types, fail-Types, >>-Types, above, over, if-Types, if_known-Types, error_if-Types,
}
use sandbox_stack.Cc.Codegen.Typing.{same_class_eq}
use sandbox_stack.Cc.Codegen.Access.{is_storable, store-Types}
use sandbox_stack.Cc.Codegen.Parts.{Valued, Addressed, has_value, one_value, gen_expr_as-Types}
use sandbox_stack.Cc.Codegen.Calls.{IsEnv, fp_plus-Types}
use sandbox_stack.Cc.Codegen.Arguments.{struct_class}

-- What is assigned: the address of a struct, or a value of a type that is stored
abbrev pub is_assignable : CType → Option CType → Bool
is_assignable ty from = if is_struct ty then same_class (vclass from) vc_i32 else is_storable ty

under_if : {b x : Bool} (y : Bool) → b ≡ true → (if b then x else y) ≡ true → x ≡ true
under_if {b} {x} y known h = subst (λ c. (if c then x else y) ≡ true) known h

under_else : {b y : Bool} (x : Bool) → b ≡ false → (if b then x else y) ≡ true → y ≡ true
under_else {b} {y} x known h = subst (λ c. (if c then x else y) ≡ true) known h

module _ {ctx : Context} (env : Env) (e : IsEnv ctx env) where
  address-Types : (a : Option ℕ) → Types ctx (address env a) [] (vc_i32 ∷ [])
  address-Types none = fail-Types
  address-Types (some a) = emit-Types (λ all rest st fs. refl)

  pub var_addr-Types : (v : Obj) → Types ctx (var_addr env v) [] (vc_i32 ∷ [])
  unfolding var_addr
  var_addr-Types v = error_if-Types (is_vla v.ty) (
      if-Types v.is_local (fp_plus-Types env e v.offset)
        (error_if-Types v.is_tls (address-Types (global_addr env v))))

  get-Types :
      (l : ℕ) (c : Class) → ctx.locals l ≡ some c → Types ctx (emit (op_u 0x20 l ∷ [])) [] (c ∷ [])
  get-Types l c at =
      emit-Types (λ all rest st fs. ap (λ t. then_check (check ctx all rest) (gets t (st, fs))) at)

  tee-Types :
      (l : ℕ) (c : Class)
      → has_value c ≡ true
      → ctx.locals l ≡ some c
      → Types ctx (emit (op_u 0x22 l ∷ [])) (c ∷ []) (c ∷ [])
  tee-Types l vc_none h at = cc
  tee-Types l vc_i32 h at =
      emit-Types
        (λ all rest st fs. ap (λ t. then_check (check ctx all rest) (tees t (vc_i32 ∷ st, fs))) at)
  tee-Types l vc_i64 h at =
      emit-Types
        (λ all rest st fs. ap (λ t. then_check (check ctx all rest) (tees t (vc_i64 ∷ st, fs))) at)
  tee-Types l vc_f32 h at =
      emit-Types
        (λ all rest st fs. ap (λ t. then_check (check ctx all rest) (tees t (vc_f32 ∷ st, fs))) at)
  tee-Types l vc_f64 h at =
      emit-Types
        (λ all rest st fs. ap (λ t. then_check (check ctx all rest) (tees t (vc_f64 ∷ st, fs))) at)

  kept-Types :
      (l : ℕ) (ty : CType)
      → is_storable ty ≡ true
      → has_value (class_of ty) ≡ true
      → ctx.locals l ≡ some (class_of ty)
      → Types ctx
          (store_and_keep env (some l) ty)
          (result_of (class_of ty) ++ (vc_i32 ∷ []))
          (result_of (class_of ty))
  kept-Types l ty storable full at =
      let c = class_of ty in
      let one = one_value c full in
      subst (λ r. Types ctx (store_and_keep env (some l) ty) (r ++ (vc_i32 ∷ [])) r) (sym one)
        (>>-Types (over (vc_i32 ∷ []) (tee-Types l c full at)) (
          >>-Types
            (subst (λ r. Types ctx (store ty) (r ++ (vc_i32 ∷ [])) []) one
              (store-Types ty storable))
            (get-Types l c at)))

  -- The value is stored and is there again.
  store_and_keep-Types :
      (c : Class) (ty : CType)
      → class_of ty ≡ c
      → is_storable ty ≡ true
      → Types ctx
          (store_and_keep env (scratch_local env c) ty)
          (result_of (class_of ty) ++ (vc_i32 ∷ []))
          (result_of (class_of ty))
  store_and_keep-Types vc_none ty class storable = fail-Types
  store_and_keep-Types vc_i32 ty class storable =
      kept-Types env.loc_t32 ty storable (ap has_value class) (e.t32 ∙ ap (λ c. some c) (sym class))
  store_and_keep-Types vc_i64 ty class storable =
      kept-Types env.loc_t64 ty storable (ap has_value class) (e.t64 ∙ ap (λ c. some c) (sym class))
  store_and_keep-Types vc_f32 ty class storable =
      kept-Types env.loc_tf32 ty storable (ap has_value class)
        (e.tf32 ∙ ap (λ c. some c) (sym class))
  store_and_keep-Types vc_f64 ty class storable =
      kept-Types env.loc_tf64 ty storable (ap has_value class)
        (e.tf64 ∙ ap (λ c. some c) (sym class))

  -- The bytes of a struct are copied, and its address is kept.
  copied-Types :
      (ty : CType) (a b : Part)
      → same_class (vclass b.ty) vc_i32 ≡ true
      → Addressed ctx a
      → Valued ctx b
      → Types ctx
          (a.addr
            >> (emit (op_u 0x22 env.loc_t32b ∷ [])
                >> (b.value
                    >> emit (i32c (pos ty.size) ∷ memory_copy ∷ op_u 0x20 env.loc_t32b ∷ []))))
          []
          (vc_i32 ∷ [])
  copied-Types ty a b class ha hb = >>-Types ha (
      >>-Types (tee-Types env.loc_t32b vc_i32 refl e.t32b) (
        >>-Types
          (above (vc_i32 ∷ []) (
            subst (λ c. Types ctx b.value [] (result_of c))
              (same_class_eq (vclass b.ty) vc_i32 class) hb))
          (emit-Types (λ all rest st fs.
            ap (λ t. then_check (check ctx all rest) (gets t (st, fs))) e.t32b))))

  pub assigned-Types :
      (ty : CType) (a b : Part)
      → is_assignable ty b.ty ≡ true
      → Addressed ctx a
      → Valued ctx b
      → Types ctx (assigned env ty a b) [] (result_of (class_of ty))
  unfolding assigned
  assigned-Types ty a b h ha hb =
      if_known-Types (is_struct ty)
        (λ struct.
          subst
            (λ c.
              Types ctx
                (a.addr
                  >> (emit (op_u 0x22 env.loc_t32b ∷ [])
                      >> (b.value
                          >> emit
                              (i32c (pos ty.size) ∷ memory_copy ∷ op_u 0x20 env.loc_t32b ∷ []))))
                [] (result_of c))
            (sym (struct_class ty struct))
            (copied-Types ty a b (under_if (is_storable ty) struct h) ha hb))
        (λ value. >>-Types ha (
          >>-Types (above (vc_i32 ∷ []) (gen_expr_as-Types b (class_of ty) hb)) (
            store_and_keep-Types (class_of ty) ty refl
              (under_else (same_class (vclass b.ty) vc_i32) value h))))

  pub memzero-Types :
      (off size : ℕ)
      → Types ctx
          (emit (fp_plus env off ++ (i32c (pos 0) ∷ i32c (pos size) ∷ memory_fill ∷ [])))
          []
          []
  memzero-Types off size = elim (Bool-cases (off == 0)) [
    | inl first ↦ rw first (
        emit-Types (λ all rest st fs.
          ap
            (λ t.
              then_check (check ctx all (i32c (pos 0) ∷ (i32c (pos size) ∷ (memory_fill ∷ rest))))
                (gets t (st, fs)))
            e.fp))
    | inr other ↦ rw other (
        emit-Types (λ all rest st fs.
          ap
            (λ t.
              then_check
                (check ctx all (
                  i32c (pos off)
                  ∷ (op 0x6a ∷ (i32c (pos 0) ∷ (i32c (pos size) ∷ (memory_fill ∷ rest))))))
                (gets t (st, fs)))
            e.fp))
  ]
