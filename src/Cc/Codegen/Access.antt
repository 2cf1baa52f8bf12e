-- ===== src/Cc/Codegen/Access.antt =====
-- The loads and stores of cc/codegen.c.
use sandbox_stack.Prelude.{ℕ, ◌≡◌, inl, inr, refl, sym, subst, arith}
use sandbox_stack.Prelude.{
  Bool, true, false, not, ◌&&◌, ◌||◌, Bool-cases, ◌==◌, if◌then◌else◌, List, [], ◌∷◌, ◌++◌,
}
use sandbox_stack.Cc.Codegen.{
  vc_none, vc_i32, vc_i64, same_class, CType, memarg, FuncSig, emit, fail, load, store, class_of,
  is_ptr, ty_void, ty_bool, ty_char, ty_short, ty_int, ty_long, ty_float, ty_double, ty_ldouble,
  ty_enum, ty_ptr, ty_func, ty_array, ty_vla, ty_struct, ty_union, is_integer, is_flonum, TypeKind,
}
use sandbox_stack.Cc.Codegen.Validate.{Stack, Context, result_of}
use sandbox_stack.Cc.Codegen.Typed.{Runs, Types, emit-Types, fail-Types, if-Types, nothing}

-- A type whose value `load` leaves: it has one, and pointers have 4 bytes.
abbrev pub is_loadable : CType → Bool
is_loadable ty = not (same_class (class_of ty) vc_none) && (not (is_ptr ty) || ty.size == 4)

-- A type of which `store` takes the value: no array, function or struct
abbrev pub is_storable : CType → Bool
is_storable ty = is_loadable ty && (is_integer ty || is_flonum ty || is_ptr ty)

module _ {ctx : Context} where
  -- One of two codes
  memarg_if :
      (u : Bool) (a b align : ℕ) {ins outs : Stack}
      → ((all : List FuncSig) → Runs ctx all (memarg a align ∷ []) ins outs)
      → ((all : List FuncSig) → Runs ctx all (memarg b align ∷ []) ins outs)
      → Types ctx (emit (memarg (if u then a else b) align ∷ [])) ins outs
  memarg_if true a b align h k = emit-Types h
  memarg_if false a b align h k = emit-Types k

  -- Loads of integers, by their size
  load-sized :
      (size : ℕ) (u1 u2 : Bool)
      → Types ctx
          (if size == 1
            then emit (memarg (if u1 then 0x2d else 0x2c) 0 ∷ [])
            else if size == 2
            then emit (memarg (if u2 then 0x2f else 0x2e) 1 ∷ [])
            else if size == 4
            then emit (memarg 0x28 2 ∷ [])
            else if size == 8
            then emit (memarg 0x29 3 ∷ [])
            else fail)
          (vc_i32 ∷ [])
          (result_of (if size == 8 then vc_i64 else vc_i32))
  load-sized size u1 u2 = elim (Bool-cases (size == 8)) [
    | inl eight ↦
        let s1 : size == 1 ≡ false = ground arith in
        let s2 : size == 2 ≡ false = ground arith in
        let s4 : size == 4 ≡ false = ground arith in
        rw (s1, s2, s4, eight) (emit-Types (λ all rest st fs. refl))
    | inr other ↦ rw other (
        if-Types (size == 1) (memarg_if u1 _ _ 0 (λ all rest st fs. refl) (λ all rest st fs. refl))
          (if-Types (size == 2)
            (memarg_if u2 _ _ 1 (λ all rest st fs. refl) (λ all rest st fs. refl))
            (if-Types (size == 4) (emit-Types (λ all rest st fs. refl)) fail-Types)))
  ]

  load-kind :
      (k : TypeKind) (size : ℕ) (u : Bool)
      → is_loadable (record { kind = k; size = size; is_unsigned = u }) ≡ true
      → Types ctx
          (load (record { kind = k; size = size; is_unsigned = u }))
          (vc_i32 ∷ [])
          (result_of (class_of (record { kind = k; size = size; is_unsigned = u })))
  unfolding load
  load-kind ty_void size u h = cc
  load-kind ty_bool size u h = load-sized size (u || true) u
  load-kind ty_char size u h = load-sized size (u || false) u
  load-kind ty_short size u h = load-sized size (u || false) u
  load-kind ty_int size u h = load-sized size (u || false) u
  load-kind ty_long size u h = load-sized size (u || false) u
  load-kind ty_enum size u h = load-sized size (u || false) u
  load-kind ty_float size u h = emit-Types (λ all rest st fs. refl)
  load-kind ty_double size u h = emit-Types (λ all rest st fs. refl)
  load-kind ty_ldouble size u h = emit-Types (λ all rest st fs. refl)
  load-kind ty_ptr size u h =
      let four : size ≡ 4 = ground arith in
      subst
        (λ n.
          Types ctx (load (record { kind = ty_ptr; size = n; is_unsigned = u })) (vc_i32 ∷ [])
            (vc_i32 ∷ []))
        (sym four) (emit-Types (λ all rest st fs. refl))
  load-kind ty_func size u h = nothing
  load-kind ty_array size u h = nothing
  load-kind ty_vla size u h = nothing
  load-kind ty_struct size u h = nothing
  load-kind ty_union size u h = nothing

  pub load-Types :
      (ty : CType)
      → is_loadable ty ≡ true
      → Types ctx (load ty) (vc_i32 ∷ []) (result_of (class_of ty))
  load-Types ty h = load-kind ty.kind ty.size ty.is_unsigned h

  store-sized :
      (size : ℕ)
      → Types ctx
          (if size == 1
            then emit (memarg 0x3a 0 ∷ [])
            else if size == 2
            then emit (memarg 0x3b 1 ∷ [])
            else if size == 4
            then emit (memarg 0x36 2 ∷ [])
            else if size == 8
            then emit (memarg 0x37 3 ∷ [])
            else fail)
          (result_of (if size == 8 then vc_i64 else vc_i32) ++ (vc_i32 ∷ []))
          []
  store-sized size = elim (Bool-cases (size == 8)) [
    | inl eight ↦
        let s1 : size == 1 ≡ false = ground arith in
        let s2 : size == 2 ≡ false = ground arith in
        let s4 : size == 4 ≡ false = ground arith in
        rw (s1, s2, s4, eight) (emit-Types (λ all rest st fs. refl))
    | inr other ↦ rw other (
        if-Types (size == 1) (emit-Types (λ all rest st fs. refl)) (
          if-Types (size == 2) (emit-Types (λ all rest st fs. refl))
            (if-Types (size == 4) (emit-Types (λ all rest st fs. refl)) fail-Types)))
  ]

  store-kind :
      (k : TypeKind) (size : ℕ) (u : Bool)
      → is_storable (record { kind = k; size = size; is_unsigned = u }) ≡ true
      → Types ctx
          (store (record { kind = k; size = size; is_unsigned = u }))
          (result_of (class_of (record { kind = k; size = size; is_unsigned = u }))
            ++ (vc_i32 ∷ []))
          []
  unfolding store
  store-kind ty_void size u h = cc
  store-kind ty_bool size u h = store-sized size
  store-kind ty_char size u h = store-sized size
  store-kind ty_short size u h = store-sized size
  store-kind ty_int size u h = store-sized size
  store-kind ty_long size u h = store-sized size
  store-kind ty_enum size u h = store-sized size
  store-kind ty_float size u h = emit-Types (λ all rest st fs. refl)
  store-kind ty_double size u h = emit-Types (λ all rest st fs. refl)
  store-kind ty_ldouble size u h = emit-Types (λ all rest st fs. refl)
  store-kind ty_ptr size u h =
      let four : size ≡ 4 = ground arith in
      subst
        (λ n.
          Types ctx (store (record { kind = ty_ptr; size = n; is_unsigned = u }))
            (vc_i32 ∷ vc_i32 ∷ []) [])
        (sym four) (emit-Types (λ all rest st fs. refl))
  store-kind ty_func size u h = cc
  store-kind ty_array size u h = cc
  store-kind ty_vla size u h = cc
  store-kind ty_struct size u h = cc
  store-kind ty_union size u h = cc

  pub store-Types :
      (ty : CType)
      → is_storable ty ≡ true
      → Types ctx (store ty) (result_of (class_of ty) ++ (vc_i32 ∷ [])) []
  store-Types ty h = store-kind ty.kind ty.size ty.is_unsigned h
