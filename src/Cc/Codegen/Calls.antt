-- ===== src/Cc/Codegen/Calls.antt =====
-- The calls of cc/codegen.c: the table of types, the arguments, and the call.
use sandbox_stack.Prelude.{ℕ, zero, suc, ◌≡◌, ◌∙◌, inl, inr, refl, ap, ap₂, subst, arith}
use sandbox_stack.Prelude.{
  Bool, true, false, Bool-cases, Option-cases, ◌==◌, if◌then◌else◌, List, [], ◌∷◌, ◌++◌, Option,
  none, some, length, get_elem?,
}
use sandbox_stack.Prelude.Int.{pos}
use sandbox_stack.Cc.Codegen.{
  Class, vc_none, vc_i32, vc_i64, vc_f32, vc_f64, same_classes, same_sig, FuncType, op, i32c,
  call_indirect, FuncSig, one_on, find_entry, add_type_entry, sig_of, emit,
}
use sandbox_stack.Cc.Codegen.Expr.{
  Part, Obj, Env, fp_plus, store_slot, move_sp, indirect, call_to, call_code,
}
use sandbox_stack.Cc.Codegen.Validate.{
  Stack, Context, Frame, check, then_check, take_all, put_all, gets, calls, result_of,
  reversed_onto,
}
use sandbox_stack.Cc.Codegen.Typed.{
  Runs, Extends, Types, emit-Types, fail-Types, >>-Types, above, nothing, code_of, table_of,
}
use sandbox_stack.Cc.Codegen.Typing.{same_class_eq}
use sandbox_stack.Cc.Codegen.Parts.{Valued, gen_expr_as-Types}

same_classes_eq : (a b : List Class) → same_classes a b ≡ true → a ≡ b
same_classes_eq [] [] h = refl
same_classes_eq [] (b ∷ bs) h = cc
same_classes_eq (a ∷ as') [] h = cc
same_classes_eq (a ∷ as') (b ∷ bs) h =
    ap₂ (λ c cs. c ∷ cs) (same_class_eq a b (ground arith)) (same_classes_eq as' bs (ground arith))

same_sig_eq : (a b : FuncSig) → same_sig a b ≡ true → a ≡ b
same_sig_eq a b h =
    ap₂ (λ ps r. record { params = ps; result = r })
      (same_classes_eq a.params b.params (ground arith))
      (same_class_eq a.result b.result (ground arith))

from_some : Option ℕ → ℕ
from_some none = 0
from_some (some i) = i

found_there :
    (e t : FuncSig) (ts : List FuncSig) (b : Bool) (later : Option ℕ)
    → same_sig t e ≡ b
    → ((j : ℕ) → later ≡ some j → get_elem? ts j ≡ some e)
    → (i : ℕ) → (if b then some 0 else one_on later) ≡ some i
    → get_elem? (t ∷ ts) i ≡ some e
unfolding from_some
found_there e t ts true later same ih i h =
    subst (λ k. get_elem? (t ∷ ts) k ≡ some e) (ap from_some h)
      (ap (λ x. some x) (same_sig_eq t e same))
found_there e t ts false none same ih i h = cc
found_there e t ts false (some j) same ih i h =
    subst (λ k. get_elem? (t ∷ ts) k ≡ some e) (ap from_some h) (ih j refl)

find_entry_lem :
    (e : FuncSig) (ts : List FuncSig) (i : ℕ) → find_entry e ts ≡ some i → get_elem? ts i ≡ some e
unfolding find_entry
find_entry_lem e [] i h = cc
find_entry_lem e (t ∷ ts) i h =
    found_there e t ts (same_sig t e) (find_entry e ts) refl (find_entry_lem e ts) i h

get_elem?-append :
    (ts : List FuncSig) (e : FuncSig) (i : ℕ) (f : FuncSig)
    → get_elem? ts i ≡ some f
    → get_elem? (ts ++ (e ∷ [])) i ≡ some f
get_elem?-append [] e i f h = cc
get_elem?-append (t ∷ ts) e zero f h = h
get_elem?-append (t ∷ ts) e (suc i) f h = get_elem?-append ts e i f h

get_elem?-length :
    (ts : List FuncSig) (e : FuncSig) → get_elem? (ts ++ (e ∷ [])) (length ts) ≡ some e
get_elem?-length [] e = refl
get_elem?-length (t ∷ ts) e = get_elem?-length ts e

-- The entry is in the table then, and the others are where they were.
add_type_entry_lem :
    (e : FuncSig) (ts : List FuncSig)
    → Extends ts (add_type_entry e ts).1
      × (get_elem? (add_type_entry e ts).1 (add_type_entry e ts).0 ≡ some e)
unfolding add_type_entry
add_type_entry_lem e ts = elim (Option-cases (find_entry e ts)) [
  | inl absent ↦ rw absent ((λ i f h. get_elem?-append ts e i f h), get_elem?-length ts e)
  | inr (i, found) ↦ rw found ((λ j f h. h), find_entry_lem e ts i found)
]

take_all-append : (xs st : Stack) → take_all xs (xs ++ st) ≡ some st
take_all-append [] st = refl
take_all-append (vc_none ∷ xs) st = take_all-append xs st
take_all-append (vc_i32 ∷ xs) st = take_all-append xs st
take_all-append (vc_i64 ∷ xs) st = take_all-append xs st
take_all-append (vc_f32 ∷ xs) st = take_all-append xs st
take_all-append (vc_f64 ∷ xs) st = take_all-append xs st

-- What a call takes, the last parameter topmost
abbrev pub takes : FuncSig → Stack
takes f = reversed_onto f.params []

calls_lem :
    (f : FuncSig) (st : Stack) (fs : List Frame)
    → calls (some f) (takes f ++ st, fs) ≡ some (result_of f.result ++ st, fs)
calls_lem f st fs = ap (put_all (result_of f.result) fs) (take_all-append (takes f) st)

-- What the environment says of the context
pub record IsEnv (ctx : Context) (env : Env) : Type 0 where
  pub fp : ctx.locals env.loc_fp ≡ some vc_i32
  pub t32 : ctx.locals env.loc_t32 ≡ some vc_i32
  pub t32b : ctx.locals env.loc_t32b ≡ some vc_i32
  pub t64 : ctx.locals env.loc_t64 ≡ some vc_i64
  pub tf32 : ctx.locals env.loc_tf32 ≡ some vc_f32
  pub tf64 : ctx.locals env.loc_tf64 ≡ some vc_f64

-- The function that is called has the type of the call.
abbrev pub Callee : Context → Env → Option Obj → FuncType → Type 0
Callee ctx env none f = Unit {0}
Callee ctx env (some v) f = (i : ℕ) → env.func_index v.name ≡ some i → ctx.funcs i ≡ some (sig_of f)

module _ {ctx : Context} (env : Env) where
  called-Types :
      (index : Option ℕ) (f : FuncSig)
      → ((i : ℕ) → index ≡ some i → ctx.funcs i ≡ some f)
      → Types ctx (call_to env index) (takes f) (result_of f.result)
  called-Types none f h = fail-Types
  called-Types (some i) f h = emit-Types (λ all rest st fs.
      ap (λ t. then_check (check ctx all rest) (calls t (takes f ++ st, fs))) (h i refl)
      ∙ ap (then_check (check ctx all rest)) (calls_lem f st fs))

  indirect-Types :
      (f : FuncSig)
      → Types ctx (λ ts. indirect env (add_type_entry f ts)) (vc_i32 ∷ takes f) (result_of f.result)
  indirect-Types f = record {
    typed = λ ts c ts' e.
        let (grow, there) = add_type_entry_lem f ts in
        let same_table : (add_type_entry f ts).1 ≡ ts' = ap table_of e in
        let same_code : call_indirect (add_type_entry f ts).0 ∷ [] ≡ c = ap code_of e in
        (
          subst (Extends ts) same_table grow,
          λ all more.
              let entry : get_elem? all (add_type_entry f ts).0 ≡ some f =
                more _ f
                  (subst (λ t. get_elem? t (add_type_entry f ts).0 ≡ some f) same_table there) in
              subst (λ d. Runs ctx all d (vc_i32 ∷ takes f) (result_of f.result)) same_code
                λ rest st fs.
                  ap (λ t. then_check (check ctx all rest) (calls t (takes f ++ st, fs))) entry
                  ∙ ap (then_check (check ctx all rest)) (calls_lem f st fs),
        );
  }

  pub call_code-Types :
      (v : Option Obj) (f : FuncType) (a : Part)
      → Callee ctx env v f
      → Valued ctx a
      → Types ctx (call_code env v f a) (takes (sig_of f)) (result_of (sig_of f).result)
  call_code-Types none f a h ha =
      >>-Types (above (takes (sig_of f)) (gen_expr_as-Types a vc_i32 ha))
        (indirect-Types (sig_of f))
  call_code-Types (some v) f a h ha = called-Types (env.func_index v.name) (sig_of f) h

  pub move_sp-Types : (size : ℕ) (s : Stack) → Types ctx (emit (move_sp env size 0x6b)) s s
  move_sp-Types size s = elim (Bool-cases (size == 0)) [
    | inl same ↦ rw same nothing
    | inr other ↦ rw other (emit-Types (λ all rest st fs. refl))
  ]

  pub move_back-Types : (size : ℕ) (s : Stack) → Types ctx (emit (move_sp env size 0x6a)) s s
  move_back-Types size s = elim (Bool-cases (size == 0)) [
    | inl same ↦ rw same nothing
    | inr other ↦ rw other (emit-Types (λ all rest st fs. refl))
  ]

  pub fp_plus-Types :
      IsEnv ctx env → (off : ℕ) → Types ctx (emit (fp_plus env off)) [] (vc_i32 ∷ [])
  fp_plus-Types e off = elim (Bool-cases (off == 0)) [
    | inl same ↦ rw same (
        emit-Types
          (λ all rest st fs. ap (λ t. then_check (check ctx all rest) (gets t (st, fs))) e.fp))
    | inr other ↦ rw other (
        emit-Types (λ all rest st fs.
          ap (λ t. then_check (check ctx all (i32c (pos off) ∷ (op 0x6a ∷ rest))) (gets t (st, fs)))
            e.fp))
  ]

  pub store_slot-Types :
      (c : Class) → Types ctx (store_slot env c) (result_of c ++ (vc_i32 ∷ [])) []
  store_slot-Types vc_none = fail-Types
  store_slot-Types vc_i32 = emit-Types (λ all rest st fs. refl)
  store_slot-Types vc_i64 = emit-Types (λ all rest st fs. refl)
  store_slot-Types vc_f32 = emit-Types (λ all rest st fs. refl)
  store_slot-Types vc_f64 = emit-Types (λ all rest st fs. refl)
