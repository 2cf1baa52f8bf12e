-- ===== src/Cc/Codegen/Expr/Operators.antt =====
-- The operators of `gen_expr` of cc/codegen.c on generated parts.
use sandbox_stack.Prelude.{ℕ, Bool, true, false, ◌||◌}
use sandbox_stack.Prelude.{List, [], ◌∷◌, Option, none, some, ◌==◌, if◌then◌else◌}
use sandbox_stack.Prelude.Int.{ℤ, pos, negsuc}
use sandbox_stack.Cc.Codegen.{
  Class, vc_none, vc_i32, vc_i64, vc_f32, vc_f64, valtype, same_class, CType, is_flonum, is_ptr,
  is_array, class_of, vclass, Instr, op, i32c, i64c, f32c, f64c, if_, Gen, emit, fail, ◌>>◌,
  to_bool, convert, cast,
}
use sandbox_stack.Cc.Codegen.Expr.Tree.{
  Binary, nd_add, nd_sub, nd_mul, nd_div, nd_mod, nd_bitand, nd_bitor, nd_bitxor, nd_shl, nd_shr,
  nd_eq, nd_ne, nd_lt, nd_le, Node, nd_member, Part,
}

-- The conversion of a value in `gen_expr_as`; a node without a type is dereferenced.
abbrev pub convert_as : Option CType → Class → Gen
convert_as none vc = fail
convert_as (some ty) vc = convert (class_of ty) vc (ty.is_unsigned || is_ptr ty)

-- `gen_expr_as`
abbrev pub gen_expr_as : Part → Class → Gen
gen_expr_as p vc = p.value >> convert_as p.ty vc

-- `gen_cond`
abbrev pub gen_cond : Part → Gen
gen_cond p = p.value >> emit (to_bool (vclass p.ty))

-- `i32c(off); op(OP_I32_ADD);`, if it is not 0
abbrev pub plus : ℕ → List Instr
plus off = if off == 0 then [] else i32c (pos off) ∷ op 0x6a ∷ []

-- The value dropped, if there is one
abbrev pub dropped : Part → Gen
dropped p = p.value >> emit (if same_class (vclass p.ty) vc_none then [] else op 0x1a ∷ [])

abbrev pub is_comparison : Binary → Bool
is_comparison k = elim k [ nd_eq ↦ true | nd_ne ↦ true | nd_lt ↦ true | nd_le ↦ true | _ ↦ false ]

-- The operation on floats
unfoldable pub float_op : Binary → Bool → Gen
float_op nd_add d = emit (op (if d then 0xa0 else 0x92) ∷ [])
float_op nd_sub d = emit (op (if d then 0xa1 else 0x93) ∷ [])
float_op nd_mul d = emit (op (if d then 0xa2 else 0x94) ∷ [])
float_op nd_div d = emit (op (if d then 0xa3 else 0x95) ∷ [])
float_op nd_eq d = emit (op (if d then 0x61 else 0x5b) ∷ [])
float_op nd_ne d = emit (op (if d then 0x62 else 0x5c) ∷ [])
float_op nd_lt d = emit (op (if d then 0x63 else 0x5d) ∷ [])
float_op nd_le d = emit (op (if d then 0x65 else 0x5f) ∷ [])
float_op _ d = fail

-- The operation on integers, of 8 bytes if `w`, unsigned if `u`
unfoldable pub int_op : Binary → Bool → Bool → ℕ
int_op nd_add w u = if w then 0x7c else 0x6a
int_op nd_sub w u = if w then 0x7d else 0x6b
int_op nd_mul w u = if w then 0x7e else 0x6c
int_op nd_div w u = if w then (if u then 0x80 else 0x7f) else (if u then 0x6e else 0x6d)
int_op nd_mod w u = if w then (if u then 0x82 else 0x81) else (if u then 0x70 else 0x6f)
int_op nd_bitand w u = if w then 0x83 else 0x71
int_op nd_bitor w u = if w then 0x84 else 0x72
int_op nd_bitxor w u = if w then 0x85 else 0x73
int_op nd_shl w u = if w then 0x86 else 0x74
int_op nd_shr w u = if w then (if u then 0x88 else 0x87) else (if u then 0x76 else 0x75)
int_op nd_eq w u = if w then 0x51 else 0x46
int_op nd_ne w u = if w then 0x52 else 0x47
int_op nd_lt w u = if w then (if u then 0x54 else 0x53) else (if u then 0x49 else 0x48)
int_op nd_le w u = if w then (if u then 0x58 else 0x57) else (if u then 0x4d else 0x4c)

-- `gen_binary`, where the left operand has the type `t`
unfoldable pub binary_op : Binary → CType → Class → Gen
unfolding float_op int_op
binary_op k t vc =
    if is_flonum t
    then float_op k (same_class vc vc_f64)
    else emit (op (int_op k (same_class vc vc_i64) (t.is_unsigned || is_ptr t || is_array t)) ∷ [])

abbrev pub gen_binary : Binary → CType → Option CType → Part → Part → Gen
gen_binary k ty none a b = fail
gen_binary k ty (some t) a b =
    let vc = if is_comparison k then class_of t else class_of ty in
    gen_expr_as a vc >> (gen_expr_as b vc >> binary_op k t vc)

-- The number of a literal
abbrev pub num_const : Class → ℤ → ℕ → ℕ → Instr
num_const vc v f d = elim vc [ vc_f32 ↦ f32c f | vc_f64 ↦ f64c d | vc_i64 ↦ i64c v | _ ↦ i32c v ]

-- `ND_NEG`
abbrev pub negated : Class → Part → Gen
negated vc a = elim vc [
  | vc_f32 ↦ a.value >> emit (op 0x8c ∷ [])
  | vc_f64 ↦ a.value >> emit (op 0x9a ∷ [])
  | vc_i64 ↦ emit (i64c (pos 0) ∷ []) >> (gen_expr_as a vc_i64 >> emit (op 0x7d ∷ []))
  | _ ↦ emit (i32c (pos 0) ∷ []) >> (gen_expr_as a vc_i32 >> emit (op 0x6b ∷ []))
]

-- `ND_BITNOT`
abbrev pub inverted : Class → Part → Gen
inverted vc a =
    if same_class vc vc_i64
    then (gen_expr_as a vc_i64 >> emit (i64c (negsuc 0) ∷ op 0x85 ∷ []))
    else (gen_expr_as a vc_i32 >> emit (i32c (negsuc 0) ∷ op 0x73 ∷ []))

-- `if_(…) … else … end()`
abbrev pub branches : Class → Gen → Gen → Gen
branches vc a b =
    emit (if_ (if same_class vc vc_none then 0x40 else valtype vc) ∷ [])
    >> (a >> (emit (op 5 ∷ []) >> (b >> emit (op 0x0b ∷ []))))

-- The assignment of a bit field
abbrev pub is_bitfield : Node → Bool
is_bitfield (nd_member ty a off bitfield) = bitfield
is_bitfield _ = false

-- `cast(node->lhs->ty, node->ty)`
abbrev pub cast_from : Option CType → CType → Gen
cast_from none to = fail
cast_from (some from) to = cast from to
