-- ===== src/Cc/Codegen.antt =====
-- The wasm backend cc/codegen.c: value classes, types, and what the helpers emit.
pub mod Expr
pub mod Validate
pub mod Typed
pub mod Typing
pub mod Parts
pub mod Calls
pub mod Arguments
pub mod Cases
pub mod Access
pub mod Operations
pub mod Assigned
pub mod WellTyped
pub mod Sound
use sandbox_stack.Prelude.{ℕ, zero, suc, ◌+◌, ◌-◌, ◌*◌, ◌/◌, Bool, true, false, not, ◌&&◌, ◌||◌}
use sandbox_stack.Prelude.{
  List, [], ◌∷◌, ◌++◌, Option, none, some, ltb, leb, ◌==◌, if◌then◌else◌, length,
}
use sandbox_stack.Prelude.Int.{ℤ, pos, negsuc}
use sandbox_stack.Cc.Asm.{Name}

-- `VC_NONE` to `VC_F64`
pub data Class : Type 0 where
  vc_none vc_i32 vc_i64 vc_f32 vc_f64 : Class

-- `valtype`
abbrev pub valtype : Class → ℕ
valtype vc_none = 0
valtype vc_i32 = 0x7f
valtype vc_i64 = 0x7e
valtype vc_f32 = 0x7d
valtype vc_f64 = 0x7c

abbrev pub same_class : Class → Class → Bool
same_class a b = valtype a == valtype b

pub data TypeKind : Type 0 where
  ty_void ty_bool ty_char ty_short ty_int ty_long ty_float ty_double ty_ldouble : TypeKind
  ty_enum ty_ptr ty_func ty_array ty_vla ty_struct ty_union : TypeKind

-- What the backend reads of a `Type`
pub record CType : Type 0 where
  pub kind : TypeKind
  pub size : ℕ
  pub is_unsigned : Bool

-- What it reads of a function type
pub record FuncType : Type 0 where
  pub return_ty : CType
  pub params : List CType
  pub is_variadic : Bool

abbrev pub is_kind_float : TypeKind → Bool
is_kind_float k = elim k [ ty_float ↦ true | ty_double ↦ true | ty_ldouble ↦ true | _ ↦ false ]

abbrev pub is_flonum : CType → Bool
is_flonum ty = is_kind_float ty.kind

abbrev pub is_integer : CType → Bool
is_integer ty = elim ty.kind [
  | ty_bool ↦ true
  | ty_char ↦ true
  | ty_short ↦ true
  | ty_int ↦ true
  | ty_long ↦ true
  | ty_enum ↦ true
  | _ ↦ false
]

abbrev pub is_struct : CType → Bool
is_struct ty = elim ty.kind [ ty_struct ↦ true | ty_union ↦ true | _ ↦ false ]

abbrev pub is_void : CType → Bool
is_void ty = elim ty.kind [ ty_void ↦ true | _ ↦ false ]

abbrev pub is_bool : CType → Bool
is_bool ty = elim ty.kind [ ty_bool ↦ true | _ ↦ false ]

abbrev pub is_ptr : CType → Bool
is_ptr ty = elim ty.kind [ ty_ptr ↦ true | _ ↦ false ]

abbrev pub is_array : CType → Bool
is_array ty = elim ty.kind [ ty_array ↦ true | _ ↦ false ]

abbrev pub is_vla : CType → Bool
is_vla ty = elim ty.kind [ ty_vla ↦ true | _ ↦ false ]

-- `vclass`
abbrev pub class_of : CType → Class
class_of ty = elim ty.kind [
  | ty_void ↦ vc_none
  | ty_float ↦ vc_f32
  | ty_double ↦ vc_f64
  | ty_ldouble ↦ vc_f64
  | ty_struct ↦ vc_i32
  | ty_union ↦ vc_i32
  | ty_array ↦ vc_i32
  | ty_func ↦ vc_i32
  | ty_ptr ↦ vc_i32
  | ty_vla ↦ vc_i32
  | _ ↦ if ty.size == 8 then vc_i64 else vc_i32
]

abbrev pub vclass : Option CType → Class
vclass none = vc_none
vclass (some ty) = class_of ty

-- What a helper writes to the buffer of the code in one call; `i32c` writes its number as an int32_t.
pub data Instr : Type 0 where
  op : ℕ → Instr
  op_u : ℕ → ℕ → Instr
  i32c : ℤ → Instr
  i64c : ℤ → Instr
  f32c : ℕ → Instr
  f64c : ℕ → Instr
  memarg : ℕ → ℕ → Instr
  memory_copy memory_fill memory_size memory_grow : Instr
  if_ : ℕ → Instr
  call_indirect : ℕ → Instr

-- An entry of the type section; its bytes say the same.
pub record FuncSig : Type 0 where
  pub params : List Class
  pub result : Class

abbrev pub same_classes : List Class → List Class → Bool
same_classes [] [] = true
same_classes [] (b ∷ bs) = false
same_classes (a ∷ as') [] = false
same_classes (a ∷ as') (b ∷ bs) = same_class a b && same_classes as' bs

abbrev pub same_sig : FuncSig → FuncSig → Bool
same_sig a b = same_classes a.params b.params && same_class a.result b.result

-- An index, from the next entry on
abbrev pub one_on : Option ℕ → Option ℕ
one_on none = none
one_on (some i) = some (suc i)

-- The loop of `add_type_entry`: the index of the entry, if it is there
unfoldable pub find_entry : FuncSig → List FuncSig → Option ℕ
find_entry e [] = none
find_entry e (t ∷ ts) = let later = find_entry e ts in if same_sig t e then some 0 else one_on later

abbrev pub entry_or_new : FuncSig → List FuncSig → Option ℕ → ℕ × List FuncSig
entry_or_new e ts (some i) = (i, ts)
entry_or_new e ts none = (length ts, ts ++ (e ∷ []))

-- `add_type_entry`
unfoldable pub add_type_entry : FuncSig → List FuncSig → ℕ × List FuncSig
unfolding find_entry
add_type_entry e ts = entry_or_new e ts (find_entry e ts)

abbrev pub param_classes : List CType → List Class
param_classes [] = []
param_classes (t ∷ ts) = class_of t ∷ param_classes ts

-- The entry that `sig_index` builds
abbrev pub sig_of : FuncType → FuncSig
sig_of f = record {
  params =
      (if is_struct f.return_ty then vc_i32 ∷ [] else [])
      ++ (param_classes f.params ++ (if f.is_variadic then vc_i32 ∷ [] else []));
  result = if is_struct f.return_ty then vc_none else class_of f.return_ty;
}

-- Code that is generated from the entries so far, with the entries behind it; `none` where the
-- compiler reports an error or is at `unreachable()`.
abbrev pub Gen : Type 0
Gen = List FuncSig → Option (List Instr × List FuncSig)

abbrev pub emit : List Instr → Gen
emit c ts = some (c, ts)

abbrev pub fail : Gen
fail ts = none

abbrev pub before :
    List Instr → Option (List Instr × List FuncSig) → Option (List Instr × List FuncSig)
before c none = none
before c (some (d, ts)) = some (c ++ d, ts)

abbrev pub with_code : Option (List Instr × List FuncSig) → Gen → Option (List Instr × List FuncSig)
with_code none h = none
with_code (some (c, ts)) h = before c (h ts)

-- One after the other
infixl 5 ◌>>◌
unfoldable pub ◌>>◌ : Gen → Gen → Gen
◌>>◌ g h ts = with_code (g ts) h

abbrev pub error_if : Bool → Gen → Gen
error_if true g = fail
error_if false g = g

-- `load`
unfoldable pub load : CType → Gen
load ty = elim ty.kind [
  | ty_array ↦ emit []
  | ty_struct ↦ emit []
  | ty_union ↦ emit []
  | ty_func ↦ emit []
  | ty_vla ↦ emit []
  | ty_float ↦ emit (memarg 0x2a 2 ∷ [])
  | ty_double ↦ emit (memarg 0x2b 3 ∷ [])
  | ty_ldouble ↦ emit (memarg 0x2b 3 ∷ [])
  | _ ↦
      if ty.size == 1
      then emit (memarg (if ty.is_unsigned || is_bool ty then 0x2d else 0x2c) 0 ∷ [])
      else if ty.size == 2
      then emit (memarg (if ty.is_unsigned then 0x2f else 0x2e) 1 ∷ [])
      else if ty.size == 4
      then emit (memarg 0x28 2 ∷ [])
      else if ty.size == 8
      then emit (memarg 0x29 3 ∷ [])
      else fail
]

-- `store`
unfoldable pub store : CType → Gen
store ty = elim ty.kind [
  | ty_float ↦ emit (memarg 0x38 2 ∷ [])
  | ty_double ↦ emit (memarg 0x39 3 ∷ [])
  | ty_ldouble ↦ emit (memarg 0x39 3 ∷ [])
  | _ ↦
      if ty.size == 1
      then emit (memarg 0x3a 0 ∷ [])
      else if ty.size == 2
      then emit (memarg 0x3b 1 ∷ [])
      else if ty.size == 4
      then emit (memarg 0x36 2 ∷ [])
      else if ty.size == 8
      then emit (memarg 0x37 3 ∷ [])
      else fail
]

-- `to_bool`
unfoldable pub to_bool : Class → List Instr
to_bool vc_none = []
to_bool vc_i32 = i32c (pos 0) ∷ op 0x47 ∷ []
to_bool vc_i64 = i64c (pos 0) ∷ op 0x52 ∷ []
to_bool vc_f32 = f32c 0 ∷ op 0x5c ∷ []
to_bool vc_f64 = f64c 0 ∷ op 0x62 ∷ []

-- `convert`, where the classes differ
unfoldable pub convert_other : Class → Class → Bool → Gen
convert_other vc_i32 vc_i64 u = emit (op (if u then 0xad else 0xac) ∷ [])
convert_other vc_i32 vc_f32 u = emit (op (if u then 0xb3 else 0xb2) ∷ [])
convert_other vc_i32 vc_f64 u = emit (op (if u then 0xb8 else 0xb7) ∷ [])
convert_other vc_i64 vc_i32 u = emit (op 0xa7 ∷ [])
convert_other vc_i64 vc_f32 u = emit (op (if u then 0xb5 else 0xb4) ∷ [])
convert_other vc_i64 vc_f64 u = emit (op (if u then 0xba else 0xb9) ∷ [])
convert_other vc_f32 vc_f64 u = emit (op 0xbb ∷ [])
convert_other vc_f32 vc_i32 u = emit (op (if u then 0xa9 else 0xa8) ∷ [])
convert_other vc_f32 vc_i64 u = emit (op (if u then 0xaf else 0xae) ∷ [])
convert_other vc_f64 vc_f32 u = emit (op 0xb6 ∷ [])
convert_other vc_f64 vc_i32 u = emit (op (if u then 0xab else 0xaa) ∷ [])
convert_other vc_f64 vc_i64 u = emit (op (if u then 0xb1 else 0xb0) ∷ [])
convert_other _ _ u = fail

-- `convert`
unfoldable pub convert : Class → Class → Bool → Gen
unfolding convert_other
convert from to u = if same_class from to then emit [] else convert_other from to u

-- `narrow`
unfoldable pub narrow : CType → List Instr
narrow to =
    if is_bool to
    then []
    else if to.size == 1
    then (if to.is_unsigned then i32c (pos 0xff) ∷ op 0x71 ∷ [] else op 0xc0 ∷ [])
    else if to.size == 2
    then (if to.is_unsigned then i32c (pos 0xffff) ∷ op 0x71 ∷ [] else op 0xc1 ∷ [])
    else []

abbrev pub is_float : Class → Bool
is_float c = elim c [ vc_f32 ↦ true | vc_f64 ↦ true | _ ↦ false ]

abbrev pub is_int : Class → Bool
is_int c = elim c [ vc_i32 ↦ true | vc_i64 ↦ true | _ ↦ false ]

-- The sign that `cast` converts by
abbrev pub cast_unsigned : CType → CType → Bool
cast_unsigned from to =
    if is_float (class_of from) && is_int (class_of to)
    then to.is_unsigned
    else from.is_unsigned || is_ptr from || is_array from

abbrev pub differ : Bool → Bool → Bool
differ a b = if a then not b else b

abbrev pub needs_narrow : CType → CType → Bool
needs_narrow from to =
    same_class (class_of to) vc_i32
    && is_integer to
    && ltb to.size 4
    && (ltb to.size from.size
        || not (same_class (class_of from) vc_i32)
        || differ from.is_unsigned to.is_unsigned)

-- `cast`
unfoldable pub cast : CType → CType → Gen
unfolding to_bool convert narrow ◌>>◌
cast from to =
    if is_void to
    then emit (if same_class (class_of from) vc_none then [] else op 0x1a ∷ [])
    else if is_bool to
    then emit (to_bool (class_of from))
    else (convert (class_of from) (class_of to) (cast_unsigned from to)
        >> emit (if needs_narrow from to then narrow to else []))
