-- ===== src/Tests/Codegen.antt =====
-- Runs of the expressions of cc/codegen.c, and of the validation on what they emit.
use sandbox_stack.Prelude.{
  ℕ, zero, suc, ◌≡◌, refl, ap, sym, true, false, List, [], ◌∷◌, Option, none, some, get_elem?,
  if◌then◌else◌, codes,
}
use sandbox_stack.Prelude.Int.{pos}
use sandbox_stack.Cc.Asm.{Name}
use sandbox_stack.Cc.Elf.{same}
use sandbox_stack.Cc.Codegen.{
  Class, vc_i32, vc_i64, vc_f32, vc_f64, CType, FuncType, FuncSig, sig_of, Instr, op, op_u, i32c,
  f64c, memarg, if_, call_indirect, memory_copy, ty_int, ty_long, ty_double, ty_ptr, ty_struct,
}
use sandbox_stack.Cc.Codegen.Expr.{
  Env, Node, no_nodes, node, gen, nd_num, nd_var, nd_deref, nd_assign, nd_cond, nd_not, nd_bitnot,
  nd_logand, nd_funcall,
}
use sandbox_stack.Cc.Codegen.Validate.{Context, check}
use sandbox_stack.Cc.Codegen.Typed.{code_of, table_of}
use sandbox_stack.Cc.Codegen.Calls.{IsEnv}
use sandbox_stack.Cc.Codegen.WellTyped.{WellTyped}
use sandbox_stack.Cc.Codegen.Sound.{gen-IsValid}

abbrev int : CType
int = record { kind = ty_int; size = 4; is_unsigned = false }

abbrev long_long : CType
long_long = record { kind = ty_long; size = 8; is_unsigned = false }

abbrev double : CType
double = record { kind = ty_double; size = 8; is_unsigned = false }

abbrev pointer : CType
pointer = record { kind = ty_ptr; size = 4; is_unsigned = false }

abbrev pair : CType
pair = record { kind = ty_struct; size = 8; is_unsigned = false }

abbrev local : CType → ℕ → Node
local ty off = nd_var ty (record {
  name = [];
  ty = ty;
  is_local = true;
  is_function = false;
  is_tls = false;
  offset = off;
})

-- `long long f(int, ...)`
abbrev f_type : FuncType
f_type = record { return_ty = long_long; params = int ∷ []; is_variadic = true }

abbrev f_node : Node
f_node = nd_var pointer (record {
  name = codes "f";
  ty = pointer;
  is_local = false;
  is_function = true;
  is_tls = false;
  offset = 0;
})

abbrev q_type : FuncType
q_type = record { return_ty = long_long; params = double ∷ []; is_variadic = false }

abbrev index_of_f : Name → Option ℕ
index_of_f n = if same (codes "f") n then some 0 else none

abbrev no_globals : Name → Option ℕ
no_globals n = none

abbrev env : Env
env = record {
  func_index = index_of_f;
  global_def = no_globals;
  heap_base = 70000;
  loc_fp = 0;
  loc_t32 = 1;
  loc_t32b = 2;
  loc_t64 = 3;
  loc_tf32 = 4;
  loc_tf64 = 5;
}

abbrev class_of_local : ℕ → Option Class
class_of_local i = get_elem? (vc_i32 ∷ vc_i32 ∷ vc_i32 ∷ vc_i64 ∷ vc_f32 ∷ vc_f64 ∷ []) i

abbrev func_types : ℕ → Option FuncSig
func_types zero = some (sig_of f_type)
func_types (suc i) = none

abbrev ctx : Context
ctx = record { locals = class_of_local; funcs = func_types }

-- `x = *p && !y ? f(1, 2.5) : q(z)`, where `q` is a pointer to a function
abbrev expression : Node
expression = nd_assign long_long (local long_long 8) (
    nd_cond long_long (nd_logand int (nd_deref int (local pointer 4)) (nd_not int (local int 16)))
      (nd_funcall long_long f_type f_node
        (node (nd_num int (pos 1) 0 0)
          (node (nd_num double (pos 0) 0 4612811918334230528) no_nodes))
        none)
      (nd_funcall long_long q_type (local pointer 20) (node (local double 24) no_nodes) none))

abbrev made : Option (List Instr × List FuncSig)
made = (gen env expression).value []

made_lem :
    code_of made
    ≡ op_u 0x20 0
      ∷ i32c (pos 8)
      ∷ op 0x6a
      ∷ op_u 0x20 0
      ∷ i32c (pos 4)
      ∷ op 0x6a
      ∷ memarg 0x28 2
      ∷ memarg 0x28 2
      ∷ i32c (pos 0)
      ∷ op 0x47
      ∷ if_ 0x7f
      ∷ op_u 0x20 0
      ∷ i32c (pos 16)
      ∷ op 0x6a
      ∷ memarg 0x28 2
      ∷ i32c (pos 0)
      ∷ op 0x47
      ∷ op 0x45
      ∷ i32c (pos 0)
      ∷ op 0x47
      ∷ op 5
      ∷ i32c (pos 0)
      ∷ op 0x0b
      ∷ i32c (pos 0)
      ∷ op 0x47
      ∷ if_ 0x7e
      ∷ i32c (pos 1)
      ∷ op_u 0x23 0
      ∷ i32c (pos 16)
      ∷ op 0x6b
      ∷ op_u 0x24 0
      ∷ op_u 0x23 0
      ∷ f64c 4612811918334230528
      ∷ memarg 0x39 3
      ∷ op_u 0x23 0
      ∷ op_u 0x10 0
      ∷ op_u 0x23 0
      ∷ i32c (pos 16)
      ∷ op 0x6a
      ∷ op_u 0x24 0
      ∷ op 5
      ∷ op_u 0x20 0
      ∷ i32c (pos 24)
      ∷ op 0x6a
      ∷ memarg 0x2b 3
      ∷ op_u 0x20 0
      ∷ i32c (pos 20)
      ∷ op 0x6a
      ∷ memarg 0x28 2
      ∷ call_indirect 0
      ∷ op 0x0b
      ∷ op_u 0x22 3
      ∷ memarg 0x37 3
      ∷ op_u 0x20 3
      ∷ []
unfolding gen
made_lem = refl

env-IsEnv : IsEnv ctx env
env-IsEnv = record { fp = refl; t32 = refl; t32b = refl; t64 = refl; tf32 = refl; tf64 = refl }

index_or_zero : Option ℕ → ℕ
index_or_zero none = 0
index_or_zero (some i) = i

f_called : (i : ℕ) → index_of_f (codes "f") ≡ some i → func_types i ≡ some (sig_of f_type)
unfolding index_or_zero same
f_called i h = ap (λ o. func_types (index_or_zero o)) (sym h)

expression-WellTyped : WellTyped ctx env expression
unfolding WellTyped
expression-WellTyped = (
  refl,
  (
    (
      ((refl, refl), ((refl, (refl, refl)), (refl, (refl, refl)))),
      (
        (refl, ((refl, (refl, tt)), (f_called, (refl, (refl, (refl, refl)))))),
        ((refl, ((refl, tt), (tt, (refl, (refl, (refl, refl)))))), refl),
      ),
    ),
    refl,
  ),
)

-- The complement of a floating number leaves an i32 under the type of a double.
abbrev complement : Option (List Instr × List FuncSig)
complement = (gen env (nd_bitnot double (local double 24))).value []

complement_lem : check ctx [] (code_of complement) ([], []) ≡ some (vc_i32 ∷ [], [])
unfolding gen
complement_lem = refl

-- `a = g(b = c)` on structs: what is left at the end is the address of `b`.
abbrev g_type : FuncType
g_type = record { return_ty = pair; params = pair ∷ []; is_variadic = false }

abbrev nested : Option (List Instr × List FuncSig)
nested =
    (gen env (
        nd_assign pair (local pair 32) (
          nd_funcall pair g_type (local pointer 20)
            (node (nd_assign pair (local pair 40) (local pair 48)) no_nodes) (some 56)))).value
      []

nested_lem :
    code_of nested
    ≡ op_u 0x20 0
      ∷ i32c (pos 32)
      ∷ op 0x6a
      ∷ op_u 0x22 2
      ∷ op_u 0x20 0
      ∷ i32c (pos 56)
      ∷ op 0x6a
      ∷ op_u 0x20 0
      ∷ i32c (pos 40)
      ∷ op 0x6a
      ∷ op_u 0x22 2
      ∷ op_u 0x20 0
      ∷ i32c (pos 48)
      ∷ op 0x6a
      ∷ i32c (pos 8)
      ∷ memory_copy
      ∷ op_u 0x20 2
      ∷ op_u 0x20 0
      ∷ i32c (pos 20)
      ∷ op 0x6a
      ∷ memarg 0x28 2
      ∷ call_indirect 0
      ∷ op_u 0x20 0
      ∷ i32c (pos 56)
      ∷ op 0x6a
      ∷ i32c (pos 8)
      ∷ memory_copy
      ∷ op_u 0x20 2
      ∷ []
unfolding gen
nested_lem = refl

gen-IsValid_example : check ctx (table_of made) (code_of made) ([], []) ≡ some (vc_i64 ∷ [], [])
unfolding gen
gen-IsValid_example =
    gen-IsValid env env-IsEnv expression [] (table_of made) (table_of made) (code_of made) [] []
      expression-WellTyped refl (λ i f h. h)
