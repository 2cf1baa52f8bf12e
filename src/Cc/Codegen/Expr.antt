-- ===== src/Cc/Codegen/Expr.antt =====
-- The expressions of cc/codegen.c: `gen_expr` and `gen_addr`.
pub mod Tree
pub mod Operators
pub mod Places
pub mod Calls
use sandbox_stack.Prelude.{ℕ, zero, suc, ◌+◌, ◌-◌, ◌*◌, ◌/◌, Bool, true, false, not, ◌&&◌, ◌||◌}
use sandbox_stack.Prelude.{
  List, [], ◌∷◌, ◌++◌, Option, none, some, length, ◌==◌, if◌then◌else◌, codes,
}
use sandbox_stack.Prelude.Int.{ℤ, pos, negsuc}
use sandbox_stack.Cc.Asm.{Name}
use sandbox_stack.Cc.Elf.{same}
use sandbox_stack.Cc.Codegen.{
  Class, vc_none, vc_i32, vc_i64, vc_f32, vc_f64, valtype, same_class, CType, FuncType, is_flonum,
  is_struct, is_vla, is_ptr, is_array, class_of, vclass, Instr, op, op_u, i32c, i64c, f32c, f64c,
  memarg, memory_copy, memory_fill, memory_size, memory_grow, if_, call_indirect, sig_of,
  add_type_entry, Gen, emit, fail, ◌>>◌, error_if, FuncSig, load, store, to_bool, convert, cast,
}
pub use sandbox_stack.Cc.Codegen.Expr.Tree.{
  Obj, Binary, nd_add, nd_sub, nd_mul, nd_div, nd_mod, nd_bitand, nd_bitor, nd_bitxor, nd_shl,
  nd_shr, nd_eq, nd_ne, nd_lt, nd_le, Node, Nodes, nd_null_expr, nd_num, nd_neg, nd_var, nd_member,
  nd_deref, nd_addr, nd_assign, nd_comma, nd_cast, nd_memzero, nd_cond, nd_not, nd_bitnot,
  nd_logand, nd_logor, nd_binary, nd_funcall, nd_unsupported, no_nodes, node, ty_of, Env, Part,
}
pub use sandbox_stack.Cc.Codegen.Expr.Operators.{
  convert_as, gen_expr_as, gen_cond, plus, dropped, is_comparison, gen_binary, num_const, negated,
  inverted, branches, is_bitfield, cast_from,
}
unfoldable pub use sandbox_stack.Cc.Codegen.Expr.Operators.{float_op, int_op, binary_op}
pub use sandbox_stack.Cc.Codegen.Expr.Places.{
  fp_plus, call_to, address, or_heap_base, next_index, scratch_local, store_and_keep,
}
unfoldable pub use sandbox_stack.Cc.Codegen.Expr.Places.{global_addr, var_addr, assigned}
pub use sandbox_stack.Cc.Codegen.Expr.Calls.{
  callee_of, ret_address, fixed_args, other_args, is_struct_part, store_slot, variadic_args,
  move_sp, indirect, call_code, slots_size, too_many, all_dropped, grow_memory, builtin_call,
}
unfoldable pub use sandbox_stack.Cc.Codegen.Expr.Calls.{rest_of_call, plain_call, gen_funcall}

module _ (env : Env) where
  abbrev pub if_buffer : Option ℕ → Gen → Gen
  if_buffer none g = fail
  if_buffer (some off) g = g

  -- The address of what is assigned or chosen: it is the value of a struct.
  abbrev pub struct_addr : CType → Gen → Gen
  struct_addr ty g = if is_struct ty then g else fail

  -- `gen_expr` and `gen_addr` on a node, with its type
  unfoldable mutual
    unfolding load store to_bool convert cast ◌>>◌ float_op int_op binary_op var_addr assigned
        gen_funcall

    pub gen : Node → Part
    gen nd_null_expr = record { ty = none; value = emit []; addr = fail }
    gen (nd_num ty v f d) = record {
      ty = some ty;
      value = emit (num_const (class_of ty) v f d ∷ []);
      addr = fail;
    }
    gen (nd_neg ty a) = record { ty = some ty; value = negated (class_of ty) (gen a); addr = fail }
    gen (nd_var ty v) = record {
      ty = some ty;
      value = var_addr env v >> load ty;
      addr = var_addr env v;
    }
    gen (nd_member ty a off bitfield) = record {
      ty = some ty;
      value = error_if bitfield ((gen a).addr >> (emit (plus off) >> load ty));
      addr = (gen a).addr >> emit (plus off);
    }
    gen (nd_deref ty a) = record {
      ty = some ty;
      value = gen_expr_as (gen a) vc_i32 >> load ty;
      addr = gen_expr_as (gen a) vc_i32;
    }
    gen (nd_addr ty a) = record { ty = some ty; value = (gen a).addr; addr = fail }
    gen (nd_assign ty a b) =
        let value = error_if (is_bitfield a) (assigned env ty (gen a) (gen b)) in
        record { ty = some ty; value = value; addr = struct_addr ty value }
    gen (nd_comma ty a b) = record {
      ty = some ty;
      value = dropped (gen a) >> (gen b).value;
      addr = dropped (gen a) >> (gen b).addr;
    }
    gen (nd_cast ty a) = record {
      ty = some ty;
      value = (gen a).value >> cast_from (gen a).ty ty;
      addr = fail;
    }
    gen (nd_memzero v) = record {
      ty = none;
      value =
          emit (fp_plus env v.offset ++ (i32c (pos 0) ∷ i32c (pos v.ty.size) ∷ memory_fill ∷ []));
      addr = fail;
    }
    gen (nd_cond ty c a b) =
        let vc = class_of ty in
        let value =
          gen_cond (gen c) >> branches vc (gen_expr_as (gen a) vc) (gen_expr_as (gen b) vc) in
        record { ty = some ty; value = value; addr = struct_addr ty value }
    gen (nd_not ty a) = record {
      ty = some ty;
      value = gen_cond (gen a) >> emit (op 0x45 ∷ []);
      addr = fail;
    }
    gen (nd_bitnot ty a) = record {
      ty = some ty;
      value = inverted (class_of ty) (gen a);
      addr = fail;
    }
    gen (nd_logand ty a b) = record {
      ty = some ty;
      value = gen_cond (gen a) >> branches vc_i32 (gen_cond (gen b)) (emit (i32c (pos 0) ∷ []));
      addr = fail;
    }
    gen (nd_logor ty a b) = record {
      ty = some ty;
      value = gen_cond (gen a) >> branches vc_i32 (emit (i32c (pos 1) ∷ [])) (gen_cond (gen b));
      addr = fail;
    }
    gen (nd_binary k ty a b) = record {
      ty = some ty;
      value = gen_binary k ty (gen a).ty (gen a) (gen b);
      addr = fail;
    }
    gen (nd_funcall ty f a args ret) =
        let value = gen_funcall env ty f (callee_of env a) (gen a) (gen_args args) ret in
        record { ty = some ty; value = value; addr = if_buffer ret value }
    gen (nd_unsupported ty) = record { ty = some ty; value = fail; addr = fail }

    pub gen_args : Nodes → List Part
    gen_args no_nodes = []
    gen_args (node a as') = gen a ∷ gen_args as'
