-- ===== src/Cc/Codegen/Expr/Tree.antt =====
-- The expressions that cc/codegen.c reads, and what it keeps of names and locals.
use sandbox_stack.Prelude.{ℕ, Bool}
use sandbox_stack.Prelude.{Option, none, some}
use sandbox_stack.Prelude.Int.{ℤ}
use sandbox_stack.Cc.Asm.{Name}
use sandbox_stack.Cc.Codegen.{CType, FuncType, Gen}

-- What the backend reads of an `Obj`
pub record Obj : Type 0 where
  pub name : Name
  pub ty : CType
  pub is_local : Bool
  pub is_function : Bool
  pub is_tls : Bool
  pub offset : ℕ

-- The binary operators, `ND_ADD` to `ND_LE`
pub data Binary : Type 0 where
  nd_add nd_sub nd_mul nd_div nd_mod nd_bitand nd_bitor nd_bitxor nd_shl nd_shr : Binary
  nd_eq nd_ne nd_lt nd_le : Binary

-- Expressions with their types. A number has its value, and the bits of `fval` as float and as
-- double; a member has its offset; the last case are the kinds that are errors.
mutual
  pub data Node : Type 0 where
    nd_null_expr : Node
    nd_num : CType → ℤ → ℕ → ℕ → Node
    nd_neg : CType → Node → Node
    nd_var : CType → Obj → Node
    nd_member : CType → Node → ℕ → Bool → Node
    nd_deref : CType → Node → Node
    nd_addr : CType → Node → Node
    nd_assign : CType → Node → Node → Node
    nd_comma : CType → Node → Node → Node
    nd_cast : CType → Node → Node
    nd_memzero : Obj → Node
    nd_cond : CType → Node → Node → Node → Node
    nd_not : CType → Node → Node
    nd_bitnot : CType → Node → Node
    nd_logand : CType → Node → Node → Node
    nd_logor : CType → Node → Node → Node
    nd_binary : Binary → CType → Node → Node → Node
    nd_funcall : CType → FuncType → Node → Nodes → Option ℕ → Node
    nd_unsupported : CType → Node

  pub data Nodes : Type 0 where
    no_nodes : Nodes
    node : Node → Nodes → Nodes

-- `node->ty`
abbrev pub ty_of : Node → Option CType
ty_of nd_null_expr = none
ty_of (nd_num ty v f d) = some ty
ty_of (nd_neg ty a) = some ty
ty_of (nd_var ty v) = some ty
ty_of (nd_member ty a off b) = some ty
ty_of (nd_deref ty a) = some ty
ty_of (nd_addr ty a) = some ty
ty_of (nd_assign ty a b) = some ty
ty_of (nd_comma ty a b) = some ty
ty_of (nd_cast ty a) = some ty
ty_of (nd_memzero v) = none
ty_of (nd_cond ty c a b) = some ty
ty_of (nd_not ty a) = some ty
ty_of (nd_bitnot ty a) = some ty
ty_of (nd_logand ty a b) = some ty
ty_of (nd_logor ty a b) = some ty
ty_of (nd_binary k ty a b) = some ty
ty_of (nd_funcall ty f a args r) = some ty
ty_of (nd_unsupported ty) = some ty

-- `func_index`, `global_def` with the offsets, `heap_base`, and the numbers of the locals
pub record Env : Type 0 where
  pub func_index : Name → Option ℕ
  pub global_def : Name → Option ℕ
  pub heap_base : ℕ
  pub loc_fp : ℕ
  pub loc_t32 : ℕ
  pub loc_t32b : ℕ
  pub loc_t64 : ℕ
  pub loc_tf32 : ℕ
  pub loc_tf64 : ℕ

-- A generated part: its type, and the code of its value and of its address
pub record Part : Type 0 where
  pub ty : Option CType
  pub value : Gen
  pub addr : Gen
