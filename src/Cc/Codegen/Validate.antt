-- ===== src/Cc/Codegen/Validate.antt =====
-- The validation of wasm code by the types of its operands, as the WebAssembly specification has it
-- for the instructions that cc/codegen.c writes in expressions. It knows nothing of the compiler.
use sandbox_stack.Prelude.{ℕ, Bool, true, false, not, ◌&&◌}
use sandbox_stack.Prelude.{
  List, [], ◌∷◌, ◌++◌, Option, none, some, get_elem?, leb, ◌==◌, if◌then◌else◌,
}
use sandbox_stack.Cc.Codegen.{
  Class, vc_none, vc_i32, vc_i64, vc_f32, vc_f64, same_class, Instr, op, op_u, i32c, i64c, f32c,
  f64c, memarg, memory_copy, memory_fill, memory_size, memory_grow, if_, call_indirect, FuncSig,
}

-- The operands, the topmost first
abbrev pub Stack : Type 0
Stack = List Class

-- An open `if`: the operands below it, its result, and whether its `else` is behind.
pub record Frame : Type 0 where
  pub outer : Stack
  pub result : List Class
  pub in_else : Bool

-- What is declared around the code. The global 0 is an i32 that can be set.
pub record Context : Type 0 where
  pub locals : ℕ → Option Class
  pub funcs : ℕ → Option FuncSig

abbrev pub State : Type 0
State = Stack × List Frame

-- Operands of these types are taken.
abbrev pub take_all : List Class → Stack → Option Stack
take_all [] st = some st
take_all (c ∷ cs) [] = none
take_all (c ∷ cs) (d ∷ st) = let rest = take_all cs st in if same_class c d then rest else none

abbrev pub put_all : List Class → List Frame → Option Stack → Option State
put_all out fs none = none
put_all out fs (some st) = some (out ++ st, fs)

abbrev pub applies : List Class → List Class → State → Option State
applies ins out (st, fs) = put_all out fs (take_all ins st)

abbrev pub one : Class → List Class
one c = c ∷ []

abbrev pub two : Class → List Class
two c = c ∷ c ∷ []

-- Operators with these codes, by the ranges of the specification
abbrev pub op_type : ℕ → Option (List Class × List Class)
op_type o =
    if o == 0x45
    then some (one vc_i32, one vc_i32)
    else if leb 0x46 o && leb o 0x4f
    then some (two vc_i32, one vc_i32)
    else if o == 0x50
    then some (one vc_i64, one vc_i32)
    else if leb 0x51 o && leb o 0x5a
    then some (two vc_i64, one vc_i32)
    else if leb 0x5b o && leb o 0x60
    then some (two vc_f32, one vc_i32)
    else if leb 0x61 o && leb o 0x66
    then some (two vc_f64, one vc_i32)
    else if leb 0x67 o && leb o 0x69
    then some (one vc_i32, one vc_i32)
    else if leb 0x6a o && leb o 0x78
    then some (two vc_i32, one vc_i32)
    else if leb 0x79 o && leb o 0x7b
    then some (one vc_i64, one vc_i64)
    else if leb 0x7c o && leb o 0x8a
    then some (two vc_i64, one vc_i64)
    else if leb 0x8b o && leb o 0x91
    then some (one vc_f32, one vc_f32)
    else if leb 0x92 o && leb o 0x98
    then some (two vc_f32, one vc_f32)
    else if leb 0x99 o && leb o 0x9f
    then some (one vc_f64, one vc_f64)
    else if leb 0xa0 o && leb o 0xa6
    then some (two vc_f64, one vc_f64)
    else if o == 0xa7
    then some (one vc_i64, one vc_i32)
    else if leb 0xa8 o && leb o 0xa9
    then some (one vc_f32, one vc_i32)
    else if leb 0xaa o && leb o 0xab
    then some (one vc_f64, one vc_i32)
    else if leb 0xac o && leb o 0xad
    then some (one vc_i32, one vc_i64)
    else if leb 0xae o && leb o 0xaf
    then some (one vc_f32, one vc_i64)
    else if leb 0xb0 o && leb o 0xb1
    then some (one vc_f64, one vc_i64)
    else if leb 0xb2 o && leb o 0xb3
    then some (one vc_i32, one vc_f32)
    else if leb 0xb4 o && leb o 0xb5
    then some (one vc_i64, one vc_f32)
    else if o == 0xb6
    then some (one vc_f64, one vc_f32)
    else if leb 0xb7 o && leb o 0xb8
    then some (one vc_i32, one vc_f64)
    else if leb 0xb9 o && leb o 0xba
    then some (one vc_i64, one vc_f64)
    else if o == 0xbb
    then some (one vc_f32, one vc_f64)
    else if leb 0xc0 o && leb o 0xc1
    then some (one vc_i32, one vc_i32)
    else if leb 0xc2 o && leb o 0xc4
    then some (one vc_i64, one vc_i64)
    else none

-- Loads and stores: what is loaded or stored, and the alignment at most, as an exponent
abbrev pub load_type : ℕ → Option (Class × ℕ)
load_type o =
    if o == 0x28
    then some (vc_i32, 2)
    else if o == 0x29
    then some (vc_i64, 3)
    else if o == 0x2a
    then some (vc_f32, 2)
    else if o == 0x2b
    then some (vc_f64, 3)
    else if leb 0x2c o && leb o 0x2d
    then some (vc_i32, 0)
    else if leb 0x2e o && leb o 0x2f
    then some (vc_i32, 1)
    else none

abbrev pub store_type : ℕ → Option (Class × ℕ)
store_type o =
    if o == 0x36
    then some (vc_i32, 2)
    else if o == 0x37
    then some (vc_i64, 3)
    else if o == 0x38
    then some (vc_f32, 2)
    else if o == 0x39
    then some (vc_f64, 3)
    else if o == 0x3a
    then some (vc_i32, 0)
    else if o == 0x3b
    then some (vc_i32, 1)
    else none

abbrev pub result_of : Class → List Class
result_of c = if same_class c vc_none then [] else c ∷ []

abbrev pub reversed_onto : List Class → List Class → List Class
reversed_onto [] acc = acc
reversed_onto (c ∷ cs) acc = reversed_onto cs (c ∷ acc)

-- A call takes the parameters, the last one topmost.
abbrev pub calls : Option FuncSig → State → Option State
calls none s = none
calls (some f) s = applies (reversed_onto f.params []) (result_of f.result) s

abbrev pub typed_op : Option (List Class × List Class) → State → Option State
typed_op none s = none
typed_op (some (ins, out)) s = applies ins out s

abbrev pub loads : ℕ → Option (Class × ℕ) → State → Option State
loads align none s = none
loads align (some (c, most)) s = if leb align most then applies (one vc_i32) (one c) s else none

abbrev pub stores : ℕ → Option (Class × ℕ) → State → Option State
stores align none s = none
stores align (some (c, most)) s = if leb align most then applies (c ∷ vc_i32 ∷ []) [] s else none

abbrev pub drops : State → Option State
drops ([], fs) = none
drops (c ∷ st, fs) = some (st, fs)

-- The `else` of an `if`: the first branch has left its result, and nothing else.
abbrev pub is_result : List Class → Stack → Bool
is_result [] [] = true
is_result [] (d ∷ st) = false
is_result (c ∷ cs) [] = false
is_result (c ∷ cs) (d ∷ st) = same_class c d && is_result cs st

abbrev pub turns : State → Option State
turns (st, []) = none
turns (st, f ∷ fs) =
    if is_result f.result st && not f.in_else
    then some ([], record f { in_else = true } ∷ fs)
    else none

abbrev pub ends : State → Option State
ends (st, []) = none
ends (st, f ∷ fs) =
    if is_result f.result st && f.in_else then some (f.result ++ f.outer, fs) else none

abbrev pub opens : List Class → State → Option State
opens result ([], fs) = none
opens result (c ∷ st, fs) =
    if same_class c vc_i32
    then some ([], record { outer = st; result = result; in_else = false } ∷ fs)
    else none

abbrev pub block_type : ℕ → Option (List Class)
block_type b =
    if b == 0x40
    then some []
    else if b == 0x7f
    then some (one vc_i32)
    else if b == 0x7e
    then some (one vc_i64)
    else if b == 0x7d
    then some (one vc_f32)
    else if b == 0x7c
    then some (one vc_f64)
    else none

abbrev pub opens_typed : Option (List Class) → State → Option State
opens_typed none s = none
opens_typed (some result) s = opens result s

-- Instructions with an index: locals, the global 0, and calls
abbrev pub gets : Option Class → State → Option State
gets none s = none
gets (some c) s = applies [] (one c) s

abbrev pub tees : Option Class → State → Option State
tees none s = none
tees (some c) s = applies (one c) (one c) s

abbrev pub indexed : Context → ℕ → ℕ → State → Option State
indexed ctx o i s =
    if o == 0x20
    then gets (ctx.locals i) s
    else if o == 0x22
    then tees (ctx.locals i) s
    else if o == 0x23
    then (if i == 0 then applies [] (one vc_i32) s else none)
    else if o == 0x24
    then (if i == 0 then applies (one vc_i32) [] s else none)
    else if o == 0x10
    then calls (ctx.funcs i) s
    else none

abbrev pub plain : ℕ → State → Option State
plain o s =
    if o == 0x1a
    then drops s
    else if o == 0x05
    then turns s
    else if o == 0x0b
    then ends s
    else typed_op (op_type o) s

abbrev pub indirect_type : Option FuncSig → State → Option State
indirect_type f ([], fs) = none
indirect_type f (c ∷ st, fs) = if same_class c vc_i32 then calls f (st, fs) else none

abbrev pub step : Context → List FuncSig → Instr → State → Option State
step ctx ts (op o) s = plain o s
step ctx ts (op_u o i) s = indexed ctx o i s
step ctx ts (i32c v) s = applies [] (one vc_i32) s
step ctx ts (i64c v) s = applies [] (one vc_i64) s
step ctx ts (f32c v) s = applies [] (one vc_f32) s
step ctx ts (f64c v) s = applies [] (one vc_f64) s
step ctx ts (memarg o align) s =
    if leb 0x36 o then stores align (store_type o) s else loads align (load_type o) s
step ctx ts memory_copy s = applies (vc_i32 ∷ vc_i32 ∷ vc_i32 ∷ []) [] s
step ctx ts memory_fill s = applies (vc_i32 ∷ vc_i32 ∷ vc_i32 ∷ []) [] s
step ctx ts memory_size s = applies [] (one vc_i32) s
step ctx ts memory_grow s = applies (one vc_i32) (one vc_i32) s
step ctx ts (if_ b) s = opens_typed (block_type b) s
step ctx ts (call_indirect i) s = indirect_type (get_elem? ts i) s

abbrev pub then_check : (State → Option State) → Option State → Option State
then_check k none = none
then_check k (some s) = k s

-- The code in turn
abbrev pub check : Context → List FuncSig → List Instr → State → Option State
check ctx ts [] s = some s
check ctx ts (i ∷ is) s = then_check (check ctx ts is) (step ctx ts i s)
