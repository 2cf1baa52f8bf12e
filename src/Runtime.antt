-- ===== src/Runtime.antt =====
-- The runtime header of the translated C, rt/w2c2_base.h: what a call of it can come to.
pub mod Memory
pub mod Access
pub mod Table
pub mod Arith
use sandbox_stack.Prelude.{ℕ, Bool, true, false}

-- `enum Trap`
pub data Trap : Type 0 where
  unreachable div_by_zero int_overflow invalid_conversion allocation_failed : Trap
  out_of_bounds_memory out_of_bounds_table null_function indirect_call_type_mismatch : Trap

-- The value of the enumerator, which `trap` of the host prints and exits with.
unfoldable pub trap_code : Trap → ℕ
trap_code unreachable = 1
trap_code div_by_zero = 2
trap_code int_overflow = 3
trap_code invalid_conversion = 4
trap_code allocation_failed = 5
trap_code out_of_bounds_memory = 6
trap_code out_of_bounds_table = 7
trap_code null_function = 8
trap_code indirect_call_type_mismatch = 9

-- A result; a call of `trap`, which does not return; or `fault`, undefined behaviour of C: an access
-- outside the object that a pointer points into, which the runtime has to exclude.
pub data Outcome {ℓ} (A : Type ℓ) : Type ℓ where
  done : A → Outcome A
  trapped : Trap → Outcome A
  fault : Outcome A

infixl 5 ◌>>=◌ ◌>>◌
abbrev pub ◌>>=◌ {ℓ κ} : {A : Type ℓ} {B : Type κ} → Outcome A → (A → Outcome B) → Outcome B
done a >>= f = f a
trapped t >>= f = trapped t
fault >>= f = fault

abbrev pub ◌>>◌ {ℓ} : {B : Type ℓ} → Outcome (Unit {0}) → Outcome B → Outcome B
m >> k = m >>= λ _. k

-- `if (c) trap(t);`
abbrev pub trap_if : Bool → Trap → Outcome (Unit {0})
trap_if true t = trapped t
trap_if false t = done tt

-- An access is defined behaviour only if the condition holds.
abbrev pub defined_if : Bool → Outcome (Unit {0})
defined_if true = done tt
defined_if false = fault
