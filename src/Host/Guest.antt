-- ===== src/Host/Guest.antt =====
-- The translated guest as the sequence of what it does to the runtime, and `cmain` of host/main.c.
use sandbox_stack.Prelude.{ℕ, zero, ◌<◌, ◌≤◌, Bool, List, [], ◌∷◌, length}
use sandbox_stack.Runtime.{Trap}
use sandbox_stack.Runtime.Memory.{Arena, u32_mod, CType, unattached, memory_allocate}
use sandbox_stack.Runtime.Memory.{memory_grow, memory_copy, memory_fill, memory_init, load_data}
use sandbox_stack.Runtime.Memory.{define_load, define_store}
use sandbox_stack.Host.{World, Run, next, ◌>>=◌, Kernel, Reply, returned}
use sandbox_stack.Host.{Syscall, sys_write, sys_prctl, literal, calling, exit, trap, logged}
use sandbox_stack.Host.{env_read, env_write, env_exit}

-- What translated code does that is not a computation on its own values: it calls the runtime
-- header's memory functions and the three imports, and it traps.
pub data Action : Type 0 where
  load : CType → CType → CType → ℕ → Action
  store : CType → CType → ℕ → ℕ → Action
  copy : ℕ → ℕ → ℕ → Action
  fill : ℕ → ℕ → ℕ → Action
  init : ℕ → List ℕ → ℕ → ℕ → ℕ → Action
  place : ℕ → List ℕ → ℕ → Action
  grow : ℕ → Action
  read : ℕ → ℕ → ℕ → Action
  write : ℕ → ℕ → ℕ → Action
  leave : ℕ → Action
  abort : Trap → Action

abbrev IsU32 : ℕ → Type 0
IsU32 x = x < u32_mod

-- What the types of the C functions and the translator see to: the arguments are 32-bit numbers, an
-- access has at most 8 bytes, and the recorded length of a data segment does not pass its array.
abbrev pub IsAction : Action → Type 0
IsAction (load t1 t2 t3 addr) = (t1.bytes ≤ 8) × IsU32 addr
IsAction (store t1 t2 addr v) = (t1.bytes ≤ 8) × IsU32 addr
IsAction (copy da sa n) = IsU32 da × IsU32 sa × IsU32 n
IsAction (fill da v n) = IsU32 da × IsU32 n
IsAction (init dest seg seg_len src n) = IsU32 dest × IsU32 src × IsU32 n × (seg_len ≤ length seg)
IsAction (place o i s) = IsU32 o × IsU32 s × (s ≤ length i)
IsAction (grow delta) = IsU32 delta
IsAction (read fd ptr len) = IsU32 ptr × IsU32 len
IsAction (write fd ptr len) = IsU32 ptr × IsU32 len
IsAction (leave code) = Unit
IsAction (abort t) = Unit

-- The module instance that the translated code sets up, and all that the guest then does.
pub record Guest : Type 0 where
  pub initial_pages : ℕ
  pub max_pages : ℕ
  pub shared : Bool
  pub actions : List Action

abbrev with_arena : World → Arena → Run
with_arena w a = next 0 (record w { arena = a })

-- `seccomp strict failed`
abbrev pub refusal : List ℕ
refusal =
    115 ∷ 101 ∷ 99 ∷ 99 ∷ 111 ∷ 109 ∷ 112 ∷ 32 ∷ 115 ∷ 116 ∷ 114 ∷ 105 ∷ 99 ∷ 116 ∷ 32 ∷ 102 ∷ 97
    ∷ 105 ∷ 108 ∷ 101 ∷ 100 ∷ 10 ∷ []

-- `PR_SET_SECCOMP`, `SECCOMP_MODE_STRICT`
abbrev pub enter_strict : Syscall
enter_strict = sys_prctl 22 1

module _ (kernel : Kernel) where
  unfoldable pub act : Action → World → Run
  act (load t1 t2 t3 addr) w = calling (define_load t1 t2 t3 w.memory w.arena addr) w λ v. next v w
  act (store t1 t2 addr v) w =
      calling (define_store t1 t2 w.memory w.arena addr v) w λ a. with_arena w a
  act (copy da sa n) w =
      calling (memory_copy w.memory w.memory w.arena da sa n) w λ a. with_arena w a
  act (fill da v n) w = calling (memory_fill w.memory w.arena da v n) w λ a. with_arena w a
  act (init dest seg seg_len src n) w =
      calling (memory_init w.memory w.arena dest seg seg_len src n) w λ a. with_arena w a
  act (place o i s) w = calling (load_data w.memory w.arena o i s) w λ a. with_arena w a
  act (grow delta) w =
      let (old, m) = memory_grow w.memory delta in next old (record w { memory = m })
  act (read fd ptr len) w = env_read kernel w fd ptr len
  act (write fd ptr len) w = env_write kernel w fd ptr len
  act (leave code) w = env_exit w code
  act (abort t) w = trap t w

  unfoldable pub run : List Action → World → Run
  run [] w = next 0 w
  run (x ∷ xs) w = act x w >>= λ _ w'. run xs w'

  -- `guestInstantiate(&inst, NULL); guest__start(&inst); sys_exit(0);`
  unfoldable pub start : Guest → World → Run
  start g w =
      calling (memory_allocate w.memory w.arena g.initial_pages g.max_pages g.shared) w
        λ m. run g.actions (record w { memory = m }) >>= λ _ w'. exit 0 w'

  -- The `if` of `cmain`, on the kernel's answer to the first call.
  unfoldable pub after_prctl : Guest → World → Reply → Run
  after_prctl g w (returned zero bytes) = start g w
  after_prctl g w r = exit 99 (logged w (sys_write 2 (literal refusal) 22))

  -- `cmain`, in a process that has made no call yet
  unfoldable pub cmain : Guest → Arena → Run
  unfolding after_prctl start run act
  cmain g a =
      let w : World = record { memory = unattached; arena = a; calls = [] } in
      after_prctl g (logged w enter_strict) (kernel [] enter_strict)
