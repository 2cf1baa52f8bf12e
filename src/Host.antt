-- ===== src/Host.antt =====
-- The host of host/main.c: system calls, the three imports of the guest, and `cmain`.
-- The kernel and the guest's translated code are parameters: the kernel answers each call, and the
-- guest is the sequence of runtime operations and imports that it comes to make.
pub mod Guest
pub mod Confined
pub mod Sandbox
use sandbox_stack.Prelude.{
  ℕ, ◌+◌, ◌-◌, ◌%◌, ◌^◌, ◌||◌, not, List, [], ◌∷◌, length, ◌==◌, if◌then◌else◌,
}
use sandbox_stack.Bytes.{memcpy_in}
use sandbox_stack.Runtime.{Outcome, done, trapped, Trap, trap_code}
use sandbox_stack.Runtime as Rt
use sandbox_stack.Runtime.Memory.{Memory, Arena, u32_mod, check, access}

-- What a pointer that is passed to the kernel points to: the arena at an offset, or a string of the
-- host.
pub data Buffer : Type 0 where
  arena_at : ℕ → Buffer
  literal : List ℕ → Buffer

-- The calls of `sys3`, by `SYS_read`, `SYS_write`, `SYS_exit` and `SYS_prctl`.
pub data Syscall : Type 0 where
  sys_read : ℕ → Buffer → ℕ → Syscall
  sys_write : ℕ → Buffer → ℕ → Syscall
  sys_exit : ℕ → Syscall
  sys_prctl : ℕ → ℕ → Syscall

-- What the kernel answers: a negative error or a count, and the bytes that a read put in the buffer.
pub data Reply : Type 0 where
  failed : Reply
  returned : ℕ → List ℕ → Reply

-- The kernel's answer may depend on all calls before, newest first.
abbrev pub Kernel : Type 0
Kernel = List Syscall → Syscall → Reply

pub record World : Type 0 where
  pub memory : Memory
  pub arena : Arena
  pub calls : List Syscall

-- A host function returns to the guest, the process has exited, or its behaviour is undefined.
pub data Run : Type 0 where
  next : ℕ → World → Run
  exited : ℕ → World → Run
  fault : Run

infixl 5 ◌>>=◌
abbrev pub ◌>>=◌ : Run → (ℕ → World → Run) → Run
next r w >>= f = f r w
exited c w >>= f = exited c w
fault >>= f = fault

abbrev pub logged : World → Syscall → World
logged w c = record w { calls = c ∷ w.calls }

-- `ret`: an error is `(U32)-1`.
abbrev pub ret : Reply → ℕ
ret failed = u32_mod - 1
ret (returned r bytes) = r % u32_mod

-- `sys_exit`: `SYS_exit` does not return.
unfoldable pub exit : ℕ → World → Run
exit code w = exited code (logged w (sys_exit code))

-- "trap: 0\n", with the digit set
unfoldable pub trap_message : Trap → List ℕ
unfolding trap_code
trap_message t = b't' ∷ b'r' ∷ b'a' ∷ b'p' ∷ b':' ∷ b' ' ∷ (b'0' + trap_code t) ∷ 10 ∷ []

-- `trap`
unfoldable pub trap : Trap → World → Run
unfolding trap_message exit trap_code
trap t w = exit (100 + trap_code t) (logged w (sys_write 2 (literal (trap_message t)) 8))

-- A runtime function that the guest calls: a trap of it is the host's `trap`.
abbrev pub calling {ℓ} : {A : Type ℓ} → Outcome A → World → (A → Run) → Run
calling (done a) w k = k a
calling (trapped t) w k = trap t w
calling Rt.Outcome.fault w k = fault

-- The kernel puts the bytes of a read at the buffer's start.
abbrev pub receive : World → ℕ → Reply → Run
receive w ptr failed = next (ret failed) w
receive w ptr (returned r bytes) = calling (access w.memory w.arena ptr (length bytes)) w λ _.
    next (ret (returned r bytes))
      (record w { arena = record w.arena { cell = memcpy_in ptr bytes w.arena.cell } })

module _ (kernel : Kernel) where
  -- `env__read`
  unfoldable pub env_read : World → ℕ → ℕ → ℕ → Run
  env_read w fd ptr len =
      if not (fd == 0)
      then next (u32_mod - 1) w
      else calling (check w.memory ptr len) w
          λ _. let c = sys_read 0 (arena_at ptr) len in receive (logged w c) ptr (kernel w.calls c)

  -- `env__write`, without DEMO_ESCAPE
  unfoldable pub env_write : World → ℕ → ℕ → ℕ → Run
  env_write w fd ptr len =
      if not (fd == 1 || fd == 2)
      then next (u32_mod - 1) w
      else calling (check w.memory ptr len) w
          λ _. let c = sys_write fd (arena_at ptr) len in next (ret (kernel w.calls c)) (logged w c)

-- `env__exit`
unfoldable pub env_exit : World → ℕ → Run
unfolding exit
env_exit w code = exit code w
