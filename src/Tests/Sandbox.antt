-- ===== src/Tests/Sandbox.antt =====
-- Whole runs of `cmain` of host/main.c.
use sandbox_stack.Prelude.{ℕ, ◌≡◌, refl, arith, false, [], ◌∷◌, All, ◌==◌}
use sandbox_stack.Prelude.{if◌then◌else◌}
use sandbox_stack.Runtime.Memory.{Arena}
use sandbox_stack.Runtime.Access.{u32, i8}
use sandbox_stack.Host.{World, exited, Kernel, returned, failed}
use sandbox_stack.Host.{sys_read, sys_write}
use sandbox_stack.Host.Guest.{store, read, write, load, IsAction, Guest, cmain}
use sandbox_stack.Host.Confined.{IsKernel, Ended}
use sandbox_stack.Host.Sandbox.{cmain-Confined}

-- It grants strict mode, a read yields a byte if one is asked for, and a write takes all.
abbrev granting : Kernel
granting calls (sys_read fd to n) = if n == 0 then returned 0 [] else returned 1 (65 ∷ [])
granting calls (sys_write fd from n) = returned n []
granting calls c = returned 0 []

granting-IsKernel : IsKernel granting
granting-IsKernel calls fd ptr len n bytes e = ground arith

abbrev refusing : Kernel
refusing calls c = failed

abbrev arena : Arena
arena = record { cell = λ j. 0; arena_pages = 4 }

-- The last load is out of the guest's memory, though not of the arena.
abbrev guest : Guest
guest = record {
  initial_pages = 2;
  max_pages = 9;
  shared = false;
  actions = store u32 u32 8 77 ∷ read 0 1000 3 ∷ write 1 1000 1 ∷ load i8 u32 u32 131072 ∷ [];
}

guest-IsAction : All IsAction guest.actions
guest-IsAction = omega arith

cmain-Confined_example :
    (code : ℕ) × (w : World) × (cmain granting guest arena ≡ exited code w) × Ended 4 code w.calls
cmain-Confined_example =
    cmain-Confined granting guest arena [] granting-IsKernel (omega arith) guest-IsAction refl
