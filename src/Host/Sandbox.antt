-- ===== src/Host/Sandbox.antt =====
-- `cmain` as a whole: the process is confined to its three system calls, and it ends.
use sandbox_stack.Prelude.{ℕ, ◌<◌, ◌≡◌, inl, inr, refl}
use sandbox_stack.Prelude.{List, [], ◌∷◌, All}
use sandbox_stack.Runtime.{allocation_failed}
use sandbox_stack.Runtime.Memory.{Arena, u32_mod, unattached}
use sandbox_stack.Runtime.Memory.Laws.{memory_allocate_lem}
use sandbox_stack.Host.{World, exited, Kernel, returned}
use sandbox_stack.Host.Guest.{IsAction, Guest, run, start, cmain}
use sandbox_stack.Host.Guest.{enter_strict}
use sandbox_stack.Host.Confined.{
  IsKernel, entered, Ended, Finished, process, run-Good, trap-Finished, then_exit,
}

-- The run of a started guest, from a process that has made one call.
start-Finished :
    (pages : ℕ) (kernel : Kernel) (g : Guest) (a : Arena)
    → IsKernel kernel
    → a.arena_pages ≡ pages
    → g.initial_pages < u32_mod
    → All IsAction g.actions
    → Finished pages (start kernel g (process a (enter_strict ∷ [])))
unfolding start
start-Finished pages kernel g a honest e hi hx =
    elim (memory_allocate_lem unattached a g.initial_pages g.max_pages g.shared hi refl) [
      | inr (_, t) ↦
          rw t (trap-Finished pages allocation_failed (process a (enter_strict ∷ [])) entered)
      | inl (_, _, _, _, (m, t, valid, _, _)) ↦ rw t (
          then_exit pages
            (run kernel g.actions (record { memory = m; arena = a; calls = enter_strict ∷ [] }))
            (run-Good pages kernel honest g.actions _ hx
              (record { valid = valid; arena = e; confined = entered })))
    ]

-- For a kernel whose reads yield no more bytes than were asked for, and a guest of any actions with
-- 32-bit arguments, accesses of at most 8 bytes and segments that are as long as recorded: if the
-- kernel grants strict mode then the process runs to its exit with no undefined behaviour, and its
-- calls are: first the one that enters strict mode, last the exit, and between them only reads of
-- descriptor 0 into the arena, writes of the arena to 1 and 2, and messages of the host to 2.
pub cmain-Confined :
    (kernel : Kernel) (g : Guest) (a : Arena) (granted : List ℕ)
    → IsKernel kernel
    → g.initial_pages < u32_mod
    → All IsAction g.actions
    → kernel [] enter_strict ≡ returned 0 granted
    → (code : ℕ) × (w : World) × (cmain kernel g a ≡ exited code w)
      × Ended a.arena_pages code w.calls
cmain-Confined kernel g a granted honest hi hx e =
    let (code, w, ran, ended) = start-Finished a.arena_pages kernel g a honest refl hi hx in
    (code, w, unfold cmain in rw e ran, ended)
