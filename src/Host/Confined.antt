-- ===== src/Host/Confined.antt =====
-- What the process may ask of the kernel, and that the imports and every operation of the guest keep
-- to it (host/main.c over rt/w2c2_base.h).
use sandbox_stack.Prelude.{ℕ, ◌+◌, ◌*◌, ◌≤◌, ◌<◌, ◌≡◌, ◌⊎◌, inl, inr, refl, arith}
use native.Mathlib.Nat.{le_trans}
use sandbox_stack.Prelude.{List, [], ◌∷◌, length, All, true, Bool-cases, ◌==◌, ◌||◌}
use sandbox_stack.Bytes.{Store, memcpy_in}
use sandbox_stack.Runtime.{Outcome, done, trapped, Trap, out_of_bounds_memory}
use sandbox_stack.Runtime.Memory.{Arena, u32_mod, page_size, unattached}
use sandbox_stack.Runtime.Memory.Bulk.{memory_copy_lem, memory_fill_lem}
use sandbox_stack.Runtime.Memory.Bulk.{memory_init_lem, load_data_lem}
use sandbox_stack.Runtime.Memory.Laws.{
  IsValid, IsValid-cell, check_lem, access_lem, memory_grow_lem,
}
use sandbox_stack.Runtime.Memory.Laws.{define_load_lem}
use sandbox_stack.Runtime.Memory.Laws.{define_store_lem}
use sandbox_stack.Host.{World, Run, next, exited, fault, ◌>>=◌, Kernel, Reply, returned, failed}
use sandbox_stack.Host.{arena_at, literal, Syscall, sys_read, sys_write, sys_exit, sys_prctl}
use sandbox_stack.Host.{
  exit, trap, trap_message, logged, calling, receive, env_read, env_write, env_exit,
}
use sandbox_stack.Host.Guest.{
  Action, load, store, copy, fill, init, place, grow, read, write, leave,
}
use sandbox_stack.Host.Guest.{abort, IsAction, act, run}
use sandbox_stack.Host.Guest.{enter_strict}

-- A read of standard input into the arena's first `limit` bytes, a write of them to standard output
-- or error, or a write of a host string to standard error.
abbrev pub IsTransfer : ℕ → Syscall → Type 0
IsTransfer limit (sys_read fd (arena_at o) n) = (fd ≡ 0) × (o + n ≤ limit)
IsTransfer limit (sys_read fd (literal s) n) = ⊥
IsTransfer limit (sys_write fd (arena_at o) n) = ((fd ≡ 1) ⊎ (fd ≡ 2)) × (o + n ≤ limit)
IsTransfer limit (sys_write fd (literal s) n) = (fd ≡ 2) × (n ≤ length s)
IsTransfer limit (sys_exit code) = ⊥
IsTransfer limit (sys_prctl option mode) = ⊥

-- The calls so far, newest first: transfers, after one call that enters strict mode.
pub data Confined (limit : ℕ) : List Syscall → Type 0 where
  entered : Confined limit (enter_strict ∷ [])
  transferred :
      {c : Syscall} {cs : List Syscall}
      → IsTransfer limit c
      → Confined limit cs
      → Confined limit (c ∷ cs)

-- What read(2) promises: no more bytes than were asked for.
abbrev pub IsKernel : Kernel → Type 0
IsKernel kernel =
    (history : List Syscall) (fd ptr len n : ℕ) (bytes : List ℕ)
    → kernel history (sys_read fd (arena_at ptr) len) ≡ returned n bytes
    → length bytes ≤ len

pub record IsReady (pages : ℕ) (w : World) : Type 0 where
  pub valid : IsValid w.memory w.arena
  pub arena : w.arena.arena_pages ≡ pages
  pub confined : Confined (pages * page_size) w.calls

-- A process that has exited with the code, its exit call being the last.
abbrev pub Ended : ℕ → ℕ → List Syscall → Type 0
Ended pages code calls =
    (before : List Syscall) × (calls ≡ sys_exit code ∷ before) × Confined (pages * page_size) before

abbrev pub Good : ℕ → Run → Type 0
Good pages (next r w) = IsReady pages w
Good pages (exited code w) = Ended pages code w.calls
Good pages fault = ⊥

output_fd : (fd : ℕ) → (fd == 1 || fd == 2) ≡ true → (fd ≡ 1) ⊎ (fd ≡ 2)
output_fd fd h = ground arith

-- A process that has run to its exit.
abbrev pub Finished : ℕ → Run → Type 0
Finished pages r = (code : ℕ) × (w : World) × (r ≡ exited code w) × Ended pages code w.calls

abbrev pub process : Arena → List Syscall → World
process a calls = record { memory = unattached; arena = a; calls = calls }

module _ (pages : ℕ) where
  exit-Good :
      (code : ℕ) (w : World) → Confined (pages * page_size) w.calls → Good pages (exit code w)
  unfolding exit
  exit-Good code w c = (w.calls, refl, c)

  trap-Good : (t : Trap) (w : World) → Confined (pages * page_size) w.calls → Good pages (trap t w)
  unfolding trap
  trap-Good t w c = (_, refl, transferred (refl, unfold trap_message in omega arith) c)

  pub trap-Finished :
      (t : Trap) (w : World) → Confined (pages * page_size) w.calls → Finished pages (trap t w)
  unfolding trap exit
  trap-Finished t w c = (_, _, refl, trap-Good t w c)

  pub then_exit : (o : Run) → Good pages o → Finished pages (o >>= λ _ u. exit 0 u)
  unfolding exit
  then_exit (next v u) r = (0, _, refl, (u.calls, refl, r.confined))
  then_exit (exited code u) ended = (code, u, refl, ended)
  then_exit fault h = absurd h

  -- A runtime call that is done, with a result that the guest goes on with well, or that traps.
  calling-Good {ℓ} :
      {A : Type ℓ} (o : Outcome A) (w : World) (k : A → Run)
      → IsReady pages w
      → ((x : A) × (o ≡ done x) × Good pages (k x)) ⊎ ((t : Trap) × (o ≡ trapped t))
      → Good pages (calling o w k)
  calling-Good o w k ready (inl (x, e, good)) = rw e good
  calling-Good o w k ready (inr (t, e)) = rw e (trap-Good t w ready.confined)

  -- The arena's bytes may change freely.
  with_cell :
      (w : World) (c : Store)
      → IsReady pages w
      → IsReady pages (record w { arena = record w.arena { cell = c } })
  with_cell w c r = record {
    valid = IsValid-cell c r.valid;
    arena = r.arena;
    confined = r.confined;
  }

  with_call :
      (w : World) (c : Syscall)
      → IsTransfer (pages * page_size) c
      → IsReady pages w
      → IsReady pages (logged w c)
  with_call w c t r = record {
    valid = r.valid;
    arena = r.arena;
    confined = transferred t r.confined;
  }

  inside_limit : (w : World) → IsReady pages w → w.memory.size ≤ pages * page_size
  inside_limit w r = ground (arith, r.valid, r.arena)

  module _ (kernel : Kernel) (honest : IsKernel kernel) where
    receive-Good :
        (w : World) (ptr len : ℕ) (reply : Reply)
        → IsReady pages w
        → ptr + len ≤ w.memory.size
        → ((n : ℕ) (bytes : List ℕ) → reply ≡ returned n bytes → length bytes ≤ len)
        → Good pages (receive w ptr reply)
    receive-Good w ptr len failed r fits h = r
    receive-Good w ptr len (returned n bytes) r fits h =
        let within : length bytes ≤ len = h n bytes refl in
        rw (access_lem ptr (length bytes) r.valid (omega arith))
          (with_cell w (memcpy_in ptr bytes w.arena.cell) r)

    env_read-Good :
        (w : World) (fd ptr len : ℕ)
        → IsReady pages w
        → ptr < u32_mod
        → len < u32_mod
        → Good pages (env_read kernel w fd ptr len)
    unfolding env_read
    env_read-Good w fd ptr len r hp hl = elim (Bool-cases (fd == 0)) [
      | inr other ↦ rw other r
      | inl stdin ↦ rw stdin (elim (check_lem w.memory w.arena ptr len r.valid hp hl) [
        | inr (_, e) ↦ rw e (trap-Good out_of_bounds_memory w r.confined)
        | inl (fits, e, x) ↦
            let c = sys_read 0 (arena_at ptr) len in
            rw e (
              receive-Good (logged w c) ptr len (kernel w.calls c)
                (with_call w c (refl, le_trans fits (inside_limit w r)) r) fits
                (honest w.calls 0 ptr len))
      ])
    ]

    env_write-Good :
        (w : World) (fd ptr len : ℕ)
        → IsReady pages w
        → ptr < u32_mod
        → len < u32_mod
        → Good pages (env_write kernel w fd ptr len)
    unfolding env_write
    env_write-Good w fd ptr len r hp hl = elim (Bool-cases (fd == 1 || fd == 2)) [
      | inr other ↦ rw other r
      | inl output ↦ rw output (elim (check_lem w.memory w.arena ptr len r.valid hp hl) [
        | inr (_, e) ↦ rw e (trap-Good out_of_bounds_memory w r.confined)
        | inl (fits, e, x) ↦
            let c = sys_write fd (arena_at ptr) len in
            rw e (with_call w c (output_fd fd output, le_trans fits (inside_limit w r)) r)
      ])
    ]

    act-Good : (x : Action) (w : World) → IsAction x → IsReady pages w → Good pages (act kernel x w)
    unfolding act
    act-Good (load t1 t2 t3 addr) w h r =
        calling-Good _ w _ r
          (elim (define_load_lem t1 t2 t3 w.memory w.arena addr r.valid h.1 h.0) [
            | inl (_, e) ↦ inl (_, e, r)
            | inr (_, e) ↦ inr (_, e)
          ])
    act-Good (store t1 t2 addr v) w h r =
        calling-Good _ w _ r
          (elim (define_store_lem t1 t2 w.memory w.arena addr v r.valid h.1 h.0) [
            | inl (_, e) ↦ inl (_, e, with_cell w _ r)
            | inr (_, e) ↦ inr (_, e)
          ])
    act-Good (copy da sa n) w h r =
        calling-Good _ w _ r
          (elim (memory_copy_lem w.memory w.memory w.arena da sa n r.valid r.valid h.0 h.1 h.2) [
            | inl (_, _, (c, e, _)) ↦ inl (_, e, with_cell w c r)
            | inr (_, e) ↦ inr (_, e)
          ])
    act-Good (fill da v n) w h r =
        calling-Good _ w _ r (elim (memory_fill_lem w.memory w.arena da v n r.valid h.0 h.1) [
          | inl (_, (c, e, _)) ↦ inl (_, e, with_cell w c r)
          | inr (_, e) ↦ inr (_, e)
        ])
    act-Good (init dest seg seg_len src n) w h r =
        calling-Good _ w _ r
          (elim (memory_init_lem w.memory w.arena dest seg seg_len src n r.valid h.0 h.1 h.2 h.3) [
            | inl (_, _, (c, e, _)) ↦ inl (_, e, with_cell w c r)
            | inr (_, e) ↦ inr (_, e)
          ])
    act-Good (place o i s) w h r =
        calling-Good _ w _ r (elim (load_data_lem w.memory w.arena o i s r.valid h.0 h.1 h.2) [
          | inl (_, (c, e, _)) ↦ inl (_, e, with_cell w c r)
          | inr (_, e) ↦ inr (_, e)
        ])
    act-Good (grow delta) w h r = record {
      valid = (memory_grow_lem w.memory w.arena delta r.valid h).0;
      arena = r.arena;
      confined = r.confined;
    }
    act-Good (read fd ptr len) w h r = env_read-Good w fd ptr len r h.0 h.1
    act-Good (write fd ptr len) w h r = env_write-Good w fd ptr len r h.0 h.1
    act-Good (leave code) w h r = unfold env_exit in exit-Good code w r.confined
    act-Good (abort t) w h r = trap-Good t w r.confined

    bind-Good :
        (o : Run) (k : ℕ → World → Run)
        → Good pages o
        → ((v : ℕ) (u : World) → IsReady pages u → Good pages (k v u))
        → Good pages (o >>= k)
    bind-Good (next v u) k good go = go v u good
    bind-Good (exited code u) k good go = good
    bind-Good fault k good go = good

    pub run-Good :
        (xs : List Action) (w : World)
        → All IsAction xs
        → IsReady pages w
        → Good pages (run kernel xs w)
    unfolding run
    run-Good [] w h r = r
    run-Good (x ∷ xs) w h r =
        bind-Good (act kernel x w) (λ _ u. run kernel xs u) (act-Good x w h.0 r)
          (λ v u. run-Good xs u h.1)
