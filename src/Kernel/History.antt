-- ===== src/Kernel/History.antt =====
-- Histories of the process table of NanoBoot/kernel: system calls and timer interrupts, in any order.
use shellforge.Prelude.{
  ℕ, zero, suc, ◌+◌, ◌≡◌, refl, sym, ◌∙◌, inl, inr, Bool, true, false, if◌then◌else◌, if-intro,
  none, some, Option-cases, List, [], ◌∷◌, Bytes,
}
use shellforge.Kernel.Proc.{
  nproc, ProcState, p_unused, p_running, Trapframe, Kernel, proc, reschedule, preempt, proc_sleep,
  proc_wakeup, timer_tick,
}
use shellforge.Kernel.Lifecycle.{
  Machine, proc_init, init_slots, proc_create_init, proc_fork, proc_exit, proc_wait,
}
use shellforge.Kernel.Running.{IsConsistent, state_at, reschedule-IsConsistent}
use shellforge.Kernel.Steps.{
  unused_stops, timer_tick-IsConsistent, preempt-IsConsistent, proc_sleep-IsConsistent,
  proc_exit-IsConsistent, proc_create_init-IsConsistent, proc_fork-IsConsistent,
  proc_wait-IsConsistent,
}

-- A system call of the running process, a timer interrupt, or a round of the idle loop.
pub data KernelEvent : Type 0 where
  creates : Bytes → KernelEvent
  forks : Trapframe → KernelEvent
  exits sleeps : ℕ → KernelEvent
  waits_for_child interrupts idles : KernelEvent

abbrev pub is_running : ProcState → Bool
is_running p_running = true
is_running _ = false

module _ {M : Type 0} where
  -- The branch of `trap_handler` for the timer.
  unfoldable pub timer_interrupt : Kernel M → Kernel M
  timer_interrupt k =
      let k' = timer_tick k in
      elim k'.current [
        | none ↦ k'
        | some i ↦ if is_running (proc k' i).state then preempt k' i else k'
      ]

  -- A round of `while (!current_proc)` in `trap_handler`.
  unfoldable pub idle_round : Kernel M → Kernel M
  idle_round k = elim k.current [ none ↦ reschedule (timer_tick k) | some i ↦ k ]

  pub timer_interrupt-IsConsistent :
      (k : Kernel M) → IsConsistent k → IsConsistent (timer_interrupt k)
  unfolding timer_interrupt
  timer_interrupt-IsConsistent k v =
      let w = timer_tick-IsConsistent k v in
      elim (Option-cases (timer_tick k).current) [
        | inl e ↦ rw (e, timer_interrupt) w
        | inr (i, e) ↦
            rw (e, timer_interrupt)
              (if-intro IsConsistent (is_running (proc (timer_tick k) i).state)
                (λ _. preempt-IsConsistent (timer_tick k) i w e) (λ _. w))
      ]

  pub idle_round-IsConsistent : (k : Kernel M) → IsConsistent k → IsConsistent (idle_round k)
  unfolding idle_round proc_wakeup timer_tick
  idle_round-IsConsistent k v =
      let w = timer_tick-IsConsistent k v in
      elim (Option-cases k.current) [
        | inl e ↦
            rw (e, idle_round)
              (reschedule-IsConsistent (timer_tick k) w.size w.placed w.last
                (λ i r. sym e ∙ w.only i r))
        | inr (i, e) ↦ rw (e, idle_round) v
      ]

module _ {M : Type 0} (machine : Machine M) where
  unfoldable pub happen : Kernel M → KernelEvent → Kernel M
  happen k (creates image) = (proc_create_init machine image k).1
  happen k (forks tf) = (proc_fork machine tf k).1
  happen k (exits status) = proc_exit machine status k
  happen k (sleeps n) = proc_sleep n k
  happen k waits_for_child = (proc_wait machine k).2
  happen k interrupts = timer_interrupt k
  happen k idles = idle_round k

  unfoldable pub history : Kernel M → List KernelEvent → Kernel M
  history k [] = k
  history k (e ∷ es) = history (happen k e) es

  happen-IsConsistent :
      (k : Kernel M) (e : KernelEvent) → IsConsistent k → IsConsistent (happen k e)
  unfolding happen
  happen-IsConsistent k (creates image) v = proc_create_init-IsConsistent machine image k v
  happen-IsConsistent k (forks tf) v = proc_fork-IsConsistent machine tf k v
  happen-IsConsistent k (exits status) v = proc_exit-IsConsistent machine status k v
  happen-IsConsistent k (sleeps n) v = proc_sleep-IsConsistent n k v
  happen-IsConsistent k waits_for_child v = proc_wait-IsConsistent machine k v
  happen-IsConsistent k interrupts v = timer_interrupt-IsConsistent k v
  happen-IsConsistent k idles v = idle_round-IsConsistent k v

  history-IsConsistent :
      (k : Kernel M) (es : List KernelEvent) → IsConsistent k → IsConsistent (history k es)
  unfolding history
  history-IsConsistent k [] v = v
  history-IsConsistent k (e ∷ es) v =
      history-IsConsistent (happen k e) es (happen-IsConsistent k e v)

  nothing_runs : (n j i : ℕ) → state_at (init_slots n j) i ≡ p_unused
  nothing_runs zero j i = refl
  nothing_runs (suc n) j zero = refl
  nothing_runs (suc n) j (suc i) = nothing_runs n (j + 1) i

  -- After every history of creations, system calls, timer interrupts and idle rounds from
  -- `proc_init`, whatever the virtual memory answers, the table has its NPROC slots, `current_proc`
  -- and `last_slot` point into it, and a process runs exactly where `current_proc` points at it.
  pub history-proc_init-IsConsistent :
      (memory : M) (es : List KernelEvent) → IsConsistent (history (proc_init machine memory) es)
  unfolding proc_init
  history-proc_init-IsConsistent memory es =
      history-IsConsistent (proc_init machine memory) es (record {
        size = refl;
        placed = tt;
        last = tt;
        only = λ i e. absurd (unused_stops p_unused refl (sym (nothing_runs nproc 0 i) ∙ e));
        runs = λ i e. cc;
      })
