-- ===== src/Kernel/Trap/Resume.antt =====
-- Where the trap handlers of NanoBoot/kernel/trap.c return to.
use shellforge.Prelude.{
  ℕ, zero, suc, ◌<◌, ◌≡◌, ◌≢◌, refl, sym, ap, subst, ◌∙◌, true, false, Option, none, some,
  option-intro, ◌==◌, if-intro, if◌then◌else◌, get_or, get_or-set_self, arith,
}
use shellforge.Kernel.Proc.{
  nproc, p_running, tf_clear, Kernel, no_proc, proc, with_proc, reschedule, timer_tick,
}
use shellforge.Kernel.Lifecycle.{Machine}
use shellforge.Kernel.Schedule.{IsPlace}
use shellforge.Kernel.Running.{IsConsistent, reschedule-IsConsistent}
use shellforge.Kernel.Steps.{running_on, timer_tick-IsConsistent}
use shellforge.Kernel.History.{is_running, idle_round, idle_round-IsConsistent}
use shellforge.Kernel.Syscall.{Access, System, with_kernel}
use shellforge.Kernel.Trap.{
  stimer, idle_loop, switch_to, on_cause, settle, resume, trap_handler, kernel_trap_handler,
}
use shellforge.Kernel.Trap.Consistent.{GoesOn, other_memory, on_cause-GoesOn}

true_is_no_false : true ≢ false
true_is_no_false e = cc

module _ {M : Type 0} where
  -- The frame of the process that runs, or of the idle loop.
  abbrev pub running_frame : Kernel M → Option ℕ
  running_frame k = elim k.current [ none ↦ none | some i ↦ some (proc k i).tf ]

  -- A handler that returns has a consistent kernel, and returns to the process that runs.
  abbrev pub Resumed : Option (Option ℕ × System M) → Type 0
  Resumed none = Unit
  Resumed (some (frame, s)) = IsConsistent s.kernel × (frame ≡ running_frame s.kernel)

  abbrev Awake : Option (Kernel M) → Type 0
  Awake none = Unit
  Awake (some k) = IsConsistent k

  idle_loop-Awake : (fuel : ℕ) (k : Kernel M) → IsConsistent k → Awake (idle_loop fuel k)
  unfolding idle_loop
  idle_loop-Awake zero k v = option-intro Awake k.current (λ _. tt) (λ _ _. v)
  idle_loop-Awake (suc n) k v =
      option-intro Awake k.current
        (λ _. idle_loop-Awake n (idle_round k) (idle_round-IsConsistent k v)) (λ _ _. v)

module _ {M : Type 0} (machine : Machine M) (access : Access M) where
  frame_at :
      (k : Kernel M) (o : Option ℕ)
      → k.current ≡ o
      → elim o as (λ _. Option ℕ) [ none ↦ none | some i ↦ some (proc k i).tf ] ≡ running_frame k
  frame_at k o e =
      ap (λ x. elim x as (λ _. Option ℕ) [ none ↦ none | some i ↦ some (proc k i).tf ]) (sym e)

  switched :
      (k : Kernel M) (s : System M) (o : Option ℕ)
      → IsConsistent k
      → k.current ≡ o
      → Resumed
          (some ((switch_to machine access o k).0, with_kernel (switch_to machine access o k).1 s))
  unfolding switch_to
  switched k s none v e = (other_memory k _ v, frame_at k none e)
  switched k s (some i) v e =
      let here : i < nproc = subst IsPlace e v.placed in
      let p = record (proc k i) { state = p_running } in
      (
        other_memory (with_proc i p k) _ (running_on k i p v e (sym (v.runs i e))),
        ap (λ q. some q.tf) (sym (get_or-set_self k.table i p no_proc (omega (arith, v.size))))
            ∙ frame_at (with_proc i p k) (some i) e,
      )

  settled : (i : ℕ) (k : Kernel M) → IsConsistent k → k.current ≡ some i → settle i k ≡ k
  unfolding settle
  settled i k v e = rw (v.runs i e) refl

  resume-Resumed :
      (fuel : ℕ) (s : System M) → IsConsistent s.kernel → Resumed (resume machine access fuel s)
  unfolding resume
  resume-Resumed fuel s v =
      option-intro Resumed (idle_loop fuel s.kernel) (λ _. tt)
        (λ k e.
          let w = subst Awake e (idle_loop-Awake fuel s.kernel v) in
          option-intro Resumed k.current (λ _. tt)
            (λ i cur.
              subst
                (λ k'. Resumed (
                  some (
                    (switch_to machine access k'.current k').0,
                    with_kernel (switch_to machine access k'.current k').1 s,
                  )))
                (sym (settled i k w cur)) (switched k s k.current w refl)))

  -- Behind every trap from user mode, whatever its cause and the system call: where `trap_handler`
  -- returns, `current_proc` is at the one process that runs, and the frame that it returns is that
  -- process's, or that of the idle loop where there is none.
  pub trap_handler-Resumed :
      (fuel t : ℕ) (s : System M)
      → IsConsistent s.kernel
      → Resumed (trap_handler machine access fuel t s)
  unfolding trap_handler
  trap_handler-Resumed fuel t s v =
      option-intro Resumed s.kernel.current (λ e. switched s.kernel s none v e)
        (λ i e.
          let k = with_proc i (record (proc s.kernel i) { tf = t }) s.kernel in
          let w = running_on s.kernel i (record (proc s.kernel i) { tf = t }) v e refl in
          let cause = (get_or k.trapframes t tf_clear).scause in
          let caused = on_cause-GoesOn machine access t cause (with_kernel k s) w in
          option-intro Resumed (on_cause machine access t cause (with_kernel k s)) (λ _. tt)
            (λ s' e'. resume-Resumed fuel s' (subst GoesOn e' caused)))

  -- Behind a tick the idle loop goes on, or the scheduler chooses.
  ticked-IsConsistent :
      (k : Kernel M)
      → IsConsistent k
      → IsConsistent (elim k.current as (λ _. Kernel M) [
        | none ↦ reschedule k
        | some i ↦ if is_running (proc k i).state then k else reschedule k
      ])
  ticked-IsConsistent k v =
      option-intro IsConsistent k.current
        (λ e. reschedule-IsConsistent k v.size v.placed v.last (λ i r. sym e ∙ v.only i r))
        (λ i e.
          if-intro IsConsistent (is_running (proc k i).state) (λ _. v)
            (λ no. absurd (true_is_no_false (ap is_running (sym (v.runs i e)) ∙ no))))

  -- The same of `kernel_trap_handler`, which halts the machine on a trap other than the timer's.
  pub kernel_trap_handler-Resumed :
      (cause : ℕ) (s : System M)
      → IsConsistent s.kernel
      → Resumed (kernel_trap_handler machine access cause s)
  unfolding kernel_trap_handler
  kernel_trap_handler-Resumed cause s v =
      if-intro Resumed (cause == stimer)
        (λ _.
          switched _ s _
            (ticked-IsConsistent (timer_tick s.kernel) (timer_tick-IsConsistent s.kernel v)) refl)
        (λ _. tt)
