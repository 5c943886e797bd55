-- ===== src/Kernel/Turns.antt =====
-- Timer interrupts in trap.c and proc.c of NanoBoot/kernel: each process that can run gets its turn.
use shellforge.Prelude.{
  if◌then◌else◌, ℕ, zero, suc, ◌≤◌, ◌<◌, ◌≡◌, refl, ap, sym, subst, true, List, [], ◌∷◌, map, ◌∙◌,
  ◌≢◌, inl, inr, Bool-cases, ◌==◌, length, set, get_or, length-set, get_or-set_self, get_or-set_ne,
  Option, none, some, arith,
}
use shellforge.Kernel.Proc.{
  nproc, p_runnable, Proc, Kernel, no_proc, proc, with_proc, start_of, preempt, woken, proc_wakeup,
  timer_tick,
}
use shellforge.Kernel.Running.{IsConsistent}
use shellforge.Kernel.Steps.{timer_tick-IsConsistent}
use shellforge.Kernel.History.{is_running, timer_interrupt, timer_interrupt-IsConsistent}
use shellforge.Kernel.Schedule.{IsPlace, gap, Scheduled, idle, turn, proc_schedule-Scheduled}

gap_lt :
    (c i j : ℕ)
    → c < nproc
    → i < nproc
    → j < nproc
    → i ≢ j
    → gap (some c) i ≤ gap (some c) j
    → gap (some i) j < gap (some c) j
gap_lt c i j a b d ne le = omega arith

module _ {M : Type 0} where
  abbrev preempted : Kernel M → ℕ → Kernel M
  preempted k c = with_proc c (record (proc k c) { state = p_runnable }) k

  -- `n` timer interrupts, each while the process that was chosen before is running.
  unfoldable pub timer_interrupts : ℕ → Kernel M → Kernel M
  timer_interrupts zero k = k
  timer_interrupts (suc n) k = timer_interrupts n (timer_interrupt k)

  -- A preemption starts the process `j`, or one that comes before it.
  data Nearer (j c : ℕ) : Kernel M → Type 0 where
    now : (k : Kernel M) → k.current ≡ some j → Nearer j c k
    soon :
        (k : Kernel M) (i : ℕ)
        → k.current ≡ some i
        → i < nproc
        → length k.table ≡ nproc
        → (proc k j).state ≡ p_runnable
        → gap (some i) j < gap (some c) j
        → Nearer j c k

  start_of-current : (k : Kernel M) (c : ℕ) → k.current ≡ some c → start_of k ≡ some c
  start_of-current k c cur =
      ap (λ o. elim o as (λ _. Option ℕ) [ none ↦ k.last_slot | some s ↦ some s ]) cur

  runnable-with_proc :
      (k : Kernel M) (c j : ℕ) (p : Proc)
      → c < length k.table
      → (c ≡ j → p.state ≡ p_runnable)
      → (proc k j).state ≡ p_runnable
      → (proc (with_proc c p k) j).state ≡ p_runnable
  runnable-with_proc k c j p lt same ready = elim (Bool-cases (c == j)) [
    | inl e ↦
        let eq : c ≡ j = ground arith in
        ap (λ q. q.state)
          (subst (λ i. get_or (set k.table c p) i no_proc ≡ p) eq
            (get_or-set_self k.table c p no_proc lt))
        ∙ same eq
    | inr e ↦ ap (λ q. q.state) (get_or-set_ne k.table c j p no_proc (ground arith)) ∙ ready
  ]

  preempt-Nearer :
      (k : Kernel M) (c j : ℕ)
      → k.current ≡ some c
      → c < nproc
      → length k.table ≡ nproc
      → j < nproc
      → (proc k j).state ≡ p_runnable
      → Nearer j c (preempt k c)
  unfolding preempt
  preempt-Nearer k c j cur cl size jl ready =
      answer
        (proc_schedule-Scheduled (preempted k c) (rw (start_of-current (preempted k c) c cur) cl))
    where
      still : (proc (preempted k c) j).state ≡ p_runnable
      still = runnable-with_proc k c j _ (omega (arith, size)) (λ _. refl) ready

      answer :
          {r : Option ℕ × Kernel M}
          → Scheduled (preempted k c) r
          → Nearer j c (record r.1 { current = r.0 })
      answer (idle h) = absurd (h j jl still)
      answer (turn i il r near) = elim (Bool-cases (i == j)) [
        | inl e ↦ now _ (ap some (ground arith))
        | inr e ↦
            let differ : i ≢ j = ground arith in
            soon _ i refl il (length-set _ i _ ∙ length-set _ c _ ∙ size)
              (runnable-with_proc (preempted k c) i j _
                (omega (arith, length-set k.table c _, size)) (λ same. absurd (differ same)) still)
              (gap_lt c i j cl il jl differ (
                subst (λ st. gap st i ≤ gap st j) (start_of-current (preempted k c) c cur)
                  (near j jl still)))
      ]

  -- The tick in front of the choice leaves a runnable process runnable.
  timer_tick_runnable :
      (k : Kernel M) (j : ℕ)
      → (proc k j).state ≡ p_runnable
      → (proc (timer_tick k) j).state ≡ p_runnable
  unfolding timer_tick proc_wakeup
  timer_tick_runnable k j = stays _ k.table j
    where
      stays :
          (time : ℕ) (ps : List Proc) (j : ℕ)
          → (get_or ps j no_proc).state ≡ p_runnable
          → (get_or (map (woken time) ps) j no_proc).state ≡ p_runnable
      stays time [] j ready = ready
      stays time (p ∷ ps) zero ready = rw ready refl
      stays time (p ∷ ps) (suc j) ready = stays time ps j ready

  timer_tick_current : (k : Kernel M) → (timer_tick k).current ≡ k.current
  unfolding timer_tick proc_wakeup
  timer_tick_current k = refl

  -- In a consistent table the interrupted process is running, so that it is preempted.
  timer_interrupt-preempt :
      (k : Kernel M) (c : ℕ)
      → IsConsistent k
      → k.current ≡ some c
      → timer_interrupt k ≡ preempt (timer_tick k) c
  unfolding timer_interrupt
  timer_interrupt-preempt k c v cur =
      let cur' : (timer_tick k).current ≡ some c = timer_tick_current k ∙ cur in
      let runs : is_running (proc (timer_tick k) c).state ≡ true =
        ap is_running ((timer_tick-IsConsistent k v).runs c cur') in
      interrupted (timer_tick k) (timer_tick k).current cur' runs
    where
      interrupted :
          (k' : Kernel M) (o : Option ℕ)
          → o ≡ some c
          → is_running (proc k' c).state ≡ true
          → elim o as (λ _. Kernel M) [
            | none ↦ k'
            | some i ↦ if is_running (proc k' i).state then preempt k' i else k'
          ]
            ≡ preempt k' c
      interrupted k' o e r = rw (e, r) refl

  timer_interrupt-Nearer :
      (k : Kernel M) (c j : ℕ)
      → IsConsistent k
      → k.current ≡ some c
      → j < nproc
      → (proc k j).state ≡ p_runnable
      → Nearer j c (timer_interrupt k)
  timer_interrupt-Nearer k c j v cur jl ready =
      let w = timer_tick-IsConsistent k v in
      subst (Nearer j c) (sym (timer_interrupt-preempt k c v cur)) (
        preempt-Nearer (timer_tick k) c j (timer_tick_current k ∙ cur) (subst IsPlace cur v.placed)
          w.size jl (timer_tick_runnable k j ready))

  -- From the process that is running, `b` interrupts are enough to reach `j`, if it is ready and
  -- has its turn so soon.
  abbrev Reaches : ℕ → ℕ → Kernel M → Type 0
  Reaches b j k =
      (c : ℕ)
      → IsConsistent k
      → k.current ≡ some c
      → (proc k j).state ≡ p_runnable
      → gap (some c) j ≤ b
      → (n : ℕ) × (n ≤ b) × ((timer_interrupts n k).current ≡ some j)

  Reaches-suc :
      (b : ℕ) (k : Kernel M) (c j : ℕ)
      → IsConsistent k
      → gap (some c) j ≤ suc b
      → Reaches b j (timer_interrupt k)
      → Nearer j c (timer_interrupt k)
      → (n : ℕ) × (n ≤ suc b) × ((timer_interrupts n k).current ≡ some j)
  unfolding timer_interrupts
  Reaches-suc b k c j v le again (now _ e) = (1, omega arith, e)
  Reaches-suc b k c j v le again (soon _ i e il size r lt) =
      let (n, small, e') = again i (timer_interrupt-IsConsistent k v) e r (omega arith) in
      (suc n, omega arith, e')

  timer_interrupts-Reaches : (b : ℕ) (k : Kernel M) (j : ℕ) → j < nproc → Reaches b j k
  timer_interrupts-Reaches zero k j jl c v cur ready le = absurd (omega arith)
  timer_interrupts-Reaches (suc b) k j jl c v cur ready le =
      Reaches-suc b k c j v le (timer_interrupts-Reaches b (timer_interrupt k) j jl)
        (timer_interrupt-Nearer k c j v cur jl ready)

  -- No process starves: from a consistent table in which a process is running, a runnable process
  -- is the running one after at most NPROC timer interrupts, where each of them counts the tick,
  -- wakes the sleepers whose time has come, and preempts the process that was chosen before.
  pub timer_interrupts-current :
      (k : Kernel M) (c j : ℕ)
      → IsConsistent k
      → k.current ≡ some c
      → j < nproc
      → (proc k j).state ≡ p_runnable
      → (n : ℕ) × (n ≤ nproc) × ((timer_interrupts n k).current ≡ some j)
  timer_interrupts-current k c j v cur jl ready =
      timer_interrupts-Reaches nproc k j jl c v cur ready
        (let cl : c < nproc = subst IsPlace cur v.placed in omega arith)
