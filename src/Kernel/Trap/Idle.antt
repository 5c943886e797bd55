-- ===== src/Kernel/Trap/Idle.antt =====
-- The idle loop of `trap_handler` in NanoBoot/kernel/trap.c ends, if a process sleeps until some tick.
use shellforge.Prelude.{
  ℕ, zero, suc, ◌+◌, ◌%◌, ◌^◌, ◌≤◌, ◌<◌, ◌≡◌, ◌≢◌, refl, sym, ap, subst, ◌∙◌, ◌⊎◌, inl, inr, false,
  Bool-cases, Option, none, some, Option-cases, option-intro, List, [], ◌∷◌, map, leb, length, ◌==◌,
  get_or, arith,
}
use shellforge.Kernel.Proc.{
  nproc, p_runnable, p_sleeping, Proc, no_proc, Kernel, proc, woken, reschedule, proc_wakeup,
  timer_tick, start_of,
}
use shellforge.Kernel.Schedule.{IsPlace, Scheduled, idle, turn, proc_schedule-Scheduled}
use shellforge.Kernel.Running.{IsConsistent}
use shellforge.Kernel.Steps.{timer_tick-IsConsistent}
use shellforge.Kernel.History.{idle_round, idle_round-IsConsistent}
use shellforge.Kernel.Trap.{idle_loop}

get_or-map :
    (f : Proc → Proc) (ps : List Proc) (i : ℕ) (d : Proc)
    → i < length ps
    → get_or (map f ps) i d ≡ f (get_or ps i d)
get_or-map f [] i d h = absurd (omega arith)
get_or-map f (p ∷ ps) zero d h = refl
get_or-map f (p ∷ ps) (suc i) d h = get_or-map f ps i d (omega arith)

-- A process that sleeps until tick `w`.
abbrev pub Sleeps : ℕ → Proc → Type 0
Sleeps w p = (p.state ≡ p_sleeping) × (p.wake_tick ≡ w)

-- A tick wakes it when its time has come, and does not change it before.
woken-cases :
    (now w : ℕ) (p : Proc)
    → Sleeps w p
    → 0 < w
    → ((w ≤ now) × ((woken now p).state ≡ p_runnable)) ⊎ ((now < w) × Sleeps w (woken now p))
woken-cases now w p (s, e) some_tick =
    let no : (w == 0) ≡ false = ground arith in
    elim (Bool-cases (leb w now)) [
      | inl t ↦ inl (ground arith, rw (s, e, no, t) refl)
      | inr f ↦ inr (ground arith, rw (s, e, no, f) (refl, refl))
    ]

some_is_none : {i : ℕ} → none ≢ some i
some_is_none e = cc

module _ {M : Type 0} where
  -- The scheduler has chosen a process, or nobody was ready and nothing has changed.
  reschedule-cases :
      (k : Kernel M)
      → IsPlace (start_of k)
      → ((i : ℕ) × ((reschedule k).current ≡ some i))
        ⊎ ((reschedule k ≡ record k { current = none })
            × ((i : ℕ) → i < nproc → (proc k i).state ≢ p_runnable))
  unfolding reschedule
  reschedule-cases k place = answer (proc_schedule-Scheduled k place)
    where
      answer :
          {r : Option ℕ × Kernel M}
          → Scheduled k r
          → ((i : ℕ) × (r.0 ≡ some i))
            ⊎ ((record r.1 { current = r.0 } ≡ record k { current = none })
                × ((i : ℕ) → i < nproc → (proc k i).state ≢ p_runnable))
      answer (idle h) = inr (refl, h)
      answer (turn i il ready near) = inl (i, refl)

  start_of-none : (k : Kernel M) → k.current ≡ none → start_of k ≡ k.last_slot
  start_of-none k e =
      option-intro (λ r. r ≡ k.last_slot) k.current (λ _. refl)
        (λ i e'. absurd (some_is_none (sym e ∙ e')))

  idle_loop-some : (n : ℕ) (k : Kernel M) (i : ℕ) → k.current ≡ some i → idle_loop n k ≡ some k
  unfolding idle_loop
  idle_loop-some zero k i e =
      option-intro (λ r. r ≡ some k) k.current (λ no. absurd (some_is_none (sym no ∙ e)))
        (λ _ _. refl)
  idle_loop-some (suc n) k i e =
      option-intro (λ r. r ≡ some k) k.current (λ no. absurd (some_is_none (sym no ∙ e)))
        (λ _ _. refl)

  tick_proc :
      (k : Kernel M) (i : ℕ)
      → i < length k.table
      → proc (timer_tick k) i ≡ woken ((k.ticks + 1) % 2 ^ 64) (proc k i)
  unfolding timer_tick proc_wakeup
  tick_proc k i h = get_or-map (woken ((k.ticks + 1) % 2 ^ 64)) k.table i no_proc h

  round-none :
      (n : ℕ) (k : Kernel M)
      → k.current ≡ none
      → (idle_round k ≡ reschedule (timer_tick k))
        × (idle_loop (suc n) k ≡ idle_loop n (idle_round k))
  unfolding idle_loop idle_round
  round-none n k e = (
    option-intro (λ r. r ≡ reschedule (timer_tick k)) k.current (λ _. refl)
        (λ i e'. absurd (some_is_none (sym e ∙ e'))),
    option-intro (λ r. r ≡ idle_loop n (idle_round k)) k.current (λ _. refl)
        (λ i e'. absurd (some_is_none (sym e ∙ e'))),
  )

  tick_ticks : (k : Kernel M) → (timer_tick k).ticks ≡ (k.ticks + 1) % 2 ^ 64
  unfolding timer_tick proc_wakeup
  tick_ticks k = refl

  tick_current :
      (k : Kernel M)
      → ((timer_tick k).current ≡ k.current) × ((timer_tick k).last_slot ≡ k.last_slot)
  unfolding timer_tick proc_wakeup
  tick_current k = (refl, refl)

  -- Where a process sleeps until tick `w` and the tick count does not wrap before, the idle loop
  -- ends after at most `w - ticks` rounds, with a process to run.
  pub idle_loop-ends :
      (n w i : ℕ) (k : Kernel M)
      → IsConsistent k
      → i < nproc
      → Sleeps w (proc k i)
      → k.ticks < w
      → w ≤ k.ticks + n
      → k.ticks + n < 2 ^ 64
      → (k' : Kernel M) × (idle_loop n k ≡ some k') × (k'.current ≢ none)
  idle_loop-ends zero w i k v il sl before soon small = absurd (omega arith)
  idle_loop-ends (suc n) w i k v il sl before soon small = elim (Option-cases k.current) [
    | inr (j, e) ↦ (k, idle_loop-some (suc n) k j e, λ no. some_is_none (sym no ∙ e))
    | inl e ↦
        let (same, goes) = round-none n k e in
        let k₁ = timer_tick k in
        let place : IsPlace (start_of k₁) =
          subst IsPlace (sym (start_of-none k₁ ((tick_current k).0 ∙ e)))
            (timer_tick-IsConsistent k v).last in
        let now : k₁.ticks ≡ k.ticks + 1 = omega (arith, tick_ticks k) in
        elim (reschedule-cases k₁ place) [
          | inl (j, c) ↦ (
            reschedule k₁,
            goes ∙ ap (idle_loop n) same ∙ idle_loop-some n (reschedule k₁) j c,
            λ no. some_is_none (sym no ∙ c),
          )
          | inr (stays, nobody) ↦
              let wake : proc k₁ i ≡ woken k₁.ticks (proc k i) =
                tick_proc k i (omega (arith, v.size))
                ∙ ap (λ t. woken t (proc k i)) (sym (tick_ticks k)) in
              elim (woken-cases k₁.ticks w (proc k i) sl (omega arith)) [
                | inl (_, r) ↦ absurd (nobody i il (ap (λ p. p.state) wake ∙ r))
                | inr (later, sl') ↦
                    let rest : Kernel M = record k₁ { current = none } in
                    let (k', run, awake) =
                      idle_loop-ends n w i rest
                        (subst IsConsistent (same ∙ stays) (idle_round-IsConsistent k v)) il
                        (subst (Sleeps w) (sym wake) sl') later (omega (arith, now))
                        (omega (arith, now)) in
                    (k', goes ∙ ap (idle_loop n) (same ∙ stays) ∙ run, awake)
              ]
        ]
  ]
