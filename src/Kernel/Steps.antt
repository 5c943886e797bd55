-- ===== src/Kernel/Steps.antt =====
-- The functions of NanoBoot/kernel/proc.c keep `current_proc` at the process that runs.
use mathlib.Core.Option
use shellforge.Prelude.{
  ℕ, zero, suc, ◌≡◌, refl, ap, subst, ◌∙◌, ◌≢◌, inl, inr, Bool, true, not, ◌&&◌, leb, ◌==◌,
  if-intro, get_or, length-set, Option, none, some, Option-cases, List, [], ◌∷◌, map, length-map,
  arith, Bytes,
}
use shellforge.Kernel.Proc.{
  ProcState, p_unused, p_runnable, p_running, p_zombie, Trapframe, Proc, Kernel, no_proc, is_unused,
  is_sleeping, first_slot, proc, with_proc, reschedule, preempt, proc_sleep, woken, proc_wakeup,
  timer_tick,
}
use shellforge.Kernel.Lifecycle.{
  Machine, fill, proc_create_init, fork_into, proc_fork, complete_wait, leave, proc_exit, proc_wait,
  reap, waits, is_zombie, zombie_of, child_of,
}
use shellforge.Kernel.Running.{IsConsistent, state_at, handover, beside, Only, Only-same, set_cases}

abbrev Found : (Proc → Bool) → List Proc → Option ℕ → Type 0
Found test ps none = Unit
Found test ps (some i) = test (get_or ps i no_proc) ≡ true

Found-suc :
    (test : Proc → Bool) (p : Proc) (ps : List Proc) (o : Option ℕ)
    → Found test ps o
    → Found test (p ∷ ps) (Option.map suc o)
Found-suc test p ps none h = tt
Found-suc test p ps (some i) h = h

first_slot-Found : (test : Proc → Bool) (ps : List Proc) → Found test ps (first_slot test ps)
unfolding first_slot
first_slot-Found test [] = tt
first_slot-Found test (p ∷ ps) =
    if-intro (Found test (p ∷ ps)) (test p) (λ e. e)
      (λ _. Found-suc test p ps (first_slot test ps) (first_slot-Found test ps))

pub unused_stops : (s : ProcState) → is_unused s ≡ true → s ≢ p_running
unused_stops s h e = cc (h, ap is_unused e)

zombie_stops : (s : ProcState) → is_zombie s ≡ true → s ≢ p_running
zombie_stops s h e = cc (h, ap is_zombie e)

sleeping_stops : (s : ProcState) → is_sleeping s ≡ true → s ≢ p_running
sleeping_stops s h e = cc (h, ap is_sleeping e)

and_left : (a b : Bool) → (a && b) ≡ true → a ≡ true
and_left a b h = ground arith

and_right : (a b : Bool) → (a && b) ≡ true → b ≡ true
and_right a b h = ground arith

-- A tick neither starts nor stops the process that runs.
woken_running :
    (now : ℕ) (p : Proc)
    → (((woken now p).state ≡ p_running) → p.state ≡ p_running)
      × ((p.state ≡ p_running) → (woken now p).state ≡ p_running)
woken_running now p =
    if-intro
      (λ (q : Proc).
        ((q.state ≡ p_running) → p.state ≡ p_running)
        × ((p.state ≡ p_running) → q.state ≡ p_running))
      (is_sleeping p.state && (not (p.wake_tick == 0) && leb p.wake_tick now))
      (λ asleep. (λ e. cc, λ e. absurd (sleeping_stops p.state (and_left _ _ asleep) e)))
      (λ _. (λ e. e, λ e. e))

map-woken :
    (now : ℕ) (ps : List Proc) (i : ℕ)
    → ((state_at (map (woken now) ps) i ≡ p_running) → state_at ps i ≡ p_running)
      × ((state_at ps i ≡ p_running) → state_at (map (woken now) ps) i ≡ p_running)
map-woken now [] i = (λ e. e, λ e. e)
map-woken now (p ∷ ps) zero = woken_running now p
map-woken now (p ∷ ps) (suc i) = map-woken now ps i

module _ {M : Type 0} where
  pub timer_tick-IsConsistent : (k : Kernel M) → IsConsistent k → IsConsistent (timer_tick k)
  unfolding timer_tick proc_wakeup
  timer_tick-IsConsistent k v = record {
    size = length-map _ k.table ∙ v.size;
    placed = v.placed;
    last = v.last;
    only = λ i e. v.only i ((map-woken _ k.table i).0 e);
    runs = λ i e. (map-woken _ k.table i).1 (v.runs i e);
  }

  pub proc_sleep-IsConsistent :
      (n : ℕ) (k : Kernel M) → IsConsistent k → IsConsistent (proc_sleep n k)
  unfolding proc_sleep
  proc_sleep-IsConsistent n k v = elim (Option-cases k.current) [
    | inl e ↦ rw (e, proc_sleep) v
    | inr (c, e) ↦
        rw (e, proc_sleep)
          (if-intro IsConsistent (n == 0) (λ _. v) (λ _. handover k c _ v e (λ x. cc)))
  ]

  pub preempt-IsConsistent :
      (k : Kernel M) (c : ℕ) → IsConsistent k → k.current ≡ some c → IsConsistent (preempt k c)
  unfolding preempt reschedule
  preempt-IsConsistent k c v e = handover k c _ v e (λ x. cc)

  -- The process that runs is changed, and goes on.
  pub running_on :
      (k : Kernel M) (c : ℕ) (p : Proc)
      → IsConsistent k
      → k.current ≡ some c
      → p.state ≡ (proc k c).state
      → IsConsistent (with_proc c p k)
  running_on k c p v cur same = record {
    size = length-set k.table c p ∙ v.size;
    placed = v.placed;
    last = v.last;
    only = λ j e. cur ∙ Only-same k.table c p (subst (λ o. Only o k.table) cur v.only) j e;
    runs = λ j e. elim (set_cases k.table c j p) [
      | inl (_, s) ↦ s ∙ same ∙ v.runs c cur
      | inr s ↦ s ∙ v.runs j e
    ];
  }

  complete_wait-IsConsistent :
      (k : Kernel M) (i j : ℕ)
      → IsConsistent k
      → waits (proc k j) ≡ true
      → IsConsistent (complete_wait i j k)
  unfolding complete_wait
  complete_wait-IsConsistent k i j v w =
      let b =
        beside k j (record (proc k j) { state = p_runnable }) v (sleeping_stops _ (and_left _ _ w))
          (λ e. cc) in
      record { size = b.size; placed = b.placed; last = b.last; only = b.only; runs = b.runs }

module _ {M : Type 0} (machine : Machine M) where
  leaving :
      (k : Kernel M) (m : M) (i : ℕ) (p : Proc)
      → IsConsistent k
      → k.current ≡ some i
      → p.state ≢ p_running
      → IsConsistent (reschedule (with_proc i p (record k { memory = m })))
  leaving k m i p v e ne =
      handover (record k { memory = m }) i p
        (record { size = v.size; placed = v.placed; last = v.last; only = v.only; runs = v.runs }) e
        ne

  leave-IsConsistent :
      (k : Kernel M) (i : ℕ)
      → IsConsistent k
      → k.current ≡ some i
      → IsConsistent (reschedule (leave machine i k))
  unfolding leave complete_wait
  leave-IsConsistent k i v e = elim (Option-cases (proc k i).parent) [
    | inl none_is ↦ rw (none_is, leave) (leaving k _ i _ v e (λ x. cc))
    | inr (j, parent) ↦
        rw (parent, leave)
          (if-intro (λ (k' : Kernel M). IsConsistent (reschedule k')) (waits (proc k j))
            (λ w.
              leaving (complete_wait i j k) _ i
                (record (proc k i) { pagetable = none; state = p_unused; pid = 0; parent = none })
                (complete_wait-IsConsistent k i j v w) e (λ x. cc))
            (λ _. handover k i (record (proc k i) { state = p_zombie }) v e (λ x. cc)))
  ]

  pub proc_exit-IsConsistent :
      (status : ℕ) (k : Kernel M) → IsConsistent k → IsConsistent (proc_exit machine status k)
  unfolding proc_exit
  proc_exit-IsConsistent status k v = elim (Option-cases k.current) [
    | inl e ↦ rw (e, proc_exit) v
    | inr (c, e) ↦
        rw (e, proc_exit)
          (leave-IsConsistent (with_proc c (record (proc k c) { exit_status = status }) k) c
            (running_on k c (record (proc k c) { exit_status = status }) v e refl) e)
  ]

  fill-IsConsistent :
      (k : Kernel M) (i : ℕ) (p : Proc) (r : Option ℕ × M) (tf : Trapframe)
      → IsConsistent k
      → is_unused (proc k i).state ≡ true
      → p.state ≢ p_running
      → IsConsistent (fill machine i p r tf k).1
  unfolding fill
  fill-IsConsistent k i p (none, m) tf v u ne =
      let b =
        beside k i (record p { pagetable = none; state = p_unused }) v (unused_stops _ u)
          (λ e. cc) in
      record { size = b.size; placed = b.placed; last = b.last; only = b.only; runs = b.runs }
  fill-IsConsistent k i p (some pt, m) tf v u ne =
      let b = beside k i (record p { pagetable = some pt; tf = i }) v (unused_stops _ u) ne in
      record { size = b.size; placed = b.placed; last = b.last; only = b.only; runs = b.runs }

  unused_at :
      (k : Kernel M) (i : ℕ)
      → first_slot (λ p. is_unused p.state) k.table ≡ some i
      → is_unused (proc k i).state ≡ true
  unused_at k i e =
      subst (Found (λ p. is_unused p.state) k.table) e
        (first_slot-Found (λ p. is_unused p.state) k.table)

  pub proc_create_init-IsConsistent :
      (image : Bytes) (k : Kernel M)
      → IsConsistent k
      → IsConsistent (proc_create_init machine image k).1
  unfolding proc_create_init
  proc_create_init-IsConsistent image k v =
      elim (Option-cases (first_slot (λ p. is_unused p.state) k.table)) [
        | inl e ↦ rw (e, proc_create_init) v
        | inr (i, e) ↦
            rw (e, proc_create_init)
              (fill-IsConsistent k i _ (machine.vm_create_user k.memory image i) _ v
                (unused_at k i e) (λ x. cc))
      ]

  pub proc_fork-IsConsistent :
      (tf : Trapframe) (k : Kernel M) → IsConsistent k → IsConsistent (proc_fork machine tf k).1
  unfolding proc_fork fork_into
  proc_fork-IsConsistent tf k v = elim (Option-cases k.current) [
    | inl e ↦ rw (e, proc_fork) v
    | inr (c, e) ↦ elim (Option-cases (first_slot (λ p. is_unused p.state) k.table)) [
      | inl none_is ↦ rw (e, none_is, proc_fork) v
      | inr (i, free) ↦
          rw (e, free, proc_fork)
            (fill-IsConsistent k i _ (machine.vm_clone_user k.memory i c) _ v (unused_at k i free)
              (λ x. cc))
    ]
  ]

  reap-IsConsistent :
      (k : Kernel M) (i c : ℕ)
      → IsConsistent k
      → zombie_of i (proc k c) ≡ true
      → IsConsistent (reap machine c k)
  reap-IsConsistent k i c v z =
      let b =
        beside k c
          (record (proc k c) { pagetable = none; state = p_unused; pid = 0; parent = none }) v
          (zombie_stops _ (and_right _ _ z)) (λ e. cc) in
      record { size = b.size; placed = b.placed; last = b.last; only = b.only; runs = b.runs }

  pub proc_wait-IsConsistent :
      (k : Kernel M) → IsConsistent k → IsConsistent (proc_wait machine k).2
  unfolding proc_wait
  proc_wait-IsConsistent k v = elim (Option-cases k.current) [
    | inl e ↦ rw (e, proc_wait) v
    | inr (i, e) ↦ elim (Option-cases (first_slot (zombie_of i) k.table)) [
      | inr (c, z) ↦
          rw (e, z, proc_wait)
            (reap-IsConsistent k i c v
              (subst (Found (zombie_of i) k.table) z (first_slot-Found (zombie_of i) k.table)))
      | inl no_zombie ↦ elim (Option-cases (first_slot (child_of i) k.table)) [
        | inl no_child ↦ rw (e, no_zombie, no_child, proc_wait) v
        | inr (c, child) ↦ rw (e, no_zombie, child, proc_wait) (handover k i _ v e (λ x. cc))
      ]
    ]
  ]
