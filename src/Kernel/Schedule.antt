-- ===== src/Kernel/Schedule.antt =====
-- The scheduler of NanoBoot/kernel/proc.c takes turns: the search goes round the table, and a
-- process that is ready comes nearer with each choice of another.
use shellforge.Prelude.{
  ℕ, zero, suc, ◌+◌, ◌-◌, ◌%◌, ◌≤◌, ◌<◌, ◌≡◌, refl, ap, subst, ◌≢◌, inl, inr, true, false,
  Bool-cases, ltb, ltb→lt, ◌==◌, Option, none, some, List, get_or, arith,
}
use shellforge.Kernel.Proc.{
  nproc, ProcState, p_runnable, p_running, Proc, Kernel, no_proc, is_runnable, slot_after,
  next_runnable, proc, with_proc, start_of, proc_schedule,
}

abbrev IsReady : List Proc → ℕ → Type 0
IsReady ps i = (get_or ps i no_proc).state ≡ p_runnable

is_runnable→ready : (s : ProcState) → is_runnable s ≡ true → s ≡ p_runnable
is_runnable→ready s h =
    elim s as (λ s. is_runnable s ≡ true → s ≡ p_runnable) [ p_runnable ↦ λ _. refl | _ ↦ λ h. cc ]
      h

not_ready : (s : ProcState) → is_runnable s ≡ false → s ≢ p_runnable
not_ready s h e = cc (h, ap is_runnable e)

from : (P : ℕ → Type 0) (n : ℕ) → P n → (m : ℕ) → n ≤ m → (n + 1 ≤ m → P m) → P m
from P n p m le f = elim (Bool-cases (n == m)) [
  | inl e ↦ let same : n ≡ m = ground arith in subst P same p
  | inr e ↦ f (ground arith)
]

-- What the search finds among the places from `n` to `n + fuel`.
data Found (ps : List Proc) (start : Option ℕ) (n fuel : ℕ) : Option ℕ → Type 0 where
  nobody :
      ((m : ℕ) → n ≤ m → m < n + fuel → (get_or ps (slot_after start m) no_proc).state ≢ p_runnable)
      → Found ps start n fuel none
  first :
      (m : ℕ)
      → n ≤ m
      → m < n + fuel
      → IsReady ps (slot_after start m)
      → ((j : ℕ) → n ≤ j → j < m → (get_or ps (slot_after start j) no_proc).state ≢ p_runnable)
      → Found ps start n fuel (some (slot_after start m))

next_runnable-Found :
    (ps : List Proc) (start : Option ℕ) (n fuel : ℕ)
    → Found ps start n fuel (next_runnable ps start fuel n)
unfolding next_runnable
next_runnable-Found ps start n zero = nobody (λ m a b. absurd (omega arith))
next_runnable-Found ps start n (suc fuel) =
    elim (Bool-cases (is_runnable (get_or ps (slot_after start n) no_proc).state)) [
      | inl e ↦ rw e (
          first n (omega arith) (omega arith) (is_runnable→ready _ e)
            (λ j a b. absurd (omega arith)))
      | inr e ↦ rw e (later (next_runnable-Found ps start (n + 1) fuel) (not_ready _ e))
    ]
  where
    later :
        {o : Option ℕ}
        → Found ps start (n + 1) fuel o
        → (get_or ps (slot_after start n) no_proc).state ≢ p_runnable
        → Found ps start n (suc fuel) o
    later (nobody h) ne = nobody (λ m a b.
        from (λ m. (get_or ps (slot_after start m) no_proc).state ≢ p_runnable) n ne m a
          (λ c. h m c (omega arith)))
    later (first m a b r h) ne = first m (omega arith) (omega arith) r (λ j c d.
        from (λ j. (get_or ps (slot_after start j) no_proc).state ≢ p_runnable) n ne j c
          (λ c. h j c d))

-- How many turns after the slot `start` the slot `i` has its own, from 1 on.
abbrev pub gap : Option ℕ → ℕ → ℕ
gap none i = i + 1
gap (some s) i = (nproc + i - s - 1) % nproc + 1

-- A slot of the table, or none yet.
abbrev pub IsPlace : Option ℕ → Type 0
IsPlace none = Unit
IsPlace (some s) = s < nproc

gap_le :
    (start : Option ℕ)
    → IsPlace start
    → (i : ℕ) → i < nproc
    → (1 ≤ gap start i) × (gap start i ≤ nproc)
gap_le none h i lt = (omega arith, omega arith)
gap_le (some s) h i lt = (omega arith, omega arith)

slot_after-gap :
    (start : Option ℕ) → IsPlace start → (i : ℕ) → i < nproc → slot_after start (gap start i) ≡ i
slot_after-gap none h i lt = omega arith
slot_after-gap (some s) h i lt = omega arith

slot_after-lt : (start : Option ℕ) (m : ℕ) → slot_after start m < nproc
slot_after-lt none m = omega arith
slot_after-lt (some s) m = omega arith

gap-turn :
    (start : Option ℕ)
    → IsPlace start
    → (m : ℕ) → 1 ≤ m
    → m ≤ nproc
    → gap start (slot_after start m) ≡ m
gap-turn none h m a b = omega arith
gap-turn (some s) h m a b = omega arith

module _ {M : Type 0} where
  abbrev pub started : ℕ → Kernel M → Kernel M
  started i k =
      with_proc i (record (proc k i) { state = p_running }) (record k { last_slot = some i })

  -- What the scheduler answers: no process is ready, or it is the turn of the ready process that
  -- comes first after the start.
  pub data Scheduled (k : Kernel M) : Option ℕ × Kernel M → Type 0 where
    idle : ((i : ℕ) → i < nproc → (proc k i).state ≢ p_runnable) → Scheduled k (none, k)
    turn :
        (i : ℕ)
        → i < nproc
        → (proc k i).state ≡ p_runnable
        → ((j : ℕ)
            → j < nproc
            → (proc k j).state ≡ p_runnable
            → gap (start_of k) i ≤ gap (start_of k) j)
        → Scheduled k (some i, started i k)

  -- For every state of the table, `proc_schedule` returns NULL and changes nothing, and then no
  -- process is runnable, or it starts the runnable process that comes first round the table after
  -- the slot it starts at. The hypothesis is that this slot, if there is one, is in the table.
  pub proc_schedule-Scheduled :
      (k : Kernel M) → IsPlace (start_of k) → Scheduled k (proc_schedule k)
  unfolding proc_schedule
  proc_schedule-Scheduled k place = answer (next_runnable-Found k.table (start_of k) 1 nproc)
    where
      ready_at :
          (i : ℕ)
          → i < nproc
          → (proc k i).state ≡ p_runnable
          → IsReady k.table (slot_after (start_of k) (gap (start_of k) i))
      ready_at i lt r = rw (slot_after-gap (start_of k) place i lt) r

      answer :
          {o : Option ℕ}
          → Found k.table (start_of k) 1 nproc o
          → Scheduled k (elim o [ none ↦ (none, k) | some i ↦ (some i, started i k) ])
      answer (nobody h) = idle (λ i lt r.
          let (low, high) = gap_le (start_of k) place i lt in
          h (gap (start_of k) i) low (omega arith) (ready_at i lt r))
      answer (first m low high r h) =
          turn (slot_after (start_of k) m) (slot_after-lt (start_of k) m) r (λ j lt ready.
            let e = gap-turn (start_of k) place m low (omega arith) in
            let (one, _) = gap_le (start_of k) place j lt in
            rw e (elim (Bool-cases (ltb (gap (start_of k) j) m)) [
              | inl e ↦ absurd (h (gap (start_of k) j) one (ltb→lt _ _ e) (ready_at j lt ready))
              | inr e ↦ ground arith
            ]))
