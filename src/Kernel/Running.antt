-- ===== src/Kernel/Running.antt =====
-- Which process runs, in proc.c of NanoBoot/kernel: the one that `current_proc` points at, and no other.
use shellforge.Prelude.{
  ℕ, zero, suc, ◌<◌, ◌≡◌, refl, sym, ap, subst, ◌∙◌, ◌≢◌, ◌⊎◌, inl, inr, Bool-cases, ◌==◌, length,
  set, get_or, length-set, get_or-set_self, get_or-set_ne, Option, none, some, Option-cases, List,
  [], ◌∷◌, arith,
}
use shellforge.Kernel.Proc.{
  nproc, ProcState, p_running, Proc, Kernel, no_proc, proc, with_proc, start_of, reschedule,
}
use shellforge.Kernel.Schedule.{IsPlace, Scheduled, idle, turn, proc_schedule-Scheduled}

abbrev pub state_at : List Proc → ℕ → ProcState
state_at ps i = (get_or ps i no_proc).state

-- No process runs but this one.
abbrev pub Only : Option ℕ → List Proc → Type 0
Only o ps = (i : ℕ) → state_at ps i ≡ p_running → o ≡ some i

pub set_cases :
    (ps : List Proc) (i j : ℕ) (p : Proc)
    → ((i ≡ j) × (state_at (set ps i p) j ≡ p.state)) ⊎ (state_at (set ps i p) j ≡ state_at ps j)
set_cases [] i j p = inr refl
set_cases (q ∷ ps) zero zero p = inl (refl, refl)
set_cases (q ∷ ps) zero (suc j) p = inr refl
set_cases (q ∷ ps) (suc i) zero p = inr refl
set_cases (q ∷ ps) (suc i) (suc j) p = elim (set_cases ps i j p) [
  | inl (e, s) ↦ inl (ap suc e, s)
  | inr s ↦ inr s
]

Only-set :
    (o : Option ℕ) (ps : List Proc) (i : ℕ) (p : Proc)
    → Only o ps
    → p.state ≢ p_running
    → Only o (set ps i p)
Only-set o ps i p h ne j e = elim (set_cases ps i j p) [
  | inl (_, s) ↦ absurd (ne (sym s ∙ e))
  | inr s ↦ h j (sym s ∙ e)
]

-- The process that runs stops.
Only-stop :
    (ps : List Proc) (c : ℕ) (p : Proc)
    → Only (some c) ps
    → c < length ps
    → p.state ≢ p_running
    → Only none (set ps c p)
Only-stop ps c p h lt ne j e = elim (Bool-cases (c == j)) [
  | inl t ↦
      let same : c ≡ j = ground arith in
      absurd (
        ne (
          sym (ap (λ q. q.state) (get_or-set_self ps c p no_proc lt))
          ∙ subst (λ x. state_at (set ps c p) x ≡ p_running) (sym same) e))
  | inr f ↦
      let differ : c ≢ j = ground arith in
      let there : some c ≡ some j =
        h j (sym (ap (λ q. q.state) (get_or-set_ne ps c j p no_proc differ)) ∙ e) in
      absurd (differ (ap (λ o. elim o as (λ _. ℕ) [ none ↦ c | some x ↦ x ]) there))
]

-- The process that runs goes on, with other fields.
pub Only-same : (ps : List Proc) (c : ℕ) (p : Proc) → Only (some c) ps → Only (some c) (set ps c p)
Only-same ps c p h j e = elim (set_cases ps c j p) [
  | inl (same, _) ↦ ap some same
  | inr s ↦ h j (sym s ∙ e)
]

module _ {M : Type 0} where
  -- A process runs exactly where `current_proc` points at it, in a table of NPROC slots.
  pub record IsConsistent (k : Kernel M) : Type 0 where
    pub size : length k.table ≡ nproc
    pub placed : IsPlace k.current
    pub last : IsPlace k.last_slot
    pub only : (i : ℕ) → (proc k i).state ≡ p_running → k.current ≡ some i
    pub runs : (i : ℕ) → k.current ≡ some i → (proc k i).state ≡ p_running

  start-IsPlace : (k : Kernel M) → IsPlace k.current → IsPlace k.last_slot → IsPlace (start_of k)
  start-IsPlace k p l = elim (Option-cases k.current) [
    | inl e ↦ rw e l
    | inr (c, e) ↦ rw e (subst IsPlace e p)
  ]

  pub reschedule-IsConsistent :
      (k : Kernel M)
      → length k.table ≡ nproc
      → IsPlace k.current
      → IsPlace k.last_slot
      → Only none k.table
      → IsConsistent (reschedule k)
  unfolding reschedule
  reschedule-IsConsistent k size placed last nobody =
      answer (proc_schedule-Scheduled k (start-IsPlace k placed last))
    where
      answer :
          {r : Option ℕ × Kernel M} → Scheduled k r → IsConsistent (record r.1 { current = r.0 })
      answer (idle h) = record {
        size = size;
        placed = tt;
        last = last;
        only = nobody;
        runs = λ i e. absurd cc;
      }
      answer (turn i il ready near) = record {
        size = length-set k.table i _ ∙ size;
        placed = il;
        last = il;
        only = λ j e. elim (set_cases k.table i j (record (proc k i) { state = p_running })) [
          | inl (same, _) ↦ ap some same
          | inr s ↦ absurd (cc (nobody j (sym s ∙ e)))
        ];
        runs = λ j e.
            let same : i ≡ j = cc in
            subst
              (λ x.
                state_at (set k.table i (record (proc k i) { state = p_running })) x ≡ p_running)
              same (ap (λ q. q.state) (get_or-set_self k.table i _ no_proc (omega (arith, size))));
      }

  -- The process that runs stops, and the scheduler chooses.
  pub handover :
      (k : Kernel M) (c : ℕ) (p : Proc)
      → IsConsistent k
      → k.current ≡ some c
      → p.state ≢ p_running
      → IsConsistent (reschedule (with_proc c p k))
  handover k c p v cur ne =
      let here : c < nproc = subst IsPlace cur v.placed in
      reschedule-IsConsistent (with_proc c p k) (length-set k.table c p ∙ v.size) v.placed v.last
        (Only-stop k.table c p (subst (λ o. Only o k.table) cur v.only) (omega (arith, v.size)) ne)

  -- A process that does not run is changed, and does not run then.
  pub beside :
      (k : Kernel M) (i : ℕ) (p : Proc)
      → IsConsistent k
      → (proc k i).state ≢ p_running
      → p.state ≢ p_running
      → IsConsistent (with_proc i p k)
  beside k i p v idle_there ne = record {
    size = length-set k.table i p ∙ v.size;
    placed = v.placed;
    last = v.last;
    only = Only-set k.current k.table i p v.only ne;
    runs = λ j e. elim (set_cases k.table i j p) [
      | inl (same, _) ↦
          absurd (idle_there (subst (λ x. state_at k.table x ≡ p_running) (sym same) (v.runs j e)))
      | inr s ↦ s ∙ v.runs j e
    ];
  }
