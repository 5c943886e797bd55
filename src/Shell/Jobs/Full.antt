-- ===== src/Shell/Jobs/Full.antt =====
-- Histories of the job table of src/jobs.c: what src/main.c and src/executor.c do to it, in any order.
use shellforge.Prelude.{
  ℕ, ◌≡◌, refl, sym, ap, ◌≢◌, inl, inr, true, none, some, List, [], ◌∷◌, arith, All, All-mono,
  subst, Bytes,
}
use shellforge.Shell.Jobs.{
  Job, JobState, job_finished, JobTable, find_slot, on_slot, in_group, job_add, job_remove,
  job_stop, job_continue, job_done, job_find_by_pgid, jobs_init,
}
use shellforge.Shell.Jobs.Slots.{
  job_of, on_slot-find_slot, All-update_first, Full, Full-find_slot, job_of-update_first_self,
  job_of-update_first_other,
}
use shellforge.Shell.Jobs.Table.{
  IsValid, job_add_cases, jobs_init-IsValid, job_remove-IsValid, job_stop-IsValid,
  job_continue-IsValid, job_done-IsValid,
}

pub data JobEvent : Type 0 where
  adds : ℕ → JobState → Bytes → JobEvent
  removes stops continues finishes : ℕ → JobEvent

unfoldable pub apply : JobTable → JobEvent → JobTable
apply t (adds g st c) = (job_add true t g st (some c)).1
apply t (removes id) = job_remove t id
apply t (stops g) = job_stop t g
apply t (continues g) = (job_continue t g).0
apply t (finishes g) = job_done t g

unfoldable pub run : JobTable → List JobEvent → JobTable
run t [] = t
run t (e ∷ es) = run (apply t e) es

apply-IsValid : (t : JobTable) (e : JobEvent) → IsValid t → IsValid (apply t e)
unfolding apply
apply-IsValid t (adds g st c) v = elim (job_add_cases t g st c v) [
  | inl a ↦ a.valid
  | inr (_, e) ↦ subst IsValid (ap (λ r. r.1) (sym e)) v
]
apply-IsValid t (removes id) v = job_remove-IsValid t id v
apply-IsValid t (stops g) v = job_stop-IsValid t g v
apply-IsValid t (continues g) v = job_continue-IsValid t g v
apply-IsValid t (finishes g) v = job_done-IsValid t g v

run-IsValid : (t : JobTable) (es : List JobEvent) → IsValid t → IsValid (run t es)
unfolding run
run-IsValid t [] v = v
run-IsValid t (e ∷ es) v = run-IsValid (apply t e) es (apply-IsValid t e v)

-- After any history from `jobs_init`, with every `strdup` succeeding, the table has its 64 slots,
-- no number stands in two of them, and all numbers are below the next one to be given out.
pub run-jobs_init-IsValid : (es : List JobEvent) → IsValid (run jobs_init es)
run-jobs_init-IsValid es = run-IsValid jobs_init es jobs_init-IsValid

-- Every event but `job_remove`.
abbrev pub Keeps : JobEvent → Type 0
Keeps (removes id) = ⊥
Keeps _ = Unit

on_slot-Full :
    (g : ℕ) (f : Job → Job) (t : JobTable)
    → ((j : Job) → (f j).job_id ≡ j.job_id)
    → Full t.jobs
    → Full (on_slot (find_slot (in_group g) t.jobs) f t).jobs
on_slot-Full g f t keep h =
    rw (on_slot-find_slot (in_group g) f t)
      (All-update_first (λ j. j.job_id ≢ 0) (in_group g) f t.jobs (λ j ne. rw (keep j) ne) h)

add-Full :
    (t : JobTable) (g : ℕ) (st : JobState) (c : Bytes)
    → Full t.jobs
    → job_add true t g st (some c) ≡ (none, t)
unfolding job_add
add-Full t g st c h = rw (Full-find_slot t.jobs h, job_add)

apply-Full : (t : JobTable) (e : JobEvent) → Keeps e → Full t.jobs → Full (apply t e).jobs
unfolding apply job_stop job_continue job_done job_find_by_pgid
apply-Full t (adds g st c) k h = subst (λ r. Full r.1.jobs) (sym (add-Full t g st c h)) h
apply-Full t (removes id) k h = absurd k
apply-Full t (stops g) k h = on_slot-Full g _ t (λ j. refl) h
apply-Full t (continues g) k h = on_slot-Full g _ t (λ j. refl) h
apply-Full t (finishes g) k h = on_slot-Full g _ t (λ j. refl) h

-- Finished jobs keep their slots: once every slot is taken, every further addition fails and
-- leaves the table, whatever is added, stops, continues or finishes meanwhile, as long as no job
-- is removed.
pub job_add-run-Full :
    (t : JobTable) (es : List JobEvent) (g : ℕ) (st : JobState) (c : Bytes)
    → Full t.jobs
    → All Keeps es
    → job_add true (run t es) g st (some c) ≡ (none, run t es)
unfolding run
job_add-run-Full t [] g st c h k = add-Full t g st c h
job_add-run-Full t (e ∷ es) g st c h k =
    job_add-run-Full (apply t e) es g st c (apply-Full t e k.0 h) k.1

-- Where job `k` is of a process group and no other job is, `job_done` for that group marks job `k`
-- as finished and leaves every other job.
pub job_of-job_done :
    (t : JobTable) (g k : ℕ) {j : Job}
    → All (λ x. in_group g x ≡ true → x.job_id ≡ k) t.jobs
    → job_of k t.jobs ≡ some j
    → in_group g j ≡ true
    → (job_of k (job_done t g).jobs ≡ some (record j { state = job_finished }))
      × ((m : ℕ) → m ≢ k → job_of m (job_done t g).jobs ≡ job_of m t.jobs)
unfolding job_done job_find_by_pgid
job_of-job_done t g k {j} only h p = rw (on_slot-find_slot (in_group g) _ t) (
  job_of-update_first_self k (in_group g) _ t.jobs (λ x. refl) only h p,
  λ m ne.
      job_of-update_first_other m (in_group g) _ t.jobs (λ x. refl)
        (All-mono (λ x q e. ground (arith, q e)) t.jobs only),
)
