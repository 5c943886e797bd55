-- ===== src/Shell/Jobs/Valid.antt =====
-- The invariant of the job table of src/jobs.c, where the `strdup` of `job_add` may fail, and for the
-- job that `fg` of src/main.c continues.
use shellforge.Prelude.{
  ℕ, ◌+◌, ◌≡◌, refl, sym, ap, subst, inl, inr, Bool, true, false, none, some, Option-cases, arith,
  All-mono, Bytes, ◌==◌,
}
use shellforge.Shell.Jobs.{
  Job, JobState, JobTable, is_free, find_slot, on_slot, job_fill, job_add, job_find,
}
use shellforge.Shell.Jobs.Table.{IsValid, on_slot-IsValid, job_add_cases}
use shellforge.Shell.Token.{strdup}

raise-IsValid : (t : JobTable) → IsValid t → IsValid (record t { next_job_id = t.next_job_id + 1 })
raise-IsValid t v = record {
  size = v.size;
  below = All-mono (λ j h. omega arith) t.jobs v.below;
  positive = omega arith;
  distinct = v.distinct;
}

pub job_add-IsValid :
    (dup : Bool) (t : JobTable) (g : ℕ) (st : JobState) (c : Bytes)
    → IsValid t
    → IsValid (job_add dup t g st (some c)).1
unfolding job_add job_fill strdup
job_add-IsValid true t g st c v = elim (job_add_cases t g st c v) [
  | inl a ↦ a.valid
  | inr (_, e) ↦ subst IsValid (ap (λ r. r.1) (sym e)) v
]
job_add-IsValid false t g st c v = elim (Option-cases (find_slot is_free t.jobs)) [
  | inl e ↦ rw (e, job_add) v
  | inr (i, e) ↦
      rw (e, job_add)
        (raise-IsValid _ (
          subst
            (λ o.
              IsValid
                (on_slot o (λ j. record { job_id = 0; pgid = g; state = st; command = none }) t))
            e
            (on_slot-IsValid is_free
              (λ j. record { job_id = 0; pgid = g; state = st; command = none }) t (λ j. inr refl)
              v)))
]

-- A write to the job that `job_find` has found, which keeps its number.
pub job_find-IsValid :
    (t : JobTable) (id i : ℕ) (f : Job → Job)
    → ((j : Job) → (f j).job_id ≡ j.job_id)
    → job_find t id ≡ some i
    → IsValid t
    → IsValid (on_slot (some i) f t)
unfolding job_find
job_find-IsValid t id i f keep e v =
    subst (λ o. IsValid (on_slot o f t)) e
      (on_slot-IsValid (λ j. j.job_id == id) f t (λ j. inl (keep j)) v)
