-- ===== src/Shell/Jobs/Table.antt =====
-- The job table of src/jobs.c as a map from job numbers to jobs, and its invariant.
use shellforge.Prelude.{
  ℕ, zero, suc, ◌+◌, ◌<◌, ◌≡◌, refl, sym, ap, ◌∙◌, ◌≢◌, ◌⊎◌, inl, inr, Bool, true, Option, none,
  some, arith, ◌==◌, if◌then◌else◌, Option-cases, length, All, All-mono, replicate,
  length-replicate, All-replicate, Bytes,
}
use shellforge.Shell.Jobs.{
  Job, JobState, JobTable, max_jobs, free_slot, find_slot, on_slot, job_fill, is_free, in_group,
  job_add, job_remove, job_stop, job_continue, job_done, job_find, job_find_by_pgid, jobs_init,
}
use shellforge.Shell.Jobs.Slots.{
  update_first, job_of, Distinct, on_slot-find_slot, find_slot-update_first, length-update_first,
  All-update_first, Distinct-update_first, job_of-remove, job_of-add, Distinct-add, Full,
  find_slot-Full, written,
}

-- Each number in use is below the next one, and stands in one slot.
pub record IsValid (t : JobTable) : Type 0 where
  pub size : length t.jobs ≡ max_jobs
  pub below : All (λ j. j.job_id < t.next_job_id) t.jobs
  pub positive : 0 < t.next_job_id
  pub distinct : Distinct t.jobs

Distinct-replicate : (n : ℕ) → Distinct (replicate n free_slot)
Distinct-replicate zero = tt
Distinct-replicate (suc n) = (λ ne. absurd (ne refl), Distinct-replicate n)

pub jobs_init-IsValid : IsValid jobs_init
unfolding jobs_init
jobs_init-IsValid = record {
  size = length-replicate max_jobs free_slot;
  below = All-replicate (λ j. j.job_id < 1) max_jobs free_slot (omega arith);
  positive = omega arith;
  distinct = Distinct-replicate max_jobs;
}

-- A write that keeps a job's number, or frees its slot.
pub on_slot-IsValid :
    (test : Job → Bool) (f : Job → Job) (t : JobTable)
    → ((j : Job) → ((f j).job_id ≡ j.job_id) ⊎ ((f j).job_id ≡ 0))
    → IsValid t
    → IsValid (on_slot (find_slot test t.jobs) f t)
on_slot-IsValid test f t keep v = rw (on_slot-find_slot test f t) (record {
  size = length-update_first test f t.jobs ∙ v.size;
  below =
      All-update_first (λ j. j.job_id < t.next_job_id) test f t.jobs
        (λ j h. ground (arith, keep j, v.positive)) v.below;
  positive = v.positive;
  distinct = Distinct-update_first test f t.jobs keep v.distinct;
})

pub job_remove-IsValid : (t : JobTable) (id : ℕ) → IsValid t → IsValid (job_remove t id)
unfolding job_remove job_find
job_remove-IsValid t id = on_slot-IsValid (λ j. j.job_id == id) (λ _. free_slot) t (λ j. inr refl)

pub job_stop-IsValid : (t : JobTable) (g : ℕ) → IsValid t → IsValid (job_stop t g)
unfolding job_stop job_find_by_pgid
job_stop-IsValid t g = on_slot-IsValid (in_group g) _ t (λ j. inl refl)

pub job_continue-IsValid : (t : JobTable) (g : ℕ) → IsValid t → IsValid (job_continue t g).0
unfolding job_continue job_find_by_pgid
job_continue-IsValid t g = on_slot-IsValid (in_group g) _ t (λ j. inl refl)

pub job_done-IsValid : (t : JobTable) (g : ℕ) → IsValid t → IsValid (job_done t g)
unfolding job_done job_find_by_pgid
job_done-IsValid t g = on_slot-IsValid (in_group g) _ t (λ j. inl refl)

-- In a valid table `job_remove` takes out the job with that number, and no other. The numbers are
-- not 0, the mark of a free slot.
pub job_of-job_remove :
    (t : JobTable) (id k : ℕ)
    → IsValid t
    → id ≢ 0
    → k ≢ 0
    → job_of k (job_remove t id).jobs ≡ (if k == id then none else job_of k t.jobs)
unfolding job_remove job_find
job_of-job_remove t id k v i z =
    rw (on_slot-find_slot (λ j. j.job_id == id) (λ _. free_slot) t)
      (job_of-remove id k t.jobs i z v.distinct)

abbrev pub new_job : JobTable → ℕ → JobState → Bytes → Job
new_job t g st c = record { job_id = t.next_job_id; pgid = g; state = st; command = some c }

-- The result of an addition that finds a free slot.
pub record Adds (t : JobTable) (g : ℕ) (st : JobState) (c : Bytes) (r : Option ℕ × JobTable)
    : Type 0 where
  pub number : r.0 ≡ some t.next_job_id
  pub valid : IsValid r.1
  pub found :
      (k : ℕ)
      → k ≢ 0
      → job_of k r.1.jobs
        ≡ (if k == t.next_job_id then some (new_job t g st c) else job_of k t.jobs)

job_add-update_first :
    (t : JobTable) (g : ℕ) (st : JobState) (c : Bytes) (i : ℕ)
    → find_slot is_free t.jobs ≡ some i
    → job_add true t g st (some c) ≡ (
      some t.next_job_id,
      record t {
        next_job_id = t.next_job_id + 1;
        jobs = update_first is_free (λ _. new_job t g st c) t.jobs;
      },
    )
unfolding job_add job_fill
job_add-update_first t g st c i e =
    rw (e, job_add)
      (ap (λ js. (some t.next_job_id, record t { next_job_id = t.next_job_id + 1; jobs = js }))
        (ap (written (λ _. new_job t g st c) t.jobs) (sym e)
          ∙ find_slot-update_first is_free _ t.jobs))

-- For a valid table, where the `strdup` succeeds: with a free slot, the new job gets the next
-- number and is found by it, every other job is found as before, and the table is valid. With
-- none, the result is -1 and the table stays.
pub job_add_cases :
    (t : JobTable) (g : ℕ) (st : JobState) (c : Bytes)
    → IsValid t
    → Adds t g st c (job_add true t g st (some c))
      ⊎ (Full t.jobs × (job_add true t g st (some c) ≡ (none, t)))
job_add_cases t g st c v = elim (Option-cases (find_slot is_free t.jobs)) [
  | inl e ↦ inr (find_slot-Full t.jobs e, unfold job_add in rw (e, job_add))
  | inr (i, e) ↦ inl (
      rw (job_add-update_first t g st c i e) (record {
        number = refl;
        valid = record {
          size = length-update_first is_free _ t.jobs ∙ v.size;
          below =
              All-update_first (λ j. j.job_id < t.next_job_id + 1) is_free _ t.jobs
                (λ j h. omega arith) (All-mono (λ j h. omega arith) t.jobs v.below);
          positive = omega arith;
          distinct = Distinct-add (new_job t g st c) t.jobs v.below v.distinct;
        };
        found = λ k z. job_of-add (new_job t g st c) k i t.jobs z e v.below;
      }))
]
