-- ===== src/Shell/Jobs/Slots.antt =====
-- The searches of src/jobs.c, and a write through the pointer that they return, slot by slot.
use shellforge.Prelude.{
  ℕ, ◌<◌, ◌≡◌, refl, ap, ◌∙◌, ◌≢◌, ◌⊎◌, inl, inr, Bool, true, Option, none, some, List, [], ◌∷◌,
  arith, ◌==◌, if◌then◌else◌, Bool-cases, Option-cases, All-mono, get_or, set, length, All,
  if-intro,
}
use shellforge.Shell.Jobs.{Job, JobTable, free_slot, find_slot, on_slot, is_free}

-- Changes the first job that passes a test.
unfoldable pub update_first : (Job → Bool) → (Job → Job) → List Job → List Job
update_first test f [] = []
update_first test f (j ∷ js) =
    let rest = j ∷ update_first test f js in if test j then f j ∷ js else rest

abbrev pub written : (Job → Job) → List Job → Option ℕ → List Job
written f js none = js
written f js (some i) = set js i (f (get_or js i free_slot))

pub find_slot-update_first :
    (test : Job → Bool) (f : Job → Job) (js : List Job)
    → written f js (find_slot test js) ≡ update_first test f js
unfolding find_slot update_first
find_slot-update_first test f [] = refl
find_slot-update_first test f (j ∷ js) = ground (arith, find_slot-update_first test f js)

-- The job with number `k`, if a slot holds it.
unfoldable pub job_of : ℕ → List Job → Option Job
job_of k [] = none
job_of k (j ∷ js) = let later = job_of k js in if j.job_id == k then some j else later

-- No two slots hold one number, other than 0, the mark of a free slot.
abbrev pub Unused : ℕ → List Job → Type 0
Unused k = All (λ j. j.job_id ≢ k)

abbrev pub Distinct : List Job → Type 0
Distinct [] = Unit
Distinct (j ∷ js) = ((j.job_id ≢ 0) → Unused j.job_id js) × Distinct js

pub Unused-job_of : (k : ℕ) (js : List Job) → Unused k js → job_of k js ≡ none
unfolding job_of
Unused-job_of k [] h = refl
Unused-job_of k (j ∷ js) h = ground (arith, h.0, Unused-job_of k js h.1)

pub Unused-update_first :
    (k : ℕ) (test : Job → Bool) (f : Job → Job) (js : List Job)
    → ((j : Job) → j.job_id ≢ k → (f j).job_id ≢ k)
    → Unused k js
    → Unused k (update_first test f js)
unfolding update_first
Unused-update_first k test f [] keep h = tt
Unused-update_first k test f (j ∷ js) keep h =
    ground (arith, h.0, keep j h.0, Unused-update_first k test f js keep h.1)

on_slot-written :
    (o : Option ℕ) (f : Job → Job) (t : JobTable)
    → on_slot o f t ≡ record t { jobs = written f t.jobs o }
on_slot-written none f t = refl
on_slot-written (some i) f t = refl

-- A search and a write through its result change the first job that passes the test.
pub on_slot-find_slot :
    (test : Job → Bool) (f : Job → Job) (t : JobTable)
    → on_slot (find_slot test t.jobs) f t ≡ record t { jobs = update_first test f t.jobs }
on_slot-find_slot test f t =
    on_slot-written (find_slot test t.jobs) f t
    ∙ ap (λ js. record t { jobs = js }) (find_slot-update_first test f t.jobs)

pub length-update_first :
    (test : Job → Bool) (f : Job → Job) (js : List Job)
    → length (update_first test f js) ≡ length js
unfolding update_first
length-update_first test f [] = refl
length-update_first test f (j ∷ js) = ground (arith, length-update_first test f js)

pub All-update_first :
    (P : Job → Type 0) (test : Job → Bool) (f : Job → Job) (js : List Job)
    → ((j : Job) → P j → P (f j))
    → All P js
    → All P (update_first test f js)
unfolding update_first
All-update_first P test f [] keep h = tt
All-update_first P test f (j ∷ js) keep h =
    if-intro (All P) (test j) (λ _. (keep j h.0, h.1))
      (λ _. (h.0, All-update_first P test f js keep h.1))

-- A change that keeps the number of a job, or frees its slot, keeps the numbers distinct.
pub Distinct-update_first :
    (test : Job → Bool) (f : Job → Job) (js : List Job)
    → ((j : Job) → ((f j).job_id ≡ j.job_id) ⊎ ((f j).job_id ≡ 0))
    → Distinct js
    → Distinct (update_first test f js)
unfolding update_first
Distinct-update_first test f [] keep h = tt
Distinct-update_first test f (j ∷ js) keep h =
    if-intro Distinct (test j)
      (λ _.
        ((λ ne. elim (keep j) [ inl e ↦ rw e (h.0 (ground arith)) | inr z ↦ absurd (ne z) ]), h.1))
      (λ _. (
        (λ ne.
            All-update_first (λ x. x.job_id ≢ j.job_id) test f js (λ x u. ground (arith, keep x))
              (h.0 ne)),
        Distinct-update_first test f js keep h.1,
      ))

-- Another job is found as before.
pub job_of-update_first_other :
    (k : ℕ) (test : Job → Bool) (f : Job → Job) (js : List Job)
    → ((x : Job) → (f x).job_id ≡ x.job_id)
    → All (λ x. test x ≡ true → x.job_id ≢ k) js
    → job_of k (update_first test f js) ≡ job_of k js
unfolding update_first job_of
job_of-update_first_other k test f [] keep other = refl
job_of-update_first_other k test f (j ∷ js) keep other = elim (Bool-cases (test j)) [
  | inl e ↦ ground (arith, other.0 e, keep j)
  | inr e ↦ ground (arith, job_of-update_first_other k test f js keep other.1)
]

pub job_of-remove :
    (id k : ℕ) (js : List Job)
    → id ≢ 0
    → k ≢ 0
    → Distinct js
    → job_of k (update_first (λ j. j.job_id == id) (λ _. free_slot) js)
      ≡ (if k == id then none else job_of k js)
unfolding update_first job_of
job_of-remove id k [] i z d = ground arith
job_of-remove id k (j ∷ js) i z d = elim (Bool-cases (j.job_id == id)) [
  | inl e ↦
      let gone = Unused-job_of j.job_id js (d.0 (ground arith)) in
      let same : j.job_id ≡ id = ground arith in
      rw e (ground (arith, gone, ap (λ x. job_of x js) same))
  | inr e ↦ rw e (ground (arith, job_of-remove id k js i z d.1))
]

-- A new job in the first free slot.
pub job_of-add :
    (new : Job) (k i : ℕ) (js : List Job)
    → k ≢ 0
    → find_slot is_free js ≡ some i
    → All (λ j. j.job_id < new.job_id) js
    → job_of k (update_first is_free (λ _. new) js)
      ≡ (if k == new.job_id then some new else job_of k js)
unfolding update_first job_of find_slot
job_of-add new k i [] z f b = cc
job_of-add new k i (j ∷ js) z f b = elim (Bool-cases (j.job_id == 0)) [
  | inl e ↦ ground arith
  | inr e ↦ elim (Option-cases (find_slot is_free js)) [
    | inl g ↦ ground (arith, g)
    | inr (i', g) ↦ ground (arith, b.0, job_of-add new k i' js z g b.1)
  ]
]

pub Distinct-add :
    (new : Job) (js : List Job)
    → All (λ j. j.job_id < new.job_id) js
    → Distinct js
    → Distinct (update_first is_free (λ _. new) js)
unfolding update_first
Distinct-add new [] b d = tt
Distinct-add new (j ∷ js) b d =
    if-intro Distinct (is_free j) (λ _. ((λ ne. All-mono (λ x h. omega arith) js b.1), d.1))
      (λ e. (
        (λ ne.
            All-update_first (λ x. x.job_id ≢ j.job_id) is_free (λ _. new) js
              (λ x u. omega (arith, b.0)) (d.0 ne)),
        Distinct-add new js b.1 d.1,
      ))

-- No slot is free.
abbrev pub Full : List Job → Type 0
Full = All (λ j. j.job_id ≢ 0)

pub find_slot-Full : (js : List Job) → find_slot is_free js ≡ none → Full js
unfolding find_slot
find_slot-Full [] e = tt
find_slot-Full (j ∷ js) e = elim (Option-cases (find_slot is_free js)) [
  | inl g ↦ (ground arith, find_slot-Full js g)
  | inr (i, g) ↦ ground (arith, g)
]

pub Full-find_slot : (js : List Job) → Full js → find_slot is_free js ≡ none
unfolding find_slot
Full-find_slot [] h = refl
Full-find_slot (j ∷ js) h = ground (arith, h.0, Full-find_slot js h.1)

-- Where only job `k` passes the test, that job is changed.
pub job_of-update_first_self :
    (k : ℕ) (test : Job → Bool) (f : Job → Job) (js : List Job) {j : Job}
    → ((x : Job) → (f x).job_id ≡ x.job_id)
    → All (λ x. test x ≡ true → x.job_id ≡ k) js
    → job_of k js ≡ some j
    → test j ≡ true
    → job_of k (update_first test f js) ≡ some (f j)
unfolding update_first job_of
job_of-update_first_self k test f [] keep only h p = cc
job_of-update_first_self k test f (x ∷ js) keep only h p = elim (Bool-cases (x.job_id == k)) [
  | inl e ↦ ground (arith, keep x)
  | inr e ↦ elim (Bool-cases (test x)) [
    | inl t ↦ ground (arith, only.0 t)
    | inr t ↦ rw (t, e) (job_of-update_first_self k test f js keep only.1 (ground arith) p)
  ]
]
