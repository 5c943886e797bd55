-- ===== src/Shell/Jobs.antt =====
-- include/jobs.h and src/jobs.c: the table of background jobs. The two static variables are a
-- record; a pointer to a job is the index of its slot. Process and job numbers are natural numbers.
pub mod Slots
pub mod Table
pub mod Full
pub mod Valid
use mathlib.Core.Option
use shellforge.Prelude.{
  ℕ, suc, ◌+◌, Bool, not, ◌&&◌, Option, none, some, List, [], ◌∷◌, ◌==◌, if◌then◌else◌, get_or, set,
  replicate, Bytes, codes,
}
use shellforge.Shell.Token.{strdup}

abbrev pub max_jobs : ℕ
max_jobs = 64

pub data JobState : Type 0 where
  job_running job_stopped job_finished : JobState

pub record Job : Type 0 where
  pub job_id : ℕ
  pub pgid : ℕ
  pub state : JobState
  pub command : Option Bytes

pub record JobTable : Type 0 where
  pub jobs : List Job
  pub next_job_id : ℕ

abbrev pub free_slot : Job
free_slot = record { job_id = 0; pgid = 0; state = job_finished; command = none }

unfoldable pub jobs_init : JobTable
jobs_init = record { jobs = replicate max_jobs free_slot; next_job_id = 1 }

-- `for (i = 0; i < MAX_JOBS; i++) if (test(job_table[i])) return i;`
unfoldable pub find_slot : (Job → Bool) → List Job → Option ℕ
find_slot test [] = none
find_slot test (j ∷ js) =
    let later = Option.map suc (find_slot test js) in if test j then some 0 else later

abbrev pub slot : JobTable → ℕ → Job
slot t i = get_or t.jobs i free_slot

abbrev pub with_slot : JobTable → ℕ → Job → JobTable
with_slot t i j = record t { jobs = set t.jobs i j }

-- In the free slot `i`: `none` is the result -1. The first flag says that a command is given.
unfoldable pub job_fill : Bool → JobTable → ℕ → ℕ → JobState → Option Bytes → Option ℕ × JobTable
job_fill dup t i pgid state (some c) =
    let id = t.next_job_id in
    let t' = record t { next_job_id = id + 1 } in
    let new = record (slot t i) {
      job_id = id;
      pgid = pgid;
      state = state;
      command = strdup dup c;
    } in
    if dup
    then (some id, with_slot t' i new)
    else (none, with_slot t' i (record new { job_id = 0 }))
job_fill dup t i pgid state none =
    let id = t.next_job_id in
    let t' = record t { next_job_id = id + 1 } in
    let new = record (slot t i) {
      job_id = id;
      pgid = pgid;
      state = state;
      command = strdup dup [];
    } in
    (some id, with_slot t' i new)

abbrev pub is_free : Job → Bool
is_free j = j.job_id == 0

-- `dup` is what the `strdup` of the command answers.
unfoldable pub job_add : Bool → JobTable → ℕ → JobState → Option Bytes → Option ℕ × JobTable
job_add dup t pgid state command = elim (find_slot is_free t.jobs) [
  | none ↦ (none, t)
  | some i ↦ job_fill dup t i pgid state command
]

unfoldable pub job_find : JobTable → ℕ → Option ℕ
job_find t id = find_slot (λ j. j.job_id == id) t.jobs

abbrev pub in_group : ℕ → Job → Bool
in_group pgid j = not (j.job_id == 0) && j.pgid == pgid

unfoldable pub job_find_by_pgid : JobTable → ℕ → Option ℕ
job_find_by_pgid t pgid = find_slot (in_group pgid) t.jobs

-- A write through the pointer that a search returned; NULL writes nothing.
abbrev pub on_slot : Option ℕ → (Job → Job) → JobTable → JobTable
on_slot none f t = t
on_slot (some i) f t = with_slot t i (f (slot t i))

unfoldable pub job_remove : JobTable → ℕ → JobTable
job_remove t id = on_slot (job_find t id) (λ _. free_slot) t

unfoldable pub job_stop : JobTable → ℕ → JobTable
job_stop t pgid = on_slot (job_find_by_pgid t pgid) (λ j. record j { state = job_stopped }) t

-- The table, and the process group that is sent SIGCONT.
unfoldable pub job_continue : JobTable → ℕ → JobTable × Option ℕ
job_continue t pgid =
    let found = job_find_by_pgid t pgid in
    (on_slot found (λ j. record j { state = job_running }) t, Option.map (λ _. pgid) found)

unfoldable pub job_done : JobTable → ℕ → JobTable
job_done t pgid = on_slot (job_find_by_pgid t pgid) (λ j. record j { state = job_finished }) t

unfoldable pub job_state_string : JobState → Bytes
job_state_string job_running = codes "Running"
job_state_string job_stopped = codes "Stopped"
job_state_string job_finished = codes "Done"

-- The three values that `jobs_print` formats, for each job in a slot.
pub record JobLine : Type 0 where
  pub id : ℕ
  pub state : Bytes
  pub command : Bytes

abbrev pub text_or_empty : Option Bytes → Bytes
text_or_empty none = []
text_or_empty (some s) = s

unfoldable pub jobs_print : List Job → List JobLine
jobs_print [] = []
jobs_print (j ∷ js) =
    let line : JobLine = record {
      id = j.job_id;
      state = job_state_string j.state;
      command = text_or_empty j.command;
    } in
    let rest = jobs_print js in if j.job_id == 0 then rest else line ∷ rest
