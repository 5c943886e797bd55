-- ===== src/Shell/Main/Builtins.antt =====
-- src/main.c: the builtins, and the SIGCHLD handler, which `fg` waits for.
use shellforge.Prelude.{
  ℕ, ◌+◌, Bool, true, false, not, ◌&&◌, Option, none, some, List, [], ◌∷◌, ◌++◌, ◌==◌, ltb,
  if◌then◌else◌, get_or, drop, Bytes, codes,
}
use shellforge.Shell.Result.{Result, ok, fault, ◌>>=◌}
use shellforge.Shell.Parser.{Command}
use shellforge.Shell.Jobs.{
  JobTable, JobState, job_running, job_stopped, job_finished, slot, job_find, job_find_by_pgid,
  job_stop, job_done, job_continue, job_remove, jobs_print, on_slot,
}
use shellforge.Shell.CommandText.{args_of}
use shellforge.Shell.Host.{
  Host, Output, text, help_text, complaint, job_lines, history_line, resumed, Shell, same, print,
  process, with_process, change_directory, print_directory,
}

-- The status of a child, as the macros on it test it.
pub data Status : Type 0 where
  stopped exited signaled continued : Status

-- A child that `waitpid` reports.
pub record Report : Type 0 where
  pub pid : ℕ
  pub status : Status

abbrev pub job_report : Status → ℕ → JobTable → JobTable
job_report stopped pid t = job_stop t pid
job_report continued pid t = t
job_report _ pid t = job_done t pid

-- The list is what `waitpid` reports, up to its result that is not positive.
unfoldable pub sigchld_handler : List Report → JobTable → JobTable
sigchld_handler [] t = t
sigchld_handler (r ∷ rs) t =
    sigchld_handler rs
      (elim (job_find_by_pgid t r.pid) [ none ↦ t | some _ ↦ job_report r.status r.pid t ])

-- 0, 1, -1; `paused` is a `fg` that waits still, `broken` an access that has no defined result.
pub data BuiltinEnd : Type 0 where
  handled leaves not_builtin paused broken : BuiltinEnd

abbrev pub is_running : JobState → Bool
is_running job_running = true
is_running _ = false

abbrev pub is_stopped : JobState → Bool
is_stopped job_stopped = true
is_stopped _ = false

abbrev pub is_finished : JobState → Bool
is_finished job_finished = true
is_finished _ = false

-- `while (job->state == JOB_RUNNING) pause();` for the job in slot `i`: a pause ends when the
-- handler has run. The flag says that the loop has ended.
unfoldable pub fg_loop : List (List Report) → ℕ → JobTable → Bool × JobTable
fg_loop [] i t = (not (is_running (slot t i).state), t)
fg_loop (rs ∷ more) i t =
    let later = fg_loop more i (sigchld_handler rs t) in
    if is_running (slot t i).state then later else (true, t)

-- The text of `echo`, with a space before each argument but the first. `%s` of NULL is a fault.
unfoldable pub echo_words : Bool → List (Option Bytes) → Result Bytes
echo_words first [] = ok []
echo_words first (none ∷ more) = fault
echo_words first (some a ∷ more) =
    echo_words false more >>= λ t. ok ((if first then [] else codes " ") ++ (a ++ t))

unfoldable pub history_lines : ℕ → List Bytes → List Output
history_lines i [] = []
history_lines i (line ∷ more) = history_line (i + 1) line ∷ history_lines (i + 1) more

module _ {S : Type 0} (h : Host S) where
  abbrev pub with_table : Shell S → JobTable → Shell S
  with_table sh t = record sh { run = record sh.run { table = t } }

  unfoldable pub builtin_cd : Command → Shell S → BuiltinEnd × Shell S
  builtin_cd cmd sh =
      if ltb 1 cmd.argc
      then elim (get_or cmd.argv 1 none) [
        | none ↦ (handled, change_directory h (codes ".") sh)
        | some path ↦ (handled, change_directory h path sh)
      ]
      else elim (h.getenv (codes "HOME")) [
        | none ↦ (handled, change_directory h (codes ".") sh)
        | some path ↦ (handled, change_directory h path sh)
      ]

  unfoldable pub builtin_echo : Command → Shell S → BuiltinEnd × Shell S
  builtin_echo cmd sh = elim (echo_words true (drop 1 (args_of cmd))) [
    | ok t ↦ (handled, print sh (text (t ++ codes "\n") ∷ []))
    | _ ↦ (broken, sh)
  ]

  unfoldable pub builtin_history : Shell S → Shell S
  builtin_history sh = elim (h.history_list (process sh)) [
    | none ↦ sh
    | some lines ↦ print sh (history_lines 0 lines)
  ]

  -- `atoi` and `job_find` of the argument.
  abbrev pub found : JobTable → Bytes → Option ℕ
  found t a = elim (h.atoi a) [ none ↦ none | some id ↦ job_find t id ]

  unfoldable pub bg : Bytes → Shell S → BuiltinEnd × Shell S
  bg a sh = elim (found sh.run.table a) [
    | none ↦ (handled, print sh (complaint (codes "bg: no such job\n") ∷ []))
    | some i ↦
        let (t, sent) = job_continue sh.run.table (slot sh.run.table i).pgid in
        let sh' = with_table sh t in
        let signalled : Shell S = elim sent [
          | none ↦ sh'
          | some g ↦ with_process sh' (h.kill g (process sh))
        ] in
        (handled, print signalled (resumed (slot t i).job_id (slot t i).command ∷ []))
  ]

  -- A stopped job is sent SIGCONT.
  abbrev pub fg_start : ℕ → Shell S → Shell S
  fg_start i sh =
      let job = slot sh.run.table i in
      if is_stopped job.state
      then with_process
          (with_table sh (on_slot (some i) (λ j. record j { state = job_running }) sh.run.table))
          (h.kill job.pgid (process sh))
      else sh

  unfoldable pub fg : List (List Report) → Bytes → Shell S → BuiltinEnd × Shell S
  fg reports a sh = elim (h.atoi a) [
    | none ↦ (handled, print sh (complaint (codes "fg: no such job\n") ∷ []))
    | some id ↦ elim (job_find sh.run.table id) [
      | none ↦ (handled, print sh (complaint (codes "fg: no such job\n") ∷ []))
      | some i ↦
          let sh' = fg_start i sh in
          let (over, t) = fg_loop reports i sh'.run.table in
          (
            if over then handled else paused,
            with_table sh' (if over && is_finished (slot t i).state then job_remove t id else t),
          )
    ]
  ]

  abbrev pub with_argument :
      Bytes → (Bytes → Shell S → BuiltinEnd × Shell S) → Command → Shell S → BuiltinEnd × Shell S
  with_argument usage f cmd sh =
      if cmd.argc == 2
      then elim (get_or cmd.argv 1 none) [ none ↦ (broken, sh) | some a ↦ f a sh ]
      else (handled, print sh (complaint usage ∷ []))

  unfoldable pub builtin_named :
      List (List Report) → Bytes → Command → Shell S → BuiltinEnd × Shell S
  builtin_named reports name cmd sh =
      if same name (codes "help")
      then (handled, print sh (help_text ∷ []))
      else if same name (codes "exit")
      then (leaves, sh)
      else if same name (codes "cd")
      then builtin_cd cmd sh
      else if same name (codes "pwd")
      then (handled, print_directory h sh)
      else if same name (codes "echo")
      then builtin_echo cmd sh
      else if same name (codes "history")
      then (handled, builtin_history sh)
      else if same name (codes "jobs")
      then (handled, print sh (job_lines (jobs_print sh.run.table.jobs) ∷ []))
      else if same name (codes "bg")
      then with_argument (codes "bg: usage: bg <job_id>\n") bg cmd sh
      else if same name (codes "fg")
      then with_argument (codes "fg: usage: fg <job_id>\n") (fg reports) cmd sh
      else (not_builtin, sh)

  unfoldable pub builtin_execute :
      List (List Report) → Option Command → Shell S → BuiltinEnd × Shell S
  builtin_execute reports none sh = (handled, sh)
  builtin_execute reports (some cmd) sh =
      if cmd.argc == 0 then (handled, sh) else elim (get_or cmd.argv 0 none) [
        | none ↦ (broken, sh)
        | some name ↦ builtin_named reports name cmd sh
      ]
