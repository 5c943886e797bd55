-- ===== src/Shell/Executor.antt =====
-- src/executor.c: a pipeline becomes processes that are joined by pipes. The system calls are a
-- parameter: `S` is what the kernel keeps for a process. A child is followed up to its `execvp`.
pub mod Descriptors
pub mod Redirect
pub mod Child
pub mod Wiring
pub mod Loop
pub mod Whole
pub mod Jobs
pub mod Success
use shellforge.Prelude.{
  ℕ, Bool, true, false, not, ◌&&◌, ◌||◌, Option, none, some, List, [], ◌∷◌, ◌++◌, ◌==◌,
  if◌then◌else◌, get_or, Bytes, codes,
}
use shellforge.Shell.Result.{Result, ok, failed, fault, ◌>>=◌}
use shellforge.Shell.Parser.{Command, Pipeline, init_command}
use shellforge.Shell.Jobs.{JobTable, job_running, job_add}
use shellforge.Shell.CommandText.{
  args_of, commands_of, is_background, build_command_string, background_string,
}

-- The flags of `open`.
pub data OpenFlags : Type 0 where
  read_only create_append create_truncate : OpenFlags

-- The system calls: what each answers, and the state of the process behind it. `fork` is the call
-- as the parent sees it, `child` the state that the child starts with.
pub record Posix (S : Type 0) : Type 0 where
  pub open_file : OpenFlags → Bytes → S → Option ℕ × S
  pub dup2 : ℕ → ℕ → S → Bool × S
  pub close : ℕ → S → S
  pub pipe : S → Option (ℕ × ℕ) × S
  pub fork : S → Option ℕ × S
  pub child : S → S
  pub setpgid : ℕ → ℕ → S → Bool × S
  pub waitpid : ℕ → S → Bool × S

-- A child: its number, its command, and the state in which it calls `execvp`; `failed` is an
-- `exit(1)` before that.
pub record Spawned (S : Type 0) : Type 0 where
  pub pid : ℕ
  pub command : Command
  pub reached : Result S

-- The shell: its own process, the job table, the children so far, the numbers that it has waited
-- for, and the lines `[job] pid` that it has printed.
pub record Run (S : Type 0) : Type 0 where
  pub process : S
  pub table : JobTable
  pub children : List (Spawned S)
  pub waited : List ℕ
  pub printed : List (ℕ × ℕ)

-- What the allocations of a call answer.
pub record Answers : Type 0 where
  pub pids_ok : Bool
  pub string_ok : Bool
  pub dup_ok : Bool

-- 0, -1, or a write behind the end of a buffer.
pub data Ending : Type 0 where
  done error overrun : Ending

abbrev pub of_option : Option ℕ → List ℕ
of_option none = []
of_option (some fd) = fd ∷ []

abbrev pub write_end : Option (ℕ × ℕ) → Option ℕ
write_end none = none
write_end (some p) = some p.1

abbrev pub both_ends : Option (ℕ × ℕ) → List ℕ
both_ends none = []
both_ends (some p) = p.0 ∷ p.1 ∷ []

-- `cmd->argc == 0 || cmd->argv[0] == NULL`, negated.
abbrev pub is_some : Option Bytes → Bool
is_some none = false
is_some (some _) = true

abbrev pub has_program : Command → Bool
has_program cmd = not (cmd.argc == 0) && is_some (get_or cmd.argv 0 none)

module _ {S : Type 0} where
  -- A call that exits when it fails.
  abbrev pub checked : Bool × S → Result S
  checked (true, s) = ok s
  checked (false, s) = failed

  -- The job of a text, and the line that is printed when the table takes it.
  unfoldable pub record_job : Bool → ℕ → Bytes → Run S → Run S
  record_job dup_ok pgid text r =
      let (id, t) = job_add dup_ok r.table pgid job_running (some text) in
      elim id [
        | none ↦ record r { table = t }
        | some n ↦ record r { table = t; printed = r.printed ++ (n, pgid) ∷ [] }
      ]

  -- Behind the text of a background job: NULL records no job.
  abbrev pub job_of_text : Bool → ℕ → Result Bytes → Run S → Ending × Run S
  job_of_text dup_ok pgid (ok text) r = (done, record_job dup_ok pgid text r)
  job_of_text dup_ok pgid failed r = (done, r)
  job_of_text dup_ok pgid fault r = (overrun, r)

  unfoldable pub pids_of : List (Spawned S) → List ℕ
  pids_of [] = []
  pids_of (c ∷ cs) = c.pid ∷ pids_of cs

module _ {S : Type 0} (os : Posix S) where
  -- `open`, `dup2` to `target`, and `close`.
  unfoldable pub redirect_to : OpenFlags → Bytes → ℕ → S → Result S
  redirect_to flags name target s =
      let (opened, s₁) = os.open_file flags name s in
      elim opened [
        | none ↦ failed
        | some fd ↦
            let (moved, s₂) = os.dup2 fd target s₁ in if moved then ok (os.close fd s₂) else failed
      ]

  unfoldable pub redirect_input : Command → Bool → S → Result S
  redirect_input cmd background s = elim cmd.input [
    | some name ↦ redirect_to read_only name 0 s
    | none ↦ if background then redirect_to read_only (codes "/dev/null") 0 s else ok s
  ]

  unfoldable pub redirect_output : Command → S → Result S
  redirect_output cmd s = elim cmd.output [
    | none ↦ ok s
    | some name ↦ redirect_to (if cmd.append then create_append else create_truncate) name 1 s
  ]

  -- The child of `execute_command`.
  unfoldable pub single_child : Command → S → Result S
  single_child cmd s = (if cmd.background then checked (os.setpgid 0 0 s) else ok s) >>= λ s₁.
      redirect_input cmd cmd.background s₁ >>= λ s₂. redirect_output cmd s₂

  abbrev pub move_to : Option ℕ → ℕ → S → Result S
  move_to none target s = ok s
  move_to (some fd) target s = checked (os.dup2 fd target s)

  abbrev pub close_all : List ℕ → S → S
  close_all [] s = s
  close_all (fd ∷ fds) s = close_all fds (os.close fd s)

  -- A child of `execute_pipeline`. The last command has no pipe.
  unfoldable pub pipeline_child : ℕ → Option ℕ → Option (ℕ × ℕ) → Bool → Command → S → Result S
  pipeline_child group previous pipefd quiet cmd s = checked (os.setpgid 0 group s) >>= λ s₁.
      move_to previous 0 s₁ >>= λ s₂. move_to (write_end pipefd) 1 s₂ >>= λ s₃.
      redirect_input cmd quiet (close_all (both_ends pipefd) (close_all (of_option previous) s₃))
      >>= λ s₄. redirect_output cmd s₄

  -- The parent of `execute_command`, behind the fork.
  unfoldable pub single_parent : Answers → Command → ℕ → Run S → Ending × Run S
  single_parent m cmd pid r =
      if cmd.background
      then job_of_text m.dup_ok pid (background_string m.string_ok (args_of cmd))
          (record r { process = (os.setpgid pid pid r.process).1 })
      else (let (waited, s) = os.waitpid pid r.process in
          (if waited then done else error, record r { process = s; waited = r.waited ++ pid ∷ [] }))

  unfoldable pub execute_command : Answers → Command → Run S → Ending × Run S
  execute_command m cmd r =
      if has_program cmd
      then (let (forked, s) = os.fork r.process in
          elim forked [
            | none ↦ (error, record r { process = s })
            | some pid ↦ single_parent m cmd pid (record r {
              process = s;
              children =
                  r.children
                  ++ record {
                    pid = pid;
                    command = cmd;
                    reached = single_child cmd (os.child r.process);
                  }
                    ∷ [];
            })
          ])
      else (done, r)

  -- A round of the loop that has its pipe, or needs none: the fork, and what the parent does.
  -- `none` is a failed fork. The result is the process group, and the run.
  unfoldable pub spawn : Bool → Option ℕ → ℕ → Option (ℕ × ℕ) → Command → Run S → Option ℕ × Run S
  spawn quiet previous group pipefd cmd r =
      let (forked, s) = os.fork r.process in
      elim forked [
        | none ↦ (none, record r { process = s })
        | some pid ↦
            let group' = if group == 0 then pid else group in
            let s₁ = (os.setpgid pid group' s).1 in
            let s₂ = close_all (of_option (write_end pipefd)) (close_all (of_option previous) s₁) in
            (
              some group',
              record r {
                process = s₂;
                children =
                    r.children
                    ++ record {
                      pid = pid;
                      command = cmd;
                      reached = pipeline_child group previous pipefd quiet cmd (os.child r.process);
                    }
                      ∷ [];
              },
            )
      ]

  -- The loop over the commands. `none` is a return of -1 from within.
  unfoldable pub spawn_loop : Bool → Option ℕ → ℕ → List Command → Run S → Option ℕ × Run S
  spawn_loop quiet previous group [] r = (some group, r)
  spawn_loop quiet previous group (c ∷ []) r = spawn quiet previous group none c r
  spawn_loop quiet previous group (c ∷ d ∷ cs) r =
      let (piped, s) = os.pipe r.process in
      elim piped [
        | none ↦ (none, record r { process = s })
        | some p ↦
            let (spawned, r') = spawn quiet previous group (some p) c (record r { process = s }) in
            elim spawned [
              | none ↦ (none, r')
              | some group' ↦ spawn_loop false (some p.0) group' (d ∷ cs) r'
            ]
      ]

  -- `waitpid` for each child, whose error is only reported.
  unfoldable pub wait_all : List ℕ → Run S → Run S
  wait_all [] r = r
  wait_all (pid ∷ pids) r =
      wait_all pids
        (record r { process = (os.waitpid pid r.process).1; waited = r.waited ++ pid ∷ [] })

  -- The commands of a pipeline of more than one; the children are those of this call.
  unfoldable pub execute_commands : Answers → Pipeline → Run S → Ending × Run S
  execute_commands m p r =
      if m.pids_ok
      then (let (spawned, r') =
            spawn_loop (is_background p) none 0 (commands_of p) (record r { children = [] }) in
          elim spawned [
            | none ↦ (error, r')
            | some group ↦
                if is_background p
                then job_of_text m.dup_ok group (build_command_string m.string_ok (some p)) r'
                else (done, wait_all (pids_of r'.children) r')
          ])
      else (error, r)

  unfoldable pub execute_pipeline : Answers → Option Pipeline → Run S → Ending × Run S
  execute_pipeline m none r = (error, r)
  execute_pipeline m (some p) r =
      if p.command_count == 0
      then (error, r)
      else if p.command_count == 1
      then execute_command m (get_or p.commands 0 init_command) r
      else execute_commands m p r
