-- ===== src/Shell/Executor/Jobs.antt =====
-- src/executor.c and the job table: a call changes it by `job_add` only.
use shellforge.Prelude.{
  ℕ, ◌≡◌, refl, sym, subst, ◌∙◌, inl, inr, Bool, false, Option, none, some, Option-cases, List, [],
  ◌∷◌, if-intro, Bytes, ◌==◌, get_or,
}
use shellforge.Shell.Result.{Result, ok, failed, fault}
use shellforge.Shell.Parser.{Command, Pipeline, init_command}
use shellforge.Shell.CommandText.{
  args_of, commands_of, is_background, build_command_string, background_string,
}
use shellforge.Shell.Jobs.{job_running, job_add}
use shellforge.Shell.Jobs.Table.{IsValid}
use shellforge.Shell.Jobs.Valid.{job_add-IsValid}
use shellforge.Shell.Executor.{
  Posix, Run, Answers, record_job, job_of_text, spawn, spawn_loop, wait_all, pids_of, single_parent,
  execute_command, execute_commands, execute_pipeline, has_program,
}

module _ {S : Type 0} where
  -- The job table of a result is valid.
  abbrev pub Tabled : {A : Type 0} → A × Run S → Type 0
  Tabled r = IsValid r.1.table

  record_job-IsValid :
      (dup : Bool) (g : ℕ) (text : Bytes) (r : Run S)
      → IsValid r.table
      → IsValid (record_job dup g text r).table
  unfolding record_job
  record_job-IsValid dup g text r v =
      let v' = job_add-IsValid dup r.table g job_running text v in
      elim (Option-cases (job_add dup r.table g job_running (some text)).0) [
        | inl e ↦ rw (e, record_job) v'
        | inr (n, e) ↦ rw (e, record_job) v'
      ]

  job_of_text-Tabled :
      (dup : Bool) (g : ℕ) (text : Result Bytes) (r : Run S)
      → IsValid r.table
      → Tabled (job_of_text dup g text r)
  job_of_text-Tabled dup g (ok text) r v = record_job-IsValid dup g text r v
  job_of_text-Tabled dup g failed r v = v
  job_of_text-Tabled dup g fault r v = v

module _ {S : Type 0} (os : Posix S) where
  spawn_table :
      (quiet : Bool) (previous : Option ℕ) (group : ℕ) (pipefd : Option (ℕ × ℕ)) (c : Command)
      (r : Run S)
      → (spawn os quiet previous group pipefd c r).1.table ≡ r.table
  unfolding spawn
  spawn_table quiet previous group pipefd c r = elim (Option-cases (os.fork r.process).0) [
    | inl e ↦ rw (e, spawn) refl
    | inr (pid, e) ↦ rw (e, spawn) refl
  ]

  spawn_loop_table :
      (quiet : Bool) (previous : Option ℕ) (group : ℕ) (cs : List Command) (r : Run S)
      → (spawn_loop os quiet previous group cs r).1.table ≡ r.table
  unfolding spawn_loop
  spawn_loop_table quiet previous group [] r = refl
  spawn_loop_table quiet previous group (c ∷ []) r = spawn_table quiet previous group none c r
  spawn_loop_table quiet previous group (c ∷ d ∷ cs) r = elim (Option-cases (os.pipe r.process).0) [
    | inl e ↦ rw (e, spawn_loop) refl
    | inr (p, e) ↦
        let r₁ : Run S = record r { process = (os.pipe r.process).1 } in
        let once = spawn_table quiet previous group (some p) c r₁ in
        elim (Option-cases (spawn os quiet previous group (some p) c r₁).0) [
          | inl e' ↦ rw (e, spawn_loop, e') once
          | inr (g, e') ↦
              rw (e, spawn_loop, e') (spawn_loop_table false (some p.0) g (d ∷ cs) _ ∙ once)
        ]
  ]

  wait_all_table : (pids : List ℕ) (r : Run S) → (wait_all os pids r).table ≡ r.table
  unfolding wait_all
  wait_all_table [] r = refl
  wait_all_table (pid ∷ pids) r = wait_all_table pids _

  execute_commands-Tabled :
      (m : Answers) (p : Pipeline) (r : Run S)
      → IsValid r.table
      → Tabled (execute_commands os m p r)
  unfolding execute_commands
  execute_commands-Tabled m p r v =
      if-intro Tabled m.pids_ok
        (λ _.
          let spawned =
            spawn_loop os (is_background p) none 0 (commands_of p) (record r { children = [] }) in
          let v' =
            subst IsValid
              (sym (
                spawn_loop_table (is_background p) none 0 (commands_of p)
                  (record r { children = [] })))
              v in
          elim (Option-cases spawned.0) [
            | inl e ↦ rw e v'
            | inr (g, e) ↦ rw e (
                if-intro Tabled (is_background p)
                  (λ _.
                    job_of_text-Tabled m.dup_ok g (build_command_string m.string_ok (some p))
                      spawned.1 v')
                  (λ _.
                    subst IsValid (sym (wait_all_table (pids_of spawned.1.children) spawned.1)) v'))
          ])
        (λ _. v)

  execute_command-Tabled :
      (m : Answers) (c : Command) (r : Run S) → IsValid r.table → Tabled (execute_command os m c r)
  unfolding execute_command single_parent
  execute_command-Tabled m c r v =
      if-intro Tabled (has_program c)
        (λ _. elim (Option-cases (os.fork r.process).0) [
          | inl e ↦ rw e v
          | inr (pid, e) ↦ rw e (
              if-intro Tabled c.background
                (λ _.
                  job_of_text-Tabled m.dup_ok pid (background_string m.string_ok (args_of c)) _ v)
                (λ _. v))
        ])
        (λ _. v)

  -- The job table is valid behind every call, whatever the system calls and the allocations answer.
  pub execute_pipeline-IsValid :
      (m : Answers) (p : Option Pipeline) (r : Run S)
      → IsValid r.table
      → IsValid (execute_pipeline os m p r).1.table
  unfolding execute_pipeline
  execute_pipeline-IsValid m none r v = v
  execute_pipeline-IsValid m (some p) r v =
      if-intro Tabled (p.command_count == 0) (λ _. v)
        (λ _.
          if-intro Tabled (p.command_count == 1)
            (λ _. execute_command-Tabled m (get_or p.commands 0 init_command) r v)
            (λ _. execute_commands-Tabled m p r v))
