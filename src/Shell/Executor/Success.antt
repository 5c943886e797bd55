-- ===== src/Shell/Executor/Success.antt =====
-- `execute_pipeline` of src/executor.c where the system has processes and pipes to give.
use shellforge.Prelude.{
  ℕ, ◌<◌, ◌≡◌, ◌≢◌, refl, ap, Bool, true, false, Option, none, some, List, [], ◌∷◌, ◌==◌, if-intro,
  if◌then◌else◌, length, length-take, arith, Bytes,
}
use shellforge.Shell.Result.{Result, ok, failed, fault}
use shellforge.Shell.Parser.{Command, Pipeline}
use shellforge.Shell.CommandText.{commands_of, is_background}
use shellforge.Shell.Executor.{
  Posix, Run, Answers, Ending, done, job_of_text, spawn, spawn_loop, execute_commands,
  execute_pipeline,
}
use shellforge.Shell.Executor.Whole.{build-no_fault}

module _ {S : Type 0} (os : Posix S) where
  -- Every `fork` and every `pipe` succeeds.
  pub record Plenty : Type 0 where
    pub forks : (s : S) → (pid : ℕ) × ((os.fork s).0 ≡ some pid)
    pub pipes : (s : S) → (p : ℕ × ℕ) × ((os.pipe s).0 ≡ some p)

  spawn-some :
      (h : Plenty) (quiet : Bool) (previous : Option ℕ) (group : ℕ) (pipefd : Option (ℕ × ℕ))
      (c : Command) (r : Run S)
      → (g : ℕ) × ((spawn os quiet previous group pipefd c r).0 ≡ some g)
  unfolding spawn
  spawn-some h quiet previous group pipefd c r =
      let (pid, e) = h.forks r.process in ((if group == 0 then pid else group), rw (e, spawn) refl)

  spawn_loop-some :
      (h : Plenty) (quiet : Bool) (previous : Option ℕ) (group : ℕ) (cs : List Command) (r : Run S)
      → (g : ℕ) × ((spawn_loop os quiet previous group cs r).0 ≡ some g)
  unfolding spawn_loop
  spawn_loop-some h quiet previous group [] r = (group, refl)
  spawn_loop-some h quiet previous group (c ∷ []) r = spawn-some h quiet previous group none c r
  spawn_loop-some h quiet previous group (c ∷ d ∷ cs) r =
      let (p, e) = h.pipes r.process in
      let r₁ : Run S = record r { process = (os.pipe r.process).1 } in
      let (g, e') = spawn-some h quiet previous group (some p) c r₁ in
      rw (e, spawn_loop, e') (spawn_loop-some h false (some p.0) g (d ∷ cs) _)

  Finishes : Ending × Run S → Type 0
  Finishes r = r.0 ≡ done

  job_of_text-Finishes :
      (dup : Bool) (g : ℕ) (text : Result Bytes) (r : Run S)
      → text ≢ fault
      → Finishes (job_of_text dup g text r)
  unfolding Finishes
  job_of_text-Finishes dup g (ok text) r nf = refl
  job_of_text-Finishes dup g failed r nf = refl
  job_of_text-Finishes dup g fault r nf = absurd (nf refl)

  execute_commands-Finishes :
      (m : Answers) (p : Pipeline) (r : Run S)
      → Plenty
      → m.pids_ok ≡ true
      → Finishes (execute_commands os m p r)
  unfolding execute_commands Finishes
  execute_commands-Finishes m p r h pids =
      let (g, e) =
        spawn_loop-some h (is_background p) none 0 (commands_of p) (record r { children = [] }) in
      rw (pids, e)
        (if-intro Finishes (is_background p)
          (λ _. job_of_text-Finishes m.dup_ok g _ _ (build-no_fault m.string_ok p)) (λ _. refl))

  -- Where every `fork` and every `pipe` succeeds, and `malloc` gives the array of process numbers,
  -- a pipeline of at least two commands is run to its end: `execute_pipeline` returns 0.
  pub execute_pipeline_done :
      (m : Answers) (p : Pipeline) (c e : Command) (cs : List Command) (r : Run S)
      → Plenty
      → m.pids_ok ≡ true
      → commands_of p ≡ c ∷ e ∷ cs
      → (execute_pipeline os m (some p) r).0 ≡ done
  unfolding execute_pipeline Finishes
  execute_pipeline_done m p c e cs r h pids shape =
      let many : 1 < p.command_count =
        omega (arith, ap length shape, length-take p.command_count p.commands) in
      let zero_no : (p.command_count == 0) ≡ false = ground arith in
      let one_no : (p.command_count == 1) ≡ false = ground arith in
      rw (zero_no, one_no) (execute_commands-Finishes m p r h pids)
