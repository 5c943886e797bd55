-- ===== src/Shell/Executor/Whole.antt =====
-- `execute_pipeline` of src/executor.c for more than one command: from the loop to the end.
use shellforge.Prelude.{
  ℕ, ◌<◌, ◌≡◌, refl, sym, ap, subst, ◌∙◌, ◌≢◌, inl, inr, Bool, true, false, Option, none, some,
  Option-cases, List, [], ◌∷◌, ◌++◌, append-nil, append_assoc, ◌==◌, if◌then◌else◌, if-intro,
  length, length-take, arith, Bytes,
}
use shellforge.Shell.Result.{Result, ok, failed, fault}
use shellforge.Shell.Parser.{Command, Pipeline}
use shellforge.Shell.CommandText.{commands_of, is_background, build_command_string}
use shellforge.Shell.CommandText.Fits.{build_command_string-command_text}
use shellforge.Shell.Jobs.{job_running, job_add}
use shellforge.Shell.Executor.{
  Posix, Run, Answers, Ending, done, error, overrun, record_job, job_of_text, spawn_loop, wait_all,
  pids_of, execute_commands, execute_pipeline,
}
use shellforge.Shell.Executor.Descriptors.{Descriptors}
use shellforge.Shell.Executor.Child.{View}
use shellforge.Shell.Executor.Wiring.{Chain, Spawns}
use shellforge.Shell.Executor.Loop.{spawn_loop-Spawns}

-- A job in the table changes nothing else that is claimed here.
record Same {S : Type 0} (r r' : Run S) : Type 0 where
  pub process_is : r'.process ≡ r.process
  pub children_are : r'.children ≡ r.children
  pub waited_is : r'.waited ≡ r.waited

record_job-Same :
    {S : Type 0} (dup : Bool) (g : ℕ) (text : Bytes) (r : Run S) → Same r (record_job dup g text r)
unfolding record_job
record_job-Same dup g text r =
    elim (Option-cases (job_add dup r.table g job_running (some text)).0) [
      | inl e ↦
          rw (e, record_job) (record { process_is = refl; children_are = refl; waited_is = refl })
      | inr (n, e) ↦
          rw (e, record_job) (record { process_is = refl; children_are = refl; waited_is = refl })
    ]

pub build-no_fault : (b : Bool) (p : Pipeline) → build_command_string b (some p) ≢ fault
unfolding build_command_string
build-no_fault true p e = cc (build_command_string-command_text p, e)
build-no_fault false p e = cc

module _ {S D K : Type 0} (os : Posix S) (d : Descriptors os D K) where
  wait_all-View :
      (v : ℕ → Option D) (pids : List ℕ) (r : Run S)
      → View os d v r.process
      → View os d v (wait_all os pids r).process
  unfolding wait_all
  wait_all-View v [] r h = h
  wait_all-View v (pid ∷ pids) r h =
      wait_all-View v pids _ (λ g. d.waitpid_at pid r.process g ∙ h g)

  wait_all_waited :
      (pids : List ℕ) (r : Run S)
      → ((wait_all os pids r).waited ≡ r.waited ++ pids)
        × ((wait_all os pids r).children ≡ r.children)
  unfolding wait_all
  wait_all_waited [] r = (sym (append-nil r.waited), refl)
  wait_all_waited (pid ∷ pids) r =
      let (w, c) =
        wait_all_waited pids
          (record r { process = (os.waitpid pid r.process).1; waited = r.waited ++ pid ∷ [] }) in
      (w ∙ append_assoc r.waited (pid ∷ []) pids, c)

  -- What a pipeline of several commands leaves, where it returns 0.
  abbrev pub Wires : Pipeline → Run S → Ending × Run S → Type 0
  Wires p r (done, r') =
      Chain os d (d.at r.process) (is_background p) (d.at r.process 0) (commands_of p) r'.children
      × ((g : ℕ) → d.at r'.process g ≡ d.at r.process g)
      × (is_background p ≡ false → r'.waited ≡ r.waited ++ pids_of r'.children)
  Wires p r (error, r') = Unit
  Wires p r (overrun, r') = ⊥

  job_of_text-Wires :
      (p : Pipeline) (r r' : Run S) (dup : Bool) (g : ℕ) (text : Result Bytes)
      → is_background p ≡ true
      → text ≢ fault
      → Chain os d (d.at r.process) (is_background p) (d.at r.process 0) (commands_of p) r'.children
      → ((g : ℕ) → d.at r'.process g ≡ d.at r.process g)
      → Wires p r (job_of_text dup g text r')
  job_of_text-Wires p r r' dup g (ok text) bg nf chain view =
      let same = record_job-Same dup g text r' in
      (
        subst (Chain os d (d.at r.process) (is_background p) (d.at r.process 0) (commands_of p))
            (sym same.children_are) chain,
        λ f. ap (λ s. d.at s f) same.process_is ∙ view f,
        λ fg. cc,
      )
  job_of_text-Wires p r r' dup g failed bg nf chain view = (chain, view, λ fg. cc)
  job_of_text-Wires p r r' dup g fault bg nf chain view = absurd (nf refl)

  spawned-Wires :
      (m : Answers) (p : Pipeline) (r : Run S) (res : Option ℕ × Run S)
      → Spawns os d
          (d.at r.process)
          (is_background p)
          (d.at r.process 0)
          (commands_of p)
          (record r { children = [] })
          res
      → Wires p r (elim res.0 as (λ _. Ending × Run S) [
        | none ↦ (error, res.1)
        | some group ↦
            if is_background p
            then job_of_text m.dup_ok group (build_command_string m.string_ok (some p)) res.1
            else (done, wait_all os (pids_of res.1.children) res.1)
      ])
  spawned-Wires m p r (none, r') h = tt
  spawned-Wires m p r (some group, r') (xs, kids, chain, view, waits) =
      let chain' =
        subst (Chain os d (d.at r.process) (is_background p) (d.at r.process 0) (commands_of p))
          (sym kids) chain in
      if-intro (Wires p r) (is_background p)
        (λ bg.
          job_of_text-Wires p r r' m.dup_ok group _ bg (build-no_fault m.string_ok p) chain' view)
        (λ fg.
          let (w, c) = wait_all_waited (pids_of r'.children) r' in
          (
            subst (Chain os d (d.at r.process) (is_background p) (d.at r.process 0) (commands_of p))
                (sym c) chain',
            wait_all-View (d.at r.process) (pids_of r'.children) r' view,
            λ _.
                w
                ∙ ap (λ l. l ++ pids_of r'.children) waits
                ∙ ap (λ l. r.waited ++ pids_of l) (sym c),
          ))

  execute_commands-Wires :
      (m : Answers) (p : Pipeline) (c : Command) (cs : List Command) (r : Run S)
      → d.at r.process 0 ≢ none
      → d.at r.process 1 ≢ none
      → commands_of p ≡ c ∷ cs
      → Wires p r (execute_commands os m p r)
  unfolding execute_commands
  execute_commands-Wires m p c cs r in_open out_open shape =
      if-intro (Wires p r) m.pids_ok
        (λ _.
          spawned-Wires m p r
            (spawn_loop os (is_background p) none 0 (commands_of p) (record r { children = [] }))
            (subst
              (λ l.
                Spawns os d (d.at r.process) (is_background p) (d.at r.process 0) l
                  (record r { children = [] })
                  (spawn_loop os (is_background p) none 0 l (record r { children = [] })))
              (sym shape)
              (spawn_loop-Spawns os d c cs (d.at r.process) (is_background p) none 0
                (d.at r.process 0) (record r { children = [] }) in_open out_open
                (refl, λ g. refl))))
        (λ _. tt)

  -- For a pipeline of at least two commands, in a shell whose standard input and output are open,
  -- and whatever the system calls answer: where `execute_pipeline` returns 0, there is a child for
  -- each command, and each child that gets as far as `execvp` has as its input the file of its
  -- redirection, or `/dev/null` if it is the first of a background pipeline, or else the read end
  -- of the pipe in front of it, and as its output the file of its redirection, opened to append or
  -- to truncate as the command says, or else the write end of the pipe behind it; the first and the
  -- last have the input and the output of the shell in place of a pipe. It has no other end of a
  -- pipe. The shell is left with the descriptors that it had, and it has waited for each child of
  -- a foreground pipeline, in order. It never writes outside of a buffer.
  pub execute_pipeline-Wires :
      (m : Answers) (p : Pipeline) (c e : Command) (cs : List Command) (r : Run S)
      → d.at r.process 0 ≢ none
      → d.at r.process 1 ≢ none
      → commands_of p ≡ c ∷ e ∷ cs
      → Wires p r (execute_pipeline os m (some p) r)
  unfolding execute_pipeline
  execute_pipeline-Wires m p c e cs r in_open out_open shape =
      let many : 1 < p.command_count =
        omega (arith, ap length shape, length-take p.command_count p.commands) in
      let zero_no : (p.command_count == 0) ≡ false = ground arith in
      let one_no : (p.command_count == 1) ≡ false = ground arith in
      subst (Wires p r) (sym (rw zero_no (rw one_no refl)))
        (execute_commands-Wires m p c (e ∷ cs) r in_open out_open shape)
