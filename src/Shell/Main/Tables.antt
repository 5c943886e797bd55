-- ===== src/Shell/Main/Tables.antt =====
-- The builtins and the SIGCHLD handler of src/main.c keep the invariant of the job table.
use shellforge.Prelude.{
  ℕ, ◌&&◌, ◌≡◌, refl, sym, subst, inl, inr, Bool, true, Option, none, some, Option-cases,
  Bool-cases, List, [], ◌∷◌, ◌==◌, ltb, drop, if-intro, option-intro, ◌++◌, get_or, Bytes, codes,
}
use shellforge.Shell.Result.{Result, ok, failed, fault}
use shellforge.Shell.Parser.{Command}
use shellforge.Shell.CommandText.{args_of}
use shellforge.Shell.Jobs.{JobTable, job_running, slot, job_find, job_find_by_pgid, job_continue}
use shellforge.Shell.Jobs.Table.{
  IsValid, job_stop-IsValid, job_done-IsValid, job_continue-IsValid, job_remove-IsValid,
}
use shellforge.Shell.Jobs.Valid.{job_find-IsValid}
use shellforge.Shell.Host.{Host, Shell, text, print, same, process, with_process, change_directory}
use shellforge.Shell.Main.Builtins.{
  Report, Status, stopped, exited, signaled, continued, job_report, sigchld_handler, BuiltinEnd,
  handled, broken, is_running, is_stopped, is_finished, fg_loop, fg_start, fg, bg, echo_words,
  builtin_cd, builtin_echo, builtin_history, builtin_named, builtin_execute, with_argument,
  with_table, found,
}

job_report-IsValid :
    (s : Status) (pid : ℕ) (t : JobTable) → IsValid t → IsValid (job_report s pid t)
job_report-IsValid stopped pid t v = job_stop-IsValid t pid v
job_report-IsValid exited pid t v = job_done-IsValid t pid v
job_report-IsValid signaled pid t v = job_done-IsValid t pid v
job_report-IsValid continued pid t v = v

pub sigchld_handler-IsValid :
    (rs : List Report) (t : JobTable) → IsValid t → IsValid (sigchld_handler rs t)
unfolding sigchld_handler
sigchld_handler-IsValid [] t v = v
sigchld_handler-IsValid (r ∷ rs) t v =
    sigchld_handler-IsValid rs _ (elim (Option-cases (job_find_by_pgid t r.pid)) [
      | inl e ↦ rw e v
      | inr (i, e) ↦ rw e (job_report-IsValid r.status r.pid t v)
    ])

fg_loop-IsValid :
    (reports : List (List Report)) (i : ℕ) (t : JobTable)
    → IsValid t
    → IsValid (fg_loop reports i t).1
unfolding fg_loop
fg_loop-IsValid [] i t v = v
fg_loop-IsValid (rs ∷ more) i t v =
    if-intro (λ (r : Bool × JobTable). IsValid r.1) (is_running (slot t i).state)
      (λ _. fg_loop-IsValid more i _ (sigchld_handler-IsValid rs t v)) (λ _. v)

module _ {S : Type 0} (h : Host S) where
  abbrev Tabled : {A : Type 0} → A × Shell S → Type 0
  Tabled r = IsValid r.1.run.table

  change_directory_table :
      (path : Bytes) (sh : Shell S) → (change_directory h path sh).run.table ≡ sh.run.table
  change_directory_table path sh = elim (Bool-cases (h.chdir path (process sh)).0) [
    | inl e ↦ rw (e, change_directory) refl
    | inr e ↦ rw (e, change_directory) refl
  ]

  changed-Tabled :
      (path : Bytes) (sh : Shell S)
      → IsValid sh.run.table
      → IsValid (change_directory h path sh).run.table
  changed-Tabled path sh v = subst IsValid (sym (change_directory_table path sh)) v

  bg-Tabled : (a : Bytes) (sh : Shell S) → IsValid sh.run.table → Tabled (bg h a sh)
  unfolding bg
  bg-Tabled a sh v =
      option-intro Tabled (found h sh.run.table a) (λ _. v)
        (λ i _.
          let go = job_continue sh.run.table (slot sh.run.table i).pgid in
          option-intro (λ (x : Shell S). IsValid x.run.table) go.1
            {f = λ g. with_process (with_table h sh go.0) (h.kill g (process sh))}
            (λ _. job_continue-IsValid _ _ v) (λ g _. job_continue-IsValid _ _ v))

  fg-Tabled :
      (reports : List (List Report)) (a : Bytes) (sh : Shell S)
      → IsValid sh.run.table
      → Tabled (fg h reports a sh)
  unfolding fg
  fg-Tabled reports a sh v =
      option-intro Tabled (h.atoi a) (λ _. v)
        (λ id _.
          option-intro Tabled (job_find sh.run.table id) (λ _. v)
            (λ i e.
              let started : IsValid (fg_start h i sh).run.table =
                if-intro (λ (x : Shell S). IsValid x.run.table)
                  (is_stopped (slot sh.run.table i).state)
                  (λ _.
                    job_find-IsValid sh.run.table id i (λ j. record j { state = job_running })
                      (λ j. refl) e v)
                  (λ _. v) in
              let over = fg_loop reports i (fg_start h i sh).run.table in
              let looped = fg_loop-IsValid reports i _ started in
              if-intro IsValid (over.0 && is_finished (slot over.1 i).state)
                (λ _. job_remove-IsValid _ id looped) (λ _. looped)))

  builtin_cd-Tabled :
      (c : Command) (sh : Shell S) → IsValid sh.run.table → Tabled (builtin_cd h c sh)
  unfolding builtin_cd
  builtin_cd-Tabled c sh v =
      if-intro Tabled (ltb 1 c.argc)
        (λ _.
          option-intro Tabled (get_or c.argv 1 none) (λ _. changed-Tabled _ sh v)
            (λ a _. changed-Tabled a sh v))
        (λ _.
          option-intro Tabled (h.getenv (codes "HOME")) (λ _. changed-Tabled _ sh v)
            (λ a _. changed-Tabled a sh v))

  builtin_echo-Tabled :
      (c : Command) (sh : Shell S) → IsValid sh.run.table → Tabled (builtin_echo h c sh)
  unfolding builtin_echo
  builtin_echo-Tabled c sh v = echoed (echo_words true (drop 1 (args_of c)))
    where
      echoed :
          (r : Result Bytes)
          → Tabled (elim r as (λ _. BuiltinEnd × Shell S) [
            | ok t ↦ (handled, print sh (text (t ++ codes "\n") ∷ []))
            | _ ↦ (broken, sh)
          ])
      echoed (ok t) = v
      echoed failed = v
      echoed fault = v

  with_argument-Tabled :
      (usage : Bytes) (f : Bytes → Shell S → BuiltinEnd × Shell S) (c : Command) (sh : Shell S)
      → IsValid sh.run.table
      → ((a : Bytes) → Tabled (f a sh))
      → Tabled (with_argument h usage f c sh)
  with_argument-Tabled usage f c sh v k =
      if-intro Tabled (c.argc == 2)
        (λ _. option-intro Tabled (get_or c.argv 1 none) (λ _. v) (λ a _. k a)) (λ _. v)

  builtin_named-Tabled :
      (reports : List (List Report)) (name : Bytes) (c : Command) (sh : Shell S)
      → IsValid sh.run.table
      → Tabled (builtin_named h reports name c sh)
  unfolding builtin_named builtin_history
  builtin_named-Tabled reports name c sh v =
      if-intro Tabled (same name (codes "help")) (λ _. v)
        (λ _.
          if-intro Tabled (same name (codes "exit")) (λ _. v)
            (λ _.
              if-intro Tabled (same name (codes "cd")) (λ _. builtin_cd-Tabled c sh v)
                (λ _.
                  if-intro Tabled (same name (codes "pwd"))
                    (λ _.
                      option-intro (λ (x : Shell S). IsValid x.run.table) (h.getcwd (process sh))
                        (λ _. v) (λ _ _. v))
                    (λ _.
                      if-intro Tabled (same name (codes "echo")) (λ _. builtin_echo-Tabled c sh v)
                        (λ _.
                          if-intro Tabled (same name (codes "history"))
                            (λ _.
                              option-intro (λ (x : Shell S). IsValid x.run.table)
                                (h.history_list (process sh)) (λ _. v) (λ _ _. v))
                            (λ _.
                              if-intro Tabled (same name (codes "jobs")) (λ _. v)
                                (λ _.
                                  if-intro Tabled (same name (codes "bg"))
                                    (λ _.
                                      with_argument-Tabled _ (bg h) c sh v (λ a. bg-Tabled a sh v))
                                    (λ _.
                                      if-intro Tabled (same name (codes "fg"))
                                        (λ _.
                                          with_argument-Tabled _ (fg h reports) c sh v
                                            (λ a. fg-Tabled reports a sh v))
                                        (λ _. v)))))))))

  pub builtin_execute-IsValid :
      (reports : List (List Report)) (c : Option Command) (sh : Shell S)
      → IsValid sh.run.table
      → IsValid (builtin_execute h reports c sh).1.run.table
  unfolding builtin_execute
  builtin_execute-IsValid reports none sh v = v
  builtin_execute-IsValid reports (some c) sh v =
      if-intro Tabled (c.argc == 0) (λ _. v)
        (λ _.
          option-intro Tabled (get_or c.argv 0 none) (λ _. v)
            (λ name _. builtin_named-Tabled reports name c sh v))
