-- ===== src/Shell/Main/Session.antt =====
-- A session of src/main.c: the lines that are typed, and the children that the SIGCHLD handler hears
-- of between them. What it hears of while a line is run is not followed, but for `fg`.
use shellforge.Prelude.{codes, some, List, [], ◌∷◌, if-intro, get_or, ◌==◌, Bytes}
use shellforge.Shell.Result.{ok, failed, fault}
use shellforge.Shell.Parser.{Pipeline, Parsed, parse_tokens, init_command}
use shellforge.Shell.Parser
use shellforge.Shell.Lexer.{tokenize_line}
use shellforge.Shell.Expand.Commands.{Verdict, expand_pipeline}
use shellforge.Shell.Jobs.Table.{IsValid}
use shellforge.Shell.Executor.{Run, Ending, done, error, overrun, execute_pipeline}
use shellforge.Shell.Executor.Jobs.{execute_pipeline-IsValid}
use shellforge.Shell.Host.{Host, Shell, print, complaint, process, with_process}
use shellforge.Shell.Main.{
  LineMemory, LineEnd, next, ends, waits, crashed, starts_comment, force_exec, behind_builtin,
  run_external, run_pipeline, expand_and_run, run_line,
}
use shellforge.Shell.Main.Builtins.{
  Report, sigchld_handler, BuiltinEnd, handled, leaves, not_builtin, paused, broken,
}
use shellforge.Shell.Main.Tables.{sigchld_handler-IsValid, builtin_execute-IsValid}

-- A line, with what stands in the memory of its pipeline before; or what the handler is told.
pub data Event : Type 0 where
  typed : LineMemory → Pipeline → Bytes → Event
  reported : List Report → Event

module _ {S : Type 0} (h : Host S) where
  abbrev pub step : Event → Shell S → LineEnd × Shell S
  step (typed m p line) sh = run_line h m p line sh
  step (reported rs) sh =
      (next, record sh { run = record sh.run { table = sigchld_handler rs sh.run.table } })

  -- Up to the first line behind which the shell reads no other.
  unfoldable pub session : List Event → Shell S → LineEnd × Shell S
  session [] sh = (next, sh)
  session (e ∷ es) sh =
      let (end, sh') = step e sh in elim end [ next ↦ session es sh' | other ↦ (other, sh') ]

  abbrev Tabled : {A : Type 0} → A × Shell S → Type 0
  Tabled r = IsValid r.1.run.table

  run_external-Tabled :
      (m : LineMemory) (p : Pipeline) (sh : Shell S)
      → IsValid sh.run.table
      → Tabled (run_external h m p sh)
  unfolding run_external
  run_external-Tabled m p sh v =
      ended (execute_pipeline h.posix m.answers (some p) sh.run)
        (execute_pipeline-IsValid h.posix m.answers (some p) sh.run v)
    where
      ended :
          (r : Ending × Run S)
          → IsValid r.1.table
          → Tabled (elim r.0 as (λ _. LineEnd × Shell S) [
            | overrun ↦ (crashed, record sh { run = r.1 })
            | done ↦ (next, record sh { run = r.1 })
            | error ↦ (next, record sh { run = r.1 })
          ])
      ended (done, r) v' = v'
      ended (error, r) v' = v'
      ended (overrun, r) v' = v'

  behind_builtin-Tabled :
      (m : LineMemory) (p : Pipeline) (r : BuiltinEnd × Shell S)
      → Tabled r
      → Tabled (behind_builtin h m p r)
  behind_builtin-Tabled m p (handled, sh) v = v
  behind_builtin-Tabled m p (leaves, sh) v = v
  behind_builtin-Tabled m p (paused, sh) v = v
  behind_builtin-Tabled m p (broken, sh) v = v
  behind_builtin-Tabled m p (not_builtin, sh) v = run_external-Tabled m p sh v

  run_pipeline-Tabled :
      (m : LineMemory) (p : Pipeline) (sh : Shell S)
      → IsValid sh.run.table
      → Tabled (run_pipeline h m p sh)
  unfolding run_pipeline
  run_pipeline-Tabled m p sh v =
      let c = get_or p.commands 0 init_command in
      if-intro Tabled (p.command_count == 1)
        (λ _. behind_builtin-Tabled m p _ (
          if-intro Tabled (force_exec c) (λ _. v)
            (λ _. builtin_execute-IsValid h m.reports (some c) sh v)))
        (λ _. run_external-Tabled m p sh v)

  expand_and_run-Tabled :
      (m : LineMemory) (p : Pipeline) (sh : Shell S)
      → IsValid sh.run.table
      → Tabled (expand_and_run h m p sh)
  unfolding expand_and_run
  expand_and_run-Tabled m p sh v = expanded (expand_pipeline h.getenv m.words p)
    where
      expanded :
          (r : Verdict × Pipeline)
          → Tabled (elim r.0 as (λ _. LineEnd × Shell S) [
            | ok _ ↦ run_pipeline h m r.1 sh
            | failed ↦ (next, print sh (complaint (codes "shellforge: expansion error\n") ∷ []))
            | fault ↦ (crashed, sh)
          ])
      expanded (ok _, p') = run_pipeline-Tabled m p' sh v
      expanded (failed, p') = v
      expanded (fault, p') = v

  run_line-Tabled :
      (m : LineMemory) (p : Pipeline) (line : Bytes) (sh : Shell S)
      → IsValid sh.run.table
      → Tabled (run_line h m p line sh)
  unfolding run_line
  run_line-Tabled m p line sh v =
      if-intro Tabled (starts_comment line) (λ _. v)
        (λ _. parsed (parse_tokens m.parser (some (tokenize_line m.lexer line)) (some p)))
    where
      sh' : Shell S
      sh' = with_process sh (h.add_history line (process sh))

      parsed :
          (r : Parsed)
          → Tabled (elim r as (λ _. LineEnd × Shell S) [
            | Parser.ok p' ↦ expand_and_run h m p' sh'
            | Parser.rejected _ ↦
                (next, print sh' (complaint (codes "shellforge: parse error\n") ∷ []))
            | Parser.refused ↦
                (next, print sh' (complaint (codes "shellforge: parse error\n") ∷ []))
            | Parser.fault ↦ (crashed, sh')
          ])
      parsed (Parser.ok p') = expand_and_run-Tabled m p' sh' v
      parsed (Parser.rejected _) = v
      parsed Parser.refused = v
      parsed Parser.fault = v

  step-Tabled : (e : Event) (sh : Shell S) → IsValid sh.run.table → Tabled (step e sh)
  step-Tabled (typed m p line) sh v = run_line-Tabled m p line sh v
  step-Tabled (reported rs) sh v = sigchld_handler-IsValid rs sh.run.table v

  -- Through every session the job table stays valid: its 64 slots are there, and no number stands
  -- in two of them or is at or above the next one, whatever lines are typed, children reported, and
  -- system calls and allocations answered.
  pub session-IsValid :
      (es : List Event) (sh : Shell S) → IsValid sh.run.table → IsValid (session es sh).1.run.table
  unfolding session
  session-IsValid [] sh v = v
  session-IsValid (e ∷ es) sh v =
      goes_on (step e sh) (step-Tabled e sh v) (λ sh' v'. session-IsValid es sh' v')
    where
      goes_on :
          (r : LineEnd × Shell S)
          → Tabled r
          → ((sh' : Shell S) → IsValid sh'.run.table → Tabled (session es sh'))
          → Tabled (elim r.0 as (λ _. LineEnd × Shell S) [
            | next ↦ session es r.1
            | other ↦ (other, r.1)
          ])
      goes_on (next, sh') v' again = again sh' v'
      goes_on (ends, sh') v' again = v'
      goes_on (waits, sh') v' again = v'
      goes_on (crashed, sh') v' again = v'
