-- ===== src/Shell/Main.antt =====
-- src/main.c: the builtins, the SIGCHLD handler, and what becomes of a line. What SF_DEBUG prints, the
-- text of `help`, and the strings that are freed are left out.
pub mod Builtins
pub mod Typed
pub mod Tables
pub mod Session
pub mod Agree
use shellforge.Prelude.{
  ℕ, Bool, true, false, ◌&&◌, ◌||◌, Option, none, some, List, [], ◌∷◌, ◌==◌, ltb, if◌then◌else◌,
  get_or, Bytes, codes,
}
use shellforge.Shell.Result.{ok, failed, fault}
use shellforge.Shell.Lexer.{Alloc, tokenize_line}
use shellforge.Shell.Parser.{Command, Pipeline, parse_tokens, init_command}
use shellforge.Shell.Parser
use shellforge.Shell.Expand.Commands.{WordMemory, expand_pipeline}
use shellforge.Shell.Executor.{Answers, done, error, overrun, is_some, execute_pipeline}
use shellforge.Shell.Host.{Host, text, complaint, Shell, same, print, process, with_process}
use shellforge.Shell.Main.Builtins.{
  Report, BuiltinEnd, handled, leaves, not_builtin, paused, broken, builtin_execute,
}

-- What the allocations of a line answer, and the children that are reported while `fg` waits.
pub record LineMemory : Type 0 where
  pub lexer : ℕ → Alloc
  pub parser : ℕ → Bool
  pub words : ℕ → WordMemory
  pub answers : Answers
  pub reports : List (List Report)

-- The shell reads the next line, or ends; or it waits in `fg`; or the code has made an access
-- that has no defined result.
pub data LineEnd : Type 0 where
  next ends waits crashed : LineEnd

abbrev pub starts_comment : Bytes → Bool
starts_comment [] = true
starts_comment (c ∷ cs) = c == b'#'

-- `has_redir`, and `force_exec`: `echo` and `pwd` with a redirection are left to `execvp`.
abbrev pub has_redir : Command → Bool
has_redir c = is_some c.input || is_some c.output

abbrev pub is_echo_or_pwd : Option Bytes → Bool
is_echo_or_pwd none = false
is_echo_or_pwd (some name) = same name (codes "echo") || same name (codes "pwd")

unfoldable pub force_exec : Command → Bool
force_exec c = has_redir c && (ltb 0 c.argc && is_echo_or_pwd (get_or c.argv 0 none))

module _ {S : Type 0} (h : Host S) where
  unfoldable pub run_external : LineMemory → Pipeline → Shell S → LineEnd × Shell S
  run_external m p sh =
      let (ending, r) = execute_pipeline h.posix m.answers (some p) sh.run in
      let sh' = record sh { run = r } in
      elim ending [ overrun ↦ (crashed, sh') | done ↦ (next, sh') | error ↦ (next, sh') ]

  -- What is done with the result of `builtin_execute`.
  abbrev pub behind_builtin : LineMemory → Pipeline → BuiltinEnd × Shell S → LineEnd × Shell S
  behind_builtin m p (leaves, sh) = (ends, sh)
  behind_builtin m p (handled, sh) = (next, sh)
  behind_builtin m p (paused, sh) = (waits, sh)
  behind_builtin m p (broken, sh) = (crashed, sh)
  behind_builtin m p (not_builtin, sh) = run_external m p sh

  unfoldable pub run_pipeline : LineMemory → Pipeline → Shell S → LineEnd × Shell S
  run_pipeline m p sh =
      let c = get_or p.commands 0 init_command in
      if p.command_count == 1
      then behind_builtin m p
          (if force_exec c then (not_builtin, sh) else builtin_execute h m.reports (some c) sh)
      else run_external m p sh

  unfoldable pub expand_and_run : LineMemory → Pipeline → Shell S → LineEnd × Shell S
  expand_and_run m p sh =
      let (r, p') = expand_pipeline h.getenv m.words p in
      elim r [
        | ok _ ↦ run_pipeline m p' sh
        | failed ↦ (next, print sh (complaint (codes "shellforge: expansion error\n") ∷ []))
        | fault ↦ (crashed, sh)
      ]

  -- The rounds of the loop of `main`, for a line that `readline` has given. `p` is the pipeline
  -- as it stands before `parse_tokens`.
  unfoldable pub run_line : LineMemory → Pipeline → Bytes → Shell S → LineEnd × Shell S
  run_line m p line sh =
      if starts_comment line
      then (next, sh)
      else (let sh' = with_process sh (h.add_history line (process sh)) in
          let refused = print sh' (complaint (codes "shellforge: parse error\n") ∷ []) in
          elim (parse_tokens m.parser (some (tokenize_line m.lexer line)) (some p)) [
            | Parser.ok p' ↦ expand_and_run m p' sh'
            | Parser.rejected _ ↦ (next, refused)
            | Parser.refused ↦ (next, refused)
            | Parser.fault ↦ (crashed, sh')
          ])
