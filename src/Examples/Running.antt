-- ===== src/Examples/Running.antt =====
-- The theorems about the pipelines that the shell runs, and about its builtins, at concrete inputs.
use shellforge.Prelude.{
  ◌≡◌, refl, ◌⊎◌, ℕ, true, some, List, [], ◌∷◌, map, padded, length, ◌+◌, ◌<◌, ◌≤◌, codes, arith,
}
use shellforge.Shell.Lexer.RoundTrip.{render}
use shellforge.Shell.Parser.{Command, Pipeline, init_pipeline}
use shellforge.Shell.Parser.Abstract.{Simple, empty, encode_command, encode}
use shellforge.Shell.Line.{pipeline_items, command_items}
use shellforge.Shell.Jobs.{jobs_init}
use shellforge.Shell.Jobs.Table.{IsValid}
use shellforge.Shell.Jobs.Full.{run, run-jobs_init-IsValid}
use shellforge.Shell.Result
use shellforge.Shell.Expand.Commands.{WordMemory, expand_pipeline}
use shellforge.Shell.Expand.Commands.Whole.{
  Each, ExpandsCommand, Ends, WordFails, IsParsed, expand_pipeline-Each,
}
use shellforge.Shell.CommandText.{build_command_string, background_string}
use shellforge.Shell.CommandText.Fits.{
  command_text, rest_text, background_text, build_command_string-command_text,
  background_string_lem,
}
use shellforge.Shell.Executor.{done, Run, Answers, execute_pipeline}
use shellforge.Shell.Executor.Success.{Plenty, execute_pipeline_done}
use shellforge.Shell.Executor.Whole.{Wires, execute_pipeline-Wires}
use shellforge.Shell.Host.{Shell}
use shellforge.Shell.Main.{run_external, run_line}
use shellforge.Shell.Main.Builtins.{exited, builtin_execute}
use shellforge.Shell.Main.Typed.{granted_line, RunsExpanded, run_line-RunsExpanded}
use shellforge.Shell.Main.Session.{session, session-IsValid}
use shellforge.Shell.Main.Session
use shellforge.Shell.Main.Agree.{echoes, answered, builtin_execute-execute_builtin}
use shellforge.Shell.Builtin.{execute_builtin}
use shellforge.Examples.System.{host_of, Opened, System, system, system-Descriptors}
use shellforge.Examples.Shell.{ls, wc, ls-IsTypable, wc-IsTypable, home, home-IsEnvironment, memory}

-- A background pipeline, and a shell with its three descriptors at a terminal.
abbrev two_commands : Pipeline
two_commands = encode (ls ∷ wc ∷ [])

abbrev terminal : Run System
terminal = record {
  process = record {
    files = some Opened.terminal ∷ some Opened.terminal ∷ some Opened.terminal ∷ [];
    pipes = 0;
    pids = 100;
  };
  table = jobs_init;
  children = [];
  waited = [];
  printed = [];
}

abbrev granted_all : Answers
granted_all = record { pids_ok = true; string_ok = true; dup_ok = true }

execute_pipeline-Wires_example :
    Wires system system-Descriptors two_commands terminal
      (execute_pipeline system granted_all (some two_commands) terminal)
unfolding encode system-Descriptors padded
execute_pipeline-Wires_example =
    execute_pipeline-Wires system system-Descriptors granted_all two_commands (encode_command ls)
      (encode_command wc) [] terminal (λ e. cc) (λ e. cc) refl

system-Plenty : Plenty system
system-Plenty = record { forks = λ s. (s.pids, refl); pipes = λ s. (_, refl) }

execute_pipeline_done_example :
    (execute_pipeline system granted_all (some two_commands) terminal).0 ≡ done
unfolding encode padded
execute_pipeline_done_example =
    execute_pipeline_done system granted_all two_commands (encode_command ls) (encode_command wc) []
      terminal system-Plenty refl refl

build_command_string-command_text_example :
    build_command_string true (some two_commands) ≡ Result.ok (command_text two_commands)
build_command_string-command_text_example = build_command_string-command_text two_commands

background_string_lem_example :
    ((length (rest_text (codes "9" ∷ [])) + 2 < 64)
      × (background_string true (map some (codes "sleep" ∷ codes "9" ∷ []))
          ≡ Result.ok (background_text (codes "sleep") (codes "9" ∷ []))))
    ⊎ ((64 ≤ length (rest_text (codes "9" ∷ [])) + 2)
        × (background_string true (map some (codes "sleep" ∷ codes "9" ∷ [])) ≡ Result.fault))
background_string_lem_example = background_string_lem (codes "sleep") (codes "9" ∷ [])

abbrev words_memory : WordMemory
words_memory = record { argument = λ _. memory; input = memory; output = memory }

ls-IsParsed : IsParsed home ls
ls-IsParsed = record {
  texts = (omega arith, tt);
  few = omega arith;
  input_text = tt;
  output_text = tt;
}

wc-IsParsed : IsParsed home wc
wc-IsParsed = record {
  texts = (omega arith, tt);
  few = omega arith;
  input_text = tt;
  output_text = omega arith;
}

expand_pipeline-Each_example :
    (cs' : List Simple) × ((expand_pipeline home (λ _. words_memory) (encode (ls ∷ wc ∷ []))).1
      ≡ encode cs')
    × (length cs' ≡ length (ls ∷ wc ∷ []))
    × Ends home
        ((j : ℕ) × WordFails home words_memory)
        (Each (ExpandsCommand home) (ls ∷ wc ∷ []) cs')
        (expand_pipeline home (λ _. words_memory) (encode (ls ∷ wc ∷ []))).0
expand_pipeline-Each_example =
    expand_pipeline-Each home (λ _. words_memory) (ls ∷ wc ∷ []) home-IsEnvironment (omega arith)
      (ls-IsParsed, (wc-IsParsed, tt))

abbrev started : Shell System
started = record { run = terminal; output = [] }

run_line-RunsExpanded_example :
    RunsExpanded
      (host_of home)
      (λ _. words_memory)
      (λ p'.
        run_external (host_of home) (granted_line (λ _. words_memory) granted_all []) p' started)
      started
      (ls ∷ wc ∷ [])
      (run_line
        (host_of home)
        (granted_line (λ _. words_memory) granted_all [])
        init_pipeline
        (render (pipeline_items (ls ∷ wc ∷ [])))
        started)
unfolding pipeline_items command_items
run_line-RunsExpanded_example =
    run_line-RunsExpanded (host_of home) (λ _. words_memory) granted_all [] init_pipeline ls wc []
      started home-IsEnvironment (ls-IsTypable, (wc-IsTypable, tt)) (omega arith) (omega arith)

abbrev ls_line : Session.Event
ls_line =
    Session.typed (granted_line (λ _. words_memory) granted_all []) init_pipeline
      (codes "ls | wc &")

session-IsValid_example :
    IsValid
      (session
        (host_of home)
        (ls_line ∷ Session.reported (record { pid = 100; status = exited } ∷ []) ∷ ls_line ∷ [])
        started).1.run.table
unfolding run
session-IsValid_example =
    session-IsValid (host_of home)
      (ls_line ∷ Session.reported (record { pid = 100; status = exited } ∷ []) ∷ ls_line ∷ [])
      started (run-jobs_init-IsValid [])

abbrev echo_a_b : Command
echo_a_b = encode_command (record empty { args = codes "echo" ∷ codes "a" ∷ codes "b" ∷ [] })

builtin_execute-execute_builtin_example :
    builtin_execute (host_of home) [] (some echo_a_b) started
    ≡ answered (host_of home) started (execute_builtin (host_of home) (some echo_a_b) started)
unfolding encode_command padded
builtin_execute-execute_builtin_example =
    builtin_execute-execute_builtin (host_of home) [] echo_a_b started (echoes (omega arith) refl)
