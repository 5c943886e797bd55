-- ===== src/Shell/CommandText.antt =====
-- src/executor.c: the text of a background command for the job table, built by `strcat` in a buffer
-- whose size is computed first, for a pipeline, or guessed, for a single command.
pub mod Fits
use shellforge.Prelude.{
  ℕ, ◌+◌, ◌-◌, Bool, true, false, Option, none, some, List, [], ◌∷◌, if◌then◌else◌, get_or, length,
  take, Bytes, codes,
}
use shellforge.Shell.Result.{Result, ok, failed, fault, ◌>>=◌, strcat}
use shellforge.Shell.Parser.{Command, Pipeline, init_command}

-- `cmd->argv[j]` for `j < cmd->argc`, and `pipeline->commands[i]` for `i < command_count`.
abbrev pub args_of : Command → List (Option Bytes)
args_of c = take c.argc c.argv

abbrev pub commands_of : Pipeline → List Command
commands_of p = take p.command_count p.commands

-- `pipeline->commands[pipeline->command_count - 1].background`
abbrev pub is_background : Pipeline → Bool
is_background p = (get_or p.commands (p.command_count - 1) init_command).background

abbrev pub is_empty : Bytes → Bool
is_empty [] = true
is_empty _ = false

unfoldable pub args_size : List (Option Bytes) → ℕ
args_size [] = 0
args_size (none ∷ more) = args_size more
args_size (some a ∷ more) = length a + 1 + args_size more

unfoldable pub commands_size : List Command → ℕ
commands_size [] = 0
commands_size (c ∷ []) = args_size (args_of c)
commands_size (c ∷ d ∷ cs) = args_size (args_of c) + 3 + commands_size (d ∷ cs)

unfoldable pub command_size : Pipeline → ℕ
command_size p = 1 + commands_size (commands_of p) + (if is_background p then 3 else 0)

-- An argument, with a space in front of it unless the text is still empty.
unfoldable pub append_word : ℕ → Bytes → Bytes → Result Bytes
append_word size text a =
    (if is_empty text then ok text else strcat size text (codes " ")) >>= λ t. strcat size t a

unfoldable pub append_args : ℕ → Bytes → List (Option Bytes) → Result Bytes
append_args size text [] = ok text
append_args size text (none ∷ more) = append_args size text more
append_args size text (some a ∷ more) = append_word size text a >>= λ t. append_args size t more

unfoldable pub append_commands : ℕ → Bytes → List Command → Result Bytes
append_commands size text [] = ok text
append_commands size text (c ∷ []) = append_args size text (args_of c)
append_commands size text (c ∷ d ∷ cs) = append_args size text (args_of c) >>= λ t.
    strcat size t (codes " | ") >>= λ t'. append_commands size t' (d ∷ cs)

-- The flag is what `malloc` answers.
unfoldable pub build_command_string : Bool → Option Pipeline → Result Bytes
build_command_string malloc_ok none = failed
build_command_string malloc_ok (some p) =
    let size = command_size p in
    if malloc_ok
    then (append_commands size [] (commands_of p) >>= λ t.
        if is_background p then strcat size t (codes " &") else ok t)
    else failed

-- In `execute_command`: the arguments behind the first have a space in front. `strcat` of NULL is
-- a fault.
unfoldable pub append_rest : ℕ → Bytes → List (Option Bytes) → Result Bytes
append_rest size text [] = ok text
append_rest size text (none ∷ more) = fault
append_rest size text (some a ∷ more) =
    strcat size text (codes " ") >>= λ t. strcat size t a >>= λ t'. append_rest size t' more

-- `malloc(strlen(cmd->argv[0]) + 64)`
unfoldable pub background_string : Bool → List (Option Bytes) → Result Bytes
background_string malloc_ok (some a ∷ more) =
    let size = length a + 64 in
    if malloc_ok
    then (strcat size [] a >>= λ t. append_rest size t more >>= λ t'. strcat size t' (codes " &"))
    else failed
background_string malloc_ok _ = fault
