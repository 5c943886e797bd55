-- ===== src/User/Commands.antt =====
-- `execute_command` and the main loop of NanoBoot/user/sh.c. What a command does is a value: a text
-- that is printed, a system call, or one of the demonstrations.
pub mod Safe
use shellforge.Prelude.{
  ℕ, Bool, true, false, ◌&&◌, ◌||◌, Option, none, some, List, [], ◌∷◌, ◌++◌, ◌==◌, ltb,
  if◌then◌else◌, get_or, drop, take, Bytes, codes,
}
use shellforge.User.Lexer.{tokenize, max_line_tokens, tokens, failed, out_of_fuel}
use shellforge.User.Parser.{UserCommand, parsed, refused, parse_command}
use shellforge.User.Numbers.{parse_num}

pub data Action : Type 0 where
  nothing help shows_pid ps ls forktest schedtest isotest exits : Action
  says : Bytes → Action
  sleeps : ℕ → Action
  shows_file : Bytes → Action
  broken : Action

abbrev pub streq : Bytes → Bytes → Bool
streq [] [] = true
streq (a ∷ x) (b ∷ y) = a == b && streq x y
streq _ _ = false

abbrev pub is_set : Bytes → Bool
is_set [] = false
is_set (c ∷ cs) = true

-- The arguments that are printed, with a space between them; a string that is not there is a fault.
unfoldable pub echo_text : List (Option Bytes) → Option Bytes
echo_text [] = some []
echo_text (none ∷ more) = none
echo_text (some a ∷ []) = some a
echo_text (some a ∷ b ∷ more) = elim (echo_text (b ∷ more)) [
  | none ↦ none
  | some t ↦ some (a ++ (codes " " ++ t))
]

abbrev pub argument : UserCommand → (Bytes → Action) → Action
argument cmd f = elim (get_or cmd.argv 1 none) [ none ↦ broken | some a ↦ f a ]

unfoldable pub run_program : Bytes → UserCommand → Action
run_program prog cmd =
    if streq prog (codes "help")
    then help
    else if streq prog (codes "getpid")
    then shows_pid
    else if streq prog (codes "ps")
    then ps
    else if streq prog (codes "echo")
    then elim (echo_text (drop 1 (take cmd.argc cmd.argv))) [
      | none ↦ broken
      | some t ↦ says (t ++ codes "\n")
    ]
    else if streq prog (codes "sleep")
    then if ltb cmd.argc 2
      then says (codes "sleep: missing operand\n")
      else argument cmd (λ a. sleeps (parse_num a))
    else if streq prog (codes "forktest")
    then forktest
    else if streq prog (codes "ls")
    then ls
    else if streq prog (codes "cat")
    then if ltb cmd.argc 2
      then says (codes "cat: missing file operand\n")
      else argument cmd shows_file
    else if streq prog (codes "schedtest")
    then schedtest
    else if streq prog (codes "isotest")
    then isotest
    else if streq prog (codes "exit")
    then exits
    else says (codes "unknown command; type 'help'\n")

unfoldable pub execute_user : UserCommand → Action
execute_user cmd =
    if cmd.argc == 0
    then nothing
    else if cmd.has_pipe
    then says (codes "pipe: not supported by NanoBoot architecture (no pipe syscall)\n")
    else if is_set cmd.redir_in || is_set cmd.redir_out
    then says (codes "redirection: not supported by NanoBoot architecture (read-only RAMFS)\n")
    else if cmd.background
    then says (codes "background: not supported by NanoBoot architecture\n")
    else elim (get_or cmd.argv 0 none) [ none ↦ broken | some prog ↦ run_program prog cmd ]

-- A round of the main loop behind the editor; `cmd` is the command of the round before.
unfoldable pub run_user_line : UserCommand → Bytes → Action
run_user_line cmd line = elim (tokenize max_line_tokens line) [
  | failed message ↦ says (message ++ codes "\n")
  | out_of_fuel ↦ broken
  | tokens ts ↦ elim (parse_command cmd ts) [
    | refused message _ ↦ says (message ++ codes "\n")
    | parsed c ↦ execute_user c
  ]
]
