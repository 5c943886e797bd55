-- ===== src/Shell/Parser.antt =====
-- include/parser.h and src/parser.c: from the tokens of a line to a pipeline of commands.
-- The arrays `argv` and `commands` are lists of their full size, written in place.
pub mod Abstract
pub mod Arrays
pub mod Rounds
pub mod Refine
pub mod Unique
pub mod Cleanup
pub mod Print
use shellforge.Prelude.{
  ℕ, zero, suc, ◌+◌, ◌-◌, Bool, true, false, Option, none, some, List, [], ◌∷◌, leb, ◌==◌, ◌||◌,
  if◌then◌else◌, get_or, set, replicate, Bytes,
}
use shellforge.Shell.Token.{
  TokenType, word, pipe, redirect_in, redirect_out, redirect_append, ampersand, end, error, Token,
}

abbrev pub max_commands : ℕ
max_commands = 16

abbrev pub max_args : ℕ
max_args = 64

pub record Command : Type 0 where
  pub argv : List (Option Bytes)
  pub argc : ℕ
  pub input : Option Bytes
  pub output : Option Bytes
  pub append : Bool
  pub background : Bool

pub record Pipeline : Type 0 where
  pub commands : List Command
  pub command_count : ℕ

unfoldable pub init_command : Command
init_command = record {
  argv = replicate max_args none;
  argc = 0;
  input = none;
  output = none;
  append = false;
  background = false;
}

unfoldable pub init_pipeline : Pipeline
init_pipeline = record { commands = replicate max_commands init_command; command_count = 0 }

-- The flag is `false` where the source returns -1; the command is as the call leaves it.
unfoldable pub add_argument : Bool → Command → Bytes → Bool × Command
add_argument dup cmd value =
    if leb (max_args - 1) cmd.argc
    then (false, cmd)
    else if dup
    then (
      true,
      record cmd {
        argv = set (set cmd.argv cmd.argc (some value)) (cmd.argc + 1) none;
        argc = cmd.argc + 1;
      },
    )
    else (false, record cmd { argv = set cmd.argv cmd.argc none })

-- `set_string(dest, value)` with the old and the new content of `*dest`.
unfoldable pub set_string : Bool → Option Bytes → Bytes → Bool × Option Bytes
set_string dup dest value = if dup then (true, some value) else (false, dest)

-- `ok` is 0. `rejected` is -1, with the pipeline as the call leaves it; `refused` is the -1 of the
-- first test, which touches no pipeline. `fault` is a `strdup` of NULL, which has no defined result.
pub data Parsed : Type 0 where
  ok rejected : Pipeline → Parsed
  refused fault : Parsed

-- One round of the loop ends it, or goes on with the pipeline, the index of the current command,
-- and whether the round has taken the next token too (`i++`).
pub data Round : Type 0 where
  go : Bool → Pipeline → ℕ → Round
  stop : Parsed → Round

abbrev pub current : Pipeline → ℕ → Command
current p k = get_or p.commands k init_command

abbrev pub with_current : Pipeline → ℕ → Command → Pipeline
with_current p k c = record p { commands = set p.commands k c }

-- After `add_argument` in round `i`.
abbrev pub added : Pipeline → ℕ → Bool × Command → Round
added p k (true, c) = go false (with_current p k c) k
added p k (false, c) = stop (rejected (with_current p k c))

unfoldable pub parse_word : Bool → Pipeline → ℕ → Option Bytes → Round
parse_word dup p k none = stop (rejected p)
parse_word dup p k (some v) = added p k (add_argument dup (current p k) v)

pub data Redirect : Type 0 where
  input output : Redirect

-- The command behind `set_string(&cmd->input, …)` or `set_string(&cmd->output, …)`.
abbrev pub redirected : Pipeline → ℕ → Command → Redirect → Bool × Option Bytes → Round
redirected p k c input (true, s) = go true (with_current p k (record c { input = s })) k
redirected p k c output (true, s) = go true (with_current p k (record c { output = s })) k
redirected p k c _ (false, s) = stop (rejected (with_current p k c))

abbrev pub target : Command → Redirect → Option Bytes
target c input = c.input
target c output = c.output

-- The operand of a redirection, which is the next token; `c` is the command, with its flag set.
unfoldable pub parse_operand :
    Bool → Pipeline → ℕ → Command → Redirect → TokenType → Option Bytes → Round
parse_operand dup p k c r word none = stop fault
parse_operand dup p k c r word (some v) = redirected p k c r (set_string dup (target c r) v)
parse_operand dup p k c r _ v = stop (rejected p)

unfoldable pub parse_redirect : Bool → Pipeline → ℕ → Command → Redirect → List Token → Round
parse_redirect dup p k c r [] = stop (rejected p)
parse_redirect dup p k c r (t ∷ rest) = parse_operand dup p k c r t.type t.value

unfoldable pub parse_pipe : Pipeline → ℕ → Round
parse_pipe p k =
    if (current p k).argc == 0 || leb (max_commands - 1) k
    then stop (rejected p)
    else go false (record p { command_count = p.command_count + 1 }) (k + 1)

-- The `switch` on the type of token `i`. `dup j` is what the `strdup` made for token `j` answers.
unfoldable pub parse_round :
    (ℕ → Bool) → ℕ → Pipeline → ℕ → TokenType → Option Bytes → List Token → Round
parse_round dup i p k word v rest = parse_word (dup i) p k v
parse_round dup i p k redirect_in v rest = parse_redirect (dup (i + 1)) p k (current p k) input rest
parse_round dup i p k redirect_out v rest =
    parse_redirect (dup (i + 1)) p k (record (current p k) { append = false }) output rest
parse_round dup i p k redirect_append v rest =
    parse_redirect (dup (i + 1)) p k (record (current p k) { append = true }) output rest
parse_round dup i p k pipe v rest = parse_pipe p k
parse_round dup i p k ampersand v rest =
    go false (with_current p k (record (current p k) { background = true })) k
parse_round dup i p k end v rest = stop (ok p)
parse_round dup i p k error v rest = stop (rejected p)

-- The loop over the tokens from place `i` on; `skip` says that token `i` has been taken already.
unfoldable pub parse_loop : (ℕ → Bool) → ℕ → Bool → Pipeline → ℕ → List Token → Parsed
parse_loop dup i skip p k [] = ok p
parse_loop dup i true p k (t ∷ rest) = parse_loop dup (i + 1) false p k rest
parse_loop dup i false p k (t ∷ rest) = elim (parse_round dup i p k t.type t.value rest) [
  | go skip p' k' ↦ parse_loop dup (i + 1) skip p' k' rest
  | stop r ↦ r
]

-- The list is `tokens[0 .. token_count)`. NULL, and a count of 0, are refused.
unfoldable pub parse_tokens : (ℕ → Bool) → Option (List Token) → Option Pipeline → Parsed
parse_tokens dup (some (t ∷ ts)) (some p) =
    parse_loop dup 0 false (record init_pipeline { command_count = 1 }) 0 (t ∷ ts)
parse_tokens dup _ _ = refused

-- `free` of the strings in use; the count of a command says how many its `argv` holds.
abbrev pub clear : ℕ → List (Option Bytes) → List (Option Bytes)
clear zero xs = xs
clear (suc n) [] = []
clear (suc n) (x ∷ xs) = none ∷ clear n xs

unfoldable pub free_command : Command → Command
free_command c = record {
  argv = clear c.argc c.argv;
  argc = 0;
  input = none;
  output = none;
  append = false;
  background = false;
}

unfoldable pub free_commands : ℕ → List Command → List Command
free_commands zero cs = cs
free_commands (suc n) [] = []
free_commands (suc n) (c ∷ cs) = free_command c ∷ free_commands n cs

unfoldable pub free_pipeline : Pipeline → Pipeline
free_pipeline p = record { commands = free_commands p.command_count p.commands; command_count = 0 }
