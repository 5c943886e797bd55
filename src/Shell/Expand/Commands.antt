-- ===== src/Shell/Expand/Commands.antt =====
-- src/expand.c: `expand_command` and `expand_pipeline`, which put the expanded words in the place of
-- the words.
pub mod Whole
use shellforge.Prelude.{ℕ, zero, suc, ◌+◌, Option, none, some, List, [], ◌∷◌, Bytes}
use shellforge.Shell.Result.{Result, ok, failed, fault}
use shellforge.Shell.Parser.{Command, Pipeline}
use shellforge.Shell.Expand.{Memory, expand_string}

-- The memory of each word of a command.
pub record WordMemory : Type 0 where
  pub argument : ℕ → Memory
  pub input : Memory
  pub output : Memory

-- `ok` is 0, `failed` is -1, each with what the call leaves: `free` of the old word, and the
-- expanded one, or the old word when its expansion failed.
abbrev pub Verdict : Type 0
Verdict = Result Unit

abbrev pub Outcome : Type 0 → Type 0
Outcome A = Verdict × A

-- The three parts of a command in order; one that has failed ends the call, and the parts behind
-- it are not reached.
abbrev pub in_order :
    Command
    → Outcome (List (Option Bytes))
    → Outcome (Option Bytes)
    → Outcome (Option Bytes)
    → Outcome Command
in_order cmd (ok _, argv) (ok _, i) (r, o) = (r, record cmd { argv = argv; input = i; output = o })
in_order cmd (ok _, argv) (r, i) _ = (r, record cmd { argv = argv; input = i })
in_order cmd (r, argv) _ _ = (r, record cmd { argv = argv })

module _ (getenv : Bytes → Option Bytes) where
  -- The loop over the arguments from place `i` on, `n` of which are left; `argv[i]` is the first of
  -- the list, and a fault where the array has ended.
  unfoldable pub expand_args :
      (ℕ → Memory) → ℕ → ℕ → List (Option Bytes) → Outcome (List (Option Bytes))
  expand_args m i zero argv = (ok tt, argv)
  expand_args m i (suc n) [] = (fault, [])
  expand_args m i (suc n) (a ∷ argv) =
      let (r, rest) = expand_args m (i + 1) n argv in
      elim (expand_string (m i) getenv a) [
        | ok expanded ↦ (r, some expanded ∷ rest)
        | failed ↦ (failed, a ∷ argv)
        | fault ↦ (fault, a ∷ argv)
      ]

  unfoldable pub expand_file : Memory → Option Bytes → Outcome (Option Bytes)
  expand_file m none = (ok tt, none)
  expand_file m (some f) = elim (expand_string m getenv (some f)) [
    | ok expanded ↦ (ok tt, some expanded)
    | failed ↦ (failed, some f)
    | fault ↦ (fault, some f)
  ]

  unfoldable pub expand_command : WordMemory → Command → Outcome Command
  expand_command m cmd =
      in_order cmd (expand_args m.argument 0 cmd.argc cmd.argv) (expand_file m.input cmd.input)
        (expand_file m.output cmd.output)

  -- The loop over the commands from place `i` on.
  unfoldable pub expand_commands : (ℕ → WordMemory) → ℕ → ℕ → List Command → Outcome (List Command)
  expand_commands m i zero cs = (ok tt, cs)
  expand_commands m i (suc n) [] = (fault, [])
  expand_commands m i (suc n) (c ∷ cs) =
      let (r, rest) = expand_commands m (i + 1) n cs in
      let (r', c') = expand_command (m i) c in
      elim r' [ ok _ ↦ (r, c' ∷ rest) | failed ↦ (failed, c' ∷ cs) | fault ↦ (fault, c' ∷ cs) ]

  unfoldable pub expand_pipeline : (ℕ → WordMemory) → Pipeline → Outcome Pipeline
  expand_pipeline m p =
      let (r, cs) = expand_commands m 0 p.command_count p.commands in
      (r, record p { commands = cs })
