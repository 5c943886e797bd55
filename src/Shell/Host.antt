-- ===== src/Shell/Host.antt =====
-- What the shell itself works on besides the tokens: the calls that src/main.c and src/builtin.c make
-- outside of the repository, as a parameter, and what the shell has printed so far.
use shellforge.Prelude.{
  ℕ, Bool, true, false, ◌&&◌, Option, none, some, List, [], ◌∷◌, ◌++◌, ◌==◌, Bytes, codes,
}
use shellforge.Shell.Jobs.{JobLine}
use shellforge.Shell.Executor.{Posix, Run}

-- `kill pgid` is SIGCONT to the group. `atoi` is `none` for a negative number, which no job has.
-- `getcwd` is asked for at most 4096 bytes.
pub record Host (S : Type 0) : Type 0 where
  pub posix : Posix S
  pub getenv : Bytes → Option Bytes
  pub chdir : Bytes → S → Bool × S
  pub getcwd : S → Option Bytes
  pub add_history : Bytes → S → S
  pub history_list : S → Option (List Bytes)
  pub atoi : Bytes → Option ℕ
  pub kill : ℕ → S → S

-- What is printed: texts; the fixed text of `help`; the values of `jobs`, `history` and `bg`; and messages on the error stream.
pub data Output : Type 0 where
  text complaint : Bytes → Output
  help_text : Output
  job_lines : List JobLine → Output
  history_line : ℕ → Bytes → Output
  resumed : ℕ → Option Bytes → Output

pub record Shell (S : Type 0) : Type 0 where
  pub run : Run S
  pub output : List Output

-- `strcmp(a, b) == 0`
abbrev pub same : Bytes → Bytes → Bool
same [] [] = true
same (a ∷ x) (b ∷ y) = a == b && same x y
same _ _ = false

module _ {S : Type 0} where
  abbrev pub print : Shell S → List Output → Shell S
  print sh o = record sh { output = sh.output ++ o }

  abbrev pub process : Shell S → S
  process sh = sh.run.process

  abbrev pub with_process : Shell S → S → Shell S
  with_process sh s = record sh { run = record sh.run { process = s } }

  -- `chdir`, or a message of `perror`.
  abbrev pub change_directory : Host S → Bytes → Shell S → Shell S
  change_directory h path sh =
      let (changed, s) = h.chdir path (process sh) in
      let sh' = with_process sh s in
      elim changed [ true ↦ sh' | false ↦ print sh' (complaint (codes "cd") ∷ []) ]

  abbrev pub print_directory : Host S → Shell S → Shell S
  print_directory h sh = elim (h.getcwd (process sh)) [
    | some cwd ↦ print sh (text (cwd ++ codes "\n") ∷ [])
    | none ↦ print sh (complaint (codes "pwd") ∷ [])
  ]
