-- ===== src/Shell/Main/Agree.antt =====
-- The builtins of src/main.c and those of src/builtin.c, where they are to do the same.
use shellforge.Prelude.{
  ◌≡◌, refl, ◌<◌, ap, ◌∙◌, Bool, true, false, Option, none, some, List, [], ◌∷◌, ◌++◌, append-nil,
  drop, get_or, ◌==◌, if◌then◌else◌, arith, Bytes, codes,
}
use shellforge.Shell.Result.{Result, ok, failed, fault, ◌>>=◌}
use shellforge.Shell.Parser.{Command}
use shellforge.Shell.CommandText.{args_of}
use shellforge.Shell.Host.{Host, Shell, text, print}
use shellforge.Shell.Builtin.{echo_loop, cd, execute_named, execute_builtin}
use shellforge.Shell.Main.Builtins.{
  Report, BuiltinEnd, handled, leaves, broken, echo_words, builtin_cd, builtin_echo, builtin_named,
  builtin_execute,
}

-- What echo prints behind its first argument.
abbrev behind : Result Bytes → Result Bytes
behind r = r >>= λ t. ok (codes " " ++ t)

echo_words-behind :
    (a : Option Bytes) (more : List (Option Bytes))
    → echo_words false (a ∷ more) ≡ behind (echo_words true (a ∷ more))
unfolding echo_words
echo_words-behind none more = refl
echo_words-behind (some a) more = again (echo_words false more)
  where
    again :
        (r : Result Bytes)
        → (r >>= λ t. ok (codes " " ++ (a ++ t)))
          ≡ ((r >>= λ t. ok ([] ++ (a ++ t))) >>= λ t. ok (codes " " ++ t))
    again (ok t) = refl
    again failed = refl
    again fault = refl

echo_words-echo_loop : (args : List (Option Bytes)) → echo_words true args ≡ echo_loop args
unfolding echo_words echo_loop
echo_words-echo_loop [] = refl
echo_words-echo_loop (none ∷ more) = refl
echo_words-echo_loop (some a ∷ []) = ap ok (append-nil a)
echo_words-echo_loop (some a ∷ b ∷ more) =
    ap (λ r. r >>= λ t. ok (a ++ t))
      (echo_words-behind b more ∙ ap behind (echo_words-echo_loop (b ∷ more)))
    ∙ joined (echo_loop (b ∷ more))
  where
    joined :
        (r : Result Bytes)
        → (behind r >>= λ t. ok (a ++ t)) ≡ (r >>= λ t. ok (a ++ (codes " " ++ t)))
    joined (ok t) = refl
    joined failed = refl
    joined fault = refl

module _ {S : Type 0} (h : Host S) where
  -- The commands that both are made for, written as both allow.
  pub data Common (cmd : Command) : Type 0 where
    echoes : 0 < cmd.argc → get_or cmd.argv 0 none ≡ some (codes "echo") → Common cmd
    prints : cmd.argc ≡ 1 → get_or cmd.argv 0 none ≡ some (codes "pwd") → Common cmd
    exits : cmd.argc ≡ 1 → get_or cmd.argv 0 none ≡ some (codes "exit") → Common cmd
    goes_home :
        (home : Bytes)
        → cmd.argc ≡ 1
        → get_or cmd.argv 0 none ≡ some (codes "cd")
        → h.getenv (codes "HOME") ≡ some home
        → Common cmd
    goes_to :
        (path : Bytes)
        → cmd.argc ≡ 2
        → get_or cmd.argv 0 none ≡ some (codes "cd")
        → get_or cmd.argv 1 none ≡ some path
        → Common cmd

  -- The result of `execute_builtin` as the main loop reads that of `builtin_execute`.
  abbrev pub answered : Shell S → Result (Bool × Shell S) → BuiltinEnd × Shell S
  answered sh (ok (b, sh')) = (if b then leaves else handled, sh')
  answered sh _ = (broken, sh)

  echo-agrees :
      (cmd : Command) (sh : Shell S)
      → builtin_echo h cmd sh
        ≡ answered sh (
            echo_loop (drop 1 (args_of cmd)) >>= λ t.
            ok (false, print sh (text (t ++ codes "\n") ∷ [])))
  unfolding builtin_echo
  echo-agrees cmd sh =
      ap
        (λ r. elim r as (λ _. BuiltinEnd × Shell S) [
          | ok t ↦ (handled, print sh (text (t ++ codes "\n") ∷ []))
          | _ ↦ (broken, sh)
        ])
        (echo_words-echo_loop (drop 1 (args_of cmd)))
      ∙ same_end (echo_loop (drop 1 (args_of cmd)))
    where
      same_end :
          (r : Result Bytes)
          → (elim r as (λ _. BuiltinEnd × Shell S) [
            | ok t ↦ (handled, print sh (text (t ++ codes "\n") ∷ []))
            | _ ↦ (broken, sh)
          ])
            ≡ answered sh (r >>= λ t. ok (false, print sh (text (t ++ codes "\n") ∷ [])))
      same_end (ok t) = refl
      same_end failed = refl
      same_end fault = refl

  -- `builtin_execute` of src/main.c and `execute_builtin` of src/builtin.c do the same, print the
  -- same and return the same for `echo` with any arguments, for `pwd` and `exit` with none, for
  -- `cd` with one, and for `cd` with none where HOME is set.
  pub builtin_execute-execute_builtin :
      (reports : List (List Report)) (cmd : Command) (sh : Shell S)
      → Common cmd
      → builtin_execute h reports (some cmd) sh ≡ answered sh (execute_builtin h (some cmd) sh)
  unfolding builtin_execute execute_builtin builtin_named execute_named builtin_cd cd
  builtin_execute-execute_builtin reports cmd sh (echoes some_args e) =
      let no : (cmd.argc == 0) ≡ false = ground arith in rw (no, e) (echo-agrees cmd sh)
  builtin_execute-execute_builtin reports cmd sh (prints one e) =
      rw (e, builtin_named, execute_named, one) refl
  builtin_execute-execute_builtin reports cmd sh (exits one e) =
      rw (e, builtin_named, execute_named, one) refl
  builtin_execute-execute_builtin reports cmd sh (goes_home home one e e') =
      rw (e, builtin_named, execute_named, builtin_cd, cd, one, e') refl
  builtin_execute-execute_builtin reports cmd sh (goes_to path two e e') =
      rw (e, builtin_named, execute_named, builtin_cd, cd, two, e') refl
