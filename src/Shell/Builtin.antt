-- ===== src/Shell/Builtin.antt =====
-- src/builtin.c: a second set of builtins, which src/main.c does not call.
use shellforge.Prelude.{
  Bool, true, false, ◌||◌, Option, none, some, List, [], ◌∷◌, ◌++◌, ◌==◌, ltb, if◌then◌else◌,
  get_or, drop, Bytes, codes,
}
use shellforge.Shell.Result.{Result, ok, fault, ◌>>=◌}
use shellforge.Shell.Parser.{Command}
use shellforge.Shell.CommandText.{args_of}
use shellforge.Shell.Host.{
  Host, text, complaint, Shell, same, print, change_directory, print_directory,
}

unfoldable pub is_builtin : Option Bytes → Bool
is_builtin none = false
is_builtin (some c) =
    same c (codes "cd") || same c (codes "pwd") || same c (codes "echo") || same c (codes "exit")

-- The text of `echo`, with a space behind each argument but the last. `%s` of NULL is a fault.
unfoldable pub echo_loop : List (Option Bytes) → Result Bytes
echo_loop [] = ok []
echo_loop (none ∷ more) = fault
echo_loop (some a ∷ []) = ok a
echo_loop (some a ∷ b ∷ more) = echo_loop (b ∷ more) >>= λ t. ok (a ++ (codes " " ++ t))

module _ {S : Type 0} (h : Host S) where
  unfoldable pub cd : Command → Shell S → Result (Shell S)
  cd cmd sh =
      if cmd.argc == 1
      then elim (h.getenv (codes "HOME")) [
        | none ↦ ok (print sh (complaint (codes "cd: HOME not set\n") ∷ []))
        | some dir ↦ ok (change_directory h dir sh)
      ]
      else if cmd.argc == 2
      then elim (get_or cmd.argv 1 none) [
        | none ↦ fault
        | some dir ↦ ok (change_directory h dir sh)
      ]
      else ok (print sh (complaint (codes "cd: too many arguments\n") ∷ []))

  -- The flag is the value 1, which ends the shell.
  unfoldable pub execute_named : Bytes → Command → Shell S → Result (Bool × Shell S)
  execute_named name cmd sh =
      if same name (codes "cd")
      then (cd cmd sh >>= λ sh'. ok (false, sh'))
      else if same name (codes "pwd")
      then ok (
        false,
        if ltb 1 cmd.argc
            then print sh (complaint (codes "pwd: too many arguments\n") ∷ [])
            else print_directory h sh,
      )
      else if same name (codes "echo")
      then (echo_loop (drop 1 (args_of cmd)) >>= λ t.
          ok (false, print sh (text (t ++ codes "\n") ∷ [])))
      else if same name (codes "exit")
      then (if ltb 1 cmd.argc
          then ok (false, print sh (complaint (codes "exit: too many arguments\n") ∷ []))
          else ok (true, sh))
      else ok (false, sh)

  unfoldable pub execute_builtin : Option Command → Shell S → Result (Bool × Shell S)
  execute_builtin none sh = ok (false, sh)
  execute_builtin (some cmd) sh =
      if cmd.argc == 0 then ok (false, sh) else elim (get_or cmd.argv 0 none) [
        | none ↦ ok (false, sh)
        | some name ↦ execute_named name cmd sh
      ]
