-- ===== src/User/Commands/Safe.antt =====
-- A line of NanoBoot/user/sh.c never leads to a string that is not there.
use shellforge.Prelude.{
  ℕ, zero, suc, ◌<◌, ◌≡◌, refl, sym, ap, subst, ◌∙◌, ◌||◌, false, Option, none, some, List, [], ◌∷◌,
  ◌++◌, map, drop, take, get_or, length, ◌==◌, ltb, if-intro, arith, Bytes, codes,
}
use shellforge.User.Lexer.{Tokenized, tokenize, max_line_tokens, tokens, failed, out_of_fuel}
use shellforge.User.Bounds.{InBounds, tokenize-InBounds}
use shellforge.User.Parser.{
  UserCommand, CommandResult, parsed, refused, max_user_args, parse_command,
}
use shellforge.User.Arguments.{arguments, Collects, Returns, parse_command-Returns}
use shellforge.User.Numbers.{parse_num}
use shellforge.User.Commands.{
  Action, says, sleeps, shows_file, broken, streq, is_set, echo_text, argument, run_program,
  execute_user, run_user_line,
}

abbrev pub IsSafe : Action → Type 0
IsSafe broken = ⊥
IsSafe _ = Unit

get_or-take :
    (n i : ℕ) (xs : List (Option Bytes)) → i < n → get_or (take n xs) i none ≡ get_or xs i none
get_or-take zero i xs h = absurd (omega arith)
get_or-take (suc n) i [] h = refl
get_or-take (suc n) zero (x ∷ xs) h = refl
get_or-take (suc n) (suc i) (x ∷ xs) h = get_or-take n i xs (omega arith)

word_at :
    (i : ℕ) (ws : List Bytes) → i < length ws → (w : Bytes) × (get_or (map some ws) i none ≡ some w)
word_at i [] h = absurd (omega arith)
word_at zero (w ∷ ws) h = (w, refl)
word_at (suc i) (w ∷ ws) h = word_at i ws (omega arith)

echo_text-some : (ws : List Bytes) → (t : Bytes) × (echo_text (map some ws) ≡ some t)
unfolding echo_text
echo_text-some [] = ([], refl)
echo_text-some (w ∷ []) = (w, refl)
echo_text-some (w ∷ v ∷ ws) =
    let (t, e) = echo_text-some (v ∷ ws) in (w ++ (codes " " ++ t), rw e refl)

drop-map : (ws : List Bytes) → drop 1 (map some ws) ≡ map some (drop 1 ws)
drop-map [] = refl
drop-map (w ∷ ws) = refl

-- An argument below the count is there.
argument_at :
    (words : List Bytes) (c : UserCommand) (i : ℕ)
    → Collects words c
    → i < c.argc
    → (w : Bytes) × (get_or c.argv i none ≡ some w)
argument_at words c i h lt =
    let (w, e) = word_at i words (omega (arith, h.count)) in
    (w, sym (get_or-take c.argc i c.argv lt) ∙ ap (λ l. get_or l i none) h.words_are ∙ e)

argument-IsSafe :
    (words : List Bytes) (c : UserCommand) (f : Bytes → Action)
    → Collects words c
    → 1 < c.argc
    → ((a : Bytes) → IsSafe (f a))
    → IsSafe (argument c f)
argument-IsSafe words c f h two k =
    let (w, e) = argument_at words c 1 h two in
    subst (λ o. IsSafe (elim o as (λ _. Action) [ none ↦ broken | some a ↦ f a ])) (sym e) (k w)

run_program-IsSafe :
    (words : List Bytes) (prog : Bytes) (c : UserCommand)
    → Collects words c
    → IsSafe (run_program prog c)
unfolding run_program
run_program-IsSafe words prog c h =
    if-intro IsSafe (streq prog (codes "help")) (λ _. tt)
      (λ _.
        if-intro IsSafe (streq prog (codes "getpid")) (λ _. tt)
          (λ _.
            if-intro IsSafe (streq prog (codes "ps")) (λ _. tt)
              (λ _.
                if-intro IsSafe (streq prog (codes "echo"))
                  (λ _.
                    let (t, e) = echo_text-some (drop 1 words) in
                    subst
                      (λ o. IsSafe (elim o as (λ _. Action) [
                        | none ↦ broken
                        | some t ↦ says (t ++ codes "\n")
                      ]))
                      (sym (
                        ap (λ l. echo_text (drop 1 l)) h.words_are
                        ∙ ap echo_text (drop-map words)
                        ∙ e))
                      tt)
                  (λ _.
                    if-intro IsSafe (streq prog (codes "sleep"))
                      (λ _.
                        if-intro IsSafe (ltb c.argc 2) (λ _. tt)
                          (λ enough.
                            argument-IsSafe words c (λ a. sleeps (parse_num a)) h (ground arith)
                              (λ _. tt)))
                      (λ _.
                        if-intro IsSafe (streq prog (codes "forktest")) (λ _. tt)
                          (λ _.
                            if-intro IsSafe (streq prog (codes "ls")) (λ _. tt)
                              (λ _.
                                if-intro IsSafe (streq prog (codes "cat"))
                                  (λ _.
                                    if-intro IsSafe (ltb c.argc 2) (λ _. tt)
                                      (λ enough.
                                        argument-IsSafe words c shows_file h (ground arith)
                                          (λ _. tt)))
                                  (λ _.
                                    if-intro IsSafe (streq prog (codes "schedtest")) (λ _. tt)
                                      (λ _.
                                        if-intro IsSafe (streq prog (codes "isotest")) (λ _. tt)
                                          (λ _.
                                            if-intro IsSafe (streq prog (codes "exit")) (λ _. tt)
                                              (λ _. tt)))))))))))

execute_user-IsSafe :
    (words : List Bytes) (c : UserCommand) → Collects words c → IsSafe (execute_user c)
unfolding execute_user
execute_user-IsSafe words c h =
    if-intro IsSafe (c.argc == 0) (λ _. tt)
      (λ some_args.
        if-intro IsSafe c.has_pipe (λ _. tt)
          (λ _.
            if-intro IsSafe (is_set c.redir_in || is_set c.redir_out) (λ _. tt)
              (λ _.
                if-intro IsSafe c.background (λ _. tt)
                  (λ _.
                    let (w, e) = argument_at words c 0 h (ground arith) in
                    subst
                      (λ o. IsSafe (elim o as (λ _. Action) [
                        | none ↦ broken
                        | some prog ↦ run_program prog c
                      ]))
                      (sym e) (run_program-IsSafe words w c h)))))

-- For every line, and whatever the command of the round before has left in the 16 places of `argv`:
-- a round of the main loop ends its loops and reads no argument that is not there.
pub run_user_line-IsSafe :
    (old : UserCommand) (line : Bytes)
    → length old.argv ≡ max_user_args
    → IsSafe (run_user_line old line)
unfolding run_user_line
run_user_line-IsSafe old line size =
    tokenized (tokenize max_line_tokens line) (tokenize-InBounds max_line_tokens line (omega arith))
  where
    executed :
        (words : List Bytes) (r : CommandResult)
        → Returns words r
        → IsSafe (elim r as (λ _. Action) [
          | refused message _ ↦ says (message ++ codes "\n")
          | parsed c ↦ execute_user c
        ])
    executed words (parsed c) h = execute_user-IsSafe words c h.0
    executed words (refused message c) h = tt

    tokenized :
        (r : Tokenized)
        → InBounds max_line_tokens r
        → IsSafe (elim r as (λ _. Action) [
          | failed message ↦ says (message ++ codes "\n")
          | out_of_fuel ↦ broken
          | tokens ts ↦ elim (parse_command old ts) [
            | refused message _ ↦ says (message ++ codes "\n")
            | parsed c ↦ execute_user c
          ]
        ])
    tokenized (failed message) h = tt
    tokenized out_of_fuel h = h
    tokenized (tokens ts) h =
        executed (arguments false ts) (parse_command old ts) (parse_command-Returns old ts size)
