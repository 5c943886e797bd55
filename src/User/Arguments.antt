-- ===== src/User/Arguments.antt =====
-- What `parse_command` of NanoBoot/user/sh.c leaves in `argv`, and that it stays in its arrays.
use shellforge.Prelude.{
  ℕ, zero, suc, ◌+◌, ◌-◌, ◌<◌, ◌≡◌, refl, sym, ap, ap₂, subst, ◌∙◌, Bool, true, false, none, some,
  Option-cases, List, [], ◌∷◌, ◌++◌, map, leb, if◌then◌else◌, if-intro, set, get_or,
  get_or-set_self, length, length-set, length-append, take, inl, inr, Bytes, codes, append-nil,
  append_assoc, arith,
}
use mathlib.Core.List.{map-append}
use shellforge.User.Lexer.{
  UserTokenType, tok_end, tok_word, tok_pipe, tok_redir_in, tok_redir_out, tok_redir_append,
  tok_ampersand, tok_error, UserToken, str_copy, err_max,
}
use shellforge.User.Parser.{
  max_user_args, is_end, UserCommand, CommandResult, parsed, refused, CommandRound, go, leave, stop,
  next_word, parse_argument, parse_output, parse_token, finish_command, command_loop, parse_command,
}

abbrev pub is_redirection : UserTokenType → Bool
is_redirection tok_redir_in = true
is_redirection tok_redir_out = true
is_redirection tok_redir_append = true
is_redirection _ = false

-- What a token adds to the arguments.
abbrev pub added_words : UserTokenType → Bytes → List Bytes
added_words tok_word v = v ∷ []
added_words _ v = []

-- The words of a command that are its arguments: all but the files of redirections.
unfoldable pub arguments : Bool → List UserToken → List Bytes
arguments skip [] = []
arguments true (t ∷ rest) = arguments false rest
arguments false (t ∷ rest) =
    let more = added_words t.type t.val ++ arguments (is_redirection t.type) rest in
    if is_end t.type then [] else more

-- `argv` holds these words, and has room for the NULL behind them.
pub record Collects (words : List Bytes) (c : UserCommand) : Type 0 where
  pub count : c.argc ≡ length words
  pub few : c.argc < max_user_args
  pub size : length c.argv ≡ max_user_args
  pub words_are : take c.argc c.argv ≡ map some words

-- A command that is returned holds the words, and NULL behind them.
abbrev pub Returns : List Bytes → CommandResult → Type 0
Returns words (parsed c) = Collects words c × (get_or c.argv c.argc (some []) ≡ none)
Returns words (refused message c) = length c.argv ≡ max_user_args

take-set_end :
    {A : Type 0} (xs : List A) (n : ℕ) (v : A)
    → n < length xs
    → take (n + 1) (set xs n v) ≡ take n xs ++ v ∷ []
take-set_end [] n v h = absurd (omega arith)
take-set_end (x ∷ xs) zero v h = refl
take-set_end (x ∷ xs) (suc n) v h =
    let e : suc n + 1 ≡ suc (n + 1) = omega arith in
    rw e (ap (◌∷◌ x) (take-set_end xs n v (omega arith)))

take-set : {A : Type 0} (xs : List A) (n : ℕ) (v : A) → take n (set xs n v) ≡ take n xs
take-set [] n v = refl
take-set (x ∷ xs) zero v = refl
take-set (x ∷ xs) (suc n) v = ap (◌∷◌ x) (take-set xs n v)

Collects-argument :
    (words : List Bytes) (c : UserCommand) (v : Bytes)
    → Collects words c
    → c.argc + 1 < max_user_args
    → Collects (words ++ v ∷ []) (record c { argv = set c.argv c.argc (some v); argc = c.argc + 1 })
Collects-argument words c v h room = record {
  count = omega (arith, h.count, length-append words (v ∷ []));
  few = room;
  size = length-set c.argv c.argc (some v) ∙ h.size;
  words_are =
      take-set_end c.argv c.argc (some v) (omega (arith, h.size, h.few))
      ∙ ap (λ l. l ++ some v ∷ []) h.words_are
      ∙ sym (map-append some words (v ∷ []));
}

abbrev ended : UserCommand → UserCommand
ended c = record c { argv = set c.argv c.argc none }

finish_command-Returns :
    (words : List Bytes) (c : UserCommand) → Collects words c → Returns words (finish_command c)
unfolding finish_command
finish_command-Returns words c h =
    if-intro (Returns words) _ {x = refused (codes "syntax error: missing command") (ended c)}
      {y = parsed (ended c)} (λ _. length-set c.argv c.argc none ∙ h.size)
      (λ _. (
        record {
          count = h.count;
          few = h.few;
          size = length-set c.argv c.argc none ∙ h.size;
          words_are = take-set c.argv c.argc none ∙ h.words_are;
        },
        get_or-set_self c.argv c.argc none (some []) (omega (arith, h.size, h.few)),
      ))

-- A round's result: the words so far, and the next token taken where it is a file.
abbrev Meets : List Bytes → UserTokenType → Bytes → CommandRound → Type 0
Meets words ty v (go skip c) =
    Collects (words ++ added_words ty v) c × (skip ≡ is_redirection ty) × (is_end ty ≡ false)
Meets words ty v leave = is_end ty ≡ true
Meets words ty v (stop message c) = length c.argv ≡ max_user_args

same_words : (words : List Bytes) (c : UserCommand) → Collects words c → Collects (words ++ []) c
same_words words c h = subst (λ w. Collects w c) (sym (append-nil words)) h

parse_argument-Meets :
    (words : List Bytes) (c : UserCommand) (v : Bytes)
    → Collects words c
    → Meets words tok_word v (parse_argument c v)
unfolding parse_argument
parse_argument-Meets words c v h =
    if-intro (Meets words tok_word v) (leb (max_user_args - 1) c.argc) (λ _. h.size)
      (λ e. (Collects-argument words c v h (ground arith), refl, refl))

copy_fields :
    {words : List Bytes} {c d : UserCommand}
    → Collects words c
    → d.argc ≡ c.argc
    → d.argv ≡ c.argv
    → Collects words d
copy_fields h e f = record {
  count = e ∙ h.count;
  few = omega (arith, e, h.few);
  size = ap length f ∙ h.size;
  words_are = ap₂ take e f ∙ h.words_are;
}

parse_token-Meets :
    (words : List Bytes) (c : UserCommand) (ty : UserTokenType) (v : Bytes) (rest : List UserToken)
    → Collects words c
    → Meets words ty v (parse_token c ty v rest)
unfolding parse_token parse_output
parse_token-Meets words c tok_end v rest h = refl
parse_token-Meets words c tok_word v rest h = parse_argument-Meets words c v h
parse_token-Meets words c tok_redir_in v rest h = elim (Option-cases (next_word rest)) [
  | inl e ↦ rw (e, parse_token) h.size
  | inr (w, e) ↦ rw (e, parse_token) (copy_fields (same_words words c h) refl refl, refl, refl)
]
parse_token-Meets words c tok_redir_out v rest h = elim (Option-cases (next_word rest)) [
  | inl e ↦ rw (e, parse_token, parse_output) h.size
  | inr (w, e) ↦
      rw (e, parse_token, parse_output) (copy_fields (same_words words c h) refl refl, refl, refl)
]
parse_token-Meets words c tok_redir_append v rest h = elim (Option-cases (next_word rest)) [
  | inl e ↦ rw (e, parse_token, parse_output) h.size
  | inr (w, e) ↦
      rw (e, parse_token, parse_output) (copy_fields (same_words words c h) refl refl, refl, refl)
]
parse_token-Meets words c tok_pipe v rest h = elim (Option-cases (next_word rest)) [
  | inl e ↦ rw (e, parse_token) h.size
  | inr (w, e) ↦ rw (e, parse_token) (copy_fields (same_words words c h) refl refl, refl, refl)
]
parse_token-Meets words c tok_ampersand v [] h =
    (copy_fields (same_words words c h) refl refl, refl, refl)
parse_token-Meets words c tok_ampersand v (u ∷ us) h =
    if-intro (Meets words tok_ampersand v) (is_end u.type)
      (λ _. (copy_fields (same_words words c h) refl refl, refl, refl)) (λ _. h.size)
parse_token-Meets words c tok_error v rest h = (same_words words c h, refl, refl)

-- The rest of the loop behind a round.
abbrev continued : UserCommand → List UserToken → CommandRound → CommandResult
continued c rest (go skip c') = command_loop skip c' rest
continued c rest leave = finish_command c
continued c rest (stop message c') = refused (str_copy err_max message) c'

abbrev Loops : List UserToken → Type 0
Loops ts =
    (words : List Bytes) (skip : Bool) (c : UserCommand)
    → Collects words c
    → Returns (words ++ arguments skip ts) (command_loop skip c ts)

continued-Returns :
    (words : List Bytes) (c : UserCommand) (ty : UserTokenType) (v : Bytes) (rest : List UserToken)
    (r : CommandRound)
    → Collects words c
    → Meets words ty v r
    → Loops rest
    → Returns
        (words
          ++ (if is_end ty then [] else added_words ty v ++ arguments (is_redirection ty) rest))
        (continued c rest r)
continued-Returns words c ty v rest (go skip c') h (h', e, more) again = rw more (
    subst (λ ws. Returns ws (command_loop skip c' rest))
      (append_assoc words (added_words ty v) (arguments (is_redirection ty) rest))
      (subst
        (λ s. Returns ((words ++ added_words ty v) ++ arguments s rest) (command_loop skip c' rest))
        e (again (words ++ added_words ty v) skip c' h')))
continued-Returns words c ty v rest leave h e again =
    rw (e, append-nil words) (finish_command-Returns words c h)
continued-Returns words c ty v rest (stop message c') h size again = size

command_loop-Returns : (ts : List UserToken) → Loops ts
unfolding command_loop arguments
command_loop-Returns [] words skip c h = rw (append-nil words) (finish_command-Returns words c h)
command_loop-Returns (t ∷ rest) words true c h = command_loop-Returns rest words false c h
command_loop-Returns (t ∷ rest) words false c h =
    continued-Returns words c t.type t.val rest (parse_token c t.type t.val rest) h
      (parse_token-Meets words c t.type t.val rest h) (command_loop-Returns rest)

-- Whatever `argv` held before, where `parse_command` returns 0, `argv` begins with the arguments of
-- the tokens and NULL behind them, and their number is below MAX_ARGS; where it returns -1, `argv`
-- has kept its size. The hypothesis is that `argv` has MAX_ARGS places.
pub parse_command-Returns :
    (old : UserCommand) (ts : List UserToken)
    → length old.argv ≡ max_user_args
    → Returns (arguments false ts) (parse_command old ts)
unfolding parse_command
parse_command-Returns old ts size =
    command_loop-Returns ts [] false _
      (record { count = refl; few = omega arith; size = size; words_are = refl })
