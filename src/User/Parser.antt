-- ===== src/User/Parser.antt =====
-- `parse_command` of NanoBoot/user/sh.c. The tokens are those in front of TOK_END, and the array
-- `argv` is a list of its full size, with what it held before.
use shellforge.Prelude.{
  ℕ, ◌+◌, ◌-◌, Bool, true, false, not, ◌&&◌, ◌||◌, Option, none, some, List, [], ◌∷◌, leb, ◌==◌,
  if◌then◌else◌, set, Bytes, codes,
}
use shellforge.User.Lexer.{
  UserTokenType, tok_end, tok_word, tok_pipe, tok_redir_in, tok_redir_out, tok_redir_append,
  tok_ampersand, tok_error, UserToken, max_token_len, str_copy, err_max,
}

abbrev pub max_user_args : ℕ
max_user_args = 16

pub record UserCommand : Type 0 where
  pub argc : ℕ
  pub argv : List (Option Bytes)
  pub redir_in : Bytes
  pub redir_out : Bytes
  pub append : Bool
  pub background : Bool
  pub has_pipe : Bool

-- 0 with the command, or -1 with the message and what the call leaves of the command.
pub data CommandResult : Type 0 where
  parsed : UserCommand → CommandResult
  refused : Bytes → UserCommand → CommandResult

-- A round of the loop takes the next token too, or not; or it ends the loop, or the call.
pub data CommandRound : Type 0 where
  go : Bool → UserCommand → CommandRound
  leave : CommandRound
  stop : Bytes → UserCommand → CommandRound

abbrev pub is_end : UserTokenType → Bool
is_end tok_end = true
is_end _ = false

abbrev pub is_word : UserTokenType → Bool
is_word tok_word = true
is_word _ = false

-- The value of the next token, if it is a word.
abbrev pub next_word : List UserToken → Option Bytes
next_word [] = none
next_word (u ∷ us) = if is_word u.type then some u.val else none

abbrev pub copied_name : Bytes → Bytes
copied_name v = str_copy max_token_len v

unfoldable pub parse_argument : UserCommand → Bytes → CommandRound
parse_argument c v =
    if leb (max_user_args - 1) c.argc
    then stop (codes "error: too many arguments") c
    else go false (record c { argv = set c.argv c.argc (some v); argc = c.argc + 1 })

unfoldable pub parse_output : Bool → UserCommand → List UserToken → CommandRound
parse_output append c rest = elim (next_word rest) [
  | none ↦ stop (codes "syntax error: missing file for redirection") c
  | some v ↦ go true (record c { redir_out = copied_name v; append = append })
]

unfoldable pub parse_token : UserCommand → UserTokenType → Bytes → List UserToken → CommandRound
parse_token c tok_end v rest = leave
parse_token c tok_word v rest = parse_argument c v
parse_token c tok_redir_in v rest = elim (next_word rest) [
  | none ↦ stop (codes "syntax error: missing file for '<'") c
  | some w ↦ go true (record c { redir_in = copied_name w })
]
parse_token c tok_redir_out v rest = parse_output false c rest
parse_token c tok_redir_append v rest = parse_output true c rest
parse_token c tok_pipe v rest = elim (next_word rest) [
  | none ↦ stop (codes "syntax error: missing command after '|'") (record c { has_pipe = true })
  | some _ ↦ go false (record c { has_pipe = true })
]
parse_token c tok_ampersand v [] = go false (record c { background = true })
parse_token c tok_ampersand v (u ∷ us) =
    if is_end u.type
    then go false (record c { background = true })
    else stop (codes "syntax error: '&' must be at end of command") (record c { background = true })
parse_token c tok_error v rest = go false c

abbrev pub is_empty : Bytes → Bool
is_empty [] = true
is_empty _ = false

-- Behind the loop.
unfoldable pub finish_command : UserCommand → CommandResult
finish_command c =
    let c' = record c { argv = set c.argv c.argc none } in
    if c.argc == 0 && (c.has_pipe || not (is_empty c.redir_in) || not (is_empty c.redir_out))
    then refused (codes "syntax error: missing command") c'
    else parsed c'

-- The loop; the flag says that the token at the front has been taken already.
unfoldable pub command_loop : Bool → UserCommand → List UserToken → CommandResult
command_loop skip c [] = finish_command c
command_loop true c (t ∷ rest) = command_loop false c rest
command_loop false c (t ∷ rest) = elim (parse_token c t.type t.val rest) [
  | go skip c' ↦ command_loop skip c' rest
  | leave ↦ finish_command c
  | stop message c' ↦ refused (str_copy err_max message) c'
]

unfoldable pub parse_command : UserCommand → List UserToken → CommandResult
parse_command old ts =
    command_loop false
      (record old {
        argc = 0;
        redir_in = [];
        redir_out = [];
        append = false;
        background = false;
        has_pipe = false;
      })
      ts
