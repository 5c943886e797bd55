-- ===== src/Shell/Token.antt =====
-- include/token.h and src/token.c: tokens and their construction. A `char *` is an `Option Bytes`,
-- with `none` for NULL. What an allocation answers is an argument: `true` when it succeeds.
use shellforge.Prelude.{Bool, true, false, Option, none, some, Bytes, codes}

pub data TokenType : Type 0 where
  word pipe redirect_in redirect_out redirect_append ampersand end error : TokenType

pub record Token : Type 0 where
  pub type : TokenType
  pub value : Option Bytes

-- `strdup` of a text: a copy, or NULL when the allocation fails.
abbrev pub strdup : Bool → Bytes → Option Bytes
strdup true s = some s
strdup false s = none

unfoldable pub create_token : Bool → TokenType → Option Bytes → Token
create_token dup t none = record { type = t; value = none }
create_token dup t (some s) = record { type = t; value = strdup dup s }

unfoldable pub free_token : Token → Token
free_token t = record t { value = none }

unfoldable pub token_type_to_string : TokenType → Bytes
token_type_to_string word = codes "WORD"
token_type_to_string pipe = codes "PIPE"
token_type_to_string redirect_in = codes "REDIRECT_IN"
token_type_to_string redirect_out = codes "REDIRECT_OUT"
token_type_to_string redirect_append = codes "REDIRECT_APPEND"
token_type_to_string ampersand = codes "AMPERSAND"
token_type_to_string end = codes "END"
token_type_to_string error = codes "ERROR"
