-- ===== src/Shell/Parser/Abstract.antt =====
-- What the parser of src/parser.c promises: a grammar over commands without arrays, and how the
-- arrays of include/parser.h hold such commands.
use shellforge.Prelude.{
  ◌+◌, ◌<◌, ◌≡◌, refl, ◌≢◌, Bool, true, false, Option, none, some, List, [], ◌∷◌, ◌++◌, map, length,
  Bytes, padded,
}
use shellforge.Shell.Token.{
  TokenType, word, pipe, redirect_in, redirect_out, redirect_append, ampersand, end, error, Token,
}
use shellforge.Shell.Parser.{Command, Pipeline, init_command, max_args, max_commands}

pub record Simple : Type 0 where
  pub args : List Bytes
  pub input : Option Bytes
  pub output : Option Bytes
  pub append : Bool
  pub background : Bool

abbrev pub empty : Simple
empty = record { args = []; input = none; output = none; append = false; background = false }

abbrev pub with_arg : Simple → Bytes → Simple
with_arg c v = record c { args = c.args ++ v ∷ [] }

-- What a redirection with operand `v` makes of a command.
abbrev pub redirect_of : TokenType → Simple → Bytes → Option Simple
redirect_of redirect_in c v = some (record c { input = some v })
redirect_of redirect_out c v = some (record c { output = some v; append = false })
redirect_of redirect_append c v = some (record c { output = some v; append = true })
redirect_of _ c v = none

-- The tokens turn the commands `done` and the unfinished `cur` into the commands `out`.
pub data Parses : List Simple → Simple → List Token → List Simple → Type 0 where
  over : {done out : List Simple} {cur : Simple} → out ≡ done ++ cur ∷ [] → Parses done cur [] out
  finish :
      {t : Token} {rest : List Token} {done out : List Simple} {cur : Simple}
      → t.type ≡ end
      → out ≡ done ++ cur ∷ []
      → Parses done cur (t ∷ rest) out
  argument :
      {t : Token} {rest : List Token} {done out : List Simple} {cur : Simple} (v : Bytes)
      → t.type ≡ word
      → t.value ≡ some v
      → length cur.args + 1 < max_args
      → Parses done (with_arg cur v) rest out
      → Parses done cur (t ∷ rest) out
  redirect :
      {t u : Token} {rest : List Token} {done out : List Simple} {cur : Simple} (v : Bytes)
      (next : Simple)
      → redirect_of t.type cur v ≡ some next
      → u.type ≡ word
      → u.value ≡ some v
      → Parses done next rest out
      → Parses done cur (t ∷ u ∷ rest) out
  connect :
      {t : Token} {rest : List Token} {done out : List Simple} {cur : Simple}
      → t.type ≡ pipe
      → cur.args ≢ []
      → length done + 1 < max_commands
      → Parses (done ++ cur ∷ []) empty rest out
      → Parses done cur (t ∷ rest) out
  detach :
      {t : Token} {rest : List Token} {done out : List Simple} {cur : Simple}
      → t.type ≡ ampersand
      → Parses done (record cur { background = true }) rest out
      → Parses done cur (t ∷ rest) out

-- A command in its arrays: behind the arguments `argv` holds NULL.
unfoldable pub encode_command : Simple → Command
encode_command c = record {
  argv = padded none max_args (map some c.args);
  argc = length c.args;
  input = c.input;
  output = c.output;
  append = c.append;
  background = c.background;
}

-- The commands behind those in use are as `init_pipeline` leaves them.
unfoldable pub encode : List Simple → Pipeline
encode cs = record {
  commands = padded init_command max_commands (map encode_command cs);
  command_count = length cs;
}

-- What a token that is read next says of the rest.
abbrev pub Shape : TokenType → List Simple → Simple → Token → List Token → List Simple → Type 0
Shape word done cur t rest out =
    (v : Bytes) × (t.value ≡ some v)
    × (length cur.args + 1 < max_args)
    × Parses done (with_arg cur v) rest out
Shape pipe done cur t rest out =
    (cur.args ≢ []) × (length done + 1 < max_commands) × Parses (done ++ cur ∷ []) empty rest out
Shape ampersand done cur t rest out = Parses done (record cur { background = true }) rest out
Shape end done cur t rest out = out ≡ done ++ cur ∷ []
Shape error done cur t rest out = ⊥
Shape _ done cur t rest out =
    (u : Token) × (rest' : List Token) × (v : Bytes) × (next : Simple) × (rest ≡ u ∷ rest')
    × (redirect_of t.type cur v ≡ some next)
    × (u.type ≡ word)
    × (u.value ≡ some v)
    × Parses done next rest' out

redirect-Shape :
    (ty : TokenType) (cur : Simple) (t : Token) {done : List Simple} {u : Token} {rest : List Token}
    {out : List Simple} (v : Bytes) (next : Simple)
    → t.type ≡ ty
    → redirect_of ty cur v ≡ some next
    → u.type ≡ word
    → u.value ≡ some v
    → Parses done next rest out
    → Shape ty done cur t (u ∷ rest) out
redirect-Shape redirect_in cur t {u} {rest} v next e r w h p =
    (u, rest, v, next, refl, rw e r, w, h, p)
redirect-Shape redirect_out cur t {u} {rest} v next e r w h p =
    (u, rest, v, next, refl, rw e r, w, h, p)
redirect-Shape redirect_append cur t {u} {rest} v next e r w h p =
    (u, rest, v, next, refl, rw e r, w, h, p)
redirect-Shape _ cur t v next e r w h p = cc

pub invert :
    {done out : List Simple} {cur : Simple} {t : Token} {rest : List Token}
    → Parses done cur (t ∷ rest) out
    → Shape t.type done cur t rest out
invert (finish e p) = rw e p
invert (argument v e h l p) = rw e (v, h, l, p)
invert (redirect {t} {cur} v next r w h p) = redirect-Shape t.type cur t v next refl r w h p
invert (connect e ne l p) = rw e (ne, l, p)
invert (detach e p) = rw e p
