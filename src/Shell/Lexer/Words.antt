-- ===== src/Shell/Lexer/Words.antt =====
-- What `lexer_next_token` of src/lexer.c promises, over the text that is left and with no places:
-- the specification that the lexer refines.
use shellforge.Prelude.{
  ℕ, zero, suc, not, ◌||◌, some, List, [], ◌∷◌, ◌==◌, if◌then◌else◌, take_while, drop_while, Bytes,
  codes,
}
use shellforge.Shell.Lexer.{isspace, is_delimiter, is_end}
use shellforge.Shell.Lexer.Scan.{tail}
use shellforge.Shell.Token.{
  TokenType, word, pipe, redirect_in, redirect_out, redirect_append, ampersand, end, Token,
}

abbrev pub token : TokenType → Bytes → Token
token t s = record { type = t; value = some s }

-- The token, and the text behind it.
abbrev pub output_spec : Bytes → Token × Bytes
output_spec [] = (token redirect_out (codes ">"), [])
output_spec (d ∷ r) =
    if d == b'>'
    then (token redirect_append (codes ">>"), r)
    else (token redirect_out (codes ">"), d ∷ r)

abbrev pub quoted_spec : ℕ → Bytes → Token × Bytes
quoted_spec q r =
    (token word (take_while (λ c. not (c == q)) r), tail (drop_while (λ c. not (c == q)) r))

abbrev pub plain_spec : Bytes → Token × Bytes
plain_spec s = (
  token word (take_while (λ c. not (is_delimiter c)) s),
  drop_while (λ c. not (is_delimiter c)) s,
)

unfoldable pub word_spec : Bytes → Token × Bytes
word_spec [] = (token end (codes "END"), [])
word_spec (c ∷ r) =
    if c == b'|'
    then (token pipe (codes "|"), r)
    else if c == b'&'
    then (token ampersand (codes "&"), r)
    else if c == b'<'
    then (token redirect_in (codes "<"), r)
    else if c == b'>'
    then output_spec r
    else if c == b'"' || c == b'\''
    then quoted_spec c r
    else plain_spec (c ∷ r)

-- Leading blanks do not count.
unfoldable pub next_spec : Bytes → Token × Bytes
next_spec s = word_spec (drop_while isspace s)

-- All tokens of a text, `n` at most.
unfoldable pub lex_spec : ℕ → Bytes → List Token
lex_spec zero s = []
lex_spec (suc n) s =
    let (t, s') = next_spec s in
    let rest = lex_spec n s' in t ∷ (if is_end t.type then [] else rest)
