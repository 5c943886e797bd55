-- ===== src/User/Lexer.antt =====
-- The tokenizer of NanoBoot/user/sh.c. The array of tokens is the list of those written so far,
-- and the loop runs on fuel, a round for each byte and one more.
use shellforge.Prelude.{
  ℕ, zero, suc, ◌+◌, ◌-◌, Bool, ◌||◌, Option, none, some, List, [], ◌∷◌, ◌++◌, leb, ltb, ◌==◌,
  if◌then◌else◌, length, take, drop_while, Bytes, codes,
}

abbrev pub max_line_tokens : ℕ
max_line_tokens = 32

abbrev pub max_token_len : ℕ
max_token_len = 64

pub data UserTokenType : Type 0 where
  tok_end tok_word tok_pipe tok_redir_in tok_redir_out tok_redir_append tok_ampersand tok_error :
      UserTokenType

pub record UserToken : Type 0 where
  pub type : UserTokenType
  pub val : Bytes

-- What `tokenize` leaves: the tokens in front of TOK_END, or -1 and the message.
pub data Tokenized : Type 0 where
  tokens : List UserToken → Tokenized
  failed : Bytes → Tokenized
  out_of_fuel : Tokenized

abbrev pub str_copy : ℕ → Bytes → Bytes
str_copy max src = take (max - 1) src

abbrev pub err_max : ℕ
err_max = 64

abbrev pub is_blank : ℕ → Bool
is_blank c = c == b' ' || c == 9 || c == 13 || c == 10

abbrev pub is_quote : ℕ → Bool
is_quote c = c == b'\'' || c == b'"'

abbrev pub ends_word : ℕ → Bool
ends_word c = is_blank c || c == b'|' || c == b'<' || c == b'>' || c == b'&'

-- `if (vlen < MAX_TOKEN_LEN - 1) val[vlen++] = c;`
abbrev pub put : Bytes → ℕ → Bytes
put val c = if ltb (length val) (max_token_len - 1) then val ++ c ∷ [] else val

-- The word that is read from the text on: the quote that is still open, the value and the rest.
unfoldable pub read_word : Option ℕ → Bytes → Bytes → Option ℕ × Bytes × Bytes
read_word q val [] = (q, val, [])
read_word none val (c ∷ s) =
    let opened = read_word (some c) val s in
    let more = read_word none (put val c) s in
    if is_quote c then opened else if ends_word c then (none, val, c ∷ s) else more
read_word (some q) val (c ∷ s) =
    let closed = read_word none val s in
    let more = read_word (some q) (put val c) s in if c == q then closed else more

-- `>` or `>>`, behind the first `>`.
unfoldable pub output_at : Bytes → UserToken × Bytes
output_at [] = (record { type = tok_redir_out; val = codes ">" }, [])
output_at (d ∷ r) =
    if d == b'>'
    then (record { type = tok_redir_append; val = codes ">>" }, r)
    else (record { type = tok_redir_out; val = codes ">" }, d ∷ r)

-- An operator at the front of a text, and what follows it.
unfoldable pub operator_at : ℕ → Bytes → Option (UserToken × Bytes)
operator_at c s =
    if c == b'|'
    then some (record { type = tok_pipe; val = codes "|" }, s)
    else if c == b'<'
    then some (record { type = tok_redir_in; val = codes "<" }, s)
    else if c == b'>'
    then some (output_at s)
    else if c == b'&'
    then some (record { type = tok_ampersand; val = codes "&" }, s)
    else none

abbrev pub token_limit : Tokenized
token_limit = failed (str_copy err_max (codes "error: command exceeds maximum token limit"))

abbrev pub unclosed_quote : Tokenized
unclosed_quote = failed (str_copy err_max (codes "syntax error: unclosed quote"))

-- The rounds from `done`, the tokens written so far.
unfoldable pub tokenize_loop : ℕ → ℕ → List UserToken → Bytes → Tokenized
tokenize_loop max zero done s = out_of_fuel
tokenize_loop max (suc fuel) done s = elim (drop_while is_blank s) [
  | [] ↦ tokens done
  | c ∷ r ↦ if leb (max - 1) (length done) then token_limit else elim (operator_at c r) [
    | some o ↦ tokenize_loop max fuel (done ++ o.0 ∷ []) o.1
    | none ↦ elim (read_word none [] (c ∷ r)).0 [
      | some q ↦ unclosed_quote
      | none ↦
          let w = read_word none [] (c ∷ r) in
          tokenize_loop max fuel (done ++ record { type = tok_word; val = w.1 } ∷ []) w.2
    ]
  ]
]

unfoldable pub tokenize : ℕ → Bytes → Tokenized
tokenize max line = tokenize_loop max (length line + 1) [] line
