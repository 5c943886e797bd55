-- ===== src/Shell/Lexer.antt =====
-- include/lexer.h, src/lexer.c, and the loop of src/main.c that collects the tokens of a line.
-- The text is read by position, as in the source; a read beyond the end gives 0, the terminator.
pub mod Scan
pub mod Words
pub mod Refine
pub mod Lines
pub mod RoundTrip
use shellforge.Prelude.{
  ℕ, zero, suc, ◌+◌, ◌-◌, Bool, true, false, not, ◌&&◌, ◌||◌, Option, none, some, List, [], ◌∷◌,
  leb, ltb, ◌==◌, if◌then◌else◌, get_or, take, drop, length, Bytes, codes,
}
use shellforge.Shell.Token.{
  TokenType, word, pipe, redirect_in, redirect_out, redirect_append, ampersand, end, Token,
  create_token,
}

pub record Lexer : Type 0 where
  pub input : Bytes
  pub pos : ℕ
  pub length : ℕ

-- NULL is read as the empty text: its length is 0, so no byte of it is ever read.
unfoldable pub lexer_init : Option Bytes → Lexer
lexer_init none = record { input = []; pos = 0; length = 0 }
lexer_init (some s) = record { input = s; pos = 0; length = length s }

abbrev pub byte_at : Lexer → ℕ → ℕ
byte_at l i = get_or l.input i 0

unfoldable pub lexer_peek : Lexer → ℕ
lexer_peek l = if leb l.length l.pos then 0 else byte_at l l.pos

abbrev pub move : Lexer → ℕ → Lexer
move l p = record l { pos = p }

unfoldable pub lexer_advance : Lexer → Lexer
lexer_advance l = if lexer_peek l == 0 then l else move l (l.pos + 1)

-- `isspace` of the C library, in its default locale.
unfoldable pub isspace : ℕ → Bool
isspace c = c == b' ' || (leb 9 c && leb c 13)

-- `while (pos < length && test(input[pos])) pos++`, on the rounds that are left.
unfoldable pub scan : (ℕ → Bool) → ℕ → Lexer → Lexer
scan test zero l = l
scan test (suc n) l =
    let more = scan test n (move l (l.pos + 1)) in
    if ltb l.pos l.length && test (byte_at l l.pos) then more else l

-- The rounds are the bytes that are left.
abbrev pub scan_all : (ℕ → Bool) → Lexer → Lexer
scan_all test l = scan test (l.length - l.pos) l

unfoldable pub lexer_skip_whitespace : Lexer → Lexer
lexer_skip_whitespace l = scan_all isspace l

-- The bytes that end a word that is not quoted.
unfoldable pub is_delimiter : ℕ → Bool
is_delimiter c =
    isspace c || c == b'|' || c == b'&' || c == b'<' || c == b'>' || c == b'"' || c == b'\''

-- `malloc(len + 1)`, and the bytes from `start` up to the place reached.
abbrev pub copied : Bool → Lexer → ℕ → Option Bytes
copied true l start = some (take (l.pos - start) (drop start l.input))
copied false l start = none

-- What the two allocations of a call answer: the copy of the word, and the token's own.
pub record Alloc : Type 0 where
  pub malloc_ok : Bool
  pub strdup_ok : Bool

abbrev pub operator : Alloc → TokenType → Bytes → Lexer → Token × Lexer
operator m t text l = (create_token m.strdup_ok t (some text), l)

unfoldable pub quoted_word : Alloc → ℕ → Lexer → Token × Lexer
quoted_word m quote l =
    let opened = lexer_advance l in
    let closing = scan_all (λ c. not (c == quote)) opened in
    let text = copied m.malloc_ok closing opened.pos in
    let after = if lexer_peek closing == quote then lexer_advance closing else closing in
    (create_token m.strdup_ok word text, after)

unfoldable pub plain_word : Alloc → Lexer → Token × Lexer
plain_word m l =
    let stop = scan_all (λ c. not (is_delimiter c)) l in
    (create_token m.strdup_ok word (copied m.malloc_ok stop l.pos), stop)

-- `>` or `>>`, behind the first `>`.
unfoldable pub output_operator : Alloc → Lexer → Token × Lexer
output_operator m l =
    if lexer_peek l == b'>'
    then operator m redirect_append (codes ">>") (lexer_advance l)
    else operator m redirect_out (codes ">") l

-- The token that begins with byte `c`, the one at the lexer's place.
unfoldable pub token_at : Alloc → ℕ → Lexer → Token × Lexer
token_at m c l =
    if c == 0
    then operator m end (codes "END") l
    else if c == b'|'
    then operator m pipe (codes "|") (lexer_advance l)
    else if c == b'&'
    then operator m ampersand (codes "&") (lexer_advance l)
    else if c == b'<'
    then operator m redirect_in (codes "<") (lexer_advance l)
    else if c == b'>'
    then output_operator m (lexer_advance l)
    else if c == b'"' || c == b'\''
    then quoted_word m c l
    else plain_word m l

unfoldable pub lexer_next_token : Alloc → Lexer → Token × Lexer
lexer_next_token m l = let l' = lexer_skip_whitespace l in token_at m (lexer_peek l') l'

abbrev pub is_end : TokenType → Bool
is_end end = true
is_end _ = false

-- `while (token_count < 255)` of main: the tokens up to the first `TOKEN_END`, 255 at most.
unfoldable pub collect : ℕ → (ℕ → Alloc) → Lexer → List Token
collect zero m l = []
collect (suc n) m l =
    let (t, l') = lexer_next_token (m l.pos) l in
    let rest = collect n m l' in t ∷ (if is_end t.type then [] else rest)

abbrev pub max_tokens : ℕ
max_tokens = 255

unfoldable pub tokenize_line : (ℕ → Alloc) → Bytes → List Token
tokenize_line m line = collect max_tokens m (lexer_init (some line))
