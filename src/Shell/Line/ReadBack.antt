-- ===== src/Shell/Line/ReadBack.antt =====
-- From a line to its pipeline: the loop of src/main.c over src/lexer.c, then src/parser.c.
use shellforge.Prelude.{
  ◌+◌, ◌≤◌, ◌<◌, ◌≡◌, refl, inl, Bool, true, false, Option, none, some, List, [], ◌∷◌, ◌++◌, map,
  arith, length, length-append, length-map, Bytes, codes, All, All-append, All-mono, All-map,
  take-ge,
}
use shellforge.Shell.Token.{Token}
use shellforge.Shell.Lexer.{tokenize_line, max_tokens}
use shellforge.Shell.Lexer.Refine.{enough}
use shellforge.Shell.Lexer.RoundTrip.{
  Item, bare, quoted, bar, amp, less, greater, append, item_token, IsWritable, render,
  tokenize_line-render,
}
use shellforge.Shell.Parser.{Pipeline, ok, max_commands, parse_tokens}
use shellforge.Shell.Parser.Abstract.{Simple, empty, Parses, encode}
use shellforge.Shell.Parser.Rounds.{granted, HasValue}
use shellforge.Shell.Parser.Unique.{parse_tokens_complete}
use shellforge.Shell.Line.Grammar.{Parses-pipeline}
use shellforge.Shell.Line.{
  quote, input_items, output_items, background_items, command_items, pipeline_items, IsQuotable,
  IsFile, IsTypable, tokens, end_token,
}

quote-IsWritable : (w : Bytes) → IsQuotable w → IsWritable (quote w)
quote-IsWritable w h = (inl refl, h)

input-IsWritable : (f : Option Bytes) → IsFile f → All IsWritable (input_items f)
input-IsWritable none h = tt
input-IsWritable (some f) h = (tt, (quote-IsWritable f h, tt))

output-IsWritable : (b : Bool) (f : Option Bytes) → IsFile f → All IsWritable (output_items b f)
output-IsWritable b none h = tt
output-IsWritable true (some f) h = (tt, (quote-IsWritable f h, tt))
output-IsWritable false (some f) h = (tt, (quote-IsWritable f h, tt))

background-IsWritable : (b : Bool) → All IsWritable (background_items b)
background-IsWritable true = (tt, tt)
background-IsWritable false = tt

command-IsWritable : (c : Simple) → IsTypable c → All IsWritable (command_items c)
unfolding command_items
command-IsWritable c h =
    All-append IsWritable (map quote c.args) _
      (All-map quote IsWritable c.args (All-mono quote-IsWritable c.args h.args_quotable))
      (All-append IsWritable (input_items c.input) _ (input-IsWritable c.input h.input_quotable) (
        All-append IsWritable (output_items c.append c.output) _
          (output-IsWritable c.append c.output h.output_quotable)
          (background-IsWritable c.background)))

pipeline-IsWritable : (cs : List Simple) → All IsTypable cs → All IsWritable (pipeline_items cs)
unfolding pipeline_items
pipeline-IsWritable [] h = tt
pipeline-IsWritable (c ∷ []) h = command-IsWritable c h.0
pipeline-IsWritable (c ∷ d ∷ cs) h =
    All-append IsWritable (command_items c) _ (command-IsWritable c h.0)
      (tt, pipeline-IsWritable (d ∷ cs) h.1)

item-HasValue : (i : Item) → HasValue (item_token i)
unfolding item_token
item-HasValue (quoted q w) = (w, refl)
item-HasValue bar = (codes "|", refl)
item-HasValue amp = (codes "&", refl)
item-HasValue less = (codes "<", refl)
item-HasValue greater = (codes ">", refl)
item-HasValue append = (codes ">>", refl)
item-HasValue (bare c w) = (c ∷ w, refl)

items-HasValue : (is : List Item) → All HasValue (tokens is ++ end_token ∷ [])
items-HasValue [] = ((codes "END", refl), tt)
items-HasValue (i ∷ is) = (item-HasValue i, items-HasValue is)

parse-some :
    (ts : List Token) (p : Pipeline) {out : List Simple}
    → 0 < length ts
    → All HasValue ts
    → Parses [] empty ts out
    → parse_tokens granted (some ts) (some p) ≡ ok (encode out)
parse-some [] p n vals h = absurd (omega arith)
parse-some (t ∷ ts) p n vals h = parse_tokens_complete t ts p vals h

-- A pipeline of 1 to 16 commands, written with its words in double quotes and spaces between its
-- tokens, is read back as that pipeline by the lexer and the parser. The conditions: each command
-- has from 1 to 63 arguments, no word has a double quote or a NUL in it, the tokens are fewer than
-- 255, and no allocation fails.
pub parse_tokens-tokenize_line :
    (c : Simple) (cs : List Simple) (p : Pipeline)
    → All IsTypable (c ∷ cs)
    → length (c ∷ cs) ≤ max_commands
    → length (pipeline_items (c ∷ cs)) < max_tokens
    → parse_tokens granted
        (some (tokenize_line (λ _. enough) (render (pipeline_items (c ∷ cs)))))
        (some p)
      ≡ ok (encode (c ∷ cs))
parse_tokens-tokenize_line c cs p h few short =
    let is = pipeline_items (c ∷ cs) in
    let size : length (tokens is ++ end_token ∷ []) ≡ length is + 1 =
      omega (arith, length-append (tokens is) (end_token ∷ []), length-map item_token is) in
    rw
      (
        tokenize_line-render is (pipeline-IsWritable (c ∷ cs) h),
        take-ge max_tokens (tokens is ++ end_token ∷ []) (omega (arith, size)),
      )
      (parse-some (tokens is ++ end_token ∷ []) p (omega (arith, size)) (items-HasValue is)
        (Parses-pipeline cs c [] h (omega arith)))
