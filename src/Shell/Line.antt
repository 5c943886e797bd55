-- ===== src/Shell/Line.antt =====
-- A pipeline as a user types it: what src/lexer.c and src/parser.c together read back.
pub mod Grammar
pub mod ReadBack
use shellforge.Prelude.{
  ◌<◌, ◌≡◌, ◌≢◌, Bool, true, false, Option, none, some, List, [], ◌∷◌, ◌++◌, map, length, Bytes,
  codes, All,
}
use shellforge.Shell.Token.{word, end, Token}
use shellforge.Shell.Lexer.Words.{token}
use shellforge.Shell.Lexer.RoundTrip.{Item, quoted, bar, amp, less, greater, append, item_token}
use shellforge.Shell.Parser.{max_args}
use shellforge.Shell.Parser.Abstract.{Simple}

-- A word in double quotes.
abbrev pub quote : Bytes → Item
quote = quoted b'"'

abbrev pub input_items : Option Bytes → List Item
input_items none = []
input_items (some f) = less ∷ quote f ∷ []

abbrev pub output_items : Bool → Option Bytes → List Item
output_items b none = []
output_items true (some f) = append ∷ quote f ∷ []
output_items false (some f) = greater ∷ quote f ∷ []

abbrev pub background_items : Bool → List Item
background_items true = amp ∷ []
background_items false = []

-- A command as it is typed: its arguments, its redirections, and `&`.
unfoldable pub command_items : Simple → List Item
command_items c =
    map quote c.args
    ++ (input_items c.input ++ (output_items c.append c.output ++ background_items c.background))

unfoldable pub pipeline_items : List Simple → List Item
pipeline_items [] = []
pipeline_items (c ∷ []) = command_items c
pipeline_items (c ∷ d ∷ cs) = command_items c ++ (bar ∷ pipeline_items (d ∷ cs))

-- No quote and no NUL within a word.
abbrev pub IsQuotable : Bytes → Type 0
IsQuotable = All (λ d. (d ≢ b'"') × (d ≢ 0))

abbrev pub IsFile : Option Bytes → Type 0
IsFile none = Unit
IsFile (some f) = IsQuotable f

pub record IsTypable (c : Simple) : Type 0 where
  pub args_quotable : All IsQuotable c.args
  pub args_some : c.args ≢ []
  pub args_few : length c.args < max_args
  pub input_quotable : IsFile c.input
  pub output_quotable : IsFile c.output
  pub append_of_output : c.output ≡ none → c.append ≡ false

abbrev pub tokens : List Item → List Token
tokens = map item_token

abbrev pub end_token : Token
end_token = token end (codes "END")
