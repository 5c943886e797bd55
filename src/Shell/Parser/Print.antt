-- ===== src/Shell/Parser/Print.antt =====
-- `pipeline_print` of src/parser.c: the commands as they are shown when debugging. What `printf`
-- makes of its arguments is outside; a value here is the arguments that it gets.
use shellforge.Prelude.{
  sym, subst, inl, inr, All-append, length-append, ℕ, zero, suc, ◌+◌, ◌<◌, ◌≤◌, ◌≡◌, refl, ap, ap₂,
  Bool, Option, none, some, List, [], ◌∷◌, map, arith, length, length-map, Bytes, codes, padded,
  All,
}
use shellforge.Shell.Token.{TokenType, redirect_in, redirect_out, redirect_append, Token}
use shellforge.Shell.Parser.{
  Command, Pipeline, init_command, max_args, max_commands, ok, parse_tokens,
}
use shellforge.Shell.Parser.Abstract.{
  Simple, empty, redirect_of, Parses, over, finish, argument, redirect, connect, detach,
  encode_command, encode,
}
use shellforge.Shell.Parser.Rounds.{granted, HasValue}
use shellforge.Shell.Parser.Refine.{parse_tokens-Parses}

-- The arguments of the `printf` calls for one command.
pub record Printed : Type 0 where
  pub number : ℕ
  pub argc : ℕ
  pub argv : List (Option Bytes)
  pub input : Bytes
  pub output : Bytes
  pub append : Bool
  pub background : Bool

-- The second loop, over the first places of `argv`.
unfoldable pub print_args : ℕ → List (Option Bytes) → List (Option Bytes)
print_args zero xs = []
print_args (suc n) [] = []
print_args (suc n) (x ∷ xs) = x ∷ print_args n xs

-- `name ? name : "none"`.
unfoldable pub name_or_none : Option Bytes → Bytes
name_or_none none = codes "none"
name_or_none (some name) = name

unfoldable pub print_command : ℕ → Command → Printed
print_command i cmd = record {
  number = i + 1;
  argc = cmd.argc;
  argv = print_args cmd.argc cmd.argv;
  input = name_or_none cmd.input;
  output = name_or_none cmd.output;
  append = cmd.append;
  background = cmd.background;
}

-- The first loop from place `i` on, for as many commands as are left of the count.
unfoldable pub print_loop : ℕ → ℕ → List Command → List Printed
print_loop i zero cs = []
print_loop i (suc n) [] = []
print_loop i (suc n) (c ∷ cs) = print_command i c ∷ print_loop (i + 1) n cs

-- Nothing, not even the two lines around the commands, is printed for NULL.
unfoldable pub pipeline_print : Option Pipeline → Option (List Printed)
pipeline_print none = none
pipeline_print (some p) = some (print_loop 0 p.command_count p.commands)

-- How a file is shown that a command reads or writes, or none.
abbrev pub shown_file : Option Bytes → Bytes
shown_file (some name) = name
shown_file none = codes "none"

-- A command as its reader is to see it.
unfoldable pub shown : ℕ → Simple → Printed
shown i c = record {
  number = i + 1;
  argc = length c.args;
  argv = map some c.args;
  input = shown_file c.input;
  output = shown_file c.output;
  append = c.append;
  background = c.background;
}

unfoldable pub all_shown : ℕ → List Simple → List Printed
all_shown i [] = []
all_shown i (c ∷ cs) = shown i c ∷ all_shown (i + 1) cs

abbrev pub FewArgs : Simple → Type 0
FewArgs c = length c.args < max_args

print_args-padded :
    (n : ℕ) (xs : List (Option Bytes))
    → length xs ≤ n
    → print_args (length xs) (padded none n xs) ≡ xs
unfolding padded print_args
print_args-padded n [] h = refl
print_args-padded zero (x ∷ xs) h = elim h [ ]
print_args-padded (suc n) (x ∷ xs) h = ap (◌∷◌ x) (print_args-padded n xs (omega arith))

name_or_none-shown_file : (o : Option Bytes) → name_or_none o ≡ shown_file o
unfolding name_or_none
name_or_none-shown_file (some name) = refl
name_or_none-shown_file none = refl

print_command-encode_command :
    (i : ℕ) (c : Simple) → FewArgs c → print_command i (encode_command c) ≡ shown i c
unfolding print_command encode_command shown
print_command-encode_command i c h =
    let count : length (map some c.args) ≡ length c.args = length-map {A = Bytes} some c.args in
    let words : print_args (length c.args) (padded none max_args (map some c.args))
        ≡ map some c.args =
      rw (← count) (print_args-padded max_args (map some c.args) (omega (arith, count))) in
    λ j. record (shown i c) {
      argv = words j;
      input = name_or_none-shown_file c.input j;
      output = name_or_none-shown_file c.output j;
    }

print_loop-encode :
    (i n : ℕ) (cs : List Simple)
    → All FewArgs cs
    → length cs ≤ n
    → print_loop i (length cs) (padded init_command n (map encode_command cs)) ≡ all_shown i cs
unfolding padded print_loop all_shown
print_loop-encode i n [] few h = refl
print_loop-encode i zero (c ∷ cs) few h = elim h [ ]
print_loop-encode i (suc n) (c ∷ cs) (f, few) h =
    ap₂ ◌∷◌ (print_command-encode_command i c f) (print_loop-encode (i + 1) n cs few (omega arith))

pipeline_print-encode :
    (cs : List Simple)
    → All FewArgs cs
    → length cs ≤ max_commands
    → pipeline_print (some (encode cs)) ≡ some (all_shown 0 cs)
unfolding pipeline_print encode
pipeline_print-encode cs few h = ap some (print_loop-encode 0 max_commands cs few h)

args_are : (c next : Simple) → some c ≡ some next → next.args ≡ c.args
args_are c next e = cc

redirect_args :
    (ty : TokenType) (c next : Simple) (v : Bytes)
    → redirect_of ty c v ≡ some next
    → next.args ≡ c.args
redirect_args redirect_in c next v e = args_are _ next e
redirect_args redirect_out c next v e = args_are _ next e
redirect_args redirect_append c next v e = args_are _ next e
redirect_args _ c next v e = cc

-- What the grammar reads fits the arrays.
Parses-few :
    {done out : List Simple} {cur : Simple} {ts : List Token}
    → Parses done cur ts out
    → All FewArgs done
    → length done < max_commands
    → FewArgs cur
    → All FewArgs out × (length out ≤ max_commands)
Parses-few {done} {cur} (over e) few room mine = rw e (
  All-append FewArgs done (cur ∷ []) few (mine, tt),
  omega (arith, length-append done (cur ∷ [])),
)
Parses-few {done} {cur} (finish w e) few room mine = rw e (
  All-append FewArgs done (cur ∷ []) few (mine, tt),
  omega (arith, length-append done (cur ∷ [])),
)
Parses-few {cur} (argument v w h l p) few room mine =
    Parses-few p few room (omega (arith, length-append cur.args (v ∷ [])))
Parses-few {cur} (redirect {t} v next r w h p) few room mine =
    Parses-few p few room
      (subst (λ l. length l < max_args) (sym (redirect_args t.type cur next v r)) mine)
Parses-few {done} {cur} (connect w ne l p) few room mine =
    Parses-few p (All-append FewArgs done (cur ∷ []) few (mine, tt))
      (omega (arith, length-append done (cur ∷ []))) (omega arith)
Parses-few (detach w p) few room mine = Parses-few p few room mine

-- Where every token has a value and every `strdup` succeeds: of a pipeline with which `parse_tokens`
-- returns 0, `pipeline_print` shows the commands of the grammar and no other, each once and in
-- order, numbered from 1, with exactly its arguments, and with the word none for a file that is not
-- named.
pub pipeline_print-parse_tokens :
    (t : Token) (ts : List Token) (p q : Pipeline)
    → All HasValue (t ∷ ts)
    → parse_tokens granted (some (t ∷ ts)) (some p) ≡ ok q
    → (out : List Simple) × Parses [] empty (t ∷ ts) out
      × (pipeline_print (some q) ≡ some (all_shown 0 out))
pipeline_print-parse_tokens t ts p q vals accepted = elim (parse_tokens-Parses t ts p vals) [
  | inl (out, parses, e) ↦
      let same : encode out ≡ q = cc in
      let (few, room) = Parses-few parses tt (omega arith) (omega arith) in
      (
        out,
        parses,
        subst (λ x. pipeline_print (some x) ≡ some (all_shown 0 out)) same
            (pipeline_print-encode out few room),
      )
  | inr (r, e, _) ↦ absurd cc
]
