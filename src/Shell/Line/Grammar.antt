-- ===== src/Shell/Line/Grammar.antt =====
-- The tokens of a typed pipeline, by the grammar of src/parser.c.
use shellforge.Prelude.{
  ◌+◌, ◌<◌, ◌≡◌, refl, sym, subst, ◌∙◌, Bool, true, false, Option, none, some, List, [], ◌∷◌, ◌++◌,
  map, append_assoc, append-nil, arith, length, length-append, Bytes, All,
}
use mathlib.Core.List.{map-append}
use shellforge.Shell.Token.{Token}
use shellforge.Shell.Lexer.RoundTrip.{bar, item_token}
use shellforge.Shell.Parser.{max_args, max_commands}
use shellforge.Shell.Parser.Abstract.{
  Simple, empty, with_arg, Parses, finish, argument, redirect, connect, detach,
}
use shellforge.Shell.Line.{
  quote, input_items, output_items, background_items, command_items, pipeline_items, IsTypable,
  tokens, end_token,
}

module _ (done out : List Simple) (rest : List Token) where
  Parses-args :
      (c : Simple) (args : List Bytes)
      → length c.args + length args < max_args
      → Parses done (record c { args = c.args ++ args }) rest out
      → Parses done c (tokens (map quote args) ++ rest) out
  unfolding item_token
  Parses-args c [] h p =
      subst (λ x. Parses done (record c { args = x }) rest out) (append-nil c.args) p
  Parses-args c (a ∷ args) h p = argument a refl refl (omega arith) (
      Parses-args (with_arg c a) args (omega (arith, length-append c.args (a ∷ []))) (
        subst (λ x. Parses done (record c { args = x }) rest out)
          (sym (append_assoc c.args (a ∷ []) args)) p))

  Parses-input :
      (c : Simple) (f : Option Bytes)
      → c.input ≡ none
      → Parses done (record c { input = f }) rest out
      → Parses done c (tokens (input_items f) ++ rest) out
  unfolding item_token
  Parses-input c none e p = subst (λ x. Parses done (record c { input = x }) rest out) (sym e) p
  Parses-input c (some f) e p = redirect f (record c { input = some f }) refl refl refl p

  Parses-output :
      (c : Simple) (b : Bool) (f : Option Bytes)
      → c.output ≡ none
      → c.append ≡ false
      → (f ≡ none → b ≡ false)
      → Parses done (record c { output = f; append = b }) rest out
      → Parses done c (tokens (output_items b f) ++ rest) out
  unfolding item_token
  Parses-output c b none e a h p =
      subst (λ x. Parses done (record c { output = x }) rest out) (sym e)
        (subst (λ y. Parses done (record c { output = none; append = y }) rest out) (h refl ∙ sym a)
          p)
  Parses-output c true (some f) e a h p =
      redirect f (record c { output = some f; append = true }) refl refl refl p
  Parses-output c false (some f) e a h p =
      redirect f (record c { output = some f; append = false }) refl refl refl p

  Parses-background :
      (c : Simple) (b : Bool)
      → c.background ≡ false
      → Parses done (record c { background = b }) rest out
      → Parses done c (tokens (background_items b) ++ rest) out
  unfolding item_token
  Parses-background c true e p = detach refl p
  Parses-background c false e p =
      subst (λ x. Parses done (record c { background = x }) rest out) (sym e) p

-- The tokens of a typed command build just that command.
Parses-command :
    (done out : List Simple) (rest : List Token) (c : Simple)
    → IsTypable c
    → Parses done c rest out
    → Parses done empty (tokens (command_items c) ++ rest) out
unfolding command_items
Parses-command done out rest c h p = rw split (
    Parses-args done out _ empty c.args (omega (arith, h.args_few)) (
      Parses-input done out _ (record empty { args = c.args }) c.input refl
        (Parses-output done out _ (record empty { args = c.args; input = c.input }) c.append
          c.output refl refl h.append_of_output
          (Parses-background done out rest (record c { background = false }) c.background refl p))))
  where
    split :
        tokens (command_items c) ++ rest
        ≡ tokens (map quote c.args)
          ++ (tokens (input_items c.input)
              ++ (tokens (output_items c.append c.output)
                  ++ (tokens (background_items c.background) ++ rest)))
    split = simp (map-append, append_assoc)

pub Parses-pipeline :
    (cs : List Simple) (c : Simple) (done : List Simple)
    → All IsTypable (c ∷ cs)
    → length done + length cs < max_commands
    → Parses done empty (tokens (pipeline_items (c ∷ cs)) ++ end_token ∷ []) (done ++ (c ∷ cs))
unfolding pipeline_items item_token
Parses-pipeline [] c done h few = Parses-command done _ _ c h.0 (finish refl refl)
Parses-pipeline (d ∷ cs) c done h few = rw split (
    Parses-command done _ _ c h.0 (
      connect refl h.0.args_some (omega arith) (
        subst (Parses (done ++ c ∷ []) empty later) (append_assoc done (c ∷ []) (d ∷ cs)) (
          Parses-pipeline cs d (done ++ c ∷ []) h.1 (omega (arith, length-append done (c ∷ [])))))))
  where
    later : List Token
    later = tokens (pipeline_items (d ∷ cs)) ++ end_token ∷ []

    split :
        tokens (command_items c ++ (bar ∷ pipeline_items (d ∷ cs))) ++ end_token ∷ []
        ≡ tokens (command_items c) ++ (item_token bar ∷ later)
    split = simp (map-append, append_assoc)
