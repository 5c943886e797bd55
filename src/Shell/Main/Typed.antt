-- ===== src/Shell/Main/Typed.antt =====
-- A pipeline from the line that a user types to its processes: src/lexer.c, src/parser.c,
-- src/expand.c and src/executor.c, as src/main.c joins them.
use shellforge.Prelude.{
  ℕ, ◌≤◌, ◌<◌, ◌≡◌, ◌≢◌, refl, ◌⊎◌, inl, inr, false, Option, none, some, List, [], ◌∷◌, ◌++◌, ◌==◌,
  map, length, arith, All, All-mono, Bytes, codes,
}
use shellforge.Shell.Lexer.{max_tokens}
use shellforge.Shell.Lexer.Refine.{enough}
use shellforge.Shell.Lexer.RoundTrip.{Item, render, item_text}
use shellforge.Shell.Parser.{Pipeline, max_commands}
use shellforge.Shell.Parser.Abstract.{Simple, encode}
use shellforge.Shell.Parser.Rounds.{granted}
use shellforge.Shell.Line.{quote, command_items, pipeline_items, IsFile, IsTypable}
use shellforge.Shell.Line.ReadBack.{parse_tokens-tokenize_line}
use shellforge.Shell.Expand.Text.{IsEnvironment}
use shellforge.Shell.Expand.Commands.{WordMemory}
use shellforge.Shell.Expand.Commands.Whole.{
  Each, ExpandsCommand, WordFails, IsParsed, IsFileText, expand_pipeline-Each,
}
use shellforge.Shell.Executor.{Answers}
use shellforge.Shell.Host.{Host, Shell, complaint, print, process, with_process}
use shellforge.Shell.Main.{
  LineMemory, LineEnd, next, starts_comment, run_external, run_pipeline, expand_and_run, run_line,
}
use shellforge.Shell.Main.Builtins.{Report}

-- No allocation of the lexer or the parser fails.
abbrev pub granted_line : (ℕ → WordMemory) → Answers → List (List Report) → LineMemory
granted_line words answers reports = record {
  lexer = λ _. enough;
  parser = granted;
  words = words;
  answers = answers;
  reports = reports;
}

-- A line that begins with a quoted word is no comment, whatever stands behind.
quoted_first :
    (args : List Bytes) (x y : List Item)
    → args ≢ []
    → (starts_comment (render (map quote args ++ x)) ≡ false)
      × (starts_comment (render ((map quote args ++ x) ++ y)) ≡ false)
unfolding render item_text
quoted_first [] x y some_args = absurd (some_args refl)
quoted_first (a ∷ args) x y some_args = (refl, refl)

starts_comment-render :
    (c : Simple) (cs : List Simple)
    → IsTypable c
    → starts_comment (render (pipeline_items (c ∷ cs))) ≡ false
unfolding pipeline_items command_items
starts_comment-render c [] h = (quoted_first c.args _ [] h.args_some).0
starts_comment-render c (d ∷ cs) h = (quoted_first c.args _ _ h.args_some).1

IsTypable-IsParsed : (getenv : Bytes → Option Bytes) (c : Simple) → IsTypable c → IsParsed getenv c
IsTypable-IsParsed getenv c h = record {
  texts = All-mono (λ w k. All-mono (λ d x. x.1) w k) c.args h.args_quotable;
  few = omega (arith, h.args_few);
  input_text = file c.input h.input_quotable;
  output_text = file c.output h.output_quotable;
}
  where
    file : (f : Option Bytes) → IsFile f → IsFileText f
    file none k = tt
    file (some f) k = All-mono (λ d x. x.1) f k

module _ {S : Type 0} (h : Host S) where
  run_pipeline_several :
      (m : LineMemory) (cs : List Simple) (sh : Shell S)
      → 1 < length cs
      → run_pipeline h m (encode cs) sh ≡ run_external h m (encode cs) sh
  unfolding run_pipeline encode
  run_pipeline_several m cs sh few = let no : (length cs == 1) ≡ false = ground arith in rw no refl

  -- What becomes of a pipeline: it is expanded and run, or one of its words was not expanded.
  abbrev pub RunsExpanded :
      (ℕ → WordMemory)
      → (Pipeline → LineEnd × Shell S)
      → Shell S
      → List Simple
      → LineEnd × Shell S
      → Type 0
  RunsExpanded words go sh cs r =
      ((cs' : List Simple) × Each (ExpandsCommand h.getenv) cs cs'
        × (length cs' ≡ length cs)
        × (r ≡ go (encode cs')))
      ⊎ ((r ≡ (next, print sh (complaint (codes "shellforge: expansion error\n") ∷ [])))
          × ((j : ℕ) × WordFails h.getenv (words j)))

  expand_and_run-RunsExpanded :
      (m : LineMemory) (cs : List Simple) (sh : Shell S)
      → IsEnvironment h.getenv
      → 1 < length cs
      → length cs ≤ max_commands
      → All (IsParsed h.getenv) cs
      → RunsExpanded m.words (λ p. run_external h m p sh) sh cs (expand_and_run h m (encode cs) sh)
  unfolding expand_and_run
  expand_and_run-RunsExpanded m cs sh env several few parsed =
      let (cs', e, l, ends) = expand_pipeline-Each h.getenv m.words cs env few parsed in
      elim ends [
        | inl (v, w) ↦ inl (
          cs',
          w,
          l,
          rw (v, e, expand_and_run) (run_pipeline_several m cs' sh (omega (arith, l))),
        )
        | inr (v, w) ↦ inr (rw (v, expand_and_run) refl, w)
      ]

  -- For a typed pipeline of 2 to 16 commands, its words in double quotes, in an environment of C
  -- strings: `main` runs the pipeline whose words are what the typed words expand to, each in its
  -- place and all else as typed, or prints an expansion error, and then some allocation of the
  -- expansion has failed. The conditions: no allocation of the lexer or the parser fails, each
  -- command has from 1 to 63 arguments, no word has a double quote or a NUL in it, and the tokens
  -- are fewer than 255.
  pub run_line-RunsExpanded :
      (words : ℕ → WordMemory) (answers : Answers) (reports : List (List Report)) (p : Pipeline)
      (c e : Simple) (cs : List Simple) (sh : Shell S)
      → IsEnvironment h.getenv
      → All IsTypable (c ∷ e ∷ cs)
      → length (c ∷ e ∷ cs) ≤ max_commands
      → length (pipeline_items (c ∷ e ∷ cs)) < max_tokens
      → let line = render (pipeline_items (c ∷ e ∷ cs)) in
        let m = granted_line words answers reports in
        let sh' = with_process sh (h.add_history line (process sh)) in
        RunsExpanded words (λ p'. run_external h m p' sh') sh' (c ∷ e ∷ cs) (run_line h m p line sh)
  unfolding run_line
  run_line-RunsExpanded words answers reports p c e cs sh env typable few short =
      rw
        (
          run_line,
          starts_comment-render c (e ∷ cs) typable.0,
          parse_tokens-tokenize_line c (e ∷ cs) p typable few short,
        )
        (expand_and_run-RunsExpanded (granted_line words answers reports) (c ∷ e ∷ cs) _ env
          (omega arith) few
          (All-mono (λ d k. IsTypable-IsParsed h.getenv d k) (c ∷ e ∷ cs) typable))
