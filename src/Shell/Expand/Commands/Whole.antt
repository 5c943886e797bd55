-- ===== src/Shell/Expand/Commands/Whole.antt =====
-- The pipelines of src/expand.c: every word of every command is expanded, or a word could not be.
use shellforge.Prelude.{
  ℕ, zero, suc, ◌+◌, ◌≤◌, ◌≡◌, refl, sym, ap, ap₂, ◌∙◌, ◌⊎◌, inl, inr, Option, none, some, List, [],
  ◌∷◌, map, length, padded, All, arith, Bytes,
}
use shellforge.Shell.Lexer.Refine.{IsText}
use shellforge.Shell.Result.{ok, failed}
use shellforge.Shell.Parser.{init_command, max_args, max_commands, free_pipeline, init_pipeline}
use shellforge.Shell.Parser.Abstract.{Simple, encode_command, encode}
use shellforge.Shell.Expand.{Memory}
use shellforge.Shell.Parser.Cleanup.{free_pipeline-encode}
use shellforge.Shell.Expand.Text.{IsEnvironment, Expands}
use shellforge.Shell.Expand.Loop.{SomeFails}
use shellforge.Shell.Expand.Refine.{expand_string-Expands}
use shellforge.Shell.Expand.Commands.{
  WordMemory, Verdict, Outcome, in_order, expand_args, expand_file, expand_command, expand_commands,
  expand_pipeline,
}

abbrev pub IsFileText : Option Bytes → Type 0
IsFileText none = Unit
IsFileText (some f) = IsText f

-- The two lists have one length, and their members are related in order.
abbrev pub Each {ℓ} : {A : Type ℓ} → (A → A → Type 0) → List A → List A → Type 0
Each R [] [] = Unit
Each R (x ∷ xs) (y ∷ ys) = R x y × Each R xs ys
Each R _ _ = ⊥

module _ (getenv : Bytes → Option Bytes) where
  abbrev pub ExpandsFile : Option Bytes → Option Bytes → Type 0
  ExpandsFile none none = Unit
  ExpandsFile (some f) (some g) = Expands getenv f g
  ExpandsFile _ _ = ⊥

  -- A command with its words expanded.
  pub record ExpandsCommand (c c' : Simple) : Type 0 where
    pub args : Each (Expands getenv) c.args c'.args
    pub input : ExpandsFile c.input c'.input
    pub output : ExpandsFile c.output c'.output
    pub append : c'.append ≡ c.append
    pub background : c'.background ≡ c.background

  -- The call has done what it is for, or some word could not be expanded.
  abbrev pub Ends : Type 0 → Type 0 → Verdict → Type 0
  Ends Fails P r = ((r ≡ ok tt) × P) ⊎ ((r ≡ failed) × Fails)

  expand_args-Ends :
      (m : ℕ → Memory) (i n : ℕ) (xs : List Bytes)
      → IsEnvironment getenv
      → length xs ≤ n
      → All IsText xs
      → (ys : List Bytes) × ((expand_args getenv m i (length xs) (padded none n (map some xs))).1
          ≡ padded none n (map some ys))
        × (length ys ≡ length xs)
        × Ends
            ((j : ℕ) × SomeFails (m j))
            (Each (Expands getenv) xs ys)
            (expand_args getenv m i (length xs) (padded none n (map some xs))).0
  unfolding expand_args padded
  expand_args-Ends m i n [] env h texts = ([], refl, refl, inl (refl, tt))
  expand_args-Ends m i zero (x ∷ xs) env h texts = absurd (omega arith)
  expand_args-Ends m i (suc n) (x ∷ xs) env h (text, texts) =
      let (t, ex, res) = expand_string-Expands (m i) getenv x env text in
      let (ys, e, l, ends) = expand_args-Ends m (i + 1) n xs env (omega arith) texts in
      elim res [
        | inl g ↦
            rw (g, expand_args)
              (
                t ∷ ys,
                ap (◌∷◌ (some t)) e,
                ap suc l,
                elim ends [ inl (a, b) ↦ inl (a, (ex, b)) | inr f ↦ inr f ],
              )
        | inr (g, fails) ↦ rw (g, expand_args) (x ∷ xs, refl, refl, inr (refl, (i, fails)))
      ]

  expand_file-Ends :
      (m : Memory) (f : Option Bytes)
      → IsEnvironment getenv
      → IsFileText f
      → (f' : Option Bytes) × ((expand_file getenv m f).1 ≡ f')
        × Ends (SomeFails m) (ExpandsFile f f') (expand_file getenv m f).0
  unfolding expand_file
  expand_file-Ends m none env h = (none, refl, inl (refl, tt))
  expand_file-Ends m (some f) env h =
      let (t, ex, res) = expand_string-Expands m getenv f env h in
      elim res [
        | inl g ↦ rw (g, expand_file) (some t, refl, inl (refl, ex))
        | inr (g, fails) ↦ rw (g, expand_file) (some f, refl, inr (refl, fails))
      ]

  -- Where a word of a command is not expanded, and where one of a pipeline is not.
  pub data WordFails (m : WordMemory) : Type 0 where
    in_argument : (j : ℕ) × SomeFails (m.argument j) → WordFails m
    in_input : SomeFails m.input → WordFails m
    in_output : SomeFails m.output → WordFails m

  -- A command as the parser leaves it: its words are texts, and fewer than the places of `argv`.
  pub record IsParsed (c : Simple) : Type 0 where
    pub texts : All IsText c.args
    pub few : length c.args ≤ max_args
    pub input_text : IsFileText c.input
    pub output_text : IsFileText c.output

  in_order-Ends :
      (m : WordMemory) (c : Simple) (ys : List Bytes) (f g : Option Bytes)
      (a : Outcome (List (Option Bytes))) (i o : Outcome (Option Bytes))
      → a.1 ≡ padded none max_args (map some ys)
      → length ys ≡ length c.args
      → i.1 ≡ f
      → o.1 ≡ g
      → Ends ((j : ℕ) × SomeFails (m.argument j)) (Each (Expands getenv) c.args ys) a.0
      → Ends (SomeFails m.input) (ExpandsFile c.input f) i.0
      → Ends (SomeFails m.output) (ExpandsFile c.output g) o.0
      → (c' : Simple) × ((in_order (encode_command c) a i o).1 ≡ encode_command c')
        × Ends (WordFails m) (ExpandsCommand c c') (in_order (encode_command c) a i o).0
  unfolding encode_command
  in_order-Ends m c ys f g (r, a) (r', i) (r'', o) ea l ei eo ends ends' ends'' = elim ends [
    | inr (v, w) ↦ rw (v, ea) (record c { args = ys }, rw l refl, inr (refl, in_argument w))
    | inl (v, w) ↦ elim ends' [
      | inr (v', w') ↦
          rw (v, v', ea, ei) (record c { args = ys; input = f }, rw l refl, inr (refl, in_input w'))
      | inl (v', w') ↦
          rw (v, v', ea, ei, eo)
            (
              record c { args = ys; input = f; output = g },
              rw l refl,
              elim ends'' [
                | inr (v'', w'') ↦ inr (v'', in_output w'')
                | inl (v'', w'') ↦ inl (
                  v'',
                  record { args = w; input = w'; output = w''; append = refl; background = refl },
                )
              ],
            )
    ]
  ]

  expand_command-Ends :
      (m : WordMemory) (c : Simple)
      → IsEnvironment getenv
      → IsParsed c
      → (c' : Simple) × ((expand_command getenv m (encode_command c)).1 ≡ encode_command c')
        × Ends (WordFails m) (ExpandsCommand c c') (expand_command getenv m (encode_command c)).0
  unfolding expand_command encode_command
  expand_command-Ends m c env h =
      let (ys, e, l, ends) = expand_args-Ends m.argument 0 max_args c.args env h.few h.texts in
      let (f, e', ends') = expand_file-Ends m.input c.input env h.input_text in
      let (g, e'', ends'') = expand_file-Ends m.output c.output env h.output_text in
      in_order-Ends m c ys f g _ _ _ e l e' e'' ends ends' ends''

  expand_commands-Ends :
      (m : ℕ → WordMemory) (i n : ℕ) (cs : List Simple)
      → IsEnvironment getenv
      → length cs ≤ n
      → All IsParsed cs
      → (cs' : List Simple) × ((expand_commands getenv m i
            (length cs)
            (padded init_command n (map encode_command cs))).1
          ≡ padded init_command n (map encode_command cs'))
        × (length cs' ≡ length cs)
        × Ends
            ((j : ℕ) × WordFails (m j))
            (Each ExpandsCommand cs cs')
            (expand_commands getenv m i
              (length cs)
              (padded init_command n (map encode_command cs))).0
  unfolding expand_commands padded
  expand_commands-Ends m i n [] env h parsed = ([], refl, refl, inl (refl, tt))
  expand_commands-Ends m i zero (c ∷ cs) env h parsed = absurd (omega arith)
  expand_commands-Ends m i (suc n) (c ∷ cs) env h (p, ps) =
      let (c', e, res) = expand_command-Ends (m i) c env p in
      let (cs', e', l, ends) = expand_commands-Ends m (i + 1) n cs env (omega arith) ps in
      elim res [
        | inr (v, w) ↦
            rw (v, expand_commands)
              (
                c' ∷ cs,
                ap (λ d. d ∷ padded init_command n (map encode_command cs)) e,
                refl,
                inr (refl, (i, w)),
              )
        | inl (v, w) ↦
            rw (v, expand_commands)
              (
                c' ∷ cs',
                ap₂ ◌∷◌ e e',
                ap suc l,
                elim ends [ inl (a, b) ↦ inl (a, (w, b)) | inr f ↦ inr f ],
              )
      ]

  -- For a pipeline as the parser leaves it, whose words have no NUL, every environment of such
  -- values and every outcome of the allocations: `expand_pipeline` returns 0 with each argument and
  -- each file name replaced by what it expands to, and all else as it was, or it returns -1 and
  -- some allocation has failed. In either case what it leaves is a pipeline of as many commands,
  -- in its arrays, and it never leaves them.
  pub expand_pipeline-Each :
      (m : ℕ → WordMemory) (cs : List Simple)
      → IsEnvironment getenv
      → length cs ≤ max_commands
      → All IsParsed cs
      → (cs' : List Simple) × ((expand_pipeline getenv m (encode cs)).1 ≡ encode cs')
        × (length cs' ≡ length cs)
        × Ends
            ((j : ℕ) × WordFails (m j))
            (Each ExpandsCommand cs cs')
            (expand_pipeline getenv m (encode cs)).0
  unfolding expand_pipeline encode
  expand_pipeline-Each m cs env h parsed =
      let (cs', e, l, ends) = expand_commands-Ends m 0 max_commands cs env h parsed in
      (cs', λ k. record { commands = e k; command_count = (sym l) k }, l, ends)

  -- Whatever `expand_pipeline` returns, `free_pipeline` then leaves no string of the pipeline.
  pub free_pipeline-expand_pipeline :
      (m : ℕ → WordMemory) (cs : List Simple)
      → IsEnvironment getenv
      → length cs ≤ max_commands
      → All IsParsed cs
      → free_pipeline (expand_pipeline getenv m (encode cs)).1 ≡ init_pipeline
  free_pipeline-expand_pipeline m cs env h parsed =
      let (cs', e, _, _) = expand_pipeline-Each m cs env h parsed in
      ap free_pipeline e ∙ free_pipeline-encode cs'
