-- ===== src/Shell/Parser/Refine.antt =====
-- `parse_tokens` of src/parser.c accepts exactly what the grammar does, with the same commands.
use shellforge.Prelude.{
  ℕ, ◌+◌, ◌-◌, ◌≡◌, refl, sym, ap, subst, ◌∙◌, ◌⊎◌, inl, inr, true, false, some, List, [], ◌∷◌,
  ◌++◌, arith, leb, Bool-cases, length, Bytes, All,
}
use shellforge.Shell.Token.{
  TokenType, word, pipe, redirect_in, redirect_out, redirect_append, ampersand, end, error, Token,
}
use shellforge.Shell.Parser.{
  Command, Pipeline, max_args, Parsed, ok, rejected, go, with_current, parse_redirect, parse_round,
  parse_loop, parse_tokens, Redirect, input, output, redirected,
}
use shellforge.Shell.Parser.Abstract.{
  Simple, empty, redirect_of, Parses, over, encode_command, encode, Shape, invert,
}
use shellforge.Shell.Parser.Arrays.{at, current-at, with_current-at, encode-start}
use shellforge.Shell.Parser.Rounds.{
  Fits, granted, Outcome, one, two, ends, fails, HasValue, full-Outcome, room-Outcome, end-Outcome,
  error-Outcome, ampersand-Outcome, pipe-Outcome, redirect-Outcome,
}

module _ (done : List Simple) (cur : Simple) (fit : Fits done cur) (t : Token) (rest : List Token)
    (v : Bytes) (has : t.value ≡ some v) (vals : All HasValue rest) (i : ℕ) where
  writes_with :
      (n : Simple)
      → go true (with_current (at done cur) (length done) (encode_command n)) (length done)
        ≡ go true (at done n) (length done)
  writes_with n = ap (λ p. go true p (length done)) (with_current-at done cur n)

  abbrev R : TokenType → Type 0
  R ty = Outcome done cur t rest (parse_round granted i (at done cur) (length done) ty t.value rest)

  redirect_by :
      (ty : TokenType)
      → t.type ≡ ty
      → (c : Command) (r : Redirect) (next : Bytes → Simple)
      → ((w : Bytes) → redirect_of ty cur w ≡ some (next w))
      → ((w : Bytes)
          → redirected (at done cur) (length done) c r (true, some w)
            ≡ go true
                (with_current (at done cur) (length done) (encode_command (next w)))
                (length done))
      → ((w : Bytes) → (next w).args ≡ cur.args)
      → ((rest' : List Token) (out : List Simple)
          → Shape ty done cur t rest' out
          → Shape redirect_in done cur t rest' out)
      → Outcome done cur t rest (parse_redirect true (at done cur) (length done) c r rest)
  redirect_by ty e c r next n w a shapes =
      redirect-Outcome done cur fit t c r next (λ x. rw e (n x)) (λ x. w x ∙ writes_with (next x)) a
        (λ rest' out p. shapes rest' out (subst (λ y. Shape y done cur t rest' out) e (invert p)))
        rest vals

  by_type : (ty : TokenType) → t.type ≡ ty → R ty
  unfolding parse_round encode_command
  by_type redirect_in e = rw (current-at done cur fit.few_commands) (
      redirect_by redirect_in e (encode_command cur) input (λ w. record cur { input = some w })
        (λ w. refl) (λ w. refl) (λ w. refl) (λ _ _ x. x))
  by_type redirect_out e = rw (current-at done cur fit.few_commands) (
      redirect_by redirect_out e (record (encode_command cur) { append = false }) output
        (λ w. record cur { output = some w; append = false }) (λ w. refl) (λ w. refl) (λ w. refl)
        (λ _ _ x. x))
  by_type redirect_append e = rw (current-at done cur fit.few_commands) (
      redirect_by redirect_append e (record (encode_command cur) { append = true }) output
        (λ w. record cur { output = some w; append = true }) (λ w. refl) (λ w. refl) (λ w. refl)
        (λ _ _ x. x))
  by_type word e = elim (Bool-cases (leb (max_args - 1) (length cur.args))) [
    | inl full ↦ subst R e (full-Outcome done cur fit t rest v has i e full)
    | inr room ↦ subst R e (room-Outcome done cur fit t rest v has i e (ground arith))
  ]
  by_type pipe e = subst R e (pipe-Outcome done cur fit t rest v has i e)
  by_type ampersand e = subst R e (ampersand-Outcome done cur fit t rest v has i e)
  by_type end e = subst R e (end-Outcome done cur fit t rest v has i e)
  by_type error e = subst R e (error-Outcome done cur fit t rest v has i e)

-- The loop ends with the commands of the grammar, or rejects what has no parse.
abbrev pub Decides : Parsed → ((out : List Simple) → Type 0) → Type 0
Decides r P =
    ((out : List Simple) × P out × (r ≡ ok (encode out)))
    ⊎ ((p : Pipeline) × (r ≡ rejected p) × ((out : List Simple) → ¬ P out))

abbrev Loop : ℕ → List Simple → Simple → List Token → Type 0
Loop i done cur ts =
    Decides (parse_loop granted i false (at done cur) (length done) ts) (Parses done cur ts)

combine :
    (i : ℕ) (done : List Simple) (cur : Simple) (t : Token) (rest : List Token)
    → Outcome done cur t rest
        (parse_round granted i (at done cur) (length done) t.type t.value rest)
    → ((done' : List Simple) (cur' : Simple) → Fits done' cur' → Loop (i + 1) done' cur' rest)
    → ((u : Token) (rest' : List Token) (cur' : Simple)
        → rest ≡ u ∷ rest'
        → Fits done cur'
        → Loop (i + 1 + 1) done cur' rest')
    → Loop i done cur (t ∷ rest)
unfolding parse_loop
combine i done cur t rest (one done' cur' e f iff) rec₁ rec₂ =
    rw (e, parse_loop)
      (elim (rec₁ done' cur' f) [
        | inl (out, p, q) ↦ inl (out, (iff out).0 p, q)
        | inr (p, q, no_parse) ↦ inr (p, q, λ out x. no_parse out ((iff out).1 x))
      ])
combine i done cur t rest (two u rest' cur' e split f iff) rec₁ rec₂ =
    rw (e, split, parse_loop)
      (elim (rec₂ u rest' cur' split f) [
        | inl (out, p, q) ↦ inl (out, (iff out).0 p, q)
        | inr (p, q, no_parse) ↦ inr (p, q, λ out x. no_parse out ((iff out).1 x))
      ])
combine i done cur t rest (ends e p) rec₁ rec₂ =
    rw (e, parse_loop) (inl (done ++ cur ∷ [], p, refl))
combine i done cur t rest (fails p e no_parse) rec₁ rec₂ =
    rw (e, parse_loop) (inr (p, refl, no_parse))

decide :
    (ts : List Token) (i : ℕ) (done : List Simple) (cur : Simple)
    → All HasValue ts
    → Fits done cur
    → Loop i done cur ts
decide [] i done cur vals fit = inl (done ++ cur ∷ [], over refl, unfold parse_loop in refl)
decide (t ∷ []) i done cur vals fit =
    combine i done cur t [] (by_type done cur fit t [] vals.0.0 vals.0.1 vals.1 i t.type refl)
      (λ d c f. decide [] (i + 1) d c tt f) (λ u r c e f. absurd (cc))
decide (t ∷ u ∷ ts) i done cur vals fit =
    combine i done cur t (u ∷ ts)
      (by_type done cur fit t (u ∷ ts) vals.0.0 vals.0.1 vals.1 i t.type refl)
      (λ d c f. decide (u ∷ ts) (i + 1) d c vals.1 f)
      (λ u' r c e f.
        let same : ts ≡ r = cc in
        subst (Loop (i + 1 + 1) done c) same (decide ts (i + 1 + 1) done c vals.1.1 f))

-- Where every token has a value and every `strdup` succeeds, `parse_tokens` returns 0 exactly on
-- the token lists of the grammar, and the pipeline then holds exactly the commands of the grammar.
-- It returns -1 on all others, and never reaches the `strdup` of NULL.
pub parse_tokens-Parses :
    (t : Token) (ts : List Token) (p : Pipeline)
    → All HasValue (t ∷ ts)
    → Decides (parse_tokens granted (some (t ∷ ts)) (some p)) (Parses [] empty (t ∷ ts))
unfolding parse_tokens
parse_tokens-Parses t ts p vals =
    subst (λ q. Decides (parse_loop granted 0 false q 0 (t ∷ ts)) (Parses [] empty (t ∷ ts)))
      (sym encode-start)
      (decide (t ∷ ts) 0 [] empty vals
        (record { few_commands = omega arith; few_args = omega arith }))
