-- ===== src/Shell/Parser/Rounds.antt =====
-- One round of the loop of `parse_tokens` in src/parser.c, against the grammar.
use shellforge.Prelude.{
  ℕ, ◌+◌, ◌-◌, ◌<◌, ◌≡◌, refl, sym, ap, subst, ◌∙◌, ◌≢◌, ◌↔◌, ◌⊎◌, inl, inr, Bool, true, false,
  ◌||◌, some, List, [], ◌∷◌, ◌++◌, arith, leb, ◌==◌, Bool-cases, length, length-append, Bytes, All,
}
use shellforge.Shell.Token.{TokenType, word, pipe, redirect_in, ampersand, end, error, Token}
use shellforge.Shell.Parser.{
  Command, Pipeline, max_args, max_commands, add_argument, set_string, ok, rejected, Round, go,
  stop, current, with_current, parse_word, parse_operand, parse_redirect, parse_pipe, parse_round,
  Redirect, redirected,
}
use shellforge.Shell.Parser.Abstract.{
  Simple, empty, with_arg, redirect_of, Parses, finish, argument, redirect, connect, detach,
  encode_command, Shape, invert,
}
use shellforge.Shell.Parser.Arrays.{
  at, encode_command-with_arg, current-at, with_current-at, next-at,
}

-- The limits that the code keeps to.
pub record Fits (done : List Simple) (cur : Simple) : Type 0 where
  pub few_commands : length done < max_commands
  pub few_args : length cur.args < max_args

-- Every `strdup` succeeds.
abbrev pub granted : ℕ → Bool
granted i = true

-- What one round does, against the grammar.
pub data Outcome (done : List Simple) (cur : Simple) (t : Token) (rest : List Token)
    : Round → Type 0 where
  one :
      {r : Round} (done' : List Simple) (cur' : Simple)
      → r ≡ go false (at done' cur') (length done')
      → Fits done' cur'
      → ((out : List Simple) → Parses done' cur' rest out ↔ Parses done cur (t ∷ rest) out)
      → Outcome done cur t rest r
  two :
      {r : Round} (u : Token) (rest' : List Token) (cur' : Simple)
      → r ≡ go true (at done cur') (length done)
      → rest ≡ u ∷ rest'
      → Fits done cur'
      → ((out : List Simple) → Parses done cur' rest' out ↔ Parses done cur (t ∷ u ∷ rest') out)
      → Outcome done cur t rest r
  ends :
      {r : Round}
      → r ≡ stop (ok (at done cur))
      → Parses done cur (t ∷ rest) (done ++ cur ∷ [])
      → Outcome done cur t rest r
  fails :
      {r : Round} (p : Pipeline)
      → r ≡ stop (rejected p)
      → ((out : List Simple) → ¬ Parses done cur (t ∷ rest) out)
      → Outcome done cur t rest r

length-nil : {A : Type 0} (xs : List A) → length xs ≡ 0 → xs ≡ []
length-nil [] h = refl
length-nil (x ∷ xs) h = absurd (omega arith)

module _ (done : List Simple) (cur : Simple) (fit : Fits done cur) (t : Token) (rest : List Token)
    (v : Bytes) (has : t.value ≡ some v) (i : ℕ) where
  abbrev round_is : Round
  round_is = parse_round granted i (at done cur) (length done) t.type t.value rest

  shape :
      {out : List Simple} (ty : TokenType)
      → t.type ≡ ty
      → Parses done cur (t ∷ rest) out
      → Shape ty done cur t rest out
  shape {out} ty e p = subst (λ y. Shape y done cur t rest out) e (invert p)

  here : current (at done cur) (length done) ≡ encode_command cur
  here = current-at done cur fit.few_commands

  pub full-Outcome :
      t.type ≡ word → leb (max_args - 1) (length cur.args) ≡ true → Outcome done cur t rest round_is
  unfolding parse_round parse_word add_argument encode_command
  full-Outcome e full =
      fails (with_current (at done cur) (length done) (encode_command cur))
        (rw (e, has, here, full)) (λ out p. ground (arith, (shape word e p).2))

  word_rest :
      {out : List Simple} → Shape word done cur t rest out → Parses done (with_arg cur v) rest out
  word_rest {out} (w, e, _, p) =
      let same : w ≡ v = ground (arith, e, has) in
      subst (λ x. Parses done (with_arg cur x) rest out) same p

  pub room-Outcome :
      t.type ≡ word → length cur.args + 1 < max_args → Outcome done cur t rest round_is
  unfolding parse_round parse_word
  room-Outcome e room =
      one done (with_arg cur v)
        (rw (e, has, here, encode_command-with_arg cur v room)
          (ap (λ p. go false p (length done)) (with_current-at done cur (with_arg cur v))))
        (record {
          few_commands = fit.few_commands;
          few_args = omega (arith, length-append cur.args (v ∷ []));
        })
        (λ out. (argument v e has room, λ p. word_rest (shape word e p)))

  pub end-Outcome : t.type ≡ end → Outcome done cur t rest round_is
  unfolding parse_round
  end-Outcome e = ends (rw e) (finish e refl)

  pub error-Outcome : t.type ≡ error → Outcome done cur t rest round_is
  unfolding parse_round
  error-Outcome e = fails (at done cur) (rw e) (λ out p. shape error e p)

  pub ampersand-Outcome : t.type ≡ ampersand → Outcome done cur t rest round_is
  unfolding parse_round
  ampersand-Outcome e =
      one done (record cur { background = true })
        (rw (e, here)
          (unfold encode_command in
            (ap (λ p. go false p (length done))
              (with_current-at done cur (record cur { background = true })))))
        (record { few_commands = fit.few_commands; few_args = fit.few_args })
        (λ out. (detach e, shape ampersand e))

  pub pipe-Outcome : t.type ≡ pipe → Outcome done cur t rest round_is
  unfolding parse_round parse_pipe
  pipe-Outcome e =
      elim (Bool-cases ((length cur.args == 0) || leb (max_commands - 1) (length done))) [
        | inl bad ↦
            fails (at done cur) (rw (e, here) (unfold encode_command in rw bad))
              (λ out p. let (ne, l, _) = shape pipe e p in ne (length-nil cur.args (ground arith)))
        | inr good ↦
            one (done ++ cur ∷ []) empty
              (rw (e, here) (unfold encode_command in rw (good, next-at done cur) (rw count)))
              (record { few_commands = ground (arith, count); few_args = omega arith })
              (λ out. (
                connect e (λ n. ground (arith, ap length n)) (ground arith),
                λ p. (shape pipe e p).2,
              ))
      ]
    where
      count : length done + 1 ≡ length (done ++ cur ∷ [])
      count = omega (arith, length-append done (cur ∷ []))

abbrev pub HasValue : Token → Type 0
HasValue t = (v : Bytes) × (t.value ≡ some v)

-- The operand must be a word.
operand :
    (p : Pipeline) (k : ℕ) (c : Command) (r : Redirect) (w : Bytes) (ty : TokenType)
    → (ty ≡ word) ⊎ ((ty ≢ word) × (parse_operand true p k c r ty (some w) ≡ stop (rejected p)))
unfolding parse_operand
operand p k c r w word = inl refl
operand p k c r w _ = inr ((λ e. cc), refl)

module _ (done : List Simple) (cur : Simple) (fit : Fits done cur) (t : Token) (c : Command)
    (r : Redirect) (next : Bytes → Simple)
    (next_is : (w : Bytes) → redirect_of t.type cur w ≡ some (next w))
    (writes : (w : Bytes)
      → redirected (at done cur) (length done) c r (true, some w)
        ≡ go true (at done (next w)) (length done))
    (args_are : (w : Bytes) → (next w).args ≡ cur.args)
    (inv : (rest : List Token) (out : List Simple)
      → Parses done cur (t ∷ rest) out
      → Shape redirect_in done cur t rest out) where
  followed :
      (u : Token) (rest : List Token) (w : Bytes)
      → u.value ≡ some w
      → u.type ≡ word
      → (out : List Simple) → Parses done cur (t ∷ u ∷ rest) out
      → Parses done (next w) rest out
  followed u rest w e h out p =
      let (u', rest', w', n, split, n_is, _, val, q) = inv (u ∷ rest) out p in
      let same_u : u ≡ u' = cc in
      let same_rest : rest ≡ rest' = cc in
      let same_next : n ≡ next w = ground (arith, next_is w, ap (λ x. x.value) same_u) in
      subst (λ x. Parses done (next w) x out) (sym same_rest)
        (subst (λ x. Parses done x rest' out) same_next q)

  refuted :
      {u : Token} {rest : List Token} (out : List Simple)
      → Shape redirect_in done cur t (u ∷ rest) out
      → u.type ≢ word
      → ⊥
  refuted {u} out (u', rest', w, n, split, n_is, is_word, val, q) ne =
      ne (let same : u ≡ u' = cc in ap (λ x. x.type) same ∙ is_word)

  pub redirect-Outcome :
      (rest : List Token)
      → All HasValue rest
      → Outcome done cur t rest (parse_redirect true (at done cur) (length done) c r rest)
  unfolding parse_redirect parse_operand set_string
  redirect-Outcome [] vals =
      fails (at done cur) refl (λ out p. let q = inv [] out p in let e = q.4 in cc)
  redirect-Outcome (u ∷ rest) ((w, e), vals) =
      elim (operand (at done cur) (length done) c r w u.type) [
        | inl h ↦
            two u rest (next w) (rw (e, h) (writes w)) refl
              (record { few_commands = fit.few_commands; few_args = rw (args_are w) fit.few_args })
              (λ out. (redirect w (next w) (next_is w) h e, followed u rest w e h out))
        | inr (ne, bad) ↦
            fails (at done cur) (rw e bad) (λ out p. refuted out (inv (u ∷ rest) out p) ne)
      ]
