-- ===== src/Shell/Expand/Loop.antt =====
-- The loop of `expand_string` in src/expand.c appends what its input expands to.
use shellforge.Prelude.{
  ℕ, zero, suc, ◌+◌, ◌≤◌, ◌≡◌, refl, sym, subst, ◌≢◌, ◌⊎◌, inl, inr, true, false, not, Option, none,
  some, Option-cases, [], ◌∷◌, ◌++◌, append-nil, append_assoc, arith, ◌==◌, Bool-cases, length,
  Bytes, drop, length-drop,
}
use shellforge.Shell.Result.{Result, ok, failed, ◌>>=◌}
use shellforge.Shell.Expand.{
  Buffer, Memory, append_char, append_value, append_variable, variable_at, expand_round,
  expand_loop,
}
use shellforge.Shell.Expand.Safety.{Holds, Ends, append_char-Ends, append_text-Ends}
use shellforge.Shell.Expand.Text.{
  value, Names, Expands, done, literal, variable, dollar, variable_at_cases,
}

-- Some allocation has failed.
pub data SomeFails (m : Memory) : Type 0 where
  no_first : m.first ≡ false → SomeFails m
  no_name : (i : ℕ) → m.name_at i ≡ false → SomeFails m
  no_growth : (n : ℕ) → m.grow n ≡ false → SomeFails m

-- The loop ends with the text, or it has met a failed allocation.
abbrev pub LoopEnds : Memory → Bytes → Result Buffer → Type 0
LoopEnds m text r = ((b : Buffer) × (r ≡ ok b) × Holds text b) ⊎ ((r ≡ failed) × SomeFails m)

-- The result of a round that has taken `k` bytes.
abbrev taken : ℕ → Buffer → Result (ℕ × Buffer)
taken k b = ok (k, b)

module _ (m : Memory) (getenv : Bytes → Option Bytes) where
  append_value-Ends :
      (text name : Bytes) (b : Buffer)
      → Holds text b
      → Ends m.grow (text ++ value getenv name) (append_value m.grow b (getenv name))
  unfolding append_value
  append_value-Ends text name b h = elim (Option-cases (getenv name)) [
    | inl e ↦ rw (e, value) (inl (b, refl, subst (λ t. Holds t b) (sym (append-nil text)) h))
    | inr (v, e) ↦ rw (e, value) (append_text-Ends m.grow v text b h)
  ]

  -- The rounds that skip do nothing else.
  skips :
      (k i : ℕ) (b : Buffer) (s : Bytes)
      → (j : ℕ) × (expand_loop m getenv i k b s ≡ expand_loop m getenv j 0 b (drop k s))
  unfolding expand_loop
  skips zero i b [] = (i, refl)
  skips (suc k) i b [] = (i, refl)
  skips zero i b (c ∷ s) = (i, refl)
  skips (suc k) i b (c ∷ s) = skips k (i + 1) b s

  -- What a text of at most `n` bytes expands to, from any buffer.
  unfoldable pub LoopExpands : Bytes → Type 0
  LoopExpands s =
      (t : Bytes) × Expands getenv s t
      × ((i : ℕ) (b : Buffer) (text : Bytes)
          → Holds text b
          → LoopEnds m (text ++ t) (expand_loop m getenv i 0 b s))

  abbrev Runs : Bytes → Bytes → Type 0
  Runs s t =
      (i : ℕ) (b : Buffer) (text : Bytes)
      → Holds text b
      → LoopEnds m (text ++ t) (expand_loop m getenv i 0 b s)

  from_growth : {text : Bytes} {r : Result Buffer} → Ends m.grow text r → LoopEnds m text r
  from_growth (inl x) = inl x
  from_growth (inr (e, (n, f))) = inr (e, no_growth n f)

  -- A round whose buffer holds `text`, and then the loop on what it has left.
  goes_on :
      (r : Result Buffer) (k i : ℕ) (s text t total : Bytes)
      → LoopEnds m text r
      → text ++ t ≡ total
      → Runs (drop k s) t
      → LoopEnds m total ((r >>= taken k) >>= λ x. expand_loop m getenv i x.0 x.1 s)
  goes_on r k i s text t total (inl (b, e, h)) all run = rw e (
      let (j, same) = skips k i b s in
      rw same
        (subst (λ x. LoopEnds m x (expand_loop m getenv j 0 b (drop k s))) all (run j b text h)))
  goes_on r k i s text t total (inr (e, f)) all run = rw e (inr (refl, f))

  -- The loop on a first byte whose round is known.
  step :
      (r : Buffer → ℕ → Result Buffer) (k c : ℕ) (s t : Bytes) (new : Bytes)
      → ((i : ℕ) (b : Buffer) → expand_round m getenv i b c s ≡ (r b i >>= taken k))
      → ((i : ℕ) (b : Buffer) (text : Bytes) → Holds text b → LoopEnds m (text ++ new) (r b i))
      → Runs (drop k s) t
      → Runs (c ∷ s) (new ++ t)
  unfolding expand_loop
  step r k c s t new round ends run i b text h =
      subst
        (λ x. LoopEnds m (text ++ (new ++ t)) (x >>= λ y. expand_loop m getenv (i + 1) y.0 y.1 s))
        (sym (round i b))
        (goes_on (r b i) k (i + 1) s (text ++ new) t _ (ends i b text h) (append_assoc text new t)
          run)

  literal-LoopExpands : (c : ℕ) (s : Bytes) → c ≢ b'$' → LoopExpands s → LoopExpands (c ∷ s)
  unfolding LoopExpands
  literal-LoopExpands c s ne (t, x, run) = (
    c ∷ t,
    literal ne x,
    step (λ b i. append_char m.grow b c) 0 c s t (c ∷ []) (λ i b. round i b)
        (λ i b text h. from_growth (append_char-Ends m.grow text b c h)) run,
  )
    where
      round :
          (i : ℕ) (b : Buffer)
          → expand_round m getenv i b c s ≡ (append_char m.grow b c >>= taken 0)
      round i b =
          unfold expand_round in let plain : not (c == b'$') ≡ true = ground arith in rw plain

  dollar-LoopExpands :
      (c : ℕ) (s : Bytes)
      → c ≡ b'$'
      → variable_at s ≡ none
      → ((name rest : Bytes) → ¬ Names s name rest)
      → LoopExpands s
      → LoopExpands (c ∷ s)
  unfolding LoopExpands
  dollar-LoopExpands c s e n none_here (t, x, run) = (
    c ∷ t,
    dollar e none_here x,
    step (λ b i. append_char m.grow b c) 0 c s t (c ∷ []) (λ i b. round i b)
        (λ i b text h. from_growth (append_char-Ends m.grow text b c h)) run,
  )
    where
      round :
          (i : ℕ) (b : Buffer)
          → expand_round m getenv i b c s ≡ (append_char m.grow b c >>= taken 0)
      round i b = unfold expand_round in rw (e, n)

  append_variable-Ends :
      (i : ℕ) (text name : Bytes) (b : Buffer)
      → Holds text b
      → LoopEnds m (text ++ value getenv name) (append_variable m getenv i b name)
  unfolding append_variable
  append_variable-Ends i text name b h = elim (Bool-cases (m.name_at i)) [
    | inl e ↦ rw e (from_growth (append_value-Ends text name b h))
    | inr e ↦ rw e (inr (refl, no_name i e))
  ]

  variable-LoopExpands :
      (c : ℕ) (s : Bytes) (k : ℕ) (name : Bytes)
      → c ≡ b'$'
      → variable_at s ≡ some (k, name)
      → Names s name (drop k s)
      → LoopExpands (drop k s)
      → LoopExpands (c ∷ s)
  unfolding LoopExpands
  variable-LoopExpands c s k name e found names (t, x, run) = (
    value getenv name ++ t,
    variable name (drop k s) e names x,
    step (λ b i. append_variable m getenv i b name) k c s t (value getenv name) (λ i b. round i b)
        (λ i b text h. append_variable-Ends i text name b h) run,
  )
    where
      round :
          (i : ℕ) (b : Buffer)
          → expand_round m getenv i b c s ≡ (append_variable m getenv i b name >>= taken k)
      round i b = unfold expand_round in rw (e, found)

  nil-LoopExpands : LoopExpands []
  unfolding LoopExpands expand_loop
  nil-LoopExpands =
      ([], done, λ i b text h. inl (b, refl, subst (λ x. Holds x b) (sym (append-nil text)) h))

  -- By induction on a bound for the length, since a name takes many bytes at once.
  pub expands : (n : ℕ) (s : Bytes) → length s ≤ n → LoopExpands s
  expands n [] le = nil-LoopExpands
  expands zero (c ∷ s) le = absurd (omega arith)
  expands (suc n) (c ∷ s) le = elim (Bool-cases (c == b'$')) [
    | inr ne ↦ literal-LoopExpands c s (λ e. ground arith) (expands n s (omega arith))
    | inl e ↦ elim (variable_at_cases s) [
      | inl (none_is, no_name_here) ↦
          dollar-LoopExpands c s (ground arith) none_is no_name_here (expands n s (omega arith))
      | inr (k, name, found, names) ↦
          variable-LoopExpands c s k name (ground arith) found names
            (expands n (drop k s) (omega (arith, length-drop k s)))
    ]
  ]
