-- ===== src/Shell/Executor/Redirect.antt =====
-- The redirections of src/executor.c, and the descriptors at which a child calls `execvp`.
use shellforge.Prelude.{
  ℕ, ◌≡◌, refl, sym, subst, ◌∙◌, ◌≢◌, inl, inr, Bool, true, false, Option, none, some, Option-cases,
  if◌then◌else◌, if-intro, arith, Bytes, codes,
}
use shellforge.Shell.Result.{Result, ok, failed, fault, ◌>>=◌}
use shellforge.Shell.Parser.{Command}
use shellforge.Shell.Executor.{
  OpenFlags, read_only, create_append, create_truncate, Posix, redirect_to, redirect_input,
  redirect_output,
}
use shellforge.Shell.Executor.Descriptors.{Descriptors}

-- Where the call goes on, it goes on in such a state; it may also have exited.
abbrev pub Reaches : {S : Type 0} → (S → Type 0) → Result S → Type 0
Reaches P (ok s) = P s
Reaches P failed = Unit
Reaches P fault = ⊥

pub Reaches-bind :
    {S : Type 0} (P Q : S → Type 0) (r : Result S) (f : S → Result S)
    → Reaches P r
    → ((s : S) → P s → Reaches Q (f s))
    → Reaches Q (r >>= f)
Reaches-bind P Q (ok s) f h k = k s h
Reaches-bind P Q failed f h k = tt
Reaches-bind P Q fault f h k = absurd h

Reaches-mono :
    {S : Type 0} (P Q : S → Type 0) (r : Result S)
    → ((s : S) → P s → Q s)
    → Reaches P r
    → Reaches Q r
Reaches-mono P Q (ok s) k h = k s h
Reaches-mono P Q failed k h = tt
Reaches-mono P Q fault k h = h

module _ {S D K : Type 0} (os : Posix S) (d : Descriptors os D K) where
  -- The descriptors of `s'` are those of `s`, but for `t`.
  abbrev Keeps : ℕ → S → S → Type 0
  Keeps t s s' = (g : ℕ) → g ≢ t → d.at s' g ≡ d.at s g

  -- Behind `t` stands the file of this name, opened with these flags.
  abbrev pub Takes : OpenFlags → Bytes → ℕ → S → Type 0
  Takes fl name t s = (x : D) × (d.at s t ≡ some x) × (d.file_of x ≡ some (fl, name))

  abbrev Redirected : OpenFlags → Bytes → ℕ → S → S → Type 0
  Redirected fl name t s s' = Keeps t s s' × Takes fl name t s'

  Takes-same :
      (fl : OpenFlags) (name : Bytes) (t : ℕ) (s s' : S)
      → d.at s' t ≡ d.at s t
      → Takes fl name t s
      → Takes fl name t s'
  Takes-same fl name t s s' same (x, e, o) = (x, same ∙ e, o)

  -- The file is opened at a free descriptor, moved to `t`, and closed where it was opened.
  redirect_to-Redirected :
      (fl : OpenFlags) (name : Bytes) (t : ℕ) (s : S)
      → d.at s t ≢ none
      → Reaches (Redirected fl name t s) (redirect_to os fl name t s)
  unfolding redirect_to
  redirect_to-Redirected fl name t s there = elim (Option-cases (os.open_file fl name s).0) [
    | inl n ↦ rw (n, redirect_to) tt
    | inr (fd, o) ↦
        let s₁ = (os.open_file fl name s).1 in
        let (x, is_x, opened) = d.open_at fl name s fd o in
        let free = d.open_free fl name s fd o in
        let apart : fd ≢ t = λ e. there (subst (λ g. d.at s g ≡ none) e free) in
        rw (o, redirect_to)
          (if-intro (Reaches (Redirected fl name t s)) (os.dup2 fd t s₁).0
            (λ moved. (
              λ g ne. ground (
                arith,
                d.close_at fd (os.dup2 fd t s₁).1 g,
                d.dup2_at fd t s₁ g moved,
                free,
                d.open_others fl name s fd g o,
              ),
              (
                x,
                ground (
                  arith,
                  d.close_at fd (os.dup2 fd t s₁).1 t,
                  d.dup2_at fd t s₁ t moved,
                  is_x,
                  apart,
                ),
                opened,
              ),
            ))
            (λ _. tt))
  ]

  -- What standard input is: the file of `<`, `/dev/null` for a quiet command, or else `source`.
  abbrev pub StandardInput : Option Bytes → Bool → Option D → S → Type 0
  StandardInput (some name) quiet source s = Takes read_only name 0 s
  StandardInput none true source s = Takes read_only (codes "/dev/null") 0 s
  StandardInput none false source s = d.at s 0 ≡ source

  -- What standard output is: the file of `>>` or `>`, or else `sink`.
  abbrev pub StandardOutput : Option Bytes → Bool → Option D → S → Type 0
  StandardOutput (some name) true sink s = Takes create_append name 1 s
  StandardOutput (some name) false sink s = Takes create_truncate name 1 s
  StandardOutput none append sink s = d.at s 1 ≡ sink

  StandardInput-same :
      (o : Option Bytes) (quiet : Bool) (source : Option D) (s s' : S)
      → d.at s' 0 ≡ d.at s 0
      → StandardInput o quiet source s
      → StandardInput o quiet source s'
  StandardInput-same (some name) quiet source s s' same h = Takes-same _ _ 0 s s' same h
  StandardInput-same none true source s s' same h = Takes-same _ _ 0 s s' same h
  StandardInput-same none false source s s' same h = same ∙ h

  abbrev TakesInput : Option Bytes → Bool → S → S → Type 0
  TakesInput o quiet s s' = Keeps 0 s s' × StandardInput o quiet (d.at s 0) s'

  input_by :
      (o : Option Bytes) (b : Bool) (s : S)
      → d.at s 0 ≢ none
      → Reaches (TakesInput o b s) (elim o [
        | some name ↦ redirect_to os read_only name 0 s
        | none ↦ if b then redirect_to os read_only (codes "/dev/null") 0 s else ok s
      ])
  input_by (some name) b s there = redirect_to-Redirected read_only name 0 s there
  input_by none true s there = redirect_to-Redirected read_only (codes "/dev/null") 0 s there
  input_by none false s there = (λ g ne. refl, refl)

  redirect_input-TakesInput :
      (c : Command) (b : Bool) (s : S)
      → d.at s 0 ≢ none
      → Reaches (TakesInput c.input b s) (redirect_input os c b s)
  unfolding redirect_input
  redirect_input-TakesInput c b s there = input_by c.input b s there

  abbrev GivesOutput : Option Bytes → Bool → S → S → Type 0
  GivesOutput o append s s' = Keeps 1 s s' × StandardOutput o append (d.at s 1) s'

  output_by :
      (o : Option Bytes) (append : Bool) (s : S)
      → d.at s 1 ≢ none
      → Reaches (GivesOutput o append s) (elim o [
        | none ↦ ok s
        | some name ↦ redirect_to os (if append then create_append else create_truncate) name 1 s
      ])
  output_by none append s there = (λ g ne. refl, refl)
  output_by (some name) true s there = redirect_to-Redirected create_append name 1 s there
  output_by (some name) false s there = redirect_to-Redirected create_truncate name 1 s there

  redirect_output-GivesOutput :
      (c : Command) (s : S)
      → d.at s 1 ≢ none
      → Reaches (GivesOutput c.output c.append s) (redirect_output os c s)
  unfolding redirect_output
  redirect_output-GivesOutput c s there = output_by c.output c.append s there

  -- The descriptors at `execvp`: 0 and 1 are the files of the redirections or the ends of the pipes,
  -- and the others are as the shell had them at `t`.
  pub record Connected (t : ℕ → Option D) (quiet : Bool) (source sink : Option D) (c : Command)
      (s : S) : Type 0 where
    pub input_is : StandardInput c.input quiet source s
    pub output_is : StandardOutput c.output c.append sink s
    pub others : (g : ℕ) → g ≢ 0 → g ≢ 1 → d.at s g ≡ t g

  -- The redirections of a process whose input and output are open.
  pub redirected :
      (t : ℕ → Option D) (quiet : Bool) (source sink : Option D) (c : Command) (s : S)
      → source ≢ none
      → sink ≢ none
      → d.at s 0 ≡ source
      → d.at s 1 ≡ sink
      → ((g : ℕ) → g ≢ 0 → g ≢ 1 → d.at s g ≡ t g)
      → Reaches
          (Connected t quiet source sink c)
          (redirect_input os c quiet s >>= λ s'. redirect_output os c s')
  redirected t quiet source sink c s from_open to_open zero_is one_is rest =
      Reaches-bind (TakesInput c.input quiet s) (Connected t quiet source sink c)
        (redirect_input os c quiet s) (λ s'. redirect_output os c s')
        (redirect_input-TakesInput c quiet s (λ e. from_open (sym zero_is ∙ e)))
        (λ s₁ i.
          let still : d.at s₁ 1 ≡ sink = i.0 1 (omega arith) ∙ one_is in
          Reaches-mono (GivesOutput c.output c.append s₁) (Connected t quiet source sink c)
            (redirect_output os c s₁)
            (λ s₂ o. record {
              input_is =
                  subst (λ x. StandardInput c.input quiet x s₂) zero_is
                    (StandardInput-same c.input quiet (d.at s 0) s₁ s₂ (o.0 0 (omega arith)) i.1);
              output_is = subst (λ x. StandardOutput c.output c.append x s₂) still o.1;
              others = λ g a b. o.0 g b ∙ i.0 g a ∙ rest g a b;
            })
            (redirect_output-GivesOutput c s₁ (λ e. to_open (sym still ∙ e))))
