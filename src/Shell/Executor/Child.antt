-- ===== src/Shell/Executor/Child.antt =====
-- A child of a pipeline in src/executor.c, from the fork to its `execvp`.
use shellforge.Prelude.{
  ℕ, ◌≡◌, refl, subst, ◌∙◌, ◌≢◌, Bool, true, false, Option, none, some, ◌==◌, if◌then◌else◌, arith,
}
use shellforge.Shell.Parser.{Command}
use shellforge.Shell.Executor.{Posix, checked, pipeline_child}
use shellforge.Shell.Executor.Descriptors.{Descriptors}
use shellforge.Shell.Executor.Redirect.{Reaches, Reaches-bind, Connected, redirected}

module _ {S D K : Type 0} (os : Posix S) (d : Descriptors os D K) where
  -- What stands behind each descriptor, and how the calls change it.
  abbrev pub View : (ℕ → Option D) → S → Type 0
  View v s = (g : ℕ) → d.at s g ≡ v g

  abbrev pub over : ℕ → Option D → (ℕ → Option D) → ℕ → Option D
  over b x v g = if g == b then x else v g

  checked_reaches : (P : S → Type 0) (r : Bool × S) → (r.0 ≡ true → P r.1) → Reaches P (checked r)
  checked_reaches P (true, s) h = h refl
  checked_reaches P (false, s) h = tt

  setpgid-View :
      (a b : ℕ) (v : ℕ → Option D) (s : S)
      → View v s
      → Reaches (View v) (checked (os.setpgid a b s))
  setpgid-View a b v s h =
      checked_reaches (View v) (os.setpgid a b s) (λ _ g. d.setpgid_at a b s g ∙ h g)

  dup2-View :
      (a b : ℕ) (v : ℕ → Option D) (s : S)
      → View v s
      → Reaches (View (over b (v a) v)) (checked (os.dup2 a b s))
  dup2-View a b v s h =
      checked_reaches (View (over b (v a) v)) (os.dup2 a b s)
        (λ moved g. ground (arith, d.dup2_at a b s g moved, h a, h g))

  pub close-View :
      (a : ℕ) (v : ℕ → Option D) (s : S) → View v s → View (over a none v) (os.close a s)
  close-View a v s h g = ground (arith, d.close_at a s g, h g)

  pub apart_of : (t : ℕ → Option D) (a b : ℕ) → t a ≡ none → t b ≢ none → a ≢ b
  apart_of t a b free open_there e = open_there (subst (λ x. t x ≡ none) e free)

  -- What the shell has at the fork: the descriptors `t` that it had before, the read end of the last
  -- pipe, and both ends of the next, at descriptors that were free.
  abbrev pub Held :
      Option ℕ → Option (ℕ × ℕ) → (ℕ → Option D) → Option D → Option D → (ℕ → Option D) → Type 0
  Held none none t source sink v = (v 0 ≡ source) × (v 1 ≡ sink) × ((g : ℕ) → v g ≡ t g)
  Held (some f) none t source sink v =
      (v f ≡ source) × (v 1 ≡ sink) × (t f ≡ none) × ((g : ℕ) → g ≢ f → v g ≡ t g)
  Held none (some (r, w)) t source sink v =
      (v 0 ≡ source)
      × (v w ≡ sink)
      × (t r ≡ none)
      × (t w ≡ none)
      × (r ≢ w)
      × ((g : ℕ) → g ≢ r → g ≢ w → v g ≡ t g)
  Held (some f) (some (r, w)) t source sink v =
      (v f ≡ source)
      × (v w ≡ sink)
      × (t r ≡ none)
      × (t w ≡ none)
      × (r ≢ w)
      × ((g : ℕ) → g ≢ f → g ≢ r → g ≢ w → v g ≡ t g)
      × (t f ≡ none)
      × (f ≢ r)
      × (f ≢ w)

  -- Each child is connected to the pipes in front of it and behind it, and holds no other end.
  pub pipeline_child-Connected :
      (previous : Option ℕ) (pipefd : Option (ℕ × ℕ)) (t v : ℕ → Option D) (source sink : Option D)
      (group : ℕ) (quiet : Bool) (c : Command) (s : S)
      → t 0 ≢ none
      → t 1 ≢ none
      → source ≢ none
      → sink ≢ none
      → Held previous pipefd t source sink v
      → View v s
      → Reaches
          (Connected os d t quiet source sink c)
          (pipeline_child os group previous pipefd quiet c s)
  unfolding pipeline_child
  pipeline_child-Connected none none t v source sink group quiet c s in_open out_open from_open
        to_open h view =
      Reaches-bind (View v) _ (checked (os.setpgid 0 group s)) _ (setpgid-View 0 group v s view)
        (λ s₁ a.
          redirected os d t quiet source sink c s₁ from_open to_open (a 0 ∙ h.0) (a 1 ∙ h.1)
            (λ g _ _. a g ∙ h.2 g))
  pipeline_child-Connected (some f) none t v source sink group quiet c s in_open out_open from_open
        to_open h view =
      let f0 = apart_of t f 0 h.2 in_open in
      let f1 = apart_of t f 1 h.2 out_open in
      Reaches-bind (View v) _ (checked (os.setpgid 0 group s)) _ (setpgid-View 0 group v s view)
        (λ s₁ a.
          Reaches-bind (View (over 0 (v f) v)) _ (checked (os.dup2 f 0 s₁)) _ (dup2-View f 0 v s₁ a)
            (λ s₂ b.
              let e = close-View f _ s₂ b in
              redirected os d t quiet source sink c (os.close f s₂) from_open to_open
                (ground (arith, e 0, h.0)) (ground (arith, e 1, h.1))
                (λ g n0 n1. ground (arith, e g, h.3 g, h.2))))
  pipeline_child-Connected none (some (r, w)) t v source sink group quiet c s in_open out_open
        from_open to_open h view =
      let r0 = apart_of t r 0 h.2 in_open in
      let r1 = apart_of t r 1 h.2 out_open in
      let w0 = apart_of t w 0 h.3 in_open in
      let w1 = apart_of t w 1 h.3 out_open in
      Reaches-bind (View v) _ (checked (os.setpgid 0 group s)) _ (setpgid-View 0 group v s view)
        (λ s₁ a.
          Reaches-bind (View (over 1 (v w) v)) _ (checked (os.dup2 w 1 s₁)) _ (dup2-View w 1 v s₁ a)
            (λ s₂ b.
              let e = close-View w _ (os.close r s₂) (close-View r _ s₂ b) in
              redirected os d t quiet source sink c (os.close w (os.close r s₂)) from_open to_open
                (ground (arith, e 0, h.0)) (ground (arith, e 1, h.1))
                (λ g n0 n1. ground (arith, e g, h.5 g, h.2, h.3))))
  pipeline_child-Connected (some f) (some (r, w)) t v source sink group quiet c s in_open out_open
        from_open to_open h view =
      let f0 = apart_of t f 0 h.6 in_open in
      let f1 = apart_of t f 1 h.6 out_open in
      let r0 = apart_of t r 0 h.2 in_open in
      let r1 = apart_of t r 1 h.2 out_open in
      let w0 = apart_of t w 0 h.3 in_open in
      let w1 = apart_of t w 1 h.3 out_open in
      Reaches-bind (View v) _ (checked (os.setpgid 0 group s)) _ (setpgid-View 0 group v s view)
        (λ s₁ a.
          Reaches-bind (View (over 0 (v f) v)) _ (checked (os.dup2 f 0 s₁)) _ (dup2-View f 0 v s₁ a)
            (λ s₂ b.
              Reaches-bind (View (over 1 (over 0 (v f) v w) (over 0 (v f) v))) _
                (checked (os.dup2 w 1 s₂)) _ (dup2-View w 1 _ s₂ b)
                (λ s₃ b'.
                  let e =
                    close-View w _ (os.close r (os.close f s₃))
                      (close-View r _ (os.close f s₃) (close-View f _ s₃ b')) in
                  redirected os d t quiet source sink c (os.close w (os.close r (os.close f s₃)))
                    from_open to_open (ground (arith, e 0, h.0)) (ground (arith, e 1, h.1))
                    (λ g n0 n1. ground (arith, e g, h.5 g, h.2, h.3, h.6)))))
