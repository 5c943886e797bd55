-- ===== src/Shell/Executor/Wiring.antt =====
-- The pipes of src/executor.c: each child reads what the one before it writes, holds no other end of
-- a pipe, and the shell is left with the descriptors that it had.
use shellforge.Prelude.{
  ℕ, ◌≡◌, sym, ap, ◌∙◌, ◌≢◌, Bool, false, Option, none, some, List, [], ◌∷◌, ◌++◌, arith,
}
use shellforge.Shell.Parser.{Command}
use shellforge.Shell.Executor.{Posix, Spawned, Run, close_all, of_option}
use shellforge.Shell.Executor.Descriptors.{Descriptors, Piped}
use shellforge.Shell.Executor.Redirect.{Reaches, Connected}
use shellforge.Shell.Executor.Child.{View, over, close-View, apart_of, Held}

module _ {S D K : Type 0} (os : Posix S) (d : Descriptors os D K) where
  -- What the shell keeps when a round is over os d.
  abbrev pub Kept : Option ℕ → (ℕ → Option D) → Option D → (ℕ → Option D) → Type 0
  Kept none t source v = (v 0 ≡ source) × ((g : ℕ) → v g ≡ t g)
  Kept (some f) t source v =
      (v f ≡ source) × (source ≢ none) × (t f ≡ none) × ((g : ℕ) → g ≢ f → v g ≡ t g)

  -- A last round starts with what was kept, and the others with a pipe besides.
  pub Held-last :
      (previous : Option ℕ) (t v : ℕ → Option D) (source : Option D)
      → t 1 ≢ none
      → Kept previous t source v
      → Held os d previous none t source (t 1) v
  Held-last none t v source out_open h = (h.0, h.1 1, h.1)
  Held-last (some f) t v source out_open h =
      (h.0, h.3 1 (λ e. apart_of os d t f 1 h.2 out_open (sym e)), h.2, h.3)

  pub Held-pipe :
      (previous : Option ℕ) (t v v' : ℕ → Option D) (source : Option D) (r w : ℕ)
      → t 0 ≢ none
      → Kept previous t source v
      → (q : Piped d.reader d.writer v v' r w)
      → Held os d previous (some (r, w)) t source (some (d.writer q.pipe_of)) v'
  Held-pipe none t v v' source r w in_open h q =
      let tr = sym (h.1 r) ∙ q.free_r in
      let tw = sym (h.1 w) ∙ q.free_w in
      (
        q.others 0 (λ e. apart_of os d t r 0 tr in_open (sym e))
              (λ e. apart_of os d t w 0 tw in_open (sym e))
            ∙ h.0,
        q.write_end,
        tr,
        tw,
        q.apart,
        λ g a b. q.others g a b ∙ h.1 g,
      )
  Held-pipe (some f) t v v' source r w in_open h q =
      let fr : f ≢ r = λ e. h.1 (sym h.0 ∙ ap v e ∙ q.free_r) in
      let fw : f ≢ w = λ e. h.1 (sym h.0 ∙ ap v e ∙ q.free_w) in
      (
        q.others f fr fw ∙ h.0,
        q.write_end,
        sym (h.3 r (λ e. fr (sym e))) ∙ q.free_r,
        sym (h.3 w (λ e. fw (sym e))) ∙ q.free_w,
        q.apart,
        λ g n a b. q.others g a b ∙ h.3 g n,
        h.2,
        fr,
        fw,
      )

  -- The parent closes what it does not need: behind a last round it has what it had at first.
  pub closes_last :
      (previous : Option ℕ) (t v : ℕ → Option D) (source sink : Option D) (s : S)
      → Held os d previous none t source sink v
      → View os d v s
      → View os d t (close_all os (of_option previous) s)
  closes_last none t v source sink s h view g = view g ∙ h.2 g
  closes_last (some f) t v source sink s h view g =
      ground (arith, close-View os d f v s view g, h.3 g, h.2)

  pub closes_pipe :
      (previous : Option ℕ) (r w : ℕ) (t v : ℕ → Option D) (source sink : Option D) (s : S)
      → Held os d previous (some (r, w)) t source sink v
      → v r ≢ none
      → View os d v s
      → (v' : ℕ → Option D) × View os d v' (os.close w (close_all os (of_option previous) s))
        × Kept (some r) t (v r) v'
  closes_pipe none r w t v source sink s h full view = (
    over os d w none v,
    close-View os d w v s view,
    (ground arith, full, h.2, λ g ne. ground (arith, h.5 g, h.3)),
  )
  closes_pipe (some f) r w t v source sink s h full view = (
    over os d w none (over os d f none v),
    close-View os d w _ _ (close-View os d f v s view),
    (ground arith, full, h.2, λ g ne. ground (arith, h.5 g, h.3, h.6)),
  )

  -- The children of a pipeline: each is connected to the pipe in front of it, or to what `source`
  -- is, and to the pipe behind it, or to the output of the shell.
  pub data Chain (t : ℕ → Option D)
      : Bool → Option D → List Command → List (Spawned S) → Type 0 where
    last :
        {quiet : Bool} {source : Option D} {c : Command} {x : Spawned S}
        → x.command ≡ c
        → Reaches (Connected os d t quiet source (t 1) c) x.reached
        → Chain t quiet source (c ∷ []) (x ∷ [])
    joined :
        {quiet : Bool} {source : Option D} {c e : Command} {cs : List Command} {x : Spawned S}
        {xs : List (Spawned S)} (k : K)
        → x.command ≡ c
        → Reaches (Connected os d t quiet source (some (d.writer k)) c) x.reached
        → Chain t false (some (d.reader k)) (e ∷ cs) xs
        → Chain t quiet source (c ∷ e ∷ cs) (x ∷ xs)

  -- The loop has spawned a chain behind the children of before, and has closed every pipe; or a
  -- system call has failed.
  abbrev pub Spawns :
      (ℕ → Option D) → Bool → Option D → List Command → Run S → Option ℕ × Run S → Type 0
  Spawns t quiet source cs r (none, r') = Unit
  Spawns t quiet source cs r (some group, r') =
      (xs : List (Spawned S)) × (r'.children ≡ r.children ++ xs)
      × Chain t quiet source cs xs
      × View os d t r'.process
      × (r'.waited ≡ r.waited)
