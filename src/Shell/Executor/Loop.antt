-- ===== src/Shell/Executor/Loop.antt =====
-- The loop of `execute_pipeline` in src/executor.c, round by round.
use shellforge.Prelude.{
  ℕ, ◌≡◌, refl, sym, ap, subst, ◌∙◌, ◌≢◌, inl, inr, Bool, false, Option, none, some, Option-cases,
  List, [], ◌∷◌, ◌++◌, append_assoc, ◌==◌, if◌then◌else◌,
}
use shellforge.Shell.Parser.{Command}
use shellforge.Shell.Executor.{Posix, Spawned, Run, close_all, of_option, spawn, spawn_loop}
use shellforge.Shell.Executor.Descriptors.{Descriptors, Piped}
use shellforge.Shell.Executor.Redirect.{Reaches, Connected}
use shellforge.Shell.Executor.Child.{View, pipeline_child-Connected}
use shellforge.Shell.Executor.Wiring.{
  last, joined, Held-last, Held-pipe, closes_last, closes_pipe, Kept, Spawns,
}

module _ {S D K : Type 0} (os : Posix S) (d : Descriptors os D K) where
  -- The input of the next child is open.
  Kept-source :
      (previous : Option ℕ) (t v : ℕ → Option D) (source : Option D)
      → t 0 ≢ none
      → Kept os d previous t source v
      → source ≢ none
  Kept-source none t v source in_open h e = in_open (sym (h.1 0) ∙ h.0 ∙ e)
  Kept-source (some f) t v source in_open h e = h.1 e

  spawn_last :
      (t v : ℕ → Option D) (quiet : Bool) (previous : Option ℕ) (group : ℕ) (source : Option D)
      (c : Command) (r : Run S)
      → t 0 ≢ none
      → t 1 ≢ none
      → Kept os d previous t source v
      → View os d v r.process
      → Spawns os d t quiet source (c ∷ []) r (spawn os quiet previous group none c r)
  unfolding spawn
  spawn_last t v quiet previous group source c r in_open out_open kept view =
      elim (Option-cases (os.fork r.process).0) [
        | inl n ↦ rw (n, spawn) tt
        | inr (pid, e) ↦
            let held = Held-last os d previous t v source out_open kept in
            rw (e, spawn)
              (
                _,
                refl,
                last refl (
                    pipeline_child-Connected os d previous none t v source (t 1) group quiet c
                      (os.child r.process) in_open out_open
                      (Kept-source previous t v source in_open kept) out_open held
                      (λ g. d.child_at r.process g ∙ view g)),
                closes_last os d previous t v source (t 1) _ held
                    (λ g. d.setpgid_at _ _ _ g ∙ d.fork_at r.process g ∙ view g),
                refl,
              )
      ]

  -- A child that is joined to those that the rest of the loop spawns.
  Spawns-joined :
      (t : ℕ → Option D) (quiet : Bool) (source : Option D) (c e : Command) (cs : List Command)
      (r r' : Run S) (x : Spawned S) (k : K) (res : Option ℕ × Run S)
      → x.command ≡ c
      → Reaches (Connected os d t quiet source (some (d.writer k)) c) x.reached
      → r'.children ≡ r.children ++ x ∷ []
      → r'.waited ≡ r.waited
      → Spawns os d t false (some (d.reader k)) (e ∷ cs) r' res
      → Spawns os d t quiet source (c ∷ e ∷ cs) r res
  Spawns-joined t quiet source c e cs r r' x k (none, r'') same conn kids waits h = tt
  Spawns-joined t quiet source c e cs r r' x k (some group, r'') same conn kids waits
        (xs, more, chain, view, waits') =
      (
        x ∷ xs,
        more ∙ ap (λ l. l ++ xs) kids ∙ append_assoc r.children (x ∷ []) xs,
        joined k same conn chain,
        view,
        waits' ∙ waits,
      )

  Kept-at :
      (previous : Option ℕ) (t v : ℕ → Option D) (source : Option D) (s : S)
      → Kept os d previous t source v
      → View os d v s
      → Kept os d previous t source (d.at s)
  Kept-at none t v source s h view = (view 0 ∙ h.0, λ g. view g ∙ h.1 g)
  Kept-at (some f) t v source s h view = (view f ∙ h.0, h.1, h.2, λ g ne. view g ∙ h.3 g ne)

  -- A round with a pipe.
  abbrev Round :
      (ℕ → Option D) → Bool → Option D → K → ℕ → Command → Run S → Option ℕ × Run S → Type 0
  Round t quiet source k rd c r (none, r') = Unit
  Round t quiet source k rd c r (some group, r') =
      (x : Spawned S) × (r'.children ≡ r.children ++ x ∷ [])
      × (x.command ≡ c)
      × Reaches (Connected os d t quiet source (some (d.writer k)) c) x.reached
      × Kept os d (some rd) t (some (d.reader k)) (d.at r'.process)
      × (r'.waited ≡ r.waited)

  spawn-Round :
      (t v : ℕ → Option D) (quiet : Bool) (previous : Option ℕ) (group : ℕ) (source : Option D)
      (c : Command) (r : Run S) (rd wr : ℕ)
      → t 0 ≢ none
      → t 1 ≢ none
      → Kept os d previous t source v
      → (q : Piped d.reader d.writer v (d.at r.process) rd wr)
      → Round t quiet source q.pipe_of rd c r (spawn os quiet previous group (some (rd, wr)) c r)
  unfolding spawn
  spawn-Round t v quiet previous group source c r rd wr in_open out_open kept q =
      elim (Option-cases (os.fork r.process).0) [
        | inl n ↦ rw (n, spawn) tt
        | inr (pid, e) ↦
            let held = Held-pipe os d previous t v (d.at r.process) source rd wr in_open kept q in
            let s₁ = (os.setpgid pid (if group == 0 then pid else group) (os.fork r.process).1).1 in
            let (v', view', kept') =
              closes_pipe os d previous rd wr t (d.at r.process) source (some (d.writer q.pipe_of))
                s₁ held (λ n. cc (q.read_end, n))
                (λ g. d.setpgid_at _ _ _ g ∙ d.fork_at r.process g) in
            rw (e, spawn)
              (
                _,
                refl,
                refl,
                pipeline_child-Connected os d previous (some (rd, wr)) t (d.at r.process) source
                    (some (d.writer q.pipe_of)) group quiet c (os.child r.process) in_open out_open
                    (Kept-source previous t v source in_open kept) (λ n. cc) held
                    (λ g. d.child_at r.process g),
                subst
                    (λ src.
                      Kept os d (some rd) t src
                        (d.at (os.close wr (close_all os (of_option previous) s₁))))
                    q.read_end (Kept-at (some rd) t v' _ _ kept' view'),
                refl,
              )
      ]

  -- Behind a round the loop goes on, unless the round has failed.
  Round-Spawns :
      (t : ℕ → Option D) (quiet : Bool) (source : Option D) (k : K) (rd : ℕ) (c e : Command)
      (cs : List Command) (r : Run S) (res : Option ℕ × Run S)
      → Round t quiet source k rd c r res
      → ((group : ℕ) (r' : Run S)
          → Kept os d (some rd) t (some (d.reader k)) (d.at r'.process)
          → Spawns os d t false
              (some (d.reader k))
              (e ∷ cs)
              r'
              (spawn_loop os false (some rd) group (e ∷ cs) r'))
      → Spawns os d t quiet source (c ∷ e ∷ cs) r (elim res.0 as (λ _. Option ℕ × Run S) [
        | none ↦ (none, res.1)
        | some group ↦ spawn_loop os false (some rd) group (e ∷ cs) res.1
      ])
  Round-Spawns t quiet source k rd c e cs r (none, r') h again = tt
  Round-Spawns t quiet source k rd c e cs r (some group, r') (x, kids, same, conn, kept, waits)
        again =
      Spawns-joined t quiet source c e cs r r' x k _ same conn kids waits (again group r' kept)

  pub spawn_loop-Spawns :
      (c : Command) (cs : List Command) (t : ℕ → Option D) (quiet : Bool) (previous : Option ℕ)
      (group : ℕ) (source : Option D) (r : Run S)
      → t 0 ≢ none
      → t 1 ≢ none
      → Kept os d previous t source (d.at r.process)
      → Spawns os d t quiet source (c ∷ cs) r (spawn_loop os quiet previous group (c ∷ cs) r)
  unfolding spawn_loop
  spawn_loop-Spawns c [] t quiet previous group source r in_open out_open kept =
      spawn_last t (d.at r.process) quiet previous group source c r in_open out_open kept
        (λ g. refl)
  spawn_loop-Spawns c (e ∷ cs) t quiet previous group source r in_open out_open kept =
      elim (Option-cases (os.pipe r.process).0) [
        | inl n ↦ rw (n, spawn_loop) tt
        | inr ((rd, wr), piped) ↦
            let r₁ : Run S = record r { process = (os.pipe r.process).1 } in
            let q = d.pipe_at r.process rd wr piped in
            rw (piped, spawn_loop)
              (Round-Spawns t quiet source q.pipe_of rd c e cs r
                (spawn os quiet previous group (some (rd, wr)) c r₁)
                (spawn-Round t (d.at r.process) quiet previous group source c r₁ rd wr in_open
                  out_open kept q)
                (λ group' r' kept'.
                  spawn_loop-Spawns e cs t false (some rd) group' (some (d.reader q.pipe_of)) r'
                    in_open out_open kept'))
      ]
