-- ===== src/Kernel/Reading.antt =====
-- `sys_read` of NanoBoot/kernel/syscall.c, against what is typed.
use shellforge.Prelude.{
  ℕ, zero, suc, ◌+◌, ◌%◌, ◌^◌, ◌≤◌, ◌<◌, ◌≡◌, refl, ap, ◌⊎◌, ◌||◌, inl, inr, false, Option, none,
  some, [], ◌∷◌, ◌++◌, ◌==◌, ltb, if-intro, length, arith, Bytes,
}
use shellforge.Kernel.Proc.{Kernel}
use shellforge.Kernel.Syscall.{Access, System, minus_one, pagetable, read_loop, sys_read}

module _ {M : Type 0} where
  -- What `left` rounds from byte `i` on do to what is typed: a wait needs fewer bytes than rounds.
  abbrev Takes : ℕ → ℕ → Bytes → Option (ℕ × Bytes × Kernel M) → Type 0
  Takes i left typed none = length typed < left
  Takes i left typed (some (r, rest, k)) =
      (taken : Bytes) × (typed ≡ taken ++ rest)
      × (length taken ≤ left)
      × ((r ≡ i + length taken) ⊎ (r ≡ minus_one))

  Takes-one :
      (i left c : ℕ) (typed : Bytes) (r : Option (ℕ × Bytes × Kernel M))
      → Takes (i + 1) left typed r
      → Takes i (suc left) (c ∷ typed) r
  Takes-one i left c typed none h = omega arith
  Takes-one i left c typed (some (r, rest, k)) (taken, e, l, ends) = (
    c ∷ taken,
    ap (◌∷◌ c) e,
    omega arith,
    elim ends [ inl a ↦ inl (omega arith) | inr b ↦ inr b ],
  )

  -- The outcome of `sys_read`, by its length and what is typed.
  abbrev pub Reads : ℕ → System M → Option (ℕ × System M) → Type 0
  Reads len s none = length s.input < len
  Reads len s (some (r, s')) =
      (taken : Bytes) × (s.input ≡ taken ++ s'.input)
      × (length taken ≤ len)
      × (length taken ≤ 256)
      × ((r ≡ length taken) ⊎ (r ≡ minus_one))

module _ {M : Type 0} (access : Access M) where
  read_loop-Takes :
      (uva i left : ℕ) (typed : Bytes) (k : Kernel M)
      → Takes i left typed (read_loop access uva i left typed k)
  unfolding read_loop
  read_loop-Takes uva i zero typed k = ([], refl, omega arith, inl (omega arith))
  read_loop-Takes uva i (suc left) [] k = omega arith
  read_loop-Takes uva i (suc left) (c ∷ typed) k =
      let (copied, m) = access.copyout k.memory (pagetable k) ((uva + i) % 2 ^ 64) (c ∷ []) in
      if-intro (Takes i (suc left) (c ∷ typed)) copied
        (λ _.
          if-intro (Takes i (suc left) (c ∷ typed)) (c == b'\n')
            (λ _. (c ∷ [], refl, omega arith, inl (omega arith)))
            (λ _.
              Takes-one i left c typed _
                (read_loop-Takes uva (i + 1) left typed (record k { memory = m }))))
        (λ _. (c ∷ [], refl, omega arith, inr refl))

  -- `sys_read` takes at most its length, and at most 256 bytes, of what is typed, in order, and
  -- returns how many, or -1; it waits only when fewer bytes than its length are typed.
  pub sys_read-Reads : (uva len : ℕ) (s : System M) → Reads len s (sys_read access uva len s)
  unfolding sys_read
  sys_read-Reads uva len s =
      if-intro (Reads len s) (len == 0 || ltb 256 len)
        (λ _. ([], refl, omega arith, omega arith, inr refl))
        (λ few.
          read few (read_loop access uva 0 len s.input s.kernel)
            (read_loop-Takes uva 0 len s.input s.kernel))
    where
      read :
          (len == 0 || ltb 256 len) ≡ false
          → (r : Option (ℕ × Bytes × Kernel M)) → Takes 0 len s.input r
          → Reads len s (elim r as (λ _. Option (ℕ × System M)) [
            | none ↦ none
            | some (r, typed, k) ↦ some (r, record s { kernel = k; input = typed })
          ])
      read few none h = h
      read few (some (r, typed, k)) (taken, e, l, ends) =
          (taken, e, l, ground arith, elim ends [ inl a ↦ inl (omega arith) | inr b ↦ inr b ])
