-- ===== src/Kernel/Vm/Strings.antt =====
-- `copyinstr` of NanoBoot/kernel/vm.c: the string that it reads from user memory.
use shellforge.Prelude.{
  ℕ, zero, suc, ◌+◌, ◌-◌, ◌%◌, ◌^◌, ◌<◌, ◌≡◌, ◌≢◌, ◌⊎◌, refl, subst, ◌∙◌, inl, inr, false, Option,
  none, some, Option-cases, [], ◌∷◌, ◌==◌, if-intro, take, take-ge, length, All, arith, Bytes,
}
use shellforge.Kernel.Vm.{
  Pool, and_then, translate_user, copyin, Copied, copied, unread, outside, copyinstr_loop,
  copyinstr,
}
use shellforge.Kernel.Vm.Mapped.{Maps, translate_user→Maps}
use shellforge.Kernel.Vm.Copy.{
  translate_user-below, bytes_at, copyin-bytes_at, Behind, BytesAt, Unmapped, Unmapped-none,
}

module _ (pool : Pool) (mem : ℕ → ℕ) (pt : ℕ) where
  -- A text without NUL, whose bytes are behind the addresses from `va` on.
  abbrev pub TextAt : ℕ → Bytes → Type 0
  TextAt va t = All (λ c. c ≢ 0) t × BytesAt pool mem pt va t

  -- Behind a text that is shorter than `most` comes an address that is not mapped for the user.
  abbrev pub Breaks : ℕ → ℕ → Type 0
  Breaks va most =
      (t : Bytes) × (length t < most) × TextAt va t × Unmapped pool mem pt (va + length t)

  -- The loop has met the NUL behind the text, or has filled the buffer with it.
  abbrev Loops : ℕ → ℕ → Option Bytes → Type 0
  Loops va left none = Breaks va left
  Loops va left (some t) =
      TextAt va t × ((length t < left) × Behind pool mem pt (va + length t) 0 ⊎ (length t ≡ left))

  -- The string of user memory at `va`: all of it, where it fits the buffer with its NUL, and else
  -- the bytes for which there is room in front of a NUL.
  abbrev pub ReadsString : ℕ → ℕ → Copied → Type 0
  ReadsString va max (copied t) =
      TextAt va t
      × ((length t < max) × Behind pool mem pt (va + length t) 0
          ⊎ (length t + 1 ≡ max) × ((c : ℕ) × (c ≢ 0) × Behind pool mem pt (va + length t) c))
  ReadsString va max unread = Breaks va max
  ReadsString va max outside = max ≡ 0

  one_byte :
      (va pa : ℕ)
      → translate_user pool pt va ≡ some pa
      → copyin pool mem pt va 1 ≡ some (mem pa ∷ [])
  one_byte va pa e = copyin-bytes_at pool mem pt va 1 ∙ (unfold bytes_at in rw e refl)

  no_byte : (va : ℕ) → translate_user pool pt va ≡ none → copyin pool mem pt va 1 ≡ none
  no_byte va e = copyin-bytes_at pool mem pt va 1 ∙ (unfold bytes_at in rw e refl)

  next_address : (va n : ℕ) → va + 1 + n ≡ va + suc n
  next_address va n = omega arith

  no_offset : (va : ℕ) → va ≡ va + 0
  no_offset va = omega arith

  longer :
      (va pa left : ℕ) (o : Option Bytes)
      → Maps pool pt va pa
      → mem pa ≢ 0
      → Loops (va + 1) left o
      → Loops va (suc left) (and_then o (λ rest. some (mem pa ∷ rest)))
  longer va pa left none m ne (t, lt, (full, at), un) = (
    mem pa ∷ t,
    omega arith,
    ((ne, full), ((pa, m, refl), at)),
    subst (Unmapped pool mem pt) (next_address va (length t)) un,
  )
  longer va pa left (some t) m ne ((full, at), stop) = (
    ((ne, full), ((pa, m, refl), at)),
    elim stop [
      | inl (lt, nul) ↦
          inl (omega arith, subst (λ a. Behind pool mem pt a 0) (next_address va (length t)) nul)
      | inr e ↦ inr (omega arith)
    ],
  )

  copyinstr_loop-Loops : (va left : ℕ) → Loops va left (copyinstr_loop pool mem pt va left)
  unfolding copyinstr_loop
  copyinstr_loop-Loops va zero = ((tt, tt), inr refl)
  copyinstr_loop-Loops va (suc left) = elim (Option-cases (translate_user pool pt va)) [
    | inl e ↦ rw (no_byte va e) (
      [],
      omega arith,
      (tt, tt),
      subst (Unmapped pool mem pt) (no_offset va) (Unmapped-none pool mem pt va e),
    )
    | inr (pa, e) ↦
        let below = translate_user-below pool pt va pa e in
        let wrap : (va + 1) % 2 ^ 64 ≡ va + 1 = omega arith in
        let m = translate_user→Maps pool pt va pa e in
        rw (one_byte va pa e, wrap)
          (if-intro (Loops va (suc left)) (mem pa == 0)
            (λ nul. (
              (tt, tt),
              inl (
                omega arith,
                subst (λ a. Behind pool mem pt a 0) (no_offset va) (pa, m, ground arith),
              ),
            ))
            (λ full. longer va pa left _ m (ground arith) (copyinstr_loop-Loops (va + 1) left)))
  ]

  -- The last byte of a text gives its place to the NUL.
  take-TextAt :
      (k va : ℕ) (t : Bytes)
      → length t ≡ suc k
      → TextAt va t
      → TextAt va (take k t)
        × (length (take k t) ≡ k)
        × ((c : ℕ) × (c ≢ 0) × Behind pool mem pt (va + k) c)
  take-TextAt k va [] size h = absurd (omega arith)
  take-TextAt zero va (c ∷ t) size ((ne, _), (at, _)) =
      ((tt, tt), refl, (c, ne, subst (λ a. Behind pool mem pt a c) (no_offset va) at))
  take-TextAt (suc k) va (c ∷ t) size ((ne, full), (at, later)) =
      let ((full', at'), size', (d, nd, behind)) =
        take-TextAt k (va + 1) t (omega arith) (full, later) in
      (
        ((ne, full'), (at, at')),
        omega arith,
        (d, nd, subst (λ a. Behind pool mem pt a d) (next_address va k) behind),
      )

  cut :
      (va k n : ℕ) (o : Option Bytes)
      → n ≡ k
      → Loops va (suc k) o
      → ReadsString va
          (suc k)
          (elim o as (λ _. Copied) [ none ↦ unread | some t ↦ copied (take n t) ])
  cut va k n none e h = h
  cut va k n (some t) e (text, inl (lt, nul)) =
      let whole : take n t ≡ t = take-ge n t (omega (arith, e)) in rw whole (text, inl (lt, nul))
  cut va k n (some t) e (text, inr size) =
      let (text', size', behind) = take-TextAt k va t size text in
      rw e (text', inr (omega arith, rw size' behind))

  -- For every pool of page tables: where `copyinstr` returns 0, the bytes that it leaves in front of
  -- the NUL are not NUL, and are those behind the addresses from `va` on, each mapped for the user.
  -- They are the whole string, with a NUL behind them in user memory, or they fill the buffer but
  -- for the NUL, and the string goes on. Where it returns -1, an address within the first `max` is
  -- not mapped for the user, and no NUL stands in front of it. It writes outside of its buffer only
  -- where `max` is 0.
  pub copyinstr-ReadsString : (va max : ℕ) → ReadsString va max (copyinstr pool mem pt va max)
  unfolding copyinstr
  copyinstr-ReadsString va zero = refl
  copyinstr-ReadsString va (suc k) =
      let some_room : (suc k == 0) ≡ false = ground arith in
      rw some_room (
        cut va k (suc k - 1) (copyinstr_loop pool mem pt va (suc k)) (omega arith)
          (copyinstr_loop-Loops va (suc k)))
