-- ===== src/Kernel/Vm/CopyOut.antt =====
-- `copyout` of NanoBoot/kernel/vm.c, against a copy by single bytes.
use shellforge.Prelude.{
  subst, if◌then◌else◌, ℕ, zero, suc, ◌+◌, ◌-◌, ◌%◌, ◌^◌, ◌≤◌, ◌<◌, ◌≡◌, refl, sym, ap, ◌∙◌, inl,
  inr, Bool, true, false, none, some, Option-cases, [], ◌∷◌, ◌++◌, ◌==◌, take, drop, length,
  length-take, arith, Bytes,
}
use shellforge.Kernel.Vm.{
  page_size, Pool, translate_user, in_page, write_byte, write_bytes, copyout_loop, copyout,
}
use shellforge.Kernel.Vm.Mapped.{Maps, translate_user→Maps}
use shellforge.Kernel.Vm.Copy.{Unmapped-none, translate_user-next, translate_user-below}

-- Each byte to the place behind its address, up to the first address without one.
unfoldable pub writes_at : Pool → ℕ → ℕ → Bytes → (ℕ → ℕ) → Bool × (ℕ → ℕ)
writes_at pool pt va [] mem = (true, mem)
writes_at pool pt va (c ∷ cs) mem = elim (translate_user pool pt va) [
  | none ↦ (false, mem)
  | some pa ↦ writes_at pool pt (va + 1) cs (write_byte mem pa c)
]

take-append-drop : (n : ℕ) (xs : Bytes) → take n xs ++ drop n xs ≡ xs
take-append-drop zero xs = refl
take-append-drop (suc n) [] = refl
take-append-drop (suc n) (x ∷ xs) = ap (◌∷◌ x) (take-append-drop n xs)

length-drop : (n : ℕ) (xs : Bytes) → length (drop n xs) ≡ length xs - n
length-drop zero xs = omega arith
length-drop (suc n) [] = omega arith
length-drop (suc n) (x ∷ xs) = omega (arith, length-drop n xs)

-- A run of bytes in a page is written at once.
writes_at-write_bytes :
    (pool : Pool) (pt va pa c : ℕ) (front back : Bytes) (mem : ℕ → ℕ)
    → va % page_size + length front < page_size
    → translate_user pool pt va ≡ some pa
    → writes_at pool pt va ((c ∷ front) ++ back) mem
      ≡ writes_at pool pt (va + suc (length front)) back (write_bytes mem pa (c ∷ front))
unfolding writes_at write_bytes
writes_at-write_bytes pool pt va pa c [] back mem h e = rw (e, writes_at) refl
writes_at-write_bytes pool pt va pa c (d ∷ front) back mem h e =
    let there : va + 1 + suc (length front) ≡ va + suc (suc (length front)) = omega arith in
    rw (e, writes_at)
      (writes_at-write_bytes pool pt (va + 1) (pa + 1) d front back (write_byte mem pa c)
          (omega arith) (translate_user-next pool pt va pa (omega arith) e)
        ∙ ap
            (λ a. writes_at pool pt a back (write_bytes (write_byte mem pa c) (pa + 1) (d ∷ front)))
            there)

-- The same for the front of a text.
writes_at-take :
    (pool : Pool) (pt va pa k : ℕ) (src : Bytes) (mem : ℕ → ℕ)
    → va % page_size + k < page_size
    → k < length src
    → translate_user pool pt va ≡ some pa
    → writes_at pool pt (va + suc k) (drop (suc k) src) (write_bytes mem pa (take (suc k) src))
      ≡ writes_at pool pt va src mem
writes_at-take pool pt va pa k [] mem h lt e = absurd (omega arith)
writes_at-take pool pt va pa k (c ∷ cs) mem h lt e =
    let size : length (take k cs) ≡ k = omega (arith, length-take k cs) in
    ap (λ n. writes_at pool pt (va + suc n) (drop k cs) (write_bytes mem pa (c ∷ take k cs)))
      (sym size)
    ∙ sym (writes_at-write_bytes pool pt va pa c (take k cs) (drop k cs) mem (omega arith) e)
    ∙ ap (λ s. writes_at pool pt va (c ∷ s) mem) (take-append-drop k cs)

copyout_loop-round :
    (pool : Pool) (pt fuel va pa k : ℕ) (src : Bytes) (mem : ℕ → ℕ)
    → translate_user pool pt va ≡ some pa
    → 0 < length src
    → in_page va (length src) ≡ suc k
    → copyout_loop pool pt (suc fuel) va src mem
      ≡ copyout_loop pool pt fuel
          (va + suc k)
          (drop (suc k) src)
          (write_bytes mem pa (take (suc k) src))
unfolding copyout_loop
copyout_loop-round pool pt fuel va pa k src mem e some_left size =
    let full : (length src == 0) ≡ false = ground arith in
    let below = translate_user-below pool pt va pa e in
    let wrap : (va + suc k) % 2 ^ 64 ≡ va + suc k = omega arith in rw (full, e, size, wrap) refl

copyout_loop-writes_at :
    (pool : Pool) (pt fuel va : ℕ) (src : Bytes) (mem : ℕ → ℕ)
    → length src ≤ fuel
    → copyout_loop pool pt fuel va src mem ≡ writes_at pool pt va src mem
copyout_loop-writes_at pool pt zero va [] mem h = unfold copyout_loop writes_at in refl
copyout_loop-writes_at pool pt zero va (c ∷ cs) mem h = absurd (omega arith)
copyout_loop-writes_at pool pt (suc fuel) va [] mem h = unfold copyout_loop writes_at in refl
copyout_loop-writes_at pool pt (suc fuel) va (c ∷ cs) mem h =
    elim (Option-cases (translate_user pool pt va)) [
      | inl e ↦
          let full : (suc (length cs) == 0) ≡ false = ground arith in
          unfold copyout_loop writes_at in rw (full, e, writes_at) refl
      | inr (pa, e) ↦
          let k = in_page va (suc (length cs)) - 1 in
          let size : in_page va (suc (length cs)) ≡ suc k = omega arith in
          copyout_loop-round pool pt fuel va pa k (c ∷ cs) mem e (omega arith) size
          ∙ copyout_loop-writes_at pool pt fuel (va + suc k) (drop (suc k) (c ∷ cs)) _
              (omega (arith, length-drop k cs))
          ∙ writes_at-take pool pt va pa k (c ∷ cs) mem (omega arith) (omega arith) e
    ]

copyout-writes_at :
    (pool : Pool) (pt va : ℕ) (src : Bytes) (mem : ℕ → ℕ)
    → copyout pool pt va src mem ≡ writes_at pool pt va src mem
unfolding copyout
copyout-writes_at pool pt va src mem =
    copyout_loop-writes_at pool pt (length src) va src mem (omega arith)

-- The memory with one byte changed.
abbrev pub stored : (ℕ → ℕ) → ℕ → ℕ → ℕ → ℕ
stored mem pa c a = if a == pa then c else mem a

module _ (pool : Pool) (pt : ℕ) where
  -- From `mem`, the bytes one after the other, each at the address that the tables map its own
  -- virtual address to, make `after`.
  abbrev pub Stores : ℕ → Bytes → (ℕ → ℕ) → (ℕ → ℕ) → Type 0
  Stores va [] mem after = after ≡ mem
  Stores va (c ∷ cs) mem after =
      (pa : ℕ) × Maps pool pt va pa × Stores (va + 1) cs (stored mem pa c) after

  -- All of the bytes are stored; or the first `n` are, and the next address is not mapped.
  abbrev pub Writes : ℕ → Bytes → (ℕ → ℕ) → Bool × (ℕ → ℕ) → Type 0
  Writes va src mem (true, after) = Stores va src mem after
  Writes va src mem (false, after) =
      (n : ℕ) × (n < length src)
      × ((pa : ℕ) → ¬ Maps pool pt (va + n) pa)
      × Stores va (take n src) mem after

  Writes-cons :
      (va pa c : ℕ) (cs : Bytes) (mem : ℕ → ℕ) (r : Bool × (ℕ → ℕ))
      → Maps pool pt va pa
      → Writes (va + 1) cs (stored mem pa c) r
      → Writes va (c ∷ cs) mem r
  Writes-cons va pa c cs mem (true, after) m h = (pa, m, h)
  Writes-cons va pa c cs mem (false, after) m (n, lt, un, h) =
      let there : va + 1 + n ≡ va + suc n = omega arith in
      (suc n, omega arith, subst (λ a. (pa : ℕ) → ¬ Maps pool pt a pa) there un, (pa, m, h))

  writes_at-Writes :
      (va : ℕ) (src : Bytes) (mem : ℕ → ℕ) → Writes va src mem (writes_at pool pt va src mem)
  unfolding writes_at
  writes_at-Writes va [] mem = refl
  writes_at-Writes va (c ∷ cs) mem = elim (Option-cases (translate_user pool pt va)) [
    | inl e ↦
        let here : va ≡ va + 0 = omega arith in
        rw (e, writes_at)
          (
            0,
            omega arith,
            subst (λ a. (pa : ℕ) → ¬ Maps pool pt a pa) here (Unmapped-none pool mem pt va e),
            refl,
          )
    | inr (pa, e) ↦
        rw (e, writes_at)
          (Writes-cons va pa c cs mem _ (translate_user→Maps pool pt va pa e)
            (writes_at-Writes (va + 1) cs (write_byte mem pa c)))
  ]

  -- For every pool of page tables: where `copyout` returns 0, each byte has been stored at the
  -- physical address that the tables map its own virtual address to, for the user, and nothing else
  -- has changed. Where it returns -1, the bytes in front of an address that is not mapped so have
  -- been stored, and nothing else has changed.
  pub copyout-Writes :
      (va : ℕ) (src : Bytes) (mem : ℕ → ℕ) → Writes va src mem (copyout pool pt va src mem)
  copyout-Writes va src mem =
      subst (Writes va src mem) (sym (copyout-writes_at pool pt va src mem))
        (writes_at-Writes va src mem)
