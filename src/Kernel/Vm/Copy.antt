-- ===== src/Kernel/Vm/Copy.antt =====
-- `copyin` of NanoBoot/kernel/vm.c copies by pages what a copy by single bytes would.
use shellforge.Prelude.{
  subst, length, ℕ, zero, suc, ◌+◌, ◌-◌, ◌/◌, ◌%◌, ◌^◌, ◌≤◌, ◌<◌, ◌≡◌, ◌≢◌, refl, sym, ap, ◌∙◌, inl,
  inr, Bool, true, false, Bool-cases, Option, none, some, Option-cases, [], ◌∷◌, ◌++◌, ◌==◌, leb,
  if◌then◌else◌, arith, Bytes,
}
use shellforge.Kernel.Vm.Mapped.{Maps, translate_user→Maps, Maps→translate_user}
use shellforge.Kernel.Vm.{
  page_size, Pool, and_then, walk_user_pte, pte2pa, is_user, translate_user, read_bytes, in_page,
  copyin_loop, copyin,
}

-- The bytes from a virtual address on, each through its own translation.
unfoldable pub bytes_at : Pool → (ℕ → ℕ) → ℕ → ℕ → ℕ → Option Bytes
bytes_at pool mem pt zero va = some []
bytes_at pool mem pt (suc n) va =
    let later = bytes_at pool mem pt n (va + 1) in
    and_then (translate_user pool pt va) (λ pa. and_then later (λ rest. some (mem pa ∷ rest)))

-- The next address in the same page has the same entry.
walk_user_pte-next :
    (pool : Pool) (pt va : ℕ)
    → va % page_size + 1 < page_size
    → walk_user_pte pool pt (va + 1) ≡ walk_user_pte pool pt va
unfolding walk_user_pte
walk_user_pte-next pool pt va h =
    let z : (va + 1) / 4096 ≡ va / 4096 = omega arith in
    let o : (va + 1) / 2097152 ≡ va / 2097152 = omega arith in
    let t : (va + 1) / 1073741824 ≡ va / 1073741824 = omega arith in
    let top : leb (2 ^ 39) (va + 1) ≡ leb (2 ^ 39) va = ground arith in rw (top, z, o, t) refl

pub none_is : {x : ℕ} → none ≢ some x
none_is e = cc

pub some_is : {x y : ℕ} → some x ≡ some y → x ≡ y
some_is e = cc

next_byte :
    (b : Bool) (page r r' pa : ℕ)
    → r' ≡ r + 1
    → (if b then some (page + r) else none) ≡ some pa
    → (if b then some (page + r') else none) ≡ some (pa + 1)
next_byte true page r r' pa o e = ap some (omega (arith, some_is e))
next_byte false page r r' pa o e = absurd (none_is e)

pub translate_user-next :
    (pool : Pool) (pt va pa : ℕ)
    → va % page_size + 1 < page_size
    → translate_user pool pt va ≡ some pa
    → translate_user pool pt (va + 1) ≡ some (pa + 1)
unfolding translate_user
translate_user-next pool pt va pa h e =
    rw (walk_user_pte-next pool pt va h) (shifted (walk_user_pte pool pt va) e)
  where
    shifted :
        (o : Option ℕ)
        → and_then o (λ pte. if is_user pte then some (pte2pa pte + va % page_size) else none)
          ≡ some pa
        → and_then o (λ pte. if is_user pte then some (pte2pa pte + (va + 1) % page_size) else none)
          ≡ some (pa + 1)
    shifted none e = absurd (none_is e)
    shifted (some pte) e =
        next_byte (is_user pte) (pte2pa pte) (va % page_size) ((va + 1) % page_size) pa
          (omega arith) e

-- A translation that succeeds is of an address below 2 ^ 39.
pub translate_user-below :
    (pool : Pool) (pt va pa : ℕ) → translate_user pool pt va ≡ some pa → va < 2 ^ 39
unfolding translate_user walk_user_pte
translate_user-below pool pt va pa e = elim (Bool-cases (leb (2 ^ 39) va)) [
  | inr f ↦ ground arith
  | inl t ↦
      let refused : translate_user pool pt va ≡ none = rw t refl in
      absurd (none_is (sym refused ∙ e))
]

prefixed :
    (o : Option Bytes) (c : ℕ) (front : Bytes)
    → and_then (and_then o (λ rest. some (front ++ rest))) (λ rest. some (c ∷ rest))
      ≡ and_then o (λ rest. some (c ∷ (front ++ rest)))
prefixed none c front = refl
prefixed (some rest) c front = refl

-- A run of bytes in a page is read at once.
bytes_at-read_bytes :
    (pool : Pool) (mem : ℕ → ℕ) (pt n m va pa : ℕ)
    → va % page_size + n < page_size
    → translate_user pool pt va ≡ some pa
    → bytes_at pool mem pt (suc n + m) va
      ≡ and_then
          (bytes_at pool mem pt m (va + suc n))
          (λ rest. some (read_bytes mem pa (suc n) ++ rest))
unfolding bytes_at read_bytes
bytes_at-read_bytes pool mem pt zero m va pa h e =
    let one : 1 + m ≡ suc m = omega arith in rw (one, e) refl
bytes_at-read_bytes pool mem pt (suc n) m va pa h e =
    let more : suc (suc n) + m ≡ suc (suc n + m) = omega arith in
    let there : va + 1 + suc n ≡ va + suc (suc n) = omega arith in
    let next = translate_user-next pool pt va pa (omega arith) e in
    let later = bytes_at-read_bytes pool mem pt n m (va + 1) (pa + 1) (omega arith) next in
    rw (more, e)
      (ap (λ o. and_then o (λ rest. some (mem pa ∷ rest))) later
        ∙ prefixed (bytes_at pool mem pt m (va + 1 + suc n)) (mem pa)
            (read_bytes mem (pa + 1) (suc n))
        ∙ ap
            (λ a.
              and_then (bytes_at pool mem pt m a)
                (λ rest. some (mem pa ∷ (read_bytes mem (pa + 1) (suc n) ++ rest))))
            there)

-- A round of `copyin_loop` whose page is there, for `k + 1` bytes.
copyin_loop-round :
    (pool : Pool) (mem : ℕ → ℕ) (pt fuel va len pa k : ℕ)
    → translate_user pool pt va ≡ some pa
    → in_page va (suc len) ≡ suc k
    → copyin_loop pool mem pt (suc fuel) va (suc len)
      ≡ and_then
          (copyin_loop pool mem pt fuel (va + suc k) (len - k))
          (λ rest. some (read_bytes mem pa (suc k) ++ rest))
unfolding copyin_loop
copyin_loop-round pool mem pt fuel va len pa k e size =
    let full : (suc len == 0) ≡ false = ground arith in
    let below = translate_user-below pool pt va pa e in
    let wrap : (va + suc k) % 2 ^ 64 ≡ va + suc k = omega arith in
    let left : suc len - suc k ≡ len - k = omega arith in rw (full, e, size, wrap, left) refl

copyin_loop-bytes_at :
    (pool : Pool) (mem : ℕ → ℕ) (pt fuel va len : ℕ)
    → len ≤ fuel
    → copyin_loop pool mem pt fuel va len ≡ bytes_at pool mem pt len va
copyin_loop-bytes_at pool mem pt zero va len h =
    let nothing_left : len ≡ 0 = omega arith in unfold copyin_loop bytes_at in rw nothing_left refl
copyin_loop-bytes_at pool mem pt (suc fuel) va zero h = unfold copyin_loop bytes_at in refl
copyin_loop-bytes_at pool mem pt (suc fuel) va (suc len) h =
    elim (Option-cases (translate_user pool pt va)) [
      | inl e ↦
          let full : (suc len == 0) ≡ false = ground arith in
          unfold copyin_loop bytes_at in rw (full, e) refl
      | inr (pa, e) ↦
          let k = in_page va (suc len) - 1 in
          let size : in_page va (suc len) ≡ suc k = omega arith in
          let whole : suc k + (len - k) ≡ suc len = omega arith in
          copyin_loop-round pool mem pt fuel va len pa k e size
          ∙ ap (λ o. and_then o (λ rest. some (read_bytes mem pa (suc k) ++ rest)))
              (copyin_loop-bytes_at pool mem pt fuel (va + suc k) (len - k) (omega arith))
          ∙ sym (bytes_at-read_bytes pool mem pt k (len - k) va pa (omega arith) e)
          ∙ ap (λ l. bytes_at pool mem pt l va) whole
    ]

-- By pages as by bytes.
pub copyin-bytes_at :
    (pool : Pool) (mem : ℕ → ℕ) (pt va len : ℕ)
    → copyin pool mem pt va len ≡ bytes_at pool mem pt len va
unfolding copyin
copyin-bytes_at pool mem pt va len = copyin_loop-bytes_at pool mem pt len va len (omega arith)

module _ (pool : Pool) (mem : ℕ → ℕ) (pt : ℕ) where
  -- The byte `c` is in memory at the address that the tables map `va` to, for the user.
  abbrev pub Behind : ℕ → ℕ → Type 0
  Behind va c = (pa : ℕ) × Maps pool pt va pa × (mem pa ≡ c)

  abbrev pub BytesAt : ℕ → Bytes → Type 0
  BytesAt va [] = Unit
  BytesAt va (c ∷ cs) = Behind va c × BytesAt (va + 1) cs

  abbrev pub Unmapped : ℕ → Type 0
  Unmapped va = (pa : ℕ) → ¬ Maps pool pt va pa

  -- The bytes behind `len` addresses, or one of the addresses that is not mapped for the user.
  abbrev pub Reads : ℕ → ℕ → Option Bytes → Type 0
  Reads va len none = (i : ℕ) × (i < len) × Unmapped (va + i)
  Reads va len (some bytes) = (length bytes ≡ len) × BytesAt va bytes

  pub Unmapped-none : (va : ℕ) → translate_user pool pt va ≡ none → Unmapped va
  Unmapped-none va e pa m = none_is (sym e ∙ Maps→translate_user pool pt va pa m)

  Reads-suc :
      (va pa len : ℕ) (o : Option Bytes)
      → Maps pool pt va pa
      → Reads (va + 1) len o
      → Reads va (suc len) (and_then o (λ rest. some (mem pa ∷ rest)))
  Reads-suc va pa len none m (i, lt, un) =
      let there : va + 1 + i ≡ va + suc i = omega arith in
      (suc i, omega arith, subst Unmapped there un)
  Reads-suc va pa len (some rest) m (size, there) = (omega arith, ((pa, m, refl), there))

  bytes_at-Reads : (len va : ℕ) → Reads va len (bytes_at pool mem pt len va)
  unfolding bytes_at
  bytes_at-Reads zero va = (refl, tt)
  bytes_at-Reads (suc len) va = elim (Option-cases (translate_user pool pt va)) [
    | inl e ↦
        let here : va ≡ va + 0 = omega arith in
        rw (e, bytes_at) (0, omega arith, subst Unmapped here (Unmapped-none va e))
    | inr (pa, e) ↦
        rw (e, bytes_at)
          (Reads-suc va pa len _ (translate_user→Maps pool pt va pa e)
            (bytes_at-Reads len (va + 1)))
  ]

  -- For every pool of page tables: where `copyin` returns 0 it has copied as many bytes as it was
  -- asked for, each from the physical address that the tables map its own virtual address to, by
  -- three valid entries of which the last has the U bit. Where it returns -1, one of the addresses
  -- is not mapped so.
  pub copyin-Reads : (va len : ℕ) → Reads va len (copyin pool mem pt va len)
  copyin-Reads va len =
      subst (Reads va len) (sym (copyin-bytes_at pool mem pt va len)) (bytes_at-Reads len va)
