-- ===== src/Shell/Expand/Text.antt =====
-- What src/expand.c promises: how a text with variables is read, with no buffer and no places.
use shellforge.Prelude.{
  ℕ, suc, ◌+◌, ◌≡◌, refl, sym, ap, subst, ◌∙◌, ◌≢◌, ◌⊎◌, inl, inr, Bool, true, false, Option, none,
  some, [], ◌∷◌, ◌++◌, arith, ◌==◌, Bool-cases, length, Bytes, All, drop, drop-add, drop-take_while,
  take_while, drop_while, take_while-append-drop_while, drop_while-run,
}
use shellforge.Shell.Expand.{isalpha, isalnum, starts_name, in_name, in_braces, closed, variable_at}

-- The value of a variable, or nothing.
abbrev pub value : (Bytes → Option Bytes) → Bytes → Bytes
value getenv name = elim (getenv name) [ none ↦ [] | some v ↦ v ]

-- Every value in the environment is a C string.
abbrev pub IsEnvironment : (Bytes → Option Bytes) → Type 0
IsEnvironment getenv = (name v : Bytes) → getenv name ≡ some v → All (λ c. c ≢ 0) v

abbrev pub StartsName : Bytes → Type 0
StartsName [] = ⊥
StartsName (c ∷ cs) = starts_name c ≡ true

abbrev pub Stops : (ℕ → Bool) → Bytes → Type 0
Stops p [] = Unit
Stops p (c ∷ cs) = p c ≡ false

-- Behind a `$`: a name, in braces or as long as it can be, and what follows it.
pub data Names (s name rest : Bytes) : Type 0 where
  braced :
      s ≡ b'{' ∷ (name ++ (b'}' ∷ rest)) → All (λ c. in_braces c ≡ true) name → Names s name rest
  bare :
      s ≡ name ++ rest
      → StartsName name
      → All (λ c. in_name c ≡ true) name
      → Stops in_name rest
      → Names s name rest

pub data Expands (getenv : Bytes → Option Bytes) : Bytes → Bytes → Type 0 where
  done : Expands getenv [] []
  literal : {c : ℕ} {s t : Bytes} → c ≢ b'$' → Expands getenv s t → Expands getenv (c ∷ s) (c ∷ t)
  variable :
      {c : ℕ} {s t : Bytes} (name rest : Bytes)
      → c ≡ b'$'
      → Names s name rest
      → Expands getenv rest t
      → Expands getenv (c ∷ s) (value getenv name ++ t)
  dollar :
      {c : ℕ} {s t : Bytes}
      → c ≡ b'$'
      → ((name rest : Bytes) → ¬ Names s name rest)
      → Expands getenv s t
      → Expands getenv (c ∷ s) (c ∷ t)

take_while-All : (p : ℕ → Bool) (s : Bytes) → All (λ c. p c ≡ true) (take_while p s)
take_while-All p [] = tt
take_while-All p (c ∷ s) = ground (arith, take_while-All p s)

drop_while-Stops : (p : ℕ → Bool) (s : Bytes) → Stops p (drop_while p s)
drop_while-Stops p [] = tt
drop_while-Stops p (c ∷ s) = ground (arith, drop_while-Stops p s)

take_while-Stops :
    (p : ℕ → Bool) (xs ys : Bytes)
    → All (λ c. p c ≡ true) xs
    → Stops p ys
    → take_while p (xs ++ ys) ≡ xs
take_while-Stops p [] [] a s = refl
take_while-Stops p [] (y ∷ ys) a s = rw s
take_while-Stops p (x ∷ xs) ys a s = rw a.0 (ap (◌∷◌ x) (take_while-Stops p xs ys a.1 s))

drop-suc : (n : ℕ) (c : ℕ) (r : Bytes) → drop (n + 2) (c ∷ r) ≡ drop 1 (drop n r)
drop-suc n c r = let e : n + 2 ≡ suc (n + 1) = omega arith in rw e (drop-add n 1 r)

closing : (d : Bytes) → Stops in_braces d → (d ≡ []) ⊎ ((rest : Bytes) × (d ≡ b'}' ∷ rest))
closing [] h = inl refl
closing (c ∷ d) h = let e : c ≡ b'}' = ground arith in inr (d, ap (λ x. x ∷ d) e)

-- A found name, and the bytes that it takes.
abbrev Found : Bytes → Option (ℕ × Bytes) → Type 0
Found s o = (k : ℕ) × (name : Bytes) × (o ≡ some (k, name)) × Names s name (drop k s)

closed_cases : (r : Bytes) → (closed r ≡ none) ⊎ Found (b'{' ∷ r) (closed r)
unfolding closed
closed_cases r = elim (closing (drop_while in_braces r) (drop_while-Stops in_braces r)) [
  | inl e ↦ inl (rw (e, closed))
  | inr (rest, e) ↦
      let name = take_while in_braces r in
      let left : drop (length name + 2) (b'{' ∷ r) ≡ rest =
        drop-suc (length name) b'{' r ∙ ap (drop 1) (drop-take_while in_braces r ∙ e) in
      inr (
        length name + 2,
        name,
        rw (e, closed),
        subst (Names (b'{' ∷ r) name) (sym left) (
            braced
              (ap (◌∷◌ b'{')
                (sym (take_while-append-drop_while in_braces r) ∙ ap (λ x. name ++ x) e))
              (take_while-All in_braces r)),
      )
]

starts_in_name : (c : ℕ) → starts_name c ≡ true → in_name c ≡ true
unfolding isalnum
starts_in_name c h = ground arith

bare-Found :
    (c : ℕ) (r : Bytes)
    → starts_name c ≡ true
    → Found (c ∷ r) (some (length (take_while in_name (c ∷ r)), take_while in_name (c ∷ r)))
bare-Found c r h =
    let s = c ∷ r in
    (
      length (take_while in_name s),
      take_while in_name s,
      refl,
      subst (Names s (take_while in_name s)) (sym (drop-take_while in_name s)) (
          bare (sym (take_while-append-drop_while in_name s)) starts (take_while-All in_name s)
            (drop_while-Stops in_name s)),
    )
  where
    starts : StartsName (take_while in_name (c ∷ r))
    starts = rw (starts_in_name c h) h

brace_of_starts : (c : ℕ) → starts_name c ≡ true → (c == b'{') ≡ false
unfolding isalpha
brace_of_starts c h = ground arith

-- `variable_at` finds a name, or it finds none.
variable_at-Found : (s : Bytes) → (variable_at s ≡ none) ⊎ Found s (variable_at s)
unfolding variable_at
variable_at-Found [] = inl refl
variable_at-Found (c ∷ r) = elim (Bool-cases (c == b'{')) [
  | inl e ↦ let is : c ≡ b'{' = ground arith in rw is (closed_cases r)
  | inr e ↦ elim (Bool-cases (starts_name c)) [
    | inl h ↦ rw (e, h) (inr (bare-Found c r h))
    | inr h ↦ inl (rw (e, h))
  ]
]

-- It misses no name.
variable_at-ne-none : (s name rest : Bytes) → Names s name rest → variable_at s ≢ none
unfolding variable_at closed
variable_at-ne-none s name rest (braced e a) n =
    let n' = subst (λ x. variable_at x ≡ none) e n in
    let n'' = rw (drop_while-run in_braces name b'}' rest a refl, closed) at n' in cc
variable_at-ne-none s [] rest (bare e st a stop) n = absurd st
variable_at-ne-none s (c ∷ name) rest (bare e st a stop) n =
    let n' = subst (λ x. variable_at x ≡ none) e n in
    let n'' = rw (brace_of_starts c st, st) at n' in cc

-- Both together: the test of the code decides whether a name stands behind a `$`.
pub variable_at_cases :
    (s : Bytes)
    → ((variable_at s ≡ none) × ((name rest : Bytes) → ¬ Names s name rest))
      ⊎ Found s (variable_at s)
variable_at_cases s = elim (variable_at-Found s) [
  | inl e ↦ inl (e, λ name rest x. variable_at-ne-none s name rest x e)
  | inr f ↦ inr f
]
