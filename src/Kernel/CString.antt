-- ===== src/Kernel/CString.antt =====
-- The comparisons and the length of NanoBoot/kernel/string.c. A string is the bytes behind its
-- pointer; where the list ends there is the NUL.
use shellforge.Prelude.{
  ℕ, zero, suc, ◌-◌, ◌<◌, ◌≡◌, refl, true, false, [], ◌∷◌, arith, leb, ltb, sym, subst, ◌∙◌, ◌==◌,
  if◌then◌else◌, Bool-cases, inl, inr, Bytes,
}

-- An int.
pub data ℤ : Type 0 where
  pos negsuc : ℕ → ℤ

-- The difference of two bytes as ints.
unfoldable pub difference : ℕ → ℕ → ℤ
difference x y = if leb y x then pos (x - y) else negsuc (y - x - 1)

unfoldable pub first : Bytes → ℕ
first [] = 0
first (c ∷ cs) = c

unfoldable pub behind : Bytes → Bytes
behind [] = []
behind (c ∷ cs) = cs

unfoldable pub strlen : Bytes → ℕ
strlen [] = 0
strlen (c ∷ cs) = let rest = strlen cs in if c == 0 then 0 else suc rest

unfoldable pub strcmp : Bytes → Bytes → ℤ
strcmp [] b = difference 0 (first b)
strcmp (c ∷ a) b =
    let rest = strcmp a (behind b) in
    if c == 0 then difference c (first b) else if c == first b then rest else difference c (first b)

unfoldable pub strncmp : Bytes → Bytes → ℕ → ℤ
strncmp a b zero = pos 0
strncmp a b (suc n) =
    let rest = strncmp (behind a) (behind b) n in
    if first a == first b
    then if first a == 0 then pos 0 else rest
    else if ltb (first a) (first b)
    then negsuc 0
    else pos 1

pub data Sign : Type 0 where
  less same more : Sign

unfoldable pub sign : ℤ → Sign
sign (pos zero) = same
sign (pos (suc n)) = more
sign (negsuc n) = less

sign-pos : (n : ℕ) → 0 < n → sign (pos n) ≡ more
unfolding sign
sign-pos zero h = elim h [ ]
sign-pos (suc n) h = refl

sign_equal : (x y : ℕ) → (x == y) ≡ true → sign (pos 0) ≡ sign (difference x y)
unfolding sign difference
sign_equal x y e =
    let above : leb y x ≡ true = ground arith in
    let none_left : x - y ≡ 0 = ground arith in rw (above, none_left) refl

sign_differs :
    (x y : ℕ)
    → (x == y) ≡ false
    → sign (if ltb x y then negsuc 0 else pos 1) ≡ sign (difference x y)
sign_differs x y e = elim (Bool-cases (leb y x)) [
  | inl h ↦
      let above : ltb x y ≡ false = ground arith in
      unfold difference in
      rw (h, above) (sign-pos 1 (omega arith) ∙ sym (sign-pos (x - y) (ground arith)))
  | inr h ↦
      let below : ltb x y ≡ true = ground arith in unfold difference sign in rw (h, below) refl
]

-- Of a string that is no longer than `n` bytes with its NUL, `strncmp` compares all: it tells which
-- string comes first, or that they are the same, as `strcmp` does.
pub strncmp-strcmp : (a b : Bytes) (n : ℕ) → strlen a < n → sign (strncmp a b n) ≡ sign (strcmp a b)
unfolding strncmp strcmp strlen first behind
strncmp-strcmp a b zero h = elim h [ ]
strncmp-strcmp [] b (suc n) h = elim (Bool-cases (0 == first b)) [
  | inl e ↦ rw e (sign_equal 0 (first b) e)
  | inr e ↦ rw e (sign_differs 0 (first b) e)
]
strncmp-strcmp (c ∷ a) b (suc n) h = elim (Bool-cases (c == first b)) [
  | inl e ↦ elim (Bool-cases (c == 0)) [
    | inl z ↦ rw (e, z) (sign_equal c (first b) e)
    | inr z ↦
        let shorter : suc (strlen a) < suc n = subst (λ m. m < suc n) (rw z refl) h in
        rw (e, z) (strncmp-strcmp a (behind b) n (omega arith))
  ]
  | inr e ↦ elim (Bool-cases (c == 0)) [
    | inl z ↦ rw (e, z) (sign_differs c (first b) e)
    | inr z ↦ rw (e, z) (sign_differs c (first b) e)
  ]
]
