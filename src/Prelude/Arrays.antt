-- ===== src/Prelude/Arrays.antt =====
-- An array of a fixed size whose first items are in use, the others holding a default.
use Prim.Native.Nat.{ℕ, zero, suc, ◌<◌}
use mathlib.Core.Path.{◌≡◌, refl, ap}
use mathlib.Core.List.{List, [], ◌∷◌, ◌++◌}
use native.Mathlib.Omega.{arith}
use shellforge.Prelude.Lists.{length, set, get_or, replicate}

module _ {ℓ} {A : Type ℓ} (d : A) where
  unfoldable pub padded : ℕ → List A → List A
  padded zero xs = []
  padded (suc n) [] = d ∷ padded n []
  padded (suc n) (x ∷ xs) = x ∷ padded n xs

  pub length-padded : (n : ℕ) (xs : List A) → length (padded n xs) ≡ n
  unfolding padded
  length-padded zero xs = refl
  length-padded (suc n) [] = ap suc (length-padded n [])
  length-padded (suc n) (x ∷ xs) = ap suc (length-padded n xs)

  pub padded-nil : (n : ℕ) → padded n [] ≡ replicate n d
  unfolding padded
  padded-nil zero = refl
  padded-nil (suc n) = ap (◌∷◌ d) (padded-nil n)

  -- A write behind the items in use makes one more of them.
  pub set-padded_end :
      (n : ℕ) (xs : List A) (v : A)
      → length xs < n
      → set (padded n xs) (length xs) v ≡ padded n (xs ++ v ∷ [])
  unfolding padded
  set-padded_end zero xs v h = elim h [ ]
  set-padded_end (suc n) [] v h = refl
  set-padded_end (suc n) (x ∷ xs) v h = ap (◌∷◌ x) (set-padded_end n xs v (omega arith))

  pub padded-default : (n : ℕ) (xs : List A) → padded n (xs ++ d ∷ []) ≡ padded n xs
  unfolding padded
  padded-default zero xs = refl
  padded-default (suc n) [] = refl
  padded-default (suc n) (x ∷ xs) = ap (◌∷◌ x) (padded-default n xs)

  pub set-padded_last :
      (n : ℕ) (xs : List A) (y v : A)
      → set (padded n (xs ++ y ∷ [])) (length xs) v ≡ padded n (xs ++ v ∷ [])
  unfolding padded
  set-padded_last zero xs y v = refl
  set-padded_last (suc n) [] y v = refl
  set-padded_last (suc n) (x ∷ xs) y v = ap (◌∷◌ x) (set-padded_last n xs y v)

  pub get_or-padded_last :
      (n : ℕ) (xs : List A) (y e : A)
      → length xs < n
      → get_or (padded n (xs ++ y ∷ [])) (length xs) e ≡ y
  unfolding padded
  get_or-padded_last zero xs y e h = elim h [ ]
  get_or-padded_last (suc n) [] y e h = refl
  get_or-padded_last (suc n) (x ∷ xs) y e h = get_or-padded_last n xs y e (omega arith)
