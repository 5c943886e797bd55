-- ===== src/User/Editor.antt =====
-- The line editor in `main` of NanoBoot/user/sh.c, over the keys that `sys_read` gives.
use shellforge.Prelude.{
  ℕ, zero, suc, ◌+◌, ◌-◌, ◌≤◌, ◌<◌, ◌≡◌, refl, sym, ap, ◌∙◌, inl, inr, Bool, true, false,
  Bool-cases, ◌||◌, Option, none, some, [], ◌∷◌, ◌++◌, append-nil, append_assoc, ◌==◌, ltb,
  if◌then◌else◌, length, length-append, length-take, take, take-ge, All, arith, Bytes,
}

abbrev pub max_line : ℕ
max_line = 128

-- What the editor leaves: the line, the keys behind it, and what it has printed.
pub record Edited : Type 0 where
  pub line : Bytes
  pub keys : Bytes
  pub echo : Bytes

abbrev pub newline : ℕ → Bool
newline c = c == 13 || c == 10

abbrev pub erases : ℕ → Bool
erases c = c == 8 || c == 127

-- The line without its last byte.
abbrev pub shorter : Bytes → Bytes
shorter line = take (length line - 1) line

abbrev pub rubout : Bytes → Bytes
rubout [] = []
rubout (c ∷ cs) = 8 ∷ 32 ∷ 8 ∷ []

-- The loop of the editor, which ends without a key when the line is full. `none` waits for a key.
unfoldable pub read_line : Bytes → Bytes → Bytes → Option Edited
read_line line echo [] =
    if ltb (length line) (max_line - 1)
    then none
    else some (record { line = line; keys = []; echo = echo })
read_line line echo (c ∷ keys) =
    let erased = read_line (shorter line) (echo ++ rubout line) keys in
    let typed = read_line (line ++ c ∷ []) (echo ++ c ∷ []) keys in
    if ltb (length line) (max_line - 1)
    then if newline c
      then some (record { line = line; keys = keys; echo = echo ++ 10 ∷ [] })
      else if erases c
      then erased
      else typed
    else some (record { line = line; keys = c ∷ keys; echo = echo })

-- What is left of a text in which a rubout takes the last byte before it that is still there: how
-- many rubouts are left for what stands in front, and what is kept.
unfoldable pub kept : Bytes → ℕ × Bytes
kept [] = (0, [])
kept (c ∷ cs) =
    let (pending, text) = kept cs in
    if erases c
    then (pending + 1, text)
    else if pending == 0
    then (0, c ∷ text)
    else (pending - 1, text)

abbrev pub kept_text : Bytes → Bytes
kept_text cs = (kept cs).1

-- What the line becomes.
abbrev becomes : Bytes → Bytes → Bytes
becomes line cs = take (length line - (kept cs).0) line ++ (kept cs).1

take-take_le : (n m : ℕ) (xs : Bytes) → n ≤ m → take n (take m xs) ≡ take n xs
take-take_le zero m xs h = refl
take-take_le (suc n) zero xs h = absurd (omega arith)
take-take_le (suc n) (suc m) [] h = refl
take-take_le (suc n) (suc m) (x ∷ xs) h = ap (◌∷◌ x) (take-take_le n m xs (omega arith))

take-append_le : (n : ℕ) (xs ys : Bytes) → n ≤ length xs → take n (xs ++ ys) ≡ take n xs
take-append_le zero xs ys h = refl
take-append_le (suc n) [] ys h = absurd (omega arith)
take-append_le (suc n) (x ∷ xs) ys h = ap (◌∷◌ x) (take-append_le n xs ys (omega arith))

length-shorter : (xs : Bytes) → length (shorter xs) ≡ length xs - 1
length-shorter xs = omega (arith, length-take (length xs - 1) xs)

becomes-erased :
    (line : Bytes) (c : ℕ) (cs : Bytes)
    → erases c ≡ true
    → becomes (shorter line) cs ≡ becomes line (c ∷ cs)
unfolding kept
becomes-erased line c cs e =
    let p = (kept cs).0 in
    let same : length (shorter line) - p ≡ length line - (p + 1) =
      omega (arith, length-shorter line) in
    rw e (
      ap (λ t. t ++ (kept cs).1)
        (ap (λ n. take n (shorter line)) same
          ∙ take-take_le (length line - (p + 1)) (length line - 1) line (omega arith)))

becomes-typed :
    (line : Bytes) (c : ℕ) (cs : Bytes)
    → erases c ≡ false
    → becomes (line ++ c ∷ []) cs ≡ becomes line (c ∷ cs)
unfolding kept
becomes-typed line c cs e =
    let p = (kept cs).0 in
    let size = length-append line (c ∷ []) in
    elim (Bool-cases (p == 0)) [
      | inl t ↦
          rw (e, t)
            (ap (λ u. u ++ (kept cs).1)
                (take-ge (length (line ++ c ∷ []) - p) (line ++ c ∷ []) (ground arith))
              ∙ append_assoc line (c ∷ []) (kept cs).1
              ∙ ap (λ u. u ++ (c ∷ (kept cs).1))
                  (sym (take-ge (length line - 0) line (omega arith))))
      | inr f ↦
          let same : length (line ++ c ∷ []) - p ≡ length line - (p - 1) = ground (arith, size) in
          rw (e, f)
            (ap (λ u. u ++ (kept cs).1)
              (ap (λ n. take n (line ++ c ∷ [])) same
                ∙ take-append_le (length line - (p - 1)) line (c ∷ []) (omega arith)))
    ]

becomes-nothing : (line : Bytes) → becomes line [] ≡ line
unfolding kept
becomes-nothing line =
    append-nil (take (length line - 0) line) ∙ take-ge (length line - 0) line (omega arith)

becomes-fresh : (n : ℕ) → take {A = ℕ} n [] ≡ []
becomes-fresh zero = refl
becomes-fresh (suc n) = refl

-- The line that a read ends with, and the keys behind it.
abbrev pub EndsWith : Bytes → Bytes → Option Edited → Type 0
EndsWith line keys r =
    (echo : Bytes) × (r ≡ some (record { line = line; keys = keys; echo = echo }))

read_line-becomes :
    (cs line echo keys : Bytes) (nl : ℕ)
    → All (λ c. newline c ≡ false) cs
    → newline nl ≡ true
    → length line + length cs < max_line - 1
    → EndsWith (becomes line cs) keys (read_line line echo (cs ++ nl ∷ keys))
unfolding read_line
read_line-becomes [] line echo keys nl h ends few =
    let room : ltb (length line) (max_line - 1) ≡ true = ground arith in
    (
      echo ++ 10 ∷ [],
      rw (room, ends)
          (ap (λ l. some (record { line = l; keys = keys; echo = echo ++ 10 ∷ [] }))
            (sym (becomes-nothing line))),
    )
read_line-becomes (c ∷ cs) line echo keys nl (plain, h) ends few =
    let room : ltb (length line) (max_line - 1) ≡ true = ground arith in
    elim (Bool-cases (erases c)) [
      | inl e ↦
          let (echo', r) =
            read_line-becomes cs (shorter line) (echo ++ rubout line) keys nl h ends
              (omega (arith, length-shorter line)) in
          (
            echo',
            rw (room, plain, e)
                (r
                  ∙ ap (λ l. some (record { line = l; keys = keys; echo = echo' }))
                      (becomes-erased line c cs e)),
          )
      | inr e ↦
          let (echo', r) =
            read_line-becomes cs (line ++ c ∷ []) (echo ++ c ∷ []) keys nl h ends
              (omega (arith, length-append line (c ∷ []))) in
          (
            echo',
            rw (room, plain, e)
                (r
                  ∙ ap (λ l. some (record { line = l; keys = keys; echo = echo' }))
                      (becomes-typed line c cs e)),
          )
    ]

-- Where fewer than 127 keys stand in front of the first newline, the editor reads the line that is
-- left when each rubout takes the last byte before it that is still there, and takes no key behind
-- the newline.
pub read_line-kept :
    (cs keys : Bytes) (nl : ℕ)
    → All (λ c. newline c ≡ false) cs
    → newline nl ≡ true
    → length cs < max_line - 1
    → EndsWith (kept_text cs) keys (read_line [] [] (cs ++ nl ∷ keys))
read_line-kept cs keys nl h ends few =
    let (echo, r) = read_line-becomes cs [] [] keys nl h ends (omega arith) in
    (
      echo,
      r
          ∙ ap (λ l. some (record { line = l ++ kept_text cs; keys = keys; echo = echo }))
              (becomes-fresh (0 - (kept cs).0)),
    )
