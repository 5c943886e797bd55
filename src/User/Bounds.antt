-- ===== src/User/Bounds.antt =====
-- The tokenizer of NanoBoot/user/sh.c stays in its buffers and comes to an end.
use shellforge.Prelude.{
  ℕ, zero, suc, ◌+◌, ◌-◌, ◌<◌, ◌≤◌, ◌≡◌, refl, sym, ap, subst, ◌∙◌, Bool, false, Option, none, some,
  Option-cases, List, [], ◌∷◌, ◌++◌, leb, ◌==◌, if-intro, Bool-cases, length, length-append,
  drop_while, ◌⊎◌, inl, inr, arith, Bytes, All, All-append,
}
use shellforge.User.Lexer.{
  max_token_len, tok_word, UserToken, Tokenized, tokens, failed, out_of_fuel, err_max, is_blank,
  is_quote, ends_word, put, read_word, output_at, operator_at, tokenize_loop, tokenize,
}

abbrev IsShort : UserToken → Type 0
IsShort t = length t.val < max_token_len

-- What fits the arrays that the caller gives.
abbrev pub InBounds : ℕ → Tokenized → Type 0
InBounds max (tokens ts) = (length ts < max) × All IsShort ts
InBounds max (failed msg) = length msg < err_max
InBounds max out_of_fuel = ⊥

put_short : (val : Bytes) (c : ℕ) → length val < max_token_len → length (put val c) < max_token_len
put_short val c h = ground (arith, length-append val (c ∷ []))

-- A word that is read is short, and leaves no more than there was.
abbrev Reads : Bytes → Option ℕ × Bytes × Bytes → Type 0
Reads s r = (length r.1 < max_token_len) × (length r.2 ≤ length s)

Reads-suc : (c : ℕ) (s : Bytes) (r : Option ℕ × Bytes × Bytes) → Reads s r → Reads (c ∷ s) r
Reads-suc c s r h = (h.0, omega (arith, h.1))

read_word-Reads :
    (q : Option ℕ) (val s : Bytes) → length val < max_token_len → Reads s (read_word q val s)
unfolding read_word
read_word-Reads q val [] h = (h, omega arith)
read_word-Reads none val (c ∷ s) h =
    if-intro (Reads (c ∷ s)) (is_quote c)
      (λ _. Reads-suc c s (read_word (some c) val s) (read_word-Reads (some c) val s h))
      (λ _.
        if-intro (Reads (c ∷ s)) (ends_word c) (λ _. (h, omega arith))
          (λ _.
            Reads-suc c s (read_word none (put val c) s)
              (read_word-Reads none (put val c) s (put_short val c h))))
read_word-Reads (some q) val (c ∷ s) h =
    if-intro (Reads (c ∷ s)) (c == q)
      (λ _. Reads-suc c s (read_word none val s) (read_word-Reads none val s h))
      (λ _.
        Reads-suc c s (read_word (some q) (put val c) s)
          (read_word-Reads (some q) (put val c) s (put_short val c h)))

drop_while_short : (p : ℕ → Bool) (s : Bytes) → length (drop_while p s) ≤ length s
drop_while_short p [] = omega arith
drop_while_short p (c ∷ s) = ground (arith, drop_while_short p s)

Bytes-cases : (s : Bytes) → (s ≡ []) ⊎ ((c : ℕ) × (r : Bytes) × (s ≡ c ∷ r))
Bytes-cases [] = inl refl
Bytes-cases (c ∷ r) = inr (c, r, refl)

drop_while_stops : (p : ℕ → Bool) (s r : Bytes) (c : ℕ) → drop_while p s ≡ c ∷ r → p c ≡ false
drop_while_stops p [] r c e = cc
drop_while_stops p (d ∷ s) r c e = elim (Bool-cases (p d)) [
  | inl t ↦ drop_while_stops p s r c (sym (rw t refl) ∙ e)
  | inr f ↦
      let here : d ∷ s ≡ c ∷ r = sym (rw f refl) ∙ e in
      subst (λ x. p x ≡ false) (ap (λ l. elim l as (λ _. ℕ) [ [] ↦ c | x ∷ _ ↦ x ]) here) f
]

output_at-IsShort : (r : Bytes) → IsShort (output_at r).0 × (length (output_at r).1 ≤ length r)
unfolding output_at
output_at-IsShort [] = (omega arith, omega arith)
output_at-IsShort (d ∷ r) =
    if-intro (λ (o : UserToken × Bytes). IsShort o.0 × (length o.1 ≤ length (d ∷ r))) (d == b'>')
      (λ _. (omega arith, omega arith)) (λ _. (omega arith, omega arith))

-- An operator's token is short, and takes a byte of the text or two.
abbrev Operates : Bytes → Option (UserToken × Bytes) → Type 0
Operates r none = Unit
Operates r (some o) = IsShort o.0 × (length o.1 ≤ length r)

operator_at-Operates : (c : ℕ) (r : Bytes) → Operates r (operator_at c r)
unfolding operator_at
operator_at-Operates c r =
    if-intro (Operates r) (c == b'|') (λ _. (omega arith, omega arith))
      (λ _.
        if-intro (Operates r) (c == b'<') (λ _. (omega arith, omega arith))
          (λ _.
            if-intro (Operates r) (c == b'>') (λ _. output_at-IsShort r)
              (λ _. if-intro (Operates r) (c == b'&') (λ _. (omega arith, omega arith)) (λ _. tt))))

-- A byte that is no operator and no blank is taken by the word that it begins.
read_word-progress :
    (c : ℕ) (r : Bytes)
    → is_blank c ≡ false
    → operator_at c r ≡ none
    → length (read_word none [] (c ∷ r)).2 ≤ length r
unfolding read_word operator_at
read_word-progress c r b o =
    let goes_on : ends_word c ≡ false = ground arith in
    if-intro (λ (w : Option ℕ × Bytes × Bytes). length w.2 ≤ length r) (is_quote c)
      (λ _. (read_word-Reads (some c) [] r (omega arith)).1)
      (λ _. rw goes_on (read_word-Reads none (c ∷ []) r (omega arith)).1)

-- The array with one token more, where the limit was not reached.
room :
    (max : ℕ) (done : List UserToken) (t : UserToken)
    → leb (max - 1) (length done) ≡ false
    → All IsShort done
    → IsShort t
    → (length (done ++ t ∷ []) < max) × All IsShort (done ++ t ∷ [])
room max done t e a s =
    let free : length done < max - 1 = ground arith in
    (omega (arith, length-append done (t ∷ [])), All-append IsShort done (t ∷ []) a (s, tt))

tokenize_loop-InBounds :
    (max fuel : ℕ) (done : List UserToken) (s : Bytes)
    → length s < fuel
    → length done < max
    → All IsShort done
    → InBounds max (tokenize_loop max fuel done s)
unfolding tokenize_loop
tokenize_loop-InBounds max zero done s lt few a = absurd (omega arith)
tokenize_loop-InBounds max (suc fuel) done s lt few a = elim (Bytes-cases (drop_while is_blank s)) [
  | inl e ↦ rw (e, tokenize_loop) (few, a)
  | inr (c, r, e) ↦
      let size : length (c ∷ r) ≤ length s =
        subst (λ x. length x ≤ length s) e (drop_while_short is_blank s) in
      rw (e, tokenize_loop)
        (if-intro (InBounds max) (leb (max - 1) (length done)) (λ _. omega arith)
          (λ more. elim (Option-cases (operator_at c r)) [
            | inr (o, found) ↦
                let op = subst (Operates r) found (operator_at-Operates c r) in
                let (few', a') = room max done o.0 more a op.0 in
                rw found (
                  tokenize_loop-InBounds max fuel (done ++ o.0 ∷ []) o.1 (omega (arith, op.1)) few'
                    a')
            | inl none_is ↦ rw none_is (elim (Option-cases (read_word none [] (c ∷ r)).0) [
              | inr (q, still) ↦ rw still (omega arith)
              | inl closed ↦
                  let w = read_word none [] (c ∷ r) in
                  let reads = read_word-Reads none [] (c ∷ r) (omega arith) in
                  let (few', a') =
                    room max done (record { type = tok_word; val = w.1 }) more a reads.0 in
                  rw closed (
                    tokenize_loop-InBounds max fuel
                      (done ++ record { type = tok_word; val = w.1 } ∷ []) w.2
                      (omega
                        (arith, read_word-progress c r (drop_while_stops is_blank s r c e) none_is))
                      few' a')
            ])
          ]))
]

-- For every line, `tokenize` comes to an end. Where it succeeds, the tokens and the TOK_END behind
-- them fit the array of the caller, and each value fits its buffer with a NUL; where it does not,
-- the message fits its buffer. The hypothesis is that the array has room for one token.
pub tokenize-InBounds : (max : ℕ) (line : Bytes) → 0 < max → InBounds max (tokenize max line)
unfolding tokenize
tokenize-InBounds max line pos =
    tokenize_loop-InBounds max (length line + 1) [] line (omega arith) pos tt
