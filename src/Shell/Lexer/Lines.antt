-- ===== src/Shell/Lexer/Lines.antt =====
-- The tokens of a whole line: the loop of src/main.c over `lexer_next_token`.
use shellforge.Prelude.{
  ℕ, zero, suc, ◌≤◌, ◌<◌, ◌≡◌, refl, ap, Bool, true, false, not, ◌||◌, some, List, [], ◌∷◌, arith,
  ◌==◌, Bool-cases, length, drop_while, Bytes, inl, inr, ◌⊎◌, if-intro,
}
use shellforge.Shell.Token.{TokenType, word, end, Token}
use shellforge.Shell.Lexer.{
  Lexer, isspace, is_delimiter, is_end, lexer_init, lexer_next_token, collect, tokenize_line,
  max_tokens,
}
use shellforge.Shell.Lexer.Scan.{IsValid, remaining, tail}
use shellforge.Shell.Lexer.Words.{
  output_spec, quoted_spec, plain_spec, word_spec, next_spec, lex_spec,
}
use shellforge.Shell.Lexer.Refine.{
  enough, IsText, lexer_next_token-Meets, drop_while-IsText, tail-IsText,
}

-- What is left behind a token is shorter, unless the token is `TOKEN_END`.
Shorter : Bytes → Token × Bytes → Type 0
Shorter s (t, r) = (t.type ≡ end) ⊎ (length r < length s)

length-drop_while-le : (p : ℕ → Bool) (s : Bytes) → length (drop_while p s) ≤ length s
length-drop_while-le p [] = omega arith
length-drop_while-le p (c ∷ s) = ground (arith, length-drop_while-le p s)

length-tail-le : (s : Bytes) → length (tail s) ≤ length s
length-tail-le [] = omega arith
length-tail-le (c ∷ s) = omega arith

output_spec-le : (s : Bytes) → length (output_spec s).1 ≤ length s
output_spec-le [] = omega arith
output_spec-le (d ∷ r) = ground arith

plain_spec-Shorter :
    (c : ℕ) (r : Bytes) → is_delimiter c ≡ false → Shorter (c ∷ r) (plain_spec (c ∷ r))
unfolding Shorter
plain_spec-Shorter c r h =
    rw h (inr (omega (arith, length-drop_while-le (λ c. not (is_delimiter c)) r)))

quoted_spec-Shorter : (q c : ℕ) (r : Bytes) → Shorter (c ∷ r) (quoted_spec q r)
unfolding Shorter
quoted_spec-Shorter q c r = inr (
    omega (
      arith,
      length-tail-le (drop_while (λ d. not (d == q)) r),
      length-drop_while-le (λ d. not (d == q)) r,
    ))

word_spec-Shorter : (c : ℕ) (r : Bytes) → isspace c ≡ false → Shorter (c ∷ r) (word_spec (c ∷ r))
unfolding word_spec
word_spec-Shorter c r sp =
    if-intro S (c == b'|') (λ _. one _)
      λ a.
        if-intro S (c == b'&') (λ _. one _)
          λ b.
            if-intro S (c == b'<') (λ _. one _)
              λ d.
                if-intro S (c == b'>') (λ _. out)
                  λ e.
                    if-intro S (c == b'"' || c == b'\'') (λ _. quoted_spec-Shorter c c r)
                      (λ q. plain_spec-Shorter c r (unfold is_delimiter in ground arith))
  where
    S : Token × Bytes → Type 0
    S = Shorter (c ∷ r)

    one : (t : Token) → S (t, r)
    one t = unfold Shorter in inr (omega arith)

    out : S (output_spec r)
    out = unfold Shorter in inr (omega (arith, output_spec-le r))

drop_while-head :
    (p : ℕ → Bool) (s : Bytes)
    → (drop_while p s ≡ []) ⊎ ((c : ℕ) × (r : Bytes) × (drop_while p s ≡ c ∷ r) × (p c ≡ false))
drop_while-head p [] = inl refl
drop_while-head p (c ∷ s) = elim (Bool-cases (p c)) [
  | inl t ↦ rw t (drop_while-head p s)
  | inr f ↦ rw f (inr (c, s, refl, f))
]

next_spec-Shorter : (s : Bytes) → Shorter s (next_spec s)
unfolding Shorter next_spec
next_spec-Shorter s = elim (drop_while-head isspace s) [
  | inl e ↦ rw e (unfold word_spec in inl refl)
  | inr (c, r, e, f) ↦
      rw e (ground (arith, word_spec-Shorter c r f, length-drop_while-le isspace s, ap length e))
]

output_spec-IsText : (s : Bytes) → IsText s → IsText (output_spec s).1
output_spec-IsText [] h = tt
output_spec-IsText (d ∷ r) h =
    if-intro (λ (x : Token × Bytes). IsText x.1) (d == b'>') (λ _. h.1) (λ _. h)

word_spec-IsText : (s : Bytes) → IsText s → IsText (word_spec s).1
unfolding word_spec
word_spec-IsText [] h = tt
word_spec-IsText (c ∷ r) h =
    if-intro P (c == b'|') (λ _. h.1)
      λ _.
        if-intro P (c == b'&') (λ _. h.1)
          λ _.
            if-intro P (c == b'<') (λ _. h.1)
              λ _.
                if-intro P (c == b'>') (λ _. output_spec-IsText r h.1)
                  λ _.
                    if-intro P (c == b'"' || c == b'\'')
                      (λ _. tail-IsText _ (drop_while-IsText (λ d. not (d == c)) r h.1))
                      (λ _. drop_while-IsText (λ d. not (is_delimiter d)) (c ∷ r) h)
  where
    P : Token × Bytes → Type 0
    P x = IsText x.1

next_spec-IsText : (s : Bytes) → IsText s → IsText (next_spec s).1
unfolding next_spec
next_spec-IsText s h = word_spec-IsText _ (drop_while-IsText isspace s h)

collect-lex_spec :
    (n : ℕ) (l : Lexer)
    → IsValid l
    → IsText (remaining l)
    → collect n (λ _. enough) l ≡ lex_spec n (remaining l)
unfolding collect lex_spec
collect-lex_spec zero l v h = refl
collect-lex_spec (suc n) l v h =
    let m = lexer_next_token-Meets l v h in
    let rest =
      collect-lex_spec n (lexer_next_token enough l).1 m.valid
        (rw m.rest_is (next_spec-IsText (remaining l) h)) in
    rw (rest, m.token_is, m.rest_is)

-- Where no allocation fails, a line without NUL is read as its specification says, as far as 255
-- tokens go.
pub tokenize_line-lex_spec :
    (line : Bytes) → IsText line → tokenize_line (λ _. enough) line ≡ lex_spec max_tokens line
unfolding tokenize_line lexer_init
tokenize_line-lex_spec line h =
    collect-lex_spec max_tokens (lexer_init (some line))
      (record { length_is = refl; within = omega arith }) h

-- The last item of a list of tokens is the end of the line.
abbrev pub EndsInEnd : List Token → Type 0
EndsInEnd [] = ⊥
EndsInEnd (t ∷ []) = t.type ≡ end
EndsInEnd (t ∷ u ∷ ts) = EndsInEnd (u ∷ ts)

EndsInEnd-cons : (t : Token) (ts : List Token) → EndsInEnd ts → EndsInEnd (t ∷ ts)
EndsInEnd-cons t [] h = absurd h
EndsInEnd-cons t (u ∷ ts) h = h

is_end-eq : (t : TokenType) → is_end t ≡ true → t ≡ end
is_end-eq end h = refl
is_end-eq word h = cc
is_end-eq _ h = cc

lex_spec-EndsInEnd : (n : ℕ) (s : Bytes) → length s < n → EndsInEnd (lex_spec n s)
unfolding lex_spec
lex_spec-EndsInEnd zero s h = absurd (omega arith)
lex_spec-EndsInEnd (suc n) s h =
    let (t, r) = next_spec s in
    if-intro (λ ts. EndsInEnd (t ∷ ts)) (is_end t.type) (is_end-eq t.type)
      (λ more. EndsInEnd-cons t (lex_spec n r) (lex_spec-EndsInEnd n r (shorter more)))
  where
    shorter : is_end (next_spec s).0.type ≡ false → length (next_spec s).1 < n
    shorter more = unfold Shorter in ground (arith, next_spec-Shorter s)

-- Where no allocation fails, every line of fewer than 255 bytes, none of them NUL, is read to its
-- end: its last token is `TOKEN_END`.
pub tokenize_line-EndsInEnd :
    (line : Bytes)
    → IsText line
    → length line < max_tokens
    → EndsInEnd (tokenize_line (λ _. enough) line)
tokenize_line-EndsInEnd line h short =
    rw (tokenize_line-lex_spec line h) (lex_spec-EndsInEnd max_tokens line short)
