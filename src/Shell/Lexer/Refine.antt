-- ===== src/Shell/Lexer/Refine.antt =====
-- `lexer_next_token` of src/lexer.c refines its specification.
use shellforge.Prelude.{
  ℕ, ◌≤◌, ◌≡◌, refl, sym, ap, ◌∙◌, ◌≢◌, Bool, true, false, not, ◌||◌, some, [], ◌∷◌, arith, ◌==◌,
  if◌then◌else◌, Bool-cases, take_while, drop_while, Bytes, codes, inl, inr, All, if-relate, ◌⊎◌,
}
use shellforge.Shell.Token.{
  TokenType, word, pipe, redirect_in, redirect_out, redirect_append, ampersand, end, Token,
  create_token,
}
use shellforge.Shell.Lexer.{
  Lexer, Alloc, isspace, is_delimiter, scan_all, lexer_peek, lexer_advance, quoted_word, plain_word,
  output_operator, token_at, lexer_next_token, lexer_skip_whitespace,
}
use shellforge.Shell.Lexer.Scan.{
  IsValid, remaining, scan_all-IsValid, remaining-scan_all, input-scan_all, copied-scan_all,
  scan_all-progress, head, tail, lexer_peek-head, lexer_advance-move, remaining-next, next-IsValid,
}
use shellforge.Shell.Lexer.Words.{token, output_spec, quoted_spec, plain_spec, word_spec, next_spec}

-- No allocation fails.
abbrev pub enough : Alloc
enough = record { malloc_ok = true; strdup_ok = true }

-- A C string has no NUL before its end.
abbrev pub IsText : Bytes → Type 0
IsText = All (λ c. c ≢ 0)

-- A call's result, seen as a token and the text that is left.
pub record Meets (l : Lexer) (r : Token × Lexer) (spec : Token × Bytes) : Type 0 where
  pub token_is : r.0 ≡ spec.0
  pub rest_is : remaining r.1 ≡ spec.1
  pub valid : IsValid r.1
  pub input_is : r.1.input ≡ l.input
  pub forward : l.pos ≤ r.1.pos

pub tail-IsText : (s : Bytes) → IsText s → IsText (tail s)
tail-IsText [] h = tt
tail-IsText (c ∷ s) h = h.1

pub drop_while-IsText : (p : ℕ → Bool) (s : Bytes) → IsText s → IsText (drop_while p s)
drop_while-IsText p [] h = tt
drop_while-IsText p (c ∷ s) h = ground (arith, drop_while-IsText p s h.1)

-- One step forward drops the byte at the lexer's place; at the end it does nothing.
record Steps (l l' : Lexer) (s : Bytes) : Type 0 where
  pub left : remaining l' ≡ s
  pub valid : IsValid l'
  pub input_is : l'.input ≡ l.input
  pub forward : l.pos ≤ l'.pos

Steps-refl : (l : Lexer) (s : Bytes) → IsValid l → remaining l ≡ s → Steps l l s
Steps-refl l s v e = record { left = e; valid = v; input_is = refl; forward = omega arith }

Steps-trans : {k l m : Lexer} {s t : Bytes} → Steps k l s → Steps l m t → Steps k m t
Steps-trans a b = record {
  left = b.left;
  valid = b.valid;
  input_is = b.input_is ∙ a.input_is;
  forward = omega arith;
}

lexer_advance-Steps :
    (l : Lexer) (s : Bytes)
    → IsValid l
    → remaining l ≡ s
    → IsText s
    → Steps l (lexer_advance l) (tail s)
lexer_advance-Steps l [] v e h =
    let z : lexer_advance l ≡ l = unfold lexer_advance in ground (arith, lexer_peek-head l v) in
    rw z (record { left = e; valid = v; input_is = refl; forward = omega arith })
lexer_advance-Steps l (c ∷ r) v e h = rw (lexer_advance-move l v e h.0) (record {
  left = remaining-next l v e;
  valid = next-IsValid l v e;
  input_is = refl;
  forward = omega arith;
})

scan_all-Steps :
    (test : ℕ → Bool) (l : Lexer) (s : Bytes)
    → IsValid l
    → remaining l ≡ s
    → Steps l (scan_all test l) (drop_while test s)
scan_all-Steps test l s v e = record {
  left = remaining-scan_all test l v ∙ ap (drop_while test) e;
  valid = scan_all-IsValid test l v;
  input_is = input-scan_all test l v;
  forward = scan_all-progress test l v;
}

operator-Meets :
    (l l' : Lexer) {s : Bytes} (t : TokenType) (text : Bytes)
    → Steps l l' s
    → Meets l (create_token true t (some text), l') (token t text, s)
unfolding create_token
operator-Meets l l' t text st = record {
  token_is = refl;
  rest_is = st.left;
  valid = st.valid;
  input_is = st.input_is;
  forward = st.forward;
}

Meets-after :
    {l l' : Lexer} {s : Bytes} {r : Token × Lexer} {spec : Token × Bytes}
    → Steps l l' s
    → Meets l' r spec
    → Meets l r spec
Meets-after st m = record {
  token_is = m.token_is;
  rest_is = m.rest_is;
  valid = m.valid;
  input_is = m.input_is ∙ st.input_is;
  forward = omega arith;
}

output_operator-Meets :
    (l : Lexer) (s : Bytes)
    → IsValid l
    → remaining l ≡ s
    → IsText s
    → Meets l (output_operator enough l) (output_spec s)
unfolding output_operator
output_operator-Meets l [] v e h =
    let p : lexer_peek l ≡ 0 = lexer_peek-head l v ∙ ap head e in
    rw (p, output_operator) (operator-Meets l l redirect_out (codes ">") (Steps-refl l [] v e))
output_operator-Meets l (d ∷ r) v e h =
    let p : lexer_peek l ≡ d = lexer_peek-head l v ∙ ap head e in
    rw (p, output_operator)
      (if-relate (Meets l) (d == b'>')
        (λ _.
          operator-Meets l (lexer_advance l) redirect_append (codes ">>")
            (lexer_advance-Steps l (d ∷ r) v e h))
        (λ _. operator-Meets l l redirect_out (codes ">") (Steps-refl l (d ∷ r) v e)))

-- A quoted text ends at its quote, or at the end of the line.
drop_while-stops :
    (q : ℕ) (r : Bytes) → let s = drop_while (λ c. not (c == q)) r in (s ≡ []) ⊎ (head s ≡ q)
drop_while-stops q [] = inl refl
drop_while-stops q (c ∷ r) = ground (arith, drop_while-stops q r)

closing-Steps :
    (l : Lexer) (q : ℕ) (s : Bytes)
    → IsValid l
    → remaining l ≡ s
    → IsText s
    → q ≢ 0
    → (s ≡ []) ⊎ (head s ≡ q)
    → Steps l (if lexer_peek l == q then lexer_advance l else l) (tail s)
closing-Steps l q s v e h z stop = elim (Bool-cases (lexer_peek l == q)) [
  | inl t ↦ rw t (lexer_advance-Steps l s v e h)
  | inr f ↦
      let p : lexer_peek l ≡ head s = lexer_peek-head l v ∙ ap head e in
      let none_left : s ≡ [] = ground arith in
      rw f (Steps-refl l (tail s) v (e ∙ none_left ∙ ap tail (sym none_left)))
]

quoted_word-Meets :
    (l : Lexer) (c : ℕ) (r : Bytes)
    → IsValid l
    → remaining l ≡ c ∷ r
    → IsText (c ∷ r)
    → Meets l (quoted_word enough c l) (quoted_spec c r)
unfolding quoted_word create_token
quoted_word-Meets l c r v e h =
    let test = λ (d : ℕ). not (d == c) in
    let st = lexer_advance-Steps l (c ∷ r) v e h in
    let inner = scan_all-Steps test (lexer_advance l) r st.valid st.left in
    let close =
      closing-Steps (scan_all test (lexer_advance l)) c (drop_while test r) inner.valid inner.left
        (drop_while-IsText test r h.1) h.0 (drop_while-stops c r) in
    let all = Steps-trans st (Steps-trans inner close) in
    record {
      token_is =
          ap (create_token true word) (copied-scan_all test (lexer_advance l) st.valid)
          ∙ ap (λ x. token word (take_while test x)) st.left;
      rest_is = all.left;
      valid = all.valid;
      input_is = all.input_is;
      forward = all.forward;
    }

plain_word-Meets :
    (l : Lexer) (s : Bytes)
    → IsValid l
    → remaining l ≡ s
    → Meets l (plain_word enough l) (plain_spec s)
unfolding plain_word create_token
plain_word-Meets l s v e =
    let st = scan_all-Steps (λ c. not (is_delimiter c)) l s v e in
    record {
      token_is =
          ap (λ o. create_token true word o) (copied-scan_all (λ c. not (is_delimiter c)) l v)
          ∙ ap (λ x. token word (take_while (λ c. not (is_delimiter c)) x)) e;
      rest_is = st.left;
      valid = st.valid;
      input_is = st.input_is;
      forward = st.forward;
    }

token_at-Meets :
    (l : Lexer) (s : Bytes)
    → IsValid l
    → remaining l ≡ s
    → IsText s
    → Meets l (token_at enough (head s) l) (word_spec s)
unfolding token_at word_spec
token_at-Meets l [] v e h = operator-Meets l l end (codes "END") (Steps-refl l [] v e)
token_at-Meets l (c ∷ r) v e h =
    let st = lexer_advance-Steps l (c ∷ r) v e h in
    let nul : (c == 0) ≡ false = ground (arith, h.0) in
    rw nul (
      if-relate (Meets l) (c == b'|') (λ _. operator-Meets l _ pipe (codes "|") st)
        λ _.
          if-relate (Meets l) (c == b'&') (λ _. operator-Meets l _ ampersand (codes "&") st)
            λ _.
              if-relate (Meets l) (c == b'<') (λ _. operator-Meets l _ redirect_in (codes "<") st)
                λ _.
                  if-relate (Meets l) (c == b'>')
                    (λ _.
                      Meets-after st
                        (output_operator-Meets (lexer_advance l) r st.valid st.left h.1))
                    λ _.
                      if-relate (Meets l) (c == b'"' || c == b'\'')
                        (λ _. quoted_word-Meets l c r v e h) (λ _. plain_word-Meets l (c ∷ r) v e))

-- Where no allocation fails, the token of `lexer_next_token` and what is left behind it are those
-- of the specification, at any place of a text without NUL; the lexer stays in its text and does
-- not go back.
pub lexer_next_token-Meets :
    (l : Lexer)
    → IsValid l
    → IsText (remaining l)
    → Meets l (lexer_next_token enough l) (next_spec (remaining l))
unfolding lexer_next_token lexer_skip_whitespace next_spec
lexer_next_token-Meets l v h =
    let st = scan_all-Steps isspace l (remaining l) v refl in
    let p = lexer_peek-head (scan_all isspace l) st.valid ∙ ap head st.left in
    rw p (
      Meets-after st
        (token_at-Meets (scan_all isspace l) _ st.valid st.left (drop_while-IsText isspace _ h)))
