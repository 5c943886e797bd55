-- ===== src/Shell/Lexer/RoundTrip.antt =====
-- Lines written token by token are read back by the lexer of src/lexer.c.
use shellforge.Prelude.{
  ℕ, zero, suc, ◌≡◌, refl, sym, ap, ◌∙◌, ◌≢◌, Bool, true, false, not, List, [], ◌∷◌, ◌++◌, map,
  append_assoc, arith, ◌==◌, take, Bytes, codes, ◌⊎◌, All, take_while-run, drop_while-run, All-mono,
  All-append,
}
use shellforge.Shell.Token.{
  word, pipe, redirect_in, redirect_out, redirect_append, ampersand, end, Token,
}
use shellforge.Shell.Lexer.{isspace, is_delimiter, is_end, tokenize_line, max_tokens}
use shellforge.Shell.Lexer.Words.{token, quoted_spec, plain_spec, word_spec, next_spec, lex_spec}
use shellforge.Shell.Lexer.Refine.{enough, IsText}
use shellforge.Shell.Lexer.Lines.{tokenize_line-lex_spec}

-- What a user can write: a bare word, a word in quotes, or an operator.
pub data Item : Type 0 where
  bare : ℕ → Bytes → Item
  quoted : ℕ → Bytes → Item
  bar amp less greater append : Item

unfoldable pub item_text : Item → Bytes
item_text (bare c w) = c ∷ w
item_text (quoted q w) = q ∷ (w ++ q ∷ [])
item_text bar = codes "|"
item_text amp = codes "&"
item_text less = codes "<"
item_text greater = codes ">"
item_text append = codes ">>"

unfoldable pub item_token : Item → Token
item_token (bare c w) = token word (c ∷ w)
item_token (quoted q w) = token word w
item_token bar = token pipe (codes "|")
item_token amp = token ampersand (codes "&")
item_token less = token redirect_in (codes "<")
item_token greater = token redirect_out (codes ">")
item_token append = token redirect_append (codes ">>")

-- A bare word holds no delimiter, and a quoted one not its own quote.
abbrev pub IsWritable : Item → Type 0
IsWritable (bare c w) = All (λ d. (is_delimiter d ≡ false) × (d ≢ 0)) (c ∷ w)
IsWritable (quoted q w) = ((q ≡ b'"') ⊎ (q ≡ b'\'')) × All (λ d. (d ≢ q) × (d ≢ 0)) w
IsWritable _ = Unit

-- Each item, and a blank behind it.
unfoldable pub render : List Item → Bytes
render [] = []
render (i ∷ is) = item_text i ++ (b' ' ∷ render is)

next_spec_blank : (s : Bytes) → next_spec (b' ' ∷ s) ≡ next_spec s
unfolding next_spec isspace
next_spec_blank s = refl

word_spec_plain :
    (c : ℕ) (r : Bytes) → is_delimiter c ≡ false → word_spec (c ∷ r) ≡ plain_spec (c ∷ r)
unfolding word_spec is_delimiter
word_spec_plain c r h = ground arith

isspace_of_plain : (c : ℕ) → is_delimiter c ≡ false → isspace c ≡ false
unfolding is_delimiter
isspace_of_plain c h = ground arith

next_spec-bare :
    (c : ℕ) (w rest : Bytes)
    → IsWritable (bare c w)
    → next_spec ((c ∷ w) ++ (b' ' ∷ rest)) ≡ (token word (c ∷ w), b' ' ∷ rest)
unfolding next_spec
next_spec-bare c w rest h = rw (
  isspace_of_plain c h.0.0,
  word_spec_plain c (w ++ (b' ' ∷ rest)) h.0.0,
  take_while-run test (c ∷ w) b' ' rest run stop,
  drop_while-run test (c ∷ w) b' ' rest run stop,
)
  where
    test : ℕ → Bool
    test d = not (is_delimiter d)

    run : All (λ d. test d ≡ true) (c ∷ w)
    run = All-mono (λ d k. ap not k.0) (c ∷ w) h

    stop : test b' ' ≡ false
    stop = unfold is_delimiter isspace in refl

word_spec_quoted :
    (q : ℕ) (r : Bytes) → (q ≡ b'"') ⊎ (q ≡ b'\'') → word_spec (q ∷ r) ≡ quoted_spec q r
unfolding word_spec
word_spec_quoted q r h = ground arith

isspace_of_quote : (q : ℕ) → (q ≡ b'"') ⊎ (q ≡ b'\'') → isspace q ≡ false
unfolding isspace
isspace_of_quote q h = ground arith

next_spec-quoted :
    (q : ℕ) (w rest : Bytes)
    → IsWritable (quoted q w)
    → next_spec ((q ∷ (w ++ q ∷ [])) ++ (b' ' ∷ rest)) ≡ (token word w, b' ' ∷ rest)
unfolding next_spec
next_spec-quoted q w rest h = rw (
  isspace_of_quote q h.0,
  append_assoc w (q ∷ []) (b' ' ∷ rest),
  word_spec_quoted q (w ++ (q ∷ b' ' ∷ rest)) h.0,
  take_while-run test w q (b' ' ∷ rest) run stop,
  drop_while-run test w q (b' ' ∷ rest) run stop,
)
  where
    test : ℕ → Bool
    test d = not (d == q)

    run : All (λ d. test d ≡ true) w
    run = All-mono (λ d k. ground (arith, k.0)) w h.1

    stop : test q ≡ false
    stop = ground arith

next_spec-item :
    (i : Item) (rest : Bytes)
    → IsWritable i
    → next_spec (item_text i ++ (b' ' ∷ rest)) ≡ (item_token i, b' ' ∷ rest)
unfolding item_text item_token next_spec word_spec isspace
next_spec-item (bare c w) rest h = next_spec-bare c w rest h
next_spec-item (quoted q w) rest h = next_spec-quoted q w rest h
next_spec-item bar rest h = refl
next_spec-item amp rest h = refl
next_spec-item less rest h = refl
next_spec-item greater rest h = refl
next_spec-item append rest h = refl

not_end : (i : Item) → is_end (item_token i).type ≡ false
unfolding item_token
not_end bar = refl
not_end _ = refl

lex_spec_blank : (n : ℕ) (s : Bytes) → lex_spec n (b' ' ∷ s) ≡ lex_spec n s
unfolding lex_spec
lex_spec_blank zero s = refl
lex_spec_blank (suc n) s = rw (next_spec_blank s)

take_nil : (n : ℕ) → take {A = Token} n [] ≡ []
take_nil zero = refl
take_nil (suc n) = refl

lex_spec-nil : (n : ℕ) → lex_spec n [] ≡ take n (token end (codes "END") ∷ [])
unfolding lex_spec next_spec word_spec
lex_spec-nil zero = refl
lex_spec-nil (suc n) = ap (◌∷◌ (token end (codes "END"))) (sym (take_nil n))

lex_spec-cons :
    (n : ℕ) (i : Item) (rest : Bytes)
    → IsWritable i
    → lex_spec (suc n) (item_text i ++ (b' ' ∷ rest)) ≡ item_token i ∷ lex_spec n rest
unfolding lex_spec
lex_spec-cons n i rest h =
    rw (next_spec-item i rest h, not_end i) (ap (◌∷◌ (item_token i)) (lex_spec_blank n rest))

lex_spec-render :
    (n : ℕ) (is : List Item)
    → All IsWritable is
    → lex_spec n (render is) ≡ take n (map item_token is ++ token end (codes "END") ∷ [])
unfolding render
lex_spec-render n [] h = lex_spec-nil n
lex_spec-render zero (i ∷ is) h = unfold lex_spec in refl
lex_spec-render (suc n) (i ∷ is) h =
    lex_spec-cons n i (render is) h.0 ∙ ap (◌∷◌ (item_token i)) (lex_spec-render n is h.1)

item_text-IsText : (i : Item) → IsWritable i → IsText (item_text i)
unfolding item_text
item_text-IsText (bare c w) h = All-mono (λ d k. k.1) (c ∷ w) h
item_text-IsText (quoted q w) h =
    let z : q ≢ 0 = ground (arith, h.0) in
    (z, All-append (λ d. d ≢ 0) w (q ∷ []) (All-mono (λ d k. k.1) w h.1) (z, tt))
item_text-IsText _ h = omega arith

render-IsText : (is : List Item) → All IsWritable is → IsText (render is)
unfolding render
render-IsText [] h = tt
render-IsText (i ∷ is) h =
    All-append (λ d. d ≢ 0) (item_text i) (b' ' ∷ render is) (item_text-IsText i h.0)
      (omega arith, render-IsText is h.1)

-- Where no allocation fails, any sequence of words and operators, each with a space behind it, is
-- read back as its tokens and `TOKEN_END`, as far as the 255 tokens of the array go. A bare word
-- has no delimiter in it, and a quoted word not its own quote.
pub tokenize_line-render :
    (is : List Item)
    → All IsWritable is
    → tokenize_line (λ _. enough) (render is)
      ≡ take max_tokens (map item_token is ++ token end (codes "END") ∷ [])
tokenize_line-render is h =
    tokenize_line-lex_spec (render is) (render-IsText is h) ∙ lex_spec-render max_tokens is h
