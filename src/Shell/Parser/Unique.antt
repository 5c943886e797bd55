-- ===== src/Shell/Parser/Unique.antt =====
-- The grammar of src/parser.c gives a token list one reading at most, so `parse_tokens` is complete.
use shellforge.Prelude.{
  ◌≡◌, refl, sym, ap, subst, ◌∙◌, inl, inr, some, List, [], ◌∷◌, ◌++◌, arith, Bytes, All,
}
use shellforge.Shell.Token.{
  TokenType, word, pipe, redirect_in, redirect_out, redirect_append, ampersand, end, Token,
}
use shellforge.Shell.Parser.{Pipeline, ok, parse_tokens}
use shellforge.Shell.Parser.Abstract.{
  Simple, empty, with_arg, redirect_of, Parses, over, finish, argument, redirect, connect, detach,
  encode, Shape, invert,
}
use shellforge.Shell.Parser.Rounds.{granted, HasValue}
use shellforge.Shell.Parser.Refine.{parse_tokens-Parses}

as_type :
    {done out : List Simple} {cur : Simple} {t : Token} {rest : List Token} (ty : TokenType)
    → t.type ≡ ty
    → Parses done cur (t ∷ rest) out
    → Shape ty done cur t rest out
as_type {done} {out} {cur} {t} {rest} ty e p = subst (λ y. Shape y done cur t rest out) e (invert p)

Parses-nil :
    {done out : List Simple} {cur : Simple} → Parses done cur [] out → out ≡ done ++ cur ∷ []
Parses-nil (over e) = e

redirect_same :
    (cur next : Simple) (t u : Token) (v : Bytes) (done out : List Simple) (rest : List Token)
    → redirect_of t.type cur v ≡ some next
    → u.value ≡ some v
    → Shape redirect_in done cur t (u ∷ rest) out
    → Parses done next rest out
redirect_same cur next t u v done out rest r h (u', rest', w, n, split, n_is, _, val, q) =
    let same_v : w ≡ v =
      let same_u : u ≡ u' = cc in ground (arith, h, val, ap (λ x. x.value) same_u) in
    let same_next : n ≡ next = ground (arith, r, n_is, ap (redirect_of t.type cur) same_v) in
    let same_rest : rest' ≡ rest = cc in
    subst (λ x. Parses done next x out) same_rest (subst (λ x. Parses done x rest' out) same_next q)

redirect_unique :
    (ty : TokenType) (cur next : Simple) (t u : Token) (v : Bytes) (done out : List Simple)
    (rest : List Token)
    → t.type ≡ ty
    → redirect_of t.type cur v ≡ some next
    → u.value ≡ some v
    → Shape ty done cur t (u ∷ rest) out
    → Parses done next rest out
redirect_unique redirect_in cur next t u v done out rest e r h s =
    redirect_same cur next t u v done out rest r h s
redirect_unique redirect_out cur next t u v done out rest e r h s =
    redirect_same cur next t u v done out rest r h s
redirect_unique redirect_append cur next t u v done out rest e r h s =
    redirect_same cur next t u v done out rest r h s
redirect_unique _ cur next t u v done out rest e r h s =
    let none_is = ap (λ y. redirect_of y cur v) e in cc

pub Parses-unique :
    {done out other : List Simple} {cur : Simple} {ts : List Token}
    → Parses done cur ts out
    → Parses done cur ts other
    → out ≡ other
Parses-unique (over e) q = e ∙ sym (Parses-nil q)
Parses-unique (finish e p) q = p ∙ sym (as_type end e q)
Parses-unique {done} {other} {cur} (argument {rest} v e h l p) q =
    let (w, h', _, p') = as_type word e q in
    let same : w ≡ v = ground (arith, h, h') in
    Parses-unique p (subst (λ x. Parses done (with_arg cur x) rest other) same p')
Parses-unique {done} {other} {cur} (redirect {t} {u} {rest} v next r w h p) q =
    Parses-unique p (redirect_unique t.type cur next t u v done other rest refl r h (invert q))
Parses-unique (connect e ne l p) q = Parses-unique p (as_type pipe e q).2
Parses-unique (detach e p) q = Parses-unique p (as_type ampersand e q)

-- Where every token has a value and every `strdup` succeeds, a token list that the grammar reads
-- is accepted, with the commands that the grammar gives.
pub parse_tokens_complete :
    (t : Token) (ts : List Token) (p : Pipeline) {out : List Simple}
    → All HasValue (t ∷ ts)
    → Parses [] empty (t ∷ ts) out
    → parse_tokens granted (some (t ∷ ts)) (some p) ≡ ok (encode out)
parse_tokens_complete t ts p {out} vals h = elim (parse_tokens-Parses t ts p vals) [
  | inl (other, h', e) ↦ rw e (ap (λ x. ok (encode x)) (Parses-unique h' h))
  | inr (_, _, no_parse) ↦ absurd (no_parse out h)
]
