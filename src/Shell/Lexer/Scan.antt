-- ===== src/Shell/Lexer/Scan.antt =====
-- The scanning loops of src/lexer.c against the text that is left to read.
use shellforge.Prelude.{
  ℕ, zero, suc, ◌+◌, ◌-◌, ◌≤◌, ◌<◌, ◌≡◌, sym, ap, ◌∙◌, ◌≢◌, Bool, true, some, [], ◌∷◌, arith, leb,
  Bool-cases, length, drop, take_while, drop_while, drop-get_or, drop-ge, drop-add, drop-take_while,
  take-take_while, length-take_while-le, length-drop, Bytes, inl, inr,
}
use shellforge.Shell.Lexer.{Lexer, move, byte_at, scan, scan_all, copied, lexer_peek, lexer_advance}

-- What is left to read.
abbrev pub remaining : Lexer → Bytes
remaining l = drop l.pos l.input

-- The place lies within the text, and the length is that of the text.
pub record IsValid (l : Lexer) : Type 0 where
  pub length_is : l.length ≡ length l.input
  pub within : l.pos ≤ l.length

remaining_cons :
    (l : Lexer)
    → IsValid l
    → l.pos < l.length
    → remaining l ≡ byte_at l l.pos ∷ remaining (move l (l.pos + 1))
remaining_cons l v h = drop-get_or l.input l.pos 0 (omega arith)

remaining_nil : (l : Lexer) → IsValid l → l.length ≤ l.pos → remaining l ≡ []
remaining_nil l v h = drop-ge l.input l.pos (omega arith)

scan-move :
    (test : ℕ → Bool) (n : ℕ) (l : Lexer)
    → IsValid l
    → l.pos + n ≡ l.length
    → scan test n l ≡ move l (l.pos + length (take_while test (remaining l)))
unfolding scan
scan-move test zero l v e = rw (remaining_nil l v (omega arith)) (ground arith)
scan-move test (suc n) l v e =
    let ih =
      scan-move test n (move l (l.pos + 1))
        (record { length_is = v.length_is; within = omega arith }) (omega arith) in
    rw (remaining_cons l v (omega arith)) (ground (arith, ih))

-- A loop stops behind the longest run of bytes that pass its test.
pub scan_all-move :
    (test : ℕ → Bool) (l : Lexer)
    → IsValid l
    → scan_all test l ≡ move l (l.pos + length (take_while test (remaining l)))
scan_all-move test l v = scan-move test (l.length - l.pos) l v (omega arith)

move-IsValid :
    (l : Lexer) (xs : Bytes)
    → IsValid l
    → length xs ≤ length (remaining l)
    → IsValid (move l (l.pos + length xs))
move-IsValid l xs v h = record {
  length_is = v.length_is;
  within = omega (arith, length-drop l.pos l.input);
}

module _ (test : ℕ → Bool) (l : Lexer) (v : IsValid l) where
  pub scan_all-IsValid : IsValid (scan_all test l)
  scan_all-IsValid =
      rw (scan_all-move test l v) (move-IsValid l _ v (length-take_while-le test (remaining l)))

  pub remaining-scan_all : remaining (scan_all test l) ≡ drop_while test (remaining l)
  remaining-scan_all =
      rw (scan_all-move test l v) (drop-add l.pos _ l.input ∙ drop-take_while test (remaining l))

  -- The text copied from where the loop began to where it stopped.
  pub copied-scan_all : copied true (scan_all test l) l.pos ≡ some (take_while test (remaining l))
  copied-scan_all =
      let n = length (take_while test (remaining l)) in
      let e : l.pos + n - l.pos ≡ n = omega arith in
      rw (scan_all-move test l v, e) (ap some (take-take_while test (remaining l)))

  pub input-scan_all : (scan_all test l).input ≡ l.input
  input-scan_all = ap (λ x. x.input) (scan_all-move test l v)

  pub scan_all-progress : l.pos ≤ (scan_all test l).pos
  scan_all-progress = rw (scan_all-move test l v) (omega arith)

-- The byte at the lexer's place, and the step behind it, where a byte that is not NUL is left.
abbrev pub head : Bytes → ℕ
head [] = 0
head (c ∷ r) = c

abbrev pub tail : Bytes → Bytes
tail [] = []
tail (c ∷ r) = r

pub lexer_peek-head : (l : Lexer) → IsValid l → lexer_peek l ≡ head (remaining l)
unfolding lexer_peek
lexer_peek-head l v = elim (Bool-cases (leb l.length l.pos)) [
  | inl e ↦ rw (remaining_nil l v (ground arith)) (ground arith)
  | inr e ↦ rw (remaining_cons l v (ground arith)) (ground arith)
]

module _ (l : Lexer) {c : ℕ} {r : Bytes} (v : IsValid l) (here : remaining l ≡ c ∷ r) where
  pub pos-lt-length : l.pos < l.length
  pos-lt-length = omega (arith, ap length here, length-drop l.pos l.input)

  pub remaining-next : remaining (move l (l.pos + 1)) ≡ r
  remaining-next = ap tail (sym (remaining_cons l v pos-lt-length) ∙ here)

  pub lexer_advance-move : c ≢ 0 → lexer_advance l ≡ move l (l.pos + 1)
  unfolding lexer_advance
  lexer_advance-move h = ground (arith, lexer_peek-head l v)

  pub next-IsValid : IsValid (move l (l.pos + 1))
  next-IsValid = record { length_is = v.length_is; within = omega (arith, pos-lt-length) }
