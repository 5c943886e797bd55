-- ===== src/User/Numbers.antt =====
-- `print_num` and `parse_num` of NanoBoot/user/sh.c, on numbers of 64 bits.
use shellforge.Prelude.{
  ℕ, zero, suc, ◌+◌, ◌-◌, ◌*◌, ◌/◌, ◌%◌, ◌^◌, ◌≤◌, ◌<◌, ◌≡◌, refl, ◌∙◌, Bool, true, ◌&&◌, [], ◌∷◌,
  ◌++◌, ◌==◌, ltb, leb, if◌then◌else◌, if-intro, All, All-append, arith, Bytes, codes,
}
use shellforge.Kernel.Console.{
  digits_of, backwards, read_decimal, read_decimal-backwards, value-digits_of,
}

abbrev pub is_digit : ℕ → Bool
is_digit c = leb b'0' c && leb c b'9'

unfoldable pub parse_from : ℕ → Bytes → ℕ
parse_from x [] = x
parse_from x (c ∷ cs) =
    let rest = parse_from ((x * 10 + (c - b'0')) % 2 ^ 64) cs in if is_digit c then rest else x

abbrev pub parse_num : Bytes → ℕ
parse_num s = parse_from 0 s

-- The digits where `x` is a negative number: `'0' + x % 10` is in front of the zero.
unfoldable pub digits_below : ℕ → ℕ → Bytes
digits_below zero x = []
digits_below (suc n) zero = []
digits_below (suc n) (suc x) = (b'0' - suc x % 10) ∷ digits_below n (suc x / 10)

-- `print_num` of the `long` of these 64 bits; the buffer has 31 digits. Of the least `long`, `-x` is
-- taken to be `x` again, which the C standard leaves open.
unfoldable pub print_num : ℕ → Bytes
print_num x =
    if x == 0
    then codes "0"
    else if ltb x (2 ^ 63)
    then backwards (digits_of 31 x)
    else if x == 2 ^ 63
    then codes "-" ++ backwards (digits_below 31 x)
    else codes "-" ++ backwards (digits_of 31 (2 ^ 64 - x))

-- Digits whose number fits are read to their end.
read_decimal-grows : (n : ℕ) (cs : Bytes) → n ≤ read_decimal n cs
unfolding read_decimal
read_decimal-grows n [] = omega arith
read_decimal-grows n (c ∷ cs) = omega (arith, read_decimal-grows (n * 10 + (c - b'0')) cs)

parse_from-read_decimal :
    (x : ℕ) (cs : Bytes)
    → All (λ c. is_digit c ≡ true) cs
    → read_decimal x cs < 2 ^ 64
    → parse_from x cs ≡ read_decimal x cs
unfolding parse_from read_decimal
parse_from-read_decimal x [] h small = refl
parse_from-read_decimal x (c ∷ cs) (d, h) small =
    let fits : (x * 10 + (c - b'0')) % 2 ^ 64 ≡ x * 10 + (c - b'0') =
      omega (arith, read_decimal-grows (x * 10 + (c - b'0')) cs) in
    rw (d, fits) (parse_from-read_decimal (x * 10 + (c - b'0')) cs h small)

digits_of-digits : (n x : ℕ) → All (λ c. is_digit c ≡ true) (digits_of n x)
unfolding digits_of
digits_of-digits zero x = tt
digits_of-digits (suc n) zero = tt
digits_of-digits (suc n) (suc x) = (ground arith, digits_of-digits n (suc x / 10))

backwards-digits :
    (cs : Bytes) → All (λ c. is_digit c ≡ true) cs → All (λ c. is_digit c ≡ true) (backwards cs)
unfolding backwards
backwards-digits [] h = tt
backwards-digits (c ∷ cs) h =
    All-append (λ d. is_digit d ≡ true) (backwards cs) (c ∷ []) (backwards-digits cs h.1) (h.0, tt)

-- A number that is not negative as a `long` is read back by `parse_num` from what `print_num`
-- prints.
pub parse_num-print_num : (x : ℕ) → x < 2 ^ 63 → parse_num (print_num x) ≡ x
unfolding print_num parse_from
parse_num-print_num x small =
    if-intro (λ t. parse_num t ≡ x) (x == 0) (λ e. ground arith)
      (λ _.
        if-intro (λ t. parse_num t ≡ x) (ltb x (2 ^ 63))
          (λ _.
            let read =
              read_decimal-backwards (digits_of 31 x) ∙ value-digits_of 31 x (omega arith) in
            parse_from-read_decimal 0 (backwards (digits_of 31 x))
              (backwards-digits _ (digits_of-digits 31 x)) (omega (arith, read))
            ∙ read)
          (λ no. absurd (ground arith)))
