-- ===== src/Kernel/Console.antt =====
-- NanoBoot/kernel/uart.c: how a number is printed. The device itself is left out: what is printed is
-- a text.
use native.Mathlib.Nat.{pow-suc}
use shellforge.Prelude.{
  All, All-append, ap, Bool-cases, ◌⊎◌, inl, inr, ◌≢◌, ◌≤◌, ℕ, zero, suc, ◌+◌, ◌-◌, ◌*◌, ◌/◌, ◌%◌,
  ◌^◌, ◌<◌, ◌≡◌, refl, ◌∙◌, [], ◌∷◌, ◌++◌, ◌==◌, if◌then◌else◌, if-intro, arith, Bytes, codes,
}

-- The digits in the buffer, the last one first, in as many rounds as the buffer has bytes.
unfoldable pub digits_of : ℕ → ℕ → Bytes
digits_of zero x = []
digits_of (suc n) zero = []
digits_of (suc n) (suc x) = (b'0' + suc x % 10) ∷ digits_of n (suc x / 10)

-- `while (i--) uart_putc(buf[i]);`
unfoldable pub backwards : Bytes → Bytes
backwards [] = []
backwards (c ∷ cs) = backwards cs ++ c ∷ []

unfoldable pub uart_print_u64 : ℕ → Bytes
uart_print_u64 x = if x == 0 then codes "0" else backwards (digits_of 32 x)

-- A decimal number, read from the left.
unfoldable pub read_decimal : ℕ → Bytes → ℕ
read_decimal n [] = n
read_decimal n (c ∷ cs) = read_decimal (n * 10 + (c - b'0')) cs

-- The same from the right.
abbrev pub value : Bytes → ℕ
value [] = 0
value (c ∷ cs) = (c - b'0') + 10 * value cs

read_decimal-append :
    (n c : ℕ) (cs : Bytes) → read_decimal n (cs ++ c ∷ []) ≡ read_decimal n cs * 10 + (c - b'0')
unfolding read_decimal
read_decimal-append n c [] = refl
read_decimal-append n c (d ∷ cs) = read_decimal-append (n * 10 + (d - b'0')) c cs

pub read_decimal-backwards : (cs : Bytes) → read_decimal 0 (backwards cs) ≡ value cs
unfolding backwards read_decimal
read_decimal-backwards [] = refl
read_decimal-backwards (c ∷ cs) =
    omega (arith, read_decimal-append 0 c (backwards cs), read_decimal-backwards cs)

pub value-digits_of : (n x : ℕ) → x < 10 ^ n → value (digits_of n x) ≡ x
unfolding digits_of
value-digits_of zero x h = omega arith
value-digits_of (suc n) zero h = refl
value-digits_of (suc n) (suc x) h =
    omega (arith, value-digits_of n (suc x / 10) (omega (arith, pow-suc 10 n)))

abbrev pub Digit : ℕ → Type 0
Digit c = (b'0' ≤ c) × (c ≤ b'9')

digits_of-Digit : (n x : ℕ) → All Digit (digits_of n x)
unfolding digits_of
digits_of-Digit zero x = tt
digits_of-Digit (suc n) zero = tt
digits_of-Digit (suc n) (suc x) = ((omega arith, omega arith), digits_of-Digit n (suc x / 10))

backwards-Digit : (cs : Bytes) → All Digit cs → All Digit (backwards cs)
unfolding backwards
backwards-Digit [] h = tt
backwards-Digit (c ∷ cs) h =
    All-append Digit (backwards cs) (c ∷ []) (backwards-Digit cs h.1) (h.0, tt)

-- The first byte is not a zero, and the last.
abbrev pub Starts : Bytes → Type 0
Starts t = (c : ℕ) × (rest : Bytes) × (t ≡ c ∷ rest) × (c ≢ b'0')

abbrev Ends : Bytes → Type 0
Ends [] = ⊥
Ends (c ∷ []) = c ≢ b'0'
Ends (c ∷ d ∷ cs) = Ends (d ∷ cs)

Ends-cons : (c : ℕ) (cs : Bytes) → Ends cs → Ends (c ∷ cs)
Ends-cons c [] h = absurd h
Ends-cons c (d ∷ cs) h = h

backwards-Starts : (cs : Bytes) → Ends cs → Starts (backwards cs)
unfolding backwards
backwards-Starts [] h = absurd h
backwards-Starts (c ∷ []) h = (c, [], refl, h)
backwards-Starts (c ∷ d ∷ cs) h =
    let (e, rest, same, ne) = backwards-Starts (d ∷ cs) h in
    (e, rest ++ c ∷ [], ap (λ t. t ++ c ∷ []) same, ne)

-- In a buffer with room for all digits the last digit is the leading one.
digits_of-Ends : (n x : ℕ) → x < 10 ^ n → 0 < x → Ends (digits_of n x)
unfolding digits_of
digits_of-Ends zero x h some_left = absurd (omega arith)
digits_of-Ends (suc n) zero h some_left = absurd (omega arith)
digits_of-Ends (suc n) (suc x) h some_left = elim (Bool-cases (suc x / 10 == 0)) [
  | inl e ↦ let last : suc x / 10 ≡ 0 = ground arith in rw last (single n (λ z. omega arith))
  | inr f ↦
      Ends-cons (b'0' + suc x % 10) (digits_of n (suc x / 10))
        (digits_of-Ends n (suc x / 10) (omega (arith, pow-suc 10 n)) (ground arith))
]
  where
    single : (n : ℕ) {c : ℕ} → c ≢ b'0' → Ends (c ∷ digits_of n 0)
    single zero ne = ne
    single (suc n) ne = ne

-- A text is the decimal notation of a number.
pub record IsDecimal (x : ℕ) (t : Bytes) : Type 0 where
  pub digits : All Digit t
  pub number : read_decimal 0 t ≡ x
  pub leading : Starts t ⊎ (t ≡ codes "0")

-- A number of 64 bits is printed in decimal: every byte is one of the digits from 0 to 9, no zero
-- stands in front but for the number 0, and read from the left the digits make the number.
pub uart_print_u64-IsDecimal : (x : ℕ) → x < 2 ^ 64 → IsDecimal x (uart_print_u64 x)
unfolding uart_print_u64
uart_print_u64-IsDecimal x h =
    if-intro (IsDecimal x) (x == 0)
      (λ e. record {
        digits = ((omega arith, omega arith), tt);
        number = unfold read_decimal in ground arith;
        leading = inr refl;
      })
      (λ f. record {
        digits = backwards-Digit _ (digits_of-Digit 32 x);
        number = read_decimal-backwards (digits_of 32 x) ∙ value-digits_of 32 x (omega arith);
        leading = inl (backwards-Starts _ (digits_of-Ends 32 x (omega arith) (ground arith)));
      })
