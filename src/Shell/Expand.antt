-- ===== src/Shell/Expand.antt =====
-- include/expand.h and src/expand.c: `$NAME` and `${NAME}` in the words of a pipeline. The result
-- is built in a buffer that grows; the environment is a parameter, since the program only asks it.
pub mod Safety
pub mod Text
pub mod Loop
pub mod Refine
pub mod Commands
use shellforge.Prelude.{
  ℕ, zero, suc, ◌+◌, ◌-◌, ◌*◌, Bool, not, ◌&&◌, ◌||◌, Option, none, some, List, [], ◌∷◌, ◌++◌, leb,
  ltb, ◌==◌, if◌then◌else◌, set, length, replicate, take_while, drop_while, Bytes,
}
use shellforge.Shell.Result.{Result, ok, failed, fault, ◌>>=◌}

-- The memory of the result: `none` is a byte that was never written. `capacity` is the size that
-- the code keeps, the length of `cells` the size that was allocated.
pub record Buffer : Type 0 where
  pub cells : List (Option ℕ)
  pub length : ℕ
  pub capacity : ℕ

-- `result[i] = c`
unfoldable pub store : Buffer → ℕ → ℕ → Result Buffer
store b i c =
    if ltb i (length b.cells) then ok (record b { cells = set b.cells i (some c) }) else fault

-- `realloc`: the old bytes, and new ones that are not written yet.
abbrev pub grown : Buffer → ℕ → Buffer
grown b n = record b { cells = b.cells ++ replicate (n - length b.cells) none; capacity = n }

-- `grow n` is what a `realloc` to `n` bytes answers.
unfoldable pub reserve : (ℕ → Bool) → Buffer → Result Buffer
reserve grow b =
    if leb b.capacity (b.length + 1)
    then if grow (b.capacity * 2) then ok (grown b (b.capacity * 2)) else failed
    else ok b

unfoldable pub append_char : (ℕ → Bool) → Buffer → ℕ → Result Buffer
append_char grow b c = do
  b₁ ← reserve grow b
  b₂ ← store b₁ b₁.length c
  let b₃ = record b₂ { length = b₂.length + 1 }
  store b₃ b₃.length 0

-- `while (*text != '\0')`; the text is a C string, so it ends before a NUL.
unfoldable pub append_text : (ℕ → Bool) → Buffer → Bytes → Result Buffer
append_text grow b [] = ok b
append_text grow b (c ∷ cs) = append_char grow b c >>= λ b'. append_text grow b' cs

-- `NULL` appends nothing.
unfoldable pub append_value : (ℕ → Bool) → Buffer → Option Bytes → Result Buffer
append_value grow b none = ok b
append_value grow b (some v) = append_text grow b v

-- `isalpha` and `isalnum` of the C library, in its default locale.
unfoldable pub isalpha : ℕ → Bool
isalpha c = (leb b'A' c && leb c b'Z') || (leb b'a' c && leb c b'z')

unfoldable pub isalnum : ℕ → Bool
isalnum c = isalpha c || (leb b'0' c && leb c b'9')

abbrev pub starts_name : ℕ → Bool
starts_name c = isalpha c || c == b'_'

abbrev pub in_name : ℕ → Bool
in_name c = isalnum c || c == b'_'

abbrev pub in_braces : ℕ → Bool
in_braces c = not (c == b'}')

-- What the allocations of a call answer: the first buffer, the copy of the name at a place of the
-- input, and the growth to a size.
pub record Memory : Type 0 where
  pub first : Bool
  pub name_at : ℕ → Bool
  pub grow : ℕ → Bool

-- The value of the name is appended; the name is copied for `getenv` first.
unfoldable pub append_variable :
    Memory → (Bytes → Option Bytes) → ℕ → Buffer → Bytes → Result Buffer
append_variable m getenv i b name =
    if m.name_at i then append_value m.grow b (getenv name) else failed

-- Behind a `$`: the bytes that belong to a variable, and its name; `none` if there is none. The
-- test for a closing brace comes first, as in the source.
unfoldable pub closed : Bytes → Option (ℕ × Bytes)
closed r = elim (drop_while in_braces r) [
  | [] ↦ none
  | _ ∷ _ ↦ some (length (take_while in_braces r) + 2, take_while in_braces r)
]

unfoldable pub variable_at : Bytes → Option (ℕ × Bytes)
variable_at [] = none
variable_at (c ∷ r) =
    if c == b'{'
    then closed r
    else if starts_name c
    then some (length (take_while in_name (c ∷ r)), take_while in_name (c ∷ r))
    else none

-- One round at byte `c` of place `i`, with the rest of the input: the buffer, and how many bytes
-- of the rest the round has taken (`i = j`, or `i = j - 1`).
unfoldable pub expand_round :
    Memory → (Bytes → Option Bytes) → ℕ → Buffer → ℕ → Bytes → Result (ℕ × Buffer)
expand_round m getenv i b c rest =
    if not (c == b'$')
    then (append_char m.grow b c >>= λ b'. ok (0, b'))
    else elim (variable_at rest) [
      | none ↦ append_char m.grow b b'$' >>= λ b'. ok (0, b')
      | some v ↦ append_variable m getenv i b v.1 >>= λ b'. ok (v.0, b')
    ]

-- The loop over the input from place `i` on; `skip` bytes have been taken already.
unfoldable pub expand_loop :
    Memory → (Bytes → Option Bytes) → ℕ → ℕ → Buffer → Bytes → Result Buffer
expand_loop m getenv i skip b [] = ok b
expand_loop m getenv i (suc skip) b (c ∷ rest) = expand_loop m getenv (i + 1) skip b rest
expand_loop m getenv i zero b (c ∷ rest) =
    expand_round m getenv i b c rest >>= λ r. expand_loop m getenv (i + 1) r.0 r.1 rest

abbrev pub start_capacity : ℕ
start_capacity = 64

-- The bytes of a buffer up to the first NUL, which is how its text is read.
unfoldable pub text_of : List (Option ℕ) → Bytes
text_of [] = []
text_of (none ∷ cs) = []
text_of (some c ∷ cs) = let rest = c ∷ text_of cs in if c == 0 then [] else rest

unfoldable pub expand_string : Memory → (Bytes → Option Bytes) → Option Bytes → Result Bytes
expand_string m getenv none = failed
expand_string m getenv (some s) =
    if m.first
    then (store
          (record { cells = replicate start_capacity none; length = 0; capacity = start_capacity })
          0 0
        >>= λ b. expand_loop m getenv 0 0 b s >>= λ b'. ok (text_of b'.cells))
    else failed
