-- ===== src/Shell/Result.antt =====
-- What a call of the shell's code ends with, and the C strings that it builds in buffers.
use shellforge.Prelude.{ℕ, ◌+◌, ◌++◌, leb, if◌then◌else◌, length, Bytes}

-- `failed` is -1 or NULL, after a failed allocation. `fault` is an access outside of a buffer.
pub data Result {ℓ} (A : Type ℓ) : Type ℓ where
  ok : A → Result A
  failed fault : Result A

infixl 5 ◌>>=◌
abbrev pub ◌>>=◌ {ℓ κ} : {A : Type ℓ} {B : Type κ} → Result A → (A → Result B) → Result B
ok a >>= f = f a
failed >>= f = failed
fault >>= f = fault

-- `strcat(text, s)` in a buffer of `size` bytes: both texts and a NUL must fit.
unfoldable pub strcat : ℕ → Bytes → Bytes → Result Bytes
strcat size text s = if leb (length text + length s + 1) size then ok (text ++ s) else fault
