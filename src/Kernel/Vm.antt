-- ===== src/Kernel/Vm.antt =====
-- NanoBoot/kernel/vm.c: the walk through the page tables of a process, and the copies between the
-- kernel and user memory. A page table is the address of its page in the pool; memory outside of the
-- pool is a function from addresses to bytes. The flags of an entry are its bits, by division.
pub mod Mapped
pub mod Copy
pub mod CopyOut
pub mod Strings
use shellforge.Prelude.{
  ℕ, zero, suc, ◌+◌, ◌-◌, ◌*◌, ◌/◌, ◌%◌, ◌^◌, min, Bool, true, false, ◌&&◌, Option, none, some,
  List, [], ◌∷◌, ◌++◌, ◌==◌, leb, ltb, if◌then◌else◌, get_or, length, take, drop, Bytes,
}

abbrev pub page_size : ℕ
page_size = 4096

-- The pool: its address, and its pages with their 512 entries. `elsewhere` is the rest of memory as
-- entries: place `i` behind an address.
pub record Pool : Type 0 where
  pub base : ℕ
  pub pages : List (List ℕ)
  pub elsewhere : ℕ → ℕ → ℕ

abbrev pub and_then {ℓ κ} : {A : Type ℓ} {B : Type κ} → Option A → (A → Option B) → Option B
and_then none f = none
and_then (some a) f = f a

-- `vpn(va, level)` for the levels 0, 1 and 2.
abbrev pub vpn_0 : ℕ → ℕ
vpn_0 va = va / 4096 % 512

abbrev pub vpn_1 : ℕ → ℕ
vpn_1 va = va / 2097152 % 512

abbrev pub vpn_2 : ℕ → ℕ
vpn_2 va = va / 1073741824 % 512

abbrev pub pte2pa : ℕ → ℕ
pte2pa pte = pte / 1024 * 4096 % 2 ^ 64

abbrev pub is_valid : ℕ → Bool
is_valid pte = pte % 2 == 1

abbrev pub is_user : ℕ → Bool
is_user pte = pte / 16 % 2 == 1

-- Entry `i` of the table at an address.
unfoldable pub entry : Pool → ℕ → ℕ → ℕ
entry pool p i =
    if leb pool.base p && ltb ((p - pool.base) / page_size) (length pool.pages)
    then get_or (get_or pool.pages ((p - pool.base) / page_size) []) i 0
    else pool.elsewhere p i

-- A valid entry of the table.
abbrev pub valid_entry : Pool → ℕ → ℕ → Option ℕ
valid_entry pool p i = let pte = entry pool p i in if is_valid pte then some pte else none

-- The entry of the page of an address; `none` is -1.
unfoldable pub walk_user_pte : Pool → ℕ → ℕ → Option ℕ
walk_user_pte pool pt va =
    if leb (2 ^ 39) va
    then none
    else and_then (valid_entry pool pt (vpn_2 va)) (λ top.
      and_then (valid_entry pool (pte2pa top) (vpn_1 va))
        (λ middle. valid_entry pool (pte2pa middle) (vpn_0 va)))

unfoldable pub translate_user : Pool → ℕ → ℕ → Option ℕ
translate_user pool pt va =
    and_then (walk_user_pte pool pt va)
      (λ pte. if is_user pte then some (pte2pa pte + va % page_size) else none)

-- The bytes that `memcpy` takes from an address on.
unfoldable pub read_bytes : (ℕ → ℕ) → ℕ → ℕ → Bytes
read_bytes mem pa zero = []
read_bytes mem pa (suc n) = mem pa ∷ read_bytes mem (pa + 1) n

-- How many bytes a round copies: to the end of the page at most.
abbrev pub in_page : ℕ → ℕ → ℕ
in_page va len = min len (page_size - va % page_size)

-- The loop of `copyin`, on fuel; `none` is -1.
unfoldable pub copyin_loop : Pool → (ℕ → ℕ) → ℕ → ℕ → ℕ → ℕ → Option Bytes
copyin_loop pool mem pt zero va len = if len == 0 then some [] else none
copyin_loop pool mem pt (suc fuel) va len =
    let n = in_page va len in
    let later = copyin_loop pool mem pt fuel ((va + n) % 2 ^ 64) (len - n) in
    if len == 0
    then some []
    else and_then (translate_user pool pt va)
        (λ pa. and_then later (λ rest. some (read_bytes mem pa n ++ rest)))

-- Each round copies a byte at least.
unfoldable pub copyin : Pool → (ℕ → ℕ) → ℕ → ℕ → ℕ → Option Bytes
copyin pool mem pt va len = copyin_loop pool mem pt len va len

-- What `copyinstr` ends with: 0 and the string in the buffer, -1, or a write outside of the buffer.
pub data Copied : Type 0 where
  copied : Bytes → Copied
  unread outside : Copied

-- The loop of `copyinstr` from byte `i` on: the string in front of the NUL, which is written over
-- the last byte of the buffer when there is none.
unfoldable pub copyinstr_loop : Pool → (ℕ → ℕ) → ℕ → ℕ → ℕ → Option Bytes
copyinstr_loop pool mem pt va zero = some []
copyinstr_loop pool mem pt va (suc left) =
    let later = copyinstr_loop pool mem pt ((va + 1) % 2 ^ 64) left in
    and_then (copyin pool mem pt va 1) (λ bytes.
      let c = get_or bytes 0 0 in
      if c == 0 then some [] else and_then later (λ rest. some (c ∷ rest)))

-- With room for `max` bytes. Where that is 0, `dst[max - 1]` is outside of the buffer.
unfoldable pub copyinstr : Pool → (ℕ → ℕ) → ℕ → ℕ → ℕ → Copied
copyinstr pool mem pt va max =
    if max == 0 then outside else elim (copyinstr_loop pool mem pt va max) [
      | none ↦ unread
      | some text ↦ copied (take (max - 1) text)
    ]

-- The bytes that `memcpy` puts from an address on.
abbrev pub write_byte : (ℕ → ℕ) → ℕ → ℕ → ℕ → ℕ
write_byte mem pa c a = if a == pa then c else mem a

unfoldable pub write_bytes : (ℕ → ℕ) → ℕ → Bytes → ℕ → ℕ
write_bytes mem pa [] = mem
write_bytes mem pa (c ∷ cs) = write_bytes (write_byte mem pa c) (pa + 1) cs

-- The loop of `copyout`, on fuel; the flag is `false` for -1.
unfoldable pub copyout_loop : Pool → ℕ → ℕ → ℕ → Bytes → (ℕ → ℕ) → Bool × (ℕ → ℕ)
copyout_loop pool pt zero va src mem = (length src == 0, mem)
copyout_loop pool pt (suc fuel) va src mem =
    let n = in_page va (length src) in
    if length src == 0 then (true, mem) else elim (translate_user pool pt va) [
      | none ↦ (false, mem)
      | some pa ↦
          copyout_loop pool pt fuel ((va + n) % 2 ^ 64) (drop n src)
            (write_bytes mem pa (take n src))
    ]

unfoldable pub copyout : Pool → ℕ → ℕ → Bytes → (ℕ → ℕ) → Bool × (ℕ → ℕ)
copyout pool pt va src mem = copyout_loop pool pt (length src) va src mem
