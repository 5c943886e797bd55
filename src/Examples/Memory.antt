-- ===== src/Examples/Memory.antt =====
-- The theorems about the user memory of NanoBoot at a small address space.
use shellforge.Prelude.{ℕ, ◌≡◌, refl, some, [], ◌∷◌, codes}
use shellforge.Kernel.Vm.{
  Pool, copyin, copyin_loop, translate_user, walk_user_pte, entry, read_bytes, copyout, copyinstr,
}
use shellforge.Kernel.Vm.Copy.{Reads, copyin-Reads}
use shellforge.Kernel.Vm.CopyOut.{Writes, copyout-Writes}
use shellforge.Kernel.Vm.Strings.{ReadsString, copyinstr-ReadsString}

-- Three tables, at the pages 10, 11 and 12; the user pages 1 and 2 are the pages 20 and 22.
abbrev pool : Pool
pool = record {
  base = 40960;
  pages = (11265 ∷ []) ∷ (12289 ∷ []) ∷ (0 ∷ 20497 ∷ 22545 ∷ []) ∷ [];
  elsewhere = λ p i. 0;
}

abbrev memory : ℕ → ℕ
memory a = a

-- Four bytes across the end of a page.
copied : copyin pool memory 40960 8190 4 ≡ some (86014 ∷ 86015 ∷ 90112 ∷ 90113 ∷ [])
unfolding copyin copyin_loop translate_user walk_user_pte entry read_bytes
copied = refl

copyin-Reads_example : Reads pool memory 40960 8190 4 (copyin pool memory 40960 8190 4)
copyin-Reads_example = copyin-Reads pool memory 40960 8190 4

copyout-Writes_example :
    Writes pool 40960 8190 (codes "abcd") memory (copyout pool 40960 8190 (codes "abcd") memory)
copyout-Writes_example = copyout-Writes pool 40960 8190 (codes "abcd") memory

copyinstr-ReadsString_example :
    ReadsString pool memory 40960 8190 32 (copyinstr pool memory 40960 8190 32)
copyinstr-ReadsString_example = copyinstr-ReadsString pool memory 40960 8190 32
