-- ===== src/Kernel/Syscall.antt =====
-- NanoBoot/kernel/syscall.c and ramfs.c with sysnum.h: the system calls, by the registers of the trap
-- frame. The console is what is still to be typed and what has been printed; vm.c is a parameter.
use shellforge.Prelude.{
  ℕ, zero, suc, ◌+◌, ◌-◌, ◌%◌, ◌^◌, Bool, true, false, not, ◌&&◌, ◌||◌, Option, none, some, List,
  [], ◌∷◌, ◌++◌, ◌==◌, ltb, if◌then◌else◌, get_or, take_while, Bytes, codes,
}
use shellforge.Kernel.Proc.{Trapframe, tf_clear, Kernel, proc, proc_sleep, proc_ps}
use shellforge.Kernel.Console.{uart_print_u64}
use shellforge.Kernel.Lifecycle.{
  Machine, with_trapframe, with_result, proc_fork, proc_exit, proc_wait,
}

-- What the system calls use of vm.c. `copyin` answers the bytes, `copyinstr` the string, NULL is -1.
pub record Access (M : Type 0) : Type 0 where
  pub copyin : M → Option ℕ → ℕ → ℕ → Option Bytes
  pub copyout : M → Option ℕ → ℕ → Bytes → Bool × M
  pub copyinstr : M → Option ℕ → ℕ → ℕ → Option Bytes
  pub vm_switch : M → Option ℕ → M

pub record System (M : Type 0) : Type 0 where
  pub kernel : Kernel M
  pub input : Bytes
  pub output : List Bytes

-- The result -1 in a register of 64 bits.
abbrev pub minus_one : ℕ
minus_one = 2 ^ 64 - 1

abbrev pub of_result : Option ℕ → ℕ
of_result none = minus_one
of_result (some n) = n

abbrev pub files : List (Bytes × Bytes)
files =
    (codes "README.txt", codes "NanoBoot RAMFS\nThis file is stored in kernel memory.\n")
    ∷ (codes "hello.txt", codes "Hello from the NanoBoot in-memory filesystem!\n")
    ∷ (codes "design.txt", codes "RISC-V + QEMU virt + Sv39 + traps + syscalls + round-robin.\n")
    ∷ []

abbrev pub same_name : Bytes → Bytes → Bool
same_name [] [] = true
same_name (a ∷ x) (b ∷ y) = a == b && same_name x y
same_name _ _ = false

-- The lines of `ramfs_ls`, and what `ramfs_cat` finds.
unfoldable pub ls_lines : List (Bytes × Bytes) → List Bytes
ls_lines [] = []
ls_lines ((name, text) ∷ more) = (codes "  " ++ (name ++ codes "\n")) ∷ ls_lines more

unfoldable pub find_file : List (Bytes × Bytes) → Bytes → Option Bytes
find_file [] name = none
find_file ((n, text) ∷ more) name =
    let later = find_file more name in if same_name name n then some text else later

-- The lines of `proc_ps` below its heading.
abbrev pub ps_lines : List (ℕ × Bytes) → List Bytes
ps_lines [] = []
ps_lines ((pid, name) ∷ more) =
    (uart_print_u64 pid ++ (codes "\t" ++ (name ++ codes "\n"))) ∷ ps_lines more

-- The text of `uart_puts`, which ends at the first NUL.
abbrev pub uart_puts : Bytes → Bytes
uart_puts text = take_while (λ c. not (c == 0)) text

abbrev pub reg : Trapframe → ℕ → ℕ
reg tf i = get_or tf.regs i 0

module _ {M : Type 0} where
  abbrev pub print : List Bytes → System M → System M
  print lines s = record s { output = s.output ++ lines }

  unfoldable pub ramfs_ls : System M → System M
  ramfs_ls s = print (codes "Files:\n" ∷ ls_lines files) s

  unfoldable pub ramfs_cat : Bytes → System M → ℕ × System M
  ramfs_cat name s = elim (find_file files name) [
    | some text ↦ (0, print (text ∷ []) s)
    | none ↦ (minus_one, print (codes "cat: file not found\n" ∷ []) s)
  ]

  abbrev pub with_kernel : Kernel M → System M → System M
  with_kernel k s = record s { kernel = k }

  abbrev pub pagetable : Kernel M → Option ℕ
  pagetable k = elim k.current [ none ↦ none | some i ↦ (proc k i).pagetable ]

  unfoldable pub sys_getpid : System M → ℕ
  sys_getpid s = elim s.kernel.current [ none ↦ minus_one | some i ↦ (proc s.kernel i).pid ]

  unfoldable pub sys_sleep : ℕ → System M → ℕ × System M
  sys_sleep ticks s =
      let n = if ltb 1000000 ticks then 1000000 else ticks in
      if n == 0 then (0, s) else (0, with_kernel (proc_sleep n s.kernel) s)

  unfoldable pub sys_ps : System M → ℕ × System M
  sys_ps s = (0, print (codes "PID\tSTATE\n" ∷ ps_lines (proc_ps s.kernel.table)) s)

module _ {M : Type 0} (access : Access M) where
  unfoldable pub sys_write : ℕ → ℕ → System M → ℕ × System M
  sys_write uva wanted s =
      let len = if ltb 1024 wanted then 1024 else wanted in
      elim (access.copyin s.kernel.memory (pagetable s.kernel) uva len) [
        | none ↦ (minus_one, s)
        | some buf ↦ (len, print (uart_puts buf ∷ []) s)
      ]

  -- The loop of `sys_read` with `left` bytes to go, over what is typed: byte `i` goes to `uva + i`.
  -- `none` waits for a console on which nothing more is typed.
  unfoldable pub read_loop : ℕ → ℕ → ℕ → Bytes → Kernel M → Option (ℕ × Bytes × Kernel M)
  read_loop uva i zero typed k = some (i, typed, k)
  read_loop uva i (suc left) [] k = none
  read_loop uva i (suc left) (c ∷ typed) k =
      let (copied, m) = access.copyout k.memory (pagetable k) ((uva + i) % 2 ^ 64) (c ∷ []) in
      let k' = record k { memory = m } in
      let later = read_loop uva (i + 1) left typed k' in
      if copied
      then if c == b'\n' then some (i + 1, typed, k') else later
      else some (minus_one, typed, k')

  unfoldable pub sys_read : ℕ → ℕ → System M → Option (ℕ × System M)
  sys_read uva len s =
      if len == 0 || ltb 256 len
      then some (minus_one, s)
      else elim (read_loop uva 0 len s.input s.kernel) [
        | none ↦ none
        | some (r, typed, k) ↦ some (r, record s { kernel = k; input = typed })
      ]

  unfoldable pub sys_cat : ℕ → System M → ℕ × System M
  sys_cat uva s = elim (access.copyinstr s.kernel.memory (pagetable s.kernel) uva 32) [
    | none ↦ (minus_one, s)
    | some name ↦ ramfs_cat name s
  ]

module _ {M : Type 0} (machine : Machine M) (access : Access M) where
  unfoldable pub sys_fork : Trapframe → System M → ℕ × System M
  sys_fork tf s =
      let (child, k) = proc_fork machine tf s.kernel in (of_result child, with_kernel k s)

  unfoldable pub sys_wait : System M → ℕ × System M
  sys_wait s = let (r, _, k) = proc_wait machine s.kernel in (of_result r, with_kernel k s)

  -- The switch on the number of the call, with its trap frame.
  unfoldable pub call : ℕ → Trapframe → System M → Option (ℕ × System M)
  call n tf s =
      if n == 0
      then sys_read access (reg tf 10) (reg tf 11) s
      else if n == 1
      then some (sys_write access (reg tf 10) (reg tf 11) s)
      else if n == 2
      then some (sys_fork tf s)
      else if n == 3
      then some (0, with_kernel (proc_exit machine (reg tf 10 % 2 ^ 32) s.kernel) s)
      else if n == 4
      then some (sys_wait s)
      else if n == 5
      then some (sys_getpid s, s)
      else if n == 6
      then some (sys_sleep (reg tf 10) s)
      else if n == 7
      then some (sys_ps s)
      else if n == 8
      then some (0, ramfs_ls s)
      else if n == 9
      then some (sys_cat access (reg tf 10) s)
      else some (minus_one, s)

  -- `tf` is the trap frame of slot `t`: `regs[17]` is the number of the call, and `regs[10]` gets
  -- its result.
  unfoldable pub syscall_dispatch : ℕ → System M → Option (System M)
  syscall_dispatch t s =
      let tf = get_or s.kernel.trapframes t tf_clear in
      elim (call (reg tf 17) tf s) [
        | none ↦ none
        | some (ret, s') ↦ some (with_kernel (with_trapframe t (with_result ret) s'.kernel) s')
      ]
