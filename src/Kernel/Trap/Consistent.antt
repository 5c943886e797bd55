-- ===== src/Kernel/Trap/Consistent.antt =====
-- The trap handlers of NanoBoot/kernel/trap.c, with the system calls of syscall.c: the process that
-- runs, and the frame that is returned to.
use shellforge.Prelude.{
  ℕ, zero, suc, ◌+◌, ◌-◌, ◌%◌, ◌^◌, ◌||◌, Option, none, some, option-intro, [], ◌∷◌, ◌==◌, ltb,
  if-intro, if◌then◌else◌, get_or, Bytes,
}
use shellforge.Kernel.Proc.{Trapframe, tf_clear, Kernel}
use shellforge.Kernel.Lifecycle.{Machine, with_trapframe, with_result}
use shellforge.Kernel.Running.{IsConsistent}
use shellforge.Kernel.Steps.{
  proc_sleep-IsConsistent, proc_exit-IsConsistent, proc_fork-IsConsistent, proc_wait-IsConsistent,
}
use shellforge.Kernel.History.{timer_interrupt-IsConsistent}
use shellforge.Kernel.Syscall.{
  Access, System, with_kernel, files, find_file, reg, pagetable, ramfs_ls, ramfs_cat, sys_sleep,
  sys_ps, sys_write, read_loop, sys_read, sys_cat, sys_fork, sys_wait, call, syscall_dispatch,
}
use shellforge.Kernel.Trap.{ecall_u, stimer, on_cause}

module _ {M : Type 0} where
  -- The system that a call goes on with, if it does.
  abbrev Goes : Option (ℕ × System M) → Type 0
  Goes none = Unit
  Goes (some (r, s)) = IsConsistent s.kernel

  abbrev pub GoesOn : Option (System M) → Type 0
  GoesOn none = Unit
  GoesOn (some s) = IsConsistent s.kernel

  -- The memory and the trap frames do not matter.
  pub other_memory :
      (k : Kernel M) (m : M) → IsConsistent k → IsConsistent (record k { memory = m })
  other_memory k m v = record {
    size = v.size;
    placed = v.placed;
    last = v.last;
    only = v.only;
    runs = v.runs;
  }

  other_frames :
      (k : Kernel M) (t : ℕ) (f : Trapframe → Trapframe)
      → IsConsistent k
      → IsConsistent (with_trapframe t f k)
  other_frames k t f v = record {
    size = v.size;
    placed = v.placed;
    last = v.last;
    only = v.only;
    runs = v.runs;
  }

  sys_sleep-Goes :
      (n : ℕ) (s : System M) → IsConsistent s.kernel → IsConsistent (sys_sleep n s).1.kernel
  unfolding sys_sleep
  sys_sleep-Goes n s v =
      let clamped = if ltb 1000000 n then 1000000 else n in
      if-intro (λ (r : ℕ × System M). IsConsistent r.1.kernel) (clamped == 0) (λ _. v)
        (λ _. proc_sleep-IsConsistent clamped s.kernel v)

  ramfs_cat-Goes :
      (name : Bytes) (s : System M)
      → IsConsistent s.kernel
      → IsConsistent (ramfs_cat name s).1.kernel
  unfolding ramfs_cat
  ramfs_cat-Goes name s v =
      option-intro (λ (r : ℕ × System M). IsConsistent r.1.kernel) (find_file files name) (λ _. v)
        (λ _ _. v)

module _ {M : Type 0} (access : Access M) where
  abbrev Reading : Option (ℕ × Bytes × Kernel M) → Type 0
  Reading none = Unit
  Reading (some (r, typed, k)) = IsConsistent k

  read_loop-Reading :
      (uva i left : ℕ) (typed : Bytes) (k : Kernel M)
      → IsConsistent k
      → Reading (read_loop access uva i left typed k)
  unfolding read_loop
  read_loop-Reading uva i zero typed k v = v
  read_loop-Reading uva i (suc left) [] k v = tt
  read_loop-Reading uva i (suc left) (c ∷ typed) k v =
      let (copied, m) = access.copyout k.memory (pagetable k) ((uva + i) % 2 ^ 64) (c ∷ []) in
      let v' = other_memory k m v in
      if-intro Reading copied
        (λ _.
          if-intro Reading (c == b'\n') (λ _. v')
            (λ _. read_loop-Reading uva (i + 1) left typed _ v'))
        (λ _. v')

  sys_read-Goes :
      (uva len : ℕ) (s : System M) → IsConsistent s.kernel → Goes (sys_read access uva len s)
  unfolding sys_read
  sys_read-Goes uva len s v =
      if-intro Goes (len == 0 || ltb 256 len) (λ _. v)
        (λ _.
          read (read_loop access uva 0 len s.input s.kernel)
            (read_loop-Reading uva 0 len s.input s.kernel v))
    where
      read :
          (r : Option (ℕ × Bytes × Kernel M))
          → Reading r
          → Goes (elim r as (λ _. Option (ℕ × System M)) [
            | none ↦ none
            | some (r, typed, k) ↦ some (r, record s { kernel = k; input = typed })
          ])
      read none h = tt
      read (some (r, typed, k)) h = h

module _ {M : Type 0} (machine : Machine M) (access : Access M) where
  call-Goes :
      (n : ℕ) (tf : Trapframe) (s : System M)
      → IsConsistent s.kernel
      → Goes (call machine access n tf s)
  unfolding call sys_write sys_cat sys_fork sys_wait sys_ps ramfs_ls
  call-Goes n tf s v =
      if-intro Goes (n == 0) (λ _. sys_read-Goes access (reg tf 10) (reg tf 11) s v)
        (λ _.
          if-intro Goes (n == 1)
            (λ _.
              option-intro (λ (r : ℕ × System M). IsConsistent r.1.kernel)
                (access.copyin s.kernel.memory (pagetable s.kernel) (reg tf 10)
                  (if ltb 1024 (reg tf 11) then 1024 else reg tf 11))
                (λ _. v) (λ _ _. v))
            (λ _.
              if-intro Goes (n == 2) (λ _. proc_fork-IsConsistent machine tf s.kernel v)
                (λ _.
                  if-intro Goes (n == 3)
                    (λ _. proc_exit-IsConsistent machine (reg tf 10 % 2 ^ 32) s.kernel v)
                    (λ _.
                      if-intro Goes (n == 4) (λ _. proc_wait-IsConsistent machine s.kernel v)
                        (λ _.
                          if-intro Goes (n == 5) (λ _. v)
                            (λ _.
                              if-intro Goes (n == 6) (λ _. sys_sleep-Goes (reg tf 10) s v)
                                (λ _.
                                  if-intro Goes (n == 7) (λ _. v)
                                    (λ _.
                                      if-intro Goes (n == 8) (λ _. v)
                                        (λ _.
                                          if-intro Goes (n == 9)
                                            (λ _.
                                              option-intro
                                                (λ (r : ℕ × System M). IsConsistent r.1.kernel)
                                                (access.copyinstr s.kernel.memory
                                                  (pagetable s.kernel) (reg tf 10) 32)
                                                (λ _. v) (λ name _. ramfs_cat-Goes name s v))
                                            (λ _. v))))))))))

  syscall_dispatch-GoesOn :
      (t : ℕ) (s : System M) → IsConsistent s.kernel → GoesOn (syscall_dispatch machine access t s)
  unfolding syscall_dispatch
  syscall_dispatch-GoesOn t s v =
      let tf = get_or s.kernel.trapframes t tf_clear in
      answered (call machine access (reg tf 17) tf s) (call-Goes (reg tf 17) tf s v)
    where
      answered :
          (r : Option (ℕ × System M))
          → Goes r
          → GoesOn (elim r as (λ _. Option (System M)) [
            | none ↦ none
            | some (ret, s') ↦ some (with_kernel (with_trapframe t (with_result ret) s'.kernel) s')
          ])
      answered none h = tt
      answered (some (ret, s')) h = other_frames s'.kernel t (with_result ret) h

  pub on_cause-GoesOn :
      (t cause : ℕ) (s : System M)
      → IsConsistent s.kernel
      → GoesOn (on_cause machine access t cause s)
  unfolding on_cause
  on_cause-GoesOn t cause s v =
      if-intro GoesOn (cause == ecall_u)
        (λ _.
          syscall_dispatch-GoesOn t _
            (other_frames s.kernel t (λ tf. record tf { sepc = (tf.sepc + 4) % 2 ^ 64 }) v))
        (λ _.
          if-intro GoesOn (cause == stimer) (λ _. timer_interrupt-IsConsistent s.kernel v)
            (λ _. proc_exit-IsConsistent machine (2 ^ 32 - 1) s.kernel v))
