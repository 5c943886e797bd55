-- ===== src/Kernel/Trap.antt =====
-- NanoBoot/kernel/trap.c: the handlers of traps from user mode and from the kernel's idle loop. The
-- busy waits for the time counter, and the vector register, are left out.
pub mod Consistent
pub mod Resume
pub mod Idle
use shellforge.Prelude.{
  ℕ, zero, suc, ◌+◌, ◌-◌, ◌%◌, ◌^◌, not, Option, none, some, [], ◌∷◌, ◌==◌, if◌then◌else◌, get_or,
  codes,
}
use shellforge.Kernel.Proc.{
  p_running, tf_clear, Kernel, proc, with_proc, proc_schedule, reschedule, timer_tick,
}
use shellforge.Kernel.Lifecycle.{Machine, with_trapframe, proc_exit}
use shellforge.Kernel.History.{is_running, timer_interrupt, idle_round}
use shellforge.Kernel.Console.{uart_print_u64}
use shellforge.Kernel.Syscall.{Access, System, with_kernel, print, syscall_dispatch}

abbrev pub ecall_u : ℕ
ecall_u = 8

abbrev pub stimer : ℕ
stimer = 2 ^ 63 + 5

module _ {M : Type 0} where
  -- `while (!current_proc)`, for at most so many rounds; `none` is a loop that goes on.
  unfoldable pub idle_loop : ℕ → Kernel M → Option (Kernel M)
  idle_loop zero k = elim k.current [ some i ↦ some k | none ↦ none ]
  idle_loop (suc n) k =
      let later = idle_loop n (idle_round k) in elim k.current [ some i ↦ some k | none ↦ later ]

  -- Where the current process does not run: the next one, if there is one.
  unfoldable pub settle : ℕ → Kernel M → Kernel M
  settle i k =
      if is_running (proc k i).state
      then k
      else (let (next, k') = proc_schedule k in
          elim next [ none ↦ k' | some j ↦ record k' { current = some j } ])

module _ {M : Type 0} (machine : Machine M) (access : Access M) where
  -- The trap frame to return to: that of a process, or `none` for that of the idle loop.
  unfoldable pub switch_to : Option ℕ → Kernel M → Option ℕ × Kernel M
  switch_to none k = (none, record k { memory = machine.switch_to_kernel k.memory })
  switch_to (some i) k =
      let k' = with_proc i (record (proc k i) { state = p_running }) k in
      (some (proc k i).tf, record k' { memory = access.vm_switch k.memory (proc k i).pagetable })

  -- The three branches on the cause, for the current process `i` with its frame in slot `t`.
  unfoldable pub on_cause : ℕ → ℕ → System M → Option (System M)
  on_cause t cause s =
      if cause == ecall_u
      then syscall_dispatch machine access t (
          with_kernel
            (with_trapframe t (λ tf. record tf { sepc = (tf.sepc + 4) % 2 ^ 64 }) s.kernel) s)
      else if cause == stimer
      then some (with_kernel (timer_interrupt s.kernel) s)
      else some (
          with_kernel (proc_exit machine (2 ^ 32 - 1) s.kernel) (
            print
              (codes "\nNanoBoot: unexpected user trap scause="
                ∷ uart_print_u64 cause
                ∷ codes " sepc="
                ∷ uart_print_u64 (get_or s.kernel.trapframes t tf_clear).sepc
                ∷ codes "\n"
                ∷ [])
              s))

  -- The idle loop and what stands behind it. `none` is a loop that goes on.
  unfoldable pub resume : ℕ → System M → Option (Option ℕ × System M)
  resume fuel s = elim (idle_loop fuel s.kernel) [
    | none ↦ none
    | some k ↦ elim k.current [
      | none ↦ none
      | some i ↦
          let k' = settle i k in
          let (frame, k'') = switch_to k'.current k' in some (frame, with_kernel k'' s)
    ]
  ]

  -- `t` is the slot of the trap frame, which has the cause.
  unfoldable pub trap_handler : ℕ → ℕ → System M → Option (Option ℕ × System M)
  trap_handler fuel t s = elim s.kernel.current [
    | none ↦ let (frame, k) = switch_to none s.kernel in some (frame, with_kernel k s)
    | some i ↦
        let k = with_proc i (record (proc s.kernel i) { tf = t }) s.kernel in
        elim (on_cause t (get_or k.trapframes t tf_clear).scause (with_kernel k s)) [
          | none ↦ none
          | some s' ↦ resume fuel s'
        ]
  ]

  -- `none` is the loop that halts the machine.
  unfoldable pub kernel_trap_handler : ℕ → System M → Option (Option ℕ × System M)
  kernel_trap_handler cause s =
      if cause == stimer
      then (let k = timer_tick s.kernel in
          let k' : Kernel M = elim k.current [
            | none ↦ reschedule k
            | some i ↦ if is_running (proc k i).state then k else reschedule k
          ] in
          let (frame, k'') = switch_to k'.current k' in some (frame, with_kernel k'' s))
      else none
