-- ===== src/Kernel/Lifecycle.antt =====
-- NanoBoot/kernel/proc.c: how a process comes into the table and leaves it.
use mathlib.Core.Option
use shellforge.Prelude.{
  ℕ, zero, suc, ◌+◌, ◌-◌, ◌^◌, Bool, true, false, not, ◌&&◌, Option, none, some, List, [], ◌∷◌,
  ◌==◌, if◌then◌else◌, get_or, set, replicate, Bytes,
}
use shellforge.Kernel.Proc.{
  nproc, ProcState, p_unused, p_runnable, p_sleeping, p_zombie, Trapframe, Proc, Kernel, no_proc,
  tf_clear, is_unused, is_sleeping, first_slot, proc, with_proc, reschedule,
}

abbrev pub pid_first : ℕ
pid_first = 1

abbrev pub user_base : ℕ
user_base = 1073741824

abbrev pub user_stack_top : ℕ
user_stack_top = 2147483648

-- The functions of vm.c, on the state `M` they work on, and the addresses the linker gives.
pub record Machine (M : Type 0) : Type 0 where
  pub vm_create_user : M → Bytes → ℕ → Option ℕ × M
  pub vm_clone_user : M → ℕ → ℕ → Option ℕ × M
  pub vm_destroy : M → Option ℕ → M
  pub switch_to_kernel : M → M
  pub kernel_stack : ℕ → ℕ
  pub idle_loop : ℕ
  pub idle_stack : ℕ

abbrev pub is_zombie : ProcState → Bool
is_zombie p_zombie = true
is_zombie _ = false

-- `p == &proc_table[i]`
abbrev pub is_slot : ℕ → Option ℕ → Bool
is_slot i none = false
is_slot i (some j) = j == i

abbrev pub child_of : ℕ → Proc → Bool
child_of i p = not (is_unused p.state) && is_slot i p.parent

abbrev pub zombie_of : ℕ → Proc → Bool
zombie_of i p = child_of i p && is_zombie p.state

-- `regs[10]`, and SSTATUS_SPIE and SSTATUS_SPP.
abbrev pub with_result : ℕ → Trapframe → Trapframe
with_result r tf = record tf { regs = set tf.regs 10 r }

abbrev pub spie : ℕ
spie = 2 ^ 5

abbrev pub spp : ℕ
spp = 2 ^ 8

-- A parent that waits: it sleeps, and no tick wakes it.
abbrev pub waits : Proc → Bool
waits p = is_sleeping p.state && p.wake_tick == 0

abbrev pub init_slots : ℕ → ℕ → List Proc
init_slots zero i = []
init_slots (suc n) i = record no_proc { tf = i } ∷ init_slots n (i + 1)

module _ {M : Type 0} where
  abbrev pub with_trapframe : ℕ → (Trapframe → Trapframe) → Kernel M → Kernel M
  with_trapframe i f k = record k {
    trapframes = set k.trapframes i (f (get_or k.trapframes i tf_clear));
  }

  unfoldable pub complete_wait : ℕ → ℕ → Kernel M → Kernel M
  complete_wait i j k =
      let k' = with_trapframe (proc k j).tf (with_result (proc k i).pid) k in
      with_proc j (record (proc k j) { state = p_runnable }) k'

module _ {M : Type 0} (machine : Machine M) where
  abbrev pub user_tf : ℕ → Trapframe
  user_tf i = record tf_clear {
    sepc = user_base;
    sstatus = spie;
    regs = set (replicate 32 0) 2 (user_stack_top - 16);
    kernel_sp = machine.kernel_stack i;
  }

  abbrev pub prepare_idle_tf : Trapframe
  prepare_idle_tf = record tf_clear {
    sepc = machine.idle_loop;
    sstatus = spie + spp;
    regs = set (replicate 32 0) 2 machine.idle_stack;
    kernel_sp = machine.idle_stack;
  }

  abbrev pub init_trapframes : ℕ → ℕ → List Trapframe
  init_trapframes zero i = []
  init_trapframes (suc n) i =
      record tf_clear { kernel_sp = machine.kernel_stack i } ∷ init_trapframes n (i + 1)

  unfoldable pub proc_init : M → Kernel M
  proc_init memory = record {
    table = init_slots nproc 0;
    trapframes = init_trapframes nproc 0;
    idle_tf = prepare_idle_tf;
    current = none;
    next_pid = pid_first;
    last_slot = none;
    ticks = 0;
    memory = memory;
  }

  -- The new process of `proc_create_init` and `proc_fork`, before its page table.
  abbrev pub fresh : Kernel M → ℕ → Option ℕ → Proc
  fresh k i parent = record (proc k i) {
    pid = k.next_pid;
    state = p_runnable;
    parent = parent;
    exit_status = 0;
    wake_tick = 0;
  }

  -- The rest of both functions: the process gets its page table and its trap frame, or its slot
  -- becomes free again.
  unfoldable pub fill : ℕ → Proc → Option ℕ × M → Trapframe → Kernel M → Option ℕ × Kernel M
  fill i p (none, m) tf k = (
    none,
    with_proc i (record p { pagetable = none; state = p_unused })
        (record k { next_pid = k.next_pid + 1; memory = m }),
  )
  fill i p (some pt, m) tf k = (
    some i,
    record (with_proc i (record p { pagetable = some pt; tf = i }) k) {
      next_pid = k.next_pid + 1;
      memory = m;
      trapframes = set k.trapframes i tf;
    },
  )

  unfoldable pub proc_create_init : Bytes → Kernel M → Option ℕ × Kernel M
  proc_create_init image k = elim (first_slot (λ p. is_unused p.state) k.table) [
    | none ↦ (none, k)
    | some i ↦ fill i (fresh k i none) (machine.vm_create_user k.memory image i) (user_tf i) k
  ]

  -- The child's trap frame: the parent's, on the child's kernel stack, with the result 0.
  abbrev pub child_tf : ℕ → Trapframe → Trapframe
  child_tf i tf = with_result 0 (record tf { kernel_sp = machine.kernel_stack i })

  unfoldable pub fork_into : ℕ → ℕ → Trapframe → Kernel M → Option ℕ × Kernel M
  fork_into i parent tf k =
      let (child, k') =
        fill i (fresh k i (some parent)) (machine.vm_clone_user k.memory i parent) (child_tf i tf)
          k in
      (Option.map (λ _. k.next_pid) child, k')

  unfoldable pub proc_fork : Trapframe → Kernel M → Option ℕ × Kernel M
  proc_fork tf k = elim k.current [
    | none ↦ (none, k)
    | some parent ↦ elim (first_slot (λ p. is_unused p.state) k.table) [
      | none ↦ (none, k)
      | some i ↦ fork_into i parent tf k
    ]
  ]

  -- `vm_switch(kernel_pagetable())` and `vm_destroy` for the process of the slot.
  abbrev pub drop_memory : ℕ → Kernel M → Kernel M
  drop_memory i k = record k {
    memory = machine.vm_destroy (machine.switch_to_kernel k.memory) (proc k i).pagetable;
  }

  -- The three branches of `proc_exit` behind its first write.
  unfoldable pub leave : ℕ → Kernel M → Kernel M
  leave i k = elim (proc k i).parent [
    | none ↦
        with_proc i (record (proc k i) { pagetable = none; state = p_unused; pid = 0 })
          (drop_memory i k)
    | some j ↦
        if waits (proc k j)
        then with_proc i
            (record (proc k i) { pagetable = none; state = p_unused; pid = 0; parent = none })
            (drop_memory i (complete_wait i j k))
        else with_proc i (record (proc k i) { state = p_zombie }) k
  ]

  unfoldable pub proc_exit : ℕ → Kernel M → Kernel M
  proc_exit status k = elim k.current [
    | none ↦ k
    | some i ↦ reschedule (leave i (with_proc i (record (proc k i) { exit_status = status }) k))
  ]

  abbrev pub reap : ℕ → Kernel M → Kernel M
  reap c k =
      with_proc c (record (proc k c) { pagetable = none; state = p_unused; pid = 0; parent = none })
        (record k { memory = machine.vm_destroy k.memory (proc k c).pagetable })

  -- What `proc_wait` returns, the status it writes if it writes one, and the kernel.
  unfoldable pub proc_wait : Kernel M → Option ℕ × Option ℕ × Kernel M
  proc_wait k = elim k.current [
    | none ↦ (none, none, k)
    | some i ↦ elim (first_slot (zombie_of i) k.table) [
      | some c ↦ (some (proc k c).pid, some (proc k c).exit_status, reap c k)
      | none ↦ elim (first_slot (child_of i) k.table) [
        | none ↦ (none, none, k)
        | some _ ↦
            (some 0, none, reschedule (with_proc i (record (proc k i) { state = p_sleeping }) k))
      ]
    ]
  ]
