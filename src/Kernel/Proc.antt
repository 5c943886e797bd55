-- ===== src/Kernel/Proc.antt =====
-- NanoBoot/kernel/proc.h and proc.c: the process table, and the functions on it. The static
-- variables are a record, a pointer into `proc_table` or `trapframes` is the index of its slot,
-- and NULL, or an index of -1, is `none`. The virtual memory is a parameter: what vm.c answers,
-- and the state it works on. The field `context` is left out, since no C code reads it.
use mathlib.Core.Option
use shellforge.Prelude.{
  ℕ, zero, suc, ◌+◌, ◌-◌, ◌%◌, ◌^◌, Bool, true, false, not, ◌&&◌, Option, none, some, List, [], ◌∷◌,
  map, leb, ◌==◌, if◌then◌else◌, get_or, set, replicate, Bytes, codes,
}

abbrev pub nproc : ℕ
nproc = 8

pub data ProcState : Type 0 where
  p_unused p_runnable p_running p_sleeping p_zombie : ProcState

pub record Trapframe : Type 0 where
  pub regs : List ℕ
  pub sepc : ℕ
  pub sstatus : ℕ
  pub scause : ℕ
  pub kernel_sp : ℕ

-- `exit_status` is the 32 bits of the `int`.
pub record Proc : Type 0 where
  pub pid : ℕ
  pub state : ProcState
  pub exit_status : ℕ
  pub parent : Option ℕ
  pub pagetable : Option ℕ
  pub tf : ℕ
  pub wake_tick : ℕ

pub record Kernel (M : Type 0) : Type 0 where
  pub table : List Proc
  pub trapframes : List Trapframe
  pub idle_tf : Trapframe
  pub current : Option ℕ
  pub next_pid : ℕ
  pub last_slot : Option ℕ
  pub ticks : ℕ
  pub memory : M

abbrev pub no_proc : Proc
no_proc = record {
  pid = 0;
  state = p_unused;
  exit_status = 0;
  parent = none;
  pagetable = none;
  tf = 0;
  wake_tick = 0;
}

abbrev pub tf_clear : Trapframe
tf_clear = record { regs = replicate 32 0; sepc = 0; sstatus = 0; scause = 0; kernel_sp = 0 }

abbrev pub is_unused : ProcState → Bool
is_unused p_unused = true
is_unused _ = false

abbrev pub is_runnable : ProcState → Bool
is_runnable p_runnable = true
is_runnable _ = false

abbrev pub is_sleeping : ProcState → Bool
is_sleeping p_sleeping = true
is_sleeping _ = false

-- The slot of the first process with the property.
unfoldable pub first_slot : (Proc → Bool) → List Proc → Option ℕ
first_slot test [] = none
first_slot test (p ∷ ps) =
    let later = Option.map suc (first_slot test ps) in if test p then some 0 else later

abbrev pub used_pid : ℕ → Proc → Bool
used_pid pid p = not (is_unused p.state) && p.pid == pid

-- `(start + n) % NPROC`, where `start` is -1 before the first choice.
abbrev pub slot_after : Option ℕ → ℕ → ℕ
slot_after none n = (n - 1) % nproc
slot_after (some s) n = (s + n) % nproc

-- The loop of the scheduler from `n` on, with `fuel` rounds left.
unfoldable pub next_runnable : List Proc → Option ℕ → ℕ → ℕ → Option ℕ
next_runnable ps start zero n = none
next_runnable ps start (suc fuel) n =
    let later = next_runnable ps start fuel (n + 1) in
    if is_runnable (get_or ps (slot_after start n) no_proc).state
    then some (slot_after start n)
    else later

-- One round of the loop of `proc_wakeup`.
abbrev pub woken : ℕ → Proc → Proc
woken now p =
    if is_sleeping p.state && (not (p.wake_tick == 0) && leb p.wake_tick now)
    then record p { wake_tick = 0; state = p_runnable }
    else p

module _ {M : Type 0} where
  abbrev pub proc : Kernel M → ℕ → Proc
  proc k i = get_or k.table i no_proc

  abbrev pub with_proc : ℕ → Proc → Kernel M → Kernel M
  with_proc i p k = record k { table = set k.table i p }

  abbrev pub start_of : Kernel M → Option ℕ
  start_of k = elim k.current [ none ↦ k.last_slot | some s ↦ some s ]

  unfoldable pub proc_schedule : Kernel M → Option ℕ × Kernel M
  proc_schedule k = elim (next_runnable k.table (start_of k) nproc 1) [
    | none ↦ (none, k)
    | some i ↦ (
      some i,
      with_proc i (record (proc k i) { state = p_running }) (record k { last_slot = some i }),
    )
  ]

  -- `current_proc = proc_schedule()`
  unfoldable pub reschedule : Kernel M → Kernel M
  reschedule k = let (next, k') = proc_schedule k in record k' { current = next }

  unfoldable pub proc_by_pid : Kernel M → ℕ → Option ℕ
  proc_by_pid k pid = first_slot (used_pid pid) k.table

  unfoldable pub proc_sleep : ℕ → Kernel M → Kernel M
  proc_sleep n k = elim k.current [
    | none ↦ k
    | some i ↦
        if n == 0
        then k
        else reschedule (
            with_proc i
              (record (proc k i) { wake_tick = (k.ticks + n) % 2 ^ 64; state = p_sleeping }) k)
  ]

  unfoldable pub proc_wakeup : ℕ → Kernel M → Kernel M
  proc_wakeup now k = record k { table = map (woken now) k.table }

  abbrev pub proc_tick : Kernel M → Kernel M
  proc_tick k = proc_wakeup k.ticks k

  -- `timer_tick` of timer.c, without the write to the timer.
  unfoldable pub timer_tick : Kernel M → Kernel M
  timer_tick k = proc_tick (record k { ticks = (k.ticks + 1) % 2 ^ 64 })

  -- The branch of `trap_handler` in trap.c for a timer interrupt of a running process.
  unfoldable pub preempt : Kernel M → ℕ → Kernel M
  preempt k i =
      let (next, k') = proc_schedule (with_proc i (record (proc k i) { state = p_runnable }) k) in
      record k' { current = next }

unfoldable pub proc_state_name : ProcState → Bytes
proc_state_name p_unused = codes "UNUSED"
proc_state_name p_runnable = codes "RUNNABLE"
proc_state_name p_running = codes "RUNNING"
proc_state_name p_sleeping = codes "SLEEPING"
proc_state_name p_zombie = codes "ZOMBIE"

-- The lines that `proc_ps` prints below its heading: a number, and the name of a state.
unfoldable pub proc_ps : List Proc → List (ℕ × Bytes)
proc_ps [] = []
proc_ps (p ∷ ps) =
    let rest = proc_ps ps in
    if is_unused p.state then rest else (p.pid, proc_state_name p.state) ∷ rest
