-- ===== src/Examples/Kernel.antt =====
-- The theorems about NanoBoot at concrete inputs: a process table, and lines of its shell.
use shellforge.Prelude.{
  ◌+◌, ◌*◌, ◌<◌, ◌≡◌, ◌≢◌, none, refl, ℕ, ◌≤◌, some, List, [], ◌∷◌, ◌++◌, codes, replicate, arith,
  set, true, false,
}
use shellforge.Kernel.Proc.{
  nproc, proc, p_unused, p_runnable, p_running, p_sleeping, Proc, Kernel, no_proc, with_proc,
  tf_clear, proc_schedule, reschedule, timer_tick, proc_wakeup, next_runnable, first_slot,
}
use shellforge.Kernel.Schedule.{Scheduled, proc_schedule-Scheduled}
use shellforge.Kernel.Turns.{timer_interrupts, timer_interrupts-current}
use shellforge.Kernel.Lifecycle.{Machine, proc_init, proc_create_init, fill}
use shellforge.Kernel.Running.{IsConsistent, beside}
use shellforge.Kernel.History.{
  KernelEvent, creates, forks, exits, sleeps, waits_for_child, interrupts, idles, history, happen,
  idle_round, history-proc_init-IsConsistent,
}
use shellforge.Kernel.CString.{strlen, strcmp, strncmp, sign, strncmp-strcmp}
use shellforge.Kernel.Console.{uart_print_u64, IsDecimal, uart_print_u64-IsDecimal}
use shellforge.Kernel.Syscall.{Access, System, sys_read}
use shellforge.Kernel.Reading.{Reads, sys_read-Reads}
use shellforge.Kernel.Trap.{stimer, idle_loop, trap_handler, kernel_trap_handler}
use shellforge.Kernel.Trap.Resume.{Resumed, trap_handler-Resumed, kernel_trap_handler-Resumed}
use shellforge.Kernel.Trap.Idle.{idle_loop-ends}
use shellforge.User.Lexer.{max_line_tokens, tokenize, UserToken, tok_word, tok_redir_out}
use shellforge.User.Bounds.{InBounds, tokenize-InBounds}
use shellforge.User.Numbers.{parse_num, print_num, parse_num-print_num}
use shellforge.User.Editor.{EndsWith, kept, kept_text, read_line, read_line-kept}
use shellforge.User.Commands.{run_user_line}
use shellforge.User.Commands.Safe.{IsSafe, run_user_line-IsSafe}
use shellforge.User.Parser.{UserCommand, parse_command}
use shellforge.User.Arguments.{Returns, arguments, parse_command-Returns}

abbrev ready : Proc
ready = record no_proc { pid = 2; state = p_runnable }

-- Slots 0 and 3 are in use, and slot 0 is running.
abbrev two_procs : Kernel ℕ
two_procs = record {
  table = set (set (replicate 8 no_proc) 3 ready) 0 (record ready { pid = 1; state = p_running });
  trapframes = [];
  idle_tf = tf_clear;
  current = some 0;
  next_pid = 3;
  last_slot = some 0;
  ticks = 5;
  memory = 0;
}

proc_schedule-Scheduled_example : Scheduled two_procs (proc_schedule two_procs)
proc_schedule-Scheduled_example = proc_schedule-Scheduled two_procs (omega arith)

tokenize-InBounds_example :
    InBounds max_line_tokens (tokenize max_line_tokens (codes "echo 'a b' >> f"))
tokenize-InBounds_example =
    tokenize-InBounds max_line_tokens (codes "echo 'a b' >> f") (omega arith)

abbrev old_command : UserCommand
old_command = record {
  argc = 3;
  argv = replicate 16 (some (codes "old"));
  redir_in = [];
  redir_out = [];
  append = true;
  background = true;
  has_pipe = true;
}

-- `cat >f x`
abbrev cat_line : List UserToken
cat_line =
    record { type = tok_word; val = codes "cat" }
    ∷ record { type = tok_redir_out; val = codes ">" }
    ∷ record { type = tok_word; val = codes "f" }
    ∷ record { type = tok_word; val = codes "x" }
    ∷ []

cat_line-arguments : arguments false cat_line ≡ codes "cat" ∷ codes "x" ∷ []
unfolding arguments
cat_line-arguments = refl

parse_command-Returns_example :
    Returns (arguments false cat_line) (parse_command old_command cat_line)
parse_command-Returns_example = parse_command-Returns old_command cat_line refl

-- A virtual memory that gives out page tables by number.
abbrev counting : Machine ℕ
counting = record {
  vm_create_user = λ n image i. (some n, n + 1);
  vm_clone_user = λ n i j. (some n, n + 1);
  vm_destroy = λ n pt. n;
  switch_to_kernel = λ n. n;
  kernel_stack = λ i. i * 4096;
  idle_loop = 100;
  idle_stack = 200;
}

abbrev session : List KernelEvent
session =
    creates (codes "sh")
    ∷ idles
    ∷ forks tf_clear
    ∷ interrupts
    ∷ sleeps 2
    ∷ waits_for_child
    ∷ idles
    ∷ idles
    ∷ exits 42
    ∷ []

history-proc_init-IsConsistent_example :
    IsConsistent (history counting (proc_init counting 1) session)
history-proc_init-IsConsistent_example = history-proc_init-IsConsistent counting 1 session

-- User memory of which every page is there, and on which nothing is kept.
abbrev whole : Access ℕ
whole = record {
  copyin = λ m pt va n. some (replicate n b'x');
  copyout = λ m pt va bytes. (true, m);
  copyinstr = λ m pt va n. some (codes "hello.txt");
  vm_switch = λ m pt. m;
}

-- A trap of the first process for a system call: SYS_SLEEP for 3 ticks.
abbrev started : Kernel ℕ
started = history counting (proc_init counting 1) (creates (codes "sh") ∷ idles ∷ [])

abbrev sleeping_call : System ℕ
sleeping_call = record {
  kernel = record started {
    trapframes = record tf_clear { scause = 8; regs = set (set (replicate 32 0) 17 6) 10 3 } ∷ [];
  };
  input = codes "ls\n";
  output = [];
}

sleeping_call-IsConsistent : IsConsistent sleeping_call.kernel
sleeping_call-IsConsistent =
    let v = history-proc_init-IsConsistent counting 1 (creates (codes "sh") ∷ idles ∷ []) in
    record { size = v.size; placed = v.placed; last = v.last; only = v.only; runs = v.runs }

-- The first process runs, and a second one is ready.
abbrev paired : Kernel ℕ
paired = with_proc 3 ready started

started_free : (proc started 3).state ≡ p_unused
unfolding history happen proc_init proc_create_init idle_round reschedule timer_tick proc_wakeup
    next_runnable proc_schedule first_slot fill
started_free = refl

paired-IsConsistent : IsConsistent paired
paired-IsConsistent =
    beside started 3 ready
      (history-proc_init-IsConsistent counting 1 (creates (codes "sh") ∷ idles ∷ []))
      (λ e. cc (started_free, e)) (λ e. cc)

timer_interrupts-current_example :
    (n : ℕ) × (n ≤ nproc) × ((timer_interrupts n paired).current ≡ some 3)
unfolding history happen proc_init proc_create_init idle_round reschedule timer_tick proc_wakeup
    next_runnable proc_schedule first_slot fill
timer_interrupts-current_example =
    timer_interrupts-current paired 0 3 paired-IsConsistent refl (omega arith) refl

trap_handler-Resumed_example : Resumed (trap_handler counting whole 10 0 sleeping_call)
trap_handler-Resumed_example =
    trap_handler-Resumed counting whole 10 0 sleeping_call sleeping_call-IsConsistent

kernel_trap_handler-Resumed_example :
    Resumed (kernel_trap_handler counting whole stimer sleeping_call)
kernel_trap_handler-Resumed_example =
    kernel_trap_handler-Resumed counting whole stimer sleeping_call sleeping_call-IsConsistent

sys_read-Reads_example : Reads 5 sleeping_call (sys_read whole 4096 5 sleeping_call)
sys_read-Reads_example = sys_read-Reads whole 4096 5 sleeping_call

uart_print_u64-IsDecimal_example : IsDecimal 1204 (uart_print_u64 1204)
uart_print_u64-IsDecimal_example = uart_print_u64-IsDecimal 1204 (omega arith)

-- A process that sleeps until tick 3, and nothing runs.
abbrev sleeper : Proc
sleeper = record no_proc { pid = 2; state = p_sleeping; wake_tick = 3 }

abbrev asleep : Kernel ℕ
asleep = with_proc 3 sleeper (proc_init counting 1)

asleep-IsConsistent : IsConsistent asleep
unfolding proc_init history
asleep-IsConsistent =
    beside (proc_init counting 1) 3 sleeper (history-proc_init-IsConsistent counting 1 []) (λ e. cc)
      (λ e. cc)

idle_loop-ends_example : (k' : Kernel ℕ) × (idle_loop 3 asleep ≡ some k') × (k'.current ≢ none)
unfolding proc_init
idle_loop-ends_example =
    idle_loop-ends 3 3 3 asleep asleep-IsConsistent (omega arith) (refl, refl) (omega arith)
      (omega arith) (omega arith)

parse_num-print_num_example : parse_num (print_num 1204) ≡ 1204
parse_num-print_num_example = parse_num-print_num 1204 (omega arith)

-- `lq`, a rubout, `s`, and the return key.
read_line-kept_example :
    EndsWith
      (kept_text (b'l' ∷ b'q' ∷ 127 ∷ b's' ∷ []))
      []
      (read_line [] [] ((b'l' ∷ b'q' ∷ 127 ∷ b's' ∷ []) ++ 13 ∷ []))
read_line-kept_example =
    read_line-kept (b'l' ∷ b'q' ∷ 127 ∷ b's' ∷ []) [] 13 (refl, (refl, (refl, (refl, tt)))) refl
      (omega arith)

kept_ls : kept_text (b'l' ∷ b'q' ∷ 127 ∷ b's' ∷ []) ≡ codes "ls"
unfolding kept
kept_ls = refl

run_user_line-IsSafe_example : IsSafe (run_user_line old_command (codes "echo 'a b' c"))
run_user_line-IsSafe_example = run_user_line-IsSafe old_command (codes "echo 'a b' c") refl

strlen_echo_few : strlen (codes "echo") < 5
unfolding strlen
strlen_echo_few = omega arith

strncmp-strcmp_example :
    sign (strncmp (codes "echo") (codes "echidna") 5)
    ≡ sign (strcmp (codes "echo") (codes "echidna"))
strncmp-strcmp_example = strncmp-strcmp (codes "echo") (codes "echidna") 5 strlen_echo_few
