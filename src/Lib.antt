-- ===== src/Lib.antt =====
-- ShellForge, a shell for Unix, and NanoBoot, a small RISC-V kernel that comes with it.
--
-- The shell reads a line, splits it into tokens (src/lexer.c with include/lexer.h,
-- include/token.h and src/token.c), builds a pipeline of commands from the tokens (src/parser.c
-- with include/parser.h), replaces variables in its words (src/expand.c), and runs it as a
-- builtin (src/main.c) or as processes joined by pipes (src/executor.c); background pipelines
-- are kept in the job table (src/jobs.c with include/jobs.h). src/builtin.c is a second set of
-- builtins. The kernel keeps a table of processes (NanoBoot/kernel/proc.c with proc.h), which
-- system calls (syscall.c, ramfs.c) and the timer change, through the handlers of trap.c; its
-- own shell is NanoBoot/user/sh.c.
--
-- Prelude holds what the other files share. Shell.Token, Shell.Lexer, Shell.Parser, Shell.Expand,
-- Shell.Jobs, Shell.CommandText, Shell.Executor, Shell.Builtin and Shell.Main each translate the
-- files above, a function of the source to a definition of the same name; Shell.CommandText is
-- the part of executor.c that builds texts, Shell.Expand.Commands the part of expand.c for
-- pipelines, Shell.Main.Builtins the builtins and the SIGCHLD handler of main.c, the loop of
-- main.c that collects the tokens of a line is Shell.Lexer.collect, and Shell.Parser.Print is
-- pipeline_print, with what its printf calls get. Shell.Result is how these calls end.
-- Shell.Lexer.Words, Shell.Parser.Abstract and Shell.Expand.Text are the descriptions that the
-- code is compared with, free of positions, arrays and buffers, and the files below the same
-- component compare them. Shell.Line joins lexer and parser, Shell.Main.Typed all parts from the
-- typed line to the pipeline that is run, and Shell.Main.Session is a sequence of lines.
-- Kernel.Proc and Kernel.Lifecycle are proc.c: the first the table, the scheduler and the ticks,
-- the second how processes come and go. Kernel.Schedule and Kernel.Turns are about the scheduler,
-- Kernel.Running, Kernel.Steps and Kernel.History about the process that runs. Kernel.CString is
-- string.c, Kernel.Console the printing of uart.c, Kernel.Syscall is syscall.c and ramfs.c,
-- Kernel.Reading is about its sys_read, and Kernel.Trap is trap.c. Kernel.Vm is the part of vm.c
-- that reads page tables and copies between kernel and user memory, and Kernel.Vm.Mapped tells
-- from the layout of the tables which addresses are mapped. User.Lexer, User.Parser,
-- User.Numbers, User.Editor and User.Commands are NanoBoot/user/sh.c; User.Bounds, User.Arguments
-- and User.Commands.Safe are about them. Examples applies the theorems.
--
-- A char is the number of its byte, a string the list of its bytes, and NULL is `none`. Arrays
-- are lists of their full size that are written in place. What malloc, strdup and realloc answer
-- is an argument of each function that calls them. The calls of the C library and the system are
-- parameters: getenv; Posix, the calls of executor.c, with their documented effect on file
-- descriptors as Descriptors; Host, the other calls of main.c; and in the kernel the functions of
-- vm.c, as Machine and Access, of which Kernel.Vm models the copies. A child of executor.c is
-- followed to its execvp. The SIGCHLD handler runs between lines and while fg waits, and not
-- within another call. What stands in memory outside of the pool of page tables is a parameter too.
--
-- The loops run on the bytes or tokens that are left, so no bound is chosen, except those of the
-- source: 16 commands, 64 arguments, 255 tokens, 64 jobs and 8 processes. The tokenizer of
-- NanoBoot/user/sh.c runs on fuel, a round for each byte of the line and one more, which is
-- enough; the idle loop of trap.c runs on as many rounds as are given, and Kernel.Trap.Idle says
-- how many are enough. fg waits for as many reports as are given. Tick counts and registers wrap
-- at 2 ^ 64; job and process numbers do not wrap.
--
-- Not modelled: of the shell the tokens in the debug output, the text of help, and what perror
-- prints; of NanoBoot the making of page tables in vm.c, memset, memcmp and strcpy of string.c,
-- the demonstrations of sh.c, and the devices and control registers.
pub mod Prelude
pub mod Shell
pub mod Kernel
pub mod User
pub mod Examples
