-- ===== src/Kernel.antt =====
-- The NanoBoot kernel, NanoBoot/kernel: the process table and its scheduler.
pub mod Proc
pub mod Lifecycle
pub mod Schedule
pub mod Turns
pub mod Running
pub mod Steps
pub mod History
pub mod CString
pub mod Console
pub mod Syscall
pub mod Reading
pub mod Trap
pub mod Vm
