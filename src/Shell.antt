-- ===== src/Shell.antt =====
-- ShellForge, the Linux shell of src/ and include/.
pub mod Token
pub mod Lexer
pub mod Parser
pub mod Line
pub mod Jobs
pub mod Result
pub mod Expand
pub mod CommandText
pub mod Executor
pub mod Host
pub mod Builtin
pub mod Main
