-- ===== src/User.antt =====
-- The shell of NanoBoot, NanoBoot/user/sh.c: its tokens and its commands, in buffers of fixed size.
pub mod Lexer
pub mod Bounds
pub mod Parser
pub mod Arguments
pub mod Numbers
pub mod Editor
pub mod Commands
