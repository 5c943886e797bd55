-- ===== src/Examples.antt =====
-- Theorems with hypotheses, each applied to an input that meets them.
mod System
mod Shell
mod Running
mod Kernel
mod Memory
