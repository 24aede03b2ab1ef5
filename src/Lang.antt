-- ===== src/Lang.antt =====
-- src/lang.cpp: how one submission in C or C++ is compiled, run under limits and checked.
pub mod Limits
pub mod Syscalls
pub mod Launch
pub mod Compile
pub mod Check
pub mod Judging
