-- ===== src/Process.antt =====
-- The start of user programs, and how a process waits for one that it has forked,
-- pintos-kaist/userprog/process.c.
pub mod Segments
pub mod Arguments
pub mod Family
mod Examples
