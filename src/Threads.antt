-- ===== src/Threads.antt =====
-- pintos-kaist/threads: the kernel's threads, their scheduler and their synchronisation.
pub mod State
pub mod Sched
pub mod Synch
pub mod Mlfqs
