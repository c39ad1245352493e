-- ===== src/Lib.antt =====
-- A model of the kernel in pintos-kaist: its threads with their scheduler, their semaphores and locks
-- with priority donation, and the ordered lists that all of these are kept in; and its file system, from
-- bitmaps and sectors up to directories and the file descriptors of a process, with the swap disk; and the
-- start and the end of its processes.
--
-- KernelList models the ordered operations of pintos-kaist/lib/kernel/list.c on the sequence of
-- elements that a list links: `list_insert_ordered`, and `list_sort`, a natural merge sort, with its
-- helpers `find_end_of_run` and `inplace_merge`. The for loop of `list_sort` is `merge_pass`, its do
-- loop `sort_passes`; both take fuel, the length of the list, which bounds the number of runs. Beside
-- them stand `list_unique`, `list_max` and `list_min`.
--
-- Threads.State holds the data: `struct thread` and the statuses of
-- pintos-kaist/include/threads/thread.h, `struct semaphore` and `struct lock` of
-- pintos-kaist/include/threads/synch.h, and the static variables of pintos-kaist/threads/thread.c as
-- the record `Kernel`. Objects are named by their addresses, which are numbers, and the kernel's
-- tables are functions from them, so an object shared by two lists is one object.
--
-- Threads.Sched models the scheduler of pintos-kaist/threads/thread.c under the names of the source:
-- `thread_block`, `thread_unblock`, `thread_yield`, `thread_exit`, `thread_set_priority` and
-- `compare_cur_next_priority` over `do_schedule`, `schedule` and `next_thread_to_run`. An operation
-- maps a state to the state in which the next thread goes on, or to `none` where an ASSERT fails.
--
-- Threads.Synch models pintos-kaist/threads/synch.c. Each thread carries the statements it still has
-- to execute, and `exec` executes the next one of the current thread: `down` and `up` are one round of
-- `sema_down` and `sema_up`, `donate` is `lock_acquire` before its `sema_down`, `release_donations`
-- is `lock_release` before its `sema_up`. A call that interrupts can cut leaves the rest of it as a
-- statement, so that other threads run in between: Threads.Synch.Interleaving steps through all
-- orders of statements, preemptions, wake-ups and new calls. The donation loop takes fuel, one round
-- more than there are threads, and `none` stands for a loop that does not end, or for a donation that
-- malloc has no memory for: `has_donation` says for which locks it has, and may change at any time.
--
-- Timer models the sleeping threads of pintos-kaist/devices/timer.c over that kernel: `timer_sleep`, the
-- loop of `wake_up` (`wake_sleepers`) and `timer_interrupt`, with `closet_tick` and its NULL, the tick 0.
-- The interrupt's call of thread_tick is what the round-robin scheduler does in it. `intr_handler`, of
-- pintos-kaist/threads/interrupt.c, is that interrupt with the yield on its return.
--
-- FixedPoint is pintos-kaist/threads/fixed-point.c: an `int` is an integer that each operation brings
-- back into 32 bits. Threads.Mlfqs is the multi-level feedback queue of pintos-kaist/threads/thread.c on
-- top of it, and mlfqs_on_tick of pintos-kaist/devices/timer.c.
--
-- Bitmap is pintos-kaist/lib/kernel/bitmap.c, on words of 64 bits; Bitmap.View sees them as one sequence of
-- bits. FreeMap is pintos-kaist/filesys/free-map.c on top of it, and Swap is pintos-kaist/vm/anon.c, whose
-- table of slots is a bitmap as well. `none` is a failed ASSERT or a PANIC, as it is in all that follows.
-- What malloc gives, and whether bitmap_write gets a map onto the disk, are arguments; what it has put into
-- the free map's file is a field of `FreeMap`, not a part of the disk.
--
-- Hash is pintos-kaist/lib/kernel/hash.c, on the sequences that the buckets link; its loop that makes a
-- number a power of two has the number as fuel, since each round lowers it.
--
-- Inode is how pintos-kaist/filesys/inode.c reads and writes the data of an inode, sector by sector: a disk
-- is the function from a sector and an offset to a byte, sizes and offsets are not negative, and a loop has
-- the size as fuel, since each round copies a byte at least. FileSys is the rest of that file, with the
-- inodes and files in memory as functions from addresses: creation, the table of open inodes, the denial of
-- writes. Files is pintos-kaist/filesys/file.c. Both are one store, `FileSys`, that all operations pass on.
--
-- FdTable is the part of pintos-kaist/userprog/syscall.c on file descriptors, `sys_open`, `sys_close`,
-- `sys_dup2`, `sys_read`, `sys_write`, `sys_seek`, `sys_tell` and `sys_filesize` over the table of a
-- process, and FdTable.Fork the loops of pintos-kaist/userprog/process.c that copy a table and clear it. What
-- filesys_open gives is an argument there; the checks of user addresses have passed. The loop of `find_unused_fd` has the rest of the table as fuel. The lock of the file system is
-- not modelled: a system call is one step.
--
-- Directory is pintos-kaist/filesys/directory.c: its loops over the entries have the inode's length as fuel,
-- of which each round passes 20 bytes. Directory.FileNames is filesys_create, filesys_open and
-- filesys_remove of pintos-kaist/filesys/filesys.c over it.
--
-- Process is about pintos-kaist/userprog/process.c. Process.Segments is how `load` maps a program: the loop over
-- the program headers, `validate_segment`, `load_segment`, whose loop has a round for each page as fuel, and
-- `lazy_load_segment`. Process.Arguments is strtok_r of pintos-kaist/lib/string.c with spaces, `parse_args`, and
-- the stack that `load` makes. Process.Family is `process_wait` and the end of `process_exit` over the
-- semaphores wait_sema and free_sema, as steps of processes in any order: a sema_down is possible when the
-- value is not 0, and a fork is one step.
--
-- InterruptQueue is the ring buffer of pintos-kaist/devices/intq.c over the scheduler's thread_block and
-- thread_unblock, without its lock.
--
-- A step is what runs with interrupts off. The donations of `lock_acquire` and of `lock_release` are one
-- step each too, although the source leaves interrupts on there: a preemption inside these two loops is
-- not modelled. Not modelled either are the switch of registers, page tables, device drivers and the C
-- library, which are machine instructions or plain output; the condition variables and the creation of
-- threads; the supplemental page table with its frames, and the allocators of memory; the copies that a fork
-- makes, and process_exec.
pub mod Bitmap
pub mod Common
pub mod Directory
pub mod FdTable
pub mod FileSys
pub mod Files
pub mod FixedPoint
pub mod FreeMap
pub mod Hash
pub mod Inode
pub mod InterruptQueue
pub mod KernelList
pub mod Process
pub mod Swap
pub mod Threads
pub mod Timer
