-- ===== src/Threads/Sched.antt =====
-- The scheduler of pintos-kaist/threads/thread.c. An operation returns the state in which the next
-- thread goes on, or `none` where an ASSERT fails. Interrupts are off throughout; `freed` lists the
-- pages that palloc_free_page was given.
pub mod Invariant
pub mod Switch
pub mod Highest
pub mod Deferred
pub mod SetPriority
mod Examples
use w12_13_vm.Common.{
  ℕ, suc, ◌+◌, List, [], ◌∷◌, ◌++◌, Bool, true, false, not, ◌&&◌, Option, none, some, ltb, leb,
  ◌==◌, if◌then◌else◌, ◌>>=◌, update,
}
use w12_13_vm.KernelList.{list_insert_ordered, list_sort}
use w12_13_vm.Threads.State.{
  Kernel, Thread, Donation, Status, running, ready, blocked, dying, status, priority, set_thread,
  set_status, is_blocked, is_running, is_dying,
}

-- A thread is less than another if it comes before it: its priority is higher.
unfoldable pub compare_priority : (ℕ → Thread) → ℕ → ℕ → Bool
compare_priority threads a b = ltb (threads b).priority (threads a).priority

unfoldable pub thread_unblock : ℕ → Kernel → Option Kernel
thread_unblock t k =
    if is_blocked (status k t)
    then some (
        set_status
          (record k {
            ready_list = list_insert_ordered (compare_priority k.threads) k.ready_list t;
          })
          t ready)
    else none

-- The thread that runs next, and what stays of the ready list.
unfoldable pub next_thread_to_run : ℕ → List ℕ → ℕ × List ℕ
next_thread_to_run idle [] = (idle, [])
next_thread_to_run idle (t ∷ ts) = (t, ts)

-- thread_launch makes `next` the current thread. A dying thread's page cannot be freed while the
-- kernel stands on it, so it is put on `destruction_req`.
launch : ℕ → ℕ → Kernel → Kernel
launch curr next k =
    if curr == next
    then k
    else if is_dying (status k curr) && not (curr == k.initial_thread)
    then record k {
      current = next;
      destruction_req = list_insert_ordered (compare_priority k.threads) k.destruction_req curr;
    }
    else record k { current = next }

switch_to : ℕ → List ℕ → Kernel → Kernel
unfolding launch
switch_to next rest k =
    launch k.current next
      (record (set_status k next running) { ready_list = rest; thread_ticks = 0 })

unfoldable pub schedule : Kernel → Option Kernel
unfolding switch_to
schedule k =
    let (next, rest) = next_thread_to_run k.idle_thread k.ready_list in
    if is_running (status k k.current) then none else some (switch_to next rest k)

unfoldable pub do_schedule : Status → Kernel → Option Kernel
unfolding schedule
do_schedule s k =
    if is_running (status k k.current)
    then schedule (
        set_status (record k { destruction_req = []; freed = k.freed ++ k.destruction_req })
          k.current s)
    else none

unfoldable pub thread_block : Kernel → Option Kernel
unfolding schedule
thread_block k = if k.intr_context then none else schedule (set_status k k.current blocked)

unfoldable pub thread_exit : Kernel → Option Kernel
unfolding do_schedule
thread_exit k = if k.intr_context then none else do_schedule dying k

unfoldable pub thread_yield : Kernel → Option Kernel
unfolding do_schedule
thread_yield k =
    if k.intr_context
    then none
    else do_schedule ready (
        if k.current == k.idle_thread then k else record k {
          ready_list = list_insert_ordered (compare_priority k.threads) k.ready_list k.current;
        })

-- The ready list is sorted again, since donations change priorities behind its back.
unfoldable pub compare_cur_next_priority : Kernel → Option Kernel
unfolding thread_yield
compare_cur_next_priority k = elim k.ready_list [
  | [] ↦ some k
  | t ∷ ts ↦
      let sorted = list_sort (compare_priority k.threads) k.ready_list in
      let k' = record k { ready_list = sorted } in
      elim sorted [
        | [] ↦ some k'
        | next ∷ _ ↦
            if ltb (priority k k.current) (priority k next)
            then if k.intr_context
              then some (record k' { yield_on_return = true })
              else thread_yield k'
            else some k'
      ]
]

-- The greatest of the own priority and the first donation, as thread_set_priority takes it.
unfoldable pub with_donations : ℕ → List Donation → ℕ
with_donations p [] = p
with_donations p (d ∷ _) = if ltb p d.priority then d.priority else p

unfoldable pub thread_set_priority : ℕ → Kernel → Option Kernel
unfolding with_donations compare_cur_next_priority
thread_set_priority new_priority k =
    if k.mlfqs
    then some k
    else (let cur = k.threads k.current in
        compare_cur_next_priority (
          set_thread k k.current (record cur {
            original_priority = new_priority;
            priority = with_donations new_priority cur.donations;
          })))

-- The part of thread_tick that enforces preemption; TIME_SLICE is 4.
unfoldable pub thread_tick_slice : Kernel → Kernel
thread_tick_slice k =
    let k' = record k { thread_ticks = k.thread_ticks + 1 } in
    if leb 4 k'.thread_ticks then record k' { yield_on_return = true } else k'
