-- ===== src/Threads/Sched/Examples.antt =====
-- Concrete states of the scheduler of pintos-kaist/threads/thread.c, and the theorems at them.
use w12_13_vm.Common.{true, ℕ, ◌≡◌, refl, [], ◌∷◌, false, none, some, ◌==◌, arith, if◌then◌else◌}
use w12_13_vm.Common.Int.{pos}
use w12_13_vm.Threads.State.{Kernel, Thread, Status, running, ready, blocked}
use w12_13_vm.Threads.Sched.{compare_cur_next_priority}
use w12_13_vm.Threads.Sched.Invariant.{IsScheduled}
use w12_13_vm.Threads.Sched.Highest.{RunsHighest, compare_cur_next_priority-RunsHighest}

abbrev thread : Status → ℕ → Thread
thread s p = record {
  status = s;
  priority = p;
  original_priority = p;
  donations = [];
  pending_lock = none;
  nice = pos 0;
  recent_cpu = pos 0;
  code = [];
}

-- Thread 0 is idle, thread 1 runs, and threads 2 and 3 are ready, in the wrong order.
abbrev four_threads : ℕ → Thread
four_threads t =
    if t == 1
    then thread running 31
    else if t == 2
    then thread ready 32
    else if t == 3
    then thread ready 40
    else thread blocked 0

abbrev unsorted : Kernel
unsorted = record {
  threads = four_threads;
  current = 1;
  idle_thread = 0;
  initial_thread = 1;
  ready_list = 2 ∷ 3 ∷ [];
  destruction_req = [];
  all_list = 0 ∷ 1 ∷ 2 ∷ 3 ∷ [];
  freed = [];
  thread_ticks = 0;
  mlfqs = false;
  load_avg = pos 0;
  intr_context = false;
  yield_on_return = false;
  has_donation = λ l. true;
  semas = λ s. record { value = 0; waiters = [] };
  locks = λ l. record { holder = none; semaphore = record { value = 1; waiters = [] } };
}

unsorted-IsScheduled : IsScheduled unsorted
unsorted-IsScheduled = record {
  cur_running = refl;
  only_one = λ t ne. ground arith;
  open_queue = record { queued = λ t ne. ground arith; idle_out = refl };
}

compare_cur_next_priority-RunsHighest_example :
    (k' : Kernel) × (compare_cur_next_priority unsorted ≡ some k') × IsScheduled k' × RunsHighest k'
compare_cur_next_priority-RunsHighest_example =
    compare_cur_next_priority-RunsHighest unsorted unsorted-IsScheduled refl
