-- ===== src/Threads/Sched/SetPriority.antt =====
-- thread_set_priority of pintos-kaist/threads/thread.c.
use w12_13_vm.Common.{ℕ, ◌≡◌, false, some, arith, if_false, ◌∙◌}
use w12_13_vm.Threads.State.{Kernel, set_thread}
use w12_13_vm.Threads.Sched.{thread_set_priority, with_donations}
use w12_13_vm.Threads.Sched.Invariant.{IsScheduled}
use w12_13_vm.Threads.Sched.Highest.{RunsHighest, compare_cur_next_priority-RunsHighest}

module _ (k : Kernel) (v : IsScheduled k) (new_priority : ℕ) where
  -- The current thread has its new priorities, and has not looked at the ready list.
  abbrev lowered : Kernel
  lowered =
      let cur = k.threads k.current in
      set_thread k k.current (record cur {
        original_priority = new_priority;
        priority = with_donations new_priority cur.donations;
      })

  lowered-IsScheduled : IsScheduled lowered
  lowered-IsScheduled = record {
    cur_running = ground (arith, v.cur_running);
    only_one = λ t ne. ground (arith, v.only_one t);
    open_queue = record {
      queued = λ t ne. ground (arith, v.open_queue.queued t);
      idle_out = v.open_queue.idle_out;
    };
  }

  -- Outside interrupts and under the round-robin scheduler thread_set_priority does not fail and keeps
  -- the scheduler's invariant, and then no ready thread has a higher priority than the current one,
  -- also where the current thread has lowered its own.
  pub thread_set_priority-RunsHighest :
      k.intr_context ≡ false
      → k.mlfqs ≡ false
      → (k' : Kernel) × (thread_set_priority new_priority k ≡ some k')
        × IsScheduled k'
        × RunsHighest k'
  unfolding thread_set_priority
  thread_set_priority-RunsHighest c m =
      let (k', f, w, h) = compare_cur_next_priority-RunsHighest lowered lowered-IsScheduled c in
      (k', if_false _ _ m ∙ f, w, h)
