-- ===== src/Threads/Synch/Examples.antt =====
-- Concrete states of the threads of pintos-kaist/threads, and the theorems at them.
use mathlib.Core.List.{mem-cons_self}
use w12_13_vm.Common.{
  ℕ, ◌≤◌, ◌≡◌, refl, List, [], ◌∷◌, true, false, none, some, ◌==◌, arith, if◌then◌else◌, count,
}
use w12_13_vm.Common.Int.{pos}
use w12_13_vm.KernelList.{list_insert_ordered, list_sort}
use w12_13_vm.Threads.State.{
  Kernel, Thread, Donation, Stmt, Status, running, ready, blocked, priority, lock_acquire,
  lock_release, lock_down, idle_block,
}
use w12_13_vm.Threads.Sched.{compare_priority}
use w12_13_vm.Threads.Sched.Invariant.{IsScheduled, one_if}
use w12_13_vm.Threads.Synch.{
  Place, plain, in_lock, get_sema, exec, exec_stmt, down, donate, release_donations, pend,
  lock_held_by_current_thread, remove_donation_for_lock, compare_priority_for_donate,
}
use w12_13_vm.Threads.Synch.Ownership.{has_lock, are_calls}
use w12_13_vm.Threads.Synch.Interleaving.{IsFresh, here, next, executes, mutual_exclusion}
use w12_13_vm.Threads.Synch.Inherit.{Inherits, IsRanked, donate-Inherits, donate-total}
use w12_13_vm.Threads.Synch.Release.{
  Registered, release_donations-Inherits, release_donations-drops,
}
use w12_13_vm.Threads.Synch.Waits.{IsSynced, at_wait, waits_on}
use w12_13_vm.Threads.Synch.NoPanic.{exec-KeepsSynced}
use w12_13_vm.Threads.Synch.Blocking.{KeepsSynced}

abbrev thread : Status → ℕ → List Stmt → Thread
thread s p c = record {
  status = s;
  priority = p;
  original_priority = p;
  donations = [];
  pending_lock = none;
  nice = pos 0;
  recent_cpu = pos 0;
  code = c;
}

-- Thread 0 is idle, thread 1 runs, thread 2 is ready; all others are blocked.
abbrev two_threads : ℕ → Thread
two_threads t =
    if t == 0
    then thread blocked 0 (idle_block ∷ [])
    else if t == 1
    then thread running 31 (lock_acquire 5 ∷ lock_release 5 ∷ [])
    else if t == 2
    then thread ready 32 (lock_acquire 5 ∷ [])
    else thread blocked 31 []

abbrev start : Kernel
start = record {
  threads = two_threads;
  current = 1;
  idle_thread = 0;
  initial_thread = 1;
  ready_list = 2 ∷ [];
  destruction_req = [];
  all_list = 0 ∷ 1 ∷ 2 ∷ [];
  freed = [];
  thread_ticks = 0;
  mlfqs = false;
  load_avg = pos 0;
  intr_context = false;
  yield_on_return = false;
  has_donation = λ l. true;
  semas = λ s. record { value = 0; waiters = [] };
  locks = λ l. record { holder = none; semaphore = record { value = 1; waiters = [] } };
}

start-IsScheduled : IsScheduled start
start-IsScheduled = record {
  cur_running = refl;
  only_one = λ t ne. ground arith;
  open_queue = record { queued = λ t ne. ground arith; idle_out = refl };
}

no_waits :
    (p : Place) (t : ℕ) → count t (get_sema start p).waiters ≡ one_if (waits_on p (start.threads t))
unfolding at_wait
no_waits (plain s) t = ground arith
no_waits (in_lock l) t = ground arith

start-IsSynced : IsSynced start
start-IsSynced = record {
  sched = start-IsScheduled;
  waits = no_waits;
  idle_code = refl;
  outside = refl;
}

start-IsFresh : IsFresh start
unfolding are_calls
start-IsFresh = record { free = λ l. (refl, refl); only_calls = λ t. ground arith; outside = refl }

abbrev after_exec : Kernel → Kernel
unfolding exec
after_exec k = elim (exec k) [ none ↦ k | some k' ↦ k' ]

abbrev calling : Kernel
calling = after_exec start

abbrev waiting : Kernel
waiting = after_exec calling

-- Thread 1 has taken lock 5.
abbrev taken : Kernel
taken = after_exec waiting

first_step : exec start ≡ some calling
unfolding exec exec_stmt down donate lock_held_by_current_thread
first_step = refl

second_step : exec calling ≡ some waiting
unfolding exec exec_stmt down donate lock_held_by_current_thread
second_step = refl

third_step : exec waiting ≡ some taken
unfolding exec exec_stmt down donate lock_held_by_current_thread
third_step = refl

taken_lock : has_lock taken 5 1 ≡ true
unfolding exec exec_stmt down donate lock_held_by_current_thread
taken_lock = refl

mutual_exclusion_example :
    (has_lock taken 5 2 ≡ true → ◌≡◌ {A = ℕ} 1 2) × ((taken.locks 5).semaphore.value ≡ 0)
mutual_exclusion_example =
    mutual_exclusion {k = start} {k' = taken} start-IsFresh
      (next (next (next here (executes first_step)) (executes second_step)) (executes third_step)) 5
      1 2 taken_lock

start_rank : IsRanked (pend 5 start) (λ l. 0)
start_rank l h m a b = ground arith

exec-KeepsSynced_example : KeepsSynced (exec start)
unfolding lock_held_by_current_thread
exec-KeepsSynced_example =
    exec-KeepsSynced start start-IsSynced (refl, (λ l. 0), start_rank, omega arith) (λ l. refl)

-- Thread 3 holds lock 6 and waits for lock 5 of thread 1; thread 2 is about to wait for lock 6.
abbrev nested_threads : ℕ → Thread
nested_threads t =
    if t == 0
    then thread blocked 0 (idle_block ∷ [])
    else if t == 2
    then thread running 40 (lock_acquire 6 ∷ [])
    else if t == 3
    then record (thread blocked 31 (lock_down 5 ∷ [])) { pending_lock = some 5 }
    else thread ready 31 []

abbrev nested : Kernel
nested = record start {
  threads = nested_threads;
  current = 2;
  ready_list = 1 ∷ [];
  all_list = 0 ∷ 1 ∷ 2 ∷ 3 ∷ [];
  locks = λ l. record {
    holder = if l == 5 then some 1 else if l == 6 then some 3 else none;
    semaphore = record { value = 0; waiters = if l == 5 then 3 ∷ [] else [] };
  };
}

nested-Inherits : Inherits nested
nested-Inherits t l h a b = ground arith

nested-IsRanked : IsRanked (pend 6 nested) (λ l. if l == 6 then 1 else 0)
nested-IsRanked l h m a b = ground arith

donated : Kernel
unfolding donate
donated = elim (donate 6 nested) [ none ↦ nested | some k ↦ k ]

-- Both holders get the priority 40.
donated_priorities : (priority donated 3 ≡ 40) × (priority donated 1 ≡ 40)
unfolding donated compare_priority compare_priority_for_donate list_sort list_insert_ordered
donated_priorities = (refl, refl)

donate_returns : donate 6 nested ≡ some donated
unfolding donated compare_priority compare_priority_for_donate list_sort list_insert_ordered
donate_returns = refl

donate-Inherits_example : Inherits donated
donate-Inherits_example = donate-Inherits 6 nested donated nested-Inherits donate_returns

donate-total_example : (k' : Kernel) × (donate 6 nested ≡ some k')
donate-total_example =
    donate-total (λ l. if l == 6 then 1 else 0) 6 nested nested-IsRanked (omega arith) (λ l. refl)

-- Thread 1 holds the locks 5 and 6. Thread 3 has given it the priority 33 for lock 6, and thread 2,
-- of priority 32, waits for lock 5.
abbrev gift : Donation
gift = record { priority = 33; donor = 3; lock = 6 }

abbrev lent_threads : ℕ → Thread
lent_threads t =
    if t == 1
    then record (thread running 31 (lock_release 6 ∷ [])) { priority = 33; donations = gift ∷ [] }
    else if t == 2
    then record (thread blocked 32 (lock_down 5 ∷ [])) { pending_lock = some 5 }
    else if t == 3
    then record (thread blocked 33 (lock_down 6 ∷ [])) { pending_lock = some 6 }
    else thread blocked 0 []

abbrev lent : Kernel
lent = record start {
  threads = lent_threads;
  ready_list = [];
  locks = λ l. record {
    holder = if l == 5 then some 1 else if l == 6 then some 1 else none;
    semaphore = record {
      value = 0;
      waiters = if l == 5 then 2 ∷ [] else if l == 6 then 3 ∷ [] else [];
    };
  };
}

lent-Inherits : Inherits lent
lent-Inherits t l h a b = ground arith

-- Thread 2 came when thread 1 already had 33, so it made no donation.
abbrev before_wait : Kernel
before_wait = record lent { current = 2 }

no_donation : donate 5 before_wait ≡ some (pend 5 before_wait)
unfolding donate
no_donation = refl

released : ℕ → Kernel
unfolding release_donations
released l = elim (release_donations l lent) [ none ↦ lent | some k ↦ k ]

release_returns : release_donations 6 lent ≡ some (released 6)
unfolding released lock_held_by_current_thread
release_returns = refl

release_donations-drops_example :
    (priority (released 6) 1 ≡ 31)
    × (((released 6).locks 5).holder ≡ some 1)
    × (priority (released 6) 2 ≡ priority lent 2)
    × (¬ Inherits (released 6))
unfolding remove_donation_for_lock
release_donations-drops_example =
    release_donations-drops 6 5 2 lent (released 6) release_returns refl (λ e. absurd (omega arith))
      (λ e. absurd (omega arith)) refl refl (omega arith)

release_five : release_donations 5 lent ≡ some (released 5)
unfolding released lock_held_by_current_thread
release_five = refl

lent-Registered : Registered lent 5
lent-Registered t m ne a b = (gift, mem-cons_self, ground arith, ground arith)

-- Lock 5 can go: the waiter of lock 6 is registered.
release_donations-Inherits_example : Inherits (released 5) × (31 ≤ priority (released 5) 1)
unfolding released lock_held_by_current_thread
release_donations-Inherits_example =
    release_donations-Inherits 5 lent (released 5) lent-Inherits lent-Registered refl release_five
