-- ===== src/Threads/Sched/Invariant.antt =====
-- The invariant of the scheduler in pintos-kaist/threads/thread.c: the current thread alone runs,
-- and the ready list holds each ready thread once.
use w12_13_vm.Common.{
  ℕ, ◌∙◌, ◌++◌, if_true, if_false, ◌≡◌, ◌≢◌, refl, List, [], ◌∷◌, Bool, true, false, Option, none,
  some, ◌==◌, if◌then◌else◌, count, arith,
}
use w12_13_vm.KernelList.{list_insert_ordered}
use w12_13_vm.KernelList.Order.{IsAsymmetric}
use w12_13_vm.KernelList.Count.{count-insert}
use w12_13_vm.Threads.State.{
  Kernel, Thread, Status, running, ready, blocked, dying, status, is_running, is_ready, set_status,
}
use w12_13_vm.Threads.Sched.{
  compare_priority, launch, switch_to, next_thread_to_run, schedule, do_schedule, thread_block,
  thread_exit, thread_yield, thread_unblock,
}

pub compare_priority-asym : (threads : ℕ → Thread) → IsAsymmetric (compare_priority threads)
unfolding compare_priority
compare_priority-asym threads a b h = ground arith

abbrev pub one_if : Bool → ℕ
one_if b = if b then 1 else 0

-- The ready list and the statuses agree; the idle thread is never in the list.
pub record IsQueued (k : Kernel) : Type 0 where
  pub queued : (t : ℕ) → t ≢ k.idle_thread → count t k.ready_list ≡ one_if (is_ready (status k t))
  pub idle_out : count k.idle_thread k.ready_list ≡ 0

pub record IsScheduled (k : Kernel) : Type 0 where
  pub cur_running : status k k.current ≡ running
  pub only_one : (t : ℕ) → t ≢ k.current → is_running (status k t) ≡ false
  pub open_queue : IsQueued k

-- Between the change of the current thread's status and the switch nobody runs.
record IsStopped (k : Kernel) : Type 0 where
  nobody : (t : ℕ) → is_running (status k t) ≡ false
  queue : IsQueued k

module _ (k : Kernel) (s : IsStopped k) (next : ℕ) (rest : List ℕ) where
  switch_to_lem :
      let k' = switch_to next rest k in
      (k'.current ≡ next)
      × (k'.ready_list ≡ rest)
      × (k'.idle_thread ≡ k.idle_thread)
      × ((t : ℕ) → status k' t ≡ (if next == t then running else status k t))
  unfolding switch_to launch
  switch_to_lem = (ground arith, ground arith, ground arith, λ t. ground arith)

  switch_to-IsScheduled :
      ((t : ℕ) → t ≢ k.idle_thread → count t rest ≡ (if t == next then 0 else count t k.ready_list))
      → count k.idle_thread rest ≡ 0
      → IsScheduled (switch_to next rest k)
  switch_to-IsScheduled h z = record {
    cur_running = ground (arith, switch_to_lem.3 next, switch_to_lem.0);
    only_one = λ t ne. ground (arith, switch_to_lem.3 t, switch_to_lem.0, s.nobody t);
    open_queue = record {
      queued = λ t ne.
          ground
            (arith, switch_to_lem.3 t, switch_to_lem.1, switch_to_lem.2, h t, s.queue.queued t);
      idle_out = ground (arith, switch_to_lem.1, switch_to_lem.2);
    };
  }

schedule-of :
    (k : Kernel) (xs : List ℕ)
    → k.ready_list ≡ xs
    → IsStopped k
    → (k' : Kernel) × (schedule k ≡ some k') × IsScheduled k'
unfolding schedule next_thread_to_run
schedule-of k [] e s = (
  switch_to k.idle_thread [] k,
  rw (s.nobody k.current, e, schedule, next_thread_to_run) refl,
  switch_to-IsScheduled k s k.idle_thread [] (λ t ne. ground (arith, e)) (omega arith),
)
schedule-of k (x ∷ xs) e s = (
  switch_to x xs k,
  rw (s.nobody k.current, e, schedule, next_thread_to_run) refl,
  switch_to-IsScheduled k s x xs (λ t ne. ground (arith, e, s.queue.queued t))
      (ground (arith, e, s.queue.idle_out)),
)

-- The operation does not fail, and leaves the invariant.
abbrev pub Keeps : Option Kernel → Type 0
Keeps r = (k' : Kernel) × (r ≡ some k') × IsScheduled k'

module _ (k : Kernel) (v : IsScheduled k) where
  -- The current thread takes a status other than running, with the ready list `rs` to match.
  IsStopped-set_status :
      (s : Status) (rs ds fs : List ℕ)
      → is_running s ≡ false
      → ((t : ℕ)
          → t ≢ k.idle_thread
          → count t rs ≡ one_if (if k.current == t then is_ready s else is_ready (status k t)))
      → count k.idle_thread rs ≡ 0
      → IsStopped
          (set_status (record k { ready_list = rs; destruction_req = ds; freed = fs }) k.current s)
  IsStopped-set_status s rs ds fs h q z = record {
    nobody = λ t. ground (arith, v.only_one t);
    queue = record { queued = λ t ne. ground (arith, q t); idle_out = z };
  }

  cur_not_queued : k.current ≢ k.idle_thread → count k.current k.ready_list ≡ 0
  cur_not_queued ne = ground (arith, v.cur_running, v.open_queue.queued k.current ne)

  thread_block-eq :
      k.intr_context ≡ false → thread_block k ≡ schedule (set_status k k.current blocked)
  unfolding thread_block
  thread_block-eq c = if_false none _ c

  thread_exit-eq : k.intr_context ≡ false → thread_exit k ≡ do_schedule dying k
  unfolding thread_exit
  thread_exit-eq c = if_false none _ c

  do_schedule-eq :
      (s : Status) (rs : List ℕ)
      → do_schedule s (record k { ready_list = rs })
        ≡ schedule (
            set_status
              (record k {
                ready_list = rs;
                destruction_req = [];
                freed = k.freed ++ k.destruction_req;
              })
              k.current
              s)
  unfolding do_schedule
  do_schedule-eq s rs = if_true _ none (rw v.cur_running)

  -- The ready list that thread_yield leaves.
  yielded : Bool → List ℕ
  yielded true = k.ready_list
  yielded false = list_insert_ordered (compare_priority k.threads) k.ready_list k.current

  thread_yield-eq :
      k.intr_context ≡ false
      → thread_yield k
        ≡ do_schedule ready (record k { ready_list = yielded (k.current == k.idle_thread) })
  unfolding thread_yield yielded
  thread_yield-eq c = if_false none _ c ∙ ground arith

  -- Outside interrupts thread_block does not fail, and keeps the scheduler's invariant.
  pub thread_block-IsScheduled : k.intr_context ≡ false → Keeps (thread_block k)
  thread_block-IsScheduled c = rw (thread_block-eq c) (
      schedule-of (set_status k k.current blocked) _ refl (
        IsStopped-set_status blocked k.ready_list k.destruction_req k.freed refl
          (λ t ne. ground (arith, v.open_queue.queued t, v.cur_running)) v.open_queue.idle_out))

  do_schedule-IsScheduled :
      (s : Status) (rs : List ℕ)
      → is_running s ≡ false
      → ((t : ℕ)
          → t ≢ k.idle_thread
          → count t rs ≡ one_if (if k.current == t then is_ready s else is_ready (status k t)))
      → count k.idle_thread rs ≡ 0
      → Keeps (do_schedule s (record k { ready_list = rs }))
  do_schedule-IsScheduled s rs h q z =
      rw (do_schedule-eq s rs) (schedule-of _ _ refl (IsStopped-set_status s rs [] _ h q z))

  -- Outside interrupts thread_exit does not fail, and keeps the scheduler's invariant.
  pub thread_exit-IsScheduled : k.intr_context ≡ false → Keeps (thread_exit k)
  thread_exit-IsScheduled c = rw (thread_exit-eq c) (
      do_schedule-IsScheduled dying k.ready_list refl
        (λ t ne. ground (arith, v.open_queue.queued t, v.cur_running)) v.open_queue.idle_out)

  count-yielded :
      (t : ℕ)
      → t ≢ k.idle_thread
      → count t (yielded (k.current == k.idle_thread))
        ≡ one_if (if k.current == t then true else is_ready (status k t))
  unfolding yielded
  count-yielded t ne = ground (
    arith,
    v.open_queue.queued t,
    v.cur_running,
    cur_not_queued,
    count-insert (compare_priority k.threads) t k.current k.ready_list,
  )

  idle-yielded : count k.idle_thread (yielded (k.current == k.idle_thread)) ≡ 0
  unfolding yielded
  idle-yielded = ground (
    arith,
    v.open_queue.idle_out,
    count-insert (compare_priority k.threads) k.idle_thread k.current k.ready_list,
  )

  -- Outside interrupts thread_yield does not fail, and keeps the scheduler's invariant.
  pub thread_yield-IsScheduled : k.intr_context ≡ false → Keeps (thread_yield k)
  thread_yield-IsScheduled c = rw (thread_yield-eq c) (
      do_schedule-IsScheduled ready (yielded (k.current == k.idle_thread)) refl count-yielded
        idle-yielded)

  -- thread_unblock of a blocked thread, not the idle one, does not fail, and keeps the scheduler's
  -- invariant.
  pub thread_unblock-IsScheduled :
      (t : ℕ) → status k t ≡ blocked → t ≢ k.idle_thread → Keeps (thread_unblock t k)
  unfolding thread_unblock
  thread_unblock-IsScheduled t b ne =
      let less = compare_priority k.threads in
      (
        _,
        if_true _ none (rw b),
        record {
          cur_running = ground (arith, v.cur_running);
          only_one = λ u nu. ground (arith, v.only_one u);
          open_queue = record {
            queued =
                λ u nu. ground (arith, v.open_queue.queued u, count-insert less u t k.ready_list);
            idle_out =
                ground
                  (arith, v.open_queue.idle_out, count-insert less k.idle_thread t k.ready_list);
          };
        },
      )
