-- ===== src/Threads/Mlfqs/Refresh.antt =====
-- The priorities of the multi-level feedback queue of pintos-kaist/threads/thread.c.
use w12_13_vm.Common.{
  ℕ, ◌≤◌, ◌≡◌, refl, ◌∙◌, List, [], ◌∷◌, not, ◌&&◌, ltb, ◌==◌, arith, Bool-cases, inl, inr, count,
  if◌then◌else◌,
}
use w12_13_vm.Common.Int.{ℤ}
use w12_13_vm.Threads.State.{Kernel, Thread, status, pri_max}
use w12_13_vm.Threads.Sched.Invariant.{IsScheduled}
use w12_13_vm.Threads.Mlfqs.{raw_priority, clamp, update_priority, is_passed, priority_loop}

-- A priority is from PRI_MIN to PRI_MAX.
pub clamp-le : (p : ℤ) → clamp p ≤ pri_max
unfolding clamp
clamp-le p = ground arith

-- Priorities change, and no thread's status.
pub record SameButPriority (k k' : Kernel) : Type 0 where
  pub same_current : k'.current ≡ k.current
  pub same_ready : k'.ready_list ≡ k.ready_list
  pub same_idle : k'.idle_thread ≡ k.idle_thread
  pub same_context : k'.intr_context ≡ k.intr_context
  pub same_status : (t : ℕ) → status k' t ≡ status k t

pub SameButPriority-IsScheduled :
    {k k' : Kernel} → SameButPriority k k' → IsScheduled k → IsScheduled k'
SameButPriority-IsScheduled {k} {k'} s v = record {
  cur_running = ground (arith, s.same_current, s.same_status k.current, v.cur_running);
  only_one = λ t ne. ground (arith, s.same_current, s.same_status t, v.only_one t);
  open_queue = record {
    queued =
        λ t ne. ground (arith, s.same_idle, s.same_ready, s.same_status t, v.open_queue.queued t);
    idle_out = ground (arith, s.same_idle, s.same_ready, v.open_queue.idle_out);
  };
}

pub update_priority-Same : (t : ℕ) (k : Kernel) → SameButPriority k (update_priority t k)
unfolding update_priority
update_priority-Same t k = record {
  same_current = ground arith;
  same_ready = ground arith;
  same_idle = ground arith;
  same_context = ground arith;
  same_status = λ u. ground arith;
}

-- What update_priority makes of a thread.
unfoldable pub refreshed : Thread → Thread
refreshed th = record th { priority = clamp (raw_priority th) }

refreshed_twice : (th : Thread) → refreshed (refreshed th) ≡ refreshed th
unfolding refreshed raw_priority
refreshed_twice th = refl

update_priority_lem :
    (t u : ℕ) (k : Kernel)
    → (update_priority t k).threads u
      ≡ (if (t == u) && not (t == k.idle_thread) then refreshed (k.threads u) else k.threads u)
unfolding update_priority refreshed
update_priority_lem t u k = ground arith

trans-Same :
    {k k' k'' : Kernel} → SameButPriority k k' → SameButPriority k' k'' → SameButPriority k k''
trans-Same a b = record {
  same_current = b.same_current ∙ a.same_current;
  same_ready = b.same_ready ∙ a.same_ready;
  same_idle = b.same_idle ∙ a.same_idle;
  same_context = b.same_context ∙ a.same_context;
  same_status = λ t. b.same_status t ∙ a.same_status t;
}

-- One round of the loop, at the thread `t`.
abbrev one_round : ℕ → Kernel → Kernel
one_round t k = if is_passed t k then k else update_priority t k

one_round-Same : (t : ℕ) (k : Kernel) → SameButPriority k (one_round t k)
one_round-Same t k = elim (Bool-cases (is_passed t k)) [
  | inl h ↦ rw h (record {
    same_current = refl;
    same_ready = refl;
    same_idle = refl;
    same_context = refl;
    same_status = λ u. refl;
  })
  | inr h ↦ rw h (update_priority-Same t k)
]

one_round_lem :
    (t u : ℕ) (k : Kernel)
    → (one_round t k).threads u
      ≡ (if (t == u) && not (is_passed u k) then refreshed (k.threads u) else k.threads u)
one_round_lem t u k = ground (arith, update_priority_lem t u k)

is_passed-same : (k k' : Kernel) (t : ℕ) → SameButPriority k k' → is_passed t k' ≡ is_passed t k
is_passed-same k k' t s = ground (arith, s.same_status t, s.same_idle)

pub priority_loop-Same : (ts : List ℕ) (k : Kernel) → SameButPriority k (priority_loop ts k)
unfolding priority_loop
priority_loop-Same [] k = record {
  same_current = refl;
  same_ready = refl;
  same_idle = refl;
  same_context = refl;
  same_status = λ u. refl;
}
priority_loop-Same (t ∷ ts) k =
    trans-Same (one_round-Same t k) (priority_loop-Same ts (one_round t k))

-- The loop refreshes the threads of the list, but for the idle one and those that are dying.
pub priority_loop_lem :
    (ts : List ℕ) (k : Kernel) (u : ℕ)
    → (priority_loop ts k).threads u
      ≡ (if ltb 0 (count u ts) && not (is_passed u k) then refreshed (k.threads u) else k.threads u)
unfolding priority_loop
priority_loop_lem [] k u = refl
priority_loop_lem (t ∷ ts) k u =
    let k1 = one_round t k in
    ground (
      arith,
      priority_loop_lem ts k1 u,
      one_round_lem t u k,
      is_passed-same k k1 u (one_round-Same t k),
      refreshed_twice (k.threads u),
    )
