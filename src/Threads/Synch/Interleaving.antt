-- ===== src/Threads/Synch/Interleaving.antt =====
-- Every interleaving of threads that use pintos-kaist/threads/synch.c: the current thread executes its
-- next statement, makes further calls, or is preempted by the timer, interrupt handlers wake
-- threads, and the memory that malloc has left changes.
use w12_13_vm.Common.{ℕ, ◌≡◌, refl, List, [], Bool, true, false, none, some, arith}
use mathlib.Core.Path.{subst⁻¹}
use w12_13_vm.Threads.State.{Kernel, Stmt}
use w12_13_vm.Threads.Sched.{thread_yield, thread_unblock}
use w12_13_vm.Threads.Sched.Switch.{thread_yield-Switch}
use w12_13_vm.Threads.Synch.{exec, set_code}
use w12_13_vm.Threads.Synch.Frame.{Switch-SameLocks, thread_unblock-SameLocks}
use w12_13_vm.Threads.Synch.Ownership.{
  Excludes, at_mid, are_calls, tail-calls, at_mid_calls, same-Excludes, has_lock,
}
use w12_13_vm.Threads.Synch.Exclusion.{exec-Excludes, set_code-Excludes}

pub data Step (k k' : Kernel) : Type 0 where
  executes : exec k ≡ some k' → Step k k'
  preempted : thread_yield k ≡ some k' → Step k k'
  wakes : (t : ℕ) → thread_unblock t k ≡ some k' → Step k k'
  calls :
      (c : List Stmt)
      → (k.threads k.current).code ≡ []
      → are_calls c ≡ true
      → k' ≡ set_code k c
      → Step k k'
  fills : (has : ℕ → Bool) → k' ≡ record k { has_donation = has } → Step k k'

pub data Reach (k : Kernel) : Kernel → Type 0 where
  here : Reach k k
  next : {k' k'' : Kernel} → Reach k k' → Step k' k'' → Reach k k''

-- All locks are free, and what the threads have to do are calls.
pub record IsFresh (k : Kernel) : Type 0 where
  pub free : (l : ℕ) → ((k.locks l).holder ≡ none) × ((k.locks l).semaphore.value ≡ 1)
  pub only_calls : (t : ℕ) → are_calls (k.threads t).code ≡ true
  pub outside : k.intr_context ≡ false

IsFresh-Excludes : {k : Kernel} → IsFresh k → Excludes k
IsFresh-Excludes {k} f = record {
  owner = λ l. none;
  value_of = λ l. (f.free l).1;
  lock_of = λ l t. ground (arith, f.free l, at_mid_calls l (k.threads t).code (f.only_calls t));
  between = λ l t h. (f.free l).0;
  tails = λ t. tail-calls (k.threads t).code (f.only_calls t);
  outside = f.outside;
}

-- No step gives a lock a second owner.
pub Step-Excludes : {k k' : Kernel} → Step k k' → Excludes k → Excludes k'
unfolding at_mid
Step-Excludes {k} {k'} (executes e) v = exec-Excludes k k' v e
Step-Excludes {k} {k'} (preempted e) v =
    same-Excludes v (Switch-SameLocks (thread_yield-Switch k k' e))
Step-Excludes {k} {k'} (wakes t e) v = same-Excludes v (thread_unblock-SameLocks t k k' e)
Step-Excludes {k} {k'} (calls c e a q) v =
    subst⁻¹ Excludes q
      (set_code-Excludes k c v (λ m. rw (at_mid_calls m c a, e, at_mid) refl) (tail-calls c a))
Step-Excludes {k} {k'} (fills has q) v = subst⁻¹ Excludes q (
    same-Excludes v
      (record { codes = λ t. refl; holders = λ l. refl; values = λ l. refl; context = refl }))

pub Reach-Excludes : {k k' : Kernel} → Excludes k → Reach k k' → Excludes k'
Reach-Excludes v here = v
Reach-Excludes v (next r s) = Step-Excludes s (Reach-Excludes v r)

-- At any point of any interleaving from a state where all locks are free at most one thread has a lock, be
-- it the holder, about to become it or just past it; and while a thread has the lock, the lock's semaphore is 0.
pub mutual_exclusion :
    {k k' : Kernel}
    → IsFresh k
    → Reach k k'
    → (l t u : ℕ) → has_lock k' l t ≡ true
    → (has_lock k' l u ≡ true → t ≡ u) × ((k'.locks l).semaphore.value ≡ 0)
mutual_exclusion f r l t u h =
    let v = Reach-Excludes (IsFresh-Excludes f) r in
    (
      λ g. ground (arith, v.lock_of l t, v.lock_of l u, h, g),
      ground (arith, v.lock_of l t, v.value_of l, h),
    )
