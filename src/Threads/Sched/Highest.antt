-- ===== src/Threads/Sched/Highest.antt =====
-- After compare_cur_next_priority of pintos-kaist/threads/thread.c no ready thread has a higher
-- priority than the thread that runs.
use w12_13_vm.Common.{
  ℕ, ◌≤◌, ◌<◌, ◌≡◌, refl, List, [], ◌∷◌, Bool, false, Option, some, ltb, ◌==◌, count, arith,
  Bool-cases, inl, inr, ◌∙◌,
}
use mathlib.Core.Path.{subst}
use w12_13_vm.KernelList.{list_sort}
use w12_13_vm.KernelList.Order.{IsSorted}
use w12_13_vm.KernelList.Insert.{list_insert_ordered-IsSorted}
use w12_13_vm.KernelList.Sort.{list_sort-IsSorted}
use w12_13_vm.KernelList.Count.{count-sort}
use w12_13_vm.Threads.State.{Kernel, Thread, ready, priority}
use w12_13_vm.Threads.Sched.{
  compare_priority, next_thread_to_run, thread_yield, compare_cur_next_priority,
}
use w12_13_vm.Threads.Sched.Invariant.{IsScheduled, compare_priority-asym, thread_yield-IsScheduled}
use w12_13_vm.Threads.Sched.Switch.{Switch, with_current, thread_yield-Switch}

-- The first thread of a sorted list has the highest priority in it.
pub sorted_highest :
    (threads : ℕ → Thread) (x : ℕ) (xs : List ℕ) (t : ℕ)
    → IsSorted (compare_priority threads) (x ∷ xs)
    → 0 < count t (x ∷ xs)
    → (threads t).priority ≤ (threads x).priority
unfolding compare_priority
sorted_highest threads x [] t s c = ground arith
sorted_highest threads x (y ∷ ys) t s c = ground (arith, sorted_highest threads y ys t s.1)

-- No ready thread has a higher priority than the current one.
abbrev pub RunsHighest : Kernel → Type 0
RunsHighest k = (t : ℕ) → 0 < count t k.ready_list → priority k t ≤ priority k k.current

-- A thread that yields with a sorted ready list hands over to the highest of all.
pub thread_yield-RunsHighest :
    (k k' : Kernel)
    → IsSorted (compare_priority k.threads) k.ready_list
    → thread_yield k ≡ some k'
    → RunsHighest k'
unfolding next_thread_to_run
thread_yield-RunsHighest k k' s e = go (with_current k) (thread_yield-Switch k k' e) sorted
  where
    less : ℕ → ℕ → Bool
    less = compare_priority k.threads

    sorted : IsSorted less (with_current k)
    sorted = elim (Bool-cases (k.current == k.idle_thread)) [
      | inl i ↦ rw i s
      | inr i ↦ rw i (
          list_insert_ordered-IsSorted less (compare_priority-asym k.threads) k.ready_list k.current
            s)
    ]

    go : (xs : List ℕ) → Switch ready xs k k' → IsSorted less xs → RunsHighest k'
    go [] sw so t c = ground (arith, sw.ready_rest)
    go (x ∷ xs) sw so t c = ground (
      arith,
      sw.cur_next,
      sw.ready_rest,
      sw.same_threads t,
      sw.same_threads k'.current,
      sorted_highest k.threads x xs t so,
    )

module _ (k : Kernel) where
  -- The ready list as compare_cur_next_priority leaves it where nobody yields.
  abbrev pub resorted : Kernel
  resorted = record k { ready_list = list_sort (compare_priority k.threads) k.ready_list }

  pub resorted-IsScheduled : IsScheduled k → IsScheduled resorted
  resorted-IsScheduled v =
      let less = compare_priority k.threads in
      let asym = compare_priority-asym k.threads in
      record {
        cur_running = v.cur_running;
        only_one = v.only_one;
        open_queue = record {
          queued =
              λ t ne. ground (arith, count-sort less asym t k.ready_list, v.open_queue.queued t);
          idle_out =
              ground
                (arith, count-sort less asym k.idle_thread k.ready_list, v.open_queue.idle_out);
        };
      }

  -- The three ways compare_cur_next_priority goes outside interrupts.
  pub data Compared : Option Kernel → Type 0 where
    nobody : {r : Option Kernel} → k.ready_list ≡ [] → r ≡ some k → Compared r
    stays :
        {r : Option Kernel} (x : ℕ) (xs : List ℕ)
        → list_sort (compare_priority k.threads) k.ready_list ≡ x ∷ xs
        → priority k x ≤ priority k k.current
        → r ≡ some resorted
        → Compared r
    yields : {r : Option Kernel} → r ≡ thread_yield resorted → Compared r

  compare_ways :
      k.intr_context ≡ false
      → (xs ys : List ℕ) → k.ready_list ≡ xs
      → list_sort (compare_priority k.threads) k.ready_list ≡ ys
      → Compared (compare_cur_next_priority k)
  unfolding compare_cur_next_priority
  compare_ways c [] ys e f = nobody e (ground arith)
  compare_ways c (x ∷ xs) [] e f = absurd (
      ground (
        arith,
        count-sort (compare_priority k.threads) (compare_priority-asym k.threads) x k.ready_list,
      ))
  compare_ways c (x ∷ xs) (y ∷ ys) e f =
      elim (Bool-cases (ltb (priority k k.current) (priority k y))) [
        | inl h ↦ yields (ground arith)
        | inr h ↦ stays y ys f (ground arith) (ground arith)
      ]

  pub compare_cur_next_priority-Compared :
      k.intr_context ≡ false → Compared (compare_cur_next_priority k)
  compare_cur_next_priority-Compared c = compare_ways c _ _ refl refl

  resorted-IsSorted : IsSorted (compare_priority k.threads) resorted.ready_list
  resorted-IsSorted =
      list_sort-IsSorted (compare_priority k.threads) (compare_priority-asym k.threads) k.ready_list

  compare_of :
      (r : Option Kernel)
      → Compared r
      → IsScheduled k
      → k.intr_context ≡ false
      → (k' : Kernel) × (r ≡ some k') × IsScheduled k' × RunsHighest k'
  compare_of r (nobody e f) v c = (k, f, v, λ t n. ground (arith, e))
  compare_of r (stays x xs f h e) v c = (
    resorted,
    e,
    resorted-IsScheduled v,
    λ t n. ground (
      arith,
      sorted_highest k.threads x xs t
          (subst (IsSorted (compare_priority k.threads)) f resorted-IsSorted),
      f,
    ),
  )
  compare_of r (yields e) v c =
      let (k', f, w) = thread_yield-IsScheduled resorted (resorted-IsScheduled v) c in
      (k', e ∙ f, w, thread_yield-RunsHighest resorted k' resorted-IsSorted f)

  -- Outside interrupts compare_cur_next_priority does not fail and keeps the scheduler's invariant,
  -- and then no ready thread has a higher priority than the current one.
  pub compare_cur_next_priority-RunsHighest :
      IsScheduled k
      → k.intr_context ≡ false
      → (k' : Kernel) × (compare_cur_next_priority k ≡ some k') × IsScheduled k' × RunsHighest k'
  compare_cur_next_priority-RunsHighest v c =
      compare_of _ (compare_cur_next_priority-Compared c) v c
