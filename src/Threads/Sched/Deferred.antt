-- ===== src/Threads/Sched/Deferred.antt =====
-- compare_cur_next_priority of pintos-kaist/threads/thread.c in an interrupt, where the current thread
-- cannot yield at once.
use mathlib.Core.Path.{subst}
use w12_13_vm.Common.{
  ℕ, ◌<◌, ◌≡◌, refl, List, [], ◌∷◌, true, Option, some, ltb, arith, Bool-cases, inl, inr, count,
}
use w12_13_vm.KernelList.{list_sort}
use w12_13_vm.KernelList.Order.{IsSorted}
use w12_13_vm.KernelList.Sort.{list_sort-IsSorted}
use w12_13_vm.KernelList.Count.{count-sort}
use w12_13_vm.Threads.State.{Kernel, priority}
use w12_13_vm.Threads.Sched.{compare_priority, compare_cur_next_priority}
use w12_13_vm.Threads.Sched.Invariant.{IsScheduled, compare_priority-asym}
use w12_13_vm.Threads.Sched.Highest.{resorted, resorted-IsScheduled, sorted_highest}

-- The current thread goes on, and yields on return if a ready thread has a higher priority.
pub record Defers (k : Kernel) (r : Option Kernel) : Type 0 where
  pub after : Kernel
  pub returned : r ≡ some after
  pub sched : IsScheduled after
  pub same_current : after.current ≡ k.current
  pub same_threads : after.threads ≡ k.threads
  pub asks :
      (t : ℕ)
      → 0 < count t after.ready_list
      → priority k k.current < priority k t
      → after.yield_on_return ≡ true

module _ (k : Kernel) (v : IsScheduled k) where
  compare_ways :
      k.intr_context ≡ true
      → (xs ys : List ℕ) → k.ready_list ≡ xs
      → list_sort (compare_priority k.threads) k.ready_list ≡ ys
      → Defers k (compare_cur_next_priority k)
  unfolding compare_cur_next_priority
  compare_ways c [] ys e f =
      rw (e, compare_cur_next_priority)
        (record {
          after = k;
          returned = refl;
          sched = v;
          same_current = refl;
          same_threads = refl;
          asks = λ t n h. ground (arith, e);
        })
  compare_ways c (x ∷ xs) [] e f = absurd (
      ground (
        arith,
        count-sort (compare_priority k.threads) (compare_priority-asym k.threads) x k.ready_list,
      ))
  compare_ways c (x ∷ xs) (y ∷ ys) e f =
      let w = resorted-IsScheduled k v in
      elim (Bool-cases (ltb (priority k k.current) (priority k y))) [
        | inl h ↦ record {
          after = record (resorted k) { yield_on_return = true };
          returned = ground arith;
          sched = record {
            cur_running = w.cur_running;
            only_one = w.only_one;
            open_queue = record { queued = w.open_queue.queued; idle_out = w.open_queue.idle_out };
          };
          same_current = refl;
          same_threads = refl;
          asks = λ t n l. refl;
        }
        | inr h ↦ record {
          after = resorted k;
          returned = ground arith;
          sched = w;
          same_current = refl;
          same_threads = refl;
          asks = λ t n l. absurd (
              ground (
                arith,
                sorted_highest k.threads y ys t (
                    subst (IsSorted (compare_priority k.threads)) f (
                      list_sort-IsSorted (compare_priority k.threads)
                        (compare_priority-asym k.threads) k.ready_list)),
                f,
              ));
        }
      ]

  -- In an interrupt compare_cur_next_priority does not fail, keeps the scheduler's invariant, the
  -- current thread and all threads' records, and asks for a yield on return if a ready thread has a
  -- higher priority than the current one.
  pub compare_cur_next_priority-Defers :
      k.intr_context ≡ true → Defers k (compare_cur_next_priority k)
  compare_cur_next_priority-Defers c = compare_ways c _ _ refl refl
