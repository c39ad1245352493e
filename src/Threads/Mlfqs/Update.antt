-- ===== src/Threads/Mlfqs/Update.antt =====
-- update_all_priority and thread_set_nice of pintos-kaist/threads/thread.c.
use mathlib.Core.Path.{subst}
use w12_13_vm.Common.{
  ℕ, ◌≤◌, ◌<◌, ◌≡◌, refl, sym, ap, ◌∙◌, if_true, Bool, true, false, not, ◌&&◌, Option, some, ltb,
  arith, count, if◌then◌else◌,
}
use w12_13_vm.Common.Int.{ℤ}
use w12_13_vm.Threads.State.{Kernel, Thread, priority, set_thread, pri_max}
use w12_13_vm.Threads.Sched.Invariant.{IsScheduled}
use w12_13_vm.Threads.Sched.Highest.{RunsHighest, compare_cur_next_priority-RunsHighest}
use w12_13_vm.Threads.Sched.Deferred.{compare_cur_next_priority-Defers}
use w12_13_vm.Threads.Mlfqs.{
  update_priority, is_passed, priority_loop, update_all_priority, thread_set_nice, raw_priority,
}
use w12_13_vm.Threads.Mlfqs.Formula.{magnitude, IsFormula, raw_priority-IsFormula}
use w12_13_vm.Threads.Mlfqs.Refresh.{
  SameButPriority-IsScheduled, update_priority-Same, priority_loop-Same, priority_loop_lem,
  refreshed, clamp-le,
}

-- The priorities are those of the formula, from 0 to 63, and the current thread is asked to
-- yield if it has no longer the highest.
pub record Refreshes (k : Kernel) (r : Option Kernel) : Type 0 where
  pub after : Kernel
  pub returned : r ≡ some after
  pub sched : IsScheduled after
  pub same_current : after.current ≡ k.current
  pub by_formula :
      (t : ℕ)
      → 0 < count t k.all_list
      → is_passed t k ≡ false
      → magnitude (k.threads t).recent_cpu < 2147483648
      → magnitude (k.threads t).nice < 16777216
      → IsFormula (k.threads t).recent_cpu (k.threads t).nice (priority after t)
  pub only_priority :
      (t : ℕ) → after.threads t ≡ record (k.threads t) { priority = priority after t }
  pub kept :
      (t : ℕ)
      → (ltb 0 (count t k.all_list) && not (is_passed t k)) ≡ false
      → after.threads t ≡ k.threads t
  pub in_bounds :
      (t : ℕ) → 0 < count t k.all_list → is_passed t k ≡ false → priority after t ≤ pri_max
  pub asks :
      (t : ℕ)
      → 0 < count t after.ready_list
      → priority after after.current < priority after t
      → after.yield_on_return ≡ true

refreshed-le : (th : Thread) → (refreshed th).priority ≤ pri_max
unfolding refreshed
refreshed-le th = clamp-le (raw_priority th)

refreshed-IsFormula :
    (th : Thread)
    → magnitude th.recent_cpu < 2147483648
    → magnitude th.nice < 16777216
    → IsFormula th.recent_cpu th.nice (refreshed th).priority
unfolding refreshed
refreshed-IsFormula th c n = raw_priority-IsFormula th c n

priority_alone :
    (b : Bool) (old new : Thread)
    → new ≡ (if b then refreshed old else old)
    → new ≡ record old { priority = new.priority }
unfolding refreshed
priority_alone true old new e =
    e ∙ ap (λ (x : Thread). record old { priority = x.priority }) (sym e)
priority_alone false old new e =
    e ∙ ap (λ (x : Thread). record old { priority = x.priority }) (sym e)

module _ (k : Kernel) (v : IsScheduled k) where
  -- In an interrupt update_all_priority does not fail and keeps the scheduler's invariant and the
  -- current thread. Each thread of `all_list` that is neither dying nor the idle one gets the priority
  -- 63 - recent_cpu / 4 - 2 * nice, rounded and brought to the numbers from 0 to 63, if its recent_cpu has 32 bits
  -- and its nice a magnitude below 2^24; in any case the priority is at most 63. Nothing else of a thread changes,
  -- and no other thread. If a ready thread then has a higher priority than the current one, a yield on return is
  -- asked for.
  pub update_all_priority-Refreshes : k.intr_context ≡ true → Refreshes k (update_all_priority k)
  unfolding update_all_priority
  update_all_priority-Refreshes c =
      let k1 = priority_loop k.all_list k in
      let s = priority_loop-Same k.all_list k in
      let d =
        compare_cur_next_priority-Defers k1 (SameButPriority-IsScheduled s v)
          (s.same_context ∙ c) in
      let new = λ (t : ℕ). ap (λ f. f t) d.same_threads ∙ priority_loop_lem k.all_list k t in
      record {
        after = d.after;
        returned = d.returned;
        sched = d.sched;
        same_current = d.same_current ∙ s.same_current;
        by_formula = λ t n p c m.
            let listed : (ltb 0 (count t k.all_list) && not (is_passed t k)) ≡ true =
              ground arith in
            let made = new t ∙ if_true _ _ listed in
            subst (λ x. IsFormula (k.threads t).recent_cpu (k.threads t).nice x)
              (ap (λ (x : Thread). x.priority) (sym made)) (refreshed-IsFormula (k.threads t) c m);
        only_priority = λ t. priority_alone _ (k.threads t) (d.after.threads t) (new t);
        kept = λ t h. new t ∙ rw h refl;
        in_bounds = λ t n p. ground (arith, new t, refreshed-le (k.threads t));
        asks = λ t n h. d.asks t n (ground (arith, h, d.same_threads, d.same_current));
      }

  -- The state in which thread_set_nice looks for a higher thread.
  abbrev niced : ℤ → Kernel
  niced nice = set_thread k k.current (record (k.threads k.current) { nice = nice })

  niced-IsScheduled : (nice : ℤ) → IsScheduled (niced nice)
  niced-IsScheduled nice = record {
    cur_running = ground (arith, v.cur_running);
    only_one = λ t ne. ground (arith, v.only_one t);
    open_queue = record {
      queued = λ t ne. ground (arith, v.open_queue.queued t);
      idle_out = v.open_queue.idle_out;
    };
  }

  -- Outside interrupts thread_set_nice does not fail and keeps the scheduler's invariant, and then no
  -- ready thread has a higher priority than the current one.
  pub thread_set_nice-RunsHighest :
      (nice : ℤ)
      → k.intr_context ≡ false
      → (k' : Kernel) × (thread_set_nice nice k ≡ some k') × IsScheduled k' × RunsHighest k'
  unfolding thread_set_nice
  thread_set_nice-RunsHighest nice c =
      let s = update_priority-Same k.current (niced nice) in
      compare_cur_next_priority-RunsHighest (update_priority k.current (niced nice))
        (SameButPriority-IsScheduled s (niced-IsScheduled nice)) (s.same_context ∙ c)
