-- ===== src/Timer/WakeUp.antt =====
-- wake_up of pintos-kaist/devices/timer.c against its specification: who is due is ready, and who is
-- not sleeps on.
use w12_13_vm.Common.{
  ℕ, ◌≤◌, ◌<◌, ◌≡◌, refl, sym, ap, ◌∙◌, List, [], ◌∷◌, true, false, Option, some, ltb,
  if◌then◌else◌, arith, Bool-cases, inl, inr, count,
}
use w12_13_vm.Common.Int.{ℤ, ltb_ℤ}
use w12_13_vm.KernelList.Order.{IsSorted, IsAsymmetric}
use w12_13_vm.Threads.State.{Kernel, ready, blocked, status}
use w12_13_vm.Threads.Sched.Invariant.{IsScheduled, thread_unblock-IsScheduled}
use w12_13_vm.Threads.Sched.Switch.{Unblocked, thread_unblock-Unblocked}
use w12_13_vm.Timer.{Sleeper, compare_tick, wake_sleepers}

pub compare_tick-asym : IsAsymmetric compare_tick
unfolding compare_tick
compare_tick-asym a b h = ground arith

abbrev pub names : List Sleeper → List ℕ
names [] = []
names (e ∷ es) = e.block_threads ∷ names es

-- The sleepers whose time comes after `cur_tick`.
unfoldable pub later : ℤ → List Sleeper → List Sleeper
later cur_tick [] = []
later cur_tick (e ∷ es) =
    let rest = later cur_tick es in if ltb_ℤ cur_tick e.wakeup_tick then e ∷ rest else rest

-- Each sleeper is blocked, is not the idle thread, and sleeps once.
pub record IsAsleep (k : Kernel) (es : List Sleeper) : Type 0 where
  pub all_blocked : (t : ℕ) → 0 < count t (names es) → status k t ≡ blocked
  pub once : (t : ℕ) → count t (names es) ≤ 1
  pub idle_out : count k.idle_thread (names es) ≡ 0

pub later-le :
    (cur_tick : ℤ) (es : List Sleeper) (t : ℕ)
    → count t (names (later cur_tick es)) ≤ count t (names es)
unfolding later
later-le cur_tick [] t = omega arith
later-le cur_tick (e ∷ es) t = ground (arith, later-le cur_tick es t)

-- In a sorted list nobody is due behind one that is not.
pub later-of_sorted :
    (cur_tick : ℤ) (e : Sleeper) (es : List Sleeper)
    → IsSorted compare_tick (e ∷ es)
    → ltb_ℤ cur_tick e.wakeup_tick ≡ true
    → later cur_tick es ≡ es
unfolding later compare_tick
later-of_sorted cur_tick e [] s h = refl
later-of_sorted cur_tick e (f ∷ fs) s h =
    let after : ltb_ℤ cur_tick f.wakeup_tick ≡ true = ground (arith, s.0) in
    rw (after, later-of_sorted cur_tick f fs s.1 after) refl

pub later-IsSorted :
    (cur_tick : ℤ) (es : List Sleeper)
    → IsSorted compare_tick es
    → IsSorted compare_tick (later cur_tick es)
unfolding later
later-IsSorted cur_tick [] s = tt
later-IsSorted cur_tick (e ∷ es) s = elim (Bool-cases (ltb_ℤ cur_tick e.wakeup_tick)) [
  | inl h ↦ rw (h, later-of_sorted cur_tick e es s h) s
  | inr h ↦ rw h (later-IsSorted cur_tick es s.1)
]

-- The loop has unblocked those of `es` that are due.
pub record Woken (cur_tick : ℤ) (es : List Sleeper) (k : Kernel)
    (r : Option (Kernel × List Sleeper)) : Type 0 where
  pub after : Kernel
  pub returned : r ≡ some (after, later cur_tick es)
  pub sched : IsScheduled after
  pub now_status :
      (t : ℕ)
      → status after t ≡ (
          if ltb (count t (names (later cur_tick es))) (count t (names es))
          then ready
          else status k t)
  pub same_idle : after.idle_thread ≡ k.idle_thread
  pub same_current : after.current ≡ k.current

IsAsleep-rest :
    (k k' : Kernel) (e : Sleeper) (es : List Sleeper)
    → IsAsleep k (e ∷ es)
    → Unblocked e.block_threads k k'
    → IsAsleep k' es
IsAsleep-rest k k' e es a u = record {
  all_blocked = λ t h. ground (arith, a.all_blocked t, a.once t, u.now_ready t);
  once = λ t. ground (arith, a.once t);
  idle_out = ground (arith, a.idle_out, u.same_idle);
}

nobody-Woken :
    (cur_tick : ℤ) (es : List Sleeper) (k : Kernel)
    → later cur_tick es ≡ es
    → IsScheduled k
    → Woken cur_tick es k (some (k, es))
nobody-Woken cur_tick es k q v = record {
  after = k;
  returned = ap (λ x. some (k, x)) (sym q);
  sched = v;
  now_status = λ t. rw q (ground arith);
  same_idle = refl;
  same_current = refl;
}

one-Woken :
    (cur_tick : ℤ) (e : Sleeper) (es : List Sleeper) (k k' : Kernel)
    (r : Option (Kernel × List Sleeper))
    → later cur_tick (e ∷ es) ≡ later cur_tick es
    → IsAsleep k (e ∷ es)
    → Unblocked e.block_threads k k'
    → Woken cur_tick es k' r
    → Woken cur_tick (e ∷ es) k r
one-Woken cur_tick e es k k' r q a u w = record {
  after = w.after;
  returned = w.returned ∙ ap (λ x. some (w.after, x)) (sym q);
  sched = w.sched;
  now_status =
      λ t. rw q (ground (arith, w.now_status t, u.now_ready t, later-le cur_tick es t, a.once t));
  same_idle = w.same_idle ∙ u.same_idle;
  same_current = w.same_current ∙ u.same_current;
}

later_nil : (cur_tick : ℤ) → later cur_tick [] ≡ []
unfolding later
later_nil cur_tick = refl

later_stay :
    (cur_tick : ℤ) (e : Sleeper) (es : List Sleeper)
    → IsSorted compare_tick (e ∷ es)
    → ltb_ℤ cur_tick e.wakeup_tick ≡ true
    → later cur_tick (e ∷ es) ≡ e ∷ es
unfolding later
later_stay cur_tick e es s h = rw (h, later-of_sorted cur_tick e es s h) refl

later_go :
    (cur_tick : ℤ) (e : Sleeper) (es : List Sleeper)
    → ltb_ℤ cur_tick e.wakeup_tick ≡ false
    → later cur_tick (e ∷ es) ≡ later cur_tick es
unfolding later
later_go cur_tick e es h = rw h refl

-- On a sorted list of sleeping threads, with the scheduler's invariant, the loop of wake_up does not
-- fail and keeps that invariant. It leaves those sleepers whose time comes later, in their order, and
-- makes the others ready.
pub wake_sleepers-Woken :
    (cur_tick : ℤ) (es : List Sleeper) (k : Kernel)
    → IsScheduled k
    → IsAsleep k es
    → IsSorted compare_tick es
    → Woken cur_tick es k (wake_sleepers cur_tick es k)
unfolding wake_sleepers
wake_sleepers-Woken cur_tick [] k v a s = nobody-Woken cur_tick [] k (later_nil cur_tick) v
wake_sleepers-Woken cur_tick (e ∷ es) k v a s = elim (Bool-cases (ltb_ℤ cur_tick e.wakeup_tick)) [
  | inl h ↦ rw h (nobody-Woken cur_tick (e ∷ es) k (later_stay cur_tick e es s h) v)
  | inr h ↦
      let (k', f, w) =
        thread_unblock-IsScheduled k v e.block_threads
          (a.all_blocked e.block_threads (ground arith)) (ground (arith, a.idle_out)) in
      let u = thread_unblock-Unblocked e.block_threads k k' f in
      rw (h, f)
        (one-Woken cur_tick e es k k' _ (later_go cur_tick e es h) a u
          (wake_sleepers-Woken cur_tick es k' w (IsAsleep-rest k k' e es a u) s.1))
]
