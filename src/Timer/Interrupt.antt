-- ===== src/Timer/Interrupt.antt =====
-- The timer interrupt of pintos-kaist/devices/timer.c: nobody sleeps longer than asked for.
use w12_13_vm.Common.{
  ℕ, ◌≤◌, ◌<◌, ◌≡◌, refl, sym, ◌∙◌, List, [], ◌∷◌, true, false, not, ◌&&◌, Option, some, ltb,
  if◌then◌else◌, arith, Bool-cases, inl, inr, count,
}
use w12_13_vm.Common.Int.{ℤ, pos, ◌+ℤ◌, ltb_ℤ}
use w12_13_vm.KernelList.Order.{IsSorted}
use w12_13_vm.Threads.State.{Kernel, ready, status}
use w12_13_vm.Threads.Sched.{thread_tick_slice}
use w12_13_vm.Threads.Sched.Invariant.{IsScheduled}
use w12_13_vm.Timer.{
  Timer, Sleeper, compare_tick, wake_sleepers, wake_up, front_tick, timer_interrupt, is_null,
}
use w12_13_vm.Timer.WakeUp.{
  IsAsleep, Woken, later, later-of_sorted, later-IsSorted, wake_sleepers-Woken, names,
}

-- All sleepers wait for a tick after 0, which stands for NULL.
abbrev pub ArePositive : List Sleeper → Type 0
ArePositive [] = Unit {0}
ArePositive (e ∷ es) = (ltb_ℤ (pos 0) e.wakeup_tick ≡ true) × ArePositive es

pub record IsTimed (s : Timer) : Type 0 where
  pub sched : IsScheduled s.kernel
  pub asleep : IsAsleep s.kernel s.block_thread_list
  pub sorted : IsSorted compare_tick s.block_thread_list
  pub positive : ArePositive s.block_thread_list
  pub closest : s.closet_tick ≡ front_tick s.block_thread_list

later-ArePositive :
    (cur_tick : ℤ) (es : List Sleeper) → ArePositive es → ArePositive (later cur_tick es)
unfolding later
later-ArePositive cur_tick [] p = tt
later-ArePositive cur_tick (e ∷ es) p = elim (Bool-cases (ltb_ℤ cur_tick e.wakeup_tick)) [
  | inl h ↦ rw h (p.0, later-ArePositive cur_tick es p.1)
  | inr h ↦ rw h (later-ArePositive cur_tick es p.1)
]

later-once :
    (cur_tick : ℤ) (es : List Sleeper) (t : ℕ)
    → count t (names (later cur_tick es)) ≤ count t (names es)
unfolding later
later-once cur_tick [] t = omega arith
later-once cur_tick (e ∷ es) t = ground (arith, later-once cur_tick es t)

-- What one timer interrupt makes of the sleepers: those that are due are ready, the others sleep on.
pub record Ticked (s : Timer) (r : Option Timer) : Type 0 where
  pub after : Timer
  pub returned : r ≡ some after
  pub timed : IsTimed after
  pub next_tick : after.ticks ≡ s.ticks +ℤ pos 1
  pub sleep_on : after.block_thread_list ≡ later after.ticks s.block_thread_list
  pub now_status :
      (t : ℕ)
      → status after.kernel t ≡ (
          if ltb (count t (names after.block_thread_list)) (count t (names s.block_thread_list))
          then ready
          else status s.kernel t)

not_less : (n m : ℕ) → n ≤ m → m ≤ 1 → 0 < n → ltb n m ≡ false
not_less n m a b c = ground arith

module _ (s : Timer) (v : IsTimed s) where
  -- The state with which wake_up begins.
  abbrev ticked : Timer
  ticked = record s { ticks = s.ticks +ℤ pos 1; kernel = thread_tick_slice s.kernel }

  slice-IsScheduled : IsScheduled (thread_tick_slice s.kernel)
  unfolding thread_tick_slice
  slice-IsScheduled = record {
    cur_running = ground (arith, v.sched.cur_running);
    only_one = λ t ne. ground (arith, v.sched.only_one t);
    open_queue = record {
      queued = λ t ne. ground (arith, v.sched.open_queue.queued t);
      idle_out = ground (arith, v.sched.open_queue.idle_out);
    };
  }

  slice_status : (t : ℕ) → status (thread_tick_slice s.kernel) t ≡ status s.kernel t
  unfolding thread_tick_slice
  slice_status t = ground arith

  slice_idle : (thread_tick_slice s.kernel).idle_thread ≡ s.kernel.idle_thread
  unfolding thread_tick_slice
  slice_idle = ground arith

  ticked-IsTimed : IsTimed ticked
  ticked-IsTimed = record {
    sched = slice-IsScheduled;
    asleep = record {
      all_blocked = λ t h. slice_status t ∙ v.asleep.all_blocked t h;
      once = v.asleep.once;
      idle_out = rw slice_idle v.asleep.idle_out;
    };
    sorted = v.sorted;
    positive = v.positive;
    closest = v.closest;
  }

  -- Nobody is due.
  quiet-Ticked :
      later ticked.ticks s.block_thread_list ≡ s.block_thread_list → Ticked s (some ticked)
  quiet-Ticked q = record {
    after = ticked;
    returned = refl;
    timed = ticked-IsTimed;
    next_tick = refl;
    sleep_on = sym q;
    now_status = λ t. ground (arith, slice_status t);
  }

  Woken-Ticked :
      {r : Option (Kernel × List Sleeper)}
      → Woken ticked.ticks s.block_thread_list ticked.kernel r
      → wake_sleepers ticked.ticks s.block_thread_list ticked.kernel ≡ r
      → Ticked s (wake_up ticked.ticks ticked)
  unfolding wake_up
  Woken-Ticked {r} w e =
      let es = later ticked.ticks s.block_thread_list in
      let once = later-once ticked.ticks s.block_thread_list in
      rw (e ∙ w.returned, wake_up)
        (record {
          after = record ticked {
            kernel = w.after;
            block_thread_list = es;
            closet_tick = front_tick es;
          };
          returned = refl;
          timed = record {
            sched = w.sched;
            asleep = record {
              all_blocked = λ t h.
                  (rw (not_less _ _ (once t) (v.asleep.once t) h) at (w.now_status t))
                  ∙ slice_status t
                  ∙ v.asleep.all_blocked t (omega (arith, once t, h));
              once = λ t. omega (arith, once t, v.asleep.once t);
              idle_out =
                  ground
                    (arith, w.same_idle, slice_idle, once s.kernel.idle_thread, v.asleep.idle_out);
            };
            sorted = later-IsSorted ticked.ticks s.block_thread_list v.sorted;
            positive = later-ArePositive ticked.ticks s.block_thread_list v.positive;
            closest = refl;
          };
          next_tick = refl;
          sleep_on = refl;
          now_status = λ t. ground (arith, w.now_status t, slice_status t);
        })

  front_quiet :
      (cur_tick : ℤ) (es : List Sleeper)
      → IsSorted compare_tick es
      → ArePositive es
      → (not (is_null (front_tick es)) && not (ltb_ℤ cur_tick (front_tick es))) ≡ false
      → later cur_tick es ≡ es
  unfolding later front_tick
  front_quiet cur_tick [] o p h = refl
  front_quiet cur_tick (e ∷ es) o p h =
      let after : ltb_ℤ cur_tick e.wakeup_tick ≡ true = ground (arith, p.0) in
      rw (after, later-of_sorted cur_tick e es o after) refl

  -- From a state in which the invariant of the sleepers holds, the timer interrupt does not fail and
  -- keeps the invariant. Those whose tick has come are ready afterwards and off the list; the others
  -- are still asleep, and nobody else's status changes.
  pub timer_interrupt-Ticked : Ticked s (timer_interrupt s)
  unfolding timer_interrupt
  timer_interrupt-Ticked =
      let due = not (is_null s.closet_tick) && not (ltb_ℤ ticked.ticks s.closet_tick) in
      elim (Bool-cases due) [
        | inl h ↦ rw h (
            Woken-Ticked
              (wake_sleepers-Woken ticked.ticks s.block_thread_list ticked.kernel slice-IsScheduled
                ticked-IsTimed.asleep v.sorted)
              refl)
        | inr h ↦ rw h (
            quiet-Ticked (
              front_quiet ticked.ticks s.block_thread_list v.sorted v.positive (rw v.closest at h)))
      ]
