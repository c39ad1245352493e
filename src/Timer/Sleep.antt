-- ===== src/Timer/Sleep.antt =====
-- timer_sleep of pintos-kaist/devices/timer.c.
use w12_13_vm.Common.{
  ℕ, ◌+◌, ◌<◌, ◌≡◌, ◌≢◌, refl, sym, ◌∙◌, List, [], ◌∷◌, true, false, ◌||◌, Option, some, ◌==◌,
  if◌then◌else◌, arith, Bool-cases, inl, inr, if_true, count,
}
use w12_13_vm.Common.Int.{ℤ, pos, ◌+ℤ◌, ltb_ℤ}
use w12_13_vm.KernelList.{list_insert_ordered}
use w12_13_vm.KernelList.Insert.{list_insert_ordered-IsSorted}
use w12_13_vm.Threads.State.{Kernel, blocked, status}
use w12_13_vm.Threads.Sched.{next_thread_to_run}
use w12_13_vm.Threads.Sched.Invariant.{thread_block-IsScheduled}
use w12_13_vm.Threads.Sched.Switch.{Switch, thread_block-Switch}
use w12_13_vm.Timer.{Timer, Sleeper, compare_tick, front_tick, timer_sleep, is_null, is_int64}
use w12_13_vm.Timer.WakeUp.{IsAsleep, names, compare_tick-asym}
use w12_13_vm.Timer.Interrupt.{IsTimed, ArePositive}

names-insert :
    (t : ℕ) (es : List Sleeper) (x : Sleeper)
    → count t (names (list_insert_ordered compare_tick es x))
      ≡ (if t == x.block_threads then 1 else 0) + count t (names es)
unfolding list_insert_ordered
names-insert t [] x = refl
names-insert t (e ∷ es) x = elim (Bool-cases (compare_tick x e)) [
  | inl h ↦ rw h refl
  | inr h ↦ rw h (omega (arith, names-insert t es x))
]

ArePositive-insert :
    (es : List Sleeper) (x : Sleeper)
    → ltb_ℤ (pos 0) x.wakeup_tick ≡ true
    → ArePositive es
    → ArePositive (list_insert_ordered compare_tick es x)
unfolding list_insert_ordered
ArePositive-insert [] x h p = (h, tt)
ArePositive-insert (e ∷ es) x h p = elim (Bool-cases (compare_tick x e)) [
  | inl l ↦ rw l (h, p)
  | inr l ↦ rw l (p.0, ArePositive-insert es x h p.1)
]

-- What timer_sleep keeps in closet_tick is the tick at the front of the new list.
closest-insert :
    (es : List Sleeper) (x : Sleeper) (closest : ℤ)
    → ArePositive es
    → closest ≡ front_tick es
    → (if is_null closest || ltb_ℤ x.wakeup_tick closest then x.wakeup_tick else closest)
      ≡ front_tick (list_insert_ordered compare_tick es x)
unfolding list_insert_ordered front_tick compare_tick
closest-insert [] x closest p q = rw q refl
closest-insert (e ∷ es) x closest p q = rw q (ground (arith, p.0))

next_other :
    (idle t : ℕ) (rs : List ℕ) → t ≢ idle → count t rs ≡ 0 → (next_thread_to_run idle rs).0 ≢ t
unfolding next_thread_to_run
next_other idle t [] ne c e = ne (sym e)
next_other idle t (r ∷ rs) ne c e = ground arith

-- The current thread sleeps till `ticks` ticks from now, and another one runs.
pub record Slept (ticks : ℤ) (s : Timer) (r : Option Timer) : Type 0 where
  pub after : Timer
  pub returned : r ≡ some after
  pub timed : IsTimed after
  pub now_blocked : status after.kernel s.kernel.current ≡ blocked
  pub sleeps :
      after.block_thread_list
      ≡ list_insert_ordered compare_tick s.block_thread_list
          (record { block_threads = s.kernel.current; wakeup_tick = s.ticks +ℤ ticks })

module _ (s : Timer) (v : IsTimed s) (k' : Kernel)
    (sw : Switch blocked s.kernel.ready_list s.kernel k') where
  still :
      (t : ℕ)
      → t ≢ s.kernel.idle_thread
      → count t s.kernel.ready_list ≡ 0
      → status k' t ≡ (if s.kernel.current == t then blocked else status s.kernel t)
  still t ne c =
      let other = next_other s.kernel.idle_thread t s.kernel.ready_list ne c in
      ground (arith, sw.same_threads t, sw.cur_next, other)

  not_ready : (t : ℕ) → 0 < count t (names s.block_thread_list) → count t s.kernel.ready_list ≡ 0
  not_ready t h =
      ground (arith, v.sched.open_queue.queued t, v.asleep.all_blocked t h, v.asleep.idle_out)

  current_awake : count s.kernel.current (names s.block_thread_list) ≡ 0
  current_awake = ground (arith, v.asleep.all_blocked s.kernel.current, v.sched.cur_running)

  current_unqueued :
      s.kernel.current ≢ s.kernel.idle_thread → count s.kernel.current s.kernel.ready_list ≡ 0
  current_unqueued ne =
      ground (arith, v.sched.open_queue.queued s.kernel.current, v.sched.cur_running)

  IsAsleep-switch :
      (es : List Sleeper)
      → s.kernel.current ≢ s.kernel.idle_thread
      → ((t : ℕ)
          → count t (names es)
            ≡ (if t == s.kernel.current then 1 else 0) + count t (names s.block_thread_list))
      → IsAsleep k' es
  IsAsleep-switch es ne c = record {
    all_blocked = λ t h. elim (Bool-cases (t == s.kernel.current)) [
      | inl i ↦ ground (arith, still s.kernel.current ne (current_unqueued ne))
      | inr i ↦
          let old : 0 < count t (names s.block_thread_list) = ground (arith, c t) in
          ground (
            arith,
            still t (λ e. absurd (ground (arith, v.asleep.idle_out))) (not_ready t old),
            v.asleep.all_blocked t old,
          )
    ];
    once = λ t. ground (arith, c t, v.asleep.once t, current_awake);
    idle_out = ground (arith, c s.kernel.idle_thread, v.asleep.idle_out, sw.same_idle);
  }

-- Where the invariant of the sleepers holds and malloc has memory, outside interrupts, timer_sleep of the
-- current thread, not the idle one, until a tick after 0 that 64 bits hold does not fail and keeps
-- the invariant, the closest tick included; the thread is blocked and stands in the list with its tick.
pub timer_sleep-Slept :
    (ticks : ℤ) (s : Timer)
    → IsTimed s
    → s.kernel.intr_context ≡ false
    → s.kernel.current ≢ s.kernel.idle_thread
    → ltb_ℤ (pos 0) (s.ticks +ℤ ticks) ≡ true
    → is_int64 (s.ticks +ℤ ticks) ≡ true
    → Slept ticks s (timer_sleep true ticks s)
unfolding timer_sleep
timer_sleep-Slept ticks s v c ne h fits =
    let target : Sleeper = record {
      block_threads = s.kernel.current;
      wakeup_tick = s.ticks +ℤ ticks;
    } in
    let (k', f, w) = thread_block-IsScheduled s.kernel v.sched c in
    let sw = thread_block-Switch s.kernel k' f in
    let es = list_insert_ordered compare_tick s.block_thread_list target in
    rw (f, fits, timer_sleep)
      (record {
        after = _;
        returned = refl;
        timed = record {
          sched = w;
          asleep = IsAsleep-switch s v k' sw es ne (λ t. names-insert t s.block_thread_list target);
          sorted =
              list_insert_ordered-IsSorted compare_tick compare_tick-asym s.block_thread_list target
                v.sorted;
          positive = ArePositive-insert s.block_thread_list target h v.positive;
          closest = closest-insert s.block_thread_list target s.closet_tick v.positive v.closest;
        };
        now_blocked =
            still s v k' sw s.kernel.current ne (current_unqueued s v k' sw ne)
            ∙ if_true {b = s.kernel.current == s.kernel.current} _ _ (ground arith);
        sleeps = refl;
      })
