-- ===== src/Timer/Yields.antt =====
-- The yield at the end of an interrupt of the timer, pintos-kaist/threads/interrupt.c: sleepers sleep on,
-- and a thread that is awake stays awake.
use w12_13_vm.Common.{
  ℕ, ◌+◌, ◌≡◌, refl, sym, ap, ◌∙◌, List, [], ◌∷◌, Bool, true, false, Option, none, some, ltb, ◌==◌,
  if◌then◌else◌, arith, count, Bool-cases, if_true, if_false, inl, inr,
}
use w12_13_vm.Common.Int.{pos, ◌+ℤ◌}
use w12_13_vm.KernelList.Count.{count-insert}
use w12_13_vm.Threads.State.{Kernel, Status, running, ready, blocked, dying, status}
use w12_13_vm.Threads.Sched.{compare_priority, next_thread_to_run, thread_yield}
use w12_13_vm.Threads.Sched.Invariant.{IsScheduled, thread_yield-IsScheduled}
use w12_13_vm.Threads.Sched.Switch.{with_current, thread_yield-Switch}
use w12_13_vm.Timer.{Timer, intr_return, intr_handler}
use w12_13_vm.Timer.WakeUp.{names, later}
use w12_13_vm.Timer.Interrupt.{IsTimed, timer_interrupt-Ticked}

-- The thread runs or is ready to.
abbrev pub is_awake : Status → Bool
is_awake running = true
is_awake ready = true
is_awake blocked = false
is_awake dying = false

module _ (k : Kernel) (v : IsScheduled k) where
  queued_awake :
      (xs : List ℕ)
      → with_current k ≡ xs
      → is_awake (status k (next_thread_to_run k.idle_thread xs).0) ≡ true
  unfolding next_thread_to_run
  queued_awake xs e = elim (Bool-cases (k.current == k.idle_thread)) [
    | inl i ↦ of_idle xs (ground (arith, e)) (ground arith)
    | inr i ↦ of_other xs (λ t.
        sym (ap (count t) e)
        ∙ rw i (count-insert (compare_priority k.threads) t k.current k.ready_list))
  ]
    where
      of_idle :
          (xs : List ℕ)
          → k.ready_list ≡ xs
          → k.current ≡ k.idle_thread
          → is_awake (status k (next_thread_to_run k.idle_thread xs).0) ≡ true
      of_idle [] e i = rw (sym i, v.cur_running) refl
      of_idle (x ∷ xs) e i =
          ground (arith, v.open_queue.queued x, v.open_queue.idle_out, ap (count x) e)

      of_other :
          (xs : List ℕ)
          → ((t : ℕ) → count t xs ≡ (if t == k.current then 1 else 0) + count t k.ready_list)
          → is_awake (status k (next_thread_to_run k.idle_thread xs).0) ≡ true
      of_other [] e = absurd (ground (arith, e k.current))
      of_other (x ∷ xs) e = elim (Bool-cases (x == k.current)) [
        | inl i ↦ ground (arith, v.cur_running)
        | inr i ↦ ground (arith, e x, v.open_queue.queued x, v.open_queue.idle_out)
      ]

  -- A yield neither wakes a thread nor puts one to sleep.
  yield_status :
      (k' : Kernel)
      → thread_yield k ≡ some k'
      → (t : ℕ)
      → (is_awake (status k' t) ≡ is_awake (status k t))
        × (status k t ≡ blocked → status k' t ≡ blocked)
  yield_status k' e t =
      let sw = thread_yield-Switch k k' e in
      let next = queued_awake (with_current k) refl in
      (
        ground (arith, sw.same_threads t, sw.cur_next, next, v.cur_running),
        λ b. ground (arith, sw.same_threads t, sw.cur_next, next, v.cur_running, b),
      )

-- Neither flag of the interrupts matters to the sleepers.
abbrev with_flags : Bool → Bool → Timer → Timer
with_flags c y s = record s { kernel = record s.kernel { intr_context = c; yield_on_return = y } }

flags-IsTimed : (c y : Bool) (s : Timer) → IsTimed s → IsTimed (with_flags c y s)
flags-IsTimed c y s v = record {
  sched = record {
    cur_running = v.sched.cur_running;
    only_one = v.sched.only_one;
    open_queue = record {
      queued = v.sched.open_queue.queued;
      idle_out = v.sched.open_queue.idle_out;
    };
  };
  asleep = record {
    all_blocked = v.asleep.all_blocked;
    once = v.asleep.once;
    idle_out = v.asleep.idle_out;
  };
  sorted = v.sorted;
  positive = v.positive;
  closest = v.closest;
}

-- What a return from an interrupt makes of the sleepers.
record Returned (s : Timer) (r : Option Timer) : Type 0 where
  after : Timer
  returned : r ≡ some after
  timed : IsTimed after
  outside : after.kernel.intr_context ≡ false
  same_tick : after.ticks ≡ s.ticks
  same_list : after.block_thread_list ≡ s.block_thread_list
  same_awake : (t : ℕ) → is_awake (status after.kernel t) ≡ is_awake (status s.kernel t)

intr_return-Returned : (s : Timer) → IsTimed s → Returned s (intr_return s)
unfolding intr_return
intr_return-Returned s v = elim (Bool-cases s.kernel.yield_on_return) [
  | inl y ↦
      let k = record s.kernel { intr_context = false } in
      let w = flags-IsTimed false s.kernel.yield_on_return s v in
      let (k', f, i) = thread_yield-IsScheduled k w.sched refl in
      let sw = thread_yield-Switch k k' f in
      let at = yield_status k w.sched k' f in
      record {
        after = record s { kernel = k' };
        returned = if_true _ _ y ∙ rw f refl;
        timed = record {
          sched = i;
          asleep = record {
            all_blocked = λ t h. (at t).1 (v.asleep.all_blocked t h);
            once = v.asleep.once;
            idle_out = rw sw.same_idle v.asleep.idle_out;
          };
          sorted = v.sorted;
          positive = v.positive;
          closest = v.closest;
        };
        outside = sw.same_context;
        same_tick = refl;
        same_list = refl;
        same_awake = λ t. (at t).0;
      }
  | inr n ↦ record {
    after = with_flags false s.kernel.yield_on_return s;
    returned = if_false _ _ n;
    timed = flags-IsTimed false s.kernel.yield_on_return s v;
    outside = refl;
    same_tick = refl;
    same_list = refl;
    same_awake = λ t. refl;
  }
]

-- What one interrupt, its yield included, makes of the sleepers.
pub record Handled (s : Timer) (r : Option Timer) : Type 0 where
  pub after : Timer
  pub returned : r ≡ some after
  pub timed : IsTimed after
  pub outside : after.kernel.intr_context ≡ false
  pub next_tick : after.ticks ≡ s.ticks +ℤ pos 1
  pub sleep_on : after.block_thread_list ≡ later after.ticks s.block_thread_list
  pub now_awake :
      (t : ℕ)
      → is_awake (status after.kernel t) ≡ (
          if ltb (count t (names after.block_thread_list)) (count t (names s.block_thread_list))
          then true
          else is_awake (status s.kernel t))

-- Outside interrupts and from a state in which the invariant of the sleepers holds, the interrupt of the
-- timer does not fail and keeps both: those whose tick has come are awake afterwards and off the list, and
-- the others are as awake as before.
pub intr_handler-Handled :
    (s : Timer) → IsTimed s → s.kernel.intr_context ≡ false → Handled s (intr_handler s)
unfolding intr_handler
intr_handler-Handled s v c =
    let k = timer_interrupt-Ticked (with_flags true false s) (flags-IsTimed true false s v) in
    let r = intr_return-Returned k.after k.timed in
    record {
      after = r.after;
      returned = if_false none _ c ∙ rw k.returned r.returned;
      timed = r.timed;
      outside = r.outside;
      next_tick = r.same_tick ∙ k.next_tick;
      sleep_on = r.same_list ∙ k.sleep_on ∙ ap (λ z. later z s.block_thread_list) (sym r.same_tick);
      now_awake = λ t. ground (arith, r.same_awake t, k.now_status t, r.same_list);
    }
