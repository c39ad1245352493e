-- ===== src/Timer/Examples.antt =====
-- Concrete states of the timer of pintos-kaist/devices/timer.c, and the theorems at them.
use w12_13_vm.Common.{
  not, true, ℕ, ◌≡◌, refl, List, [], ◌∷◌, false, none, some, ◌==◌, arith, if◌then◌else◌,
}
use w12_13_vm.Common.Int.{pos, negsuc, ◌+ℤ◌, ltb_ℤ}
use w12_13_vm.Threads.State.{Kernel, Thread, Status, running, ready, blocked, status, is_blocked}
use w12_13_vm.Threads.Sched.{thread_block}
use w12_13_vm.Threads.Sched.Invariant.{IsScheduled}
use w12_13_vm.Timer.{Timer, Sleeper, compare_tick, timer_sleep, timer_interrupt, front_tick}
use w12_13_vm.Timer.WakeUp.{IsAsleep}
use w12_13_vm.Timer.Interrupt.{IsTimed, Ticked, timer_interrupt-Ticked}
use w12_13_vm.Timer.Sleep.{Slept, timer_sleep-Slept}
use w12_13_vm.Timer.Wakes.{here, behind, intr_handlers, sleeper_wakes}
use w12_13_vm.Timer.Yields.{is_awake}
use w12_13_vm.Timer.Lost.{interrupts, timer_sleep-lost}

abbrev thread : Status → ℕ → Thread
thread s p = record {
  status = s;
  priority = p;
  original_priority = p;
  donations = [];
  pending_lock = none;
  nice = pos 0;
  recent_cpu = pos 0;
  code = [];
}

-- Thread 0 is idle, thread 1 runs, thread 4 is ready, and all others are blocked.
abbrev some_threads : ℕ → Thread
some_threads t =
    if t == 1 then thread running 31 else if t == 4 then thread ready 31 else thread blocked 31

abbrev sleepy : Kernel
sleepy = record {
  threads = some_threads;
  current = 1;
  idle_thread = 0;
  initial_thread = 1;
  ready_list = 4 ∷ [];
  destruction_req = [];
  all_list = 0 ∷ 1 ∷ 2 ∷ 3 ∷ 4 ∷ [];
  freed = [];
  thread_ticks = 0;
  mlfqs = false;
  load_avg = pos 0;
  intr_context = false;
  yield_on_return = false;
  has_donation = λ l. true;
  semas = λ s. record { value = 0; waiters = [] };
  locks = λ l. record { holder = none; semaphore = record { value = 1; waiters = [] } };
}

sleepy-IsScheduled : IsScheduled sleepy
sleepy-IsScheduled = record {
  cur_running = refl;
  only_one = λ t ne. ground arith;
  open_queue = record { queued = λ t ne. ground arith; idle_out = refl };
}

-- Threads 2 and 3 sleep until the ticks 5 and 9.
abbrev two_sleepers : List Sleeper
two_sleepers =
    record { block_threads = 2; wakeup_tick = pos 5 }
    ∷ record { block_threads = 3; wakeup_tick = pos 9 }
    ∷ []

abbrev at_four : Timer
at_four = record {
  kernel = sleepy;
  ticks = pos 4;
  block_thread_list = two_sleepers;
  closet_tick = pos 5;
}

two-IsAsleep : IsAsleep sleepy two_sleepers
two-IsAsleep = record {
  all_blocked = λ t h. ground arith;
  once = λ t. ground arith;
  idle_out = refl;
}

at_four-IsTimed : IsTimed at_four
unfolding compare_tick front_tick
at_four-IsTimed = record {
  sched = sleepy-IsScheduled;
  asleep = two-IsAsleep;
  sorted = (refl, (tt, tt));
  positive = (refl, (refl, tt));
  closest = refl;
}

timer_interrupt-Ticked_example : Ticked at_four (timer_interrupt at_four)
timer_interrupt-Ticked_example = timer_interrupt-Ticked at_four at_four-IsTimed

timer_sleep-Slept_example : Slept (pos 3) at_four (timer_sleep true (pos 3) at_four)
unfolding ◌+ℤ◌
timer_sleep-Slept_example =
    timer_sleep-Slept (pos 3) at_four at_four-IsTimed refl (λ e. absurd (omega arith)) refl refl

-- At the tick 7 nobody sleeps.
abbrev at_seven : Timer
at_seven = record { kernel = sleepy; ticks = pos 7; block_thread_list = []; closet_tick = pos 0 }

-- Thread 1 sleeps for -7 ticks.
asleep_for_ever : Timer
unfolding timer_sleep
asleep_for_ever = elim (timer_sleep true (negsuc 6) at_seven) [ none ↦ at_seven | some s ↦ s ]

falls_asleep : timer_sleep true (negsuc 6) at_seven ≡ some asleep_for_ever
unfolding asleep_for_ever thread_block ◌+ℤ◌
falls_asleep = refl

timer_sleep-lost_example :
    (s : Timer) × (interrupts 100 asleep_for_ever ≡ some s)
    × (s.block_thread_list ≡ record { block_threads = 1; wakeup_tick = pos 0 } ∷ [])
unfolding ◌+ℤ◌
timer_sleep-lost_example =
    timer_sleep-lost 100 (negsuc 6) at_seven asleep_for_ever refl refl refl falls_asleep

sleeper_wakes_example :
    (u : Timer) × (intr_handlers 5 at_four ≡ some u)
    × IsTimed u
    × (u.ticks ≡ pos 4 +ℤ pos 5)
    × (is_blocked (status u.kernel 3) ≡ ltb_ℤ u.ticks (pos 9))
    × (is_awake (status u.kernel 3) ≡ not (ltb_ℤ u.ticks (pos 9)))
sleeper_wakes_example =
    sleeper_wakes 4 3 (pos 9) at_four at_four-IsTimed refl (behind _ _ (here []))
