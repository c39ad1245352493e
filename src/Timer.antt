-- ===== src/Timer.antt =====
-- The sleeping threads of pintos-kaist/devices/timer.c: timer_sleep, and the timer interrupt that
-- wakes them. A tick count is an integer. Of thread_tick the interrupt executes what the round-robin
-- scheduler needs (`thread_mlfqs` false), less the statistics. `none` means a failed ASSERT,
-- a write through the NULL that malloc gives, or a tick that overflows its 64 bits.
pub mod WakeUp
pub mod Interrupt
pub mod Sleep
pub mod Lost
pub mod Yields
pub mod Wakes
mod Examples
use w12_13_vm.Common.{
  ℕ, List, [], ◌∷◌, Bool, true, false, not, ◌&&◌, ◌||◌, Option, none, some, if◌then◌else◌, ◌>>=◌,
}
use w12_13_vm.Common.Int.{ℤ, pos, negsuc, ◌+ℤ◌, ltb_ℤ}
use w12_13_vm.KernelList.{list_insert_ordered}
use w12_13_vm.Threads.State.{Kernel}
use w12_13_vm.Threads.Sched.{thread_block, thread_unblock, thread_tick_slice, thread_yield}

-- `block_thread`.
pub record Sleeper : Type 0 where
  pub block_threads : ℕ
  pub wakeup_tick : ℤ

pub record Timer : Type 0 where
  pub kernel : Kernel
  pub ticks : ℤ
  pub block_thread_list : List Sleeper
  pub closet_tick : ℤ

unfoldable pub compare_tick : Sleeper → Sleeper → Bool
compare_tick a b = ltb_ℤ a.wakeup_tick b.wakeup_tick

-- `closet_tick == NULL`, which compares with 0.
abbrev pub is_null : ℤ → Bool
is_null a = not (ltb_ℤ a (pos 0)) && not (ltb_ℤ (pos 0) a)

-- Whether an int64_t has the value.
abbrev pub is_int64 : ℤ → Bool
is_int64 a = not (ltb_ℤ a (negsuc 9223372036854775807)) && ltb_ℤ a (pos 9223372036854775808)

-- `has_memory` is whether malloc has room for the `block_thread`.
unfoldable pub timer_sleep : Bool → ℤ → Timer → Option Timer
timer_sleep has_memory ticks s =
    let target : Sleeper = record {
      block_threads = s.kernel.current;
      wakeup_tick = s.ticks +ℤ ticks;
    } in
    let closest =
      if is_null s.closet_tick || ltb_ℤ target.wakeup_tick s.closet_tick
      then target.wakeup_tick
      else s.closet_tick in
    let slept : Option Timer = elim (thread_block s.kernel) [
      | none ↦ none
      | some k ↦ some (record s {
        kernel = k;
        block_thread_list = list_insert_ordered compare_tick s.block_thread_list target;
        closet_tick = closest;
      })
    ] in
    if has_memory && is_int64 target.wakeup_tick then slept else none

-- The loop of wake_up: the threads whose time has come are unblocked, up to the first that stays.
unfoldable pub wake_sleepers : ℤ → List Sleeper → Kernel → Option (Kernel × List Sleeper)
wake_sleepers cur_tick [] k = some (k, [])
wake_sleepers cur_tick (e ∷ es) k =
    if ltb_ℤ cur_tick e.wakeup_tick
    then some (k, e ∷ es)
    else elim (thread_unblock e.block_threads k) [
      | none ↦ none
      | some k' ↦ wake_sleepers cur_tick es k'
    ]

-- The tick at the front of the list, or NULL.
unfoldable pub front_tick : List Sleeper → ℤ
front_tick [] = pos 0
front_tick (e ∷ es) = e.wakeup_tick

unfoldable pub wake_up : ℤ → Timer → Option Timer
unfolding wake_sleepers front_tick
wake_up cur_tick s = elim (wake_sleepers cur_tick s.block_thread_list s.kernel) [
  | none ↦ none
  | some (k, es) ↦
      some (record s { kernel = k; block_thread_list = es; closet_tick = front_tick es })
]

unfoldable pub timer_interrupt : Timer → Option Timer
unfolding wake_up
timer_interrupt s =
    let s' = record s { ticks = s.ticks +ℤ pos 1; kernel = thread_tick_slice s.kernel } in
    if not (is_null s'.closet_tick) && not (ltb_ℤ s'.ticks s'.closet_tick)
    then wake_up s'.ticks s'
    else some s'

-- The end of intr_handler in pintos-kaist/threads/interrupt.c: the thread yields if the handler has
-- asked for it.
unfoldable pub intr_return : Timer → Option Timer
intr_return s =
    let k = record s.kernel { intr_context = false } in
    let yielded = thread_yield k >>= λ k'. some (record s { kernel = k' }) in
    if s.kernel.yield_on_return then yielded else some (record s { kernel = k })

-- intr_handler for the interrupt of the timer.
unfoldable pub intr_handler : Timer → Option Timer
unfolding timer_interrupt intr_return
intr_handler s =
    let handled =
      timer_interrupt
        (record s { kernel = record s.kernel { intr_context = true; yield_on_return = false } })
      >>= intr_return in
    if s.kernel.intr_context then none else handled
