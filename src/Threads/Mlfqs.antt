-- ===== src/Threads/Mlfqs.antt =====
-- The multi-level feedback queue of pintos-kaist/threads/thread.c, and mlfqs_on_tick of
-- pintos-kaist/devices/timer.c, which drives it.
pub mod Formula
pub mod Refresh
pub mod Update
mod Examples
use w12_13_vm.Common.{
  ℕ, ◌+◌, ◌%◌, List, [], ◌∷◌, Bool, true, false, ◌||◌, Option, none, some, ◌==◌, if◌then◌else◌,
  ◌>>=◌, length,
}
use w12_13_vm.Common.Int.{ℤ, pos, ◌-ℤ◌, ◌*ℤ◌, ltb_ℤ, pos_part}
use w12_13_vm.FixedPoint.{
  wrap_32, int_to_fp, fp_to_int_round, add_fp, add_fp_int, mul_fp, mul_fp_int, div_fp, div_fp_int,
}
use w12_13_vm.Threads.State.{Kernel, Thread, set_thread, is_dying, pri_min, pri_max}
use w12_13_vm.Threads.Sched.{compare_cur_next_priority}

pub update_recent_cpu : Kernel → Kernel
update_recent_cpu k =
    let cur = k.threads k.current in
    set_thread k k.current (record cur { recent_cpu = add_fp_int cur.recent_cpu (pos 1) })

pub update_load_avg : Kernel → Kernel
update_load_avg k =
    let n = length k.ready_list in
    let ready_threads = if k.current == k.idle_thread then n else n + 1 in
    let term1 = div_fp_int (mul_fp_int k.load_avg (pos 59)) (pos 60) in
    let term2 = mul_fp_int (div_fp_int (int_to_fp (pos 1)) (pos 60)) (pos ready_threads) in
    record k { load_avg = add_fp term1 term2 }

-- The priority that update_priority computes, before it is clamped.
unfoldable pub raw_priority : Thread → ℤ
raw_priority th = wrap_32 (
    wrap_32 (pos pri_max -ℤ fp_to_int_round (div_fp_int th.recent_cpu (pos 4)))
    -ℤ wrap_32 (th.nice *ℤ pos 2))

unfoldable pub clamp : ℤ → ℕ
clamp p =
    if ltb_ℤ (pos pri_max) p then pri_max else if ltb_ℤ p (pos pri_min) then pri_min else pos_part p

unfoldable pub update_priority : ℕ → Kernel → Kernel
update_priority t k =
    if t == k.idle_thread
    then k
    else set_thread k t (record (k.threads t) { priority = clamp (raw_priority (k.threads t)) })

-- The test with which the loops over `all_list` pass over a thread.
abbrev pub is_passed : ℕ → Kernel → Bool
is_passed t k = is_dying (k.threads t).status || (t == k.idle_thread)

pub recent_cpu_loop : List ℕ → Kernel → Kernel
recent_cpu_loop [] k = k
recent_cpu_loop (t ∷ ts) k =
    let th = k.threads t in
    let twice = mul_fp_int k.load_avg (pos 2) in
    let coeff = div_fp twice (add_fp_int twice (pos 1)) in
    let k' =
      set_thread k t
        (record th { recent_cpu = add_fp (mul_fp coeff th.recent_cpu) (int_to_fp th.nice) }) in
    recent_cpu_loop ts (if is_passed t k then k else k')

pub update_recent_cpu_all : Kernel → Kernel
unfolding recent_cpu_loop
update_recent_cpu_all k = recent_cpu_loop k.all_list k

-- The loop of update_all_priority.
unfoldable pub priority_loop : List ℕ → Kernel → Kernel
unfolding update_priority
priority_loop [] k = k
priority_loop (t ∷ ts) k = priority_loop ts (if is_passed t k then k else update_priority t k)

unfoldable pub update_all_priority : Kernel → Option Kernel
unfolding priority_loop
update_all_priority k = compare_cur_next_priority (priority_loop k.all_list k)

unfoldable pub thread_set_nice : ℤ → Kernel → Option Kernel
unfolding update_priority
thread_set_nice nice k =
    let cur = k.threads k.current in
    compare_cur_next_priority
      (update_priority k.current (set_thread k k.current (record cur { nice = nice })))

-- TIMER_FREQ is 100.
pub mlfqs_on_tick : ℕ → Kernel → Option Kernel
unfolding update_recent_cpu update_load_avg update_recent_cpu_all update_all_priority
mlfqs_on_tick ticks k =
    let k1 = update_recent_cpu k in
    let k2 = if ticks % 100 == 0 then update_recent_cpu_all (update_load_avg k1) else k1 in
    if ticks % 4 == 0
    then (do k3 ← update_all_priority k2; compare_cur_next_priority k3)
    else some k2
