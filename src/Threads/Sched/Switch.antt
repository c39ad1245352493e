-- ===== src/Threads/Sched/Switch.antt =====
-- What a switch to another thread changes, for the operations of pintos-kaist/threads/thread.c that
-- make one.
use w12_13_vm.Common.{ℕ, ◌≡◌, List, some, ◌==◌, if◌then◌else◌, arith}
use w12_13_vm.KernelList.{list_insert_ordered}
use w12_13_vm.Threads.State.{Kernel, Status, running, ready, blocked, dying, status}
use w12_13_vm.Threads.Sched.{
  compare_priority, next_thread_to_run, thread_block, thread_exit, thread_yield, thread_unblock,
}

-- `k'` is `k` after a switch at which the current thread took status `s` and the ready list was `xs`.
pub record Switch (s : Status) (xs : List ℕ) (k k' : Kernel) : Type 0 where
  pub cur_next : k'.current ≡ (next_thread_to_run k.idle_thread xs).0
  pub ready_rest : k'.ready_list ≡ (next_thread_to_run k.idle_thread xs).1
  pub same_threads :
      (t : ℕ)
      → k'.threads t ≡ record (k.threads t) {
        status = if k'.current == t then running else if k.current == t then s else status k t;
      }
  pub same_semas : k'.semas ≡ k.semas
  pub same_locks : k'.locks ≡ k.locks
  pub same_idle : k'.idle_thread ≡ k.idle_thread
  pub same_context : k'.intr_context ≡ k.intr_context

pub thread_block-Switch :
    (k k' : Kernel) → thread_block k ≡ some k' → Switch blocked k.ready_list k k'
unfolding thread_block
thread_block-Switch k k' e = record {
  cur_next = ground arith;
  ready_rest = ground arith;
  same_threads = λ t. ground arith;
  same_semas = ground arith;
  same_locks = ground arith;
  same_idle = ground arith;
  same_context = ground arith;
}

pub thread_exit-Switch : (k k' : Kernel) → thread_exit k ≡ some k' → Switch dying k.ready_list k k'
unfolding thread_exit
thread_exit-Switch k k' e = record {
  cur_next = ground arith;
  ready_rest = ground arith;
  same_threads = λ t. ground arith;
  same_semas = ground arith;
  same_locks = ground arith;
  same_idle = ground arith;
  same_context = ground arith;
}

-- The ready list from which thread_yield takes the next thread.
abbrev pub with_current : Kernel → List ℕ
with_current k =
    if k.current == k.idle_thread
    then k.ready_list
    else list_insert_ordered (compare_priority k.threads) k.ready_list k.current

pub thread_yield-Switch :
    (k k' : Kernel) → thread_yield k ≡ some k' → Switch ready (with_current k) k k'
unfolding thread_yield
thread_yield-Switch k k' e = record {
  cur_next = ground arith;
  ready_rest = ground arith;
  same_threads = λ t. ground arith;
  same_semas = ground arith;
  same_locks = ground arith;
  same_idle = ground arith;
  same_context = ground arith;
}

-- What thread_unblock changes besides the ready list.
pub record Unblocked (t : ℕ) (k k' : Kernel) : Type 0 where
  pub was_blocked : status k t ≡ blocked
  pub now_ready :
      (u : ℕ)
      → k'.threads u ≡ record (k.threads u) { status = if t == u then ready else status k u }
  pub same_semas : k'.semas ≡ k.semas
  pub same_locks : k'.locks ≡ k.locks
  pub same_idle : k'.idle_thread ≡ k.idle_thread
  pub same_context : k'.intr_context ≡ k.intr_context
  pub same_current : k'.current ≡ k.current

pub thread_unblock-Unblocked :
    (t : ℕ) (k k' : Kernel) → thread_unblock t k ≡ some k' → Unblocked t k k'
unfolding thread_unblock
thread_unblock-Unblocked t k k' e = record {
  was_blocked = ground arith;
  now_ready = λ u. ground arith;
  same_semas = ground arith;
  same_locks = ground arith;
  same_idle = ground arith;
  same_context = ground arith;
  same_current = ground arith;
}
