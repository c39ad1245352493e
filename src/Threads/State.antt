-- ===== src/Threads/State.antt =====
-- The state that pintos-kaist/threads/thread.c and synch.c share: `struct thread`
-- (include/threads/thread.h), `struct semaphore` and `struct lock` (include/threads/synch.h), and the
-- static variables of thread.c. A thread or a lock is named by its address, a number.
-- A priority is a number from PRI_MIN = 0 to PRI_MAX = 63.
use w12_13_vm.Common.{ℕ, List, Bool, true, false, Option, update}
use w12_13_vm.Common.Int.{ℤ}

abbrev pub pri_min : ℕ
pri_min = 0

abbrev pub pri_default : ℕ
pri_default = 31

abbrev pub pri_max : ℕ
pri_max = 63

-- `enum thread_status`.
pub data Status : Type 0 where
  running ready blocked dying : Status

-- A priority lent by a thread that waits for a lock of the receiver.
pub record Donation : Type 0 where
  pub priority : ℕ
  pub donor : ℕ
  pub lock : ℕ

-- What a thread still has to do in synch.c. The first five are calls; the others are what is left of
-- a call that interrupts can cut: `lock_down` is lock_acquire from its sema_down on, `lock_take` its
-- last two assignments, `lock_up` lock_release from its sema_up on, and `compare_next` its last call.
pub data Stmt : Type 0 where
  sema_down : ℕ → Stmt
  sema_up : ℕ → Stmt
  lock_acquire : ℕ → Stmt
  lock_release : ℕ → Stmt
  yields : Stmt
  lock_down : ℕ → Stmt
  lock_take : ℕ → Stmt
  lock_up : ℕ → Stmt
  compare_next : Stmt
  idle_block : Stmt

-- `struct thread`, less what userprog and the switch of registers use. `code` is the thread's
-- saved kernel stack, as the statements that it goes on with.
pub record Thread : Type 0 where
  pub status : Status
  pub priority : ℕ
  pub original_priority : ℕ
  pub donations : List Donation
  pub pending_lock : Option ℕ
  pub nice : ℤ
  pub recent_cpu : ℤ
  pub code : List Stmt

pub record Semaphore : Type 0 where
  pub value : ℕ
  pub waiters : List ℕ

pub record Lock : Type 0 where
  pub holder : Option ℕ
  pub semaphore : Semaphore

-- `has_donation` says whether malloc, which is not modelled, has memory for a donation for a lock.
pub record Kernel : Type 0 where
  pub threads : ℕ → Thread
  pub current : ℕ
  pub idle_thread : ℕ
  pub initial_thread : ℕ
  pub ready_list : List ℕ
  pub destruction_req : List ℕ
  pub all_list : List ℕ
  pub freed : List ℕ
  pub thread_ticks : ℕ
  pub mlfqs : Bool
  pub load_avg : ℤ
  pub intr_context : Bool
  pub yield_on_return : Bool
  pub has_donation : ℕ → Bool
  pub semas : ℕ → Semaphore
  pub locks : ℕ → Lock

abbrev pub status : Kernel → ℕ → Status
status k t = (k.threads t).status

abbrev pub priority : Kernel → ℕ → ℕ
priority k t = (k.threads t).priority

abbrev pub set_thread : Kernel → ℕ → Thread → Kernel
set_thread k t th = record k { threads = update k.threads t th }

abbrev pub set_status : Kernel → ℕ → Status → Kernel
set_status k t s = set_thread k t (record (k.threads t) { status = s })

abbrev pub is_blocked : Status → Bool
is_blocked blocked = true
is_blocked _ = false

abbrev pub is_running : Status → Bool
is_running running = true
is_running _ = false

abbrev pub is_ready : Status → Bool
is_ready ready = true
is_ready _ = false

abbrev pub is_dying : Status → Bool
is_dying dying = true
is_dying _ = false
