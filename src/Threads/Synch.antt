-- ===== src/Threads/Synch.antt =====
-- Semaphores, locks and priority donation of pintos-kaist/threads/synch.c, as statements that the
-- current thread executes one by one (`exec`). A step ends where the source enables interrupts again
-- or switches to another thread; the donations of lock_acquire and of lock_release, which the source
-- makes with interrupts on, are one step each. A thread that blocks keeps the statement, which is the
-- loop that tests the value again. `none` means a failed ASSERT, a
-- write through NULL, or a donation loop that goes round in
-- a cycle of locks and does not end.
pub mod Frame
pub mod Ownership
pub mod Inherit
pub mod Release
pub mod Waits
pub mod Blocking
pub mod Waking
pub mod SameWaits
pub mod NoPanic
mod Examples
pub mod Exclusion
pub mod Interleaving
use w12_13_vm.Common.{
  ℕ, suc, zero, ◌+◌, ◌-◌, List, [], ◌∷◌, Bool, true, false, not, ◌&&◌, ◌||◌, Option, none, some,
  ltb, ◌==◌, if◌then◌else◌, ◌>>=◌, update, length,
}
use w12_13_vm.KernelList.{list_insert_ordered, list_sort}
use w12_13_vm.Threads.State.{
  Kernel, Thread, Donation, Stmt, Semaphore, Lock, status, priority, set_thread, sema_down, sema_up,
  lock_acquire, lock_release, yields, lock_down, lock_take, lock_up, compare_next, idle_block,
}
use w12_13_vm.Threads.Sched.{
  compare_priority, thread_block, thread_unblock, thread_yield, compare_cur_next_priority,
}

-- Where a semaphore stands: by itself, or inside the lock at an address.
pub data Place : Type 0 where
  plain : ℕ → Place
  in_lock : ℕ → Place

abbrev pub get_sema : Kernel → Place → Semaphore
get_sema k (plain s) = k.semas s
get_sema k (in_lock l) = (k.locks l).semaphore

abbrev pub set_sema : Kernel → Place → Semaphore → Kernel
set_sema k (plain s) x = record k { semas = update k.semas s x }
set_sema k (in_lock l) x = record k {
  locks = update k.locks l (record (k.locks l) { semaphore = x });
}

abbrev pub set_code : Kernel → List Stmt → Kernel
set_code k c = set_thread k k.current (record (k.threads k.current) { code = c })

-- One round of the loop of sema_down; `rest` is what follows the call.
unfoldable pub down : Place → List Stmt → Kernel → Option Kernel
down p rest k =
    let s = get_sema k p in
    if k.intr_context
    then none
    else if s.value == 0
    then thread_block (
        set_sema k p (record s {
          waiters = list_insert_ordered (compare_priority k.threads) s.waiters k.current;
        }))
    else some (set_code (set_sema k p (record s { value = s.value - 1 })) rest)

pub sema_try_down : Place → Kernel → Bool × Kernel
sema_try_down p k =
    let s = get_sema k p in
    if ltb 0 s.value then (true, set_sema k p (record s { value = s.value - 1 })) else (false, k)

-- The first waiter in order of priority is woken.
pub wake_first : Place → Kernel → Option Kernel
wake_first p k =
    let s = get_sema k p in
    elim (list_sort (compare_priority k.threads) s.waiters) [
      | [] ↦ some k
      | t ∷ ts ↦ thread_unblock t (set_sema k p (record s { waiters = ts }))
    ]

abbrev pub increment : Place → Kernel → Kernel
increment p k = let s = get_sema k p in set_sema k p (record s { value = s.value + 1 })

pub up : Place → Kernel → Option Kernel
unfolding wake_first
up p k = do k' ← wake_first p k; compare_cur_next_priority (increment p k')

unfoldable pub lock_held_by_current_thread : Kernel → ℕ → Bool
lock_held_by_current_thread k l = elim (k.locks l).holder [ none ↦ false | some h ↦ h == k.current ]

pub lock_try_acquire : ℕ → Kernel → Option (Bool × Kernel)
unfolding sema_try_down
lock_try_acquire l k =
    if lock_held_by_current_thread k l
    then none
    else (let (success, k') = sema_try_down (in_lock l) k in
        some (
          success,
          if success
              then record k' {
                locks = update k'.locks l (record (k'.locks l) { holder = some k'.current });
              }
              else k',
        ))

unfoldable pub compare_priority_for_donate : Donation → Donation → Bool
compare_priority_for_donate a b = ltb b.priority a.priority

abbrev pub donation_of : Kernel → ℕ → Donation
donation_of k l = record { priority = priority k k.current; donor = k.current; lock = l }

-- Without memory it writes through NULL.
unfoldable pub create_donation : Kernel → ℕ → Option Donation
create_donation k l = if k.has_donation l then some (donation_of k l) else none

-- The waiters of the lock that the holder itself waits for are put in order again.
pub resort_waiters : Option ℕ → Kernel → Kernel
resort_waiters none k = k
resort_waiters (some l) k =
    let s = (k.locks l).semaphore in
    set_sema k (in_lock l) (record s { waiters = list_sort (compare_priority k.threads) s.waiters })

-- `h` holds the lock of `d`, which the current thread waits for, through other locks perhaps.
pub give : Donation → ℕ → Kernel → Kernel
unfolding resort_waiters
give d h k =
    let th = k.threads h in
    let mine = priority k k.current in
    resort_waiters th.pending_lock (
      set_thread k h (record th {
        priority = if ltb th.priority mine then mine else th.priority;
        donations = list_insert_ordered compare_priority_for_donate th.donations d;
      }))

-- The while loop of lock_acquire.
pub donate_chain : ℕ → Option ℕ → Kernel → Option Kernel
unfolding give create_donation
donate_chain zero pending k = none
donate_chain (suc f) none k = some k
donate_chain (suc f) (some l) k = elim (k.locks l).holder [
  | none ↦ some k
  | some h ↦
      let rest =
        create_donation k l >>= λ d. donate_chain f (k.threads h).pending_lock (give d h k) in
      if ltb (priority k k.current) (priority k h) then some k else rest
]

-- `cur->pending_lock = lock`.
abbrev pub pend : ℕ → Kernel → Kernel
pend l k = set_thread k k.current (record (k.threads k.current) { pending_lock = some l })

-- lock_acquire up to its sema_down.
pub donate : ℕ → Kernel → Option Kernel
unfolding donate_chain
donate l k = elim (k.locks l).holder [
  | none ↦ some k
  | some h ↦ donate_chain (suc (length k.all_list)) (some l) (pend l k)
]

unfoldable pub remove_donation_for_lock : ℕ → List Donation → List Donation
remove_donation_for_lock l [] = []
remove_donation_for_lock l (d ∷ ds) =
    if d.lock == l then remove_donation_for_lock l ds else d ∷ remove_donation_for_lock l ds

-- The sorted donations, and the priority that they give to a thread.
pub recalc_priority : ℕ → List Donation → ℕ × List Donation
recalc_priority original ds = elim (list_sort compare_priority_for_donate ds) [
  | [] ↦ (original, [])
  | d ∷ rest ↦ (if ltb original d.priority then d.priority else original, d ∷ rest)
]

abbrev pub set_holder : ℕ → Option ℕ → Kernel → Kernel
set_holder l h k = record k { locks = update k.locks l (record (k.locks l) { holder = h }) }

-- lock_release up to its sema_up.
unfoldable pub release_donations : ℕ → Kernel → Option Kernel
unfolding remove_donation_for_lock recalc_priority
release_donations l k =
    let th = k.threads k.current in
    let (p, ds) = recalc_priority th.original_priority (remove_donation_for_lock l th.donations) in
    if lock_held_by_current_thread k l
    then some
        (set_holder l none (set_thread k k.current (record th { priority = p; donations = ds })))
    else none

-- The current thread executes its next statement.
unfoldable pub exec_stmt : Stmt → List Stmt → Kernel → Option Kernel
unfolding down up donate release_donations
exec_stmt (sema_down s) rest k = down (plain s) rest k
exec_stmt (sema_up s) rest k = up (plain s) (set_code k rest)
exec_stmt (lock_acquire l) rest k =
    if k.intr_context || lock_held_by_current_thread k l
    then none
    else donate l (set_code k (lock_down l ∷ rest))
exec_stmt (lock_release l) rest k =
    release_donations l (set_code k (lock_up l ∷ compare_next ∷ rest))
exec_stmt yields rest k = thread_yield (set_code k rest)
exec_stmt (lock_down l) rest k = down (in_lock l) (lock_take l ∷ rest) k
exec_stmt (lock_take l) rest k = some (
    set_holder l (some k.current)
      (set_thread k k.current (record (k.threads k.current) { code = rest; pending_lock = none })))
exec_stmt (lock_up l) rest k = up (in_lock l) (set_code k rest)
exec_stmt compare_next rest k = compare_cur_next_priority (set_code k rest)
exec_stmt idle_block rest k = thread_block k

-- A thread with nothing left to do in synch.c computes: the state stays.
unfoldable pub exec : Kernel → Option Kernel
unfolding exec_stmt
exec k = elim (k.threads k.current).code [ [] ↦ some k | s ∷ rest ↦ exec_stmt s rest k ]
