-- ===== src/Threads/Synch/Waking.antt =====
-- Who waits after sema_up and after a yield in pintos-kaist/threads/synch.c: the waiter that is woken
-- leaves the list and becomes ready.
use w12_13_vm.Common.{ℕ, ◌≡◌, ◌≢◌, refl, sym, ap, ◌∙◌, List, [], ◌∷◌, true, Option, arith, count}
use w12_13_vm.KernelList.{list_sort}
use w12_13_vm.KernelList.Count.{count-sort}
use w12_13_vm.Threads.State.{Kernel, Semaphore, status, blocked}
use w12_13_vm.Threads.Sched.{compare_priority, compare_cur_next_priority}
use w12_13_vm.Threads.Sched.Invariant.{
  IsScheduled, compare_priority-asym, thread_unblock-IsScheduled,
}
use w12_13_vm.Threads.Sched.Switch.{Unblocked, thread_unblock-Unblocked}
use w12_13_vm.Threads.Sched.Highest.{
  Compared, nobody, stays, yields, resorted, resorted-IsScheduled,
  compare_cur_next_priority-Compared,
}
use w12_13_vm.Threads.Synch.{Place, plain, in_lock, get_sema, set_sema, up, wake_first, increment}
use w12_13_vm.Threads.Synch.Waits.{
  same_place, at_wait, waits_on, IsSynced, waiters-set_sema, same_place→≡, at_wait_unique,
  SameSched, SameSched-IsScheduled, set_sema-SameSched, set_sema-threads, idle_waits_not,
}
use w12_13_vm.Threads.Synch.Blocking.{KeepsSynced, yield-KeepsSynced, set_value-IsSynced}

Unblocked-sema :
    {t : ℕ} {k k' : Kernel} (p : Place) → Unblocked t k k' → get_sema k' p ≡ get_sema k p
Unblocked-sema (plain a) u = ground (arith, u.same_semas)
Unblocked-sema (in_lock a) u = ground (arith, u.same_locks)

-- The waiter that sema_up wakes is blocked in the semaphore's sema_down, so that the ASSERT of
-- thread_unblock holds.
wake-of :
    (k : Kernel) (p : Place) (ws : List ℕ)
    → list_sort (compare_priority k.threads) (get_sema k p).waiters ≡ ws
    → IsSynced k
    → KeepsSynced (wake_first p k)
unfolding wake_first
wake-of k p [] e v = (k, rw (e, wake_first) refl, v)
wake-of k p (t ∷ ts) e v =
    let (k', g, w) = thread_unblock-IsScheduled left left-IsScheduled t is_waiting other in
    (k', rw (e, wake_first) g, woken k' w (thread_unblock-Unblocked t left k' g))
  where
    rest : Semaphore
    rest = record (get_sema k p) { waiters = ts }

    left : Kernel
    left = set_sema k p rest

    same : SameSched k left
    same = set_sema-SameSched p k rest

    left-IsScheduled : IsScheduled left
    left-IsScheduled = SameSched-IsScheduled same v.sched

    counted : (u : ℕ) → count u (get_sema k p).waiters ≡ count u (t ∷ ts)
    counted u =
        sym (count-sort (compare_priority k.threads) (compare_priority-asym k.threads) u _)
        ∙ ap (count u) e

    waiting_at : waits_on p (k.threads t) ≡ true
    waiting_at = ground (arith, counted t, v.waits p t)

    is_waiting : status left t ≡ blocked
    is_waiting = ground (arith, same.same_status t, waiting_at)

    other : t ≢ left.idle_thread
    other i = absurd (ground (arith, idle_waits_not k p v.idle_code, waiting_at, same.same_idle))

    -- The woken thread stood in no other sema_down.
    at_one :
        (u : ℕ) (q : Place) → u ≡ t → at_wait q (k.threads u).code ≡ true → same_place p q ≡ true
    at_one u q i h = at_wait_unique p q (k.threads u).code (ground (arith, i, waiting_at)) h

    woken : (k' : Kernel) → IsScheduled k' → Unblocked t left k' → IsSynced k'
    woken k' w ub = record {
      sched = w;
      waits = λ q u. ground (
        arith,
        Unblocked-sema q ub,
        waiters-set_sema p q k rest,
        same_place→≡ p q,
        counted u,
        set_sema-threads p k rest,
        ub.now_ready u,
        v.waits q u,
        waiting_at,
        at_one u q,
      );
      idle_code = ground (
        arith,
        ub.now_ready k.idle_thread,
        ub.same_idle,
        same.same_idle,
        set_sema-threads p k rest,
        v.idle_code,
      );
      outside = ub.same_context ∙ same.same_context ∙ v.outside;
    }

wake_first-KeepsSynced : (k : Kernel) (p : Place) → IsSynced k → KeepsSynced (wake_first p k)
wake_first-KeepsSynced k p v = wake-of k p _ refl v

resorted-IsSynced : (k : Kernel) → IsSynced k → IsSynced (resorted k)
resorted-IsSynced k v = record {
  sched = resorted-IsScheduled k v.sched;
  waits = λ p t. ground (arith, resorted-sema p k, v.waits p t);
  idle_code = v.idle_code;
  outside = v.outside;
}
  where
    resorted-sema : (p : Place) (k : Kernel) → get_sema (resorted k) p ≡ get_sema k p
    resorted-sema (plain a) k = refl
    resorted-sema (in_lock a) k = refl

Compared-KeepsSynced : (k : Kernel) (r : Option Kernel) → Compared k r → IsSynced k → KeepsSynced r
Compared-KeepsSynced k r (nobody e f) v = (k, f, v)
Compared-KeepsSynced k r (stays x xs f h e) v = (resorted k, e, resorted-IsSynced k v)
Compared-KeepsSynced k r (yields e) v =
    let (k', f, w) = yield-KeepsSynced (resorted k) (resorted-IsSynced k v) in (k', e ∙ f, w)

pub compare-KeepsSynced : (k : Kernel) → IsSynced k → KeepsSynced (compare_cur_next_priority k)
compare-KeepsSynced k v =
    Compared-KeepsSynced k _ (compare_cur_next_priority-Compared k v.outside) v

-- sema_up wakes a waiter, if there is one, and yields to it if its priority is higher.
pub up-KeepsSynced : (k : Kernel) (p : Place) → IsSynced k → KeepsSynced (up p k)
unfolding up
up-KeepsSynced k p v =
    let (m, e, w) = wake_first-KeepsSynced k p v in
    rw (e, up) (compare-KeepsSynced (increment p m) (set_value-IsSynced m p _ w))
