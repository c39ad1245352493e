-- ===== src/Threads/Synch/NoPanic.antt =====
-- No statement of pintos-kaist/threads/synch.c that a thread executes fails an ASSERT, if locks are
-- acquired and released as their contract says.
use w12_13_vm.Common.{
  ℕ, ◌<◌, ◌≡◌, ◌≢◌, refl, sym, ap, ◌∙◌, List, [], ◌∷◌, Bool, true, false, ◌||◌, none, some, arith,
  if_false, count, length,
}
use w12_13_vm.Threads.State.{
  Kernel, Stmt, sema_down, sema_up, lock_acquire, lock_release, yields, lock_down, lock_take,
  lock_up, compare_next, idle_block, blocked, set_thread,
}
use w12_13_vm.Threads.Sched.Invariant.{thread_block-IsScheduled}
use w12_13_vm.Threads.Sched.Switch.{thread_block-Switch}
use w12_13_vm.Threads.Synch.{
  Place, plain, in_lock, get_sema, set_code, exec, exec_stmt, pend, lock_held_by_current_thread,
  set_holder,
}
use w12_13_vm.Threads.Synch.Inherit.{IsRanked, donate-total}
use w12_13_vm.Threads.Synch.Waits.{IsSynced, at_wait, switch-IsSynced, ready_free}
use w12_13_vm.Threads.Synch.Waking.{up-KeepsSynced, compare-KeepsSynced}
use w12_13_vm.Threads.Synch.Blocking.{
  KeepsSynced, down-KeepsSynced, yield-KeepsSynced, set_code-IsSynced,
}
use w12_13_vm.Threads.Synch.SameWaits.{
  SameWaits, SameWaits-IsSynced, donate-SameWaits, release-SameWaits,
}

-- What a caller owes: a lock is not acquired by its holder, nor in a cycle of waiting threads, and
-- is released by its holder alone.
abbrev pub Contract : Kernel → List Stmt → Type 0
Contract k [] = Unit {0}
Contract k (lock_acquire l ∷ rest) =
    (lock_held_by_current_thread k l ≡ false)
    × (rank : ℕ → ℕ) × IsRanked (pend l k) rank
    × (rank l < length k.all_list)
Contract k (lock_release l ∷ rest) = (k.locks l).holder ≡ some k.current
Contract k (_ ∷ rest) = Unit {0}

or_false : (a b : Bool) → a ≡ false → b ≡ false → (a || b) ≡ false
or_false a b p q = ground arith

cons-injective {ℓ} : {A : Type ℓ} {x y : A} {xs ys : List A} → (x ∷ xs) ≡ (y ∷ ys) → x ≡ y
cons-injective e = cc

set_code-current :
    (k : Kernel) (s : Stmt) (rest : List Stmt)
    → IsSynced k
    → (k.threads k.current).code ≡ s ∷ rest
    → s ≢ idle_block
    → k.current ≢ k.idle_thread
set_code-current k s rest v e ne i =
    ne (cons-injective (sym e ∙ ap (λ t. (k.threads t).code) i ∙ v.idle_code))

IsRanked-set_code :
    (k : Kernel) (l : ℕ) (c : List Stmt) (rank : ℕ → ℕ)
    → IsRanked (pend l k) rank
    → IsRanked (pend l (set_code k c)) rank
IsRanked-set_code k l c rank i a h m p q = i a h m p (ground arith)

-- The end of lock_acquire, seen from a thread that has taken the statement off its code.
take-SameWaits :
    (k : Kernel) (l : ℕ) (rest : List Stmt)
    → SameWaits (set_code k rest) (
        set_holder l (some k.current) (
          set_thread k k.current
            (record (k.threads k.current) { code = rest; pending_lock = none })))
take-SameWaits k l rest = record {
  same_sched = record {
    same_current = refl;
    same_ready = refl;
    same_idle = refl;
    same_context = refl;
    same_status = λ t. ground arith;
  };
  same_code = λ t. ground arith;
  same_count = λ p t. at p t;
}
  where
    at :
        (p : Place) (t : ℕ)
        → count t
            (get_sema
              (set_holder l (some k.current) (
                set_thread k k.current
                  (record (k.threads k.current) { code = rest; pending_lock = none })))
              p).waiters
          ≡ count t (get_sema (set_code k rest) p).waiters
    at (plain a) t = refl
    at (in_lock a) t = ground arith

idle_at :
    (p : Place) (k : Kernel) {rest : List Stmt}
    → (k.threads k.current).code ≡ idle_block ∷ rest
    → at_wait p (k.threads k.current).code ≡ false
unfolding at_wait
idle_at p k e = rw e refl

-- A statement of a thread that meets its contract executes, and leaves threads and waiters in step:
-- no ASSERT fails, and a woken thread was blocked.
exec_stmt-KeepsSynced :
    (k : Kernel) (s : Stmt) (rest : List Stmt)
    → IsSynced k
    → (k.threads k.current).code ≡ s ∷ rest
    → Contract k (s ∷ rest)
    → ((l : ℕ) → k.has_donation l ≡ true)
    → KeepsSynced (exec_stmt s rest k)
unfolding exec_stmt
exec_stmt-KeepsSynced k (sema_down x) rest v e c a =
    down-KeepsSynced k (plain x) rest rest v e (set_code-current k _ rest v e (λ h. cc))
exec_stmt-KeepsSynced k (sema_up x) rest v e c a =
    up-KeepsSynced _ (plain x)
      (set_code-IsSynced k rest (set_code-current k _ rest v e (λ h. cc)) v)
exec_stmt-KeepsSynced k (lock_acquire l) rest v e c a =
    let (k', f) =
      donate-total c.1 l (set_code k (lock_down l ∷ rest))
        (IsRanked-set_code k l (lock_down l ∷ rest) c.1 c.2) c.3 a in
    (
      k',
      if_false none _ (or_false _ _ v.outside c.0) ∙ f,
      SameWaits-IsSynced (donate-SameWaits l _ k' f)
          (set_code-IsSynced k (lock_down l ∷ rest) (set_code-current k _ rest v e (λ h. cc)) v),
    )
exec_stmt-KeepsSynced k (lock_release l) rest v e c a =
    let code = lock_up l ∷ compare_next ∷ rest in
    let (k', f, w) = release-SameWaits l (set_code k code) c in
    (
      k',
      f,
      SameWaits-IsSynced w (set_code-IsSynced k code (set_code-current k _ rest v e (λ h. cc)) v),
    )
exec_stmt-KeepsSynced k yields rest v e c a =
    yield-KeepsSynced _ (set_code-IsSynced k rest (set_code-current k _ rest v e (λ h. cc)) v)
exec_stmt-KeepsSynced k (lock_down l) rest v e c a =
    down-KeepsSynced k (in_lock l) rest (lock_take l ∷ rest) v e
      (set_code-current k _ rest v e (λ h. cc))
exec_stmt-KeepsSynced k (lock_take l) rest v e c a =
    let after = set_code-IsSynced k rest (set_code-current k _ rest v e (λ h. cc)) v in
    (_, refl, SameWaits-IsSynced (take-SameWaits k l rest) after)
exec_stmt-KeepsSynced k (lock_up l) rest v e c a =
    up-KeepsSynced _ (in_lock l)
      (set_code-IsSynced k rest (set_code-current k _ rest v e (λ h. cc)) v)
exec_stmt-KeepsSynced k compare_next rest v e c a =
    compare-KeepsSynced _ (set_code-IsSynced k rest (set_code-current k _ rest v e (λ h. cc)) v)
exec_stmt-KeepsSynced k idle_block rest v e c a =
    let (k', f, w) = thread_block-IsScheduled k v.sched v.outside in
    (
      k',
      f,
      switch-IsSynced blocked k.ready_list k k' (thread_block-Switch k k' f)
          (λ p t. ground (arith, v.waits p t, idle_at p k e, v.sched.cur_running))
          (λ t h p. ready_free v t p h) v.idle_code v.outside w,
    )

-- If threads and waiters are in step and the current thread's next statement meets the contract of
-- locks, and there is memory for every donation, then the statement executes, so that no ASSERT fails and
-- no NULL is written to, and leaves threads and waiters in step.
pub exec-KeepsSynced :
    (k : Kernel)
    → IsSynced k
    → Contract k (k.threads k.current).code
    → ((l : ℕ) → k.has_donation l ≡ true)
    → KeepsSynced (exec k)
unfolding exec
exec-KeepsSynced k v c a = go (k.threads k.current).code refl c
  where
    go : (cs : List Stmt) → (k.threads k.current).code ≡ cs → Contract k cs → KeepsSynced (exec k)
    go [] e d = (k, rw (e, exec) refl, v)
    go (s ∷ rest) e d =
        let (k', f, w) = exec_stmt-KeepsSynced k s rest v e d a in (k', rw (e, exec) f, w)
