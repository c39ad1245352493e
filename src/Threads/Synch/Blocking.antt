-- ===== src/Threads/Synch/Blocking.antt =====
-- The operations on semaphores of pintos-kaist/threads/synch.c do not fail, and keep threads and
-- waiters in step.
use w12_13_vm.Common.{
  ℕ, ◌<◌, ◌≡◌, ◌≢◌, refl, sym, ◌∙◌, List, ◌∷◌, Option, none, some, ◌==◌, arith, if_true, if_false,
  ◌-◌, Bool-cases, inl, inr, count,
}
use w12_13_vm.KernelList.{list_insert_ordered}
use w12_13_vm.KernelList.Count.{count-insert}
use w12_13_vm.Threads.State.{Kernel, Stmt, Semaphore, ready, blocked}
use w12_13_vm.Threads.Sched.{compare_priority, thread_block, thread_yield}
use w12_13_vm.Threads.Sched.Invariant.{
  IsScheduled, thread_block-IsScheduled, thread_yield-IsScheduled,
}
use w12_13_vm.Threads.Sched.Switch.{with_current, thread_block-Switch, thread_yield-Switch}
use w12_13_vm.Threads.Synch.{Place, plain, in_lock, get_sema, set_sema, set_code, down}
use w12_13_vm.Threads.Synch.Waits.{
  wait_stmt, IsSynced, waiters-set_sema, same_place→≡, at_wait-wait_stmt, SameSched,
  SameSched-IsScheduled, set_sema-SameSched, set_sema-threads, WaitsAs, switch-IsSynced, ready_free,
  ready_not_current,
}

-- The operation does not fail, and leaves the threads and the waiters in step.
abbrev pub KeepsSynced : Option Kernel → Type 0
KeepsSynced r = (k' : Kernel) × (r ≡ some k') × IsSynced k'

pub yield-KeepsSynced : (k : Kernel) → IsSynced k → KeepsSynced (thread_yield k)
yield-KeepsSynced k v =
    let (k', e, w) = thread_yield-IsScheduled k v.sched v.outside in
    (
      k',
      e,
      switch-IsSynced ready (with_current k) k k' (thread_yield-Switch k k' e)
          (λ p t. ground (arith, v.waits p t, v.sched.cur_running))
          (λ t h p. ground (
            arith,
            ready_free v t p,
            v.waits p t,
            v.sched.cur_running,
            count-insert (compare_priority k.threads) t k.current k.ready_list,
          ))
          v.idle_code v.outside w,
    )

-- thread_block in sema_down of `p`, with the current thread among the waiters.
module _ (k : Kernel) (v : IsSynced k) (p : Place) (rest : List Stmt)
    (e : (k.threads k.current).code ≡ wait_stmt p ∷ rest) where
  abbrev waiters' : Semaphore
  waiters' = record (get_sema k p) {
    waiters = list_insert_ordered (compare_priority k.threads) (get_sema k p).waiters k.current;
  }

  abbrev waiting : Kernel
  waiting = set_sema k p waiters'

  frame : SameSched k waiting
  frame = set_sema-SameSched p k waiters'

  waiting_waits : WaitsAs waiting blocked
  waiting_waits q t = ground (
    arith,
    frame.same_current,
    set_sema-threads p k waiters',
    waiters-set_sema p q k waiters',
    count-insert (compare_priority k.threads) t k.current (get_sema k p).waiters,
    same_place→≡ p q,
    at_wait-wait_stmt p q rest,
    e,
    v.waits q t,
    v.sched.cur_running,
  )

  waiting-IsScheduled : IsScheduled waiting
  waiting-IsScheduled = SameSched-IsScheduled frame v.sched

  waiting_free :
      (t : ℕ) (q : Place) → 0 < count t k.ready_list → count t (get_sema waiting q).waiters ≡ 0
  waiting_free t q h = ground (
    arith,
    waiters-set_sema p q k waiters',
    count-insert (compare_priority k.threads) t k.current (get_sema k p).waiters,
    same_place→≡ p q,
    ready_free v t q h,
    ready_not_current v t h,
  )

  block-KeepsSynced : KeepsSynced (thread_block waiting)
  block-KeepsSynced =
      let outside = frame.same_context ∙ v.outside in
      let (k', f, w) = thread_block-IsScheduled waiting waiting-IsScheduled outside in
      (
        k',
        f,
        switch-IsSynced blocked waiting.ready_list waiting k' (thread_block-Switch waiting k' f)
            waiting_waits (λ t h q. waiting_free t q (rw (sym frame.same_ready) h))
            (ground (arith, frame.same_idle, set_sema-threads p k waiters', v.idle_code)) outside w,
      )

get_sema-set_code :
    (p : Place) (k : Kernel) (c : List Stmt) → get_sema (set_code k c) p ≡ get_sema k p
get_sema-set_code (plain a) k c = refl
get_sema-set_code (in_lock a) k c = refl

-- A change of the current thread's code alone, or of a semaphore's value, changes no waiters.
pub set_code-IsSynced :
    (k : Kernel) (c : List Stmt) → k.current ≢ k.idle_thread → IsSynced k → IsSynced (set_code k c)
set_code-IsSynced k c ne v = record {
  sched =
      SameSched-IsScheduled
        (record {
          same_current = refl;
          same_ready = refl;
          same_idle = refl;
          same_context = refl;
          same_status = λ t. ground arith;
        })
        v.sched;
  waits = λ p t. ground (arith, get_sema-set_code p k c, v.waits p t, v.sched.cur_running);
  idle_code = ground (arith, v.idle_code);
  outside = v.outside;
}

pub set_value-IsSynced :
    (k : Kernel) (p : Place) (n : ℕ)
    → IsSynced k
    → IsSynced (set_sema k p (record (get_sema k p) { value = n }))
set_value-IsSynced k p n v =
    let x : Semaphore = record (get_sema k p) { value = n } in
    let s = set_sema-SameSched p k x in
    record {
      sched = SameSched-IsScheduled s v.sched;
      waits = λ q t.
          ground (
            arith,
            waiters-set_sema p q k x,
            same_place→≡ p q,
            set_sema-threads p k x,
            v.waits q t,
          );
      idle_code = ground (arith, s.same_idle, set_sema-threads p k x, v.idle_code);
      outside = s.same_context ∙ v.outside;
    }

-- sema_down takes one off the value, or blocks.
pub down-KeepsSynced :
    (k : Kernel) (p : Place) (rest c : List Stmt)
    → IsSynced k
    → (k.threads k.current).code ≡ wait_stmt p ∷ rest
    → k.current ≢ k.idle_thread
    → KeepsSynced (down p c k)
unfolding down
down-KeepsSynced k p rest c v e ne = elim (Bool-cases ((get_sema k p).value == 0)) [
  | inl z ↦
      let (k', f, w) = block-KeepsSynced k v p rest e in
      (k', if_false none _ v.outside ∙ if_true _ _ z ∙ f, w)
  | inr n ↦ (
    set_code taken c,
    if_false none _ v.outside ∙ if_false _ _ n,
    set_code-IsSynced taken c (λ h. ne (sym same.same_current ∙ h ∙ same.same_idle))
        (set_value-IsSynced k p ((get_sema k p).value - 1) v),
  )
]
  where
    taken : Kernel
    taken = set_sema k p (record (get_sema k p) { value = (get_sema k p).value - 1 })

    same : SameSched k taken
    same = set_sema-SameSched p k (record (get_sema k p) { value = (get_sema k p).value - 1 })
