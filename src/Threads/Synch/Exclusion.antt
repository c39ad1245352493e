-- ===== src/Threads/Synch/Exclusion.antt =====
-- Mutual exclusion by the locks of pintos-kaist/threads/synch.c, over every interleaving.
use w12_13_vm.Common.{
  ℕ, ◌-◌, ◌≡◌, ◌≢◌, refl, sym, ◌∙◌, List, [], ◌∷◌, true, false, some, arith, inl, inr,
}
use mathlib.Core.Path.{subst⁻¹}
use w12_13_vm.Threads.State.{
  Kernel, Stmt, sema_down, sema_up, lock_acquire, lock_release, yields, lock_down, lock_take,
  lock_up, compare_next, idle_block,
}
use w12_13_vm.Threads.Sched.Switch.{thread_block-Switch, thread_yield-Switch}
use w12_13_vm.Threads.Synch.{
  exec, exec_stmt, down, up, set_code, set_sema, get_sema, release_donations,
  lock_held_by_current_thread, Place, plain, in_lock, increment,
}
use w12_13_vm.Threads.Synch.Frame.{
  SameLocks-trans, SameLocks-of_some, Switch-SameLocks, compare_cur_next_priority-SameLocks,
  wake_first-SameLocks, donate-SameLocks, up-parts, down-cases,
}
use w12_13_vm.Threads.Synch.Ownership.{
  Excludes, at_mid, are_calls, tail_calls, tail-calls, at_mid_calls, same-Excludes, quiet-Excludes,
  took-Excludes, take-Excludes, release-Excludes, up-Excludes,
}

-- The thread takes a statement off its code that is no part of a lock's passage.
pub set_code-Excludes :
    (k : Kernel) (c : List Stmt)
    → Excludes k
    → ((m : ℕ) → at_mid m c ≡ at_mid m (k.threads k.current).code)
    → tail_calls c ≡ true
    → Excludes (set_code k c)
set_code-Excludes k c v q t =
    quiet-Excludes v {l = 0}
      (record {
        codes = λ u. ground arith;
        holders = λ m. ground arith;
        values = λ m. ground arith;
        context = ground arith;
      })
      refl refl q t

module _ (k k' : Kernel) (s : Stmt) (rest : List Stmt) (v : Excludes k) (c : k.intr_context ≡ false)
    (e : (k.threads k.current).code ≡ s ∷ rest) where
  rest_calls : are_calls rest ≡ true
  unfolding tail_calls
  rest_calls = ground (arith, v.tails k.current)

  not_mid :
      ((m : ℕ) → at_mid m (s ∷ rest) ≡ false)
      → (m : ℕ) → at_mid m (k.threads k.current).code ≡ false
  not_mid q m = rw e (q m)

  popped : ((m : ℕ) → at_mid m (s ∷ rest) ≡ false) → Excludes (set_code k rest)
  popped q =
      set_code-Excludes k rest v (λ m. at_mid_calls m rest rest_calls ∙ sym (not_mid q m))
        (tail-calls rest rest_calls)

  down-Excludes :
      (p : Place) (c' : List Stmt)
      → down p c' k ≡ some k'
      → ((get_sema k p).value ≢ 0
          → Excludes (
              set_code
                (set_sema k p (record (get_sema k p) { value = (get_sema k p).value - 1 }))
                c'))
      → Excludes k'
  down-Excludes p c' f h = elim (down-cases p c' k k' f) [
    | inl (z, w) ↦ same-Excludes v w
    | inr (n, w) ↦ subst⁻¹ Excludes w (h n)
  ]

  down_plain-Excludes :
      (x : ℕ)
      → ((m : ℕ) → at_mid m (s ∷ rest) ≡ false)
      → down (plain x) rest k ≡ some k'
      → Excludes k'
  down_plain-Excludes x q f = down-Excludes (plain x) rest f λ n.
      quiet-Excludes v {l = 0}
        (record {
          codes = λ u. ground arith;
          holders = λ m. ground arith;
          values = λ m. ground arith;
          context = ground arith;
        })
        refl refl (λ m. at_mid_calls m rest rest_calls ∙ sym (not_mid q m))
        (tail-calls rest rest_calls)

  down_lock-Excludes :
      (l : ℕ)
      → ((m : ℕ) → at_mid m (s ∷ rest) ≡ false)
      → down (in_lock l) (lock_take l ∷ rest) k ≡ some k'
      → Excludes k'
  down_lock-Excludes l q f = down-Excludes (in_lock l) (lock_take l ∷ rest) f λ n.
      took-Excludes v l rest
        (record {
          codes = λ u. ground arith;
          holders = λ m. ground arith;
          values = λ m. ground arith;
          context = ground arith;
        })
        n (not_mid q) rest_calls

  up_plain-Excludes :
      (x : ℕ)
      → ((m : ℕ) → at_mid m (s ∷ rest) ≡ false)
      → up (plain x) (set_code k rest) ≡ some k'
      → Excludes k'
  up_plain-Excludes x q f =
      let (m, g, h) = up-parts (plain x) (set_code k rest) k' f in
      let w = wake_first-SameLocks (plain x) (set_code k rest) m g in
      same-Excludes (same-Excludes (popped q) w) (
        SameLocks-trans
          (record { codes = λ t. refl; holders = λ n. refl; values = λ n. refl; context = refl })
          (compare_cur_next_priority-SameLocks (increment (plain x) m) k' (w.context ∙ c) h))

  up_lock-Excludes :
      (l : ℕ) → s ≡ lock_up l → up (in_lock l) (set_code k rest) ≡ some k' → Excludes k'
  up_lock-Excludes l q f =
      let (m, g, h) = up-parts (in_lock l) (set_code k rest) k' f in
      let w = wake_first-SameLocks (in_lock l) (set_code k rest) m g in
      let u = compare_cur_next_priority-SameLocks (increment (in_lock l) m) k' (w.context ∙ c) h in
      up-Excludes v l rest
        (record {
          codes = λ t. ground (arith, w.codes t, u.codes t);
          holders = λ n. ground (arith, w.holders n, u.holders n);
          values = λ n. ground (arith, w.values n, u.values n);
          context = u.context ∙ w.context;
        })
        (rw (sym q) e) rest_calls

  release-Excludes_lem :
      (l : ℕ)
      → ((m : ℕ) → at_mid m (s ∷ rest) ≡ false)
      → release_donations l (set_code k (lock_up l ∷ compare_next ∷ rest)) ≡ some k'
      → Excludes k'
  unfolding release_donations lock_held_by_current_thread are_calls
  release-Excludes_lem l q f =
      release-Excludes v l (compare_next ∷ rest)
        (record {
          codes = λ t. ground arith;
          holders = λ n. ground arith;
          values = λ n. ground arith;
          context = ground arith;
        })
        (ground arith) (not_mid q) rest_calls

exec_stmt-Excludes :
    (k k' : Kernel) (s : Stmt) (rest : List Stmt)
    → Excludes k
    → k.intr_context ≡ false
    → (k.threads k.current).code ≡ s ∷ rest
    → exec_stmt s rest k ≡ some k'
    → Excludes k'
unfolding exec_stmt at_mid tail_calls are_calls
exec_stmt-Excludes k k' (sema_down x) rest v c e f =
    down_plain-Excludes k k' _ rest v c e x (λ m. refl) f
exec_stmt-Excludes k k' (sema_up x) rest v c e f =
    up_plain-Excludes k k' _ rest v c e x (λ m. refl) f
exec_stmt-Excludes k k' (lock_acquire l) rest v c e f =
    same-Excludes
      (set_code-Excludes k (lock_down l ∷ rest) v (λ m. rw e refl) (rest_calls k k' _ rest v c e))
      (donate-SameLocks l (set_code k (lock_down l ∷ rest)) k' (ground arith))
exec_stmt-Excludes k k' (lock_release l) rest v c e f =
    release-Excludes_lem k k' _ rest v c e l (λ m. refl) f
exec_stmt-Excludes k k' yields rest v c e f =
    same-Excludes (popped k k' _ rest v c e (λ m. refl))
      (Switch-SameLocks (thread_yield-Switch (set_code k rest) k' f))
exec_stmt-Excludes k k' (lock_down l) rest v c e f =
    down_lock-Excludes k k' _ rest v c e l (λ m. refl) f
exec_stmt-Excludes k k' (lock_take l) rest v c e f =
    take-Excludes v l rest
      (record {
        codes = λ t. ground arith;
        holders = λ m. ground arith;
        values = λ m. ground arith;
        context = ground arith;
      })
      e (rest_calls k k' _ rest v c e)
exec_stmt-Excludes k k' (lock_up l) rest v c e f = up_lock-Excludes k k' _ rest v c e l refl f
exec_stmt-Excludes k k' compare_next rest v c e f =
    same-Excludes (popped k k' _ rest v c e (λ m. refl))
      (compare_cur_next_priority-SameLocks (set_code k rest) k' c f)
exec_stmt-Excludes k k' idle_block rest v c e f =
    same-Excludes v (Switch-SameLocks (thread_block-Switch k k' f))

exec-of :
    (k k' : Kernel) (cs : List Stmt)
    → Excludes k
    → k.intr_context ≡ false
    → (k.threads k.current).code ≡ cs
    → exec k ≡ some k'
    → Excludes k'
unfolding exec
exec-of k k' [] v c e f = same-Excludes v (SameLocks-of_some (rw (e, exec) at f))
exec-of k k' (s ∷ rest) v c e f = exec_stmt-Excludes k k' s rest v c e (rw (e, exec) at f)

-- No statement of synch.c gives a lock a second owner.
pub exec-Excludes : (k k' : Kernel) → Excludes k → exec k ≡ some k' → Excludes k'
exec-Excludes k k' v f = exec-of k k' _ v v.outside refl f
