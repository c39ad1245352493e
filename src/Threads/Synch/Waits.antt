-- ===== src/Threads/Synch/Waits.antt =====
-- Who waits for the semaphores of pintos-kaist/threads/synch.c: the waiters of a semaphore are the
-- blocked threads that stand in its sema_down, each once.
use w12_13_vm.Common.{
  ℕ, ◌<◌, ◌≡◌, refl, ◌∙◌, List, [], ◌∷◌, Bool, true, false, ◌&&◌, ◌==◌, arith, if◌then◌else◌,
  Bool-cases, ◌⊎◌, inl, inr, count,
}
use w12_13_vm.Threads.State.{
  Kernel, Thread, Status, Stmt, Semaphore, sema_down, lock_down, idle_block, status, is_blocked,
}
use w12_13_vm.Threads.Sched.{next_thread_to_run}
use w12_13_vm.Threads.Sched.Invariant.{IsScheduled, one_if}
use w12_13_vm.Threads.Sched.Switch.{Switch}
use w12_13_vm.Threads.Synch.{Place, plain, in_lock, get_sema, set_sema}

-- The statement at which a thread waits for a semaphore.
abbrev pub wait_stmt : Place → Stmt
wait_stmt (plain s) = sema_down s
wait_stmt (in_lock l) = lock_down l

abbrev pub same_place : Place → Place → Bool
same_place (plain a) (plain b) = a == b
same_place (in_lock a) (in_lock b) = a == b
same_place _ _ = false

-- The thread stands in the sema_down of `p`.
unfoldable pub at_wait : Place → List Stmt → Bool
at_wait p (sema_down s ∷ _) = same_place (plain s) p
at_wait p (lock_down l ∷ _) = same_place (in_lock l) p
at_wait p _ = false

abbrev pub waits_on : Place → Thread → Bool
waits_on p th = is_blocked th.status && at_wait p th.code

pub record IsSynced (k : Kernel) : Type 0 where
  pub sched : IsScheduled k
  pub waits :
      (p : Place) (t : ℕ) → count t (get_sema k p).waiters ≡ one_if (waits_on p (k.threads t))
  pub idle_code : (k.threads k.idle_thread).code ≡ idle_block ∷ []
  pub outside : k.intr_context ≡ false

pub waiters-set_sema :
    (p q : Place) (k : Kernel) (x : Semaphore)
    → (get_sema (set_sema k p x) q).waiters
      ≡ (if same_place p q then x.waiters else (get_sema k q).waiters)
waiters-set_sema (plain a) (plain b) k x = ground arith
waiters-set_sema (plain a) (in_lock b) k x = refl
waiters-set_sema (in_lock a) (plain b) k x = refl
waiters-set_sema (in_lock a) (in_lock b) k x = ground arith

same_place_self : (p : Place) → same_place p p ≡ true
same_place_self (plain a) = ground arith
same_place_self (in_lock a) = ground arith

pub same_place→≡ : (p q : Place) → same_place p q ≡ true → p ≡ q
same_place→≡ (plain a) (plain b) h = ground arith
same_place→≡ (plain a) (in_lock b) h = absurd (cc)
same_place→≡ (in_lock a) (plain b) h = absurd (cc)
same_place→≡ (in_lock a) (in_lock b) h = ground arith

same_place_join :
    (x p q : Place) → same_place x p ≡ true → same_place x q ≡ true → same_place p q ≡ true
same_place_join x p q h g =
    ground (arith, same_place→≡ x p h, same_place→≡ x q g, same_place_self p)

pub at_wait_unique :
    (p q : Place) (c : List Stmt) → at_wait p c ≡ true → at_wait q c ≡ true → same_place p q ≡ true
unfolding at_wait
at_wait_unique p q (sema_down s ∷ c) h g = same_place_join (plain s) p q h g
at_wait_unique p q (lock_down s ∷ c) h g = same_place_join (in_lock s) p q h g
at_wait_unique p q c h g = absurd (cc)

pub at_wait-wait_stmt :
    (p q : Place) (rest : List Stmt) → at_wait q (wait_stmt p ∷ rest) ≡ same_place p q
unfolding at_wait
at_wait-wait_stmt (plain a) q rest = refl
at_wait-wait_stmt (in_lock a) q rest = refl

-- What the scheduler reads of the state.
pub record SameSched (k k' : Kernel) : Type 0 where
  pub same_current : k'.current ≡ k.current
  pub same_ready : k'.ready_list ≡ k.ready_list
  pub same_idle : k'.idle_thread ≡ k.idle_thread
  pub same_context : k'.intr_context ≡ k.intr_context
  pub same_status : (t : ℕ) → status k' t ≡ status k t

pub SameSched-IsScheduled : {k k' : Kernel} → SameSched k k' → IsScheduled k → IsScheduled k'
SameSched-IsScheduled {k} s v = record {
  cur_running = ground (arith, s.same_current, s.same_status k.current, v.cur_running);
  only_one = λ t ne. ground (arith, s.same_current, s.same_status t, v.only_one t);
  open_queue = record {
    queued =
        λ t ne. ground (arith, s.same_ready, s.same_idle, s.same_status t, v.open_queue.queued t);
    idle_out = ground (arith, s.same_ready, s.same_idle, v.open_queue.idle_out);
  };
}

pub set_sema-SameSched : (p : Place) (k : Kernel) (x : Semaphore) → SameSched k (set_sema k p x)
set_sema-SameSched (plain a) k x = record {
  same_current = refl;
  same_ready = refl;
  same_idle = refl;
  same_context = refl;
  same_status = λ t. refl;
}
set_sema-SameSched (in_lock a) k x = record {
  same_current = refl;
  same_ready = refl;
  same_idle = refl;
  same_context = refl;
  same_status = λ t. refl;
}

pub set_sema-threads :
    (p : Place) (k : Kernel) (x : Semaphore) → (set_sema k p x).threads ≡ k.threads
set_sema-threads (plain a) k x = refl
set_sema-threads (in_lock a) k x = refl

-- The next thread is the idle thread or stands in the list.
pub next_cases :
    (idle : ℕ) (xs : List ℕ)
    → ((next_thread_to_run idle xs).0 ≡ idle) ⊎ (0 < count (next_thread_to_run idle xs).0 xs)
unfolding next_thread_to_run
next_cases idle [] = inl refl
next_cases idle (x ∷ xs) = inr (ground arith)

-- The waiters of `k`, when the current thread takes the status `s` and the code stays.
abbrev pub WaitsAs : Kernel → Status → Type 0
WaitsAs k s =
    (p : Place) (t : ℕ)
    → count t (get_sema k p).waiters
      ≡ one_if (
          (if k.current == t then is_blocked s else is_blocked (status k t))
          && at_wait p (k.threads t).code)

pub Switch-sema :
    {s : Status} {xs : List ℕ} {k k' : Kernel} (p : Place)
    → Switch s xs k k'
    → get_sema k' p ≡ get_sema k p
Switch-sema (plain a) sw = ground (arith, sw.same_semas)
Switch-sema (in_lock a) sw = ground (arith, sw.same_locks)

pub idle_waits_not :
    (k : Kernel) (p : Place)
    → (k.threads k.idle_thread).code ≡ idle_block ∷ []
    → at_wait p (k.threads k.idle_thread).code ≡ false
unfolding at_wait
idle_waits_not k p e = rw e refl

module _ (s : Status) (xs : List ℕ) (k k' : Kernel) (sw : Switch s xs k k') (w : WaitsAs k s)
    (free : (t : ℕ) → 0 < count t xs → (p : Place) → count t (get_sema k p).waiters ≡ 0)
    (ic : (k.threads k.idle_thread).code ≡ idle_block ∷ []) where
  next_free : (p : Place) → count k'.current (get_sema k p).waiters ≡ 0
  next_free p = elim (next_cases k.idle_thread xs) [
    | inl e ↦ ground (arith, sw.cur_next, w p k.idle_thread, idle_waits_not k p ic)
    | inr c ↦ rw sw.cur_next (free _ c p)
  ]

  pub switch-IsSynced : k.intr_context ≡ false → IsScheduled k' → IsSynced k'
  switch-IsSynced c v = record {
    sched = v;
    waits = λ p t. ground (arith, Switch-sema p sw, sw.same_threads t, next_free p, w p t);
    idle_code = ground (arith, sw.same_threads k.idle_thread, sw.same_idle);
    outside = sw.same_context ∙ c;
  }

-- A ready thread waits nowhere.
pub ready_free :
    {k : Kernel}
    → IsSynced k
    → (t : ℕ) (p : Place) → 0 < count t k.ready_list
    → count t (get_sema k p).waiters ≡ 0
ready_free {k} v t p h = elim (Bool-cases (t == k.idle_thread)) [
  | inl i ↦ ground (arith, v.sched.open_queue.idle_out)
  | inr n ↦ ground (arith, v.waits p t, v.sched.open_queue.queued t)
]

pub ready_not_current :
    {k : Kernel} → IsSynced k → (t : ℕ) → 0 < count t k.ready_list → (t == k.current) ≡ false
ready_not_current {k} v t h = elim (Bool-cases (t == k.idle_thread)) [
  | inl i ↦ ground (arith, v.sched.open_queue.idle_out)
  | inr n ↦ ground (arith, v.sched.open_queue.queued t, v.sched.cur_running)
]
