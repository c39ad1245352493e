-- ===== src/Threads/Synch/SameWaits.antt =====
-- What lock_acquire and lock_release of pintos-kaist/threads/synch.c leave as it is: who is ready,
-- who waits where, and what each thread has to do.
use mathlib.Core.Path.{subst}
use w12_13_vm.Common.{
  ℕ, suc, ◌≡◌, refl, ◌∙◌, true, Option, none, some, ltb, some_inj, arith, if_true, Bool-cases,
  Option-cases, inl, inr, count, length, zero,
}
use w12_13_vm.KernelList.{list_sort}
use w12_13_vm.KernelList.Count.{count-sort}
use w12_13_vm.Threads.State.{Donation, Kernel, Thread, status, set_thread, priority}
use w12_13_vm.Threads.Sched.{compare_priority}
use w12_13_vm.Threads.Sched.Invariant.{compare_priority-asym}
use w12_13_vm.Threads.Synch.Frame.{created}
use w12_13_vm.Threads.Synch.{
  donation_of, Place, plain, in_lock, get_sema, give, resort_waiters, donate_chain, donate, pend,
  lock_held_by_current_thread, release_donations, set_holder,
}
use w12_13_vm.Threads.Synch.Waits.{
  IsSynced, SameSched, SameSched-IsScheduled, waiters-set_sema, same_place→≡,
}

-- Priorities, donations and the order of waiters may change: who waits does not.
pub record SameWaits (k k' : Kernel) : Type 0 where
  pub same_sched : SameSched k k'
  pub same_code : (t : ℕ) → (k'.threads t).code ≡ (k.threads t).code
  pub same_count :
      (p : Place) (t : ℕ) → count t (get_sema k' p).waiters ≡ count t (get_sema k p).waiters

pub SameWaits-IsSynced : {k k' : Kernel} → SameWaits k k' → IsSynced k → IsSynced k'
SameWaits-IsSynced {k} s v = record {
  sched = SameSched-IsScheduled s.same_sched v.sched;
  waits = λ p t.
      ground (arith, s.same_count p t, s.same_code t, s.same_sched.same_status t, v.waits p t);
  idle_code = ground (arith, s.same_code k.idle_thread, s.same_sched.same_idle, v.idle_code);
  outside = s.same_sched.same_context ∙ v.outside;
}

get_sema-set_thread :
    (p : Place) (k : Kernel) (h : ℕ) (th : Thread) → get_sema (set_thread k h th) p ≡ get_sema k p
get_sema-set_thread (plain a) k h th = refl
get_sema-set_thread (in_lock a) k h th = refl

-- A thread's record changes, but neither its status nor its code.
set_thread-SameWaits :
    (k : Kernel) (h : ℕ) (th : Thread)
    → th.status ≡ status k h
    → th.code ≡ (k.threads h).code
    → SameWaits k (set_thread k h th)
set_thread-SameWaits k h th es ec = record {
  same_sched = record {
    same_current = refl;
    same_ready = refl;
    same_idle = refl;
    same_context = refl;
    same_status = λ t. ground arith;
  };
  same_code = λ t. ground arith;
  same_count = λ p t. ground (arith, get_sema-set_thread p k h th);
}

SameWaits-trans : {k k' k'' : Kernel} → SameWaits k k' → SameWaits k' k'' → SameWaits k k''
SameWaits-trans a b = record {
  same_sched = record {
    same_current = b.same_sched.same_current ∙ a.same_sched.same_current;
    same_ready = b.same_sched.same_ready ∙ a.same_sched.same_ready;
    same_idle = b.same_sched.same_idle ∙ a.same_sched.same_idle;
    same_context = b.same_sched.same_context ∙ a.same_sched.same_context;
    same_status = λ t. b.same_sched.same_status t ∙ a.same_sched.same_status t;
  };
  same_code = λ t. b.same_code t ∙ a.same_code t;
  same_count = λ p t. b.same_count p t ∙ a.same_count p t;
}

SameWaits-refl : (k : Kernel) → SameWaits k k
SameWaits-refl k = record {
  same_sched = record {
    same_current = refl;
    same_ready = refl;
    same_idle = refl;
    same_context = refl;
    same_status = λ t. refl;
  };
  same_code = λ t. refl;
  same_count = λ p t. refl;
}

resort_waiters-SameWaits : (o : Option ℕ) (k : Kernel) → SameWaits k (resort_waiters o k)
unfolding resort_waiters
resort_waiters-SameWaits none k = SameWaits-refl k
resort_waiters-SameWaits (some l) k =
    let less = compare_priority k.threads in
    let ws = (k.locks l).semaphore.waiters in
    record {
      same_sched = record {
        same_current = refl;
        same_ready = refl;
        same_idle = refl;
        same_context = refl;
        same_status = λ t. refl;
      };
      same_code = λ t. refl;
      same_count = λ p t. ground (
        arith,
        waiters-set_sema (in_lock l) p k
            (record (k.locks l).semaphore { waiters = list_sort less ws }),
        same_place→≡ (in_lock l) p,
        count-sort less (compare_priority-asym k.threads) t ws,
      );
    }

give-SameWaits : (d : Donation) (h : ℕ) (k : Kernel) → SameWaits k (give d h k)
unfolding give
give-SameWaits d h k =
    SameWaits-trans (set_thread-SameWaits k h _ refl refl)
      (resort_waiters-SameWaits (k.threads h).pending_lock _)

donate_chain-SameWaits :
    (f : ℕ) (o : Option ℕ) (k k' : Kernel) → donate_chain f o k ≡ some k' → SameWaits k k'
unfolding donate_chain
donate_chain-SameWaits zero o k k' e = absurd (cc)
donate_chain-SameWaits (suc f) none k k' e = subst (SameWaits k) (some_inj e) (SameWaits-refl k)
donate_chain-SameWaits (suc f) (some l) k k' e = elim (Option-cases (k.locks l).holder) [
  | inl n ↦ subst (SameWaits k) (some_inj (rw (n, donate_chain) at e)) (SameWaits-refl k)
  | inr (h, q) ↦
      let e' = rw (q, donate_chain) at e in
      elim (Bool-cases (ltb (priority k k.current) (priority k h))) [
        | inl b ↦ subst (SameWaits k) (some_inj (rw b at e')) (SameWaits-refl k)
        | inr b ↦ SameWaits-trans (give-SameWaits (donation_of k l) h k) (
            donate_chain-SameWaits f (k.threads h).pending_lock (give (donation_of k l) h k) k'
              (created k _ _ (rw b at e')))
      ]
]

pub donate-SameWaits : (l : ℕ) (k k' : Kernel) → donate l k ≡ some k' → SameWaits k k'
unfolding donate
donate-SameWaits l k k' e = elim (Option-cases (k.locks l).holder) [
  | inl n ↦ subst (SameWaits k) (some_inj (rw (n, donate) at e)) (SameWaits-refl k)
  | inr (h, q) ↦ SameWaits-trans (set_thread-SameWaits k k.current _ refl refl) (
      donate_chain-SameWaits (suc (length k.all_list)) (some l) (pend l k) k' (rw (q, donate) at e))
]

set_holder-SameWaits : (l : ℕ) (o : Option ℕ) (k : Kernel) → SameWaits k (set_holder l o k)
set_holder-SameWaits l o k = record {
  same_sched = record {
    same_current = refl;
    same_ready = refl;
    same_idle = refl;
    same_context = refl;
    same_status = λ t. refl;
  };
  same_code = λ t. refl;
  same_count = λ p t. at p t;
}
  where
    at :
        (p : Place) (t : ℕ)
        → count t (get_sema (set_holder l o k) p).waiters ≡ count t (get_sema k p).waiters
    at (plain a) t = refl
    at (in_lock a) t = ground arith

holder_held :
    (k : Kernel) (l : ℕ)
    → (k.locks l).holder ≡ some k.current
    → lock_held_by_current_thread k l ≡ true
unfolding lock_held_by_current_thread
holder_held k l e = ground arith

pub release-SameWaits :
    (l : ℕ) (k : Kernel)
    → (k.locks l).holder ≡ some k.current
    → (k' : Kernel) × (release_donations l k ≡ some k') × SameWaits k k'
unfolding release_donations
release-SameWaits l k e = (
  _,
  if_true _ none held,
  SameWaits-trans (set_thread-SameWaits k k.current _ refl refl) (set_holder-SameWaits l none _),
)
  where
    held : lock_held_by_current_thread k l ≡ true
    held = holder_held k l e
