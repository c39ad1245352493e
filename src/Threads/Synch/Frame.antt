-- ===== src/Threads/Synch/Frame.antt =====
-- What the scheduler's operations of pintos-kaist/threads leave alone: the statements that the
-- threads have to do, and the values and holders of the locks.
use w12_13_vm.Common.{
  ◌>>=◌, ℕ, ◌≡◌, refl, sym, ◌∙◌, List, [], ◌∷◌, false, Option, none, some, zero, suc, arith, ltb,
  Bool-cases, Option-cases, inl, inr, length, ◌-◌, ◌⊎◌, ◌≢◌, ◌==◌,
}
use w12_13_vm.KernelList.{list_sort, list_insert_ordered}
use w12_13_vm.Threads.State.{Donation, Kernel, Stmt, priority}
use w12_13_vm.Threads.Sched.{compare_priority, thread_unblock, compare_cur_next_priority}
use w12_13_vm.Threads.Sched.Switch.{Switch, thread_block-Switch, thread_yield-Switch}
use w12_13_vm.Threads.Sched.Highest.{
  Compared, nobody, stays, yields, resorted, compare_cur_next_priority-Compared,
}
use w12_13_vm.Threads.Synch.{
  donation_of, create_donation, Place, plain, in_lock, get_sema, set_sema, wake_first, increment,
  up, resort_waiters, give, donate_chain, donate, down, set_code, pend,
}

pub record SameLocks (k k' : Kernel) : Type 0 where
  pub codes : (t : ℕ) → (k'.threads t).code ≡ (k.threads t).code
  pub holders : (l : ℕ) → (k'.locks l).holder ≡ (k.locks l).holder
  pub values : (l : ℕ) → (k'.locks l).semaphore.value ≡ (k.locks l).semaphore.value
  pub context : k'.intr_context ≡ k.intr_context

SameLocks-refl : (k : Kernel) → SameLocks k k
SameLocks-refl k = record {
  codes = λ t. refl;
  holders = λ l. refl;
  values = λ l. refl;
  context = refl;
}

pub SameLocks-of_some : {k k' : Kernel} → some k ≡ some k' → SameLocks k k'
SameLocks-of_some e = record {
  codes = λ t. ground arith;
  holders = λ l. ground arith;
  values = λ l. ground arith;
  context = ground arith;
}

pub SameLocks-trans : {k k' k'' : Kernel} → SameLocks k k' → SameLocks k' k'' → SameLocks k k''
SameLocks-trans a b = record {
  codes = λ t. b.codes t ∙ a.codes t;
  holders = λ l. b.holders l ∙ a.holders l;
  values = λ l. b.values l ∙ a.values l;
  context = b.context ∙ a.context;
}

pub Switch-SameLocks : {s : _} {xs : List ℕ} {k k' : Kernel} → Switch s xs k k' → SameLocks k k'
Switch-SameLocks sw = record {
  codes = λ t. ground (arith, sw.same_threads t);
  holders = λ l. ground (arith, sw.same_locks);
  values = λ l. ground (arith, sw.same_locks);
  context = sw.same_context;
}

pub thread_unblock-SameLocks :
    (t : ℕ) (k k' : Kernel) → thread_unblock t k ≡ some k' → SameLocks k k'
unfolding thread_unblock
thread_unblock-SameLocks t k k' e = record {
  codes = λ u. ground arith;
  holders = λ l. ground arith;
  values = λ l. ground arith;
  context = ground arith;
}

Compared-SameLocks :
    (k k' : Kernel) {r : Option Kernel} → Compared k r → r ≡ some k' → SameLocks k k'
Compared-SameLocks k k' (nobody e f) g = SameLocks-of_some (sym f ∙ g)
Compared-SameLocks k k' (stays x xs f h e) g = record {
  codes = λ t. ground arith;
  holders = λ l. ground arith;
  values = λ l. ground arith;
  context = ground arith;
}
Compared-SameLocks k k' (yields e) g =
    let w = Switch-SameLocks (thread_yield-Switch (resorted k) k' (sym e ∙ g)) in
    record { codes = w.codes; holders = w.holders; values = w.values; context = w.context }

pub compare_cur_next_priority-SameLocks :
    (k k' : Kernel)
    → k.intr_context ≡ false
    → compare_cur_next_priority k ≡ some k'
    → SameLocks k k'
compare_cur_next_priority-SameLocks k k' c e =
    Compared-SameLocks k k' (compare_cur_next_priority-Compared k c) e

set_waiters-SameLocks :
    (p : Place) (k : Kernel) (ws : List ℕ)
    → SameLocks k (set_sema k p (record (get_sema k p) { waiters = ws }))
set_waiters-SameLocks (plain s) k ws = record {
  codes = λ t. refl;
  holders = λ l. refl;
  values = λ l. refl;
  context = refl;
}
set_waiters-SameLocks (in_lock l) k ws = record {
  codes = λ t. refl;
  holders = λ m. ground arith;
  values = λ m. ground arith;
  context = refl;
}

wake_first-of :
    (p : Place) (k k' : Kernel) (ws : List ℕ)
    → list_sort (compare_priority k.threads) (get_sema k p).waiters ≡ ws
    → wake_first p k ≡ some k'
    → SameLocks k k'
unfolding wake_first
wake_first-of p k k' [] e f = SameLocks-of_some (rw (e, wake_first) at f)
wake_first-of p k k' (t ∷ ts) e f =
    SameLocks-trans (set_waiters-SameLocks p k ts)
      (thread_unblock-SameLocks t _ k' (rw (e, wake_first) at f))

pub wake_first-SameLocks : (p : Place) (k k' : Kernel) → wake_first p k ≡ some k' → SameLocks k k'
wake_first-SameLocks p k k' e = wake_first-of p k k' _ refl e

resort_waiters-SameLocks : (o : Option ℕ) (k : Kernel) → SameLocks k (resort_waiters o k)
unfolding resort_waiters
resort_waiters-SameLocks none k = SameLocks-refl k
resort_waiters-SameLocks (some l) k = set_waiters-SameLocks (in_lock l) k _

give-SameLocks : (d : Donation) (h : ℕ) (k : Kernel) → SameLocks k (give d h k)
unfolding give
give-SameLocks d h k =
    SameLocks-trans
      (record {
        codes = λ t. ground arith;
        holders = λ m. refl;
        values = λ m. refl;
        context = refl;
      })
      (resort_waiters-SameLocks (k.threads h).pending_lock _)

-- With a result, there was memory.
pub created :
    (k : Kernel) (l : ℕ) (f : Donation → Option Kernel) {k' : Kernel}
    → (create_donation k l >>= f) ≡ some k'
    → f (donation_of k l) ≡ some k'
unfolding create_donation
created k l f e = elim (Bool-cases (k.has_donation l)) [
  | inl h ↦ rw h at e
  | inr h ↦ absurd (ground (arith, rw h at e))
]

donate_chain-SameLocks :
    (f : ℕ) (o : Option ℕ) (k k' : Kernel) → donate_chain f o k ≡ some k' → SameLocks k k'
unfolding donate_chain
donate_chain-SameLocks zero o k k' e = absurd (cc)
donate_chain-SameLocks (suc f) none k k' e = SameLocks-of_some e
donate_chain-SameLocks (suc f) (some l) k k' e = elim (Option-cases (k.locks l).holder) [
  | inl n ↦ SameLocks-of_some (rw (n, donate_chain) at e)
  | inr (h, q) ↦
      let e' = rw (q, donate_chain) at e in
      elim (Bool-cases (ltb (priority k k.current) (priority k h))) [
        | inl b ↦ SameLocks-of_some (rw b at e')
        | inr b ↦ SameLocks-trans (give-SameLocks (donation_of k l) h k) (
            donate_chain-SameLocks f (k.threads h).pending_lock (give (donation_of k l) h k) k'
              (created k _ _ (rw b at e')))
      ]
]

pend-SameLocks : (l : ℕ) (k : Kernel) → SameLocks k (pend l k)
pend-SameLocks l k = record {
  codes = λ t. ground arith;
  holders = λ m. refl;
  values = λ m. refl;
  context = refl;
}

-- lock_acquire up to its sema_down changes priorities, donations and orders only.
pub donate-SameLocks : (l : ℕ) (k k' : Kernel) → donate l k ≡ some k' → SameLocks k k'
unfolding donate
donate-SameLocks l k k' e = elim (Option-cases (k.locks l).holder) [
  | inl n ↦ SameLocks-of_some (rw (n, donate) at e)
  | inr (h, q) ↦ SameLocks-trans (pend-SameLocks l k) (
      donate_chain-SameLocks (suc (length k.all_list)) (some l) (pend l k) k' (rw (q, donate) at e))
]

-- The effect of sema_up on the values, with the steps between.
pub up-parts :
    (p : Place) (k k' : Kernel)
    → up p k ≡ some k'
    → (m : Kernel) × (wake_first p k ≡ some m)
      × (compare_cur_next_priority (increment p m) ≡ some k')
unfolding up
up-parts p k k' e = elim (Option-cases (wake_first p k)) [
  | inl n ↦ absurd (ground (arith, n))
  | inr (m, q) ↦ (m, q, rw (q, up) at e)
]

abbrev with_waiter : Place → Kernel → List ℕ
with_waiter p k = list_insert_ordered (compare_priority k.threads) (get_sema k p).waiters k.current

-- sema_down blocks at the value 0, and takes one off any other value.
pub down-cases :
    (p : Place) (rest : List Stmt) (k k' : Kernel)
    → down p rest k ≡ some k'
    → ((get_sema k p).value ≡ 0) × SameLocks k k'
      ⊎ ((get_sema k p).value ≢ 0)
        × (k'
            ≡ set_code
                (set_sema k p (record (get_sema k p) { value = (get_sema k p).value - 1 }))
                rest)
unfolding down
down-cases p rest k k' e = elim (Bool-cases ((get_sema k p).value == 0)) [
  | inl z ↦ inl (
    ground arith,
    SameLocks-trans (set_waiters-SameLocks p k (with_waiter p k)) (
        Switch-SameLocks (
          thread_block-Switch (set_sema k p (record (get_sema k p) { waiters = with_waiter p k }))
            k' (ground arith))),
  )
  | inr n ↦ inr (ground arith, ground arith)
]
