-- ===== src/Threads/Synch/Release.antt =====
-- What lock_release in pintos-kaist/threads/synch.c does to the priority of the thread that gives a
-- lock up.
use mathlib.Core.List.{Mem, Mem-prop, mem-cons, mem-cons_of_mem, not-mem-nil}
use mathlib.Core.Path.{subst}
use mathlib.Core.List.Perm
use mathlib.Core.Logic.Or
use native.Mathlib.Bridge.{le_prop}
use w12_13_vm.Common.{
  ℕ, ◌≤◌, ◌<◌, ◌≡◌, ◌≢◌, refl, sym, ◌∙◌, List, [], ◌∷◌, none, some, ◌==◌, arith, if◌then◌else◌,
  Bool-cases, inl, inr,
}
use w12_13_vm.KernelList.{list_sort}
use w12_13_vm.KernelList.Order.{IsSorted, IsAsymmetric}
use w12_13_vm.KernelList.Sort.{list_sort-IsSorted, list_sort-perm, list_sort-of_sorted}
use w12_13_vm.Threads.State.{Kernel, Donation, priority}
use w12_13_vm.Threads.Synch.{
  compare_priority_for_donate, remove_donation_for_lock, recalc_priority, release_donations,
  lock_held_by_current_thread,
}
use w12_13_vm.Threads.Synch.Inherit.{Inherits}

donate_asym : IsAsymmetric compare_priority_for_donate
unfolding compare_priority_for_donate
donate_asym a b h = ground arith

-- The first of sorted donations is the greatest.
first_greatest :
    (x : Donation) (xs : List Donation) (d : Donation)
    → IsSorted compare_priority_for_donate (x ∷ xs)
    → Mem d (x ∷ xs)
    → d.priority ≤ x.priority
unfolding compare_priority_for_donate
first_greatest x [] d s m =
    Or.elim le_prop (mem-cons.0 m) (λ e. ground (arith, e)) (λ n. absurd (not-mem-nil n))
first_greatest x (y ∷ ys) d s m =
    Or.elim le_prop (mem-cons.0 m) (λ e. ground (arith, e))
      (λ n. ground (arith, first_greatest y ys d s.1 n))

-- A removed lock takes only its own donations along.
mem-remove :
    (l : ℕ) (ds : List Donation) (d : Donation)
    → d.lock ≢ l
    → Mem d ds
    → Mem d (remove_donation_for_lock l ds)
unfolding remove_donation_for_lock
mem-remove l [] d ne m = m
mem-remove l (x ∷ xs) d ne m = elim (Bool-cases (x.lock == l)) [
  | inl hit ↦ rw hit (
      mem-remove l xs d ne
        (Or.elim Mem-prop (mem-cons.0 m) (λ e. absurd (ne (ground (arith, e)))) (λ n. n)))
  | inr miss ↦ rw miss (
      Or.elim Mem-prop (mem-cons.0 m) (λ e. mem-cons.1 (Or.inl e))
        (λ n. mem-cons_of_mem x (mem-remove l xs d ne n)))
]

sorted_mem :
    {ds : List Donation} (ss : List Donation)
    → list_sort compare_priority_for_donate ds ≡ ss
    → (d : Donation) → Mem d ds
    → Mem d ss
sorted_mem {ds} ss e d m =
    subst (Mem d) e ((Perm.mem_iff (list_sort-perm compare_priority_for_donate donate_asym ds)).1 m)

recalc-of :
    (p : ℕ) (ds ss : List Donation) (d : Donation)
    → list_sort compare_priority_for_donate ds ≡ ss
    → Mem d ds
    → d.priority ≤ (recalc_priority p ds).0
unfolding recalc_priority
recalc-of p ds [] d e m = absurd (not-mem-nil (sorted_mem [] e d m))
recalc-of p ds (x ∷ xs) d e m =
    let le =
      first_greatest x xs d
        (subst (IsSorted compare_priority_for_donate) e
          (list_sort-IsSorted compare_priority_for_donate donate_asym ds))
        (sorted_mem (x ∷ xs) e d m) in
    rw (e, recalc_priority) (ground (arith, le))

-- The new priority is no less than any donation that is left.
recalc-ge :
    (p : ℕ) (ds : List Donation) (d : Donation) → Mem d ds → d.priority ≤ (recalc_priority p ds).0
recalc-ge p ds d m = recalc-of p ds _ d refl m

recalc-own : (p : ℕ) (ds : List Donation) → p ≤ (recalc_priority p ds).0
unfolding recalc_priority
recalc-own p ds = ground arith

recalc-nil : (p : ℕ) → (recalc_priority p []).0 ≡ p
unfolding recalc_priority
recalc-nil p = rw (list_sort-of_sorted compare_priority_for_donate [] tt, recalc_priority) refl

-- Each thread that waits for another lock of the current thread has made it a donation.
abbrev pub Registered : Kernel → ℕ → Type 0
Registered k l =
    (t m : ℕ)
    → m ≢ l
    → (k.threads t).pending_lock ≡ some m
    → (k.locks m).holder ≡ some k.current
    → (d : Donation) × Mem d (k.threads k.current).donations
      × (d.lock ≡ m)
      × (priority k t ≤ d.priority)

-- The parts of the state after lock_release has dealt with the donations.
record Released (l : ℕ) (k k' : Kernel) : Type 0 where
  others : (t : ℕ) → t ≢ k.current → k'.threads t ≡ k.threads t
  own :
      priority k' k.current
      ≡ (recalc_priority
          (k.threads k.current).original_priority
          (remove_donation_for_lock l (k.threads k.current).donations)).0
  own_pending : (k'.threads k.current).pending_lock ≡ (k.threads k.current).pending_lock
  holders : (m : ℕ) → (k'.locks m).holder ≡ (if l == m then none else (k.locks m).holder)
  was_holder : (k.locks l).holder ≡ some k.current

release_donations-Released :
    (l : ℕ) (k k' : Kernel) → release_donations l k ≡ some k' → Released l k k'
unfolding release_donations lock_held_by_current_thread
release_donations-Released l k k' e = record {
  others = λ t ne. ground arith;
  own = ground arith;
  own_pending = ground arith;
  holders = λ m. ground arith;
  was_holder = ground arith;
}

-- A thread that releases one of its locks keeps a priority that is no less than its own original one
-- and those of all threads that wait for its other locks, if these are registered as donors.
pub release_donations-Inherits :
    (l : ℕ) (k k' : Kernel)
    → Inherits k
    → Registered k l
    → (k.threads k.current).pending_lock ≡ none
    → release_donations l k ≡ some k'
    → Inherits k' × ((k.threads k.current).original_priority ≤ priority k' k.current)
release_donations-Inherits l k k' i reg own_free e =
    ((λ t m h a b. kept t m h a b), omega (arith, r.own, recalc-own _ _))
  where
    r : Released l k k'
    r = release_donations-Released l k k' e

    held :
        (t m : ℕ)
        → t ≢ k.current
        → m ≢ l
        → (k.threads t).pending_lock ≡ some m
        → (k.locks m).holder ≡ some k.current
        → {h : ℕ} → h ≡ k.current
        → priority k' t ≤ priority k' h
    held t m ne nl p q {h} eh =
        let (d, mem, lock, le) = reg t m nl p q in
        let own = k.threads k.current in
        let ge =
          recalc-ge own.original_priority (remove_donation_for_lock l own.donations) d
            (mem-remove l own.donations d (λ x. nl (sym lock ∙ x)) mem) in
        rw eh (ground (arith, r.others t, r.own))

    kept :
        (t m h : ℕ)
        → (k'.threads t).pending_lock ≡ some m
        → (k'.locks m).holder ≡ some h
        → priority k' t ≤ priority k' h
    kept t m h a b = elim (Bool-cases (k.current == t)) [
      | inl own ↦ absurd (ground (arith, r.own_pending))
      | inr other ↦ elim (Bool-cases (k.current == h)) [
        | inl mine ↦
            held t m (ground arith) (ground (arith, r.holders m)) (ground (arith, r.others t))
              (ground (arith, r.holders m)) (ground arith)
        | inr theirs ↦ ground (arith, r.others t, r.others h, r.holders m, i t m h)
      ]
    ]

-- If a release leaves a thread no donation, and a thread of a priority above its original one waits
-- for another of its locks, then afterwards the thread has its original priority and still holds that
-- lock, and the waiter has the higher priority that it had; so not every thread that waits for a lock has
-- at most the priority of the lock's holder.
pub release_donations-drops :
    (l m w : ℕ) (k k' : Kernel)
    → release_donations l k ≡ some k'
    → remove_donation_for_lock l (k.threads k.current).donations ≡ []
    → m ≢ l
    → w ≢ k.current
    → (k.threads w).pending_lock ≡ some m
    → (k.locks m).holder ≡ some k.current
    → (k.threads k.current).original_priority < priority k w
    → (priority k' k.current ≡ (k.threads k.current).original_priority)
      × ((k'.locks m).holder ≡ some k.current)
      × (priority k' w ≡ priority k w)
      × (¬ Inherits k')
release_donations-drops l m w k k' e gone nl nw p q lt =
    let r = release_donations-Released l k k' e in
    let own = k.threads k.current in
    let back : priority k' k.current ≡ own.original_priority =
      ground (arith, r.own, gone, recalc-nil own.original_priority) in
    let holds : (k'.locks m).holder ≡ some k.current = ground (arith, r.holders m) in
    let waits : priority k' w ≡ priority k w = ground (arith, r.others w nw) in
    let pending : (k'.threads w).pending_lock ≡ some m = ground (arith, r.others w nw) in
    (back, holds, waits, λ i. omega (arith, i w m k.current pending holds, back, waits))
