-- ===== src/Threads/Synch/Inherit.antt =====
-- Priority inheritance: what the donation loop of lock_acquire in pintos-kaist/threads/synch.c
-- establishes.
use w12_13_vm.Common.{
  ℕ, zero, suc, ◌≤◌, ◌<◌, ◌≡◌, refl, sym, ◌∙◌, true, false, Option, none, some, ltb, ◌==◌, arith,
  if◌then◌else◌, Bool-cases, Option-cases, ◌⊎◌, inl, inr, length,
}
use w12_13_vm.Threads.State.{Donation, Kernel, priority}
use w12_13_vm.Threads.Synch.Frame.{created}
use w12_13_vm.Threads.Synch.{
  donation_of, create_donation, give, resort_waiters, donate_chain, donate, pend,
}

-- A thread that waits for a lock has no higher priority than the lock's holder.
abbrev pub Inherits : Kernel → Type 0
Inherits k =
    (t l h : ℕ)
    → (k.threads t).pending_lock ≡ some l
    → (k.locks l).holder ≡ some h
    → priority k t ≤ priority k h

-- The same but for the waiters of the lock `p`, which are only known to be at most the current
-- thread: the loop's invariant.
abbrev InheritsBut : Kernel → Option ℕ → Type 0
InheritsBut k p =
    (t l h : ℕ)
    → (k.threads t).pending_lock ≡ some l
    → (k.locks l).holder ≡ some h
    → (priority k t ≤ priority k h) ⊎ (p ≡ some l) × (priority k t ≤ priority k k.current)

-- A gift raises the priority of `h` to the current thread's, and changes nobody else's.
record Given (k : Kernel) (h : ℕ) (k' : Kernel) : Type 0 where
  raised :
      (t : ℕ)
      → priority k' t ≡ (
          if h == t
          then (if ltb (priority k h) (priority k k.current)
              then priority k k.current
              else priority k h)
          else priority k t)
  same_pending : (t : ℕ) → (k'.threads t).pending_lock ≡ (k.threads t).pending_lock
  same_holder : (l : ℕ) → (k'.locks l).holder ≡ (k.locks l).holder
  same_current : k'.current ≡ k.current
  same_memory : k'.has_donation ≡ k.has_donation

resort-Given :
    (o : Option ℕ) (k k1 : Kernel) (h : ℕ) → Given k h k1 → Given k h (resort_waiters o k1)
unfolding resort_waiters
resort-Given none k k1 h g = g
resort-Given (some l) k k1 h g = record {
  raised = g.raised;
  same_pending = g.same_pending;
  same_holder = λ m. ground (arith, g.same_holder m);
  same_current = g.same_current;
  same_memory = g.same_memory;
}

give-Given : (d : Donation) (h : ℕ) (k : Kernel) → Given k h (give d h k)
unfolding give
give-Given d h k = resort-Given (k.threads h).pending_lock k _ h (record {
  raised = λ t. ground arith;
  same_pending = λ t. ground arith;
  same_holder = λ l. refl;
  same_current = refl;
  same_memory = refl;
})

give-InheritsBut :
    (l h : ℕ) (k k' : Kernel)
    → Given k h k'
    → InheritsBut k (some l)
    → (k.locks l).holder ≡ some h
    → ltb (priority k k.current) (priority k h) ≡ false
    → InheritsBut k' (k.threads h).pending_lock
give-InheritsBut l h k k' g i e b t m u p q = elim (Bool-cases (h == t)) [
  | inl same ↦ inr (
    ground (arith, g.same_pending t),
    ground (arith, g.raised t, g.raised k'.current, g.same_current),
  )
  | inr other ↦ elim (i t m u (sym (g.same_pending t) ∙ p) (sym (g.same_holder m) ∙ q)) [
    | inl le ↦ inl (ground (arith, g.raised t, g.raised u))
    | inr (w, le) ↦ inl (ground (arith, g.raised t, g.raised u, g.same_holder m))
  ]
]

donate_chain-Inherits :
    (f : ℕ) (p : Option ℕ) (k k' : Kernel)
    → donate_chain f p k ≡ some k'
    → InheritsBut k p
    → Inherits k'
unfolding donate_chain
donate_chain-Inherits zero p k k' e i = absurd (cc)
donate_chain-Inherits (suc f) none k k' e i = λ t l h a b. ground (arith, i t l h)
donate_chain-Inherits (suc f) (some m) k k' e i = elim (Option-cases (k.locks m).holder) [
  | inl n ↦ let e' = rw (n, donate_chain) at e in λ t l h a b. ground (arith, i t l h)
  | inr (g, q) ↦
      let e' = rw (q, donate_chain) at e in
      elim (Bool-cases (ltb (priority k k.current) (priority k g))) [
        | inl b ↦ let e'' = rw b at e' in λ t l h a c. ground (arith, i t l h)
        | inr b ↦
            donate_chain-Inherits f (k.threads g).pending_lock (give (donation_of k m) g k) k'
              (created k _ _ (rw b at e'))
              (give-InheritsBut m g k _ (give-Given (donation_of k m) g k) i q b)
      ]
]

pend-InheritsBut : (l h : ℕ) (k : Kernel) → Inherits k → InheritsBut (pend l k) (some l)
pend-InheritsBut l h k i t m u a b = elim (Bool-cases (k.current == t)) [
  | inl same ↦ inr (ground arith, ground arith)
  | inr other ↦ inl (ground (arith, i t m u))
]

-- After the donations of lock_acquire every thread that waits for a lock, the current one included,
-- has at most the priority of the lock's holder, if that held before.
pub donate-Inherits : (l : ℕ) (k k' : Kernel) → Inherits k → donate l k ≡ some k' → Inherits k'
unfolding donate
donate-Inherits l k k' i e = elim (Option-cases (k.locks l).holder) [
  | inl n ↦ let e' = rw (n, donate) at e in λ t m h a b. ground (arith, i t m h)
  | inr (h, q) ↦
      donate_chain-Inherits (suc (length k.all_list)) (some l) (pend l k) k' (rw (q, donate) at e)
        (pend-InheritsBut l h k i)
]

-- No priority is lower than before, and the current thread and its own priority are the same.
abbrev pub Raises : Kernel → Kernel → Type 0
Raises k k' =
    ((t : ℕ) → priority k t ≤ priority k' t)
    × (priority k' k.current ≡ priority k k.current)
    × (k'.current ≡ k.current)

Given-Raises : {k k' : Kernel} {h : ℕ} → Given k h k' → Raises k k'
Given-Raises {k} g =
    (λ t. ground (arith, g.raised t), ground (arith, g.raised k.current), g.same_current)

donate_chain-Raises :
    (f : ℕ) (p : Option ℕ) (k k' : Kernel) → donate_chain f p k ≡ some k' → Raises k k'
unfolding donate_chain
donate_chain-Raises zero p k k' e = absurd (cc)
donate_chain-Raises (suc f) none k k' e = (λ t. ground arith, ground arith, ground arith)
donate_chain-Raises (suc f) (some m) k k' e = elim (Option-cases (k.locks m).holder) [
  | inl n ↦ let e' = rw (n, donate_chain) at e in (λ t. ground arith, ground arith, ground arith)
  | inr (g, q) ↦
      let e' = rw (q, donate_chain) at e in
      elim (Bool-cases (ltb (priority k k.current) (priority k g))) [
        | inl b ↦ let e'' = rw b at e' in (λ t. ground arith, ground arith, ground arith)
        | inr b ↦
            let one = Given-Raises (give-Given (donation_of k m) g k) in
            let more =
              donate_chain-Raises f (k.threads g).pending_lock (give (donation_of k m) g k) k'
                (created k _ _ (rw b at e')) in
            (λ t. omega (arith, one.0 t, more.0 t), ground (arith, one, more), more.2 ∙ one.2)
      ]
]

-- Donations never lower a priority, and leave the current thread and its own priority alone.
pub donate-Raises : (l : ℕ) (k k' : Kernel) → donate l k ≡ some k' → Raises k k'
unfolding donate
donate-Raises l k k' e = elim (Option-cases (k.locks l).holder) [
  | inl n ↦ let e' = rw (n, donate) at e in (λ t. ground arith, ground arith, ground arith)
  | inr (h, q) ↦
      let r =
        donate_chain-Raises (suc (length k.all_list)) (some l) (pend l k) k'
          (rw (q, donate) at e) in
      (λ t. ground (arith, r.0 t), ground (arith, r.1), r.2)
]

-- `rank` falls from a lock to the lock that its holder waits for, so no locks wait in a cycle.
abbrev pub IsRanked : Kernel → (ℕ → ℕ) → Type 0
IsRanked k rank =
    (l h m : ℕ)
    → (k.locks l).holder ≡ some h
    → (k.threads h).pending_lock ≡ some m
    → rank m < rank l

abbrev steps_left : (ℕ → ℕ) → Option ℕ → ℕ
steps_left rank none = 0
steps_left rank (some l) = suc (rank l)

Given-IsRanked :
    {k k' : Kernel} {h : ℕ} (rank : ℕ → ℕ) → Given k h k' → IsRanked k rank → IsRanked k' rank
Given-IsRanked rank g i l h m a b = i l h m (sym (g.same_holder l) ∙ a) (sym (g.same_pending h) ∙ b)

made : (k : Kernel) (l : ℕ) → k.has_donation l ≡ true → create_donation k l ≡ some (donation_of k l)
unfolding create_donation
made k l h = rw h refl

donate_chain-total :
    (rank : ℕ → ℕ) (f : ℕ) (p : Option ℕ) (k : Kernel)
    → IsRanked k rank
    → steps_left rank p < f
    → ((l : ℕ) → k.has_donation l ≡ true)
    → (k' : Kernel) × (donate_chain f p k ≡ some k')
unfolding donate_chain
donate_chain-total rank zero p k i h a = absurd (omega arith)
donate_chain-total rank (suc f) none k i h a = (k, refl)
donate_chain-total rank (suc f) (some m) k i h a = elim (Option-cases (k.locks m).holder) [
  | inl n ↦ (k, rw (n, donate_chain) refl)
  | inr (g, q) ↦ elim (Bool-cases (ltb (priority k k.current) (priority k g))) [
    | inl b ↦ (k, rw (q, donate_chain, b) refl)
    | inr b ↦
        rw (q, donate_chain, b, made k m (a m))
          (donate_chain-total rank f (k.threads g).pending_lock (give (donation_of k m) g k)
            (Given-IsRanked rank (give-Given (donation_of k m) g k) i)
            (left (k.threads g).pending_lock refl q)
            (λ l. ground (arith, (give-Given (donation_of k m) g k).same_memory, a l)))
  ]
]
  where
    left :
        {g : ℕ} (o : Option ℕ)
        → (k.threads g).pending_lock ≡ o
        → (k.locks m).holder ≡ some g
        → steps_left rank o < f
    left none e q = omega arith
    left {g} (some x) e q = omega (arith, i m g x q e)

-- If no locks wait in a cycle, the current thread's wait included, and the lock's rank is below the
-- number of threads, and there is memory for every donation, the loop of lock_acquire ends.
pub donate-total :
    (rank : ℕ → ℕ) (l : ℕ) (k : Kernel)
    → IsRanked (pend l k) rank
    → rank l < length k.all_list
    → ((m : ℕ) → k.has_donation m ≡ true)
    → (k' : Kernel) × (donate l k ≡ some k')
unfolding donate
donate-total rank l k i h a = elim (Option-cases (k.locks l).holder) [
  | inl n ↦ (k, rw (n, donate) refl)
  | inr (g, q) ↦
      rw (q, donate)
        (donate_chain-total rank (suc (length k.all_list)) (some l) (pend l k) i (omega arith) a)
]
