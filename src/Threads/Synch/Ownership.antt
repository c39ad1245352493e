-- ===== src/Threads/Synch/Ownership.antt =====
-- Who owns the locks of pintos-kaist/threads/synch.c, and how the steps of lock_acquire and
-- lock_release change it.
use w12_13_vm.Common.{
  ℕ, ◌+◌, ◌-◌, ◌≡◌, ◌≢◌, refl, ◌∙◌, List, [], ◌∷◌, Bool, true, false, ◌||◌, ◌&&◌, Option, none,
  some, ◌==◌, arith, if◌then◌else◌, Option-cases, inl, inr,
}
use w12_13_vm.Threads.State.{Kernel, Stmt, lock_down, lock_take, lock_up}
use w12_13_vm.Threads.Synch.Frame.{SameLocks}

-- The thread is between taking the lock's semaphore and giving it back, but is not the holder.
unfoldable pub at_mid : ℕ → List Stmt → Bool
at_mid l (lock_take m ∷ _) = l == m
at_mid l (lock_up m ∷ _) = l == m
at_mid l _ = false

abbrev pub is_holder : Option ℕ → ℕ → Bool
is_holder none t = false
is_holder (some h) t = h == t

-- The thread has the lock: it is the holder, or about to become it, or has just ceased to be it.
abbrev pub has_lock : Kernel → ℕ → ℕ → Bool
has_lock k l t = is_holder (k.locks l).holder t || at_mid l (k.threads t).code

abbrev pub is_call : Stmt → Bool
is_call (lock_take l) = false
is_call (lock_up l) = false
is_call (lock_down l) = false
is_call _ = true

unfoldable pub are_calls : List Stmt → Bool
are_calls [] = true
are_calls (s ∷ ss) = is_call s && are_calls ss

unfoldable pub tail_calls : List Stmt → Bool
unfolding are_calls
tail_calls [] = true
tail_calls (s ∷ ss) = are_calls ss

abbrev free_value : Option ℕ → ℕ
free_value none = 1
free_value (some o) = 0

-- Each lock has one owner, or its semaphore has the value 1. The kernel is in a thread, not in an
-- interrupt handler.
pub record Excludes (k : Kernel) : Type 0 where
  pub owner : ℕ → Option ℕ
  pub value_of : (l : ℕ) → (k.locks l).semaphore.value ≡ free_value (owner l)
  pub lock_of : (l t : ℕ) → has_lock k l t ≡ is_holder (owner l) t
  pub between : (l t : ℕ) → at_mid l (k.threads t).code ≡ true → (k.locks l).holder ≡ none
  pub tails : (t : ℕ) → tail_calls (k.threads t).code ≡ true
  pub outside : k.intr_context ≡ false

-- `k'` differs from `k` at most in the current thread's code, now `c`, and the lock `l`.
pub record Moved (k k' : Kernel) (c : List Stmt) (l : ℕ) (h : Option ℕ) (n : ℕ) : Type 0 where
  pub codes : (t : ℕ) → (k'.threads t).code ≡ (if k.current == t then c else (k.threads t).code)
  pub holders : (m : ℕ) → (k'.locks m).holder ≡ (if l == m then h else (k.locks m).holder)
  pub values :
      (m : ℕ) → (k'.locks m).semaphore.value ≡ (if l == m then n else (k.locks m).semaphore.value)
  pub context : k'.intr_context ≡ k.intr_context

pub at_mid_calls : (l : ℕ) (c : List Stmt) → are_calls c ≡ true → at_mid l c ≡ false
unfolding at_mid are_calls
at_mid_calls l [] h = refl
at_mid_calls l (lock_take m ∷ c) h = absurd (cc)
at_mid_calls l (lock_up m ∷ c) h = absurd (cc)
at_mid_calls l (s ∷ c) h = refl

at_mid_take : (m : ℕ) {l : ℕ} {c rest : List Stmt} → c ≡ lock_take l ∷ rest → at_mid m c ≡ (m == l)
unfolding at_mid
at_mid_take m e = rw e refl

at_mid_up : (m : ℕ) {l : ℕ} {c rest : List Stmt} → c ≡ lock_up l ∷ rest → at_mid m c ≡ (m == l)
unfolding at_mid
at_mid_up m e = rw e refl

pub tail-calls : (c : List Stmt) → are_calls c ≡ true → tail_calls c ≡ true
unfolding tail_calls
tail-calls [] h = refl
tail-calls (s ∷ c) h = ground arith

module _ {k k' : Kernel} (v : Excludes k) where
  pub same-Excludes : SameLocks k k' → Excludes k'
  same-Excludes s = record {
    owner = v.owner;
    value_of = λ l. ground (arith, s.values l, v.value_of l);
    lock_of = λ l t. ground (arith, s.holders l, s.codes t, v.lock_of l t);
    between = λ l t h. ground (arith, s.holders l, s.codes t, v.between l t);
    tails = λ t. ground (arith, s.codes t, v.tails t);
    outside = s.context ∙ v.outside;
  }

  -- Nobody gets or gives up a lock.
  pub quiet-Excludes :
      {c : List Stmt} {l n : ℕ} {h : Option ℕ}
      → Moved k k' c l h n
      → h ≡ (k.locks l).holder
      → n ≡ (k.locks l).semaphore.value
      → ((m : ℕ) → at_mid m c ≡ at_mid m (k.threads k.current).code)
      → tail_calls c ≡ true
      → Excludes k'
  quiet-Excludes {c} s eh en q tc = record {
    owner = v.owner;
    value_of = λ m. ground (arith, s.values m, v.value_of m);
    lock_of = λ m t. ground (arith, s.holders m, s.codes t, v.lock_of m t, q m);
    between = λ m t h. ground (arith, s.holders m, s.codes t, v.between m t, q m);
    tails = λ t. ground (arith, s.codes t, v.tails t);
    outside = s.context ∙ v.outside;
  }

module _ {k : Kernel} (v : Excludes k) where
  owned : (l t : ℕ) → has_lock k l t ≡ true → v.owner l ≡ some t
  owned l t h = ground (arith, v.lock_of l t)

  unowned : (l : ℕ) → v.owner l ≡ none → (k.locks l).holder ≡ none
  unowned l e = elim (Option-cases (k.locks l).holder) [
    | inl n ↦ n
    | inr (h, q) ↦ ground (arith, v.lock_of l h)
  ]

-- The new owner of one lock.
abbrev set_owner : (ℕ → Option ℕ) → ℕ → Option ℕ → ℕ → Option ℕ
set_owner f l o m = if l == m then o else f m

module _ {k k' : Kernel} (v : Excludes k) (l : ℕ) (rest : List Stmt) where
  -- sema_down has found the semaphore of a lock at 1: the current thread owns the lock.
  pub took-Excludes :
      Moved k k' (lock_take l ∷ rest) l (k.locks l).holder ((k.locks l).semaphore.value - 1)
      → (k.locks l).semaphore.value ≢ 0
      → ((m : ℕ) → at_mid m (k.threads k.current).code ≡ false)
      → are_calls rest ≡ true
      → Excludes k'
  unfolding at_mid tail_calls
  took-Excludes s ne q rc = record {
    owner = set_owner v.owner l (some k.current);
    value_of = λ m. ground (arith, s.values m, v.value_of m);
    lock_of = λ m t. ground (arith, s.holders m, s.codes t, v.lock_of m t, q m, v.value_of m);
    between = λ m t h.
        ground (arith, s.holders m, s.codes t, v.between m t, q m, v.value_of m, unowned v m);
    tails = λ t. ground (arith, s.codes t, v.tails t);
    outside = s.context ∙ v.outside;
  }

  -- The owner becomes the holder.
  pub take-Excludes :
      Moved k k' rest l (some k.current) (k.locks l).semaphore.value
      → (k.threads k.current).code ≡ lock_take l ∷ rest
      → are_calls rest ≡ true
      → Excludes k'
  take-Excludes s e rc = record {
    owner = v.owner;
    value_of = λ m. ground (arith, s.values m, v.value_of m);
    lock_of = λ m t. ground (
      arith,
      s.holders m,
      s.codes t,
      v.lock_of m t,
      v.lock_of l t,
      head m,
      mine,
      at_mid_calls m rest rc,
    );
    between = λ m t h.
        ground (
          arith,
          s.holders m,
          s.codes t,
          v.between m t,
          v.lock_of l t,
          mine,
          at_mid_calls m rest rc,
        );
    tails = λ t. ground (arith, s.codes t, v.tails t, tail-calls rest rc);
    outside = s.context ∙ v.outside;
  }
    where
      head : (m : ℕ) → at_mid m (k.threads k.current).code ≡ (m == l)
      head m = at_mid_take m e

      mine : v.owner l ≡ some k.current
      mine = owned v l k.current (ground (arith, head l))

  -- The holder gives the lock up and still has to raise its semaphore.
  pub release-Excludes :
      Moved k k' (lock_up l ∷ rest) l none (k.locks l).semaphore.value
      → (k.locks l).holder ≡ some k.current
      → ((m : ℕ) → at_mid m (k.threads k.current).code ≡ false)
      → are_calls rest ≡ true
      → Excludes k'
  unfolding at_mid tail_calls
  release-Excludes s e q rc = record {
    owner = v.owner;
    value_of = λ m. ground (arith, s.values m, v.value_of m);
    lock_of = λ m t. ground (arith, s.holders m, s.codes t, v.lock_of m t, mine, q m);
    between = λ m t h. ground (arith, s.holders m, s.codes t, v.between m t, q m);
    tails = λ t. ground (arith, s.codes t, v.tails t);
    outside = s.context ∙ v.outside;
  }
    where
      mine : v.owner l ≡ some k.current
      mine = owned v l k.current (ground (arith, e))

  -- sema_up gives the lock back.
  pub up-Excludes :
      Moved k k' rest l (k.locks l).holder ((k.locks l).semaphore.value + 1)
      → (k.threads k.current).code ≡ lock_up l ∷ rest
      → are_calls rest ≡ true
      → Excludes k'
  up-Excludes s e rc = record {
    owner = set_owner v.owner l none;
    value_of = λ m. ground (arith, s.values m, v.value_of m, mine);
    lock_of = λ m t. ground (
      arith,
      s.holders m,
      s.codes t,
      v.lock_of m t,
      head m,
      mine,
      v.between l k.current,
      at_mid_calls m rest rc,
    );
    between =
        λ m t h. ground (arith, s.holders m, s.codes t, v.between m t, at_mid_calls m rest rc);
    tails = λ t. ground (arith, s.codes t, v.tails t, tail-calls rest rc);
    outside = s.context ∙ v.outside;
  }
    where
      head : (m : ℕ) → at_mid m (k.threads k.current).code ≡ (m == l)
      head m = at_mid_up m e

      mine : v.owner l ≡ some k.current
      mine = owned v l k.current (ground (arith, head l))
