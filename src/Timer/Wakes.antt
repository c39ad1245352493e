-- ===== src/Timer/Wakes.antt =====
-- Sleeping threads over many interrupts of pintos-kaist/devices/timer.c: each wakes at its tick.
use mathlib.Core.Path.{subst}
use w12_13_vm.Common.{
  ℕ, zero, suc, ◌<◌, ◌≡◌, refl, sym, ap, ◌∙◌, List, [], ◌∷◌, true, false, not, Option, ◌>>=◌, some,
  ltb, if◌then◌else◌, some_inj, arith, Bool-cases, inl, inr, count,
}
use w12_13_vm.Common.Int.{ℤ, pos, ◌+ℤ◌, ◌≤ℤ◌, ltb_ℤ, +ℤ_parts, eq_of_parts}
use w12_13_vm.Threads.State.{status, is_blocked}
use w12_13_vm.Timer.{Timer, Sleeper, intr_handler}
use w12_13_vm.Timer.WakeUp.{later, later-le, names}
use w12_13_vm.Timer.Interrupt.{IsTimed}
use w12_13_vm.Timer.Yields.{is_awake, Handled, intr_handler-Handled}

-- The thread is in the list to be woken at the tick.
pub data SleepsUntil (t : ℕ) (wakeup_tick : ℤ) : List Sleeper → Type 0 where
  here :
      (es : List Sleeper)
      → SleepsUntil t wakeup_tick (record { block_threads = t; wakeup_tick = wakeup_tick } ∷ es)
  behind :
      (e : Sleeper) (es : List Sleeper)
      → SleepsUntil t wakeup_tick es
      → SleepsUntil t wakeup_tick (e ∷ es)

due_is_gone :
    (cur_tick : ℤ) (t : ℕ) (w : ℤ) (es : List Sleeper)
    → SleepsUntil t w es
    → ltb_ℤ cur_tick w ≡ false
    → count t (names (later cur_tick es)) < count t (names es)
unfolding later
due_is_gone cur_tick t w _ (here es) h = ground (arith, later-le cur_tick es t)
due_is_gone cur_tick t w _ (behind e es m) h = ground (arith, due_is_gone cur_tick t w es m h)

early_stays :
    (cur_tick : ℤ) (t : ℕ) (w : ℤ) (es : List Sleeper)
    → SleepsUntil t w es
    → ltb_ℤ cur_tick w ≡ true
    → 0 < count t (names (later cur_tick es))
unfolding later
early_stays cur_tick t w _ (here es) h = ground arith
early_stays cur_tick t w _ (behind e es m) h = ground (arith, early_stays cur_tick t w es m h)

later-later : (a b : ℤ) (es : List Sleeper) → a ≤ℤ b → later b (later a es) ≡ later b es
unfolding later
later-later a b [] h = refl
later-later a b (e ∷ es) h = elim (Bool-cases (ltb_ℤ a e.wakeup_tick)) [
  | inl p ↦ rw (p, later-later a b es h) refl
  | inr p ↦ let q : ltb_ℤ b e.wakeup_tick ≡ false = ground arith in rw (p, q) (later-later a b es h)
]

-- So many interrupts of the timer, while the threads that run between them compute.
unfoldable pub intr_handlers : ℕ → Timer → Option Timer
intr_handlers zero s = some s
intr_handlers (suc n) s = intr_handler s >>= intr_handlers n

-- What `n` interrupts make of the sleepers.
record Ran (n : ℕ) (s after : Timer) : Type 0 where
  timed : IsTimed after
  next_tick : after.ticks ≡ s.ticks +ℤ pos n
  sleep_on : after.block_thread_list ≡ later after.ticks s.block_thread_list
  outside : after.kernel.intr_context ≡ false
  now_awake :
      (t : ℕ)
      → is_awake (status after.kernel t) ≡ (
          if ltb (count t (names after.block_thread_list)) (count t (names s.block_thread_list))
          then true
          else is_awake (status s.kernel t))

plus_one : (a : ℤ) (n : ℕ) → a +ℤ pos 1 +ℤ pos n ≡ a +ℤ pos (suc n)
plus_one a n =
    eq_of_parts _ _
      (ground (arith, +ℤ_parts a (pos 1), +ℤ_parts (a +ℤ pos 1) (pos n), +ℤ_parts a (pos (suc n))))

more_ticks : (a : ℤ) (n : ℕ) → a ≤ℤ a +ℤ pos n
more_ticks a n = ground (arith, +ℤ_parts a (pos n))

Ran-suc : (n : ℕ) (s s1 u : Timer) → Ran 1 s s1 → Ran n s1 u → Ran (suc n) s u
Ran-suc n s s1 u a b = record {
  timed = b.timed;
  outside = b.outside;
  next_tick = b.next_tick ∙ ap (λ z. z +ℤ pos n) a.next_tick ∙ plus_one s.ticks n;
  sleep_on =
      b.sleep_on
      ∙ ap (later u.ticks) a.sleep_on
      ∙ later-later s1.ticks u.ticks s.block_thread_list
          (subst (λ z. s1.ticks ≤ℤ z) (sym b.next_tick) (more_ticks s1.ticks n));
  now_awake = λ t. ground (
    arith,
    a.now_awake t,
    b.now_awake t,
    later-le s1.ticks s.block_thread_list t,
    later-le u.ticks s1.block_thread_list t,
    a.sleep_on,
    b.sleep_on,
  );
}

Ran-of : (s u : Timer) → Handled s (some u) → Ran 1 s u
Ran-of s u k = subst (Ran 1 s) (sym (some_inj k.returned)) (record {
  timed = k.timed;
  next_tick = k.next_tick;
  sleep_on = k.sleep_on;
  outside = k.outside;
  now_awake = k.now_awake;
})

one_interrupt :
    (s : Timer)
    → IsTimed s
    → s.kernel.intr_context ≡ false
    → (u : Timer) × (intr_handler s ≡ some u) × Ran 1 s u
one_interrupt s v c =
    let k = intr_handler-Handled s v c in
    (k.after, k.returned, Ran-of s k.after (subst (λ r. Handled s r) k.returned k))

run :
    (n : ℕ) (s : Timer)
    → IsTimed s
    → s.kernel.intr_context ≡ false
    → (u : Timer) × (intr_handlers (suc n) s ≡ some u) × Ran (suc n) s u
unfolding intr_handlers
run zero s v c = let (u, e, r) = one_interrupt s v c in (u, rw (e, intr_handlers) refl, r)
run (suc n) s v c =
    let (s1, e, r) = one_interrupt s v c in
    let (u, f, q) = run n s1 r.timed r.outside in
    (u, rw (e, intr_handlers) f, Ran-suc (suc n) s s1 u r q)

-- Outside interrupts and from a state in which the invariant of the sleepers holds, any positive number of
-- interrupts of the timer, each with the yield at its end and with no other step between them, do not fail
-- and keep the invariant, and the ticks grow by that number. A thread that was asleep until some tick is
-- blocked just if that tick has not come, and awake, that is running or ready, just if it has. So it wakes
-- after as many interrupts as it asked for.
pub sleeper_wakes :
    (n t : ℕ) (w : ℤ) (s : Timer)
    → IsTimed s
    → s.kernel.intr_context ≡ false
    → SleepsUntil t w s.block_thread_list
    → (u : Timer) × (intr_handlers (suc n) s ≡ some u)
      × IsTimed u
      × (u.ticks ≡ s.ticks +ℤ pos (suc n))
      × (is_blocked (status u.kernel t) ≡ ltb_ℤ u.ticks w)
      × (is_awake (status u.kernel t) ≡ not (ltb_ℤ u.ticks w))
sleeper_wakes n t w s v c m =
    let (u, e, r) = run n s v c in (u, e, r.timed, r.next_tick, (at u r).0, (at u r).1)
  where
    at :
        (u : Timer)
        → Ran (suc n) s u
        → (is_blocked (status u.kernel t) ≡ ltb_ℤ u.ticks w)
          × (is_awake (status u.kernel t) ≡ not (ltb_ℤ u.ticks w))
    at u r = elim (Bool-cases (ltb_ℤ u.ticks w)) [
      | inl early ↦
          let in_list : 0 < count t (names u.block_thread_list) =
            subst (λ es. 0 < count t (names es)) (sym r.sleep_on)
              (early_stays u.ticks t w _ m early) in
          rw (early, r.timed.asleep.all_blocked t in_list) (refl, refl)
      | inr due ↦
          let gone : count t (names u.block_thread_list) < count t (names s.block_thread_list) =
            subst (λ es. count t (names es) < count t (names s.block_thread_list)) (sym r.sleep_on)
              (due_is_gone u.ticks t w _ m due) in
          let fewer : ltb (count t (names u.block_thread_list))
                (count t (names s.block_thread_list))
              ≡ true =
            ground (arith, gone) in
          let awake : is_awake (status u.kernel t) ≡ true = r.now_awake t ∙ rw fewer refl in
          rw (due, awake) (ground (arith, awake), refl)
    ]
