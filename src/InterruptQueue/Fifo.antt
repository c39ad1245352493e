-- ===== src/InterruptQueue/Fifo.antt =====
-- The ring buffer of pintos-kaist/devices/intq.c is a queue of up to 63 bytes.
use w12_13_vm.Common.{
  ℕ, zero, suc, ◌+◌, ◌-◌, ◌%◌, ◌<◌, ◌≡◌, ◌≢◌, refl, sym, ap, ◌∙◌, List, [], ◌∷◌, ◌++◌, Bool, true,
  false, Option, none, some, ◌==◌, length, update, update_here, update_else, arith,
}
use w12_13_vm.Threads.State.{Kernel}
use w12_13_vm.InterruptQueue.{Intq, next, signal, intq_getc, intq_putc}

unfoldable pub from : (ℕ → ℕ) → ℕ → ℕ → List ℕ
from buf t zero = []
from buf t (suc n) = buf (t % 64) ∷ from buf (t + 1) n

abbrev pub size : Intq → ℕ
size q = (q.head + 64 - q.tail) % 64

-- The bytes in the queue, from the oldest on.
abbrev pub contents : Intq → List ℕ
contents q = from q.buf q.tail (size q)

pub record IsRing (q : Intq) : Type 0 where
  pub head_in : q.head < 64
  pub tail_in : q.tail < 64

from_mod : (buf : ℕ → ℕ) (a b n : ℕ) → a % 64 ≡ b % 64 → from buf a n ≡ from buf b n
unfolding from
from_mod buf a b zero e = refl
from_mod buf a b (suc n) e =
    let rest = from_mod buf (a + 1) (b + 1) n (omega (arith, e)) in rw (e, rest) refl

length-from : (buf : ℕ → ℕ) (t n : ℕ) → length (from buf t n) ≡ n
unfolding from
length-from buf t zero = refl
length-from buf t (suc n) = ap suc (length-from buf (t + 1) n)

-- A byte that is put behind the others.
from-update :
    (buf : ℕ → ℕ) (b t n h : ℕ)
    → h ≡ (t + n) % 64
    → n < 64
    → from (update buf h b) t (suc n) ≡ from buf t n ++ (b ∷ [])
unfolding from
from-update buf b t zero h e lt =
    let here : t % 64 ≡ h = omega (arith, e) in rw (here, update_here buf h b) refl
from-update buf b t (suc n) h e lt =
    let ne : h ≢ t % 64 = λ q. omega (arith, q, e) in
    let rest = from-update buf b (t + 1) n h (omega (arith, e)) (omega arith) in
    rw (update_else buf h b (t % 64) ne) (ap (λ l. buf (t % 64) ∷ l) rest)

first-from :
    (buf : ℕ → ℕ) (t n b : ℕ) (rest : List ℕ)
    → from buf t n ≡ b ∷ rest
    → (m : ℕ) × (n ≡ suc m) × (buf (t % 64) ≡ b) × (from buf (t + 1) m ≡ rest)
unfolding from
first-from buf t zero b rest e = cc
first-from buf t (suc n) b rest e = (n, refl, cc, cc)

-- intq_putc on a queue of bytes.
pub record Puts (q : Intq) (byte : ℕ) (k : Kernel) (r : Option (Bool × Intq × Kernel))
    : Type 0 where
  pub adds :
      length (contents q) ≢ 63
      → (k' : Kernel) → signal q.not_empty k ≡ some k'
      → (q' : Intq) × (r ≡ some (true, q', k'))
        × IsRing q'
        × (contents q' ≡ contents q ++ (byte ∷ []))
        × (q'.not_empty ≡ none)
  pub handler_fails : length (contents q) ≡ 63 → k.intr_context ≡ true → r ≡ none

-- intq_getc on a queue of bytes.
pub record Gets (q : Intq) (k : Kernel) (r : Option (Option ℕ × Intq × Kernel)) : Type 0 where
  pub takes :
      (byte : ℕ) (rest : List ℕ)
      → contents q ≡ byte ∷ rest
      → (k' : Kernel) → signal q.not_full k ≡ some k'
      → (q' : Intq) × (r ≡ some (some byte, q', k'))
        × IsRing q'
        × (contents q' ≡ rest)
        × (q'.not_full ≡ none)
  pub handler_fails : contents q ≡ [] → k.intr_context ≡ true → r ≡ none

intq_putc-Puts : (q : Intq) (byte : ℕ) (k : Kernel) → IsRing q → Puts q byte k (intq_putc q byte k)
unfolding intq_putc
intq_putc-Puts q byte k v =
    let h = v.head_in in
    let t = v.tail_in in
    let len = length-from q.buf q.tail (size q) in
    record {
      adds = λ few k' woken.
          let room : size q ≢ 63 = λ e. few (len ∙ e) in
          let open_q : (next q.head == q.tail) ≡ false = ground (arith, room) in
          let more : (next q.head + 64 - q.tail) % 64 ≡ suc (size q) = ground (arith, room) in
          (
            record q { buf = update q.buf q.head byte; head = next q.head; not_empty = none },
            rw (open_q, woken) refl,
            record { head_in = omega arith; tail_in = t },
            rw more (from-update q.buf byte q.tail (size q) q.head (omega arith) (omega arith)),
            refl,
          );
      handler_fails = λ full handler.
          let closed : (next q.head == q.tail) ≡ true = ground (arith, sym len ∙ full) in
          rw (closed, handler) refl;
    }

intq_getc-Gets : (q : Intq) (k : Kernel) → IsRing q → Gets q k (intq_getc q k)
unfolding intq_getc
intq_getc-Gets q k v =
    let h = v.head_in in
    let t = v.tail_in in
    let len = length-from q.buf q.tail (size q) in
    record {
      takes = λ byte rest e k' woken.
          let (m, count, oldest, others) = first-from q.buf q.tail (size q) byte rest e in
          let some_left : (q.head == q.tail) ≡ false = ground (arith, count) in
          let place : q.tail % 64 ≡ q.tail = omega arith in
          let fewer : (q.head + 64 - next q.tail) % 64 ≡ m = ground (arith, count) in
          (
            record q { tail = next q.tail; not_full = none },
            rw (some_left, woken)
                (ap (λ b. some (some b, record q { tail = next q.tail; not_full = none }, k'))
                  (ap q.buf (sym place) ∙ oldest)),
            record { head_in = h; tail_in = omega arith },
            ap (from q.buf (next q.tail)) fewer
                ∙ from_mod q.buf (next q.tail) (q.tail + 1) m (omega arith)
                ∙ others,
            refl,
          );
      handler_fails = λ empty handler.
          let no_byte : size q ≡ 0 = sym len ∙ ap (λ l. length l) empty in
          let closed : (q.head == q.tail) ≡ true = ground (arith, no_byte) in
          rw (closed, handler) refl;
    }

-- A ring with both positions in the buffer is a queue of up to 63 bytes. Where there is room and a waiting thread
-- can be unblocked, intq_putc puts its byte behind the others; where there is a byte, intq_getc takes the oldest.
-- Each wakes the thread that waits for what it has done. With a full queue, or an empty one, they fail an ASSERT in
-- an interrupt handler.
pub intq_putc-intq_getc :
    (q : Intq) (byte : ℕ) (k : Kernel)
    → IsRing q
    → Puts q byte k (intq_putc q byte k) × Gets q k (intq_getc q k)
intq_putc-intq_getc q byte k v = (intq_putc-Puts q byte k v, intq_getc-Gets q k v)
