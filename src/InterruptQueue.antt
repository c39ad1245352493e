-- ===== src/InterruptQueue.antt =====
-- The interrupt queue of pintos-kaist/devices/intq.c, with interrupts off. `none` is a failed ASSERT. A thread
-- that has to wait is blocked, and goes through the loop of its call again when it runs; nobody else holds the
-- queue's lock, which is not modelled.
pub mod Fifo
mod Examples
use w12_13_vm.Common.{
  ℕ, ◌+◌, ◌%◌, Bool, true, false, not, Option, none, some, ◌==◌, if◌then◌else◌, ◌>>=◌, update,
}
use w12_13_vm.Threads.State.{Kernel}
use w12_13_vm.Threads.Sched.{thread_block, thread_unblock}

abbrev pub intq_bufsize : ℕ
intq_bufsize = 64

pub record Intq : Type 0 where
  pub not_full : Option ℕ
  pub not_empty : Option ℕ
  pub buf : ℕ → ℕ
  pub head : ℕ
  pub tail : ℕ

abbrev pub next : ℕ → ℕ
next p = (p + 1) % intq_bufsize

unfoldable pub intq_init : Intq → Intq
intq_init q = record q { not_full = none; not_empty = none; head = 0; tail = 0 }

abbrev pub intq_empty : Intq → Bool
intq_empty q = q.head == q.tail

abbrev pub intq_full : Intq → Bool
intq_full q = next q.head == q.tail

-- The thread that waits is woken, if there is one.
unfoldable pub signal : Option ℕ → Kernel → Option Kernel
signal none k = some k
signal (some waiter) k = thread_unblock waiter k

-- The byte, or `none` where the caller has been blocked.
unfoldable pub intq_getc : Intq → Kernel → Option (Option ℕ × Intq × Kernel)
intq_getc q k =
    let waits = thread_block k >>= λ k'. some (none, record q { not_empty = some k.current }, k') in
    let taken = signal q.not_full k >>= λ k'.
    some (some (q.buf q.tail), record q { tail = next q.tail; not_full = none }, k') in
    if intq_empty q then (if k.intr_context then none else waits) else taken

-- Whether the byte has been added; else the caller has been blocked.
unfoldable pub intq_putc : Intq → ℕ → Kernel → Option (Bool × Intq × Kernel)
intq_putc q byte k =
    let waits = thread_block k >>= λ k'. some (false, record q { not_full = some k.current }, k') in
    let added = signal q.not_empty k >>= λ k'.
    some (
      true,
      record q { buf = update q.buf q.head byte; head = next q.head; not_empty = none },
      k',
    ) in
    if intq_full q then (if k.intr_context then none else waits) else added
