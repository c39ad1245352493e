-- ===== src/InterruptQueue/Examples.antt =====
-- The theorems on the interrupt queue at one of two bytes that wrap around the end of the buffer.
use w12_13_vm.Common.{◌+◌, [], ◌∷◌, true, false, none, arith}
use w12_13_vm.Common.Int.{pos}
use w12_13_vm.Threads.State.{Kernel, Thread, running}
use w12_13_vm.InterruptQueue.{Intq, intq_getc, intq_putc}
use w12_13_vm.InterruptQueue.Fifo.{IsRing, Puts, Gets, intq_putc-intq_getc}

abbrev two_bytes : Intq
two_bytes = record { not_full = none; not_empty = none; buf = λ i. i + 100; head = 1; tail = 63 }

two_bytes-IsRing : IsRing two_bytes
two_bytes-IsRing = record { head_in = omega arith; tail_in = omega arith }

abbrev only_thread : Thread
only_thread = record {
  status = running;
  priority = 31;
  original_priority = 31;
  donations = [];
  pending_lock = none;
  nice = pos 0;
  recent_cpu = pos 0;
  code = [];
}

abbrev handler : Kernel
handler = record {
  threads = λ t. only_thread;
  current = 1;
  idle_thread = 0;
  initial_thread = 1;
  ready_list = [];
  destruction_req = [];
  all_list = 1 ∷ [];
  freed = [];
  thread_ticks = 0;
  mlfqs = false;
  load_avg = pos 0;
  intr_context = true;
  yield_on_return = false;
  has_donation = λ l. true;
  semas = λ s. record { value = 0; waiters = [] };
  locks = λ l. record { holder = none; semaphore = record { value = 1; waiters = [] } };
}

intq_putc-intq_getc_example :
    Puts two_bytes 7 handler (intq_putc two_bytes 7 handler)
    × Gets two_bytes handler (intq_getc two_bytes handler)
intq_putc-intq_getc_example = intq_putc-intq_getc two_bytes 7 handler two_bytes-IsRing
