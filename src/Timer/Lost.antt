-- ===== src/Timer/Lost.antt =====
-- The tick 0 in pintos-kaist/devices/timer.c, where it is both a tick and NULL.
use w12_13_vm.Common.{ℕ, zero, suc, ◌≡◌, refl, [], ◌∷◌, true, Option, none, some, arith, ◌∙◌}
use w12_13_vm.Common.Int.{ℤ, pos, ◌+ℤ◌}
use w12_13_vm.KernelList.{list_insert_ordered}
use w12_13_vm.Timer.{Timer, timer_sleep, timer_interrupt}

-- So many timer interrupts.
unfoldable pub interrupts : ℕ → Timer → Option Timer
interrupts zero s = some s
interrupts (suc n) s = elim (timer_interrupt s) [ none ↦ none | some s' ↦ interrupts n s' ]

one_interrupt :
    (s : Timer)
    → s.closet_tick ≡ pos 0
    → (s' : Timer) × (timer_interrupt s ≡ some s')
      × (s'.block_thread_list ≡ s.block_thread_list)
      × (s'.closet_tick ≡ pos 0)
unfolding timer_interrupt
one_interrupt s c = rw c (_, refl, refl, refl)

no_interrupt :
    (n : ℕ) (s : Timer)
    → s.closet_tick ≡ pos 0
    → (s' : Timer) × (interrupts n s ≡ some s') × (s'.block_thread_list ≡ s.block_thread_list)
unfolding interrupts
no_interrupt zero s c = (s, refl, refl)
no_interrupt (suc n) s c =
    let (s', f, l, c') = one_interrupt s c in
    let (s'', g, m) = no_interrupt n s' c' in (s'', rw (f, interrupts) g, m ∙ l)

-- Where no thread sleeps, a thread that sleeps until the tick 0 is not woken: no number of timer
-- interrupts takes it from the list.
pub timer_sleep-lost :
    (n : ℕ) (ticks : ℤ) (s s' : Timer)
    → s.block_thread_list ≡ []
    → s.closet_tick ≡ pos 0
    → s.ticks +ℤ ticks ≡ pos 0
    → timer_sleep true ticks s ≡ some s'
    → (s'' : Timer) × (interrupts n s' ≡ some s'')
      × (s''.block_thread_list
          ≡ record { block_threads = s.kernel.current; wakeup_tick = pos 0 } ∷ [])
unfolding timer_sleep list_insert_ordered
timer_sleep-lost n ticks s s' e c z h =
    let (s'', g, m) = no_interrupt n s' (ground (arith, z)) in (s'', g, m ∙ ground (arith, z))
