-- ===== src/FdTable/Start.antt =====
-- The descriptors of a new process, process_init of pintos-kaist/userprog/process.c.
use w12_13_vm.Common.{ℕ, zero, suc, ◌+◌, ◌≡◌, refl, sym, arith, update}
use w12_13_vm.FileSys.{FileSys}
use w12_13_vm.FileSys.Opens.{IsTable}
use w12_13_vm.FdTable.{Slot, empty, stdin, stdout, file_at, max_fd, init_fds}
use w12_13_vm.FdTable.Slots.{one, count_slots, count_slots-update, holders, IsSound, same_count}

none_held : (w : Slot) (n : ℕ) → one empty w ≡ 0 → count_slots (λ fd. empty) w n ≡ 0
unfolding count_slots
none_held w zero h = refl
none_held w (suc n) h = omega (arith, h, none_held w n h)

-- What a new process holds.
pub start_holders :
    (s : FileSys) (w : Slot) → one empty w ≡ 0 → holders (init_fds s) w ≡ one stdin w + one stdout w
start_holders s w h =
    let table : ℕ → Slot = update (λ fd. empty) 0 stdin in
    omega (
      arith,
      h,
      none_held w max_fd h,
      count_slots-update (λ fd. empty) stdin w 0 max_fd (omega arith),
      count_slots-update table stdout w 1 max_fd (omega arith),
    )

-- A new process has counts that are right: one descriptor of the standard input, one of the standard
-- output, and no file.
pub init_fds-IsSound : (s : FileSys) → IsTable s → IsSound (init_fds s)
init_fds-IsSound s v = record {
  counted = record {
    stdins = same_count _ 1 _ refl (sym (start_holders s stdin refl));
    stdouts = same_count _ 1 _ refl (sym (start_holders s stdout refl));
    files = λ f p. absurd (omega (arith, p, start_holders s (file_at f) refl));
  };
  table = v;
  opened = λ f p. absurd (omega (arith, p, start_holders s (file_at f) refl));
}
