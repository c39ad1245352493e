-- ===== src/FdTable/Examples.antt =====
-- The theorems on the descriptors of pintos-kaist/userprog/syscall.c at a process with one open file.
use mathlib.Core.Path.{subst}
use w12_13_vm.Common.{
  ℕ, ◌≡◌, refl, sym, ap, ◌∙◌, [], ◌∷◌, true, false, none, some, ◌==◌, arith, update,
}
use w12_13_vm.Common.Int.{pos, ◌-ℤ◌, ltb_ℤ}
use w12_13_vm.FileSys.{FileSys}
use w12_13_vm.FileSys.Opens.{IsTable}
use w12_13_vm.FdTable.{
  stdin, file_at, Fds, slot_of, minus_one, init_fds, sys_open, idx_loop, sys_close, sys_dup2,
  sys_write,
}
use w12_13_vm.FdTable.Slots.{holders, IsCounted, IsSound}
use w12_13_vm.FdTable.Start.{start_holders, init_fds-IsSound}
use w12_13_vm.FdTable.Close.{FdClosed, sys_close-FdClosed}
use w12_13_vm.FdTable.Dup.{Duplicated, sys_dup2-Duplicated}
use w12_13_vm.FdTable.Open.{FileOpened, sys_open-FileOpened}
use w12_13_vm.FdTable.Redirect.{sys_write-sys_dup2}

-- Inode 20 is open twice.
abbrev small : FileSys
small = record {
  disk = λ t j. 9;
  free_map = record {
    free_map = record { bit_cnt = 5; bits = λ idx j. j == 1 };
    has_file = false;
    in_file = none;
    writes = true;
  };
  open_inodes = 20 ∷ [];
  inodes = λ a. record {
    sector = 1;
    open_cnt = pos 2;
    removed = false;
    deny_write_cnt = pos 0;
    inode_disk = record { start = 3; length = 600; magic = 0 };
  };
  files = λ f. record {
    inode = 20;
    file_pos = 0;
    deny_write = false;
    dup_count = pos 1;
    mapping_cnt = pos 0;
  };
}

small-IsTable : IsTable small
small-IsTable = record {
  once = λ a. ground arith;
  counted = λ a h. ground arith;
  unique = λ a b p q e. ground arith;
}

start : IsSound (init_fds small)
start = init_fds-IsSound small small-IsTable

no_file_yet : holders (init_fds small) (file_at 40) ≡ 0
no_file_yet = start_holders small (file_at 40) refl

sys_open-FileOpened_example :
    FileOpened 40 (init_fds small) (sys_open false (some 40, small) (init_fds small))
sys_open-FileOpened_example =
    sys_open-FileOpened 40 (init_fds small) small (omega arith) start.counted no_file_yet refl
      (λ g h. refl)

opened : FileOpened 40 (init_fds small) (sys_open false (some 40, small) (init_fds small))
opened =
    sys_open-FileOpened 40 (init_fds small) small (omega arith) start.counted no_file_yet refl
      (λ g h. refl)

-- The file is at descriptor 2.
abbrev with_file : Fds
with_file = record (init_fds small) { fd_table = update (init_fds small).fd_table 2 (file_at 40) }

opened_two : sys_open false (some 40, small) (init_fds small) ≡ (pos 2, with_file)
unfolding sys_open idx_loop
opened_two = refl

with_file-IsSound : IsSound with_file
with_file-IsSound =
    let place : opened.place ≡ 2 = sym opened.new_idx ∙ ap (λ r. r.1.fd_idx) opened_two in
    record {
      counted = subst IsCounted (ap (λ r. r.1) opened_two) (opened.counted (omega (arith, place)));
      table = small-IsTable;
      opened = λ f p. record { is_in = omega arith; denial = λ e. cc; owns = λ e. cc };
    }

sys_close-FdClosed_example :
    (t' : Fds) × (sys_close (pos 2) with_file ≡ some t')
    × IsCounted t'
    × FdClosed (holders with_file) (pos 2) with_file t'
sys_close-FdClosed_example = sys_close-FdClosed (pos 2) with_file refl with_file-IsSound

sys_dup2-Duplicated_example :
    Duplicated (pos 2) (pos 5) with_file (sys_dup2 (pos 2) (pos 5) with_file)
unfolding ◌-ℤ◌
sys_dup2-Duplicated_example =
    sys_dup2-Duplicated (pos 2) (pos 5) with_file refl refl refl refl with_file-IsSound

-- The file is at descriptors 2 and 5.
abbrev twice : Fds
twice = record with_file { fd_table = update with_file.fd_table 5 (file_at 40) }

sys_write-sys_dup2_example :
    (t' : Fds) × (sys_dup2 (pos 2) (pos 1) with_file ≡ some (pos 1, t'))
    × ((f : ℕ)
        → slot_of (pos 2) with_file ≡ file_at f
        → ltb_ℤ (pos 1) (pos 2) ≡ true
        → sys_write true (pos 1) (λ i. i) 8 t' ≡ some (minus_one, t'))
    × (slot_of (pos 2) with_file ≡ stdin
        → ltb_ℤ (pos 1) (pos 2) ≡ false
        → sys_write true (pos 1) (λ i. i) 8 t' ≡ none)
unfolding ◌-ℤ◌
sys_write-sys_dup2_example =
    sys_write-sys_dup2 (pos 2) (pos 1) with_file refl refl refl refl with_file-IsSound true (λ i. i)
      8
