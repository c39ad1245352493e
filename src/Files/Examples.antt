-- ===== src/Files/Examples.antt =====
-- The theorems on pintos-kaist/filesys/file.c at a file of 600 bytes.
use w12_13_vm.Common.{none, ◌+◌, ◌-◌, ◌≡◌, refl, [], ◌∷◌, true, false, some, ◌==◌, arith}
use w12_13_vm.Common.Int.{pos}
use w12_13_vm.Inode.Read.{span, available}
use w12_13_vm.FileSys.{FileSys}
use w12_13_vm.FileSys.Opens.{IsTable}
use w12_13_vm.Files.{file_read, file_write, file_seek, file_deny_write}
use w12_13_vm.Files.Reading.{data_of, file_read-file_seek-file_write}
use w12_13_vm.Files.Denial.{Denied, file_deny_write-Denied}

-- Inode 20 is open twice, and every file is at position 510 of it.
abbrev small : FileSys
small = record {
  disk = λ t j. t;
  free_map = record {
    free_map = record { bit_cnt = 5; bits = λ idx j. j == 1 };
    has_file = false;
    in_file = none;
    writes = true;
  };
  open_inodes = 20 ∷ [];
  inodes = λ a. record {
    sector = 1;
    open_cnt = pos 2;
    removed = false;
    deny_write_cnt = pos 0;
    inode_disk = record { start = 3; length = 600; magic = 0 };
  };
  files = λ f. record {
    inode = 20;
    file_pos = 510;
    deny_write = false;
    dup_count = pos 1;
    mapping_cnt = pos 0;
  };
}

small-IsTable : IsTable small
small-IsTable = record {
  once = λ a. ground arith;
  counted = λ a h. ground arith;
  unique = λ a b p q e. ground arith;
}

file_read-file_seek-file_write_example :
    let written = file_write true 40 (λ i. i + 7) 5 small in
    ((file_read true 40 5 (file_seek 40 510 written.1)).0 ≡ span (λ i. i - 510 + 7) 510 written.0)
    × (written.0 ≡ available (data_of small 40) 5 510)
file_read-file_seek-file_write_example = file_read-file_seek-file_write small 40 (λ i. i + 7) 5 refl

file_deny_write-Denied_example :
    (s' : FileSys) × (file_deny_write 40 small ≡ some s') × Denied 40 small s'
file_deny_write-Denied_example = file_deny_write-Denied 40 small refl refl refl
