-- ===== src/FileSys/Examples.antt =====
-- The theorems on inodes and files at a disk of five sectors.
use w12_13_vm.Common.{◌≡◌, refl, [], ◌∷◌, ltb, true, false, none, some, arith}
use w12_13_vm.Common.Int.{pos}
use w12_13_vm.Bitmap.View.{view}
use w12_13_vm.Inode.{InodeDisk, bytes_to_sectors}
use w12_13_vm.FreeMap.Sectors.{used}
use w12_13_vm.FileSys.{FileSys, inode_create, inode_open, inode_close}
use w12_13_vm.FileSys.Opens.{IsTable, Opened, inode_open-Opened}
use w12_13_vm.FileSys.Closes.{OwnsSectors, Closed, inode_close-Closed}
use w12_13_vm.FileSys.Create.{Creates, inode_create-Creates}

abbrev disk_inode : InodeDisk
disk_inode = record { start = 3; length = 600; magic = 1229868868 }

-- Sectors 0 and 1 are in use, and inode 20 of sector 1 is open twice.
abbrev small : FileSys
small = record {
  disk = λ t j. 9;
  free_map = record {
    free_map = record { bit_cnt = 5; bits = λ idx j. ltb j 2 };
    has_file = false;
    in_file = none;
    writes = true;
  };
  open_inodes = 20 ∷ [];
  inodes = λ a. record {
    sector = 1;
    open_cnt = pos 2;
    removed = false;
    deny_write_cnt = pos 0;
    inode_disk = disk_inode;
  };
  files = λ f. record {
    inode = 20;
    file_pos = 0;
    deny_write = false;
    dup_count = pos 1;
    mapping_cnt = pos 0;
  };
}

sector_used : used small.free_map 1 ≡ true
unfolding view
sector_used = refl

inode_create-Creates_example :
    Creates 1 600 small sector_used (omega arith) (omega arith) (inode_create true true 1 600 small)
inode_create-Creates_example =
    inode_create-Creates 1 600 small sector_used (omega arith) (omega arith) true (omega arith)

small-IsTable : IsTable small
small-IsTable = record {
  once = λ a. ground arith;
  counted = λ a h. ground arith;
  unique = λ a b p q e. ground arith;
}

inode_open-Opened_example : Opened (some 21) 4 small (inode_open (some 21) 4 small)
inode_open-Opened_example = inode_open-Opened 4 small small-IsTable (some 21) (λ a e. ground arith)

-- Inode 20 has been removed and is open once.
abbrev leaving : FileSys
leaving = record small {
  free_map = record {
    free_map = record { bit_cnt = 5; bits = λ idx j. true };
    has_file = true;
    in_file = none;
    writes = true;
  };
  inodes = λ a. record {
    sector = 1;
    open_cnt = pos 1;
    removed = true;
    deny_write_cnt = pos 0;
    inode_disk = disk_inode;
  };
}

leaving-IsTable : IsTable leaving
leaving-IsTable = record {
  once = λ a. ground arith;
  counted = λ a h. ground arith;
  unique = λ a b p q e. ground arith;
}

leaving-OwnsSectors : OwnsSectors leaving.free_map (leaving.inodes 20)
unfolding bytes_to_sectors view
leaving-OwnsSectors = record {
  sized = omega arith;
  file = refl;
  sector_in = omega arith;
  data_in = omega arith;
  in_use = λ k h. refl;
  apart = refl;
}

inode_close-Closed_example :
    (s' : FileSys) × (inode_close (some 20) leaving ≡ some s') × Closed 20 leaving s'
inode_close-Closed_example =
    inode_close-Closed 20 leaving leaving-IsTable (omega arith) (λ e. leaving-OwnsSectors)
