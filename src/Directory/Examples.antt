-- ===== src/Directory/Examples.antt =====
-- The theorems on directories at one of two entries, of which the first is in use.
use w12_13_vm.Common.{
  none, ℕ, zero, suc, ◌<◌, ◌≡◌, refl, List, [], ◌∷◌, true, false, ◌&&◌, some, ltb, ◌==◌,
  if◌then◌else◌, arith,
}
use w12_13_vm.Common.Int.{pos}
use w12_13_vm.Inode.Read.{content}
use w12_13_vm.FileSys.{FileSys}
use w12_13_vm.FileSys.Opens.{IsTable}
use w12_13_vm.Directory.{byte_at, decode_entry, entry_bytes, dir_add, dir_lookup, dir_remove}
use w12_13_vm.Directory.Entries.{IsName}
use w12_13_vm.Directory.Add.{HasNamesOnce}
use w12_13_vm.Directory.Names.{NewNames, dir_add-NewNames}
use w12_13_vm.Directory.Remove.{Removes, dir_remove-Removes}

abbrev old_name : List ℕ
old_name = 97 ∷ []

abbrev new_name : List ℕ
new_name = 98 ∷ 99 ∷ []

-- The directory is inode 20, with its entries in sector 3.
abbrev home : FileSys
home = record {
  disk = λ t j. if (t == 3) && ltb j 20 then entry_bytes old_name 4 (λ k. 0) j else 0;
  free_map = record {
    free_map = record { bit_cnt = 8; bits = λ idx j. ltb j 6 };
    has_file = false;
    in_file = none;
    writes = true;
  };
  open_inodes = 20 ∷ [];
  inodes = λ a. record {
    sector = 1;
    open_cnt = pos 1;
    removed = false;
    deny_write_cnt = pos 0;
    inode_disk = record { start = 3; length = 40; magic = 1229868868 };
  };
  files = λ f. record {
    inode = 20;
    file_pos = 0;
    deny_write = false;
    dup_count = pos 1;
    mapping_cnt = pos 0;
  };
}

home-IsTable : IsTable home
home-IsTable = record {
  once = λ a. ground arith;
  counted = λ a h. ground arith;
  unique = λ a b p q e. ground arith;
}

home-HasNamesOnce : HasNamesOnce home.disk (home.inodes 20).inode_disk
unfolding content decode_entry
home-HasNamesOnce n s t zero zero v w = refl
home-HasNamesOnce n s t (suc zero) j v w = let used = v.used in cc
home-HasNamesOnce n s t zero (suc zero) v w = let used = w.used in cc
home-HasNamesOnce n s t (suc (suc i)) j v w = let h = v.in_range in omega arith
home-HasNamesOnce n s t zero (suc (suc j)) v w = let h = w.in_range in omega arith

new_name-IsName : IsName new_name
new_name-IsName = record { some_bytes = omega arith; fits = omega arith; nonzero = bytes_nonzero }
  where
    bytes_nonzero : (k : ℕ) → k < 2 → 0 < byte_at new_name k
    bytes_nonzero zero h = omega arith
    bytes_nonzero (suc zero) h = omega arith
    bytes_nonzero (suc (suc k)) h = absurd (omega arith)

dir_add-NewNames_example :
    NewNames (home.inodes 20).inode_disk new_name 5 home (dir_add true (λ k. 7) 20 new_name 5 home)
dir_add-NewNames_example =
    dir_add-NewNames (λ k. 7) 20 new_name 5 home new_name-IsName (omega arith) refl

dir_remove-Removes_example :
    Removes (some 21) 20 old_name home (dir_remove true (some 21) 20 old_name home)
dir_remove-Removes_example =
    dir_remove-Removes (some 21) 20 old_name home home-IsTable (λ a e. ground arith) refl
      home-HasNamesOnce

finds_a_name : (dir_lookup true (some 21) 20 old_name home).0 ≡ some 21
unfolding dir_lookup w12_13_vm.Directory.lookup w12_13_vm.Directory.lookup_loop
    w12_13_vm.Inode.inode_read_at decode_entry entry_bytes w12_13_vm.Directory.same_name
    w12_13_vm.Directory.c_string w12_13_vm.FileSys.inode_open
finds_a_name = refl
