-- ===== src/Directory/FileNames/Tests.antt =====
-- Runs of filesys_create, filesys_open and filesys_remove on a disk of eight sectors with a root directory
-- of two entries in sector 3.
use w12_13_vm.Common.{
  ℕ, ◌≡◌, refl, List, [], ◌∷◌, Bool, true, false, Option, none, some, ltb, ◌==◌, if◌then◌else◌,
  ◌>>=◌, map,
}
use w12_13_vm.Common.Int.{pos}
use w12_13_vm.Bitmap.View.{view}
use w12_13_vm.FileSys.{FileSys, encode}
use w12_13_vm.Directory.FileNames.{Allocs, filesys_create, filesys_open, filesys_remove}
use w12_13_vm.Directory.FileNames.{create_in}
use w12_13_vm.Directory.{
  dir_add, lookup, lookup_loop, decode_entry, free_slot, dir_open_root, dir_open, c_string,
  copied_name, entry_bytes, same_name, dir_lookup, dir_remove, remove_opened, finish_remove,
}
use w12_13_vm.FileSys.{
  inode_open, inode_create, inode_close, byte, clear_loop, deallocate, decode, find_open,
  remove_inode, word,
}
use w12_13_vm.FreeMap.{free_map_allocate, free_map_release}
use w12_13_vm.Inode.{
  bytes_to_sectors, inode_read_at, inode_write_at, byte_to_sector, chunk_size, copy, new_sector,
  read_loop, write_loop,
}
use w12_13_vm.Files.{file_open}
use w12_13_vm.Common.Int.{◌-ℤ◌, ◌+ℤ◌}
use w12_13_vm.Bitmap.{
  bit_mask, bitmap_all, bitmap_contains, bitmap_mark, bitmap_reset, bitmap_scan,
  bitmap_scan_and_flip, bitmap_set, bitmap_set_multiple, bitmap_test, contains_loop, elem_idx,
  is_nonzero, scan_loop, set_loop,
}

abbrev calls : Allocs
calls = record {
  dir_room = true;
  dir_memory = some 20;
  inode_room = true;
  inode_memory = some 21;
  file_memory = some 30;
  has_bounce = true;
  written = true;
  written_again = true;
}

abbrev empty : FileSys
empty = record {
  disk = λ t.
      if t == 1 then encode (record { start = 3; length = 40; magic = 1229868868 }) else λ j. 0;
  free_map = record {
    free_map = record { bit_cnt = 8; bits = λ idx j. ltb j 4 };
    has_file = true;
    in_file = none;
    writes = true;
  };
  open_inodes = [];
  inodes = λ a. record {
    sector = 0;
    open_cnt = pos 0;
    removed = false;
    deny_write_cnt = pos 0;
    inode_disk = record { start = 0; length = 0; magic = 0 };
  };
  files = λ f. record {
    inode = 0;
    file_pos = 0;
    deny_write = false;
    dup_count = pos 0;
    mapping_cnt = pos 0;
  };
}

abbrev letter : List ℕ
letter = 97 ∷ []

abbrev create_and_open : Option (Bool × Option ℕ)
create_and_open = do
  created ← filesys_create calls (λ k. 0) (some letter) 10 empty
  opened ← filesys_open calls letter created.1
  some (created.0, opened.0)

-- A file that has been created is found.
created_is_found : create_and_open ≡ some (true, some 30)
unfolding filesys_create filesys_open filesys_remove create_in dir_add lookup lookup_loop
    decode_entry free_slot dir_open_root dir_open c_string copied_name entry_bytes same_name
    dir_lookup dir_remove remove_opened finish_remove inode_open inode_create inode_close byte
    clear_loop deallocate decode encode find_open remove_inode word free_map_allocate
    free_map_release bytes_to_sectors inode_read_at inode_write_at byte_to_sector chunk_size copy
    new_sector read_loop write_loop file_open ◌-ℤ◌ ◌+ℤ◌ bit_mask bitmap_all bitmap_contains
    bitmap_mark bitmap_reset bitmap_scan bitmap_scan_and_flip bitmap_set bitmap_set_multiple
    bitmap_test contains_loop elem_idx is_nonzero scan_loop set_loop view
created_is_found = refl

abbrev create_and_remove : Option (Bool × Bool × Option ℕ)
create_and_remove = do
  created ← filesys_create calls (λ k. 0) (some letter) 10 empty
  removed ← filesys_remove calls letter created.1
  opened ← filesys_open calls letter removed.1
  some (created.0, removed.0, opened.0)

-- It is not found when it has been removed.
removed_is_gone : create_and_remove ≡ some (true, true, none)
unfolding filesys_create filesys_open filesys_remove create_in dir_add lookup lookup_loop
    decode_entry free_slot dir_open_root dir_open c_string copied_name entry_bytes same_name
    dir_lookup dir_remove remove_opened finish_remove inode_open inode_create inode_close byte
    clear_loop deallocate decode encode find_open remove_inode word free_map_allocate
    free_map_release bytes_to_sectors inode_read_at inode_write_at byte_to_sector chunk_size copy
    new_sector read_loop write_loop file_open ◌-ℤ◌ ◌+ℤ◌ bit_mask bitmap_all bitmap_contains
    bitmap_mark bitmap_reset bitmap_scan bitmap_scan_and_flip bitmap_set bitmap_set_multiple
    bitmap_test contains_loop elem_idx is_nonzero scan_loop set_loop view
removed_is_gone = refl

abbrev sectors_in_use : FileSys → List Bool
sectors_in_use s = map (view s.free_map.free_map) (4 ∷ 5 ∷ 6 ∷ 7 ∷ [])

abbrev create_twice : Option (Bool × List Bool × List Bool)
create_twice = do
  first ← filesys_create calls (λ k. 0) (some letter) 10 empty
  second ← filesys_create calls (λ k. 0) (some letter) 10 first.1
  some (second.0, sectors_in_use first.1, sectors_in_use second.1)

-- A name that is taken: the new inode's sector is free again, but not the sector of its data.
second_create_leaks :
    create_twice ≡ some (false, true ∷ true ∷ false ∷ false ∷ [], true ∷ true ∷ false ∷ true ∷ [])
unfolding filesys_create filesys_open filesys_remove create_in dir_add lookup lookup_loop
    decode_entry free_slot dir_open_root dir_open c_string copied_name entry_bytes same_name
    dir_lookup dir_remove remove_opened finish_remove inode_open inode_create inode_close byte
    clear_loop deallocate decode encode find_open remove_inode word free_map_allocate
    free_map_release bytes_to_sectors inode_read_at inode_write_at byte_to_sector chunk_size copy
    new_sector read_loop write_loop file_open ◌-ℤ◌ ◌+ℤ◌ bit_mask bitmap_all bitmap_contains
    bitmap_mark bitmap_reset bitmap_scan bitmap_scan_and_flip bitmap_set bitmap_set_multiple
    bitmap_test contains_loop elem_idx is_nonzero scan_loop set_loop view
second_create_leaks = refl
