-- ===== src/FreeMap.antt =====
-- pintos-kaist/filesys/free-map.c: the sectors of the file system's disk that are in use. Whether
-- bitmap_write gets the map into the free map's file is the argument `written` or the field `writes`.
-- `none` is a PANIC, a failed ASSERT, or a read through NULL where the file is written before it is open.
pub mod Sectors
mod Examples
use w12_13_vm.Common.{ℕ, Bool, true, false, not, ◌&&◌, Option, none, some, if◌then◌else◌, ◌>>=◌}
use w12_13_vm.Bitmap.{
  Bitmap, bitmap_create, bitmap_mark, bitmap_scan_and_flip, bitmap_set_multiple, bitmap_all,
}

-- `has_file` is `free_map_file != NULL`. `in_file` is the map in the data of that file, `none` after a
-- write that was cut short. `writes` is what bitmap_write returns to free_map_release, which ignores it.
pub record FreeMap : Type 0 where
  pub free_map : Bitmap
  pub has_file : Bool
  pub in_file : Option Bitmap
  pub writes : Bool

unfoldable pub free_map_init : Bool → Option (ℕ → ℕ → Bool) → Bool → ℕ → Option FreeMap
free_map_init has_struct memory writes disk_size = do
  created ← bitmap_create has_struct memory disk_size
  b ← created
  some (record {
    free_map = bitmap_mark (bitmap_mark b 0) 1;
    has_file = false;
    in_file = none;
    writes = writes;
  })

-- bitmap_write of the map to its file, if that is open; `written` is the result.
abbrev pub write_map : Bool → FreeMap → FreeMap
write_map written s = record s {
  in_file = if s.has_file then (if written then some s.free_map else none) else s.in_file;
}

-- The sector, or `none` where the function returns false.
unfoldable pub free_map_allocate : Bool → ℕ → FreeMap → Option (Option ℕ × FreeMap)
free_map_allocate written cnt s = do
  flipped ← bitmap_scan_and_flip s.free_map 0 cnt false
  elim flipped.0 [
    | none ↦ some (none, s)
    | some sector ↦
        let s1 = write_map written (record s { free_map = flipped.1 }) in
        if s.has_file && not written
        then (do
          b ← bitmap_set_multiple flipped.1 sector cnt false
          some (none, record s1 { free_map = b }))
        else some (some sector, s1)
  ]

unfoldable pub free_map_release : ℕ → ℕ → FreeMap → Option FreeMap
free_map_release sector cnt s = do
  taken ← bitmap_all s.free_map sector cnt
  b ← bitmap_set_multiple s.free_map sector cnt false
  if taken && s.has_file then some (write_map s.writes (record s { free_map = b })) else none
