-- ===== src/FreeMap/Examples.antt =====
-- The theorems on pintos-kaist/filesys/free-map.c at a disk of five sectors.
use w12_13_vm.Common.{◌≡◌, refl, true, none, some, ◌==◌}
use w12_13_vm.Bitmap.{bitmap_scan_and_flip}
use w12_13_vm.FreeMap.{FreeMap, free_map_allocate}

-- Sector 1 is in use.
abbrev five : FreeMap
five = record {
  free_map = record { bit_cnt = 5; bits = λ idx j. j == 1 };
  has_file = true;
  in_file = none;
  writes = true;
}

allocated : FreeMap
unfolding free_map_allocate
allocated = elim (free_map_allocate true 2 five) [ none ↦ five | some r ↦ r.1 ]

allocate_two : free_map_allocate true 2 five ≡ some (some 2, allocated)
unfolding allocated bitmap_scan_and_flip
allocate_two = refl
