-- ===== src/Swap.antt =====
-- Anonymous pages of pintos-kaist/vm/anon.c: their slots on the swap disk. A disk is the function from
-- a sector and an offset to the byte there, and a page in memory the function of its 4096 bytes.
-- `none` is a failed ASSERT.
pub mod RoundTrip
pub mod Full
mod Examples
use w12_13_vm.Common.{
  ℕ, zero, suc, ◌+◌, ◌-◌, ◌*◌, ◌/◌, Bool, true, false, ◌&&◌, Option, none, some, ltb, leb, ◌==◌,
  if◌then◌else◌, ◌>>=◌, update,
}
use w12_13_vm.Common.Int.{ℤ, pos, ◌-ℤ◌}
use w12_13_vm.Bitmap.{Bitmap, bitmap_set, bitmap_test, bitmap_scan_and_flip, bitmap_create}

-- `struct anon_page` and the frame of a `struct page`; `none` is the slot -1, or NULL.
pub record Page : Type 0 where
  pub frame : Option ℕ
  pub swap_idx : Option ℕ

-- `struct frame`; `contents` is the memory at its `kva`.
pub record Frame : Type 0 where
  pub page : Option ℕ
  pub contents : ℕ → ℕ
  pub r_cnt : ℤ

pub record Swap : Type 0 where
  pub swap_table : Bitmap
  pub swap_disk : ℕ → ℕ → ℕ
  pub pages : ℕ → Page
  pub frames : ℕ → Frame

abbrev pub sector_size : ℕ
sector_size = 512

-- BITMAP_ERROR, which is UINT32_MAX, is -1 in the `int` that anon_swap_out keeps it in, and so
-- 2 ^ 64 - 1 where it is the number of a bit.
abbrev pub table_idx_error : ℕ
table_idx_error = 18446744073709551615

abbrev pub vm_anon_init : Bool → Option (ℕ → ℕ → Bool) → ℕ → Option (Option Bitmap)
vm_anon_init has_struct memory disk_size = bitmap_create has_struct memory (disk_size / 8)

abbrev pub anon_initializer : Option ℕ → Swap → Bool × Swap
anon_initializer none s = (false, s)
anon_initializer (some p) s =
    (true, record s { pages = update s.pages p (record (s.pages p) { swap_idx = none }) })

-- The loop that reads the eight sectors of a slot into memory, from the sector `i` on.
unfoldable pub read_loop : ℕ → ℕ → (ℕ → ℕ → ℕ) → ℕ → (ℕ → ℕ) → ℕ → ℕ
read_loop zero i disk slot kva = kva
read_loop (suc n) i disk slot kva = read_loop n (i + 1) disk slot (λ p.
    if leb (i * sector_size) p && ltb p (i * sector_size + sector_size)
    then disk (slot * 8 + i) (p - i * sector_size)
    else kva p)

unfoldable pub write_loop : ℕ → ℕ → (ℕ → ℕ) → ℕ → (ℕ → ℕ → ℕ) → ℕ → ℕ → ℕ
write_loop zero i kva slot disk = disk
write_loop (suc n) i kva slot disk =
    write_loop n (i + 1) kva slot (update disk (slot * 8 + i) (λ j. kva (sector_size * i + j)))

-- The page `p` has been read from its slot into the frame `f`, and `table` has the slot free.
unfoldable pub read_back : ℕ → ℕ → ℕ → Bitmap → Swap → Swap
unfolding read_loop
read_back p f slot table s = record s {
  swap_table = table;
  pages = update s.pages p (record (s.pages p) { swap_idx = none });
  frames =
      update s.frames f
        (record (s.frames f) { contents = read_loop 8 0 s.swap_disk slot (s.frames f).contents });
}

-- The frame `f` is the one whose memory `kva` is.
unfoldable pub anon_swap_in : ℕ → ℕ → Swap → Option (Bool × Swap)
unfolding read_back
anon_swap_in p f s = elim (s.pages p).swap_idx [
  | none ↦ some (false, s)
  | some slot ↦ do
    table ← bitmap_set s.swap_table slot false
    some (true, read_back p f slot table s)
]

-- The page `p` has been written from its frame `f` to a slot, which `table` has taken.
unfoldable pub written_out : ℕ → ℕ → ℕ → Bitmap → Swap → Swap
unfolding write_loop
written_out p f slot table s = record s {
  swap_table = table;
  swap_disk = write_loop 8 0 (s.frames f).contents slot s.swap_disk;
  pages = update s.pages p (record (s.pages p) { frame = none; swap_idx = some slot });
  frames =
      update s.frames f (record (s.frames f) { page = none; r_cnt = (s.frames f).r_cnt -ℤ pos 1 });
}

-- `page->frame` is not tested for NULL: `none` stands for that fault as well.
unfoldable pub anon_swap_out : ℕ → Swap → Option (Bool × Swap)
unfolding written_out
anon_swap_out p s = do
  flipped ← bitmap_scan_and_flip s.swap_table 0 1 false
  elim flipped.0 [
    | none ↦ do
      taken ← bitmap_test s.swap_table table_idx_error
      if taken then none else some (false, s)
    | some slot ↦ do f ← (s.pages p).frame; some (true, written_out p f slot flipped.1 s)
  ]
