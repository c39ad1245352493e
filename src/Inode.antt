-- ===== src/Inode.antt =====
-- The data of an inode in pintos-kaist/filesys/inode.c: bytes of consecutive sectors. A disk is the
-- function from a sector and an offset to the byte there. Sizes and offsets are not negative.
pub mod Read
pub mod Write
mod Examples
use w12_13_vm.Common.{
  ℕ, zero, suc, ◌+◌, ◌-◌, ◌/◌, ◌%◌, List, [], ◌∷◌, ◌++◌, Bool, true, false, ◌&&◌, ◌||◌, ltb, leb,
  ◌==◌, if◌then◌else◌, update,
}

abbrev pub Disk : Type 0
Disk = ℕ → ℕ → ℕ

-- `struct inode_disk`, less its padding.
pub record InodeDisk : Type 0 where
  pub start : ℕ
  pub length : ℕ
  pub magic : ℕ

unfoldable pub bytes_to_sectors : ℕ → ℕ
bytes_to_sectors size = (size + 511) / 512

-- The sector number -1 is that of a byte behind the end.
unfoldable pub byte_to_sector : InodeDisk → ℕ → ℕ
byte_to_sector d pos = if ltb pos d.length then d.start + pos / 512 else 4294967295

-- The lesser of two numbers, as the conditional expressions choose it.
abbrev pub lesser : ℕ → ℕ → ℕ
lesser a b = if ltb a b then a else b

-- The bytes to copy out of one sector, or into it. Where the offset is behind the end, `inode_left` is
-- negative in the source and 0 here, and both end the loop.
unfoldable pub chunk_size : InodeDisk → ℕ → ℕ → ℕ
chunk_size d size offset =
    let inode_left = d.length - offset in
    let sector_left = 512 - offset % 512 in lesser size (lesser inode_left sector_left)

-- `cnt` bytes of a sector, from `ofs` on.
unfoldable pub copy : (ℕ → ℕ) → ℕ → ℕ → List ℕ
copy sector ofs zero = []
copy sector ofs (suc cnt) = sector ofs ∷ copy sector (ofs + 1) cnt

-- The loop of inode_read_at: the bytes that go into the buffer. `has_bounce` says whether malloc has room
-- for the bounce buffer, which is asked for once. Each round reads a byte at least, so the size is fuel
-- enough.
unfoldable pub read_loop : ℕ → Bool → Disk → InodeDisk → ℕ → ℕ → List ℕ
unfolding chunk_size byte_to_sector copy
read_loop zero has_bounce disk d size offset = []
read_loop (suc f) has_bounce disk d size offset =
    let sector_ofs = offset % 512 in
    let chunk = chunk_size d size offset in
    let bytes = copy (disk (byte_to_sector d offset)) sector_ofs chunk in
    let rest = read_loop f has_bounce disk d (size - chunk) (offset + chunk) in
    if chunk == 0
    then []
    else if ((sector_ofs == 0) && (chunk == 512)) || has_bounce
    then bytes ++ rest
    else []

unfoldable pub inode_read_at : Bool → Disk → InodeDisk → ℕ → ℕ → List ℕ
unfolding read_loop
inode_read_at has_bounce disk d size offset = read_loop size has_bounce disk d size offset

-- A sector after `chunk` bytes have been written into it: the buffer's bytes from `done` on. Where the
-- sector has no other data, the rest of the bounce buffer is 0.
unfoldable pub new_sector : (ℕ → ℕ) → (ℕ → ℕ) → ℕ → ℕ → ℕ → ℕ → ℕ
new_sector old buffer done sector_ofs chunk j =
    if leb sector_ofs j && ltb j (sector_ofs + chunk)
    then buffer (done + (j - sector_ofs))
    else if ltb 0 sector_ofs || ltb chunk (512 - sector_ofs)
    then old j
    else 0

-- The loop of inode_write_at: how many bytes it has written, and the disk.
unfoldable pub write_loop : ℕ → Bool → InodeDisk → (ℕ → ℕ) → ℕ → ℕ → ℕ → Disk → ℕ × Disk
unfolding chunk_size byte_to_sector new_sector
write_loop zero has_bounce d buffer size offset done disk = (done, disk)
write_loop (suc f) has_bounce d buffer size offset done disk =
    let sector_ofs = offset % 512 in
    let chunk = chunk_size d size offset in
    let sector = byte_to_sector d offset in
    let disk' = update disk sector (new_sector (disk sector) buffer done sector_ofs chunk) in
    let rest =
      write_loop f has_bounce d buffer (size - chunk) (offset + chunk) (done + chunk) disk' in
    if chunk == 0
    then (done, disk)
    else if ((sector_ofs == 0) && (chunk == 512)) || has_bounce
    then rest
    else (done, disk)

unfoldable pub inode_write_at : Bool → Bool → InodeDisk → (ℕ → ℕ) → ℕ → ℕ → Disk → ℕ × Disk
unfolding write_loop
inode_write_at denied has_bounce d buffer size offset disk =
    let written = write_loop size has_bounce d buffer size offset 0 disk in
    if denied then (0, disk) else written
