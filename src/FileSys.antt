-- ===== src/FileSys.antt =====
-- The open inodes of pintos-kaist/filesys/inode.c and the open files of pintos-kaist/filesys/file.c. An
-- object is named by its address; where the code allocates one, the address that malloc gives is an
-- argument, `none` for NULL. `none` as a result is a failed ASSERT.
pub mod Codec
pub mod Create
pub mod Opens
pub mod Closes
mod Examples
use w12_13_vm.Common.{
  ℕ, zero, suc, ◌+◌, ◌-◌, ◌*◌, ◌/◌, ◌%◌, List, [], ◌∷◌, Bool, true, false, not, ◌&&◌, ◌||◌, Option,
  none, some, ltb, leb, ◌==◌, if◌then◌else◌, ◌>>=◌, update, length,
}
use w12_13_vm.Common.Int.{ℤ, pos, ◌+ℤ◌, ◌-ℤ◌, ltb_ℤ}
use w12_13_vm.FreeMap.{FreeMap, free_map_allocate, free_map_release}
use w12_13_vm.Inode.{Disk, InodeDisk, bytes_to_sectors, inode_read_at, inode_write_at}

pub record Inode : Type 0 where
  pub sector : ℕ
  pub open_cnt : ℤ
  pub removed : Bool
  pub deny_write_cnt : ℤ
  pub inode_disk : InodeDisk

-- `struct file`.
pub record OpenFile : Type 0 where
  pub inode : ℕ
  pub file_pos : ℕ
  pub deny_write : Bool
  pub dup_count : ℤ
  pub mapping_cnt : ℤ

-- `disk` is the sectors less the data of the free map's file, which is `free_map.in_file`: that file has
-- no name, and free-map.c alone reads and writes it.
pub record FileSys : Type 0 where
  pub disk : Disk
  pub free_map : FreeMap
  pub open_inodes : List ℕ
  pub inodes : ℕ → Inode
  pub files : ℕ → OpenFile

abbrev pub set_inode : FileSys → ℕ → Inode → FileSys
set_inode s a i = record s { inodes = update s.inodes a i }

abbrev pub set_file : FileSys → ℕ → OpenFile → FileSys
set_file s f x = record s { files = update s.files f x }

abbrev pub is_zero : ℤ → Bool
is_zero a = not (ltb_ℤ a (pos 0)) && not (ltb_ℤ (pos 0) a)

-- Byte `k` of a number of 32 bits, and the number of four bytes; the machine puts the lowest first.
unfoldable pub byte : ℕ → ℕ → ℕ
byte n k =
    if k == 0
    then n % 256
    else if k == 1
    then n / 256 % 256
    else if k == 2
    then n / 65536 % 256
    else n / 16777216 % 256

unfoldable pub word : (ℕ → ℕ) → ℕ → ℕ
word b i = b i + 256 * b (i + 1) + 65536 * b (i + 2) + 16777216 * b (i + 3)

-- A `struct inode_disk` in the bytes of its sector, and back. inode_create makes no length of 2^31 or
-- more, so that a length is the number that its 32 bits are.
unfoldable pub encode : InodeDisk → ℕ → ℕ
unfolding byte
encode d j =
    if ltb j 4
    then byte d.start j
    else if ltb j 8
    then byte d.length (j - 4)
    else if ltb j 12
    then byte d.magic (j - 8)
    else 0

unfoldable pub decode : (ℕ → ℕ) → InodeDisk
unfolding word
decode b = record { start = word b 0; length = word b 4; magic = word b 8 }

abbrev pub inode_init : FileSys → FileSys
inode_init s = record s { open_inodes = [] }

abbrev pub inode_get_inumber : ℕ → FileSys → ℕ
inode_get_inumber a s = (s.inodes a).sector

abbrev pub inode_length : ℕ → FileSys → ℕ
inode_length a s = (s.inodes a).inode_disk.length

abbrev pub inode_magic : ℕ
inode_magic = 1229868868

-- The loop that clears the new sectors, from the one after `i` others.
unfoldable pub clear_loop : ℕ → ℕ → Disk → Disk
clear_loop zero t disk = disk
clear_loop (suc n) t disk = clear_loop n (t + 1) (update disk t (λ j. 0))

-- `has_room` is whether calloc has room for the inode; `written` is as for free_map_allocate.
-- `length` is the 32 bits of an off_t, which from 2^31 on is negative.
unfoldable pub inode_create : Bool → Bool → ℕ → ℕ → FileSys → Option (Bool × FileSys)
unfolding encode clear_loop
inode_create has_room written sector length s =
    let sectors = bytes_to_sectors length in
    let made = free_map_allocate written sectors s.free_map >>= λ got. elim got.0 [
      | none ↦ some (false, record s { free_map = got.1 })
      | some start ↦
          let d : InodeDisk = record { start = start; length = length; magic = inode_magic } in
          some (
            true,
            record s {
              free_map = got.1;
              disk = clear_loop sectors start (update s.disk sector (encode d));
            },
          )
    ] in
    if ltb length 2147483648 then (if has_room then made else some (false, s)) else none

-- The open inode of a sector.
unfoldable pub find_open : (ℕ → Inode) → ℕ → List ℕ → Option ℕ
find_open inodes sector [] = none
find_open inodes sector (a ∷ as') =
    if (inodes a).sector == sector then some a else find_open inodes sector as'

abbrev pub inode_reopen : ℕ → FileSys → FileSys
inode_reopen a s = set_inode s a (record (s.inodes a) { open_cnt = (s.inodes a).open_cnt +ℤ pos 1 })

unfoldable pub inode_open : Option ℕ → ℕ → FileSys → Option ℕ × FileSys
unfolding find_open decode
inode_open memory sector s = elim (find_open s.inodes sector s.open_inodes) [
  | some a ↦ (some a, inode_reopen a s)
  | none ↦ elim memory [
    | none ↦ (none, s)
    | some a ↦ (
      some a,
      record s {
        open_inodes = a ∷ s.open_inodes;
        inodes = update s.inodes a (record {
          sector = sector;
          open_cnt = pos 1;
          removed = false;
          deny_write_cnt = pos 0;
          inode_disk = decode (s.disk sector);
        });
      },
    )
  ]
]

unfoldable pub remove_inode : ℕ → List ℕ → List ℕ
remove_inode a [] = []
remove_inode a (b ∷ bs) = if a == b then bs else b ∷ remove_inode a bs

-- The sectors of a removed inode are given back.
unfoldable pub deallocate : Inode → FileSys → Option FileSys
deallocate i s = do
  m1 ← free_map_release i.sector 1 s.free_map
  m2 ← free_map_release i.inode_disk.start (bytes_to_sectors i.inode_disk.length) m1
  some (record s { free_map = m2 })

unfoldable pub inode_close : Option ℕ → FileSys → Option FileSys
unfolding remove_inode deallocate
inode_close none s = some s
inode_close (some a) s =
    let i : Inode = record (s.inodes a) { open_cnt = (s.inodes a).open_cnt -ℤ pos 1 } in
    let s1 = set_inode s a i in
    let s2 = record s1 { open_inodes = remove_inode a s.open_inodes } in
    if is_zero i.open_cnt then (if i.removed then deallocate i s2 else some s2) else some s1

abbrev pub inode_remove : ℕ → FileSys → FileSys
inode_remove a s = set_inode s a (record (s.inodes a) { removed = true })

unfoldable pub inode_deny_write : ℕ → FileSys → Option FileSys
inode_deny_write a s =
    let i = s.inodes a in
    let denied = i.deny_write_cnt +ℤ pos 1 in
    if ltb_ℤ i.open_cnt denied
    then none
    else some (set_inode s a (record i { deny_write_cnt = denied }))

unfoldable pub inode_allow_write : ℕ → FileSys → Option FileSys
inode_allow_write a s =
    let i = s.inodes a in
    if ltb_ℤ (pos 0) i.deny_write_cnt && not (ltb_ℤ i.open_cnt i.deny_write_cnt)
    then some (set_inode s a (record i { deny_write_cnt = i.deny_write_cnt -ℤ pos 1 }))
    else none
