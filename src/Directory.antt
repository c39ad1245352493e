-- ===== src/Directory.antt =====
-- Directories: pintos-kaist/filesys/directory.c and the file system's calls of it in
-- pintos-kaist/filesys/filesys.c. A name is the list of its bytes, none of which is 0. `has_bounce` is
-- whether malloc gives the bounce buffers of an operation. A `struct dir` is the address of its inode, and
-- where a position is used, a number beside it. `none` is a failed ASSERT.
pub mod Entries
pub mod Search
pub mod Add
pub mod Names
pub mod Remove
pub mod FileNames
mod Examples
use w12_13_vm.Common.{
  ◌%◌, ℕ, zero, suc, ◌+◌, ◌-◌, ◌*◌, ◌/◌, ◌<◌, List, [], ◌∷◌, Bool, true, false, not, ◌&&◌, ◌||◌,
  Option, none, some, ltb, leb, ◌==◌, if◌then◌else◌, ◌>>=◌, length, get_or,
}
use w12_13_vm.Inode.{Disk, InodeDisk, inode_read_at, inode_write_at}
use w12_13_vm.FreeMap.{free_map_allocate, free_map_release}
use w12_13_vm.FileSys.{
  FileSys, byte, word, is_zero, inode_create, inode_open, inode_reopen, inode_close, inode_remove,
}
use w12_13_vm.Files.{file_open}

pub record DirEntry : Type 0 where
  pub inode_sector : ℕ
  pub name : List ℕ
  pub in_use : Bool

-- `sizeof (struct dir_entry)`, with NAME_MAX 14.
abbrev pub entry_size : ℕ
entry_size = 20

abbrev pub byte_at : List ℕ → ℕ → ℕ
byte_at bytes k = get_or bytes k 0

-- The bytes before the first 0, in an array of `n`. A name on disk has its 0 in its array.
unfoldable pub c_string : ℕ → (ℕ → ℕ) → List ℕ
c_string zero b = []
c_string (suc n) b = let rest = c_string n (λ k. b (k + 1)) in if b 0 == 0 then [] else b 0 ∷ rest

-- `!strcmp (a, b)`.
unfoldable pub same_name : List ℕ → List ℕ → Bool
same_name [] [] = true
same_name [] (y ∷ ys) = false
same_name (x ∷ xs) [] = false
same_name (x ∷ xs) (y ∷ ys) = (x == y) && same_name xs ys

-- The bytes of a `struct dir_entry` as its fields.
unfoldable pub decode_entry : (ℕ → ℕ) → DirEntry
decode_entry b = record {
  inode_sector = word b 0;
  name = c_string 15 (λ k. b (4 + k));
  in_use = not (b 19 == 0);
}

-- strlcpy of a name that fits, over the array `old`.
unfoldable pub copied_name : List ℕ → (ℕ → ℕ) → ℕ → ℕ
copied_name [] old k = if k == 0 then 0 else old k
copied_name (c ∷ cs) old k = if k == 0 then c else copied_name cs (λ j. old (j + 1)) (k - 1)

-- The bytes of an entry that dir_add has filled in, over those that it had read.
unfoldable pub entry_bytes : List ℕ → ℕ → (ℕ → ℕ) → ℕ → ℕ
unfolding byte copied_name
entry_bytes name sector old k =
    if ltb k 4
    then byte sector k
    else if ltb k 19
    then copied_name name (λ j. old (4 + j)) (k - 4)
    else if k == 19
    then 1
    else old k

-- The loop of lookup: the bytes of the entry and its offset. Each round goes on by an entry that lies in
-- the inode, so the inode's length is fuel enough.
unfoldable pub lookup_loop : ℕ → Bool → Disk → InodeDisk → List ℕ → ℕ → Option (List ℕ × ℕ)
lookup_loop zero has_bounce disk d name ofs = none
lookup_loop (suc f) has_bounce disk d name ofs =
    let bytes = inode_read_at has_bounce disk d entry_size ofs in
    let e = decode_entry (byte_at bytes) in
    let rest = lookup_loop f has_bounce disk d name (ofs + entry_size) in
    if length bytes == entry_size
    then (if e.in_use && same_name name e.name then some (bytes, ofs) else rest)
    else none

unfoldable pub lookup : Bool → ℕ → List ℕ → FileSys → Option (List ℕ × ℕ)
lookup has_bounce dir name s =
    let d = (s.inodes dir).inode_disk in lookup_loop d.length has_bounce s.disk d name 0

-- The bytes of the variable `e` after a read over what it held.
abbrev pub read_over : List ℕ → (ℕ → ℕ) → ℕ → ℕ
read_over bytes e k = if ltb k (length bytes) then byte_at bytes k else e k

-- The loop of dir_add that looks for a free slot: the offset, and what the variable `e` holds then.
unfoldable pub free_slot : ℕ → Bool → Disk → InodeDisk → (ℕ → ℕ) → ℕ → ℕ × (ℕ → ℕ)
free_slot zero has_bounce disk d e ofs = (ofs, e)
free_slot (suc f) has_bounce disk d e ofs =
    let bytes = inode_read_at has_bounce disk d entry_size ofs in
    let e' = read_over bytes e in
    let rest = free_slot f has_bounce disk d e' (ofs + entry_size) in
    if length bytes == entry_size
    then (if not (decode_entry (byte_at bytes)).in_use then (ofs, e') else rest)
    else (ofs, e')

-- inode_write_at to the inode of a directory.
abbrev pub write_dir : Bool → ℕ → (ℕ → ℕ) → ℕ → FileSys → ℕ × FileSys
write_dir has_bounce dir buffer ofs s =
    let i = s.inodes dir in
    let w =
      inode_write_at (not (is_zero i.deny_write_cnt)) has_bounce i.inode_disk buffer entry_size ofs
        s.disk in
    (w.0, record s { disk = w.1 })

-- `e` is what the variable `e` of dir_add holds at its start.
unfoldable pub dir_add : Bool → (ℕ → ℕ) → ℕ → List ℕ → ℕ → FileSys → Bool × FileSys
dir_add has_bounce e dir name inode_sector s =
    let d = (s.inodes dir).inode_disk in
    let slot = free_slot d.length has_bounce s.disk d e 0 in
    let written = write_dir has_bounce dir (entry_bytes name inode_sector slot.1) slot.0 s in
    if (length name == 0) || ltb 14 (length name)
    then (false, s)
    else elim (lookup has_bounce dir name s) [
      | some found ↦ (false, s)
      | none ↦ (written.0 == entry_size, written.1)
    ]

-- `memory` is what malloc gives for an inode.
unfoldable pub dir_lookup : Bool → Option ℕ → ℕ → List ℕ → FileSys → Option ℕ × FileSys
dir_lookup has_bounce memory dir name s = elim (lookup has_bounce dir name s) [
  | none ↦ (none, s)
  | some (bytes, ofs) ↦ inode_open memory (decode_entry (byte_at bytes)).inode_sector s
]

-- The entry with its `in_use` false.
abbrev pub erased : List ℕ → ℕ → ℕ
erased bytes k = if k == 19 then 0 else byte_at bytes k

-- The rest of dir_remove once the entry has been written, and once its inode has been opened.
unfoldable pub finish_remove : ℕ → ℕ × FileSys → Option (Bool × FileSys)
finish_remove inode written =
    let success = written.0 == entry_size in
    let s = if success then inode_remove inode written.1 else written.1 in
    inode_close (some inode) s >>= λ t. some (success, t)

unfoldable pub remove_opened : Bool → ℕ → List ℕ → ℕ → Option ℕ × FileSys → Option (Bool × FileSys)
remove_opened has_bounce dir bytes ofs (none, s) = some (false, s)
remove_opened has_bounce dir bytes ofs (some inode, s) =
    finish_remove inode (write_dir has_bounce dir (erased bytes) ofs s)

unfoldable pub dir_remove : Bool → Option ℕ → ℕ → List ℕ → FileSys → Option (Bool × FileSys)
dir_remove has_bounce memory dir name s = elim (lookup has_bounce dir name s) [
  | none ↦ some (false, s)
  | some (bytes, ofs) ↦
      remove_opened has_bounce dir bytes ofs
        (inode_open memory (decode_entry (byte_at bytes)).inode_sector s)
]

-- The name and the position behind its entry.
unfoldable pub dir_readdir : ℕ → Bool → ℕ → ℕ → FileSys → Option (List ℕ) × ℕ
dir_readdir zero has_bounce dir pos s = (none, pos)
dir_readdir (suc f) has_bounce dir pos s =
    let bytes = inode_read_at has_bounce s.disk (s.inodes dir).inode_disk entry_size pos in
    let e = decode_entry (byte_at bytes) in
    let rest = dir_readdir f has_bounce dir (pos + entry_size) s in
    if length bytes == entry_size
    then (if e.in_use then (some e.name, pos + entry_size) else rest)
    else (none, pos)

unfoldable pub dir_create : Bool → Bool → ℕ → ℕ → FileSys → Option (Bool × FileSys)
dir_create has_room written sector entry_cnt s =
    inode_create has_room written sector (entry_cnt * entry_size % 4294967296) s

-- `has_room` is whether calloc gives the `struct dir`.
unfoldable pub dir_open : Bool → Option ℕ → FileSys → Option (Option ℕ × FileSys)
dir_open has_room none s = some (none, s)
dir_open has_room (some inode) s =
    let closed = inode_close (some inode) s >>= λ t. some (none, t) in
    if has_room then some (some inode, s) else closed

abbrev pub root_dir_sector : ℕ
root_dir_sector = 1

unfoldable pub dir_open_root : Bool → Option ℕ → FileSys → Option (Option ℕ × FileSys)
unfolding dir_open
dir_open_root has_room memory s =
    let opened = inode_open memory root_dir_sector s in dir_open has_room opened.0 opened.1

abbrev pub dir_reopen : Bool → ℕ → FileSys → Option (Option ℕ × FileSys)
dir_reopen has_room dir s = dir_open has_room (some dir) (inode_reopen dir s)

abbrev pub dir_close : Option ℕ → FileSys → Option FileSys
dir_close dir s = inode_close dir s
