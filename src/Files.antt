-- ===== src/Files.antt =====
-- The files of pintos-kaist/filesys/file.c: an open inode with a position. A NULL inode or file is
-- `none` where the source tests for it.
pub mod Denial
pub mod Closing
pub mod Reading
mod Examples
use w12_13_vm.Common.{
  ℕ, ◌+◌, ◌-◌, List, [], ◌∷◌, Bool, true, false, not, Option, none, some, if◌then◌else◌, ◌>>=◌,
  length, update,
}
use w12_13_vm.Common.Int.{ℤ, pos, ◌+ℤ◌, ◌-ℤ◌}
use w12_13_vm.Inode.{inode_read_at, inode_write_at}
use w12_13_vm.FileSys.{
  FileSys, OpenFile, Inode, set_file, inode_reopen, inode_close, inode_deny_write,
  inode_allow_write, inode_length, is_zero,
}

abbrev pub increase_dup_count : ℕ → FileSys → FileSys
increase_dup_count f s =
    set_file s f (record (s.files f) { dup_count = (s.files f).dup_count +ℤ pos 1 })

abbrev pub decrease_dup_count : ℕ → FileSys → FileSys
decrease_dup_count f s =
    set_file s f (record (s.files f) { dup_count = (s.files f).dup_count -ℤ pos 1 })

abbrev pub check_dup_count : ℕ → FileSys → ℤ
check_dup_count f s = (s.files f).dup_count

abbrev pub increase_mapping_count : ℕ → FileSys → FileSys
increase_mapping_count f s =
    set_file s f (record (s.files f) { mapping_cnt = (s.files f).mapping_cnt +ℤ pos 1 })

abbrev pub decrease_mapping_count : ℕ → FileSys → FileSys
decrease_mapping_count f s =
    set_file s f (record (s.files f) { mapping_cnt = (s.files f).mapping_cnt -ℤ pos 1 })

abbrev pub check_mapping_count : ℕ → FileSys → ℤ
check_mapping_count f s = (s.files f).mapping_cnt

-- calloc gives the address `memory`, and the memory is all 0.
unfoldable pub file_open : Option ℕ → Option ℕ → FileSys → Option (Option ℕ × FileSys)
file_open memory none s = some (none, s)
file_open none (some a) s = do s' ← inode_close (some a) s; some (none, s')
file_open (some f) (some a) s = some (
  some f,
  set_file s f (record {
    inode = a;
    file_pos = 0;
    deny_write = false;
    dup_count = pos 1;
    mapping_cnt = pos 0;
  }),
)

unfoldable pub file_reopen : Option ℕ → ℕ → FileSys → Option (Option ℕ × FileSys)
unfolding file_open
file_reopen memory f s = let a = (s.files f).inode in file_open memory (some a) (inode_reopen a s)

unfoldable pub file_deny_write : ℕ → FileSys → Option FileSys
file_deny_write f s =
    let x = s.files f in
    let denied = inode_deny_write x.inode (set_file s f (record x { deny_write = true })) in
    if x.deny_write then some s else denied

unfoldable pub file_allow_write : ℕ → FileSys → Option FileSys
file_allow_write f s =
    let x = s.files f in
    let allowed = inode_allow_write x.inode (set_file s f (record x { deny_write = false })) in
    if x.deny_write then allowed else some s

unfoldable pub file_duplicate : Option ℕ → ℕ → FileSys → Option (Option ℕ × FileSys)
unfolding file_reopen file_deny_write
file_duplicate memory f s = do
  opened ← file_reopen memory f s
  elim opened.0 [
    | none ↦ some (none, opened.1)
    | some n ↦
        let old = opened.1.files f in
        let s' = set_file opened.1 n (record (opened.1.files n) { file_pos = old.file_pos }) in
        let denied = file_deny_write n s' >>= λ t. some (some n, t) in
        if old.deny_write then denied else some (some n, s')
  ]

-- The memory of a closed file goes back to malloc.
unfoldable pub file_close : Option ℕ → FileSys → Option FileSys
unfolding file_allow_write
file_close none s = some s
file_close (some f) s = do s' ← file_allow_write f s; inode_close (some (s.files f).inode) s'

-- The bytes that go into the buffer.
unfoldable pub file_read_at : Bool → ℕ → ℕ → ℕ → FileSys → List ℕ
file_read_at has_bounce f size file_ofs s =
    inode_read_at has_bounce s.disk (s.inodes (s.files f).inode).inode_disk size file_ofs

unfoldable pub file_read : Bool → ℕ → ℕ → FileSys → List ℕ × FileSys
unfolding file_read_at
file_read has_bounce f size s =
    let bytes = file_read_at has_bounce f size (s.files f).file_pos s in
    (bytes, set_file s f (record (s.files f) { file_pos = (s.files f).file_pos + length bytes }))

-- How many bytes of the buffer were written.
unfoldable pub file_write_at : Bool → ℕ → (ℕ → ℕ) → ℕ → ℕ → FileSys → ℕ × FileSys
file_write_at has_bounce f buffer size file_ofs s =
    let i = s.inodes (s.files f).inode in
    let (bytes_written, disk) =
      inode_write_at (not (is_zero i.deny_write_cnt)) has_bounce i.inode_disk buffer size file_ofs
        s.disk in
    (bytes_written, record s { disk = disk })

unfoldable pub file_write : Bool → ℕ → (ℕ → ℕ) → ℕ → FileSys → ℕ × FileSys
unfolding file_write_at
file_write has_bounce f buffer size s =
    let (bytes_written, s') = file_write_at has_bounce f buffer size (s.files f).file_pos s in
    (
      bytes_written,
      set_file s' f (record (s'.files f) { file_pos = (s'.files f).file_pos + bytes_written }),
    )

abbrev pub file_get_inode : ℕ → FileSys → ℕ
file_get_inode f s = (s.files f).inode

abbrev pub file_length : ℕ → FileSys → ℕ
file_length f s = inode_length (s.files f).inode s

-- The new position is not negative.
abbrev pub file_seek : ℕ → ℕ → FileSys → FileSys
file_seek f new_pos s = set_file s f (record (s.files f) { file_pos = new_pos })

abbrev pub file_tell : ℕ → FileSys → ℕ
file_tell f s = (s.files f).file_pos
