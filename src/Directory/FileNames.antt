-- ===== src/Directory/FileNames.antt =====
-- The operations on files by their names of pintos-kaist/filesys/filesys.c, in the root directory.
mod Tests
use w12_13_vm.Common.{
  ℕ, zero, suc, List, [], ◌∷◌, Bool, true, false, not, ◌&&◌, Option, none, some, ltb, ◌==◌,
  if◌then◌else◌, ◌>>=◌, length,
}
use w12_13_vm.FreeMap.{free_map_allocate, free_map_release}
use w12_13_vm.FileSys.{FileSys, inode_create}
use w12_13_vm.Files.{file_open}
use w12_13_vm.Directory.{dir_add, dir_lookup, dir_remove, dir_open_root, dir_close}

-- What the calls of malloc and calloc give, and whether bitmap_write gets the map onto the disk, the first
-- time and the second.
pub record Allocs : Type 0 where
  pub dir_room : Bool
  pub dir_memory : Option ℕ
  pub inode_room : Bool
  pub inode_memory : Option ℕ
  pub file_memory : Option ℕ
  pub has_bounce : Bool
  pub written : Bool
  pub written_again : Bool

-- The conditions of filesys_create from left to right: the success, and `inode_sector`. `e` is as for
-- dir_add.
unfoldable pub create_in :
    Allocs → (ℕ → ℕ) → Option ℕ → Option (List ℕ) → ℕ → FileSys → Option (Bool × ℕ × FileSys)
create_in m e none name initial_size s = some (false, 0, s)
create_in m e (some dir) none initial_size s = some (false, 0, s)
create_in m e (some dir) (some name) initial_size s =
    let made = free_map_allocate m.written 1 s.free_map >>= λ got. elim got.0 [
      | none ↦ some (false, 0, record s { free_map = got.1 })
      | some sector ↦ (do
        created ←
            inode_create m.inode_room m.written_again sector initial_size
              (record s { free_map = got.1 })
        let added = dir_add m.has_bounce e dir name sector created.1
        some (if created.0 then (added.0, sector, added.1) else (false, sector, created.1)))
    ] in
    if ltb 14 (length name) then some (false, 0, s) else made

unfoldable pub filesys_create :
    Allocs → (ℕ → ℕ) → Option (List ℕ) → ℕ → FileSys → Option (Bool × FileSys)
filesys_create m e name initial_size s = do
  root ← dir_open_root m.dir_room m.dir_memory s
  (success, inode_sector, s1) ← create_in m e root.0 name initial_size root.1
  let released =
      free_map_release inode_sector 1 s1.free_map >>= λ r. some (record s1 { free_map = r })
  s2 ← if not success && not (inode_sector == 0) then released else some s1
  s3 ← dir_close root.0 s2
  some (success, s3)

-- The inode of the name, with the root directory closed again.
unfoldable pub filesys_open : Allocs → List ℕ → FileSys → Option (Option ℕ × FileSys)
filesys_open m name s = do
  root ← dir_open_root m.dir_room m.dir_memory s
  let looked : Option ℕ × FileSys = elim root.0 [
    | none ↦ (none, root.1)
    | some dir ↦ dir_lookup m.has_bounce m.inode_memory dir name root.1
  ]
  closed ← dir_close root.0 looked.1
  elim looked.0 [
    | none ↦ some (none, closed)
    | some inode ↦ file_open m.file_memory (some inode) closed
  ]

unfoldable pub filesys_remove : Allocs → List ℕ → FileSys → Option (Bool × FileSys)
filesys_remove m name s = do
  root ← dir_open_root m.dir_room m.dir_memory s
  let tried : Option (Bool × FileSys) = elim root.0 [
    | none ↦ some (false, root.1)
    | some dir ↦ dir_remove m.has_bounce m.inode_memory dir name root.1
  ]
  removed ← tried
  closed ← dir_close root.0 removed.1
  some (removed.0, closed)
