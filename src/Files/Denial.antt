-- ===== src/Files/Denial.antt =====
-- A file that denies writes, pintos-kaist/filesys/file.c: no file of the same inode can be written until
-- it allows them again.
use w12_13_vm.Common.{ℕ, ◌≡◌, refl, Bool, true, false, not, ◌&&◌, some, arith}
use w12_13_vm.Common.Int.{ℤ, pos, ◌+ℤ◌, ◌-ℤ◌, ltb_ℤ, +ℤ_parts, -ℤ_parts, eq_of_parts}
use w12_13_vm.Inode.{inode_write_at}
use w12_13_vm.FileSys.{FileSys, set_file, set_inode, is_zero, inode_deny_write, inode_allow_write}
use w12_13_vm.Files.{file_write_at, file_deny_write, file_allow_write}

-- After file_deny_write of `f` no file of its inode can be written, and file_allow_write gives back the
-- inode and the file.
pub record Denied (f : ℕ) (s s' : FileSys) : Type 0 where
  pub no_write :
      (has_bounce : Bool) (g : ℕ) (buffer : ℕ → ℕ) (size file_ofs : ℕ)
      → (s.files g).inode ≡ (s.files f).inode
      → file_write_at has_bounce g buffer size file_ofs s' ≡ (0, s')
  pub allowed : FileSys
  pub allow : file_allow_write f s' ≡ some allowed
  pub same_inodes : (a : ℕ) → allowed.inodes a ≡ s.inodes a
  pub same_files : (g : ℕ) → allowed.files g ≡ s.files g
  pub same_disk : allowed.disk ≡ s.disk

-- The state after file_deny_write.
abbrev denying : ℕ → FileSys → FileSys
denying f s =
    let a = (s.files f).inode in
    let t = set_file s f (record (s.files f) { deny_write = true }) in
    set_inode t a (record (s.inodes a) { deny_write_cnt = (s.inodes a).deny_write_cnt +ℤ pos 1 })

abbrev allowing : ℕ → FileSys → FileSys
allowing f s =
    let a = (s.files f).inode in
    let t = set_file s f (record (s.files f) { deny_write = false }) in
    set_inode t a (record (s.inodes a) { deny_write_cnt = (s.inodes a).deny_write_cnt -ℤ pos 1 })

no_write_lem :
    (has_bounce : Bool) (g : ℕ) (buffer : ℕ → ℕ) (size file_ofs a : ℕ) (s : FileSys) (n : ℤ)
    → (s.files g).inode ≡ a
    → (s.inodes a).deny_write_cnt ≡ n
    → is_zero n ≡ false
    → file_write_at has_bounce g buffer size file_ofs s ≡ (0, s)
unfolding file_write_at inode_write_at
no_write_lem has_bounce g buffer size file_ofs a s n e f h = rw (e, f, h) refl

allow_lem :
    (f a : ℕ) (s : FileSys) (n m : ℤ)
    → (s.files f).inode ≡ a
    → (s.files f).deny_write ≡ true
    → (s.inodes a).deny_write_cnt ≡ n
    → (s.inodes a).open_cnt ≡ m
    → (ltb_ℤ (pos 0) n && not (ltb_ℤ m n)) ≡ true
    → file_allow_write f s ≡ some (allowing f s)
unfolding file_allow_write inode_allow_write
allow_lem f a s n m e denies x y h = rw (denies, e, x, y, h) refl

back_again : (n : ℤ) → (n +ℤ pos 1) -ℤ pos 1 ≡ n
back_again n = eq_of_parts _ n (omega (arith, +ℤ_parts n (pos 1), -ℤ_parts (n +ℤ pos 1) (pos 1)))

module _ (f : ℕ) (s : FileSys) (none_yet : (s.files f).deny_write ≡ false)
    (not_negative : ltb_ℤ (s.inodes (s.files f).inode).deny_write_cnt (pos 0) ≡ false)
    (room : ltb_ℤ (s.inodes (s.files f).inode).deny_write_cnt (s.inodes (s.files f).inode).open_cnt
      ≡ true) where
  -- file_deny_write of a file that allows writes, where fewer openers of its inode deny writes than there
  -- are, does not fail. From then on a write through any file of the inode writes nothing, until
  -- file_allow_write, which does not fail, gives back the inodes and the files from before.
  pub file_deny_write-Denied : (s' : FileSys) × (file_deny_write f s ≡ some s') × Denied f s s'
  unfolding file_deny_write inode_deny_write
  file_deny_write-Denied =
      let i = s.inodes (s.files f).inode in
      let denied = i.deny_write_cnt +ℤ pos 1 in
      let denied_parts = +ℤ_parts i.deny_write_cnt (pos 1) in
      let more : ltb_ℤ i.open_cnt denied ≡ false = ground (arith, denied_parts) in
      (
        denying f s,
        rw (none_yet, more) refl,
        record {
          no_write = λ has_bounce g buffer size file_ofs same.
              no_write_lem has_bounce g buffer size file_ofs (s.files f).inode (denying f s) denied
                (ground (arith, same)) (ground arith) (ground (arith, denied_parts));
          allowed = allowing f (denying f s);
          allow =
              allow_lem f (s.files f).inode (denying f s) denied i.open_cnt (ground arith)
                (ground arith) (ground arith) (ground arith) (ground (arith, denied_parts));
          same_inodes = λ a. ground (arith, back_again i.deny_write_cnt);
          same_files = λ g. ground (arith, none_yet);
          same_disk = refl;
        },
      )
