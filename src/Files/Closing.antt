-- ===== src/Files/Closing.antt =====
-- file_close of pintos-kaist/filesys/file.c closes the file's inode once.
use w12_13_vm.Common.{
  ℕ, ◌<◌, ◌≡◌, ◌≢◌, refl, sym, ap, ◌∙◌, Bool, true, false, not, ◌&&◌, some, if◌then◌else◌, arith,
  update_here, update_else, count,
}
use w12_13_vm.Common.Int.{ℤ, pos, ◌-ℤ◌, ltb_ℤ}
use w12_13_vm.FreeMap.{FreeMap}
use w12_13_vm.FileSys.{FileSys, Inode, set_file, set_inode, inode_allow_write}
use w12_13_vm.FileSys.Opens.{IsTable}
use w12_13_vm.FileSys.Closes.{OwnsSectors, inode_close-Closed}
use w12_13_vm.Files.{file_allow_write, file_close}

-- An open file: its inode is in the table, its denial of writes is counted there, and the sectors of a
-- removed inode are in use.
pub record IsOpenFile (f : ℕ) (s : FileSys) : Type 0 where
  pub is_in : 0 < count (s.files f).inode s.open_inodes
  pub denial :
      (s.files f).deny_write ≡ true
      → (ltb_ℤ (pos 0) (s.inodes (s.files f).inode).deny_write_cnt
          && not (
              ltb_ℤ
                (s.inodes (s.files f).inode).open_cnt
                (s.inodes (s.files f).inode).deny_write_cnt))
        ≡ true
  pub owns :
      (s.inodes (s.files f).inode).removed ≡ true
      → OwnsSectors s.free_map (s.inodes (s.files f).inode)

-- An inode with another count of denials.
abbrev with_denials : ℤ → Inode → Inode
with_denials n i = record i { deny_write_cnt = n }

with_denials-OwnsSectors :
    (m : FreeMap) (n : ℤ) (i : Inode) → OwnsSectors m i → OwnsSectors m (with_denials n i)
with_denials-OwnsSectors m n i o = record {
  sized = o.sized;
  file = o.file;
  sector_in = o.sector_in;
  data_in = o.data_in;
  in_use = o.in_use;
  apart = o.apart;
}

-- The state after file_allow_write.
abbrev allowed : ℕ → Bool → FileSys → FileSys
allowed f deny s =
    let a = (s.files f).inode in
    if deny
    then set_inode (set_file s f (record (s.files f) { deny_write = false })) a
        (with_denials ((s.inodes a).deny_write_cnt -ℤ pos 1) (s.inodes a))
    else s

-- What file_close of `f` does.
pub record FileClosed (f : ℕ) (s s' : FileSys) : Type 0 where
  pub table : IsTable s'
  pub openers :
      (s'.inodes (s.files f).inode).open_cnt ≡ (s.inodes (s.files f).inode).open_cnt -ℤ pos 1
  pub same_counts : (g : ℕ) → (s'.files g).dup_count ≡ (s.files g).dup_count
  pub others : (g : ℕ) → f ≢ g → s'.files g ≡ s.files g

same-IsTable :
    (s s' : FileSys)
    → s'.open_inodes ≡ s.open_inodes
    → ((a : ℕ) → (s'.inodes a).sector ≡ (s.inodes a).sector)
    → ((a : ℕ) → (s'.inodes a).open_cnt ≡ (s.inodes a).open_cnt)
    → IsTable s
    → IsTable s'
same-IsTable s s' o x c v = record {
  once = λ a. rw o (v.once a);
  counted = λ a h. rw (c a) (v.counted a (rw o at h));
  unique = λ a b p q e. v.unique a b (rw o at p) (rw o at q) (sym (x a) ∙ e ∙ x b);
}

module _ (f : ℕ) (s : FileSys) (v : IsTable s) (h : IsOpenFile f s) where
  allow_lem :
      (deny : Bool) → (s.files f).deny_write ≡ deny → file_allow_write f s ≡ some (allowed f deny s)
  unfolding file_allow_write inode_allow_write
  allow_lem true e = rw (e, h.denial e) refl
  allow_lem false e = rw e refl

  -- Both states have the same openers.
  allowed_same :
      (deny : Bool)
      → ((allowed f deny s).open_inodes ≡ s.open_inodes)
        × ((a : ℕ) → ((allowed f deny s).inodes a).sector ≡ (s.inodes a).sector)
        × ((a : ℕ) → ((allowed f deny s).inodes a).open_cnt ≡ (s.inodes a).open_cnt)
  allowed_same true = (refl, λ a. ground arith, λ a. ground arith)
  allowed_same false = (refl, λ a. refl, λ a. refl)

  allowed_owns :
      (deny : Bool)
      → ((allowed f deny s).inodes (s.files f).inode).removed ≡ true
      → OwnsSectors (allowed f deny s).free_map ((allowed f deny s).inodes (s.files f).inode)
  allowed_owns true e =
      let a = (s.files f).inode in
      let i = with_denials ((s.inodes a).deny_write_cnt -ℤ pos 1) (s.inodes a) in
      rw (update_here s.inodes a i) (
        with_denials-OwnsSectors s.free_map _ (s.inodes a)
          (h.owns (rw (update_here s.inodes a i) at e)))
  allowed_owns false e = h.owns e

  allowed_files :
      (deny : Bool)
      → ((g : ℕ) → ((allowed f deny s).files g).dup_count ≡ (s.files g).dup_count)
        × ((g : ℕ) → f ≢ g → (allowed f deny s).files g ≡ s.files g)
  allowed_files true = (λ g. ground arith, λ g ne. update_else s.files f _ g ne)
  allowed_files false = (λ g. refl, λ g ne. refl)

  closed-of :
      (deny : Bool)
      → (s.files f).deny_write ≡ deny
      → (s' : FileSys) × (file_close (some f) s ≡ some s') × FileClosed f s s'
  unfolding file_close
  closed-of deny e =
      let a = (s.files f).inode in
      let t = allowed f deny s in
      let (o, x, c) = allowed_same deny in
      let (d, n) = allowed_files deny in
      let (s', r, w) =
        inode_close-Closed a t (same-IsTable s t o x c v) (rw o h.is_in) (allowed_owns deny) in
      (
        s',
        rw (allow_lem deny e, file_close) r,
        record {
          table = w.table;
          openers = w.openers ∙ ap (λ z. z -ℤ pos 1) (c a);
          same_counts = λ g. ap (λ fs. (fs g).dup_count) w.same_files ∙ d g;
          others = λ g ne. ap (λ fs. fs g) w.same_files ∙ n g ne;
        },
      )

  -- file_close of an open file does not fail and keeps the table of open inodes; the file's inode has one
  -- opener less. The other files are as before, and so are the counts of all descriptors.
  pub file_close-FileClosed : (s' : FileSys) × (file_close (some f) s ≡ some s') × FileClosed f s s'
  file_close-FileClosed = closed-of (s.files f).deny_write refl
