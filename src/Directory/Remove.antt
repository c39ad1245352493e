-- ===== src/Directory/Remove.antt =====
-- dir_lookup and dir_remove of pintos-kaist/filesys/directory.c on the names of a directory.
use mathlib.Core.Path.{subst}
use w12_13_vm.Common.{
  ℕ, ◌*◌, ◌<◌, ◌≡◌, ◌≢◌, ◌↔◌, refl, sym, ap, ◌∙◌, List, Bool, true, false, Option, none, some, ltb,
  ◌==◌, arith, inl, inr,
}
use w12_13_vm.Inode.{Disk, InodeDisk}
use w12_13_vm.FreeMap.{FreeMap}
use w12_13_vm.FileSys.{FileSys, Inode, is_zero, inode_open, inode_close, inode_remove}
use w12_13_vm.FileSys.Opens.{IsTable, Opened, inode_open-Opened}
use w12_13_vm.FileSys.Closes.{OwnsSectors, Closed, inode_close-Closed}
use w12_13_vm.Common.{count, update_here, update_else, some_inj}
use w12_13_vm.Directory.{
  DirEntry, byte_at, decode_entry, lookup, write_dir, erased, dir_lookup, dir_remove, finish_remove,
  remove_opened,
}
use w12_13_vm.Directory.Entries.{entry_cnt, raw_entry, entry, write-EntryWritten, decode_entry_ext}
use w12_13_vm.Directory.Search.{Looked, found, missing, lookup-Looked}
use w12_13_vm.Directory.Add.{Names, HasNamesOnce, Replaced, write-Replaced, not_named, named-Names}
use w12_13_vm.Directory.Names.{HasName, Names-kept, Names-back}

-- What the loop gives, in the words of names.
data Finds (disk : Disk) (d : InodeDisk) (name : List ℕ) : Option (List ℕ × ℕ) → Type 0 where
  nothing : ((t : ℕ) → ¬ HasName disk d name t) → Finds disk d name none
  first :
      (i : ℕ) (bytes : List ℕ)
      → decode_entry (byte_at bytes) ≡ entry disk d i
      → ((k : ℕ) → k < 20 → byte_at bytes k ≡ raw_entry disk d i k)
      → Names disk d name (entry disk d i).inode_sector i
      → Finds disk d name (some (bytes, 20 * i))

Looked-Finds :
    (disk : Disk) (d : InodeDisk) (name : List ℕ) (r : Option (List ℕ × ℕ))
    → Looked disk d name r
    → Finds disk d name r
Looked-Finds disk d name _ (missing h) = nothing (λ t v. not_named disk d name h v.0 t v.1)
Looked-Finds disk d name _ (found i bytes f same) =
    first i bytes (decode_entry_ext _ _ same) same (named-Names disk d name i f.in_range f.holds)

lookup-Finds :
    (dir : ℕ) (name : List ℕ) (s : FileSys)
    → Finds s.disk (s.inodes dir).inode_disk name (lookup true dir name s)
lookup-Finds dir name s = Looked-Finds _ _ name _ (lookup-Looked dir name s)

-- The sector of a name that stands once.
one_sector :
    (disk : Disk) (d : InodeDisk) (name : List ℕ) (t u i : ℕ)
    → HasNamesOnce disk d
    → HasName disk d name t
    → Names disk d name u i
    → t ≡ u
one_sector disk d name t u i once (j, v) w =
    let same : j ≡ i = once name t u j i v w in
    sym v.gives ∙ ap (λ k. (entry disk d k).inode_sector) same ∙ w.gives

-- dir_lookup as a look into the map from names to sectors.
pub record Looks (memory : Option ℕ) (d : InodeDisk) (name : List ℕ) (s : FileSys)
    (r : Option ℕ × FileSys) : Type 0 where
  pub finds : (t : ℕ) → HasName s.disk d name t → r ≡ inode_open memory t s
  pub misses : ((t : ℕ) → ¬ HasName s.disk d name t) → r ≡ (none, s)

Looks-of :
    (memory : Option ℕ) (dir : ℕ) (name : List ℕ) (s : FileSys) (r : Option (List ℕ × ℕ))
    → lookup true dir name s ≡ r
    → Finds s.disk (s.inodes dir).inode_disk name r
    → HasNamesOnce s.disk (s.inodes dir).inode_disk
    → Looks memory (s.inodes dir).inode_disk name s (dir_lookup true memory dir name s)
unfolding dir_lookup
Looks-of memory dir name s _ e (nothing h) once =
    rw (e, dir_lookup) (record { finds = λ t v. absurd (h t v); misses = λ k. refl })
Looks-of memory dir name s _ e (first i bytes same raw v) once =
    rw (e, dir_lookup, same)
      (record {
        finds = λ t w. ap (λ u. inode_open memory u s) (sym (one_sector _ _ name t _ i once w v));
        misses = λ k. absurd (k _ (i, v));
      })

-- dir_lookup, with memory for the bounce buffers and no name twice in the directory, opens the inode of the
-- sector that the directory has for the name. Without the name it gives no inode and changes nothing.
pub dir_lookup-Looks :
    (memory : Option ℕ) (dir : ℕ) (name : List ℕ) (s : FileSys)
    → HasNamesOnce s.disk (s.inodes dir).inode_disk
    → Looks memory (s.inodes dir).inode_disk name s (dir_lookup true memory dir name s)
dir_lookup-Looks memory dir name s = Looks-of memory dir name s _ refl (lookup-Finds dir name s)

erased_unused : (bytes : List ℕ) → (decode_entry (erased bytes)).in_use ≡ false
unfolding decode_entry
erased_unused bytes = refl

-- The names without one.
pub record Removed (disk disk' : Disk) (d : InodeDisk) (name : List ℕ) : Type 0 where
  pub once : HasNamesOnce disk' d
  pub names : (n : List ℕ) (t : ℕ) → HasName disk' d n t ↔ (n ≢ name) × HasName disk d n t

Replaced-Removed :
    (disk disk' : Disk) (d : InodeDisk) (name : List ℕ) (t i : ℕ) (e : DirEntry)
    → HasNamesOnce disk d
    → Names disk d name t i
    → e.in_use ≡ false
    → Replaced disk d i e disk'
    → Removed disk disk' d name
Replaced-Removed disk disk' d name t i e once v unused put =
    let back = Names-back disk disk' d i e put in
    let there = Names-kept disk disk' d i e put in
    let kept : (n : List ℕ) (u j : ℕ) → Names disk' d n u j → (i ≢ j) × Names disk d n u j =
      λ n u j w. elim (back n u j w) [ inl (p, x, q, y) ↦ cc | inr z ↦ z ] in
    record {
      once = λ n u u' j k w x. once n u u' j k (kept n u j w).1 (kept n u' k x).1;
      names = λ n u. (
        λ h.
            let (ne, w) = kept n u h.0 h.1 in
            (λ q. ne (once name t u i h.0 v (subst (λ m. Names disk d m u h.0) q w)), (h.0, w)),
        λ h.
            let (j, w) = h.1 in
            (
              j,
              there n u j (λ q. h.0 (sym w.same ∙ ap (λ k. (entry disk d k).name) (sym q) ∙ v.same))
                  w,
            ),
      );
    }

removed-OwnsSectors :
    (m : FreeMap) (i : Inode) → OwnsSectors m i → OwnsSectors m (record i { removed = true })
removed-OwnsSectors m i o = record {
  sized = o.sized;
  file = o.file;
  sector_in = o.sector_in;
  data_in = o.data_in;
  in_use = o.in_use;
  apart = o.apart;
}

removed-IsTable :
    (a : ℕ) (s : FileSys) (disk : Disk)
    → IsTable s
    → IsTable (inode_remove a (record s { disk = disk }))
removed-IsTable a s disk v = record {
  once = v.once;
  counted = λ b h. ground (arith, v.counted b h);
  unique = λ b c p q e. v.unique b c p q (ground arith);
}

-- The name's entry is erased on disk.
erase-Removed :
    (dir : ℕ) (name : List ℕ) (t i : ℕ) (bytes : List ℕ) (s : FileSys)
    → is_zero (s.inodes dir).deny_write_cnt ≡ true
    → HasNamesOnce s.disk (s.inodes dir).inode_disk
    → Names s.disk (s.inodes dir).inode_disk name t i
    → let w = write_dir true dir (erased bytes) (20 * i) s in
      ((w.0 == 20) ≡ true) × Removed s.disk w.1.disk (s.inodes dir).inode_disk name
erase-Removed dir name t i bytes s allowed once v =
    let d = (s.inodes dir).inode_disk in
    let w = write-EntryWritten d (erased bytes) i s.disk in
    let inside : ltb i (entry_cnt d) ≡ true = ground (arith, v.in_range) in
    rw allowed (
      w.done ∙ inside,
      Replaced-Removed s.disk _ d name t i _ once v (erased_unused bytes)
          (write-Replaced d (erased bytes) i s.disk _ w v.in_range),
    )

-- dir_remove of a name's entry, whose inode has been opened in `s1`.
pub record Drops (dir a : ℕ) (name : List ℕ) (s s1 s' : FileSys) : Type 0 where
  pub names : Removed s.disk s'.disk (s.inodes dir).inode_disk name
  pub directory : s'.inodes dir ≡ s.inodes dir
  pub closed : (disk : Disk) × Closed a (inode_remove a (record s1 { disk = disk })) s'

closes_removed :
    (a : ℕ) (s : FileSys) (disk : Disk)
    → IsTable s
    → 0 < count a s.open_inodes
    → OwnsSectors s.free_map (s.inodes a)
    → (s' : FileSys) × (inode_close (some a) (inode_remove a (record s { disk = disk })) ≡ some s')
      × Closed a (inode_remove a (record s { disk = disk })) s'
closes_removed a s disk v h owns =
    inode_close-Closed a (inode_remove a (record s { disk = disk })) (removed-IsTable a s disk v) h
      (λ r.
        subst (λ i. OwnsSectors s.free_map i) (sym (update_here s.inodes a _))
          (removed-OwnsSectors s.free_map (s.inodes a) owns))

-- What dir_remove does, in each case.
pub record Removes (memory : Option ℕ) (dir : ℕ) (name : List ℕ) (s : FileSys)
    (r : Option (Bool × FileSys)) : Type 0 where
  pub misses : ((t : ℕ) → ¬ HasName s.disk (s.inodes dir).inode_disk name t) → r ≡ some (false, s)
  pub fails :
      (t : ℕ)
      → HasName s.disk (s.inodes dir).inode_disk name t
      → (inode_open memory t s).0 ≡ none
      → r ≡ some (false, (inode_open memory t s).1)
  pub drops :
      (t a : ℕ) (s1 : FileSys)
      → HasName s.disk (s.inodes dir).inode_disk name t
      → inode_open memory t s ≡ (some a, s1)
      → a ≢ dir
      → OwnsSectors s1.free_map (s1.inodes a)
      → (s' : FileSys) × (r ≡ some (true, s')) × Drops dir a name s s1 s'

remove_opened-none :
    (dir ofs : ℕ) (bytes : List ℕ) (r : Option ℕ × FileSys)
    → r.0 ≡ none
    → remove_opened true dir bytes ofs r ≡ some (false, r.1)
unfolding remove_opened
remove_opened-none dir ofs bytes (none, s) e = refl
remove_opened-none dir ofs bytes (some a, s) e = cc

finish_remove_done :
    (a : ℕ) (w : ℕ × FileSys) (s' : FileSys)
    → (w.0 == 20) ≡ true
    → inode_close (some a) (inode_remove a w.1) ≡ some s'
    → finish_remove a w ≡ some (true, s')
unfolding finish_remove
finish_remove_done a w s' done e = rw done (rw e refl)

module _ (memory : Option ℕ) (dir : ℕ) (name : List ℕ) (s : FileSys) (v : IsTable s)
    (fresh : (a : ℕ) → memory ≡ some a → count a s.open_inodes ≡ 0)
    (allowed : is_zero (s.inodes dir).deny_write_cnt ≡ true)
    (once : HasNamesOnce s.disk (s.inodes dir).inode_disk) where
  dropped-Drops :
      (t a i : ℕ) (bytes : List ℕ) (s1 : FileSys)
      → lookup true dir name s ≡ some (bytes, 20 * i)
      → (decode_entry (byte_at bytes)).inode_sector ≡ t
      → Names s.disk (s.inodes dir).inode_disk name t i
      → inode_open memory t s ≡ (some a, s1)
      → a ≢ dir
      → OwnsSectors s1.free_map (s1.inodes a)
      → (s' : FileSys) × (dir_remove true memory dir name s ≡ some (true, s'))
        × Drops dir a name s s1 s'
  unfolding dir_remove remove_opened
  dropped-Drops t a i bytes s1 e sector w opened ne owns =
      let o : Opened memory t s (some a, s1) =
        subst (λ r. Opened memory t s r) opened (inode_open-Opened t s v memory fresh) in
      let same_dir : s1.inodes dir ≡ s.inodes dir = o.others dir (λ q. ne (some_inj q)) in
      let (done, erased_name) =
        erase-Removed dir name t i bytes s1 (ap (λ x. is_zero x.deny_write_cnt) same_dir ∙ allowed)
          (subst (λ k. HasNamesOnce k (s1.inodes dir).inode_disk) (sym o.same_disk)
            (subst (λ x. HasNamesOnce s.disk x.inode_disk) (sym same_dir) once))
          (subst (λ k. Names k (s1.inodes dir).inode_disk name t i) (sym o.same_disk)
            (subst (λ x. Names s.disk x.inode_disk name t i) (sym same_dir) w)) in
      let disk = (write_dir true dir (erased bytes) (20 * i) s1).1.disk in
      let (s', closed_eq, closed) = closes_removed a s1 disk o.table (o.of_sector a refl).0 owns in
      (
        s',
        rw (e, dir_remove, sector, opened)
            (finish_remove_done a (write_dir true dir (erased bytes) (20 * i) s1) s' done
              closed_eq),
        record {
          names =
              subst (λ k. Removed k s'.disk (s.inodes dir).inode_disk name) o.same_disk
                (subst (λ k. Removed s1.disk k (s.inodes dir).inode_disk name)
                  (sym closed.same_disk)
                  (subst (λ x. Removed s1.disk disk x.inode_disk name) same_dir erased_name));
          directory = closed.others dir ne ∙ update_else s1.inodes a _ dir ne ∙ same_dir;
          closed = (disk, closed);
        },
      )

  Removes-of :
      (r : Option (List ℕ × ℕ))
      → lookup true dir name s ≡ r
      → Finds s.disk (s.inodes dir).inode_disk name r
      → Removes memory dir name s (dir_remove true memory dir name s)
  unfolding dir_remove
  Removes-of _ e (nothing h) = record {
    misses = λ k. rw (e, dir_remove) refl;
    fails = λ t k. absurd (h t k);
    drops = λ t a s1 k. absurd (h t k);
  }
  Removes-of _ e (first i bytes same raw w) =
      let sector = ap (λ (x : DirEntry). x.inode_sector) same in
      record {
        misses = λ k. absurd (k _ (i, w));
        fails = λ t k none_open.
            let one = one_sector _ _ name t _ i once k w in
            rw (e, dir_remove, sector ∙ sym one)
              (remove_opened-none dir (20 * i) bytes (inode_open memory t s) none_open);
        drops = λ t a s1 k.
            let one = one_sector _ _ name t _ i once k w in
            dropped-Drops t a i bytes s1 e (sector ∙ sym one)
              (subst (λ u. Names s.disk (s.inodes dir).inode_disk name u i) (sym one) w);
      }

  -- dir_remove, with memory for the bounce buffers and writes to the directory allowed, for a directory
  -- that has no name twice. Without the name it fails and changes nothing; where the name's inode cannot be
  -- opened, it fails as well. Else it succeeds: the directory's map from names to sectors loses the name and
  -- nothing else, and the inode is marked as removed and closed, which frees its sectors if it has no other
  -- opener. The last holds for an inode that is not the directory's and whose sectors are in use, while the
  -- free map's file is open.
  pub dir_remove-Removes : Removes memory dir name s (dir_remove true memory dir name s)
  dir_remove-Removes = Removes-of _ refl (lookup-Finds dir name s)
