-- ===== src/Directory/Add.antt =====
-- dir_add of pintos-kaist/filesys/directory.c on the names of a directory.
use mathlib.Core.Path.{subst}
use w12_13_vm.Common.{
  ℕ, ◌<◌, ◌≡◌, ◌≢◌, refl, sym, ◌∙◌, List, Bool, true, false, Option, ltb, ◌==◌, arith, Bool-cases,
  inl, inr, length,
}
use w12_13_vm.Inode.{Disk, InodeDisk}
use w12_13_vm.FileSys.{FileSys, is_zero}
use w12_13_vm.Directory.{DirEntry, decode_entry, same_name, entry_bytes, lookup, free_slot, dir_add}
use w12_13_vm.Directory.Entries.{
  entry_cnt, entry, EntryWritten, write-EntryWritten, decode_entry_ext, IsName,
  decode_entry-entry_bytes, same_name_iff, same_name_refl,
}
use w12_13_vm.Directory.Search.{
  named, Looked, found, missing, lookup-Looked, FreeSlot, free_slot-FreeSlot,
}

-- The directory's entry `i` gives the sector for the name.
pub record Names (disk : Disk) (d : InodeDisk) (name : List ℕ) (sector i : ℕ) : Type 0 where
  pub in_range : i < entry_cnt d
  pub used : (entry disk d i).in_use ≡ true
  pub same : (entry disk d i).name ≡ name
  pub gives : (entry disk d i).inode_sector ≡ sector

-- No two entries in use have one name.
abbrev pub HasNamesOnce : Disk → InodeDisk → Type 0
HasNamesOnce disk d = (n : List ℕ) (s t i j : ℕ) → Names disk d n s i → Names disk d n t j → i ≡ j

-- The entries once one of them has been replaced.
pub record Replaced (disk : Disk) (d : InodeDisk) (i : ℕ) (e : DirEntry) (disk' : Disk)
    : Type 0 where
  pub here : entry disk' d i ≡ e
  pub others : (j : ℕ) → j < entry_cnt d → i ≢ j → entry disk' d j ≡ entry disk d j

pub write-Replaced :
    (d : InodeDisk) (buffer : ℕ → ℕ) (i : ℕ) (disk : Disk) (r : ℕ × Disk)
    → EntryWritten d buffer i disk r
    → i < entry_cnt d
    → Replaced disk d i (decode_entry buffer) r.1
write-Replaced d buffer i disk r w h =
    let own : (i == i) ≡ true = ground arith in
    record {
      here = decode_entry_ext _ _ (λ k lt. w.new_raw i k h lt ∙ rw own refl);
      others = λ j lt ne.
          let other : (i == j) ≡ false = ground (arith, ne) in
          decode_entry_ext _ _ (λ k less. w.new_raw j k lt less ∙ rw other refl);
    }

-- dir_add's results.
pub data Added (d : InodeDisk) (name : List ℕ) (sector : ℕ) (s : FileSys)
    : Bool × FileSys → Type 0 where
  taken : (t i : ℕ) → Names s.disk d name t i → Added d name sector s (false, s)
  full :
      (disk : Disk)
      → ((j t : ℕ) → ¬ Names s.disk d name t j)
      → ((j : ℕ) → j < entry_cnt d → (entry s.disk d j).in_use ≡ true)
      → ((j : ℕ) → j < entry_cnt d → entry disk d j ≡ entry s.disk d j)
      → Added d name sector s (false, record s { disk = disk })
  added :
      (disk : Disk) (i : ℕ)
      → i < entry_cnt d
      → ((j t : ℕ) → ¬ Names s.disk d name t j)
      → (entry s.disk d i).in_use ≡ false
      → Replaced s.disk d i (record { inode_sector = sector; name = name; in_use = true }) disk
      → Added d name sector s (true, record s { disk = disk })

pub named-Names :
    (disk : Disk) (d : InodeDisk) (name : List ℕ) (i : ℕ)
    → i < entry_cnt d
    → named disk d name i ≡ true
    → Names disk d name (entry disk d i).inode_sector i
named-Names disk d name i lt h = record {
  in_range = lt;
  used = ground arith;
  same = sym (same_name_iff name (entry disk d i).name (ground arith));
  gives = refl;
}

pub Names-named :
    (disk : Disk) (d : InodeDisk) (name : List ℕ) (sector i : ℕ)
    → Names disk d name sector i
    → named disk d name i ≡ true
Names-named disk d name sector i v =
    rw v.used (subst (λ n. same_name name n ≡ true) (sym v.same) (same_name_refl name))

pub not_named :
    (disk : Disk) (d : InodeDisk) (name : List ℕ)
    → ((j : ℕ) → j < entry_cnt d → named disk d name j ≡ false)
    → (j t : ℕ) → ¬ Names disk d name t j
not_named disk d name h j t v =
    let yes_named = Names-named disk d name t j v in
    let no_name = h j v.in_range in cc (yes_named, no_name)

written-Added :
    (d : InodeDisk) (name : List ℕ) (sector : ℕ) (s : FileSys) (slot : ℕ × (ℕ → ℕ)) (r : ℕ × Disk)
    → IsName name
    → sector < 4294967296
    → ((j t : ℕ) → ¬ Names s.disk d name t j)
    → (f : FreeSlot s.disk d slot) → EntryWritten d (entry_bytes name sector slot.1) f.slot s.disk r
    → Added d name sector s (r.0 == 20, record s { disk = r.1 })
written-Added d name sector s slot r v fits new f w =
    let e = decode_entry-entry_bytes name sector slot.1 v fits in
    elim (Bool-cases (ltb f.slot (entry_cnt d))) [
      | inl h ↦
          let inside : f.slot < entry_cnt d = ground arith in
          let put = write-Replaced d _ f.slot s.disk r w inside in
          rw (w.done, h)
            (added r.1 f.slot inside new (f.free inside)
              (record { here = put.here ∙ e; others = put.others }))
      | inr h ↦
          let end : f.slot ≡ entry_cnt d = ground (arith, f.at_most) in
          rw (w.done, h)
            (full r.1 new (λ j lt. f.before j (omega (arith, end)))
              (λ j lt.
                let other : (f.slot == j) ≡ false = ground (arith, end) in
                decode_entry_ext _ _ (λ k less. w.new_raw j k lt less ∙ rw other refl)))
    ]

by_lookup-Added :
    (start : ℕ → ℕ) (dir : ℕ) (name : List ℕ) (sector : ℕ) (s : FileSys) (r : Option (List ℕ × ℕ))
    → lookup true dir name s ≡ r
    → Looked s.disk (s.inodes dir).inode_disk name r
    → IsName name
    → sector < 4294967296
    → is_zero (s.inodes dir).deny_write_cnt ≡ true
    → Added (s.inodes dir).inode_disk name sector s (dir_add true start dir name sector s)
unfolding dir_add
by_lookup-Added start dir name sector s _ e (found i bytes first same) v fits allowed =
    let nonempty : (length name == 0) ≡ false = ground (arith, v.some_bytes) in
    let short : ltb 14 (length name) ≡ false = ground (arith, v.fits) in
    let d = (s.inodes dir).inode_disk in
    rw (nonempty, short, e) (taken _ i (named-Names s.disk d name i first.in_range first.holds))
by_lookup-Added start dir name sector s _ e (missing none_named) v fits allowed =
    let nonempty : (length name == 0) ≡ false = ground (arith, v.some_bytes) in
    let short : ltb 14 (length name) ≡ false = ground (arith, v.fits) in
    let d = (s.inodes dir).inode_disk in
    let slot = free_slot d.length true s.disk d start 0 in
    let f =
      free_slot-FreeSlot s.disk d d.length start 0 (omega arith) (omega arith)
        (λ j lt. absurd (omega arith)) in
    let w = write-EntryWritten d (entry_bytes name sector slot.1) f.slot s.disk in
    rw (nonempty, short, e, allowed, f.place)
      (written-Added d name sector s slot _ v fits (not_named s.disk d name none_named) f w)

-- dir_add of a name of 1 to 14 bytes, with memory for the bounce buffers and writes allowed. If an entry
-- has the name, it fails and changes nothing; if all entries are in use, it fails and keeps them. Else the
-- first unused entry becomes the name's, with the sector, and the other entries stay.
pub dir_add-Added :
    (start : ℕ → ℕ) (dir : ℕ) (name : List ℕ) (sector : ℕ) (s : FileSys)
    → IsName name
    → sector < 4294967296
    → is_zero (s.inodes dir).deny_write_cnt ≡ true
    → Added (s.inodes dir).inode_disk name sector s (dir_add true start dir name sector s)
dir_add-Added start dir name sector s =
    by_lookup-Added start dir name sector s _ refl (lookup-Looked dir name s)
