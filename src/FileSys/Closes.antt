-- ===== src/FileSys/Closes.antt =====
-- inode_close of pintos-kaist/filesys/inode.c keeps the table of open inodes, and gives back the sectors
-- of a removed inode with its last opener.
use w12_13_vm.Common.{
  ℕ, ◌+◌, ◌-◌, ◌≤◌, ◌<◌, ◌≡◌, ◌≢◌, refl, sym, ap, ◌∙◌, List, [], ◌∷◌, Bool, true, false, ◌&&◌, ◌||◌,
  none, some, ◌==◌, if◌then◌else◌, arith, count, Bool-cases, if_true, inl, inr,
}
use w12_13_vm.Common.Int.{ℤ, pos, ◌-ℤ◌, ltb_ℤ, -ℤ_parts}
use w12_13_vm.Bitmap.Multiple.{IsSized}
use w12_13_vm.FreeMap.{FreeMap}
use w12_13_vm.FreeMap.Sectors.{used, sectors, within, free_map_release-frees}
use w12_13_vm.Inode.{bytes_to_sectors}
use w12_13_vm.FileSys.{FileSys, Inode, remove_inode, deallocate, inode_close, is_zero, set_inode}
use w12_13_vm.FileSys.Opens.{IsTable}

count-remove_inode :
    (a : ℕ) (as' : List ℕ) (b : ℕ)
    → count b (remove_inode a as') ≡ count b as' - (if a == b then 1 else 0)
unfolding remove_inode
count-remove_inode a [] b = ground arith
count-remove_inode a (c ∷ cs) b = elim (Bool-cases (a == c)) [
  | inl h ↦ rw h (ground arith)
  | inr h ↦ rw h (ground (arith, count-remove_inode a cs b))
]

-- One opener less.
abbrev pub dropped : Inode → Inode
dropped i = record i { open_cnt = i.open_cnt -ℤ pos 1 }

-- The sectors of an inode: its own, and those of its data.
abbrev pub of_inode : Inode → ℕ → Bool
of_inode i k = (k == i.sector) || within i.inode_disk.start (bytes_to_sectors i.inode_disk.length) k

-- The sectors of an inode are in use, and its own is not one of its data; and the free map's file is
-- open.
pub record OwnsSectors (m : FreeMap) (i : Inode) : Type 0 where
  pub sized : IsSized m.free_map
  pub file : m.has_file ≡ true
  pub sector_in : i.sector < sectors m
  pub data_in : i.inode_disk.start + bytes_to_sectors i.inode_disk.length ≤ sectors m
  pub in_use : (k : ℕ) → of_inode i k ≡ true → used m k ≡ true
  pub apart : within i.inode_disk.start (bytes_to_sectors i.inode_disk.length) i.sector ≡ false

still_in_use :
    (sector start n k : ℕ) (u v : Bool)
    → within start n sector ≡ false
    → start ≤ k
    → k < start + n
    → v ≡ (if within sector 1 k then false else u)
    → u ≡ true
    → v ≡ true
still_in_use sector start n k u v apart a b h e = elim (Bool-cases (k == sector)) [
  | inl same ↦ let q : k ≡ sector = ground arith in absurd (ground (arith, rw (sym q) at apart))
  | inr not_same ↦ let w : within sector 1 k ≡ false = ground arith in h ∙ rw w e
]

both_freed :
    (sector start n k : ℕ) (u v w : Bool)
    → v ≡ (if within sector 1 k then false else u)
    → w ≡ (if within start n k then false else v)
    → w ≡ (if (k == sector) || within start n k then false else u)
both_freed sector start n k u v w e f =
    let same : within sector 1 k ≡ (k == sector) = ground arith in f ∙ rw (e, same) (ground arith)

pub deallocate_lem :
    (i : Inode) (s : FileSys)
    → OwnsSectors s.free_map i
    → (m : FreeMap) × (deallocate i s ≡ some (record s { free_map = m }))
      × (m.in_file ≡ (if s.free_map.writes then some m.free_map else none))
      × ((k : ℕ) → used m k ≡ (if of_inode i k then false else used s.free_map k))
unfolding deallocate
deallocate_lem i s o =
    let start = i.inode_disk.start in
    let n = bytes_to_sectors i.inode_disk.length in
    let (m1, e1, c1, f1, w1, i1, u1) =
      free_map_release-frees i.sector 1 s.free_map o.sized (omega (arith, o.sector_in))
        (λ k a b. o.in_use k (ground arith)) o.file in
    let (m2, e2, c2, f2, w2, i2, u2) =
      free_map_release-frees start n m1 (rw c1 o.sized) (omega (arith, c1, o.data_in))
        (λ k a b.
          still_in_use i.sector start n k _ _ o.apart a b (u1 k) (o.in_use k (ground arith)))
        f1 in
    (
      m2,
      rw (e1, deallocate) (rw e2 refl),
      i2 ∙ rw w1 refl,
      λ k. both_freed i.sector start n k _ _ _ (u1 k) (u2 k),
    )

-- inode_close has closed an open inode: what becomes of the table, and of the sectors in use.
pub record Closed (a : ℕ) (s s' : FileSys) : Type 0 where
  pub table : IsTable s'
  pub same_files : s'.files ≡ s.files
  pub same_disk : s'.disk ≡ s.disk
  pub openers : (s'.inodes a).open_cnt ≡ (s.inodes a).open_cnt -ℤ pos 1
  pub others : (b : ℕ) → a ≢ b → s'.inodes b ≡ s.inodes b
  pub still_open :
      (b : ℕ)
      → count b s'.open_inodes
        ≡ count b s.open_inodes
          - (if (a == b) && is_zero ((s.inodes a).open_cnt -ℤ pos 1) then 1 else 0)
  pub new_file : s'.free_map.in_file ≡ (
      if is_zero ((s.inodes a).open_cnt -ℤ pos 1) && (s.inodes a).removed
      then (if s.free_map.writes then some s'.free_map.free_map else none)
      else s.free_map.in_file)
  pub new_used :
      (k : ℕ)
      → used s'.free_map k ≡ (
          if is_zero ((s.inodes a).open_cnt -ℤ pos 1)
            && (s.inodes a).removed
            && of_inode (s.inodes a) k
          then false
          else used s.free_map k)

dropped-OwnsSectors : (m : FreeMap) (i : Inode) → OwnsSectors m i → OwnsSectors m (dropped i)
dropped-OwnsSectors m i o = record {
  sized = o.sized;
  file = o.file;
  sector_in = o.sector_in;
  data_in = o.data_in;
  in_use = o.in_use;
  apart = o.apart;
}

fewer_positive :
    (i : ℤ)
    → ltb_ℤ (pos 0) i ≡ true
    → is_zero (i -ℤ pos 1) ≡ false
    → ltb_ℤ (pos 0) (i -ℤ pos 1) ≡ true
fewer_positive i h z = ground (arith, -ℤ_parts i (pos 1))

and_true : (a b : Bool) → a ≡ true → (a && b) ≡ b
and_true a b h = rw h refl

module _ (a : ℕ) (s : FileSys) (v : IsTable s) (is_in : 0 < count a s.open_inodes) where
  kept-IsTable :
      is_zero ((s.inodes a).open_cnt -ℤ pos 1) ≡ false
      → IsTable (set_inode s a (dropped (s.inodes a)))
  kept-IsTable z = record {
    once = v.once;
    counted = λ b c.
        ground (arith, v.counted b c, fewer_positive (s.inodes a).open_cnt (v.counted a is_in) z);
    unique = λ b c p q e. v.unique b c p q (ground arith);
  }

  -- The table without the inode.
  abbrev without : FreeMap → FileSys
  without m = record (set_inode s a (dropped (s.inodes a))) {
    open_inodes = remove_inode a s.open_inodes;
    free_map = m;
  }

  without_count :
      (b : ℕ) → 0 < count b (remove_inode a s.open_inodes) → (a ≢ b) × (0 < count b s.open_inodes)
  without_count b h = (
    ground (arith, count-remove_inode a s.open_inodes b, v.once b),
    ground (arith, count-remove_inode a s.open_inodes b),
  )

  without-Closed :
      (m : FreeMap)
      → is_zero ((s.inodes a).open_cnt -ℤ pos 1) ≡ true
      → m.in_file ≡ (
          if (s.inodes a).removed
          then (if s.free_map.writes then some m.free_map else none)
          else s.free_map.in_file)
      → ((k : ℕ)
          → used m k ≡ (
              if (s.inodes a).removed && of_inode (s.inodes a) k then false else used s.free_map k))
      → Closed a s (without m)
  without-Closed m z f n = record {
    table = record {
      once = λ b. omega (arith, count-remove_inode a s.open_inodes b, v.once b);
      counted = λ b h. let w = without_count b h in ground (arith, v.counted b w.1, w.0);
      unique = λ b c p q e.
          let w = without_count b p in
          let x = without_count c q in v.unique b c w.1 x.1 (ground (arith, w.0, x.0));
    };
    same_files = refl;
    same_disk = refl;
    openers = ground arith;
    others = λ b ne. ground arith;
    still_open = λ b. rw z (ground (arith, count-remove_inode a s.open_inodes b));
    new_file = rw z f;
    new_used = λ k. rw z (n k);
  }

  -- inode_close of an open inode, whose sectors are in use if it has been removed, does not fail and keeps
  -- the table of open inodes. The inode has one opener less, and it leaves the table just if there is no
  -- opener left; then the sectors of a removed inode, and no others, become free, and the free map's file,
  -- which must be open then, gets the new map if it can be written. Other inodes stay as they are.
  pub inode_close-Closed :
      ((s.inodes a).removed ≡ true → OwnsSectors s.free_map (s.inodes a))
      → (s' : FileSys) × (inode_close (some a) s ≡ some s') × Closed a s s'
  unfolding inode_close
  inode_close-Closed owns = elim (Bool-cases (is_zero ((s.inodes a).open_cnt -ℤ pos 1))) [
    | inl z ↦ elim (Bool-cases (s.inodes a).removed) [
      | inl r ↦
          let (m, e, f, n) =
            deallocate_lem (dropped (s.inodes a)) (without s.free_map)
              (dropped-OwnsSectors s.free_map (s.inodes a) (owns r)) in
          (
            without m,
            rw (z, inode_close) (if_true _ _ r ∙ e),
            without-Closed m z (f ∙ sym (if_true _ _ r)) (λ k.
                n k ∙ sym (ap (λ x. if x then false else used s.free_map k) (and_true _ _ r))),
          )
      | inr r ↦ (
        without s.free_map,
        rw (z, r, inode_close) refl,
        without-Closed s.free_map z (rw r refl) (λ k. rw r refl),
      )
    ]
    | inr z ↦ (
      set_inode s a (dropped (s.inodes a)),
      rw (z, inode_close) refl,
      record {
        table = kept-IsTable z;
        same_files = refl;
        same_disk = refl;
        openers = ground arith;
        others = λ b ne. ground arith;
        still_open = λ b. rw z (ground arith);
        new_file = rw z refl;
        new_used = λ k. rw z refl;
      },
    )
  ]
