-- ===== src/FileSys/Opens.antt =====
-- The table of open inodes of pintos-kaist/filesys/inode.c: one inode for a sector, with the number of
-- its openers.
use w12_13_vm.Common.{
  ℕ, ◌≤◌, ◌<◌, ◌≡◌, ◌≢◌, refl, sym, ap, ◌∙◌, List, [], ◌∷◌, true, false, Option, none, some, ◌==◌,
  arith, update, count, Bool-cases, inl, inr,
}
use w12_13_vm.Common.Int.{ℤ, pos, ◌+ℤ◌, ltb_ℤ, +ℤ_parts}
use w12_13_vm.FileSys.{FileSys, Inode, find_open, inode_open, inode_reopen, decode}

pub record IsTable (s : FileSys) : Type 0 where
  pub once : (a : ℕ) → count a s.open_inodes ≤ 1
  pub counted : (a : ℕ) → 0 < count a s.open_inodes → ltb_ℤ (pos 0) (s.inodes a).open_cnt ≡ true
  pub unique :
      (a b : ℕ)
      → 0 < count a s.open_inodes
      → 0 < count b s.open_inodes
      → (s.inodes a).sector ≡ (s.inodes b).sector
      → a ≡ b

-- What find_open finds.
abbrev IsFound : (ℕ → Inode) → ℕ → List ℕ → Option ℕ → Type 0
IsFound inodes sector as' none = (a : ℕ) → 0 < count a as' → (inodes a).sector ≢ sector
IsFound inodes sector as' (some a) = (0 < count a as') × ((inodes a).sector ≡ sector)

find_open-IsFound :
    (inodes : ℕ → Inode) (sector : ℕ) (as' : List ℕ)
    → IsFound inodes sector as' (find_open inodes sector as')
unfolding find_open
find_open-IsFound inodes sector [] = λ a h. absurd (omega arith)
find_open-IsFound inodes sector (b ∷ bs) = elim (Bool-cases ((inodes b).sector == sector)) [
  | inl h ↦ rw h (ground arith, ground arith)
  | inr h ↦
      rw h (
        grow inodes sector b bs (find_open inodes sector bs) h (find_open-IsFound inodes sector bs))
]
  where
    grow :
        (inodes : ℕ → Inode) (sector b : ℕ) (bs : List ℕ) (r : Option ℕ)
        → ((inodes b).sector == sector) ≡ false
        → IsFound inodes sector bs r
        → IsFound inodes sector (b ∷ bs) r
    grow inodes sector b bs none h f = λ a c. elim (Bool-cases (a == b)) [
      | inl e ↦ let q : a ≡ b = ground arith in λ z. absurd (ground (arith, q, z))
      | inr e ↦ f a (ground arith)
    ]
    grow inodes sector b bs (some a) h f = (ground arith, f.1)

-- inode_open has given an open inode of the sector.
pub record Opened (memory : Option ℕ) (sector : ℕ) (s : FileSys) (r : Option ℕ × FileSys)
    : Type 0 where
  pub table : IsTable r.1
  pub same_disk : r.1.disk ≡ s.disk
  pub of_sector :
      (a : ℕ) → r.0 ≡ some a → (0 < count a r.1.open_inodes) × ((r.1.inodes a).sector ≡ sector)
  pub again :
      (a : ℕ)
      → 0 < count a s.open_inodes
      → (s.inodes a).sector ≡ sector
      → (r.0 ≡ some a)
        × (r.1.open_inodes ≡ s.open_inodes)
        × ((r.1.inodes a).open_cnt ≡ (s.inodes a).open_cnt +ℤ pos 1)
  pub new_inode :
      (a : ℕ)
      → memory ≡ some a
      → ((b : ℕ) → 0 < count b s.open_inodes → (s.inodes b).sector ≢ sector)
      → (r.0 ≡ some a)
        × (r.1.inodes a ≡ record {
          sector = sector;
          open_cnt = pos 1;
          removed = false;
          deny_write_cnt = pos 0;
          inode_disk = decode (s.disk sector);
        })
  pub others : (b : ℕ) → r.0 ≢ some b → r.1.inodes b ≡ s.inodes b

more_positive : (a : ℤ) → ltb_ℤ (pos 0) a ≡ true → ltb_ℤ (pos 0) (a +ℤ pos 1) ≡ true
more_positive a h = ground (arith, +ℤ_parts a (pos 1))

module _ (sector : ℕ) (s : FileSys) (v : IsTable s) where
  reopened-IsTable : (a : ℕ) → 0 < count a s.open_inodes → IsTable (inode_reopen a s)
  reopened-IsTable a h = record {
    once = v.once;
    counted = λ b c. ground (arith, v.counted b c, more_positive (s.inodes b).open_cnt);
    unique = λ b c p q e. v.unique b c p q (ground arith);
  }

  reopened-Opened :
      (memory : Option ℕ) (a : ℕ)
      → 0 < count a s.open_inodes
      → (s.inodes a).sector ≡ sector
      → Opened memory sector s (some a, inode_reopen a s)
  reopened-Opened memory a h e = record {
    table = reopened-IsTable a h;
    same_disk = refl;
    of_sector = λ b q. ground arith;
    again = λ b c q. let same = v.unique a b h c (e ∙ sym q) in ground arith;
    new_inode = λ b m none_open. absurd (none_open a h e);
    others = λ b ne. elim (Bool-cases (a == b)) [
      | inl q ↦ absurd (ne (ap some (ground arith)))
      | inr q ↦ rw q refl
    ];
  }

  new_inode-IsTable :
      (a : ℕ) (i : Inode)
      → count a s.open_inodes ≡ 0
      → i.sector ≡ sector
      → i.open_cnt ≡ pos 1
      → ((b : ℕ) → 0 < count b s.open_inodes → (s.inodes b).sector ≢ sector)
      → IsTable (record s { open_inodes = a ∷ s.open_inodes; inodes = update s.inodes a i })
  new_inode-IsTable a i fresh e one none_open = record {
    once = λ b. ground (arith, v.once b);
    counted = λ b c. ground (arith, v.counted b, one);
    unique = λ b c p q f. elim (Bool-cases (a == b)) [
      | inl x ↦ elim (Bool-cases (a == c)) [
        | inl y ↦ ground arith
        | inr y ↦ absurd (none_open c (ground arith) (ground arith))
      ]
      | inr x ↦ elim (Bool-cases (a == c)) [
        | inl y ↦ absurd (none_open b (ground arith) (ground arith))
        | inr y ↦ v.unique b c (ground arith) (ground arith) (ground arith)
      ]
    ];
  }

  Opened-of :
      (memory place : Option ℕ)
      → ((a : ℕ) → memory ≡ some a → count a s.open_inodes ≡ 0)
      → find_open s.inodes sector s.open_inodes ≡ place
      → IsFound s.inodes sector s.open_inodes place
      → Opened memory sector s (inode_open memory sector s)
  unfolding inode_open
  Opened-of memory (some a) fresh e found =
      rw (e, inode_open) (reopened-Opened memory a found.0 found.1)
  Opened-of none none fresh e found =
      rw (e, inode_open)
        (record {
          table = v;
          same_disk = refl;
          of_sector = λ a q. cc;
          again = λ a h q. absurd (found a h q);
          new_inode = λ a q n. cc;
          others = λ b ne. refl;
        })
  Opened-of (some a) none fresh e found =
      rw (e, inode_open)
        (record {
          table = new_inode-IsTable a _ (fresh a refl) refl refl found;
          same_disk = refl;
          of_sector = λ b q. let same : a ≡ b = cc in ground arith;
          again = λ b h q. absurd (found b h q);
          new_inode = λ b q n. let same : a ≡ b = cc in rw same (refl, ground arith);
          others = λ b ne. elim (Bool-cases (a == b)) [
            | inl q ↦ absurd (ne (ap some (ground arith)))
            | inr q ↦ rw q refl
          ];
        })

  -- inode_open keeps the table of open inodes, with one inode for a sector. If the sector's inode is open,
  -- it gives that one, with one opener more; else, where malloc gives it memory that is not in the table,
  -- a new inode of the sector with one opener and the data that are on disk. No other inode changes.
  pub inode_open-Opened :
      (memory : Option ℕ)
      → ((a : ℕ) → memory ≡ some a → count a s.open_inodes ≡ 0)
      → Opened memory sector s (inode_open memory sector s)
  inode_open-Opened memory fresh =
      Opened-of memory _ fresh refl (find_open-IsFound s.inodes sector s.open_inodes)
