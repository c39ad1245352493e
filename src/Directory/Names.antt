-- ===== src/Directory/Names.antt =====
-- The names of a directory under dir_lookup and dir_add of pintos-kaist/filesys/directory.c.
use mathlib.Core.Path.{subst}
use w12_13_vm.Common.{
  ℕ, ◌<◌, ◌≡◌, ◌≢◌, ◌↔◌, ◌⊎◌, refl, sym, ap, ◌∙◌, List, Bool, true, false, ◌==◌, arith, Bool-cases,
  inl, inr,
}
use w12_13_vm.Inode.{Disk, InodeDisk}
use w12_13_vm.FileSys.{FileSys, is_zero}
use w12_13_vm.Directory.{DirEntry, dir_add}
use w12_13_vm.Directory.Entries.{entry_cnt, entry, IsName}
use w12_13_vm.Directory.Add.{
  Names, HasNamesOnce, Replaced, Added, added, taken, full, dir_add-Added,
}

-- The directory gives the sector for the name.
abbrev pub HasName : Disk → InodeDisk → List ℕ → ℕ → Type 0
HasName disk d name sector = (i : ℕ) × Names disk d name sector i

pub Names-of-entry :
    (disk disk' : Disk) (d : InodeDisk) (n : List ℕ) (t j : ℕ)
    → entry disk' d j ≡ entry disk d j
    → Names disk d n t j
    → Names disk' d n t j
Names-of-entry disk disk' d n t j e v = record {
  in_range = v.in_range;
  used = ap (λ (x : DirEntry). x.in_use) e ∙ v.used;
  same = ap (λ (x : DirEntry). x.name) e ∙ v.same;
  gives = ap (λ (x : DirEntry). x.inode_sector) e ∙ v.gives;
}

module _ (disk disk' : Disk) (d : InodeDisk) (i : ℕ) (e : DirEntry)
    (r : Replaced disk d i e disk') where
  -- An entry that is not the replaced one is as it was.
  pub Names-kept : (n : List ℕ) (t j : ℕ) → i ≢ j → Names disk d n t j → Names disk' d n t j
  Names-kept n t j ne v = Names-of-entry disk disk' d n t j (r.others j v.in_range ne) v

  pub Names-back :
      (n : List ℕ) (t j : ℕ)
      → Names disk' d n t j
      → (i ≡ j) × (e.in_use ≡ true) × (e.name ≡ n) × (e.inode_sector ≡ t)
        ⊎ (i ≢ j) × Names disk d n t j
  Names-back n t j v = elim (Bool-cases (i == j)) [
    | inl q ↦
        let same : i ≡ j = ground arith in
        let here : entry disk' d j ≡ e = subst (λ k. entry disk' d k ≡ e) same r.here in
        inl (
          same,
          ap (λ (x : DirEntry). x.in_use) (sym here) ∙ v.used,
          ap (λ (x : DirEntry). x.name) (sym here) ∙ v.same,
          ap (λ (x : DirEntry). x.inode_sector) (sym here) ∙ v.gives,
        )
    | inr q ↦
        let ne : i ≢ j = λ same. ground arith in
        inr (ne, Names-of-entry disk' disk d n t j (sym (r.others j v.in_range ne)) v)
  ]

-- What an addition does to a directory's names.
pub record NewNames (d : InodeDisk) (name : List ℕ) (sector : ℕ) (s : FileSys) (r : Bool × FileSys)
    : Type 0 where
  pub once : HasNamesOnce s.disk d → HasNamesOnce r.1.disk d
  pub rest : r.1 ≡ record s { disk = r.1.disk }
  pub success :
      (r.0 ≡ true)
      ↔ ((t : ℕ) → ¬ HasName s.disk d name t)
        × ((i : ℕ) × (i < entry_cnt d) × ((entry s.disk d i).in_use ≡ false))
  pub names :
      (n : List ℕ) (t : ℕ)
      → HasName r.1.disk d n t ↔ ((r.0 ≡ true) × (n ≡ name) × (t ≡ sector) ⊎ HasName s.disk d n t)

kept-Names :
    (disk disk' : Disk) (d : InodeDisk)
    → ((j : ℕ) → j < entry_cnt d → entry disk' d j ≡ entry disk d j)
    → (n : List ℕ) (t j : ℕ) → Names disk' d n t j
    → Names disk d n t j
kept-Names disk disk' d same n t j v = Names-of-entry disk' disk d n t j (sym (same j v.in_range)) v

Added-NewNames :
    (d : InodeDisk) (name : List ℕ) (sector : ℕ) (s : FileSys) (r : Bool × FileSys)
    → Added d name sector s r
    → NewNames d name sector s r
Added-NewNames d name sector s _ (taken t i v) = record {
  once = λ o. o;
  rest = refl;
  success = (λ h. cc, λ h. absurd (h.0 t (i, v)));
  names = λ n u. (λ h. inr h, λ h. elim h [ inl x ↦ absurd (ground (arith, x.0)) | inr x ↦ x ]);
}
Added-NewNames d name sector s _ (full disk new all_used same) =
    let back = kept-Names s.disk disk d same in
    let there = kept-Names disk s.disk d (λ j lt. sym (same j lt)) in
    record {
      once = λ o n t u i j v w. o n t u i j (back n t i v) (back n u j w);
      rest = refl;
      success = (λ h. cc, λ h. let (i, lt, unused) = h.1 in let used = all_used i lt in cc);
      names = λ n u. (
        λ h. inr (h.0, back n u h.0 h.1),
        λ h. elim h [ inl x ↦ absurd (ground (arith, x.0)) | inr x ↦ (x.0, there n u x.0 x.1) ],
      );
    }
Added-NewNames d name sector s _ (added disk i lt new unused put) =
    let e : DirEntry = record { inode_sector = sector; name = name; in_use = true } in
    let back = Names-back s.disk disk d i e put in
    let there = Names-kept s.disk disk d i e put in
    record {
      once = λ o n t u j k v w. elim (back n t j v) [
        | inl (p, x, q, y) ↦ elim (back n u k w) [
          | inl (p', x', q', y') ↦ cc
          | inr (ne, w') ↦ absurd (new k u (subst (λ m. Names s.disk d m u k) (sym q) w'))
        ]
        | inr (ne, v') ↦ elim (back n u k w) [
          | inl (p', x', q', y') ↦ absurd (new j t (subst (λ m. Names s.disk d m t j) (sym q') v'))
          | inr (ne', w') ↦ o n t u j k v' w'
        ]
      ];
      rest = refl;
      success = (λ h. (λ t h'. new h'.0 t h'.1, (i, lt, unused)), λ h. refl);
      names = λ n u. (
        λ h. elim (back n u h.0 h.1) [
          | inl (p, x, q, y) ↦ inl (refl, sym q, sym y)
          | inr (ne, v) ↦ inr (h.0, v)
        ],
        λ h. elim h [
          | inl (x, q, y) ↦ (
            i,
            record {
              in_range = lt;
              used = ap (λ (z : DirEntry). z.in_use) put.here;
              same = ap (λ (z : DirEntry). z.name) put.here ∙ sym q;
              gives = ap (λ (z : DirEntry). z.inode_sector) put.here ∙ sym y;
            },
          )
          | inr (j, v) ↦ (j, there n u j (λ same. let was = v.used in cc (same, unused, was)) v)
        ],
      );
    }

-- dir_add of a name of 1 to 14 bytes, with memory for the bounce buffers and writes allowed, as a change of
-- the directory's map from names to sectors: it succeeds just if the name is new and an entry is unused,
-- and then the map has the name with the sector besides; else the map stays. No name comes to stand twice,
-- and only the disk changes.
pub dir_add-NewNames :
    (start : ℕ → ℕ) (dir : ℕ) (name : List ℕ) (sector : ℕ) (s : FileSys)
    → IsName name
    → sector < 4294967296
    → is_zero (s.inodes dir).deny_write_cnt ≡ true
    → NewNames (s.inodes dir).inode_disk name sector s (dir_add true start dir name sector s)
dir_add-NewNames start dir name sector s v fits allowed =
    Added-NewNames (s.inodes dir).inode_disk name sector s _
      (dir_add-Added start dir name sector s v fits allowed)
