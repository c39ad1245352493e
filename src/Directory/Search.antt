-- ===== src/Directory/Search.antt =====
-- The loops over a directory's entries, `lookup` and the search of dir_add in
-- pintos-kaist/filesys/directory.c.
use mathlib.Core.Path.{subst}
use w12_13_vm.Common.{
  ℕ, zero, suc, ◌+◌, ◌*◌, ◌≤◌, ◌<◌, ◌≡◌, refl, sym, List, Bool, true, false, ◌&&◌, Option, none,
  some, ltb, ◌==◌, arith, Bool-cases, inl, inr,
}
use w12_13_vm.Inode.{Disk, InodeDisk, inode_read_at}
use w12_13_vm.FileSys.{FileSys}
use w12_13_vm.Directory.{byte_at, same_name, lookup_loop, lookup, free_slot}
use w12_13_vm.Directory.Entries.{
  entry_cnt, raw_entry, entry, full_entry, bytes_of_entry, entry_read,
}

-- The first of `n` positions where `p` is true.
pub record IsFirst (p : ℕ → Bool) (n i : ℕ) : Type 0 where
  pub in_range : i < n
  pub holds : p i ≡ true
  pub before : (j : ℕ) → j < i → p j ≡ false

pub one_more :
    (p : ℕ → Bool) (b : Bool) (i : ℕ)
    → ((j : ℕ) → j < i → p j ≡ b)
    → p i ≡ b
    → (j : ℕ) → j < i + 1
    → p j ≡ b
one_more p b i before here j lt = elim (Bool-cases (j == i)) [
  | inl s ↦ let same : j ≡ i = ground arith in subst (λ k. p k ≡ b) (sym same) here
  | inr s ↦ before j (ground arith)
]

module _ (disk : Disk) (d : InodeDisk) (name : List ℕ) where
  -- Whether entry `i` is used for the name.
  abbrev pub named : ℕ → Bool
  named i = (entry disk d i).in_use && same_name name (entry disk d i).name

  -- What `lookup` finds: the first entry of the name with its bytes, or nothing.
  pub data Looked : Option (List ℕ × ℕ) → Type 0 where
    missing : ((j : ℕ) → j < entry_cnt d → named j ≡ false) → Looked none
    found :
        (i : ℕ) (bytes : List ℕ)
        → IsFirst named (entry_cnt d) i
        → ((k : ℕ) → k < 20 → byte_at bytes k ≡ raw_entry disk d i k)
        → Looked (some (bytes, 20 * i))

  lookup_loop-Looked :
      (f i : ℕ)
      → entry_cnt d ≤ f + i
      → ((j : ℕ) → j < i → named j ≡ false)
      → Looked (lookup_loop f true disk d name (20 * i))
  unfolding lookup_loop
  lookup_loop-Looked zero i enough before = missing (λ j lt. before j (omega arith))
  lookup_loop-Looked (suc f) i enough before =
      let full = full_entry disk d i in
      elim (Bool-cases (ltb i (entry_cnt d))) [
        | inl h ↦
            let inside : i < entry_cnt d = ground arith in
            let here = entry_read disk d i inside in
            let bytes = inode_read_at true disk d 20 (20 * i) in
            elim (Bool-cases (named i)) [
              | inl q ↦
                  rw (full, h, here, q)
                    (found i bytes (record { in_range = inside; holds = q; before = before })
                      (λ k lt. bytes_of_entry disk d i k inside lt))
              | inr q ↦
                  let place : 20 * i + 20 ≡ 20 * (i + 1) = omega arith in
                  let longer : (j : ℕ) → j < i + 1 → named j ≡ false =
                    one_more named false i before q in
                  rw (full, h, here, q, place) (lookup_loop-Looked f (i + 1) (omega arith) longer)
            ]
        | inr h ↦ rw (full, h) (missing (λ j lt. before j (ground arith)))
      ]

-- What the search of dir_add finds: the first entry that is not used, or the end.
pub record FreeSlot (disk : Disk) (d : InodeDisk) (r : ℕ × (ℕ → ℕ)) : Type 0 where
  pub slot : ℕ
  pub place : r.0 ≡ 20 * slot
  pub at_most : slot ≤ entry_cnt d
  pub free : slot < entry_cnt d → (entry disk d slot).in_use ≡ false
  pub before : (j : ℕ) → j < slot → (entry disk d j).in_use ≡ true

pub free_slot-FreeSlot :
    (disk : Disk) (d : InodeDisk) (f : ℕ) (e : ℕ → ℕ) (i : ℕ)
    → i ≤ entry_cnt d
    → entry_cnt d ≤ f + i
    → ((j : ℕ) → j < i → (entry disk d j).in_use ≡ true)
    → FreeSlot disk d (free_slot f true disk d e (20 * i))
unfolding free_slot
free_slot-FreeSlot disk d zero e i most enough before = record {
  slot = i;
  place = refl;
  at_most = most;
  free = λ lt. absurd (omega arith);
  before = before;
}
free_slot-FreeSlot disk d (suc f) e i most enough before =
    let full = full_entry disk d i in
    elim (Bool-cases (ltb i (entry_cnt d))) [
      | inl h ↦
          let inside : i < entry_cnt d = ground arith in
          let here = entry_read disk d i inside in
          elim (Bool-cases (entry disk d i).in_use) [
            | inl q ↦
                let place : 20 * i + 20 ≡ 20 * (i + 1) = omega arith in
                let longer : (j : ℕ) → j < i + 1 → (entry disk d j).in_use ≡ true =
                  one_more (λ j. (entry disk d j).in_use) true i before q in
                rw (full, h, here, q, place)
                  (free_slot-FreeSlot disk d f _ (i + 1) (omega arith) (omega arith) longer)
            | inr q ↦
                rw (full, h, here, q)
                  (record {
                    slot = i;
                    place = refl;
                    at_most = most;
                    free = λ lt. q;
                    before = before;
                  })
          ]
      | inr h ↦
          rw (full, h)
            (record {
              slot = i;
              place = refl;
              at_most = most;
              free = λ lt. absurd (ground arith);
              before = before;
            })
    ]

pub lookup-Looked :
    (dir : ℕ) (name : List ℕ) (s : FileSys)
    → Looked s.disk (s.inodes dir).inode_disk name (lookup true dir name s)
unfolding lookup
lookup-Looked dir name s =
    lookup_loop-Looked s.disk (s.inodes dir).inode_disk name (s.inodes dir).inode_disk.length 0
      (omega arith) (λ j lt. absurd (omega arith))
