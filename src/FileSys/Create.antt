-- ===== src/FileSys/Create.antt =====
-- A created inode has its length, and its data are all 0: pintos-kaist/filesys/inode.c.
use w12_13_vm.Common.{
  ℕ, zero, suc, ◌+◌, ◌/◌, ◌%◌, ◌<◌, ◌≡◌, ◌⊎◌, refl, ap, ◌∙◌, Bool, true, false, not, ◌&&◌, Option,
  none, some, ltb, leb, if◌then◌else◌, arith, update, fun_ext, Bool-cases, inl, inr,
}
use w12_13_vm.Bitmap.Multiple.{IsSized}
use w12_13_vm.Bitmap.Scan.{IsFirstFit}
use w12_13_vm.FreeMap.{FreeMap, free_map_allocate}
use w12_13_vm.FreeMap.Sectors.{used, sectors, within, free_map_allocate-Allocated}
use w12_13_vm.Inode.{Disk, InodeDisk, bytes_to_sectors}
use w12_13_vm.Inode.Read.{content}
use w12_13_vm.FileSys.{FileSys, encode, decode, clear_loop, inode_create, inode_magic}
use w12_13_vm.FileSys.Codec.{decode-encode}

clear_loop_lem :
    (n t : ℕ) (disk : Disk) (u j : ℕ)
    → clear_loop n t disk u j ≡ (if leb t u && ltb u (t + n) then 0 else disk u j)
unfolding clear_loop
clear_loop_lem zero t disk u j = ground arith
clear_loop_lem (suc n) t disk u j =
    ground (arith, clear_loop_lem n (t + 1) (update disk t (λ q. 0)) u j)

-- The inode that has been made on the disk.
pub record Created (sector length : ℕ) (s s' : FileSys) : Type 0 where
  pub start : ℕ
  pub on_disk :
      decode (s'.disk sector) ≡ record { start = start; length = length; magic = inode_magic }
  pub all_zero :
      (i : ℕ)
      → i < length
      → content s'.disk (record { start = start; length = length; magic = inode_magic }) i ≡ 0
  pub was_free :
      (k : ℕ) → within start (bytes_to_sectors length) k ≡ true → used s.free_map k ≡ false
  pub now_used :
      (k : ℕ)
      → used s'.free_map k
        ≡ (if within start (bytes_to_sectors length) k then true else used s.free_map k)

data_sector : (length i : ℕ) → i < length → i / 512 < bytes_to_sectors length
unfolding bytes_to_sectors
data_sector length i h = omega arith

module _ (sector length : ℕ) (s : FileSys) (own : used s.free_map sector ≡ true)
    (fits : length < 2147483648) (small : sectors s.free_map < 4294967296) where
  Created-of :
      (start : ℕ) (m : FreeMap)
      → IsFirstFit
          (used s.free_map)
          (sectors s.free_map)
          0
          (bytes_to_sectors length)
          false
          (some start)
      → ((k : ℕ)
          → used m k
            ≡ (if within start (bytes_to_sectors length) k then true else used s.free_map k))
      → Created sector length s (record s {
        free_map = m;
        disk = clear_loop (bytes_to_sectors length) start (
            update s.disk sector
              (encode (record { start = start; length = length; magic = inode_magic })));
      })
  unfolding content
  Created-of start m fit n =
      let d : InodeDisk = record { start = start; length = length; magic = inode_magic } in
      let cnt = bytes_to_sectors length in
      let old = update s.disk sector (encode d) in
      let outside : within start cnt sector ≡ false = elim (Bool-cases (within start cnt sector)) [
        | inl w ↦ absurd (ground (arith, fit.2 sector (ground arith) (ground arith)))
        | inr w ↦ w
      ] in
      record {
        start = start;
        on_disk =
            ap decode (fun_ext λ j. clear_loop_lem cnt start old sector j ∙ ground (arith, outside))
            ∙ decode-encode d (omega (arith, fit.1, small), omega (arith, fits), omega arith);
        all_zero = λ i lt.
            clear_loop_lem cnt start old (start + i / 512) (i % 512)
            ∙ ground (arith, data_sector length i lt);
        was_free = λ k w. fit.2 k (ground arith) (ground arith);
        now_used = n;
      }

  short : ltb length 2147483648 ≡ true
  short = ground (arith, fits)

  -- What inode_create returns: that it has made the inode, or that it has not.
  pub Creates : Option (Bool × FileSys) → Type 0
  Creates r =
      ((s' : FileSys) × (r ≡ some (true, s')) × Created sector length s s')
      ⊎ ((s' : FileSys) × (r ≡ some (false, s'))
          × ((k : ℕ) → used s'.free_map k ≡ used s.free_map k))

  Creates-of :
      (written : Bool) (place : Option ℕ) (m : FreeMap)
      → free_map_allocate written (bytes_to_sectors length) s.free_map ≡ some (place, m)
      → ((s.free_map.has_file && not written) ≡ false
          → IsFirstFit
              (used s.free_map)
              (sectors s.free_map)
              0
              (bytes_to_sectors length)
              false
              place)
      → ((s.free_map.has_file && not written) ≡ true → place ≡ none)
      → ((k : ℕ)
          → used m k ≡ (elim place [
            | none ↦ used s.free_map k
            | some i ↦ if within i (bytes_to_sectors length) k then true else used s.free_map k
          ]))
      → Creates (inode_create true written sector length s)
  unfolding Creates inode_create
  Creates-of written none m e f bad n =
      inr (record s { free_map = m }, rw (e, short, inode_create) refl, n)
  Creates-of written (some start) m e f bad n =
      let fit = f (elim (Bool-cases (s.free_map.has_file && not written)) [
        | inl x ↦ cc (bad x)
        | inr x ↦ x
      ]) in
      inl (_, rw (e, short, inode_create) refl, Created-of start m fit n)

  -- With memory, inode_create of an inode of less than 2^31 bytes in a sector that is in use does not fail.
  -- Either it makes the inode: the sector decodes to its length and its first data sector, all its bytes are 0, and its data
  -- sectors, which are in use from then on and no others, were free. Or it makes none, and the sectors in
  -- use are as before.
  pub inode_create-Creates :
      (written : Bool)
      → IsSized s.free_map.free_map
      → Creates (inode_create true written sector length s)
  inode_create-Creates written z =
      let a = free_map_allocate-Allocated written (bytes_to_sectors length) s.free_map z in
      Creates-of written a.place a.after a.returned a.first a.refused a.new_used
