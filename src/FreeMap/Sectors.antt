-- ===== src/FreeMap/Sectors.antt =====
-- Sectors are given to one owner at a time: allocation and release in pintos-kaist/filesys/free-map.c.
use w12_13_vm.Common.{
  ℕ, ◌+◌, ◌≤◌, ◌≡◌, refl, ◌∙◌, Bool, true, false, not, ◌&&◌, Option, none, some, ltb, leb,
  if◌then◌else◌, arith, Bool-cases, inl, inr,
}
use w12_13_vm.Bitmap.{Bitmap, bitmap_scan_and_flip, bitmap_all}
use w12_13_vm.Bitmap.View.{view}
use w12_13_vm.Bitmap.Multiple.{IsSized, bitmap_set_multiple-Changed, bitmap_count-queries}
use w12_13_vm.Bitmap.Scan.{Fits, count_of_Fits, IsFirstFit, bitmap_scan_and_flip-Flipped}
use w12_13_vm.FreeMap.{FreeMap, write_map, free_map_allocate, free_map_release}

-- Whether a sector is in use.
abbrev pub used : FreeMap → ℕ → Bool
used s = view s.free_map

abbrev pub sectors : FreeMap → ℕ
sectors s = s.free_map.bit_cnt

abbrev pub within : ℕ → ℕ → ℕ → Bool
within start cnt k = leb start k && ltb k (start + cnt)

-- What free_map_allocate does: it gives the first run of free sectors, which are in use from then on; or
-- it gives nothing, and the map is as before.
pub record Allocated (written : Bool) (cnt : ℕ) (s : FreeMap) (o : Option (Option ℕ × FreeMap))
    : Type 0 where
  pub place : Option ℕ
  pub after : FreeMap
  pub returned : o ≡ some (place, after)
  pub same_sectors : sectors after ≡ sectors s
  pub same_file : after.has_file ≡ s.has_file
  pub first :
      (s.has_file && not written) ≡ false → IsFirstFit (used s) (sectors s) 0 cnt false place
  pub refused : (s.has_file && not written) ≡ true → place ≡ none
  pub new_used :
      (k : ℕ)
      → used after k ≡ (elim place [
        | none ↦ used s k
        | some sector ↦ if within sector cnt k then true else used s k
      ])

-- Setting the bits of a fit back gives the map from before.
undone :
    (f g h : ℕ → Bool) (i cnt : ℕ)
    → Fits f i cnt false
    → ((k : ℕ) → g k ≡ (if within i cnt k then true else f k))
    → ((k : ℕ) → h k ≡ (if within i cnt k then false else g k))
    → (k : ℕ) → h k ≡ f k
undone f g h i cnt fits a b k = ground (arith, a k, b k, fits k)

Allocated-of :
    (written : Bool) (cnt : ℕ) (s : FreeMap) (place : Option ℕ) (b : Bitmap)
    → IsSized s.free_map
    → bitmap_scan_and_flip s.free_map 0 cnt false ≡ some (place, b)
    → b.bit_cnt ≡ sectors s
    → IsFirstFit (used s) (sectors s) 0 cnt false place
    → ((k : ℕ)
        → view b k
          ≡ (elim place [ none ↦ used s k | some i ↦ if within i cnt k then true else used s k ]))
    → Allocated written cnt s (free_map_allocate written cnt s)
unfolding free_map_allocate
Allocated-of written cnt s none b z e c f n = record {
  place = none;
  after = s;
  returned = rw (e, free_map_allocate) refl;
  same_sectors = refl;
  same_file = refl;
  first = λ ok. f;
  refused = λ bad. refl;
  new_used = λ k. refl;
}
Allocated-of written cnt s (some i) b z e c f n = elim (Bool-cases (s.has_file && not written)) [
  | inl bad ↦
      let u = bitmap_set_multiple-Changed b i cnt false (rw c z) (omega (arith, c, f.1)) in
      record {
        place = none;
        after = record (write_map written (record s { free_map = b })) { free_map = u.after };
        returned = rw (e, bad, u.returned, free_map_allocate) refl;
        same_sectors = u.same_cnt ∙ c;
        same_file = refl;
        first = λ ok. cc;
        refused = λ h. refl;
        new_used = undone (used s) (view b) (view u.after) i cnt f.2 n u.new_view;
      }
  | inr ok ↦ record {
    place = some i;
    after = write_map written (record s { free_map = b });
    returned = rw (e, ok, free_map_allocate) refl;
    same_sectors = c;
    same_file = refl;
    first = λ h. f;
    refused = λ bad. cc;
    new_used = n;
  }
]

-- free_map_allocate does not fail. It gives the first run of `cnt` free sectors, and takes these and no
-- others, if there is such a run and the map gets onto the disk; else it gives none and takes none.
pub free_map_allocate-Allocated :
    (written : Bool) (cnt : ℕ) (s : FreeMap)
    → IsSized s.free_map
    → Allocated written cnt s (free_map_allocate written cnt s)
free_map_allocate-Allocated written cnt s z =
    let f = bitmap_scan_and_flip-Flipped s.free_map 0 cnt false z (omega arith) in
    Allocated-of written cnt s f.place f.after z f.returned f.same_cnt f.first f.new_view

module _ (start cnt : ℕ) (s : FreeMap) (z : IsSized s.free_map) (h : start + cnt ≤ sectors s) where
  -- free_map_release of sectors that are all in use does not fail, and frees these and no others; the map in
  -- the free map's file, which must be open, is the new one if it can be written.
  pub free_map_release-frees :
      Fits (used s) start cnt true
      → s.has_file ≡ true
      → (s' : FreeMap) × (free_map_release start cnt s ≡ some s')
        × (sectors s' ≡ sectors s)
        × (s'.has_file ≡ true)
        × (s'.writes ≡ s.writes)
        × (s'.in_file ≡ (if s.writes then some s'.free_map else none))
        × ((k : ℕ) → used s' k ≡ (if within start cnt k then false else used s k))
  unfolding free_map_release
  free_map_release-frees all file =
      let u = bitmap_set_multiple-Changed s.free_map start cnt false z h in
      let q = (bitmap_count-queries s.free_map start cnt z h true).4 in
      let taken : bitmap_all s.free_map start cnt ≡ some true =
        ground (arith, q, count_of_Fits (used s) start cnt true all) in
      (
        write_map s.writes (record s { free_map = u.after }),
        rw (taken, u.returned, file, free_map_release) refl,
        u.same_cnt,
        file,
        refl,
        rw file refl,
        u.new_view,
      )
