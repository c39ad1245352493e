-- ===== src/Swap/RoundTrip.antt =====
-- A page comes back from its slot as it was: anon_swap_out and anon_swap_in of
-- pintos-kaist/vm/anon.c.
use w12_13_vm.Common.{
  ℕ, zero, suc, ◌+◌, ◌-◌, ◌*◌, ◌/◌, ◌%◌, ◌≤◌, ◌<◌, ◌≡◌, refl, ap, Bool, true, false, ◌&&◌, Option,
  none, some, ltb, leb, ◌==◌, if◌then◌else◌, arith, update,
}
use w12_13_vm.Bitmap.{Bitmap, bitmap_scan_and_flip}
use w12_13_vm.Bitmap.View.{view, view-set}
use w12_13_vm.Bitmap.Multiple.{IsSized}
use w12_13_vm.Bitmap.Scan.{IsFirstFit, bitmap_scan_and_flip-Flipped}
use w12_13_vm.Swap.{
  Swap, Page, read_loop, write_loop, anon_swap_in, anon_swap_out, written_out, read_back,
}

-- In the sector `i` of a page, the sector and the offset of a byte.
offset : (i p : ℕ) → i * 512 ≤ p → p < i * 512 + 512 → (p / 512 ≡ i) × (p % 512 ≡ p - i * 512)
offset i p a b = omega arith

-- What the loop has read, for the memory that is left.
pub read_loop_lem :
    (n i : ℕ) (disk : ℕ → ℕ → ℕ) (slot : ℕ) (kva : ℕ → ℕ) (p : ℕ)
    → read_loop n i disk slot kva p ≡ (
        if leb (i * 512) p && ltb p ((i + n) * 512)
        then disk (slot * 8 + p / 512) (p % 512)
        else kva p)
unfolding read_loop
read_loop_lem zero i disk slot kva p = ground arith
read_loop_lem (suc n) i disk slot kva p =
    let kva' : ℕ → ℕ = λ q.
      if leb (i * 512) q && ltb q (i * 512 + 512)
      then disk (slot * 8 + i) (q - i * 512)
      else kva q in
    ground (arith, read_loop_lem n (i + 1) disk slot kva' p, offset i p)

pub write_loop_lem :
    (n i : ℕ) (kva : ℕ → ℕ) (slot : ℕ) (disk : ℕ → ℕ → ℕ) (t j : ℕ)
    → write_loop n i kva slot disk t j ≡ (
        if leb (slot * 8 + i) t && ltb t (slot * 8 + i + n)
        then kva (512 * (t - slot * 8) + j)
        else disk t j)
unfolding write_loop
write_loop_lem zero i kva slot disk t j = ground arith
write_loop_lem (suc n) i kva slot disk t j = ground (
  arith,
  write_loop_lem n (i + 1) kva slot (update disk (slot * 8 + i) (λ q. kva (512 * i + q))) t j,
)

-- What anon_swap_out does to a page with a frame.
pub record SwappedOut (p f : ℕ) (s : Swap) (o : Option (Bool × Swap)) : Type 0 where
  pub slot : ℕ
  pub after : Swap
  pub returned : o ≡ some (true, after)
  pub was_free : view s.swap_table slot ≡ false
  pub in_table : slot < s.swap_table.bit_cnt
  pub same_cnt : after.swap_table.bit_cnt ≡ s.swap_table.bit_cnt
  pub now_taken :
      (k : ℕ) → view after.swap_table k ≡ (if slot == k then true else view s.swap_table k)
  pub has_slot : after.pages p ≡ record { frame = none; swap_idx = some slot }
  pub written :
      (t j : ℕ)
      → after.swap_disk t j ≡ (
          if leb (slot * 8) t && ltb t (slot * 8 + 8)
          then (s.frames f).contents (512 * (t - slot * 8) + j)
          else s.swap_disk t j)

SwappedOut-of :
    (p f : ℕ) (s : Swap) (place : Option ℕ) (b : Bitmap)
    → (s.pages p).frame ≡ some f
    → bitmap_scan_and_flip s.swap_table 0 1 false ≡ some (place, b)
    → b.bit_cnt ≡ s.swap_table.bit_cnt
    → IsFirstFit (view s.swap_table) s.swap_table.bit_cnt 0 1 false place
    → ((k : ℕ)
        → view b k ≡ (elim place [
          | none ↦ view s.swap_table k
          | some i ↦ if leb i k && ltb k (i + 1) then true else view s.swap_table k
        ]))
    → (k : ℕ) → k < s.swap_table.bit_cnt
    → view s.swap_table k ≡ false
    → SwappedOut p f s (anon_swap_out p s)
unfolding anon_swap_out
SwappedOut-of p f s none b h e c fit n k lt free =
    absurd (fit k (omega arith) (omega arith) (λ j a l. let q : j ≡ k = omega arith in rw q free))
SwappedOut-of p f s (some slot) b h e c fit n k lt free = record {
  slot = slot;
  after = written_out p f slot b s;
  returned = rw (e, h, anon_swap_out) refl;
  was_free = fit.2 slot (omega arith) (omega arith);
  in_table = omega (arith, fit.1);
  same_cnt = c;
  now_taken = λ j. ground (arith, n j);
  has_slot = rw h (ground arith);
  written = λ t j. ground (arith, write_loop_lem 8 0 (s.frames f).contents slot s.swap_disk t j);
}

-- anon_swap_out of a page with a frame, while some slot is free, returns true: it takes a free slot and
-- writes the frame to the eight sectors of that slot, and no other slot or sector changes.
pub anon_swap_out-SwappedOut :
    (p f k : ℕ) (s : Swap)
    → IsSized s.swap_table
    → (s.pages p).frame ≡ some f
    → k < s.swap_table.bit_cnt
    → view s.swap_table k ≡ false
    → SwappedOut p f s (anon_swap_out p s)
anon_swap_out-SwappedOut p f k s z h lt free =
    let a = bitmap_scan_and_flip-Flipped s.swap_table 0 1 false z (omega arith) in
    SwappedOut-of p f s a.place a.after h a.returned a.same_cnt a.first a.new_view k lt free

anon_swap_in-SwappedOut :
    (p f g : ℕ) (s : Swap) (o : Option (Bool × Swap)) (out : SwappedOut p f s o)
    → (s' : Swap) × (anon_swap_in p g out.after ≡ some (true, s'))
      × ((j : ℕ) → j < 4096 → (s'.frames g).contents j ≡ (s.frames f).contents j)
      × ((k : ℕ) → view s'.swap_table k ≡ view s.swap_table k)
      × ((s'.pages p).swap_idx ≡ none)
unfolding anon_swap_in
anon_swap_in-SwappedOut p f g s o out =
    let s1 = out.after in
    let idx = ap (λ (x : Page). x.swap_idx) out.has_slot in
    let (b, e, c, w) =
      view-set s1.swap_table out.slot false (omega (arith, out.in_table, out.same_cnt)) in
    (
      read_back p g out.slot b s1,
      rw (idx, e, anon_swap_in) refl,
      λ j lt. ground (
        arith,
        read_loop_lem 8 0 s1.swap_disk out.slot (s1.frames g).contents j,
        out.written (out.slot * 8 + j / 512) (j % 512),
      ),
      λ k. ground (arith, w k, out.now_taken k, out.was_free),
      ground arith,
    )

-- anon_swap_out of a page with a frame, while some slot is free, returns true; and then anon_swap_in brings the
-- page back, into any frame, as it was: the slots that were free are free again and no other is, and the page has
-- no slot.
pub anon_swap_in-anon_swap_out :
    (p f g k : ℕ) (s : Swap)
    → IsSized s.swap_table
    → (s.pages p).frame ≡ some f
    → k < s.swap_table.bit_cnt
    → view s.swap_table k ≡ false
    → (out : Swap) × (s' : Swap) × (anon_swap_out p s ≡ some (true, out))
      × (anon_swap_in p g out ≡ some (true, s'))
      × ((j : ℕ) → j < 4096 → (s'.frames g).contents j ≡ (s.frames f).contents j)
      × ((i : ℕ) → view s'.swap_table i ≡ view s.swap_table i)
      × ((s'.pages p).swap_idx ≡ none)
anon_swap_in-anon_swap_out p f g k s z h lt free =
    let out = anon_swap_out-SwappedOut p f k s z h lt free in
    let (s', back, contents, slots, no_slot) =
      anon_swap_in-SwappedOut p f g s (anon_swap_out p s) out in
    (out.after, s', out.returned, back, contents, slots, no_slot)
