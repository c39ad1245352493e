-- ===== src/Bitmap/Scan.antt =====
-- bitmap_scan of pintos-kaist/lib/kernel/bitmap.c is the first fit.
use w12_13_vm.Common.{
  ℕ, zero, suc, ◌+◌, ◌-◌, ◌≤◌, ◌<◌, ◌≡◌, refl, Bool, true, not, ◌&&◌, Option, none, some, ltb, leb,
  if◌then◌else◌, arith, Bool-cases, inl, inr,
}
use w12_13_vm.Bitmap.{Bitmap, scan_loop, bitmap_scan, bitmap_scan_and_flip}
use w12_13_vm.Bitmap.View.{view}
use w12_13_vm.Bitmap.Multiple.{
  IsSized, bitmap_set_multiple-Changed, count_bits, bitmap_count-queries,
}

-- The `cnt` bits from `i` on all have the value.
abbrev pub Fits : (ℕ → Bool) → ℕ → ℕ → Bool → Type 0
Fits f i cnt value = (j : ℕ) → i ≤ j → j < i + cnt → f j ≡ value

Fits-of_count :
    (f : ℕ → Bool) (i n : ℕ) (value : Bool) → count_bits f i n (not value) ≡ 0 → Fits f i n value
unfolding count_bits
Fits-of_count f i zero value h j a b = absurd (omega arith)
Fits-of_count f i (suc n) value h j a b = elim (Bool-cases (leb j i)) [
  | inl e ↦ let k : j ≡ i = ground arith in rw k (ground arith)
  | inr e ↦ Fits-of_count f (i + 1) n value (ground arith) j (ground arith) (omega arith)
]

pub count_of_Fits :
    (f : ℕ → Bool) (i n : ℕ) (value : Bool) → Fits f i n value → count_bits f i n (not value) ≡ 0
unfolding count_bits
count_of_Fits f i zero value h = refl
count_of_Fits f i (suc n) value h =
    let rest = count_of_Fits f (i + 1) n value (λ j a b. h j (omega arith) (omega arith)) in
    ground (arith, h i (omega arith) (omega arith))

-- The least place from `start` on, in `limit` bits, where `cnt` bits have the value; `none` if there is
-- no such place.
abbrev pub IsFirstFit : (ℕ → Bool) → ℕ → ℕ → ℕ → Bool → Option ℕ → Type 0
IsFirstFit f limit start cnt value none =
    (k : ℕ) → start ≤ k → k + cnt ≤ limit → ¬ Fits f k cnt value
IsFirstFit f limit start cnt value (some i) =
    (start ≤ i)
    × (i + cnt ≤ limit)
    × Fits f i cnt value
    × ((k : ℕ) → start ≤ k → k < i → ¬ Fits f k cnt value)

IsFirstFit-later :
    (f : ℕ → Bool) (limit start cnt : ℕ) (value : Bool) (r : Option ℕ)
    → ¬ Fits f start cnt value
    → IsFirstFit f limit (start + 1) cnt value r
    → IsFirstFit f limit start cnt value r
IsFirstFit-later f limit start cnt value none n h = λ k a b. elim (Bool-cases (leb k start)) [
  | inl e ↦ let q : k ≡ start = ground arith in rw q n
  | inr e ↦ h k (ground arith) b
]
IsFirstFit-later f limit start cnt value (some i) n h = (
  omega (arith, h.0),
  h.1,
  h.2,
  λ k a b. elim (Bool-cases (leb k start)) [
    | inl e ↦ let q : k ≡ start = ground arith in rw q n
    | inr e ↦ h.3 k (ground arith) b
  ],
)

abbrev pub Scanned : Bitmap → ℕ → ℕ → Bool → Option (Option ℕ) → Type 0
Scanned b start cnt value o =
    (r : Option ℕ) × (o ≡ some r) × IsFirstFit (view b) b.bit_cnt start cnt value r

module _ (b : Bitmap) (z : IsSized b) (cnt : ℕ) (value : Bool) where
  scan_loop_lem :
      (n i : ℕ)
      → n ≡ b.bit_cnt - cnt + 1 - i
      → cnt ≤ b.bit_cnt
      → Scanned b i cnt value (scan_loop n i cnt value b)
  unfolding scan_loop
  scan_loop_lem zero i e c = (none, refl, λ k a l. absurd (omega arith))
  scan_loop_lem (suc n) i e c =
      let holds : i + cnt ≤ b.bit_cnt = omega arith in
      let test = (bitmap_count-queries b i cnt z holds (not value)).1 in
      elim (Bool-cases (ltb 0 (count_bits (view b) i cnt (not value)))) [
        | inl h ↦
            let (r, q, f) = scan_loop_lem n (i + 1) (omega arith) c in
            (
              r,
              rw (test, h, scan_loop) q,
              IsFirstFit-later (view b) b.bit_cnt i cnt value r
                  (λ fits. absurd (ground (arith, count_of_Fits (view b) i cnt value fits))) f,
            )
        | inr h ↦ (
          some i,
          rw (test, h, scan_loop) refl,
          (
            omega arith,
            holds,
            Fits-of_count (view b) i cnt value (ground arith),
            λ k a l. absurd (omega arith),
          ),
        )
      ]

  -- bitmap_scan from a place in the bitmap does not fail, and gives the first place where `cnt` bits have
  -- the value, or BITMAP_ERROR if and only if there is none.
  pub bitmap_scan-IsFirstFit :
      (start : ℕ) → start ≤ b.bit_cnt → Scanned b start cnt value (bitmap_scan b start cnt value)
  unfolding bitmap_scan
  bitmap_scan-IsFirstFit start s =
      let s' : leb start b.bit_cnt ≡ true = ground arith in
      elim (Bool-cases (leb cnt b.bit_cnt)) [
        | inl c ↦
            rw (c, s', bitmap_scan)
              (scan_loop_lem (b.bit_cnt - cnt + 1 - start) start refl (ground arith))
        | inr c ↦ (none, ground arith, λ k a l. absurd (ground arith))
      ]

-- bitmap_scan_and_flip: the place is free before and taken afterwards, and no other bit changes.
pub record Flipped (b : Bitmap) (start cnt : ℕ) (value : Bool) (o : Option (Option ℕ × Bitmap))
    : Type 0 where
  pub place : Option ℕ
  pub after : Bitmap
  pub returned : o ≡ some (place, after)
  pub same_cnt : after.bit_cnt ≡ b.bit_cnt
  pub first : IsFirstFit (view b) b.bit_cnt start cnt value place
  pub new_view :
      (k : ℕ)
      → view after k ≡ (elim place [
        | none ↦ view b k
        | some i ↦ if leb i k && ltb k (i + cnt) then not value else view b k
      ])

-- bitmap_scan_and_flip from a place in the bitmap does not fail. It finds the first fit, as bitmap_scan
-- does, and turns the bits there and no others; where there is no fit, no bit changes.
pub bitmap_scan_and_flip-Flipped :
    (b : Bitmap) (start cnt : ℕ) (value : Bool)
    → IsSized b
    → start ≤ b.bit_cnt
    → Flipped b start cnt value (bitmap_scan_and_flip b start cnt value)
unfolding bitmap_scan_and_flip
bitmap_scan_and_flip-Flipped b start cnt value z s =
    go (bitmap_scan-IsFirstFit b z cnt value start s)
  where
    go :
        Scanned b start cnt value (bitmap_scan b start cnt value)
        → Flipped b start cnt value (bitmap_scan_and_flip b start cnt value)
    go (none, e, f) = record {
      place = none;
      after = b;
      returned = rw (e, bitmap_scan_and_flip) refl;
      same_cnt = refl;
      first = f;
      new_view = λ k. refl;
    }
    go (some i, e, f) =
        let c = bitmap_set_multiple-Changed b i cnt (not value) z f.1 in
        record {
          place = some i;
          after = c.after;
          returned = rw (e, c.returned, bitmap_scan_and_flip) refl;
          same_cnt = c.same_cnt;
          first = f;
          new_view = c.new_view;
        }
