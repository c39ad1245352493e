-- ===== src/Hash/Rehash.antt =====
-- rehash of pintos-kaist/lib/kernel/hash.c moves every element to its new bucket.
use w12_13_vm.Common.{
  ℕ, zero, suc, ◌+◌, ◌≤◌, ◌<◌, ◌≡◌, refl, sym, ap, ◌∙◌, List, [], ◌∷◌, Bool, false, ◌&&◌, ltb, leb,
  ◌==◌, if◌then◌else◌, arith, Bool-cases, inl, inr, update, count, length,
}
use w12_13_vm.Hash.{Hash, find_bucket, push_front, move_bucket, move_loop, rehash, best_bucket_cnt}
use w12_13_vm.Hash.Buckets.{find_bucket_le, power_positive, best_bucket_cnt_lem}

-- How many elements the first `n` buckets have.
unfoldable pub total : (ℕ → List ℕ) → ℕ → ℕ
total buckets zero = 0
total buckets (suc n) = length (buckets n) + total buckets n

-- How often an element stands in `n` buckets from `i` on.
unfoldable pub occurrences : ℕ → (ℕ → List ℕ) → ℕ → ℕ → ℕ
occurrences x buckets i zero = 0
occurrences x buckets i (suc n) = count x (buckets i) + occurrences x buckets (i + 1) n

-- The same from the bucket `i` on.
unfoldable pub sizes : (ℕ → List ℕ) → ℕ → ℕ → ℕ
sizes buckets i zero = 0
sizes buckets i (suc n) = length (buckets i) + sizes buckets (i + 1) n

sizes-total : (b : ℕ → List ℕ) (n i : ℕ) → total b i + sizes b i n ≡ total b (i + n)
unfolding total sizes
sizes-total b zero i = ground arith
sizes-total b (suc n) i =
    let next : suc i + n ≡ i + suc n = omega arith in
    let one : i + 1 ≡ suc i = omega arith in
    let rest = sizes-total b n (suc i) ∙ ap (total b) next in rw one (omega (arith, rest))

-- Where all of its occurrences lie in one bucket, these are all of them.
occurrences_lem :
    (x : ℕ) (b : ℕ → List ℕ) (fx : ℕ)
    → ((i : ℕ) → 0 < count x (b i) → fx ≡ i)
    → (n i : ℕ) → occurrences x b i n ≡ (if leb i fx && ltb fx (i + n) then count x (b fx) else 0)
unfolding occurrences
occurrences_lem x b fx h zero i = ground arith
occurrences_lem x b fx h (suc n) i =
    let rest = occurrences_lem x b fx h n (i + 1) in
    elim (Bool-cases (fx == i)) [
      | inl q ↦ let fx_is_i : fx ≡ i = ground arith in rw (rest, fx_is_i) (ground arith)
      | inr q ↦ rw rest (ground (arith, h i))
    ]

total_beyond :
    (b : ℕ → List ℕ) (i : ℕ) (l : List ℕ) (n : ℕ) → n ≤ i → total (update b i l) n ≡ total b n
unfolding total
total_beyond b i l zero h = refl
total_beyond b i l (suc n) h =
    let other : (i == n) ≡ false = ground arith in
    rw other (ap (λ k. length (b n) + k) (total_beyond b i l n (omega arith)))

pub total-update :
    (b : ℕ → List ℕ) (i : ℕ) (l : List ℕ) (n : ℕ)
    → i < n
    → total (update b i l) n + length (b i) ≡ total b n + length l
unfolding total
total-update b i l zero h = absurd (omega arith)
total-update b i l (suc n) h = elim (Bool-cases (i == n)) [
  | inl e ↦
      let same : i ≡ n = ground arith in
      rw (e, total_beyond b i l n (omega (arith, same)), sym same) (omega arith)
  | inr e ↦ let rest = total-update b i l n (ground arith) in rw e (omega (arith, rest))
]

-- The elements of `xs` have gone to their buckets.
record Moved (xs : List ℕ) (h r : Hash) : Type 0 where
  buckets : ℕ → List ℕ
  result : r ≡ record h { buckets = buckets }
  counts :
      (j x : ℕ)
      → count x (buckets j)
        ≡ count x (h.buckets j) + (if find_bucket h x == j then count x xs else 0)
  size : 0 < h.bucket_cnt → total buckets h.bucket_cnt ≡ total h.buckets h.bucket_cnt + length xs

pub one_pushed :
    (b : ℕ → List ℕ) (k e j x : ℕ)
    → count x (update b k (e ∷ b k) j)
      ≡ count x (b j) + (if k == j then (if x == e then 1 else 0) else 0)
one_pushed b k e j x = elim (Bool-cases (k == j)) [
  | inl q ↦ let k_is_j : k ≡ j = ground arith in rw (q, k_is_j) (omega arith)
  | inr q ↦ rw q (omega arith)
]

count_step :
    (b : ℕ → List ℕ) (k e j x fx n : ℕ)
    → (x ≡ e → fx ≡ k)
    → count x (update b k (e ∷ b k) j) + (if fx == j then n else 0)
      ≡ count x (b j) + (if fx == j then (if x == e then 1 else 0) + n else 0)
count_step b k e j x fx n h = elim (Bool-cases (x == e)) [
  | inl q ↦
      let bucket : fx ≡ k = h (ground arith) in rw (one_pushed b k e j x, q, bucket) (ground arith)
  | inr q ↦ rw (one_pushed b k e j x, q) (ground arith)
]

move_bucket-Moved : (xs : List ℕ) (h : Hash) → Moved xs h (move_bucket xs h)
unfolding move_bucket find_bucket
move_bucket-Moved [] h = record {
  buckets = h.buckets;
  result = refl;
  counts = λ j x. ground arith;
  size = λ p. omega arith;
}
move_bucket-Moved (e ∷ xs) h =
    let k = find_bucket h e in
    let m = move_bucket-Moved xs (push_front h k e) in
    record {
      buckets = m.buckets;
      result = m.result;
      counts = λ j x.
          m.counts j x
          ∙ count_step h.buckets k e j x (find_bucket h x) (count x xs) (λ q. ap (find_bucket h) q);
      size = λ p. omega (
        arith,
        m.size p,
        total-update h.buckets k (e ∷ h.buckets k) h.bucket_cnt (find_bucket_le h e p),
      );
    }

-- The elements of `n` buckets of a table from `i` on have gone to their buckets.
record AllMoved (n i : ℕ) (old : ℕ → List ℕ) (h r : Hash) : Type 0 where
  buckets : ℕ → List ℕ
  result : r ≡ record h { buckets = buckets }
  counts :
      (j x : ℕ)
      → count x (buckets j)
        ≡ count x (h.buckets j) + (if find_bucket h x == j then occurrences x old i n else 0)
  size :
      0 < h.bucket_cnt → total buckets h.bucket_cnt ≡ total h.buckets h.bucket_cnt + sizes old i n

more_moved :
    (t : Bool) (m a c d : ℕ)
    → m ≡ a + (if t then c else 0)
    → m + (if t then d else 0) ≡ a + (if t then c + d else 0)
more_moved t m a c d e = ground (arith, e)

move_loop-AllMoved :
    (n i : ℕ) (old : ℕ → List ℕ) (h : Hash) → AllMoved n i old h (move_loop n i old h)
unfolding move_loop find_bucket occurrences sizes
move_loop-AllMoved zero i old h = record {
  buckets = h.buckets;
  result = refl;
  counts = λ j x. ground arith;
  size = λ p. omega arith;
}
move_loop-AllMoved (suc n) i old h =
    let m = move_bucket-Moved (old i) h in
    let h1 = record h { buckets = m.buckets } in
    let l = move_loop-AllMoved n (i + 1) old h1 in
    record {
      buckets = l.buckets;
      result = rw (m.result, move_loop) l.result;
      counts = λ j x. l.counts j x ∙ more_moved (find_bucket h x == j) _ _ _ _ (m.counts j x);
      size = λ p. omega (arith, l.size p, m.size p);
    }

-- The buckets hold an element only where its hash says, and the count of elements is right.
pub record IsPlaced (h : Hash) : Type 0 where
  pub some_buckets : 0 < h.bucket_cnt
  pub placed : (i x : ℕ) → 0 < count x (h.buckets i) → find_bucket h x ≡ i
  pub sized : h.elem_cnt ≡ total h.buckets h.bucket_cnt

-- How often an element stands in the table.
abbrev pub members : Hash → ℕ → ℕ
members h x = count x (h.buckets (find_bucket h x))

-- What rehash leaves: the same elements, each in its bucket.
pub record Rehashed (h r : Hash) : Type 0 where
  pub is_placed : IsPlaced r
  pub same_elem_cnt : r.elem_cnt ≡ h.elem_cnt
  pub same_hash : r.hash ≡ h.hash
  pub same_less : r.less ≡ h.less
  pub same_members : (x : ℕ) → members r x ≡ members h x
  pub only : (j x : ℕ) → count x (r.buckets j) ≤ members h x

total_none : (n : ℕ) → total (λ i. []) n ≡ 0
unfolding total
total_none zero = refl
total_none (suc n) = omega (arith, total_none n)

only_there : (h : Hash) → IsPlaced h → (j x : ℕ) → count x (h.buckets j) ≤ members h x
only_there h v j x = elim (Bool-cases (find_bucket h x == j)) [
  | inl q ↦ let here : find_bucket h x ≡ j = ground arith in rw here (omega arith)
  | inr q ↦ ground (arith, v.placed j x)
]

unchanged-Rehashed : (h : Hash) → IsPlaced h → Rehashed h h
unchanged-Rehashed h v = record {
  is_placed = v;
  same_elem_cnt = refl;
  same_hash = refl;
  same_less = refl;
  same_members = λ x. refl;
  only = only_there h v;
}

module _ (h : Hash) (v : IsPlaced h) where
  -- The table with its elements in `c` new buckets.
  moved-Rehashed :
      (c : ℕ)
      → 0 < c
      → Rehashed h
          (move_loop h.bucket_cnt 0 h.buckets (record h { buckets = λ i. []; bucket_cnt = c }))
  unfolding find_bucket total
  moved-Rehashed c p =
      let h0 = record h { buckets = λ i. []; bucket_cnt = c } in
      let m = move_loop-AllMoved h.bucket_cnt 0 h.buckets h0 in
      let all : (x : ℕ) → occurrences x h.buckets 0 h.bucket_cnt ≡ members h x = λ x.
        occurrences_lem x h.buckets (find_bucket h x) (λ i q. v.placed i x q) h.bucket_cnt 0
        ∙ ground (arith, find_bucket_le h x v.some_buckets) in
      let r = record h0 { buckets = m.buckets } in
      let counts : (j x : ℕ)
          → count x (m.buckets j) ≡ (if find_bucket h0 x == j then members h x else 0) =
        λ j x. m.counts j x ∙ ground (arith, all x) in
      let none_more : 0 + h.bucket_cnt ≡ h.bucket_cnt = omega arith in
      let sizes_all = sizes-total h.buckets h.bucket_cnt 0 ∙ ap (total h.buckets) none_more in
      rw m.result (record {
        is_placed = record {
          some_buckets = p;
          placed = λ i x q. ground (arith, counts i x);
          sized = omega (arith, v.sized, m.size p, total_none c, sizes_all);
        };
        same_elem_cnt = refl;
        same_hash = refl;
        same_less = refl;
        same_members = λ x. ground (arith, counts (find_bucket h0 x) x);
        only = λ j x. ground (arith, counts j x);
      })

  -- rehash, with or without room for the new buckets, keeps the elements of the table, and each of them
  -- stands in the bucket of its hash.
  pub rehash-Rehashed : (has_room : Bool) → Rehashed h (rehash has_room h)
  unfolding rehash
  rehash-Rehashed has_room = elim (Bool-cases (best_bucket_cnt h.elem_cnt == h.bucket_cnt)) [
    | inl z ↦ rw z (unchanged-Rehashed h v)
    | inr z ↦ elim (Bool-cases has_room) [
      | inl q ↦
          rw (z, q)
            (moved-Rehashed (best_bucket_cnt h.elem_cnt)
              (power_positive (best_bucket_cnt h.elem_cnt) (best_bucket_cnt_lem h.elem_cnt)))
      | inr q ↦ rw (z, q) (unchanged-Rehashed h v)
    ]
  ]
