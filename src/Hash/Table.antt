-- ===== src/Hash/Table.antt =====
-- A hash table of pintos-kaist/lib/kernel/hash.c is a set of elements without two that are the same.
use mathlib.Core.Path.{subst}
use w12_13_vm.Common.{
  ℕ, zero, suc, ◌≤◌, ◌<◌, ◌≡◌, refl, sym, ap, ◌∙◌, List, [], ◌∷◌, Bool, true, false, Option, none,
  some, ◌==◌, arith, Bool-cases, inl, inr, count, length,
}
use w12_13_vm.Hash.{Hash, find_bucket, is_same, find_elem, hash_empty, hash_find}
use w12_13_vm.Hash.Buckets.{find_bucket_le}
use w12_13_vm.Hash.Rehash.{total, IsPlaced, members, Rehashed}

-- Elements that are the same have one hash, and each is the same as itself.
pub record Respects (hash : ℕ → ℕ) (less : ℕ → ℕ → Bool) : Type 0 where
  pub same_hash : (x y : ℕ) → is_same less x y ≡ true → hash x ≡ hash y
  pub irreflexive : (x : ℕ) → less x x ≡ false

pub record IsHash (h : Hash) : Type 0 where
  pub placed : IsPlaced h
  pub once : (x : ℕ) → members h x ≤ 1
  pub distinct : (x y : ℕ) → 0 < members h x → 0 < members h y → is_same h.less x y ≡ true → x ≡ y

-- What a search for `e` gives: the element that is the same, if the table has one.
abbrev pub IsFound : Hash → ℕ → Option ℕ → Type 0
IsFound h e none = (x : ℕ) → 0 < members h x → is_same h.less x e ≡ false
IsFound h e (some x) = (0 < members h x) × (is_same h.less x e ≡ true)

abbrev pub InList : (ℕ → ℕ → Bool) → List ℕ → ℕ → Option ℕ → Type 0
InList less xs e none = (x : ℕ) → 0 < count x xs → is_same less x e ≡ false
InList less xs e (some x) = (0 < count x xs) × (is_same less x e ≡ true)

pub find_elem-InList :
    (less : ℕ → ℕ → Bool) (xs : List ℕ) (e : ℕ) → InList less xs e (find_elem less xs e)
unfolding find_elem
find_elem-InList less [] e = λ x h. absurd (omega arith)
find_elem-InList less (y ∷ ys) e = elim (Bool-cases (is_same less y e)) [
  | inl z ↦ rw z (ground arith, z)
  | inr z ↦ rw z (behind (find_elem less ys e) (find_elem-InList less ys e) z)
]
  where
    behind :
        (r : Option ℕ) → InList less ys e r → is_same less y e ≡ false → InList less (y ∷ ys) e r
    behind none f z = λ x h. elim (Bool-cases (x == y)) [
      | inl q ↦ let x_is_y : x ≡ y = ground arith in ap (λ k. is_same less k e) x_is_y ∙ z
      | inr q ↦ f x (omega (arith, rw q at h))
    ]
    behind (some x) f z = (omega (arith, f.0), f.1)

count_le : (x : ℕ) (xs : List ℕ) → count x xs ≤ length xs
count_le x [] = omega arith
count_le x (y ∷ ys) = ground (arith, count_le x ys)

length_le : (b : ℕ → List ℕ) (i n : ℕ) → i < n → length (b i) ≤ total b n
unfolding total
length_le b i zero h = absurd (omega arith)
length_le b i (suc n) h = elim (Bool-cases (i == n)) [
  | inl q ↦ let i_is_n : i ≡ n = ground arith in rw i_is_n (omega arith)
  | inr q ↦ omega (arith, length_le b i n (ground arith))
]

pub Rehashed-IsHash : (h r : Hash) → IsHash h → Rehashed h r → IsHash r
Rehashed-IsHash h r v w = record {
  placed = w.is_placed;
  once = λ x. rw (w.same_members x) (v.once x);
  distinct = λ x y p q e.
      v.distinct x y (rw (w.same_members x) at p) (rw (w.same_members y) at q)
        (rw w.same_less at e);
}

module _ (h : Hash) (v : IsHash h) (ok : Respects h.hash h.less) where
  same_bucket : (x e : ℕ) → is_same h.less x e ≡ true → find_bucket h x ≡ find_bucket h e
  unfolding find_bucket
  same_bucket x e q = rw (ok.same_hash x e q) refl

  pub IsFound-of :
      (e : ℕ) (r : Option ℕ) → InList h.less (h.buckets (find_bucket h e)) e r → IsFound h e r
  IsFound-of e none f = λ x p. elim (Bool-cases (is_same h.less x e)) [
    | inl q ↦ f x (rw (same_bucket x e q) at p)
    | inr q ↦ q
  ]
  IsFound-of e (some x) f = (rw (same_bucket x e f.1) f.0, f.1)

  in_count : (x : ℕ) → 0 < members h x → 0 < h.elem_cnt
  in_count x p =
      let k = find_bucket h x in
      omega (
        arith,
        v.placed.sized,
        p,
        count_le x (h.buckets k),
        length_le h.buckets k h.bucket_cnt (find_bucket_le h x v.placed.some_buckets),
      )

  -- hash_find gives the element of the table that is the same as `e`, if there is one.
  pub hash_find-IsFound : (e : ℕ) → IsFound h e (hash_find h e)
  unfolding hash_find hash_empty
  hash_find-IsFound e = elim (Bool-cases (h.elem_cnt == 0)) [
    | inl z ↦
        let none_in : h.elem_cnt ≡ 0 = ground arith in
        rw z (λ x p. absurd (omega (arith, in_count x p, none_in)))
    | inr z ↦ rw z (IsFound-of e _ (find_elem-InList h.less (h.buckets (find_bucket h e)) e))
  ]

-- A search in a table with the same functions.
pub finds_lem :
    (h r : Hash)
    → IsHash r
    → r.hash ≡ h.hash
    → r.less ≡ h.less
    → Respects h.hash h.less
    → (k : ℕ) → IsFound r k (hash_find r k)
finds_lem h r v a b ok =
    hash_find-IsFound r v
      (subst (λ f. Respects f r.less) (sym a) (subst (λ f. Respects h.hash f) (sym b) ok))
