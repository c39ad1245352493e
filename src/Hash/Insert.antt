-- ===== src/Hash/Insert.antt =====
-- hash_insert of pintos-kaist/lib/kernel/hash.c adds one element to the set.
use w12_13_vm.Common.{
  ℕ, ◌+◌, ◌<◌, ◌≡◌, ◌≢◌, refl, ap, ◌∙◌, ◌∷◌, Bool, false, Option, none, some, ltb, ◌==◌,
  if◌then◌else◌, arith, Bool-cases, inl, inr,
}
use w12_13_vm.Hash.{Hash, find_bucket, is_same, find_elem, insert_elem, hash_insert, hash_find}
use w12_13_vm.Hash.Buckets.{find_bucket_le}
use w12_13_vm.Hash.Rehash.{total-update, one_pushed, IsPlaced, members, rehash-Rehashed}
use w12_13_vm.Hash.Table.{
  Respects, IsHash, IsFound, find_elem-InList, IsFound-of, Rehashed-IsHash, finds_lem,
}

module _ (h : Hash) (v : IsHash h) (ok : Respects h.hash h.less) where
  itself : (e : ℕ) → is_same h.less e e ≢ false
  itself e q = cc (q, ok.irreflexive e)

  swapped : (x y : ℕ) → is_same h.less x y ≡ is_same h.less y x
  swapped x y = ground arith

  -- An element that is not in the table, nor one that is the same, is in front of its bucket.
  abbrev with_elem : ℕ → Hash
  with_elem e = insert_elem h (find_bucket h e) e

  with_members : (e x : ℕ) → members (with_elem e) x ≡ members h x + (if x == e then 1 else 0)
  unfolding find_bucket
  with_members e x =
      let k = find_bucket h e in
      one_pushed h.buckets k e (find_bucket h x) x ∙ elim (Bool-cases (x == e)) [
        | inl q ↦
            let bucket : k ≡ find_bucket h x = ap (find_bucket h) (ground arith) in
            rw (q, bucket) (ground arith)
        | inr q ↦ rw q (ground arith)
      ]

  with-IsPlaced : (e : ℕ) → IsPlaced (with_elem e)
  unfolding find_bucket
  with-IsPlaced e =
      let k = find_bucket h e in
      record {
        some_buckets = v.placed.some_buckets;
        placed = λ i x p.
            let pushed = one_pushed h.buckets k e i x in
            elim (Bool-cases (x == e)) [
              | inl q ↦ elim (Bool-cases (k == i)) [
                | inl r ↦
                    let x_is_e : x ≡ e = ground arith in
                    let k_is_i : k ≡ i = ground arith in ap (find_bucket h) x_is_e ∙ k_is_i
                | inr r ↦ v.placed.placed i x (ground (arith, p, pushed, r))
              ]
              | inr q ↦ v.placed.placed i x (ground (arith, p, rw q at pushed))
            ];
        sized = omega (
          arith,
          v.placed.sized,
          total-update h.buckets k (e ∷ h.buckets k) h.bucket_cnt
              (find_bucket_le h e v.placed.some_buckets),
        );
      }

  with-IsHash :
      (e : ℕ) → ((x : ℕ) → 0 < members h x → is_same h.less x e ≡ false) → IsHash (with_elem e)
  with-IsHash e none_same =
      let fresh : members h e ≡ 0 = elim (Bool-cases (ltb 0 (members h e))) [
        | inl q ↦ absurd (itself e (none_same e (ground arith)))
        | inr q ↦ ground arith
      ] in
      record {
        placed = with-IsPlaced e;
        once = λ x. elim (Bool-cases (x == e)) [
          | inl q ↦
              let x_is_e : x ≡ e = ground arith in
              omega (arith, rw q at (with_members e x), ap (members h) x_is_e, fresh)
          | inr q ↦ omega (arith, rw q at (with_members e x), v.once x)
        ];
        distinct = λ x y p q same. elim (Bool-cases (x == e)) [
          | inl r ↦ elim (Bool-cases (y == e)) [
            | inl t ↦ ground arith
            | inr t ↦
                let x_is_e : x ≡ e = ground arith in
                let y_in : 0 < members h y = omega (arith, q, rw t at (with_members e y)) in
                cc (none_same y y_in, swapped y e ∙ rw x_is_e at same)
          ]
          | inr r ↦
              let x_in : 0 < members h x = omega (arith, p, rw r at (with_members e x)) in
              elim (Bool-cases (y == e)) [
                | inl t ↦
                    let y_is_e : y ≡ e = ground arith in cc (none_same x x_in, rw y_is_e at same)
                | inr t ↦ v.distinct x y x_in (omega (arith, q, rw t at (with_members e y))) same
              ]
        ];
      }

-- What hash_insert of `e` leaves: `e` is a new element, if none was the same.
pub record Inserted (h : Hash) (e : ℕ) (r : Option ℕ × Hash) : Type 0 where
  pub table : IsHash r.1
  pub same_hash : r.1.hash ≡ h.hash
  pub same_less : r.1.less ≡ h.less
  pub old : IsFound h e r.0
  pub added : r.0 ≡ none → (x : ℕ) → members r.1 x ≡ members h x + (if x == e then 1 else 0)
  pub kept : r.0 ≢ none → (x : ℕ) → members r.1 x ≡ members h x
  pub finds : (k : ℕ) → IsFound r.1 k (hash_find r.1 k)

module _ (h : Hash) (v : IsHash h) (ok : Respects h.hash h.less) where
  Inserted-of :
      (has_room : Bool) (e : ℕ) (found : Option ℕ)
      → find_elem h.less (h.buckets (find_bucket h e)) e ≡ found
      → IsFound h e found
      → Inserted h e (hash_insert has_room h e)
  unfolding hash_insert
  Inserted-of has_room e none q f =
      let h1 = with_elem h v ok e in
      let w = rehash-Rehashed h1 (with-IsPlaced h v ok e) has_room in
      rw (q, hash_insert)
        (record {
          table = Rehashed-IsHash h1 _ (with-IsHash h v ok e f) w;
          same_hash = w.same_hash;
          same_less = w.same_less;
          old = f;
          added = λ z x. w.same_members x ∙ with_members h v ok e x;
          kept = λ z. absurd (z refl);
          finds =
              finds_lem h _ (Rehashed-IsHash h1 _ (with-IsHash h v ok e f) w) w.same_hash
                w.same_less ok;
        })
  Inserted-of has_room e (some x) q f =
      let w = rehash-Rehashed h v.placed has_room in
      rw (q, hash_insert)
        (record {
          table = Rehashed-IsHash h _ v w;
          same_hash = w.same_hash;
          same_less = w.same_less;
          old = f;
          added = λ z. cc;
          kept = λ z. w.same_members;
          finds = finds_lem h _ (Rehashed-IsHash h _ v w) w.same_hash w.same_less ok;
        })

  -- hash_insert keeps the table a set without two elements that are the same, whether or not there is room
  -- for new buckets. It returns the element that is the same as `e`, and then the set does not change; if
  -- there is none, `e` is the one element more. After it hash_find gives the element of the set that is the
  -- same as its argument, if there is one. The hash agrees with `less`, which is irreflexive.
  pub hash_insert-Inserted : (has_room : Bool) (e : ℕ) → Inserted h e (hash_insert has_room h e)
  hash_insert-Inserted has_room e =
      Inserted-of has_room e _ refl
        (IsFound-of h v ok e _ (find_elem-InList h.less (h.buckets (find_bucket h e)) e))
