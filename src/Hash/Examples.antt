-- ===== src/Hash/Examples.antt =====
-- The theorems on pintos-kaist/lib/kernel/hash.c at a table of one element, keyed by number.
use mathlib.Core.Path.{subst}
use w12_13_vm.Common.{◌≡◌, refl, ap, [], ◌∷◌, true, none, some, ltb, arith, update}
use w12_13_vm.Hash.{Hash, hash_init, hash_insert, hash_delete}
use w12_13_vm.Hash.Rehash.{total}
use w12_13_vm.Hash.Table.{Respects, IsHash}
use w12_13_vm.Hash.Insert.{Inserted, hash_insert-Inserted}
use w12_13_vm.Hash.Delete.{Deleted, hash_delete-Deleted}

-- The table that hash_init makes.
abbrev new_table : Hash
new_table = record { elem_cnt = 0; bucket_cnt = 4; buckets = λ i. []; hash = λ e. e; less = ltb }

initialised : hash_init true (λ e. e) ltb ≡ some new_table
unfolding hash_init
initialised = refl

ltb-Respects : Respects (λ e. e) ltb
ltb-Respects = record { same_hash = λ x y h. ground arith; irreflexive = λ x. ground arith }

new_table-IsHash : IsHash new_table
unfolding total
new_table-IsHash = record {
  placed = record {
    some_buckets = omega arith;
    placed = λ i x h. absurd (omega arith);
    sized = refl;
  };
  once = λ x. omega arith;
  distinct = λ x y p q h. absurd (omega arith);
}

hash_insert-Inserted_example : Inserted new_table 6 (hash_insert true new_table 6)
hash_insert-Inserted_example = hash_insert-Inserted new_table new_table-IsHash ltb-Respects true 6

-- Element 6 is in bucket 2.
abbrev with_six : Hash
with_six = record new_table { elem_cnt = 1; buckets = update (λ i. []) 2 (6 ∷ []) }

inserted_six : hash_insert true new_table 6 ≡ (none, with_six)
unfolding hash_insert
inserted_six = refl

with_six-IsHash : IsHash with_six
with_six-IsHash =
    subst IsHash (ap (λ r. r.1) inserted_six)
      (hash_insert-Inserted new_table new_table-IsHash ltb-Respects true 6).table

hash_delete-Deleted_example : Deleted with_six 6 (hash_delete true with_six 6)
hash_delete-Deleted_example = hash_delete-Deleted with_six with_six-IsHash ltb-Respects true 6
