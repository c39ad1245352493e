-- ===== src/Hash.antt =====
-- pintos-kaist/lib/kernel/hash.c: chained hash tables. An element is named by its address, and a bucket is
-- the sequence that its list links. The functions `hash` and `less` have their `aux` built in. Whether
-- malloc has room for the buckets is an argument.
pub mod Buckets
pub mod Rehash
pub mod Table
pub mod Insert
pub mod Delete
mod Examples
use Prim.Native.Nat.{bit_and}
use w12_13_vm.Common.{
  ℕ, zero, suc, ◌+◌, ◌-◌, ◌*◌, ◌/◌, List, [], ◌∷◌, Bool, true, false, not, ◌&&◌, Option, none, some,
  ltb, ◌==◌, if◌then◌else◌, update,
}

pub record Hash : Type 0 where
  pub elem_cnt : ℕ
  pub bucket_cnt : ℕ
  pub buckets : ℕ → List ℕ
  pub hash : ℕ → ℕ
  pub less : ℕ → ℕ → Bool

-- The number of the bucket.
unfoldable pub find_bucket : Hash → ℕ → ℕ
find_bucket h e = bit_and (h.hash e) (h.bucket_cnt - 1)

abbrev pub is_same : (ℕ → ℕ → Bool) → ℕ → ℕ → Bool
is_same less x y = not (less x y) && not (less y x)

-- The element is one that its caller has: the source's answer for the element NULL, whose hash it has taken
-- before, is left out.
unfoldable pub find_elem : (ℕ → ℕ → Bool) → List ℕ → ℕ → Option ℕ
find_elem less [] e = none
find_elem less (hi ∷ bucket) e = if is_same less hi e then some hi else find_elem less bucket e

unfoldable pub turn_off_least_1bit : ℕ → ℕ
turn_off_least_1bit x = bit_and x (x - 1)

unfoldable pub is_power_of_2 : ℕ → Bool
unfolding turn_off_least_1bit
is_power_of_2 x = not (x == 0) && (turn_off_least_1bit x == 0)

-- The loop of rehash that makes the number a power of two; each round lowers it.
unfoldable pub power_loop : ℕ → ℕ → ℕ
unfolding is_power_of_2 turn_off_least_1bit
power_loop zero new_bucket_cnt = new_bucket_cnt
power_loop (suc f) new_bucket_cnt =
    if is_power_of_2 new_bucket_cnt
    then new_bucket_cnt
    else power_loop f (turn_off_least_1bit new_bucket_cnt)

-- The number of buckets that rehash wants.
unfoldable pub best_bucket_cnt : ℕ → ℕ
unfolding power_loop
best_bucket_cnt elem_cnt =
    let wanted = elem_cnt / 2 in
    let at_least = if ltb wanted 4 then 4 else wanted in power_loop at_least at_least

abbrev pub push_front : Hash → ℕ → ℕ → Hash
push_front h bucket e = record h { buckets = update h.buckets bucket (e ∷ h.buckets bucket) }

-- The elements of one old bucket go to their new ones.
unfoldable pub move_bucket : List ℕ → Hash → Hash
unfolding find_bucket
move_bucket [] h = h
move_bucket (elem ∷ old_bucket) h = move_bucket old_bucket (push_front h (find_bucket h elem) elem)

unfoldable pub move_loop : ℕ → ℕ → (ℕ → List ℕ) → Hash → Hash
unfolding move_bucket
move_loop zero i old_buckets h = h
move_loop (suc n) i old_buckets h = move_loop n (i + 1) old_buckets (move_bucket (old_buckets i) h)

unfoldable pub rehash : Bool → Hash → Hash
unfolding move_loop best_bucket_cnt
rehash has_room h =
    let new_bucket_cnt = best_bucket_cnt h.elem_cnt in
    let empty_table = record h { buckets = λ i. []; bucket_cnt = new_bucket_cnt } in
    if new_bucket_cnt == h.bucket_cnt
    then h
    else if has_room
    then move_loop h.bucket_cnt 0 h.buckets empty_table
    else h

abbrev pub insert_elem : Hash → ℕ → ℕ → Hash
insert_elem h bucket e = push_front (record h { elem_cnt = h.elem_cnt + 1 }) bucket e

unfoldable pub unlink : ℕ → List ℕ → List ℕ
unlink e [] = []
unlink e (x ∷ xs) = if e == x then xs else x ∷ unlink e xs

-- The element is in the list of `bucket`.
unfoldable pub remove_elem : Hash → ℕ → ℕ → Hash
unfolding unlink
remove_elem h bucket e = record h {
  elem_cnt = h.elem_cnt - 1;
  buckets = update h.buckets bucket (unlink e (h.buckets bucket));
}

-- The table is `none` where malloc gives NULL.
unfoldable pub hash_init : Bool → (ℕ → ℕ) → (ℕ → ℕ → Bool) → Option Hash
hash_init has_room hash less =
    if has_room
    then some (record { elem_cnt = 0; bucket_cnt = 4; buckets = λ i. []; hash = hash; less = less })
    else none

unfoldable pub hash_empty : Hash → Bool
hash_empty h = h.elem_cnt == 0

unfoldable pub hash_insert : Bool → Hash → ℕ → Option ℕ × Hash
unfolding find_bucket find_elem rehash
hash_insert has_room h new =
    let bucket = find_bucket h new in
    elim (find_elem h.less (h.buckets bucket) new) [
      | none ↦ (none, rehash has_room (insert_elem h bucket new))
      | some old ↦ (some old, rehash has_room h)
    ]

unfoldable pub hash_replace : Bool → Hash → ℕ → Option ℕ × Hash
unfolding find_bucket find_elem rehash remove_elem
hash_replace has_room h new =
    let bucket = find_bucket h new in
    elim (find_elem h.less (h.buckets bucket) new) [
      | none ↦ (none, rehash has_room (insert_elem h bucket new))
      | some old ↦ (some old, rehash has_room (insert_elem (remove_elem h bucket old) bucket new))
    ]

unfoldable pub hash_find : Hash → ℕ → Option ℕ
unfolding find_bucket find_elem hash_empty
hash_find h e = if hash_empty h then none else find_elem h.less (h.buckets (find_bucket h e)) e

unfoldable pub hash_delete : Bool → Hash → ℕ → Option ℕ × Hash
unfolding find_bucket find_elem rehash remove_elem
hash_delete has_room h e =
    let bucket = find_bucket h e in
    elim (find_elem h.less (h.buckets bucket) e) [
      | none ↦ (none, h)
      | some found ↦ (some found, rehash has_room (remove_elem h bucket found))
    ]
