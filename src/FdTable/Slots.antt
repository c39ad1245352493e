-- ===== src/FdTable/Slots.antt =====
-- How many descriptors of a table hold the same: the counts of pintos-kaist/userprog/syscall.c.
use w12_13_vm.Common.{
  ℕ, zero, suc, ◌+◌, ◌≤◌, ◌<◌, ◌≡◌, refl, sym, ap, ◌∙◌, Bool, true, false, ◌==◌, if◌then◌else◌,
  arith, update, Bool-cases, inl, inr,
}
use w12_13_vm.Common.Int.{ℤ, pos, pos_part}
use w12_13_vm.FdTable.{
  Slot, empty, stdin, stdout, file_at, Fds, max_fd, is_bad_fd, is_empty, slot_of,
}
use w12_13_vm.FileSys.Opens.{IsTable}
use w12_13_vm.Files.Closing.{IsOpenFile}

abbrev pub same_slot : Slot → Slot → Bool
same_slot empty empty = true
same_slot stdin stdin = true
same_slot stdout stdout = true
same_slot (file_at f) (file_at g) = f == g
same_slot _ _ = false

-- One if the two are the same.
abbrev pub one : Slot → Slot → ℕ
one v w = if same_slot v w then 1 else 0

-- How many of the first `n` slots hold `v`.
unfoldable pub count_slots : (ℕ → Slot) → Slot → ℕ → ℕ
count_slots table v zero = 0
count_slots table v (suc n) = one (table n) v + count_slots table v n

abbrev pub holders : Fds → Slot → ℕ
holders t v = count_slots t.fd_table v max_fd

update_beyond :
    (table : ℕ → Slot) (v w : Slot) (i n : ℕ)
    → n ≤ i
    → count_slots (update table i v) w n ≡ count_slots table w n
unfolding count_slots
update_beyond table v w i zero h = refl
update_beyond table v w i (suc n) h =
    let other : (i == n) ≡ false = ground arith in
    rw other (ap (λ k. one (table n) w + k) (update_beyond table v w i n (omega arith)))

-- A store into the table.
pub count_slots-update :
    (table : ℕ → Slot) (v w : Slot) (i n : ℕ)
    → i < n
    → count_slots (update table i v) w n + one (table i) w ≡ count_slots table w n + one v w
unfolding count_slots
count_slots-update table v w i zero h = absurd (omega arith)
count_slots-update table v w i (suc n) h = elim (Bool-cases (i == n)) [
  | inl e ↦
      let same : i ≡ n = ground arith in
      let rest = update_beyond table v w i n (omega (arith, same)) in
      rw (e, rest, sym same) (omega arith)
  | inr e ↦ let rest = count_slots-update table v w i n (ground arith) in rw e (omega (arith, rest))
]

-- A slot that holds `v` is among them.
pub holds_one :
    (table : ℕ → Slot) (v : Slot) (i n : ℕ) → i < n → one (table i) v ≤ count_slots table v n
unfolding count_slots
holds_one table v i zero h = absurd (omega arith)
holds_one table v i (suc n) h = elim (Bool-cases (i == n)) [
  | inl e ↦ let same : i ≡ n = ground arith in rw same (omega arith)
  | inr e ↦ omega (arith, holds_one table v i n (ground arith))
]

pub same_count : (z : ℤ) (n m : ℕ) → z ≡ pos n → n ≡ m → z ≡ pos m
same_count z n m e h = e ∙ ap pos h

pub is_empty-empty : (v : Slot) → is_empty v ≡ true → v ≡ empty
is_empty-empty empty e = refl
is_empty-empty stdin e = cc
is_empty-empty stdout e = cc
is_empty-empty (file_at f) e = cc

-- The slot `fd` now holds `v`.
pub stored :
    (fd : ℤ) (t t' : Fds) (v w : Slot)
    → is_bad_fd fd ≡ false
    → t'.fd_table ≡ update t.fd_table (pos_part fd) v
    → holders t' w + one (slot_of fd t) w ≡ holders t w + one v w
stored fd t t' v w ok e =
    ap (λ table. count_slots table w max_fd + one (slot_of fd t) w) e
    ∙ count_slots-update t.fd_table v w (pos_part fd) max_fd (ground arith)

-- Every count is what `n` says of the slot's value.
pub record IsCountedBy (n : Slot → ℕ) (t : Fds) : Type 0 where
  pub stdins : t.stdin_count ≡ pos (n stdin)
  pub stdouts : t.stdout_count ≡ pos (n stdout)
  pub files : (f : ℕ) → 0 < n (file_at f) → (t.sys.files f).dup_count ≡ pos (n (file_at f))

-- Every count is the number of the descriptors in the table.
abbrev pub IsCounted : Fds → Type 0
IsCounted t = IsCountedBy (holders t) t

-- Besides, the files that are counted are open.
pub record IsSoundBy (n : Slot → ℕ) (t : Fds) : Type 0 where
  pub counted : IsCountedBy n t
  pub table : IsTable t.sys
  pub opened : (f : ℕ) → 0 < n (file_at f) → IsOpenFile f t.sys

abbrev pub IsSound : Fds → Type 0
IsSound t = IsSoundBy (holders t) t
