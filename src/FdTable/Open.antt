-- ===== src/FdTable/Open.antt =====
-- sys_open of pintos-kaist/userprog/syscall.c takes a free descriptor.
use w12_13_vm.Common.{
  ℕ, zero, suc, ◌+◌, ◌-◌, ◌≤◌, ◌<◌, ◌≡◌, refl, sym, ap, ◌∙◌, true, false, not, ◌&&◌, some, ltb,
  ◌==◌, arith, update, Bool-cases, inl, inr,
}
use w12_13_vm.Common.Int.{ℤ, pos}
use w12_13_vm.FileSys.{FileSys}
use w12_13_vm.FdTable.{
  Slot, empty, stdin, stdout, file_at, Fds, max_fd, is_empty, minus_one, set_slot, idx_loop,
  find_unused_fd, sys_open,
}
use w12_13_vm.FdTable.Slots.{one, holders, stored, IsCounted, same_count, is_empty-empty}

-- The first free slot from `i` on, or the end of the table.
pub record FirstFree (table : ℕ → Slot) (i r : ℕ) : Type 0 where
  pub from : i ≤ r
  pub in_table : r ≤ max_fd
  pub taken : (k : ℕ) → i ≤ k → k < r → is_empty (table k) ≡ false
  pub free : r < max_fd → is_empty (table r) ≡ true

-- Fuel for the rest of the table is enough.
idx_loop-FirstFree :
    (n : ℕ) (table : ℕ → Slot) (i : ℕ)
    → i ≤ max_fd
    → max_fd - i ≤ n
    → FirstFree table i (idx_loop n table i)
unfolding idx_loop
idx_loop-FirstFree zero table i le h = record {
  from = omega arith;
  in_table = le;
  taken = λ k a b. absurd (omega arith);
  free = λ lt. absurd (omega arith);
}
idx_loop-FirstFree (suc n) table i le h =
    elim (Bool-cases (not (is_empty (table i)) && ltb i max_fd)) [
      | inl z ↦
          let f = idx_loop-FirstFree n table (i + 1) (ground arith) (omega arith) in
          rw (z, idx_loop)
            (record {
              from = omega (arith, f.from);
              in_table = f.in_table;
              taken = λ k a b. elim (Bool-cases (i == k)) [
                | inl q ↦ let i_is_k : i ≡ k = ground arith in rw (sym i_is_k) (ground arith)
                | inr q ↦ f.taken k (ground arith) b
              ];
              free = f.free;
            })
      | inr z ↦
          rw (z, idx_loop)
            (record {
              from = omega arith;
              in_table = le;
              taken = λ k a b. absurd (omega arith);
              free = λ lt. ground arith;
            })
    ]

-- What sys_open leaves when filesys_open gives the file `f`: the first free descriptor from fd_idx on has
-- the file; or there is none.
pub record FileOpened (f : ℕ) (t : Fds) (r : ℤ × Fds) : Type 0 where
  pub place : ℕ
  pub first : FirstFree t.fd_table t.fd_idx place
  pub new_idx : r.1.fd_idx ≡ place
  pub found : place < max_fd → r.0 ≡ pos place
  pub new_slot : place < max_fd → (i : ℕ) → r.1.fd_table i ≡ update t.fd_table place (file_at f) i
  pub counted : place < max_fd → IsCounted r.1
  pub full : place ≡ max_fd → (r.0 ≡ minus_one) × ((i : ℕ) → r.1.fd_table i ≡ t.fd_table i)

module _ (f : ℕ) (t : Fds) (s : FileSys) (idx : t.fd_idx ≤ max_fd) (c : IsCounted t)
    (fresh : holders t (file_at f) ≡ 0) (new_file : (s.files f).dup_count ≡ pos 1)
    (same_counts : (g : ℕ)
      → 0 < holders t (file_at g)
      → (s.files g).dup_count ≡ (t.sys.files g).dup_count) where
  opened-IsCounted :
      (i : ℕ)
      → i < max_fd
      → is_empty (t.fd_table i) ≡ true
      → IsCounted (set_slot (pos i) (file_at f) (record t { fd_idx = i; sys = s }))
  opened-IsCounted i lt e =
      let t' = set_slot (pos i) (file_at f) (record t { fd_idx = i; sys = s }) in
      let was = is_empty-empty (t.fd_table i) e in
      let k : (w : Slot) → holders t' w + one empty w ≡ holders t w + one (file_at f) w =
        λ w. rw was at (stored (pos i) t t' (file_at f) w (ground arith) refl) in
      record {
        stdins = same_count _ _ _ c.stdins (omega (arith, k stdin));
        stdouts = same_count _ _ _ c.stdouts (omega (arith, k stdout));
        files = λ g p. elim (Bool-cases (f == g)) [
          | inl q ↦
              let f_is_g : f ≡ g = ground arith in
              let none_before = ap (λ x. holders t (file_at x)) (sym f_is_g) ∙ fresh in
              same_count _ 1 _ (ap (λ x. (s.files x).dup_count) (sym f_is_g) ∙ new_file)
                (omega (arith, rw q at (k (file_at g)), none_before))
          | inr q ↦
              let same : holders t' (file_at g) ≡ holders t (file_at g) =
                omega (arith, rw q at (k (file_at g))) in
              let before : 0 < holders t (file_at g) = omega (arith, p, same) in
              same_count _ _ _ (same_counts g before ∙ c.files g before) (sym same)
        ];
      }

  -- sys_open, where filesys_open gives a file that no descriptor holds, with a count of one, and changes no
  -- other count: the first free descriptor from fd_idx on holds the file, is returned and becomes fd_idx,
  -- and the counts are right. If none is free from there on, the result is -1 and no descriptor changes.
  pub sys_open-FileOpened : FileOpened f t (sys_open false (some f, s) t)
  unfolding sys_open find_unused_fd
  sys_open-FileOpened =
      let place = idx_loop (max_fd - t.fd_idx) t.fd_table t.fd_idx in
      let first = idx_loop-FirstFree (max_fd - t.fd_idx) t.fd_table t.fd_idx idx (omega arith) in
      elim (Bool-cases (ltb place max_fd)) [
        | inl z ↦ record {
          place = place;
          first = first;
          new_idx = rw z refl;
          found = λ lt. rw z refl;
          new_slot = λ lt i. rw z refl;
          counted = λ lt. rw z (opened-IsCounted place lt (first.free lt));
          full = λ e. absurd (ground (arith, e));
        }
        | inr z ↦ record {
          place = place;
          first = first;
          new_idx = rw z refl;
          found = λ lt. absurd (ground (arith, lt));
          new_slot = λ lt. absurd (ground (arith, lt));
          counted = λ lt. absurd (ground (arith, lt));
          full = λ e. rw z (refl, λ i. refl);
        }
      ]
