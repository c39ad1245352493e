-- ===== src/FdTable/Close.antt =====
-- sys_close of pintos-kaist/userprog/syscall.c: a file is closed with its last descriptor.
use mathlib.Core.Path.{subst}
use w12_13_vm.Common.{
  ℕ, ◌+◌, ◌-◌, ◌<◌, ◌≡◌, ◌≢◌, refl, sym, ap, ◌∙◌, false, some, ◌==◌, arith, update, update_here,
  Bool-cases, inl, inr,
}
use w12_13_vm.Common.Int.{ℤ, pos, pos_part, ◌-ℤ◌, -ℤ_parts, eq_of_parts}
use w12_13_vm.FileSys.{FileSys, OpenFile, is_zero}
use w12_13_vm.FileSys.Opens.{IsTable}
use w12_13_vm.Files.{decrease_dup_count, check_dup_count}
use w12_13_vm.Files.Closing.{IsOpenFile, FileClosed, file_close-FileClosed}
use w12_13_vm.FdTable.{
  Slot, empty, stdin, stdout, file_at, Fds, max_fd, is_bad_fd, slot_of, set_slot, close_slot,
  sys_close,
}
use w12_13_vm.FdTable.Slots.{
  one, count_slots, holders, holds_one, stored, IsCountedBy, IsCounted, IsSoundBy, IsSound,
}

-- What sys_close does to the descriptor `fd`, where `n` counts the descriptors.
pub record FdClosed (n : Slot → ℕ) (fd : ℤ) (t t' : Fds) : Type 0 where
  pub slots : t'.fd_table ≡ update t.fd_table (pos_part fd) empty
  pub same_idx : t'.fd_idx ≡ t.fd_idx
  pub last_closes :
      (f : ℕ)
      → slot_of fd t ≡ file_at f
      → n (file_at f) ≡ 1
      → FileClosed f (decrease_dup_count f t.sys) t'.sys
  pub not_last :
      (f : ℕ) → slot_of fd t ≡ file_at f → 1 < n (file_at f) → t'.sys ≡ decrease_dup_count f t.sys
  pub console : ((f : ℕ) → slot_of fd t ≢ file_at f) → t'.sys ≡ t.sys

less_one : (z : ℤ) (n m : ℕ) → z ≡ pos n → m + 1 ≡ n → z -ℤ pos 1 ≡ pos m
less_one z n m e h = eq_of_parts _ (pos m) (ground (arith, -ℤ_parts z (pos 1)))

no_file : (v : Slot) (f : ℕ) → one v (file_at f) ≡ 0 → v ≢ file_at f
no_file v f z e =
    let z' : one (file_at f) (file_at f) ≡ 0 = subst (λ x. one x (file_at f) ≡ 0) e z in
    ground arith

-- `n` counts the descriptors before, and `m` after.
module _ (fd : ℤ) (t : Fds) (n m : Slot → ℕ) (c : IsCountedBy n t)
    (step : (w : Slot) → m w + one (slot_of fd t) w ≡ n w + one empty w) where
  counts : (v w : Slot) → slot_of fd t ≡ v → m w + one v w ≡ n w + one empty w
  counts v w e = rw (sym e) (step w)

  console_counted :
      (v : Slot) (t' : Fds)
      → slot_of fd t ≡ v
      → ((f : ℕ) → one v (file_at f) ≡ 0)
      → t'.sys ≡ t.sys
      → t'.stdin_count ≡ pos (m stdin)
      → t'.stdout_count ≡ pos (m stdout)
      → IsCountedBy m t'
  console_counted v t' e other same a b = record {
    stdins = a;
    stdouts = b;
    files = λ f p.
        let k : m (file_at f) ≡ n (file_at f) = omega (arith, counts v (file_at f) e, other f) in
        ap (λ s. (s.files f).dup_count) same ∙ c.files f (omega (arith, k, p)) ∙ ap pos (sym k);
  }

  -- The state without the descriptor of a file; `s` is what has become of the file system.
  abbrev left : FileSys → Fds
  left s = set_slot fd empty (record t { sys = s })

  file_counted :
      (f : ℕ) (s : FileSys)
      → slot_of fd t ≡ file_at f
      → ((g : ℕ) → (s.files g).dup_count ≡ ((decrease_dup_count f t.sys).files g).dup_count)
      → IsCountedBy m (left s)
  file_counted f s e d = record {
    stdins = c.stdins ∙ ap pos (omega (arith, counts (file_at f) stdin e));
    stdouts = c.stdouts ∙ ap pos (omega (arith, counts (file_at f) stdout e));
    files = λ g p.
        let k = counts (file_at f) (file_at g) e in
        d g ∙ elim (Bool-cases (f == g)) [
          | inl q ↦
              let less : m (file_at g) + 1 ≡ n (file_at g) = omega (arith, rw q at k) in
              let f_is_g : f ≡ g = ground arith in
              let was =
                ap (λ x. (t.sys.files x).dup_count) f_is_g ∙ c.files g (omega (arith, less)) in
              rw q (less_one _ _ _ was less)
          | inr q ↦
              let same : m (file_at g) ≡ n (file_at g) = omega (arith, rw q at k) in
              rw q (c.files g (omega (arith, same, p)) ∙ ap pos (sym same))
        ];
  }

-- An open file is one whatever its count of descriptors.
module _ (f : ℕ) (s : FileSys) where
  abbrev fewer : OpenFile
  fewer = record (s.files f) { dup_count = (s.files f).dup_count -ℤ pos 1 }

  decreased-IsOpenFile : IsOpenFile f s → IsOpenFile f (decrease_dup_count f s)
  decreased-IsOpenFile h = record {
    is_in = rw (update_here s.files f fewer) h.is_in;
    denial = rw (update_here s.files f fewer) h.denial;
    owns = rw (update_here s.files f fewer) h.owns;
  }

  decreased-IsTable : IsTable s → IsTable (decrease_dup_count f s)
  decreased-IsTable v = record { once = v.once; counted = v.counted; unique = v.unique }

  decreased_zero :
      (n m : ℕ)
      → (s.files f).dup_count ≡ pos n
      → m + 1 ≡ n
      → is_zero (check_dup_count f (decrease_dup_count f s)) ≡ is_zero (pos m)
  decreased_zero n m e h =
      ap (λ x. is_zero x.dup_count) (update_here s.files f fewer) ∙ ap is_zero (less_one _ n m e h)

module _ (fd : ℤ) (t : Fds) (n m : Slot → ℕ) (h : IsSoundBy n t)
    (step : (w : Slot) → m w + one (slot_of fd t) w ≡ n w + one empty w)
    (held : (f : ℕ) → slot_of fd t ≡ file_at f → 0 < n (file_at f)) where
  Closes : Slot → Type 0
  Closes v = (t' : Fds) × (close_slot v fd t ≡ some t') × IsCountedBy m t' × FdClosed n fd t t'

  file_closed : (f : ℕ) → slot_of fd t ≡ file_at f → Closes (file_at f)
  unfolding Closes close_slot
  file_closed f e =
      let s = decrease_dup_count f t.sys in
      let some_hold = held f e in
      let dups = h.counted.files f some_hold in
      elim (Bool-cases (n (file_at f) == 1)) [
        | inl z ↦
            let last = decreased_zero f t.sys _ 0 dups (ground arith) in
            let (s', r, w) =
              file_close-FileClosed f s (decreased-IsTable f t.sys h.table)
                (decreased-IsOpenFile f t.sys (h.opened f some_hold)) in
            (
              set_slot fd empty (record t { sys = s' }),
              rw (last, r) refl,
              file_counted fd t n m h.counted step f s' e w.same_counts,
              record {
                slots = refl;
                same_idx = refl;
                last_closes = λ g q k.
                    let f_is_g : f ≡ g = cc in
                    subst (λ x. FileClosed x (decrease_dup_count x t.sys) s') f_is_g w;
                not_last =
                    λ g q k. let g_is_f : g ≡ f = cc in absurd (ground (arith, rw g_is_f at k));
                console = λ none_held. absurd (none_held f e);
              },
            )
        | inr z ↦
            let more = decreased_zero f t.sys _ (n (file_at f) - 1) dups (ground (arith, z)) in
            let not_zero : is_zero (pos (n (file_at f) - 1)) ≡ false = ground (arith, z) in
            (
              set_slot fd empty (record t { sys = s }),
              rw (more, not_zero) refl,
              file_counted fd t n m h.counted step f s e (λ g. refl),
              record {
                slots = refl;
                same_idx = refl;
                last_closes =
                    λ g q k. let g_is_f : g ≡ f = cc in absurd (ground (arith, rw g_is_f at k));
                not_last =
                    λ g q k. let f_is_g : f ≡ g = cc in ap (λ x. decrease_dup_count x t.sys) f_is_g;
                console = λ none_held. absurd (none_held f e);
              },
            )
      ]

  console_closed :
      (v : Slot) (t' : Fds)
      → slot_of fd t ≡ v
      → ((f : ℕ) → one v (file_at f) ≡ 0)
      → close_slot v fd t ≡ some t'
      → t'.fd_table ≡ update t.fd_table (pos_part fd) empty
      → t'.fd_idx ≡ t.fd_idx
      → t'.sys ≡ t.sys
      → t'.stdin_count ≡ pos (m stdin)
      → t'.stdout_count ≡ pos (m stdout)
      → Closes v
  unfolding Closes
  console_closed v t' e other r slots idx same a b = (
    t',
    r,
    console_counted fd t n m h.counted step v t' e other same a b,
    record {
      slots = slots;
      same_idx = idx;
      last_closes = λ f q k. absurd (no_file v f (other f) (sym e ∙ q));
      not_last = λ f q k. absurd (no_file v f (other f) (sym e ∙ q));
      console = λ none_held. same;
    },
  )

  closed-of : (v : Slot) → slot_of fd t ≡ v → Closes v
  unfolding close_slot
  closed-of empty e =
      let u = counts fd t n m h.counted step empty in
      console_closed empty (set_slot fd empty t) e (λ f. refl) refl refl refl refl
        (h.counted.stdins ∙ ap pos (omega (arith, u stdin e)))
        (h.counted.stdouts ∙ ap pos (omega (arith, u stdout e)))
  closed-of stdin e =
      let u = counts fd t n m h.counted step stdin in
      console_closed stdin _ e (λ f. refl) refl refl refl refl
        (less_one _ _ _ h.counted.stdins (omega (arith, u stdin e)))
        (h.counted.stdouts ∙ ap pos (omega (arith, u stdout e)))
  closed-of stdout e =
      let u = counts fd t n m h.counted step stdout in
      console_closed stdout _ e (λ f. refl) refl refl refl refl
        (h.counted.stdins ∙ ap pos (omega (arith, u stdin e)))
        (less_one _ _ _ h.counted.stdouts (omega (arith, u stdout e)))
  closed-of (file_at f) e = file_closed f e

  -- sys_close of a descriptor in range that is one of those counted.
  pub sys_close_lem :
      is_bad_fd fd ≡ false
      → (t' : Fds) × (sys_close fd t ≡ some t') × IsCountedBy m t' × FdClosed n fd t t'
  unfolding Closes sys_close
  sys_close_lem ok =
      let (t', r, k, w) = closed-of (slot_of fd t) refl in (t', rw (ok, r) refl, k, w)

-- A table with the same slots has the same holders.
pub same_holders : (t t' : Fds) (n : Slot → ℕ) → holders t' ≡ n → IsCountedBy n t' → IsCounted t'
same_holders t t' n e c = subst (λ k. IsCountedBy k t') (sym e) c

pub held_lem :
    (fd : ℤ) (t : Fds) (f : ℕ)
    → is_bad_fd fd ≡ false
    → slot_of fd t ≡ file_at f
    → 0 < holders t (file_at f)
held_lem fd t f ok e =
    let one_at = rw e at (holds_one t.fd_table (file_at f) (pos_part fd) max_fd (ground arith)) in
    ground (arith, one_at)

-- sys_close of a descriptor in range, in a table whose counts are right and whose files are open, does
-- not fail and leaves the counts right. The descriptor is empty and the others are as before. If it was
-- the last one of a file, the file is closed; if it was not, only the file's count changes.
pub sys_close-FdClosed :
    (fd : ℤ) (t : Fds)
    → is_bad_fd fd ≡ false
    → IsSound t
    → (t' : Fds) × (sys_close fd t ≡ some t') × IsCounted t' × FdClosed (holders t) fd t t'
sys_close-FdClosed fd t ok h =
    let u = set_slot fd empty t in
    let (t', r, k, w) =
      sys_close_lem fd t (holders t) (holders u) h (λ v. stored fd t u empty v ok refl)
        (λ f e. held_lem fd t f ok e) ok in
    (t', r, same_holders t t' (holders u) (ap (λ table v. count_slots table v max_fd) w.slots) k, w)
