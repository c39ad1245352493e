-- ===== src/FdTable/Dup.antt =====
-- sys_dup2 of pintos-kaist/userprog/syscall.c: the two descriptors share one file.
use mathlib.Core.Path.{subst}
use w12_13_vm.Common.{
  ℕ, ◌+◌, ◌≤◌, ◌<◌, ◌≡◌, ◌≢◌, refl, sym, ap, ◌∙◌, false, Option, some, ltb, ◌==◌, if◌then◌else◌,
  arith, update, fun_ext, update_here, update_else, Bool-cases, inl, inr,
}
use w12_13_vm.Common.Int.{ℤ, pos, pos_part, ◌+ℤ◌, ◌-ℤ◌, +ℤ_parts, -ℤ_parts, eq_of_parts}
use w12_13_vm.FileSys.{FileSys, OpenFile, is_zero}
use w12_13_vm.FileSys.Opens.{IsTable}
use w12_13_vm.Files.{increase_dup_count, file_length, file_seek}
use w12_13_vm.Files.Closing.{IsOpenFile}
use w12_13_vm.FdTable.{
  Slot, empty, stdin, stdout, file_at, Fds, max_fd, is_empty, is_bad_fd, slot_of, set_slot, share,
  sys_close, sys_dup2, sys_seek, sys_tell,
}
use w12_13_vm.FdTable.Slots.{
  one, count_slots, holders, stored, IsCountedBy, IsCounted, IsSoundBy, IsSound, same_count,
  is_empty-empty,
}
use w12_13_vm.FdTable.Close.{sys_close_lem, held_lem}

one_more : (z : ℤ) (n m : ℕ) → z ≡ pos n → n + 1 ≡ m → z +ℤ pos 1 ≡ pos m
one_more z n m e h = eq_of_parts _ (pos m) (ground (arith, +ℤ_parts z (pos 1)))

module _ (f : ℕ) (s : FileSys) where
  abbrev raised : OpenFile
  raised = record (s.files f) { dup_count = (s.files f).dup_count +ℤ pos 1 }

  increased-IsOpenFile : (g : ℕ) → IsOpenFile g s → IsOpenFile g (increase_dup_count f s)
  increased-IsOpenFile g h = elim (Bool-cases (f == g)) [
    | inl e ↦
        let g_is_f : f ≡ g = ground arith in
        subst (λ x. IsOpenFile x (increase_dup_count f s)) g_is_f
          (here (subst (λ x. IsOpenFile x s) (sym g_is_f) h))
    | inr e ↦ record { is_in = rw e h.is_in; denial = rw e h.denial; owns = rw e h.owns }
  ]
    where
      here : IsOpenFile f s → IsOpenFile f (increase_dup_count f s)
      here k = record {
        is_in = rw (update_here s.files f raised) k.is_in;
        denial = rw (update_here s.files f raised) k.denial;
        owns = rw (update_here s.files f raised) k.owns;
      }

  increased_count :
      (g n : ℕ)
      → (s.files g).dup_count ≡ pos n
      → ((increase_dup_count f s).files g).dup_count ≡ pos (n + one (file_at f) (file_at g))
  increased_count g n e = elim (Bool-cases (f == g)) [
    | inl q ↦ let f_is_g : f ≡ g = ground arith in rw q (one_more _ n _ (rw f_is_g e) (omega arith))
    | inr q ↦ rw q (same_count _ n _ e (omega arith))
  ]

-- The slot `v` in range is counted once more.
module _ (fd : ℤ) (t : Fds) (ok : is_bad_fd fd ≡ false) (h : IsSound t) where
  console_shared :
      (v : Slot) (t' : Fds)
      → ((f : ℕ) → one v (file_at f) ≡ 0)
      → t'.sys ≡ t.sys
      → t'.stdin_count ≡ pos (holders t stdin + one v stdin)
      → t'.stdout_count ≡ pos (holders t stdout + one v stdout)
      → IsSoundBy (λ w. holders t w + one v w) t'
  console_shared v t' other same a b = record {
    counted = record {
      stdins = a;
      stdouts = b;
      files = λ f p.
          ap (λ s. (s.files f).dup_count) same
          ∙ same_count _ _ _ (h.counted.files f (omega (arith, p, other f)))
              (omega (arith, other f));
    };
    table = subst IsTable (sym same) h.table;
    opened = λ f p. subst (IsOpenFile f) (sym same) (h.opened f (omega (arith, p, other f)));
  }

  still_held :
      (f g : ℕ)
      → slot_of fd t ≡ file_at f
      → 0 < holders t (file_at g) + one (file_at f) (file_at g)
      → 0 < holders t (file_at g)
  still_held f g e p = elim (Bool-cases (f == g)) [
    | inl q ↦
        let f_is_g : f ≡ g = ground arith in
        subst (λ x. 0 < holders t (file_at x)) f_is_g (held_lem fd t f ok e)
    | inr q ↦ omega (arith, rw q at p)
  ]

  share-IsSoundBy :
      (v : Slot) → slot_of fd t ≡ v → IsSoundBy (λ w. holders t w + one v w) (share v t)
  unfolding share
  share-IsSoundBy empty e =
      console_shared empty t (λ f. refl) refl (same_count _ _ _ h.counted.stdins (omega arith))
        (same_count _ _ _ h.counted.stdouts (omega arith))
  share-IsSoundBy stdin e =
      console_shared stdin _ (λ f. refl) refl (one_more _ _ _ h.counted.stdins refl)
        (same_count _ _ _ h.counted.stdouts (omega arith))
  share-IsSoundBy stdout e =
      console_shared stdout _ (λ f. refl) refl (same_count _ _ _ h.counted.stdins (omega arith))
        (one_more _ _ _ h.counted.stdouts refl)
  share-IsSoundBy (file_at f) e = record {
    counted = record {
      stdins = same_count _ _ _ h.counted.stdins (omega arith);
      stdouts = same_count _ _ _ h.counted.stdouts (omega arith);
      files = λ g p. increased_count f t.sys g _ (h.counted.files g (still_held f g e p));
    };
    table = record { once = h.table.once; counted = h.table.counted; unique = h.table.unique };
    opened = λ g p. increased-IsOpenFile f t.sys g (h.opened g (still_held f g e p));
  }

share_slots : (v : Slot) (t : Fds) → (share v t).fd_table ≡ t.fd_table
unfolding share
share_slots empty t = refl
share_slots stdin t = refl
share_slots stdout t = refl
share_slots (file_at f) t = refl

-- What sys_dup2 leaves.
pub record Duplicated (oldfd newfd : ℤ) (t : Fds) (r : Option (ℤ × Fds)) : Type 0 where
  pub after : Fds
  pub returned : r ≡ some (newfd, after)
  pub counted : IsCounted after
  pub slots : (i : ℕ) → after.fd_table i ≡ update t.fd_table (pos_part newfd) (slot_of oldfd t) i

-- The table when the descriptor `newfd` is free, and `v` is counted once more.
record Room (newfd : ℤ) (v : Slot) (t t' : Fds) : Type 0 where
  free : slot_of newfd t' ≡ empty
  same_slots : (i : ℕ) → pos_part newfd ≢ i → t'.fd_table i ≡ t.fd_table i
  counted : IsCountedBy (λ w. holders t' w + one v w) t'

-- A table whose descriptor `fd` now holds `v`, which is counted already.
placed :
    (fd : ℤ) (t : Fds) (v : Slot)
    → is_bad_fd fd ≡ false
    → slot_of fd t ≡ empty
    → IsCountedBy (λ w. holders t w + one v w) t
    → IsCounted (set_slot fd v t)
placed fd t v ok e c =
    let t' = set_slot fd v t in
    let k : (w : Slot) → holders t' w + one empty w ≡ holders t w + one v w =
      λ w. rw e at (stored fd t t' v w ok refl) in
    record {
      stdins = same_count _ _ _ c.stdins (omega (arith, k stdin));
      stdouts = same_count _ _ _ c.stdouts (omega (arith, k stdout));
      files = λ f p.
          same_count _ _ _ (c.files f (omega (arith, k (file_at f), p)))
            (omega (arith, k (file_at f)));
    }

module _ (oldfd newfd : ℤ) (t : Fds) (ok : is_bad_fd oldfd ≡ false)
    (new_ok : is_bad_fd newfd ≡ false) (different : is_zero (oldfd -ℤ newfd) ≡ false)
    (in_use : is_empty (slot_of oldfd t) ≡ false) (h : IsSound t) where
  room : Fds → Option Fds
  room t1 = if is_empty (slot_of newfd t1) then some t1 else sys_close newfd t1

  copied-of :
      (v : Slot) (t2 : Fds)
      → slot_of oldfd t ≡ v
      → room (share (slot_of oldfd t) t) ≡ some t2
      → Room newfd v t t2
      → Duplicated oldfd newfd t (sys_dup2 oldfd newfd t)
  unfolding sys_dup2 room
  copied-of v t2 e r w =
      let apart : pos_part newfd ≢ pos_part oldfd = ground (arith, -ℤ_parts oldfd newfd) in
      let still : slot_of oldfd t2 ≡ v = w.same_slots (pos_part oldfd) apart ∙ e in
      record {
        after = set_slot newfd v t2;
        returned = rw (r, ok, in_use, different, new_ok) (rw still refl);
        counted = placed newfd t2 v new_ok w.free w.counted;
        slots = λ i. elim (Bool-cases (pos_part newfd == i)) [
          | inl q ↦ rw q (sym e)
          | inr q ↦ rw q (w.same_slots i (ground (arith, q)))
        ];
      }

  -- The counts of `t` with `v` once more are those of the shared table.
  shared_holders : (w : Slot) → holders (share (slot_of oldfd t) t) w ≡ holders t w
  shared_holders w = ap (λ table. count_slots table w max_fd) (share_slots (slot_of oldfd t) t)

  room_made :
      (t2 : Fds) × (room (share (slot_of oldfd t) t) ≡ some t2) × Room newfd (slot_of oldfd t) t t2
  unfolding room
  room_made =
      let v = slot_of oldfd t in
      let t1 = share v t in
      let sound = share-IsSoundBy oldfd t ok h v refl in
      let same = share_slots v t in
      elim (Bool-cases (is_empty (slot_of newfd t1))) [
        | inl z ↦ (
          t1,
          rw z refl,
          record {
            free = is_empty-empty (slot_of newfd t1) z;
            same_slots = λ i ne. ap (λ table. table i) same;
            counted =
                subst (λ n. IsCountedBy n t1)
                  (fun_ext λ w. ap (λ k. k + one v w) (sym (shared_holders w))) sound.counted;
          },
        )
        | inr z ↦
            let u = set_slot newfd empty t1 in
            let (t2, r, k, w) =
              sys_close_lem newfd t1 (λ x. holders t x + one v x) (λ x. holders u x + one v x) sound
                (λ x. omega (arith, stored newfd t1 u empty x new_ok refl, shared_holders x))
                (λ f e. omega (arith, held_lem newfd t1 f new_ok e, shared_holders (file_at f)))
                new_ok in
            (
              t2,
              rw (z, r) refl,
              record {
                free =
                    ap (λ table. table (pos_part newfd)) w.slots
                    ∙ update_here t1.fd_table (pos_part newfd) empty;
                same_slots = λ i ne.
                    ap (λ table. table i) w.slots
                    ∙ update_else t1.fd_table (pos_part newfd) empty i ne
                    ∙ ap (λ table. table i) same;
                counted =
                    subst (λ n. IsCountedBy n t2)
                      (fun_ext
                        λ x. ap (λ table. count_slots table x max_fd + one v x) (sym w.slots))
                      k;
              },
            )
      ]

  -- sys_dup2 between two different descriptors in range, the first one in use, in a table whose counts are
  -- right and whose files are open, does not fail and returns the second one. That one then holds what the
  -- first one holds, the others are as before, and the counts are right again.
  pub sys_dup2-Duplicated : Duplicated oldfd newfd t (sys_dup2 oldfd newfd t)
  sys_dup2-Duplicated = let (t2, r, w) = room_made in copied-of (slot_of oldfd t) t2 refl r w

-- Two descriptors of one file share its position: after sys_seek of one to a place in the file, sys_tell
-- of the other gives that place.
pub sys_tell-sys_seek :
    (fd other_fd : ℤ) (f position : ℕ) (t : Fds)
    → is_bad_fd fd ≡ false
    → is_bad_fd other_fd ≡ false
    → slot_of fd t ≡ file_at f
    → slot_of other_fd t ≡ file_at f
    → position ≤ file_length f t.sys
    → sys_tell other_fd (sys_seek fd position t) ≡ some position
unfolding sys_tell sys_seek
sys_tell-sys_seek fd other_fd f position t ok other_ok e g h =
    let inside : ltb (file_length f t.sys) position ≡ false = ground arith in
    let seek : sys_seek fd position t ≡ record t { sys = file_seek f position t.sys } =
      rw (ok, e, inside) refl in
    rw (seek, other_ok, g) (ground arith)
