-- ===== src/FdTable/Redirect.antt =====
-- sys_write of pintos-kaist/userprog/syscall.c to a descriptor that sys_dup2 has redirected.
use w12_13_vm.Common.{ℕ, ◌≡◌, refl, ◌∙◌, Bool, true, false, none, some, arith, update_here}
use w12_13_vm.Common.Int.{ℤ, pos, pos_part, ◌-ℤ◌, ltb_ℤ}
use w12_13_vm.FileSys.{is_zero}
use w12_13_vm.FdTable.{
  stdin, file_at, Fds, is_empty, is_bad_fd, slot_of, minus_one, sys_write, sys_dup2,
}
use w12_13_vm.FdTable.Slots.{IsSound}
use w12_13_vm.FdTable.Dup.{sys_dup2-Duplicated}

write_to_file :
    (has_bounce : Bool) (fd : ℤ) (buffer : ℕ → ℕ) (size f : ℕ) (t : Fds)
    → is_bad_fd fd ≡ false
    → ltb_ℤ fd (pos 2) ≡ true
    → slot_of fd t ≡ file_at f
    → sys_write has_bounce fd buffer size t ≡ some (minus_one, t)
unfolding sys_write
write_to_file has_bounce fd buffer size f t ok low e = rw (ok, e, low) refl

write_to_stdin :
    (has_bounce : Bool) (fd : ℤ) (buffer : ℕ → ℕ) (size : ℕ) (t : Fds)
    → is_bad_fd fd ≡ false
    → ltb_ℤ fd (pos 2) ≡ false
    → slot_of fd t ≡ stdin
    → sys_write has_bounce fd buffer size t ≡ none
unfolding sys_write
write_to_stdin has_bounce fd buffer size t ok high e =
    let inside : ltb_ℤ (pos 1536) fd ≡ false = ground arith in rw (ok, e, high, inside) refl

module _ (oldfd newfd : ℤ) (t : Fds) (ok : is_bad_fd oldfd ≡ false)
    (new_ok : is_bad_fd newfd ≡ false) (different : is_zero (oldfd -ℤ newfd) ≡ false)
    (in_use : is_empty (slot_of oldfd t) ≡ false) (h : IsSound t) where
  -- After sys_dup2 onto another descriptor, in a table whose counts are right and whose files are open: if
  -- the new descriptor is 0 or 1 and has a file now, sys_write to it gives -1 and writes nothing; if it is
  -- a later one and has the standard input now, sys_write to it does not return to the process.
  pub sys_write-sys_dup2 :
      (has_bounce : Bool) (buffer : ℕ → ℕ) (size : ℕ)
      → (t' : Fds) × (sys_dup2 oldfd newfd t ≡ some (newfd, t'))
        × ((f : ℕ)
            → slot_of oldfd t ≡ file_at f
            → ltb_ℤ newfd (pos 2) ≡ true
            → sys_write has_bounce newfd buffer size t' ≡ some (minus_one, t'))
        × (slot_of oldfd t ≡ stdin
            → ltb_ℤ newfd (pos 2) ≡ false
            → sys_write has_bounce newfd buffer size t' ≡ none)
  sys_write-sys_dup2 has_bounce buffer size =
      let d = sys_dup2-Duplicated oldfd newfd t ok new_ok different in_use h in
      let now =
        d.slots (pos_part newfd) ∙ update_here t.fd_table (pos_part newfd) (slot_of oldfd t) in
      (
        d.after,
        d.returned,
        λ f e low. write_to_file has_bounce newfd buffer size f d.after new_ok low (now ∙ e),
        λ e high. write_to_stdin has_bounce newfd buffer size d.after new_ok high (now ∙ e),
      )
