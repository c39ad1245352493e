-- ===== src/FdTable/Fork.antt =====
-- The loops of pintos-kaist/userprog/process.c over the descriptors of a process: process_exit closes
-- them, and a fork copies them to the child.
use w12_13_vm.Common.{
  ℕ, zero, suc, ◌+◌, Bool, true, false, Option, none, some, ltb, ◌==◌, if◌then◌else◌, ◌>>=◌,
}
use w12_13_vm.Common.Int.{pos}
use w12_13_vm.FileSys.{FileSys}
use w12_13_vm.Files.{file_duplicate}
use w12_13_vm.FdTable.{
  Slot, empty, stdin, stdout, file_at, Fds, max_fd, is_empty, set_slot, init_fds, sys_close,
}

-- The loop of process_exit from the descriptor `fd` on.
unfoldable pub exit_loop : ℕ → ℕ → Fds → Option Fds
unfolding sys_close
exit_loop zero fd t = some t
exit_loop (suc n) fd t =
    let closed = sys_close (pos fd) t >>= λ t'. exit_loop n (fd + 1) (set_slot (pos fd) empty t') in
    if is_empty (t.fd_table fd) then exit_loop n (fd + 1) t else closed

unfoldable pub close_fds : Fds → Option Fds
unfolding exit_loop
close_fds t = exit_loop max_fd 0 t

-- One slot of the parent in the table of the child; `memory` is what calloc gives for a copy.
unfoldable pub fork_slot : Option ℕ → Slot → ℕ → Fds → Option Fds
fork_slot memory empty fd t = if ltb fd 2 then some (set_slot (pos fd) empty t) else some t
fork_slot memory stdin fd t = some (set_slot (pos fd) stdin t)
fork_slot memory stdout fd t = some (set_slot (pos fd) stdout t)
fork_slot memory (file_at f) fd t =
    let copied = file_duplicate memory f t.sys >>= λ made. some (
      set_slot (pos fd) (elim made.0 as (λ x. Slot) [ none ↦ empty | some g ↦ file_at g ])
        (record t { sys = made.1 })) in
    if ltb fd 2 then some (set_slot (pos fd) (file_at f) t) else copied

unfoldable pub fork_loop : ℕ → ℕ → (ℕ → Option ℕ) → (ℕ → Slot) → Fds → Option Fds
unfolding fork_slot
fork_loop zero fd memory parent t = some t
fork_loop (suc n) fd memory parent t =
    fork_slot (memory fd) (parent fd) fd t >>= λ t'. fork_loop n (fd + 1) memory parent t'

-- The descriptors of the child, or the error when the parent's table is full.
unfoldable pub fork_fds : (ℕ → Option ℕ) → Fds → FileSys → Option (Bool × Fds)
unfolding fork_loop
fork_fds memory parent s =
    let copied = fork_loop max_fd 0 memory parent.fd_table (init_fds s) >>= λ t. some (
      true,
      record t {
        fd_idx = parent.fd_idx;
        stdin_count = parent.stdin_count;
        stdout_count = parent.stdout_count;
      },
    ) in
    if parent.fd_idx == max_fd then some (false, init_fds s) else copied
