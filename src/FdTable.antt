-- ===== src/FdTable.antt =====
-- File descriptors: the system calls of pintos-kaist/userprog/syscall.c on the table of a process, which
-- process_init of pintos-kaist/userprog/process.c makes. `none` is a kernel that stops: a failed ASSERT, an
-- access to the addresses 1 and 2 that stand for the console, or a store behind the table. The checks of
-- user addresses have passed; sizes and positions are below 2 ^ 31.
pub mod Slots
pub mod Close
pub mod Dup
pub mod Open
pub mod Redirect
pub mod Start
pub mod Fork
mod Examples
use w12_13_vm.Common.{
  ℕ, zero, suc, ◌+◌, ◌-◌, List, [], ◌∷◌, Bool, true, false, not, ◌&&◌, ◌||◌, Option, none, some,
  ltb, ◌==◌, if◌then◌else◌, ◌>>=◌, length, update,
}
use w12_13_vm.Common.Int.{ℤ, pos, negsuc, pos_part, ◌+ℤ◌, ◌-ℤ◌, ltb_ℤ}
use w12_13_vm.Inode.{copy}
use w12_13_vm.FileSys.{FileSys, is_zero}
use w12_13_vm.Files.{
  increase_dup_count, decrease_dup_count, check_dup_count, file_close, file_read, file_write,
  file_length, file_seek, file_tell, file_duplicate,
}

-- What a `struct file *` of the table is: NULL, STDIN, STDOUT or the address of a file.
pub data Slot : Type 0 where
  empty : Slot
  stdin : Slot
  stdout : Slot
  file_at : ℕ → Slot

-- The fields of `struct thread` for descriptors, with the file system. Slots from MAX_FD on are what lies
-- behind the table.
pub record Fds : Type 0 where
  pub fd_table : ℕ → Slot
  pub fd_idx : ℕ
  pub stdin_count : ℤ
  pub stdout_count : ℤ
  pub sys : FileSys

abbrev pub max_fd : ℕ
max_fd = 1536

abbrev pub is_empty : Slot → Bool
is_empty empty = true
is_empty stdin = false
is_empty stdout = false
is_empty (file_at f) = false

abbrev pub is_stdout : Slot → Bool
is_stdout empty = false
is_stdout stdin = false
is_stdout stdout = true
is_stdout (file_at f) = false

-- `fd < 0 || fd >= MAX_FD`.
abbrev pub is_bad_fd : ℤ → Bool
is_bad_fd fd = ltb_ℤ fd (pos 0) || not (ltb_ℤ fd (pos max_fd))

abbrev pub slot_of : ℤ → Fds → Slot
slot_of fd t = t.fd_table (pos_part fd)

abbrev pub set_slot : ℤ → Slot → Fds → Fds
set_slot fd v t = record t { fd_table = update t.fd_table (pos_part fd) v }

abbrev pub minus_one : ℤ
minus_one = negsuc 0

-- The table is a page of zeros at first.
abbrev pub init_fds : FileSys → Fds
init_fds s = record {
  fd_table = update (update (λ fd. empty) 0 stdin) 1 stdout;
  fd_idx = 2;
  stdin_count = pos 1;
  stdout_count = pos 1;
  sys = s;
}

abbrev pub process_get_file : ℤ → Fds → Slot
process_get_file fd t = if ltb_ℤ fd (pos 2) || ltb_ℤ (pos max_fd) fd then empty else slot_of fd t

abbrev write_slot : Bool → Slot → (ℕ → ℕ) → ℕ → Fds → Option (ℤ × Fds)
write_slot has_bounce empty buffer size t = some (minus_one, t)
write_slot has_bounce stdin buffer size t = none
write_slot has_bounce stdout buffer size t = none
write_slot has_bounce (file_at f) buffer size t =
    let (bytes_written, s) = file_write has_bounce f buffer size t.sys in
    some (pos bytes_written, record t { sys = s })

-- What putbuf prints is not kept.
unfoldable pub sys_write : Bool → ℤ → (ℕ → ℕ) → ℕ → Fds → Option (ℤ × Fds)
sys_write has_bounce fd buffer size t =
    if is_bad_fd fd
    then some (minus_one, t)
    else if is_stdout (slot_of fd t) && not (is_zero t.stdout_count)
    then some (pos size, t)
    else write_slot has_bounce (process_get_file fd t) buffer size t

unfoldable pub sys_filesize : ℤ → Fds → Option ℤ
sys_filesize fd t = if is_bad_fd fd then some minus_one else elim (slot_of fd t) [
  | empty ↦ some minus_one
  | stdin ↦ none
  | stdout ↦ none
  | file_at f ↦ some (pos (file_length f t.sys))
]

abbrev read_slot : Bool → Slot → ℕ → (ℕ → ℕ) → Fds → ℤ × List ℕ × Fds
read_slot has_bounce empty size keys t = (minus_one, [], t)
read_slot has_bounce stdin size keys t =
    if not (is_zero t.stdin_count) then (pos size, copy keys 0 size, t) else (minus_one, [], t)
read_slot has_bounce stdout size keys t = (minus_one, [], t)
read_slot has_bounce (file_at f) size keys t =
    let (bytes, s) = file_read has_bounce f size t.sys in
    (pos (length bytes), bytes, record t { sys = s })

-- The result, with the bytes that go into the buffer; `keys` are those that input_getc gives.
unfoldable pub sys_read : Bool → ℤ → ℕ → (ℕ → ℕ) → Fds → ℤ × List ℕ × Fds
unfolding copy
sys_read has_bounce fd size keys t =
    if size == 0
    then (pos 0, [], t)
    else if is_bad_fd fd
    then (minus_one, [], t)
    else read_slot has_bounce (slot_of fd t) size keys t

-- The loop of find_unused_fd; it ends at MAX_FD at the latest.
unfoldable pub idx_loop : ℕ → (ℕ → Slot) → ℕ → ℕ
idx_loop zero fd_table fd_idx = fd_idx
idx_loop (suc n) fd_table fd_idx =
    if not (is_empty (fd_table fd_idx)) && ltb fd_idx max_fd
    then idx_loop n fd_table (fd_idx + 1)
    else fd_idx

unfoldable pub find_unused_fd : Slot → Fds → ℤ × Fds
find_unused_fd file t =
    let i = idx_loop (max_fd - t.fd_idx) t.fd_table t.fd_idx in
    let t' = record t { fd_idx = i } in
    if ltb i max_fd then (pos i, set_slot (pos i) file t') else (minus_one, t')

-- What filesys_open gives is an argument, and whether the name is NULL or empty.
unfoldable pub sys_open : Bool → Option ℕ × FileSys → Fds → ℤ × Fds
unfolding find_unused_fd
sys_open no_name opened t =
    let t' = record t { sys = opened.1 } in
    if no_name
    then (minus_one, t)
    else elim opened.0 [ none ↦ (minus_one, t') | some f ↦ find_unused_fd (file_at f) t' ]

abbrev seek_slot : Slot → ℕ → Fds → Fds
seek_slot empty position t = t
seek_slot stdin position t = t
seek_slot stdout position t = t
seek_slot (file_at f) position t =
    let length = file_length f t.sys in
    record t { sys = file_seek f (if ltb length position then length else position) t.sys }

unfoldable pub sys_seek : ℤ → ℕ → Fds → Fds
sys_seek fd position t = if is_bad_fd fd then t else seek_slot (slot_of fd t) position t

-- The -1 is unsigned here.
unfoldable pub sys_tell : ℤ → Fds → Option ℕ
sys_tell fd t = if is_bad_fd fd then some 4294967295 else elim (slot_of fd t) [
  | empty ↦ some 4294967295
  | stdin ↦ none
  | stdout ↦ none
  | file_at f ↦ some (file_tell f t.sys)
]

unfoldable pub close_slot : Slot → ℤ → Fds → Option Fds
close_slot empty fd t = some (set_slot fd empty t)
close_slot stdin fd t = some (set_slot fd empty (record t { stdin_count = t.stdin_count -ℤ pos 1 }))
close_slot stdout fd t =
    some (set_slot fd empty (record t { stdout_count = t.stdout_count -ℤ pos 1 }))
close_slot (file_at f) fd t =
    let s = decrease_dup_count f t.sys in
    let closed = file_close (some f) s >>= λ s'. some (set_slot fd empty (record t { sys = s' })) in
    if is_zero (check_dup_count f s)
    then closed
    else some (set_slot fd empty (record t { sys = s }))

unfoldable pub sys_close : ℤ → Fds → Option Fds
unfolding close_slot
sys_close fd t = if is_bad_fd fd then some t else close_slot (slot_of fd t) fd t

-- One descriptor more for what the slot holds.
unfoldable pub share : Slot → Fds → Fds
share empty t = t
share stdin t = record t { stdin_count = t.stdin_count +ℤ pos 1 }
share stdout t = record t { stdout_count = t.stdout_count +ℤ pos 1 }
share (file_at f) t = record t { sys = increase_dup_count f t.sys }

-- The source does not test `newfd`: a bad one is a store behind the table, or before it.
unfoldable pub sys_dup2 : ℤ → ℤ → Fds → Option (ℤ × Fds)
unfolding sys_close share
sys_dup2 oldfd newfd t =
    let shared = share (slot_of oldfd t) t in
    let room = if is_empty (slot_of newfd shared) then some shared else sys_close newfd shared in
    let copied = room >>= λ t'. some (newfd, set_slot newfd (slot_of oldfd t') t') in
    if is_bad_fd oldfd
    then some (minus_one, t)
    else if is_empty (slot_of oldfd t)
    then some (minus_one, t)
    else if is_zero (oldfd -ℤ newfd)
    then some (newfd, t)
    else if is_bad_fd newfd
    then none
    else copied
