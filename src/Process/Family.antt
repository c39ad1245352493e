-- ===== src/Process/Family.antt =====
-- How a process waits for its child: `process_wait`, `get_my_child` and the end of `process_exit` of
-- pintos-kaist/userprog/process.c. A process is named by the address of its `struct thread`. The part of a
-- function up to a sema_down is one step, and what follows it another, which is possible when the semaphore's
-- value is not 0. A fork is one step that succeeds.
pub mod Invariant
pub mod Waited
pub mod Forked
pub mod Reaped
mod Examples
use w12_13_vm.Common.{
  ℕ, zero, suc, ◌+◌, ◌-◌, ◌≡◌, List, [], ◌∷◌, ◌++◌, Bool, true, false, Option, none, some, ◌==◌,
  if◌then◌else◌, update,
}
use w12_13_vm.Common.Int.{ℤ, pos, negsuc, ltb_ℤ}

-- Where a process is: in its own code, at the sema_down in process_wait for a child, at the one at the end of
-- process_exit; or its memory is free.
pub data Phase : Type 0 where
  running : Phase
  waiting : ℕ → Phase
  exiting : Phase
  dead : Phase

-- The members of `struct thread` that take part.
pub record Process : Type 0 where
  pub tid : ℤ
  pub exit_status : ℤ
  pub wait_sema : ℕ
  pub free_sema : ℕ
  pub children_list : List ℕ
  pub phase : Phase

abbrev pub System : Type 0
System = ℕ → Process

-- `a == b` of two thread identifiers.
abbrev pub same_tid : ℤ → ℤ → Bool
same_tid a b = if ltb_ℤ a b then false else (if ltb_ℤ b a then false else true)

unfoldable pub get_my_child : System → ℤ → List ℕ → Option ℕ
get_my_child s tid [] = none
get_my_child s tid (c ∷ cs) = if same_tid (s c).tid tid then some c else get_my_child s tid cs

abbrev pub set_phase : System → ℕ → Phase → System
set_phase s p phase = update s p (record (s p) { phase = phase })

-- process_wait up to its sema_down: what it returns at once, or `none`.
unfoldable pub wait_begin : ℕ → ℤ → System → Option ℤ × System
wait_begin cur child_tid s = elim (get_my_child s child_tid (s cur).children_list) [
  | none ↦ (some (negsuc 0), s)
  | some child ↦ (none, set_phase s cur (waiting child))
]

unfoldable pub list_remove : ℕ → List ℕ → List ℕ
list_remove c [] = []
list_remove c (x ∷ xs) = if c == x then xs else x ∷ list_remove c xs

-- The statements of process_wait from its sema_down on.
unfoldable pub down_wait_sema : ℕ → System → System
down_wait_sema child s = update s child (record (s child) { wait_sema = (s child).wait_sema - 1 })

unfoldable pub remove_child : ℕ → ℕ → System → System
remove_child cur child s =
    update s cur (record (s cur) { children_list = list_remove child (s cur).children_list })

unfoldable pub up_free_sema : ℕ → System → System
up_free_sema child s = update s child (record (s child) { free_sema = (s child).free_sema + 1 })

-- What process_wait returns then, and the state.
unfoldable pub wait_end : ℕ → ℕ → System → ℤ × System
wait_end cur child s =
    let s1 = down_wait_sema child s in
    let status = (s1 child).exit_status in
    let s2 = up_free_sema child (remove_child cur child s1) in
    (if ltb_ℤ status (pos 0) then negsuc 0 else status, set_phase s2 cur running)

-- sys_exit sets the status; process_exit ends with a sema_up and a sema_down.
unfoldable pub exit_begin : ℕ → ℤ → System → System
exit_begin cur status s =
    update s cur
      (record (s cur) { exit_status = status; wait_sema = (s cur).wait_sema + 1; phase = exiting })

unfoldable pub exit_end : ℕ → System → System
exit_end cur s = update s cur (record (s cur) { free_sema = (s cur).free_sema - 1; phase = dead })

-- The new thread as init_thread makes it, and its place on its parent's list.
abbrev pub new_process : ℤ → Process
new_process tid = record {
  tid = tid;
  exit_status = pos 0;
  wait_sema = 0;
  free_sema = 0;
  children_list = [];
  phase = running;
}

unfoldable pub add_child : ℕ → ℕ → System → System
add_child cur child s =
    update s cur (record (s cur) { children_list = (s cur).children_list ++ (child ∷ []) })

unfoldable pub fork : ℕ → ℕ → ℤ → System → System
fork cur child tid s = add_child cur child (update s child (new_process tid))

-- A step of some process.
pub data Step (s : System) : System → Type 0 where
  forks :
      (cur child : ℕ) (tid : ℤ)
      → (s cur).phase ≡ running
      → (s child).phase ≡ dead
      → Step s (fork cur child tid s)
  begins_wait : (cur : ℕ) (tid : ℤ) → (s cur).phase ≡ running → Step s (wait_begin cur tid s).1
  ends_wait :
      (cur child v : ℕ)
      → (s cur).phase ≡ waiting child
      → (s child).wait_sema ≡ suc v
      → Step s (wait_end cur child s).1
  begins_exit : (cur : ℕ) (status : ℤ) → (s cur).phase ≡ running → Step s (exit_begin cur status s)
  ends_exit :
      (cur v : ℕ) → (s cur).phase ≡ exiting → (s cur).free_sema ≡ suc v → Step s (exit_end cur s)
