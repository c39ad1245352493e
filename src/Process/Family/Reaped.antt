-- ===== src/Process/Family/Reaped.antt =====
-- What process_wait of pintos-kaist/userprog/process.c returns, in every order of the steps of processes.
use mathlib.Core.Path.{subst}
use w12_13_vm.Common.{
  ℕ, suc, ◌+◌, ◌<◌, ◌≡◌, ◌≢◌, refl, sym, ap, ◌∙◌, List, [], ◌∷◌, false, none, some, ◌==◌, ltb,
  if◌then◌else◌, update_here, count, arith, Bool-cases, inl, inr,
}
use w12_13_vm.Common.Int.{ℤ, pos, negsuc, ltb_ℤ}
use w12_13_vm.Process.Family.{
  running, waiting, exiting, dead, Process, System, get_my_child, wait_begin, wait_end,
  down_wait_sema, Step, forks, begins_wait, ends_wait, begins_exit, ends_exit, same_tid,
}
use w12_13_vm.Process.Family.Invariant.{has_child, IsFamily, not_waiting}
use w12_13_vm.Process.Family.Invariant.{begin_wait-IsFamily, begin_exit-IsFamily, end_exit-IsFamily}
use w12_13_vm.Process.Family.Waited.{
  wait_end_cur, wait_end_child, wait_end_other, still_child, end_wait-IsFamily, exited, is_member,
  apart,
}
use w12_13_vm.Process.Family.Forked.{fork-IsFamily}

pub step-IsFamily : (s s' : System) → IsFamily s → Step s s' → IsFamily s'
step-IsFamily s _ v (forks cur child tid run free) = fork-IsFamily s v cur child tid run free
step-IsFamily s _ v (begins_wait cur tid run) = begin_wait-IsFamily s v cur tid run
step-IsFamily s _ v (ends_wait cur child n phase told) =
    end_wait-IsFamily s v cur child n phase told
step-IsFamily s _ v (begins_exit cur status run) = begin_exit-IsFamily s v cur status run
step-IsFamily s _ v (ends_exit cur n phase free) = end_exit-IsFamily s v cur n phase free

-- Steps one behind the other.
pub data Reaches (s : System) : System → Type 0 where
  start : Reaches s s
  further : (t u : System) → Reaches s t → Step t u → Reaches s u

-- The first process alone.
abbrev pub first_process : ℕ → ℤ → System
first_process root tid p = record {
  tid = tid;
  exit_status = pos 0;
  wait_sema = 0;
  free_sema = 0;
  children_list = [];
  phase = if root == p then running else dead;
}

first_process-IsFamily : (root : ℕ) (tid : ℤ) → IsFamily (first_process root tid)
first_process-IsFamily root tid = record {
  once = λ p c. omega arith;
  one_parent = λ p q c h k. absurd (omega arith);
  children = λ p c h. absurd (omega arith);
  waits = λ p c h. elim (Bool-cases (root == p)) [
    | inl e ↦
        absurd (not_waiting running c (λ q. cc) (ap (λ b. if b then running else dead) (sym e) ∙ h))
    | inr e ↦
        absurd (not_waiting dead c (λ q. cc) (ap (λ b. if b then running else dead) (sym e) ∙ h))
  ];
}

-- In every state that any order of forks, waits and exits leads to from the first process alone, each
-- process on a children_list stands on one such list, once, and its memory is not freed: it has not been let
-- go, and its wait_sema is 1 if it has exited, else 0. Who waits, waits for a process on its own list.
pub reaches-IsFamily :
    (root : ℕ) (tid : ℤ) (s : System) → Reaches (first_process root tid) s → IsFamily s
reaches-IsFamily root tid _ start = first_process-IsFamily root tid
reaches-IsFamily root tid _ (further t u r step) =
    step-IsFamily t u (reaches-IsFamily root tid t r) step

get_my_child-none :
    (s : System) (tid : ℤ) (cs : List ℕ)
    → ((c : ℕ) → 0 < count c cs → same_tid (s c).tid tid ≡ false)
    → get_my_child s tid cs ≡ none
unfolding get_my_child
get_my_child-none s tid [] h = refl
get_my_child-none s tid (x ∷ cs) h =
    let no_match = h x (ground arith) in
    let rest = get_my_child-none s tid cs (λ c k. h c (omega arith)) in rw (no_match, rest) refl

wait_begin-none :
    (cur : ℕ) (tid : ℤ) (s : System)
    → get_my_child s tid (s cur).children_list ≡ none
    → wait_begin cur tid s ≡ (some (negsuc 0), s)
unfolding wait_begin
wait_begin-none cur tid s e = rw (e, wait_begin) refl

-- The end of a wait of `cur` for `child`.
pub record Reaps (cur child : ℕ) (s : System) (r : ℤ × System) : Type 0 where
  pub has_exited : (s child).phase ≡ exiting
  pub status :
      r.0 ≡ (if ltb_ℤ (s child).exit_status (pos 0) then negsuc 0 else (s child).exit_status)
  pub goes_on : (r.1 cur).phase ≡ running
  pub let_go : ((r.1 child).phase ≡ exiting) × ((r.1 child).free_sema ≡ 1)
  pub off_list : (p : ℕ) → has_child r.1 p child ≡ 0
  pub not_again :
      (tid : ℤ)
      → ((c : ℕ) → 0 < has_child s cur c → child ≢ c → same_tid (s c).tid tid ≡ false)
      → wait_begin cur tid r.1 ≡ (some (negsuc 0), r.1)

module _ (s : System) (v : IsFamily s) (cur child n : ℕ) (phase : (s cur).phase ≡ waiting child)
    (told : (s child).wait_sema ≡ suc n) where
  wait_end_status :
      (wait_end cur child s).0
      ≡ (if ltb_ℤ (s child).exit_status (pos 0) then negsuc 0 else (s child).exit_status)
  unfolding wait_end down_wait_sema
  wait_end_status =
      ap (λ (x : Process). if ltb_ℤ x.exit_status (pos 0) then negsuc 0 else x.exit_status)
        (update_here s child _)

  wait_end_tid : (c : ℕ) → child ≢ c → ((wait_end cur child s).1 c).tid ≡ (s c).tid
  wait_end_tid c ne = elim (Bool-cases (cur == c)) [
    | inl e ↦
        let same : cur ≡ c = ground arith in
        subst (λ x. ((wait_end cur child s).1 x).tid ≡ (s x).tid) same
          (ap (λ (x : Process). x.tid)
            (wait_end_cur s v cur child (apart s v cur child n phase told)))
    | inr e ↦ ap (λ (x : Process). x.tid) (wait_end_other s v cur child c (λ q. ground arith) ne)
  ]

  no_child_left :
      (tid : ℤ)
      → ((c : ℕ) → 0 < has_child s cur c → child ≢ c → same_tid (s c).tid tid ≡ false)
      → get_my_child (wait_end cur child s).1 tid ((wait_end cur child s).1 cur).children_list
        ≡ none
  no_child_left tid h = get_my_child-none (wait_end cur child s).1 tid _ (λ c k.
      let (ne, kept) = still_child s v cur child n phase told cur c k in
      ap (λ x. same_tid x tid) (wait_end_tid c ne) ∙ h c kept ne)

  -- Where a process waits for a child and the child's wait_sema has been raised, the child has exited, and
  -- process_wait goes on: it returns the child's status, or -1 for a negative one, lets the child go and takes
  -- it off every list. Another wait for a thread identifier that no other child of the process has returns -1 at
  -- once.
  pub wait_end-Reaps : Reaps cur child s (wait_end cur child s)
  wait_end-Reaps =
      let ne = apart s v cur child n phase told in
      let after = wait_end_child s v cur child ne in
      let x = v.children cur child (is_member s v cur child n phase told) in
      record {
        has_exited = exited s v cur child n phase told;
        status = wait_end_status;
        goes_on = ap (λ (y : Process). y.phase) (wait_end_cur s v cur child ne);
        let_go = (
          ap (λ (y : Process). y.phase) after ∙ exited s v cur child n phase told,
          ap (λ (y : Process). y.free_sema) after ∙ ap (λ k. k + 1) x.kept,
        );
        off_list = λ p. elim (Bool-cases (ltb 0 (has_child (wait_end cur child s).1 p child))) [
          | inl h ↦ absurd ((still_child s v cur child n phase told p child (ground arith)).0 refl)
          | inr h ↦ ground arith
        ];
        not_again = λ tid h. wait_begin-none cur tid _ (no_child_left tid h);
      }
