-- ===== src/Process/Family/Examples.antt =====
-- The theorems on waiting at a parent and its child.
use mathlib.Core.Path.{subst}
use w12_13_vm.Common.{
  sym, ap, ◌∙◌, Bool-cases, inl, inr, ◌<◌, ◌≡◌, refl, [], ◌∷◌, ◌==◌, if◌then◌else◌, arith,
}
use w12_13_vm.Common.Int.{pos}
use w12_13_vm.Process.Family.{
  Process, System, running, waiting, exiting, dead, wait_end, fork, exit_begin, wait_begin, forks,
  begins_exit,
}
use w12_13_vm.Process.Family.Invariant.{IsFamily, IsChild, has_child, waiting_inj, not_waiting}
use w12_13_vm.Process.Family.Reaped.{
  Reaches, start, further, first_process, reaches-IsFamily, Reaps, wait_end-Reaps,
}

-- Process 1 has forked 2, which has then exited with the status 7.
abbrev child_exited : System
child_exited = exit_begin 2 (pos 7) (fork 1 2 (pos 4) (first_process 1 (pos 3)))

child_exited-Reaches : Reaches (first_process 1 (pos 3)) child_exited
unfolding fork w12_13_vm.Process.Family.add_child
child_exited-Reaches =
    further _ _ (further _ _ start (forks 1 2 (pos 4) refl refl)) (begins_exit 2 (pos 7) refl)

reaches-IsFamily_example : IsFamily child_exited
reaches-IsFamily_example = reaches-IsFamily 1 (pos 3) child_exited child_exited-Reaches

-- Process 1 waits for 2, which has exited with the status 7.
abbrev one_waits : System
one_waits p =
    if p == 1
    then record {
      tid = pos 3;
      exit_status = pos 0;
      wait_sema = 0;
      free_sema = 0;
      children_list = 2 ∷ [];
      phase = waiting 2;
    }
    else record {
      tid = pos 4;
      exit_status = pos 7;
      wait_sema = 1;
      free_sema = 0;
      children_list = [];
      phase = exiting;
    }

one_waits-IsFamily : IsFamily one_waits
one_waits-IsFamily = record {
  once = λ p c. ground arith;
  one_parent = λ p q c h k. ground arith;
  children = λ p c h.
      let same : 2 ≡ c = ground arith in
      subst (λ x. IsChild (one_waits x)) same (record { kept = refl; alive = refl; told = refl });
  waits = λ p c h. elim (Bool-cases (p == 1)) [
    | inl e ↦
        let parent : 1 ≡ p = ground arith in
        let same : 2 ≡ c = waiting_inj 2 c (ap (λ x. (one_waits x).phase) parent ∙ h) in
        subst (λ x. 0 < has_child one_waits x c) parent
          (subst (λ x. 0 < has_child one_waits 1 x) same (omega arith))
    | inr e ↦ absurd (
        not_waiting exiting c (λ q. cc)
          (ap (λ b. (if b then one_waits 1 else one_waits 2).phase) (sym e) ∙ h))
  ];
}

wait_end-Reaps_example : Reaps 1 2 one_waits (wait_end 1 2 one_waits)
wait_end-Reaps_example = wait_end-Reaps one_waits one_waits-IsFamily 1 2 0 refl refl
