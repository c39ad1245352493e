-- ===== src/Process/Family/Forked.antt =====
-- A fork of pintos-kaist/userprog/process.c keeps the invariant of the processes.
use mathlib.Core.Path.{subst}
use w12_13_vm.Common.{
  ℕ, ◌+◌, ◌<◌, ◌≡◌, ◌≢◌, refl, sym, ap, ◌∙◌, [], ◌∷◌, ◌++◌, false, ◌&&◌, ◌==◌, ltb, if◌then◌else◌,
  update, update_here, update_else, count, arith, Bool-cases, inl, inr,
}
use w12_13_vm.Common.Int.{ℤ}
use w12_13_vm.Process.Family.{running, dead, Process, System, fork, add_child, new_process}
use w12_13_vm.Process.Family.Invariant.{
  is_dead, IsChild, has_child, IsFamily, count_push, not_waiting, two_states, not_alive,
}

module _ (s : System) (v : IsFamily s) where
  module _ (cur child : ℕ) (tid : ℤ) (run : (s cur).phase ≡ running)
      (free : (s child).phase ≡ dead) where
    other_than_child : cur ≢ child
    other_than_child q = two_states (s cur).phase run (ap (λ x. (s x).phase) q ∙ free)

    fork_cur :
        fork cur child tid s cur
        ≡ record (s cur) { children_list = (s cur).children_list ++ (child ∷ []) }
    unfolding fork add_child
    fork_cur =
        update_here (update s child (new_process tid)) cur _
        ∙ ap (λ (x : Process). record x { children_list = x.children_list ++ (child ∷ []) })
            (update_else s child (new_process tid) cur (λ q. other_than_child (sym q)))

    fork_child : fork cur child tid s child ≡ new_process tid
    unfolding fork add_child
    fork_child =
        update_else (update s child (new_process tid)) cur _ child other_than_child
        ∙ update_here s child (new_process tid)

    fork_other : (p : ℕ) → cur ≢ p → child ≢ p → fork cur child tid s p ≡ s p
    unfolding fork add_child
    fork_other p ne ne' =
        update_else (update s child (new_process tid)) cur _ p ne
        ∙ update_else s child (new_process tid) p ne'

    nobodys : (p y : ℕ) → child ≡ y → has_child s p y ≡ 0
    nobodys p y e = elim (Bool-cases (ltb 0 (has_child s p y))) [
      | inl h ↦
          let was = v.children p y (ground arith) in
          absurd (
            not_alive (s child).phase free
              (subst (λ x. is_dead (s x).phase ≡ false) (sym e) was.alive))
      | inr h ↦ ground arith
    ]

    forked_lists :
        (p y : ℕ)
        → has_child (fork cur child tid s) p y ≡ (
            if child == p
            then 0
            else has_child s p y + (if (cur == p) && (y == child) then 1 else 0))
    forked_lists p y = elim (Bool-cases (child == p)) [
      | inl e ↦
          let same : child ≡ p = ground arith in
          rw e (
            subst (λ x. has_child (fork cur child tid s) x y ≡ 0) same
              (ap (λ (x : Process). count y x.children_list) fork_child))
      | inr e ↦ rw e (elim (Bool-cases (cur == p)) [
        | inl f ↦
            let same : cur ≡ p = ground arith in
            rw f (
              subst
                (λ x.
                  has_child (fork cur child tid s) x y
                  ≡ has_child s x y + (if y == child then 1 else 0))
                same
                (ap (λ (x : Process). count y x.children_list) fork_cur
                  ∙ count_push child y (s cur).children_list))
        | inr f ↦ rw f (
            ap (λ (x : Process). count y x.children_list)
              (fork_other p (λ q. ground arith) (λ q. ground arith))
            ∙ omega arith)
      ])
    ]

    pub fork-IsFamily : IsFamily (fork cur child tid s)
    fork-IsFamily = record {
      once = λ p y. ground (arith, forked_lists p y, v.once p y, nobodys p y);
      one_parent = λ p q y a b. elim (Bool-cases (child == y)) [
        | inl e ↦
            let same : child ≡ y = ground arith in
            let of_p : cur ≡ p = ground (arith, forked_lists p y, nobodys p y same, a) in
            let of_q : cur ≡ q = ground (arith, forked_lists q y, nobodys q y same, b) in
            sym of_p ∙ of_q
        | inr e ↦
            let of_p : 0 < has_child s p y = ground (arith, forked_lists p y, a, e) in
            let of_q : 0 < has_child s q y = ground (arith, forked_lists q y, b, e) in
            v.one_parent p q y of_p of_q
      ];
      children = λ p y a. elim (Bool-cases (child == y)) [
        | inl e ↦
            let same : child ≡ y = ground arith in
            subst (λ x. IsChild (fork cur child tid s x)) same
              (subst (λ x. IsChild x) (sym fork_child)
                (record { kept = refl; alive = refl; told = refl }))
        | inr e ↦
            let kept : 0 < has_child s p y = ground (arith, forked_lists p y, a, e) in
            let was = v.children p y kept in
            elim (Bool-cases (cur == y)) [
              | inl f ↦
                  let same : cur ≡ y = ground arith in
                  let own = subst (λ x. IsChild (s x)) (sym same) was in
                  subst (λ x. IsChild (fork cur child tid s x)) same
                    (subst (λ x. IsChild x) (sym fork_cur)
                      (record { kept = own.kept; alive = own.alive; told = own.told }))
              | inr f ↦
                  subst (λ x. IsChild x)
                    (sym (fork_other y (λ q. ground arith) (λ q. ground arith))) was
            ]
      ];
      waits = λ p y a. elim (Bool-cases (child == p)) [
        | inl e ↦
            let same : child ≡ p = ground arith in
            let runs = ap (λ (x : Process). x.phase) (sym fork_child) in
            absurd (
              not_waiting running y (λ q. cc)
                (runs ∙ ap (λ x. (fork cur child tid s x).phase) same ∙ a))
        | inr e ↦ elim (Bool-cases (cur == p)) [
          | inl f ↦
              let same : cur ≡ p = ground arith in
              let runs = sym run ∙ ap (λ (x : Process). x.phase) (sym fork_cur) in
              absurd (
                not_waiting running y (λ q. cc)
                  (runs ∙ ap (λ x. (fork cur child tid s x).phase) same ∙ a))
          | inr f ↦
              let was =
                ap (λ (x : Process). x.phase)
                  (sym (fork_other p (λ q. ground arith) (λ q. ground arith)))
                ∙ a in
              ground (arith, e, f, forked_lists p y, v.waits p y was)
        ]
      ];
    }
