-- ===== src/Process/Family/Waited.antt =====
-- The end of process_wait in pintos-kaist/userprog/process.c keeps the invariant.
use mathlib.Core.Path.{subst}
use w12_13_vm.Common.{
  ℕ, suc, ◌+◌, ◌-◌, ◌<◌, ◌≡◌, ◌≢◌, refl, sym, ap, ◌∙◌, ◌&&◌, ◌==◌, if◌then◌else◌, update_here,
  update_else, count, arith, Bool-cases, inl, inr,
}
use w12_13_vm.Process.Family.{
  running, waiting, exiting, Process, System, wait_end, down_wait_sema, remove_child, up_free_sema,
  list_remove,
}
use w12_13_vm.Process.Family.Invariant.{
  is_exiting, IsChild, has_child, IsFamily, count-list_remove, not_waiting, exiting_of, two_phases,
}

module _ (s : System) (v : IsFamily s) where
  -- The end of process_wait changes the parent and the child.
  pub wait_end_cur :
      (cur child : ℕ)
      → cur ≢ child
      → (wait_end cur child s).1 cur ≡ record (s cur) {
        children_list = list_remove child (s cur).children_list;
        phase = running;
      }
  unfolding wait_end down_wait_sema remove_child up_free_sema
  wait_end_cur cur child ne =
      let s1 = down_wait_sema child s in
      let s2 = remove_child cur child s1 in
      let other : child ≢ cur = λ q. ne (sym q) in
      update_here (up_free_sema child s2) cur _
      ∙ ap (λ (x : Process). record x { phase = running })
          (update_else s2 child _ cur other
            ∙ update_here s1 cur _
            ∙ ap (λ (x : Process). record x { children_list = list_remove child x.children_list })
                (update_else s child _ cur other))

  pub wait_end_child :
      (cur child : ℕ)
      → cur ≢ child
      → (wait_end cur child s).1 child ≡ record (s child) {
        wait_sema = (s child).wait_sema - 1;
        free_sema = (s child).free_sema + 1;
      }
  unfolding wait_end down_wait_sema remove_child up_free_sema
  wait_end_child cur child ne =
      let s1 = down_wait_sema child s in
      let s2 = remove_child cur child s1 in
      update_else (up_free_sema child s2) cur _ child ne
      ∙ update_here s2 child _
      ∙ ap (λ (x : Process). record x { free_sema = x.free_sema + 1 })
          (update_else s1 cur _ child ne ∙ update_here s child _)

  pub wait_end_other : (cur child p : ℕ) → cur ≢ p → child ≢ p → (wait_end cur child s).1 p ≡ s p
  unfolding wait_end down_wait_sema remove_child up_free_sema
  wait_end_other cur child p ne ne' =
      let s1 = down_wait_sema child s in
      let s2 = remove_child cur child s1 in
      update_else (up_free_sema child s2) cur _ p ne
      ∙ update_else s2 child _ p ne'
      ∙ update_else s1 cur _ p ne
      ∙ update_else s child _ p ne'

  module _ (cur child n : ℕ) (phase : (s cur).phase ≡ waiting child)
      (told : (s child).wait_sema ≡ suc n) where
    pub is_member : 0 < has_child s cur child
    is_member = v.waits cur child phase

    pub exited : (s child).phase ≡ exiting
    exited =
        exiting_of (s child).phase (ground (arith, (v.children cur child is_member).told, told))

    pub apart : cur ≢ child
    apart q = two_phases (s cur).phase child phase (ap (λ x. (s x).phase) q ∙ exited)

    new_lists :
        (p y : ℕ)
        → has_child (wait_end cur child s).1 p y
          ≡ has_child s p y - (if (cur == p) && (child == y) then 1 else 0)
    new_lists p y = elim (Bool-cases (cur == p)) [
      | inl e ↦
          let same : cur ≡ p = ground arith in
          let list = ap (λ (x : Process). count y x.children_list) (wait_end_cur cur child apart) in
          rw e (
            subst
              (λ x.
                has_child (wait_end cur child s).1 x y
                ≡ has_child s x y - (if child == y then 1 else 0))
              same (list ∙ count-list_remove child y (s cur).children_list))
      | inr e ↦ rw e (elim (Bool-cases (child == p)) [
        | inl f ↦
            let same : child ≡ p = ground arith in
            subst (λ x. has_child (wait_end cur child s).1 x y ≡ has_child s x y - 0) same
              (ap (λ (x : Process). count y x.children_list) (wait_end_child cur child apart)
                ∙ omega arith)
        | inr f ↦
            ap (λ (x : Process). count y x.children_list)
              (wait_end_other cur child p (λ q. ground arith) (λ q. ground arith))
            ∙ omega arith
      ])
    ]

    pub still_child :
        (p y : ℕ) → 0 < has_child (wait_end cur child s).1 p y → (child ≢ y) × (0 < has_child s p y)
    still_child p y a =
        let kept : 0 < has_child s p y = ground (arith, new_lists p y) in
        (
          λ q.
              let parent =
                v.one_parent cur p child is_member
                  (subst (λ x. 0 < has_child s p x) (sym q) kept) in
              ground (arith, new_lists p y, v.once p y, parent, q),
          kept,
        )

    pub end_wait-IsFamily : IsFamily (wait_end cur child s).1
    end_wait-IsFamily = record {
      once = λ p y. omega (arith, new_lists p y, v.once p y);
      one_parent = λ p q y a b. v.one_parent p q y (still_child p y a).1 (still_child q y b).1;
      children = λ p y a.
          let (ne, kept) = still_child p y a in
          let was = v.children p y kept in
          elim (Bool-cases (cur == y)) [
            | inl e ↦
                let same : cur ≡ y = ground arith in
                let silent : (s cur).wait_sema ≡ 0 =
                  subst (λ x. (s x).wait_sema ≡ 0) (sym same)
                    (was.told
                      ∙ ap (λ x. if is_exiting x then 1 else 0)
                          (ap (λ x. (s x).phase) (sym same) ∙ phase)) in
                subst (λ x. IsChild ((wait_end cur child s).1 x)) same
                  (subst (λ x. IsChild x) (sym (wait_end_cur cur child apart))
                    (record {
                      kept = subst (λ x. (s x).free_sema ≡ 0) (sym same) was.kept;
                      alive = refl;
                      told = silent;
                    }))
            | inr e ↦
                subst (λ x. IsChild x) (sym (wait_end_other cur child y (λ q. ground arith) ne)) was
          ];
      waits = λ p y a. elim (Bool-cases (cur == p)) [
        | inl e ↦
            let same : cur ≡ p = ground arith in
            let runs = ap (λ (x : Process). x.phase) (sym (wait_end_cur cur child apart)) in
            absurd (
              not_waiting running y (λ q. cc)
                (runs ∙ ap (λ x. ((wait_end cur child s).1 x).phase) same ∙ a))
        | inr e ↦ elim (Bool-cases (child == p)) [
          | inl f ↦
              let same : child ≡ p = ground arith in
              let exits =
                sym exited ∙ ap (λ (x : Process). x.phase) (sym (wait_end_child cur child apart)) in
              absurd (
                not_waiting exiting y (λ q. cc)
                  (exits ∙ ap (λ x. ((wait_end cur child s).1 x).phase) same ∙ a))
          | inr f ↦
              let was =
                ap (λ (x : Process). x.phase)
                  (sym (wait_end_other cur child p (λ q. ground arith) (λ q. ground arith)))
                ∙ a in
              ground (arith, e, new_lists p y, v.waits p y was)
        ]
      ];
    }
