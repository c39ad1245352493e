-- ===== src/Process/Family/Invariant.antt =====
-- The invariant of the processes that wait for their children, pintos-kaist/userprog/process.c.
use mathlib.Core.Path.{subst}
use w12_13_vm.Common.{
  ℕ, suc, ◌+◌, ◌-◌, ◌≤◌, ◌<◌, ◌≡◌, ◌≢◌, refl, sym, ap, ◌∙◌, List, [], ◌∷◌, ◌++◌, Bool, true, false,
  Option, none, some, ◌==◌, if◌then◌else◌, update_here, count, arith, Bool-cases, inl, inr,
}
use w12_13_vm.Common.Int.{ℤ}
use w12_13_vm.Process.Family.{
  Phase, running, waiting, exiting, dead, Process, System, get_my_child, wait_begin, list_remove,
  exit_begin, exit_end,
}

abbrev pub is_exiting : Phase → Bool
is_exiting running = false
is_exiting (waiting c) = false
is_exiting exiting = true
is_exiting dead = false

abbrev pub is_dead : Phase → Bool
is_dead running = false
is_dead (waiting c) = false
is_dead exiting = false
is_dead dead = true

-- A process on its parent's list: it has not been let go, and its wait_sema tells whether it has exited.
pub record IsChild (x : Process) : Type 0 where
  pub kept : x.free_sema ≡ 0
  pub alive : is_dead x.phase ≡ false
  pub told : x.wait_sema ≡ (if is_exiting x.phase then 1 else 0)

abbrev pub has_child : System → ℕ → ℕ → ℕ
has_child s p c = count c (s p).children_list

pub record IsFamily (s : System) : Type 0 where
  pub once : (p c : ℕ) → has_child s p c ≤ 1
  pub one_parent : (p q c : ℕ) → 0 < has_child s p c → 0 < has_child s q c → p ≡ q
  pub children : (p c : ℕ) → 0 < has_child s p c → IsChild (s c)
  pub waits : (p c : ℕ) → (s p).phase ≡ waiting c → 0 < has_child s p c

pub get_my_child-count :
    (s : System) (tid : ℤ) (c : ℕ) (cs : List ℕ) → get_my_child s tid cs ≡ some c → 0 < count c cs
unfolding get_my_child
get_my_child-count s tid c [] e = cc
get_my_child-count s tid c (x ∷ cs) e = ground (arith, get_my_child-count s tid c cs)

pub count-list_remove :
    (c x : ℕ) (cs : List ℕ) → count x (list_remove c cs) ≡ count x cs - (if c == x then 1 else 0)
unfolding list_remove
count-list_remove c x [] = ground arith
count-list_remove c x (y ∷ cs) = ground (arith, count-list_remove c x cs)

pub waiting_inj : (a b : ℕ) → waiting a ≡ waiting b → a ≡ b
waiting_inj a b e = cc

pub count_push :
    (c x : ℕ) (cs : List ℕ) → count x (cs ++ (c ∷ [])) ≡ count x cs + (if x == c then 1 else 0)
count_push c x [] = ground arith
count_push c x (y ∷ cs) = ground (arith, count_push c x cs)

pub exiting_of : (x : Phase) → is_exiting x ≡ true → x ≡ exiting
exiting_of running e = cc
exiting_of (waiting c) e = cc
exiting_of exiting e = refl
exiting_of dead e = cc

pub two_phases : (x : Phase) (c : ℕ) → x ≡ waiting c → ¬ (x ≡ exiting)
two_phases x c e f = cc

pub not_waiting : (x : Phase) (c : ℕ) → x ≢ waiting c → ¬ (x ≡ waiting c)
not_waiting x c n e = n e

pub two_states : (x : Phase) → x ≡ running → ¬ (x ≡ dead)
two_states x e f = cc

pub not_alive : (x : Phase) → x ≡ dead → ¬ (is_dead x ≡ false)
not_alive running e f = cc
not_alive (waiting c) e f = cc
not_alive exiting e f = cc
not_alive dead e f = cc

-- A system in which a process has changed in its phase and wait_sema only.
pub record Changed (a : ℕ) (s s' : System) : Type 0 where
  pub lists : (p : ℕ) → (s' p).children_list ≡ (s p).children_list
  pub others : (p : ℕ) → a ≢ p → s' p ≡ s p
  pub same_child : IsChild (s a) → IsChild (s' a)
  pub may_wait : (c : ℕ) → (s' a).phase ≡ waiting c → 0 < has_child s a c

pub Changed-IsFamily : (a : ℕ) (s s' : System) → Changed a s s' → IsFamily s → IsFamily s'
Changed-IsFamily a s s' ch v = record {
  once = λ p c. rw (ch.lists p) (v.once p c);
  one_parent = λ p q c h k.
      v.one_parent p q c (subst (λ l. 0 < count c l) (ch.lists p) h)
        (subst (λ l. 0 < count c l) (ch.lists q) k);
  children = λ p c h.
      let was = v.children p c (subst (λ l. 0 < count c l) (ch.lists p) h) in
      elim (Bool-cases (a == c)) [
        | inl e ↦
            let same : a ≡ c = ground arith in
            subst (λ x. IsChild (s' x)) same
              (ch.same_child (subst (λ x. IsChild (s x)) (sym same) was))
        | inr e ↦ subst (λ x. IsChild x) (sym (ch.others c (λ q. ground arith))) was
      ];
  waits = λ p c h.
      subst (λ l. 0 < count c l) (sym (ch.lists p))
        (elim (Bool-cases (a == p)) [
          | inl e ↦
              let same : a ≡ p = ground arith in
              subst (λ x. 0 < has_child s x c) same
                (ch.may_wait c (subst (λ x. (s' x).phase ≡ waiting c) (sym same) h))
          | inr e ↦
              v.waits p c
                (ap (λ (x : Process). x.phase) (sym (ch.others p (λ q. ground arith))) ∙ h)
        ]);
}

module _ (s : System) (v : IsFamily s) where
  pub wait_begin-of :
      (cur : ℕ) (tid : ℤ) (r : Option ℕ)
      → (s cur).phase ≡ running
      → get_my_child s tid (s cur).children_list ≡ r
      → IsFamily (wait_begin cur tid s).1
  unfolding wait_begin
  wait_begin-of cur tid none run e = rw (e, wait_begin) v
  wait_begin-of cur tid (some c) run e =
      rw (e, wait_begin)
        (Changed-IsFamily cur s _
          (record {
            lists = λ p. ground arith;
            others = λ p ne. ground arith;
            same_child = λ x. record {
              kept = ground (arith, x.kept);
              alive = ground arith;
              told = ground (arith, x.told, run);
            };
            may_wait = λ d h.
                let same : c ≡ d =
                  waiting_inj _ _ (ap (λ (x : Process). x.phase) (sym (update_here s cur _)) ∙ h) in
                subst (λ x. 0 < has_child s cur x) same (get_my_child-count s tid c _ e);
          })
          v)

  pub begin_wait-IsFamily :
      (cur : ℕ) (tid : ℤ) → (s cur).phase ≡ running → IsFamily (wait_begin cur tid s).1
  begin_wait-IsFamily cur tid run = wait_begin-of cur tid _ run refl

  pub begin_exit-IsFamily :
      (cur : ℕ) (status : ℤ) → (s cur).phase ≡ running → IsFamily (exit_begin cur status s)
  unfolding exit_begin
  begin_exit-IsFamily cur status run =
      Changed-IsFamily cur s _
        (record {
          lists = λ p. ground arith;
          others = λ p ne. ground arith;
          same_child = λ x. record {
            kept = ground (arith, x.kept);
            alive = ground arith;
            told = ground (arith, x.told, run);
          };
          may_wait = λ c h. ground arith;
        })
        v

  pub end_exit-IsFamily :
      (cur f : ℕ) → (s cur).phase ≡ exiting → (s cur).free_sema ≡ suc f → IsFamily (exit_end cur s)
  unfolding exit_end
  end_exit-IsFamily cur f phase free =
      Changed-IsFamily cur s _
        (record {
          lists = λ p. ground arith;
          others = λ p ne. ground arith;
          same_child = λ x. let k = x.kept in absurd (omega arith);
          may_wait = λ c h. ground arith;
        })
        v
