-- ===== src/Process/Arguments/Stack.antt =====
-- The stack that `load` of pintos-kaist/userprog/process.c hands to a program.
use mathlib.Core.Path.{subst}
use w12_13_vm.Common.{
  ℕ, zero, suc, ◌+◌, ◌-◌, ◌*◌, ◌/◌, ◌%◌, ◌≤◌, ◌<◌, ◌≡◌, refl, sym, ap, ◌∙◌, List, [], ◌∷◌, ◌++◌,
  true, false, ◌&&◌, ltb, leb, ◌==◌, length, get_or, arith, Bool-cases, inl, inr,
}
use w12_13_vm.Process.Arguments.{
  UserStack, Entry, push, terminated, le_bytes, push_args, align, push_pointers, pass_args,
}

-- The bytes stand in memory from an address on.
abbrev pub Holds : (ℕ → ℕ) → ℕ → List ℕ → Type 0
Holds mem a bytes = (k : ℕ) → k < length bytes → mem (a + k) ≡ get_or bytes k 0

-- The stack has grown down, by at most `n` bytes, and what was on it stays.
pub record Grown (n : ℕ) (s t : UserStack) : Type 0 where
  pub lower : t.rsp ≤ s.rsp
  pub at_most : s.rsp ≤ t.rsp + n
  pub kept : (a : ℕ) → s.rsp ≤ a → t.mem a ≡ s.mem a

Grown-trans : (m n : ℕ) (s t u : UserStack) → Grown m s t → Grown n t u → Grown (m + n) s u
Grown-trans m n s t u a b = record {
  lower = omega (arith, a.lower, b.lower);
  at_most = omega (arith, a.at_most, b.at_most);
  kept = λ x h. b.kept x (omega (arith, a.lower)) ∙ a.kept x h;
}

module _ (bytes : List ℕ) (s : UserStack) (room : length bytes ≤ s.rsp)
    (h : s.rsp < 18446744073709551616) where
  push_rsp : (push bytes s).rsp ≡ s.rsp - length bytes
  unfolding push
  push_rsp = omega (arith, room, h)

  push-Holds : Holds (push bytes s).mem (push bytes s).rsp bytes
  unfolding push
  push-Holds k lt =
      let r = (s.rsp + 18446744073709551616 - length bytes) % 18446744073709551616 in
      let inside : (leb r (r + k) && ltb (r + k) (r + length bytes)) ≡ true = ground arith in
      let place : r + k - r ≡ k = omega arith in rw (inside, place) refl

  push-Grown : Grown (length bytes) s (push bytes s)
  unfolding push
  push-Grown =
      let e = push_rsp in
      record {
        lower = omega (arith, e, room);
        at_most = omega (arith, e, room);
        kept = λ a above.
            let r = (s.rsp + 18446744073709551616 - length bytes) % 18446744073709551616 in
            let outside : (leb r a && ltb a (r + length bytes)) ≡ false = ground (arith, e, room) in
            rw outside refl;
      }

Holds-Grown :
    (n a : ℕ) (s t : UserStack) (bytes : List ℕ)
    → Grown n s t
    → s.rsp ≤ a
    → Holds s.mem a bytes
    → Holds t.mem a bytes
Holds-Grown n a s t bytes g above h k lt = g.kept (a + k) (omega (arith, above)) ∙ h k lt

-- The strings stand at the addresses, above the stack pointer.
pub data Strings (s : UserStack) : List (List ℕ) → List ℕ → Type 0 where
  no_more : Strings s [] []
  string :
      (arg : List ℕ) (p : ℕ) (argv : List (List ℕ)) (ps : List ℕ)
      → s.rsp ≤ p
      → Holds s.mem p (terminated arg)
      → Strings s argv ps
      → Strings s (arg ∷ argv) (p ∷ ps)

-- The numbers of 64 bits stand one behind the other from an address on.
pub data Pointers (s : UserStack) : ℕ → List ℕ → Type 0 where
  no_more : (a : ℕ) → Pointers s a []
  pointer :
      (a p : ℕ) (ps : List ℕ)
      → s.rsp ≤ a
      → Holds s.mem a (le_bytes 8 p)
      → Pointers s (a + 8) ps
      → Pointers s a (p ∷ ps)

Strings-Grown :
    (n : ℕ) (s t : UserStack) (argv : List (List ℕ)) (ps : List ℕ)
    → Grown n s t
    → Strings s argv ps
    → Strings t argv ps
Strings-Grown n s t _ _ g Strings.no_more = Strings.no_more
Strings-Grown n s t _ _ g (string arg p argv ps above h rest) =
    string arg p argv ps (omega (arith, g.lower, above))
      (Holds-Grown n p s t (terminated arg) g above h) (Strings-Grown n s t argv ps g rest)

Pointers-Grown :
    (n : ℕ) (s t : UserStack) (a : ℕ) (ps : List ℕ)
    → Grown n s t
    → Pointers s a ps
    → Pointers t a ps
Pointers-Grown n s t _ _ g (Pointers.no_more a) = Pointers.no_more a
Pointers-Grown n s t _ _ g (pointer a p ps above h rest) =
    pointer a p ps (omega (arith, g.lower, above)) (Holds-Grown n a s t (le_bytes 8 p) g above h)
      (Pointers-Grown n s t (a + 8) ps g rest)

-- The bytes of the strings with their 0s.
unfoldable pub strings_size : List (List ℕ) → ℕ
strings_size [] = 0
strings_size (arg ∷ argv) = strings_size argv + length (terminated arg)

push_args_lem :
    (argv : List (List ℕ)) (s : UserStack)
    → strings_size argv ≤ s.rsp
    → s.rsp < 18446744073709551616
    → Grown (strings_size argv) s (push_args argv s).1
      × Strings (push_args argv s).1 argv (push_args argv s).0
      × (length (push_args argv s).0 ≡ length argv)
unfolding push_args strings_size
push_args_lem [] s room h = (
  record { lower = omega arith; at_most = omega arith; kept = λ a x. refl },
  Strings.no_more,
  refl,
)
push_args_lem (arg ∷ argv) s room h =
    let (g, strings, len) = push_args_lem argv s (omega arith) h in
    let t = (push_args argv s).1 in
    let enough : length (terminated arg) ≤ t.rsp = omega (arith, g.at_most) in
    let small : t.rsp < 18446744073709551616 = omega (arith, g.lower, h) in
    let more = push-Grown (terminated arg) t enough small in
    (
      Grown-trans _ _ s t _ g more,
      string arg _ argv _ (omega arith) (push-Holds (terminated arg) t enough small)
          (Strings-Grown _ t _ argv _ more strings),
      ap suc len,
    )

length-le_bytes : (n v : ℕ) → length (le_bytes n v) ≡ n
unfolding le_bytes
length-le_bytes zero v = refl
length-le_bytes (suc n) v = ap suc (length-le_bytes n (v / 256))

-- A number of 64 bits is pushed.
push_word :
    (v : ℕ) (s : UserStack)
    → 8 ≤ s.rsp
    → s.rsp < 18446744073709551616
    → Grown 8 s (push (le_bytes 8 v) s) × ((push (le_bytes 8 v) s).rsp + 8 ≡ s.rsp)
push_word v s room h =
    let len = length-le_bytes 8 v in
    let fits : length (le_bytes 8 v) ≤ s.rsp = omega (arith, len) in
    (
      subst (λ n. Grown n s (push (le_bytes 8 v) s)) len (push-Grown (le_bytes 8 v) s fits h),
      omega (arith, push_rsp (le_bytes 8 v) s fits h, len, room),
    )

push_pointers_lem :
    (ps qs : List ℕ) (s : UserStack)
    → 8 * length ps ≤ s.rsp
    → s.rsp < 18446744073709551616
    → Pointers s s.rsp qs
    → Grown (8 * length ps) s (push_pointers ps s)
      × ((push_pointers ps s).rsp + 8 * length ps ≡ s.rsp)
      × Pointers (push_pointers ps s) (push_pointers ps s).rsp (ps ++ qs)
unfolding push_pointers
push_pointers_lem [] qs s room h behind =
    (record { lower = omega arith; at_most = omega arith; kept = λ a x. refl }, omega arith, behind)
push_pointers_lem (p ∷ ps) qs s room h behind =
    let (g, down, pointers) = push_pointers_lem ps qs s (omega arith) h behind in
    let t = push_pointers ps s in
    let enough : 8 ≤ t.rsp = omega (arith, down) in
    let small : t.rsp < 18446744073709551616 = omega (arith, g.lower, h) in
    let (more, eight) = push_word p t enough small in
    let fits : length (le_bytes 8 p) ≤ t.rsp = omega (arith, length-le_bytes 8 p) in
    let all = Grown-trans _ _ s t _ g more in
    (
      record { lower = all.lower; at_most = omega (arith, all.at_most); kept = all.kept },
      omega (arith, down, eight),
      pointer _ p (ps ++ qs) (omega arith) (push-Holds (le_bytes 8 p) t fits small) (
          subst (λ a. Pointers (push (le_bytes 8 p) t) a (ps ++ qs)) (sym eight)
            (Pointers-Grown 8 t _ t.rsp (ps ++ qs) more pointers)),
    )

align_lem :
    (f : ℕ) (s : UserStack)
    → s.rsp % 8 ≤ f
    → f ≤ s.rsp
    → s.rsp < 18446744073709551616
    → Grown f s (align f s) × ((align f s).rsp % 8 ≡ 0)
unfolding align
align_lem zero s near room h =
    (record { lower = omega arith; at_most = omega arith; kept = λ a x. refl }, omega arith)
align_lem (suc f) s near room h = elim (Bool-cases (s.rsp % 8 == 0)) [
  | inl e ↦
      rw e (record { lower = omega arith; at_most = omega arith; kept = λ a x. refl }, ground arith)
  | inr e ↦
      let one : length {A = ℕ} (0 ∷ []) ≤ s.rsp = omega arith in
      let down = push_rsp (0 ∷ []) s one h in
      let first = push-Grown (0 ∷ []) s one h in
      let (g, aligned) =
        align_lem f (push (0 ∷ []) s) (ground (arith, down)) (omega (arith, down))
          (omega (arith, down, h)) in
      let all : Grown (suc f) s (align f (push (0 ∷ []) s)) =
        subst (λ n. Grown n s (align f (push (0 ∷ []) s))) (omega arith)
          (Grown-trans 1 f s _ _ first g) in
      rw e (all, aligned)
]

-- What a program finds: `argc`, and `argv` with the addresses of the strings and a NULL behind them.
pub record IsArgv (argv : List (List ℕ)) (s : UserStack) (e : Entry) : Type 0 where
  pub aligned : e.stack.rsp % 8 ≡ 0
  pub return_address : Holds e.stack.mem e.stack.rsp (le_bytes 8 0)
  pub argc : e.rdi ≡ length argv
  pub argv_place : e.rsi ≡ e.stack.rsp + 8
  pub addresses : List ℕ
  pub strings : Strings e.stack argv addresses
  pub pointers : Pointers e.stack e.rsi (addresses ++ (0 ∷ []))
  pub kept : (a : ℕ) → s.rsp ≤ a → e.stack.mem a ≡ s.mem a

-- A stack with room for the strings with their 0s, 7 bytes of padding and two words more than there are
-- arguments, as `load` leaves it: the stack pointer is a multiple of 8 and points at a 0 as return address.
-- Above that argv has the address of each string in their order, then a NULL. Each string stands at its
-- address, ended by its 0, and no later push has overwritten one. Memory from the old stack pointer on stays.
pub pass_args-IsArgv :
    (argv : List (List ℕ)) (s : UserStack)
    → strings_size argv + 8 * length argv + 23 ≤ s.rsp
    → s.rsp < 18446744073709551616
    → IsArgv argv s (pass_args argv s)
unfolding pass_args
pass_args-IsArgv argv s room h =
    let (g1, strings, len) = push_args_lem argv s (omega arith) h in
    let s1 = (push_args argv s).1 in
    let ps = (push_args argv s).0 in
    let (g2, at_8) =
      align_lem 7 s1 (omega arith) (omega (arith, g1.at_most)) (omega (arith, g1.lower)) in
    let s2 = align 7 s1 in
    let room2 : 8 * length argv + 16 ≤ s2.rsp = omega (arith, g1.at_most, g2.at_most) in
    let small2 : s2.rsp < 18446744073709551616 = omega (arith, g1.lower, g2.lower) in
    let (g3, down3) = push_word 0 s2 (omega arith) small2 in
    let s3 = push (le_bytes 8 0) s2 in
    let null_fits : length (le_bytes 8 0) ≤ s2.rsp = omega (arith, length-le_bytes 8 0) in
    let null : Pointers s3 s3.rsp (0 ∷ []) =
      pointer s3.rsp 0 [] (omega arith) (push-Holds (le_bytes 8 0) s2 null_fits small2)
        (Pointers.no_more (s3.rsp + 8)) in
    let small3 : s3.rsp < 18446744073709551616 = omega (arith, down3) in
    let (g4, down4, pointers) =
      push_pointers_lem ps (0 ∷ []) s3 (omega (arith, down3, len)) small3 null in
    let s4 = push_pointers ps s3 in
    let small4 : s4.rsp < 18446744073709551616 = omega (arith, down4) in
    let room4 : 8 ≤ s4.rsp = omega (arith, down3, down4, len) in
    let (g5, down5) = push_word 0 s4 room4 small4 in
    let s5 = push (le_bytes 8 0) s4 in
    let last_fits : length (le_bytes 8 0) ≤ s4.rsp = omega (arith, length-le_bytes 8 0) in
    let place : (s5.rsp + 8) % 18446744073709551616 ≡ s4.rsp = omega (arith, down5) in
    let all =
      Grown-trans _ _ s s3 s5 (Grown-trans _ _ s s2 s3 (Grown-trans _ _ s s1 s2 g1 g2) g3)
        (Grown-trans _ _ s3 s4 s5 g4 g5) in
    record {
      aligned = omega (arith, down3, down4, down5, at_8, len);
      return_address = push-Holds (le_bytes 8 0) s4 last_fits small4;
      argc = refl;
      argv_place = place ∙ sym down5;
      addresses = ps;
      strings = Strings-Grown _ s4 s5 argv ps g5 (
          Strings-Grown _ s3 s4 argv ps g4
            (Strings-Grown _ s2 s3 argv ps g3 (Strings-Grown _ s1 s2 argv ps g2 strings)));
      pointers =
          subst (λ a. Pointers s5 a (ps ++ (0 ∷ []))) (sym place)
            (Pointers-Grown 8 s4 s5 s4.rsp (ps ++ (0 ∷ [])) g5 pointers);
      kept = all.kept;
    }
