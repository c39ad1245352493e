-- ===== src/Process/Arguments/Words.antt =====
-- The tokens of a command line, strtok_r of pintos-kaist/lib/string.c and parse_args of
-- pintos-kaist/userprog/process.c.
use w12_13_vm.Common.{
  ℕ, zero, suc, ◌+◌, ◌≤◌, ◌<◌, ◌≡◌, refl, ap, ◌∙◌, List, [], ◌∷◌, ◌++◌, false, none, some, ◌==◌,
  length, arith, map, ltb, if◌then◌else◌, Bool-cases, inl, inr,
}
use w12_13_vm.Process.Arguments.{skip_spaces, token, strtok_r, parse_args}

-- A word has a byte at least, and no spaces.
pub data NoSpace : List ℕ → Type 0 where
  no_byte : NoSpace []
  byte : (c : ℕ) (w : List ℕ) → (c == 32) ≡ false → NoSpace w → NoSpace (c ∷ w)

pub data IsWord : List ℕ → Type 0 where
  word : (c : ℕ) (w : List ℕ) → (c == 32) ≡ false → NoSpace w → IsWord (c ∷ w)

unfoldable pub spaces : ℕ → List ℕ
spaces zero = []
spaces (suc n) = 32 ∷ spaces n

-- Words, each with the number of spaces before it; all but the first have one more.
pub record Gap : Type 0 where
  pub before : ℕ
  pub text : List ℕ

-- What follows a word: nothing, or a space and more.
unfoldable pub following : List Gap → ℕ → List ℕ
following [] zero = []
following [] (suc n) = 32 ∷ spaces n
following (g ∷ gs) n = 32 ∷ (spaces g.before ++ (g.text ++ following gs n))

-- A command line: its words with the gaps before them, and the spaces at its end.
unfoldable pub command_line : List Gap → ℕ → List ℕ
command_line [] n = spaces n
command_line (g ∷ gs) n = spaces g.before ++ (g.text ++ following gs n)

pub data AllWords : List Gap → Type 0 where
  no_word : AllWords []
  next_word : (g : Gap) (gs : List Gap) → IsWord g.text → AllWords gs → AllWords (g ∷ gs)

skip_spaces-spaces : (n : ℕ) (s : List ℕ) → skip_spaces (spaces n ++ s) ≡ skip_spaces s
unfolding skip_spaces spaces
skip_spaces-spaces zero s = refl
skip_spaces-spaces (suc n) s = skip_spaces-spaces n s

skip_only_spaces : (n : ℕ) → skip_spaces (spaces n) ≡ []
unfolding skip_spaces spaces
skip_only_spaces zero = refl
skip_only_spaces (suc n) = skip_only_spaces n

-- What is left behind a word: the rest without its first space.
unfoldable after_space : List ℕ → List ℕ
after_space [] = []
after_space (c ∷ s) = s

-- A rest begins with a space, or is empty.
data Begins : List ℕ → Type 0 where
  at_end : Begins []
  at_space : (s : List ℕ) → Begins (32 ∷ s)

token-word : (w : List ℕ) (s : List ℕ) → NoSpace w → Begins s → token (w ++ s) ≡ (w, after_space s)
unfolding token after_space
token-word _ _ no_byte at_end = refl
token-word _ _ no_byte (at_space s) = refl
token-word _ s (byte c w e v) b = let rest = token-word w s v b in rw (e, rest) refl

Begins-following : (gs : List Gap) (n : ℕ) → Begins (following gs n)
unfolding following
Begins-following [] zero = at_end
Begins-following [] (suc n) = at_space (spaces n)
Begins-following (g ∷ gs) n = at_space _

after_space-following :
    (gs : List Gap) (n : ℕ) → (m : ℕ) × (after_space (following gs n) ≡ command_line gs m)
unfolding after_space following command_line spaces
after_space-following [] zero = (0, refl)
after_space-following [] (suc n) = (n, refl)
after_space-following (g ∷ gs) n = (n, refl)

strtok_r-skip_spaces :
    (s : List ℕ) (c : ℕ) (r : List ℕ) → skip_spaces s ≡ c ∷ r → strtok_r s ≡ some (token (c ∷ r))
unfolding strtok_r
strtok_r-skip_spaces s c r e = rw (e, strtok_r) refl

skip_to_word :
    (n c : ℕ) (w s : List ℕ)
    → (c == 32) ≡ false
    → skip_spaces (spaces n ++ (c ∷ (w ++ s))) ≡ c ∷ (w ++ s)
unfolding skip_spaces
skip_to_word n c w s e = skip_spaces-spaces n (c ∷ (w ++ s)) ∙ rw e refl

strtok_r-word :
    (n : ℕ) (w s : List ℕ)
    → IsWord w
    → Begins s
    → strtok_r (spaces n ++ (w ++ s)) ≡ some (w, after_space s)
strtok_r-word n _ s (word c w e v) b =
    strtok_r-skip_spaces _ c (w ++ s) (skip_to_word n c w s e)
    ∙ ap some (token-word (c ∷ w) s (byte c w e v) b)

strtok_r-end : (n : ℕ) → strtok_r (spaces n) ≡ none
unfolding strtok_r
strtok_r-end n = rw (skip_only_spaces n, strtok_r) refl

parse_from :
    (gs : List Gap) (n f argc : ℕ)
    → AllWords gs
    → length gs < f
    → argc ≤ 128
    → parse_args f argc (command_line gs n)
      ≡ (if ltb (argc + length gs) 128 then some (map (λ (g : Gap). g.text) gs) else none)
unfolding parse_args command_line
parse_from gs n zero argc v fuel most = absurd (omega arith)
parse_from _ n (suc f) argc no_word fuel most =
    let none_more : argc + 0 ≡ argc = omega arith in rw (strtok_r-end n, parse_args, none_more) refl
parse_from _ n (suc f) argc (next_word g gs v vs) fuel most =
    let (m, behind) = after_space-following gs n in
    let first = strtok_r-word g.before g.text (following gs n) v (Begins-following gs n) in
    elim (Bool-cases (ltb argc 128)) [
      | inl h ↦
          let rest = parse_from gs m f (argc + 1) vs (omega arith) (ground arith) in
          let place : argc + 1 + length gs ≡ argc + suc (length gs) = omega arith in
          elim (Bool-cases (ltb (argc + suc (length gs)) 128)) [
            | inl e ↦ rw (first, behind, parse_args, h, rest, place, e) refl
            | inr e ↦ rw (first, behind, parse_args, h, rest, place, e) refl
          ]
      | inr h ↦
          let full : ltb (argc + suc (length gs)) 128 ≡ false = ground arith in
          rw (first, behind, parse_args, h, full) refl
    ]

-- parse_args, with a round of fuel more than there are words, gives the words of a command line of up to 127 words
-- in their order, whatever the numbers of spaces before, between and behind them. Of 128 words or more it writes
-- behind its array.
pub parse_args-command_line :
    (gs : List Gap) (n f : ℕ)
    → AllWords gs
    → length gs < f
    → parse_args f 0 (command_line gs n)
      ≡ (if ltb (length gs) 128 then some (map (λ (g : Gap). g.text) gs) else none)
parse_args-command_line gs n f v fuel =
    let same : 0 + length gs ≡ length gs = omega arith in
    rw same at (parse_from gs n f 0 v fuel (omega arith))
