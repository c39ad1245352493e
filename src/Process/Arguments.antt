-- ===== src/Process/Arguments.antt =====
-- The arguments of a program: `strtok_r` of pintos-kaist/lib/string.c with spaces between the tokens,
-- `parse_args` of pintos-kaist/userprog/process.c, and the end of `load` there, which puts the arguments on
-- the user's stack. A string is the list of its bytes, none of which is 0.
pub mod Words
pub mod Stack
use w12_13_vm.Common.{
  ℕ, zero, suc, ◌+◌, ◌-◌, ◌/◌, ◌%◌, List, [], ◌∷◌, ◌++◌, Bool, true, false, ◌&&◌, Option, none,
  some, ltb, leb, ◌==◌, if◌then◌else◌, ◌>>=◌, length, get_or,
}
use w12_13_vm.Process.Segments.{size_64}

-- The two loops of strtok_r: behind the spaces, and up to the next one, which becomes a 0.
unfoldable pub skip_spaces : List ℕ → List ℕ
skip_spaces [] = []
skip_spaces (c ∷ s) = if c == 32 then skip_spaces s else c ∷ s

unfoldable pub token : List ℕ → List ℕ × List ℕ
token [] = ([], [])
token (c ∷ s) = let rest = token s in if c == 32 then ([], s) else (c ∷ rest.0, rest.1)

-- The token and what `save_ptr` points at.
unfoldable pub strtok_r : List ℕ → Option (List ℕ × List ℕ)
strtok_r s = elim (skip_spaces s) [ [] ↦ none | c ∷ rest ↦ some (token (c ∷ rest)) ]

-- The room of the array argv in `load`.
abbrev pub max_args : ℕ
max_args = 128

-- From `argc` words on. `none` is a write behind the array: of a word at its end, or of the NULL behind the words.
-- A token takes a byte at least, so one more than the length of the string is fuel enough.
unfoldable pub parse_args : ℕ → ℕ → List ℕ → Option (List (List ℕ))
parse_args zero argc target = none
parse_args (suc f) argc target = elim (strtok_r target) [
  | none ↦ if ltb argc max_args then some [] else none
  | some (word, rest) ↦
      let more : Option (List (List ℕ)) = (do
        words ← parse_args f (argc + 1) rest
        some (word ∷ words)) in
      if ltb argc max_args then more else none
]

-- The stack pointer and the bytes of memory.
pub record UserStack : Type 0 where
  pub rsp : ℕ
  pub mem : ℕ → ℕ

-- The stack pointer goes down by the length of some bytes, and they are copied there.
unfoldable pub push : List ℕ → UserStack → UserStack
push bytes s =
    let rsp = (s.rsp + size_64 - length bytes) % size_64 in
    record {
      rsp = rsp;
      mem = λ a.
          if leb rsp a && ltb a (rsp + length bytes) then get_or bytes (a - rsp) 0 else s.mem a;
    }

abbrev pub terminated : List ℕ → List ℕ
terminated arg = arg ++ (0 ∷ [])

-- The `n` bytes of a number, the lowest first.
unfoldable pub le_bytes : ℕ → ℕ → List ℕ
le_bytes zero v = []
le_bytes (suc n) v = v % 256 ∷ le_bytes n (v / 256)

-- The loop over the arguments from the last one on, and the addresses that it puts in rsp_arr.
unfoldable pub push_args : List (List ℕ) → UserStack → List ℕ × UserStack
push_args [] s = ([], s)
push_args (arg ∷ argv) s =
    let below = push_args argv s in let t = push (terminated arg) below.1 in (t.rsp ∷ below.0, t)

-- Down to a multiple of 8, in at most 7 rounds.
unfoldable pub align : ℕ → UserStack → UserStack
align zero s = s
align (suc f) s = let next = align f (push (0 ∷ []) s) in if s.rsp % 8 == 0 then s else next

unfoldable pub push_pointers : List ℕ → UserStack → UserStack
push_pointers [] s = s
push_pointers (p ∷ rsp_arr) s = push (le_bytes 8 p) (push_pointers rsp_arr s)

pub record Entry : Type 0 where
  pub rdi : ℕ
  pub rsi : ℕ
  pub stack : UserStack

unfoldable pub pass_args : List (List ℕ) → UserStack → Entry
pass_args argv s =
    let strings = push_args argv s in
    let null = push (le_bytes 8 0) (align 7 strings.1) in
    let stack = push (le_bytes 8 0) (push_pointers strings.0 null) in
    record { rdi = length argv; rsi = (stack.rsp + 8) % size_64; stack = stack }
