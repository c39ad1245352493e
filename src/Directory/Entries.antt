-- ===== src/Directory/Entries.antt =====
-- The entries of a directory in the bytes of its inode, pintos-kaist/filesys/directory.c.
use w12_13_vm.Common.{
  ℕ, zero, suc, ◌+◌, ◌-◌, ◌*◌, ◌/◌, ◌%◌, ◌≤◌, ◌<◌, ◌≡◌, refl, ap, ◌∙◌, List, [], ◌∷◌, true, false,
  ◌&&◌, ltb, leb, ◌==◌, if◌then◌else◌, arith, Bool-cases, inl, inr, length,
}
use w12_13_vm.Inode.{Disk, InodeDisk, inode_read_at, inode_write_at}
use w12_13_vm.Inode.Read.{length-span, get_or-span, content, span, available, inode_read_at-Reads}
use w12_13_vm.Inode.Write.{Writes, inode_write_at-Writes}
use w12_13_vm.FileSys.{byte, word}
use w12_13_vm.Directory.{
  DirEntry, byte_at, c_string, same_name, decode_entry, copied_name, entry_bytes,
}

-- The number of entries, and the bytes of one.
abbrev pub entry_cnt : InodeDisk → ℕ
entry_cnt d = d.length / 20

abbrev pub raw_entry : Disk → InodeDisk → ℕ → ℕ → ℕ
raw_entry disk d i k = content disk d (20 * i + k)

abbrev pub entry : Disk → InodeDisk → ℕ → DirEntry
entry disk d i = decode_entry (raw_entry disk d i)

c_string_ext : (n : ℕ) (a b : ℕ → ℕ) → ((k : ℕ) → k < n → a k ≡ b k) → c_string n a ≡ c_string n b
unfolding c_string
c_string_ext zero a b h = refl
c_string_ext (suc n) a b h =
    let here = h 0 (omega arith) in
    let rest = c_string_ext n (λ k. a (k + 1)) (λ k. b (k + 1)) (λ k lt. h (k + 1) (omega arith)) in
    rw (here, rest) refl

-- An entry is read from its 20 bytes.
pub decode_entry_ext :
    (a b : ℕ → ℕ) → ((k : ℕ) → k < 20 → a k ≡ b k) → decode_entry a ≡ decode_entry b
unfolding decode_entry word
decode_entry_ext a b h =
    rw
      (
        h 0 (omega arith),
        h 1 (omega arith),
        h 2 (omega arith),
        h 3 (omega arith),
        c_string_ext 15 (λ k. a (4 + k)) (λ k. b (4 + k)) (λ k lt. h (4 + k) (omega arith)),
        h 19 (omega arith),
      )
      refl

-- A read of an entry, with memory for the bounce buffer.
pub read_entry :
    (disk : Disk) (d : InodeDisk) (i : ℕ)
    → inode_read_at true disk d 20 (20 * i)
      ≡ span (content disk d) (20 * i) (available d 20 (20 * i))
read_entry disk d i =
    let r = inode_read_at-Reads true disk d 20 (20 * i) in
    r.bytes ∙ ap (span (content disk d) (20 * i)) (r.complete refl)

-- It is short just behind the last entry.
pub full_entry :
    (disk : Disk) (d : InodeDisk) (i : ℕ)
    → (length (inode_read_at true disk d 20 (20 * i)) == 20) ≡ ltb i (entry_cnt d)
full_entry disk d i =
    rw (read_entry disk d i, length-span (content disk d) (20 * i) (available d 20 (20 * i)))
      (ground arith)

pub bytes_of_entry :
    (disk : Disk) (d : InodeDisk) (i k : ℕ)
    → i < entry_cnt d
    → k < 20
    → byte_at (inode_read_at true disk d 20 (20 * i)) k ≡ raw_entry disk d i k
bytes_of_entry disk d i k h lt =
    let all : available d 20 (20 * i) ≡ 20 = ground arith in
    rw (read_entry disk d i, all) (get_or-span (content disk d) (20 * i) 20 k lt)

pub entry_read :
    (disk : Disk) (d : InodeDisk) (i : ℕ)
    → i < entry_cnt d
    → decode_entry (byte_at (inode_read_at true disk d 20 (20 * i))) ≡ entry disk d i
entry_read disk d i h = decode_entry_ext _ _ (λ k lt. bytes_of_entry disk d i k h lt)

-- The bytes of an inode after a write.
written_content :
    (d : InodeDisk) (buffer : ℕ → ℕ) (offset most : ℕ) (disk : Disk) (r : ℕ × Disk)
    → (w : Writes true d buffer offset 0 most disk r) → (p : ℕ)
    → content r.1 d p
      ≡ (if leb offset p && ltb p (offset + w.cnt) then buffer (p - offset) else content disk d p)
unfolding content
written_content d buffer offset most disk r w p =
    let place : (d.start + p / 512 - d.start) * 512 + p % 512 ≡ p = omega arith in
    let start : leb d.start (d.start + p / 512) ≡ true = ground arith in
    let none : 0 + (p - offset) ≡ p - offset = omega arith in
    rw (place, start, none) at (w.new_disk (d.start + p / 512) (p % 512) (omega arith))

-- The entries after one has been written.
pub record EntryWritten (d : InodeDisk) (buffer : ℕ → ℕ) (i : ℕ) (disk : Disk) (r : ℕ × Disk)
    : Type 0 where
  pub done : (r.0 == 20) ≡ ltb i (entry_cnt d)
  pub new_raw :
      (j k : ℕ)
      → j < entry_cnt d
      → k < 20
      → raw_entry r.1 d j k ≡ (if i == j then buffer k else raw_entry disk d j k)

pub write-EntryWritten :
    (d : InodeDisk) (buffer : ℕ → ℕ) (i : ℕ) (disk : Disk)
    → EntryWritten d buffer i disk (inode_write_at false true d buffer 20 (20 * i) disk)
write-EntryWritten d buffer i disk =
    let w = (inode_write_at-Writes true d buffer 20 (20 * i) disk).0 in
    let cnt = w.complete refl in
    record {
      done = ground (arith, w.total, cnt);
      new_raw = λ j k lt h.
          written_content d buffer (20 * i) _ disk _ w (20 * j + k) ∙ elim (Bool-cases (i == j)) [
            | inl q ↦
                let i_is_j : i ≡ j = ground arith in
                let all : available d 20 (20 * i) ≡ 20 = ground (arith, i_is_j) in
                let place : 20 * j + k - 20 * i ≡ k = omega (arith, i_is_j) in
                let inside : (leb (20 * i) (20 * j + k) && ltb (20 * j + k) (20 * i + w.cnt))
                    ≡ true =
                  ground (arith, i_is_j, cnt, all) in
                rw (q, inside, place) refl
            | inr q ↦
                let outside : (leb (20 * i) (20 * j + k) && ltb (20 * j + k) (20 * i + w.cnt))
                    ≡ false =
                  ground (arith, w.at_most) in
                rw (q, outside) refl
          ];
    }

c_string-copied :
    (name : List ℕ) (old : ℕ → ℕ) (n : ℕ)
    → length name < n
    → ((k : ℕ) → k < length name → 0 < byte_at name k)
    → c_string n (copied_name name old) ≡ name
unfolding c_string copied_name
c_string-copied name old zero h nonzero = absurd (omega arith)
c_string-copied [] old (suc n) h nonzero = refl
c_string-copied (c ∷ cs) old (suc n) h nonzero =
    let first : (c == 0) ≡ false = ground (arith, nonzero 0 (omega arith)) in
    rw first (
      ap (λ t. c ∷ t)
        (c_string_ext n _ _ (λ k lt. step k)
          ∙ c_string-copied cs (λ j. old (j + 1)) n (omega arith)
              (λ k lt. nonzero (suc k) (omega arith))))
  where
    step : (k : ℕ) → copied_name (c ∷ cs) old (k + 1) ≡ copied_name cs (λ j. old (j + 1)) k
    step k =
        let behind : (k + 1 == 0) ≡ false = ground arith in
        let back : k + 1 - 1 ≡ k = omega arith in rw (behind, back) refl

-- A name that dir_add takes: up to 14 bytes, none of them 0.
pub record IsName (name : List ℕ) : Type 0 where
  pub some_bytes : 0 < length name
  pub fits : length name ≤ 14
  pub nonzero : (k : ℕ) → k < length name → 0 < byte_at name k

decode_entry-fields :
    (b : ℕ → ℕ) (n : ℕ) (t : List ℕ)
    → word b 0 ≡ n
    → c_string 15 (λ k. b (4 + k)) ≡ t
    → b 19 ≡ 1
    → decode_entry b ≡ record { inode_sector = n; name = t; in_use = true }
unfolding decode_entry
decode_entry-fields b n t number text used = rw (number, text, used) refl

word-entry_bytes :
    (name : List ℕ) (sector : ℕ) (old : ℕ → ℕ)
    → sector < 4294967296
    → word (entry_bytes name sector old) 0 ≡ sector
unfolding entry_bytes word byte
word-entry_bytes name sector old h = omega arith

name_in-entry_bytes :
    (name : List ℕ) (sector : ℕ) (old : ℕ → ℕ) (k : ℕ)
    → k < 15
    → entry_bytes name sector old (4 + k) ≡ copied_name name (λ j. old (4 + j)) k
unfolding entry_bytes
name_in-entry_bytes name sector old k h =
    let behind : ltb (4 + k) 4 ≡ false = ground arith in
    let inside : ltb (4 + k) 19 ≡ true = ground arith in
    let place : 4 + k - 4 ≡ k = omega arith in rw (behind, inside, place) refl

used_in-entry_bytes :
    (name : List ℕ) (sector : ℕ) (old : ℕ → ℕ) → entry_bytes name sector old 19 ≡ 1
unfolding entry_bytes
used_in-entry_bytes name sector old = refl

pub decode_entry-entry_bytes :
    (name : List ℕ) (sector : ℕ) (old : ℕ → ℕ)
    → IsName name
    → sector < 4294967296
    → decode_entry (entry_bytes name sector old)
      ≡ record { inode_sector = sector; name = name; in_use = true }
decode_entry-entry_bytes name sector old v h =
    let text =
      c_string_ext 15 (λ k. entry_bytes name sector old (4 + k))
        (copied_name name (λ j. old (4 + j))) (name_in-entry_bytes name sector old)
      ∙ c_string-copied name (λ j. old (4 + j)) 15 (omega (arith, v.fits)) v.nonzero in
    decode_entry-fields (entry_bytes name sector old) sector name
      (word-entry_bytes name sector old h) text (used_in-entry_bytes name sector old)

pub same_name_refl : (a : List ℕ) → same_name a a ≡ true
unfolding same_name
same_name_refl [] = refl
same_name_refl (x ∷ xs) = ground (arith, same_name_refl xs)

pub same_name_iff : (a b : List ℕ) → same_name a b ≡ true → a ≡ b
unfolding same_name
same_name_iff [] [] h = refl
same_name_iff [] (y ∷ ys) h = cc
same_name_iff (x ∷ xs) [] h = cc
same_name_iff (x ∷ xs) (y ∷ ys) h =
    let first : x ≡ y = ground arith in
    let rest = same_name_iff xs ys (ground arith) in cc (first, rest)
