-- ===== src/Inode/Read.antt =====
-- inode_read_at of pintos-kaist/filesys/inode.c reads a flat array of bytes.
use w12_13_vm.Common.{
  ℕ, zero, suc, ◌+◌, ◌-◌, ◌*◌, ◌/◌, ◌%◌, ◌≤◌, ◌<◌, ◌≡◌, refl, ap, ◌∙◌, List, [], ◌∷◌, ◌++◌, Bool,
  true, ◌&&◌, ◌||◌, ◌==◌, arith, Bool-cases, inl, inr, length, get_or,
}
use w12_13_vm.Inode.{
  Disk, InodeDisk, byte_to_sector, chunk_size, copy, read_loop, inode_read_at, lesser,
}

-- The byte at a position of an inode.
unfoldable pub content : Disk → InodeDisk → ℕ → ℕ
content disk d i = disk (d.start + i / 512) (i % 512)

-- The values of a function at `n` places from `i` on.
unfoldable pub span : (ℕ → ℕ) → ℕ → ℕ → List ℕ
span f i zero = []
span f i (suc n) = f i ∷ span f (i + 1) n

pub length-span : (f : ℕ → ℕ) (i n : ℕ) → length (span f i n) ≡ n
unfolding span
length-span f i zero = refl
length-span f i (suc n) = ap suc (length-span f (i + 1) n)

pub get_or-span : (f : ℕ → ℕ) (i n k : ℕ) → k < n → get_or (span f i n) k 0 ≡ f (i + k)
unfolding span
get_or-span f i zero k h = absurd (omega arith)
get_or-span f i (suc n) zero h = ap f (omega arith)
get_or-span f i (suc n) (suc k) h = get_or-span f (i + 1) n k (omega arith) ∙ ap f (omega arith)

pub span-append : (f : ℕ → ℕ) (i a b : ℕ) → span f i a ++ span f (i + a) b ≡ span f i (a + b)
unfolding span
span-append f i zero b = ground arith
span-append f i (suc a) b =
    let e : suc a + b ≡ suc (a + b) = omega arith in
    let g : i + suc a ≡ i + 1 + a = omega arith in
    rw (e, g) (ap (λ t. f i ∷ t) (span-append f (i + 1) a b))

-- Inside a sector the bytes that are copied are those of the inode.
copy-span :
    (disk : Disk) (d : InodeDisk) (q o cnt : ℕ)
    → o + cnt ≤ 512
    → copy (disk (d.start + q)) o cnt ≡ span (content disk d) (q * 512 + o) cnt
unfolding copy span content
copy-span disk d q o zero h = refl
copy-span disk d q o (suc cnt) h =
    let here : (q * 512 + o) / 512 ≡ q = omega arith in
    let off : (q * 512 + o) % 512 ≡ o = omega arith in
    ground (arith, here, off, copy-span disk d q (o + 1) cnt)

pub chunk_fits : (d : InodeDisk) (size offset : ℕ) → offset % 512 + chunk_size d size offset ≤ 512
unfolding chunk_size
chunk_fits d size offset = ground arith

pub sector_of :
    (d : InodeDisk) (size offset : ℕ)
    → 0 < chunk_size d size offset
    → byte_to_sector d offset ≡ d.start + offset / 512
unfolding chunk_size byte_to_sector
sector_of d size offset h = ground arith

-- What a round leaves to do.
pub chunk_left :
    (d : InodeDisk) (size offset : ℕ)
    → (chunk_size d size offset ≤ size)
      × (chunk_size d size offset
            + lesser
                (size - chunk_size d size offset)
                (d.length - (offset + chunk_size d size offset))
          ≡ lesser size (d.length - offset))
      × (chunk_size d size offset ≡ 0 → lesser size (d.length - offset) ≡ 0)
unfolding chunk_size
chunk_left d size offset = (ground arith, ground arith, ground arith)

-- The bytes of one round.
pub chunk-span :
    (disk : Disk) (d : InodeDisk) (size offset : ℕ)
    → 0 < chunk_size d size offset
    → copy (disk (byte_to_sector d offset)) (offset % 512) (chunk_size d size offset)
      ≡ span (content disk d) offset (chunk_size d size offset)
chunk-span disk d size offset h =
    let sector : byte_to_sector d offset ≡ d.start + offset / 512 = sector_of d size offset h in
    let whole : (offset / 512) * 512 + offset % 512 ≡ offset = omega arith in
    rw sector (
      copy-span disk d (offset / 512) (offset % 512) (chunk_size d size offset)
        (chunk_fits d size offset)
      ∙ ap (λ o. span (content disk d) o (chunk_size d size offset)) whole)

-- How many bytes there are to read.
abbrev pub available : InodeDisk → ℕ → ℕ → ℕ
available d size offset = lesser size (d.length - offset)

-- The bytes that were read: from the offset on, and all that were asked for and exist, if there was memory.
pub record Reads (has_bounce : Bool) (f : ℕ → ℕ) (offset most : ℕ) (r : List ℕ) : Type 0 where
  pub cnt : ℕ
  pub bytes : r ≡ span f offset cnt
  pub at_most : cnt ≤ most
  pub complete : has_bounce ≡ true → cnt ≡ most

read_loop-Reads :
    (f : ℕ) (has_bounce : Bool) (disk : Disk) (d : InodeDisk) (size offset : ℕ)
    → size ≤ f
    → Reads has_bounce
        (content disk d)
        offset
        (available d size offset)
        (read_loop f has_bounce disk d size offset)
unfolding read_loop span
read_loop-Reads zero has_bounce disk d size offset h = record {
  cnt = 0;
  bytes = refl;
  at_most = omega arith;
  complete = λ e. ground arith;
}
read_loop-Reads (suc f) has_bounce disk d size offset h =
    let chunk = chunk_size d size offset in
    let left = chunk_left d size offset in
    elim (Bool-cases (chunk == 0)) [
      | inl z ↦ record {
        cnt = 0;
        bytes = rw (z, read_loop) refl;
        at_most = omega arith;
        complete = λ e. ground (arith, left.2);
      }
      | inr z ↦ elim (Bool-cases (((offset % 512 == 0) && (chunk == 512)) || has_bounce)) [
        | inl go ↦
            let pos : 0 < chunk = ground arith in
            let r =
              read_loop-Reads f has_bounce disk d (size - chunk) (offset + chunk)
                (omega (arith, left.0)) in
            record {
              cnt = chunk + r.cnt;
              bytes =
                  rw (z, go, read_loop)
                    (rw (r.bytes, chunk-span disk d size offset pos)
                      (span-append (content disk d) offset chunk r.cnt));
              at_most = omega (arith, left.1, r.at_most);
              complete = λ e. omega (arith, left.1, r.complete e);
            }
        | inr stop ↦ record {
          cnt = 0;
          bytes = rw (z, stop, read_loop) refl;
          at_most = omega arith;
          complete = λ e. absurd (ground arith);
        }
      ]
    ]

-- inode_read_at gives bytes of the inode from the offset on, no more than are asked for or than there
-- are; and with memory for the bounce buffer it gives just as many.
pub inode_read_at-Reads :
    (has_bounce : Bool) (disk : Disk) (d : InodeDisk) (size offset : ℕ)
    → Reads has_bounce
        (content disk d)
        offset
        (available d size offset)
        (inode_read_at has_bounce disk d size offset)
unfolding inode_read_at
inode_read_at-Reads has_bounce disk d size offset =
    read_loop-Reads size has_bounce disk d size offset (omega arith)
