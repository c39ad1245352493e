-- ===== src/Files/Reading.antt =====
-- Reads and writes at the position of a file, pintos-kaist/filesys/file.c.
use w12_13_vm.Common.{
  ℕ, zero, suc, ◌+◌, ◌-◌, ◌≡◌, refl, sym, ap, ◌∙◌, ◌++◌, true, false, arith, length,
}
use w12_13_vm.Inode.{InodeDisk, inode_write_at}
use w12_13_vm.Inode.Read.{content, span, span-append, available, inode_read_at-Reads}
use w12_13_vm.Inode.Write.{inode_read_at-inode_write_at, inode_write_at-Writes}
use w12_13_vm.FileSys.{FileSys, is_zero}
use w12_13_vm.Files.{file_read_at, file_read, file_write_at, file_write, file_seek}

-- The data of a file's inode.
abbrev pub data_of : FileSys → ℕ → InodeDisk
data_of s f = (s.inodes (s.files f).inode).inode_disk

pub length-span : (f : ℕ → ℕ) (i n : ℕ) → length (span f i n) ≡ n
unfolding span
length-span f i zero = refl
length-span f i (suc n) = ap suc (length-span f (i + 1) n)

-- The bytes that a read gives, with memory for the bounce buffer.
all_read :
    (s : FileSys) (f size ofs : ℕ)
    → file_read_at true f size ofs s
      ≡ span (content s.disk (data_of s f)) ofs (available (data_of s f) size ofs)
unfolding file_read_at
all_read s f size ofs =
    let r = inode_read_at-Reads true s.disk (data_of s f) size ofs in
    r.bytes ∙ ap (span (content s.disk (data_of s f)) ofs) (r.complete refl)

-- file_read gives the bytes of the inode from the position on, and moves the position behind them.
read_lem :
    (s : FileSys) (f size p : ℕ) (d : InodeDisk)
    → (s.files f).file_pos ≡ p
    → data_of s f ≡ d
    → file_read true f size s
      ≡ (span (content s.disk d) p (available d size p), file_seek f (p + available d size p) s)
unfolding file_read
read_lem s f size p d e h =
    rw (all_read s f size (s.files f).file_pos, length-span) (rw (e, h) refl)

available_twice :
    (d : InodeDisk) (a b ofs : ℕ)
    → available d a ofs + available d b (ofs + available d a ofs) ≡ available d (a + b) ofs
available_twice d a b ofs = ground arith

-- Two reads one after the other give the bytes that one read of both sizes gives, and end at the same
-- position, where malloc has room for the bounce buffers.
pub file_read-file_read :
    (s : FileSys) (f a b : ℕ)
    → ((file_read true f a s).0 ++ (file_read true f b (file_read true f a s).1).0
        ≡ (file_read true f (a + b) s).0)
      × (((file_read true f b (file_read true f a s).1).1.files f).file_pos
          ≡ ((file_read true f (a + b) s).1.files f).file_pos)
file_read-file_read s f a b =
    let d = data_of s f in
    let p = (s.files f).file_pos in
    let n = available d a p in
    let t = file_seek f (p + n) s in
    let one = read_lem s f a p d refl refl in
    let two = read_lem t f b (p + n) d (ground arith) (ground arith) in
    let both = read_lem s f (a + b) p d refl refl in
    rw (one, both, two)
      (
        span-append (content s.disk d) p n (available d b (p + n))
            ∙ ap (span (content s.disk d) p) (available_twice d a b p),
        ground (arith, available_twice d a b p),
      )

-- A write of a file whose inode nobody denies.
write_lem :
    (s : FileSys) (f : ℕ) (buffer : ℕ → ℕ) (size : ℕ)
    → is_zero (s.inodes (s.files f).inode).deny_write_cnt ≡ true
    → let w = inode_write_at false true (data_of s f) buffer size (s.files f).file_pos s.disk in
      file_write true f buffer size s
      ≡ (w.0, file_seek f ((s.files f).file_pos + w.0) (record s { disk = w.1 }))
unfolding file_write file_write_at
write_lem s f buffer size h = rw h refl

-- Where nobody denies writes to the inode and malloc has room for the bounce buffers, the bytes that
-- file_write says it has written are what a read gives after file_seek back to where the write began; and
-- they are as many as have room in the inode.
pub file_read-file_seek-file_write :
    (s : FileSys) (f : ℕ) (buffer : ℕ → ℕ) (size : ℕ)
    → is_zero (s.inodes (s.files f).inode).deny_write_cnt ≡ true
    → let written = file_write true f buffer size s in
      ((file_read true f size (file_seek f (s.files f).file_pos written.1)).0
        ≡ span (λ i. buffer (i - (s.files f).file_pos)) (s.files f).file_pos written.0)
      × (written.0 ≡ available (data_of s f) size (s.files f).file_pos)
file_read-file_seek-file_write s f buffer size h =
    let d = data_of s f in
    let p = (s.files f).file_pos in
    let w = inode_write_at false true d buffer size p s.disk in
    let t = file_seek f p (file_seek f (p + w.0) (record s { disk = w.1 })) in
    let v = (inode_write_at-Writes true d buffer size p s.disk).0 in
    let cnt : w.0 ≡ available d size p = omega (arith, v.total, v.complete refl) in
    let read = read_lem t f size p d (ground arith) (ground arith) in
    let r = inode_read_at-Reads true w.1 d size p in
    let back = inode_read_at-inode_write_at d buffer size p s.disk in
    rw (write_lem s f buffer size h, read)
      (
        sym (r.bytes ∙ ap (span (content w.1 d) p) (r.complete refl))
            ∙ back
            ∙ ap (span (λ i. buffer (i - p)) p) (sym cnt),
        cnt,
      )
