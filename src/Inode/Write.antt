-- ===== src/Inode/Write.antt =====
-- inode_write_at of pintos-kaist/filesys/inode.c writes a flat array of bytes.
use w12_13_vm.Common.{
  ℕ, zero, suc, ◌+◌, ◌-◌, ◌*◌, ◌/◌, ◌%◌, ◌≤◌, ◌<◌, ◌≡◌, refl, ap, ◌∙◌, Bool, true, false, ◌&&◌,
  ◌||◌, ltb, leb, ◌==◌, if◌then◌else◌, arith, Bool-cases, inl, inr, update,
}
use w12_13_vm.Inode.{
  Disk, InodeDisk, byte_to_sector, chunk_size, new_sector, write_loop, inode_write_at,
  inode_read_at,
}
use w12_13_vm.Inode.Read.{
  content, span, available, chunk_fits, sector_of, chunk_left, inode_read_at-Reads,
}

-- The byte `j` of the sector `t` lies among the `cnt` bytes of the inode from `offset` on.
abbrev pub hits : InodeDisk → ℕ → ℕ → ℕ → ℕ → Bool
hits d offset cnt t j =
    leb d.start t
    && (leb offset ((t - d.start) * 512 + j) && ltb ((t - d.start) * 512 + j) (offset + cnt))

-- The same place, seen from the sector and from the inode.
same_place :
    (start q o c t j : ℕ)
    → o + c ≤ 512
    → j < 512
    → leb start t
        && (leb (q * 512 + o) ((t - start) * 512 + j)
            && ltb ((t - start) * 512 + j) (q * 512 + o + c))
      ≡ (start + q == t) && (leb o j && ltb j (o + c))
same_place start q o c t j h lt = ground arith

-- The disk after a round.
pub round_lem :
    (disk : Disk) (d : InodeDisk) (buffer : ℕ → ℕ) (size offset done t j : ℕ)
    → 0 < chunk_size d size offset
    → j < 512
    → update disk
        (byte_to_sector d offset)
        (new_sector
          (disk (byte_to_sector d offset))
          buffer
          done
          (offset % 512)
          (chunk_size d size offset))
        t
        j
      ≡ (if hits d offset (chunk_size d size offset) t j
          then buffer (done + ((t - d.start) * 512 + j - offset))
          else disk t j)
unfolding new_sector
round_lem disk d buffer size offset done t j h lt =
    let sector = sector_of d size offset h in
    let q = offset / 512 in
    let o = offset % 512 in
    let c = chunk_size d size offset in
    let whole : q * 512 + o ≡ offset = omega arith in
    let place = rw whole at (same_place d.start q o c t j (chunk_fits d size offset) lt) in
    elim (Bool-cases (d.start + q == t)) [
      | inl e ↦
          let here : d.start + q ≡ t = ground arith in
          let back : (t - d.start) * 512 + j - offset ≡ j - o = omega arith in
          let bound = chunk_fits d size offset in
          rw (sector, place, e, back) (rw here (ground arith))
      | inr e ↦ rw (sector, place, e) refl
    ]

-- The bytes that were written: a part of the buffer, all of it that has room in the inode if there was
-- memory, and no other byte of the disk.
pub record Writes (has_bounce : Bool) (d : InodeDisk) (buffer : ℕ → ℕ) (offset done most : ℕ)
    (disk : Disk) (r : ℕ × Disk) : Type 0 where
  pub cnt : ℕ
  pub total : r.0 ≡ done + cnt
  pub at_most : cnt ≤ most
  pub complete : has_bounce ≡ true → cnt ≡ most
  pub new_disk :
      (t j : ℕ)
      → j < 512
      → r.1 t j ≡ (
          if hits d offset cnt t j
          then buffer (done + ((t - d.start) * 512 + j - offset))
          else disk t j)

nothing-Writes :
    (has_bounce : Bool) (d : InodeDisk) (buffer : ℕ → ℕ) (offset done most : ℕ) (disk : Disk)
    → (has_bounce ≡ true → most ≡ 0)
    → Writes has_bounce d buffer offset done most disk (done, disk)
nothing-Writes has_bounce d buffer offset done most disk h = record {
  cnt = 0;
  total = omega arith;
  at_most = omega arith;
  complete = λ e. omega (arith, h e);
  new_disk = λ t j lt. ground arith;
}

-- Two stretches of bytes, one behind the other.
joined :
    (f : ℕ → ℕ) (done offset a b p v : ℕ) (first : Bool)
    → (if first && (leb (offset + a) p && ltb p (offset + a + b))
        then f (done + a + (p - (offset + a)))
        else (if first && (leb offset p && ltb p (offset + a)) then f (done + (p - offset)) else v))
      ≡ (if first && (leb offset p && ltb p (offset + (a + b))) then f (done + (p - offset)) else v)
joined f done offset a b p v first = elim (Bool-cases (leb (offset + a) p)) [
  | inl h ↦
      let le : offset + a ≤ p = ground arith in
      let same : done + a + (p - (offset + a)) ≡ done + (p - offset) = omega arith in
      rw same (ground arith)
  | inr h ↦ ground arith
]

write_loop-Writes :
    (f : ℕ) (has_bounce : Bool) (d : InodeDisk) (buffer : ℕ → ℕ) (size offset done : ℕ)
    (disk : Disk)
    → size ≤ f
    → Writes has_bounce d buffer offset done
        (available d size offset)
        disk
        (write_loop f has_bounce d buffer size offset done disk)
unfolding write_loop
write_loop-Writes zero has_bounce d buffer size offset done disk h =
    nothing-Writes has_bounce d buffer offset done _ disk (λ e. ground arith)
write_loop-Writes (suc f) has_bounce d buffer size offset done disk h =
    let chunk = chunk_size d size offset in
    let left = chunk_left d size offset in
    let sector = byte_to_sector d offset in
    let disk' = update disk sector (new_sector (disk sector) buffer done (offset % 512) chunk) in
    elim (Bool-cases (chunk == 0)) [
      | inl z ↦
          rw (z, write_loop)
            (nothing-Writes has_bounce d buffer offset done _ disk (λ e. ground (arith, left.2)))
      | inr z ↦ elim (Bool-cases (((offset % 512 == 0) && (chunk == 512)) || has_bounce)) [
        | inl go ↦
            let pos : 0 < chunk = ground arith in
            let r =
              write_loop-Writes f has_bounce d buffer (size - chunk) (offset + chunk) (done + chunk)
                disk' (omega (arith, left.0)) in
            rw (z, go, write_loop)
              (record {
                cnt = chunk + r.cnt;
                total = omega (arith, r.total);
                at_most = omega (arith, left.1, r.at_most);
                complete = λ e. omega (arith, left.1, r.complete e);
                new_disk = λ t j lt.
                    r.new_disk t j lt
                    ∙ rw (round_lem disk d buffer size offset done t j pos lt) (
                        joined buffer done offset chunk r.cnt ((t - d.start) * 512 + j) (disk t j)
                          (leb d.start t));
              })
        | inr stop ↦
            rw (z, stop, write_loop)
              (nothing-Writes has_bounce d buffer offset done _ disk (λ e. absurd (ground arith)))
      ]
    ]

-- inode_write_at, where writes are not denied, writes bytes of the buffer into the inode from the offset
-- on, no more than are asked for or than have room before its end, and changes no other byte of the
-- disk; with memory for the bounce buffer it writes just as many. Where writes are denied, it writes
-- nothing and leaves the disk as it is.
pub inode_write_at-Writes :
    (has_bounce : Bool) (d : InodeDisk) (buffer : ℕ → ℕ) (size offset : ℕ) (disk : Disk)
    → Writes has_bounce d buffer offset 0
        (available d size offset)
        disk
        (inode_write_at false has_bounce d buffer size offset disk)
      × (inode_write_at true has_bounce d buffer size offset disk ≡ (0, disk))
unfolding inode_write_at
inode_write_at-Writes has_bounce d buffer size offset disk =
    (write_loop-Writes size has_bounce d buffer size offset 0 disk (omega arith), refl)

span_ext :
    (f g : ℕ → ℕ) (i n : ℕ) → ((k : ℕ) → i ≤ k → k < i + n → f k ≡ g k) → span f i n ≡ span g i n
unfolding span
span_ext f g i zero h = refl
span_ext f g i (suc n) h =
    let rest = span_ext f g (i + 1) n (λ k a b. h k (omega arith) (omega arith)) in
    ground (arith, h i (omega arith) (omega arith), rest)

written_at :
    {has_bounce : Bool} (d : InodeDisk) (buffer : ℕ → ℕ) (offset most : ℕ) (r : ℕ × Disk)
    (disk : Disk) (w : Writes has_bounce d buffer offset 0 most disk r) (k : ℕ)
    → offset ≤ k
    → k < offset + w.cnt
    → content r.1 d k ≡ buffer (k - offset)
unfolding content
written_at d buffer offset most r disk w k a b =
    let place : (d.start + k / 512 - d.start) * 512 + k % 512 ≡ k = omega arith in
    let start : leb d.start (d.start + k / 512) ≡ true = ground arith in
    let byte = rw (place, start) at (w.new_disk (d.start + k / 512) (k % 512) (omega arith)) in
    byte ∙ ground arith

-- With memory for the bounce buffers, reading back the bytes that have been written gives the buffer's
-- bytes.
pub inode_read_at-inode_write_at :
    (d : InodeDisk) (buffer : ℕ → ℕ) (size offset : ℕ) (disk : Disk)
    → inode_read_at true (inode_write_at false true d buffer size offset disk).1 d size offset
      ≡ span (λ i. buffer (i - offset)) offset (available d size offset)
inode_read_at-inode_write_at d buffer size offset disk =
    let w = (inode_write_at-Writes true d buffer size offset disk).0 in
    let disk' = (inode_write_at false true d buffer size offset disk).1 in
    let r = inode_read_at-Reads true disk' d size offset in
    r.bytes
    ∙ ap (λ n. span (content disk' d) offset n) (r.complete refl)
    ∙ span_ext (content disk' d) (λ i. buffer (i - offset)) offset (available d size offset)
        (λ k a b. written_at d buffer offset _ _ disk w k a (omega (arith, b, w.complete refl)))
