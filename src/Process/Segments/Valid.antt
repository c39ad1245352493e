-- ===== src/Process/Segments/Valid.antt =====
-- What validate_segment of pintos-kaist/userprog/process.c accepts, and what `load` makes of it.
use w12_13_vm.Common.{
  ℕ, ◌+◌, ◌-◌, ◌*◌, ◌/◌, ◌%◌, ◌≤◌, ◌<◌, ◌≡◌, ◌↔◌, refl, true, ltb, if◌then◌else◌, arith, Bool-cases,
  inl, inr,
}
use w12_13_vm.Process.Segments.{Phdr, Segment, kern_base, round_up, validate_segment, segment_of}

-- A segment in the user's part of memory, without its first page, as numbers without bounds.
pub record IsUserSegment (phdr : Phdr) (file_length : ℕ) : Type 0 where
  pub same_offset : phdr.p_offset % 4096 ≡ phdr.p_vaddr % 4096
  pub in_file : phdr.p_offset ≤ file_length
  pub has_room : phdr.p_filesz ≤ phdr.p_memsz
  pub nonempty : 0 < phdr.p_memsz
  pub above_null : 4096 ≤ phdr.p_vaddr
  pub below_kernel : phdr.p_vaddr + phdr.p_memsz < kern_base

-- validate_segment accepts a segment of numbers of 64 bits just if it is a nonempty one of the user's part of
-- memory: its end is computed modulo 2^64, but the tests exclude that the sum wraps.
pub validate_segment_iff :
    (phdr : Phdr) (file_length : ℕ)
    → phdr.p_vaddr < 18446744073709551616
    → phdr.p_memsz < 18446744073709551616
    → (validate_segment phdr file_length ≡ true) ↔ IsUserSegment phdr file_length
unfolding validate_segment
validate_segment_iff phdr file_length v m = (
  λ h. record {
    same_offset = ground arith;
    in_file = ground arith;
    has_room = ground arith;
    nonempty = ground arith;
    above_null = ground arith;
    below_kernel = ground arith;
  },
  λ h.
      ground
        (arith, h.same_offset, h.in_file, h.has_room, h.nonempty, h.above_null, h.below_kernel),
)

-- The pages of a segment that `load` hands to load_segment.
pub record Covers (phdr : Phdr) (g : Segment) : Type 0 where
  pub aligned : (g.mem_page % 4096 ≡ 0) × (g.file_page % 4096 ≡ 0)
  pub whole_pages : (g.read_bytes + g.zero_bytes) % 4096 ≡ 0
  pub first_page : (g.mem_page ≤ phdr.p_vaddr) × (phdr.p_vaddr < g.mem_page + 4096)
  pub last_page :
      (phdr.p_vaddr + phdr.p_memsz ≤ g.mem_page + (g.read_bytes + g.zero_bytes))
      × (g.mem_page + (g.read_bytes + g.zero_bytes) < phdr.p_vaddr + phdr.p_memsz + 4096)
  pub same_byte : phdr.p_offset + g.mem_page ≡ g.file_page + phdr.p_vaddr
  pub file_bytes : 0 < phdr.p_filesz → g.mem_page + g.read_bytes ≡ phdr.p_vaddr + phdr.p_filesz
  pub no_bytes : phdr.p_filesz ≡ 0 → g.read_bytes ≡ 0
  pub in_user : g.mem_page + (g.read_bytes + g.zero_bytes) ≤ kern_base

-- The sizes of a segment of `r` bytes to be read and `m` bytes in all, `o` bytes behind a page's start.
no_wrap :
    (o m r : ℕ)
    → o < 4096
    → m < 4294959104
    → r ≤ o + m
    → r
        + (round_up ((o + m) % 18446744073709551616) + 18446744073709551616 - r)
          % 18446744073709551616
          % 4294967296
      ≡ (o + m + 4095) / 4096 * 4096
no_wrap o m r ho hm hr =
    let sum : (o + m) % 18446744073709551616 ≡ o + m = omega arith in
    let up : (o + m + 4096 - 1) % 18446744073709551616 ≡ o + m + 4095 = omega arith in
    rw (sum, up) (omega arith)

Covers-of :
    (phdr : Phdr) (file_length : ℕ) (g : Segment)
    → IsUserSegment phdr file_length
    → g.file_page ≡ phdr.p_offset / 4096 * 4096
    → g.mem_page ≡ phdr.p_vaddr / 4096 * 4096
    → g.read_bytes ≡ (if ltb 0 phdr.p_filesz then phdr.p_vaddr % 4096 + phdr.p_filesz else 0)
    → g.read_bytes + g.zero_bytes ≡ (phdr.p_vaddr % 4096 + phdr.p_memsz + 4095) / 4096 * 4096
    → Covers phdr g
Covers-of phdr file_length g v file mem bytes total = record {
  aligned = (omega (arith, mem), omega (arith, file));
  whole_pages = omega (arith, total);
  first_page = (omega (arith, mem), omega (arith, mem));
  last_page = (omega (arith, mem, total), omega (arith, mem, total, v.nonempty));
  same_byte = omega (arith, mem, file, v.same_offset);
  file_bytes = λ h. ground (arith, mem, bytes);
  no_bytes = λ h. ground (arith, bytes);
  in_user = omega (arith, mem, total, v.below_kernel);
}

user_segment-Covers :
    (phdr : Phdr) (file_length : ℕ)
    → IsUserSegment phdr file_length
    → phdr.p_memsz < 4294959104
    → Covers phdr (segment_of phdr)
unfolding segment_of
user_segment-Covers phdr file_length v small =
    let o = phdr.p_vaddr % 4096 in
    let below : o < 4096 = omega arith in
    let room = v.has_room in
    elim (Bool-cases (ltb 0 phdr.p_filesz)) [
      | inl h ↦
          let short : (o + phdr.p_filesz) % 4294967296 ≡ o + phdr.p_filesz = omega arith in
          Covers-of phdr file_length _ v refl refl (rw (h, short) refl)
            (rw (h, short) (no_wrap o phdr.p_memsz (o + phdr.p_filesz) below small (omega arith)))
      | inr h ↦
          Covers-of phdr file_length _ v refl refl (rw h refl)
            (rw h (no_wrap o phdr.p_memsz 0 below small (omega arith)))
    ]

-- validate_segment accepts, of a segment of numbers of 64 bits, only one whose bytes lie below the kernel's part
-- of memory, also where the sum that it tests wraps. If the segment has less than 2^32 - 8192 bytes, the pages that
-- `load` makes of it begin with that of its first byte and end with that of its last, below the kernel's part,
-- and the file's bytes come to stand at their addresses.
pub validate_segment-segment_of :
    (phdr : Phdr) (file_length : ℕ)
    → phdr.p_vaddr < 18446744073709551616
    → phdr.p_memsz < 18446744073709551616
    → validate_segment phdr file_length ≡ true
    → (phdr.p_vaddr + phdr.p_memsz < kern_base)
      × (phdr.p_memsz < 4294959104 → Covers phdr (segment_of phdr))
validate_segment-segment_of phdr file_length v m h =
    let u = (validate_segment_iff phdr file_length v m).0 h in
    (u.below_kernel, user_segment-Covers phdr file_length u)
