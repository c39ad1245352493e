-- ===== src/Process/Segments.antt =====
-- The segments of an executable file in `load`, `validate_segment`, `load_segment` and `lazy_load_segment` of
-- pintos-kaist/userprog/process.c. Numbers of 64 and of 32 bits are brought back into their range. A file
-- offset is the number of its 32 bits: from 2^31 on it stands for a negative one.
pub mod Valid
pub mod Load
pub mod Lazy
use w12_13_vm.Common.{
  ℕ, zero, suc, ◌+◌, ◌-◌, ◌*◌, ◌/◌, ◌%◌, min, List, [], ◌∷◌, Bool, true, false, not, ◌&&◌, ◌||◌,
  Option, none, some, ltb, leb, ◌==◌, if◌then◌else◌, ◌>>=◌, update, get_or, length,
}
use w12_13_vm.FileSys.{FileSys}
use w12_13_vm.Files.{file_reopen, file_read_at, file_length}

-- PGSIZE, KERN_BASE and the numbers of 64 and of 32 bits.
abbrev pub page_size : ℕ
page_size = 4096

abbrev pub kern_base : ℕ
kern_base = 549822922752

abbrev pub size_64 : ℕ
size_64 = 18446744073709551616

abbrev pub size_32 : ℕ
size_32 = 4294967296

-- `struct ELF64_PHDR`.
pub record Phdr : Type 0 where
  pub p_type : ℕ
  pub p_flags : ℕ
  pub p_offset : ℕ
  pub p_vaddr : ℕ
  pub p_paddr : ℕ
  pub p_filesz : ℕ
  pub p_memsz : ℕ
  pub p_align : ℕ

abbrev pub is_user_vaddr : ℕ → Bool
is_user_vaddr vaddr = not (leb kern_base vaddr)

-- `file_length` is the length of the file. Each condition is the negation of one that returns false.
unfoldable pub validate_segment : Phdr → ℕ → Bool
validate_segment phdr file_length =
    (phdr.p_offset % page_size == phdr.p_vaddr % page_size)
    && not (ltb file_length phdr.p_offset)
    && not (ltb phdr.p_memsz phdr.p_filesz)
    && not (phdr.p_memsz == 0)
    && is_user_vaddr phdr.p_vaddr
    && is_user_vaddr ((phdr.p_vaddr + phdr.p_memsz) % size_64)
    && not (ltb ((phdr.p_vaddr + phdr.p_memsz) % size_64) phdr.p_vaddr)
    && not (ltb phdr.p_vaddr page_size)

-- `ROUND_UP (x, PGSIZE)` of a number of 64 bits.
abbrev pub round_up : ℕ → ℕ
round_up x = (x + page_size - 1) % size_64 / page_size * page_size

-- What `load` hands to load_segment.
pub record Segment : Type 0 where
  pub file_page : ℕ
  pub mem_page : ℕ
  pub read_bytes : ℕ
  pub zero_bytes : ℕ
  pub writable : Bool

unfoldable pub segment_of : Phdr → Segment
segment_of phdr =
    let page_offset = phdr.p_vaddr % page_size in
    let has_bytes = ltb 0 phdr.p_filesz in
    let read_bytes = if has_bytes then (page_offset + phdr.p_filesz) % size_32 else 0 in
    record {
      file_page = phdr.p_offset / page_size * page_size;
      mem_page = phdr.p_vaddr / page_size * page_size;
      read_bytes = read_bytes;
      zero_bytes =
          (round_up ((page_offset + phdr.p_memsz) % size_64) + size_64 - read_bytes)
          % size_64
          % size_32;
      writable = not (phdr.p_flags / 2 % 2 == 0);
    }

-- `struct file_info`, as load_segment fills it in.
pub record FileInfo : Type 0 where
  pub file : Option ℕ
  pub ofs : ℕ
  pub upage : ℕ
  pub read_bytes : ℕ
  pub zero_bytes : ℕ
  pub writable : Bool

-- The pages that the supplemental page table holds for a file, by their addresses.
abbrev pub Pages : Type 0
Pages = ℕ → Option FileInfo

-- What malloc gives in one round: for the `struct file_info`, for the file and for the page.
pub record Round : Type 0 where
  pub has_aux : Bool
  pub file_memory : Option ℕ
  pub has_page : Bool

-- vm_alloc_page_with_initializer for a page that is read when it is first used.
unfoldable pub alloc_page : Bool → ℕ → FileInfo → Pages → Option (Bool × Pages)
alloc_page has_page upage aux pages =
    let made : Option (Bool × Pages) =
      if has_page then some (true, update pages upage (some aux)) else none in
    elim (pages upage) [ none ↦ made | some page ↦ some (false, pages) ]

-- The loop of load_segment. `memory` is what malloc gives in the round for an address. `none` is a failed
-- ASSERT; each round maps a page, so the number of pages and one more are fuel enough.
unfoldable pub load_loop :
    ℕ → (ℕ → Round) → ℕ → Bool → ℕ → ℕ → ℕ → ℕ → Pages → FileSys → Option (Bool × Pages × FileSys)
load_loop zero memory file writable ofs upage read_bytes zero_bytes pages s = none
load_loop (suc f) memory file writable ofs upage read_bytes zero_bytes pages s =
    let page_read_bytes = if ltb read_bytes page_size then read_bytes else page_size in
    let page_zero_bytes = page_size - page_read_bytes in
    let mapped : Option (Bool × Pages × FileSys) = (do
      reopened ← file_reopen (memory upage).file_memory file s
      let aux : FileInfo = record {
        file = reopened.0;
        ofs = ofs;
        upage = upage;
        read_bytes = read_bytes;
        zero_bytes = zero_bytes;
        writable = writable;
      }
      got ← alloc_page (memory upage).has_page upage aux pages
      let rest =
          load_loop f memory file writable ((ofs + page_read_bytes) % size_32) (upage + page_size)
            (read_bytes - page_read_bytes) ((zero_bytes + size_32 - page_zero_bytes) % size_32)
            got.1 reopened.1
      if got.0 then rest else some (false, got.1, reopened.1)) in
    if ltb 0 read_bytes || ltb 0 zero_bytes
    then (if (memory upage).has_aux then mapped else some (false, pages, s))
    else some (true, pages, s)

unfoldable pub load_segment :
    (ℕ → Round) → ℕ → ℕ → ℕ → ℕ → ℕ → Bool → Pages → FileSys → Option (Bool × Pages × FileSys)
load_segment memory file ofs upage read_bytes zero_bytes writable pages s =
    let loaded =
      load_loop ((read_bytes + zero_bytes) / page_size + 1) memory file writable ofs upage
        read_bytes zero_bytes pages s in
    if ((read_bytes + zero_bytes) % size_32 % page_size == 0)
      && (upage % page_size == 0)
      && (ofs % page_size == 0)
    then loaded
    else none

-- The bytes of the frame that lazy_load_segment leaves, over those that it held.
unfoldable pub lazy_load_segment : Bool → ℕ → FileInfo → (ℕ → ℕ) → FileSys → ℕ → ℕ
lazy_load_segment has_bounce file fi frame s k =
    let file_remaining = (file_length file s + size_64 - fi.ofs) % size_64 in
    let page_bytes = if ltb fi.read_bytes page_size then fi.read_bytes else page_size in
    let page_read_bytes = if ltb page_bytes file_remaining then page_bytes else file_remaining in
    let page_zero_bytes = page_size - page_read_bytes in
    let bytes = file_read_at has_bounce file page_read_bytes fi.ofs s in
    if ltb k (length bytes)
    then get_or bytes k 0
    else if ltb k (length bytes + (page_zero_bytes + (page_read_bytes - length bytes)))
    then 0
    else frame k

-- The loop of `load` over the program headers that file_read has given, `none` for one that it did not read
-- whole: PT_LOAD is 1; PT_DYNAMIC, PT_INTERP and PT_SHLIB are 2, 3 and 5.
unfoldable pub phdr_loop :
    (ℕ → Round) → ℕ → ℕ → List (Option Phdr) → Pages → FileSys → Option (Bool × Pages × FileSys)
phdr_loop memory file file_length [] pages s = some (true, pages, s)
phdr_loop memory file file_length (none ∷ phdrs) pages s = some (false, pages, s)
phdr_loop memory file file_length (some phdr ∷ phdrs) pages s =
    let g = segment_of phdr in
    let loaded : Option (Bool × Pages × FileSys) = (do
      r ←
          load_segment memory file (g.file_page % size_32) g.mem_page g.read_bytes g.zero_bytes
            g.writable pages s
      let rest = phdr_loop memory file file_length phdrs r.1 r.2
      if r.0 then rest else some r) in
    let ignored = phdr_loop memory file file_length phdrs pages s in
    if (phdr.p_type == 2) || (phdr.p_type == 3) || (phdr.p_type == 5)
    then some (false, pages, s)
    else if phdr.p_type == 1
    then (if validate_segment phdr file_length then loaded else some (false, pages, s))
    else ignored
