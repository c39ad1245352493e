-- ===== src/Process/Segments/Load.antt =====
-- The loop of load_segment in pintos-kaist/userprog/process.c.
use mathlib.Core.Path.{subst}
use w12_13_vm.Common.{
  ℕ, zero, suc, ◌+◌, ◌-◌, ◌*◌, ◌/◌, ◌%◌, ◌<◌, ◌≡◌, ◌≢◌, refl, sym, ap, ◌∙◌, Bool, true, false, ◌||◌,
  none, some, ltb, if◌then◌else◌, update, update_here, update_else, arith,
}
use w12_13_vm.FileSys.{FileSys}
use w12_13_vm.Files.{file_reopen}
use w12_13_vm.Process.Segments.{FileInfo, Pages, Round, alloc_page, load_loop, load_segment}

-- Every call of malloc succeeds.
abbrev pub HasMemory : (ℕ → Round) → Type 0
HasMemory memory =
    (a : ℕ)
    → ((memory a).has_aux ≡ true)
      × ((memory a).has_page ≡ true)
      × ((g : ℕ) × ((memory a).file_memory ≡ some g))

-- What a page of the segment is to be read from: `j` pages behind the first.
pub record IsPart (memory : ℕ → Round) (ofs upage read_bytes : ℕ) (writable : Bool) (j : ℕ)
    (info : FileInfo) : Type 0 where
  pub of_file : info.file ≡ (memory (upage + 4096 * j)).file_memory
  pub part_ofs : info.ofs ≡ (if ltb (4096 * j) read_bytes then ofs + 4096 * j else ofs + read_bytes)
  pub at_page : info.upage ≡ upage + 4096 * j
  pub part_read : info.read_bytes ≡ read_bytes - 4096 * j
  pub same_writable : info.writable ≡ writable

pub record Loaded (memory : ℕ → Round) (ofs upage read_bytes : ℕ) (writable : Bool) (n : ℕ)
    (pages : Pages) (s : FileSys) (pages' : Pages) (s' : FileSys) : Type 0 where
  pub parts :
      (j : ℕ)
      → j < n
      → (info : FileInfo) × (pages' (upage + 4096 * j) ≡ some info)
        × IsPart memory ofs upage read_bytes writable j info
  pub others : (a : ℕ) → ((j : ℕ) → j < n → upage + 4096 * j ≢ a) → pages' a ≡ pages a
  pub same_disk : s'.disk ≡ s.disk
  pub same_inodes : (b : ℕ) → (s'.inodes b).inode_disk ≡ (s.inodes b).inode_disk

reopened :
    (g file : ℕ) (s : FileSys)
    → (s' : FileSys) × (file_reopen (some g) file s ≡ some (some g, s'))
      × (s'.disk ≡ s.disk)
      × ((b : ℕ) → (s'.inodes b).inode_disk ≡ (s.inodes b).inode_disk)
unfolding file_reopen
reopened g file s = (_, refl, refl, λ b. ground arith)

alloc_page-free :
    (upage : ℕ) (aux : FileInfo) (pages : Pages)
    → pages upage ≡ none
    → alloc_page true upage aux pages ≡ some (true, update pages upage (some aux))
unfolding alloc_page
alloc_page-free upage aux pages free = rw (free, alloc_page) refl

load_loop_step :
    (f g file ofs upage r z : ℕ) (memory : ℕ → Round) (writable : Bool) (pages : Pages)
    (s s1 : FileSys)
    → (ltb 0 r || ltb 0 z) ≡ true
    → (memory upage).has_aux ≡ true
    → (memory upage).has_page ≡ true
    → (memory upage).file_memory ≡ some g
    → file_reopen (some g) file s ≡ some (some g, s1)
    → pages upage ≡ none
    → ofs + (if ltb r 4096 then r else 4096) < 4294967296
    → let pr = if ltb r 4096 then r else 4096 in
      load_loop (suc f) memory file writable ofs upage r z pages s
      ≡ load_loop f memory file writable
          (ofs + pr)
          (upage + 4096)
          (r - pr)
          ((z + 4294967296 - (4096 - pr)) % 4294967296)
          (update pages upage (
            some (record {
              file = some g;
              ofs = ofs;
              upage = upage;
              read_bytes = r;
              zero_bytes = z;
              writable = writable;
            })))
          s1
unfolding load_loop
load_loop_step f g file ofs upage r z memory writable pages s s1 e aux page got opened free small =
    let pr = if ltb r 4096 then r else 4096 in
    let same : (ofs + pr) % 4294967296 ≡ ofs + pr = omega arith in
    rw (e, aux, got, opened, page, alloc_page-free upage _ pages free, same) refl

-- The first page of a segment and the rest of it.
Loaded-suc :
    (memory : ℕ → Round) (ofs upage read_bytes pr n : ℕ) (writable : Bool) (pages : Pages)
    (s s1 : FileSys) (info : FileInfo) (pages' : Pages) (s' : FileSys)
    → pr ≡ (if ltb read_bytes 4096 then read_bytes else 4096)
    → IsPart memory ofs upage read_bytes writable 0 info
    → (s1.disk ≡ s.disk) × ((b : ℕ) → (s1.inodes b).inode_disk ≡ (s.inodes b).inode_disk)
    → Loaded memory
        (ofs + pr)
        (upage + 4096)
        (read_bytes - pr)
        writable
        n
        (update pages upage (some info))
        s1
        pages'
        s'
    → Loaded memory ofs upage read_bytes writable (suc n) pages s pages' s'
Loaded-suc memory ofs upage read_bytes pr n writable pages s s1 info pages' s' e first same l =
    record {
      parts = parts;
      others = λ a h.
          l.others a (λ j lt. subst (λ t. t ≢ a) (omega arith) (h (suc j) (omega arith)))
          ∙ update_else pages upage (some info) a (λ q. h 0 (omega arith) (omega (arith, q)));
      same_disk = l.same_disk ∙ same.0;
      same_inodes = λ b. l.same_inodes b ∙ same.1 b;
    }
  where
    parts :
        (j : ℕ)
        → j < suc n
        → (i : FileInfo) × (pages' (upage + 4096 * j) ≡ some i)
          × IsPart memory ofs upage read_bytes writable j i
    parts zero lt =
        let place : upage + 4096 * 0 ≡ upage = omega arith in
        (
          info,
          ap pages' place
              ∙ l.others upage (λ j less q. omega (arith, q))
              ∙ update_here pages upage (some info),
          first,
        )
    parts (suc j) lt =
        let (i, there, p) = l.parts j (omega arith) in
        let place : upage + 4096 + 4096 * j ≡ upage + 4096 * suc j = omega arith in
        (
          i,
          subst (λ t. pages' t ≡ some i) place there,
          record {
            of_file = p.of_file ∙ ap (λ t. (memory t).file_memory) place;
            part_ofs = p.part_ofs ∙ ground (arith, e);
            at_page = p.at_page ∙ place;
            part_read = p.part_read ∙ ground (arith, e);
            same_writable = p.same_writable;
          },
        )

module _ (memory : ℕ → Round) (mem : HasMemory memory) (file : ℕ) (writable : Bool) where
  load_loop-Loaded :
      (f n ofs upage read_bytes zero_bytes : ℕ) (pages : Pages) (s : FileSys)
      → n < f
      → read_bytes + zero_bytes ≡ 4096 * n
      → zero_bytes < 4294967296
      → ofs + read_bytes < 2147483648
      → ((j : ℕ) → j < n → pages (upage + 4096 * j) ≡ none)
      → (pages' : Pages) × (s' : FileSys) × (load_loop f memory file writable ofs upage read_bytes
            zero_bytes pages s
          ≡ some (true, pages', s'))
        × Loaded memory ofs upage read_bytes writable n pages s pages' s'
  unfolding load_loop
  load_loop-Loaded zero n ofs upage r z pages s fuel total small offset free = absurd (omega arith)
  load_loop-Loaded (suc f) zero ofs upage r z pages s fuel total small offset free =
      let no_read : ltb 0 r ≡ false = ground arith in
      let no_zero : ltb 0 z ≡ false = ground arith in
      (
        pages,
        s,
        rw (no_read, no_zero) refl,
        record {
          parts = λ j lt. absurd (omega arith);
          others = λ a h. refl;
          same_disk = refl;
          same_inodes = λ b. refl;
        },
      )
  load_loop-Loaded (suc f) (suc n) ofs upage r z pages s fuel total small offset free =
      let (aux, page, got) = mem upage in
      let g = got.0 in
      let file_mem = got.1 in
      let (s1, e1, same0, same1) = reopened g file s in
      let pr = if ltb r 4096 then r else 4096 in
      let info : FileInfo = record {
        file = some g;
        ofs = ofs;
        upage = upage;
        read_bytes = r;
        zero_bytes = z;
        writable = writable;
      } in
      let some_bytes : (ltb 0 r || ltb 0 z) ≡ true = ground arith in
      let z' = (z + 4294967296 - (4096 - pr)) % 4294967296 in
      let left : z' ≡ z - (4096 - pr) = ground arith in
      let here : pages upage ≡ none =
        subst (λ t. pages t ≡ none) (omega arith) (free 0 (omega arith)) in
      let next_free : (j : ℕ)
          → j < n
          → update pages upage (some info) (upage + 4096 + 4096 * j) ≡ none =
        λ j lt.
          update_else pages upage (some info) _ (λ q. omega (arith, q))
          ∙ subst (λ t. pages t ≡ none) (omega arith) (free (suc j) (omega arith)) in
      let (pages', s', done, l) =
        load_loop-Loaded f n (ofs + pr) (upage + 4096) (r - pr) z' (update pages upage (some info))
          s1 (omega arith) (ground (arith, left)) (omega arith) (ground arith) next_free in
      (
        pages',
        s',
        ◌∙◌ {c = some (true, pages', s')}
            (load_loop_step f g file ofs upage r z memory writable pages s s1 some_bytes aux page
              file_mem e1 here (ground arith))
            done,
        Loaded-suc memory ofs upage r pr n writable pages s s1 info pages' s' refl
            (record {
              of_file = sym file_mem ∙ ap (λ t. (memory t).file_memory) (omega arith);
              part_ofs = ground arith;
              at_page = omega arith;
              part_read = omega arith;
              same_writable = refl;
            })
            (same0, same1) l,
      )

-- load_segment of whole pages below 2^32 bytes that are not mapped yet, of which those from the file end before its
-- offset 2^31, when malloc never fails: it succeeds,
-- and every page has the part of the file that it is to be read from: its offset and what is left of the
-- bytes to be read. No other page changes, nor do the disk and the data of inodes.
pub load_segment-Loaded :
    (memory : ℕ → Round) (file ofs upage read_bytes zero_bytes n : ℕ) (writable : Bool)
    (pages : Pages) (s : FileSys)
    → HasMemory memory
    → read_bytes + zero_bytes ≡ 4096 * n
    → read_bytes + zero_bytes < 4294967296
    → upage % 4096 ≡ 0
    → ofs % 4096 ≡ 0
    → ofs + read_bytes < 2147483648
    → ((j : ℕ) → j < n → pages (upage + 4096 * j) ≡ none)
    → (pages' : Pages) × (s' : FileSys) × (load_segment memory file ofs upage read_bytes zero_bytes
          writable pages s
        ≡ some (true, pages', s'))
      × Loaded memory ofs upage read_bytes writable n pages s pages' s'
unfolding load_segment
load_segment-Loaded memory file ofs upage r z n writable pages s mem total small up of offset free =
    let whole : (r + z) % 4294967296 % 4096 ≡ 0 = omega arith in
    let fuel : n < (r + z) / 4096 + 1 = omega arith in
    rw (whole, up, of)
      (load_loop-Loaded memory mem file writable ((r + z) / 4096 + 1) n ofs upage r z pages s fuel
        total (omega arith) offset free)
