-- ===== src/Process/Segments/Lazy.antt =====
-- The pages that lazy_load_segment of pintos-kaist/userprog/process.c fills in.
use w12_13_vm.Common.{
  ℕ, ◌+◌, ◌-◌, ◌%◌, ◌≤◌, ◌<◌, ◌≡◌, refl, ap, ◌∙◌, List, true, ◌&&◌, ltb, leb, if◌then◌else◌, arith,
  Bool-cases, inl, inr, length, get_or,
}
use w12_13_vm.Inode.{lesser}
use w12_13_vm.Inode.Read.{content, span, available, length-span, get_or-span, inode_read_at-Reads}
use w12_13_vm.FileSys.{FileSys}
use w12_13_vm.Files.{file_read_at}
use w12_13_vm.Process.Segments.{FileInfo, lazy_load_segment}

-- A frame of `n` bytes that were read of the `m` asked for.
filled :
    (f frame : ℕ → ℕ) (ofs n m k : ℕ) (bytes : List ℕ)
    → bytes ≡ span f ofs n
    → n ≤ m
    → m ≤ 4096
    → k < 4096
    → (if ltb k (length bytes)
        then get_or bytes k 0
        else if ltb k (length bytes + (4096 - m + (m - length bytes)))
        then 0
        else frame k)
      ≡ (if ltb k n then f (ofs + k) else 0)
filled f frame ofs n m k bytes e a b c =
    let len : length bytes ≡ n = ap (λ x. length x) e ∙ length-span f ofs n in
    elim (Bool-cases (ltb k n)) [
      | inl h ↦ rw (len, h) (ap (λ x. get_or x k 0) e ∙ get_or-span f ofs n k (ground arith))
      | inr h ↦
          let inside : ltb k (n + (4096 - m + (m - n))) ≡ true = ground arith in
          rw (len, h, inside) refl
    ]

in_file :
    (k read_bytes ofs len page_bytes left m : ℕ)
    → ofs < 2147483648
    → len < 2147483648
    → k < 4096
    → left ≡ (len + 18446744073709551616 - ofs) % 18446744073709551616
    → page_bytes ≡ (if ltb read_bytes 4096 then read_bytes else 4096)
    → m ≡ (if ltb page_bytes left then page_bytes else left)
    → ltb k (lesser m (len - ofs)) ≡ (ltb k read_bytes && ltb (ofs + k) len)
in_file k read_bytes ofs len page_bytes left m h l in_page e p q = elim (Bool-cases (leb ofs len)) [
  | inl a ↦ let room : left ≡ len - ofs = ground arith in ground (arith, room, p, q)
  | inr a ↦ ground (arith, p, q)
]

-- lazy_load_segment, with memory for the bounce buffer, leaves in each byte of the frame the file's byte at
-- its place, while there is one and it is among those to be read, and 0 behind them, whatever the frame held.
pub lazy_load_segment_lem :
    (file : ℕ) (fi : FileInfo) (frame : ℕ → ℕ) (s : FileSys) (k : ℕ)
    → fi.ofs < 2147483648
    → (s.inodes (s.files file).inode).inode_disk.length < 2147483648
    → k < 4096
    → let d = (s.inodes (s.files file).inode).inode_disk in
      lazy_load_segment true file fi frame s k ≡ (
        if ltb k fi.read_bytes && ltb (fi.ofs + k) d.length
        then content s.disk d (fi.ofs + k)
        else 0)
unfolding lazy_load_segment file_read_at
lazy_load_segment_lem file fi frame s k h l in_page =
    let d = (s.inodes (s.files file).inode).inode_disk in
    let left = (d.length + 18446744073709551616 - fi.ofs) % 18446744073709551616 in
    let page_bytes = if ltb fi.read_bytes 4096 then fi.read_bytes else 4096 in
    let m = if ltb page_bytes left then page_bytes else left in
    let r = inode_read_at-Reads true s.disk d m fi.ofs in
    let most : r.cnt ≡ available d m fi.ofs = r.complete refl in
    let small : m ≤ 4096 = ground arith in
    let there : ltb k r.cnt ≡ (ltb k fi.read_bytes && ltb (fi.ofs + k) d.length) =
      ap (λ x. ltb k x) most
      ∙ in_file k fi.read_bytes fi.ofs d.length page_bytes left m h l in_page refl refl refl in
    filled (content s.disk d) frame fi.ofs r.cnt m k _ r.bytes (ground (arith, most)) small in_page
    ∙ ap (λ b. if b then content s.disk d (fi.ofs + k) else 0) there
