-- ===== src/FileSys/Codec.antt =====
-- A `struct inode_disk` comes back from its sector: pintos-kaist/filesys/inode.c.
use w12_13_vm.Common.{ℕ, ◌+◌, ◌*◌, ◌<◌, ◌≡◌, arith}
use w12_13_vm.Inode.{InodeDisk}
use w12_13_vm.FileSys.{byte, word, encode, decode}

bytes_of :
    (n : ℕ)
    → n < 4294967296
    → byte n 0 + 256 * byte n 1 + 65536 * byte n 2 + 16777216 * byte n 3 ≡ n
unfolding byte
bytes_of n h = omega arith

-- The fields of an inode on disk fit 32 bits.
abbrev pub FitsDisk : InodeDisk → Type 0
FitsDisk d = (d.start < 4294967296) × (d.length < 4294967296) × (d.magic < 4294967296)

pub decode-encode : (d : InodeDisk) → FitsDisk d → decode (encode d) ≡ d
unfolding decode word encode
decode-encode d h =
    ground (arith, bytes_of d.start h.0, bytes_of d.length h.1, bytes_of d.magic h.2)
