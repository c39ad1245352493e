-- ===== src/Inode/Examples.antt =====
-- The theorems on the data of pintos-kaist/filesys/inode.c at an inode of 600 bytes.
use w12_13_vm.Common.{◌+◌, [], ◌∷◌, ◌≡◌, refl, true, false}
use w12_13_vm.Inode.{Disk, InodeDisk, inode_read_at, inode_write_at}
use w12_13_vm.Inode.Read.{content, available, Reads, inode_read_at-Reads}
use w12_13_vm.Inode.Write.{Writes, inode_write_at-Writes}

abbrev two_sectors : InodeDisk
two_sectors = record { start = 3; length = 600; magic = 0 }

abbrev sector_numbers : Disk
sector_numbers = λ t j. t

-- Bytes 511, 512 and 513 lie in sectors 3 and 4.
read_three : inode_read_at true sector_numbers two_sectors 3 511 ≡ 3 ∷ 4 ∷ 4 ∷ []
unfolding inode_read_at
read_three = refl

inode_read_at-Reads_example :
    Reads true
      (content sector_numbers two_sectors)
      598
      (available two_sectors 5 598)
      (inode_read_at true sector_numbers two_sectors 5 598)
inode_read_at-Reads_example = inode_read_at-Reads true sector_numbers two_sectors 5 598

inode_write_at-Writes_example :
    Writes true two_sectors
      (λ i. i + 7)
      511
      0
      (available two_sectors 3 511)
      sector_numbers
      (inode_write_at false true two_sectors (λ i. i + 7) 3 511 sector_numbers)
    × (inode_write_at true true two_sectors (λ i. i + 7) 3 511 sector_numbers ≡ (0, sector_numbers))
inode_write_at-Writes_example =
    inode_write_at-Writes true two_sectors (λ i. i + 7) 3 511 sector_numbers
