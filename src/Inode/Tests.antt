-- ===== src/Inode/Tests.antt =====
-- An inode of 700 bytes in two sectors of a disk.
use cs439_project.Prelude.{ℕ, true, false, List, [], ◌∷◌, ◌≡◌, refl, ok, arith, take, slice}
use cs439_project.Block.{Block}
use cs439_project.Swap.Tests.{disk, disk-IsValid}
use cs439_project.Inode.{Inode, inode_read_at, inode_write_at}
use cs439_project.Inode.Content.{byte, IsOnDisk, available}
use cs439_project.Inode.Reading.{ReadsAs, inode_read_at-ReadsAs}
use cs439_project.Inode.Writing.{WritesAs, inode_write_at-WritesAs}
use cs439_project.Inode.RoundTrip.{inode_read_at-inode_write_at}

abbrev pub notes : Inode
notes = record {
  sector = 2;
  open_cnt = 1;
  removed = false;
  deny_write_cnt = 0;
  data_ = record { start = 5; length = 700; magic = 0x494e4f44 };
}

pub notes-IsOnDisk : IsOnDisk disk notes
notes-IsOnDisk = record { valid = disk-IsValid; fits = omega arith; small = omega arith }

abbrev pub five : List ℕ
five = 1 ∷ 2 ∷ 3 ∷ 4 ∷ 5 ∷ []

-- The request reaches over a sector's end.
inode_read_at-ReadsAs_example :
    ReadsAs
      (inode_read_at true disk notes 5 510)
      disk
      (slice (byte disk.sectors notes) 510 (available notes 5 510))
inode_read_at-ReadsAs_example = inode_read_at-ReadsAs disk notes 5 510 notes-IsOnDisk

inode_write_at-WritesAs_example :
    WritesAs
      (inode_write_at true disk notes five 5 510)
      disk
      notes
      510
      (available notes 5 510)
      five
      (available notes 5 510)
inode_write_at-WritesAs_example =
    inode_write_at-WritesAs disk notes five 5 510 notes-IsOnDisk refl (omega arith)

-- Only three bytes are left of the file.
inode_read_at-inode_write_at_example :
    (device' device'' : Block) × (inode_write_at true disk notes five 5 697
      ≡ ok (device', available notes 5 697))
    × (inode_read_at true device' notes 5 697 ≡ ok (device'', take (available notes 5 697) five))
inode_read_at-inode_write_at_example =
    inode_read_at-inode_write_at disk notes five 5 697 notes-IsOnDisk refl (omega arith)
