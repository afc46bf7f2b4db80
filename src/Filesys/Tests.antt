-- ===== src/Filesys/Tests.antt =====
-- An open file on the disk of the inode's tests.
use cs439_project.Prelude.{true, false, [], ◌∷◌, ◌≡◌, ◌+◌, ◌>>=◌, refl, ok, none, arith, take}
use cs439_project.Swap.Tests.{disk}
use cs439_project.Inode.Tests.{notes, notes-IsOnDisk, five}
use cs439_project.Inode.Content.{available}
use cs439_project.Filesys.{File, Filesys}
use cs439_project.Filesys.Files.{file_read, file_write, file_seek, file_tell}
use cs439_project.Filesys.RoundTrip.{file_read-file_write}

-- One open inode, at the address 4096.
abbrev pub system : Filesys
system = record {
  device = disk;
  inodes = λ a. notes;
  open_inodes = 4096 ∷ [];
  free_map = record { bit_cnt = 16; bits = 127 ∷ [] };
  free_map_file = none;
}

abbrev pub draft : File
draft = record { inode = 4096; pos = 510; deny_write = false }

file_read-file_write_example :
    (fs' fs'' : Filesys) × (file' : File) × (file_write true system draft five 5
      ≡ ok (fs', file', available notes 5 510))
    × (file_tell file' ≡ 510 + available notes 5 510)
    × ((file_seek file' 510 >>= λ f. file_read true fs' f 5)
        ≡ ok (fs'', file', take (available notes 5 510) five))
file_read-file_write_example =
    file_read-file_write system draft five 5 notes-IsOnDisk refl (omega arith) (omega arith)
