-- ===== src/Filesys/RoundTrip.antt =====
-- Positions of files, and the writes that a file denies.
use cs439_project.Block.{Block}
use cs439_project.Prelude.{
  Bool, length-take, ℕ_discrete, ==_ne, ℕ, ◌+◌, ◌≤◌, ◌<◌, true, false, ◌^◌, List, ◌≡◌, refl, ok,
  ◌>>=◌, take, length, arith, lt→ltb, ==_refl,
}
use cs439_project.Inode.{Inode, inode_read_at, inode_write_at, inode_deny_write, inode_allow_write}
use cs439_project.Inode.Content.{IsOnDisk, available}
use cs439_project.Inode.RoundTrip.{inode_read_at-inode_write_at, inode_write_at_denied}
use cs439_project.Filesys.{File, Filesys, file_read_at, file_write_at, put_inode}
use cs439_project.Filesys.Files.{
  file_read, file_write, file_seek, file_tell, file_deny_write, file_allow_write,
}

-- What `file_write` writes at the file's position, `file_read` reads back after `file_seek` to
-- that position: as many bytes as there is room for up to the end of the file. After the write
-- the position is behind these bytes. This is for an inode whose sectors are inside of a
-- valid device of less than 2 ^ 32 sectors and that nobody denies writes to (`deny_write_cnt` is
-- zero), a position that is not negative, a buffer that has the bytes to be written, and memory for
-- the bounce buffers of both calls.
pub file_read-file_write :
    (fs : Filesys) (file : File) (buffer : List ℕ) (size : ℕ)
    → IsOnDisk fs.device (fs.inodes file.inode)
    → (fs.inodes file.inode).deny_write_cnt ≡ 0
    → size ≤ length buffer
    → file.pos < 2 ^ 31
    → (fs' fs'' : Filesys) × (file' : File) × (file_write true fs file buffer size
        ≡ ok (fs', file', available (fs.inodes file.inode) size file.pos))
      × (file_tell file' ≡ file.pos + available (fs.inodes file.inode) size file.pos)
      × ((file_seek file' file.pos >>= λ f. file_read true fs' f size)
          ≡ ok (fs'', file', take (available (fs.inodes file.inode) size file.pos) buffer))
unfolding file_write file_read file_seek file_tell file_read_at file_write_at
file_read-file_write fs file buffer size d allowed len small = go (
    inode_read_at-inode_write_at fs.device (fs.inodes file.inode) buffer size file.pos d allowed
      len)
  where
    n : ℕ
    n = available (fs.inodes file.inode) size file.pos

    go :
        (device' device'' : Block) × (inode_write_at true fs.device
              (fs.inodes file.inode)
              buffer
              size
              file.pos
            ≡ ok (device', n))
          × (inode_read_at true device' (fs.inodes file.inode) size file.pos
              ≡ ok (device'', take n buffer))
        → (fs' fs'' : Filesys) × (file' : File) × (file_write true fs file buffer size
            ≡ ok (fs', file', n))
          × (file_tell file' ≡ file.pos + n)
          × ((file_seek file' file.pos >>= λ f. file_read true fs' f size)
              ≡ ok (fs'', file', take n buffer))
    go (device', device'', w, r) = (
      record fs { device = device' },
      record fs { device = device'' },
      record file { pos = file.pos + n },
      rw w refl,
      refl,
      rw (lt→ltb file.pos (2 ^ 31) small, r, ◌>>=◌, length-take n buffer (omega arith)) refl,
    )

-- A file that denies writes to its inode and then allows them again leaves both as they were, if
-- it did not deny them before; denying twice counts once, and no write through any file of that
-- inode changes the device in between.
pub file_deny_write-file_allow_write :
    (memory : Bool) (fs : Filesys) (file other : File) (buffer : List ℕ) (size ofs : ℕ)
    → file.deny_write ≡ false
    → other.inode ≡ file.inode
    → (fs.inodes file.inode).deny_write_cnt < (fs.inodes file.inode).open_cnt
    → (fs' fs'' : Filesys) × (file' file'' : File) × (file_deny_write fs file ≡ ok (fs', file'))
      × (file_deny_write fs' file' ≡ ok (fs', file'))
      × (file_write_at memory fs' other buffer size ofs ≡ ok (fs', 0))
      × (file_allow_write fs' file' ≡ ok (fs'', file''))
      × (file''.deny_write ≡ false)
      × (file''.pos ≡ file.pos)
      × ((a : ℕ) → fs''.inodes a ≡ fs.inodes a)
unfolding file_deny_write file_allow_write file_write_at
file_deny_write-file_allow_write memory fs file other buffer size ofs off alias room =
    go (inode_write_at_denied memory fs.device (fs.inodes file.inode) buffer size ofs room)
  where
    i : Inode
    i = fs.inodes file.inode

    go :
        (inode' : Inode) × (inode_deny_write i ≡ ok inode')
          × (inode_write_at memory fs.device inode' buffer size ofs ≡ ok (fs.device, 0))
          × (inode_allow_write inode' ≡ ok i)
        → (fs' fs'' : Filesys) × (file' file'' : File) × (file_deny_write fs file ≡ ok (fs', file'))
          × (file_deny_write fs' file' ≡ ok (fs', file'))
          × (file_write_at memory fs' other buffer size ofs ≡ ok (fs', 0))
          × (file_allow_write fs' file' ≡ ok (fs'', file''))
          × (file''.deny_write ≡ false)
          × (file''.pos ≡ file.pos)
          × ((a : ℕ) → fs''.inodes a ≡ fs.inodes a)
    go (inode', d, w, al) = (
      put_inode fs file.inode inode',
      put_inode (put_inode fs file.inode inode') file.inode i,
      record file { deny_write = true },
      record file { deny_write = false },
      rw (off, d) refl,
      refl,
      rw (alias, ==_refl, w) refl,
      rw (==_refl, al) refl,
      refl,
      refl,
      λ a. elim (ℕ_discrete a file.inode) [
        | yes q ↦ rw (q, ==_refl) refl
        | no q ↦ rw (==_ne a file.inode q) refl
      ],
    )
