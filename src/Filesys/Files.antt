-- ===== src/Filesys/Files.antt =====
-- filesys/file.c: files over the open inodes. A file that is closed is given up by its owner.
use cs439_project.Prelude.{
  ℕ, ◌+◌, Bool, true, false, List, Option, none, some, if◌then◌else◌, Outcome, ok, ◌>>=◌, ◌>>◌,
  assert, ltb, ◌^◌, length,
}
use cs439_project.Inode.{inode_length, inode_reopen, inode_deny_write, inode_allow_write}
use cs439_project.Filesys.{File, Filesys, put_inode, file_read_at, file_write_at, inode_close}

-- `file_open`: `memory` says whether calloc gives the file.
unfoldable pub file_open : Bool → Bool → Filesys → Option ℕ → Outcome (Filesys × Option File)
file_open memory bounce fs none = ok (fs, none)
file_open true bounce fs (some a) =
    ok (fs, some (record { inode = a; pos = 0; deny_write = false }))
file_open false bounce fs (some a) = inode_close bounce fs (some a) >>= λ fs'. ok (fs', none)

-- `file_reopen`
unfoldable pub file_reopen : Bool → Bool → Filesys → File → Outcome (Filesys × Option File)
file_reopen memory bounce fs file =
    file_open memory bounce (put_inode fs file.inode (inode_reopen (fs.inodes file.inode)))
      (some file.inode)

-- `file_read`: the position advances by the bytes read.
unfoldable pub file_read : Bool → Filesys → File → ℕ → Outcome (Filesys × File × List ℕ)
file_read memory fs file size = file_read_at memory fs file size file.pos >>= λ r.
    ok (r.0, record file { pos = file.pos + length r.1 }, r.1)

-- `file_write`
unfoldable pub file_write : Bool → Filesys → File → List ℕ → ℕ → Outcome (Filesys × File × ℕ)
file_write memory fs file buffer size = file_write_at memory fs file buffer size file.pos >>= λ r.
    ok (r.0, record file { pos = file.pos + r.1 }, r.1)

-- `file_deny_write`
unfoldable pub file_deny_write : Filesys → File → Outcome (Filesys × File)
file_deny_write fs file =
    if file.deny_write
    then ok (fs, file)
    else (inode_deny_write (fs.inodes file.inode) >>= λ inode.
        ok (put_inode fs file.inode inode, record file { deny_write = true }))

-- `file_allow_write`
unfoldable pub file_allow_write : Filesys → File → Outcome (Filesys × File)
file_allow_write fs file =
    if file.deny_write
    then (inode_allow_write (fs.inodes file.inode) >>= λ inode.
        ok (put_inode fs file.inode inode, record file { deny_write = false }))
    else ok (fs, file)

-- `file_close`
unfoldable pub file_close : Bool → Filesys → Option File → Outcome Filesys
file_close memory fs none = ok fs
file_close memory fs (some file) =
    file_allow_write fs file >>= λ r. inode_close memory r.0 (some r.1.inode)

-- `file_length`
unfoldable pub file_length : Filesys → File → ℕ
file_length fs file = inode_length (fs.inodes file.inode)

-- `file_seek`: the position is the word of an `off_t`, negative from 2 ^ 31 on.
unfoldable pub file_seek : File → ℕ → Outcome File
file_seek file new_pos = assert (ltb new_pos (2 ^ 31)) >> ok (record file { pos = new_pos })

-- `file_tell`
unfoldable pub file_tell : File → ℕ
file_tell file = file.pos
