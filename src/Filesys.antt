-- ===== src/Filesys.antt =====
-- filesys/inode.c, filesys/free-map.c and filesys/file.c: the open inodes, the map of free sectors
-- and open files. An inode is an object that several files share, so it stands in a store and is
-- named by its address; a file has one owner and is a value. `memory` in a call says whether malloc
-- gives the bounce buffers that it needs.
pub mod Files
pub mod RoundTrip
pub mod Tests
use cs439_project.Prelude.{
  ℕ, zero, suc, ◌+◌, ◌-◌, ◌*◌, ◌/◌, ◌%◌, ◌^◌, Bool, true, false, List, [], ◌∷◌, ◌++◌, replicate,
  if◌then◌else◌, ltb, leb, ◌==◌, ◌&&◌, Outcome, ok, wild, ◌>>=◌, ◌>>◌, assert, deref, get_or,
  Option, none, some,
}
use cs439_project.Bitmap
use cs439_project.Bitmap.{Bitmap, byte_cnt}
use cs439_project.Block
use cs439_project.Block.{Block, sector_size}
use cs439_project.Inode.{
  InodeDisk, Inode, bytes_to_sectors, inode_length, inode_read_at, inode_write_at, inode_reopen,
  inode_deny_write, inode_allow_write,
}

-- `struct file`
pub record File : Type 0 where
  pub inode : ℕ
  pub pos : ℕ
  pub deny_write : Bool

-- `fs_device`, the inodes by address, `open_inodes`, `free_map` and `free_map_file`
pub record Filesys : Type 0 where
  pub device : Block
  pub inodes : ℕ → Inode
  pub open_inodes : List ℕ
  pub free_map : Bitmap
  pub free_map_file : Option File

abbrev pub put_inode : Filesys → ℕ → Inode → Filesys
put_inode fs address inode = record fs { inodes = λ a. if a == address then inode else fs.inodes a }

-- `file_read_at`
unfoldable pub file_read_at : Bool → Filesys → File → ℕ → ℕ → Outcome (Filesys × List ℕ)
file_read_at memory fs file size file_ofs =
    inode_read_at memory fs.device (fs.inodes file.inode) size file_ofs >>= λ r.
    ok (record fs { device = r.0 }, r.1)

-- `file_write_at`
unfoldable pub file_write_at : Bool → Filesys → File → List ℕ → ℕ → ℕ → Outcome (Filesys × ℕ)
file_write_at memory fs file buffer size file_ofs =
    inode_write_at memory fs.device (fs.inodes file.inode) buffer size file_ofs >>= λ r.
    ok (record fs { device = r.0 }, r.1)

-- The bytes of words in memory, the low byte first.
abbrev pub word_bytes : List ℕ → List ℕ
word_bytes [] = []
word_bytes (w ∷ ws) =
    w % 256 ∷ w / 2 ^ 8 % 256 ∷ w / 2 ^ 16 % 256 ∷ w / 2 ^ 24 % 256 ∷ word_bytes ws

-- The word at an offset of bytes in memory.
abbrev pub word_at : List ℕ → ℕ → ℕ
word_at bytes i =
    get_or bytes i 0
    + get_or bytes (i + 1) 0 * 2 ^ 8
    + get_or bytes (i + 2) 0 * 2 ^ 16
    + get_or bytes (i + 3) 0 * 2 ^ 24

-- `bitmap_write`
unfoldable pub bitmap_write : Bool → Filesys → Bitmap → File → Outcome (Filesys × Bool)
bitmap_write memory fs b file =
    let size = byte_cnt b.bit_cnt in
    file_write_at memory fs file (word_bytes b.bits) size 0 >>= λ r. ok (r.0, r.1 == size)

-- What is left of `free_map_allocate` once the group is taken: the map goes to its file, if that
-- is open, and the group is given back if it could not be written.
unfoldable pub save_group : Bool → Filesys → ℕ → Option ℕ → Outcome (Filesys × Option ℕ)
save_group memory fs cnt none = ok (fs, none)
save_group memory fs cnt (some sector) = elim fs.free_map_file [
  | none ↦ ok (fs, some sector)
  | some file ↦ bitmap_write memory fs fs.free_map file >>= λ saved.
      (if saved.1
        then ok (saved.0, some sector)
        else (Bitmap.set_multiple saved.0.free_map sector cnt false >>= λ map.
            ok (record saved.0 { free_map = map }, none)))
]

-- `free_map_allocate`: the sector, or `none` where it returns false
unfoldable pub free_map_allocate : Bool → Filesys → ℕ → Outcome (Filesys × Option ℕ)
free_map_allocate memory fs cnt = Bitmap.scan_and_flip fs.free_map 0 cnt false >>= λ r.
    save_group memory (record fs { free_map = r.0 }) cnt r.1

-- `free_map_release`
unfoldable pub free_map_release : Bool → Filesys → ℕ → ℕ → Outcome Filesys
free_map_release memory fs sector cnt = do
  full ← Bitmap.all fs.free_map sector cnt
  assert full
  map ← Bitmap.set_multiple fs.free_map sector cnt false
  file ← deref fs.free_map_file
  (fs', done) ← bitmap_write memory (record fs { free_map = map }) map file
  ok fs'

-- The loop of `inode_create` that clears the sectors, with the rounds left.
unfoldable pub zero_loop : ℕ → Block → ℕ → Outcome Block
zero_loop zero device sector = ok device
zero_loop (suc left) device sector =
    Block.write device sector (replicate sector_size 0) >>= λ device'.
    zero_loop left device' ((sector + 1) % 2 ^ 32)

-- The sector that holds a `struct inode_disk`.
abbrev pub disk_inode : InodeDisk → List ℕ
disk_inode d = word_bytes (d.start ∷ d.length ∷ d.magic ∷ []) ++ replicate 500 0

-- `inode_create`: `header` says whether calloc gives the disk inode.
unfoldable pub inode_create : Bool → Bool → Filesys → ℕ → ℕ → Outcome (Filesys × Bool)
inode_create header memory fs sector length =
    if header
    then (free_map_allocate memory fs (bytes_to_sectors length) >>= λ r. elim r.1 [
      | none ↦ ok (r.0, false)
      | some start ↦
          Block.write r.0.device sector
            (disk_inode (record { start = start; length = length; magic = 0x494e4f44 }))
          >>= λ device. zero_loop (bytes_to_sectors length) device start >>= λ device'.
              ok (record r.0 { device = device' }, true)
    ])
    else ok (fs, false)

-- The loop of `inode_open`: the open inode of the sector.
unfoldable pub find_open : (ℕ → Inode) → List ℕ → ℕ → Option ℕ
find_open inodes [] sector = none
find_open inodes (a ∷ rest) sector =
    if (inodes a).sector == sector then some a else find_open inodes rest sector

-- The inode that `inode_open` fills in from its sector.
abbrev pub fresh_inode : ℕ → List ℕ → Inode
fresh_inode sector bytes = record {
  sector = sector;
  open_cnt = 1;
  removed = false;
  deny_write_cnt = 0;
  data_ = record { start = word_at bytes 0; length = word_at bytes 4; magic = word_at bytes 8 };
}

-- `inode_open`: `new` is what malloc returns.
unfoldable pub inode_open : Option ℕ → Filesys → ℕ → Outcome (Filesys × Option ℕ)
inode_open new fs sector = elim (find_open fs.inodes fs.open_inodes sector) [
  | some a ↦ ok (put_inode fs a (inode_reopen (fs.inodes a)), some a)
  | none ↦ elim new [
    | none ↦ ok (fs, none)
    | some a ↦ Block.read fs.device sector >>= λ r. ok (
      put_inode (record fs { device = r.0; open_inodes = a ∷ fs.open_inodes }) a
          (fresh_inode sector r.1),
      some a,
    )
  ]
]

abbrev pub without : List ℕ → ℕ → List ℕ
without [] a = []
without (b ∷ rest) a = if b == a then rest else b ∷ without rest a

-- The last opener's part of `inode_close`.
unfoldable pub release_inode : Bool → Filesys → ℕ → Inode → Outcome Filesys
release_inode memory fs a inode =
    let fs' = record fs { open_inodes = without fs.open_inodes a } in
    if inode.removed
    then (free_map_release memory fs' inode.sector 1 >>= λ fs''.
        free_map_release memory fs'' inode.data_.start (bytes_to_sectors inode.data_.length))
    else ok fs'

-- `inode_close`; an inode that has no opener has been freed.
unfoldable pub inode_close : Bool → Filesys → Option ℕ → Outcome Filesys
inode_close memory fs none = ok fs
inode_close memory fs (some a) =
    let inode = fs.inodes a in
    let closed = record inode { open_cnt = inode.open_cnt - 1 } in
    if inode.open_cnt == 0
    then wild
    else if closed.open_cnt == 0
    then release_inode memory (put_inode fs a closed) a closed
    else ok (put_inode fs a closed)
