-- ===== src/Inode.antt =====
-- filesys/inode.c: an open inode, and reading and writing its data. `off_t` is a signed 32-bit
-- integer; offsets, sizes and lengths are modelled where they are not negative, as the callers
-- pass them (`file_seek` asserts it), and the differences of the code are truncated at 0, where
-- `chunk_size <= 0` stops the loop. A byte is a number, and a buffer a list of bytes.
pub mod Content
pub mod Reading
pub mod Rewriting
pub mod Writing
pub mod RoundTrip
pub mod Tests
use cs439_project.Prelude.{
  ℕ, zero, suc, ◌+◌, ◌-◌, ◌*◌, ◌/◌, ◌%◌, ◌^◌, Bool, true, false, List, [], ◌∷◌, ◌++◌, ◌&&◌,
  if◌then◌else◌, ltb, leb, ◌==◌, Outcome, ok, ◌>>=◌, ◌>>◌, assert, take, drop, replicate, overwrite,
  read_bytes, write_bytes, Option, none, some,
}
use cs439_project.Block
use cs439_project.Block.{Block, sector_size}

-- `struct inode_disk`, less the unused words
pub record InodeDisk : Type 0 where
  pub start : ℕ
  pub length : ℕ
  pub magic : ℕ

-- `struct inode`, less the list element
pub record Inode : Type 0 where
  pub sector : ℕ
  pub open_cnt : ℕ
  pub removed : Bool
  pub deny_write_cnt : ℕ
  pub data_ : InodeDisk

abbrev pub bytes_to_sectors : ℕ → ℕ
bytes_to_sectors size = (size + (sector_size - 1)) / sector_size

-- `byte_to_sector`; -1 as a `block_sector_t` is 2 ^ 32 - 1
unfoldable pub byte_to_sector : Inode → ℕ → ℕ
byte_to_sector inode pos =
    if ltb pos inode.data_.length
    then (inode.data_.start + pos / sector_size) % 2 ^ 32
    else 2 ^ 32 - 1

-- `inode_length`
abbrev pub inode_length : Inode → ℕ
inode_length inode = inode.data_.length

abbrev pub lesser : ℕ → ℕ → ℕ
lesser a b = if ltb a b then a else b

-- `chunk_size`, the bytes to move in one round
unfoldable pub chunk : Inode → ℕ → ℕ → ℕ
chunk inode size offset =
    let sector_ofs = offset % sector_size in
    let inode_left = inode_length inode - offset in
    let sector_left = sector_size - sector_ofs in lesser size (lesser inode_left sector_left)

-- One round's transfer in `inode_read_at`: the bytes that reach the caller's buffer. A whole
-- sector goes there directly, a part of one through the bounce buffer.
unfoldable pub read_chunk : Block → ℕ → ℕ → ℕ → Outcome (Block × List ℕ)
read_chunk device sector_idx sector_ofs chunk_size = Block.read device sector_idx >>= λ r.
    if sector_ofs == 0 && chunk_size == sector_size
    then ok r
    else (read_bytes r.1 sector_ofs chunk_size >>= λ part. ok (r.0, part))

-- Whether the round needs the bounce buffer that malloc did not give.
abbrev pub no_bounce : Bool → ℕ → ℕ → Bool
no_bounce memory sector_ofs chunk_size =
    if sector_ofs == 0 && chunk_size == sector_size then false else if memory then false else true

-- The loop of `inode_read_at`, on fuel: `memory` says whether malloc gives the bounce buffer, and
-- the bytes read so far are at the front of the buffer. `size` falls in each round.
unfoldable pub read_loop : ℕ → Bool → Block → Inode → ℕ → ℕ → List ℕ → Outcome (Block × List ℕ)
read_loop zero memory device inode size offset buffer = ok (device, buffer)
read_loop (suc fuel) memory device inode size offset buffer =
    let chunk_size = chunk inode size offset in
    let stop : Outcome (Block × List ℕ) = ok (device, buffer) in
    let more : Outcome (Block × List ℕ) =
      (read_chunk device (byte_to_sector inode offset) (offset % sector_size) chunk_size >>= λ r.
      read_loop fuel memory r.0 inode (size - chunk_size) (offset + chunk_size) (buffer ++ r.1)) in
    if size == 0
    then stop
    else if chunk_size == 0
    then stop
    else if no_bounce memory (offset % sector_size) chunk_size
    then stop
    else more

-- `inode_read_at`: the device, and the bytes that were read
unfoldable pub inode_read_at : Bool → Block → Inode → ℕ → ℕ → Outcome (Block × List ℕ)
inode_read_at memory device inode size offset =
    read_loop (size + 1) memory device inode size offset []

-- The sector that one round of `inode_write_at` writes: the chunk itself if it is a whole sector,
-- else the chunk laid over the old sector, or over zeros if it reaches from the sector's start to
-- its end.
unfoldable pub write_chunk : Block → ℕ → ℕ → ℕ → List ℕ → Outcome Block
write_chunk device sector_idx sector_ofs chunk_size bytes =
    if sector_ofs == 0 && chunk_size == sector_size
    then Block.write device sector_idx bytes
    else ((if ltb 0 sector_ofs
          then Block.read device sector_idx
          else if ltb chunk_size (sector_size - sector_ofs)
          then Block.read device sector_idx
          else ok (device, replicate sector_size 0))
        >>= λ r. write_bytes r.1 sector_ofs bytes >>= λ bounce. Block.write r.0 sector_idx bounce)

-- The loop of `inode_write_at`, on fuel: `buffer` is what is left of the caller's buffer.
unfoldable pub write_loop : ℕ → Bool → Block → Inode → ℕ → ℕ → List ℕ → ℕ → Outcome (Block × ℕ)
write_loop zero memory device inode size offset buffer bytes_written = ok (device, bytes_written)
write_loop (suc fuel) memory device inode size offset buffer bytes_written =
    let chunk_size = chunk inode size offset in
    let stop : Outcome (Block × ℕ) = ok (device, bytes_written) in
    let more : Outcome (Block × ℕ) =
      (read_bytes buffer 0 chunk_size >>= λ bytes.
      write_chunk device (byte_to_sector inode offset) (offset % sector_size) chunk_size bytes
      >>= λ device'.
          write_loop fuel memory device' inode (size - chunk_size) (offset + chunk_size)
            (drop chunk_size buffer) (bytes_written + chunk_size)) in
    if size == 0
    then stop
    else if chunk_size == 0
    then stop
    else if no_bounce memory (offset % sector_size) chunk_size
    then stop
    else more

-- `inode_write_at`: the device, and the number of bytes written
unfoldable pub inode_write_at : Bool → Block → Inode → List ℕ → ℕ → ℕ → Outcome (Block × ℕ)
inode_write_at memory device inode buffer size offset =
    if inode.deny_write_cnt == 0
    then write_loop (size + 1) memory device inode size offset buffer 0
    else ok (device, 0)

-- `inode_reopen` of an inode
unfoldable pub inode_reopen : Inode → Inode
inode_reopen inode = record inode { open_cnt = inode.open_cnt + 1 }

-- `inode_remove`
unfoldable pub inode_remove : Inode → Inode
inode_remove inode = record inode { removed = true }

-- `inode_deny_write`
unfoldable pub inode_deny_write : Inode → Outcome Inode
inode_deny_write inode = do
  let inode' = record inode { deny_write_cnt = inode.deny_write_cnt + 1 }
  assert (leb inode'.deny_write_cnt inode'.open_cnt)
  ok inode'

-- `inode_allow_write`
unfoldable pub inode_allow_write : Inode → Outcome Inode
inode_allow_write inode = do
  assert (ltb 0 inode.deny_write_cnt)
  assert (leb inode.deny_write_cnt inode.open_cnt)
  ok (record inode { deny_write_cnt = inode.deny_write_cnt - 1 })
