-- ===== src/Block.antt =====
-- devices/block.c: sector access to a block device. The driver behind `ops` is modelled by the
-- array of sectors that it serves, one list of 512 bytes for each number.
use cs439_project.Prelude.{
  ℕ, ◌+◌, ◌%◌, ◌^◌, ◌≤◌, ◌<◌, Bool, false, not, List, if◌then◌else◌, ltb, ◌==◌, ◌≡◌, Outcome, ok,
  ◌>>◌, assert, panic, length, arith, lt→ltb,
}

-- BLOCK_SECTOR_SIZE
abbrev pub sector_size : ℕ
sector_size = 512

-- `struct block`; `foreign` says that its type is BLOCK_FOREIGN.
pub record Block : Type 0 where
  pub size : ℕ
  pub foreign : Bool
  pub sectors : ℕ → List ℕ
  pub read_cnt : ℕ
  pub write_cnt : ℕ

abbrev pub counter : ℕ → ℕ
counter n = (n + 1) % 2 ^ 64

-- PANIC for a sector past the end
abbrev pub check_sector : Block → ℕ → Outcome (Unit {0})
check_sector block sector = assert (ltb sector block.size)

-- `block_read` returns what it puts into the buffer.
unfoldable pub read : Block → ℕ → Outcome (Block × List ℕ)
read block sector = do
  check_sector block sector
  ok (record block { read_cnt = counter block.read_cnt }, block.sectors sector)

-- The driver's write of one sector.
abbrev pub store : (ℕ → List ℕ) → ℕ → List ℕ → ℕ → List ℕ
store sectors sector buffer s = if s == sector then buffer else sectors s

-- `block_write`
unfoldable pub write : Block → ℕ → List ℕ → Outcome Block
write block sector buffer = do
  check_sector block sector
  assert (not block.foreign)
  ok (record block {
    sectors = store block.sectors sector buffer;
    write_cnt = counter block.write_cnt;
  })

-- Every sector has 512 bytes, and the device takes writes.
pub record IsValid (block : Block) : Type 0 where
  pub sized : (s : ℕ) → length (block.sectors s) ≡ sector_size
  pub native_type : block.foreign ≡ false

pub read_ok :
    (block : Block) (s : ℕ)
    → s < block.size
    → read block s ≡ ok (record block { read_cnt = counter block.read_cnt }, block.sectors s)
unfolding read
read_ok block s h = rw (lt→ltb _ _ h)

pub write_ok :
    (block : Block) (s : ℕ) (buffer : List ℕ)
    → s < block.size
    → block.foreign ≡ false
    → write block s buffer
      ≡ ok (record block {
        sectors = store block.sectors s buffer;
        write_cnt = counter block.write_cnt;
      })
unfolding write
write_ok block s buffer h e = rw (lt→ltb _ _ h, e)

-- A sector past the end stops the kernel, whether it is read or written.
pub past_end :
    (block : Block) (s : ℕ) (buffer : List ℕ)
    → block.size ≤ s
    → (read block s ≡ panic) × (write block s buffer ≡ panic)
unfolding read write
past_end block s buffer h = ground arith
