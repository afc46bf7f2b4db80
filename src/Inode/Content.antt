-- ===== src/Inode/Content.antt =====
-- The bytes of an inode's data on the device, and the sizes of the code's rounds.
use cs439_project.Prelude.{
  ℕ, ◌+◌, ◌-◌, ◌/◌, ◌%◌, ◌^◌, ◌≤◌, ◌<◌, List, ◌≡◌, get_or, arith, min, lt→ltb,
}
use cs439_project.Block
use cs439_project.Block.{Block}
use cs439_project.Inode.{Inode, bytes_to_sectors, byte_to_sector, inode_length, chunk}

-- The byte at a position of the data.
abbrev pub byte : (ℕ → List ℕ) → Inode → ℕ → ℕ
byte sectors inode pos = get_or (sectors (inode.data_.start + pos / 512)) (pos % 512) 0

-- The data's sectors lie on a good device whose sector numbers fit a `block_sector_t`.
pub record IsOnDisk (device : Block) (inode : Inode) : Type 0 where
  pub valid : Block.IsValid device
  pub fits : inode.data_.start + bytes_to_sectors inode.data_.length ≤ device.size
  pub small : device.size < 2 ^ 32

-- The bytes that a transfer moves: none past the end of the data.
abbrev pub available : Inode → ℕ → ℕ → ℕ
available inode size offset = min size (inode_length inode - offset)

module _ (inode : Inode) (size offset : ℕ) where
  pub chunk-le-available : chunk inode size offset ≤ available inode size offset
  unfolding chunk
  chunk-le-available = ground arith

  pub chunk-le-sector : offset % 512 + chunk inode size offset ≤ 512
  unfolding chunk
  chunk-le-sector = ground arith

  -- A round that moves nothing is at the end of the data, or of the request.
  pub chunk_zero : chunk inode size offset ≡ 0 → available inode size offset ≡ 0
  unfolding chunk
  chunk_zero h = ground arith

  pub chunk_whole :
      offset % 512 ≡ 0 → chunk inode size offset ≡ 512 → offset + 512 ≤ inode_length inode
  unfolding chunk
  chunk_whole h e = ground arith

-- Positions in the data lie in the sectors of the inode.
pub byte_to_sector_lem :
    (device : Block) (inode : Inode) (pos : ℕ)
    → IsOnDisk device inode
    → pos < inode_length inode
    → (byte_to_sector inode pos ≡ inode.data_.start + pos / 512)
      × (inode.data_.start + pos / 512 < device.size)
unfolding byte_to_sector
byte_to_sector_lem device inode pos d h =
    rw (lt→ltb _ _ h) (omega (arith, d.fits, d.small), omega (arith, d.fits))
