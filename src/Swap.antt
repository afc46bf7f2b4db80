-- ===== src/Swap.antt =====
-- vm/swap.c: the swap device, eight sectors for a page, and the bitmap of the sectors in use.
-- Each operation runs with no other thread between its steps.
pub mod Transfer
pub mod Slots
pub mod RoundTrip
pub mod Tests
use cs439_project.Prelude.{
  ℕ, zero, suc, ◌+◌, ◌*◌, ◌%◌, ◌^◌, Bool, true, false, List, Option, none, some, Outcome, ok, ◌>>=◌,
  ◌>>◌, read_bytes, write_bytes,
}
use cs439_project.Bitmap
use cs439_project.Bitmap.{Bitmap, add_size}
use cs439_project.Block
use cs439_project.Block.{Block, sector_size}
use cs439_project.Synch.{Semaphore, sema_init, sema_down, sema_up}

-- `swap_table`, `swap_device` and `swap_sema`
pub record Swap : Type 0 where
  pub table : Bitmap
  pub device : Block
  pub sema : Semaphore

-- `swap_init`: the memory that `bitmap_create` is given as arguments.
unfoldable pub swap_init : Block → Bool → Option (List ℕ) → Outcome (Option Swap)
swap_init device header storage = Bitmap.create device.size header storage >>= λ made. elim made [
  | none ↦ ok none
  | some table ↦ ok (some (record { table = table; device = device; sema = sema_init 1 }))
]

-- The loop of `swap_write`, with the rounds left; `addr` is the offset in the frame.
unfoldable pub write_loop : ℕ → Block → ℕ → List ℕ → ℕ → Outcome Block
write_loop zero device index frame addr = ok device
write_loop (suc left) device index frame addr = do
  buffer ← read_bytes frame addr sector_size
  device' ← Block.write device index buffer
  write_loop left device' (add_size index 1) frame (addr + sector_size)

-- The rest of `swap_write` once the table has been scanned.
unfoldable pub write_slot : Swap → List ℕ → Option ℕ → Outcome (Swap × Option ℕ)
unfolding write_loop
write_slot s frame none = ok (s, none)
write_slot s frame (some index) = write_loop 8 s.device index frame 0 >>= λ device'.
    ok (record s { device = device' }, some index)

-- `swap_write` by the thread `current`; `none` is BITMAP_ERROR.
unfoldable pub swap_write : ℕ → Swap → List ℕ → Outcome (Swap × Option ℕ)
swap_write current s frame = do
  held ← sema_down false current s.sema
  (table', index) ← Bitmap.scan_and_flip s.table 0 8 false
  write_slot (record s { table = table'; sema = (sema_up held).0 }) frame index

-- The loop of `swap_read`; it returns the frame with the sectors read into it.
unfoldable pub read_loop : ℕ → Block → ℕ → List ℕ → ℕ → Outcome (Block × List ℕ)
read_loop zero device sector frame addr = ok (device, frame)
read_loop (suc left) device sector frame addr = do
  (device', buffer) ← Block.read device sector
  frame' ← write_bytes frame addr buffer
  read_loop left device' (add_size sector 1) frame' (addr + sector_size)

-- `swap_read`
unfoldable pub swap_read : ℕ → Swap → ℕ → List ℕ → Outcome (Swap × List ℕ)
swap_read current s sector frame = do
  held ← sema_down false current s.sema
  table' ← Bitmap.mark s.table sector
  (device', frame') ← read_loop 8 s.device sector frame 0
  ok (record s { table = table'; device = device'; sema = (sema_up held).0 }, frame')

-- `swap_remove`
unfoldable pub swap_remove : ℕ → Swap → ℕ → Outcome Swap
swap_remove current s sector = do
  held ← sema_down false current s.sema
  table' ← Bitmap.reset s.table sector
  ok (record s { table = table'; sema = (sema_up held).0 })
