-- ===== src/Swap/Slots.antt =====
-- What the operations of vm/swap.c do to the slots of the swap device.
use cs439_project.Prelude.{
  in_range, ℕ, ◌+◌, ◌-◌, ◌≤◌, ◌<◌, true, false, List, [], ◌≡◌, refl, sym, ok, length, arith, Option,
  none, some, ◌>>=◌, if◌then◌else◌, ◌==◌, subst,
}
use cs439_project.Bitmap
use cs439_project.Bitmap.{Bitmap, scan_and_flip}
use cs439_project.Bitmap.Single
use cs439_project.Bitmap.Single.{get, Becomes, mark-Becomes, reset-Becomes, Becomes-IsValid}
use cs439_project.Bitmap.Scan.{Scanned, Taken, scan_and_flip-Taken}
use cs439_project.Block
use cs439_project.Block.{Block}
use cs439_project.Synch.{Semaphore, sema_down, sema_up, up-down}
use cs439_project.Swap.{Swap, write_loop, read_loop, write_slot, swap_write, swap_read, swap_remove}
use cs439_project.Swap.Transfer.{Wrote, write_loop-Wrote, Read, read_loop-Read}

-- The table covers the device, the device is good, and no thread holds or waits for the semaphore.
pub record IsReady (s : Swap) : Type 0 where
  pub table : Single.IsValid s.table
  pub device : Block.IsValid s.device
  pub covered : s.table.bit_cnt ≤ s.device.size
  pub value : s.sema.value ≡ 1
  pub idle : s.sema.waiters ≡ []

-- PGSIZE
abbrev pub page_size : ℕ
page_size = 4096

-- Down and up leave the semaphore as it was.
pub released : Semaphore → Semaphore
released sema = (sema_up (record sema { value = sema.value - 1 })).0

pub released_lem :
    (sema : Semaphore)
    → sema.value ≡ 1
    → sema.waiters ≡ []
    → (released sema).value ≡ 1 × (released sema).waiters ≡ []
unfolding released sema_up
released_lem sema v w = rw (v, w) (refl, refl)

-- What `swap_write` answers. With a slot: it was free, it is taken now and no other bit of the
-- table has changed, and its sectors hold the frame. Without one: there is no free slot, and
-- table and device are unchanged.
abbrev pub Written : Swap → List ℕ → Swap → Option ℕ → Type 0
Written s frame s' none =
    Scanned s.table 0 8 false none × (s'.table ≡ s.table) × (s'.device ≡ s.device)
Written s frame s' (some idx) =
    Scanned s.table 0 8 false (some idx)
    × Becomes s.table s'.table (λ j. if in_range idx 8 j then true else get s.table j)
    × Wrote 8 s.device s'.device idx frame 0

down_ok :
    (current : ℕ) (s : Swap)
    → IsReady s
    → sema_down false current s.sema ≡ ok (record s.sema { value = s.sema.value - 1 })
down_ok current s ready =
    up-down current s.sema ready.idle (omega (arith, ready.value)) (omega (arith, ready.value))

module _ (current : ℕ) (s : Swap) (frame : List ℕ) (ready : IsReady s) {t' : Bitmap} where
  swap_write-none :
      scan_and_flip s.table 0 8 false ≡ ok (t', none)
      → swap_write current s frame ≡ ok (record s { table = t'; sema = released s.sema }, none)
  unfolding swap_write write_slot released
  swap_write-none scanned = rw (down_ok current s ready, ◌>>=◌, scanned)

  swap_write-some :
      {idx : ℕ} {d' : Block}
      → scan_and_flip s.table 0 8 false ≡ ok (t', some idx)
      → write_loop 8 s.device idx frame 0 ≡ ok d'
      → swap_write current s frame
        ≡ ok (record { table = t'; device = d'; sema = released s.sema }, some idx)
  unfolding swap_write write_slot released
  swap_write-some scanned wrote =
      rw (down_ok current s ready, ◌>>=◌, scanned, ◌>>=◌, write_slot, wrote)

-- `swap_write` of a frame to a ready swap device returns: it takes the first free slot and copies
-- the frame there, or finds none and changes nothing; and the device is ready again.
pub swap_write-Written :
    (current : ℕ) (s : Swap) (frame : List ℕ)
    → IsReady s
    → length frame ≡ page_size
    → (s' : Swap) × (r : Option ℕ) × (swap_write current s frame ≡ ok (s', r))
      × IsReady s'
      × Written s frame s' r
swap_write-Written current s frame ready len =
    scanned (scan_and_flip-Taken s.table 0 8 false ready.table (omega arith))
  where
    Result : Type 0
    Result =
        (s' : Swap) × (r : Option ℕ) × (swap_write current s frame ≡ ok (s', r))
        × IsReady s'
        × Written s frame s' r

    sema_back : (released s.sema).value ≡ 1 × (released s.sema).waiters ≡ []
    sema_back = released_lem s.sema ready.value ready.idle

    copied :
        (t' : Bitmap) (idx : ℕ)
        → scan_and_flip s.table 0 8 false ≡ ok (t', some idx)
        → Scanned s.table 0 8 false (some idx)
        → Becomes s.table t' (λ j. if in_range idx 8 j then true else get s.table j)
        → (d' : Block) × (write_loop 8 s.device idx frame 0 ≡ ok d')
          × Wrote 8 s.device d' idx frame 0
        → Result
    copied t' idx e found is (d', wrote, w) = (
      record { table = t'; device = d'; sema = released s.sema },
      some idx,
      swap_write-some current s frame ready e wrote,
      record {
        table =
            Becomes-IsValid s.table t' (λ j. if in_range idx 8 j then true else get s.table j) is
              ready.table;
        device = w.valid;
        covered = omega (arith, is.0, ready.covered, w.kept_size);
        value = sema_back.0;
        idle = sema_back.1;
      },
      (found, is, w),
    )

    scanned :
        (t' : Bitmap) × (r : Option ℕ) × (scan_and_flip s.table 0 8 false ≡ ok (t', r))
          × Scanned s.table 0 8 false r
          × Taken s.table 8 false t' r
        → Result
    scanned (t', none, e, found, same) = (
      record s { table = t'; sema = released s.sema },
      none,
      swap_write-none current s frame ready e,
      record {
        table = subst Single.IsValid (sym same) ready.table;
        device = ready.device;
        covered = subst (λ (t : Bitmap). t.bit_cnt ≤ s.device.size) (sym same) ready.covered;
        value = sema_back.0;
        idle = sema_back.1;
      },
      (found, same, refl),
    )
    scanned (t', some idx, e, found, is) = copied t' idx e found is (
        write_loop-Wrote 8 s.device idx frame 0 ready.device (omega (arith, found.1, ready.covered))
          (omega (arith, found.1, ready.table)) (omega arith))

module _ (current : ℕ) (s : Swap) (ready : IsReady s) (sector : ℕ) where
  swap_read_run :
      (frame : List ℕ) {t' : Bitmap} {d' : Block} {frame' : List ℕ}
      → Bitmap.mark s.table sector ≡ ok t'
      → read_loop 8 s.device sector frame 0 ≡ ok (d', frame')
      → swap_read current s sector frame
        ≡ ok (record { table = t'; device = d'; sema = released s.sema }, frame')
  unfolding swap_read released
  swap_read_run frame marked read = rw (down_ok current s ready, ◌>>=◌, marked, ◌>>=◌, read)

  -- `swap_read` of eight sectors in the table fills the frame with them and keeps the device, and
  -- it sets the bit of the first sector: it releases no bit of the table.
  pub swap_read-Read :
      (frame : List ℕ)
      → sector + 8 ≤ s.table.bit_cnt
      → length frame ≡ page_size
      → (s' : Swap) × (frame' : List ℕ) × (swap_read current s sector frame ≡ ok (s', frame'))
        × Becomes s.table s'.table (λ j. if sector == j then true else get s.table j)
        × Read 8 s.device s'.device sector frame frame' 0
  swap_read-Read frame within len = both (mark-Becomes s.table ready.table sector (omega arith)) (
      read_loop-Read 8 s.device sector frame 0 ready.device (omega (arith, ready.covered))
        (omega (arith, ready.table)) (omega arith))
    where
      both :
          (t' : Bitmap) × (Bitmap.mark s.table sector ≡ ok t')
            × Becomes s.table t' (λ j. if sector == j then true else get s.table j)
          → (d' : Block) × (frame' : List ℕ) × (read_loop 8 s.device sector frame 0
              ≡ ok (d', frame'))
            × Read 8 s.device d' sector frame frame' 0
          → (s' : Swap) × (frame' : List ℕ) × (swap_read current s sector frame ≡ ok (s', frame'))
            × Becomes s.table s'.table (λ j. if sector == j then true else get s.table j)
            × Read 8 s.device s'.device sector frame frame' 0
      both (t', marked, is) (d', frame', read, r) = (
        record { table = t'; device = d'; sema = released s.sema },
        frame',
        swap_read_run frame marked read,
        is,
        r,
      )

  -- `swap_remove` of a sector in the table clears the bit of that one sector and no other: of the
  -- eight bits of a slot seven stay set.
  pub swap_remove-Becomes :
      sector < s.table.bit_cnt
      → (s' : Swap) × (swap_remove current s sector ≡ ok s')
        × (s'.device ≡ s.device)
        × Becomes s.table s'.table (λ j. if sector == j then false else get s.table j)
  unfolding swap_remove released
  swap_remove-Becomes within = go (reset-Becomes s.table ready.table sector within)
    where
      go :
          (t' : Bitmap) × (Bitmap.reset s.table sector ≡ ok t')
            × Becomes s.table t' (λ j. if sector == j then false else get s.table j)
          → (s' : Swap) × (swap_remove current s sector ≡ ok s')
            × (s'.device ≡ s.device)
            × Becomes s.table s'.table (λ j. if sector == j then false else get s.table j)
      go (t', e, is) = (
        record s { table = t'; sema = released s.sema },
        rw (down_ok current s ready, ◌>>=◌, e),
        refl,
        is,
      )
