-- ===== src/Page/Load.antt =====
-- `load_page` brings a page into its frame, from a file or from the swap device.
use cs439_project.Prelude.{
  in_range, ℕ, ◌+◌, ◌-◌, ◌/◌, ◌%◌, ◌^◌, ◌≤◌, ◌<◌, Bool, true, false, List, ◌≡◌, refl, ap, ◌∙◌, ok,
  ◌>>=◌, length, get_or, arith, if◌then◌else◌, ltb, ◌==◌, ◌⊎◌, ==_refl, Option, none, some, dec_lt,
  lt→ltb, le→ltb,
}
use cs439_project.Block
use cs439_project.Block.{Block}
use cs439_project.CString.{memset}
use cs439_project.Pagedir.{Pagedir, pg_no, pd_no, pagedir_set_page, page_size}
use cs439_project.Pagedir.Mapping.{IsMappable, Translates, KeepsOthers, pagedir_set_page-Translates}
use cs439_project.Swap.{Swap, swap_write, swap_read}
use cs439_project.Swap.Slots.{IsReady}
use cs439_project.Swap.RoundTrip.{Restores, swap_read-swap_write}
use cs439_project.Page.{
  Machine, Spte, Supdir, file_sys, swap_sys, lookup_sup_page, fill_loop, load_bytes, finish_page,
  load_page, supdir_set_swap,
}
use cs439_project.Page.Fill.{sectors_for, Fills, fill_loop-Fills, memset_lem}
use cs439_project.Page.Table.{supdir_set_swap_lem}

-- The page is not mapped, and its page table is there or can be allocated.
abbrev pub IsUnmapped : Pagedir → Bool → ℕ → Type 0
IsUnmapped pd memory vpage =
    (pd.tables (pd_no vpage) ≡ true) × ((pd.entries (pg_no vpage)).present ≡ false)
    ⊎ (pd.tables (pd_no vpage) ≡ false) × (memory ≡ true)

module _ (ram current : ℕ) (memory : Bool) (m : Machine) (vpage kpage : ℕ) (frame : List ℕ)
    (mappable : IsMappable ram vpage kpage) where
  load_page_run :
      {entry : Spte} {m' : Machine} {f f' : List ℕ} {addr : ℕ} {pd' : Pagedir} {done : Bool}
      → lookup_sup_page m.supdir vpage ≡ some entry
      → load_bytes current m entry frame ≡ ok (m', f, addr)
      → memset f addr 0 ((page_size + 2 ^ 32 - entry.read_bytes) % 2 ^ 32) ≡ ok f'
      → pagedir_set_page ram memory m'.pagedir vpage kpage entry.writable ≡ ok (pd', done)
      → load_page ram current memory m vpage kpage frame
        ≡ ok (record m' { pagedir = pd' }, f', true)
  unfolding load_page finish_page
  load_page_run found loaded zeroed mapped =
      rw (load_page, found, loaded, ◌>>=◌, finish_page, zeroed, ◌>>=◌, mapped)

  load_file :
      (entry : Spte) {d' : Block} {f : List ℕ} {addr : ℕ}
      → entry.location ≡ file_sys
      → entry.read_bytes < 2 ^ 31
      → fill_loop entry.read_bytes m.fs_device entry.sector frame 0 entry.read_bytes
        ≡ ok (d', f, addr)
      → load_bytes current m entry frame ≡ ok (record m { fs_device = d' }, f, addr)
  unfolding load_bytes
  load_file entry e short filled =
      let t : (entry.location == file_sys) ≡ true = ground arith in
      rw (t, lt→ltb entry.read_bytes (2 ^ 31) short, filled)

  -- `load_page` of a page with an entry in a file, which says to read a page at most, from a valid
  -- device of less than 2 ^ 32 sectors that the sectors to read are inside of: if the frame is
  -- PGSIZE bytes long, the page is at an aligned user address and the frame at an aligned address in
  -- the kernel's RAM, the page is not mapped, and its page table is there or can be allocated, then
  -- it returns true, the page is mapped to the frame, and this holds the bytes of the page's sectors,
  -- as many as the entry says, and zeros behind them. Without memory for the page table it would
  -- return true and not map the page.
  pub load_page_file :
      (entry : Spte)
      → lookup_sup_page m.supdir vpage ≡ some entry
      → entry.location ≡ file_sys
      → entry.read_bytes ≤ page_size
      → Block.IsValid m.fs_device
      → entry.sector + sectors_for entry.read_bytes ≤ m.fs_device.size
      → m.fs_device.size < 2 ^ 32
      → length frame ≡ page_size
      → IsUnmapped m.pagedir memory vpage
      → (m' : Machine) × (frame' : List ℕ) × (load_page ram current memory m vpage kpage frame
          ≡ ok (m', frame', true))
        × Translates m'.pagedir vpage kpage
        × ((j : ℕ)
            → j < page_size
            → get_or frame' j 0 ≡ (
                if ltb j entry.read_bytes
                then get_or (m.fs_device.sectors (entry.sector + j / 512)) (j % 512) 0
                else 0))
  load_page_file entry found located short v room small len unmapped = with_bytes (
      fill_loop-Fills entry.read_bytes m.fs_device entry.sector frame 0 entry.read_bytes v
        (omega arith) room small (omega arith))
    where
      n : ℕ
      n = entry.read_bytes

      Goal : Type 0
      Goal =
          (m' : Machine) × (frame' : List ℕ) × (load_page ram current memory m vpage kpage frame
            ≡ ok (m', frame', true))
          × Translates m'.pagedir vpage kpage
          × ((j : ℕ)
              → j < page_size
              → get_or frame' j 0 ≡ (
                  if ltb j n
                  then get_or (m.fs_device.sectors (entry.sector + j / 512)) (j % 512) 0
                  else 0))

      zero_bytes : (page_size + 2 ^ 32 - n) % 2 ^ 32 ≡ (page_size - n) % 2 ^ 32
      zero_bytes = omega arith

      with_bytes :
          Fills (fill_loop n m.fs_device entry.sector frame 0 n) m.fs_device entry.sector frame 0 n
          → Goal
      with_bytes (d', f, e, filled) =
          zeroed
            (memset_lem f (0 + n) 0 ((page_size + 2 ^ 32 - n) % 2 ^ 32)
              (omega (arith, filled.same_length)))
            (pagedir_set_page-Translates ram m.pagedir vpage kpage entry.writable mappable memory
              unmapped)
        where
          zeroed :
              (f' : List ℕ) × (memset f (0 + n) 0 ((page_size + 2 ^ 32 - n) % 2 ^ 32) ≡ ok f')
                × (length f' ≡ length f)
                × ((j : ℕ)
                    → get_or f' j 0 ≡ (
                        if in_range (0 + n) ((page_size + 2 ^ 32 - n) % 2 ^ 32) j
                        then 0
                        else get_or f j 0))
              → (pd' : Pagedir) × (pagedir_set_page ram memory m.pagedir vpage kpage entry.writable
                  ≡ ok (pd', true))
                × Translates pd' vpage kpage
                × KeepsOthers m.pagedir pd' vpage
              → Goal
          zeroed (f', z, len', bytes) (pd', mapped, tr, others) = (
            record m { fs_device = d'; pagedir = pd' },
            f',
            load_page_run found (load_file entry located (omega arith) e) z mapped,
            tr,
            λ j h. bytes j ∙ byte j h (dec_lt j n),
          )
            where
              byte :
                  (j : ℕ)
                  → j < page_size
                  → Dec (j < n)
                  → (if in_range (0 + n) ((page_size + 2 ^ 32 - n) % 2 ^ 32) j
                      then 0
                      else get_or f j 0)
                    ≡ (if ltb j n
                        then get_or (m.fs_device.sectors (entry.sector + j / 512)) (j % 512) 0
                        else 0)
              byte j h (yes low) =
                  let r : in_range (0 + n) ((page_size + 2 ^ 32 - n) % 2 ^ 32) j ≡ false =
                    ground arith in
                  let p : 0 + j ≡ j = omega arith in
                  rw (r, lt→ltb j n low) (rw p at (filled.filled j low))
              byte j h (no high) =
                  let r : in_range (0 + n) ((page_size + 2 ^ 32 - n) % 2 ^ 32) j ≡ true =
                    ground arith in
                  rw (r, le→ltb j n (omega arith))

  load_swapped :
      (entry : Spte) {s' : Swap} {f : List ℕ}
      → entry.location ≡ swap_sys
      → swap_read current m.swap entry.sector frame ≡ ok (s', f)
      → load_bytes current m entry frame ≡ ok (record m { swap = s' }, f, 0)
  unfolding load_bytes
  load_swapped entry e read =
      let f : (entry.location == file_sys) ≡ false = ground arith in
      let t : (entry.location == swap_sys) ≡ true = ground arith in rw (f, t, read)

memset_none : (dst : List ℕ) → memset dst 0 0 0 ≡ ok dst
unfolding memset
memset_none dst = refl

recorded_entry :
    (table : Supdir) (vpage idx : ℕ) {old : Spte}
    → lookup_sup_page table vpage ≡ some old
    → lookup_sup_page (supdir_set_swap table vpage idx).0 vpage
      ≡ some (record old { location = swap_sys; sector = idx; read_bytes = page_size })
recorded_entry table vpage idx found =
    let (table', done, e, iff, entries) = supdir_set_swap_lem table vpage idx in
    ap (λ (r : Supdir × Bool). lookup_sup_page r.0 vpage) e ∙ entries vpage ∙ rw (==_refl, found)

-- The machine after a page went to the slot: its swap device, and the entry that says so.
abbrev pub swapped_to : Machine → ℕ → Swap → ℕ → Machine
swapped_to m vpage s' idx = record m { supdir = (supdir_set_swap m.supdir vpage idx).0; swap = s' }

-- The page comes back from the slot that was answered; without a slot nothing is claimed but that
-- the swap table and device are as before.
abbrev pub Reloads : ℕ → ℕ → Bool → Machine → ℕ → ℕ → List ℕ → List ℕ → Swap → Option ℕ → Type 0
Reloads ram current memory m vpage kpage page frame s' none =
    (s'.table ≡ m.swap.table) × (s'.device ≡ m.swap.device)
Reloads ram current memory m vpage kpage page frame s' (some idx) =
    (m' : Machine) × (load_page ram current memory (swapped_to m vpage s' idx) vpage kpage frame
      ≡ ok (m', page, true))
    × Translates m'.pagedir vpage kpage

module _ (ram current : ℕ) (memory : Bool) (m : Machine) (vpage kpage : ℕ) (page frame : List ℕ)
    (mappable : IsMappable ram vpage kpage) (ready : IsReady m.swap) (len : length page ≡ page_size)
    (len' : length frame ≡ page_size) (unmapped : IsUnmapped m.pagedir memory vpage) where
  -- A page with an entry that `swap_write` puts into a slot and `supdir_set_swap` records comes
  -- back from `load_page`: the frame that it is loaded into holds the page's bytes, whatever it
  -- held before, and the page is mapped to it. If there was no slot, the swap table and device
  -- are unchanged. This is for a valid swap device that covers the swap table, with nobody at its
  -- semaphore; a page and a frame that are each PGSIZE bytes long, the page at an aligned user
  -- address and the frame at an aligned address in the kernel's RAM; and a page that is not mapped,
  -- whose page table is there or can be allocated: otherwise `load_page` ignores that the page could
  -- not be mapped.
  pub load_page-swap_write :
      {old : Spte}
      → lookup_sup_page m.supdir vpage ≡ some old
      → (s' : Swap) × (r : Option ℕ) × (swap_write current m.swap page ≡ ok (s', r))
        × Reloads ram current memory m vpage kpage page frame s' r
  load_page-swap_write {old} found =
      go (swap_read-swap_write current m.swap page frame ready len len')
    where
      Goal : Type 0
      Goal =
          (s' : Swap) × (r : Option ℕ) × (swap_write current m.swap page ≡ ok (s', r))
          × Reloads ram current memory m vpage kpage page frame s' r

      go :
          (s' : Swap) × (r : Option ℕ) × (swap_write current m.swap page ≡ ok (s', r))
            × Restores current m.swap s' page frame r
          → Goal
      go (s', none, e, same) = (s', none, e, same)
      go (s', some idx, e, (s'', read)) = mapped (
          pagedir_set_page-Translates ram m.pagedir vpage kpage old.writable mappable memory
            unmapped)
        where
          now : Spte
          now = record old { location = swap_sys; sector = idx; read_bytes = page_size }

          recorded : lookup_sup_page (supdir_set_swap m.supdir vpage idx).0 vpage ≡ some now
          recorded = recorded_entry m.supdir vpage idx found

          mapped :
              (pd' : Pagedir) × (pagedir_set_page ram memory m.pagedir vpage kpage old.writable
                  ≡ ok (pd', true))
                × Translates pd' vpage kpage
                × KeepsOthers m.pagedir pd' vpage
              → Goal
          mapped (pd', set, tr, others) = (
            s',
            some idx,
            e,
            (
              record (swapped_to m vpage s' idx) { swap = s''; pagedir = pd' },
              load_page_run ram current memory (swapped_to m vpage s' idx) vpage kpage frame
                  mappable {entry = now} recorded
                  (load_swapped ram current memory (swapped_to m vpage s' idx) vpage kpage frame
                    mappable now refl read)
                  (memset_none page) set,
              tr,
            ),
          )
