-- ===== src/Page.antt =====
-- vm/page.c: the supplemental page table of a process. The hash table behind it is seen through
-- its keys: a list of entries with one entry for an address, in the order of an iteration.
pub mod Table
pub mod Fill
pub mod Load
pub mod Hashed
mod Tests
use cs439_project.Prelude.{
  ℕ, zero, suc, ◌+◌, ◌-◌, ◌*◌, ◌/◌, ◌%◌, ◌^◌, Bool, true, false, not, ◌&&◌, List, [], ◌∷◌,
  if◌then◌else◌, ltb, leb, ◌==◌, Outcome, ok, ◌>>=◌, ◌>>◌, assert, Option, none, some, write_bytes,
  signed_count,
}
use cs439_project.Block
use cs439_project.Block.{Block, sector_size}
use cs439_project.CString.{memset}
use cs439_project.Pagedir.{
  Pagedir, Pte, lookup_page, pagedir_set_page, pg_ofs, is_user_vaddr, page_size,
}
use cs439_project.Swap.{Swap, swap_read, swap_remove}

-- FILE_SYS, SWAP_SYS, MEM_SYS and ZERO_SYS
abbrev pub file_sys : ℕ
file_sys = 3

abbrev pub swap_sys : ℕ
swap_sys = 2

abbrev pub mem_sys : ℕ
mem_sys = 1

abbrev pub zero_sys : ℕ
zero_sys = 0

-- `struct spte`
pub record Spte : Type 0 where
  pub writable : Bool
  pub location : ℕ
  pub sector : ℕ
  pub read_bytes : ℕ
  pub vaddr : ℕ

abbrev pub Supdir : Type 0
Supdir = List Spte

-- `lookup_sup_page`: neither entry is `less_than` the other, so the addresses are equal.
unfoldable pub lookup_sup_page : Supdir → ℕ → Option Spte
lookup_sup_page [] vaddr = none
lookup_sup_page (e ∷ table) vaddr = if e.vaddr == vaddr then some e else lookup_sup_page table vaddr

-- The entry of an address taken out of the table, as `hash_delete` and `hash_replace` do.
unfoldable pub delete : Supdir → ℕ → Supdir
delete [] vaddr = []
delete (e ∷ table) vaddr = if e.vaddr == vaddr then table else e ∷ delete table vaddr

-- `hash_replace`
abbrev pub replace : Supdir → Spte → Supdir
replace table entry = entry ∷ delete table entry.vaddr

-- `supdir_set_page`: `memory` says whether malloc gives a new entry.
unfoldable pub supdir_set_page : Bool → Supdir → ℕ → ℕ → ℕ → ℕ → Bool → Supdir × Bool
supdir_set_page memory table vaddr sector read_bytes location writable =
    let entry : Spte = record {
      writable = writable;
      location = location % 256;
      sector = sector;
      read_bytes = read_bytes;
      vaddr = vaddr;
    } in
    elim (lookup_sup_page table vaddr) [
      | none ↦ if memory then (replace table entry, true) else (table, false)
      | some old ↦ (replace table entry, true)
    ]

-- A change in place of the entry of an address.
unfoldable pub modify : Supdir → ℕ → (Spte → Spte) → Supdir
modify [] vaddr f = []
modify (e ∷ table) vaddr f = if e.vaddr == vaddr then f e ∷ table else e ∷ modify table vaddr f

-- `supdir_set_swap`
unfoldable pub supdir_set_swap : Supdir → ℕ → ℕ → Supdir × Bool
supdir_set_swap table vaddr swap_sector = elim (lookup_sup_page table vaddr) [
  | none ↦ (table, false)
  | some old ↦ (
    modify table vaddr
        (λ e. record e { location = swap_sys; sector = swap_sector; read_bytes = page_size }),
    true,
  )
]

-- `supdir_clear_page`
unfoldable pub supdir_clear_page : Supdir → ℕ → Outcome Supdir
supdir_clear_page table upage = do
  assert (pg_ofs upage == 0)
  assert (is_user_vaddr upage)
  ok (elim (lookup_sup_page table upage) [ none ↦ table | some e ↦ delete table upage ])

-- Whether `supdir_destroy` gives back the swap slot of an entry: its page table entry is there
-- and not present, and the page is in the swap device.
abbrev pub is_swapped_out : Pagedir → Spte → Bool
is_swapped_out pd e = elim (lookup_page pd e.vaddr) [
  | none ↦ false
  | some pte ↦ not pte.present && e.location == swap_sys
]

-- The loop of `supdir_destroy`; the table is freed after it.
unfoldable pub supdir_destroy : ℕ → Pagedir → Supdir → Swap → Outcome Swap
supdir_destroy current pd [] swap = ok swap
supdir_destroy current pd (e ∷ table) swap =
    (if is_swapped_out pd e then swap_remove current swap e.sector else ok swap) >>= λ swap'.
    supdir_destroy current pd table swap'

-- The loop of `load_page` over the sectors of a file, with the bytes left; `addr` is the offset
-- in the frame. The fuel is `read_bytes`, which falls by 512 in each round.
unfoldable pub fill_loop : ℕ → Block → ℕ → List ℕ → ℕ → ℕ → Outcome (Block × List ℕ × ℕ)
fill_loop zero device sector frame addr read_bytes = ok (device, frame, addr)
fill_loop (suc fuel) device sector frame addr read_bytes =
    let stop : Outcome (Block × List ℕ × ℕ) = ok (device, frame, addr) in
    let more : Outcome (Block × List ℕ × ℕ) =
      (Block.read device sector >>= λ r. write_bytes frame addr r.1 >>= λ frame'.
      fill_loop fuel r.0 ((sector + 1) % 2 ^ 32) frame'
        (if leb sector_size read_bytes then addr + sector_size else addr + read_bytes)
        (read_bytes - sector_size)) in
    if ltb 0 read_bytes then more else stop

-- The process and the devices that `load_page` works on.
pub record Machine : Type 0 where
  pub supdir : Supdir
  pub pagedir : Pagedir
  pub fs_device : Block
  pub swap : Swap

-- `load_page` up to the memset: the frame's bytes and the offset from which they are to be zero.
unfoldable pub load_bytes : ℕ → Machine → Spte → List ℕ → Outcome (Machine × List ℕ × ℕ)
load_bytes current m entry frame =
    if entry.location == file_sys
    then (fill_loop (signed_count entry.read_bytes) m.fs_device entry.sector frame 0
          (signed_count entry.read_bytes)
        >>= λ r. ok (record m { fs_device = r.0 }, r.1, r.2))
    else if entry.location == swap_sys
    then (swap_read current m.swap entry.sector frame >>= λ r. ok (record m { swap = r.0 }, r.1, 0))
    else ok (m, frame, 0)

-- The rest of `load_page`: `zero_bytes` wraps as an `uint32_t`, and what `pagedir_set_page`
-- returns is dropped.
unfoldable pub finish_page :
    ℕ → Bool → ℕ → ℕ → Spte → Machine × List ℕ × ℕ → Outcome (Machine × List ℕ × Bool)
finish_page init_ram_pages memory vpage kpage entry (m, frame, addr) = do
  frame' ← memset frame addr 0 ((page_size + 2 ^ 32 - entry.read_bytes) % 2 ^ 32)
  (pd', done) ← pagedir_set_page init_ram_pages memory m.pagedir vpage kpage entry.writable
  ok (record m { pagedir = pd' }, frame', true)

-- `load_page` of the page at `vpage` into the frame at the kernel address `kpage`
unfoldable pub load_page :
    ℕ → ℕ → Bool → Machine → ℕ → ℕ → List ℕ → Outcome (Machine × List ℕ × Bool)
load_page init_ram_pages current memory m vpage kpage frame =
    elim (lookup_sup_page m.supdir vpage) [
      | none ↦ ok (m, frame, false)
      | some entry ↦ load_bytes current m entry frame >>= λ loaded.
          finish_page init_ram_pages memory vpage kpage entry loaded
    ]
