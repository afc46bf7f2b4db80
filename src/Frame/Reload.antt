-- ===== src/Frame/Reload.antt =====
-- vm/frame.c and vm/page.c: a page that `evict_page` has put out comes back by `load_page`.
use cs439_project.Prelude.{
  ℕ, ◌+◌, ◌<◌, true, false, List, Option, none, some, length, Bool-cases, ◌≡◌, refl, sym, ap, ◌∙◌,
  subst, ok, ok_injective, arith, inl, inr,
}
use cs439_project.Block.{Block}
use cs439_project.Page.{Spte, Machine, lookup_sup_page, load_page}
use cs439_project.Page.Load.{IsUnmapped, Reloads, swapped_to, load_page-swap_write}
use cs439_project.Pagedir.{Pagedir, page_size, phys_base, pd_no, pagedir_get_page}
use cs439_project.Pagedir.Mapping.{IsMappable, Translates}
use cs439_project.Swap.{Swap}
use cs439_project.Swap.Slots.{IsReady}
use cs439_project.Frame.{Machines, evict_page}
use cs439_project.Frame.Evict.{IsVictim, evict_page-Evicts}

-- A page that is not mapped can be mapped, with memory for a page table.
get_page-IsUnmapped :
    (pd : Pagedir) (vpage : ℕ)
    → vpage < phys_base
    → pagedir_get_page pd (vpage + 0) ≡ ok none
    → IsUnmapped pd true vpage
unfolding pagedir_get_page
get_page-IsUnmapped pd vpage user gone = elim (Bool-cases (pd.tables (pd_no vpage))) [
  | inl there ↦ inl (there, ground arith)
  | inr missing ↦ inr (missing, refl)
]

-- The kernel as the process of the thread `t` sees it.
abbrev pub machine_of : Machines → Block → ℕ → Machine
machine_of m fs_device t = record {
  supdir = m.supdirs t;
  pagedir = m.pagedirs t;
  fs_device = fs_device;
  swap = m.swap;
}

-- A dirty page that `evict_page` takes the frame of, when its entry is the first of the frame table
-- and not pinned and there is a slot for it, comes back: the process that it belongs to loads it
-- into any frame, and the frame holds the bytes that were in the frame that was taken, and is
-- mapped at the page's address. The page has an entry in the supplemental page table, the
-- semaphores of the frame table and the swap device are free, the frame table gets no memory for
-- another array of buckets, and there is memory for a page table.
pub evict_page-load_page :
    (ram current new_addr e frame idx kpage : ℕ) (m : Machines) (s' : Swap) (fs_device : Block)
    (blank : List ℕ) (old : Spte)
    → IsVictim current m e frame idx s'
    → lookup_sup_page (m.supdirs (m.frames.entries e).thread) (m.frames.entries e).vaddr ≡ some old
    → IsReady m.swap
    → length (m.memory frame) ≡ page_size
    → length blank ≡ page_size
    → IsMappable ram (m.frames.entries e).vaddr kpage
    → (m' : Machines) × (evict_page current false false new_addr m ≡ ok (some frame, m'))
      × (l : Machine) × (load_page ram current true
            (machine_of m' fs_device (m.frames.entries e).thread)
            (m.frames.entries e).vaddr
            kpage
            blank
          ≡ ok (l, m.memory frame, true))
      × Translates l.pagedir (m.frames.entries e).vaddr kpage
evict_page-load_page ram current new_addr e frame idx kpage m s' fs_device blank old v found ready
      len len' mappable =
    let (m', runs, swaps, records, gone, _, _) =
      evict_page-Evicts current new_addr e frame idx m s' v in
    let before : Machine = record (machine_of m' fs_device victim) {
      supdir = m.supdirs victim;
      swap = m.swap;
    } in
    let (s2, r, wrote, reloads) =
      load_page-swap_write ram current true before vpage kpage (m.memory frame) blank mappable ready
        len len' (get_page-IsUnmapped (m'.pagedirs victim) vpage v.user (gone 0 (omega arith)))
        found in
    let pair : ◌≡◌ {A = Swap × Option ℕ} (s2, r) (s', some idx) =
      ok_injective (sym wrote ∙ v.written) in
    let (l, loads, maps) =
      subst
        (λ (x : Swap × Option ℕ).
          Reloads ram current true before vpage kpage (m.memory frame) blank x.0 x.1)
        pair reloads in
    let seen : machine_of m' fs_device victim ≡ swapped_to before vpage s' idx =
      rw (records, swaps) refl in
    (
      m',
      runs,
      l,
      ap (λ (x : Machine). load_page ram current true x vpage kpage blank) seen ∙ loads,
      maps,
    )
  where
    victim : ℕ
    victim = (m.frames.entries e).thread

    vpage : ℕ
    vpage = (m.frames.entries e).vaddr
