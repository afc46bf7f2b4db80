-- ===== src/Pagedir.antt =====
-- userprog/pagedir.c: a page directory, with the address arithmetic of threads/vaddr.h. A page
-- table entry is a record of its address and its flags; a directory says which page tables it has
-- and which entry it holds for each page number. The directory is a process's, never
-- `init_page_dir`. Loading it into the CPU is not modelled.
pub mod Mapping
pub mod Tests
use cs439_project.Prelude.{
  ℕ, ◌+◌, ◌-◌, ◌*◌, ◌/◌, ◌%◌, ◌^◌, Bool, true, false, not, ◌&&◌, ◌||◌, if◌then◌else◌, ltb, leb,
  ◌==◌, Outcome, ok, ◌>>=◌, ◌>>◌, assert, Option, none, some,
}

-- PHYS_BASE
abbrev pub phys_base : ℕ
phys_base = 0xc0000000

-- PGSIZE
abbrev pub page_size : ℕ
page_size = 4096

abbrev pub pg_ofs : ℕ → ℕ
pg_ofs va = va % page_size

abbrev pub pg_no : ℕ → ℕ
pg_no va = va / page_size

abbrev pub pg_round_down : ℕ → ℕ
pg_round_down va = va - va % page_size

abbrev pub is_user_vaddr : ℕ → Bool
is_user_vaddr vaddr = ltb vaddr phys_base

-- `vtop`
abbrev pub vtop : ℕ → Outcome ℕ
vtop vaddr = assert (leb phys_base vaddr) >> ok (vaddr - phys_base)

-- the number of a page table, `pd_no`
abbrev pub pd_no : ℕ → ℕ
pd_no va = va / 2 ^ 22

-- A page table entry: PTE_P, PTE_W, PTE_D, PTE_A and the kernel address of the frame.
pub record Pte : Type 0 where
  pub present : Bool
  pub writable : Bool
  pub dirty : Bool
  pub accessed : Bool
  pub frame : ℕ

-- the entry of a fresh page table
abbrev pub no_entry : Pte
no_entry = record { present = false; writable = false; dirty = false; accessed = false; frame = 0 }

-- `pte_create_user`
abbrev pub pte_create_user : ℕ → Bool → Pte
pte_create_user page writable = record {
  present = true;
  writable = writable;
  dirty = false;
  accessed = false;
  frame = page;
}

pub record Pagedir : Type 0 where
  pub tables : ℕ → Bool
  pub entries : ℕ → Pte

-- `lookup_page` without CREATE: the entry, if there is a page table for the address
unfoldable pub lookup_page : Pagedir → ℕ → Option Pte
lookup_page pd vaddr = if pd.tables (pd_no vaddr) then some (pd.entries (pg_no vaddr)) else none

-- The directory with a new page table, whose entries are all zero.
abbrev pub add_table : Pagedir → ℕ → Pagedir
add_table pd vaddr = record {
  tables = λ t. if t == pd_no vaddr then true else pd.tables t;
  entries = λ n. if n / 1024 == pd_no vaddr then no_entry else pd.entries n;
}

-- `lookup_page` with CREATE: `memory` says whether `palloc_get_page` gives a page.
unfoldable pub lookup_page_create : Bool → Pagedir → ℕ → Outcome (Pagedir × Option Pte)
lookup_page_create memory pd vaddr = do
  assert (is_user_vaddr vaddr)
  (if pd.tables (pd_no vaddr)
      then ok (pd, some (pd.entries (pg_no vaddr)))
      else if memory
      then ok (add_table pd vaddr, some no_entry)
      else ok (pd, none))

-- `*pte = value` for the entry of an address
abbrev pub put_entry : Pagedir → ℕ → Pte → Pagedir
put_entry pd vaddr value = record pd {
  entries = λ n. if n == pg_no vaddr then value else pd.entries n;
}

-- The end of `pagedir_set_page`, with the entry that was looked up.
unfoldable pub set_entry : ℕ → ℕ → Bool → Pagedir × Option Pte → Outcome (Pagedir × Bool)
set_entry upage kpage writable (pd, none) = ok (pd, false)
set_entry upage kpage writable (pd, some pte) =
    assert (not pte.present) >> ok (put_entry pd upage (pte_create_user kpage writable), true)

-- `pagedir_set_page`
unfoldable pub pagedir_set_page : ℕ → Bool → Pagedir → ℕ → ℕ → Bool → Outcome (Pagedir × Bool)
unfolding set_entry lookup_page_create
pagedir_set_page init_ram_pages memory pd upage kpage writable = do
  assert (pg_ofs upage == 0)
  assert (pg_ofs kpage == 0)
  assert (is_user_vaddr upage)
  physical ← vtop kpage
  assert (ltb (physical / page_size) init_ram_pages)
  found ← lookup_page_create memory pd upage
  set_entry upage kpage writable found

-- `pagedir_get_page`; `none` is a null pointer
unfoldable pub pagedir_get_page : Pagedir → ℕ → Outcome (Option ℕ)
unfolding lookup_page
pagedir_get_page pd uaddr = do
  assert (is_user_vaddr uaddr)
  ok (elim (lookup_page pd uaddr) [
    | none ↦ none
    | some pte ↦ if pte.present then some (pte.frame + pg_ofs uaddr) else none
  ])

-- A change of the entry of an address, if it has one.
abbrev pub change_entry : Pagedir → ℕ → (Pte → Pte) → Pagedir
change_entry pd vpage f = elim (lookup_page pd vpage) [
  | none ↦ pd
  | some pte ↦ put_entry pd vpage (f pte)
]

-- `pagedir_clear_page`
unfoldable pub pagedir_clear_page : Pagedir → ℕ → Outcome Pagedir
unfolding lookup_page
pagedir_clear_page pd upage = do
  assert (pg_ofs upage == 0)
  assert (is_user_vaddr upage)
  ok (change_entry pd upage (λ pte. if pte.present then record pte { present = false } else pte))

-- `pagedir_is_dirty`
unfoldable pub pagedir_is_dirty : Pagedir → ℕ → Bool
unfolding lookup_page
pagedir_is_dirty pd vpage = elim (lookup_page pd vpage) [ none ↦ false | some pte ↦ pte.dirty ]

-- `pagedir_set_dirty`
unfoldable pub pagedir_set_dirty : Pagedir → ℕ → Bool → Pagedir
unfolding lookup_page
pagedir_set_dirty pd vpage dirty = change_entry pd vpage (λ pte. record pte { dirty = dirty })

-- `pagedir_is_accessed`
unfoldable pub pagedir_is_accessed : Pagedir → ℕ → Bool
unfolding lookup_page
pagedir_is_accessed pd vpage = elim (lookup_page pd vpage) [
  | none ↦ false
  | some pte ↦ pte.accessed
]

-- `pagedir_set_accessed`
unfoldable pub pagedir_set_accessed : Pagedir → ℕ → Bool → Pagedir
unfolding lookup_page
pagedir_set_accessed pd vpage accessed =
    change_entry pd vpage (λ pte. record pte { accessed = accessed })
