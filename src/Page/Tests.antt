-- ===== src/Page/Tests.antt =====
-- A process with one page of its program in a file.
use cs439_project.Prelude.{
  ℕ, ◌+◌, ◌/◌, ◌%◌, ◌<◌, true, false, List, [], ◌∷◌, ◌≡◌, refl, ok, arith, Option, some, inr,
  if◌then◌else◌, ltb, get_or,
}
use cs439_project.Pagedir.{page_size}
use cs439_project.Pagedir.Mapping.{Translates}
use cs439_project.Pagedir.Tests.{no_tables, code_page-IsMappable}
use cs439_project.Swap.{Swap, swap_write}
use cs439_project.Swap.Tests.{
  disk, disk-IsValid, two_slots, two_slots-IsReady, page, blank, length-page, length-blank,
}
use cs439_project.Page.{Machine, Spte, load_page, lookup_sup_page}
use cs439_project.Page.Load.{Reloads, load_page_file, load_page-swap_write}

abbrev code : Spte
code = record { writable = false; location = 3; sector = 4; read_bytes = 1000; vaddr = 0x08048000 }

abbrev process : Machine
process = record { supdir = code ∷ []; pagedir = no_tables; fs_device = disk; swap = two_slots }

code_found : lookup_sup_page (code ∷ []) 0x08048000 ≡ some code
unfolding lookup_sup_page
code_found = refl

load_page_file_example :
    (m' : Machine) × (frame' : List ℕ) × (load_page 1024 1 true process 0x08048000 0xc0100000 page
      ≡ ok (m', frame', true))
    × Translates m'.pagedir 0x08048000 0xc0100000
    × ((j : ℕ)
        → j < page_size
        → get_or frame' j 0
          ≡ (if ltb j 1000 then get_or (disk.sectors (4 + j / 512)) (j % 512) 0 else 0))
load_page_file_example =
    load_page_file 1024 1 true process 0x08048000 0xc0100000 page code_page-IsMappable code
      code_found refl (omega arith) disk-IsValid (omega arith) (omega arith) length-page
      (inr (refl, refl))

load_page-swap_write_example :
    (s' : Swap) × (r : Option ℕ) × (swap_write 1 two_slots page ≡ ok (s', r))
    × Reloads 1024 1 true process 0x08048000 0xc0100000 page blank s' r
load_page-swap_write_example =
    load_page-swap_write 1024 1 true process 0x08048000 0xc0100000 page blank code_page-IsMappable
      two_slots-IsReady length-page length-blank (inr (refl, refl)) code_found
