-- ===== src/Pagedir/Tests.antt =====
-- A page directory with no page table.
use cs439_project.Prelude.{ℕ, ◌+◌, ◌<◌, true, false, ◌≡◌, refl, ok, arith, none, inr}
use cs439_project.Pagedir.{
  Pagedir, no_entry, page_size, pagedir_set_page, pagedir_get_page, pagedir_clear_page,
  pagedir_is_dirty,
}
use cs439_project.Pagedir.Mapping.{
  IsMappable, Translates, KeepsOthers, pagedir_set_page-Translates, pagedir_clear_page_lem,
}

abbrev pub no_tables : Pagedir
no_tables = record { tables = λ t. false; entries = λ n. no_entry }

pub code_page-IsMappable : IsMappable 1024 0x08048000 0xc0100000
code_page-IsMappable = record {
  aligned = refl;
  frame_aligned = refl;
  user = omega arith;
  kernel = omega arith;
  in_ram = omega arith;
}

pagedir_set_page-Translates_example :
    (pd' : Pagedir) × (pagedir_set_page 1024 true no_tables 0x08048000 0xc0100000 false
      ≡ ok (pd', true))
    × Translates pd' 0x08048000 0xc0100000
    × KeepsOthers no_tables pd' 0x08048000
pagedir_set_page-Translates_example =
    pagedir_set_page-Translates 1024 no_tables 0x08048000 0xc0100000 false code_page-IsMappable true
      (inr (refl, refl))

pagedir_clear_page_lem_example :
    (pd' : Pagedir) × (pagedir_clear_page no_tables 0x08048000 ≡ ok pd')
    × ((ofs : ℕ) → ofs < page_size → pagedir_get_page pd' (0x08048000 + ofs) ≡ ok none)
    × (pagedir_is_dirty pd' 0x08048000 ≡ pagedir_is_dirty no_tables 0x08048000)
pagedir_clear_page_lem_example = pagedir_clear_page_lem no_tables 0x08048000 refl (omega arith)
