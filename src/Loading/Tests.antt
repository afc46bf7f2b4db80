-- ===== src/Loading/Tests.antt =====
-- A segment of two pages in the file of the inode's tests.
use cs439_project.Prelude.{true, false, [], ◌≡◌, ◌↔◌, ◌≤◌, ◌<◌, ◌%◌, ◌+◌, refl, ok, arith}
use cs439_project.Filesys.{File}
use cs439_project.Inode.Tests.{notes}
use cs439_project.Page.{Supdir}
use cs439_project.Pagedir.{page_size, phys_base}
use cs439_project.Loading.{Phdr, validate_segment, load_segment}
use cs439_project.Loading.Segments.{Enters, validate_segment_iff, load_segment-Enters}

abbrev bss : Phdr
bss = record { p_offset = 4660; p_vaddr = 0x08049234; p_filesz = 600; p_memsz = 5000 }

validate_segment_iff_example : (validate_segment bss 700 ≡ true) ↔ (
    (4660 % page_size ≡ 0x08049234 % page_size)
    × (4660 ≤ 700)
    × (600 ≤ 5000)
    × (0 < 5000)
    × (page_size ≤ 0x08049234)
    × (0x08049234 + 5000 < phys_base))
validate_segment_iff_example = validate_segment_iff bss 700 (omega arith) (omega arith)

-- The file after its header was read.
abbrev executable : File
executable = record { inode = 5; pos = 52; deny_write = true }

load_segment-Enters_example :
    (table' : Supdir) × (load_segment true [] notes executable 0 0x08048000 600 7592 false
      ≡ ok (table', record executable { pos = 0 }, true))
    × Enters table' [] notes 0 0x08048000 600 false 2
load_segment-Enters_example =
    load_segment-Enters 2 [] notes executable 0 0x08048000 600 7592 false tt refl (omega arith) refl
      refl (omega arith)
