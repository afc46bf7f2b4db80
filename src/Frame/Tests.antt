-- ===== src/Frame/Tests.antt =====
-- A frame table with one page of a process, which gets another page of the same bucket, or takes
-- the frame away.
use cs439_project.Prelude.{true, false, [], ◌∷◌, ◌≡◌, refl, ok, arith, some, get_elem?}
use cs439_project.Bitmap
use cs439_project.Block
use cs439_project.Page.{Spte, Machine, lookup_sup_page, load_page}
use cs439_project.Pagedir.{pagedir_get_page, pagedir_is_dirty}
use cs439_project.Pagedir.Mapping.{Translates}
use cs439_project.Pagedir.Tests.{code_page-IsMappable}
use cs439_project.Synch.{sema_down}
use cs439_project.Prelude.Memory.{read_bytes}
use cs439_project.Swap.{Swap, swap_write, write_slot, write_loop}
use cs439_project.Swap.Tests.{
  disk, two_slots, two_slots-IsReady, page, blank, length-page, length-blank,
}
use cs439_project.Hash.{hash_elements}
use cs439_project.Frame.{FtEntry, Frames, Machines, evict_page, get_user_page}
use cs439_project.Frame.Evict.{IsVictim}
use cs439_project.Frame.Reload.{machine_of, evict_page-load_page}
use cs439_project.Frame.Same.{bucket_of, get_user_page_displaces}

-- The page at 0x8048000 of the thread in page 0xc0101000; its entry is at 500.
abbrev code_entry : FtEntry
code_entry = record {
  thread = 0xc0101000;
  vaddr = 0x8048000;
  pin_sema = record { value = 1; waiters = [] };
}

abbrev one_frame : Frames
one_frame = record {
  ft = record { elem_cnt = 1; bucket_cnt = 4; buckets = [] ∷ (500 ∷ []) ∷ [] ∷ [] ∷ [] };
  ft_sema = record { value = 1; waiters = [] };
  entries = λ a. code_entry;
}

get_user_page_displaces_example :
    (f' : Frames) × (get_user_page 0xc0101000 (some 0xc0200000) (some 600) false 0x8049000 one_frame
      ≡ ok (some 0xc0200000, f'))
    × (get_elem? f'.ft.buckets (bucket_of 0xc0101000 600 0x8049000 one_frame) ≡ some (600 ∷ []))
    × (f'.ft.elem_cnt ≡ 1)
get_user_page_displaces_example =
    get_user_page_displaces one_frame 0xc0101000 0xc0200000 600 0x8049000 500 [] refl (omega arith)
      refl refl

abbrev code : Spte
code = record { writable = true; location = 3; sector = 4; read_bytes = 1000; vaddr = 0x8048000 }

-- The page of the entry at 500 is in the frame at 0xc0300000, and dirty.
abbrev kernel : Machines
kernel = record {
  frames = one_frame;
  pagedirs = λ t. record {
    tables = λ i. true;
    entries = λ n. record {
      present = true;
      writable = true;
      dirty = true;
      accessed = true;
      frame = 0xc0300000;
    };
  };
  supdirs = λ t. code ∷ [];
  memory = λ a. page;
  swap = two_slots;
}

abbrev swap_after : Swap
swap_after = elim (swap_write 1 two_slots page) [ ok r ↦ r.0 | _ ↦ two_slots ]

written_out : swap_write 1 two_slots page ≡ ok (swap_after, some 8)
unfolding swap_write sema_down Bitmap.scan_and_flip Bitmap.scan Bitmap.scan_loop Bitmap.contains
    Bitmap.contains_loop Bitmap.test Bitmap.flip_group Bitmap.set_multiple Bitmap.set_loop
    Bitmap.set_bit Bitmap.mark Bitmap.reset write_slot write_loop read_bytes Block.write page
written_out = refl

kernel-IsVictim : IsVictim 1 kernel 500 0xc0300000 8 swap_after
unfolding hash_elements pagedir_get_page pagedir_is_dirty
kernel-IsVictim = record {
  first = ([], refl);
  sized = record { some_bucket = omega arith; sized = refl };
  free = refl;
  unpinned = refl;
  aligned = refl;
  user = omega arith;
  mapped = refl;
  dirty = refl;
  written = written_out;
}

code_found : lookup_sup_page (code ∷ []) 0x8048000 ≡ some code
unfolding lookup_sup_page
code_found = refl

evict_page-load_page_example :
    (m' : Machines) × (evict_page 1 false false 0x9000000 kernel ≡ ok (some 0xc0300000, m'))
    × (l : Machine) × (load_page 1024 1 true
          (machine_of m' disk 0xc0101000)
          0x8048000
          0xc0100000
          blank
        ≡ ok (l, page, true))
    × Translates l.pagedir 0x8048000 0xc0100000
evict_page-load_page_example =
    evict_page-load_page 1024 1 0x9000000 500 0xc0300000 8 0xc0100000 kernel swap_after disk blank
      code kernel-IsVictim code_found two_slots-IsReady length-page length-blank
      code_page-IsMappable
