-- ===== src/Bitmap/Tests.antt =====
-- Bitmaps at concrete values: two elements for 40 bits.
use cs439_project.Prelude.{
  ℕ, false, [], ◌∷◌, ◌≡◌, refl, ok, arith, Option, some, if◌then◌else◌, in_range,
}
use cs439_project.Bitmap.{
  Bitmap, set_bit, set_multiple, contains, scan, scan_and_flip, flip_group, scan_loop,
  contains_loop, set_loop, test, mark,
}
use cs439_project.Bitmap.Single.{get, Becomes}
use cs439_project.Bitmap.Multiple.{set_multiple-Becomes}
use cs439_project.Bitmap.Scan.{Scanned, Taken, scan-Scanned, scan_and_flip-Taken}

abbrev forty : Bitmap
forty = record { bit_cnt = 40; bits = 0xffff00ff ∷ 0x0f ∷ [] }

-- The first four free bits are 8 to 11.
scan_and_flip-forty :
    scan_and_flip forty 0 4 false ≡ ok (record forty { bits = 0xffff0fff ∷ 0x0f ∷ [] }, some 8)
unfolding scan_and_flip scan scan_loop contains contains_loop test flip_group set_multiple set_loop
    set_bit mark
scan_and_flip-forty = refl

set_multiple-Becomes_example :
    (b' : Bitmap) × (set_multiple forty 30 6 false ≡ ok b')
    × Becomes forty b' (λ j. if in_range 30 6 j then false else get forty j)
set_multiple-Becomes_example = set_multiple-Becomes forty 30 6 false (omega arith) (omega arith)

scan-Scanned_example : (r : Option ℕ) × (scan forty 3 4 false ≡ ok r) × Scanned forty 3 4 false r
scan-Scanned_example = scan-Scanned forty 3 4 false (omega arith) (omega arith)

scan_and_flip-Taken_example :
    (b' : Bitmap) × (r : Option ℕ) × (scan_and_flip forty 0 4 false ≡ ok (b', r))
    × Scanned forty 0 4 false r
    × Taken forty 4 false b' r
scan_and_flip-Taken_example = scan_and_flip-Taken forty 0 4 false (omega arith) (omega arith)
