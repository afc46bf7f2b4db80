-- ===== src/Swap/Tests.antt =====
-- A swap device of two slots, the first one in use.
use cs439_project.Prelude.{
  ℕ, zero, suc, length, ◌+◌, ◌≤◌, ◌<◌, true, false, List, [], ◌∷◌, ◌≡◌, refl, ok, arith, Option,
  replicate, length-replicate, if◌then◌else◌, ◌==◌,
}
use cs439_project.Bitmap.Single.{get, Becomes}
use cs439_project.Bitmap.Scan.{Blocked}
use cs439_project.Block
use cs439_project.Block.{Block}
use cs439_project.Swap.{Swap, swap_write, swap_read, swap_remove}
use cs439_project.Swap.Transfer.{Read}
use cs439_project.Swap.Slots.{IsReady, Written, swap_write-Written, swap_read-Read}
use cs439_project.Swap.RoundTrip.{Restores, swap_read-swap_write, swap_remove-leaks}

abbrev pub disk : Block
disk = record {
  size = 16;
  foreign = false;
  sectors = λ s. replicate 512 (s + 1);
  read_cnt = 0;
  write_cnt = 0;
}

pub disk-IsValid : Block.IsValid disk
disk-IsValid = record { sized = λ s. length-replicate 512 (s + 1); native_type = refl }

abbrev pub two_slots : Swap
two_slots = record {
  table = record { bit_cnt = 16; bits = 0x00ff ∷ [] };
  device = disk;
  sema = record { value = 1; waiters = [] };
}

pub two_slots-IsReady : IsReady two_slots
two_slots-IsReady = record {
  table = omega arith;
  device = disk-IsValid;
  covered = omega arith;
  value = refl;
  idle = refl;
}

unfoldable pub page : List ℕ
page = replicate 4096 7

unfoldable pub blank : List ℕ
blank = replicate 4096 0

pub length-page : length page ≡ 4096
unfolding page
length-page = length-replicate {A = ℕ} 4096 7

pub length-blank : length blank ≡ 4096
unfolding blank
length-blank = length-replicate {A = ℕ} 4096 0

swap_write-Written_example :
    (s' : Swap) × (r : Option ℕ) × (swap_write 1 two_slots page ≡ ok (s', r))
    × IsReady s'
    × Written two_slots page s' r
swap_write-Written_example = swap_write-Written 1 two_slots page two_slots-IsReady length-page

swap_read-swap_write_example :
    (s' : Swap) × (r : Option ℕ) × (swap_write 1 two_slots page ≡ ok (s', r))
    × Restores 1 two_slots s' page blank r
swap_read-swap_write_example =
    swap_read-swap_write 1 two_slots page blank two_slots-IsReady length-page length-blank

swap_read-Read_example :
    (s' : Swap) × (frame' : List ℕ) × (swap_read 1 two_slots 0 blank ≡ ok (s', frame'))
    × Becomes two_slots.table s'.table (λ j. if 0 == j then true else get two_slots.table j)
    × Read 8 two_slots.device s'.device 0 blank frame' 0
swap_read-Read_example =
    swap_read-Read 1 two_slots two_slots-IsReady 0 blank (omega arith) length-blank

swap_remove-leaks_example :
    (s' : Swap) × (swap_remove 1 two_slots 0 ≡ ok s')
    × ((k : ℕ) → k ≤ 0 + 7 → 0 < k + 7 → Blocked s'.table false 8 k)
swap_remove-leaks_example =
    swap_remove-leaks 1 two_slots 0 two_slots-IsReady (omega arith) first_taken
  where
    first_taken : (i : ℕ) → i < 8 → get two_slots.table (0 + i) ≡ true
    first_taken zero h = refl
    first_taken (suc zero) h = refl
    first_taken (suc (suc zero)) h = refl
    first_taken (suc (suc (suc zero))) h = refl
    first_taken (suc (suc (suc (suc zero)))) h = refl
    first_taken (suc (suc (suc (suc (suc zero))))) h = refl
    first_taken (suc (suc (suc (suc (suc (suc zero)))))) h = refl
    first_taken (suc (suc (suc (suc (suc (suc (suc zero))))))) h = refl
    first_taken (suc (suc (suc (suc (suc (suc (suc (suc i)))))))) h = absurd (omega arith)
