-- ===== src/Descriptors/Tests.antt =====
-- A process with one open file, at the descriptor 2.
use cs439_project.Prelude.{
  ℕ, true, List, ◌∷◌, ◌≡◌, ◌≢◌, ◌-◌, refl, ok, panic, none, some, arith, replicate, Option,
}
use cs439_project.Filesys.{File}
use cs439_project.Filesys.Tests.{system, draft}
use cs439_project.Descriptors.{Kernel, failed, install, sys_seek, sys_tell, sys_close, sys_filesize}
use cs439_project.Descriptors.Table.{
  entry, free, IsOpenAt, IsPlain, Installs, sys_seek_panics, sys_close_lem, install-Installs,
}

abbrev table : List (Option File)
table = none ∷ none ∷ some draft ∷ replicate 1021 none

abbrev kernel : Kernel
kernel = record { fs = system; files = table; file_sema = free }

kernel-IsOpenAt : IsOpenAt kernel 2 draft
kernel-IsOpenAt = record {
  sized = refl;
  least = omega arith;
  most = omega arith;
  found = refl;
  idle = refl;
}

draft-IsPlain : IsPlain system draft
draft-IsPlain = record { allows = refl; opened = omega arith; kept = refl }

sys_seek_panics_example : sys_seek 1 kernel 2 0x80000000 ≡ panic
sys_seek_panics_example = sys_seek_panics 1 kernel 2 draft kernel-IsOpenAt 0x80000000 (omega arith)

install-Installs_example : Installs (install table (some draft)) table 2 draft
install-Installs_example = install-Installs table draft refl

sys_close_lem_example :
    (k' : Kernel) × (sys_close true 1 kernel 2 ≡ ok k')
    × (sys_tell 1 k' 2 ≡ ok (k', failed))
    × (sys_filesize 1 k' 2 ≡ ok (k', failed))
    × ((k'.fs.inodes 4096).open_cnt ≡ (system.inodes 4096).open_cnt - 1)
    × ((i : ℕ) → 2 ≢ i → entry k'.files i ≡ entry table i)
sys_close_lem_example = sys_close_lem true 1 kernel 2 draft kernel-IsOpenAt draft-IsPlain
