-- ===== src/Descriptors/Table.antt =====
-- What the system calls do to the table of open files.
use cs439_project.Prelude.{
  ℕ, zero, suc, ◌+◌, ◌-◌, ◌^◌, ◌≤◌, ◌<◌, Bool, true, false, List, ◌≡◌, ◌≢◌, refl, ap, ◌∙◌, Option,
  none, some, ltb, leb, ◌==◌, Outcome, ok, panic, ◌>>=◌, get_or, set, length, arith, lt→ltb,
  get_elem?-eq-get_or, length-set, get_or-set_ne, get_or-set_self, Option-cases, Bool-cases, [],
  ==_refl, ℕ_discrete, ◌⊎◌, inl, inr,
}
use cs439_project.Synch.{Semaphore, sema_down, sema_down_round, sema_up}
use cs439_project.Inode.{Inode}
use cs439_project.Filesys.{File, Filesys, put_inode, without, inode_close, release_inode}
use cs439_project.Filesys.Files.{file_seek, file_tell, file_close, file_allow_write}
use cs439_project.Descriptors.{
  Kernel, failed, open_file, sys_tell, sys_seek, sys_close, sys_filesize, install, install_loop,
}

abbrev pub entry : List (Option File) → ℕ → Option File
entry files fd = get_or files fd none

-- `file_sema` when no call is running
abbrev pub free : Semaphore
free = record { value = 1; waiters = [] }

-- The table has its size, the descriptor is in range, and no call is running.
pub record IsOpenAt (k : Kernel) (fd : ℕ) (file : File) : Type 0 where
  pub sized : length k.files ≡ 1024
  pub least : 2 ≤ fd
  pub most : fd < 1024
  pub found : entry k.files fd ≡ some file
  pub idle : k.file_sema ≡ free

open_file-entry :
    (files : List (Option File)) (fd : ℕ)
    → length files ≡ 1024
    → 2 ≤ fd
    → fd < 1024
    → open_file files fd ≡ ok (entry files fd)
unfolding open_file
open_file-entry files fd len lo hi =
    let a : ltb fd 1024 ≡ true = ground arith in
    let b : leb 2 fd ≡ true = ground arith in
    rw (a, b, get_elem?-eq-get_or files fd none (omega arith)) refl

module _ (current : ℕ) (k : Kernel) (fd : ℕ) (file : File) (ready : IsOpenAt k fd file) where
  opened : open_file k.files fd ≡ ok (some file)
  opened = open_file-entry k.files fd ready.sized ready.least ready.most ∙ ap ok ready.found

  -- After `sys_seek` to a position below 2 ^ 31, `sys_tell` of that descriptor returns the
  -- position, and all other descriptors are as before.
  pub sys_tell-sys_seek :
      (position : ℕ)
      → position < 2 ^ 31
      → (k' k'' : Kernel) × (sys_seek current k fd position ≡ ok k')
        × (sys_tell current k' fd ≡ ok (k'', position))
        × ((i : ℕ) → fd ≢ i → entry k'.files i ≡ entry k.files i)
  unfolding sys_seek sys_tell sema_down sema_down_round sema_up file_seek file_tell
  sys_tell-sys_seek position small = (
    moved,
    moved,
    rw (ready.idle, ◌>>=◌, opened, ◌>>=◌, file_seek, lt→ltb position (2 ^ 31) small) refl,
    rw
        (
          open_file-entry moved.files fd (length-set k.files fd _ ∙ ready.sized) ready.least
              ready.most,
          get_or-set_self k.files fd (some (record file { pos = position })) none (omega arith),
        )
        refl,
    λ i other. get_or-set_ne k.files fd i (some (record file { pos = position })) none other,
  )
    where
      moved : Kernel
      moved = record k {
        files = set k.files fd (some (record file { pos = position }));
        file_sema = free;
      }

  -- `sys_seek` of an open file to a position from 2 ^ 31 on, which a process may ask for, stops the
  -- kernel.
  pub sys_seek_panics : (position : ℕ) → 2 ^ 31 ≤ position → sys_seek current k fd position ≡ panic
  unfolding sys_seek sema_down sema_down_round file_seek
  sys_seek_panics position large =
      let no : ltb position (2 ^ 31) ≡ false = ground arith in
      rw (ready.idle, ◌>>=◌, opened, ◌>>=◌, file_seek, no) refl

-- The file does not deny writes, and its inode is open and not removed.
pub record IsPlain (fs : Filesys) (file : File) : Type 0 where
  pub allows : file.deny_write ≡ false
  pub opened : 0 < (fs.inodes file.inode).open_cnt
  pub kept : (fs.inodes file.inode).removed ≡ false

file_close_lem :
    (memory : Bool) (fs : Filesys) (file : File)
    → IsPlain fs file
    → (fs' : Filesys) × (file_close memory fs (some file) ≡ ok fs')
      × (fs'.device ≡ fs.device)
      × ((fs'.inodes file.inode).open_cnt ≡ (fs.inodes file.inode).open_cnt - 1)
unfolding file_close file_allow_write inode_close release_inode
file_close_lem memory fs file plain = elim (Bool-cases (inode.open_cnt - 1 == 0)) [
  | inl last ↦ (
    record (put_inode fs file.inode closed) { open_inodes = without fs.open_inodes file.inode },
    rw (plain.allows, ◌>>=◌, inode_close, some_opener, last, release_inode, plain.kept) refl,
    refl,
    rw (==_refl file.inode) refl,
  )
  | inr more ↦ (
    put_inode fs file.inode closed,
    rw (plain.allows, ◌>>=◌, inode_close, some_opener, more) refl,
    refl,
    rw (==_refl file.inode) refl,
  )
]
  where
    inode : Inode
    inode = fs.inodes file.inode

    closed : Inode
    closed = record inode { open_cnt = inode.open_cnt - 1 }

    some_opener : (inode.open_cnt == 0) ≡ false
    some_opener = let pos = plain.opened in ground arith

-- What `sys_open` does with a file and the descriptors from i on: the first free one is taken, or
-- none is free and the table is as before.
abbrev pub Installs : Outcome (List (Option File) × ℕ) → List (Option File) → ℕ → File → Type 0
Installs outcome files i file =
    ((fd : ℕ) × (outcome ≡ ok (set files fd (some file), fd))
      × (i ≤ fd)
      × (fd < 1024)
      × (entry files fd ≡ none)
      × ((j : ℕ) → i ≤ j → j < fd → entry files j ≢ none))
    ⊎ ((outcome ≡ ok (files, failed)) × ((j : ℕ) → i ≤ j → j < 1024 → entry files j ≢ none))

install_loop-Installs :
    (left i : ℕ) (files : List (Option File)) (file : File)
    → length files ≡ 1024
    → left + i ≡ 1024
    → Installs (install_loop left files i file) files i file
unfolding install_loop
install_loop-Installs zero i files file len e = inr (refl, λ j lo hi. absurd (omega arith))
install_loop-Installs (suc left) i files file len e = elim (Option-cases (entry files i)) [
  | inl free_here ↦ inl (
    i,
    rw (get_elem?-eq-get_or files i none (omega arith), free_here) refl,
    omega arith,
    omega arith,
    free_here,
    λ j lo hi. absurd (omega arith),
  )
  | inr (other, used) ↦
      rw (get_elem?-eq-get_or files i none (omega arith), used)
        (later other used (install_loop-Installs left (i + 1) files file len (omega arith)))
]
  where
    before :
        (other : File)
        → entry files i ≡ some other
        → (bound : ℕ) → ((j : ℕ) → i + 1 ≤ j → j < bound → entry files j ≢ none)
        → (j : ℕ) → i ≤ j
        → j < bound
        → entry files j ≢ none
    before other used bound rest j lo hi = elim (ℕ_discrete i j) [
      | yes q ↦ λ n. let at_i : entry files i ≡ none = ap (entry files) q ∙ n in cc
      | no q ↦ rest j (omega arith) hi
    ]

    later :
        (other : File)
        → entry files i ≡ some other
        → Installs (install_loop left files (i + 1) file) files (i + 1) file
        → Installs (install_loop left files (i + 1) file) files i file
    later other used (inl (fd, run, lo, hi, here, rest)) =
        inl (fd, run, omega arith, hi, here, before other used fd rest)
    later other used (inr (run, rest)) = inr (run, before other used 1024 rest)

-- `sys_open` of a file that was found puts it at the first free descriptor from 2 on and answers
-- that one; if all are in use it answers -1 and keeps the table.
pub install-Installs :
    (files : List (Option File)) (file : File)
    → length files ≡ 1024
    → Installs (install files (some file)) files 2 file
unfolding install
install-Installs files file len = install_loop-Installs 1022 2 files file len refl

-- `sys_close` of an open file that does not deny writes, with an inode that is open and not
-- removed, takes one opener from the inode and frees the descriptor: `sys_tell` and `sys_filesize`
-- of it then answer -1, and all other descriptors are as before.
pub sys_close_lem :
    (memory : Bool) (current : ℕ) (k : Kernel) (fd : ℕ) (file : File)
    → IsOpenAt k fd file
    → IsPlain k.fs file
    → (k' : Kernel) × (sys_close memory current k fd ≡ ok k')
      × (sys_tell current k' fd ≡ ok (k', failed))
      × (sys_filesize current k' fd ≡ ok (k', failed))
      × ((k'.fs.inodes file.inode).open_cnt ≡ (k.fs.inodes file.inode).open_cnt - 1)
      × ((i : ℕ) → fd ≢ i → entry k'.files i ≡ entry k.files i)
unfolding sys_close sys_tell sys_filesize sema_down sema_down_round sema_up
sys_close_lem memory current k fd file ready plain = go (file_close_lem memory k.fs file plain)
  where
    go :
        (fs' : Filesys) × (file_close memory k.fs (some file) ≡ ok fs')
          × (fs'.device ≡ k.fs.device)
          × ((fs'.inodes file.inode).open_cnt ≡ (k.fs.inodes file.inode).open_cnt - 1)
        → (k' : Kernel) × (sys_close memory current k fd ≡ ok k')
          × (sys_tell current k' fd ≡ ok (k', failed))
          × (sys_filesize current k' fd ≡ ok (k', failed))
          × ((k'.fs.inodes file.inode).open_cnt ≡ (k.fs.inodes file.inode).open_cnt - 1)
          × ((i : ℕ) → fd ≢ i → entry k'.files i ≡ entry k.files i)
    go (fs', closed, same, count) = (
      k',
      rw (ready.idle, ◌>>=◌, opened current k fd file ready, ◌>>=◌, closed) refl,
      rw gone refl,
      rw gone refl,
      count,
      λ i other. get_or-set_ne k.files fd i none none other,
    )
      where
        k' : Kernel
        k' = record { fs = fs'; files = set k.files fd none; file_sema = free }

        gone : open_file (set k.files fd none) fd ≡ ok none
        gone =
            open_file-entry (set k.files fd none) fd (length-set k.files fd none ∙ ready.sized)
              ready.least ready.most
            ∙ ap ok (get_or-set_self k.files fd none none (omega arith))
