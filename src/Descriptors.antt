-- ===== src/Descriptors.antt =====
-- userprog/syscall.c: the system calls on a process's table of open files. A descriptor is the word
-- of its argument; a negative `int` is a word from 2 ^ 31 on. The table is a page of 1024 pointers.
pub mod Table
mod Tests
use cs439_project.Prelude.{
  ℕ, zero, suc, ◌+◌, ◌-◌, ◌^◌, Bool, true, false, List, Option, none, some, if◌then◌else◌, ltb, leb,
  ◌&&◌, Outcome, ok, ◌>>=◌, ◌>>◌, deref, get_elem?, set, signed_count,
}
use cs439_project.Synch.{Semaphore, sema_down, sema_up}
use cs439_project.Filesys.{File, Filesys}
use cs439_project.Filesys.Files.{file_write, file_close, file_length, file_seek, file_tell}

-- What the calls share: the file system, `files` of the running thread, and `file_sema`.
pub record Kernel : Type 0 where
  pub fs : Filesys
  pub files : List (Option File)
  pub file_sema : Semaphore

-- -1 in %eax
abbrev pub failed : ℕ
failed = 2 ^ 32 - 1

-- `fd < 1024 && fd >= 2 && (file = t->files[fd])`
unfoldable pub open_file : List (Option File) → ℕ → Outcome (Option File)
open_file files fd = if ltb fd 1024 && leb 2 fd then deref (get_elem? files fd) else ok none

-- `sema_up (file_sema)`
abbrev pub release : Kernel → Semaphore → Kernel
release k held = record k { file_sema = (sema_up held).0 }

-- `sys_filesize`: the value of %eax
unfoldable pub sys_filesize : ℕ → Kernel → ℕ → Outcome (Kernel × ℕ)
sys_filesize current k fd = do
  held ← sema_down false current k.file_sema
  entry ← open_file k.files fd
  ok (release k held, elim entry [ none ↦ failed | some file ↦ file_length k.fs file ])

-- `sys_tell`
unfoldable pub sys_tell : ℕ → Kernel → ℕ → Outcome (Kernel × ℕ)
sys_tell current k fd = do
  held ← sema_down false current k.file_sema
  entry ← open_file k.files fd
  ok (release k held, elim entry [ none ↦ failed | some file ↦ file_tell file ])

-- The file at a descriptor replaced, as the files of the source change in place.
abbrev pub put_file : Kernel → ℕ → Option File → Kernel
put_file k fd entry = record k { files = set k.files fd entry }

-- `sys_seek`
unfoldable pub sys_seek : ℕ → Kernel → ℕ → ℕ → Outcome Kernel
sys_seek current k fd position = do
  held ← sema_down false current k.file_sema
  entry ← open_file k.files fd
  elim entry [
    | none ↦ ok (release k held)
    | some file ↦
        file_seek file position >>= λ file'. ok (release (put_file k fd (some file')) held)
  ]

-- `sys_close`
unfoldable pub sys_close : Bool → ℕ → Kernel → ℕ → Outcome Kernel
sys_close memory current k fd = do
  held ← sema_down false current k.file_sema
  entry ← open_file k.files fd
  elim entry [
    | none ↦ ok (release k held)
    | some file ↦ file_close memory k.fs (some file) >>= λ fs'.
        ok (release (record (put_file k fd none) { fs = fs' }) held)
  ]

-- The loop of `close_all_files`, with the descriptors left.
unfoldable pub close_loop : ℕ → Bool → ℕ → Kernel → ℕ → Outcome Kernel
close_loop zero memory current k i = ok k
close_loop (suc left) memory current k i =
    (deref (get_elem? k.files i) >>= λ entry. elim entry [
      | none ↦ ok k
      | some file ↦ sys_close memory current k i
    ])
    >>= λ k'. close_loop left memory current k' (i + 1)

-- `close_all_files`; the page of the table is freed after it.
unfoldable pub close_all_files : Bool → ℕ → Kernel → Outcome Kernel
close_all_files memory current k = close_loop 1022 memory current k 2

-- The branch of `sys_write` for a descriptor that is not the console. The size becomes an `off_t`;
-- of a negative one nothing is written.
unfoldable pub write_file : Bool → ℕ → Kernel → ℕ → List ℕ → ℕ → Outcome (Kernel × ℕ)
write_file memory current k fd buffer size = do
  entry ← open_file k.files fd
  elim entry [
    | none ↦ ok (k, failed)
    | some file ↦ sema_down false current k.file_sema >>= λ held.
        file_write memory k.fs file buffer (signed_count size) >>= λ r.
        ok (release (record (put_file k fd (some r.1)) { fs = r.0 }) held, r.2)
  ]

-- The loop of `sys_open` over the descriptors left: the table, and the descriptor if one is free.
unfoldable pub install_loop : ℕ → List (Option File) → ℕ → File → Outcome (List (Option File) × ℕ)
install_loop zero files i file = ok (files, failed)
install_loop (suc left) files i file = deref (get_elem? files i) >>= λ entry. elim entry [
  | none ↦ ok (set files i (some file), i)
  | some other ↦ install_loop left files (i + 1) file
]

-- What `sys_open` does with the file that `filesys_open` returns.
unfoldable pub install : List (Option File) → Option File → Outcome (List (Option File) × ℕ)
install files none = ok (files, failed)
install files (some file) = install_loop 1022 files 2 file
