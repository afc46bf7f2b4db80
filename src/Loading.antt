-- ===== src/Loading.antt =====
-- userprog/process.c: the segments of an executable, which `load` checks and then enters in the
-- supplemental page table. `memory` says whether malloc gives the entries of the table.
pub mod Segments
mod Tests
use cs439_project.Prelude.{
  ℕ, zero, suc, ◌+◌, ◌-◌, ◌*◌, ◌%◌, ◌^◌, Bool, true, false, not, if◌then◌else◌, ltb, ◌==◌, Outcome,
  ok, wild, ◌>>=◌, ◌>>◌, assert,
}
use cs439_project.Filesys.{File}
use cs439_project.Filesys.Files.{file_seek}
use cs439_project.Inode.{Inode, byte_to_sector}
use cs439_project.Page.{Supdir, supdir_set_page, file_sys, zero_sys}
use cs439_project.Pagedir.{page_size, pg_ofs, is_user_vaddr}

-- `struct Elf32_Phdr`, less the words that are not read
pub record Phdr : Type 0 where
  pub p_offset : ℕ
  pub p_vaddr : ℕ
  pub p_filesz : ℕ
  pub p_memsz : ℕ

-- `phdr->p_vaddr + phdr->p_memsz`
abbrev pub segment_end : Phdr → ℕ
segment_end phdr = (phdr.p_vaddr + phdr.p_memsz) % 2 ^ 32

-- `validate_segment`, given the file's length
unfoldable pub validate_segment : Phdr → ℕ → Bool
validate_segment phdr file_length =
    if not (pg_ofs phdr.p_offset == pg_ofs phdr.p_vaddr)
    then false
    else if ltb file_length phdr.p_offset
    then false
    else if ltb phdr.p_memsz phdr.p_filesz
    then false
    else if phdr.p_memsz == 0
    then false
    else if not (is_user_vaddr phdr.p_vaddr)
    then false
    else if not (is_user_vaddr (segment_end phdr))
    then false
    else if ltb (segment_end phdr) phdr.p_vaddr
    then false
    else if ltb phdr.p_vaddr page_size
    then false
    else true

-- `page_read_bytes`
abbrev pub page_read_bytes : ℕ → ℕ
page_read_bytes read_bytes = if ltb read_bytes page_size then read_bytes else page_size

-- What one round of `load_segment` enters in the table; what `supdir_set_page` returns is dropped.
abbrev pub segment_page : Bool → Supdir → Inode → ℕ → ℕ → ℕ → Bool → Supdir
segment_page memory table inode ofs upage page_read writable =
    if ltb 0 page_read
    then (supdir_set_page memory table upage (byte_to_sector inode ofs) page_read file_sys
        writable).0
    else (supdir_set_page memory table upage 0 0 zero_sys writable).0

-- `ofs += PGSIZE` of an `off_t` that is not negative; the overflow of a signed number is undefined.
abbrev pub next_ofs : ℕ → Outcome ℕ
next_ofs ofs = if ltb (ofs + page_size) (2 ^ 31) then ok (ofs + page_size) else wild

-- The loop of `load_segment`, on fuel: the bytes to read and to clear, which fall by a page in each
-- round.
unfoldable pub segment_loop : ℕ → Bool → Supdir → Inode → ℕ → ℕ → ℕ → ℕ → Bool → Outcome Supdir
segment_loop zero memory table inode ofs upage read_bytes zero_bytes writable = ok table
segment_loop (suc fuel) memory table inode ofs upage read_bytes zero_bytes writable =
    let page_read = page_read_bytes read_bytes in
    let rest : Outcome Supdir =
      (next_ofs ofs >>= λ ofs'.
      segment_loop fuel memory (segment_page memory table inode ofs upage page_read writable) inode
        ofs' ((upage + page_size) % 2 ^ 32) (read_bytes - page_read)
        ((zero_bytes + 2 ^ 32 - (page_size - page_read)) % 2 ^ 32) writable) in
    if ltb 0 read_bytes then rest else if ltb 0 zero_bytes then rest else ok table

-- `load_segment` of a file with the inode given: the table after it, the file, which is at another
-- position, and what it returns. The offset is the bit pattern of an `off_t`.
unfoldable pub load_segment :
    Bool → Supdir → Inode → File → ℕ → ℕ → ℕ → ℕ → Bool → Outcome (Supdir × File × Bool)
unfolding file_seek
load_segment memory table inode file ofs upage read_bytes zero_bytes writable = do
  assert (pg_ofs ((read_bytes + zero_bytes) % 2 ^ 32) == 0)
  assert (pg_ofs upage == 0)
  assert (pg_ofs ofs == 0)
  file' ← file_seek file ofs
  table' ←
      segment_loop (read_bytes + zero_bytes) memory table inode ofs upage read_bytes zero_bytes
        writable
  ok (table', file', true)
