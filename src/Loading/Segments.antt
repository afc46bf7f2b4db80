-- ===== src/Loading/Segments.antt =====
-- Which segments are accepted, and what they are in the supplemental page table.
use cs439_project.Prelude.{
  ℕ, zero, suc, ◌+◌, ◌-◌, ◌*◌, ◌%◌, ◌^◌, ◌≤◌, ◌<◌, Bool, true, false, ◌&&◌, ◌≡◌, ◌≢◌, refl, ap, ◌∙◌,
  ◌↔◌, ◌⊎◌, inl, inr, if◌then◌else◌, ltb, ◌==◌, ==_ne, ==_refl, Bool-cases, some, none, ok, ◌>>=◌,
  arith, lt→ltb,
}
use cs439_project.Filesys.{File}
use cs439_project.Inode.{Inode, byte_to_sector}
use cs439_project.Page.{Spte, Supdir, lookup_sup_page, supdir_set_page, file_sys, zero_sys}
use cs439_project.Page.Table.{IsDistinct, new_entry, supdir_set_page_lem}
use cs439_project.Pagedir.{page_size, phys_base, pg_ofs}
use cs439_project.Loading.{
  Phdr, validate_segment, page_read_bytes, segment_page, segment_loop, load_segment,
}

-- `validate_segment` accepts a segment exactly if its offset in the file and its address are at the
-- same place of a page, the offset is in the file, the part of it in the file is not longer than
-- it, it is not empty, and it lies in user memory above the first page, without wrapping around.
pub validate_segment_iff :
    (phdr : Phdr) (file_length : ℕ)
    → phdr.p_vaddr < 2 ^ 32
    → phdr.p_memsz < 2 ^ 32
    → (validate_segment phdr file_length ≡ true) ↔ (
        (phdr.p_offset % page_size ≡ phdr.p_vaddr % page_size)
        × (phdr.p_offset ≤ file_length)
        × (phdr.p_filesz ≤ phdr.p_memsz)
        × (0 < phdr.p_memsz)
        × (page_size ≤ phdr.p_vaddr)
        × (phdr.p_vaddr + phdr.p_memsz < phys_base))
unfolding validate_segment
validate_segment_iff phdr file_length v m = ground arith

-- The entry for the page at the offset d of a segment.
abbrev pub segment_entry : Inode → ℕ → ℕ → ℕ → Bool → ℕ → Spte
segment_entry inode ofs upage read_bytes writable d =
    if ltb d read_bytes
    then new_entry (upage + d) (byte_to_sector inode (ofs + d)) (page_read_bytes (read_bytes - d))
        file_sys writable
    else new_entry (upage + d) 0 0 zero_sys writable

-- The table holds the n pages of the segment, and every other address is as before.
abbrev pub Enters : Supdir → Supdir → Inode → ℕ → ℕ → ℕ → Bool → ℕ → Type 0
Enters table' table inode ofs upage read_bytes writable n =
    IsDistinct table'
    × ((k : ℕ)
        → k < n
        → lookup_sup_page table' (upage + k * 4096)
          ≡ some (segment_entry inode ofs upage read_bytes writable (k * 4096)))
    × ((v : ℕ)
        → (v < upage) ⊎ (upage + n * 4096 ≤ v)
        → lookup_sup_page table' v ≡ lookup_sup_page table v)

module _ (table : Supdir) (inode : Inode) (ofs upage : ℕ) (writable : Bool)
    (d : IsDistinct table) where
  abbrev Sets : Supdir → Spte → Type 0
  Sets table' e =
      IsDistinct table'
      × ((v : ℕ)
          → lookup_sup_page table' v ≡ (if v == upage then some e else lookup_sup_page table v))

  set_page :
      (sector read_bytes location : ℕ)
      → Sets
          (supdir_set_page true table upage sector read_bytes location writable).0
          (new_entry upage sector read_bytes location writable)
  set_page sector read_bytes location =
      go (supdir_set_page_lem true table upage sector read_bytes location writable d)
    where
      e : Spte
      e = new_entry upage sector read_bytes location writable

      go :
          (table' : Supdir) × (done : Bool) × (supdir_set_page true table upage sector read_bytes
                location writable
              ≡ (table', done))
            × IsDistinct table'
            × ((v : ℕ)
                → lookup_sup_page table' v
                  ≡ (if done && v == upage then some e else lookup_sup_page table v))
            × ((done ≡ false) ↔ ((true ≡ false) × (lookup_sup_page table upage ≡ none)))
          → Sets (supdir_set_page true table upage sector read_bytes location writable).0 e
      go (table', true, eq, dist, look, iff) = rw eq (dist, look)
      go (table', false, eq, dist, look, iff) = absurd (let t : true ≡ false = (iff.0 refl).0 in cc)

  segment_page-Sets :
      (read_bytes : ℕ)
      → Sets
          (segment_page true table inode ofs upage (page_read_bytes read_bytes) writable)
          (segment_entry inode ofs upage read_bytes writable 0)
  segment_page-Sets read_bytes =
      let o : ofs + 0 ≡ ofs = omega arith in
      let u : upage + 0 ≡ upage = omega arith in
      let r : read_bytes - 0 ≡ read_bytes = omega arith in
      elim (Bool-cases (ltb 0 read_bytes)) [
        | inl some_bytes ↦
            let pos : ltb 0 (page_read_bytes read_bytes) ≡ true = ground arith in
            rw (pos, some_bytes, o, u, r)
              (set_page (byte_to_sector inode ofs) (page_read_bytes read_bytes) file_sys)
        | inr no_bytes ↦
            let nil : ltb 0 (page_read_bytes read_bytes) ≡ false = ground arith in
            rw (nil, no_bytes, u) (set_page 0 0 zero_sys)
      ]

further_entry :
    (inode : Inode) (ofs upage read_bytes : ℕ) (writable : Bool) (d : ℕ)
    → segment_entry inode
        (ofs + 4096)
        (upage + 4096)
        (read_bytes - page_read_bytes read_bytes)
        writable
        d
      ≡ segment_entry inode ofs upage read_bytes writable (4096 + d)
further_entry inode ofs upage read_bytes writable d =
    let o : ofs + 4096 + d ≡ ofs + (4096 + d) = omega arith in
    let u : upage + 4096 + d ≡ upage + (4096 + d) = omega arith in
    let t : ltb d (read_bytes - page_read_bytes read_bytes) ≡ ltb (4096 + d) read_bytes =
      ground arith in
    let p : page_read_bytes (read_bytes - page_read_bytes read_bytes - d)
        ≡ page_read_bytes (read_bytes - (4096 + d)) =
      ground arith in
    rw (o, u, t, p) refl

segment_loop-Enters :
    (fuel n : ℕ) (table : Supdir) (inode : Inode) (ofs upage read_bytes zero_bytes : ℕ)
    (writable : Bool)
    → IsDistinct table
    → n ≤ fuel
    → read_bytes + zero_bytes ≡ n * 4096
    → zero_bytes < 2 ^ 32
    → upage + n * 4096 ≤ phys_base
    → ofs + n * 4096 < 2 ^ 31
    → (table' : Supdir) × (segment_loop fuel true table inode ofs upage read_bytes zero_bytes
          writable
        ≡ ok table')
      × Enters table' table inode ofs upage read_bytes writable n
unfolding segment_loop
segment_loop-Enters zero zero table inode ofs upage r z writable d f total small room low =
    (table, refl, (d, λ k lt. absurd (omega arith), λ v out. refl))
segment_loop-Enters zero (suc n) table inode ofs upage r z writable d f total small room low =
    absurd (omega arith)
segment_loop-Enters (suc fuel) zero table inode ofs upage r z writable d f total small room low =
    let a : ltb 0 r ≡ false = ground arith in
    let b : ltb 0 z ≡ false = ground arith in
    rw (a, b) (table, refl, (d, λ k lt. absurd (omega arith), λ v out. refl))
segment_loop-Enters (suc fuel) (suc n) table inode ofs upage r z writable d f total small room low =
    let (table', e, enters) =
      segment_loop-Enters fuel n table1 inode (ofs + 4096) (upage + 4096) r' z' writable first.0
        (omega arith) left_over (omega arith) (omega arith) (omega arith) in
    (table', stepped ∙ e, assemble table' enters)
  where
    r' : ℕ
    r' = r - page_read_bytes r

    z' : ℕ
    z' = z - (4096 - page_read_bytes r)

    table1 : Supdir
    table1 = segment_page true table inode ofs upage (page_read_bytes r) writable

    first :
        Sets table inode ofs upage writable d table1 (segment_entry inode ofs upage r writable 0)
    first = segment_page-Sets table inode ofs upage writable d r

    left_over : r' + z' ≡ n * 4096
    left_over = ground arith

    stepped :
        segment_loop (suc fuel) true table inode ofs upage r z writable
        ≡ segment_loop fuel true table1 inode (ofs + 4096) (upage + 4096) r' z' writable
    stepped =
        let u : (upage + 4096) % 2 ^ 32 ≡ upage + 4096 = omega arith in
        let o : ltb (ofs + 4096) (2 ^ 31) ≡ true = ground arith in
        let w : (z + 2 ^ 32 - (4096 - page_read_bytes r)) % 2 ^ 32 ≡ z' = ground arith in
        elim (Bool-cases (ltb 0 r)) [
          | inl a ↦ rw (a, o, u, w) refl
          | inr b ↦ let c : ltb 0 z ≡ true = ground arith in rw (b, c, o, u, w) refl
        ]

    assemble :
        (T : Supdir)
        → Enters T table1 inode (ofs + 4096) (upage + 4096) r' writable n
        → Enters T table inode ofs upage r writable (suc n)
    assemble T (dist, pages, others) = (
      dist,
      page,
      λ v out.
          let ne : v ≢ upage = λ e. ground arith in
          others v (ground arith) ∙ first.1 v ∙ rw (==_ne v upage ne) refl,
    )
      where
        page :
            (k : ℕ)
            → k < suc n
            → lookup_sup_page T (upage + k * 4096)
              ≡ some (segment_entry inode ofs upage r writable (k * 4096))
        page zero lt =
            let e : upage + 0 ≡ upage = omega arith in
            ap (lookup_sup_page T) e
            ∙ others upage (inl (omega arith))
            ∙ first.1 upage
            ∙ rw (==_refl upage) refl
        page (suc k) lt =
            let e : upage + suc k * 4096 ≡ upage + 4096 + k * 4096 = omega arith in
            let e' : 4096 + k * 4096 ≡ suc k * 4096 = omega arith in
            ap (lookup_sup_page T) e
            ∙ pages k (omega arith)
            ∙ ap some (
                further_entry inode ofs upage r writable (k * 4096)
                ∙ ap (segment_entry inode ofs upage r writable) e')

-- `load_segment` of n whole pages, from the start of a page in user memory and from an offset in the
-- file that is a multiple of the page size and with the n pages behind it below 2 ^ 31, with a table
-- whose pages are distinct and memory for the entries: it returns true with the file at the offset,
-- the table then has an entry for each page that says which sector of the file it starts at and how
-- many of its bytes are read, or that it is all zero, and every other address keeps the entry that
-- it had.
pub load_segment-Enters :
    (n : ℕ) (table : Supdir) (inode : Inode) (file : File) (ofs upage read_bytes zero_bytes : ℕ)
    (writable : Bool)
    → IsDistinct table
    → read_bytes + zero_bytes ≡ n * 4096
    → upage + n * 4096 ≤ phys_base
    → upage % 4096 ≡ 0
    → ofs % 4096 ≡ 0
    → ofs + n * 4096 < 2 ^ 31
    → (table' : Supdir) × (load_segment true table inode file ofs upage read_bytes zero_bytes
          writable
        ≡ ok (table', record file { pos = ofs }, true))
      × Enters table' table inode ofs upage read_bytes writable n
unfolding load_segment
load_segment-Enters n table inode file ofs upage r z writable d total room place place' low =
    let a : (pg_ofs ((r + z) % 2 ^ 32) == 0) ≡ true = ground arith in
    let b : (pg_ofs upage == 0) ≡ true = ground arith in
    let c : (pg_ofs ofs == 0) ≡ true = ground arith in
    let (table', e, enters) =
      segment_loop-Enters (r + z) n table inode ofs upage r z writable d (omega arith) total
        (omega arith) room low in
    (table', rw (a, b, c, lt→ltb ofs (2 ^ 31) (omega arith)) (rw (e, ◌>>=◌) refl), enters)
