-- ===== src/Pagedir/Mapping.antt =====
-- What `pagedir_set_page` maps, `pagedir_get_page` finds, until `pagedir_clear_page` unmaps it.
use cs439_project.Prelude.{
  ap, ◌∙◌, ℕ, ◌+◌, ◌-◌, ◌/◌, ◌%◌, ◌^◌, ◌≤◌, ◌<◌, Bool, true, false, ◌≡◌, ◌≢◌, ok, panic, arith,
  if◌then◌else◌, ◌==◌, ◌>>=◌, none, some, lt→ltb, le→leb, ==_refl, ==_ne, Bool-cases, inl, inr, ◌⊎◌,
}
use cs439_project.Pagedir.{
  Pagedir, Pte, phys_base, page_size, pg_ofs, pg_no, pd_no, lookup_page, lookup_page_create,
  set_entry, put_entry, add_table, pte_create_user, pagedir_set_page, pagedir_get_page,
  pagedir_clear_page, pagedir_is_dirty, change_entry,
}

-- A directory whose missing page tables hold no present entry.
abbrev pub IsTabled : Pagedir → Type 0
IsTabled pd = (n : ℕ) → pd.tables (n / 1024) ≡ false → (pd.entries n).present ≡ false

-- The asserts that `pagedir_set_page` makes of its arguments.
pub record IsMappable (init_ram_pages upage kpage : ℕ) : Type 0 where
  pub aligned : pg_ofs upage ≡ 0
  pub frame_aligned : pg_ofs kpage ≡ 0
  pub user : upage < phys_base
  pub kernel : phys_base ≤ kpage
  pub in_ram : (kpage - phys_base) / page_size < init_ram_pages

-- The frame and offset that an address of the page is translated to.
abbrev pub Translates : Pagedir → ℕ → ℕ → Type 0
Translates pd upage kpage =
    (ofs : ℕ) → ofs < page_size → pagedir_get_page pd (upage + ofs) ≡ ok (some (kpage + ofs))

-- Addresses of other pages are translated as before.
abbrev pub KeepsOthers : Pagedir → Pagedir → ℕ → Type 0
KeepsOthers pd pd' upage =
    (uaddr : ℕ)
    → uaddr < phys_base
    → pg_no uaddr ≢ pg_no upage
    → pagedir_get_page pd' uaddr ≡ pagedir_get_page pd uaddr

module _ (init_ram_pages : ℕ) (pd : Pagedir) (upage kpage : ℕ) (writable : Bool)
    (m : IsMappable init_ram_pages upage kpage) where
  asserted :
      (memory : Bool)
      → pagedir_set_page init_ram_pages memory pd upage kpage writable
        ≡ (lookup_page_create memory pd upage >>= λ found. set_entry upage kpage writable found)
  unfolding pagedir_set_page
  asserted memory = rw (
    m.aligned,
    m.frame_aligned,
    lt→ltb _ _ m.user,
    le→leb _ _ m.kernel,
    ◌>>=◌,
    lt→ltb _ _ m.in_ram,
  )

  set_in_table :
      (memory : Bool)
      → pd.tables (pd_no upage) ≡ true
      → (pd.entries (pg_no upage)).present ≡ false
      → pagedir_set_page init_ram_pages memory pd upage kpage writable
        ≡ ok (put_entry pd upage (pte_create_user kpage writable), true)
  unfolding lookup_page_create set_entry
  set_in_table memory t free = rw (asserted memory, lt→ltb _ _ m.user, t, ◌>>=◌, free)

  set_in_new_table :
      pd.tables (pd_no upage) ≡ false
      → pagedir_set_page init_ram_pages true pd upage kpage writable
        ≡ ok (put_entry (add_table pd upage) upage (pte_create_user kpage writable), true)
  unfolding lookup_page_create set_entry
  set_in_new_table t = rw (asserted true, lt→ltb _ _ m.user, t, ◌>>=◌)

  -- An entry put into a directory with its table is found, and no other entry changes.
  put_entry-Translates :
      (pd' : Pagedir)
      → pd'.tables (pd_no upage) ≡ true
      → Translates (put_entry pd' upage (pte_create_user kpage writable)) upage kpage
  unfolding pagedir_get_page lookup_page
  put_entry-Translates pd' t ofs small =
      let u : upage + ofs < phys_base = omega (arith, m.aligned, m.user) in
      let q : (upage + ofs) / 2 ^ 22 ≡ upage / 2 ^ 22 = omega (arith, m.aligned) in
      let n : (upage + ofs) / 4096 ≡ upage / 4096 = omega (arith, m.aligned) in
      let o : (upage + ofs) % 4096 ≡ ofs = omega (arith, m.aligned) in
      rw (lt→ltb _ _ u, q, t, n, ==_refl, o)

  -- `pagedir_set_page` on a page that is not mapped, whose page table is there or can be
  -- allocated, maps every address of the page to the frame and keeps the other pages.
  pub pagedir_set_page-Translates :
      (memory : Bool)
      → (pd.tables (pd_no upage) ≡ true) × ((pd.entries (pg_no upage)).present ≡ false)
        ⊎ (pd.tables (pd_no upage) ≡ false) × (memory ≡ true)
      → (pd' : Pagedir) × (pagedir_set_page init_ram_pages memory pd upage kpage writable
          ≡ ok (pd', true))
        × Translates pd' upage kpage
        × KeepsOthers pd pd' upage
  unfolding pagedir_get_page lookup_page
  pagedir_set_page-Translates memory (inl (t, free)) = (
    put_entry pd upage (pte_create_user kpage writable),
    set_in_table memory t free,
    put_entry-Translates pd t,
    λ uaddr h ne. rw (==_ne (pg_no uaddr) (pg_no upage) ne),
  )
  pagedir_set_page-Translates memory (inr (t, e)) = (
    put_entry (add_table pd upage) upage (pte_create_user kpage writable),
    rw e (set_in_new_table t),
    put_entry-Translates (add_table pd upage) (rw ==_refl),
    λ uaddr h ne. rw (==_ne (pg_no uaddr) (pg_no upage) ne) (others uaddr h),
  )
    where
      others :
          (uaddr : ℕ)
          → uaddr < phys_base
          → pagedir_get_page (add_table pd upage) uaddr ≡ pagedir_get_page pd uaddr
      others uaddr h = elim (Bool-cases (uaddr / 2 ^ 22 == upage / 2 ^ 22)) [
        | inl same ↦
            let q : uaddr / 2 ^ 22 ≡ upage / 2 ^ 22 = ground arith in
            let n : uaddr / 4096 / 1024 ≡ upage / 2 ^ 22 = omega arith in
            rw (same, n, ==_refl, q, t)
        | inr apart ↦
            let ne : uaddr / 4096 / 1024 ≢ upage / 2 ^ 22 = ground arith in rw (apart, ==_ne _ _ ne)
      ]

  -- Mapping a page that is mapped stops the kernel.
  pub pagedir_set_page_mapped :
      (memory : Bool)
      → pd.tables (pd_no upage) ≡ true
      → (pd.entries (pg_no upage)).present ≡ true
      → pagedir_set_page init_ram_pages memory pd upage kpage writable ≡ panic
  unfolding lookup_page_create set_entry
  pagedir_set_page_mapped memory t used = rw (asserted memory, lt→ltb _ _ m.user, t, ◌>>=◌, used)

change_some :
    (pd : Pagedir) (vpage : ℕ) (f : Pte → Pte)
    → pd.tables (pd_no vpage) ≡ true
    → change_entry pd vpage f ≡ put_entry pd vpage (f (pd.entries (pg_no vpage)))
unfolding lookup_page
change_some pd vpage f t = rw (change_entry, lookup_page, t)

change_none :
    (pd : Pagedir) (vpage : ℕ) (f : Pte → Pte)
    → pd.tables (pd_no vpage) ≡ false
    → change_entry pd vpage f ≡ pd
unfolding lookup_page
change_none pd vpage f t = rw (change_entry, lookup_page, t)

-- A page without a page table or with an entry that is not present is unmapped.
absent_page :
    (pd : Pagedir) (upage ofs : ℕ)
    → pg_ofs upage ≡ 0
    → upage < phys_base
    → ofs < page_size
    → (pd.tables (pd_no upage) ≡ false) ⊎ ((pd.entries (pg_no upage)).present ≡ false)
    → pagedir_get_page pd (upage + ofs) ≡ ok none
unfolding pagedir_get_page lookup_page
absent_page pd upage ofs aligned user small gone =
    let u : upage + ofs < phys_base = omega (arith, aligned, user) in
    let q : (upage + ofs) / 2 ^ 22 ≡ upage / 2 ^ 22 = omega (arith, aligned) in
    let n : (upage + ofs) / 4096 ≡ upage / 4096 = omega (arith, aligned) in
    rw (lt→ltb _ _ u, q, n)
      (elim gone [
        | inl t ↦ rw t
        | inr p ↦ elim (Bool-cases (pd.tables (pd_no upage))) [ inl t ↦ rw (t, p) | inr f ↦ rw f ]
      ])

abbrev unmap : Pte → Pte
unmap pte = if pte.present then record pte { present = false } else pte

unmap_present : (pte : Pte) → (unmap pte).present ≡ false
unmap_present pte = elim (Bool-cases pte.present) [ inl p ↦ rw p | inr n ↦ rw n ]

unmap_dirty : (pte : Pte) → (unmap pte).dirty ≡ pte.dirty
unmap_dirty pte = elim (Bool-cases pte.present) [ inl p ↦ rw p | inr n ↦ rw n ]

-- `pagedir_clear_page` makes every address of the page unmapped and keeps the page's dirty bit.
pub pagedir_clear_page_lem :
    (pd : Pagedir) (upage : ℕ)
    → pg_ofs upage ≡ 0
    → upage < phys_base
    → (pd' : Pagedir) × (pagedir_clear_page pd upage ≡ ok pd')
      × ((ofs : ℕ) → ofs < page_size → pagedir_get_page pd' (upage + ofs) ≡ ok none)
      × (pagedir_is_dirty pd' upage ≡ pagedir_is_dirty pd upage)
unfolding pagedir_clear_page pagedir_is_dirty lookup_page
pagedir_clear_page_lem pd upage aligned user = (
  cleared,
  rw (aligned, lt→ltb _ _ user),
  (λ ofs small. absent_page cleared upage ofs aligned user small gone),
  dirt,
)
  where
    cleared : Pagedir
    cleared = change_entry pd upage unmap

    gone :
        (cleared.tables (pd_no upage) ≡ false) ⊎ ((cleared.entries (pg_no upage)).present ≡ false)
    gone = elim (Bool-cases (pd.tables (pd_no upage))) [
      | inl t ↦
          inr
            (rw (change_some pd upage unmap t, ==_refl) (unmap_present (pd.entries (pg_no upage))))
      | inr f ↦ inl (rw (change_none pd upage unmap f) f)
    ]

    dirt : pagedir_is_dirty cleared upage ≡ pagedir_is_dirty pd upage
    dirt = elim (Bool-cases (pd.tables (pd_no upage))) [
      | inl t ↦
          ap (λ (d : Pagedir). pagedir_is_dirty d upage) (change_some pd upage unmap t)
          ∙ put_dirty t
      | inr f ↦ ap (λ (d : Pagedir). pagedir_is_dirty d upage) (change_none pd upage unmap f)
    ]
      where
        put_dirty :
            pd.tables (pd_no upage) ≡ true
            → pagedir_is_dirty (put_entry pd upage (unmap (pd.entries (pg_no upage)))) upage
              ≡ pagedir_is_dirty pd upage
        put_dirty t =
            rw (pagedir_is_dirty, lookup_page, t, ==_refl) (unmap_dirty (pd.entries (pg_no upage)))
