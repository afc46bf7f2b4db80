-- ===== src/Page/Table.antt =====
-- Setting, changing and clearing entries of the supplemental page table.
use cs439_project.Prelude.{
  ℕ, ◌%◌, Bool, true, false, [], ◌∷◌, ◌≡◌, refl, arith, if◌then◌else◌, ◌==◌, none, some, ==_refl,
  ==_ne, ℕ_discrete, Bool-cases, ◌&&◌, ◌↔◌, ◌∙◌, Option-cases, inl, inr,
}
use mathlib.Core.Option
use cs439_project.Pagedir.{page_size}
use cs439_project.Page.{
  Spte, Supdir, lookup_sup_page, delete, replace, supdir_set_page, modify, supdir_set_swap,
  swap_sys,
}

-- One entry for an address.
abbrev pub IsDistinct : Supdir → Type 0
IsDistinct [] = Unit
IsDistinct (e ∷ table) = (lookup_sup_page table e.vaddr ≡ none) × IsDistinct table

pub lookup-delete :
    (table : Supdir) (vaddr v : ℕ)
    → IsDistinct table
    → lookup_sup_page (delete table vaddr) v
      ≡ (if v == vaddr then none else lookup_sup_page table v)
unfolding lookup_sup_page delete
lookup-delete [] vaddr v d = ground arith
lookup-delete (e ∷ table) vaddr v d = ground (arith, lookup-delete table vaddr v d.1, d.0)

delete-IsDistinct :
    (table : Supdir) (vaddr : ℕ) → IsDistinct table → IsDistinct (delete table vaddr)
unfolding delete
delete-IsDistinct [] vaddr d = tt
delete-IsDistinct (e ∷ table) vaddr d = elim (Bool-cases (e.vaddr == vaddr)) [
  | inl t ↦ rw t d.1
  | inr f ↦
      rw f (lookup-delete table vaddr e.vaddr d.1 ∙ rw f d.0, delete-IsDistinct table vaddr d.1)
]

replace-IsDistinct : (table : Supdir) (e : Spte) → IsDistinct table → IsDistinct (replace table e)
replace-IsDistinct table e d =
    (lookup-delete table e.vaddr e.vaddr d ∙ rw ==_refl, delete-IsDistinct table e.vaddr d)

pub lookup-replace :
    (table : Supdir) (e : Spte) (v : ℕ)
    → IsDistinct table
    → lookup_sup_page (replace table e) v
      ≡ (if v == e.vaddr then some e else lookup_sup_page table v)
unfolding lookup_sup_page
lookup-replace table e v d = ground (arith, lookup-delete table e.vaddr v d)

-- The entry that `supdir_set_page` makes from its arguments.
abbrev pub new_entry : ℕ → ℕ → ℕ → ℕ → Bool → Spte
new_entry vaddr sector read_bytes location writable = record {
  writable = writable;
  location = location % 256;
  sector = sector;
  read_bytes = read_bytes;
  vaddr = vaddr;
}

-- `supdir_set_page` returns true if there is memory for an entry, or if the address has one
-- already: then the address has the entry given, every other address the one that it had, and no
-- address has two. Else it returns false and keeps the table.
pub supdir_set_page_lem :
    (memory : Bool) (table : Supdir) (vaddr sector read_bytes location : ℕ) (writable : Bool)
    → IsDistinct table
    → (table' : Supdir) × (done : Bool) × (supdir_set_page memory table vaddr sector read_bytes
          location writable
        ≡ (table', done))
      × IsDistinct table'
      × ((v : ℕ)
          → lookup_sup_page table' v ≡ (
              if done && v == vaddr
              then some (new_entry vaddr sector read_bytes location writable)
              else lookup_sup_page table v))
      × ((done ≡ false) ↔ ((memory ≡ false) × (lookup_sup_page table vaddr ≡ none)))
unfolding supdir_set_page
supdir_set_page_lem memory table vaddr sector read_bytes location writable d =
    elim (Option-cases (lookup_sup_page table vaddr)) [
      | inl absent ↦ elim (Bool-cases memory) [
        | inl m ↦ (
          replace table entry,
          true,
          rw (supdir_set_page, absent, m),
          replace-IsDistinct table entry d,
          λ v. lookup-replace table entry v d,
          (λ h. cc, λ h. cc (h.0)),
        )
        | inr m ↦ (
          table,
          false,
          rw (supdir_set_page, absent, m),
          d,
          λ v. refl,
          (λ h. (m, absent), λ h. refl),
        )
      ]
      | inr (old, present) ↦ (
        replace table entry,
        true,
        rw (supdir_set_page, present),
        replace-IsDistinct table entry d,
        λ v. lookup-replace table entry v d,
        (λ h. cc, λ h. cc (h.1)),
      )
    ]
  where
    entry : Spte
    entry = new_entry vaddr sector read_bytes location writable

lookup-modify :
    (table : Supdir) (vaddr v : ℕ) (f : Spte → Spte)
    → ((e : Spte) → (f e).vaddr ≡ e.vaddr)
    → lookup_sup_page (modify table vaddr f) v
      ≡ (if v == vaddr then Option.map f (lookup_sup_page table v) else lookup_sup_page table v)
unfolding lookup_sup_page modify
lookup-modify [] vaddr v f h = ground arith
lookup-modify (e ∷ table) vaddr v f h = ground (arith, lookup-modify table vaddr v f h, h e)

-- `supdir_set_swap` makes the entry of the address one for a page in the swap device, and keeps
-- all other entries; it returns false, and changes nothing, exactly if the address has no entry.
pub supdir_set_swap_lem :
    (table : Supdir) (vaddr swap_sector : ℕ)
    → (table' : Supdir) × (done : Bool) × (supdir_set_swap table vaddr swap_sector ≡ (table', done))
      × ((done ≡ false) ↔ (lookup_sup_page table vaddr ≡ none))
      × ((v : ℕ)
          → lookup_sup_page table' v ≡ (
              if v == vaddr
              then Option.map
                  (λ (e : Spte). record e {
                    location = swap_sys;
                    sector = swap_sector;
                    read_bytes = page_size;
                  })
                  (lookup_sup_page table v)
              else lookup_sup_page table v))
unfolding supdir_set_swap
supdir_set_swap_lem table vaddr swap_sector = elim (Option-cases (lookup_sup_page table vaddr)) [
  | inl absent ↦ (
    table,
    false,
    rw (supdir_set_swap, absent),
    (λ h. absent, λ h. refl),
    λ v. elim (ℕ_discrete v vaddr) [
      | yes p ↦ rw (p, ==_refl, absent)
      | no np ↦ rw (==_ne v vaddr np)
    ],
  )
  | inr (old, present) ↦ (
    modify table vaddr change,
    true,
    rw (supdir_set_swap, present),
    (λ h. cc, λ h. cc),
    λ v. lookup-modify table vaddr v change (λ e. refl),
  )
]
  where
    change : Spte → Spte
    change e = record e { location = swap_sys; sector = swap_sector; read_bytes = page_size }
