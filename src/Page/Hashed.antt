-- ===== src/Page/Hashed.antt =====
-- The supplemental page table in its hash table: `hash` and `less_than` of vm/page.c, and the hash
-- table's operations seen as those on the list of its entries.
use cs439_project.Prelude.{
  ℕ, ◌+◌, ◌≤◌, Bool, true, false, [], ◌∷◌, ◌≡◌, refl, ap, ◌∙◌, sym, Option, none, some,
  if◌then◌else◌, ltb, ◌==◌, ==_refl, ok, arith,
}
use cs439_project.Filesys.{word_bytes}
use cs439_project.Hash.{
  Keys, Hash, is_same, find_elem, hash_find, hash_replace, hash_delete, hash_elements, concat,
}
use cs439_project.Hash.Bytes.{hash_bytes}
use cs439_project.Hash.Chain.{IsLawful, count, find_elem-none}
use cs439_project.Hash.Buckets.{IsValid, view, concat-view}
use cs439_project.Hash.Map.{Updates, hash_find-view, hash_replace-Updates, hash_delete-Updates}
use cs439_project.Page.{Spte, Supdir, lookup_sup_page, replace, delete}
use cs439_project.Page.Table.{IsDistinct, lookup-replace, lookup-delete}

-- `hash`
abbrev pub spte_hash : Spte → ℕ
spte_hash e = hash_bytes (word_bytes (e.vaddr ∷ []))

-- `less_than`
abbrev pub less_than : Spte → Spte → Bool
less_than a b = ltb a.vaddr b.vaddr

abbrev pub spte_keys : Keys Spte
spte_keys = record { hash = spte_hash; less = less_than }

-- The entry that `lookup_sup_page` looks for.
abbrev pub probe : ℕ → Spte
probe vaddr = record { writable = false; location = 0; sector = 0; read_bytes = 0; vaddr = vaddr }

pub is_same-vaddr : (a b : Spte) → is_same spte_keys a b ≡ (a.vaddr == b.vaddr)
unfolding is_same
is_same-vaddr a b = ground arith

same_vaddr : (a b : Spte) → is_same spte_keys a b ≡ true → a.vaddr ≡ b.vaddr
same_vaddr a b s = let t = sym (is_same-vaddr a b) ∙ s in ground arith

pub spte_keys-IsLawful : IsLawful spte_keys
spte_keys-IsLawful = record {
  same_refl = λ a. is_same-vaddr a a ∙ ==_refl a.vaddr;
  same_left = λ a b c s.
      is_same-vaddr a c ∙ ap (λ v. v == c.vaddr) (same_vaddr a b s) ∙ sym (is_same-vaddr b c);
  same_hash = λ a b s. ap (λ v. hash_bytes (word_bytes (v ∷ []))) (same_vaddr a b s);
}

find_elem-lookup :
    (table : Supdir) (e : Spte) → find_elem spte_keys table e ≡ lookup_sup_page table e.vaddr
unfolding find_elem lookup_sup_page
find_elem-lookup [] e = refl
find_elem-lookup (i ∷ table) e = rw (is_same-vaddr i e, find_elem-lookup table e) refl

once-IsDistinct : (table : Supdir) → ((q : Spte) → count spte_keys q table ≤ 1) → IsDistinct table
once-IsDistinct [] once = tt
once-IsDistinct (e ∷ table) once = (
  sym (find_elem-lookup table e) ∙ find_elem-none spte_keys e table (omega (arith, here)),
  once-IsDistinct table (λ q. omega (arith, once q)),
)
  where
    here : 1 + count spte_keys e table ≤ 1
    here = ground (arith, once e, spte_keys-IsLawful.same_refl e)

-- The table read as a list: valid, and with the same entries as the list.
abbrev pub ReadsAs : Hash Spte → Supdir → Type 0
ReadsAs h table =
    IsValid spte_keys h
    × IsDistinct (hash_elements h)
    × ((v : ℕ) → lookup_sup_page (hash_elements h) v ≡ lookup_sup_page table v)

module _ (h : Hash Spte) (valid : IsValid spte_keys h) where
  pub elements-view : (q : Spte) → lookup_sup_page (hash_elements h) q.vaddr ≡ view spte_keys h q
  unfolding hash_elements
  elements-view q =
      sym (find_elem-lookup (concat h.buckets) q) ∙ (concat-view spte_keys h q valid).0

  pub elements-IsDistinct : IsDistinct (hash_elements h)
  unfolding hash_elements
  elements-IsDistinct =
      once-IsDistinct (concat h.buckets) (λ q. (concat-view spte_keys h q valid).1)

module _ (h : Hash Spte) (valid : IsValid spte_keys h) where
  -- The hash table of a process finds, replaces and deletes entries as the list of its entries
  -- does: `hash_find` as `lookup_sup_page`, and after `hash_replace` and `hash_delete`, with memory
  -- for another array or without, every address has the entry that it has in the changed list.
  pub hash_supdir :
      (memory : Bool) (e : Spte)
      → (hash_find spte_keys h e ≡ ok (lookup_sup_page (hash_elements h) e.vaddr))
        × ((h' : Hash Spte) × (old : Option Spte) × (hash_replace spte_keys memory h e
              ≡ ok (h', old))
            × ReadsAs h' (replace (hash_elements h) e))
        × ((h' : Hash Spte) × (old : Option Spte) × (hash_delete spte_keys memory h e
              ≡ ok (h', old))
            × ReadsAs h' (delete (hash_elements h) e.vaddr))
  hash_supdir memory e = (
    hash_find-view spte_keys h e valid ∙ ap ok (sym (elements-view h valid e)),
    replaced (hash_replace-Updates spte_keys spte_keys-IsLawful memory h e valid),
    deleted (hash_delete-Updates spte_keys spte_keys-IsLawful memory h e valid),
  )
    where
      table : Supdir
      table = hash_elements h

      agrees :
          (o : Option Spte) (v : ℕ)
          → (if is_same spte_keys e (probe v) then o else view spte_keys h (probe v))
            ≡ (if v == e.vaddr then o else lookup_sup_page table v)
      agrees o v =
          let turned : (e.vaddr == v) ≡ (v == e.vaddr) = ground arith in
          rw (is_same-vaddr e (probe v), turned, elements-view h valid (probe v)) refl

      replaced :
          {answer : Option Spte} {n : ℕ}
          → Updates spte_keys (hash_replace spte_keys memory h e) h e answer (some e) n
          → (h' : Hash Spte) × (old : Option Spte) × (hash_replace spte_keys memory h e
              ≡ ok (h', old))
            × ReadsAs h' (replace table e)
      replaced {answer} (h', run, valid', look, size) = (
        h',
        answer,
        run,
        (
          valid',
          elements-IsDistinct h' valid',
          λ v.
              elements-view h' valid' (probe v)
              ∙ look (probe v)
              ∙ agrees (some e) v
              ∙ sym (lookup-replace table e v (elements-IsDistinct h valid)),
        ),
      )

      deleted :
          {answer : Option Spte} {n : ℕ}
          → Updates spte_keys (hash_delete spte_keys memory h e) h e answer none n
          → (h' : Hash Spte) × (old : Option Spte) × (hash_delete spte_keys memory h e
              ≡ ok (h', old))
            × ReadsAs h' (delete table e.vaddr)
      deleted {answer} (h', run, valid', look, size) = (
        h',
        answer,
        run,
        (
          valid',
          elements-IsDistinct h' valid',
          λ v.
              elements-view h' valid' (probe v)
              ∙ look (probe v)
              ∙ agrees none v
              ∙ sym (lookup-delete table e.vaddr v (elements-IsDistinct h valid)),
        ),
      )
