-- ===== src/Hash/Tests.antt =====
-- A table of three pages in four buckets.
use cs439_project.Prelude.{
  suc, ℕ, ◌^◌, ◌+◌, ◌-◌, ◌/◌, ◌<◌, ◌≤◌, max, true, false, [], ◌∷◌, ◌≡◌, refl, ok, Option, none,
  some, arith,
}
use cs439_project.Hash.{
  Hash, hash_replace, hash_delete, hash_elements, hash_size, is_same, ideal_cnt, hash_find,
  empty_buckets, find_bucket, find_elem, rehash, power_loop,
}
use cs439_project.Hash.Bytes.{hash_string, string_loop}
use cs439_project.Hash.Buckets.{IsValid, view, empty-IsValid, insert-IsValid}
use cs439_project.Hash.Rehash.{ideal_cnt-power}
use cs439_project.Hash.Map.{Updates, is_there, hash_replace-Updates, hash_delete-Updates}
use cs439_project.Page.{Spte, lookup_sup_page, replace, delete}
use cs439_project.Page.Hashed.{spte_keys, spte_keys-IsLawful, probe, ReadsAs, hash_supdir}

hash_string-abc : hash_string (97 ∷ 98 ∷ 99 ∷ 0 ∷ []) ≡ ok 1134309195
unfolding hash_string string_loop
hash_string-abc = refl

abbrev code : Spte
code = record (probe 0x8048000) { location = 3 }

abbrev stack : Spte
stack = record (probe 0xbffff000) { writable = true }

abbrev none_yet : Hash Spte
none_yet = record { elem_cnt = 0; bucket_cnt = 4; buckets = empty_buckets 4 }

abbrev one : Hash Spte
one = record { elem_cnt = 1; bucket_cnt = 4; buckets = [] ∷ (code ∷ []) ∷ [] ∷ [] ∷ [] }

-- The table after a process has entered two pages.
abbrev pages : Hash Spte
pages = record { elem_cnt = 2; bucket_cnt = 4; buckets = [] ∷ (code ∷ []) ∷ [] ∷ (stack ∷ []) ∷ [] }

hash_replace-stack : hash_replace spte_keys true one stack ≡ ok (pages, none)
unfolding hash_replace find_bucket find_elem rehash ideal_cnt power_loop
hash_replace-stack = refl

one-IsValid : IsValid spte_keys one
unfolding view find_elem
one-IsValid =
    insert-IsValid spte_keys spte_keys-IsLawful none_yet (empty-IsValid spte_keys 4 (omega arith))
      code 1 refl refl

pages-IsValid : IsValid spte_keys pages
unfolding view find_elem is_same
pages-IsValid = insert-IsValid spte_keys spte_keys-IsLawful one one-IsValid stack 2 refl refl

hash_replace-Updates_example :
    Updates spte_keys
      (hash_replace spte_keys true pages stack)
      pages
      stack
      (view spte_keys pages stack)
      (some stack)
      (hash_size pages + 1 - is_there spte_keys (view spte_keys pages stack))
hash_replace-Updates_example =
    hash_replace-Updates spte_keys spte_keys-IsLawful true pages stack pages-IsValid

hash_delete-Updates_example :
    Updates spte_keys
      (hash_delete spte_keys false pages code)
      pages
      code
      (view spte_keys pages code)
      none
      (hash_size pages - is_there spte_keys (view spte_keys pages code))
hash_delete-Updates_example =
    hash_delete-Updates spte_keys spte_keys-IsLawful false pages code pages-IsValid

ideal_cnt-power_example :
    (k : ℕ) × (ideal_cnt 27 ≡ 2 ^ k) × (2 ^ k ≤ max 4 (27 / 2)) × (max 4 (27 / 2) < 2 ^ suc k)
ideal_cnt-power_example = ideal_cnt-power 27

hash_supdir_example :
    (hash_find spte_keys pages code ≡ ok (lookup_sup_page (hash_elements pages) 0x8048000))
    × ((h' : Hash Spte) × (old : Option Spte) × (hash_replace spte_keys true pages code
          ≡ ok (h', old))
        × ReadsAs h' (replace (hash_elements pages) code))
    × ((h' : Hash Spte) × (old : Option Spte) × (hash_delete spte_keys true pages code
          ≡ ok (h', old))
        × ReadsAs h' (delete (hash_elements pages) 0x8048000))
hash_supdir_example = hash_supdir pages pages-IsValid true code
