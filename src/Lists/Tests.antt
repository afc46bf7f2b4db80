-- ===== src/Lists/Tests.antt =====
-- A list of three elements at the addresses 100, 200 and 300; the list itself is at 16.
use cs439_project.Prelude.{ℕ, List, [], ◌∷◌, ◌≡◌, refl, ok, ltb, arith}
use cs439_project.Lists.{
  Links, list_size, put, list_insert, list_remove, list_next, list_prev, list_empty, list_splice,
  splice_range,
}
use cs439_project.Lists.Chain.{Absent, Chain}
use cs439_project.Lists.Insert.{IsList, list_insert-IsList}
use cs439_project.Lists.Ends.{list_size-length}
use cs439_project.Lists.Remove.{list_remove-IsList}
use cs439_project.Lists.Sort.{
  list_sort, sort_loop, pass_loop, find_end_of_run, run_loop, inplace_merge, is_sorted,
  is_sorted_loop, merge_loop, list_reverse, turn_loop,
}

-- The links of a list of elements from p on.
abbrev linked : Links → ℕ → List ℕ → ℕ → Links
linked s p [] q = record { prev = put s.prev q p; next = put s.next p q }
linked s p (x ∷ xs) q = linked (record { prev = put s.prev x p; next = put s.next p x }) x xs q

abbrev three : Links
three = linked (record { prev = λ a. 0; next = λ a. 0 }) 16 (300 ∷ 100 ∷ 200 ∷ []) 24

three-IsList : IsList three 16 (300 ∷ 100 ∷ 200 ∷ [])
three-IsList = record {
  head_prev = refl;
  tail_next = refl;
  chain = (refl, refl, (refl, refl, (refl, refl, (refl, refl))));
  distinct = ground arith;
}

-- Sorted by address, the list holds 100, 200 and 300.
list_sort-three :
    (s : Links) × (list_sort ltb 9 three 16 ≡ ok s) × (Chain s 16 (100 ∷ 200 ∷ 300 ∷ []) 24)
unfolding list_sort sort_loop pass_loop find_end_of_run run_loop list_next list_prev inplace_merge
    is_sorted is_sorted_loop merge_loop list_splice splice_range
list_sort-three = (_, refl, (refl, refl, (refl, refl, (refl, refl, (refl, refl)))))

list_reverse-three :
    (s : Links) × (list_reverse 9 three 16 ≡ ok s) × (Chain s 16 (200 ∷ 100 ∷ 300 ∷ []) 24)
unfolding list_reverse turn_loop list_empty
list_reverse-three = (_, refl, (refl, refl, (refl, refl, (refl, refl, (refl, refl)))))

list_insert-IsList_example :
    (s' : Links) × (list_insert three 100 400 ≡ ok s')
    × IsList s' 16 (300 ∷ 400 ∷ 100 ∷ 200 ∷ [])
    × ((a : ℕ)
        → Absent a (400 ∷ 16 ∷ 24 ∷ 300 ∷ 100 ∷ 200 ∷ [])
        → (s'.next a ≡ three.next a) × (s'.prev a ≡ three.prev a))
list_insert-IsList_example =
    list_insert-IsList three 16 (300 ∷ []) (100 ∷ 200 ∷ []) 400 three-IsList (ground arith)

list_remove-IsList_example :
    (s' : Links) × (list_remove three 100 ≡ ok (s', 200))
    × IsList s' 16 (300 ∷ 200 ∷ [])
    × ((a : ℕ)
        → Absent a (16 ∷ 24 ∷ 300 ∷ 200 ∷ [])
        → (s'.next a ≡ three.next a) × (s'.prev a ≡ three.prev a))
list_remove-IsList_example = list_remove-IsList three 16 (300 ∷ []) 100 (200 ∷ []) three-IsList

list_size-length_example : list_size 4 three 16 ≡ ok 3
list_size-length_example =
    list_size-length three 16 (300 ∷ 100 ∷ 200 ∷ []) 4 three-IsList (omega arith)
