-- ===== src/Hash/Chain.antt =====
-- One bucket of a hash table: finding an element, taking it out, and how many elements are the same.
use cs439_project.Prelude.{
  ℕ, ◌+◌, ◌-◌, ◌≤◌, true, List, [], ◌∷◌, ◌++◌, ◌≡◌, refl, ◌∙◌, Option, none, some, if◌then◌else◌,
  length, arith,
}
use cs439_project.Hash.{Keys, is_same, find_elem, unlink}

-- The functions of a table agree: the same elements have the same hash, and being the same is an
-- equivalence.
pub record IsLawful {A : Type 0} (k : Keys A) : Type 0 where
  pub same_refl : (a : A) → is_same k a a ≡ true
  pub same_left : (a b c : A) → is_same k a b ≡ true → is_same k a c ≡ is_same k b c
  pub same_hash : (a b : A) → is_same k a b ≡ true → k.hash a ≡ k.hash b

abbrev pub or_else : {A : Type 0} → Option A → Option A → Option A
or_else none o = o
or_else (some a) o = some a

module _ {A : Type 0} (k : Keys A) where
  pub same_comm : (a b : A) → is_same k a b ≡ is_same k b a
  unfolding is_same
  same_comm a b = ground arith

  abbrev pub count : A → List A → ℕ
  count q [] = 0
  count q (e ∷ c) = (if is_same k e q then 1 else 0) + count q c

  pub count-append : (q : A) (b c : List A) → count q (b ++ c) ≡ count q b + count q c
  count-append q [] c = omega arith
  count-append q (e ∷ b) c = omega (arith, count-append q b c)

  pub find_elem-append :
      (q : A) (b c : List A) → find_elem k (b ++ c) q ≡ or_else (find_elem k b q) (find_elem k c q)
  unfolding find_elem
  find_elem-append q [] c = refl
  find_elem-append q (e ∷ b) c = ground (arith, find_elem-append q b c)

  pub find_elem-none : (q : A) (c : List A) → count q c ≡ 0 → find_elem k c q ≡ none
  unfolding find_elem
  find_elem-none q [] h = refl
  find_elem-none q (e ∷ c) h = ground (arith, find_elem-none q c)

  pub count_zero : (q : A) (c : List A) → find_elem k c q ≡ none → count q c ≡ 0
  unfolding find_elem
  count_zero q [] h = refl
  count_zero q (e ∷ c) h = ground (arith, count_zero q c)

  module _ (law : IsLawful k) where
    pub same_right : (a b c : A) → is_same k a b ≡ true → is_same k c a ≡ is_same k c b
    same_right a b c h = same_comm c a ∙ law.same_left a b c h ∙ same_comm b c

    pub count_congr : (a b : A) (c : List A) → is_same k a b ≡ true → count a c ≡ count b c
    count_congr a b [] h = refl
    count_congr a b (e ∷ c) h = rw (same_right a b e h, count_congr a b c h) refl

    pub find_elem_congr :
        (a b : A) (c : List A) → is_same k a b ≡ true → find_elem k c a ≡ find_elem k c b
    unfolding find_elem
    find_elem_congr a b [] h = refl
    find_elem_congr a b (e ∷ c) h = rw (same_right a b e h, find_elem_congr a b c h) refl

    pub count-unlink :
        (q e : A) (c : List A)
        → count q (unlink k c e) ≡ (if is_same k e q then count q c - 1 else count q c)
    unfolding unlink
    count-unlink q e [] = ground arith
    count-unlink q e (i ∷ c) =
        ground (arith, count-unlink q e c, law.same_left i e q, same_right e q i)

    pub find_elem-unlink :
        (q e : A) (c : List A)
        → count q c ≤ 1
        → find_elem k (unlink k c e) q ≡ (if is_same k e q then none else find_elem k c q)
    unfolding unlink find_elem
    find_elem-unlink q e [] h = ground arith
    find_elem-unlink q e (i ∷ c) h =
        ground
          (arith, find_elem-unlink q e c, law.same_left i e q, find_elem-none q c, same_right e q i)

  pub length-unlink :
      (e old : A) (c : List A) → find_elem k c e ≡ some old → length (unlink k c e) + 1 ≡ length c
  unfolding unlink find_elem
  length-unlink e old [] h = cc
  length-unlink e old (i ∷ c) h = ground (arith, length-unlink e old c)
