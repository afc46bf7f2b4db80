-- ===== src/Hash/Map.antt =====
-- A hash table is a finite map: what its operations do to what it holds.
use cs439_project.Prelude.{
  ℕ, ◌+◌, ◌-◌, ◌<◌, Bool, List, [], ◌∷◌, ◌≡◌, refl, ap, ◌∙◌, sym, subst, Option, none, some,
  if◌then◌else◌, inl, inr, Option-cases, Bool-cases, Outcome, ok, ◌>>=◌, length, arith,
}
use cs439_project.Hash.{
  Keys, Hash, is_same, find_elem, unlink, concat, rehash, insert_elem, bucket_idx, hash_insert,
  hash_replace, hash_find, hash_delete, hash_size,
}
use cs439_project.Hash.Chain.{IsLawful}
use cs439_project.Hash.Buckets.{
  IsValid, home, view, find_bucket-home, concat-view, rewrite, home-rewrite, insert-IsValid,
  view-insert, unlink-IsValid, view-unlink, view_congr,
}
use cs439_project.Hash.Rehash.{Keeps, rehash-Keeps}

module _ {A : Type 0} (k : Keys A) where
  -- The call returns the answer and a valid table of n elements, which holds o for the elements
  -- that are the same as e, and what it held before for all others.
  abbrev pub Updates : Outcome (Hash A × Option A) → Hash A → A → Option A → Option A → ℕ → Type 0
  Updates outcome h e answer o n =
      (h' : Hash A) × (outcome ≡ ok (h', answer))
      × IsValid k h'
      × ((q : A) → view k h' q ≡ (if is_same k e q then o else view k h q))
      × (hash_size h' ≡ n)

  abbrev pub is_there : Option A → ℕ
  is_there none = 0
  is_there (some a) = 1

  -- `hash_find` in a valid table returns the element that is the same, if the table holds one.
  pub hash_find-view : (h : Hash A) (e : A) → IsValid k h → hash_find k h e ≡ ok (view k h e)
  unfolding hash_find view
  hash_find-view h e valid = rw (find_bucket-home k h e valid) refl

  module _ (law : IsLawful k) (memory : Bool) (h : Hash A) (e : A) (valid : IsValid k h) where
    some_element : (c : List A) (old : A) → find_elem k c e ≡ some old → 0 < length c
    unfolding find_elem
    some_element [] old h = cc
    some_element (i ∷ c) old h = omega arith

    counted_once : (old : A) → view k h e ≡ some old → hash_size h - 1 + 1 ≡ hash_size h
    counted_once old there =
        let found = (concat-view k h e valid).0 ∙ there in
        omega (arith, some_element (concat h.buckets) old found, valid.counted)

    -- A changed table goes through `rehash`.
    rehashed :
        (h1 : Hash A) (o answer : Option A) (n : ℕ)
        → IsValid k h1
        → ((q : A) → view k h1 q ≡ (if is_same k e q then o else view k h q))
        → hash_size h1 ≡ n
        → Updates (rehash k memory h1 >>= λ h'. ok (h', answer)) h e answer o n
    rehashed h1 o answer n valid1 look size = go (rehash-Keeps k law memory h1 valid1)
      where
        go :
            Keeps k law (rehash k memory h1) h1
            → Updates (rehash k memory h1 >>= λ h'. ok (h', answer)) h e answer o n
        go (h', run, valid', cnt, same) =
            (h', rw run refl, valid', λ q. same q ∙ look q, cnt ∙ size)

    inserted :
        view k h e ≡ none
        → Updates
            (rehash k memory (insert_elem k h (bucket_idx k h.bucket_cnt e) (home k h e) e)
              >>= λ h'. ok (h', none))
            h
            e
            none
            (some e)
            (hash_size h + 1)
    inserted absent =
        rehashed (rewrite k h e (e ∷ home k h e) (hash_size h + 1)) (some e) none (hash_size h + 1)
          (insert-IsValid k law h valid e (hash_size h + 1) refl absent)
          (view-insert k law h valid e (hash_size h + 1)) refl

    module _ (old : A) (there : view k h e ≡ some old) where
      abbrev cut : Hash A
      cut = rewrite k h e (unlink k (home k h e) e) (hash_size h - 1)

      cut-IsValid : IsValid k cut
      cut-IsValid =
          unlink-IsValid k law h valid e (hash_size h - 1) old (counted_once old there) there

      view-cut : (q : A) → view k cut q ≡ (if is_same k e q then none else view k h q)
      view-cut = view-unlink k law h valid e (hash_size h - 1)

      deleted :
          Updates
            (rehash k memory cut >>= λ h'. ok (h', some old))
            h
            e
            (some old)
            none
            (hash_size h - 1)
      deleted = rehashed cut none (some old) (hash_size h - 1) cut-IsValid view-cut refl

      abbrev filled : Hash A
      filled = rewrite k cut e (e ∷ unlink k (home k h e) e) (hash_size h - 1 + 1)

      filled_path : rewrite k cut e (e ∷ home k cut e) (hash_size h - 1 + 1) ≡ filled
      filled_path =
          ap (λ c. rewrite k cut e (e ∷ c) (hash_size h - 1 + 1))
            (home-rewrite k h valid e (unlink k (home k h e) e) (hash_size h - 1))

      twice :
          (q : A)
          → (if is_same k e q then some e else view k cut q)
            ≡ (if is_same k e q then some e else view k h q)
      twice q = elim (Bool-cases (is_same k e q)) [
        | inl s ↦ rw s refl
        | inr d ↦ rw d (view-cut q ∙ rw d refl)
      ]

      replaced :
          Updates
            (rehash k memory filled >>= λ h'. ok (h', some old))
            h
            e
            (some old)
            (some e)
            (hash_size h)
      replaced =
          rehashed filled (some e) (some old) (hash_size h)
            (subst (IsValid k) filled_path (
              insert-IsValid k law cut cut-IsValid e (hash_size h - 1 + 1) refl
                (view-cut e ∙ rw (law.same_refl e) refl)))
            (λ q.
              subst (λ t. view k t q ≡ (if is_same k e q then some e else view k h q)) filled_path
                (view-insert k law cut cut-IsValid e (hash_size h - 1 + 1) q ∙ twice q))
            (counted_once old there)

    restate :
        {outcome outcome' : Outcome (Hash A × Option A)} {answer answer' : Option A} {n n' : ℕ}
        (o : Option A)
        → outcome ≡ outcome'
        → answer ≡ answer'
        → n ≡ n'
        → Updates outcome' h e answer' o n'
        → Updates outcome h e answer o n
    restate o run a size (h', eq, valid', look, cnt) =
        (h', run ∙ eq ∙ ap (λ x. ok (h', x)) (sym a), valid', look, cnt ∙ sym size)

    -- `hash_insert` into a valid table, with or without memory for another array, inserts the
    -- element if there is none that is the same, and else returns that one and keeps what the
    -- table holds.
    pub hash_insert-Updates :
        Updates
          (hash_insert k memory h e)
          h
          e
          (view k h e)
          (elim (view k h e) [ none ↦ some e | some old ↦ some old ])
          (hash_size h + 1 - is_there (view k h e))
    unfolding hash_insert view
    hash_insert-Updates = elim (Option-cases (view k h e)) [
      | inl absent ↦ rw absent (
          restate _ (rw (find_bucket-home k h e valid, ◌>>=◌, absent) refl) refl (omega arith)
            (inserted absent))
      | inr (old, there) ↦ rw there (
          restate _ (rw (find_bucket-home k h e valid, ◌>>=◌, there) refl) refl (omega arith)
            (rehashed h (some old) (some old) (hash_size h) valid (kept old there) refl))
    ]
      where
        kept :
            (old : A)
            → view k h e ≡ some old
            → (q : A) → view k h q ≡ (if is_same k e q then some old else view k h q)
        kept old there q = elim (Bool-cases (is_same k e q)) [
          | inl s ↦ rw s (sym (view_congr k law h valid e q s) ∙ there)
          | inr d ↦ rw d refl
        ]

    -- `hash_replace` in a valid table, with or without memory for another array, puts the element
    -- in place of one that is the same, which it returns, or inserts it; all other elements stay.
    -- This is for keys that are lawful, as those of the supplemental page
    -- table are and those of the frame table are not: two elements are the same if neither is less
    -- than the other, this is an equivalence, and elements that are the same have the same hash.
    pub hash_replace-Updates :
        Updates
          (hash_replace k memory h e)
          h
          e
          (view k h e)
          (some e)
          (hash_size h + 1 - is_there (view k h e))
    unfolding hash_replace view
    hash_replace-Updates = elim (Option-cases (view k h e)) [
      | inl absent ↦
          restate _ (rw (find_bucket-home k h e valid, ◌>>=◌, absent) refl) absent
            (rw absent (omega arith)) (inserted absent)
      | inr (old, there) ↦
          restate _ (rw (find_bucket-home k h e valid, ◌>>=◌, there) refl) there
            (rw there (omega arith)) (replaced old there)
    ]

    -- `hash_delete` in a valid table, with or without memory for another array, takes the element
    -- that is the same out and returns it, or returns NULL if there is none; all others stay.
    -- This is for keys that are lawful, as those of the supplemental page
    -- table are and those of the frame table are not: two elements are the same if neither is less
    -- than the other, this is an equivalence, and elements that are the same have the same hash.
    pub hash_delete-Updates :
        Updates
          (hash_delete k memory h e)
          h
          e
          (view k h e)
          none
          (hash_size h - is_there (view k h e))
    unfolding hash_delete view
    hash_delete-Updates = elim (Option-cases (view k h e)) [
      | inl absent ↦ (
        h,
        rw (find_bucket-home k h e valid, ◌>>=◌, absent) refl,
        valid,
        missing absent,
        rw absent (omega arith),
      )
      | inr (old, there) ↦
          restate _ (rw (find_bucket-home k h e valid, ◌>>=◌, there) refl) there (rw there refl)
            (deleted old there)
    ]
      where
        missing :
            view k h e ≡ none → (q : A) → view k h q ≡ (if is_same k e q then none else view k h q)
        missing absent q = elim (Bool-cases (is_same k e q)) [
          | inl s ↦ rw s (sym (view_congr k law h valid e q s) ∙ absent)
          | inr d ↦ rw d refl
        ]
