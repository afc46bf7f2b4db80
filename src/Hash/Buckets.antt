-- ===== src/Hash/Buckets.antt =====
-- The buckets of a hash table: where elements stand, what the table holds, and the change of one
-- bucket.
use cs439_project.Prelude.{
  ℕ, zero, suc, ◌+◌, ◌-◌, ◌≤◌, ◌<◌, true, false, List, [], ◌∷◌, ◌≡◌, ◌≢◌, refl, ap, ◌∙◌, sym,
  Option, none, some, if◌then◌else◌, ◌==◌, ==_refl, ==_ne, ℕ_discrete, ok, length, get_or, set,
  length-set, length-append, length-replicate, get_or-set_self, get_or-set_ne, get_or-replicate,
  get_elem?-eq-get_or, Bool-cases, inl, inr, arith,
}
use cs439_project.Prelude.Bits.{bit_and-le}
use cs439_project.Hash.{
  Keys, Hash, is_same, bucket_idx, find_bucket, find_elem, unlink, concat, empty_buckets,
}
use cs439_project.Hash.Chain.{
  IsLawful, or_else, count, count-append, find_elem-append, find_elem-none, count_zero, count_congr,
  find_elem_congr, count-unlink, find_elem-unlink, length-unlink,
}

module _ {A : Type 0} (k : Keys A) where
  pub bucket_idx-lt : (n : ℕ) (e : A) → 0 < n → bucket_idx k n e < n
  bucket_idx-lt n e h = omega (arith, bit_and-le (k.hash e) (n - 1))

  -- The bucket that an element belongs in.
  abbrev pub home : Hash A → A → List A
  home h e = get_or h.buckets (bucket_idx k h.bucket_cnt e) []

  -- No element twice, and each in the bucket that its hash says.
  abbrev pub IsPlaced : ℕ → List (List A) → Type 0
  IsPlaced n bs =
      (q : A) (i : ℕ)
      → (count k q (get_or bs i []) ≤ 1) × (bucket_idx k n q ≢ i → count k q (get_or bs i []) ≡ 0)

  -- The array has its size, elements are in place, and are as many as the counter says.
  pub record IsValid (h : Hash A) : Type 0 where
    pub width : length h.buckets ≡ h.bucket_cnt
    pub some_bucket : 0 < h.bucket_cnt
    pub placed : IsPlaced h.bucket_cnt h.buckets
    pub counted : length (concat h.buckets) ≡ h.elem_cnt

  -- What the table holds: the element that is the same as a given one.
  unfoldable pub view : Hash A → A → Option A
  view h q = find_elem k (home h q) q

  pub find_bucket-home :
      (h : Hash A) (e : A)
      → IsValid h
      → find_bucket k h e ≡ ok (bucket_idx k h.bucket_cnt e, home h e)
  unfolding find_bucket
  find_bucket-home h e valid =
      let lt : bucket_idx k h.bucket_cnt e < h.bucket_cnt =
        bucket_idx-lt h.bucket_cnt e valid.some_bucket in
      rw
        (get_elem?-eq-get_or h.buckets (bucket_idx k h.bucket_cnt e) []
          (omega (arith, lt, valid.width)))
        refl

  length-concat-set :
      (bs : List (List A)) (i : ℕ) (c : List A)
      → i < length bs
      → length (concat (set bs i c)) + length (get_or bs i []) ≡ length (concat bs) + length c
  length-concat-set [] i c h = absurd (omega arith)
  length-concat-set (b ∷ bs) zero c h = rw (length-append, length-append) (omega arith)
  length-concat-set (b ∷ bs) (suc i) c h =
      rw (length-append, length-append) (omega (arith, length-concat-set bs i c (omega arith)))

  count-concat_zero :
      (q : A) (bs : List (List A))
      → ((i : ℕ) → count k q (get_or bs i []) ≡ 0)
      → count k q (concat bs) ≡ 0
  count-concat_zero q [] h = refl
  count-concat_zero q (b ∷ bs) h =
      rw count-append (omega (arith, h 0, count-concat_zero q bs (λ i. h (suc i))))

  -- All elements that are the same as q stand in one bucket, so searching the whole array is
  -- searching that bucket.
  one_bucket :
      (q : A) (bs : List (List A)) (j : ℕ)
      → ((i : ℕ) → j ≢ i → count k q (get_or bs i []) ≡ 0)
      → (find_elem k (concat bs) q ≡ find_elem k (get_or bs j []) q)
        × (count k q (concat bs) ≡ count k q (get_or bs j []))
  unfolding find_elem
  one_bucket q [] j h = (refl, refl)
  one_bucket q (b ∷ bs) zero h =
      let rest : count k q (concat bs) ≡ 0 =
        count-concat_zero q bs (λ i. h (suc i) (λ e. omega arith)) in
      let gone : find_elem k (concat bs) q ≡ none = find_elem-none k q (concat bs) rest in
      (
        rw (find_elem-append k q b (concat bs), gone) (or_none (find_elem k b q)),
        rw (count-append k q b (concat bs), rest) (omega arith),
      )
    where
      or_none : (o : Option A) → or_else o none ≡ o
      or_none none = refl
      or_none (some a) = refl
  one_bucket q (b ∷ bs) (suc j) h =
      let here : count k q b ≡ 0 = h 0 (λ e. omega arith) in
      let gone : find_elem k b q ≡ none = find_elem-none k q b here in
      let (found, counted) = one_bucket q bs j (λ i ne. h (suc i) (λ e. ne (omega arith))) in
      (
        rw (find_elem-append k q b (concat bs), gone) found,
        rw (count-append k q b (concat bs), here) (omega (arith, counted)),
      )

  pub concat-view :
      (h : Hash A) (q : A)
      → IsValid h
      → (find_elem k (concat h.buckets) q ≡ view h q) × (count k q (concat h.buckets) ≤ 1)
  unfolding view
  concat-view h q valid =
      let (found, counted) =
        one_bucket q h.buckets (bucket_idx k h.bucket_cnt q) (λ i. (valid.placed q i).1) in
      (found, omega (arith, counted, (valid.placed q (bucket_idx k h.bucket_cnt q)).0))

  -- The home bucket of e is replaced by c, and the counter by n.
  abbrev pub rewrite : Hash A → A → List A → ℕ → Hash A
  rewrite h e c n = record h {
    elem_cnt = n;
    buckets = set h.buckets (bucket_idx k h.bucket_cnt e) c;
  }

  module _ (h : Hash A) (valid : IsValid h) (e : A) where
    abbrev idx : ℕ
    idx = bucket_idx k h.bucket_cnt e

    within : idx < length h.buckets
    within = omega (arith, bucket_idx-lt h.bucket_cnt e valid.some_bucket, valid.width)

    pub home-rewrite : (c : List A) (n : ℕ) → home (rewrite h e c n) e ≡ c
    home-rewrite c n = get_or-set_self h.buckets idx c [] within

    pub rewrite-IsValid :
        (c : List A) (n : ℕ)
        → n + length (home h e) ≡ h.elem_cnt + length c
        → ((q : A) → count k q c ≤ 1)
        → ((q : A) → bucket_idx k h.bucket_cnt q ≢ idx → count k q c ≡ 0)
        → IsValid (rewrite h e c n)
    rewrite-IsValid c n size few here = record {
      width = length-set h.buckets idx c ∙ valid.width;
      some_bucket = valid.some_bucket;
      placed = λ q i. elim (ℕ_discrete idx i) [
        | yes at ↦ rw (← at, get_or-set_self h.buckets idx c [] within) (few q, here q)
        | no ne ↦ rw (get_or-set_ne h.buckets idx i c [] ne) (valid.placed q i)
      ];
      counted = omega (arith, length-concat-set h.buckets idx c within, valid.counted);
    }

    pub view-rewrite :
        (c : List A) (n : ℕ) (q : A)
        → view (rewrite h e c n) q
          ≡ (if bucket_idx k h.bucket_cnt q == idx then find_elem k c q else view h q)
    unfolding view
    view-rewrite c n q = elim (ℕ_discrete idx (bucket_idx k h.bucket_cnt q)) [
      | yes at ↦ rw (← at, ==_refl idx, get_or-set_self h.buckets idx c [] within) refl
      | no ne ↦
          rw
            (
              get_or-set_ne h.buckets idx (bucket_idx k h.bucket_cnt q) c [] ne,
              ==_ne _ _ (λ x. ne (sym x)),
            )
            refl
    ]

module _ {A : Type 0} (k : Keys A) (law : IsLawful k) (h : Hash A) (valid : IsValid k h)
    (e : A) where
  same_bucket :
      (q : A) → is_same k e q ≡ true → bucket_idx k h.bucket_cnt q ≡ bucket_idx k h.bucket_cnt e
  same_bucket q s = rw (law.same_hash e q s) refl

  pub view_congr : (q : A) → is_same k e q ≡ true → view k h e ≡ view k h q
  unfolding view
  view_congr q s =
      find_elem_congr k law e q (home k h e) s
      ∙ ap (λ i. find_elem k (get_or h.buckets i []) q) (sym (same_bucket q s))

  elsewhere :
      (q : A) → bucket_idx k h.bucket_cnt q ≢ bucket_idx k h.bucket_cnt e → is_same k e q ≡ false
  elsewhere q ne = elim (Bool-cases (is_same k e q)) [
    | inl s ↦ absurd (ne (same_bucket q s))
    | inr d ↦ d
  ]

  -- An element that is not there, put in front of its bucket.
  pub insert-IsValid :
      (n : ℕ)
      → n ≡ h.elem_cnt + 1
      → view k h e ≡ none
      → IsValid k (rewrite k h e (e ∷ home k h e) n)
  unfolding view
  insert-IsValid n eq absent =
      rewrite-IsValid k h valid e (e ∷ home k h e) n (omega arith)
        (λ q. ground (
          arith,
          (valid.placed q (idx k h valid e)).0,
          count_zero k e (home k h e),
          count_congr k law e q (home k h e),
        ))
        (λ q ne. rw (elsewhere q ne) (omega (arith, (valid.placed q (idx k h valid e)).1 ne)))

  -- A change of the home bucket that concerns the elements that are the same as e.
  view_update :
      (c : List A) (n : ℕ) (o : Option A)
      → ((q : A) → find_elem k c q ≡ (if is_same k e q then o else find_elem k (home k h e) q))
      → (q : A) → view k (rewrite k h e c n) q ≡ (if is_same k e q then o else view k h q)
  unfolding view
  view_update c n o reads q =
      elim (ℕ_discrete (bucket_idx k h.bucket_cnt q) (bucket_idx k h.bucket_cnt e)) [
        | yes at ↦
            view-rewrite k h valid e c n q
            ∙ rw (at, ==_refl (bucket_idx k h.bucket_cnt e)) (reads q)
        | no ne ↦
            view-rewrite k h valid e c n q
            ∙ rw
                (
                  ==_ne (bucket_idx k h.bucket_cnt q) (bucket_idx k h.bucket_cnt e) ne,
                  elsewhere q ne,
                )
                refl
      ]

  pub view-insert :
      (n : ℕ) (q : A)
      → view k (rewrite k h e (e ∷ home k h e) n) q ≡ (if is_same k e q then some e else view k h q)
  unfolding find_elem
  view-insert n = view_update (e ∷ home k h e) n (some e) (λ q. refl)

  -- The element that is the same as e, taken out.
  pub unlink-IsValid :
      (n : ℕ) (old : A)
      → n + 1 ≡ h.elem_cnt
      → view k h e ≡ some old
      → IsValid k (rewrite k h e (unlink k (home k h e) e) n)
  unfolding view
  unlink-IsValid n old eq there =
      rewrite-IsValid k h valid e (unlink k (home k h e) e) n
        (omega (arith, length-unlink k e old (home k h e) there))
        (λ q.
          ground (arith, (valid.placed q (idx k h valid e)).0, count-unlink k law q e (home k h e)))
        (λ q ne.
          ground
            (arith, (valid.placed q (idx k h valid e)).1 ne, count-unlink k law q e (home k h e)))

  pub view-unlink :
      (n : ℕ) (q : A)
      → view k (rewrite k h e (unlink k (home k h e) e) n) q
        ≡ (if is_same k e q then none else view k h q)
  view-unlink n =
      view_update (unlink k (home k h e) e) n none
        (λ q. find_elem-unlink k law q e (home k h e) (valid.placed q (idx k h valid e)).0)

-- A table without elements.
pub empty-IsValid :
    {A : Type 0} (k : Keys A) (n : ℕ)
    → 0 < n
    → IsValid k (record { elem_cnt = 0; bucket_cnt = n; buckets = empty_buckets n })
empty-IsValid {A} k n pos = record {
  width = length-replicate n [];
  some_bucket = pos;
  placed = λ q i. rw (get_or-replicate {A = List A} n [] i) (omega arith, λ ne. refl);
  counted = none_inside n;
}
  where
    none_inside : (n : ℕ) → length (concat {A = A} (empty_buckets n)) ≡ 0
    none_inside zero = refl
    none_inside (suc n) = none_inside n

pub view-empty :
    {A : Type 0} (k : Keys A) (m n : ℕ) (q : A)
    → view k (record { elem_cnt = m; bucket_cnt = n; buckets = empty_buckets n }) q ≡ none
unfolding view find_elem
view-empty {A} k m n q = rw (get_or-replicate {A = List A} n [] (bucket_idx k n q)) refl
