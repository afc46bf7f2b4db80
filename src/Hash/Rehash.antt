-- ===== src/Hash/Rehash.antt =====
-- `rehash` finds a power of 2 and moves every element to its new bucket.
use cs439_project.Prelude.{
  ℕ, suc, ◌+◌, ◌/◌, ◌^◌, ◌≤◌, ◌<◌, Bool, true, false, List, [], ◌∷◌, ◌++◌, ◌≡◌, refl, ◌∙◌, sym,
  subst, Option, none, some, if◌then◌else◌, ltb, ◌==◌, ◌⊎◌, inl, inr, Bool-cases, Outcome, ok,
  ◌>>=◌, bind_assoc, bind_ext, length, set, max, arith,
}
use cs439_project.Hash.{
  Keys, Hash, is_same, bucket_idx, find_bucket, find_elem, concat, ideal_cnt, push, move_bucket,
  move_all, rehash, empty_buckets,
}
use cs439_project.Hash.Powers.{power_loop-power}
use cs439_project.Hash.Chain.{IsLawful, or_else, count, find_elem-none}
use cs439_project.Hash.Buckets.{
  IsValid, home, view, find_bucket-home, concat-view, insert-IsValid, view-insert, empty-IsValid,
  view-empty,
}

-- The number of buckets that `rehash` looks for is the largest power of 2 that is at most half the
-- elements, or at most four where that is more: the loop that turns off bits ends there, and takes
-- no more rounds than the number it starts from.
pub ideal_cnt-power :
    (elem_cnt : ℕ)
    → (k : ℕ) × (ideal_cnt elem_cnt ≡ 2 ^ k)
      × (2 ^ k ≤ max 4 (elem_cnt / 2))
      × (max 4 (elem_cnt / 2) < 2 ^ suc k)
unfolding ideal_cnt
ideal_cnt-power elem_cnt =
    let n : ℕ = elem_cnt / 2 in
    let n' : ℕ = if ltb n 4 then 4 else n in
    let floor : n' ≡ max 4 n = ground arith in
    let (k, e, small, top) = power_loop-power n' n' (ground arith) (omega arith) in
    (k, e, omega arith, omega arith)

ideal_cnt-positive : (elem_cnt : ℕ) → 0 < ideal_cnt elem_cnt
ideal_cnt-positive elem_cnt = let (k, e, small, top) = ideal_cnt-power elem_cnt in omega arith

or_else-none : {A : Type 0} (o : Option A) → or_else o none ≡ o
or_else-none none = refl
or_else-none (some a) = refl

module _ {A : Type 0} (k : Keys A) where
  move_bucket-append :
      (a b : List A) (h : Hash A)
      → move_bucket k (a ++ b) h ≡ (move_bucket k a h >>= λ h'. move_bucket k b h')
  unfolding move_bucket
  move_bucket-append [] b h = refl
  move_bucket-append (e ∷ a) b h =
      bind_ext (push k h e) (λ h'. move_bucket-append a b h')
      ∙ sym (bind_assoc (push k h e) (move_bucket k a) (move_bucket k b))

  move_all-concat :
      (bs : List (List A)) (h : Hash A) → move_all k bs h ≡ move_bucket k (concat bs) h
  unfolding move_all move_bucket
  move_all-concat [] h = refl
  move_all-concat (b ∷ bs) h =
      bind_ext (move_bucket k b h) (λ h'. move_all-concat bs h')
      ∙ sym (move_bucket-append b (concat bs) h)

  -- The table with another counter: while elements are moved, it counts those not yet moved too.
  abbrev counting : Hash A → ℕ → Hash A
  counting h n = record h { elem_cnt = n }

  module _ (law : IsLawful k) where
    -- No element to be moved is twice among them, or in the table already.
    abbrev IsNew : List A → Hash A → Type 0
    IsNew es h = (q : A) → (count k q es ≤ 1) × ((view k h q ≡ none) ⊎ (count k q es ≡ 0))

    -- The table after the elements are moved into it.
    abbrev Moves : Outcome (Hash A) → List A → Hash A → ℕ → Type 0
    Moves outcome es h m =
        (h' : Hash A) × (outcome ≡ ok h')
        × IsValid k (counting h' (m + length es))
        × (h'.elem_cnt ≡ h.elem_cnt)
        × ((q : A) → view k h' q ≡ or_else (find_elem k es q) (view k h q))

    recount : (h : Hash A) {m n : ℕ} → m ≡ n → IsValid k (counting h m) → IsValid k (counting h n)
    recount h e = subst (λ n. IsValid k (counting h n)) e

    module _ (e : A) (es : List A) (h : Hash A) (m : ℕ) (valid : IsValid k (counting h m))
        (new : IsNew (e ∷ es) h) where
      abbrev pushed : Hash A
      pushed = record h { buckets = set h.buckets (bucket_idx k h.bucket_cnt e) (e ∷ home k h e) }

      push-ok : push k h e ≡ ok pushed
      unfolding push find_bucket
      push-ok = rw (find_bucket-home k (counting h m) e valid) refl

      absent : view k h e ≡ none
      absent = elim (new e).1 [ inl v ↦ v | inr z ↦ absurd (ground (arith, law.same_refl e)) ]

      pushed-IsValid : IsValid k (counting pushed (m + 1))
      unfolding view
      pushed-IsValid = insert-IsValid k law (counting h m) valid e (m + 1) refl absent

      view-pushed : (q : A) → view k pushed q ≡ (if is_same k e q then some e else view k h q)
      unfolding view
      view-pushed q = view-insert k law (counting h m) valid e (m + 1) q

      pushed-IsNew : IsNew es pushed
      pushed-IsNew q = elim (Bool-cases (is_same k e q)) [
        | inl s ↦ let once = (new q).0 in (ground arith, inr (ground arith))
        | inr d ↦ elim (new q).1 [
          | inl v ↦ (ground (arith, (new q).0), inl (view-pushed q ∙ rw d v))
          | inr z ↦ (ground (arith, (new q).0), inr (ground arith))
        ]
      ]

      reads :
          (q : A)
          → or_else (find_elem k es q) (view k pushed q)
            ≡ or_else (find_elem k (e ∷ es) q) (view k h q)
      unfolding find_elem
      reads q = elim (Bool-cases (is_same k e q)) [
        | inl s ↦
            let gone : find_elem k es q ≡ none =
              find_elem-none k q es (ground (arith, (new q).0)) in
            rw (gone, view-pushed q, s) refl
        | inr d ↦ rw (view-pushed q, d) refl
      ]

    move_bucket-Moves :
        (es : List A) (h : Hash A) (m : ℕ)
        → IsValid k (counting h m)
        → IsNew es h
        → Moves (move_bucket k es h) es h m
    unfolding move_bucket find_elem
    move_bucket-Moves [] h m valid new = (h, refl, recount h (omega arith) valid, refl, λ q. refl)
    move_bucket-Moves (e ∷ es) h m valid new = go (
        move_bucket-Moves es (pushed e es h m valid new) (m + 1) (pushed-IsValid e es h m valid new)
          (pushed-IsNew e es h m valid new))
      where
        go :
            Moves
              (move_bucket k es (pushed e es h m valid new))
              es
              (pushed e es h m valid new)
              (m + 1)
            → Moves (move_bucket k (e ∷ es) h) (e ∷ es) h m
        go (h', run, valid', cnt, look) = (
          h',
          rw (push-ok e es h m valid new, ◌>>=◌) run,
          recount h' (omega arith) valid',
          cnt,
          λ q. look q ∙ reads e es h m valid new q,
        )

    -- What `rehash` keeps: everything but the buckets.
    abbrev pub Keeps : Outcome (Hash A) → Hash A → Type 0
    Keeps outcome h =
        (h' : Hash A) × (outcome ≡ ok h')
        × IsValid k h'
        × (h'.elem_cnt ≡ h.elem_cnt)
        × ((q : A) → view k h' q ≡ view k h q)

    -- `rehash` of a valid table, with memory or without, returns a valid table that holds the same
    -- elements.
    pub rehash-Keeps : (memory : Bool) (h : Hash A) → IsValid k h → Keeps (rehash k memory h) h
    unfolding rehash
    rehash-Keeps memory h valid = elim (Bool-cases (n == h.bucket_cnt)) [
      | inl e ↦ rw e (h, refl, valid, refl, λ q. refl)
      | inr e ↦ rw e (by_memory memory)
    ]
      where
        n : ℕ
        n = ideal_cnt h.elem_cnt

        fresh : Hash A
        fresh = record h { bucket_cnt = n; buckets = empty_buckets n }

        fresh-IsValid : IsValid k (counting fresh 0)
        fresh-IsValid = empty-IsValid k n (ideal_cnt-positive h.elem_cnt)

        view-fresh : (q : A) → view k fresh q ≡ none
        view-fresh q = view-empty k h.elem_cnt n q

        moved : Moves (move_bucket k (concat h.buckets) fresh) (concat h.buckets) fresh 0
        moved =
            move_bucket-Moves (concat h.buckets) fresh 0 fresh-IsValid
              (λ q. ((concat-view k h q valid).1, inl (view-fresh q)))

        by_memory : (memory : Bool) → Keeps (if memory then move_all k h.buckets fresh else ok h) h
        by_memory false = (h, refl, valid, refl, λ q. refl)
        by_memory true = go moved
          where
            go :
                Moves (move_bucket k (concat h.buckets) fresh) (concat h.buckets) fresh 0
                → Keeps (move_all k h.buckets fresh) h
            go (h', run, valid', cnt, look) = (
              h',
              move_all-concat h.buckets fresh ∙ run,
              recount h' (omega (arith, valid.counted, cnt)) valid',
              cnt,
              λ q.
                  look q
                  ∙ rw (view-fresh q) (
                      or_else-none (find_elem k (concat h.buckets) q)
                      ∙ (concat-view k h q valid).0),
            )
