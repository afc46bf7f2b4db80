-- ===== src/Lists/Remove.antt =====
-- `list_remove` takes an element out of its list.
use cs439_project.Prelude.{
  ℕ, false, List, [], ◌∷◌, ◌++◌, ◌≡◌, ◌≢◌, refl, sym, ◌==◌, ==_ne, ok, ◌>>=◌, append-nil, subst,
}
use cs439_project.Lists.{Links, null, list_tail, list_remove}
use cs439_project.Lists.Chain.{
  Absent, Distinct, Absent-left, Absent-right, Distinct-right, Distinct-middle, Distinct-remove,
  Chain, Chain-append, Chain-split, last, Absent-last, Chain-last, with_next, with_prev,
  Chain-with_next, Chain-with_prev, Chain-relink,
}
use cs439_project.Lists.Insert.{
  IsList, first, front-Distinct, tail-Absent, rest_after_last, middle-Absent,
}

-- The store after the removal of an element between p and n.
abbrev pub removed : Links → ℕ → ℕ → Links
removed s p n = with_prev (with_next s p n) n p

list_remove-run :
    (s : Links) (e p n : ℕ)
    → e ≢ null
    → p ≢ null
    → n ≢ null
    → p ≢ e
    → s.prev e ≡ p
    → s.next e ≡ n
    → list_remove s e ≡ ok (removed s p n, n)
unfolding list_remove
list_remove-run s e p n ne np nn pe at_p at_n =
    let e0 : (e == null) ≡ false = ==_ne e null ne in
    let p0 : (p == null) ≡ false = ==_ne p null np in
    let n0 : (n == null) ≡ false = ==_ne n null nn in
    let ep : (e == p) ≡ false = ==_ne e p (λ q. pe (sym q)) in
    rw (e0, at_p, at_n, p0, n0, ◌>>=◌, ep, at_p, at_n, n0, ep, at_n) refl

-- `list_remove` of an element of a list returns the element or tail behind it, and the list then
-- holds all others as before; no link outside the list is changed.
pub list_remove-IsList :
    (s : Links) (list : ℕ) (xs : List ℕ) (e : ℕ) (ys : List ℕ)
    → IsList s list (xs ++ (e ∷ ys))
    → (s' : Links) × (list_remove s e ≡ ok (s', first ys (list_tail list)))
      × IsList s' list (xs ++ ys)
      × ((a : ℕ)
          → Absent a (list ∷ list_tail list ∷ xs ++ ys)
          → (s'.next a ≡ s.next a) × (s'.prev a ≡ s.prev a))
list_remove-IsList s list xs e ys is = (
  removed s p n,
  list_remove-run s e p n e_null p_null n_null p_other (Chain-last s list xs e parts.0).0
      (next_of ys parts.1),
  record {
    head_prev = rw (==_ne list n (λ q. n_list (sym q))) is.head_prev;
    tail_next = rw (==_ne tail p (Absent-last tail list xs tail_front.1)) is.tail_next;
    chain = rest_chain ys parts.1 d;
    distinct = Distinct-remove (null ∷ list ∷ tail ∷ xs) ys e d;
  },
  λ a f. (
    rw (==_ne a p (Absent-last a list xs (f.0, Absent-left a xs ys f.1.1))) refl,
    rw (==_ne a n (away_first a ys f.1.0 (Absent-right a xs ys f.1.1))) refl,
  ),
)
  where
    tail : ℕ
    tail = list_tail list

    p : ℕ
    p = last list xs

    n : ℕ
    n = first ys tail

    d : Distinct (null ∷ list ∷ list_tail list ∷ xs ++ (e ∷ ys))
    d = is.distinct

    parts : Chain s list xs e × Chain s e ys tail
    parts = Chain-split s list xs e ys tail is.chain

    front : Distinct (null ∷ list ∷ xs)
    front = front-Distinct list tail xs (e ∷ ys) d

    tail_front : Absent tail (null ∷ list ∷ xs)
    tail_front = tail-Absent list tail xs (e ∷ ys) d

    e_null : e ≢ null
    e_null = (middle-Absent list tail xs e ys d).0

    p_null : p ≢ null
    p_null q = Absent-last null list xs front.0 (sym q)

    p_other : p ≢ e
    p_other = (rest_after_last list tail xs (e ∷ ys) d).0

    next_of : (ys : List ℕ) → Chain s e ys tail → s.next e ≡ first ys tail
    next_of [] c = c.0
    next_of (y ∷ ys) c = c.0

    away_first : (a : ℕ) (ys : List ℕ) → a ≢ tail → Absent a ys → a ≢ first ys tail
    away_first a [] t f = t
    away_first a (y ∷ ys) t f = f.0

    n_null : n ≢ null
    n_null q = away_first null ys d.0.1.0 (Absent-right null xs (e ∷ ys) d.0.1.1).1 (sym q)

    n_list : n ≢ list
    n_list q = away_first list ys d.1.0.0 (Absent-right list xs (e ∷ ys) d.1.0.1).1 (sym q)

    rest_chain :
        (ys : List ℕ)
        → Chain s e ys tail
        → Distinct (null ∷ list ∷ list_tail list ∷ xs ++ (e ∷ ys))
        → Chain (removed s p (first ys tail)) list (xs ++ ys) tail
    rest_chain [] c d =
        subst (λ zs. Chain (removed s p tail) list zs tail) (sym (append-nil xs))
          (Chain-relink s list xs e tail parts.0 front.1 tail_front.1.1)
    rest_chain (y ∷ ys) c d =
        Chain-append (removed s p y) list xs y ys tail
          (Chain-relink s list xs e y parts.0 front.1
            (Distinct-middle xs y ys (Distinct-remove xs (y ∷ ys) e d.1.1.1)))
          (Chain-with_prev (with_next s p y) y ys tail y p
            (Chain-with_next s y ys tail p y c.2 (rest_after_last list tail xs (e ∷ y ∷ ys) d).1)
            (Distinct-right xs (e ∷ y ∷ ys) d.1.1.1).1.0
            (λ q. (Absent-right tail xs (e ∷ y ∷ ys) d.1.1.0).1.0 (sym q)))
