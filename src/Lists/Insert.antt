-- ===== src/Lists/Insert.antt =====
-- `list_insert` puts an element before another one or the tail.
use cs439_project.Prelude.{
  ℕ, Bool, true, false, not, ◌||◌, List, [], ◌∷◌, ◌++◌, ◌≡◌, ◌≢◌, refl, ◌∙◌, sym, ◌==◌, ==_refl,
  ==_ne, ok, ◌>>=◌, append-nil, subst,
}
use cs439_project.Lists.{Links, null, list_tail, list_insert}
use cs439_project.Lists.Chain.{
  Absent, Distinct, Absent-left, Absent-right, Distinct-left, Distinct-right, Distinct-middle,
  Distinct-insert, Chain, Chain-append, Chain-split, last, Absent-last, Chain-last, with_next,
  with_prev, Chain-with_next, Chain-with_prev, Chain-relink,
}

-- The list at an address holds the elements, in order; its ends and its elements are different
-- addresses and not NULL.
pub record IsList (s : Links) (list : ℕ) (xs : List ℕ) : Type 0 where
  pub head_prev : s.prev list ≡ null
  pub tail_next : s.next (list_tail list) ≡ null
  pub chain : Chain s list xs (list_tail list)
  pub distinct : Distinct (null ∷ list ∷ list_tail list ∷ xs)

-- The element that stands before the elements ys: the first of them, or the tail.
abbrev pub first : List ℕ → ℕ → ℕ
first [] tail = tail
first (y ∷ ys) tail = y

-- The store after `list_insert` of e before b, with l before b.
abbrev pub inserted : Links → ℕ → ℕ → ℕ → Links
inserted s b e l = with_prev (with_next (with_next (with_prev s e l) e b) l e) b e

either : (c : Bool) → (not c || c) ≡ true
either true = refl
either false = refl

pub list_insert-run :
    (s : Links) (b e l : ℕ)
    → b ≢ null
    → e ≢ null
    → l ≢ null
    → e ≢ b
    → s.prev b ≡ l
    → list_insert s b e ≡ ok (inserted s b e l)
unfolding list_insert
list_insert-run s b e l nb ne nl other at =
    let b0 : (b == null) ≡ false = ==_ne b null nb in
    let e0 : (e == null) ≡ false = ==_ne e null ne in
    let l0 : (l == null) ≡ false = ==_ne l null nl in
    let be : (b == e) ≡ false = ==_ne b e (λ q. other (sym q)) in
    rw (b0, at, l0, ◌>>=◌, e0, be, at, l0, either (s.next b == null)) refl

-- The list up to the element or tail b, before which e goes.
record Gap (s : Links) (list : ℕ) (xs : List ℕ) (b e : ℕ) : Type 0 where
  before : Chain s list xs b
  front : Distinct (null ∷ list ∷ xs)
  tail_away : Absent (list_tail list) (null ∷ list ∷ xs)
  b_away : Absent b (null ∷ list ∷ xs)
  e_away : Absent e (null ∷ list ∷ list_tail list ∷ xs)
  e_other : e ≢ b

module _ {s : Links} {list : ℕ} {xs : List ℕ} {b e : ℕ} (gap : Gap s list xs b e) where
  abbrev after : Links
  after = inserted s b e (last list xs)

  e_front : Absent e (list ∷ xs)
  e_front = (gap.e_away.1.0, gap.e_away.1.1.1)

  l_null : last list xs ≢ null
  l_null q = Absent-last null list xs gap.front.0 (sym q)

  runs : list_insert s b e ≡ ok after
  runs =
      list_insert-run s b e (last list xs) gap.b_away.0 gap.e_away.0 l_null gap.e_other
        (Chain-last s list xs b gap.before).0

  up_to : Chain after list xs e
  up_to =
      Chain-with_prev (with_prev (with_next (with_next s e b) (last list xs) e) e (last list xs))
        list xs e b e
        (Chain-relink (with_next s e b) list xs b e
          (Chain-with_next s list xs b e b gap.before e_front) gap.front.1 gap.e_away.1.1.1)
        gap.b_away.1.1 (λ q. gap.e_other (sym q))

  on_from : Chain after e [] b
  on_from = (
    rw (==_ne e (last list xs) (Absent-last e list xs e_front), ==_refl e) refl,
    rw (==_refl b) refl,
  )

  head_kept : s.prev list ≡ null → after.prev list ≡ null
  head_kept h =
      rw (==_ne list b (λ q. gap.b_away.1.0 (sym q)), ==_ne list e (λ q. gap.e_away.1.0 (sym q))) h

  tail_kept : s.next (list_tail list) ≡ null → after.next (list_tail list) ≡ null
  tail_kept h =
      rw
        (
          ==_ne (list_tail list) (last list xs)
              (Absent-last (list_tail list) list xs gap.tail_away.1),
          ==_ne (list_tail list) e (λ q. gap.e_away.1.1.0 (sym q)),
        )
        h

  -- What stands behind b.
  beyond :
      (ys : List ℕ) (q : ℕ)
      → Chain s b ys q
      → Absent e (b ∷ ys)
      → Absent b ys
      → Absent (last list xs) (b ∷ ys)
      → e ≢ q
      → b ≢ q
      → Chain after b ys q
  beyond ys q c ea ba la eq bq =
      Chain-with_prev (with_next (with_next (with_prev s e (last list xs)) e b) (last list xs) e) b
        ys q b e
        (Chain-with_next (with_next (with_prev s e (last list xs)) e b) b ys q (last list xs) e
          (Chain-with_next (with_prev s e (last list xs)) b ys q e b
            (Chain-with_prev s b ys q e (last list xs) c ea.1 eq) ea)
          la)
        ba bq

  outside :
      (a : ℕ)
      → a ≢ e
      → a ≢ b
      → a ≢ last list xs
      → (after.next a ≡ s.next a) × (after.prev a ≡ s.prev a)
  outside a ne nb nl =
      (rw (==_ne a (last list xs) nl, ==_ne a e ne) refl, rw (==_ne a b nb, ==_ne a e ne) refl)

pub Absent-last_all : (p : ℕ) (xs ys : List ℕ) → Distinct (p ∷ xs ++ ys) → Absent (last p xs) ys
Absent-last_all p [] ys d = d.0
Absent-last_all p (x ∷ xs) ys d = Absent-last_all x xs ys d.1

-- What the distinctness of a whole list says of its parts.
module _ (list tail : ℕ) (xs rest : List ℕ) (d : Distinct (null ∷ list ∷ tail ∷ xs ++ rest)) where
  pub front-Distinct : Distinct (null ∷ list ∷ xs)
  front-Distinct = (
    (d.0.0, Absent-left null xs rest d.0.1.1),
    (Absent-left list xs rest d.1.0.1, Distinct-left xs rest d.1.1.1),
  )

  pub tail-Absent : Absent tail (null ∷ list ∷ xs)
  tail-Absent = ((λ q. d.0.1.0 (sym q)), ((λ q. d.1.0.0 (sym q)), Absent-left tail xs rest d.1.1.0))

  pub rest_after_last : Absent (last list xs) rest
  rest_after_last = Absent-last_all list xs rest (d.1.0.1, d.1.1.1)

  Gap-before :
      (s : Links) (b e : ℕ)
      → Chain s list xs b
      → Absent b (null ∷ list ∷ xs)
      → Absent e (null ∷ list ∷ tail ∷ xs ++ rest)
      → e ≢ b
      → tail ≡ list_tail list
      → Gap s list xs b e
  Gap-before s b e c ba away ne t = record {
    before = c;
    front = front-Distinct;
    tail_away = subst (λ t. Absent t (null ∷ list ∷ xs)) t tail-Absent;
    b_away = ba;
    e_away =
        (away.0, (away.1.0, ((λ q. away.1.1.0 (q ∙ sym t)), Absent-left e xs rest away.1.1.1)));
    e_other = ne;
  }

pub middle-Absent :
    (list tail : ℕ) (xs : List ℕ) (y : ℕ) (ys : List ℕ)
    → Distinct (null ∷ list ∷ tail ∷ xs ++ (y ∷ ys))
    → Absent y (null ∷ list ∷ xs)
middle-Absent list tail xs y ys d = (
  (λ q. (Absent-right null xs (y ∷ ys) d.0.1.1).0 (sym q)),
  ((λ q. (Absent-right list xs (y ∷ ys) d.1.0.1).0 (sym q)), Distinct-middle xs y ys d.1.1.1),
)

-- `list_insert` of an element that is not in a list, before one of its elements or its tail,
-- returns, and the list then holds it there and all others as before; no link outside the list is
-- changed.
pub list_insert-IsList :
    (s : Links) (list : ℕ) (xs ys : List ℕ) (e : ℕ)
    → IsList s list (xs ++ ys)
    → Absent e (null ∷ list ∷ list_tail list ∷ xs ++ ys)
    → (s' : Links) × (list_insert s (first ys (list_tail list)) e ≡ ok s')
      × IsList s' list (xs ++ (e ∷ ys))
      × ((a : ℕ)
          → Absent a (e ∷ list ∷ list_tail list ∷ xs ++ ys)
          → (s'.next a ≡ s.next a) × (s'.prev a ≡ s.prev a))
list_insert-IsList s list xs [] e is away = (
  after gap,
  runs gap,
  record {
    head_prev = head_kept gap is.head_prev;
    tail_next = tail_kept gap is.tail_next;
    chain = Chain-append (after gap) list xs e [] tail (up_to gap) (on_from gap);
    distinct = Distinct-insert (null ∷ list ∷ tail ∷ xs) [] e is.distinct away;
  },
  λ a f. outside gap a f.0 f.1.1.0 (Absent-last a list xs (f.1.0, Absent-left a xs [] f.1.1.1)),
)
  where
    tail : ℕ
    tail = list_tail list

    gap : Gap s list xs tail e
    gap =
        Gap-before list tail xs [] is.distinct s tail e
          (subst (λ zs. Chain s list zs tail) (append-nil xs) is.chain)
          (tail-Absent list tail xs [] is.distinct) away away.1.1.0 refl
list_insert-IsList s list xs (y ∷ ys) e is away = (
  after gap,
  runs gap,
  record {
    head_prev = head_kept gap is.head_prev;
    tail_next = tail_kept gap is.tail_next;
    chain = Chain-append (after gap) list xs e (y ∷ ys) tail (up_to gap) (
      (on_from gap).0,
      (on_from gap).1,
      beyond gap ys tail parts.1 (Absent-right e xs (y ∷ ys) away.1.1.1)
          (Distinct-right xs (y ∷ ys) d.1.1.1).0 (rest_after_last list tail xs (y ∷ ys) d)
          away.1.1.0 (λ q. (Absent-right tail xs (y ∷ ys) d.1.1.0).0 (sym q)),
    );
    distinct = Distinct-insert (null ∷ list ∷ tail ∷ xs) (y ∷ ys) e d away;
  },
  λ a f.
      outside gap a f.0 (Absent-right a xs (y ∷ ys) f.1.1.1).0
        (Absent-last a list xs (f.1.0, Absent-left a xs (y ∷ ys) f.1.1.1)),
)
  where
    tail : ℕ
    tail = list_tail list

    d : Distinct (null ∷ list ∷ list_tail list ∷ xs ++ (y ∷ ys))
    d = is.distinct

    parts : Chain s list xs y × Chain s y ys tail
    parts = Chain-split s list xs y ys tail is.chain

    gap : Gap s list xs y e
    gap =
        Gap-before list tail xs (y ∷ ys) d s y e parts.0 (middle-Absent list tail xs y ys d) away
          (Absent-right e xs (y ∷ ys) away.1.1.1).0 refl
