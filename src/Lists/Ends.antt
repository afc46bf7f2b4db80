-- ===== src/Lists/Ends.antt =====
-- The ends of a list: a list as a queue and as a stack, and its size.
use cs439_project.Prelude.{
  ℕ, zero, suc, ◌+◌, ◌<◌, Bool, true, false, not, ◌&&◌, ◌||◌, List, [], ◌∷◌, ◌++◌, ◌≡◌, ◌≢◌, refl,
  ap, ◌∙◌, sym, ◌==◌, ==_refl, ==_ne, ok, ◌>>=◌, append-nil, append_assoc, arith, subst, length,
}
use cs439_project.Lists.{
  Links, put, null, list_tail, list_end, list_begin, list_init, list_next, is_head, is_interior,
  get_next, list_empty, list_front, list_back, list_push_front, list_push_back, list_pop_front,
  list_pop_back, list_remove, list_size, size_loop,
}
use cs439_project.Lists.Chain.{Absent, Absent-right, Chain, Chain-split}
use cs439_project.Lists.Insert.{IsList, first, list_insert-IsList}
use cs439_project.Lists.Remove.{list_remove-IsList}

begin_first :
    (s : Links) (list : ℕ) (xs : List ℕ)
    → IsList s list xs
    → list_begin s list ≡ ok (first xs (list_tail list))
begin_first s list [] is = rw (==_ne list null (λ q. is.distinct.0.0 (sym q)), is.chain.0) refl
begin_first s list (x ∷ xs) is =
    rw (==_ne list null (λ q. is.distinct.0.0 (sym q)), is.chain.0) refl

-- A new list is empty.
pub list_init-IsList :
    (s : Links) (list : ℕ)
    → list ≢ null
    → (s' : Links) × (list_init s list ≡ ok s') × IsList s' list []
unfolding list_init
list_init-IsList s list ne = (
  record {
    prev = put (put s.prev list null) (list_tail list) list;
    next = put (put s.next list (list_tail list)) (list_tail list) null;
  },
  rw (==_ne list null ne, tail_null) refl,
  record {
    head_prev = rw (apart, ==_refl list) refl;
    tail_next = rw (==_refl (list_tail list)) refl;
    chain = (rw (apart, ==_refl list) refl, rw (==_refl (list_tail list)) refl);
    distinct =
        (((λ q. ne (sym q)), ((λ q. omega arith), tt)), (((λ q. omega arith), tt), (tt, tt)));
  },
)
  where
    tail_null : (list_tail list == null) ≡ false
    tail_null = ground arith

    apart : (list == list_tail list) ≡ false
    apart = ground arith

-- `list_push_back` and `list_pop_front` make a queue: an element that is pushed is the last one,
-- and the first one is popped.
pub list_push_back-IsList :
    (s : Links) (list : ℕ) (xs : List ℕ) (e : ℕ)
    → IsList s list xs
    → Absent e (null ∷ list ∷ list_tail list ∷ xs)
    → (s' : Links) × (list_push_back s list e ≡ ok s') × IsList s' list (xs ++ (e ∷ []))
unfolding list_push_back
list_push_back-IsList s list xs e is away = go (
    list_insert-IsList s list xs [] e (subst (IsList s list) (sym (append-nil xs)) is)
      (subst (λ zs. Absent e (null ∷ list ∷ list_tail list ∷ zs)) (sym (append-nil xs)) away))
  where
    go :
        (s' : Links) × (cs439_project.Lists.list_insert s (list_tail list) e ≡ ok s')
          × IsList s' list (xs ++ (e ∷ []))
          × ((a : ℕ)
              → Absent a (e ∷ list ∷ list_tail list ∷ xs ++ [])
              → (s'.next a ≡ s.next a) × (s'.prev a ≡ s.prev a))
        → (s' : Links) × (list_push_back s list e ≡ ok s') × IsList s' list (xs ++ (e ∷ []))
    go (s', run, is', kept) = (s', run, is')

pub list_push_front-IsList :
    (s : Links) (list : ℕ) (xs : List ℕ) (e : ℕ)
    → IsList s list xs
    → Absent e (null ∷ list ∷ list_tail list ∷ xs)
    → (s' : Links) × (list_push_front s list e ≡ ok s') × IsList s' list (e ∷ xs)
unfolding list_push_front
list_push_front-IsList s list xs e is away = go (list_insert-IsList s list [] xs e is away)
  where
    go :
        (s' : Links) × (cs439_project.Lists.list_insert s (first xs (list_tail list)) e ≡ ok s')
          × IsList s' list (e ∷ xs)
          × ((a : ℕ)
              → Absent a (e ∷ list ∷ list_tail list ∷ xs)
              → (s'.next a ≡ s.next a) × (s'.prev a ≡ s.prev a))
        → (s' : Links) × (list_push_front s list e ≡ ok s') × IsList s' list (e ∷ xs)
    go (s', run, is', kept) = (s', rw (begin_first s list xs is, ◌>>=◌) run, is')

pub list_empty_iff :
    (s : Links) (list : ℕ) (x : ℕ) (xs : List ℕ)
    → IsList s list (x ∷ xs)
    → list_empty s list ≡ ok false
unfolding list_empty
list_empty_iff s list x xs is =
    let ne : (x == list_tail list) ≡ false =
      ==_ne x (list_tail list) (λ q. is.distinct.1.1.0.0 (sym q)) in
    rw (begin_first s list (x ∷ xs) is, ◌>>=◌, ne) refl

pub list_pop_front-IsList :
    (s : Links) (list : ℕ) (x : ℕ) (xs : List ℕ)
    → IsList s list (x ∷ xs)
    → (s' : Links) × (list_pop_front s list ≡ ok (s', x)) × IsList s' list xs
unfolding list_pop_front list_front
list_pop_front-IsList s list x xs is = go (list_remove-IsList s list [] x xs is)
  where
    go :
        (s' : Links) × (list_remove s x ≡ ok (s', first xs (list_tail list)))
          × IsList s' list xs
          × ((a : ℕ)
              → Absent a (list ∷ list_tail list ∷ xs)
              → (s'.next a ≡ s.next a) × (s'.prev a ≡ s.prev a))
        → (s' : Links) × (list_pop_front s list ≡ ok (s', x)) × IsList s' list xs
    go (s', run, is', kept) = (
      s',
      rw
          (
            list_empty_iff s list x xs is,
            ◌>>=◌,
            ==_ne list null (λ q. is.distinct.0.0 (sym q)),
            is.chain.0,
            ◌>>=◌,
            run,
          )
          refl,
      is',
    )

either : (c : Bool) → ((c && true) || (not c && true)) ≡ true
either true = refl
either false = refl

-- The walk from an element of the list to its tail.
size_loop-length :
    (s : Links) (list : ℕ) (xs ys : List ℕ) (fuel cnt : ℕ)
    → IsList s list (xs ++ ys)
    → length ys < fuel
    → size_loop fuel s list (first ys (list_tail list)) cnt ≡ ok (cnt + length ys)
unfolding size_loop list_next
size_loop-length s list xs ys zero cnt is h = absurd (omega arith)
size_loop-length s list xs [] (suc fuel) cnt is h =
    let z : cnt + 0 ≡ cnt = omega arith in rw (==_refl (list_tail list), z) refl
size_loop-length s list xs (y ∷ ys) (suc fuel) cnt is h =
    let e : cnt + 1 + length ys ≡ cnt + suc (length ys) = omega arith in
    rw (y_tail, y_null, at_next, next_null, either (s.prev y == null), ◌>>=◌)
      (size_loop-length s list (xs ++ (y ∷ [])) ys fuel (cnt + 1)
          (subst (IsList s list) (sym (append_assoc xs (y ∷ []) ys)) is) (omega arith)
        ∙ ap ok e)
  where
    y_tail : (y == list_tail list) ≡ false
    y_tail =
        ==_ne y (list_tail list)
          (λ q. (Absent-right (list_tail list) xs (y ∷ ys) is.distinct.1.1.0).0 (sym q))

    y_null : (y == null) ≡ false
    y_null = ==_ne y null (λ q. (Absent-right null xs (y ∷ ys) is.distinct.0.1.1).0 (sym q))

    parts : Chain s list xs y × Chain s y ys (list_tail list)
    parts = Chain-split s list xs y ys (list_tail list) is.chain

    at_next : s.next y ≡ first ys (list_tail list)
    at_next = next_of ys parts.1
      where
        next_of :
            (ys : List ℕ) → Chain s y ys (list_tail list) → s.next y ≡ first ys (list_tail list)
        next_of [] c = c.0
        next_of (z ∷ zs) c = c.0

    next_null : (first ys (list_tail list) == null) ≡ false
    next_null =
        ==_ne (first ys (list_tail list)) null
          (away ys (Absent-right null xs (y ∷ ys) is.distinct.0.1.1).1)
      where
        away : (ys : List ℕ) → Absent null ys → first ys (list_tail list) ≢ null
        away [] f q = is.distinct.0.1.0 (sym q)
        away (z ∷ zs) f q = f.0 (sym q)

-- `list_size` of a list, with fuel for one round more than it has elements, returns their number.
pub list_size-length :
    (s : Links) (list : ℕ) (xs : List ℕ) (fuel : ℕ)
    → IsList s list xs
    → length xs < fuel
    → list_size fuel s list ≡ ok (length xs)
unfolding list_size
list_size-length s list xs fuel is h =
    rw (begin_first s list xs is, ◌>>=◌)
      (size_loop-length s list [] xs fuel 0 is h ∙ ap ok (omega arith))
