-- ===== src/Lists/Sort.antt =====
-- The operations of lib/kernel/list.c that walk a list: reversing, sorting, and extreme elements.
-- `less` is the comparison of the objects that two elements stand in, with its `aux`; it reads no
-- link. The loops run on fuel, which the callers pass on.
use cs439_project.Prelude.{
  ℕ, zero, suc, ◌+◌, Bool, true, false, not, ◌&&◌, if◌then◌else◌, ◌==◌, ltb, Option, none, some,
  Outcome, ok, runs_on, ◌>>=◌, ◌>>◌, assert,
}
use cs439_project.Lists.{
  Links, null, list_begin, list_end, list_tail, list_head, list_next, list_prev, list_insert,
  list_splice, list_remove, list_push_back, list_empty, get_next, get_prev, set_next, set_prev,
}

-- `swap (&e->prev, &e->next)`
abbrev pub turn : Links → ℕ → Outcome Links
turn s e = do p ← get_prev s e; n ← get_next s e; s1 ← set_prev s e n; set_next s1 e p

-- The loop of `list_reverse`.
unfoldable pub turn_loop : ℕ → Links → ℕ → ℕ → Outcome Links
turn_loop zero s list e = runs_on
turn_loop (suc fuel) s list e =
    let rest = (turn s e >>= λ s'. get_prev s' e >>= λ e'. turn_loop fuel s' list e') in
    if e == list_end list then ok s else rest

-- `list_reverse`
unfoldable pub list_reverse : ℕ → Links → ℕ → Outcome Links
list_reverse fuel s list = list_empty s list >>= λ empty.
    if empty
    then ok s
    else (list_begin s list >>= λ b. turn_loop fuel s list b >>= λ s1.
        get_next s1 (list_head list) >>= λ n. get_prev s1 (list_tail list) >>= λ p.
        set_next s1 (list_head list) p >>= λ s2. set_prev s2 (list_tail list) n >>= λ s3.
        get_next s3 (list_head list) >>= λ f. get_prev s3 (list_tail list) >>= λ l.
        get_prev s3 f >>= λ fp. get_next s3 l >>= λ ln. set_prev s3 f ln >>= λ s4. set_next s4 l fp)

module _ (less : ℕ → ℕ → Bool) where
  -- The loop of `is_sorted`.
  unfoldable pub is_sorted_loop : ℕ → Links → ℕ → ℕ → Outcome Bool
  is_sorted_loop zero s a b = runs_on
  is_sorted_loop (suc fuel) s a b = list_next s a >>= λ a'.
      let rest = is_sorted_loop fuel s a' b in
      if a' == b then ok true else (list_prev s a' >>= λ p. if less a' p then ok false else rest)

  -- `is_sorted`
  unfoldable pub is_sorted : ℕ → Links → ℕ → ℕ → Outcome Bool
  is_sorted fuel s a b = if a == b then ok true else is_sorted_loop fuel s a b

  -- The loop of `find_end_of_run`.
  unfoldable pub run_loop : ℕ → Links → ℕ → ℕ → Outcome ℕ
  run_loop zero s a b = runs_on
  run_loop (suc fuel) s a b = list_next s a >>= λ a'.
      let rest = run_loop fuel s a' b in
      if a' == b then ok a' else (list_prev s a' >>= λ p. if less a' p then ok a' else rest)

  -- `find_end_of_run`
  unfoldable pub find_end_of_run : ℕ → Links → ℕ → ℕ → Outcome ℕ
  find_end_of_run fuel s a b = do
    assert (not (a == null))
    assert (not (b == null))
    assert (not (a == b))
    run_loop fuel s a b

  -- The loop of `inplace_merge`.
  unfoldable pub merge_loop : ℕ → Links → ℕ → ℕ → ℕ → Outcome Links
  merge_loop zero s a0 a1b0 b1 = runs_on
  merge_loop (suc fuel) s a0 a1b0 b1 =
      let skip = (list_next s a0 >>= λ a. merge_loop fuel s a a1b0 b1) in
      let move =
        (list_next s a1b0 >>= λ b.
        list_prev s b >>= λ p. list_splice s a0 p b >>= λ s'. merge_loop fuel s' a0 b b1) in
      if not (a0 == a1b0) && not (a1b0 == b1) then (if less a1b0 a0 then move else skip) else ok s

  -- `inplace_merge`
  unfoldable pub inplace_merge : ℕ → Links → ℕ → ℕ → ℕ → Outcome Links
  inplace_merge fuel s a0 a1b0 b1 = do
    assert (not (a0 == null))
    assert (not (a1b0 == null))
    assert (not (b1 == null))
    left ← is_sorted fuel s a0 a1b0
    assert left
    right ← is_sorted fuel s a1b0 b1
    assert right
    merge_loop fuel s a0 a1b0 b1

  -- One pass of `list_sort`, with the runs output so far.
  unfoldable pub pass_loop : ℕ → ℕ → Links → ℕ → ℕ → ℕ → Outcome (Links × ℕ)
  pass_loop zero fuel' s list a0 cnt = runs_on
  pass_loop (suc fuel) fuel' s list a0 cnt =
      let merged = λ (a1b0 : ℕ).
        (find_end_of_run fuel' s a1b0 (list_end list) >>= λ b1.
        inplace_merge fuel' s a0 a1b0 b1 >>= λ s'. pass_loop fuel fuel' s' list b1 (cnt + 1)) in
      if a0 == list_end list
      then ok (s, cnt)
      else (find_end_of_run fuel' s a0 (list_end list) >>= λ a1b0.
          if a1b0 == list_end list then ok (s, cnt + 1) else merged a1b0)

  -- The passes of `list_sort`.
  unfoldable pub sort_loop : ℕ → ℕ → Links → ℕ → Outcome Links
  sort_loop zero fuel' s list = runs_on
  sort_loop (suc fuel) fuel' s list = list_begin s list >>= λ b.
      pass_loop fuel' fuel' s list b 0 >>= λ r.
      let again = sort_loop fuel fuel' r.0 list in if ltb 1 r.1 then again else ok r.0

  -- `list_sort`
  unfoldable pub list_sort : ℕ → Links → ℕ → Outcome Links
  list_sort fuel s list = do
    s' ← sort_loop fuel fuel s list
    b ← list_begin s' list
    sorted ← is_sorted fuel s' b (list_end list)
    assert sorted
    ok s'

  -- The loop of `list_insert_ordered`: the element before which the new one goes.
  unfoldable pub place_loop : ℕ → Links → ℕ → ℕ → ℕ → Outcome ℕ
  place_loop zero s list elem e = runs_on
  place_loop (suc fuel) s list elem e =
      let rest = (list_next s e >>= λ e'. place_loop fuel s list elem e') in
      if e == list_end list then ok e else if less elem e then ok e else rest

  -- `list_insert_ordered`
  unfoldable pub list_insert_ordered : ℕ → Links → ℕ → ℕ → Outcome Links
  list_insert_ordered fuel s list elem = do
    b ← list_begin s list
    e ← place_loop fuel s list elem b
    list_insert s e elem

  -- `list_push_back (duplicates, next)` if there is such a list
  abbrev pub keep_duplicate : Links → Option ℕ → ℕ → Outcome Links
  keep_duplicate s none e = ok s
  keep_duplicate s (some duplicates) e = list_push_back s duplicates e

  -- The loop of `list_unique`.
  unfoldable pub unique_loop : ℕ → Links → ℕ → Option ℕ → ℕ → Outcome Links
  unique_loop zero s list duplicates elem = runs_on
  unique_loop (suc fuel) s list duplicates elem = list_next s elem >>= λ n.
      let drop_it =
        (list_remove s n >>= λ r.
        keep_duplicate r.0 duplicates n >>= λ s'. unique_loop fuel s' list duplicates elem) in
      let on = unique_loop fuel s list duplicates n in
      if n == list_end list
      then ok s
      else if not (less elem n) && not (less n elem)
      then drop_it
      else on

  -- `list_unique`
  unfoldable pub list_unique : ℕ → Links → ℕ → Option ℕ → Outcome Links
  list_unique fuel s list duplicates = list_empty s list >>= λ empty.
      if empty then ok s else (list_begin s list >>= λ b. unique_loop fuel s list duplicates b)

  -- The loop of `list_max` and `list_min`: `better` compares the one so far with the next one.
  unfoldable pub best_loop : (ℕ → ℕ → Bool) → ℕ → Links → ℕ → ℕ → ℕ → Outcome ℕ
  best_loop better zero s list best e = runs_on
  best_loop better (suc fuel) s list best e =
      let rest =
        (list_next s e >>= λ e'.
        best_loop better fuel s list (if better best e then e else best) e') in
      if e == list_end list then ok best else rest

  abbrev pub best_of : (ℕ → ℕ → Bool) → ℕ → Links → ℕ → Outcome ℕ
  best_of better fuel s list = list_begin s list >>= λ b.
      if b == list_end list then ok b else (list_next s b >>= λ e. best_loop better fuel s list b e)

  -- `list_max`
  unfoldable pub list_max : ℕ → Links → ℕ → Outcome ℕ
  list_max = best_of (λ best e. less best e)

  -- `list_min`
  unfoldable pub list_min : ℕ → Links → ℕ → Outcome ℕ
  list_min = best_of (λ best e. less e best)
