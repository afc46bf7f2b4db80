-- ===== src/Lists.antt =====
-- lib/kernel/list.c: doubly linked lists. `struct list_elem` is embedded in other objects, so an
-- element is an address, and the store gives the `prev` and `next` of every address. A list is the
-- address of its head; its tail stands behind the head. Access through NULL is `wild`.
pub mod Chain
pub mod Insert
pub mod Remove
pub mod Ends
pub mod Sort
mod Tests
use cs439_project.Prelude.{
  ℕ, zero, suc, ◌+◌, Bool, true, false, not, ◌&&◌, ◌||◌, if◌then◌else◌, ◌==◌, Outcome, ok, wild,
  runs_on, ◌>>=◌, ◌>>◌, assert,
}

abbrev pub null : ℕ
null = 0

-- The `struct list_elem`s in memory.
pub record Links : Type 0 where
  pub prev : ℕ → ℕ
  pub next : ℕ → ℕ

abbrev pub put : (ℕ → ℕ) → ℕ → ℕ → ℕ → ℕ
put f p q a = if a == p then q else f a

abbrev pub get_next : Links → ℕ → Outcome ℕ
get_next s p = if p == null then wild else ok (s.next p)

abbrev pub get_prev : Links → ℕ → Outcome ℕ
get_prev s p = if p == null then wild else ok (s.prev p)

abbrev pub set_next : Links → ℕ → ℕ → Outcome Links
set_next s p q = if p == null then wild else ok (record s { next = put s.next p q })

abbrev pub set_prev : Links → ℕ → ℕ → Outcome Links
set_prev s p q = if p == null then wild else ok (record s { prev = put s.prev p q })

-- `&list->head` and `&list->tail`; a `struct list_elem` has eight bytes.
abbrev pub list_head : ℕ → ℕ
list_head list = list

abbrev pub list_tail : ℕ → ℕ
list_tail list = list + 8

-- `list_end` and `list_rend`
abbrev pub list_end : ℕ → ℕ
list_end list = list_tail list

abbrev pub list_rend : ℕ → ℕ
list_rend list = list_head list

abbrev pub is_head : Links → ℕ → Bool
is_head s e = not (e == null) && (s.prev e == null && not (s.next e == null))

abbrev pub is_interior : Links → ℕ → Bool
is_interior s e = not (e == null) && (not (s.prev e == null) && not (s.next e == null))

abbrev pub is_tail : Links → ℕ → Bool
is_tail s e = not (e == null) && (not (s.prev e == null) && s.next e == null)

-- `list_init`
unfoldable pub list_init : Links → ℕ → Outcome Links
list_init s list = do
  s1 ← set_prev s (list_head list) null
  s2 ← set_next s1 (list_head list) (list_tail list)
  s3 ← set_prev s2 (list_tail list) (list_head list)
  set_next s3 (list_tail list) null

-- `list_begin` and `list_rbegin`
abbrev pub list_begin : Links → ℕ → Outcome ℕ
list_begin s list = assert (not (list == null)) >> ok (s.next (list_head list))

abbrev pub list_rbegin : Links → ℕ → Outcome ℕ
list_rbegin s list = assert (not (list == null)) >> ok (s.prev (list_tail list))

-- `list_next` and `list_prev`
unfoldable pub list_next : Links → ℕ → Outcome ℕ
list_next s e = assert (is_head s e || is_interior s e) >> get_next s e

unfoldable pub list_prev : Links → ℕ → Outcome ℕ
list_prev s e = assert (is_interior s e || is_tail s e) >> get_prev s e

-- `list_insert`
unfoldable pub list_insert : Links → ℕ → ℕ → Outcome Links
list_insert s before elem = do
  assert (is_interior s before || is_tail s before)
  assert (not (elem == null))
  back ← get_prev s before
  s1 ← set_prev s elem back
  s2 ← set_next s1 elem before
  back' ← get_prev s2 before
  s3 ← set_next s2 back' elem
  set_prev s3 before elem

-- The writes of `list_splice`, once LAST is the last element to be moved.
unfoldable pub splice_range : Links → ℕ → ℕ → ℕ → Outcome Links
splice_range s before first last = do
  assert (is_interior s first)
  assert (is_interior s last)
  p ← get_prev s first
  n ← get_next s last
  s1 ← set_next s p n
  n' ← get_next s1 last
  p' ← get_prev s1 first
  s2 ← set_prev s1 n' p'
  b ← get_prev s2 before
  s3 ← set_prev s2 first b
  s4 ← set_next s3 last before
  b' ← get_prev s4 before
  s5 ← set_next s4 b' first
  set_prev s5 before last

-- `list_splice`
unfoldable pub list_splice : Links → ℕ → ℕ → ℕ → Outcome Links
list_splice s before first last = do
  assert (is_interior s before || is_tail s before)
  if first == last then ok s else (list_prev s last >>= λ last'. splice_range s before first last')

-- `list_push_front` and `list_push_back`
unfoldable pub list_push_front : Links → ℕ → ℕ → Outcome Links
list_push_front s list elem = list_begin s list >>= λ b. list_insert s b elem

unfoldable pub list_push_back : Links → ℕ → ℕ → Outcome Links
list_push_back s list elem = list_insert s (list_end list) elem

-- `list_remove`: the store, and the element behind the one removed
unfoldable pub list_remove : Links → ℕ → Outcome (Links × ℕ)
list_remove s elem = do
  assert (is_interior s elem)
  p ← get_prev s elem
  n ← get_next s elem
  s1 ← set_next s p n
  n' ← get_next s1 elem
  p' ← get_prev s1 elem
  s2 ← set_prev s1 n' p'
  r ← get_next s2 elem
  ok (s2, r)

-- `list_empty`
unfoldable pub list_empty : Links → ℕ → Outcome Bool
list_empty s list = list_begin s list >>= λ b. ok (b == list_end list)

-- `list_front` and `list_back`
unfoldable pub list_front : Links → ℕ → Outcome ℕ
list_front s list = list_empty s list >>= λ e. assert (not e) >> get_next s (list_head list)

unfoldable pub list_back : Links → ℕ → Outcome ℕ
list_back s list = list_empty s list >>= λ e. assert (not e) >> get_prev s (list_tail list)

-- `list_pop_front` and `list_pop_back`
unfoldable pub list_pop_front : Links → ℕ → Outcome (Links × ℕ)
list_pop_front s list = do front ← list_front s list; (s', r) ← list_remove s front; ok (s', front)

unfoldable pub list_pop_back : Links → ℕ → Outcome (Links × ℕ)
list_pop_back s list = do back ← list_back s list; (s', r) ← list_remove s back; ok (s', back)

-- The loop of `list_size`, on fuel; there are fewer addresses than a `size_t` counts.
unfoldable pub size_loop : ℕ → Links → ℕ → ℕ → ℕ → Outcome ℕ
size_loop zero s list e cnt = runs_on
size_loop (suc fuel) s list e cnt =
    let rest = (list_next s e >>= λ e'. size_loop fuel s list e' (cnt + 1)) in
    if e == list_end list then ok cnt else rest

-- `list_size`
unfoldable pub list_size : ℕ → Links → ℕ → Outcome ℕ
list_size fuel s list = list_begin s list >>= λ b. size_loop fuel s list b 0
