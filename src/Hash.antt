-- ===== src/Hash.antt =====
-- lib/kernel/hash.c: chained hash tables. A bucket is the sequence of elements that its list holds,
-- the front first. `memory` says whether malloc gives the array of buckets that a call asks for.
pub mod Chain
pub mod Buckets
pub mod Powers
pub mod Rehash
pub mod Map
pub mod Bytes
mod Tests
use cs439_project.Prelude.{
  ℕ, zero, suc, ◌+◌, ◌-◌, ◌*◌, ◌/◌, ◌%◌, ◌^◌, Bool, true, false, not, ◌&&◌, List, [], ◌∷◌, ◌++◌,
  Option, none, some, if◌then◌else◌, ltb, ◌==◌, Outcome, ok, wild, ◌>>=◌, deref, get_elem?, set,
  replicate, bit_and, bit_xor,
}

-- `h->hash` and `h->less`, which `hash_init` sets and nothing changes
pub record Keys (A : Type 0) : Type 0 where
  pub hash : A → ℕ
  pub less : A → A → Bool

-- `struct hash`, less the functions
pub record Hash (A : Type 0) : Type 0 where
  pub elem_cnt : ℕ
  pub bucket_cnt : ℕ
  pub buckets : List (List A)

-- `turn_off_least_1bit`
abbrev pub turn_off_least_1bit : ℕ → ℕ
turn_off_least_1bit x = bit_and x (x - 1)

-- `is_power_of_2`
abbrev pub is_power_of_2 : ℕ → Bool
is_power_of_2 x = not (x == 0) && turn_off_least_1bit x == 0

-- The loop of `rehash` that looks for a power of 2, on fuel: the number falls in each round.
unfoldable pub power_loop : ℕ → ℕ → ℕ
power_loop zero n = n
power_loop (suc fuel) n =
    let rest = power_loop fuel (turn_off_least_1bit n) in if is_power_of_2 n then n else rest

-- `new_bucket_cnt`
unfoldable pub ideal_cnt : ℕ → ℕ
ideal_cnt elem_cnt = let n = elem_cnt / 2 in let n' = if ltb n 4 then 4 else n in power_loop n' n'

module _ {A : Type 0} where
  abbrev pub empty_buckets : ℕ → List (List A)
  empty_buckets n = replicate n []

  -- `hash_init`
  unfoldable pub hash_init : Bool → Option (Hash A)
  hash_init memory =
      if memory
      then some (record { elem_cnt = 0; bucket_cnt = 4; buckets = empty_buckets 4 })
      else none

  abbrev pub concat : List (List A) → List A
  concat [] = []
  concat (b ∷ bs) = b ++ concat bs

  -- The loop of `hash_clear`: every list is initialized.
  abbrev pub clear_loop : List (List A) → List (List A)
  clear_loop [] = []
  clear_loop (b ∷ bs) = [] ∷ clear_loop bs

  -- `hash_clear`: the table, and the elements that a destructor is called for, in order
  unfoldable pub hash_clear : Hash A → Hash A × List A
  hash_clear h = (record h { elem_cnt = 0; buckets = clear_loop h.buckets }, concat h.buckets)

  -- `hash_apply`, and an iteration by `hash_first` and `hash_next`: the elements in order
  unfoldable pub hash_elements : Hash A → List A
  hash_elements h = concat h.buckets

  -- `hash_size`
  abbrev pub hash_size : Hash A → ℕ
  hash_size h = h.elem_cnt

  -- `hash_empty`
  abbrev pub hash_empty : Hash A → Bool
  hash_empty h = h.elem_cnt == 0

  module _ (k : Keys A) where
    -- The test of `find_elem`: neither element is less than the other.
    unfoldable pub is_same : A → A → Bool
    is_same a b = not (k.less a b) && not (k.less b a)

    -- `bucket_idx` in `find_bucket`
    abbrev pub bucket_idx : ℕ → A → ℕ
    bucket_idx bucket_cnt e = bit_and (k.hash e) (bucket_cnt - 1)

    -- `find_bucket`: the index of the bucket and what it holds
    unfoldable pub find_bucket : Hash A → A → Outcome (ℕ × List A)
    find_bucket h e = deref (get_elem? h.buckets (bucket_idx h.bucket_cnt e)) >>= λ b.
        ok (bucket_idx h.bucket_cnt e, b)

    -- `find_elem`
    unfoldable pub find_elem : List A → A → Option A
    find_elem [] e = none
    find_elem (i ∷ bucket) e = if is_same i e then some i else find_elem bucket e

    -- `list_remove` of the element that `find_elem` found
    unfoldable pub unlink : List A → A → List A
    unlink [] e = []
    unlink (i ∷ bucket) e = if is_same i e then bucket else i ∷ unlink bucket e

    -- `list_push_front (find_bucket (h, elem), elem)` in `rehash`
    unfoldable pub push : Hash A → A → Outcome (Hash A)
    push h e = find_bucket h e >>= λ b. ok (record h { buckets = set h.buckets b.0 (e ∷ b.1) })

    -- The loop of `rehash` over the elements of an old bucket.
    unfoldable pub move_bucket : List A → Hash A → Outcome (Hash A)
    move_bucket [] h = ok h
    move_bucket (e ∷ bucket) h = push h e >>= λ h'. move_bucket bucket h'

    -- The loop of `rehash` over the old buckets.
    unfoldable pub move_all : List (List A) → Hash A → Outcome (Hash A)
    move_all [] h = ok h
    move_all (b ∷ bs) h = move_bucket b h >>= λ h'. move_all bs h'

    -- `rehash`
    unfoldable pub rehash : Bool → Hash A → Outcome (Hash A)
    rehash memory h =
        let new_bucket_cnt = ideal_cnt h.elem_cnt in
        if new_bucket_cnt == h.bucket_cnt
        then ok h
        else if memory
        then move_all h.buckets
            (record h { bucket_cnt = new_bucket_cnt; buckets = empty_buckets new_bucket_cnt })
        else ok h

    -- `insert_elem` into the bucket at an index; there is less memory than elements that a `size_t`
    -- counts.
    abbrev pub insert_elem : Hash A → ℕ → List A → A → Hash A
    insert_elem h idx bucket e = record h {
      elem_cnt = h.elem_cnt + 1;
      buckets = set h.buckets idx (e ∷ bucket);
    }

    -- `remove_elem` of the element that was found in the bucket at an index
    abbrev pub remove_elem : Hash A → ℕ → List A → A → Hash A
    remove_elem h idx bucket e = record h {
      elem_cnt = h.elem_cnt - 1;
      buckets = set h.buckets idx (unlink bucket e);
    }

    -- `hash_insert`
    unfoldable pub hash_insert : Bool → Hash A → A → Outcome (Hash A × Option A)
    hash_insert memory h new = find_bucket h new >>= λ b. elim (find_elem b.1 new) [
      | none ↦ rehash memory (insert_elem h b.0 b.1 new) >>= λ h'. ok (h', none)
      | some old ↦ rehash memory h >>= λ h'. ok (h', some old)
    ]

    -- `hash_replace`
    unfoldable pub hash_replace : Bool → Hash A → A → Outcome (Hash A × Option A)
    hash_replace memory h new = find_bucket h new >>= λ b. elim (find_elem b.1 new) [
      | none ↦ rehash memory (insert_elem h b.0 b.1 new) >>= λ h'. ok (h', none)
      | some old ↦
          rehash memory (insert_elem (remove_elem h b.0 b.1 new) b.0 (unlink b.1 new) new) >>= λ h'.
          ok (h', some old)
    ]

    -- `hash_find`
    unfoldable pub hash_find : Hash A → A → Outcome (Option A)
    hash_find h e = find_bucket h e >>= λ b. ok (find_elem b.1 e)

    -- `hash_delete`
    unfoldable pub hash_delete : Bool → Hash A → A → Outcome (Hash A × Option A)
    hash_delete memory h e = find_bucket h e >>= λ b. elim (find_elem b.1 e) [
      | none ↦ ok (h, none)
      | some found ↦ rehash memory (remove_elem h b.0 b.1 e) >>= λ h'. ok (h', some found)
    ]
