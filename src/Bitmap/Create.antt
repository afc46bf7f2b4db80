-- ===== src/Bitmap/Create.antt =====
-- Creating a bitmap, and counting its bits.
use cs439_project.Prelude.{
  in_range, ℕ, zero, suc, ◌+◌, ◌^◌, ◌≤◌, ◌<◌, Bool, true, false, if◌then◌else◌, ◌≡◌, refl, ◌∙◌, ok,
  length, arith, none, some, List, same, ==_ne,
}
use native.Mathlib.Nat.{mod-eq_of_lt}
use cs439_project.Bitmap.{Bitmap, create, set_all, elem_cnt, count_loop, count, test}
use cs439_project.Bitmap.Single.{IsValid, get, Becomes, Becomes-IsValid, test-get}
use cs439_project.Bitmap.Multiple.{set_multiple-Becomes, range_ok}

-- `bitmap_set_all` gives every bit of the bitmap the value.
pub set_all-Becomes :
    (b : Bitmap) (value : Bool)
    → IsValid b
    → (b' : Bitmap) × (set_all b value ≡ ok b')
      × Becomes b b' (λ j. if in_range 0 b.bit_cnt j then value else get b j)
unfolding set_all
set_all-Becomes b value valid = set_multiple-Becomes b 0 b.bit_cnt value valid (omega arith)

-- A new bitmap is valid, has the size asked for, and all its bits are false.
abbrev pub IsClear : ℕ → Bitmap → Type 0
IsClear bit_cnt b = IsValid b × (b.bit_cnt ≡ bit_cnt) × ((j : ℕ) → j < bit_cnt → get b j ≡ false)

-- `bitmap_create`, given the memory that it asks for, returns a bitmap of all false bits whatever
-- the memory holds; without memory it returns NULL. The count plus 31 must not wrap.
pub create-IsClear :
    (bit_cnt : ℕ) (words : List ℕ)
    → bit_cnt + 31 < 2 ^ 32
    → length words ≡ elem_cnt bit_cnt
    → ((b : Bitmap) × (create bit_cnt true (some words) ≡ ok (some b)) × IsClear bit_cnt b)
      × (create bit_cnt false (some words) ≡ ok none)
      × (create (suc bit_cnt) true none ≡ ok none)
unfolding create
create-IsClear bit_cnt words small room = (
  clear (set_all-Becomes fresh false (omega arith)),
  refl,
  rw (==_ne (suc bit_cnt) 0 (omega arith)),
)
  where
    fresh : Bitmap
    fresh = record { bit_cnt = bit_cnt; bits = words }

    clear :
        (b : Bitmap) × (set_all fresh false ≡ ok b)
          × Becomes fresh b (λ j. if in_range 0 bit_cnt j then false else get fresh j)
        → (b : Bitmap) × (create bit_cnt true (some words) ≡ ok (some b)) × IsClear bit_cnt b
    clear (b, done, (cnt, len, bits)) = (
      b,
      rw done,
      (
        Becomes-IsValid fresh b (λ j. if in_range 0 bit_cnt j then false else get fresh j)
            (cnt, len, bits) (omega arith),
        cnt,
        λ j lt. bits j ∙ ground arith,
      ),
    )

module _ (left : ℕ) (b : Bitmap) (start i : ℕ) (value t : Bool) (acc : ℕ) where
  count_loop-suc :
      start + i < 2 ^ 32
      → test b (start + i) ≡ ok t
      → count_loop (suc left) b start i value acc
        ≡ count_loop left b start (i + 1) value (if same t value then acc + 1 else acc)
  unfolding count_loop
  count_loop-suc small read = rw (mod-eq_of_lt small, read)

-- Between them the two counts count every bit once.
both_counts :
    (left : ℕ) (b : Bitmap) (start i m n : ℕ)
    → IsValid b
    → start + i + left ≤ b.bit_cnt
    → (p q : ℕ) × (count_loop left b start i true m ≡ ok p)
      × (count_loop left b start i false n ≡ ok q)
      × (p + q ≡ m + n + left)
unfolding count_loop
both_counts zero b start i m n valid fits = (m, n, refl, refl, omega arith)
both_counts (suc left) b start i m n valid fits =
    go (get b (start + i)) (test-get b valid (start + i) (omega arith))
      (λ m n. both_counts left b start (i + 1) m n valid (omega arith))
  where
    go :
        (t : Bool)
        → test b (start + i) ≡ ok t
        → ((m n : ℕ)
            → (p q : ℕ) × (count_loop left b start (i + 1) true m ≡ ok p)
              × (count_loop left b start (i + 1) false n ≡ ok q)
              × (p + q ≡ m + n + left))
        → (p q : ℕ) × (count_loop (suc left) b start i true m ≡ ok p)
          × (count_loop (suc left) b start i false n ≡ ok q)
          × (p + q ≡ m + n + suc left)
    go true read ih =
        let (p, q, e, e', s) = ih (m + 1) n in
        (
          p,
          q,
          count_loop-suc left b start i true true m (omega arith) read ∙ e,
          count_loop-suc left b start i false true n (omega arith) read ∙ e',
          omega (arith, s),
        )
    go false read ih =
        let (p, q, e, e', s) = ih m (n + 1) in
        (
          p,
          q,
          count_loop-suc left b start i true false m (omega arith) read ∙ e,
          count_loop-suc left b start i false false n (omega arith) read ∙ e',
          omega (arith, s),
        )

-- `bitmap_count` of the true bits and of the false bits of a range in the bitmap add up to the
-- length of the range.
pub count_partition :
    (b : Bitmap) (start cnt : ℕ)
    → IsValid b
    → start + cnt ≤ b.bit_cnt
    → (p q : ℕ) × (count b start cnt true ≡ ok p) × (count b start cnt false ≡ ok q) × (p + q ≡ cnt)
unfolding count
count_partition b start cnt valid fits = rw (range_ok b start cnt valid fits) (
    let (p, q, e, e', s) = both_counts cnt b start 0 0 0 valid (omega arith) in
    (p, q, e, e', omega (arith, s)))
