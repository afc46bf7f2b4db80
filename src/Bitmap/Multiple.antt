-- ===== src/Bitmap/Multiple.antt =====
-- Setting, counting and searching a range of bits.
use cs439_project.Prelude.{
  in_range, ℕ, zero, suc, ◌+◌, ◌^◌, ◌≤◌, ◌<◌, Bool, true, false, not, if◌then◌else◌, ◌==◌, same,
  ◌≡◌, refl, sym, ◌∙◌, ok, arith, le→leb, subst, inl, inr, Bool-cases, ◌>>=◌,
}
use native.Mathlib.Nat.{mod-eq_of_lt, add-zero, add_assoc}
use cs439_project.Bitmap.{
  Bitmap, set_bit, test, set_loop, set_multiple, contains_loop, contains, assert_range,
}
use cs439_project.Bitmap.Single.{IsValid, get, Becomes, Becomes-IsValid, set_bit-Becomes, test-get}

-- A range is its first number and the range after it.
range-suc :
    (v : Bool) (f : ℕ → Bool) (lo left j : ℕ)
    → (if in_range (lo + 1) left j then v else if lo == j then v else f j)
      ≡ (if in_range lo (suc left) j then v else f j)
range-suc v f lo left j = ground arith

set_loop-suc :
    (left : ℕ) (b : Bitmap) (start i : ℕ) (value : Bool) {b' b'' : Bitmap}
    → start + i < 2 ^ 32
    → set_bit b (start + i) value ≡ ok b'
    → set_loop left b' start (i + 1) value ≡ ok b''
    → set_loop (suc left) b start i value ≡ ok b''
unfolding set_loop
set_loop-suc left b start i value small done rest = rw (mod-eq_of_lt small, done) rest

set_loop-Becomes :
    (left : ℕ) (b : Bitmap) (start i : ℕ) (value : Bool)
    → IsValid b
    → start + i + left ≤ b.bit_cnt
    → (b' : Bitmap) × (set_loop left b start i value ≡ ok b')
      × Becomes b b' (λ j. if in_range (start + i) left j then value else get b j)
unfolding set_loop
set_loop-Becomes zero b start i value valid fits = (b, refl, (refl, refl, λ j. ground arith))
set_loop-Becomes (suc left) b start i value valid fits =
    first (set_bit-Becomes b valid (start + i) (omega arith) value)
      (λ b' v f. set_loop-Becomes left b' start (i + 1) value v f)
  where
    Goal : Type 0
    Goal =
        (b' : Bitmap) × (set_loop (suc left) b start i value ≡ ok b')
        × Becomes b b' (λ j. if in_range (start + i) (suc left) j then value else get b j)

    rest :
        (b' : Bitmap)
        → set_bit b (start + i) value ≡ ok b'
        → Becomes b b' (λ j. if start + i == j then value else get b j)
        → (b'' : Bitmap) × (set_loop left b' start (i + 1) value ≡ ok b'')
          × Becomes b' b'' (λ j. if in_range (start + (i + 1)) left j then value else get b' j)
        → Goal
    rest b' done (cnt, len, bits) (b'', done', (cnt', len', bits')) = (
      b'',
      set_loop-suc left b start i value (omega arith) done done',
      (
        omega arith,
        omega arith,
        λ j.
            bits' j
            ∙ rw (bits j, ← add_assoc start i 1) (range-suc value (get b) (start + i) left j),
      ),
    )

    first :
        (b' : Bitmap) × (set_bit b (start + i) value ≡ ok b')
          × Becomes b b' (λ j. if start + i == j then value else get b j)
        → ((b' : Bitmap)
            → IsValid b'
            → start + (i + 1) + left ≤ b'.bit_cnt
            → (b'' : Bitmap) × (set_loop left b' start (i + 1) value ≡ ok b'')
              × Becomes b' b'' (λ j. if in_range (start + (i + 1)) left j then value else get b' j))
        → Goal
    first (b', done, is) ih =
        rest b' done is (ih b' (Becomes-IsValid b b' _ is valid) (omega arith))

-- Both ASSERTs pass on a range that lies in the bitmap.
pub range_ok :
    (b : Bitmap) (start cnt : ℕ)
    → IsValid b
    → start + cnt ≤ b.bit_cnt
    → assert_range b start cnt ≡ ok tt
range_ok b start cnt valid fits = rw (
  mod-eq_of_lt {n = start + cnt} {m = 2 ^ 32} (omega arith),
  le→leb (start + cnt) b.bit_cnt fits,
  le→leb start b.bit_cnt (omega arith),
)

-- `bitmap_set_multiple` on a range that lies in the bitmap sets exactly the bits of that range.
pub set_multiple-Becomes :
    (b : Bitmap) (start cnt : ℕ) (value : Bool)
    → IsValid b
    → start + cnt ≤ b.bit_cnt
    → (b' : Bitmap) × (set_multiple b start cnt value ≡ ok b')
      × Becomes b b' (λ j. if in_range start cnt j then value else get b j)
unfolding set_multiple
set_multiple-Becomes b start cnt value valid fits = rw (range_ok b start cnt valid fits) (
    subst
      (λ (k : ℕ).
        (b' : Bitmap) × (set_loop cnt b start 0 value ≡ ok b')
        × Becomes b b' (λ j. if in_range k cnt j then value else get b j))
      (add-zero start) (set_loop-Becomes cnt b start 0 value valid (omega arith)))

-- What `bitmap_contains` answers: whether one of the bits has the value.
abbrev pub Found : Bitmap → ℕ → ℕ → Bool → Bool → Type 0
Found b start cnt value true = (i : ℕ) × (i < cnt) × (get b (start + i) ≡ value)
Found b start cnt value false = (i : ℕ) → i < cnt → get b (start + i) ≡ not value

same-true : (a b : Bool) → same a b ≡ true → a ≡ b
same-true true b h = sym h
same-true false true h = cc
same-true false false h = refl

same-false : (a b : Bool) → same a b ≡ false → a ≡ not b
same-false true true h = cc
same-false true false h = refl
same-false false true h = refl
same-false false false h = cc

module _ (left : ℕ) (b : Bitmap) (start i : ℕ) (value t : Bool) (small : start + i < 2 ^ 32)
    (read : test b (start + i) ≡ ok t) where
  contains_loop_hit : same t value ≡ true → contains_loop (suc left) b start i value ≡ ok true
  unfolding contains_loop
  contains_loop_hit hit = rw (mod-eq_of_lt small, read, ◌>>=◌, hit)

  contains_loop_miss :
      same t value ≡ false
      → contains_loop (suc left) b start i value ≡ contains_loop left b start (i + 1) value
  unfolding contains_loop
  contains_loop_miss miss = rw (mod-eq_of_lt small, read, ◌>>=◌, miss)

contains_loop-Found :
    (left : ℕ) (b : Bitmap) (start i : ℕ) (value : Bool)
    → IsValid b
    → start + i + left ≤ b.bit_cnt
    → (c : Bool) × (contains_loop left b start i value ≡ ok c) × Found b (start + i) left value c
unfolding contains_loop
contains_loop-Found zero b start i value valid fits = (false, refl, λ k h. absurd (omega arith))
contains_loop-Found (suc left) b start i value valid fits =
    elim (Bool-cases (same (get b (start + i)) value)) [
      | inl hit ↦ (
        true,
        contains_loop_hit left b start i value (get b (start + i)) (omega arith) read hit,
        (0, omega arith, rw (add-zero (start + i)) (same-true _ _ hit)),
      )
      | inr miss ↦
          extend (same-false _ _ miss)
            (contains_loop_miss left b start i value (get b (start + i)) (omega arith) read miss)
            (contains_loop-Found left b start (i + 1) value valid (omega arith))
    ]
  where
    read : test b (start + i) ≡ ok (get b (start + i))
    read = test-get b valid (start + i) (omega arith)

    later : (k : ℕ) → get b (start + (i + 1) + k) ≡ get b (start + i + suc k)
    later k = let e : start + (i + 1) + k ≡ start + i + suc k = omega arith in rw e

    all_miss :
        get b (start + i) ≡ not value
        → ((k : ℕ) → k < left → get b (start + (i + 1) + k) ≡ not value)
        → (k : ℕ) → k < suc left
        → get b (start + i + k) ≡ not value
    all_miss miss h zero lt = rw (add-zero (start + i)) miss
    all_miss miss h (suc k) lt = sym (later k) ∙ h k (omega arith)

    extend :
        get b (start + i) ≡ not value
        → contains_loop (suc left) b start i value ≡ contains_loop left b start (i + 1) value
        → (c : Bool) × (contains_loop left b start (i + 1) value ≡ ok c)
          × Found b (start + (i + 1)) left value c
        → (c : Bool) × (contains_loop (suc left) b start i value ≡ ok c)
          × Found b (start + i) (suc left) value c
    extend miss on (true, e, (k, lt, h)) = (true, on ∙ e, (suc k, omega arith, sym (later k) ∙ h))
    extend miss on (false, e, h) = (false, on ∙ e, all_miss miss h)

-- `bitmap_contains` on a range that lies in the bitmap finds a bit of the value, or all bits of
-- the range have the other value.
pub contains-Found :
    (b : Bitmap) (start cnt : ℕ) (value : Bool)
    → IsValid b
    → start + cnt ≤ b.bit_cnt
    → (c : Bool) × (contains b start cnt value ≡ ok c) × Found b start cnt value c
unfolding contains
contains-Found b start cnt value valid fits = rw (range_ok b start cnt valid fits) (
    subst
      (λ (k : ℕ). (c : Bool) × (contains_loop cnt b start 0 value ≡ ok c) × Found b k cnt value c)
      (add-zero start) (contains_loop-Found cnt b start 0 value valid (omega arith)))
