-- ===== src/Bitmap/Single.antt =====
-- Setting, resetting, flipping and testing one bit of a bitmap.
use cs439_project.Prelude.{
  ℕ, ◌-◌, ◌*◌, ◌/◌, ◌%◌, ◌^◌, ◌≤◌, ◌<◌, bit_and, bit_or, bit_xor, Bool, true, false, not,
  if◌then◌else◌, ◌==◌, ◌≡◌, ◌≢◌, refl, ap, List, sym, ◌∙◌, ok, get_or, set, length, length-set,
  get_elem?-eq-get_or, get_or-set_self, get_or-set_ne, arith, lt→ltb, ==_refl, ==_ne, ℕ_discrete,
}
use cs439_project.Prelude.Bits.{
  bit, bit-lt, bit-bit_or, bit-bit_and, bit-bit_xor, bit-pow_self, bit-pow_ne, bit-ones, no_bits,
  differ_digits, bit-zero,
}
use cs439_project.Bitmap.{
  Bitmap, elem_bits, elem_idx, bit_mask, complement, mark, reset, flip, set_bit, test, update_elem,
}

-- The elements hold all the bits that are counted, and the count is a `size_t`.
abbrev pub IsValid : Bitmap → Type 0
IsValid b = (b.bit_cnt ≤ elem_bits * length b.bits) × (b.bit_cnt < 2 ^ 32)

-- The bit i of the bitmap, as a truth value.
abbrev pub get : Bitmap → ℕ → Bool
get b i = bit (get_or b.bits (i / 32) 0) (i % 32) == 1

-- `b'` has the size of `b` and holds the bits `f`.
abbrev pub Becomes : Bitmap → Bitmap → (ℕ → Bool) → Type 0
Becomes b b' f =
    (b'.bit_cnt ≡ b.bit_cnt) × (length b'.bits ≡ length b.bits) × ((j : ℕ) → get b' j ≡ f j)

one_bit-and : (w m k : ℕ) → bit (bit_and w (2 ^ m)) k ≡ (if m == k then bit w k else 0)
one_bit-and w m k = elim (ℕ_discrete m k) [
  | yes e ↦ rw (bit-bit_and, ← e, bit-pow_self, ==_refl) (omega (arith, bit-lt w m))
  | no ne ↦ rw (bit-bit_and, bit-pow_ne m k ne, ==_ne m k ne) (omega arith)
]

masked : (w m : ℕ) → not (bit_and w (2 ^ m) == 0) ≡ (bit w m == 1)
masked w m = elim (ℕ_discrete (bit w m) 0) [
  | yes e ↦ rw (empty e, e)
  | no ne ↦ rw (==_ne (bit_and w (2 ^ m)) 0 (filled ne)) (ground (arith, bit-lt w m))
]
  where
    empty : bit w m ≡ 0 → bit_and w (2 ^ m) ≡ 0
    empty e = no_bits (bit_and w (2 ^ m)) (bit_and w (2 ^ m)) (omega arith) λ k.
        elim (ℕ_discrete m k) [
          | yes q ↦ one_bit-and w m k ∙ ground (arith, ap (bit w) q)
          | no q ↦ rw (one_bit-and, ==_ne m k q)
        ]

    filled : bit w m ≢ 0 → bit_and w (2 ^ m) ≢ 0
    filled ne z = ne (sym (one_bit-and w m m ∙ rw ==_refl) ∙ ap (λ (t : ℕ). bit t m) z ∙ bit-zero m)

or_mask : (w m k : ℕ) → bit (bit_or w (2 ^ m)) k ≡ (if m == k then 1 else bit w k)
or_mask w m k = elim (ℕ_discrete m k) [
  | yes e ↦ rw (bit-bit_or, ← e, bit-pow_self, ==_refl) (omega (arith, bit-lt w m))
  | no ne ↦ rw (bit-bit_or, bit-pow_ne m k ne, ==_ne m k ne) (omega arith)
]

bit-complement_self : (m : ℕ) → m < 32 → bit (complement (2 ^ m)) m ≡ 0
bit-complement_self m h = rw (bit-bit_xor, bit-pow_self, bit-ones 32 m h)

bit-complement_ne : (m k : ℕ) → k < 32 → m ≢ k → bit (complement (2 ^ m)) k ≡ 1
bit-complement_ne m k h ne = rw (bit-bit_xor, bit-pow_ne m k ne, bit-ones 32 k h)

and_mask :
    (w m k : ℕ) → k < 32 → bit (bit_and w (complement (2 ^ m))) k ≡ (if m == k then 0 else bit w k)
and_mask w m k h = elim (ℕ_discrete m k) [
  | yes e ↦ rw (bit-bit_and, ← e, bit-complement_self m (rw e h), ==_refl) (omega arith)
  | no ne ↦ rw (bit-bit_and, bit-complement_ne m k h ne, ==_ne m k ne) (omega (arith, bit-lt w k))
]

xor_mask : (w m k : ℕ) → bit (bit_xor w (2 ^ m)) k ≡ (if m == k then 1 - bit w k else bit w k)
xor_mask w m k = elim (ℕ_discrete m k) [
  | yes e ↦
      rw (bit-bit_xor, ← e, bit-pow_self, ==_refl)
        (omega (arith, differ_digits (bit w m) 1, bit-lt w m))
  | no ne ↦
      rw (bit-bit_xor, bit-pow_ne m k ne, ==_ne m k ne)
        (omega (arith, differ_digits (bit w k) 0, bit-lt w k))
]

-- Changing the bit i of its element changes the bit i of the array and no other.
bit-set :
    (ws : List ℕ) (i j w v : ℕ)
    → i / 32 < length ws
    → ((k : ℕ) → k < 32 → bit w k ≡ (if i % 32 == k then v else bit (get_or ws (i / 32) 0) k))
    → bit (get_or (set ws (i / 32) w) (j / 32) 0) (j % 32)
      ≡ (if i == j then v else bit (get_or ws (j / 32) 0) (j % 32))
bit-set ws i j w v fits word = elim (ℕ_discrete (i / 32) (j / 32)) [
  | yes e ↦
      rw (← e, get_or-set_self ws (i / 32) w 0 fits)
        (word (j % 32) (omega arith)
          ∙ ap (λ (t : Bool). if t then v else bit (get_or ws (i / 32) 0) (j % 32)) (ground arith))
  | no ne ↦
      rw (get_or-set_ne ws (i / 32) (j / 32) w 0 ne, ==_ne i j (λ q. ne (ap (λ (t : ℕ). t / 32) q)))
]

if_lem : (t : Bool) (v w : ℕ) → ((if t then v else w) == 1) ≡ (if t then v == 1 else w == 1)
if_lem true v w = refl
if_lem false v w = refl

module _ (b : Bitmap) (valid : IsValid b) (i : ℕ) (within : i < b.bit_cnt) where
  in_array : i / 32 < length b.bits
  in_array = omega arith

  -- Testing a bit in range returns it.
  pub test-get : test b i ≡ ok (get b i)
  unfolding test
  test-get =
      rw (lt→ltb _ _ within, get_elem?-eq-get_or b.bits (i / 32) 0 in_array)
        (ap ok (masked (get_or b.bits (i / 32) 0) (i % 32)))

  -- An instruction that gives the bit i the value v and keeps the others of its element.
  update-Becomes :
      (f : ℕ → ℕ) (v : ℕ)
      → ((w k : ℕ)
          → k < 32
          → w ≡ get_or b.bits (i / 32) 0
          → bit (f w) k ≡ (if i % 32 == k then v else bit w k))
      → (b' : Bitmap) × (update_elem b (elem_idx i) f ≡ ok b')
        × Becomes b b' (λ j. if i == j then v == 1 else get b j)
  update-Becomes f v word = (
    record b { bits = set b.bits (i / 32) (f (get_or b.bits (i / 32) 0)) },
    rw (get_elem?-eq-get_or b.bits (i / 32) 0 in_array),
    (
      refl,
      length-set b.bits (i / 32) (f (get_or b.bits (i / 32) 0)),
      λ j.
          ap (λ (t : ℕ). t == 1)
            (bit-set b.bits i j (f (get_or b.bits (i / 32) 0)) v in_array (λ k h. word _ k h refl))
          ∙ if_lem (i == j) v (bit (get_or b.bits (j / 32) 0) (j % 32)),
    ),
  )

  -- Marking a bit in range sets it to true and keeps the others.
  pub mark-Becomes :
      (b' : Bitmap) × (mark b i ≡ ok b') × Becomes b b' (λ j. if i == j then true else get b j)
  unfolding mark
  mark-Becomes = update-Becomes (λ w. bit_or w (bit_mask i)) 1 (λ w k h e. or_mask w (i % 32) k)

  pub reset-Becomes :
      (b' : Bitmap) × (reset b i ≡ ok b') × Becomes b b' (λ j. if i == j then false else get b j)
  unfolding reset
  reset-Becomes =
      update-Becomes (λ w. bit_and w (complement (bit_mask i))) 0
        (λ w k h e. and_mask w (i % 32) k h)

  pub flip-Becomes :
      (b' : Bitmap) × (flip b i ≡ ok b')
      × Becomes b b' (λ j. if i == j then not (get b j) else get b j)
  unfolding flip
  flip-Becomes =
      let (b', done, is) =
        update-Becomes (λ w. bit_xor w (bit_mask i)) (1 - bit (get_or b.bits (i / 32) 0) (i % 32))
          (λ w k h e. flipped w k e) in
      (b', done, (is.0, is.1, λ j. is.2 j ∙ negated j))
    where
      flipped :
          (w k : ℕ)
          → w ≡ get_or b.bits (i / 32) 0
          → bit (bit_xor w (2 ^ (i % 32))) k
            ≡ (if i % 32 == k then 1 - bit (get_or b.bits (i / 32) 0) (i % 32) else bit w k)
      flipped w k e = elim (ℕ_discrete (i % 32) k) [
        | yes q ↦ xor_mask w (i % 32) k ∙ rw (← e, ← q, ==_refl)
        | no q ↦ xor_mask w (i % 32) k ∙ rw (==_ne (i % 32) k q)
      ]

      negated :
          (j : ℕ)
          → (if i == j then 1 - bit (get_or b.bits (i / 32) 0) (i % 32) == 1 else get b j)
            ≡ (if i == j then not (get b j) else get b j)
      negated j = elim (ℕ_discrete i j) [
        | yes q ↦ rw (← q, ==_refl) (ground (arith, bit-lt (get_or b.bits (i / 32) 0) (i % 32)))
        | no q ↦ rw (==_ne i j q)
      ]

  -- `bitmap_set` of a bit of the bitmap gives that bit the value, and keeps the size and every
  -- other bit.
  pub set_bit-Becomes :
      (value : Bool)
      → (b' : Bitmap) × (set_bit b i value ≡ ok b')
        × Becomes b b' (λ j. if i == j then value else get b j)
  unfolding set_bit
  set_bit-Becomes true = rw (lt→ltb _ _ within) mark-Becomes
  set_bit-Becomes false = rw (lt→ltb _ _ within) reset-Becomes

pub Becomes-IsValid : (b b' : Bitmap) (f : ℕ → Bool) → Becomes b b' f → IsValid b → IsValid b'
Becomes-IsValid b b' f is valid = omega arith
