-- ===== src/CString/Move.antt =====
-- `memmove` copies blocks that may overlap.
use cs439_project.Prelude.{
  in_range, ℕ, zero, suc, ◌+◌, ◌-◌, ◌≤◌, ◌<◌, List, ◌≡◌, refl, ok, ◌>>=◌, get_or, set, length,
  length-set, get_or-set_self, get_or-set_ne, get_elem?-eq-get_or, arith, if◌then◌else◌, ltb, ◌==◌,
  lt→ltb, ==_refl, ==_ne, ℕ_discrete, ◌∙◌, Bool-cases, inl, inr, ltb→lt, ltb→le, Outcome,
}
use cs439_project.CString.{copy_up, copy_down, memmove}

pub get_or-set :
    (xs : List ℕ) (i v j : ℕ)
    → i < length xs
    → get_or (set xs i v) j 0 ≡ (if i == j then v else get_or xs j 0)
get_or-set xs i v j h = elim (ℕ_discrete i j) [
  | yes e ↦ rw (← e, ==_refl) (get_or-set_self xs i v 0 h)
  | no ne ↦ rw (==_ne i j ne) (get_or-set_ne xs i j v 0 ne)
]

-- What a copy of n bytes comes to: the destination holds the bytes that the source held before.
abbrev Moved : Outcome (List ℕ) → List ℕ → ℕ → ℕ → ℕ → Type 0
Moved outcome mem dst src n =
    (mem' : List ℕ) × (outcome ≡ ok mem')
    × (length mem' ≡ length mem)
    × ((j : ℕ)
        → get_or mem' j 0
          ≡ (if in_range dst n j then get_or mem (src + (j - dst)) 0 else get_or mem j 0))

module _ (n : ℕ) (mem : List ℕ) (dst src : ℕ) where
  copy_up_next :
      src < length mem
      → dst < length mem
      → copy_up (suc n) mem dst src ≡ copy_up n (set mem dst (get_or mem src 0)) (dst + 1) (src + 1)
  unfolding copy_up
  copy_up_next h h' = rw (get_elem?-eq-get_or mem src 0 h, ◌>>=◌, lt→ltb _ _ h')

  copy_down_next :
      src + n < length mem
      → dst + n < length mem
      → copy_down (suc n) mem dst src
        ≡ copy_down n (set mem (dst + n) (get_or mem (src + n) 0)) dst src
  unfolding copy_down
  copy_down_next h h' = rw (get_elem?-eq-get_or mem (src + n) 0 h, ◌>>=◌, lt→ltb _ _ h')

copy_up-Moved :
    (n : ℕ) (mem : List ℕ) (dst src : ℕ)
    → dst < src
    → src + n ≤ length mem
    → Moved (copy_up n mem dst src) mem dst src n
unfolding copy_up
copy_up-Moved zero mem dst src below fits = (mem, refl, refl, λ j. ground arith)
copy_up-Moved (suc n) mem dst src below fits =
    go (copy_up-Moved n mem1 (dst + 1) (src + 1) (omega arith) (omega (arith, len)))
  where
    mem1 : List ℕ
    mem1 = set mem dst (get_or mem src 0)

    len : length mem1 ≡ length mem
    len = length-set mem dst (get_or mem src 0)

    go :
        Moved (copy_up n mem1 (dst + 1) (src + 1)) mem1 (dst + 1) (src + 1) n
        → Moved (copy_up (suc n) mem dst src) mem dst src (suc n)
    go (mem', e, len', bytes) = (
      mem',
      copy_up_next n mem dst src (omega arith) (omega arith) ∙ e,
      len' ∙ len,
      λ j.
          bytes j
          ∙ rw
              (
                get_or-set mem dst (get_or mem src 0) (src + 1 + (j - (dst + 1))) (omega arith),
                get_or-set mem dst (get_or mem src 0) j (omega arith),
              )
              (first (λ k. get_or mem k 0) j),
    )
      where
        first :
            (f : ℕ → ℕ) (j : ℕ)
            → (if in_range (dst + 1) n j
                then (if dst == src + 1 + (j - (dst + 1))
                    then f src
                    else f (src + 1 + (j - (dst + 1))))
                else if dst == j
                then f src
                else f j)
              ≡ (if in_range dst (suc n) j then f (src + (j - dst)) else f j)
        first f j = ground arith

copy_down-Moved :
    (n : ℕ) (mem : List ℕ) (dst src : ℕ)
    → src ≤ dst
    → dst + n ≤ length mem
    → Moved (copy_down n mem dst src) mem dst src n
unfolding copy_down
copy_down-Moved zero mem dst src above fits = (mem, refl, refl, λ j. ground arith)
copy_down-Moved (suc n) mem dst src above fits =
    go (copy_down-Moved n mem1 dst src above (omega (arith, len)))
  where
    mem1 : List ℕ
    mem1 = set mem (dst + n) (get_or mem (src + n) 0)

    len : length mem1 ≡ length mem
    len = length-set mem (dst + n) (get_or mem (src + n) 0)

    go :
        Moved (copy_down n mem1 dst src) mem1 dst src n
        → Moved (copy_down (suc n) mem dst src) mem dst src (suc n)
    go (mem', e, len', bytes) = (
      mem',
      copy_down_next n mem dst src (omega arith) (omega arith) ∙ e,
      len' ∙ len,
      λ j.
          bytes j
          ∙ rw
              (
                get_or-set mem (dst + n) (get_or mem (src + n) 0) (src + (j - dst)) (omega arith),
                get_or-set mem (dst + n) (get_or mem (src + n) 0) j (omega arith),
              )
              (last (λ k. get_or mem k 0) j),
    )
      where
        last :
            (f : ℕ → ℕ) (j : ℕ)
            → (if in_range dst n j
                then (if dst + n == src + (j - dst) then f (src + n) else f (src + (j - dst)))
                else if dst + n == j
                then f (src + n)
                else f j)
              ≡ (if in_range dst (suc n) j then f (src + (j - dst)) else f j)
        last f j = ground arith

-- What `memmove` comes to: that, and the pointer that it returns.
abbrev pub Returns : Outcome (List ℕ × ℕ) → List ℕ → ℕ → ℕ → ℕ → ℕ → Type 0
Returns outcome mem dst src n returned =
    (mem' : List ℕ) × (outcome ≡ ok (mem', returned))
    × (length mem' ≡ length mem)
    × ((j : ℕ)
        → get_or mem' j 0
          ≡ (if in_range dst n j then get_or mem (src + (j - dst)) 0 else get_or mem j 0))

memmove_pointer :
    (outcome : Outcome (List ℕ)) (mem : List ℕ) (dst src n returned : ℕ)
    → Moved outcome mem dst src n
    → Returns (outcome >>= λ mem'. ok (mem', returned)) mem dst src n returned
memmove_pointer outcome mem dst src n returned (mem', e, len, bytes) = (mem', rw e refl, len, bytes)

-- `memmove` of two ranges of a block, however they overlap, leaves in the destination the bytes
-- that the source held before the call, and keeps all bytes outside the destination. Against the
-- source's comment it returns the end of the destination, not its start, if the destination comes
-- before the source.
pub memmove-Moved :
    (mem : List ℕ) (dst src size : ℕ)
    → dst + size ≤ length mem
    → src + size ≤ length mem
    → Returns (memmove mem dst src size) mem dst src size (if ltb dst src then dst + size else dst)
unfolding memmove
memmove-Moved mem dst src size fits fits' = elim (Bool-cases (ltb dst src)) [
  | inl h ↦
      rw h (
        memmove_pointer _ _ _ _ _ (dst + size)
          (copy_up-Moved size mem dst src (ltb→lt _ _ h) fits'))
  | inr h ↦
      rw h (memmove_pointer _ _ _ _ _ dst (copy_down-Moved size mem dst src (ltb→le _ _ h) fits))
]
