-- ===== src/Prelude/Memory.antt =====
-- Bytes in memory: an object is the list of its bytes. Access outside it is `wild`.
use Prim.Native.Nat.{ℕ, zero, suc, ◌+◌, ◌<◌, ◌≤◌, ◌^◌}
use Prim.Native.Nat.add
use mathlib.Core.Path.{◌≡◌, refl, ap, ◌∙◌}
use mathlib.Core.List.{List, [], ◌∷◌}
use native.Mathlib.Omega.{arith}
use cs439_project.Prelude.Tests.{leb, ltb, if◌then◌else◌, le→leb}
use cs439_project.Prelude.Arrays.{length, get_or, take, drop, length-take, length-drop, get_or-drop}
use cs439_project.Prelude.Results.{Outcome, ok, wild}

-- What a loop `while (n > 0)` goes over, by the bit pattern of the `int32_t` n: none if negative.
abbrev pub signed_count : ℕ → ℕ
signed_count n = if ltb n (2 ^ 31) then n else 0

module _ {ℓ} {A : Type ℓ} where
  -- `xs` with `bs` written over it from the index o on.
  abbrev pub overwrite : List A → ℕ → List A → List A
  overwrite [] o bs = []
  overwrite (x ∷ xs) zero [] = x ∷ xs
  overwrite (x ∷ xs) zero (b ∷ bs) = b ∷ overwrite xs zero bs
  overwrite (x ∷ xs) (suc o) bs = x ∷ overwrite xs o bs

  pub length-overwrite :
      (xs : List A) (o : ℕ) (bs : List A) → length (overwrite xs o bs) ≡ length xs
  length-overwrite [] o bs = refl
  length-overwrite (x ∷ xs) zero [] = refl
  length-overwrite (x ∷ xs) zero (b ∷ bs) = ap suc (length-overwrite xs zero bs)
  length-overwrite (x ∷ xs) (suc o) bs = ap suc (length-overwrite xs o bs)

  pub get_or-overwrite_in :
      (xs : List A) (o : ℕ) (bs : List A) (i : ℕ) (d : A)
      → o + length bs ≤ length xs
      → i < length bs
      → get_or (overwrite xs o bs) (o + i) d ≡ get_or bs i d
  get_or-overwrite_in [] o [] i d h lt = absurd (omega arith)
  get_or-overwrite_in [] o (b ∷ bs) i d h lt = absurd (omega arith)
  get_or-overwrite_in (x ∷ xs) zero [] i d h lt = absurd (omega arith)
  get_or-overwrite_in (x ∷ xs) zero (b ∷ bs) zero d h lt = refl
  get_or-overwrite_in (x ∷ xs) zero (b ∷ bs) (suc i) d h lt =
      rw add.zero (rw add.zero at (get_or-overwrite_in xs zero bs i d (omega arith) (omega arith)))
  get_or-overwrite_in (x ∷ xs) (suc o) bs i d h lt =
      rw add.suc (get_or-overwrite_in xs o bs i d (omega arith) lt)

  pub get_or-overwrite_before :
      (xs : List A) (o : ℕ) (bs : List A) (j : ℕ) (d : A)
      → j < o
      → get_or (overwrite xs o bs) j d ≡ get_or xs j d
  get_or-overwrite_before [] o bs j d lt = refl
  get_or-overwrite_before (x ∷ xs) zero bs j d lt = absurd (omega arith)
  get_or-overwrite_before (x ∷ xs) (suc o) bs zero d lt = refl
  get_or-overwrite_before (x ∷ xs) (suc o) bs (suc j) d lt =
      get_or-overwrite_before xs o bs j d (omega arith)

  pub get_or-overwrite_after :
      (xs : List A) (o : ℕ) (bs : List A) (j : ℕ) (d : A)
      → o + length bs ≤ j
      → get_or (overwrite xs o bs) j d ≡ get_or xs j d
  get_or-overwrite_after [] o bs j d h = refl
  get_or-overwrite_after (x ∷ xs) zero [] j d h = refl
  get_or-overwrite_after (x ∷ xs) zero (b ∷ bs) zero d h = absurd (omega arith)
  get_or-overwrite_after (x ∷ xs) zero (b ∷ bs) (suc j) d h =
      get_or-overwrite_after xs zero bs j d (omega arith)
  get_or-overwrite_after (x ∷ xs) (suc o) bs zero d h = absurd (omega arith)
  get_or-overwrite_after (x ∷ xs) (suc o) bs (suc j) d h =
      get_or-overwrite_after xs o bs j d (omega arith)

  -- Two arrays of one length with the same elements are equal.
  pub array_ext :
      (xs ys : List A) (d : A)
      → length xs ≡ length ys
      → ((i : ℕ) → i < length xs → get_or xs i d ≡ get_or ys i d)
      → xs ≡ ys
  array_ext [] [] d e h = refl
  array_ext [] (y ∷ ys) d e h = absurd (omega arith)
  array_ext (x ∷ xs) [] d e h = absurd (omega arith)
  array_ext (x ∷ xs) (y ∷ ys) d e h =
      λ i. h 0 (omega arith) i ∷ array_ext xs ys d (omega arith) (λ i lt. h (suc i) (omega arith)) i

  pub get_or-take :
      (n : ℕ) (xs : List A) (i : ℕ) (d : A) → i < n → get_or (take n xs) i d ≡ get_or xs i d
  get_or-take zero xs i d h = absurd (omega arith)
  get_or-take (suc n) [] i d h = refl
  get_or-take (suc n) (x ∷ xs) zero d h = refl
  get_or-take (suc n) (x ∷ xs) (suc i) d h = get_or-take n xs i d (omega arith)

-- The n bytes of an object from the offset o on.
unfoldable pub read_bytes : List ℕ → ℕ → ℕ → Outcome (List ℕ)
read_bytes mem o n = if leb (o + n) (length mem) then ok (take n (drop o mem)) else wild

-- A copy into an object at the offset o.
unfoldable pub write_bytes : List ℕ → ℕ → List ℕ → Outcome (List ℕ)
write_bytes mem o bs = if leb (o + length bs) (length mem) then ok (overwrite mem o bs) else wild

pub read_bytes_ok :
    (mem : List ℕ) (o n : ℕ) → o + n ≤ length mem → read_bytes mem o n ≡ ok (take n (drop o mem))
unfolding read_bytes
read_bytes_ok mem o n h = rw (le→leb _ _ h)

pub write_bytes_ok :
    (mem : List ℕ) (o : ℕ) (bs : List ℕ)
    → o + length bs ≤ length mem
    → write_bytes mem o bs ≡ ok (overwrite mem o bs)
unfolding write_bytes
write_bytes_ok mem o bs h = rw (le→leb _ _ h)

pub length-take-drop :
    (mem : List ℕ) (o n : ℕ) → o + n ≤ length mem → length (take n (drop o mem)) ≡ n
length-take-drop mem o n h = length-take n (drop o mem) (omega (arith, length-drop o mem))

pub get_or-take-drop :
    (mem : List ℕ) (o n i : ℕ) → i < n → get_or (take n (drop o mem)) i 0 ≡ get_or mem (o + i) 0
get_or-take-drop mem o n i h = get_or-take n (drop o mem) i 0 h ∙ get_or-drop o mem i 0
