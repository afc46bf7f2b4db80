-- ===== src/Prelude/Arrays.antt =====
-- C arrays as lists with native indices.
use Prim.Native.Nat.{ℕ, zero, suc, ◌+◌, ◌-◌, ◌<◌, ◌≤◌}
use mathlib.Core.Path.{◌≡◌, refl, ap, ap₂, ◌∙◌}
use mathlib.Core.Logic.{◌≢◌}
use mathlib.Core.List.{List, [], ◌∷◌, ◌++◌}
use mathlib.Core.Option.{Option, none, some}
use Prim.Native.Nat.add
use native.Mathlib.Nat.{add-zero}
use native.Mathlib.Omega.{arith}

module _ {ℓ} {A : Type ℓ} where
  abbrev pub length : List A → ℕ
  length [] = 0
  length (_ ∷ xs) = suc (length xs)

  abbrev pub get_elem? : List A → ℕ → Option A
  get_elem? [] _ = none
  get_elem? (x ∷ _) zero = some x
  get_elem? (_ ∷ xs) (suc i) = get_elem? xs i

  abbrev pub get_or : List A → ℕ → A → A
  get_or [] _ d = d
  get_or (x ∷ _) zero _ = x
  get_or (_ ∷ xs) (suc i) d = get_or xs i d

  abbrev pub set : List A → ℕ → A → List A
  set [] _ _ = []
  set (_ ∷ xs) zero v = v ∷ xs
  set (x ∷ xs) (suc i) v = x ∷ set xs i v

  abbrev pub take : ℕ → List A → List A
  take zero _ = []
  take (suc n) [] = []
  take (suc n) (x ∷ xs) = x ∷ take n xs

  abbrev pub drop : ℕ → List A → List A
  drop zero xs = xs
  drop (suc n) [] = []
  drop (suc n) (x ∷ xs) = drop n xs

  abbrev pub replicate : ℕ → A → List A
  replicate zero x = []
  replicate (suc n) x = x ∷ replicate n x

  pub length-append : (xs ys : List A) → length (xs ++ ys) ≡ length xs + length ys
  length-append [] ys = omega arith
  length-append (x ∷ xs) ys = omega (arith, length-append xs ys)

  pub length-replicate : (n : ℕ) (x : A) → length (replicate n x) ≡ n
  length-replicate zero x = refl
  length-replicate (suc n) x = ap suc (length-replicate n x)

  pub length-set : (xs : List A) (i : ℕ) (v : A) → length (set xs i v) ≡ length xs
  length-set [] i v = refl
  length-set (x ∷ xs) zero v = refl
  length-set (x ∷ xs) (suc i) v = ap suc (length-set xs i v)

  pub length-take : (n : ℕ) (xs : List A) → n ≤ length xs → length (take n xs) ≡ n
  length-take zero xs h = refl
  length-take (suc n) [] h = absurd (omega arith)
  length-take (suc n) (x ∷ xs) h = ap suc (length-take n xs (omega arith))

  pub length-drop : (n : ℕ) (xs : List A) → length (drop n xs) ≡ length xs - n
  length-drop zero xs = omega arith
  length-drop (suc n) [] = omega arith
  length-drop (suc n) (x ∷ xs) = omega (arith, length-drop n xs)

  pub get_elem?-eq-get_or :
      (xs : List A) (i : ℕ) (d : A) → i < length xs → get_elem? xs i ≡ some (get_or xs i d)
  get_elem?-eq-get_or [] i d h = absurd (omega arith)
  get_elem?-eq-get_or (x ∷ xs) zero d h = refl
  get_elem?-eq-get_or (x ∷ xs) (suc i) d h = get_elem?-eq-get_or xs i d (omega arith)

  pub get_or-set_self :
      (xs : List A) (i : ℕ) (v d : A) → i < length xs → get_or (set xs i v) i d ≡ v
  get_or-set_self [] i v d h = absurd (omega arith)
  get_or-set_self (x ∷ xs) zero v d h = refl
  get_or-set_self (x ∷ xs) (suc i) v d h = get_or-set_self xs i v d (omega arith)

  pub get_or-set_ne :
      (xs : List A) (i j : ℕ) (v d : A) → i ≢ j → get_or (set xs i v) j d ≡ get_or xs j d
  get_or-set_ne [] i j v d h = refl
  get_or-set_ne (x ∷ xs) zero zero v d h = absurd (h refl)
  get_or-set_ne (x ∷ xs) zero (suc j) v d h = refl
  get_or-set_ne (x ∷ xs) (suc i) zero v d h = refl
  get_or-set_ne (x ∷ xs) (suc i) (suc j) v d h = get_or-set_ne xs i j v d (λ e. h (ap suc e))

  pub get_or-drop :
      (n : ℕ) (xs : List A) (i : ℕ) (d : A) → get_or (drop n xs) i d ≡ get_or xs (n + i) d
  get_or-drop zero xs i d = rw add.zero
  get_or-drop (suc n) [] i d = refl
  get_or-drop (suc n) (x ∷ xs) i d = rw add.suc (get_or-drop n xs i d)

  pub get_or-replicate : (n : ℕ) (x : A) (i : ℕ) → get_or (replicate n x) i x ≡ x
  get_or-replicate zero x i = refl
  get_or-replicate (suc n) x zero = refl
  get_or-replicate (suc n) x (suc i) = get_or-replicate n x i

  pub get_or-append_left :
      (xs ys : List A) (i : ℕ) (d : A) → i < length xs → get_or (xs ++ ys) i d ≡ get_or xs i d
  get_or-append_left [] ys i d h = absurd (omega arith)
  get_or-append_left (x ∷ xs) ys zero d h = refl
  get_or-append_left (x ∷ xs) ys (suc i) d h = get_or-append_left xs ys i d (omega arith)

  pub get_or-append_right :
      (xs ys : List A) (i : ℕ) (d : A) → get_or (xs ++ ys) (length xs + i) d ≡ get_or ys i d
  get_or-append_right [] ys i d = rw add.zero
  get_or-append_right (x ∷ xs) ys i d = rw add.suc (get_or-append_right xs ys i d)

  -- The values of `f` from `o` on, `n` of them.
  abbrev pub slice : (ℕ → A) → ℕ → ℕ → List A
  slice f o zero = []
  slice f o (suc n) = f o ∷ slice f (o + 1) n

  pub length-slice : (f : ℕ → A) (o n : ℕ) → length (slice f o n) ≡ n
  length-slice f o zero = refl
  length-slice f o (suc n) = ap suc (length-slice f (o + 1) n)

  pub slice-add : (f : ℕ → A) (o m n : ℕ) → slice f o (m + n) ≡ slice f o m ++ slice f (o + m) n
  slice-add f o zero n = rw (add.zero, add-zero)
  slice-add f o (suc m) n = rw (add.suc, slice-add f (o + 1) m n, shift)
    where
      shift : o + 1 + m ≡ o + suc m
      shift = omega arith

  pub slice_ext :
      (f g : ℕ → A) (o p n : ℕ)
      → ((i : ℕ) → i < n → f (o + i) ≡ g (p + i))
      → slice f o n ≡ slice g p n
  slice_ext f g o p zero h = refl
  slice_ext f g o p (suc n) h =
      ap₂ ◌∷◌ (ap f (omega arith) ∙ h 0 (omega arith) ∙ ap g (omega arith)) (
        slice_ext f g (o + 1) (p + 1) n
          (λ i lt. ap f (omega arith) ∙ h (i + 1) (omega arith) ∙ ap g (omega arith)))

  pub get_or-slice : (f : ℕ → A) (o n i : ℕ) (d : A) → i < n → get_or (slice f o n) i d ≡ f (o + i)
  get_or-slice f o zero i d h = absurd (omega arith)
  get_or-slice f o (suc n) zero d h = ap f (omega arith)
  get_or-slice f o (suc n) (suc i) d h =
      get_or-slice f (o + 1) n i d (omega arith) ∙ ap f (omega arith)

  -- Taking from the front of an array reads it index by index.
  pub take-eq-slice :
      (n : ℕ) (xs : List A) (d : A) → n ≤ length xs → take n xs ≡ slice (λ i. get_or xs i d) 0 n
  take-eq-slice zero xs d h = refl
  take-eq-slice (suc n) [] d h = absurd (omega arith)
  take-eq-slice (suc n) (x ∷ xs) d h =
      ap (λ r. x ∷ r)
        (take-eq-slice n xs d (omega arith)
          ∙ slice_ext (λ i. get_or xs i d) (λ i. get_or (x ∷ xs) i d) 0 1 n
              (λ i lt.
                ap (λ k. get_or xs k d) (omega arith)
                ∙ ap (λ k. get_or (x ∷ xs) k d) {x = suc i} (omega arith)))
