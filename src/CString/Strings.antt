-- ===== src/CString/Strings.antt =====
-- Lengths, comparison and bounded copies of C strings.
use cs439_project.Prelude.{
  ℕ, zero, suc, ◌+◌, ◌-◌, ◌≤◌, ◌<◌, true, false, not, List, [], ◌∷◌, ◌++◌, ◌≡◌, ◌≢◌, refl, ok,
  ◌>>=◌, set, length, overwrite, arith, if◌then◌else◌, ltb, ◌==◌, ◌&&◌, ◌↔◌, ap, sym, ◌∙◌, take,
  length-take, length-set, length-append, length-overwrite, lt→ltb, ==_ne, ℕ_discrete,
}
use Prim.Native.Nat.add
use native.Mathlib.Numerals.{add-one}
use cs439_project.CString.{Sign, negative, equal, positive, strlen, strcmp, memcpy, strlcpy}

-- No byte of a text is null.
abbrev pub IsText : List ℕ → Type 0
IsText [] = Unit
IsText (b ∷ text) = (b ≢ 0) × IsText text

-- `strlen` counts the bytes before the null byte.
pub strlen-length :
    (text rest : List ℕ) → IsText text → strlen (text ++ (0 ∷ rest)) ≡ ok (length text)
unfolding strlen
strlen-length [] rest h = refl
strlen-length (b ∷ text) rest h =
    rw (==_ne b 0 h.0, strlen-length text rest h.1) (ap ok (omega arith))

-- `strcmp` of two strings always returns, and says equal exactly when they are the same text.
pub strcmp-equal_iff :
    (a b resta restb : List ℕ)
    → IsText a
    → IsText b
    → (s : Sign) × (strcmp (a ++ (0 ∷ resta)) (b ++ (0 ∷ restb)) ≡ ok s) × ((s ≡ equal) ↔ (a ≡ b))
unfolding strcmp
strcmp-equal_iff [] [] resta restb h k = (equal, refl, (λ e. refl, λ e. refl))
strcmp-equal_iff [] (y ∷ b) resta restb h k = (negative, ground arith, (λ e. cc, λ e. cc))
strcmp-equal_iff (x ∷ a) [] resta restb h k = (positive, ground arith, (λ e. cc, λ e. cc))
strcmp-equal_iff (x ∷ a) (y ∷ b) resta restb h k = elim (ℕ_discrete x y) [
  | yes e ↦
      let t : (not (x == 0) && x == y) ≡ true = ground arith in
      rw t (same e (strcmp-equal_iff a b resta restb h.1 k.1))
  | no ne ↦
      let t : (not (x == 0) && x == y) ≡ false = ground arith in
      rw t (
        (if ltb x y then negative else if ltb y x then positive else equal),
        refl,
        (λ e. absurd (ground arith), λ e. absurd (ne (ap (head x) e))),
      )
]
  where
    head : ℕ → List ℕ → ℕ
    head d [] = d
    head d (z ∷ zs) = z

    tail : List ℕ → List ℕ
    tail [] = []
    tail (z ∷ zs) = zs

    same :
        x ≡ y
        → (s : Sign) × (strcmp (a ++ (0 ∷ resta)) (b ++ (0 ∷ restb)) ≡ ok s)
          × ((s ≡ equal) ↔ (a ≡ b))
        → (s : Sign) × (strcmp (a ++ (0 ∷ resta)) (b ++ (0 ∷ restb)) ≡ ok s)
          × ((s ≡ equal) ↔ ((x ∷ a) ≡ (y ∷ b)))
    same e (s, run, iff) = (s, run, (λ q. rw (e, iff.0 q), λ q. iff.1 (ap tail q)))

overwrite-nil : (xs : List ℕ) (at : ℕ) → overwrite xs at [] ≡ xs
overwrite-nil [] at = refl
overwrite-nil (x ∷ xs) zero = refl
overwrite-nil (x ∷ xs) (suc at) = ap (λ (r : List ℕ). x ∷ r) (overwrite-nil xs at)

-- Writing the first byte and then the others behind it.
overwrite-cons :
    (xs : List ℕ) (at b : ℕ) (bs : List ℕ)
    → at < length xs
    → overwrite (set xs at b) (suc at) bs ≡ overwrite xs at (b ∷ bs)
overwrite-cons [] at b bs h = absurd (omega arith)
overwrite-cons (x ∷ xs) zero b bs h = refl
overwrite-cons (x ∷ xs) (suc at) b bs h =
    ap (λ (r : List ℕ). x ∷ r) (overwrite-cons xs at b bs (omega arith))

-- Writing one more byte behind those written.
set-overwrite :
    (xs : List ℕ) (at : ℕ) (bs : List ℕ) (v : ℕ)
    → at + length bs < length xs
    → set (overwrite xs at bs) (at + length bs) v ≡ overwrite xs at (bs ++ (v ∷ []))
set-overwrite [] at bs v h = absurd (omega arith)
set-overwrite (x ∷ xs) zero [] v h = ap (λ (r : List ℕ). v ∷ r) (sym (overwrite-nil xs zero))
set-overwrite (x ∷ xs) zero (b ∷ bs) v h =
    rw add.zero
      (ap (λ (r : List ℕ). b ∷ r) (rw add.zero at (set-overwrite xs zero bs v (omega arith))))
set-overwrite (x ∷ xs) (suc at) bs v h =
    rw add.suc (ap (λ (r : List ℕ). x ∷ r) (set-overwrite xs at bs v (omega arith)))

-- A `memcpy` that stays in both blocks writes the first n bytes of the source over the
-- destination.
pub memcpy-overwrite :
    (dst : List ℕ) (at : ℕ) (src : List ℕ) (n : ℕ)
    → at + n ≤ length dst
    → n ≤ length src
    → memcpy dst at src n ≡ ok (overwrite dst at (take n src))
unfolding memcpy
memcpy-overwrite dst at src zero fits fits' = ap ok (sym (overwrite-nil dst at))
memcpy-overwrite dst at [] (suc n) fits fits' = absurd (omega arith)
memcpy-overwrite dst at (b ∷ src) (suc n) fits fits' =
    rw
      (
        lt→ltb at (length dst) (omega arith),
        ◌>>=◌,
        memcpy-overwrite (set dst at b) (at + 1) src n (omega (arith, length-set dst at b))
            (omega arith),
        add-one,
      )
      (ap ok (overwrite-cons dst at b (take n src) (omega arith)))

take-append_left : (n : ℕ) (xs ys : List ℕ) → n ≤ length xs → take n (xs ++ ys) ≡ take n xs
take-append_left zero xs ys h = refl
take-append_left (suc n) [] ys h = absurd (omega arith)
take-append_left (suc n) (x ∷ xs) ys h =
    ap (λ (r : List ℕ). x ∷ r) (take-append_left n xs ys (omega arith))

-- The text cut to the room that the size leaves beside the null byte.
abbrev pub fitting : List ℕ → ℕ → List ℕ
fitting text size = take (if ltb (length text) (size - 1) then length text else size - 1) text

-- `strlcpy` to a destination with room for `size` bytes writes the text, cut to size - 1 bytes,
-- and a null byte behind it, nothing else, and returns the length of the whole text.
pub strlcpy-fitting :
    (dst : List ℕ) (at : ℕ) (text rest : List ℕ) (size : ℕ)
    → IsText text
    → 0 < size
    → at + size ≤ length dst
    → (strlcpy dst at (text ++ (0 ∷ rest)) size
        ≡ ok (overwrite dst at (fitting text size ++ (0 ∷ [])), length text))
      × (length (fitting text size) < size)
unfolding strlcpy
strlcpy-fitting dst at text rest size h pos fits = (
  rw
      (
        strlen-length text rest h,
        ◌>>=◌,
        lt→ltb 0 size pos,
        copied,
        ◌>>=◌,
        lt→ltb (at + n) (length (overwrite dst at (take n text)))
            (omega (arith, le, length-overwrite dst at (take n text))),
      )
      (ap (λ (m : List ℕ). ok (m, length text)) ended),
  omega (arith, len, le),
)
  where
    n : ℕ
    n = if ltb (length text) (size - 1) then length text else size - 1

    le : (n ≤ length text) × (n < size)
    le = ground arith

    len : length (take n text) ≡ n
    len = length-take n text le.0

    copied : memcpy dst at (text ++ (0 ∷ rest)) n ≡ ok (overwrite dst at (take n text))
    copied =
        memcpy-overwrite dst at (text ++ (0 ∷ rest)) n (omega (arith, le))
          (omega (arith, le, length-append {0} text (0 ∷ rest)))
        ∙ ap (λ (bs : List ℕ). ok (overwrite dst at bs)) (take-append_left n text (0 ∷ rest) le.0)

    ended :
        set (overwrite dst at (take n text)) (at + n) 0 ≡ overwrite dst at (take n text ++ (0 ∷ []))
    ended = rw len at (set-overwrite dst at (take n text) 0 (omega (arith, len, le)))
