-- ===== src/Bitmap/Scan.antt =====
-- Finding a group of consecutive bits, and taking it.
use cs439_project.Prelude.{
  in_range, ℕ, zero, suc, ◌+◌, ◌-◌, ◌≤◌, ◌<◌, Bool, true, false, not, if◌then◌else◌, ◌≡◌, refl, ◌∙◌,
  ok, arith, le→leb, leb→lt, Option, none, some, ◌>>=◌, Bool-cases, inl, inr, leb, leb→le,
}
use cs439_project.Bitmap.{
  Bitmap, contains, scan_loop, scan, flip_group, scan_and_flip, set_multiple,
}
use cs439_project.Bitmap.Single.{IsValid, get, Becomes}
use cs439_project.Bitmap.Multiple.{Found, contains-Found, set_multiple-Becomes}

-- One of the cnt bits from k on does not have the value.
abbrev pub Blocked : Bitmap → Bool → ℕ → ℕ → Type 0
Blocked b value cnt k = (i : ℕ) × (i < cnt) × (get b (k + i) ≡ not value)

-- What a scan from `start` answers: the first group of cnt bits of the value, or that there is
-- none in the bitmap.
abbrev pub Scanned : Bitmap → ℕ → ℕ → Bool → Option ℕ → Type 0
Scanned b start cnt value (some idx) =
    (start ≤ idx)
    × (idx + cnt ≤ b.bit_cnt)
    × ((i : ℕ) → i < cnt → get b (idx + i) ≡ value)
    × ((k : ℕ) → start ≤ k → k < idx → Blocked b value cnt k)
Scanned b start cnt value none = (k : ℕ) → start ≤ k → k + cnt ≤ b.bit_cnt → Blocked b value cnt k

not-not : (v : Bool) → not (not v) ≡ v
not-not true = refl
not-not false = refl

module _ (left : ℕ) (b : Bitmap) (i cnt : ℕ) (value : Bool) where
  scan_loop_next :
      contains b i cnt (not value) ≡ ok true
      → scan_loop (suc left) b i cnt value ≡ scan_loop left b (i + 1) cnt value
  unfolding scan_loop
  scan_loop_next e = rw e

  scan_loop_hit :
      contains b i cnt (not value) ≡ ok false → scan_loop (suc left) b i cnt value ≡ ok (some i)
  unfolding scan_loop
  scan_loop_hit e = rw e

-- A group that is blocked is passed over.
Scanned-suc :
    (b : Bitmap) (i cnt : ℕ) (value : Bool)
    → Blocked b value cnt i
    → (r : Option ℕ) → Scanned b (i + 1) cnt value r
    → Scanned b i cnt value r
Scanned-suc b i cnt value blocked none later = λ k from fits. elim (Bool-cases (leb (i + 1) k)) [
  | inl h ↦ later k (leb→le _ _ h) fits
  | inr h ↦ let e : k ≡ i = omega (arith, leb→lt (i + 1) k h) in rw e blocked
]
Scanned-suc b i cnt value blocked (some idx) (from, fits, all, first) = (
  omega arith,
  fits,
  all,
  λ k low high. elim (Bool-cases (leb (i + 1) k)) [
    | inl h ↦ first k (leb→le _ _ h) high
    | inr h ↦ let e : k ≡ i = omega (arith, leb→lt (i + 1) k h) in rw e blocked
  ],
)

scan_loop-Scanned :
    (left : ℕ) (b : Bitmap) (i cnt : ℕ) (value : Bool)
    → IsValid b
    → left ≤ b.bit_cnt + 1 - (i + cnt)
    → b.bit_cnt + 1 ≤ i + left + cnt
    → (r : Option ℕ) × (scan_loop left b i cnt value ≡ ok r) × Scanned b i cnt value r
unfolding scan_loop
scan_loop-Scanned zero b i cnt value valid room reach =
    (none, refl, λ k from fits. absurd (omega arith))
scan_loop-Scanned (suc left) b i cnt value valid room reach =
    next (contains-Found b i cnt (not value) valid (omega arith))
      (scan_loop-Scanned left b (i + 1) cnt value valid (omega arith) (omega arith))
  where
    next :
        (c : Bool) × (contains b i cnt (not value) ≡ ok c) × Found b i cnt (not value) c
        → (r : Option ℕ) × (scan_loop left b (i + 1) cnt value ≡ ok r)
          × Scanned b (i + 1) cnt value r
        → (r : Option ℕ) × (scan_loop (suc left) b i cnt value ≡ ok r) × Scanned b i cnt value r
    next (true, e, blocked) (r, e', later) =
        (r, scan_loop_next left b i cnt value e ∙ e', Scanned-suc b i cnt value blocked r later)
    next (false, e, all) rest = (
      some i,
      scan_loop_hit left b i cnt value e,
      (
        omega arith,
        omega arith,
        λ k lt. all k lt ∙ not-not value,
        λ k low high. absurd (omega arith),
      ),
    )

-- `bitmap_scan` from a start in the bitmap returns the first group at or after the start of cnt
-- bits that all have the value, and BITMAP_ERROR only if every group there is blocked.
pub scan-Scanned :
    (b : Bitmap) (start cnt : ℕ) (value : Bool)
    → IsValid b
    → start ≤ b.bit_cnt
    → (r : Option ℕ) × (scan b start cnt value ≡ ok r) × Scanned b start cnt value r
unfolding scan
scan-Scanned b start cnt value valid from =
    rw (le→leb start b.bit_cnt from) (elim (Bool-cases (leb cnt b.bit_cnt)) [
      | inl h ↦ rw h (
          let fits : cnt ≤ b.bit_cnt = leb→le _ _ h in
          scan_loop-Scanned (b.bit_cnt - cnt + 1 - start) b start cnt value valid (omega arith)
            (omega arith))
      | inr h ↦ rw h (
          let big : b.bit_cnt < cnt = leb→lt _ _ h in
          (none, refl, λ k low fits. absurd (omega arith)))
    ])

-- What taking the group does to the bitmap: its bits are inverted and no other; nothing changes
-- if there is no group.
abbrev pub Taken : Bitmap → ℕ → Bool → Bitmap → Option ℕ → Type 0
Taken b cnt value b' none = b' ≡ b
Taken b cnt value b' (some idx) =
    Becomes b b' (λ j. if in_range idx cnt j then not value else get b j)

-- `bitmap_scan_and_flip` from a start in a valid bitmap returns what `bitmap_scan` finds, the first
-- group of `cnt` bits from the start, and inverts exactly the bits of the group found. For a `cnt`
-- of zero the group is empty and at the start: the start is returned, where the source's
-- comment says 0, and no bit is inverted.
pub scan_and_flip-Taken :
    (b : Bitmap) (start cnt : ℕ) (value : Bool)
    → IsValid b
    → start ≤ b.bit_cnt
    → (b' : Bitmap) × (r : Option ℕ) × (scan_and_flip b start cnt value ≡ ok (b', r))
      × Scanned b start cnt value r
      × Taken b cnt value b' r
unfolding scan_and_flip flip_group
scan_and_flip-Taken b start cnt value valid from = go (scan-Scanned b start cnt value valid from)
  where
    Goal : Type 0
    Goal =
        (b' : Bitmap) × (r : Option ℕ) × (scan_and_flip b start cnt value ≡ ok (b', r))
        × Scanned b start cnt value r
        × Taken b cnt value b' r

    go : (r : Option ℕ) × (scan b start cnt value ≡ ok r) × Scanned b start cnt value r → Goal
    go (none, e, found) = (b, none, rw e, found, refl)
    go (some idx, e, found) = take_it (set_multiple-Becomes b idx cnt (not value) valid found.1)
      where
        take_it :
            (b' : Bitmap) × (set_multiple b idx cnt (not value) ≡ ok b')
              × Becomes b b' (λ j. if in_range idx cnt j then not value else get b j)
            → Goal
        take_it (b', done, is) = (b', some idx, rw (e, ◌>>=◌, flip_group, done), found, is)
