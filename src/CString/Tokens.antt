-- ===== src/CString/Tokens.antt =====
-- `strtok_r` finds the next token of a string.
use cs439_project.Prelude.{
  ℕ, ◌+◌, Bool, true, false, List, [], ◌∷◌, ◌++◌, ◌≡◌, ◌≢◌, refl, ok, ◌>>=◌, set, get_elem?, drop,
  length, arith, if◌then◌else◌, ◌==◌, ap, sym, ◌∙◌, Option, some, ==_ne, append_assoc,
  length-append,
}
use cs439_project.CString.{strchr, is_found, skip_delimiters, token_end, no_token, token, strtok_r}

-- Whether `strchr` finds the byte among the delimiters or their null byte.
abbrev pub Finds : List ℕ → Bool → ℕ → Type 0
Finds delimiters t b = (o : Option ℕ) × (strchr delimiters b ≡ ok o) × (is_found o ≡ t)

-- Delimiters between tokens, none of them null; and the bytes of a token.
abbrev pub IsGap : List ℕ → List ℕ → Type 0
IsGap delimiters [] = Unit
IsGap delimiters (b ∷ gap) = (b ≢ 0) × Finds delimiters true b × IsGap delimiters gap

abbrev pub IsWord : List ℕ → List ℕ → Type 0
IsWord delimiters [] = Unit
IsWord delimiters (b ∷ word) = Finds delimiters false b × IsWord delimiters word

skip-gap_word :
    (d gap : List ℕ) (b : ℕ) (s : List ℕ)
    → IsGap d gap
    → Finds d false b
    → skip_delimiters (gap ++ (b ∷ s)) d ≡ ok (true, length gap)
unfolding skip_delimiters
skip-gap_word d [] b s h (o, e, f) = rw (e, ◌>>=◌, f)
skip-gap_word d (g ∷ gap) b s (ne, (o, e, f), h) k =
    rw (e, ◌>>=◌, f, ==_ne g 0 ne, skip-gap_word d gap b s h k)
      (ap (λ (n : ℕ). ok (true, n)) (omega arith))

skip-gap_end :
    (d gap s : List ℕ)
    → IsGap d gap
    → Finds d true 0
    → skip_delimiters (gap ++ (0 ∷ s)) d ≡ ok (false, length gap)
unfolding skip_delimiters
skip-gap_end d [] s h (o, e, f) = rw (e, ◌>>=◌, f)
skip-gap_end d (g ∷ gap) s (ne, (o, e, f), h) k =
    rw (e, ◌>>=◌, f, ==_ne g 0 ne, skip-gap_end d gap s h k)
      (ap (λ (n : ℕ). ok (false, n)) (omega arith))

token_end-word :
    (d word : List ℕ) (b : ℕ) (s : List ℕ)
    → IsWord d word
    → Finds d true b
    → token_end (word ++ (b ∷ s)) d ≡ ok (length word)
unfolding token_end
token_end-word d [] b s h (o, e, f) = rw (e, ◌>>=◌, f)
token_end-word d (w ∷ word) b s ((o, e, f), h) k =
    rw (e, ◌>>=◌, f, token_end-word d word b s h k) (ap ok (omega arith))

drop-length : (xs ys : List ℕ) → drop (length xs) (xs ++ ys) ≡ ys
drop-length [] ys = refl
drop-length (x ∷ xs) ys = drop-length xs ys

get_elem?-middle :
    (xs : List ℕ) (b : ℕ) (ys : List ℕ) → get_elem? (xs ++ (b ∷ ys)) (length xs) ≡ some b
get_elem?-middle [] b ys = refl
get_elem?-middle (x ∷ xs) b ys = get_elem?-middle xs b ys

set-middle :
    (xs : List ℕ) (b v : ℕ) (ys : List ℕ) → set (xs ++ (b ∷ ys)) (length xs) v ≡ xs ++ (v ∷ ys)
set-middle [] b v ys = refl
set-middle (x ∷ xs) b v ys = ap (λ (r : List ℕ). x ∷ r) (set-middle xs b v ys)

module _ (d gap : List ℕ) (w : ℕ) (word : List ℕ) (stop : ℕ) (rest : List ℕ) (gapped : IsGap d gap)
    (worded : IsWord d (w ∷ word)) (ends : Finds d true stop) where
  -- `strtok_r` on delimiters, a word of at least one byte and a delimiter or null byte answers
  -- the offset and length of the word. A delimiter behind it becomes a null byte and the saved
  -- offset is past it; at a null byte the string is kept and the saved offset is that byte's.
  pub strtok_r-token :
      strtok_r (gap ++ ((w ∷ word) ++ (stop ∷ rest))) d
      ≡ ok (
          if stop == 0
          then token
              (gap ++ ((w ∷ word) ++ (stop ∷ rest)))
              (length gap)
              (length (w ∷ word))
              (length gap + length (w ∷ word))
          else token
              (gap ++ ((w ∷ word) ++ (0 ∷ rest)))
              (length gap)
              (length (w ∷ word))
              (length gap + length (w ∷ word) + 1))
  unfolding strtok_r
  strtok_r-token = rw (
    skip-gap_word d gap w (word ++ (stop ∷ rest)) gapped worded.0,
    ◌>>=◌,
    drop-length gap ((w ∷ word) ++ (stop ∷ rest)),
    token_end-word d (w ∷ word) stop rest worded ends,
    ◌>>=◌,
    here,
    ◌>>=◌,
    emptied,
  )
    where
      front : List ℕ
      front = gap ++ (w ∷ word)

      len : length gap + length (w ∷ word) ≡ length front
      len = sym (length-append gap (w ∷ word))

      here :
          get_elem? (gap ++ ((w ∷ word) ++ (stop ∷ rest))) (length gap + length (w ∷ word))
          ≡ some stop
      here =
          rw (len, ← append_assoc gap (w ∷ word) (stop ∷ rest)) (get_elem?-middle front stop rest)

      emptied :
          set (gap ++ ((w ∷ word) ++ (stop ∷ rest))) (length gap + length (w ∷ word)) 0
          ≡ gap ++ ((w ∷ word) ++ (0 ∷ rest))
      emptied =
          rw (len, ← append_assoc gap (w ∷ word) (stop ∷ rest))
            (set-middle front stop 0 rest ∙ append_assoc gap (w ∷ word) (0 ∷ rest))

-- `strtok_r` on delimiters up to the null byte answers that there is no token, and saves the
-- offset of the null byte.
pub strtok_r_end :
    (d gap rest : List ℕ)
    → IsGap d gap
    → Finds d true 0
    → strtok_r (gap ++ (0 ∷ rest)) d ≡ ok (no_token (length gap))
unfolding strtok_r
strtok_r_end d gap rest gapped null = rw (skip-gap_end d gap rest gapped null)
