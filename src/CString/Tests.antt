-- ===== src/CString/Tests.antt =====
-- Strings at concrete values.
use cs439_project.Prelude.{
  ℕ, ◌+◌, List, [], ◌∷◌, ◌++◌, ◌≡◌, refl, ok, arith, if◌then◌else◌, ◌==◌, true, false, some, none,
}
use cs439_project.CString.{memcmp, memcpy, strlen, memmove, strtok_r, token, strchr}
use cs439_project.CString.Move.{Returns, memmove-Moved}
use cs439_project.CString.Search.{strstr, strstr_loop, strlcat}
use cs439_project.CString.Tokens.{Finds, strtok_r-token}

abbrev ab : List ℕ
ab = 97 ∷ 98 ∷ []

abbrev ac : List ℕ
ac = 97 ∷ 99 ∷ []

abbrev abc : List ℕ
abc = 97 ∷ 98 ∷ 99 ∷ []

abbrev block : List ℕ
block = 1 ∷ 2 ∷ 3 ∷ 4 ∷ 5 ∷ 6 ∷ []

memmove-Moved_example : Returns (memmove block 2 1 4) block 2 1 4 2
memmove-Moved_example = memmove-Moved block 2 1 4 (omega arith) (omega arith)

-- The string of one blank, as the callers pass it.
abbrev blank : List ℕ
blank = 32 ∷ 0 ∷ []

blank_found : Finds blank true 32
unfolding strchr
blank_found = (some 0, refl, refl)

null_found : Finds blank true 0
unfolding strchr
null_found = (some 1, refl, refl)

letter_absent : Finds blank false 97
unfolding strchr
letter_absent = (none, refl, refl)

strtok_r-token_example :
    strtok_r ((32 ∷ []) ++ ((97 ∷ 97 ∷ []) ++ (32 ∷ 97 ∷ 0 ∷ []))) blank
    ≡ ok (
        if 32 == 0
        then token ((32 ∷ []) ++ ((97 ∷ 97 ∷ []) ++ (32 ∷ 97 ∷ 0 ∷ []))) 1 2 (1 + 2)
        else token ((32 ∷ []) ++ ((97 ∷ 97 ∷ []) ++ (0 ∷ 97 ∷ 0 ∷ []))) 1 2 (1 + 2 + 1))
strtok_r-token_example =
    strtok_r-token blank (32 ∷ []) 97 (97 ∷ []) 32 (97 ∷ 0 ∷ []) (omega arith, blank_found, tt)
      (letter_absent, (letter_absent, tt)) blank_found

strstr-inside : strstr (97 ∷ 98 ∷ 99 ∷ 0 ∷ []) (98 ∷ 99 ∷ 0 ∷ []) ≡ ok (some 1)
unfolding strstr strstr_loop memcmp strlen
strstr-inside = refl

strlcat-cut :
    strlcat (7 ∷ 97 ∷ 0 ∷ 9 ∷ 9 ∷ []) 1 (98 ∷ 99 ∷ 0 ∷ []) 3 ≡ ok (7 ∷ 97 ∷ 98 ∷ 0 ∷ 9 ∷ [], 3)
unfolding strlcat strlen memcpy
strlcat-cut = refl
