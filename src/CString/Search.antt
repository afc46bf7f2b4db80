-- ===== src/CString/Search.antt =====
-- lib/string.c: the last occurrence of a byte, a string in a string, and a string behind another.
use cs439_project.Prelude.{
  ℕ, zero, suc, ◌+◌, ◌-◌, ◌%◌, List, [], ◌∷◌, Option, none, some, if◌then◌else◌, ltb, leb, ◌==◌,
  ◌&&◌, Outcome, ok, wild, ◌>>=◌, drop,
}
use cs439_project.CString.{equal, memcmp, memcpy, poke, strlen}

-- The loop of `strrchr`, with the offset reached and the last one found.
unfoldable pub last_loop : List ℕ → ℕ → ℕ → Option ℕ → Outcome (Option ℕ)
last_loop [] c i p = wild
last_loop (b ∷ string) c i p =
    let rest = last_loop string c (i + 1) (if b == c then some i else p) in
    if b == 0 then ok p else rest

-- `strrchr`
unfoldable pub strrchr : List ℕ → ℕ → Outcome (Option ℕ)
strrchr string c = last_loop string (c % 256) 0 none

-- The loop of `strstr`, with the rounds left.
unfoldable pub strstr_loop : ℕ → List ℕ → List ℕ → ℕ → ℕ → Outcome (Option ℕ)
strstr_loop zero haystack needle needle_len i = ok none
strstr_loop (suc left) haystack needle needle_len i =
    memcmp (drop i haystack) needle needle_len >>= λ sign. elim sign [
      | equal ↦ ok (some i)
      | _ ↦ strstr_loop left haystack needle needle_len (i + 1)
    ]

-- `strstr`
unfoldable pub strstr : List ℕ → List ℕ → Outcome (Option ℕ)
strstr haystack needle = do
  haystack_len ← strlen haystack
  needle_len ← strlen needle
  if leb needle_len haystack_len
      then strstr_loop (haystack_len - needle_len + 1) haystack needle needle_len 0
      else ok none

-- `strlcat` to the string at an offset of a block: the block and the length that it tries to make
unfoldable pub strlcat : List ℕ → ℕ → List ℕ → ℕ → Outcome (List ℕ × ℕ)
strlcat mem at src size = do
  src_len ← strlen src
  dst_len ← strlen (drop at mem)
  if ltb 0 size && ltb dst_len size
      then (let room = size - dst_len - 1 in
          let copy_cnt = if ltb src_len room then src_len else room in
          memcpy mem (at + dst_len) src copy_cnt >>= λ mem'.
          poke mem' (at + dst_len + copy_cnt) 0 >>= λ mem''. ok (mem'', src_len + dst_len))
      else ok (mem, src_len + dst_len)
