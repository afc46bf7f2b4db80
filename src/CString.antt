-- ===== src/CString.antt =====
-- lib/string.c: memory blocks and C strings. A pointer into a block of bytes is the list of the
-- bytes from there to the block's end, and a pointer that is returned is an offset; reading past
-- the block's end is `wild`. The null pointer checks hold by this representation.
pub mod Move
pub mod Strings
pub mod Tokens
pub mod Search
mod Tests
use cs439_project.Prelude.{
  ℕ, zero, suc, ◌+◌, ◌-◌, ◌%◌, ◌≤◌, ◌<◌, Bool, true, false, not, List, [], ◌∷◌, if◌then◌else◌, ltb,
  leb, ◌==◌, ◌&&◌, Outcome, ok, wild, ◌>>=◌, deref, get_elem?, set, length, take, drop, overwrite,
  write_bytes, Option, none, some, replicate, read_bytes, ◌++◌,
}

-- `*p = value` at an index of a block.
abbrev pub poke : List ℕ → ℕ → ℕ → Outcome (List ℕ)
poke mem i value = if ltb i (length mem) then ok (set mem i value) else wild

-- The ascending loop of `memmove`, which is also that of `memcpy`, within one block.
unfoldable pub copy_up : ℕ → List ℕ → ℕ → ℕ → Outcome (List ℕ)
copy_up zero mem dst src = ok mem
copy_up (suc n) mem dst src =
    deref (get_elem? mem src) >>= λ b. poke mem dst b >>= λ mem'. copy_up n mem' (dst + 1) (src + 1)

-- The descending loop of `memmove`: dst and src are the starts of the blocks.
unfoldable pub copy_down : ℕ → List ℕ → ℕ → ℕ → Outcome (List ℕ)
copy_down zero mem dst src = ok mem
copy_down (suc n) mem dst src = deref (get_elem? mem (src + n)) >>= λ b.
    poke mem (dst + n) b >>= λ mem'. copy_down n mem' dst src

-- `memmove` within one block: the block after it, and the pointer that it returns, which the
-- ascending loop has moved on.
unfoldable pub memmove : List ℕ → ℕ → ℕ → ℕ → Outcome (List ℕ × ℕ)
memmove mem dst src size =
    if ltb dst src
    then (copy_up size mem dst src >>= λ mem'. ok (mem', dst + size))
    else (copy_down size mem dst src >>= λ mem'. ok (mem', dst))

-- `memcpy` between two blocks: the bytes of `src` go to `dst` one after the other.
unfoldable pub memcpy : List ℕ → ℕ → List ℕ → ℕ → Outcome (List ℕ)
memcpy dst at src zero = ok dst
memcpy dst at [] (suc n) = wild
memcpy dst at (b ∷ src) (suc n) = poke dst at b >>= λ dst'. memcpy dst' (at + 1) src n

-- `memset` from an offset of a block
unfoldable pub memset : List ℕ → ℕ → ℕ → ℕ → Outcome (List ℕ)
memset dst at value zero = ok dst
memset dst at value (suc n) = poke dst at (value % 256) >>= λ dst'. memset dst' (at + 1) value n

-- The sign of the `int` that a comparison returns.
pub data Sign : Type 0 where
  negative equal positive : Sign

-- `memcmp`
unfoldable pub memcmp : List ℕ → List ℕ → ℕ → Outcome Sign
memcmp a b zero = ok equal
memcmp [] b (suc n) = wild
memcmp (x ∷ a) [] (suc n) = wild
memcmp (x ∷ a) (y ∷ b) (suc n) =
    if x == y then memcmp a b n else ok (if ltb y x then positive else negative)

-- `strcmp`
unfoldable pub strcmp : List ℕ → List ℕ → Outcome Sign
strcmp [] b = wild
strcmp (x ∷ a) [] = wild
strcmp (x ∷ a) (y ∷ b) =
    if not (x == 0) && x == y
    then strcmp a b
    else ok (if ltb x y then negative else if ltb y x then positive else equal)

abbrev pub later : Outcome (Option ℕ) → Outcome (Option ℕ)
later r = r >>= λ o. elim o [ none ↦ ok none | some i ↦ ok (some (i + 1)) ]

-- `memchr`
unfoldable pub memchr : List ℕ → ℕ → ℕ → Outcome (Option ℕ)
memchr block ch zero = ok none
memchr [] ch (suc n) = wild
memchr (b ∷ block) ch (suc n) = if b == ch % 256 then ok (some 0) else later (memchr block ch n)

-- `strchr`
unfoldable pub strchr : List ℕ → ℕ → Outcome (Option ℕ)
strchr [] c = wild
strchr (b ∷ string) c =
    if b == c % 256 then ok (some 0) else if b == 0 then ok none else later (strchr string c)

-- `strlen`
unfoldable pub strlen : List ℕ → Outcome ℕ
strlen [] = wild
strlen (b ∷ string) = if b == 0 then ok 0 else (strlen string >>= λ n. ok (n + 1))

-- `strnlen`; the character is read before the count is tested.
unfoldable pub strnlen : List ℕ → ℕ → Outcome ℕ
strnlen [] maxlen = wild
strnlen (b ∷ string) zero = ok 0
strnlen (b ∷ string) (suc maxlen) =
    if b == 0 then ok 0 else (strnlen string maxlen >>= λ n. ok (n + 1))

abbrev pub is_found : Option ℕ → Bool
is_found none = false
is_found (some i) = true

-- The loop of `strcspn` and `strspn`, which stop at a character (not) in the set.
unfoldable pub span_loop : Bool → List ℕ → List ℕ → Outcome ℕ
span_loop stop_at [] chars = wild
span_loop stop_at (b ∷ string) chars =
    if b == 0
    then ok 0
    else (strchr chars b >>= λ found.
        if (if stop_at then is_found found else not (is_found found))
        then ok 0
        else (span_loop stop_at string chars >>= λ n. ok (n + 1)))

-- `strcspn`
unfoldable pub strcspn : List ℕ → List ℕ → Outcome ℕ
strcspn string stop = span_loop true string stop

-- `strspn`
unfoldable pub strspn : List ℕ → List ℕ → Outcome ℕ
strspn string skip = span_loop false string skip

-- `strpbrk`
unfoldable pub strpbrk : List ℕ → List ℕ → Outcome (Option ℕ)
strpbrk [] stop = wild
strpbrk (b ∷ string) stop =
    if b == 0
    then ok none
    else (strchr stop b >>= λ found.
        if is_found found then ok (some 0) else later (strpbrk string stop))

-- `strlcpy` to an offset of a block: the block and the length of the source
unfoldable pub strlcpy : List ℕ → ℕ → List ℕ → ℕ → Outcome (List ℕ × ℕ)
strlcpy dst at src size = strlen src >>= λ src_len.
    if ltb 0 size
    then (let dst_len = if ltb src_len (size - 1) then src_len else size - 1 in
        memcpy dst at src dst_len >>= λ dst'.
        poke dst' (at + dst_len) 0 >>= λ dst''. ok (dst'', src_len))
    else ok (dst, src_len)

-- The first loop of `strtok_r` skips delimiters: the offset where it stops, and whether a token
-- starts there; else a null byte does.
unfoldable pub skip_delimiters : List ℕ → List ℕ → Outcome (Bool × ℕ)
skip_delimiters [] delimiters = wild
skip_delimiters (b ∷ s) delimiters = strchr delimiters b >>= λ found.
    if is_found found
    then (if b == 0
        then ok (false, 0)
        else (skip_delimiters s delimiters >>= λ r. ok (r.0, r.1 + 1)))
    else ok (true, 0)

-- The second loop of `strtok_r`: the length of the token.
unfoldable pub token_end : List ℕ → List ℕ → Outcome ℕ
token_end [] delimiters = wild
token_end (b ∷ s) delimiters = strchr delimiters b >>= λ found.
    if is_found found then ok 0 else (token_end s delimiters >>= λ n. ok (n + 1))

-- What `strtok_r` answers: no token and the saved offset; or the string with the delimiter behind
-- the token set to null, the token's offset and length, and the saved offset.
pub data Token : Type 0 where
  no_token : ℕ → Token
  token : List ℕ → ℕ → ℕ → ℕ → Token

-- The end of `strtok_r`, once the token's offset and length are known.
abbrev pub cut : List ℕ → ℕ → ℕ → ℕ → Token
cut s start len b =
    if b == 0
    then token s start len (start + len)
    else token (set s (start + len) 0) start len (start + len + 1)

-- `strtok_r` on the string from the pointer on
unfoldable pub strtok_r : List ℕ → List ℕ → Outcome Token
strtok_r s delimiters = skip_delimiters s delimiters >>= λ r.
    if r.0
    then (token_end (drop r.1 s) delimiters >>= λ len.
        deref (get_elem? s (r.1 + len)) >>= λ b. ok (cut s r.1 len b))
    else ok (no_token r.1)
