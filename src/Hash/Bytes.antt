-- ===== src/Hash/Bytes.antt =====
-- The Fowler-Noll-Vo hashes of lib/kernel/hash.c.
use cs439_project.Prelude.{
  ℕ, ◌*◌, ◌%◌, ◌^◌, List, [], ◌∷◌, ◌++◌, ◌≡◌, refl, if◌then◌else◌, ◌==◌, ==_ne, Outcome, ok, wild,
  bit_xor,
}
use cs439_project.CString.Strings.{IsText}
use cs439_project.Filesys.{word_bytes}

-- FNV_32_PRIME and FNV_32_BASIS
abbrev pub fnv_32_prime : ℕ
fnv_32_prime = 16777619

abbrev pub fnv_32_basis : ℕ
fnv_32_basis = 2166136261

-- The body of both loops.
abbrev pub hash_step : ℕ → ℕ → ℕ
hash_step hash byte = bit_xor (hash * fnv_32_prime % 2 ^ 32) byte

abbrev pub bytes_loop : ℕ → List ℕ → ℕ
bytes_loop hash [] = hash
bytes_loop hash (b ∷ buf) = bytes_loop (hash_step hash b) buf

-- `hash_bytes` of the bytes that the buffer holds
abbrev pub hash_bytes : List ℕ → ℕ
hash_bytes buf = bytes_loop fnv_32_basis buf

unfoldable pub string_loop : ℕ → List ℕ → Outcome ℕ
string_loop hash [] = wild
string_loop hash (b ∷ s) =
    let rest = string_loop (hash_step hash b) s in if b == 0 then ok hash else rest

-- `hash_string`
unfoldable pub hash_string : List ℕ → Outcome ℕ
hash_string s = string_loop fnv_32_basis s

-- `hash_int` of an `int` as its word
abbrev pub hash_int : ℕ → ℕ
hash_int i = hash_bytes (word_bytes (i ∷ []))

string_loop-bytes :
    (hash : ℕ) (text rest : List ℕ)
    → IsText text
    → string_loop hash (text ++ (0 ∷ rest)) ≡ ok (bytes_loop hash text)
unfolding string_loop
string_loop-bytes hash [] rest t = refl
string_loop-bytes hash (b ∷ text) rest t =
    rw (==_ne b 0 t.0) (string_loop-bytes (hash_step hash b) text rest t.1)

-- `hash_string` of a string is `hash_bytes` of its text, whatever stands behind the null byte.
pub hash_string-hash_bytes :
    (text rest : List ℕ) → IsText text → hash_string (text ++ (0 ∷ rest)) ≡ ok (hash_bytes text)
unfolding hash_string
hash_string-hash_bytes text rest t = string_loop-bytes fnv_32_basis text rest t
