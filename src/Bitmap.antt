-- ===== src/Bitmap.antt =====
-- lib/kernel/bitmap.c: a bitmap over an array of 32-bit elements (`unsigned long` and `size_t`
-- have 32 bits on the i386). An operation that changes the bitmap returns the new one.
-- Reading and writing a bitmap file and the hexadecimal dump are not modelled.
pub mod Single
pub mod Multiple
pub mod Scan
pub mod Create
mod Tests
use cs439_project.Prelude.{
  ℕ, zero, suc, ◌+◌, ◌-◌, ◌*◌, ◌/◌, ◌%◌, ◌^◌, ◌≤◌, ◌<◌, bit_and, bit_or, bit_xor, Bool, true, false,
  not, List, [], Option, none, some, if◌then◌else◌, ltb, leb, ◌==◌, same, ◌≡◌, Outcome, ok, ◌>>=◌,
  ◌>>◌, assert, deref, get_elem?, set,
}

pub record Bitmap : Type 0 where
  pub bit_cnt : ℕ
  pub bits : List ℕ

-- ELEM_BITS
abbrev pub elem_bits : ℕ
elem_bits = 32

-- `size_t` addition
abbrev pub add_size : ℕ → ℕ → ℕ
add_size a b = (a + b) % 2 ^ 32

abbrev pub elem_idx : ℕ → ℕ
elem_idx bit_idx = bit_idx / elem_bits

abbrev pub bit_mask : ℕ → ℕ
bit_mask bit_idx = 2 ^ (bit_idx % elem_bits)

-- DIV_ROUND_UP (bit_cnt, ELEM_BITS)
abbrev pub elem_cnt : ℕ → ℕ
elem_cnt bit_cnt = add_size bit_cnt (elem_bits - 1) / elem_bits

abbrev pub byte_cnt : ℕ → ℕ
byte_cnt bit_cnt = 4 * elem_cnt bit_cnt

-- `~x` on an element
abbrev pub complement : ℕ → ℕ
complement x = bit_xor x (2 ^ 32 - 1)

unfoldable pub last_mask : Bitmap → ℕ
last_mask b =
    let last_bits = b.bit_cnt % elem_bits in
    if last_bits == 0 then 2 ^ 32 - 1 else 2 ^ last_bits - 1

-- `bitmap_size`
abbrev pub size : Bitmap → ℕ
size b = b.bit_cnt

-- The read, the operation and the write of `b->bits[idx]` by one instruction.
abbrev pub update_elem : Bitmap → ℕ → (ℕ → ℕ) → Outcome Bitmap
update_elem b idx f = do
  w ← deref (get_elem? b.bits idx)
  ok (record b { bits = set b.bits idx (f w) })

-- `bitmap_mark`
unfoldable pub mark : Bitmap → ℕ → Outcome Bitmap
mark b bit_idx = update_elem b (elem_idx bit_idx) (λ w. bit_or w (bit_mask bit_idx))

-- `bitmap_reset`
unfoldable pub reset : Bitmap → ℕ → Outcome Bitmap
reset b bit_idx = update_elem b (elem_idx bit_idx) (λ w. bit_and w (complement (bit_mask bit_idx)))

-- `bitmap_flip`
unfoldable pub flip : Bitmap → ℕ → Outcome Bitmap
flip b bit_idx = update_elem b (elem_idx bit_idx) (λ w. bit_xor w (bit_mask bit_idx))

-- `bitmap_set`
unfoldable pub set_bit : Bitmap → ℕ → Bool → Outcome Bitmap
set_bit b idx value = do assert (ltb idx b.bit_cnt); if value then mark b idx else reset b idx

-- `bitmap_test`
unfoldable pub test : Bitmap → ℕ → Outcome Bool
test b idx = do
  assert (ltb idx b.bit_cnt)
  w ← deref (get_elem? b.bits (elem_idx idx))
  ok (not (bit_and w (bit_mask idx) == 0))

-- The loop of `bitmap_set_multiple`, with the rounds left.
unfoldable pub set_loop : ℕ → Bitmap → ℕ → ℕ → Bool → Outcome Bitmap
set_loop zero b start i value = ok b
set_loop (suc left) b start i value =
    set_bit b (add_size start i) value >>= λ b'. set_loop left b' start (i + 1) value

-- ASSERT (start <= b->bit_cnt); ASSERT (start + cnt <= b->bit_cnt)
abbrev pub assert_range : Bitmap → ℕ → ℕ → Outcome (Unit {0})
assert_range b start cnt =
    assert (leb start b.bit_cnt) >> assert (leb (add_size start cnt) b.bit_cnt)

-- `bitmap_set_multiple`
unfoldable pub set_multiple : Bitmap → ℕ → ℕ → Bool → Outcome Bitmap
set_multiple b start cnt value = assert_range b start cnt >> set_loop cnt b start 0 value

-- `bitmap_set_all`
unfoldable pub set_all : Bitmap → Bool → Outcome Bitmap
set_all b value = set_multiple b 0 (size b) value

-- The loop of `bitmap_count`.
unfoldable pub count_loop : ℕ → Bitmap → ℕ → ℕ → Bool → ℕ → Outcome ℕ
count_loop zero b start i value value_cnt = ok value_cnt
count_loop (suc left) b start i value value_cnt = test b (add_size start i) >>= λ t.
    count_loop left b start (i + 1) value (if same t value then value_cnt + 1 else value_cnt)

-- `bitmap_count`
unfoldable pub count : Bitmap → ℕ → ℕ → Bool → Outcome ℕ
count b start cnt value = assert_range b start cnt >> count_loop cnt b start 0 value 0

-- The loop of `bitmap_contains`.
unfoldable pub contains_loop : ℕ → Bitmap → ℕ → ℕ → Bool → Outcome Bool
contains_loop zero b start i value = ok false
contains_loop (suc left) b start i value = test b (add_size start i) >>= λ t. elim (same t value) [
  | true ↦ ok true
  | false ↦ contains_loop left b start (i + 1) value
]

-- `bitmap_contains`
unfoldable pub contains : Bitmap → ℕ → ℕ → Bool → Outcome Bool
contains b start cnt value = assert_range b start cnt >> contains_loop cnt b start 0 value

-- `bitmap_any`
unfoldable pub any : Bitmap → ℕ → ℕ → Outcome Bool
any b start cnt = contains b start cnt true

-- `bitmap_none`
unfoldable pub none_set : Bitmap → ℕ → ℕ → Outcome Bool
none_set b start cnt = contains b start cnt true >>= λ c. ok (not c)

-- `bitmap_all`
unfoldable pub all : Bitmap → ℕ → ℕ → Outcome Bool
all b start cnt = contains b start cnt false >>= λ c. ok (not c)

-- The loop of `bitmap_scan`, with the rounds left up to `last`; `none` is BITMAP_ERROR.
unfoldable pub scan_loop : ℕ → Bitmap → ℕ → ℕ → Bool → Outcome (Option ℕ)
scan_loop zero b i cnt value = ok none
scan_loop (suc left) b i cnt value = contains b i cnt (not value) >>= λ c. elim c [
  | true ↦ scan_loop left b (i + 1) cnt value
  | false ↦ ok (some i)
]

-- `bitmap_scan`
unfoldable pub scan : Bitmap → ℕ → ℕ → Bool → Outcome (Option ℕ)
scan b start cnt value = do
  assert (leb start b.bit_cnt)
  if leb cnt b.bit_cnt then scan_loop (b.bit_cnt - cnt + 1 - start) b start cnt value else ok none

-- The test of `bitmap_scan_and_flip` on what the scan returned.
unfoldable pub flip_group : Bitmap → ℕ → Bool → Option ℕ → Outcome (Bitmap × Option ℕ)
flip_group b cnt value none = ok (b, none)
flip_group b cnt value (some idx) = set_multiple b idx cnt (not value) >>= λ b'. ok (b', some idx)

-- `bitmap_scan_and_flip`
unfoldable pub scan_and_flip : Bitmap → ℕ → ℕ → Bool → Outcome (Bitmap × Option ℕ)
scan_and_flip b start cnt value = scan b start cnt value >>= λ idx. flip_group b cnt value idx

-- `bitmap_create`: `header` says whether the first malloc gave memory, and `storage` is the
-- memory that the second one gave, with whatever words it holds.
unfoldable pub create : ℕ → Bool → Option (List ℕ) → Outcome (Option Bitmap)
create bit_cnt false storage = ok none
create bit_cnt true (some words) =
    set_all (record { bit_cnt = bit_cnt; bits = words }) false >>= λ b. ok (some b)
create bit_cnt true none =
    if bit_cnt == 0
    then (set_all (record { bit_cnt = bit_cnt; bits = [] }) false >>= λ b. ok (some b))
    else ok none

-- `bitmap_buf_size`: a `struct bitmap` has eight bytes.
unfoldable pub buf_size : ℕ → ℕ
buf_size bit_cnt = add_size 8 (byte_cnt bit_cnt)

-- `bitmap_create_in_buf`; `words` are the words of the block behind the structure.
unfoldable pub create_in_buf : ℕ → List ℕ → ℕ → Outcome Bitmap
unfolding buf_size
create_in_buf bit_cnt words block_size = do
  assert (leb (buf_size bit_cnt) block_size)
  set_all (record { bit_cnt = bit_cnt; bits = words }) false
