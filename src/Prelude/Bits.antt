-- ===== src/Prelude/Bits.antt =====
-- The bit k of a number, and the native bit operations read bit by bit. The native operations
-- stand for a recursion on binary digits with fuel; here the fuel is dropped.
use Prim.Native.Nat.{
  ℕ, zero, suc, ◌+◌, ◌-◌, ◌*◌, ◌/◌, ◌%◌, ◌^◌, ◌≤◌, ◌<◌, min, max, bit_and, bit_or, bit_xor, digits,
  bitwise, differ, bit_and-bitwise, bit_or-bitwise, bit_xor-bitwise,
}
use mathlib.Core.Path.{◌≡◌, refl, ◌∙◌, ap}
use mathlib.Core.Logic.{◌≢◌}
use native.Mathlib.Nat.{pow-suc, le_refl}
use native.Mathlib.Omega.{arith}

abbrev pub bit : ℕ → ℕ → ℕ
bit w zero = w % 2
bit w (suc k) = bit (w / 2) k

module _ (z : ℕ → ℕ) (f : ℕ → ℕ → ℕ) where
  any_fuel : (n m a b : ℕ) → a ≤ n → a ≤ m → digits z f n a b ≡ digits z f m a b
  any_fuel zero zero a b p q = refl
  any_fuel zero (suc m) zero b p q = refl
  any_fuel zero (suc m) (suc a) b p q = absurd (omega arith)
  any_fuel (suc n) zero zero b p q = refl
  any_fuel (suc n) zero (suc a) b p q = absurd (omega arith)
  any_fuel (suc n) (suc m) zero b p q = refl
  any_fuel (suc n) (suc m) (suc a) b p q =
      rw (any_fuel n m (suc a / 2) (b / 2) (omega arith) (omega arith))

  lowest_digit :
      (a b : ℕ)
      → bitwise z f (suc a) b ≡ bitwise z f (suc a / 2) (b / 2) * 2 + f (suc a % 2) (b % 2)
  lowest_digit a b =
      omega (arith, any_fuel a (suc a / 2) (suc a / 2) (b / 2) (omega arith) (le_refl _))

or_halves : (a b : ℕ) → bit_or a b ≡ bit_or (a / 2) (b / 2) * 2 + max (a % 2) (b % 2)
or_halves zero b = simp bit_or-bitwise (omega arith)
or_halves (suc a) b = simp bit_or-bitwise (lowest_digit (λ y. y) max a b)

pub and_halves : (a b : ℕ) → bit_and a b ≡ bit_and (a / 2) (b / 2) * 2 + min (a % 2) (b % 2)
and_halves zero b = simp bit_and-bitwise (omega arith)
and_halves (suc a) b = simp bit_and-bitwise (lowest_digit (λ y. 0) min a b)

pub differ_digits : (x y : ℕ) → x < 2 → y < 2 → differ x y ≡ max x y - min x y
differ_digits zero y p q = omega arith
differ_digits (suc x) zero p q = omega arith
differ_digits (suc zero) (suc zero) p q = refl
differ_digits (suc zero) (suc (suc y)) p q = absurd (omega arith)
differ_digits (suc (suc x)) (suc y) p q = absurd (omega arith)

xor_halves : (a b : ℕ) → bit_xor a b ≡ bit_xor (a / 2) (b / 2) * 2 + differ (a % 2) (b % 2)
xor_halves zero b = simp bit_xor-bitwise (omega (arith, differ_digits 0 (b % 2)))
xor_halves (suc a) b = simp bit_xor-bitwise (lowest_digit (λ y. y) differ a b)

pub bit-lt : (w k : ℕ) → bit w k < 2
bit-lt w zero = omega arith
bit-lt w (suc k) = bit-lt (w / 2) k

pub bit-zero : (k : ℕ) → bit 0 k ≡ 0
bit-zero zero = refl
bit-zero (suc k) = bit-zero k

pub bit-bit_or : (a b k : ℕ) → bit (bit_or a b) k ≡ max (bit a k) (bit b k)
bit-bit_or a b zero = omega (arith, or_halves a b)
bit-bit_or a b (suc k) =
    ap (λ (t : ℕ). bit t k) {y = bit_or (a / 2) (b / 2)} (omega (arith, or_halves a b))
    ∙ bit-bit_or (a / 2) (b / 2) k

pub bit-bit_and : (a b k : ℕ) → bit (bit_and a b) k ≡ min (bit a k) (bit b k)
bit-bit_and a b zero = omega (arith, and_halves a b)
bit-bit_and a b (suc k) =
    ap (λ (t : ℕ). bit t k) {y = bit_and (a / 2) (b / 2)} (omega (arith, and_halves a b))
    ∙ bit-bit_and (a / 2) (b / 2) k

differ-lt : (x y : ℕ) → x < 2 → y < 2 → differ x y < 2
differ-lt x y p q = omega (arith, differ_digits x y p q)

pub bit-bit_xor : (a b k : ℕ) → bit (bit_xor a b) k ≡ differ (bit a k) (bit b k)
bit-bit_xor a b zero =
    omega (arith, xor_halves a b, differ-lt (a % 2) (b % 2) (omega arith) (omega arith))
bit-bit_xor a b (suc k) =
    ap (λ (t : ℕ). bit t k) {y = bit_xor (a / 2) (b / 2)}
      (omega (arith, xor_halves a b, differ-lt (a % 2) (b % 2) (omega arith) (omega arith)))
    ∙ bit-bit_xor (a / 2) (b / 2) k

-- A power of two has one bit.
pub bit-pow_self : (m : ℕ) → bit (2 ^ m) m ≡ 1
bit-pow_self zero = refl
bit-pow_self (suc m) =
    ap (λ (t : ℕ). bit t m) {y = 2 ^ m} (omega (arith, pow-suc 2 m)) ∙ bit-pow_self m

pub bit-pow_ne : (m k : ℕ) → m ≢ k → bit (2 ^ m) k ≡ 0
bit-pow_ne zero zero h = absurd (h refl)
bit-pow_ne zero (suc k) h = bit-zero k
bit-pow_ne (suc m) zero h = omega (arith, pow-suc 2 m)
bit-pow_ne (suc m) (suc k) h =
    ap (λ (t : ℕ). bit t k) {y = 2 ^ m} (omega (arith, pow-suc 2 m))
    ∙ bit-pow_ne m k (λ e. h (ap suc e))

-- n ones: the word `~0` of n bits.
pub bit-ones : (n k : ℕ) → k < n → bit (2 ^ n - 1) k ≡ 1
bit-ones zero k h = absurd (omega arith)
bit-ones (suc n) zero h = omega (arith, pow-suc 2 n, pow-pos n)
  where
    pow-pos : (n : ℕ) → 0 < 2 ^ n
    pow-pos zero = omega arith
    pow-pos (suc n) = omega (arith, pow-suc 2 n, pow-pos n)
bit-ones (suc n) (suc k) h =
    ap (λ (t : ℕ). bit t k) {y = 2 ^ n - 1} (omega (arith, pow-suc 2 n))
    ∙ bit-ones n k (omega arith)

-- A word with no bits set is zero.
pub no_bits : (n w : ℕ) → w ≤ n → ((k : ℕ) → bit w k ≡ 0) → w ≡ 0
no_bits zero w h none_set = omega arith
no_bits (suc n) w h none_set =
    omega (arith, none_set 0, no_bits n (w / 2) (omega arith) (λ k. none_set (suc k)))

-- `a & b` is at most `b`.
and-le_fuel : (n a b : ℕ) → b ≤ n → a ≤ n → bit_and a b ≤ b
and-le_fuel zero a b h p = omega (arith, and_zero a b (omega arith) (omega arith))
  where
    and_zero : (a b : ℕ) → a ≡ 0 → b ≡ 0 → bit_and a b ≡ 0
    and_zero a b p q = rw (p, q)
and-le_fuel (suc n) a b h p =
    omega (arith, and_halves a b, and-le_fuel n (a / 2) (b / 2) (omega arith) (omega arith))

pub bit_and-le : (a b : ℕ) → bit_and a b ≤ b
bit_and-le a b = and-le_fuel (a + b) a b (omega arith) (omega arith)
