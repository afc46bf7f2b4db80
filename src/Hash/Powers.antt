-- ===== src/Hash/Powers.antt =====
-- lib/kernel/hash.c: the loop of `rehash` that turns bits off ends at a power of 2.
use cs439_project.Prelude.{
  ℕ, zero, suc, ◌-◌, ◌*◌, ◌/◌, ◌%◌, ◌^◌, ◌≤◌, ◌<◌, ◌≡◌, ◌≢◌, refl, ap, ◌⊎◌, inl, inr, Bool-cases,
  bit_and, arith,
}
use cs439_project.Prelude.Bits.{bit_and-le, and_halves}
use cs439_project.Hash.{turn_off_least_1bit, is_power_of_2, power_loop}

bit_and-self_fuel : (fuel a : ℕ) → a ≤ fuel → bit_and a a ≡ a
bit_and-self_fuel zero a h = let e : a ≡ 0 = omega arith in rw e refl
bit_and-self_fuel (suc fuel) a h =
    omega (arith, and_halves a a, bit_and-self_fuel fuel (a / 2) (omega arith))

-- Of an even number the bit is that of its half; of an odd number it is the last one.
turn_off-even : (n : ℕ) → n % 2 ≡ 0 → turn_off_least_1bit n ≡ 2 * turn_off_least_1bit (n / 2)
turn_off-even zero e = refl
turn_off-even (suc n) e =
    let half : (suc n - 1) / 2 ≡ suc n / 2 - 1 = omega arith in
    let step = ap (λ y. bit_and (suc n / 2) y) half in
    omega (arith, and_halves (suc n) (suc n - 1), step)

turn_off-odd : (n : ℕ) → n % 2 ≡ 1 → turn_off_least_1bit n ≡ n - 1
turn_off-odd n e =
    let half : (n - 1) / 2 ≡ n / 2 = omega arith in
    let step = ap (λ y. bit_and (n / 2) y) half in
    omega (arith, and_halves n (n - 1), step, bit_and-self_fuel (n / 2) (n / 2) (omega arith))

parity : (n : ℕ) → (n % 2 ≡ 0) ⊎ (n % 2 ≡ 1)
parity n = ground arith

-- A number with one bit is a power of 2.
one_bit : (fuel n : ℕ) → n ≤ fuel → 0 < n → turn_off_least_1bit n ≡ 0 → (k : ℕ) × (n ≡ 2 ^ k)
one_bit zero n h pos off = absurd (omega arith)
one_bit (suc fuel) n h pos off = elim (parity n) [
  | inl e ↦
      let (k, half) =
        one_bit fuel (n / 2) (omega arith) (omega arith) (omega (arith, turn_off-even n e)) in
      (suc k, omega arith)
  | inr e ↦ (0, omega (arith, turn_off-odd n e))
]

-- Turning off a bit that is not the only one keeps the highest.
turn_off-top : (k n : ℕ) → turn_off_least_1bit n ≢ 0 → turn_off_least_1bit n < 2 ^ k → n < 2 ^ k
turn_off-top zero n some_bit low = absurd (some_bit (omega arith))
turn_off-top (suc k) n some_bit low = elim (parity n) [
  | inl e ↦
      let half = turn_off-even n e in
      let below : n / 2 < 2 ^ k =
        turn_off-top k (n / 2) (λ z. some_bit (omega arith)) (omega arith) in
      omega arith
  | inr e ↦ omega (arith, turn_off-odd n e)
]

-- The loop from a positive number, with as much fuel, ends at the largest power of 2 up to it.
pub power_loop-power :
    (fuel n : ℕ)
    → 0 < n
    → n ≤ fuel
    → (k : ℕ) × (power_loop fuel n ≡ 2 ^ k) × (2 ^ k ≤ n) × (n < 2 ^ suc k)
unfolding power_loop
power_loop-power zero n pos h = absurd (omega arith)
power_loop-power (suc fuel) n pos h = elim (Bool-cases (is_power_of_2 n)) [
  | inl p ↦
      let (k, e) = one_bit n n (omega arith) pos (ground arith) in
      rw p (k, e, omega arith, omega arith)
  | inr p ↦
      let less : turn_off_least_1bit n < n = omega (arith, bit_and-le n (n - 1)) in
      let left : 0 < turn_off_least_1bit n = ground arith in
      let (k, e, small, top) = power_loop-power fuel (turn_off_least_1bit n) left (omega arith) in
      rw p (k, e, omega arith, turn_off-top (suc k) n (λ z. omega arith) top)
]
