-- ===== src/Prelude/Counts.antt =====
-- How often a number is in a list.
use Prim.Native.Nat.{ℕ, ◌+◌}
use mathlib.Core.Path.{◌≡◌}
use mathlib.Core.List.{List, [], ◌∷◌, ◌++◌}
use native.Mathlib.Omega.{arith}
use cs439_project.Prelude.Tests.{if◌then◌else◌, ◌==◌}

abbrev pub count : ℕ → List ℕ → ℕ
count t [] = 0
count t (u ∷ us) = (if u == t then 1 else 0) + count t us

pub count-append : (t : ℕ) (us vs : List ℕ) → count t (us ++ vs) ≡ count t us + count t vs
count-append t [] vs = omega arith
count-append t (u ∷ us) vs = omega (arith, count-append t us vs)
