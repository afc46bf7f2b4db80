-- ===== src/Prelude/Results.antt =====
-- What a call of a kernel routine comes to: it returns, an ASSERT or PANIC stops the kernel, it
-- reads or writes outside an object (undefined in C), or the calling thread goes to sleep; a loop
-- on fuel that has not ended when the fuel is used up `runs_on`.
use mathlib.Core.Path.{◌≡◌, refl, sym, ap, ◌∙◌}
use mathlib.Core.Bool.{Bool, true, false}
use mathlib.Core.Option.{Option, none, some}

pub data Outcome {ℓ} (A : Type ℓ) : Type ℓ where
  ok : A → Outcome A
  panic : Outcome A
  wild : Outcome A
  sleeps : Outcome A
  runs_on : Outcome A

infixl 5 ◌>>=◌ ◌>>◌
abbrev pub ◌>>=◌ {ℓ κ} : {A : Type ℓ} {B : Type κ} → Outcome A → (A → Outcome B) → Outcome B
ok a >>= f = f a
panic >>= f = panic
wild >>= f = wild
sleeps >>= f = sleeps
runs_on >>= f = runs_on

abbrev pub ◌>>◌ {ℓ} : {B : Type ℓ} → Outcome (Unit {0}) → Outcome B → Outcome B
m >> k = m >>= λ _. k

-- ASSERT (test)
abbrev pub assert : Bool → Outcome (Unit {0})
assert true = ok tt
assert false = panic

-- A read through an address that may lie outside every object.
abbrev pub deref {ℓ} : {A : Type ℓ} → Option A → Outcome A
deref none = wild
deref (some a) = ok a

pub bind_assoc {ℓ} :
    {A B C : Type ℓ} (m : Outcome A) (f : A → Outcome B) (g : B → Outcome C)
    → (m >>= f >>= g) ≡ (m >>= λ a. f a >>= g)
bind_assoc (ok a) f g = refl
bind_assoc panic f g = refl
bind_assoc wild f g = refl
bind_assoc sleeps f g = refl
bind_assoc runs_on f g = refl

pub bind_ext {ℓ} :
    {A B : Type ℓ} (m : Outcome A) {f g : A → Outcome B}
    → ((a : A) → f a ≡ g a)
    → (m >>= f) ≡ (m >>= g)
bind_ext (ok a) h = h a
bind_ext panic h = refl
bind_ext wild h = refl
bind_ext sleeps h = refl
bind_ext runs_on h = refl

-- An assertion that a run has passed.
pub assert-true {ℓ} :
    {A : Type ℓ} (b : Bool) (m : Outcome A) {a : A}
    → (assert b >> m) ≡ ok a
    → (b ≡ true) × (m ≡ ok a)
assert-true true m e = (refl, e)
assert-true false m e = cc

pub ok_injective {ℓ} : {A : Type ℓ} {a b : A} → ok a ≡ ok b → a ≡ b
ok_injective e = cc

-- The rest of a run, after a part that has succeeded.
pub after_ok {ℓ κ} :
    {A : Type ℓ} {B : Type κ} (m : Outcome A) (f : A → Outcome B) {a : A} {b : B}
    → m ≡ ok a
    → (m >>= f) ≡ ok b
    → f a ≡ ok b
after_ok (ok x) f p e = ap f (sym (ok_injective p)) ∙ e
after_ok panic f p e = cc
after_ok wild f p e = cc
after_ok sleeps f p e = cc
after_ok runs_on f p e = cc
