-- ===== src/Lists/Chain.antt =====
-- What the links of a list spell: a chain of elements between two ends.
use cs439_project.Prelude.{ℕ, List, [], ◌∷◌, ◌++◌, ◌≡◌, ◌≢◌, refl, sym, ==_refl, ==_ne}
use cs439_project.Lists.{Links, put}

-- a is none of the elements.
abbrev pub Absent : ℕ → List ℕ → Type 0
Absent a [] = Unit
Absent a (x ∷ xs) = (a ≢ x) × Absent a xs

abbrev pub Distinct : List ℕ → Type 0
Distinct [] = Unit
Distinct (x ∷ xs) = Absent x xs × Distinct xs

pub Absent-append : (a : ℕ) (xs ys : List ℕ) → Absent a xs → Absent a ys → Absent a (xs ++ ys)
Absent-append a [] ys f g = g
Absent-append a (x ∷ xs) ys f g = (f.0, Absent-append a xs ys f.1 g)

pub Absent-left : (a : ℕ) (xs ys : List ℕ) → Absent a (xs ++ ys) → Absent a xs
Absent-left a [] ys f = tt
Absent-left a (x ∷ xs) ys f = (f.0, Absent-left a xs ys f.1)

pub Absent-right : (a : ℕ) (xs ys : List ℕ) → Absent a (xs ++ ys) → Absent a ys
Absent-right a [] ys f = f
Absent-right a (x ∷ xs) ys f = Absent-right a xs ys f.1

pub Distinct-left : (xs ys : List ℕ) → Distinct (xs ++ ys) → Distinct xs
Distinct-left [] ys d = tt
Distinct-left (x ∷ xs) ys d = (Absent-left x xs ys d.0, Distinct-left xs ys d.1)

pub Distinct-right : (xs ys : List ℕ) → Distinct (xs ++ ys) → Distinct ys
Distinct-right [] ys d = d
Distinct-right (x ∷ xs) ys d = Distinct-right xs ys d.1

-- An element in the middle is none of those before it.
pub Distinct-middle : (xs : List ℕ) (y : ℕ) (ys : List ℕ) → Distinct (xs ++ (y ∷ ys)) → Absent y xs
Distinct-middle [] y ys d = tt
Distinct-middle (x ∷ xs) y ys d =
    (λ e. (Absent-right x xs (y ∷ ys) d.0).0 (sym e), Distinct-middle xs y ys d.1)

pub Distinct-insert :
    (xs ys : List ℕ) (e : ℕ) → Distinct (xs ++ ys) → Absent e (xs ++ ys) → Distinct (xs ++ (e ∷ ys))
Distinct-insert [] ys e d a = (a, d)
Distinct-insert (x ∷ xs) ys e d a = (
  Absent-append x xs (e ∷ ys) (Absent-left x xs ys d.0)
      ((λ q. a.0 (sym q)), Absent-right x xs ys d.0),
  Distinct-insert xs ys e d.1 a.1,
)

pub Distinct-remove : (xs ys : List ℕ) (e : ℕ) → Distinct (xs ++ (e ∷ ys)) → Distinct (xs ++ ys)
Distinct-remove [] ys e d = d.1
Distinct-remove (x ∷ xs) ys e d = (
  Absent-append x xs ys (Absent-left x xs (e ∷ ys) d.0) (Absent-right x xs (e ∷ ys) d.0).1,
  Distinct-remove xs ys e d.1,
)

-- From p, the links lead over the elements to q, and back.
abbrev pub Chain : Links → ℕ → List ℕ → ℕ → Type 0
Chain s p [] q = (s.next p ≡ q) × (s.prev q ≡ p)
Chain s p (x ∷ xs) q = (s.next p ≡ x) × (s.prev x ≡ p) × Chain s x xs q

pub Chain-append :
    (s : Links) (p : ℕ) (xs : List ℕ) (e : ℕ) (ys : List ℕ) (q : ℕ)
    → Chain s p xs e
    → Chain s e ys q
    → Chain s p (xs ++ (e ∷ ys)) q
Chain-append s p [] e ys q c d = (c.0, c.1, d)
Chain-append s p (x ∷ xs) e ys q c d = (c.0, c.1, Chain-append s x xs e ys q c.2 d)

pub Chain-split :
    (s : Links) (p : ℕ) (xs : List ℕ) (e : ℕ) (ys : List ℕ) (q : ℕ)
    → Chain s p (xs ++ (e ∷ ys)) q
    → Chain s p xs e × Chain s e ys q
Chain-split s p [] e ys q c = ((c.0, c.1), c.2)
Chain-split s p (x ∷ xs) e ys q c =
    let (before, after) = Chain-split s x xs e ys q c.2 in ((c.0, c.1, before), after)

abbrev pub last : ℕ → List ℕ → ℕ
last p [] = p
last p (x ∷ xs) = last x xs

pub Absent-last : (a p : ℕ) (xs : List ℕ) → Absent a (p ∷ xs) → a ≢ last p xs
Absent-last a p [] f = f.0
Absent-last a p (x ∷ xs) f = Absent-last a x xs f.1

pub Chain-last :
    (s : Links) (p : ℕ) (xs : List ℕ) (q : ℕ)
    → Chain s p xs q
    → (s.prev q ≡ last p xs) × (s.next (last p xs) ≡ q)
Chain-last s p [] q c = (c.1, c.0)
Chain-last s p (x ∷ xs) q c = Chain-last s x xs q c.2

abbrev pub with_next : Links → ℕ → ℕ → Links
with_next s a v = record s { next = put s.next a v }

abbrev pub with_prev : Links → ℕ → ℕ → Links
with_prev s a v = record s { prev = put s.prev a v }

-- A write outside the chain.
pub Chain-with_next :
    (s : Links) (p : ℕ) (xs : List ℕ) (q a v : ℕ)
    → Chain s p xs q
    → Absent a (p ∷ xs)
    → Chain (with_next s a v) p xs q
Chain-with_next s p [] q a v c f = (rw (==_ne p a (λ e. f.0 (sym e))) c.0, c.1)
Chain-with_next s p (x ∷ xs) q a v c f =
    (rw (==_ne p a (λ e. f.0 (sym e))) c.0, c.1, Chain-with_next s x xs q a v c.2 f.1)

pub Chain-with_prev :
    (s : Links) (p : ℕ) (xs : List ℕ) (q a v : ℕ)
    → Chain s p xs q
    → Absent a xs
    → a ≢ q
    → Chain (with_prev s a v) p xs q
Chain-with_prev s p [] q a v c f ne = (c.0, rw (==_ne q a (λ e. ne (sym e))) c.1)
Chain-with_prev s p (x ∷ xs) q a v c f ne =
    (c.0, rw (==_ne x a (λ e. f.0 (sym e))) c.1, Chain-with_prev s x xs q a v c.2 f.1 ne)

-- The last element is linked to another end.
pub Chain-relink :
    (s : Links) (p : ℕ) (xs : List ℕ) (q e : ℕ)
    → Chain s p xs q
    → Distinct (p ∷ xs)
    → Absent e xs
    → Chain (with_prev (with_next s (last p xs) e) e (last p xs)) p xs e
Chain-relink s p [] q e c d f = (rw (==_refl p) refl, rw (==_refl e) refl)
Chain-relink s p (x ∷ xs) q e c d f = (
  rw (==_ne p (last x xs) (Absent-last p x xs d.0)) c.0,
  rw (==_ne x e (λ r. f.0 (sym r))) c.1,
  Chain-relink s x xs q e c.2 d.1 f.1,
)
