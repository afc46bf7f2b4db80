-- ===== src/Synch/Invariant.antt =====
-- threads/synch.c: an invariant of a lock and its threads, which every step keeps.
use cs439_project.Prelude.{
  ℕ, ◌-◌, ◌<◌, ◌≤◌, Bool, true, false, List, [], ◌∷◌, ◌++◌, none, some, ◌==◌, ◌≡◌, ◌⊎◌, ltb,
  Bool-cases, count, count-append, inl, inr, refl, arith,
}
use cs439_project.Synch.{sema_down_round}
use cs439_project.Synch.Lock.{
  Place, outside, trying, queued, entering, holding, leaving, World, move, try_round, try_once,
  set_holder, give_back, Step, acquire, round, try_acquire, own, release, up, fresh_world, Reach,
  start, later,
}

abbrev pub owns : Place → Bool
owns entering = true
owns holding = true
owns leaving = true
owns _ = false

abbrev pub asleep : Place → ℕ
asleep queued = 1
asleep _ = 0

-- The invariant.
pub record Inv (w : World) : Type 0 where
  pub small : w.lock.semaphore.value ≤ 1
  pub apart : (t u : ℕ) → owns (w.place t) ≡ true → owns (w.place u) ≡ true → t ≡ u
  pub busy : (t : ℕ) → owns (w.place t) ≡ true → w.lock.semaphore.value ≡ 0
  pub owned : w.lock.semaphore.value ≡ 0 → (t : ℕ) × (owns (w.place t) ≡ true)
  pub held : (t : ℕ) → w.place t ≡ holding → w.lock.holder ≡ some t
  pub holds : (t : ℕ) → w.lock.holder ≡ some t → w.place t ≡ holding
  pub waits : (t : ℕ) → count t w.lock.semaphore.waiters ≡ asleep (w.place t)
  pub wakeful :
      w.lock.semaphore.value ≡ 1
      → (w.lock.semaphore.waiters ≡ []) ⊎ ((t : ℕ) × (w.place t ≡ trying))

Inv-fresh : Inv fresh_world
unfolding fresh_world
Inv-fresh = record {
  small = omega arith;
  apart = λ t u p q. cc;
  busy = λ t p. cc;
  owned = λ p. absurd (omega arith);
  held = λ t p. cc;
  holds = λ t p. cc;
  waits = λ t. refl;
  wakeful = λ p. inl refl;
}

module _ {w : World} (inv : Inv w) (t : ℕ) where
  open inv use {small, apart, busy, owned, held, holds, waits, wakeful}

  acquire-Inv : w.place t ≡ outside → Inv (record w { place = move w.place t trying })
  acquire-Inv e = record {
    small = small;
    apart = λ a b p q. ground (arith, apart a b);
    busy = λ a p. ground (arith, busy a);
    owned = λ p. let (a, o) = owned p in (a, ground arith);
    held = λ a p. ground (arith, held a);
    holds = λ a p. ground (arith, holds a);
    waits = λ a. ground (arith, waits a);
    wakeful = λ p. inr (t, ground arith);
  }

  own-Inv : w.place t ≡ entering → Inv (set_holder (some t) t holding w)
  unfolding set_holder
  own-Inv e = record {
    small = small;
    apart = λ a b p q. ground (arith, apart a b);
    busy = λ a p. ground (arith, busy a);
    owned = λ p. (t, ground arith);
    held = λ a p. ground (arith, held a, apart a t);
    holds = λ a p. ground (arith, holds a);
    waits = λ a. ground (arith, waits a);
    wakeful = λ p. absurd (ground (arith, busy t));
  }

  release-Inv : w.place t ≡ holding → Inv (set_holder none t leaving w)
  unfolding set_holder
  release-Inv e = record {
    small = small;
    apart = λ a b p q. ground (arith, apart a b);
    busy = λ a p. ground (arith, busy a);
    owned = λ p. (t, ground arith);
    held = λ a p. ground (arith, held a, apart a t);
    holds = λ a p. cc;
    waits = λ a. ground (arith, waits a);
    wakeful = λ p. absurd (ground (arith, busy t));
  }

  -- The semaphore is taken.
  taken-Inv :
      owns (w.place t) ≡ false
      → asleep (w.place t) ≡ 0
      → 0 < w.lock.semaphore.value
      → Inv (record {
        lock = record w.lock {
          semaphore = record w.lock.semaphore { value = w.lock.semaphore.value - 1 };
        };
        place = move w.place t entering;
      })
  taken-Inv out awake pos = record {
    small = omega (arith, small);
    apart = λ a b p q. ground (arith, busy a, busy b);
    busy = λ a p. ground (arith, busy a, small);
    owned = λ p. (t, ground arith);
    held = λ a p. ground (arith, held a);
    holds = λ a p. ground (arith, holds a, held a);
    waits = λ a. ground (arith, waits a);
    wakeful = λ p. absurd (omega (arith, small));
  }

  -- The value is zero: the thread queues.
  queued-Inv :
      w.place t ≡ trying
      → w.lock.semaphore.value ≡ 0
      → Inv (record {
        lock = record w.lock {
          semaphore = record w.lock.semaphore { waiters = w.lock.semaphore.waiters ++ (t ∷ []) };
        };
        place = move w.place t queued;
      })
  queued-Inv e zero_value = record {
    small = small;
    apart = λ a b p q. ground (arith, apart a b);
    busy = λ a p. zero_value;
    owned = λ p. let (a, o) = owned p in (a, ground arith);
    held = λ a p. ground (arith, held a);
    holds = λ a p. ground (arith, holds a);
    waits = λ a. ground (arith, waits a, count-append a w.lock.semaphore.waiters (t ∷ []));
    wakeful = λ p. absurd (omega arith);
  }

  -- Nothing changes.
  stay-Inv :
      owns (w.place t) ≡ false
      → w.place t ≡ outside
      → Inv (record { lock = w.lock; place = move w.place t outside })
  stay-Inv out e = record {
    small = small;
    apart = λ a b p q. ground (arith, apart a b);
    busy = λ a p. ground (arith, busy a);
    owned = λ p. let (a, o) = owned p in (a, ground arith);
    held = λ a p. ground (arith, held a);
    holds = λ a p. ground (arith, holds a);
    waits = λ a. ground (arith, waits a);
    wakeful = λ p. elim (wakeful p) [
      | inl none_there ↦ inl none_there
      | inr (a, q) ↦ inr (a, ground arith)
    ];
  }

  round-Inv : w.place t ≡ trying → Inv (try_round t w)
  unfolding try_round
  round-Inv e = elim (Bool-cases (w.lock.semaphore.value == 0)) [
    | inl is_zero ↦ rw (is_zero, try_round, sema_down_round) (queued-Inv e (ground arith))
    | inr pos ↦ rw (pos, try_round, sema_down_round) (taken-Inv (rw e) (rw e) (ground arith))
  ]

  once-Inv : w.place t ≡ outside → Inv (try_once t w)
  unfolding try_once
  once-Inv e = elim (Bool-cases (ltb 0 w.lock.semaphore.value)) [
    | inl pos ↦ rw pos (taken-Inv (rw e) (rw e) (ground arith))
    | inr is_zero ↦ rw is_zero (stay-Inv (rw e) e)
  ]

  up_alone-Inv :
      w.place t ≡ leaving
      → w.lock.semaphore.waiters ≡ []
      → Inv (record {
        lock = record w.lock { semaphore = record { value = 1; waiters = [] } };
        place = move w.place t outside;
      })
  up_alone-Inv e idle = record {
    small = omega arith;
    apart = λ a b p q. ground (arith, apart a b);
    busy = λ a p. absurd (ground (arith, apart a t));
    owned = λ p. absurd (omega arith);
    held = λ a p. ground (arith, held a);
    holds = λ a p. ground (arith, holds a);
    waits = λ a. ground (arith, waits a);
    wakeful = λ p. inl refl;
  }

  up_next-Inv :
      w.place t ≡ leaving
      → (v : ℕ) (vs : List ℕ) → w.lock.semaphore.waiters ≡ v ∷ vs
      → Inv (record {
        lock = record w.lock { semaphore = record { value = 1; waiters = vs } };
        place = move (move w.place t outside) v trying;
      })
  up_next-Inv e v vs some_wait = record {
    small = omega arith;
    apart = λ a b p q. ground (arith, apart a b);
    busy = λ a p. absurd (ground (arith, apart a t));
    owned = λ p. absurd (omega arith);
    held = λ a p. ground (arith, held a);
    holds = λ a p. ground (arith, holds a, waits v);
    waits = λ a. ground (arith, waits a, waits v);
    wakeful = λ p. inr (v, ground arith);
  }

  up_from-Inv :
      w.place t ≡ leaving → (ts : List ℕ) → w.lock.semaphore.waiters ≡ ts → Inv (give_back t w)
  unfolding give_back
  up_from-Inv e [] idle = rw (idle, give_back) (rw (busy t (rw e), give_back) (up_alone-Inv e idle))
  up_from-Inv e (v ∷ vs) some_wait =
      rw (some_wait, give_back) (rw (busy t (rw e), give_back) (up_next-Inv e v vs some_wait))

  up-Inv : w.place t ≡ leaving → Inv (give_back t w)
  up-Inv e = up_from-Inv e w.lock.semaphore.waiters refl

-- Every step keeps the invariant.
pub Step-Inv : {w w' : World} → Step w w' → Inv w → Inv w'
Step-Inv (acquire t e _) inv = acquire-Inv inv t e
Step-Inv (round t e) inv = round-Inv inv t e
Step-Inv (try_acquire t e _) inv = once-Inv inv t e
Step-Inv (own t e) inv = own-Inv inv t e
Step-Inv (release t e _) inv = release-Inv inv t e
Step-Inv (up t e) inv = up-Inv inv t e

pub Reach-Inv : {w : World} → Reach w → Inv w
Reach-Inv start = Inv-fresh
Reach-Inv (later r s) = Step-Inv s (Reach-Inv r)
