-- ===== src/Synch/Exclusion.antt =====
-- threads/synch.c: what holds of a lock and its threads in every world that they reach.
use cs439_project.Prelude.{
  ℕ, Bool, true, false, Option, none, some, ◌≡◌, ◌⊎◌, ap, zero, suc, count, inl, inr, refl, arith,
}
use cs439_project.Synch.Lock.{
  lock_held_by_current_thread, Place, trying, queued, holding, World, try_round, Reach,
}
use cs439_project.Synch.Invariant.{owns, Inv, Reach-Inv}

-- In every world that threads reach from a fresh lock by the pieces of `lock_acquire`,
-- `lock_try_acquire` and `lock_release`, in any order: two threads are one, if each is in the
-- critical section, that is, has the semaphore (before the write of `holder`, with the lock, or
-- before the `sema_up` of `lock_release`).
pub mutual_exclusion :
    {w : World} → Reach w → (t u : ℕ) → owns (w.place t) ≡ true → owns (w.place u) ≡ true → t ≡ u
mutual_exclusion r t u p q = (Reach-Inv r).apart t u p q

abbrev pub is_holding : Place → Bool
is_holding holding = true
is_holding _ = false

module _ {w : World} (inv : Inv w) (t : ℕ) where
  holds_from :
      (h : Option ℕ)
      → w.lock.holder ≡ h
      → (p : Place) → w.place t ≡ p
      → lock_held_by_current_thread t w.lock ≡ is_holding p
  unfolding lock_held_by_current_thread
  holds_from none e p q = ground (arith, inv.held t)
  holds_from (some v) e p q = ground (arith, inv.held t, inv.holds t)

-- In every world that threads reach from a fresh lock by the pieces of `lock_acquire`,
-- `lock_try_acquire` and `lock_release`, in any order: `lock_held_by_current_thread` is true for
-- the thread with the lock and false for every other one, so that the assertions at the head of
-- the three functions hold for a thread that has the lock exactly when it releases it.
pub lock_held_by_current_thread-right :
    {w : World} → Reach w → (t : ℕ) → lock_held_by_current_thread t w.lock ≡ is_holding (w.place t)
lock_held_by_current_thread-right {w} r t =
    holds_from (Reach-Inv r) t w.lock.holder refl (w.place t) refl

round_takes :
    (w : World) (t : ℕ) → w.lock.semaphore.value ≡ 1 → owns ((try_round t w).place t) ≡ true
unfolding try_round
round_takes w t free = ground arith

-- In every world that threads reach from a fresh lock by the pieces of `lock_acquire`,
-- `lock_try_acquire` and `lock_release`, in any order, a blocked thread is in the list of waiters,
-- once, and its wake-up is not lost: there is a thread that has the semaphore, or a thread at the
-- test of the loop in `sema_down` that gets the semaphore if it runs next.
pub no_lost_wakeup :
    {w : World}
    → Reach w
    → (t : ℕ) → w.place t ≡ queued
    → (count t w.lock.semaphore.waiters ≡ 1)
      × ((u : ℕ) × ((owns (w.place u) ≡ true)
            ⊎ ((w.place u ≡ trying) × (owns ((try_round u w).place u) ≡ true))))
no_lost_wakeup {w} r t blocked_here = (once, live w.lock.semaphore.value refl)
  where
    open (Reach-Inv r) use {small, owned, waits, wakeful}

    once : count t w.lock.semaphore.waiters ≡ 1
    once = ground (arith, waits t)

    live :
        (v : ℕ)
        → w.lock.semaphore.value ≡ v
        → (u : ℕ) × ((owns (w.place u) ≡ true)
            ⊎ ((w.place u ≡ trying) × (owns ((try_round u w).place u) ≡ true)))
    live zero e = let (u, o) = owned e in (u, inl o)
    live (suc v) e = elim (wakeful (omega (arith, small, e))) [
      | inl nobody ↦ absurd (ground (arith, once, ap (count t) nobody))
      | inr (u, q) ↦ (u, inr (q, round_takes w u (omega (arith, small, e))))
    ]
