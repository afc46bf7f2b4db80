-- ===== src/Synch/Condition.antt =====
-- threads/synch.c: condition variables. A waiter is the address of the `struct semaphore_elem` on
-- its thread's stack, and `semas` has the semaphores by that address.
use cs439_project.Prelude.{
  ℕ, Bool, true, false, not, List, [], ◌∷◌, ◌++◌, Option, none, if◌then◌else◌, ◌==◌, ◌≡◌, refl,
  count, Outcome, ok, ◌>>=◌, ◌>>◌, assert, arith,
}
use cs439_project.Synch.{Semaphore, sema_init, sema_up}
use cs439_project.Synch.Lock.{Lock, lock_held_by_current_thread, lock_release}

-- `struct condition`, with the semaphores of the waiters
pub record Condition : Type 0 where
  pub waiters : List ℕ
  pub semas : ℕ → Semaphore

abbrev pub set_sema : (ℕ → Semaphore) → ℕ → Semaphore → ℕ → Semaphore
set_sema semas w s u = if u == w then s else semas u

-- `cond_init`
unfoldable pub cond_init : (ℕ → Semaphore) → Condition
cond_init semas = record { waiters = []; semas = semas }

-- `cond_wait` up to its `sema_down`: the waiter enters the list and the lock is released. The rest
-- is `sema_down` of the waiter's semaphore and `lock_acquire`.
unfoldable pub cond_wait_enter :
    Bool → ℕ → ℕ → Condition → Lock → Outcome (Condition × Lock × Option ℕ)
unfolding lock_held_by_current_thread sema_init lock_release
cond_wait_enter intr_context current w cond lock = do
  assert (not intr_context)
  assert (lock_held_by_current_thread current lock)
  released ← lock_release current lock
  ok (
    record { waiters = cond.waiters ++ (w ∷ []); semas = set_sema cond.semas w (sema_init 0) },
    released.0,
    released.1,
  )

-- The first waiter's semaphore goes up, and its thread is unblocked if it waits there.
abbrev pub signal_first : List ℕ → (ℕ → Semaphore) → Condition × Option ℕ
signal_first [] semas = (record { waiters = []; semas = semas }, none)
signal_first (w ∷ ws) semas =
    let (s, woken) = sema_up (semas w) in
    (record { waiters = ws; semas = set_sema semas w s }, woken)

-- `cond_signal`
unfoldable pub cond_signal : Bool → ℕ → Condition → Lock → Outcome (Condition × Option ℕ)
unfolding lock_held_by_current_thread sema_up
cond_signal intr_context current cond lock = do
  assert (not intr_context)
  assert (lock_held_by_current_thread current lock)
  ok (signal_first cond.waiters cond.semas)

-- The loop of `cond_broadcast`, one round for each waiter in the list; it gives the threads that it
-- unblocks.
unfoldable pub broadcast_loop :
    Bool → ℕ → Lock → List ℕ → Condition → Outcome (Condition × List (Option ℕ))
unfolding cond_signal
broadcast_loop intr_context current lock [] cond = ok (cond, [])
broadcast_loop intr_context current lock (w ∷ ws) cond = do
  signalled ← cond_signal intr_context current cond lock
  rest ← broadcast_loop intr_context current lock ws signalled.0
  ok (rest.0, signalled.1 ∷ rest.1)

-- `cond_broadcast`
unfoldable pub cond_broadcast : Bool → ℕ → Condition → Lock → Outcome (Condition × List (Option ℕ))
unfolding broadcast_loop
cond_broadcast intr_context current cond lock =
    broadcast_loop intr_context current lock cond.waiters cond

-- The semaphores after each of some waiters has been signalled.
abbrev pub signalled_all : List ℕ → (ℕ → Semaphore) → ℕ → Semaphore
signalled_all [] semas = semas
signalled_all (w ∷ ws) semas = signalled_all ws (set_sema semas w (sema_up (semas w)).0)

signalled_all-away :
    (ws : List ℕ) (semas : ℕ → Semaphore) (u : ℕ)
    → count u ws ≡ 0
    → signalled_all ws semas u ≡ semas u
signalled_all-away [] semas u e = refl
signalled_all-away (w ∷ ws) semas u e =
    ground (arith, signalled_all-away ws (set_sema semas w (sema_up (semas w)).0) u)

signalled_all-once :
    (ws : List ℕ) (semas : ℕ → Semaphore) (u : ℕ)
    → count u ws ≡ 1
    → signalled_all ws semas u ≡ (sema_up (semas u)).0
signalled_all-once [] semas u e = absurd (omega arith)
signalled_all-once (w ∷ ws) semas u e = ground (
  arith,
  signalled_all-away ws (set_sema semas w (sema_up (semas w)).0) u,
  signalled_all-once ws (set_sema semas w (sema_up (semas w)).0) u,
)

broadcast_loop-all :
    (current : ℕ) (lock : Lock) (ws : List ℕ) (semas : ℕ → Semaphore)
    → lock_held_by_current_thread current lock ≡ true
    → (woken : List (Option ℕ)) × (broadcast_loop false current lock ws
          (record { waiters = ws; semas = semas })
        ≡ ok (record { waiters = []; semas = signalled_all ws semas }, woken))
unfolding broadcast_loop
broadcast_loop-all current lock [] semas held = ([], refl)
broadcast_loop-all current lock (w ∷ ws) semas held =
    let (woken, e) =
      broadcast_loop-all current lock ws (set_sema semas w (sema_up (semas w)).0) held in
    ((sema_up (semas w)).1 ∷ woken, rw (held, ◌>>=◌, cond_signal) (rw (e, ◌>>=◌) refl))

-- Outside of an external interrupt, `cond_broadcast` by the thread that has the lock empties the list of waiters: the semaphore of a
-- waiter that was in it, once, has gone up once, and that of any other is as before.
pub cond_broadcast-signals :
    (current : ℕ) (cond : Condition) (lock : Lock)
    → lock_held_by_current_thread current lock ≡ true
    → (cond' : Condition) × (woken : List (Option ℕ)) × (cond_broadcast false current cond lock
        ≡ ok (cond', woken))
      × (cond'.waiters ≡ [])
      × ((u : ℕ) → count u cond.waiters ≡ 1 → cond'.semas u ≡ (sema_up (cond.semas u)).0)
      × ((u : ℕ) → count u cond.waiters ≡ 0 → cond'.semas u ≡ cond.semas u)
unfolding cond_broadcast
cond_broadcast-signals current cond lock held =
    let (woken, e) = broadcast_loop-all current lock cond.waiters cond.semas held in
    (
      record { waiters = []; semas = signalled_all cond.waiters cond.semas },
      woken,
      e,
      refl,
      signalled_all-once cond.waiters cond.semas,
      signalled_all-away cond.waiters cond.semas,
    )
