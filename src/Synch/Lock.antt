-- ===== src/Synch/Lock.antt =====
-- threads/synch.c: locks, and what several threads do on one lock. A thread runs the pieces of
-- `lock_acquire`, `lock_try_acquire` and `lock_release` between which it can be preempted:
-- a semaphore operation is one piece, as interrupts are off in it.
use cs439_project.Prelude.{
  ℕ, Bool, true, false, not, Option, none, some, if◌then◌else◌, ◌==◌, ◌≡◌, Outcome, ok, ◌>>=◌, ◌>>◌,
  assert,
}
use cs439_project.Synch.{
  Semaphore, sema_init, blocked, taken, sema_down_round, sema_down, sema_try_down, sema_up,
}

-- `struct lock`; `none` is a null holder.
pub record Lock : Type 0 where
  pub semaphore : Semaphore
  pub holder : Option ℕ

-- `lock_init`
unfoldable pub lock_init : Lock
unfolding sema_init
lock_init = record { semaphore = sema_init 1; holder = none }

-- `lock_held_by_current_thread`
unfoldable pub lock_held_by_current_thread : ℕ → Lock → Bool
lock_held_by_current_thread current lock = elim lock.holder [ none ↦ false | some t ↦ t == current ]

-- `lock_acquire` by a thread that no other one interrupts: it sleeps if the lock is taken.
unfoldable pub lock_acquire : Bool → ℕ → Lock → Outcome Lock
unfolding lock_held_by_current_thread sema_down
lock_acquire intr_context current lock = do
  assert (not intr_context)
  assert (not (lock_held_by_current_thread current lock))
  s ← sema_down intr_context current lock.semaphore
  ok (record { semaphore = s; holder = some current })

-- `lock_try_acquire` by a thread that no other one interrupts.
unfoldable pub lock_try_acquire : ℕ → Lock → Outcome (Lock × Bool)
unfolding lock_held_by_current_thread sema_try_down
lock_try_acquire current lock = do
  assert (not (lock_held_by_current_thread current lock))
  let (s, success) = sema_try_down lock.semaphore
  ok (record { semaphore = s; holder = if success then some current else lock.holder }, success)

-- `lock_release` by a thread that no other one interrupts; it gives the waiter it unblocks.
unfoldable pub lock_release : ℕ → Lock → Outcome (Lock × Option ℕ)
unfolding lock_held_by_current_thread sema_up
lock_release current lock = do
  assert (lock_held_by_current_thread current lock)
  let (s, woken) = sema_up lock.semaphore
  ok (record { semaphore = s; holder = none }, woken)

-- Where a thread is: outside the functions and without the lock; at the test of the loop in
-- `sema_down`; blocked in the list of waiters; with the semaphore, before the write of `holder`;
-- with the lock; and in `lock_release`, before its `sema_up`.
pub data Place : Type 0 where
  outside : Place
  trying : Place
  queued : Place
  entering : Place
  holding : Place
  leaving : Place

-- The lock, and the place of every thread.
pub record World : Type 0 where
  pub lock : Lock
  pub place : ℕ → Place

abbrev pub move : (ℕ → Place) → ℕ → Place → ℕ → Place
move place t p u = if u == t then p else place u

-- A round of the loop in `sema_down`, and where the thread is after it.
unfoldable pub try_round : ℕ → World → World
unfolding sema_down_round
try_round t w = elim (sema_down_round t w.lock.semaphore) [
  | blocked s ↦ record { lock = record w.lock { semaphore = s }; place = move w.place t queued }
  | taken s ↦ record { lock = record w.lock { semaphore = s }; place = move w.place t entering }
]

-- The `sema_try_down` of `lock_try_acquire`.
unfoldable pub try_once : ℕ → World → World
unfolding sema_try_down
try_once t w =
    let (s, success) = sema_try_down w.lock.semaphore in
    record {
      lock = record w.lock { semaphore = s };
      place = move w.place t (if success then entering else outside);
    }

unfoldable pub set_holder : Option ℕ → ℕ → Place → World → World
set_holder holder t p w = record {
  lock = record w.lock { holder = holder };
  place = move w.place t p;
}

abbrev pub wake : (ℕ → Place) → Option ℕ → ℕ → Place
wake place none = place
wake place (some t) = move place t trying

-- The `sema_up` of `lock_release`: the first waiter goes on at the test of its loop.
unfoldable pub give_back : ℕ → World → World
unfolding sema_up
give_back t w =
    let (s, woken) = sema_up w.lock.semaphore in
    record { lock = record w.lock { semaphore = s }; place = wake (move w.place t outside) woken }

-- A thread runs its next piece. The tests are the assertions at the head of the functions.
pub data Step (w : World) : World → Type 0 where
  acquire :
      (t : ℕ)
      → w.place t ≡ outside
      → lock_held_by_current_thread t w.lock ≡ false
      → Step w (record w { place = move w.place t trying })
  round : (t : ℕ) → w.place t ≡ trying → Step w (try_round t w)
  try_acquire :
      (t : ℕ)
      → w.place t ≡ outside
      → lock_held_by_current_thread t w.lock ≡ false
      → Step w (try_once t w)
  own : (t : ℕ) → w.place t ≡ entering → Step w (set_holder (some t) t holding w)
  release :
      (t : ℕ)
      → w.place t ≡ holding
      → lock_held_by_current_thread t w.lock ≡ true
      → Step w (set_holder none t leaving w)
  up : (t : ℕ) → w.place t ≡ leaving → Step w (give_back t w)

unfoldable pub fresh_world : World
unfolding lock_init
fresh_world = record { lock = lock_init; place = λ _. outside }

-- The worlds that come about after `lock_init`.
pub data Reach : World → Type 0 where
  start : Reach fresh_world
  later : {w w' : World} → Reach w → Step w w' → Reach w'
