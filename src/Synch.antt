-- ===== src/Synch.antt =====
-- threads/synch.c: semaphores. Interrupts are off inside each operation, so each is one step.
pub mod Lock
pub mod Condition
pub mod Invariant
pub mod Exclusion
mod Tests
use cs439_project.Prelude.{
  ℕ, ◌+◌, ◌-◌, ◌%◌, ◌^◌, ◌<◌, Bool, true, false, not, List, [], ◌∷◌, ◌++◌, Option, none, some,
  if◌then◌else◌, ltb, ◌==◌, ◌≡◌, Outcome, ok, sleeps, ◌>>◌, assert, arith,
}

-- `struct semaphore`; a waiter is the number of a thread.
pub record Semaphore : Type 0 where
  pub value : ℕ
  pub waiters : List ℕ

-- `sema_init`
unfoldable pub sema_init : ℕ → Semaphore
sema_init value = record { value = value; waiters = [] }

-- One round of the loop of `sema_down`: the thread queues and blocks, or takes the semaphore.
pub data Round : Type 0 where
  blocked : Semaphore → Round
  taken : Semaphore → Round

unfoldable pub sema_down_round : ℕ → Semaphore → Round
sema_down_round current s =
    if s.value == 0
    then blocked (record s { waiters = s.waiters ++ (current ∷ []) })
    else taken (record s { value = s.value - 1 })

-- `sema_down` by a thread that no other one interrupts: it sleeps if the value is zero.
-- `intr_context` says whether an external interrupt is handled.
unfoldable pub sema_down : Bool → ℕ → Semaphore → Outcome Semaphore
unfolding sema_down_round
sema_down intr_context current s =
    assert (not intr_context)
    >> elim (sema_down_round current s) [ blocked s' ↦ sleeps | taken s' ↦ ok s' ]

-- `sema_try_down`
unfoldable pub sema_try_down : Semaphore → Semaphore × Bool
sema_try_down s = if ltb 0 s.value then (record s { value = s.value - 1 }, true) else (s, false)

-- The waiter that `sema_up` unblocks, and those that are left.
abbrev pub pop_waiter : List ℕ → Option ℕ × List ℕ
pop_waiter [] = (none, [])
pop_waiter (t ∷ ts) = (some t, ts)

-- `sema_up`
unfoldable pub sema_up : Semaphore → Semaphore × Option ℕ
sema_up s =
    let (woken, rest) = pop_waiter s.waiters in
    (record { value = (s.value + 1) % 2 ^ 32; waiters = rest }, woken)

-- What `sema_down` takes, `sema_up` gives back.
pub up-down :
    (current : ℕ) (s : Semaphore)
    → s.waiters ≡ []
    → 0 < s.value
    → s.value < 2 ^ 32
    → sema_down false current s ≡ ok (record s { value = s.value - 1 })
unfolding sema_down
up-down current s idle pos small = ground arith
