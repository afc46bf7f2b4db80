-- ===== src/IntQueue.antt =====
-- devices/intq.c: the ring of bytes between interrupt handlers and threads. `off` says that
-- interrupts are off, `handler` that an interrupt handler makes the call; waiters are numbers of
-- threads. A call that waits goes to sleep, and is made again when its thread wakes.
pub mod Fifo
mod Tests
use cs439_project.Prelude.{
  ℕ, ◌+◌, ◌%◌, Bool, not, List, Option, none, some, if◌then◌else◌, ◌==◌, Outcome, ok, sleeps, ◌>>=◌,
  ◌>>◌, assert, deref, get_elem?, set, replicate,
}

-- INTQ_BUFSIZE
abbrev pub bufsize : ℕ
bufsize = 64

-- `struct intq`, less the lock
pub record Intq : Type 0 where
  pub not_full : Option ℕ
  pub not_empty : Option ℕ
  pub buf : List ℕ
  pub head : ℕ
  pub tail : ℕ

-- `intq_init`, which leaves the buffer as it was
unfoldable pub intq_init : List ℕ → Intq
intq_init buf = record { not_full = none; not_empty = none; buf = buf; head = 0; tail = 0 }

-- `next`
abbrev pub next : ℕ → ℕ
next pos = (pos + 1) % bufsize

-- `intq_empty`
abbrev pub is_empty : Intq → Bool
is_empty q = q.head == q.tail

-- `intq_full`
abbrev pub is_full : Intq → Bool
is_full q = next q.head == q.tail

-- `wait`: the thread is blocked.
abbrev pub wait {ℓ} : {A : Type ℓ} → Bool → Outcome A
wait handler = assert (not handler) >> sleeps

-- `signal (q, &q->not_full)`: the queue, and the thread that is woken
abbrev pub signal_not_full : Intq → Outcome (Intq × Option ℕ)
signal_not_full q = assert (not (is_full q)) >> ok (record q { not_full = none }, q.not_full)

-- `signal (q, &q->not_empty)`
abbrev pub signal_not_empty : Intq → Outcome (Intq × Option ℕ)
signal_not_empty q = assert (not (is_empty q)) >> ok (record q { not_empty = none }, q.not_empty)

-- `intq_getc`: the queue, the byte, and the thread that is woken
unfoldable pub intq_getc : Bool → Bool → Intq → Outcome (Intq × ℕ × Option ℕ)
intq_getc off handler q =
    assert off
    >> (if is_empty q
        then wait handler
        else (deref (get_elem? q.buf q.tail) >>= λ byte.
            signal_not_full (record q { tail = next q.tail }) >>= λ r. ok (r.0, byte, r.1)))

-- The write of one byte into the buffer.
abbrev pub put : Intq → ℕ → Intq
put q byte = record q { buf = set q.buf q.head byte; head = next q.head }

-- `intq_putc`: the queue, and the thread that is woken
unfoldable pub intq_putc : Bool → Bool → Intq → ℕ → Outcome (Intq × Option ℕ)
intq_putc off handler q byte =
    assert off >> (if is_full q then wait handler else signal_not_empty (put q (byte % 256)))
