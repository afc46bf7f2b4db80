-- ===== src/Threads/Ready.antt =====
-- threads/thread.c: which thread runs, and which are in the run queue.
use cs439_project.Prelude.{
  ℕ, Bool, true, false, List, [], ◌∷◌, Option, none, some, if◌then◌else◌, ◌==◌, ◌≡◌, refl, count,
  Outcome, ok, arith,
}
use cs439_project.Threads.{
  ThreadStatus, thread_running, is_running, is_ready, thread_magic, Thread, Kernel, set_thread,
  next_of, schedule, is_idle,
}

abbrev pub state_is : (ThreadStatus → Bool) → Option Thread → Bool
state_is p none = false
state_is p (some th) = p th.status

abbrev pub exists : Option Thread → Bool
exists none = false
exists (some th) = true

-- One thread runs, and it is the current one; the run queue has every ready thread but the idle
-- one, once, and no other.
pub record IsValid (k : Kernel) : Type 0 where
  pub sound : (t : ℕ) (th : Thread) → k.threads t ≡ some th → th.magic ≡ thread_magic
  pub runs : (t : ℕ) → state_is is_running (k.threads t) ≡ (k.current == t)
  pub queued :
      (t : ℕ)
      → count t k.ready_list
        ≡ (if is_idle k t then 0 else if state_is is_ready (k.threads t) then 1 else 0)
  pub idles : (i : ℕ) → k.idle_thread ≡ some i → exists (k.threads i) ≡ true

-- The same between the write of a status and the switch, when no thread runs.
pub record IsPaused (k : Kernel) : Type 0 where
  pub sound : (t : ℕ) (th : Thread) → k.threads t ≡ some th → th.magic ≡ thread_magic
  pub quiet : (t : ℕ) → state_is is_running (k.threads t) ≡ false
  pub here : exists (k.threads k.current) ≡ true
  pub queued :
      (t : ℕ)
      → count t k.ready_list
        ≡ (if is_idle k t then 0 else if state_is is_ready (k.threads t) then 1 else 0)
  pub idles : (i : ℕ) → k.idle_thread ≡ some i → exists (k.threads i) ≡ true
  pub off : k.intr_on ≡ false

-- The state after a switch to the thread `th` in page `t`.
abbrev pub started : ℕ → Thread → List ℕ → Kernel → Kernel
started t th rest k = record (set_thread t (record th { status = thread_running }) k) {
  ready_list = rest;
  current = t;
  thread_ticks = 0;
  active = th.pagedir;
}

pub exists-some : (o : Option Thread) → exists o ≡ true → (th : Thread) × (o ≡ some th)
exists-some none e = cc
exists-some (some th) e = (th, refl)

module _ {k : Kernel} (m : IsPaused k) where
  open m use {sound, quiet, here, queued, idles, off}

  schedule-next :
      (t : ℕ) (th : Thread) (rest : List ℕ)
      → k.threads t ≡ some th
      → next_of k.idle_thread k.ready_list ≡ (some t, rest)
      → schedule k ≡ ok (started t th rest k)
  unfolding schedule
  schedule-next t th rest e n = ground (arith, sound t th e, quiet k.current)

  started-first :
      (t : ℕ) (th : Thread) (rest : List ℕ)
      → k.threads t ≡ some th
      → k.ready_list ≡ t ∷ rest
      → IsValid (started t th rest k)
  started-first t th rest e n = record {
    sound = λ u x q. ground (arith, sound u x, sound t th);
    runs = λ u. ground (arith, quiet u);
    queued = λ u. ground (arith, queued u, queued t);
    idles = λ u q. ground (arith, idles u);
  }

  queued-exists : (t : ℕ) (rest : List ℕ) → k.ready_list ≡ t ∷ rest → exists (k.threads t) ≡ true
  queued-exists t rest e = ground (arith, queued t)

  started-idle :
      (t : ℕ) (th : Thread)
      → k.threads t ≡ some th
      → k.ready_list ≡ []
      → k.idle_thread ≡ some t
      → IsValid (started t th [] k)
  started-idle t th e n i = record {
    sound = λ u x q. ground (arith, sound u x, sound t th);
    runs = λ u. ground (arith, quiet u);
    queued = λ u. ground (arith, queued u, queued t);
    idles = λ u q. ground (arith, idles u);
  }

-- A switch from a kernel whose run queue is `ready`: it succeeds, the invariant holds, and the
-- first of the run queue, or the idle thread, runs.
abbrev pub Switches : Kernel → List ℕ → Outcome Kernel → Type 0
Switches k ready r =
    (k' : Kernel) × (r ≡ ok k')
    × IsValid k'
    × (k'.idle_thread ≡ k.idle_thread)
    × (next_of k.idle_thread ready ≡ (some k'.current, k'.ready_list))

pub schedule_from-Switches :
    {k : Kernel} (m : IsPaused k) (ready : List ℕ)
    → k.ready_list ≡ ready
    → (i : ℕ) → k.idle_thread ≡ some i
    → Switches k ready (schedule k)
schedule_from-Switches {k} m [] q i e =
    let (th, found) = exists-some (k.threads i) (m.idles i e) in
    (
      started i th [] k,
      schedule-next m i th [] found (rw (q, e)),
      started-idle m i th found q e,
      refl,
      rw e,
    )
schedule_from-Switches {k} m (t ∷ rest) q i e =
    let (th, found) = exists-some (k.threads t) (queued-exists m t rest q) in
    (
      started t th rest k,
      schedule-next m t th rest found (rw q),
      started-first m t th rest found q,
      refl,
      refl,
    )
