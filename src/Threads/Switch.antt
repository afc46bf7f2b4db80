-- ===== src/Threads/Switch.antt =====
-- threads/thread.c: what `thread_block`, `thread_yield`, `thread_exit` and `thread_unblock` do to
-- the run queue and the running thread.
use cs439_project.Prelude.{
  ℕ, true, false, List, [], ◌∷◌, ◌++◌, some, if◌then◌else◌, ==_refl, ◌≡◌, refl, ◌∙◌, ◌⊎◌, sym,
  subst, count-append, ok, ◌>>=◌, arith,
}
use cs439_project.Threads.{
  ThreadStatus, thread_ready, thread_blocked, thread_dying, is_running, is_ready, is_blocked,
  Thread, Kernel, set_thread, thread_current, next_of, schedule, thread_block, thread_unblock,
  is_idle, remove, thread_yield, thread_exit, intr_disable,
}
use cs439_project.Threads.Ready.{exists-some, IsValid, IsPaused, Switches, schedule_from-Switches}

-- The state at the switch: the current thread has the status `s`.
abbrev paused : Thread → ThreadStatus → List ℕ → List ℕ → Kernel → Kernel
paused th s ready all k = record (set_thread k.current (record th { status = s }) k) {
  ready_list = ready;
  all_list = all;
  intr_on = false;
}

-- The run queue after the current thread has entered it; the idle thread does not.
abbrev pub requeued : Kernel → List ℕ
requeued k = if is_idle k k.current then k.ready_list else k.ready_list ++ (k.current ∷ [])

module _ {k : Kernel} (v : IsValid k) (th : Thread) (e : k.threads k.current ≡ some th) where
  open v use {sound, runs, queued, idles}

  current_runs : is_running th.status ≡ true
  current_runs = ground (arith, runs k.current)

  asleep-IsPaused :
      (s : ThreadStatus) (all : List ℕ)
      → is_running s ≡ false
      → is_ready s ≡ false
      → IsPaused (paused th s k.ready_list all k)
  asleep-IsPaused s all stops waits = record {
    sound = λ u x q. ground (arith, sound u x, sound k.current th);
    quiet = λ u. ground (arith, runs u);
    here = ground arith;
    queued = λ u. ground (arith, queued u, runs u);
    idles = λ u q. ground (arith, idles u);
    off = refl;
  }

  yielded-IsPaused : IsPaused (paused th thread_ready (requeued k) k.all_list k)
  yielded-IsPaused = record {
    sound = λ u x q. ground (arith, sound u x, sound k.current th);
    quiet = λ u. ground (arith, runs u);
    here = ground arith;
    queued = λ u. ground (arith, queued u, runs u, count-append u k.ready_list (k.current ∷ []));
    idles = λ u q. ground (arith, idles u);
    off = refl;
  }

  pub current-ok : thread_current k ≡ ok k.current
  unfolding thread_current
  current-ok = ground (arith, sound k.current th e, current_runs)

module _ {k : Kernel} (v : IsValid k) (i : ℕ) (idle : k.idle_thread ≡ some i) where
  pub running_thread : (th : Thread) × (k.threads k.current ≡ some th)
  running_thread =
      exists-some (k.threads k.current) (ground (arith, v.runs k.current, ==_refl k.current))

  -- With an idle thread, interrupts off, and outside of an external interrupt, `thread_block`
  -- switches to the first thread of the run queue, or to the idle thread if it is empty.
  pub thread_block-Switches :
      k.in_external_intr ≡ false → k.intr_on ≡ false → Switches k k.ready_list (thread_block k)
  unfolding thread_block
  thread_block-Switches inside off =
      let (th, e) = running_thread in
      subst (Switches k k.ready_list) (sym (to_schedule th e)) (
        schedule_from-Switches (asleep-IsPaused v th e thread_blocked k.all_list refl refl)
          k.ready_list refl i idle)
    where
      to_schedule :
          (th : Thread)
          → k.threads k.current ≡ some th
          → thread_block k ≡ schedule (paused th thread_blocked k.ready_list k.all_list k)
      to_schedule th e = ground (arith, current-ok v th e)

  pub thread_exit-Switches : k.in_external_intr ≡ false → Switches k k.ready_list (thread_exit k)
  unfolding thread_exit
  thread_exit-Switches inside =
      let (th, e) = running_thread in
      subst (Switches k k.ready_list) (sym (to_schedule th e)) (
        schedule_from-Switches
          (asleep-IsPaused v th e thread_dying (remove k.current k.all_list) refl refl) k.ready_list
          refl i idle)
    where
      off_IsValid : IsValid (intr_disable k)
      off_IsValid = record { sound = v.sound; runs = v.runs; queued = v.queued; idles = v.idles }

      to_schedule :
          (th : Thread)
          → k.threads k.current ≡ some th
          → thread_exit k
            ≡ schedule (paused th thread_dying k.ready_list (remove k.current k.all_list) k)
      to_schedule th e = ground (arith, current-ok off_IsValid th e)

  -- In a kernel that meets the invariant and has an idle thread, outside of an external interrupt,
  -- `thread_yield` succeeds and the invariant holds again. The thread that yields enters the run
  -- queue behind all others, unless it is the idle thread; then the first thread of the queue runs,
  -- or the idle thread if the queue is empty.
  pub thread_yield-Switches :
      k.in_external_intr ≡ false
      → (k' : Kernel) × (thread_yield k ≡ ok (k', k.intr_on))
        × IsValid k'
        × (k'.idle_thread ≡ k.idle_thread)
        × (next_of k.idle_thread (requeued k) ≡ (some k'.current, k'.ready_list))
  unfolding thread_yield
  thread_yield-Switches inside =
      let (th, e) = running_thread in
      let (k', q, valid, same_idle, first) =
        schedule_from-Switches (yielded-IsPaused v th e) (requeued k) refl i idle in
      (k', to_schedule th e ∙ rw q, valid, same_idle, first)
    where
      to_schedule :
          (th : Thread)
          → k.threads k.current ≡ some th
          → thread_yield k ≡ (
              schedule (paused th thread_ready (requeued k) k.all_list k) >>= λ k'.
              ok (k', k.intr_on))
      to_schedule th e = ground (arith, current-ok v th e)

-- The state after `thread_unblock` of the thread `th` in page `t`.
abbrev pub readied : ℕ → Thread → Kernel → Kernel
readied t th k = record (set_thread t (record th { status = thread_ready }) k) {
  ready_list = k.ready_list ++ (t ∷ []);
}

module _ {k : Kernel} (v : IsValid k) (t : ℕ) (th : Thread) (e : k.threads t ≡ some th) where
  pub readied-IsValid : is_blocked th.status ≡ true → is_idle k t ≡ false → IsValid (readied t th k)
  readied-IsValid waits busy = record {
    sound = λ u x q. ground (arith, v.sound u x, v.sound t th);
    runs = λ u. ground (arith, v.runs u);
    queued = λ u. ground (arith, v.queued u, v.runs u, count-append u k.ready_list (t ∷ []));
    idles = λ u q. ground (arith, v.idles u);
  }

  pub thread_unblock-readied :
      is_blocked th.status ≡ true
      → (k.in_external_intr ≡ false) ⊎ (k.intr_on ≡ false)
      → thread_unblock t k ≡ ok (readied t th k)
  unfolding thread_unblock
  thread_unblock-readied waits level = ground (arith, v.sound t th e)
