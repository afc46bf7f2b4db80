-- ===== src/Threads/Handler.antt =====
-- threads/interrupt.c: `intr_handler`; devices/timer.c: the timer's handler. The count and message of
-- an interrupt without a handler, and the acknowledgement to the interrupt controller, are left out.
use cs439_project.Prelude.{
  ℕ, ◌+◌, ◌%◌, ◌^◌, ◌≤◌, ◌<◌, Bool, true, false, not, ◌&&◌, Option, none, some, if◌then◌else◌, ltb,
  leb, ◌≡◌, refl, subst, ◌∙◌, Outcome, ok, ◌>>=◌, ◌>>◌, assert, deref, arith, le→leb,
}
use cs439_project.Threads.{
  Kernel, Thread, count_tick, thread_tick, thread_yield, next_of, is_idle, intr_yield_on_return,
}
use cs439_project.Threads.Ready.{IsValid}
use cs439_project.Threads.Switch.{requeued, thread_yield-Switches, current-ok, running_thread}

-- The first part of `intr_handler` for an external interrupt.
unfoldable pub enter_external : Bool → Kernel → Outcome Kernel
enter_external false k = ok k
enter_external true k = do
  assert (not k.intr_on)
  assert (not k.in_external_intr)
  ok (record k { in_external_intr = true; yield_on_return = false })

-- The last part of `intr_handler`: the level that a thread that yields sets later is a result.
unfoldable pub leave_external : Bool → Kernel → Outcome (Kernel × Option Bool)
leave_external false k = ok (k, none)
leave_external true k = do
  assert (not k.intr_on)
  assert k.in_external_intr
  let k' = record k { in_external_intr = false }
  if k'.yield_on_return then (thread_yield k' >>= λ r. ok (r.0, some r.1)) else ok (k', none)

abbrev pub run_handler : Option (Kernel → Outcome Kernel) → Kernel → Outcome Kernel
run_handler none k = ok k
run_handler (some handler) k = handler k

-- `intr_handler`
unfoldable pub intr_handler :
    (ℕ → Option (Kernel → Outcome Kernel)) → ℕ → Kernel → Outcome (Kernel × Option Bool)
unfolding enter_external leave_external
intr_handler handlers vec_no k = do
  let external = leb 0x20 vec_no && ltb vec_no 0x30
  k1 ← enter_external external k
  k2 ← run_handler (handlers vec_no) k1
  leave_external external k2

-- `timer_interrupt`, less its own count of ticks
abbrev pub timer_interrupt : Kernel → Outcome Kernel
timer_interrupt k = thread_tick k

-- A tick after the last one of a time slice.
abbrev late : Bool → Option ℕ → Kernel → Kernel
late idle pagedir k = record (count_tick idle pagedir k) {
  thread_ticks = (k.thread_ticks + 1) % 2 ^ 32;
  yield_on_return = true;
}

late-ok :
    (idle : Bool) (pagedir : Option ℕ) (k : Kernel)
    → k.in_external_intr ≡ true
    → intr_yield_on_return
        (record (count_tick idle pagedir k) { thread_ticks = (k.thread_ticks + 1) % 2 ^ 32 })
      ≡ ok (late idle pagedir k)
unfolding intr_yield_on_return
late-ok true pagedir k e = rw e refl
late-ok false none k e = rw e refl
late-ok false (some pd) k e = rw e refl

-- What the tick keeps, when the interrupt is over.
record Kept (k k' : Kernel) : Type 0 where
  valid : IsValid k'
  idle : k'.idle_thread ≡ k.idle_thread
  queue : requeued k' ≡ requeued k
  level : k'.intr_on ≡ k.intr_on
  inside : k'.in_external_intr ≡ true
  asked : k'.yield_on_return ≡ true

late-Kept :
    (idle : Bool) (pagedir : Option ℕ) {k : Kernel}
    → IsValid k
    → k.in_external_intr ≡ true
    → Kept k (late idle pagedir k)
late-Kept true pagedir v e = record {
  valid = record { sound = v.sound; runs = v.runs; queued = v.queued; idles = v.idles };
  idle = refl;
  queue = refl;
  level = refl;
  inside = e;
  asked = refl;
}
late-Kept false none v e = record {
  valid = record { sound = v.sound; runs = v.runs; queued = v.queued; idles = v.idles };
  idle = refl;
  queue = refl;
  level = refl;
  inside = e;
  asked = refl;
}
late-Kept false (some pd) v e = record {
  valid = record { sound = v.sound; runs = v.runs; queued = v.queued; idles = v.idles };
  idle = refl;
  queue = refl;
  level = refl;
  inside = e;
  asked = refl;
}

tick_late :
    {k : Kernel} (v : IsValid k) (th : Thread)
    → k.threads k.current ≡ some th
    → k.in_external_intr ≡ true
    → 3 ≤ k.thread_ticks
    → k.thread_ticks + 1 < 2 ^ 32
    → thread_tick k ≡ ok (late (is_idle k k.current) th.pagedir k)
unfolding thread_tick
tick_late {k} v th found inside slice small =
    rw (current-ok v th found, ◌>>=◌)
      (rw (found, ◌>>=◌, deref)
        (rw (le→leb 4 ((k.thread_ticks + 1) % 2 ^ 32) (omega arith))
          (late-ok (is_idle k k.current) th.pagedir k inside)))

leave_yields :
    {k : Kernel} (i : ℕ) (k2 : Kernel)
    → Kept k k2
    → k.idle_thread ≡ some i
    → k.intr_on ≡ false
    → (k' : Kernel) × (leave_external true k2 ≡ ok (k', some false))
      × IsValid k'
      × (next_of (some i) (requeued k) ≡ (some k'.current, k'.ready_list))
unfolding leave_external
leave_yields {k} i k2 s idle off =
    let (k', q, valid, same_idle, first) =
      thread_yield-Switches over_IsValid i (s.idle ∙ idle) refl in
    (
      k',
      runs k' q,
      valid,
      subst (λ queue. next_of (some i) queue ≡ (some k'.current, k'.ready_list)) s.queue
          (subst (λ idle. next_of idle (requeued k2) ≡ (some k'.current, k'.ready_list))
            (s.idle ∙ idle) first),
    )
  where
    over : Kernel
    over = record k2 { in_external_intr = false }

    over_IsValid : IsValid over
    over_IsValid = record {
      sound = s.valid.sound;
      runs = s.valid.runs;
      queued = s.valid.queued;
      idles = s.valid.idles;
    }

    runs :
        (k' : Kernel)
        → thread_yield over ≡ ok (k', k2.intr_on)
        → leave_external true k2 ≡ ok (k', some false)
    runs k' q = ground (arith, s.level, off)

-- A timer interrupt in the last tick of a time slice takes the processor from the running thread:
-- `intr_handler` succeeds, the invariant holds, and the first thread of the run queue runs, where
-- the thread that was interrupted has entered the queue behind all others, unless it is the idle
-- thread.
pub timer_preempts :
    {k : Kernel} (i : ℕ) (handlers : ℕ → Option (Kernel → Outcome Kernel))
    → IsValid k
    → k.idle_thread ≡ some i
    → handlers 0x20 ≡ some timer_interrupt
    → k.intr_on ≡ false
    → k.in_external_intr ≡ false
    → 3 ≤ k.thread_ticks
    → k.thread_ticks + 1 < 2 ^ 32
    → (k' : Kernel) × (intr_handler handlers 0x20 k ≡ ok (k', some false))
      × IsValid k'
      × (next_of (some i) (requeued k) ≡ (some k'.current, k'.ready_list))
unfolding intr_handler
timer_preempts {k} i handlers v idle timer off outside slice small =
    let (th, found) = running_thread v i idle in
    let ticks = tick_late inner_IsValid th found refl slice small in
    let (k', left, valid, first) =
      leave_yields i (late (is_idle k k.current) th.pagedir inner)
        (late-Kept (is_idle k k.current) th.pagedir inner_IsValid refl) idle off in
    (k', rw (entered, ◌>>=◌) (rw (timer, ◌>>=◌) (rw (ticks, ◌>>=◌) left)), valid, first)
  where
    inner : Kernel
    inner = record k { in_external_intr = true; yield_on_return = false }

    inner_IsValid : IsValid inner
    inner_IsValid = record { sound = v.sound; runs = v.runs; queued = v.queued; idles = v.idles }

    entered : enter_external true k ≡ ok inner
    entered = ground arith
