-- ===== src/Threads/Tests.antt =====
-- A kernel that has started: its idle thread waits, and two threads are there.
use cs439_project.Prelude.{
  ℕ, true, false, List, [], ◌∷◌, some, none, Option, if◌then◌else◌, ◌==◌, ◌≡◌, refl, Outcome, ok,
  ◌>>=◌, arith,
}
use cs439_project.CString.{strlcpy, strlen, memcpy}
use cs439_project.Threads.{
  Kernel, Thread, ThreadStatus, thread_running, thread_ready, thread_blocked, set_thread,
  thread_block, thread_yield, next_of,
}
use cs439_project.Threads.Create.{thread_create, thread_init, at_boot, become_idle, pri_default}
use cs439_project.Threads.Ready.{IsValid, started}
use cs439_project.Threads.Switch.{requeued}
use cs439_project.Threads.Created.{blank, free_lock}
use cs439_project.Threads.Turns.{Turn, yields, here, turn}
use cs439_project.Threads.Handler.{timer_interrupt, intr_handler, timer_preempts}
use cs439_project.Threads.Fairness.{Run-IsValid, ready_runs}

-- `main` in page 1 makes the idle thread in page 2, and waits; the idle thread starts and waits;
-- `main` makes a thread in page 3.
abbrev boot : Outcome Kernel
boot = do
  k1 ← thread_init 1 at_boot
  made ← thread_create (some 2) (some 20) (105 ∷ 0 ∷ []) 0 100 0 k1
  k2 ← thread_block made.1
  idling ← become_idle (record { value = 0; waiters = 1 ∷ [] }) k2
  k3 ← thread_block idling.1
  more ← thread_create (some 3) (some 30) (97 ∷ 0 ∷ []) pri_default 200 0 k3
  ok more.1

abbrev summary : Kernel → ℕ × List ℕ × Option ℕ × ℕ × List ℕ
summary k = (k.current, k.ready_list, k.idle_thread, k.next_tid, k.all_list)

boot_runs : (boot >>= λ k. ok (summary k)) ≡ ok (1, 3 ∷ [], some 2, 4, 1 ∷ 2 ∷ 3 ∷ [])
unfolding at_boot thread_init thread_create thread_block become_idle strlcpy strlen memcpy
boot_runs = refl

abbrev thread : ThreadStatus → Thread
thread status = record (blank (97 ∷ []) 31) { status = status }

-- `main` runs in page 1, the idle thread of page 2 waits, and a thread of page 3 is ready.
abbrev three : Kernel
three = record {
  threads = λ u.
      if u == 1
      then some (thread thread_running)
      else (if u == 2
          then some (thread thread_blocked)
          else if u == 3
          then some (thread thread_ready)
          else none);
  current = 1;
  ready_list = 3 ∷ [];
  all_list = 1 ∷ 2 ∷ 3 ∷ [];
  idle_thread = some 2;
  tid_lock = free_lock;
  next_tid = 4;
  thread_ticks = 3;
  idle_ticks = 0;
  kernel_ticks = 3;
  user_ticks = 0;
  active = none;
  intr_on = true;
  in_external_intr = false;
  yield_on_return = false;
}

three-IsValid : IsValid three
three-IsValid = record {
  sound = λ t th e. ground arith;
  runs = λ t. ground arith;
  queued = λ t. ground arith;
  idles = λ i e. ground arith;
}

abbrev after_yield : Kernel
after_yield =
    started 3 (thread thread_ready) (1 ∷ []) (
      set_thread 1 (thread thread_ready)
        (record three { intr_on = false; ready_list = 3 ∷ 1 ∷ [] }))

first_yields : Turn three after_yield
unfolding thread_yield
first_yields = yields true refl

Run-IsValid_example : IsValid after_yield × (after_yield.idle_thread ≡ some 2)
Run-IsValid_example = Run-IsValid (turn here first_yields) 2 three-IsValid refl

ready_runs_example : after_yield.current ≡ 3
ready_runs_example = ready_runs {n = 0} 2 three-IsValid refl refl here first_yields

-- The same in the last tick of the time slice, as the timer's handler sees it.
abbrev late_kernel : Kernel
late_kernel = record three { intr_on = false }

late_kernel-IsValid : IsValid late_kernel
late_kernel-IsValid = record {
  sound = three-IsValid.sound;
  runs = three-IsValid.runs;
  queued = three-IsValid.queued;
  idles = three-IsValid.idles;
}

abbrev only_timer : ℕ → Option (Kernel → Outcome Kernel)
only_timer vec_no = if vec_no == 0x20 then some timer_interrupt else none

timer_preempts_example :
    (k' : Kernel) × (intr_handler only_timer 0x20 late_kernel ≡ ok (k', some false))
    × IsValid k'
    × (next_of (some 2) (requeued late_kernel) ≡ (some k'.current, k'.ready_list))
timer_preempts_example =
    timer_preempts 2 only_timer late_kernel-IsValid refl refl refl refl (omega arith) (omega arith)
