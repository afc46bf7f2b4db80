-- ===== src/Threads.antt =====
-- threads/thread.c: the threads, the run queue, and the operations that put a thread to sleep, make
-- it ready, or give up the processor; threads/interrupt.c: the interrupt level. A thread goes by
-- the number of the page that holds it. `thread_block`, `thread_yield` and `thread_exit` end at
-- the switch to the next thread: what follows it in C is done by the thread that is switched to.
pub mod Ready
pub mod Switch
pub mod Create
pub mod Created
pub mod Creation
pub mod Turns
pub mod Quiet
pub mod Fairness
pub mod Handler
mod Tests
use cs439_project.Prelude.{
  ℕ, ◌+◌, ◌%◌, ◌^◌, Bool, true, false, not, ◌&&◌, List, [], ◌∷◌, ◌++◌, Option, none, some,
  if◌then◌else◌, leb, ◌==◌, Outcome, ok, panic, ◌>>=◌, ◌>>◌, assert, deref,
}
use cs439_project.Synch.{Semaphore}
use cs439_project.Synch.Lock.{Lock}

-- `enum thread_status`
pub data ThreadStatus : Type 0 where
  thread_running : ThreadStatus
  thread_ready : ThreadStatus
  thread_blocked : ThreadStatus
  thread_dying : ThreadStatus

abbrev pub is_running : ThreadStatus → Bool
is_running thread_running = true
is_running _ = false

abbrev pub is_ready : ThreadStatus → Bool
is_ready thread_ready = true
is_ready _ = false

abbrev pub is_blocked : ThreadStatus → Bool
is_blocked thread_blocked = true
is_blocked _ = false

-- `THREAD_MAGIC`
abbrev pub thread_magic : ℕ
thread_magic = 0xcd6abf4b

-- `TIME_SLICE`
abbrev pub time_slice : ℕ
time_slice = 4

-- What `thread_create` puts on the stack of a thread.
pub data Word : Type 0 where
  null : Word
  function : ℕ → Word
  aux : ℕ → Word
  kernel_thread : Word
  switch_entry : Word

-- `struct thread`; `words` is what lies on its stack, by address in the page.
pub record Thread : Type 0 where
  pub tid : ℕ
  pub status : ThreadStatus
  pub name : List ℕ
  pub stack : ℕ
  pub priority : ℕ
  pub pagedir : Option ℕ
  pub supdir : Option ℕ
  pub parent : Option ℕ
  pub children : List ℕ
  pub child_sema : Semaphore
  pub load_sema : Semaphore
  pub child_list_sema : Semaphore
  pub return_status : ℕ
  pub success : Bool
  pub files : Option ℕ
  pub magic : ℕ
  pub words : List (ℕ × Word)

-- The static variables of threads/thread.c and threads/interrupt.c, the pages that hold a thread,
-- the page of the stack pointer, and the interrupt flag. `none` is a null pointer.
pub record Kernel : Type 0 where
  pub threads : ℕ → Option Thread
  pub current : ℕ
  pub ready_list : List ℕ
  pub all_list : List ℕ
  pub idle_thread : Option ℕ
  pub tid_lock : Lock
  pub next_tid : ℕ
  pub thread_ticks : ℕ
  pub idle_ticks : ℕ
  pub kernel_ticks : ℕ
  pub user_ticks : ℕ
  pub active : Option ℕ
  pub intr_on : Bool
  pub in_external_intr : Bool
  pub yield_on_return : Bool

-- A write to the thread in page `t`.
abbrev pub set_thread : ℕ → Thread → Kernel → Kernel
set_thread t th k = record k { threads = λ u. if u == t then some th else k.threads u }

unfoldable pub set_status : ThreadStatus → ℕ → Kernel → Outcome Kernel
set_status s t k = deref (k.threads t) >>= λ th. ok (set_thread t (record th { status = s }) k)

-- `intr_disable`; the old level is a field of the state before.
abbrev pub intr_disable : Kernel → Kernel
intr_disable k = record k { intr_on = false }

-- `intr_enable`
unfoldable pub intr_enable : Kernel → Outcome Kernel
intr_enable k = assert (not k.in_external_intr) >> ok (record k { intr_on = true })

-- `intr_set_level`
unfoldable pub intr_set_level : Bool → Kernel → Outcome Kernel
unfolding intr_enable
intr_set_level level k = if level then intr_enable k else ok (intr_disable k)

-- `intr_yield_on_return`
unfoldable pub intr_yield_on_return : Kernel → Outcome Kernel
intr_yield_on_return k = assert k.in_external_intr >> ok (record k { yield_on_return = true })

-- `is_thread`, of a pointer that may be null.
unfoldable pub is_thread : Kernel → Option ℕ → Bool
is_thread k none = false
is_thread k (some t) = elim (k.threads t) [ none ↦ false | some th ↦ th.magic == thread_magic ]

-- `thread_current`
unfoldable pub thread_current : Kernel → Outcome ℕ
unfolding is_thread
thread_current k = do
  assert (is_thread k (some k.current))
  th ← deref (k.threads k.current)
  assert (is_running th.status)
  ok k.current

abbrev pub next_of : Option ℕ → List ℕ → Option ℕ × List ℕ
next_of idle [] = (idle, [])
next_of idle (t ∷ ts) = (some t, ts)

-- `next_thread_to_run`
unfoldable pub next_thread_to_run : Kernel → Option ℕ × Kernel
next_thread_to_run k =
    let (next, rest) = next_of k.idle_thread k.ready_list in (next, record k { ready_list = rest })

-- `thread_schedule_tail`, with the page directory that `process_activate` loads
unfoldable pub thread_schedule_tail : Kernel → Outcome Kernel
unfolding set_status
thread_schedule_tail k = do
  assert (not k.intr_on)
  k' ← set_status thread_running k.current k
  th ← deref (k'.threads k'.current)
  ok (record k' { thread_ticks = 0; active = th.pagedir })

-- `schedule`, up to the first instructions of the next thread
unfoldable pub schedule : Kernel → Outcome Kernel
unfolding next_thread_to_run is_thread thread_schedule_tail
schedule k = do
  let (next, k') = next_thread_to_run k
  assert (not k'.intr_on)
  cur ← deref (k'.threads k'.current)
  assert (not (is_running cur.status))
  assert (is_thread k' next)
  t ← deref next
  thread_schedule_tail (record k' { current = t })

-- `thread_block`
unfoldable pub thread_block : Kernel → Outcome Kernel
unfolding thread_current set_status schedule
thread_block k = do
  assert (not k.in_external_intr)
  assert (not k.intr_on)
  cur ← thread_current k
  k' ← set_status thread_blocked cur k
  schedule k'

-- `thread_unblock`
unfoldable pub thread_unblock : ℕ → Kernel → Outcome Kernel
unfolding is_thread set_status intr_set_level
thread_unblock t k = do
  assert (is_thread k (some t))
  th ← deref (k.threads t)
  assert (is_blocked th.status)
  k' ←
      set_status thread_ready t
        (record k { intr_on = false; ready_list = k.ready_list ++ (t ∷ []) })
  intr_set_level k.intr_on k'

abbrev pub is_idle : Kernel → ℕ → Bool
is_idle k t = elim k.idle_thread [ none ↦ false | some i ↦ i == t ]

-- `thread_yield`; the level that the thread sets when it runs again is a result.
unfoldable pub thread_yield : Kernel → Outcome (Kernel × Bool)
unfolding thread_current set_status schedule
thread_yield k = do
  cur ← thread_current k
  assert (not k.in_external_intr)
  let ready = if is_idle k cur then k.ready_list else k.ready_list ++ (cur ∷ [])
  k' ← set_status thread_ready cur (record k { intr_on = false; ready_list = ready })
  k'' ← schedule k'
  ok (k'', k.intr_on)

-- The element of a thread leaves a list that holds it once.
abbrev pub remove : ℕ → List ℕ → List ℕ
remove t [] = []
remove t (u ∷ us) = if u == t then us else u ∷ remove t us

-- `thread_exit`, after `process_exit`
unfoldable pub thread_exit : Kernel → Outcome Kernel
unfolding thread_current set_status schedule
thread_exit k = do
  assert (not k.in_external_intr)
  let k0 = intr_disable k
  cur ← thread_current k0
  k' ← set_status thread_dying cur (record k0 { all_list = remove cur k0.all_list })
  schedule k'

-- A tick counts for the idle thread, a user program, or the kernel.
abbrev pub count_tick : Bool → Option ℕ → Kernel → Kernel
count_tick true pagedir k = record k { idle_ticks = k.idle_ticks + 1 }
count_tick false (some pd) k = record k { user_ticks = k.user_ticks + 1 }
count_tick false none k = record k { kernel_ticks = k.kernel_ticks + 1 }

-- `thread_tick`
unfoldable pub thread_tick : Kernel → Outcome Kernel
unfolding thread_current intr_yield_on_return
thread_tick k = do
  t ← thread_current k
  th ← deref (k.threads t)
  let ticks = (k.thread_ticks + 1) % 2 ^ 32
  let k' = record (count_tick (is_idle k t) th.pagedir k) { thread_ticks = ticks }
  if leb time_slice ticks then intr_yield_on_return k' else ok k'
