-- ===== src/Threads/Create.antt =====
-- threads/thread.c: how threads come about. The pages come from the caller, as what
-- `palloc_get_page` has given; a name is a null-terminated string.
use cs439_project.Prelude.{
  ℕ, ◌+◌, ◌-◌, ◌%◌, ◌^◌, false, not, List, [], ◌∷◌, ◌++◌, Option, none, some, if◌then◌else◌, leb,
  ◌==◌, replicate, Outcome, ok, wild, ◌>>=◌, ◌>>◌, assert, deref,
}
use cs439_project.CString.{strlcpy}
use cs439_project.Pagedir.{page_size}
use cs439_project.Synch.{Semaphore, sema_init, sema_down, sema_up}
use cs439_project.Synch.Lock.{lock_init, lock_acquire, lock_release}
use cs439_project.Threads.{
  thread_running, thread_blocked, thread_magic, Word, null, function, aux, kernel_thread,
  switch_entry, Thread, Kernel, set_thread, set_status, intr_disable, intr_set_level, is_thread,
  thread_current, thread_unblock,
}

-- `PRI_MAX`
abbrev pub pri_max : ℕ
pri_max = 63

-- `PRI_DEFAULT`
abbrev pub pri_default : ℕ
pri_default = 31

-- `init_thread`
unfoldable pub init_thread : ℕ → List ℕ → ℕ → Kernel → Outcome Kernel
unfolding sema_init
init_thread t name priority k = do
  assert (leb priority pri_max)
  copied ← strlcpy (replicate 16 0) 0 name 16
  let th : Thread = record {
    tid = 0;
    status = thread_blocked;
    name = copied.0;
    stack = page_size;
    priority = priority;
    pagedir = none;
    supdir = none;
    parent = none;
    children = [];
    child_sema = sema_init 0;
    load_sema = sema_init 0;
    child_list_sema = sema_init 1;
    return_status = 0;
    success = false;
    files = none;
    magic = thread_magic;
    words = [];
  }
  ok (set_thread t th (record k { all_list = k.all_list ++ (t ∷ []) }))

-- A waiter that a semaphore operation gives is unblocked.
abbrev pub wake_waiter : Option ℕ → Kernel → Outcome Kernel
wake_waiter none k = ok k
wake_waiter (some t) k = thread_unblock t k

-- `allocate_tid`; the overflow of a signed number is undefined.
unfoldable pub allocate_tid : Kernel → Outcome (ℕ × Kernel)
unfolding thread_current lock_acquire lock_release thread_unblock
allocate_tid k = do
  cur ← thread_current k
  lock ← lock_acquire k.in_external_intr cur k.tid_lock
  let tid = k.next_tid
  next_tid ← (if leb (2 ^ 31 - 1) tid then wild else ok (tid + 1))
  released ← lock_release cur lock
  k' ← wake_waiter released.1 (record k { tid_lock = released.0; next_tid = next_tid })
  ok (tid, k')

-- `alloc_frame`: the base of the frame.
unfoldable pub alloc_frame : ℕ → ℕ → Kernel → Outcome (ℕ × Kernel)
unfolding is_thread
alloc_frame t size k = do
  assert (is_thread k (some t))
  assert (size % 4 == 0)
  th ← deref (k.threads t)
  ok (th.stack - size, set_thread t (record th { stack = th.stack - size }) k)

-- A word is written to the stack of a thread.
unfoldable pub poke_word : ℕ → ℕ → Word → Kernel → Outcome Kernel
poke_word t at w k = do
  th ← deref (k.threads t)
  ok (set_thread t (record th { words = (at, w) ∷ th.words }) k)

-- The frames for `kernel_thread`, `switch_entry` and `switch_threads` that `thread_create` makes.
unfoldable pub push_frames : ℕ → ℕ → ℕ → Kernel → Outcome Kernel
unfolding alloc_frame poke_word
push_frames t start argument k = do
  kf ← alloc_frame t 12 k
  k1 ← poke_word t kf.0 null kf.1
  k2 ← poke_word t (kf.0 + 4) (function start) k1
  k3 ← poke_word t (kf.0 + 8) (aux argument) k2
  ef ← alloc_frame t 4 k3
  k4 ← poke_word t ef.0 kernel_thread ef.1
  sf ← alloc_frame t 28 k4
  k5 ← poke_word t (sf.0 + 16) switch_entry sf.1
  poke_word t (sf.0 + 8) null k5

-- The new thread enters the list of children of the thread that creates it.
unfoldable pub add_child : ℕ → ℕ → Kernel → Outcome Kernel
unfolding sema_down sema_up thread_unblock
add_child parent t k = do
  p ← deref (k.threads parent)
  s ← sema_down k.in_external_intr parent p.child_list_sema
  let (s', woken) = sema_up s
  let p' : Thread = record p { children = p.children ++ (t ∷ []); child_list_sema = s' }
  wake_waiter woken (set_thread parent p' k)

-- The fields that `thread_create` sets itself.
unfoldable pub set_origin : ℕ → Option ℕ → ℕ → ℕ → Kernel → Outcome Kernel
set_origin t files tid parent k = do
  th ← deref (k.threads t)
  ok (set_thread t (record th { files = files; tid = tid; parent = some parent }) k)

-- `thread_create`: the identifier, or none for `TID_ERROR`. `page` and `files` are the two pages
-- that it allocates, none for a null pointer, and `start` is the address of the function.
unfoldable pub thread_create :
    Option ℕ → Option ℕ → List ℕ → ℕ → ℕ → ℕ → Kernel → Outcome (Option ℕ × Kernel)
unfolding init_thread allocate_tid thread_current set_origin add_child intr_set_level push_frames
    thread_unblock
thread_create none files name priority start argument k = assert (not (start == 0)) >> ok (none, k)
thread_create (some t) files name priority start argument k = do
  assert (not (start == 0))
  k1 ← init_thread t name priority k
  given ← allocate_tid k1
  parent ← thread_current given.1
  k2 ← set_origin t files given.0 parent given.1
  k3 ← add_child parent t k2
  k4 ← push_frames t start argument (intr_disable k3)
  k5 ← intr_set_level k3.intr_on k4
  k6 ← thread_unblock t k5
  ok (some given.0, k6)

-- `thread_init`, which makes the code that runs in page `t` a thread.
unfoldable pub thread_init : ℕ → Kernel → Outcome Kernel
unfolding lock_init init_thread set_status allocate_tid
thread_init t k = do
  assert (not k.intr_on)
  k1 ←
      init_thread t (109 ∷ 97 ∷ 105 ∷ 110 ∷ 0 ∷ []) pri_default
        (record k { tid_lock = lock_init; ready_list = []; all_list = []; current = t })
  k2 ← set_status thread_running t k1
  given ← allocate_tid k2
  th ← deref (given.1.threads t)
  ok (set_thread t (record th { tid = given.0 }) given.1)

-- The kernel before `thread_init`: no page holds a thread.
unfoldable pub at_boot : Kernel
unfolding lock_init
at_boot = record {
  threads = λ _. none;
  current = 0;
  ready_list = [];
  all_list = [];
  idle_thread = none;
  tid_lock = lock_init;
  next_tid = 1;
  thread_ticks = 0;
  idle_ticks = 0;
  kernel_ticks = 0;
  user_ticks = 0;
  active = none;
  intr_on = false;
  in_external_intr = false;
  yield_on_return = false;
}

-- `idle` up to its loop: the thread that runs becomes the idle thread, and the waiter of
-- `idle_started` is unblocked.
unfoldable pub become_idle : Semaphore → Kernel → Outcome (Semaphore × Kernel)
unfolding thread_current sema_up thread_unblock
become_idle idle_started k = do
  cur ← thread_current k
  let (s, woken) = sema_up idle_started
  k' ← wake_waiter woken (record k { idle_thread = some cur })
  ok (s, k')

-- `thread_set_priority`
unfoldable pub thread_set_priority : ℕ → Kernel → Outcome Kernel
unfolding thread_current
thread_set_priority priority k = do
  cur ← thread_current k
  th ← deref (k.threads cur)
  ok (set_thread cur (record th { priority = priority }) k)

-- `thread_get_priority`
unfoldable pub thread_get_priority : Kernel → Outcome ℕ
unfolding thread_current
thread_get_priority k = do cur ← thread_current k; th ← deref (k.threads cur); ok th.priority

-- `thread_tid`
unfoldable pub thread_tid : Kernel → Outcome ℕ
unfolding thread_current
thread_tid k = do cur ← thread_current k; th ← deref (k.threads cur); ok th.tid
