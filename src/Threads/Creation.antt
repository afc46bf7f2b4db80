-- ===== src/Threads/Creation.antt =====
-- threads/thread.c: what `thread_create` comes to when its locks are free.
use cs439_project.Prelude.{
  ℕ, ◌+◌, ◌^◌, ◌<◌, false, List, [], ◌∷◌, ◌++◌, Option, none, some, ◌≡◌, ◌≢◌,
}
use cs439_project.CString.Strings.{IsText}
use cs439_project.Threads.{thread_ready, Thread, Kernel, set_thread}
use cs439_project.Threads.Ready.{IsValid}
use cs439_project.Threads.Created.{blank, free_lock, framed}

-- What `thread_create` leaves: the thread in page `t` with the identifier `tid`, ready and last in
-- the run queue, a child of the current thread; all other threads are as before.
pub record IsCreated (k k' : Kernel) (t tid : ℕ) (p : Thread) : Type 0 where
  pub valid : IsValid k'
  pub child :
      (th : Thread) × (k'.threads t ≡ some th)
      × (th.tid ≡ tid)
      × (th.status ≡ thread_ready)
      × (th.parent ≡ some k.current)
  pub parent : k'.threads k.current ≡ some (record p { children = p.children ++ (t ∷ []) })
  pub others : (u : ℕ) → u ≢ t → u ≢ k.current → k'.threads u ≡ k.threads u
  pub queue : k'.ready_list ≡ k.ready_list ++ (t ∷ [])
  pub all : k'.all_list ≡ k.all_list ++ (t ∷ [])
  pub next : k'.next_tid ≡ tid + 1
  pub runs : k'.current ≡ k.current

-- Outside of the reach of other threads: the lock on identifiers and the semaphore of the list of
-- children are free, identifiers are left, and no external interrupt is handled.
pub record IsFree (k : Kernel) (p : Thread) : Type 0 where
  pub locked : k.tid_lock ≡ free_lock
  pub room : k.next_tid + 1 < 2 ^ 31
  pub here : k.threads k.current ≡ some p
  pub listed : p.child_list_sema ≡ record { value = 1; waiters = [] }
  pub level : k.in_external_intr ≡ false

module _ {k : Kernel} (v : IsValid k) (p : Thread) (free : IsFree k p) (t : ℕ)
    (empty : k.threads t ≡ none) (text rest : List ℕ) (is_text : IsText text) (priority : ℕ)
    (files : Option ℕ) (start argument : ℕ) where
  open free use {locked, room, here, listed, level}

  -- The new thread on its way.
  abbrev made : Thread
  made = record (blank text priority) { files = files; tid = k.next_tid; parent = some k.current }

  abbrev child_thread : Thread
  child_thread = framed start argument made

  abbrev parent_thread : Thread
  parent_thread = record p { children = p.children ++ (t ∷ []) }

  abbrev numbered : Kernel
  numbered = record k {
    all_list = k.all_list ++ (t ∷ []);
    tid_lock = free_lock;
    next_tid = k.next_tid + 1;
  }

  abbrev linked : Kernel
  linked = set_thread k.current parent_thread numbered

  abbrev complete : Kernel
  complete = set_thread t child_thread linked
