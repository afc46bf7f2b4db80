-- ===== src/Threads/Created.antt =====
-- threads/thread.c: the steps of `thread_create` when its locks are free.
use cs439_project.Prelude.{
  ℕ, ◌+◌, ◌-◌, ◌%◌, ◌^◌, ◌≤◌, ◌<◌, true, false, List, [], ◌∷◌, ◌++◌, Option, none, some, ==_refl,
  le→leb, ◌≡◌, ◌≢◌, refl, ap, fun_ext, ◌⊎◌, replicate, overwrite, ok, ◌>>=◌, arith,
}
use cs439_project.CString.Strings.{IsText, fitting, strlcpy-fitting}
use cs439_project.Synch.Lock.{Lock}
use cs439_project.Threads.{
  thread_blocked, is_running, thread_magic, Word, null, function, aux, kernel_thread, switch_entry,
  Thread, Kernel, set_thread, intr_disable, intr_set_level, is_thread,
}
use cs439_project.Threads.Create.{
  init_thread, allocate_tid, alloc_frame, poke_word, push_frames, add_child, set_origin,
}
use cs439_project.Threads.Ready.{IsValid}

pub set_thread-twice :
    (t : ℕ) (a b : Thread) (k : Kernel) → set_thread t b (set_thread t a k) ≡ set_thread t b k
set_thread-twice t a b k = ap (λ f. record k { threads = f }) (fun_ext (λ u. ground arith))

pub set_thread-swap :
    (t u : ℕ) (a b : Thread) (k : Kernel)
    → t ≢ u
    → set_thread u b (set_thread t a k) ≡ set_thread t a (set_thread u b k)
set_thread-swap t u a b k ne = ap (λ f. record k { threads = f }) (fun_ext (λ x. ground arith))

-- The thread that `init_thread` makes.
abbrev pub blank : List ℕ → ℕ → Thread
blank text priority = record {
  tid = 0;
  status = thread_blocked;
  name = overwrite (replicate 16 0) 0 (fitting text 16 ++ (0 ∷ []));
  stack = 4096;
  priority = priority;
  pagedir = none;
  supdir = none;
  parent = none;
  children = [];
  child_sema = record { value = 0; waiters = [] };
  load_sema = record { value = 0; waiters = [] };
  child_list_sema = record { value = 1; waiters = [] };
  return_status = 0;
  success = false;
  files = none;
  magic = thread_magic;
  words = [];
}

pub init_thread-blank :
    (t : ℕ) (text rest : List ℕ) (priority : ℕ) (k : Kernel)
    → IsText text
    → priority ≤ 63
    → init_thread t (text ++ (0 ∷ rest)) priority k
      ≡ ok (set_thread t (blank text priority) (record k { all_list = k.all_list ++ (t ∷ []) }))
unfolding init_thread
init_thread-blank t text rest priority k is_text small = rw (
  le→leb priority 63 small,
  ◌>>=◌,
  (strlcpy-fitting (replicate 16 0) 0 text rest 16 is_text (omega arith) (omega arith)).0,
)

abbrev pub free_lock : Lock
free_lock = record { semaphore = record { value = 1; waiters = [] }; holder = none }

pub allocate_tid-next :
    (k : Kernel) (c : Thread)
    → k.threads k.current ≡ some c
    → is_running c.status ≡ true
    → c.magic ≡ thread_magic
    → k.tid_lock ≡ free_lock
    → k.next_tid + 1 < 2 ^ 31
    → k.in_external_intr ≡ false
    → allocate_tid k ≡ ok (k.next_tid, record k { tid_lock = free_lock; next_tid = k.next_tid + 1 })
unfolding allocate_tid
allocate_tid-next k c e runs sound free small outer = ground arith

module _ (t : ℕ) (th : Thread) (k : Kernel) where
  poke_word-set :
      (at : ℕ) (w : Word)
      → poke_word t at w (set_thread t th k)
        ≡ ok (set_thread t (record th { words = (at, w) ∷ th.words }) k)
  unfolding poke_word
  poke_word-set at w =
      rw (==_refl t, ◌>>=◌)
        (ap ok (set_thread-twice t th (record th { words = (at, w) ∷ th.words }) k))

  alloc_frame-set :
      (size : ℕ)
      → th.magic ≡ thread_magic
      → size % 4 ≡ 0
      → alloc_frame t size (set_thread t th k)
        ≡ ok (th.stack - size, set_thread t (record th { stack = th.stack - size }) k)
  unfolding alloc_frame
  alloc_frame-set size sound whole =
      rw (frame_passes, ◌>>=◌)
        (rw (==_refl t, whole, ◌>>=◌)
          (ap ok (
            ap (λ (x : Kernel). (th.stack - size, x))
              (set_thread-twice t th (record th { stack = th.stack - size }) k))))
    where
      frame_passes : is_thread (set_thread t th k) (some t) ≡ true
      frame_passes = ground arith

  pub set_origin-set :
      (files : Option ℕ) (tid parent : ℕ)
      → set_origin t files tid parent (set_thread t th k)
        ≡ ok (set_thread t (record th { files = files; tid = tid; parent = some parent }) k)
  unfolding set_origin
  set_origin-set files tid parent =
      rw (==_refl t, ◌>>=◌)
        (ap ok
          (set_thread-twice t th (record th { files = files; tid = tid; parent = some parent }) k))

-- The frames on the stack of a thread that runs `start argument`.
abbrev pub framed : ℕ → ℕ → Thread → Thread
framed start argument th = record th {
  stack = th.stack - 12 - 4 - 28;
  words =
      (th.stack - 12 - 4 - 28 + 8, null)
      ∷ (th.stack - 12 - 4 - 28 + 16, switch_entry)
      ∷ (th.stack - 12 - 4, kernel_thread)
      ∷ (th.stack - 12 + 8, aux argument)
      ∷ (th.stack - 12 + 4, function start)
      ∷ (th.stack - 12, null)
      ∷ th.words;
}

pub push_frames-set :
    (t : ℕ) (th : Thread) (k : Kernel) (start argument : ℕ)
    → th.magic ≡ thread_magic
    → push_frames t start argument (set_thread t th k)
      ≡ ok (set_thread t (framed start argument th) k)
unfolding push_frames
push_frames-set t th k start argument sound =
    rw (alloc_frame-set t th k 12 sound refl, ◌>>=◌)
      (rw (poke_word-set t th1 k (th.stack - 12) null, ◌>>=◌)
        (rw (poke_word-set t th2 k (th.stack - 12 + 4) (function start), ◌>>=◌)
          (rw (poke_word-set t th3 k (th.stack - 12 + 8) (aux argument), ◌>>=◌)
            (rw (alloc_frame-set t th4 k 4 sound refl, ◌>>=◌)
              (rw (poke_word-set t th5 k (th.stack - 12 - 4) kernel_thread, ◌>>=◌)
                (rw (alloc_frame-set t th6 k 28 sound refl, ◌>>=◌)
                  (rw (poke_word-set t th7 k (th.stack - 12 - 4 - 28 + 16) switch_entry, ◌>>=◌)
                    (poke_word-set t th8 k (th.stack - 12 - 4 - 28 + 8) null))))))))
  where
    th1 : Thread
    th1 = record th { stack = th.stack - 12 }

    th2 : Thread
    th2 = record th1 { words = (th.stack - 12, null) ∷ th.words }

    th3 : Thread
    th3 = record th2 { words = (th.stack - 12 + 4, function start) ∷ th2.words }

    th4 : Thread
    th4 = record th3 { words = (th.stack - 12 + 8, aux argument) ∷ th3.words }

    th5 : Thread
    th5 = record th4 { stack = th.stack - 12 - 4 }

    th6 : Thread
    th6 = record th5 { words = (th.stack - 12 - 4, kernel_thread) ∷ th5.words }

    th7 : Thread
    th7 = record th6 { stack = th.stack - 12 - 4 - 28 }

    th8 : Thread
    th8 = record th7 { words = (th.stack - 12 - 4 - 28 + 16, switch_entry) ∷ th7.words }

pub add_child-set :
    (parent t : ℕ) (p : Thread) (k : Kernel)
    → k.threads parent ≡ some p
    → p.child_list_sema ≡ record { value = 1; waiters = [] }
    → k.in_external_intr ≡ false
    → add_child parent t k
      ≡ ok (set_thread parent (record p { children = p.children ++ (t ∷ []) }) k)
unfolding add_child
add_child-set parent t p k e free outer = ground arith

module _ {k : Kernel} (v : IsValid k) where
  pub fresh-IsValid :
      (t : ℕ) (b : Thread)
      → k.threads t ≡ none
      → b.status ≡ thread_blocked
      → b.magic ≡ thread_magic
      → IsValid (set_thread t b k)
  fresh-IsValid t b e stops sound = record {
    sound = λ u x q. ground (arith, v.sound u x);
    runs = λ u. ground (arith, v.runs u);
    queued = λ u. ground (arith, v.queued u);
    idles = λ u q. ground (arith, v.idles u);
  }

  pub changed-IsValid :
      (t : ℕ) (a b : Thread)
      → k.threads t ≡ some a
      → b.status ≡ a.status
      → b.magic ≡ a.magic
      → IsValid (set_thread t b k)
  changed-IsValid t a b e stays sound = record {
    sound = λ u x q. ground (arith, v.sound u x, v.sound t a);
    runs = λ u. ground (arith, v.runs u);
    queued = λ u. ground (arith, v.queued u);
    idles = λ u q. ground (arith, v.idles u);
  }

-- The old interrupt level comes back.
pub level-again :
    (k : Kernel)
    → (k.in_external_intr ≡ false) ⊎ (k.intr_on ≡ false)
    → intr_set_level k.intr_on (intr_disable k) ≡ ok k
unfolding intr_set_level
level-again k level = ground arith
