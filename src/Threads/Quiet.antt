-- ===== src/Threads/Quiet.antt =====
-- threads/thread.c: steps of the kernel that are not switches.
use cs439_project.Prelude.{
  ℕ, ◌+◌, ◌%◌, ◌^◌, Bool, true, false, not, List, [], ◌∷◌, ◌++◌, Option, none, some, if◌then◌else◌,
  ◌≡◌, refl, append-nil, assert-true, after_ok, ok_injective, sym, subst, ap, ◌∙◌, ◌⊎◌, ok, deref,
  arith,
}
use cs439_project.Threads.{
  is_blocked, Thread, Kernel, thread_unblock, is_idle, thread_tick, count_tick, thread_current,
  intr_set_level, intr_yield_on_return,
}
use cs439_project.Threads.Switch.{
  readied-IsValid, thread_unblock-readied, current-ok, running_thread,
}
use cs439_project.Threads.Turns.{Quiet, unblocks, levels, ticks, interrupts, returns, Going}

-- What a step that is not a turn keeps.
record Keeps (k k' : Kernel) : Type 0 where
  threads : k'.threads ≡ k.threads
  current : k'.current ≡ k.current
  ready_list : k'.ready_list ≡ k.ready_list
  idle_thread : k'.idle_thread ≡ k.idle_thread

Keeps-Going : {i : ℕ} {k k' : Kernel} → Keeps k k' → Going i k → Going i k'
Keeps-Going {i} {k} {k'} s g = record {
  valid = record {
    sound = λ t th e. g.valid.sound t th (rw (← s.threads) e);
    runs = λ t. rw (s.threads, s.current) (g.valid.runs t);
    queued = λ t. ground (arith, g.valid.queued t, ap (λ f. f t) s.threads);
    idles = λ t e. rw s.threads (g.valid.idles t (rw (← s.idle_thread) e));
  };
  idle = s.idle_thread ∙ g.idle;
}

Keeps-ok : {k k1 k' : Kernel} → ok k1 ≡ ok k' → Keeps k k1 → Keeps k k'
Keeps-ok {k} e s = subst (Keeps k) (ok_injective e) s

counted-Keeps :
    (idle : Bool) (pagedir : Option ℕ) (n : ℕ) (on : Bool) (k : Kernel)
    → Keeps k (record (count_tick idle pagedir k) { thread_ticks = n; yield_on_return = on })
counted-Keeps true pagedir n on k = record {
  threads = refl;
  current = refl;
  ready_list = refl;
  idle_thread = refl;
}
counted-Keeps false (some pd) n on k = record {
  threads = refl;
  current = refl;
  ready_list = refl;
  idle_thread = refl;
}
counted-Keeps false none n on k = record {
  threads = refl;
  current = refl;
  ready_list = refl;
  idle_thread = refl;
}

ended-Keeps :
    (late : Bool) (k k1 : Kernel) {k' : Kernel}
    → ((on : Bool) → Keeps k (record k1 { yield_on_return = on }))
    → (if late then intr_yield_on_return k1 else ok k1) ≡ ok k'
    → Keeps k k'
unfolding intr_yield_on_return
ended-Keeps true k k1 s e =
    let (_, done) = assert-true k1.in_external_intr _ e in Keeps-ok done (s true)
ended-Keeps false k k1 s e = Keeps-ok e (s k1.yield_on_return)

tick-Keeps : {i : ℕ} {k k' : Kernel} → Going i k → thread_tick k ≡ ok k' → Keeps k k'
unfolding thread_tick
tick-Keeps {i} {k} {k'} g e =
    let (th, found) = running_thread g.valid i g.idle in
    let e1 = after_ok (thread_current k) _ (current-ok g.valid th found) e in
    let there : deref (k.threads k.current) ≡ ok th = rw found in
    let e2 = after_ok (deref (k.threads k.current)) _ there e1 in
    ended-Keeps _ k _
      (λ on. counted-Keeps (is_idle k k.current) th.pagedir ((k.thread_ticks + 1) % 2 ^ 32) on k) e2

level-Keeps :
    (k : Kernel) {k' : Kernel} (level : Bool) → intr_set_level level k ≡ ok k' → Keeps k k'
unfolding intr_set_level
level-Keeps k true e =
    let (_, done) = assert-true (not k.in_external_intr) _ e in
    Keeps-ok done (record { threads = refl; current = refl; ready_list = refl; idle_thread = refl })
level-Keeps k false e =
    Keeps-ok e (record { threads = refl; current = refl; ready_list = refl; idle_thread = refl })

unblock-inverts :
    (t : ℕ) (k : Kernel) {k' : Kernel} (o : Option Thread)
    → k.threads t ≡ o
    → thread_unblock t k ≡ ok k'
    → (th : Thread) × (k.threads t ≡ some th)
      × (is_blocked th.status ≡ true)
      × ((k.in_external_intr ≡ false) ⊎ (k.intr_on ≡ false))
unfolding thread_unblock
unblock-inverts t k none p e = absurd (ground arith)
unblock-inverts t k (some th) p e = (th, p, ground arith, ground arith)

unblock-Going :
    {i : ℕ} {k k' : Kernel}
    → Going i k
    → (t : ℕ) → is_idle k t ≡ false
    → thread_unblock t k ≡ ok k'
    → Going i k' × (k'.ready_list ≡ k.ready_list ++ (t ∷ []))
unblock-Going {i} {k} g t busy e =
    let (th, found, waits, level) = unblock-inverts t k (k.threads t) refl e in
    subst (λ x. Going i x × (x.ready_list ≡ k.ready_list ++ (t ∷ [])))
      (ok_injective (sym (thread_unblock-readied g.valid t th found waits level) ∙ e))
      (record { valid = readied-IsValid g.valid t th found waits busy; idle = g.idle }, refl)

same_queue :
    {i : ℕ} {k k' : Kernel}
    → Going i k
    → Keeps k k'
    → Going i k' × ((more : List ℕ) × (k'.ready_list ≡ k.ready_list ++ more))
same_queue {k} g s = (Keeps-Going s g, ([], s.ready_list ∙ sym (append-nil k.ready_list)))

-- Other steps than turns keep the invariant, and add to the end of the run queue at most.
pub Quiet-Going :
    {i : ℕ} {k k' : Kernel}
    → Going i k
    → Quiet k k'
    → Going i k' × ((more : List ℕ) × (k'.ready_list ≡ k.ready_list ++ more))
Quiet-Going g (unblocks t busy e) = let (g', q) = unblock-Going g t busy e in (g', (t ∷ [], q))
Quiet-Going {k} g (levels level e) = same_queue g (level-Keeps k level e)
Quiet-Going g (ticks e) = same_queue g (tick-Keeps g e)
Quiet-Going {k} g (interrupts e) =
    same_queue g
      (rw e (record { threads = refl; current = refl; ready_list = refl; idle_thread = refl }))
Quiet-Going {k} g (returns e) =
    same_queue g
      (rw e (record { threads = refl; current = refl; ready_list = refl; idle_thread = refl }))
