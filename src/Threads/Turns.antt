-- ===== src/Threads/Turns.antt =====
-- threads/thread.c: what happens over many switches. The run queue is first in, first out.
use cs439_project.Prelude.{
  ℕ, zero, suc, Bool, true, false, not, List, some, ◌≡◌, refl, assert-true, after_ok, ok_injective,
  sym, subst, ap, ◌∙◌, ok,
}
use cs439_project.Threads.{
  Kernel, next_of, thread_block, thread_unblock, is_idle, thread_yield, thread_exit, thread_tick,
  thread_current, intr_set_level,
}
use cs439_project.Threads.Ready.{IsValid}
use cs439_project.Threads.Switch.{
  requeued, thread_block-Switches, thread_yield-Switches, thread_exit-Switches, current-ok,
  running_thread,
}

-- The running thread gives up the processor, and another one runs.
pub data Turn (k k' : Kernel) : Type 0 where
  blocks : thread_block k ≡ ok k' → Turn k k'
  yields : (level : Bool) → thread_yield k ≡ ok (k', level) → Turn k k'
  exits : thread_exit k ≡ ok k' → Turn k k'

-- The running thread, or an interrupt, does something else: it unblocks a thread, sets the
-- interrupt level, or counts a tick.
pub data Quiet (k k' : Kernel) : Type 0 where
  unblocks : (t : ℕ) → is_idle k t ≡ false → thread_unblock t k ≡ ok k' → Quiet k k'
  levels : (level : Bool) → intr_set_level level k ≡ ok k' → Quiet k k'
  ticks : thread_tick k ≡ ok k' → Quiet k k'
  interrupts :
      k' ≡ record k { intr_on = false; in_external_intr = true; yield_on_return = false }
      → Quiet k k'
  returns : k' ≡ record k { in_external_intr = false } → Quiet k k'

-- A run of the kernel, with the number of its turns.
pub data Run (k : Kernel) : Kernel → ℕ → Type 0 where
  here : Run k k zero
  turn : {k' k'' : Kernel} {n : ℕ} → Run k k' n → Turn k' k'' → Run k k'' (suc n)
  quiet : {k' k'' : Kernel} {n : ℕ} → Run k k' n → Quiet k' k'' → Run k k'' n

-- The invariant, with the idle thread `i`.
pub record Going (i : ℕ) (k : Kernel) : Type 0 where
  pub valid : IsValid k
  pub idle : k.idle_thread ≡ some i

not-true : (b : Bool) → not b ≡ true → b ≡ false
not-true true e = cc
not-true false e = refl

inside_of_block :
    (k : Kernel) {k' : Kernel}
    → thread_block k ≡ ok k'
    → (k.in_external_intr ≡ false) × (k.intr_on ≡ false)
unfolding thread_block
inside_of_block k e =
    let (outer, e') = assert-true (not k.in_external_intr) _ e in
    let (level, _) = assert-true (not k.intr_on) _ e' in
    (not-true k.in_external_intr outer, not-true k.intr_on level)

inside_of_exit : (k : Kernel) {k' : Kernel} → thread_exit k ≡ ok k' → k.in_external_intr ≡ false
unfolding thread_exit
inside_of_exit k e =
    let (outer, _) = assert-true (not k.in_external_intr) _ e in not-true k.in_external_intr outer

inside_of_yield :
    (k : Kernel) {r : Kernel × Bool}
    → thread_current k ≡ ok k.current
    → thread_yield k ≡ ok r
    → k.in_external_intr ≡ false
unfolding thread_yield
inside_of_yield k c e =
    let (outer, _) = assert-true (not k.in_external_intr) _ (after_ok (thread_current k) _ c e) in
    not-true k.in_external_intr outer

moved :
    {i : ℕ} {k' : Kernel} (queue : List ℕ) (k2 : Kernel)
    → k2 ≡ k'
    → IsValid k2
    → k2.idle_thread ≡ some i
    → next_of (some i) queue ≡ (some k2.current, k2.ready_list)
    → Going i k' × (next_of (some i) queue ≡ (some k'.current, k'.ready_list))
moved {i} queue k2 p valid idle first =
    subst (λ x. Going i x × (next_of (some i) queue ≡ (some x.current, x.ready_list))) p
      (record { valid = valid; idle = idle }, first)

-- The queue that a turn takes the next thread from: a thread that yields enters it.
abbrev pub queue_of : {k k' : Kernel} → Turn k k' → List ℕ
queue_of {k} (blocks e) = k.ready_list
queue_of {k} (yields level e) = requeued k
queue_of {k} (exits e) = k.ready_list

pub Turn-Going :
    {i : ℕ} {k k' : Kernel}
    → Going i k
    → (s : Turn k k')
    → Going i k' × (next_of (some i) (queue_of s) ≡ (some k'.current, k'.ready_list))
Turn-Going {i} {k} g (blocks e) =
    let (outer, off) = inside_of_block k e in
    let (k2, q, valid, idle, first) = thread_block-Switches g.valid i g.idle outer off in
    moved {i = i} k.ready_list k2 (ok_injective (sym q ∙ e)) valid (idle ∙ g.idle)
      (rw (← g.idle) first)
Turn-Going {i} {k} g (exits e) =
    let (k2, q, valid, idle, first) = thread_exit-Switches g.valid i g.idle (inside_of_exit k e) in
    moved {i = i} k.ready_list k2 (ok_injective (sym q ∙ e)) valid (idle ∙ g.idle)
      (rw (← g.idle) first)
Turn-Going {i} {k} g (yields level e) =
    let (th, found) = running_thread g.valid i g.idle in
    let (k2, q, valid, idle, first) =
      thread_yield-Switches g.valid i g.idle (inside_of_yield k (current-ok g.valid th found) e) in
    moved {i = i} (requeued k) k2 (ap (λ (r : Kernel × Bool). r.0) (ok_injective (sym q ∙ e))) valid
      (idle ∙ g.idle) (rw (← g.idle) first)
