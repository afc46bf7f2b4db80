-- ===== src/Threads/Fairness.antt =====
-- threads/thread.c: what holds over any run of the kernel, and that a ready thread gets its turn.
use cs439_project.Prelude.{
  ℕ, zero, suc, ◌+◌, List, [], ◌∷◌, ◌++◌, Option, some, get_elem?, ◌≡◌, sym, subst, ap, arith,
}
use cs439_project.Threads.{Kernel, next_of}
use cs439_project.Threads.Ready.{IsValid}
use cs439_project.Threads.Switch.{requeued}
use cs439_project.Threads.Turns.{
  Turn, blocks, yields, exits, Run, here, turn, quiet, queue_of, Turn-Going, Going,
}
use cs439_project.Threads.Quiet.{Quiet-Going}

going : {i : ℕ} {k k1 : Kernel} {n : ℕ} → Run k k1 n → Going i k → Going i k1
going here g = g
going (turn r s) g = (Turn-Going (going r g) s).0
going (quiet r s) g = (Quiet-Going (going r g) s).0

-- In a kernel with an idle thread, where one thread runs, the current one, and the run queue has
-- every ready thread but the idle one, once, and no other: the same holds after every run, that is,
-- after any sequence of switches (`thread_block`, `thread_yield`, `thread_exit`), wake-ups of
-- threads other than the idle thread, changes of the interrupt level, ticks and interrupts.
pub Run-IsValid :
    {k k' : Kernel} {n : ℕ}
    → Run k k' n
    → (i : ℕ) → IsValid k
    → k.idle_thread ≡ some i
    → IsValid k' × (k'.idle_thread ≡ some i)
Run-IsValid r i v idle = let g = going r (record { valid = v; idle = idle }) in (g.valid, g.idle)

get_elem?-append :
    (n : ℕ) {t : ℕ} (xs ys : List ℕ) → get_elem? xs n ≡ some t → get_elem? (xs ++ ys) n ≡ some t
get_elem?-append n [] ys e = cc
get_elem?-append zero (x ∷ xs) ys e = e
get_elem?-append (suc n) (x ∷ xs) ys e = get_elem?-append n xs ys e

-- A turn takes the first thread, and the others are one place nearer.
turn_nearer :
    (n i : ℕ) {t c : ℕ} (queue rest : List ℕ)
    → get_elem? queue (suc n) ≡ some t
    → next_of (some i) queue ≡ (some c, rest)
    → get_elem? rest n ≡ some t
turn_nearer n i [] rest e q = cc
turn_nearer n i {t = t} (x ∷ xs) rest e q =
    subst (λ l. get_elem? l n ≡ some t) (ap (λ (r : Option ℕ × List ℕ). r.1) q) e

turn_first :
    (i : ℕ) {t c : ℕ} (queue rest : List ℕ)
    → get_elem? queue zero ≡ some t
    → next_of (some i) queue ≡ (some c, rest)
    → c ≡ t
turn_first i [] rest e q = cc
turn_first i (x ∷ xs) rest e q = cc (ap (λ (r : Option ℕ × List ℕ). r.0) q)

requeued_keeps :
    (n : ℕ) {t : ℕ} (k : Kernel)
    → get_elem? k.ready_list n ≡ some t
    → get_elem? (requeued k) n ≡ some t
requeued_keeps n k e = ground (arith, get_elem?-append n k.ready_list (k.current ∷ []) e)

queue_of_keeps :
    (n : ℕ) {t : ℕ} {k k' : Kernel} (s : Turn k k')
    → get_elem? k.ready_list n ≡ some t
    → get_elem? (queue_of s) n ≡ some t
queue_of_keeps n (blocks _) e = e
queue_of_keeps n {k = k} (yields _ _) e = requeued_keeps n k e
queue_of_keeps n (exits _) e = e

-- After `n` turns a ready thread is `n` places nearer.
nearer :
    {i t : ℕ} {k k' : Kernel} {n : ℕ}
    → Going i k
    → Run k k' n
    → (p d : ℕ) → p ≡ n + d
    → get_elem? k.ready_list p ≡ some t
    → get_elem? k'.ready_list d ≡ some t
nearer {t = t} {k = k} g here p d q e =
    subst (λ x. get_elem? k.ready_list x ≡ some t) (omega arith) e
nearer {i} g (turn r s) p d q e =
    turn_nearer d i (queue_of s) _ (queue_of_keeps (suc d) s (nearer g r p (suc d) (omega arith) e))
      (Turn-Going (going r g) s).1
nearer {t = t} g (quiet {k'} r s) p d q e =
    let (_, (more, longer)) = Quiet-Going (going r g) s in
    subst (λ l. get_elem? l d ≡ some t) (sym longer)
      (get_elem?-append d k'.ready_list more (nearer g r p d q e))

-- A ready thread with `n` others before it in the run queue runs after the next `n + 1` turns,
-- whatever blocks, yields, exits, wake-ups of threads other than the idle thread, ticks and
-- interrupts there are; the kernel has an idle thread and meets the invariant at the start.
pub ready_runs :
    {k k' k'' : Kernel} {n t : ℕ}
    → (i : ℕ) → IsValid k
    → k.idle_thread ≡ some i
    → get_elem? k.ready_list n ≡ some t
    → Run k k' n
    → Turn k' k''
    → k''.current ≡ t
ready_runs {k = k} {n = n} i v idle e r s =
    turn_first i (queue_of s) _ (queue_of_keeps zero s (nearer start r n zero (omega arith) e))
      (Turn-Going (going r start) s).1
  where
    start : Going i k
    start = record { valid = v; idle = idle }
