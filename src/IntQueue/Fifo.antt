-- ===== src/IntQueue/Fifo.antt =====
-- The ring of devices/intq.c is a queue: first in, first out, with room for 63 bytes.
use cs439_project.Prelude.{
  ℕ, zero, suc, ◌+◌, ◌-◌, ◌%◌, ◌≤◌, ◌<◌, Bool, true, false, List, [], ◌∷◌, ◌++◌, ◌≡◌, ◌≢◌, refl, ap,
  ◌∙◌, none, ==_ne, ==_refl, ok, ◌>>=◌, get_or, set, length, length-set, get_elem?-eq-get_or, arith,
}
use cs439_project.CString.Move.{get_or-set}
use cs439_project.IntQueue.{Intq, next, is_empty, is_full, put, intq_getc, intq_putc}

pub record IsValid (q : Intq) : Type 0 where
  pub sized : length q.buf ≡ 64
  pub head_within : q.head < 64
  pub tail_within : q.tail < 64

-- The bytes of n positions of the buffer from a position on, around its end.
abbrev pub gather : ℕ → List ℕ → ℕ → List ℕ
gather zero buf pos = []
gather (suc n) buf pos = get_or buf pos 0 ∷ gather n buf (next pos)

abbrev pub used : Intq → ℕ
used q = (q.head + 64 - q.tail) % 64

-- The bytes in the queue, the oldest first.
abbrev pub contents : Intq → List ℕ
contents q = gather (used q) q.buf q.tail

gather-suc :
    (n : ℕ) (buf : List ℕ) (pos : ℕ)
    → pos < 64
    → gather (suc n) buf pos ≡ gather n buf pos ++ (get_or buf ((pos + n) % 64) 0 ∷ [])
gather-suc zero buf pos h =
    let e : pos ≡ (pos + 0) % 64 = omega arith in ap (λ p. get_or buf p 0 ∷ []) e
gather-suc (suc n) buf pos h =
    let e : (next pos + n) % 64 ≡ (pos + suc n) % 64 = omega arith in
    ap (λ bs. get_or buf pos 0 ∷ bs)
      (gather-suc n buf (next pos) (omega arith)
        ∙ ap (λ p. gather n buf (next pos) ++ (get_or buf p 0 ∷ [])) e)

-- A byte stored behind the positions gathered is not seen by them.
gather-set :
    (n : ℕ) (buf : List ℕ) (pos at byte : ℕ)
    → pos < 64
    → at < 64
    → n ≤ (at + 64 - pos) % 64
    → length buf ≡ 64
    → gather n (set buf at byte) pos ≡ gather n buf pos
gather-set zero buf pos at byte h k room len = refl
gather-set (suc n) buf pos at byte h k room len =
    let other : at ≢ pos = λ e. omega arith in
    rw (get_or-set buf at byte pos (omega arith), ==_ne at pos other)
      (ap (λ bs. get_or buf pos 0 ∷ bs)
        (gather-set n buf (next pos) at byte (omega arith) k (omega arith) len))

-- `intq_putc` to a queue that is not full, with interrupts off, puts the byte behind those in the
-- queue, keeps it well formed, and wakes the thread that waits for a byte, if there is one.
pub intq_putc-appends :
    (handler : Bool) (q : Intq) (byte : ℕ)
    → IsValid q
    → is_full q ≡ false
    → (q' : Intq) × (intq_putc true handler q byte ≡ ok (q', q.not_empty))
      × IsValid q'
      × (contents q' ≡ contents q ++ (byte % 256 ∷ []))
      × (q'.not_empty ≡ none)
unfolding intq_putc
intq_putc-appends handler q byte valid room = (
  record (put q (byte % 256)) { not_empty = none },
  rw room refl,
  record {
    sized = length-set q.buf q.head (byte % 256) ∙ valid.sized;
    head_within = omega arith;
    tail_within = valid.tail_within;
  },
  ap (λ n. gather n after q.tail) longer
      ∙ gather-suc (used q) after q.tail valid.tail_within
      ∙ rw (behind, get_or-set q.buf q.head (byte % 256) q.head (omega arith), ==_refl q.head)
          (ap (λ bs. bs ++ (byte % 256 ∷ [])) kept),
  refl,
)
  where
    after : List ℕ
    after = set q.buf q.head (byte % 256)

    apart : next q.head ≢ q.tail
    apart e = ground arith

    longer : (next q.head + 64 - q.tail) % 64 ≡ suc (used q)
    longer = let ne : (q.head + 1) % 64 ≢ q.tail = apart in omega arith

    behind : (q.tail + used q) % 64 ≡ q.head
    behind = omega arith

    kept : gather (used q) after q.tail ≡ contents q
    kept =
        gather-set (used q) q.buf q.tail q.head (byte % 256) valid.tail_within valid.head_within
          (omega arith) valid.sized

-- `intq_getc` from a queue that is not empty, with interrupts off, returns the byte that has been
-- in the queue for the longest time and takes it out, keeps the queue well formed, and wakes the
-- thread that waits for room, if there is one.
pub intq_getc-takes :
    (handler : Bool) (q : Intq)
    → IsValid q
    → is_empty q ≡ false
    → (q' : Intq) × (byte : ℕ) × (intq_getc true handler q ≡ ok (q', byte, q.not_full))
      × IsValid q'
      × (contents q ≡ byte ∷ contents q')
      × (q'.not_full ≡ none)
unfolding intq_getc
intq_getc-takes handler q valid some_byte = (
  record q { tail = next q.tail; not_full = none },
  get_or q.buf q.tail 0,
  rw
      (
        some_byte,
        get_elem?-eq-get_or q.buf q.tail 0 (omega arith),
        ◌>>=◌,
        ==_ne (next q.head) (next q.tail) further,
      )
      refl,
  record { sized = valid.sized; head_within = valid.head_within; tail_within = omega arith },
  ap (λ n. gather n q.buf q.tail) fewer,
  refl,
)
  where
    further : next q.head ≢ next q.tail
    further e = let ne : q.head ≢ q.tail = λ e'. ground arith in ground arith

    fewer : used q ≡ suc ((q.head + 64 - next q.tail) % 64)
    fewer = let ne : q.head ≢ q.tail = λ e'. ground arith in omega arith
