-- ===== src/Frame.antt =====
-- vm/frame.c: the frame table, a hash table of the entries that are at some addresses; an operation
-- that changes an entry changes it in the table too. Its semaphore is held by one thread at a time:
-- an operation is what its thread does until it sleeps.
pub mod Same
pub mod Evict
pub mod Reload
mod Tests
use cs439_project.Prelude.{
  ℕ, ◌-◌, ◌^◌, Bool, true, false, ◌&&◌, ◌||◌, List, [], ◌∷◌, Option, none, some, if◌then◌else◌, ltb,
  ◌==◌, Outcome, ok, wild, ◌>>=◌, deref,
}
use cs439_project.Filesys.{word_bytes}
use cs439_project.Hash.{Keys, Hash, hash_init, hash_elements, hash_find, hash_replace, hash_delete}
use cs439_project.Hash.Bytes.{hash_bytes}
use cs439_project.Page.{Spte, Supdir, lookup_sup_page, supdir_set_swap, swap_sys}
use cs439_project.Pagedir.{Pagedir, pagedir_get_page, pagedir_is_dirty, pagedir_clear_page}
use cs439_project.Swap.{Swap, swap_write}
use cs439_project.Synch.{Semaphore, sema_init, sema_down, sema_try_down, sema_up}

-- `struct ft_entry`
pub record FtEntry : Type 0 where
  pub thread : ℕ
  pub vaddr : ℕ
  pub pin_sema : Semaphore

-- `ft` and `ft_sema`, and the entries by address
pub record Frames : Type 0 where
  pub ft : Hash ℕ
  pub ft_sema : Semaphore
  pub entries : ℕ → FtEntry

abbrev pub put_entry_at : (ℕ → FtEntry) → ℕ → FtEntry → ℕ → FtEntry
put_entry_at entries a entry b = if b == a then entry else entries b

-- `frame_hash`: the bytes of the identifier are those of the thread, then those of the address.
abbrev pub frame_hash : FtEntry → ℕ
frame_hash e = hash_bytes (word_bytes (e.thread ∷ e.vaddr ∷ []))

-- `frame_less_than`
abbrev pub frame_less_than : FtEntry → FtEntry → Bool
frame_less_than a b = ltb a.vaddr b.vaddr && ltb a.thread b.thread

-- The functions of the table, on the addresses of entries.
abbrev pub frame_keys : (ℕ → FtEntry) → Keys ℕ
frame_keys entries = record {
  hash = λ a. frame_hash (entries a);
  less = λ a b. frame_less_than (entries a) (entries b);
}

-- `frame_table_init`; the table without memory for its buckets is left uninitialized.
unfoldable pub frame_table_init : Bool → (ℕ → FtEntry) → Option Frames
unfolding hash_init sema_init
frame_table_init memory entries = elim (hash_init {A = ℕ} memory) [
  | none ↦ none
  | some ft ↦ some (record { ft = ft; ft_sema = sema_init 1; entries = entries })
]

-- `get_user_page`: `page` is the page from `palloc_get_page`, `entry` the address from `malloc`,
-- and `memory` says whether the table gets memory for another array.
unfoldable pub get_user_page :
    ℕ → Option ℕ → Option ℕ → Bool → ℕ → Frames → Outcome (Option ℕ × Frames)
unfolding sema_init sema_down sema_up
get_user_page current none entry memory vaddr f = ok (none, f)
get_user_page current (some page) entry memory vaddr f = do
  e ← deref entry
  let fresh : FtEntry = record { thread = current; vaddr = vaddr; pin_sema = sema_init 1 }
  let entries = put_entry_at f.entries e fresh
  held ← sema_down false current f.ft_sema
  (ft, old) ← hash_replace (frame_keys entries) memory f.ft e
  ok (some page, record { ft = ft; ft_sema = (sema_up held).0; entries = entries })

-- The loop of `evict_page`: the first entry whose semaphore it can take. Behind the last entry it
-- goes through a null pointer.
unfoldable pub find_victim : (ℕ → FtEntry) → List ℕ → Outcome ((ℕ → FtEntry) × ℕ)
unfolding sema_try_down
find_victim entries [] = wild
find_victim entries (a ∷ more) =
    let (s, success) = sema_try_down (entries a).pin_sema in
    let rest = find_victim entries more in
    if success then ok (put_entry_at entries a (record (entries a) { pin_sema = s }), a) else rest

abbrev pub first_of : List ℕ → Option ℕ
first_of [] = none
first_of (a ∷ more) = some a

-- The processes' tables, the frames' bytes by kernel address, and the swap device.
pub record Machines : Type 0 where
  pub frames : Frames
  pub pagedirs : ℕ → Pagedir
  pub supdirs : ℕ → Supdir
  pub memory : ℕ → List ℕ
  pub swap : Swap

-- Whether `evict_page` writes the page to the swap device.
abbrev pub must_write : Bool → Option Spte → Outcome Bool
must_write true spte = ok true
must_write false spte = deref spte >>= λ e. ok (e.location == swap_sys)

-- BITMAP_ERROR as a sector
abbrev pub slot_sector : Option ℕ → ℕ
slot_sector none = 2 ^ 32 - 1
slot_sector (some sector) = sector

-- The branch of `evict_page` that writes the victim's page to the swap device.
unfoldable pub write_victim : ℕ → Bool → ℕ → ℕ → Option ℕ → Machines → Outcome Machines
write_victim current false victim old_addr frame m = ok m
write_victim current true victim old_addr frame m = do
  at ← deref frame
  (swap, sector) ← swap_write current m.swap (m.memory at)
  let supdir = (supdir_set_swap (m.supdirs victim) old_addr (slot_sector sector)).0
  ok (record m { swap = swap; supdirs = λ t. if t == victim then supdir else m.supdirs t })

-- `evict_page`: the frame's address. The element that leaves the table and enters it again is the
-- first of the table, since the loop's variable of the same name hides it.
unfoldable pub evict_page : ℕ → Bool → Bool → ℕ → Machines → Outcome (Option ℕ × Machines)
unfolding sema_down sema_up find_victim write_victim
evict_page current memory1 memory2 new_addr m = do
  held ← sema_down false current m.frames.ft_sema
  let order = hash_elements m.frames.ft
  e ← deref (first_of order)
  (entries, a) ← find_victim m.frames.entries order
  let victim = (entries a).thread
  let old_addr = (entries a).vaddr
  frame ← pagedir_get_page (m.pagedirs victim) old_addr
  write ←
      must_write (pagedir_is_dirty (m.pagedirs victim) old_addr)
        (lookup_sup_page (m.supdirs victim) old_addr)
  m1 ← write_victim current write victim old_addr frame m
  pagedir ← pagedir_clear_page (m1.pagedirs victim) old_addr
  (ft1, gone) ← hash_delete (frame_keys entries) memory1 m.frames.ft e
  let entries' = put_entry_at entries a (record (entries a) { thread = current; vaddr = new_addr })
  (ft2, old) ← hash_replace (frame_keys entries') memory2 ft1 e
  ok (
    frame,
    record m1 {
      frames = record { ft = ft2; ft_sema = (sema_up held).0; entries = entries' };
      pagedirs = λ t. if t == victim then pagedir else m1.pagedirs t;
    },
  )

-- The local entry, at the address `local`, by which `free_frame` and `set_pinned` look.
abbrev pub probe_at : ℕ → ℕ → ℕ → (ℕ → FtEntry) → ℕ → FtEntry
probe_at current local vaddr entries =
    put_entry_at entries local (record (entries local) { thread = current; vaddr = vaddr })

-- `free_frame`
unfoldable pub free_frame : ℕ → ℕ → Bool → ℕ → Frames → Outcome Frames
unfolding sema_down sema_up
free_frame current local memory vaddr f = do
  let entries = probe_at current local vaddr f.entries
  held ← sema_down false current f.ft_sema
  del_elem ← hash_find (frame_keys entries) f.ft local
  ft ← elim del_elem [
    | none ↦ ok f.ft
    | some e ↦ hash_delete (frame_keys entries) memory f.ft e >>= λ r. ok r.0
  ]
  ok (record f { ft = ft; ft_sema = (sema_up held).0 })

-- `sema_down` of an entry that is pinned; `sema_try_down` and `sema_up` of one that is not.
unfoldable pub pin : ℕ → Bool → Semaphore → Outcome Semaphore
unfolding sema_down sema_try_down sema_up
pin current true s = sema_down false current s
pin current false s = ok (sema_up (sema_try_down s).0).0

-- `set_pinned`; no entry is a null pointer, which is left alone.
unfoldable pub set_pinned : ℕ → ℕ → ℕ → Bool → Frames → Outcome Frames
unfolding sema_down sema_up pin
set_pinned current local vaddr set f = do
  let entries = probe_at current local vaddr f.entries
  held ← sema_down false current f.ft_sema
  found ← hash_find (frame_keys entries) f.ft local
  let f' : Frames = record f { ft_sema = (sema_up held).0 }
  elim found [
    | none ↦ ok f'
    | some e ↦ pin current set (f.entries e).pin_sema >>= λ s.
        ok
          (record f' { entries = put_entry_at f.entries e (record (f.entries e) { pin_sema = s }) })
  ]
