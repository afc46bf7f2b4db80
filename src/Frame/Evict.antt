-- ===== src/Frame/Evict.antt =====
-- vm/frame.c: what `evict_page` does to the page that loses its frame.
use cs439_project.Prelude.{
  ℕ, ◌+◌, ◌-◌, ◌<◌, true, false, List, [], ◌∷◌, Option, none, some, if◌then◌else◌, ltb, length,
  length-set, get_or, ◌==◌, ==_refl, ◌≡◌, refl, ◌∙◌, ok, ◌>>=◌, deref, arith, get_elem?-eq-get_or,
}
use cs439_project.Prelude.Bits.{bit_and-le}
use cs439_project.Hash.{
  Keys, Hash, bucket_idx, find_bucket, find_elem, unlink, insert_elem, remove_elem, hash_replace,
  hash_delete, hash_elements,
}
use cs439_project.Synch.{Semaphore, sema_down, pop_waiter}
use cs439_project.Page.{supdir_set_swap}
use cs439_project.Pagedir.{page_size, phys_base, pg_ofs, pagedir_get_page, pagedir_is_dirty}
use cs439_project.Pagedir.Mapping.{pagedir_clear_page_lem}
use cs439_project.Swap.{Swap, swap_write}
use cs439_project.Frame.{
  FtEntry, Machines, put_entry_at, frame_keys, find_victim, write_victim, evict_page,
}
use cs439_project.Frame.Same.{rehash_without}

-- A table with an array of its number of buckets.
pub record IsSized (h : Hash ℕ) : Type 0 where
  pub some_bucket : 0 < h.bucket_cnt
  pub sized : length h.buckets ≡ h.bucket_cnt

module _ (k : Keys ℕ) (h : Hash ℕ) (sized : IsSized h) (e : ℕ) where
  found_bucket : (b : List ℕ) × (find_bucket k h e ≡ ok (bucket_idx k h.bucket_cnt e, b))
  unfolding find_bucket
  found_bucket = (
    get_or h.buckets (bucket_idx k h.bucket_cnt e) [],
    rw
        (get_elem?-eq-get_or h.buckets (bucket_idx k h.bucket_cnt e) []
          (omega (arith, bit_and-le (k.hash e) (h.bucket_cnt - 1), sized.some_bucket, sized.sized)))
        refl,
  )

  hash_delete-IsSized :
      (h' : Hash ℕ) × (old : Option ℕ) × (hash_delete k false h e ≡ ok (h', old)) × IsSized h'
  unfolding hash_delete
  hash_delete-IsSized = let (b, f) = found_bucket in by_case b f (find_elem k b e) refl
    where
      by_case :
          (b : List ℕ)
          → find_bucket k h e ≡ ok (bucket_idx k h.bucket_cnt e, b)
          → (o : Option ℕ) → find_elem k b e ≡ o
          → (h' : Hash ℕ) × (old : Option ℕ) × (hash_delete k false h e ≡ ok (h', old)) × IsSized h'
      by_case b f none q = (h, none, rw (f, ◌>>=◌) (rw (q, ◌>>=◌) refl), sized)
      by_case b f (some a) q = (
        remove_elem k h (bucket_idx k h.bucket_cnt e) b e,
        some a,
        rw (f, ◌>>=◌) (rw (q, ◌>>=◌) (rw (rehash_without k, ◌>>=◌) refl)),
        record {
          some_bucket = sized.some_bucket;
          sized = length-set h.buckets (bucket_idx k h.bucket_cnt e) (unlink k b e) ∙ sized.sized;
        },
      )

  hash_replace-ok : (h' : Hash ℕ) × (old : Option ℕ) × (hash_replace k false h e ≡ ok (h', old))
  unfolding hash_replace
  hash_replace-ok = let (b, f) = found_bucket in by_case b f (find_elem k b e) refl
    where
      by_case :
          (b : List ℕ)
          → find_bucket k h e ≡ ok (bucket_idx k h.bucket_cnt e, b)
          → (o : Option ℕ) → find_elem k b e ≡ o
          → (h' : Hash ℕ) × (old : Option ℕ) × (hash_replace k false h e ≡ ok (h', old))
      by_case b f none q = (
        insert_elem k h (bucket_idx k h.bucket_cnt e) b e,
        none,
        rw (f, ◌>>=◌) (rw (q, ◌>>=◌) (rw (rehash_without k, ◌>>=◌) refl)),
      )
      by_case b f (some a) q = (
        insert_elem k (remove_elem k h (bucket_idx k h.bucket_cnt e) b e)
            (bucket_idx k h.bucket_cnt e) (unlink k b e) e,
        some a,
        rw (f, ◌>>=◌) (rw (q, ◌>>=◌) (rw (rehash_without k, ◌>>=◌) refl)),
      )

-- The page of the victim: a page of a user address in the frame, which is dirty, that `swap_write`
-- has put into a slot.
pub record IsVictim (current : ℕ) (m : Machines) (e frame idx : ℕ) (s' : Swap) : Type 0 where
  pub first : (more : List ℕ) × (hash_elements m.frames.ft ≡ e ∷ more)
  pub sized : IsSized m.frames.ft
  pub free : m.frames.ft_sema.value ≡ 1
  pub unpinned : (m.frames.entries e).pin_sema.value ≡ 1
  pub aligned : pg_ofs (m.frames.entries e).vaddr ≡ 0
  pub user : (m.frames.entries e).vaddr < phys_base
  pub mapped :
      pagedir_get_page (m.pagedirs (m.frames.entries e).thread) (m.frames.entries e).vaddr
      ≡ ok (some frame)
  pub dirty :
      pagedir_is_dirty (m.pagedirs (m.frames.entries e).thread) (m.frames.entries e).vaddr ≡ true
  pub written : swap_write current m.swap (m.memory frame) ≡ ok (s', some idx)

pub evict_page-Evicts :
    (current new_addr e frame idx : ℕ) (m : Machines) (s' : Swap)
    → IsVictim current m e frame idx s'
    → (m' : Machines) × (evict_page current false false new_addr m ≡ ok (some frame, m'))
      × (m'.swap ≡ s')
      × (m'.supdirs (m.frames.entries e).thread
          ≡ (supdir_set_swap
              (m.supdirs (m.frames.entries e).thread)
              (m.frames.entries e).vaddr
              idx).0)
      × ((ofs : ℕ)
          → ofs < page_size
          → pagedir_get_page
              (m'.pagedirs (m.frames.entries e).thread)
              ((m.frames.entries e).vaddr + ofs)
            ≡ ok none)
      × ((m'.frames.entries e).vaddr ≡ new_addr)
      × ((m'.frames.entries e).thread ≡ current)
unfolding evict_page
evict_page-Evicts current new_addr e frame idx m s' v =
    let (more, order) = v.first in
    let (pd, clears, unmapped, _) =
      pagedir_clear_page_lem (m.pagedirs victim) old_addr v.aligned v.user in
    let (h1, gone, deleted, sized) =
      hash_delete-IsSized (frame_keys entries1) m.frames.ft v.sized e in
    let (h2, old, replaced) = hash_replace-ok (frame_keys entries2) h1 sized e in
    (
      record (written_to) {
        frames = record {
          ft = h2;
          ft_sema = record { value = 1; waiters = (pop_waiter m.frames.ft_sema.waiters).1 };
          entries = entries2;
        };
        pagedirs = λ t. if t == victim then pd else m.pagedirs t;
      },
      rw (acquired, ◌>>=◌)
          (rw (order, ◌>>=◌, deref)
            (rw (taken more, ◌>>=◌)
              (rw (==_refl e, ◌>>=◌)
                (rw (v.mapped, ◌>>=◌)
                  (rw (v.dirty, ◌>>=◌)
                    (rw (wrote, ◌>>=◌)
                      (rw (clears, ◌>>=◌) (rw (deleted, ◌>>=◌) (rw (replaced, ◌>>=◌) refl))))))))),
      refl,
      rw (==_refl victim),
      λ ofs small. rw (==_refl victim) (unmapped ofs small),
      rw (==_refl e),
      rw (==_refl e),
    )
  where
    victim : ℕ
    victim = (m.frames.entries e).thread

    old_addr : ℕ
    old_addr = (m.frames.entries e).vaddr

    pinned : Semaphore
    pinned = record (m.frames.entries e).pin_sema { value = 0 }

    entries1 : ℕ → FtEntry
    entries1 = put_entry_at m.frames.entries e (record (m.frames.entries e) { pin_sema = pinned })

    entries2 : ℕ → FtEntry
    entries2 =
        put_entry_at entries1 e (record { thread = current; vaddr = new_addr; pin_sema = pinned })

    acquired : sema_down false current m.frames.ft_sema ≡ ok (record m.frames.ft_sema { value = 0 })
    acquired = ground arith

    taken : (more : List ℕ) → find_victim m.frames.entries (e ∷ more) ≡ ok (entries1, e)
    taken more = rw (v.unpinned, find_victim, ltb) refl

    written_to : Machines
    written_to = record m {
      swap = s';
      supdirs = λ t.
          if t == victim then (supdir_set_swap (m.supdirs victim) old_addr idx).0 else m.supdirs t;
    }

    wrote : write_victim current true victim old_addr (some frame) m ≡ ok written_to
    wrote = rw (v.written, ◌>>=◌) refl
