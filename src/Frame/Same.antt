-- ===== src/Frame/Same.antt =====
-- vm/frame.c: `frame_less_than` takes two pages of one thread to be the same.
use cs439_project.Prelude.{
  ℕ, zero, suc, ◌+◌, ◌-◌, true, false, List, [], ◌∷◌, some, get_elem?, set, ◌≡◌, ◌≢◌, refl, ok,
  ◌>>=◌, deref, arith,
}
use cs439_project.Hash.{
  Keys, Hash, is_same, bucket_idx, find_bucket, find_elem, unlink, rehash, hash_replace,
}
use cs439_project.Synch.{pop_waiter}
use cs439_project.Frame.{FtEntry, Frames, put_entry_at, frame_keys, get_user_page}

same_thread :
    (entries : ℕ → FtEntry) (a b : ℕ)
    → (entries a).thread ≡ (entries b).thread
    → is_same (frame_keys entries) a b ≡ true
unfolding is_same
same_thread entries a b e = ground arith

get_elem?-set_twice :
    (bs : List (List ℕ)) (i : ℕ) {b : List ℕ} (c d : List ℕ)
    → get_elem? bs i ≡ some b
    → get_elem? (set (set bs i c) i d) i ≡ some d
get_elem?-set_twice [] i c d e = cc
get_elem?-set_twice (x ∷ bs) zero c d e = refl
get_elem?-set_twice (x ∷ bs) (suc i) c d e = get_elem?-set_twice bs i c d e

pub rehash_without : (k : Keys ℕ) (h : Hash ℕ) → rehash k false h ≡ ok h
unfolding rehash
rehash_without k h = ground arith

module _ (k : Keys ℕ) (e a : ℕ) (rest : List ℕ) (same : is_same k a e ≡ true) where
  find_elem-first : find_elem k (a ∷ rest) e ≡ some a
  unfolding find_elem
  find_elem-first = rw same

  unlink-first : unlink k (a ∷ rest) e ≡ rest
  unfolding unlink
  unlink-first = rw same

  -- The first element of a bucket gives way to the same one.
  hash_replace-first :
      (h : Hash ℕ)
      → get_elem? h.buckets (bucket_idx k h.bucket_cnt e) ≡ some (a ∷ rest)
      → hash_replace k false h e
        ≡ ok (
          record h {
            elem_cnt = h.elem_cnt - 1 + 1;
            buckets =
                set
                  (set h.buckets (bucket_idx k h.bucket_cnt e) rest)
                  (bucket_idx k h.bucket_cnt e)
                  (e ∷ rest);
          },
          some a,
        )
  unfolding hash_replace find_bucket
  hash_replace-first h found =
      rw (found, hash_replace, ◌>>=◌, deref)
        (rw (find_elem-first, unlink-first, ◌>>=◌, deref) (rw (rehash_without k, ◌>>=◌) refl))

-- What `get_user_page` writes to the entry for the page.
abbrev pub fresh_entries : ℕ → ℕ → ℕ → Frames → ℕ → FtEntry
fresh_entries current e vaddr f =
    put_entry_at f.entries e
      (record { thread = current; vaddr = vaddr; pin_sema = record { value = 1; waiters = [] } })

-- The bucket of the entry.
abbrev pub bucket_of : ℕ → ℕ → ℕ → Frames → ℕ
bucket_of current e vaddr f =
    bucket_idx (frame_keys (fresh_entries current e vaddr f)) f.ft.bucket_cnt e

-- `get_user_page` loses the frame of another page: if the first entry of the bucket that the new
-- entry belongs to is of the same thread, then, whatever its page is, that entry leaves the table
-- as if it were for the same page, and the new entry takes its place. The semaphore of the table is
-- free, and the table does not get memory for another array.
pub get_user_page_displaces :
    (f : Frames) (current page e vaddr a : ℕ) (rest : List ℕ)
    → get_elem? f.ft.buckets (bucket_of current e vaddr f) ≡ some (a ∷ rest)
    → a ≢ e
    → (f.entries a).thread ≡ current
    → f.ft_sema.value ≡ 1
    → (f' : Frames) × (get_user_page current (some page) (some e) false vaddr f
        ≡ ok (some page, f'))
      × (get_elem? f'.ft.buckets (bucket_of current e vaddr f) ≡ some (e ∷ rest))
      × (f'.ft.elem_cnt ≡ f.ft.elem_cnt - 1 + 1)
unfolding get_user_page
get_user_page_displaces f current page e vaddr a rest found other mine free = (
  record {
    ft = ft';
    ft_sema = record f.ft_sema { value = 1; waiters = (pop_waiter f.ft_sema.waiters).1 };
    entries = entries;
  },
  rw (free, get_user_page)
      (rw (hash_replace-first (frame_keys entries) e a rest same f.ft found, get_user_page) refl),
  get_elem?-set_twice f.ft.buckets (bucket_of current e vaddr f) rest (e ∷ rest) found,
  refl,
)
  where
    entries : ℕ → FtEntry
    entries = fresh_entries current e vaddr f

    ft' : Hash ℕ
    ft' = record f.ft {
      elem_cnt = f.ft.elem_cnt - 1 + 1;
      buckets =
          set (set f.ft.buckets (bucket_of current e vaddr f) rest) (bucket_of current e vaddr f)
            (e ∷ rest);
    }

    same : is_same (frame_keys entries) a e ≡ true
    same = same_thread entries a e (ground arith)
