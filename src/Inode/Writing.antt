-- ===== src/Inode/Writing.antt =====
-- `inode_write_at` changes the bytes of the data that it is asked to, and nothing else.
use cs439_project.Prelude.{
  in_range, subst, Outcome, ◌≢◌, ℕ, zero, suc, ◌+◌, ◌-◌, ◌/◌, ◌%◌, ◌≤◌, ◌<◌, true, List, ◌≡◌, refl,
  ap, ◌∙◌, ok, ◌>>=◌, get_or, take, drop, length, read_bytes_ok, length-drop, length-take,
  get_or-take, get_or-drop, arith, if◌then◌else◌, ◌==◌, ==_ne, ==_refl, Bool-cases, inl, inr,
  ℕ_discrete, ◌⊎◌, read_bytes,
}
use native.Mathlib.Nat.{add-zero, zero-add}
use cs439_project.Block.{Block, store}
use cs439_project.Inode.{
  Inode, inode_length, bytes_to_sectors, chunk, byte_to_sector, write_chunk, write_loop,
  inode_write_at,
}
use cs439_project.Inode.Content.{
  byte, IsOnDisk, available, chunk-le-available, chunk-le-sector, chunk_zero, byte_to_sector_lem,
}
use cs439_project.Inode.Reading.{has_bounce}
use cs439_project.Inode.Rewriting.{Rewrites, write_chunk-Rewrites, rewritten_byte, both_parts}

-- Sectors of other files.
abbrev pub Elsewhere : Inode → ℕ → Type 0
Elsewhere inode s =
    (s < inode.data_.start) ⊎ (inode.data_.start + bytes_to_sectors inode.data_.length ≤ s)

-- What a write of n bytes comes to: the n bytes of the data from the offset on are those of the
-- buffer, all other bytes of the data and all sectors elsewhere are kept.
abbrev pub WritesAs : Outcome (Block × ℕ) → Block → Inode → ℕ → ℕ → List ℕ → ℕ → Type 0
WritesAs outcome device inode offset n buffer bytes_written =
    (device' : Block) × (outcome ≡ ok (device', bytes_written))
    × IsOnDisk device' inode
    × ((p : ℕ)
        → byte device'.sectors inode p ≡ (
            if in_range offset n p
            then get_or buffer (p - offset) 0
            else byte device.sectors inode p))
    × ((s : ℕ) → Elsewhere inode s → device'.sectors s ≡ device.sectors s)

module _ (fuel : ℕ) (device : Block) (inode : Inode) (size offset : ℕ) (buffer : List ℕ)
    (done : ℕ) where
  write_loop_stop :
      chunk inode size offset ≡ 0
      → write_loop (suc fuel) true device inode size offset buffer done ≡ ok (device, done)
  unfolding write_loop
  write_loop_stop e = elim (Bool-cases (size == 0)) [ inl z ↦ rw z | inr s ↦ rw (s, e) ]

  write_loop_next :
      {device' : Block} {bytes : List ℕ}
      → size ≢ 0
      → chunk inode size offset ≢ 0
      → read_bytes buffer 0 (chunk inode size offset) ≡ ok bytes
      → write_chunk device
          (byte_to_sector inode offset)
          (offset % 512)
          (chunk inode size offset)
          bytes
        ≡ ok device'
      → write_loop (suc fuel) true device inode size offset buffer done
        ≡ write_loop fuel true device' inode
            (size - chunk inode size offset)
            (offset + chunk inode size offset)
            (drop (chunk inode size offset) buffer)
            (done + chunk inode size offset)
  unfolding write_loop
  write_loop_next nz ne e w = rw (
    ==_ne size 0 nz,
    ==_ne (chunk inode size offset) 0 ne,
    has_bounce (offset % 512) (chunk inode size offset),
    e,
    ◌>>=◌,
    w,
  )

-- The sector after a round has its size, and so do the others.
rewritten-IsOnDisk :
    (device device' : Block) (inode : Inode) (idx : ℕ) (new : List ℕ)
    → IsOnDisk device inode
    → length new ≡ 512
    → device'.sectors ≡ store device.sectors idx new
    → device'.size ≡ device.size
    → device'.foreign ≡ device.foreign
    → IsOnDisk device' inode
rewritten-IsOnDisk device device' inode idx new d len sectors size foreign = record {
  valid = record {
    sized = λ s. ap (λ (f : ℕ → List ℕ). length (f s)) sectors ∙ sized s (ℕ_discrete s idx);
    native_type = foreign ∙ d.valid.native_type;
  };
  fits = omega (arith, d.fits, size);
  small = omega (arith, d.small, size);
}
  where
    sized : (s : ℕ) → Dec (s ≡ idx) → length (store device.sectors idx new s) ≡ 512
    sized s (yes e) = rw (e, ==_refl) len
    sized s (no ne) = rw (==_ne s idx ne) (d.valid.sized s)

-- One round that writes the bytes at an offset in the data.
write_chunk-WritesAs :
    (device : Block) (inode : Inode) (offset : ℕ) (bytes : List ℕ)
    → IsOnDisk device inode
    → 0 < length bytes
    → offset + length bytes ≤ inode_length inode
    → offset % 512 + length bytes ≤ 512
    → (device' : Block) × (write_chunk device
          (byte_to_sector inode offset)
          (offset % 512)
          (length bytes)
          bytes
        ≡ ok device')
      × IsOnDisk device' inode
      × ((p : ℕ)
          → byte device'.sectors inode p ≡ (
              if in_range offset (length bytes) p
              then get_or bytes (p - offset) 0
              else byte device.sectors inode p))
      × ((s : ℕ) → Elsewhere inode s → device'.sectors s ≡ device.sectors s)
write_chunk-WritesAs device inode offset bytes d some_bytes fits room =
    go (byte_to_sector_lem device inode offset d (omega arith))
  where
    idx : ℕ
    idx = inode.data_.start + offset / 512

    Goal : Type 0
    Goal =
        (device' : Block) × (write_chunk device (byte_to_sector inode offset) (offset % 512)
            (length bytes) bytes
          ≡ ok device')
        × IsOnDisk device' inode
        × ((p : ℕ)
            → byte device'.sectors inode p ≡ (
                if in_range offset (length bytes) p
                then get_or bytes (p - offset) 0
                else byte device.sectors inode p))
        × ((s : ℕ) → Elsewhere inode s → device'.sectors s ≡ device.sectors s)

    apart : (s : ℕ) → Elsewhere inode s → s ≢ idx
    apart s (inl low) = omega arith
    apart s (inr high) = omega arith

    use_it :
        byte_to_sector inode offset ≡ idx
        → Rewrites device idx
            (offset % 512)
            bytes
            (write_chunk device idx (offset % 512) (length bytes) bytes)
        → Goal
    use_it at (device', new, e, laid, sectors, size, foreign) = (
      device',
      ap (λ (k : ℕ). write_chunk device k (offset % 512) (length bytes) bytes) at ∙ e,
      rewritten-IsOnDisk device device' inode idx new d laid.0 sectors size foreign,
      λ p. rewritten_byte device device' inode offset bytes new p room laid sectors,
      λ s out. ap (λ (f : ℕ → List ℕ). f s) sectors ∙ rw (==_ne s idx (apart s out)),
    )

    go : (byte_to_sector inode offset ≡ idx) × (idx < device.size) → Goal
    go (at, within) =
        use_it at (write_chunk-Rewrites device idx (offset % 512) bytes d.valid within room)

-- One round of the loop that moves something.
Round : ℕ → Block → Inode → ℕ → ℕ → List ℕ → ℕ → ℕ → Type 0
Round fuel device inode size offset buffer done c =
    (device' : Block) × (write_loop (suc fuel) true device inode size offset buffer done
      ≡ write_loop fuel true device' inode (size - c) (offset + c) (drop c buffer) (done + c))
    × IsOnDisk device' inode
    × ((p : ℕ)
        → byte device'.sectors inode p ≡ (
            if in_range offset c p
            then get_or buffer (p - offset) 0
            else byte device.sectors inode p))
    × ((s : ℕ) → Elsewhere inode s → device'.sectors s ≡ device.sectors s)

write_loop-Round :
    (fuel : ℕ) (device : Block) (inode : Inode) (size offset : ℕ) (buffer : List ℕ) (done : ℕ)
    → IsOnDisk device inode
    → size ≤ length buffer
    → chunk inode size offset ≢ 0
    → Round fuel device inode size offset buffer done (chunk inode size offset)
unfolding Round
write_loop-Round fuel device inode size offset buffer done d len ne = go (
    write_chunk-WritesAs device inode offset part d (omega (arith, n)) (omega (arith, n, c-le))
      (omega (arith, n, chunk-le-sector inode size offset)))
  where
    part : List ℕ
    part = take (chunk inode size offset) buffer

    c-le : chunk inode size offset ≤ available inode size offset
    c-le = chunk-le-available inode size offset

    n : length part ≡ chunk inode size offset
    n = length-take (chunk inode size offset) buffer (omega (arith, c-le))

    taken_byte :
        (p old : ℕ)
        → (if in_range offset (chunk inode size offset) p then get_or part (p - offset) 0 else old)
          ≡ (if in_range offset (chunk inode size offset) p
              then get_or buffer (p - offset) 0
              else old)
    taken_byte p old = elim (Bool-cases (in_range offset (chunk inode size offset) p)) [
      | inl t ↦ rw t (get_or-take (chunk inode size offset) buffer (p - offset) 0 (ground arith))
      | inr f ↦ rw f
    ]

    go :
        (device' : Block) × (write_chunk device
              (byte_to_sector inode offset)
              (offset % 512)
              (length part)
              part
            ≡ ok device')
          × IsOnDisk device' inode
          × ((p : ℕ)
              → byte device'.sectors inode p ≡ (
                  if in_range offset (length part) p
                  then get_or part (p - offset) 0
                  else byte device.sectors inode p))
          × ((s : ℕ) → Elsewhere inode s → device'.sectors s ≡ device.sectors s)
        → Round fuel device inode size offset buffer done (chunk inode size offset)
    go (device', w, d', bytes, kept) = (
      device',
      write_loop_next fuel device inode size offset buffer done (omega (arith, c-le)) ne
          (read_bytes_ok buffer 0 (chunk inode size offset) (omega (arith, c-le))) (rw n at w),
      d',
      λ p. (rw n at (bytes p)) ∙ taken_byte p (byte device.sectors inode p),
      kept,
    )

write_loop-WritesAs :
    (fuel : ℕ) (device : Block) (inode : Inode) (size offset : ℕ) (buffer : List ℕ) (done : ℕ)
    → IsOnDisk device inode
    → size < fuel
    → size ≤ length buffer
    → WritesAs
        (write_loop fuel true device inode size offset buffer done)
        device
        inode
        offset
        (available inode size offset)
        buffer
        (done + available inode size offset)
unfolding Round
write_loop-WritesAs zero device inode size offset buffer done d h len = absurd (omega arith)
write_loop-WritesAs (suc fuel) device inode size offset buffer done d h len =
    elim (ℕ_discrete (chunk inode size offset) 0) [
      | yes e ↦ (
        device,
        rw (chunk_zero inode size offset e, add-zero)
            (write_loop_stop fuel device inode size offset buffer done e),
        d,
        λ p. rw (chunk_zero inode size offset e) (ground arith),
        λ s out. refl,
      )
      | no ne ↦
          chain ne (write_loop-Round fuel device inode size offset buffer done d len ne)
            (λ device' d'.
              write_loop-WritesAs fuel device' inode (size - c) (offset + c) (drop c buffer)
                (done + c) d' (omega (arith, c-le)) (omega (arith, c-le, length-drop c buffer)))
    ]
  where
    c : ℕ
    c = chunk inode size offset

    a : ℕ
    a = available inode size offset

    c-le : c ≤ a
    c-le = chunk-le-available inode size offset

    rest : available inode (size - c) (offset + c) ≡ a - c
    rest = omega (arith, c-le)

    Later : Block → Type 0
    Later device' =
        WritesAs
          (write_loop fuel true device' inode (size - c) (offset + c) (drop c buffer) (done + c))
          device' inode (offset + c) (available inode (size - c) (offset + c)) (drop c buffer)
          (done + c + available inode (size - c) (offset + c))

    chain :
        c ≢ 0
        → Round fuel device inode size offset buffer done c
        → ((device' : Block) → IsOnDisk device' inode → Later device')
        → WritesAs
            (write_loop (suc fuel) true device inode size offset buffer done)
            device
            inode
            offset
            a
            buffer
            (done + a)
    chain ne (device', e, d', bytes, kept) later = join (later device' d')
      where
        join :
            Later device'
            → WritesAs
                (write_loop (suc fuel) true device inode size offset buffer done)
                device
                inode
                offset
                a
                buffer
                (done + a)
        join (device'', e', d'', bytes', kept') = (
          device'',
          e
              ∙ e'
              ∙ ap (λ (k : ℕ). ok (device'', k))
                  {x = done + c + available inode (size - c) (offset + c)} (omega (arith, c-le)),
          d'',
          λ p.
              bytes' p
              ∙ rw (rest, bytes p, get_or-drop c buffer (p - (offset + c)) 0)
                  (both_parts (byte device.sectors inode p) (λ i. get_or buffer i 0) c a offset p
                    c-le),
          λ s out. kept' s out ∙ kept s out,
        )

-- `inode_write_at` with memory for the bounce buffer, on an inode whose writes are not denied,
-- writes as many bytes as were asked for or as there are up to the end of the data: these bytes of
-- the data are those of the buffer, all other bytes and the sectors of other files are kept.
pub inode_write_at-WritesAs :
    (device : Block) (inode : Inode) (buffer : List ℕ) (size offset : ℕ)
    → IsOnDisk device inode
    → inode.deny_write_cnt ≡ 0
    → size ≤ length buffer
    → WritesAs
        (inode_write_at true device inode buffer size offset)
        device
        inode
        offset
        (available inode size offset)
        buffer
        (available inode size offset)
unfolding inode_write_at
inode_write_at-WritesAs device inode buffer size offset d allowed len =
    let t : (inode.deny_write_cnt == 0) ≡ true = ground arith in
    rw t (
      subst
        (λ (n : ℕ).
          WritesAs (write_loop (size + 1) true device inode size offset buffer 0) device inode
            offset (available inode size offset) buffer n)
        (zero-add (available inode size offset))
        (write_loop-WritesAs (size + 1) device inode size offset buffer 0 d (omega arith) len))
