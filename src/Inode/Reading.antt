-- ===== src/Inode/Reading.antt =====
-- `inode_read_at` returns the bytes of the data.
use cs439_project.Prelude.{
  Outcome, ◌≢◌, ℕ, zero, suc, ◌+◌, ◌-◌, ◌/◌, ◌%◌, ◌≤◌, ◌<◌, true, false, List, [], ◌++◌, ◌≡◌, refl,
  ap, sym, ◌∙◌, ok, ◌>>=◌, get_or, take, drop, slice, length, length-slice, slice-add, get_or-slice,
  array_ext, read_bytes_ok, get_or-take-drop, length-take-drop, arith, ◌==◌, ◌&&◌, ==_ne,
  Bool-cases, inl, inr, append-nil, append_assoc, ℕ_discrete,
}
use cs439_project.Block.{Block, read_ok, counter}
use cs439_project.Inode.{
  Inode, inode_length, chunk, byte_to_sector, read_chunk, no_bounce, read_loop, inode_read_at,
}
use cs439_project.Inode.Content.{
  byte, IsOnDisk, available, chunk-le-available, chunk-le-sector, chunk_zero, byte_to_sector_lem,
}

-- A part of a sector is the data from its first position on.
sector_part :
    (device : Block) (inode : Inode) (offset n : ℕ) (part : List ℕ)
    → offset % 512 + n ≤ 512
    → length part ≡ n
    → ((i : ℕ)
        → i < n
        → get_or part i 0
          ≡ get_or (device.sectors (inode.data_.start + offset / 512)) (offset % 512 + i) 0)
    → part ≡ slice (byte device.sectors inode) offset n
sector_part device inode offset n part room len same =
    array_ext part (slice (byte device.sectors inode) offset n) 0
      (omega (arith, len, length-slice (byte device.sectors inode) offset n))
      λ i lt.
        let small : i < n = omega (arith, len) in
        let q : (offset + i) / 512 ≡ offset / 512 = omega arith in
        let m : (offset + i) % 512 ≡ offset % 512 + i = omega arith in
        same i small ∙ sym (get_or-slice (byte device.sectors inode) offset n i 0 small ∙ rw (q, m))

-- The device after a read differs in its counter only.
abbrev pub counted : Block → Block
counted device = record device { read_cnt = counter device.read_cnt }

read_chunk_lem :
    (device : Block) (inode : Inode) (offset n : ℕ)
    → IsOnDisk device inode
    → inode.data_.start + offset / 512 < device.size
    → offset % 512 + n ≤ 512
    → read_chunk device (inode.data_.start + offset / 512) (offset % 512) n
      ≡ ok (counted device, slice (byte device.sectors inode) offset n)
unfolding read_chunk
read_chunk_lem device inode offset n d within room =
    rw (read_ok device (inode.data_.start + offset / 512) within, ◌>>=◌)
      (elim (Bool-cases (offset % 512 == 0 && n == 512)) [
        | inl whole ↦ rw whole (ap (λ (bs : List ℕ). ok (counted device, bs)) (entire whole))
        | inr part ↦
            rw (part, read_bytes_ok sector (offset % 512) n (omega (arith, size)))
              (ap (λ (bs : List ℕ). ok (counted device, bs)) partly)
      ])
  where
    sector : List ℕ
    sector = device.sectors (inode.data_.start + offset / 512)

    size : length sector ≡ 512
    size = d.valid.sized (inode.data_.start + offset / 512)

    entire :
        (offset % 512 == 0 && n == 512) ≡ true → sector ≡ slice (byte device.sectors inode) offset n
    entire whole =
        let z : offset % 512 ≡ 0 = ground arith in
        let e : n ≡ 512 = ground arith in
        sector_part device inode offset n sector room (omega (arith, size))
          λ i lt. ap (λ (k : ℕ). get_or sector k 0) {x = i} (omega arith)

    partly : take n (drop (offset % 512) sector) ≡ slice (byte device.sectors inode) offset n
    partly =
        sector_part device inode offset n (take n (drop (offset % 512) sector)) room
          (length-take-drop sector (offset % 512) n (omega (arith, size)))
          λ i lt. get_or-take-drop sector (offset % 512) n i lt

pub has_bounce : (sector_ofs chunk_size : ℕ) → no_bounce true sector_ofs chunk_size ≡ false
has_bounce sector_ofs chunk_size = ground arith

module _ (fuel : ℕ) (device : Block) (inode : Inode) (size offset : ℕ) (buffer : List ℕ) where
  read_loop_stop :
      chunk inode size offset ≡ 0
      → read_loop (suc fuel) true device inode size offset buffer ≡ ok (device, buffer)
  unfolding read_loop
  read_loop_stop e = elim (Bool-cases (size == 0)) [ inl z ↦ rw z | inr s ↦ rw (s, e) ]

  read_loop_next :
      {device' : Block} {part : List ℕ}
      → size ≢ 0
      → chunk inode size offset ≢ 0
      → read_chunk device (byte_to_sector inode offset) (offset % 512) (chunk inode size offset)
        ≡ ok (device', part)
      → read_loop (suc fuel) true device inode size offset buffer
        ≡ read_loop fuel true device' inode
            (size - chunk inode size offset)
            (offset + chunk inode size offset)
            (buffer ++ part)
  unfolding read_loop
  read_loop_next nz ne e = rw (
    ==_ne size 0 nz,
    ==_ne (chunk inode size offset) 0 ne,
    has_bounce (offset % 512) (chunk inode size offset),
    e,
  )

-- What a read comes to: the device differs in its counters only, and the bytes are those given.
abbrev pub ReadsAs : Outcome (Block × List ℕ) → Block → List ℕ → Type 0
ReadsAs outcome device bytes =
    (device' : Block) × (outcome ≡ ok (device', bytes))
    × (device'.sectors ≡ device.sectors)
    × (device'.size ≡ device.size)

read_loop-ReadsAs :
    (fuel : ℕ) (device : Block) (inode : Inode) (size offset : ℕ) (buffer : List ℕ)
    → IsOnDisk device inode
    → size < fuel
    → ReadsAs
        (read_loop fuel true device inode size offset buffer)
        device
        (buffer ++ slice (byte device.sectors inode) offset (available inode size offset))
read_loop-ReadsAs zero device inode size offset buffer d h = absurd (omega arith)
read_loop-ReadsAs (suc fuel) device inode size offset buffer d h =
    elim (ℕ_discrete (chunk inode size offset) 0) [
      | yes e ↦ (
        device,
        rw (chunk_zero inode size offset e, append-nil)
            (read_loop_stop fuel device inode size offset buffer e),
        refl,
        refl,
      )
      | no ne ↦
          let some_left : offset < inode_length inode =
            omega (arith, chunk-le-available inode size offset) in
          let nz : size ≢ 0 = omega (arith, chunk-le-available inode size offset) in
          let (at, within) = byte_to_sector_lem device inode offset d some_left in
          step
            (read_loop_next fuel device inode size offset buffer nz ne (
              rw at (
                read_chunk_lem device inode offset (chunk inode size offset) d within
                  (chunk-le-sector inode size offset))))
            (read_loop-ReadsAs fuel (counted device) inode (size - chunk inode size offset)
              (offset + chunk inode size offset)
              (buffer ++ slice (byte device.sectors inode) offset (chunk inode size offset))
              (record {
                valid = record { sized = d.valid.sized; native_type = d.valid.native_type };
                fits = d.fits;
                small = d.small;
              })
              (omega arith))
    ]
  where
    joined :
        slice (byte device.sectors inode) offset (available inode size offset)
        ≡ slice (byte device.sectors inode) offset (chunk inode size offset)
          ++ slice
              (byte device.sectors inode)
              (offset + chunk inode size offset)
              (available inode (size - chunk inode size offset) (offset + chunk inode size offset))
    joined =
        ap (slice (byte device.sectors inode) offset) {x = available inode size offset}
          {y = chunk inode size offset
            + available inode (size - chunk inode size offset) (offset + chunk inode size offset)}
          (omega (arith, chunk-le-available inode size offset))
        ∙ slice-add (byte device.sectors inode) offset (chunk inode size offset)
            (available inode (size - chunk inode size offset) (offset + chunk inode size offset))

    step :
        {now later : Outcome (Block × List ℕ)}
        → now ≡ later
        → ReadsAs later (counted device) (
            (buffer ++ slice (byte device.sectors inode) offset (chunk inode size offset))
            ++ slice (byte device.sectors inode) (offset + chunk inode size offset) (
                available inode
                  (size - chunk inode size offset)
                  (offset + chunk inode size offset)))
        → ReadsAs now device
            (buffer ++ slice (byte device.sectors inode) offset (available inode size offset))
    step e (device', e', sectors, size') = (
      device',
      e
          ∙ e'
          ∙ ap (λ (bs : List ℕ). ok (device', bs))
              (append_assoc buffer _ _ ∙ ap (λ (bs : List ℕ). buffer ++ bs) (sym joined)),
      sectors,
      size',
    )

-- `inode_read_at` with memory for the bounce buffer returns the bytes of the data from the offset
-- on, as many as were asked for or as there are up to the end of the data, and it does not change
-- the device's sectors.
pub inode_read_at-ReadsAs :
    (device : Block) (inode : Inode) (size offset : ℕ)
    → IsOnDisk device inode
    → ReadsAs
        (inode_read_at true device inode size offset)
        device
        (slice (byte device.sectors inode) offset (available inode size offset))
unfolding inode_read_at
inode_read_at-ReadsAs device inode size offset d =
    read_loop-ReadsAs (size + 1) device inode size offset [] d (omega arith)
