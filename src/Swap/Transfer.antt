-- ===== src/Swap/Transfer.antt =====
-- The loops of vm/swap.c that move a frame to and from eight sectors.
use cs439_project.Prelude.{
  in_range, ℕ, zero, suc, ◌+◌, ◌-◌, ◌*◌, ◌/◌, ◌%◌, ◌^◌, ◌≤◌, ◌<◌, List, ◌≡◌, refl, ◌∙◌, ok, length,
  get_or, take, drop, overwrite, length-overwrite, arith, get_or-overwrite_in,
  get_or-overwrite_before, read_bytes_ok, write_bytes_ok, length-take-drop, if◌then◌else◌, ◌==◌,
  ==_ne, ==_refl, ℕ_discrete, dec_lt,
}
use native.Mathlib.Nat.{mod-eq_of_lt}
use cs439_project.Block
use cs439_project.Block.{Block, store, counter}
use cs439_project.Swap.{write_loop, read_loop}

-- The sectors of the frame from `addr` on stand in the device from `index` on, and all other
-- sectors are those of `device`.
pub record Wrote (left : ℕ) (device device' : Block) (index : ℕ) (frame : List ℕ) (addr : ℕ)
    : Type 0 where
  pub kept_size : device'.size ≡ device.size
  pub valid : Block.IsValid device'
  pub contents :
      (s : ℕ)
      → device'.sectors s ≡ (
          if in_range index left s
          then take 512 (drop (addr + 512 * (s - index)) frame)
          else device.sectors s)

-- A device after a good write is a good device.
store-IsValid :
    (device : Block) (index : ℕ) (buffer : List ℕ)
    → length buffer ≡ 512
    → Block.IsValid device
    → Block.IsValid (record device {
      sectors = store device.sectors index buffer;
      write_cnt = counter device.write_cnt;
    })
store-IsValid device index buffer len valid = record {
  sized = λ s. pick s (ℕ_discrete s index);
  native_type = valid.native_type;
}
  where
    pick : (s : ℕ) → Dec (s ≡ index) → length (store device.sectors index buffer s) ≡ 512
    pick s (yes e) = rw (e, ==_refl) len
    pick s (no ne) = rw (==_ne s index ne) (valid.sized s)

-- The loop's sectors are its first one and those of the rounds left.
one_further :
    {A : Type 0} (part : ℕ → A) (old : A) (left index addr s : ℕ)
    → (if in_range (index + 1) left s
        then part (addr + 512 + 512 * (s - (index + 1)))
        else if s == index
        then part addr
        else old)
      ≡ (if in_range index (suc left) s then part (addr + 512 * (s - index)) else old)
one_further part old left index addr s = ground arith

pub write_loop-Wrote :
    (left : ℕ) (device : Block) (index : ℕ) (frame : List ℕ) (addr : ℕ)
    → Block.IsValid device
    → index + left ≤ device.size
    → index + left < 2 ^ 32
    → addr + 512 * left ≤ length frame
    → (device' : Block) × (write_loop left device index frame addr ≡ ok device')
      × Wrote left device device' index frame addr
unfolding write_loop
write_loop-Wrote zero device index frame addr valid room small fits =
    (device, refl, record { kept_size = refl; valid = valid; contents = λ s. ground arith })
write_loop-Wrote (suc left) device index frame addr valid room small fits =
    rw
      (
        read_bytes_ok frame addr 512 (omega arith),
        Block.write_ok device index (take 512 (drop addr frame)) (omega arith) valid.native_type,
        mod-eq_of_lt {n = index + 1} {m = 2 ^ 32} (omega arith),
      )
      (go (
        write_loop-Wrote left next (index + 1) frame (addr + 512)
          (store-IsValid device index (take 512 (drop addr frame))
            (length-take-drop frame addr 512 (omega arith)) valid)
          (omega arith) (omega arith) (omega arith)))
  where
    next : Block
    next = record device {
      sectors = store device.sectors index (take 512 (drop addr frame));
      write_cnt = counter device.write_cnt;
    }

    shift :
        (s : ℕ)
        → (if in_range (index + 1) left s
            then take 512 (drop (addr + 512 + 512 * (s - (index + 1))) frame)
            else next.sectors s)
          ≡ (if in_range index (suc left) s
              then take 512 (drop (addr + 512 * (s - index)) frame)
              else device.sectors s)
    shift s = one_further (λ o. take 512 (drop o frame)) (device.sectors s) left index addr s

    go :
        (device' : Block) × (write_loop left next (index + 1) frame (addr + 512) ≡ ok device')
          × Wrote left next device' (index + 1) frame (addr + 512)
        → (device' : Block) × (write_loop left next (index + 1) frame (addr + 512) ≡ ok device')
          × Wrote (suc left) device device' index frame addr
    go (device', e, w) = (
      device',
      e,
      record { kept_size = w.kept_size; valid = w.valid; contents = λ s. w.contents s ∙ shift s },
    )

-- The frame holds the sectors from `index` on in the 512 * left bytes from `addr` on, and is
-- unchanged before `addr`.
pub record Read (left : ℕ) (device device' : Block) (index : ℕ) (frame frame' : List ℕ) (addr : ℕ)
    : Type 0 where
  pub same_sectors : device'.sectors ≡ device.sectors
  pub same_size : device'.size ≡ device.size
  pub same_length : length frame' ≡ length frame
  pub before : (j : ℕ) → j < addr → get_or frame' j 0 ≡ get_or frame j 0
  pub filled :
      (j : ℕ)
      → j < 512 * left
      → get_or frame' (addr + j) 0 ≡ get_or (device.sectors (index + j / 512)) (j % 512) 0

pub read_loop-Read :
    (left : ℕ) (device : Block) (index : ℕ) (frame : List ℕ) (addr : ℕ)
    → Block.IsValid device
    → index + left ≤ device.size
    → index + left < 2 ^ 32
    → addr + 512 * left ≤ length frame
    → (device' : Block) × (frame' : List ℕ) × (read_loop left device index frame addr
        ≡ ok (device', frame'))
      × Read left device device' index frame frame' addr
unfolding read_loop
read_loop-Read zero device index frame addr valid room small fits = (
  device,
  frame,
  refl,
  record {
    same_sectors = refl;
    same_size = refl;
    same_length = refl;
    before = λ j h. refl;
    filled = λ j h. absurd (omega arith);
  },
)
read_loop-Read (suc left) device index frame addr valid room small fits =
    rw
      (
        Block.read_ok device index (omega arith),
        write_bytes_ok frame addr (device.sectors index) (omega (arith, valid.sized index)),
        mod-eq_of_lt {n = index + 1} {m = 2 ^ 32} (omega arith),
      )
      (go (
        read_loop-Read left (record device { read_cnt = counter device.read_cnt }) (index + 1) mid
          (addr + 512) (record { sized = valid.sized; native_type = valid.native_type })
          (omega arith) (omega arith) (omega (arith, len))))
  where
    mid : List ℕ
    mid = overwrite frame addr (device.sectors index)

    len : length mid ≡ length frame
    len = length-overwrite frame addr (device.sectors index)

    next : Block
    next = record device { read_cnt = counter device.read_cnt }

    Result : Type 0
    Result =
        (device' : Block) × (frame' : List ℕ) × (read_loop left next (index + 1) mid (addr + 512)
          ≡ ok (device', frame'))
        × Read (suc left) device device' index frame frame' addr

    go :
        (device' : Block) × (frame' : List ℕ) × (read_loop left next (index + 1) mid (addr + 512)
            ≡ ok (device', frame'))
          × Read left next device' (index + 1) mid frame' (addr + 512)
        → Result
    go (device', frame', e, r) = (
      device',
      frame',
      e,
      record {
        same_sectors = r.same_sectors;
        same_size = r.same_size;
        same_length = r.same_length ∙ len;
        before = λ j h.
            r.before j (omega arith)
            ∙ get_or-overwrite_before frame addr (device.sectors index) j 0 h;
        filled = λ j h. fill j h (dec_lt j 512);
      },
    )
      where
        fill :
            (j : ℕ)
            → j < 512 * suc left
            → Dec (j < 512)
            → get_or frame' (addr + j) 0 ≡ get_or (device.sectors (index + j / 512)) (j % 512) 0
        fill j h (yes low) =
            let q : index + j / 512 ≡ index = omega arith in
            let m : j % 512 ≡ j = omega arith in
            rw (q, m)
              (r.before (addr + j) (omega arith)
                ∙ get_or-overwrite_in frame addr (device.sectors index) j 0
                    (omega (arith, valid.sized index)) (omega (arith, valid.sized index)))
        fill j h (no high) =
            let p : addr + 512 + (j - 512) ≡ addr + j = omega arith in
            let q : index + 1 + (j - 512) / 512 ≡ index + j / 512 = omega arith in
            let m : (j - 512) % 512 ≡ j % 512 = omega arith in
            rw (p, q, m) at (r.filled (j - 512) (omega arith))
