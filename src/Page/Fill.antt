-- ===== src/Page/Fill.antt =====
-- The loop of `load_page` that reads a page's sectors from a file, and the zeros behind them.
use cs439_project.Prelude.{
  in_range, ℕ, zero, suc, ◌+◌, ◌-◌, ◌*◌, ◌/◌, ◌%◌, ◌^◌, ◌≤◌, ◌<◌, Bool, true, false, List, ◌≡◌,
  refl, ap, ◌∙◌, Outcome, ok, ◌>>=◌, length, get_or, set, overwrite, length-overwrite, length-set,
  arith, get_or-overwrite_in, get_or-overwrite_before, write_bytes_ok, if◌then◌else◌, leb, lt→ltb,
  le→ltb, dec_lt,
}
use native.Mathlib.Nat.{mod-eq_of_lt}
use cs439_project.Block
use cs439_project.Block.{Block, counter}
use cs439_project.CString.{memset}
use cs439_project.CString.Move.{get_or-set}
use cs439_project.Page.{fill_loop}

-- The sectors that hold a number of bytes.
abbrev pub sectors_for : ℕ → ℕ
sectors_for n = (n + 511) / 512

-- The frame holds the n bytes of the device from the sector on, at the offset, and is unchanged
-- before the offset.
pub record Filled (device device' : Block) (sector : ℕ) (frame frame' : List ℕ) (addr n : ℕ)
    : Type 0 where
  pub same_sectors : device'.sectors ≡ device.sectors
  pub same_size : device'.size ≡ device.size
  pub same_length : length frame' ≡ length frame
  pub before : (j : ℕ) → j < addr → get_or frame' j 0 ≡ get_or frame j 0
  pub filled :
      (j : ℕ)
      → j < n
      → get_or frame' (addr + j) 0 ≡ get_or (device.sectors (sector + j / 512)) (j % 512) 0

-- The bytes that a round keeps of its sector.
abbrev step : ℕ → ℕ
step n = if leb 512 n then 512 else n

step_bounds : (n : ℕ) → (step n ≤ 512) × (step n ≤ n) × (n - step n ≡ n - 512)
step_bounds n = ground arith

fill_loop-suc :
    (fuel : ℕ) (device : Block) (sector : ℕ) (frame : List ℕ) (addr n : ℕ)
    → 0 < n
    → sector + 1 < 2 ^ 32
    → sector < device.size
    → addr + length (device.sectors sector) ≤ length frame
    → fill_loop (suc fuel) device sector frame addr n
      ≡ fill_loop fuel
          (record device { read_cnt = counter device.read_cnt })
          (sector + 1)
          (overwrite frame addr (device.sectors sector))
          (addr + step n)
          (n - 512)
unfolding fill_loop
fill_loop-suc fuel device sector frame addr n pos small within fits =
    rw
      (
        lt→ltb 0 n pos,
        Block.read_ok device sector within,
        ◌>>=◌,
        write_bytes_ok frame addr (device.sectors sector) fits,
        mod-eq_of_lt {n = sector + 1} {m = 2 ^ 32} small,
      )
      (ap
        (λ (a : ℕ).
          fill_loop fuel (record device { read_cnt = counter device.read_cnt }) (sector + 1)
            (overwrite frame addr (device.sectors sector)) a (n - 512))
        (moved (leb 512 n)))
  where
    moved : (t : Bool) → (if t then addr + 512 else addr + n) ≡ addr + (if t then 512 else n)
    moved true = refl
    moved false = refl

fill_loop_end :
    (fuel : ℕ) (device : Block) (sector : ℕ) (frame : List ℕ) (addr n : ℕ)
    → n ≤ 0
    → fill_loop fuel device sector frame addr n ≡ ok (device, frame, addr)
unfolding fill_loop
fill_loop_end zero device sector frame addr n h = refl
fill_loop_end (suc fuel) device sector frame addr n h = rw (le→ltb 0 n h)

-- What the loop comes to.
abbrev pub Fills : Outcome (Block × List ℕ × ℕ) → Block → ℕ → List ℕ → ℕ → ℕ → Type 0
Fills outcome device sector frame addr n =
    (device' : Block) × (frame' : List ℕ) × (outcome ≡ ok (device', frame', addr + n))
    × Filled device device' sector frame frame' addr n

pub fill_loop-Fills :
    (fuel : ℕ) (device : Block) (sector : ℕ) (frame : List ℕ) (addr n : ℕ)
    → Block.IsValid device
    → n ≤ fuel
    → sector + sectors_for n ≤ device.size
    → device.size < 2 ^ 32
    → addr + 512 * sectors_for n ≤ length frame
    → Fills (fill_loop fuel device sector frame addr n) device sector frame addr n
fill_loop-Fills fuel device sector frame addr zero v enough room small fits = (
  device,
  frame,
  fill_loop_end fuel device sector frame addr 0 (omega arith)
      ∙ ap (λ (a : ℕ). ok (device, frame, a)) {x = addr} (omega arith),
  record {
    same_sectors = refl;
    same_size = refl;
    same_length = refl;
    before = λ j h. refl;
    filled = λ j h. absurd (omega arith);
  },
)
fill_loop-Fills zero device sector frame addr (suc n) v enough room small fits =
    absurd (omega arith)
fill_loop-Fills (suc fuel) device sector frame addr (suc n) v enough room small fits = go (
    fill_loop-Fills fuel next (sector + 1) mid (addr + step (suc n)) (suc n - 512)
      (record { sized = v.sized; native_type = v.native_type }) (omega arith) (omega arith) small
      (omega (arith, len, step_bounds (suc n))))
  where
    mid : List ℕ
    mid = overwrite frame addr (device.sectors sector)

    len : length mid ≡ length frame
    len = length-overwrite frame addr (device.sectors sector)

    next : Block
    next = record device { read_cnt = counter device.read_cnt }

    go :
        Fills
          (fill_loop fuel next (sector + 1) mid (addr + step (suc n)) (suc n - 512))
          next
          (sector + 1)
          mid
          (addr + step (suc n))
          (suc n - 512)
        → Fills
            (fill_loop (suc fuel) device sector frame addr (suc n))
            device
            sector
            frame
            addr
            (suc n)
    go (device', frame', e, f) = (
      device',
      frame',
      fill_loop-suc fuel device sector frame addr (suc n) (omega arith) (omega arith) (omega arith)
            (omega (arith, v.sized sector))
          ∙ e
          ∙ ap (λ (a : ℕ). ok (device', frame', a)) {x = addr + step (suc n) + (suc n - 512)}
              (omega (arith, step_bounds (suc n))),
      record {
        same_sectors = f.same_sectors;
        same_size = f.same_size;
        same_length = f.same_length ∙ len;
        before = λ j h.
            f.before j (omega arith)
            ∙ get_or-overwrite_before frame addr (device.sectors sector) j 0 h;
        filled = λ j h. fill j h (dec_lt j (step (suc n)));
      },
    )
      where
        fill :
            (j : ℕ)
            → j < suc n
            → Dec (j < step (suc n))
            → get_or frame' (addr + j) 0 ≡ get_or (device.sectors (sector + j / 512)) (j % 512) 0
        fill j h (yes low) =
            let q : sector + j / 512 ≡ sector = omega (arith, step_bounds (suc n)) in
            let m : j % 512 ≡ j = omega (arith, step_bounds (suc n)) in
            rw (q, m)
              (f.before (addr + j) (omega arith)
                ∙ get_or-overwrite_in frame addr (device.sectors sector) j 0
                    (omega (arith, v.sized sector))
                    (omega (arith, v.sized sector, step_bounds (suc n))))
        fill j h (no high) =
            let whole : step (suc n) ≡ 512 = ground arith in
            let p : addr + step (suc n) + (j - 512) ≡ addr + j = omega (arith, whole) in
            let q : sector + 1 + (j - 512) / 512 ≡ sector + j / 512 = omega (arith, whole) in
            let m : (j - 512) % 512 ≡ j % 512 = omega (arith, whole) in
            rw (p, q, m) at (f.filled (j - 512) (omega (arith, whole)))

-- `memset` that stays in the block sets the range to the byte and nothing else.
pub memset_lem :
    (dst : List ℕ) (at value n : ℕ)
    → at + n ≤ length dst
    → (dst' : List ℕ) × (memset dst at value n ≡ ok dst')
      × (length dst' ≡ length dst)
      × ((j : ℕ) → get_or dst' j 0 ≡ (if in_range at n j then value % 256 else get_or dst j 0))
unfolding memset
memset_lem dst at value zero fits = (dst, refl, refl, λ j. ground arith)
memset_lem dst at value (suc n) fits = rw (lt→ltb at (length dst) (omega arith)) (
    go (
      memset_lem (set dst at (value % 256)) (at + 1) value n
        (omega (arith, length-set dst at (value % 256)))))
  where
    go :
        (dst' : List ℕ) × (memset (set dst at (value % 256)) (at + 1) value n ≡ ok dst')
          × (length dst' ≡ length (set dst at (value % 256)))
          × ((j : ℕ)
              → get_or dst' j 0 ≡ (
                  if in_range (at + 1) n j
                  then value % 256
                  else get_or (set dst at (value % 256)) j 0))
        → (dst' : List ℕ) × (memset (set dst at (value % 256)) (at + 1) value n ≡ ok dst')
          × (length dst' ≡ length dst)
          × ((j : ℕ)
              → get_or dst' j 0 ≡ (if in_range at (suc n) j then value % 256 else get_or dst j 0))
    go (dst', e, len, bytes) = (
      dst',
      e,
      len ∙ length-set dst at (value % 256),
      λ j. bytes j ∙ rw (get_or-set dst at (value % 256) j (omega arith)) (ground arith),
    )
