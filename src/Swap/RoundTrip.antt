-- ===== src/Swap/RoundTrip.antt =====
-- A page that goes to the swap device and comes back, and the slot that it leaves behind.
use cs439_project.Prelude.{
  in_range, ℕ, ◌+◌, ◌-◌, ◌*◌, ◌/◌, ◌%◌, ◌≤◌, ◌<◌, true, false, List, ◌≡◌, ap, ◌∙◌, ok, length,
  get_or, take, drop, arith, array_ext, get_or-take-drop, Option, none, some, if◌then◌else◌, ◌==◌,
  ==_ne, max,
}
use cs439_project.Bitmap.Single.{get, Becomes}
use cs439_project.Bitmap.Scan.{Blocked}
use cs439_project.Block.{Block}
use cs439_project.Swap.{Swap, swap_write, swap_read, swap_remove}
use cs439_project.Swap.Transfer.{Wrote, Read}
use cs439_project.Swap.Slots.{
  IsReady, page_size, Written, swap_write-Written, swap_read-Read, swap_remove-Becomes,
}

-- Sectors that hold a frame, read into a page, are the frame.
same_frame :
    {d d' d'' : Block} (idx : ℕ) (frame buffer frame' : List ℕ)
    → length frame ≡ page_size
    → length buffer ≡ page_size
    → Wrote 8 d d' idx frame 0
    → Read 8 d' d'' idx buffer frame' 0
    → frame' ≡ frame
same_frame {d} {d'} idx frame buffer frame' len len' w r =
    array_ext frame' frame 0 (omega (arith, r.same_length))
      (λ j lt. byte j (omega (arith, r.same_length)))
  where
    sector :
        (j : ℕ) → j < 4096 → d'.sectors (idx + j / 512) ≡ take 512 (drop (512 * (j / 512)) frame)
    sector j lt =
        let e : 0 + 512 * (idx + j / 512 - idx) ≡ 512 * (j / 512) = omega arith in
        let t : in_range idx 8 (idx + j / 512) ≡ true = ground arith in
        w.contents (idx + j / 512) ∙ rw (t, e)

    byte : (j : ℕ) → j < 4096 → get_or frame' j 0 ≡ get_or frame j 0
    byte j lt =
        let z : 0 + j ≡ j = omega arith in
        let p : 512 * (j / 512) + j % 512 ≡ j = omega arith in
        (rw z at (r.filled j (omega arith)))
        ∙ rw (sector j lt)
            (get_or-take-drop frame (512 * (j / 512)) 512 (j % 512) (omega arith) ∙ rw p)

-- Reading the slot that was answered gives back the frame; without a slot nothing was changed.
abbrev pub Restores : ℕ → Swap → Swap → List ℕ → List ℕ → Option ℕ → Type 0
Restores current s s' frame buffer none = (s'.table ≡ s.table) × (s'.device ≡ s.device)
Restores current s s' frame buffer (some idx) =
    (s'' : Swap) × (swap_read current s' idx buffer ≡ ok (s'', frame))

-- A frame that `swap_write` puts into a slot comes back whole from `swap_read` of that slot,
-- whatever the page read into held before; if there is no slot, table and device are unchanged.
pub swap_read-swap_write :
    (current : ℕ) (s : Swap) (frame buffer : List ℕ)
    → IsReady s
    → length frame ≡ page_size
    → length buffer ≡ page_size
    → (s' : Swap) × (r : Option ℕ) × (swap_write current s frame ≡ ok (s', r))
      × Restores current s s' frame buffer r
swap_read-swap_write current s frame buffer ready len len' =
    go (swap_write-Written current s frame ready len)
  where
    Result : Type 0
    Result =
        (s' : Swap) × (r : Option ℕ) × (swap_write current s frame ≡ ok (s', r))
        × Restores current s s' frame buffer r

    go :
        (s' : Swap) × (r : Option ℕ) × (swap_write current s frame ≡ ok (s', r))
          × IsReady s'
          × Written s frame s' r
        → Result
    go (s', none, e, ready', (full, table, device)) = (s', none, e, (table, device))
    go (s', some idx, e, ready', (found, is, w)) =
        back (swap_read-Read current s' ready' idx buffer (omega (arith, found.1, is.0)) len')
      where
        back :
            (s'' : Swap) × (frame' : List ℕ) × (swap_read current s' idx buffer ≡ ok (s'', frame'))
              × Becomes s'.table s''.table (λ j. if idx == j then true else get s'.table j)
              × Read 8 s'.device s''.device idx buffer frame' 0
            → Result
        back (s'', frame', e', is', r) = (
          s',
          some idx,
          e,
          (
            s'',
            e' ∙ ap (λ (f : List ℕ). ok (s'', f)) (same_frame idx frame buffer frame' len len' w r),
          ),
        )

-- After `swap_remove` of a slot whose eight bits are set, no group of eight free bits reaches into
-- the other seven sectors of the slot: every group that does is blocked.
pub swap_remove-leaks :
    (current : ℕ) (s : Swap) (sector : ℕ)
    → IsReady s
    → sector + 8 ≤ s.table.bit_cnt
    → ((i : ℕ) → i < 8 → get s.table (sector + i) ≡ true)
    → (s' : Swap) × (swap_remove current s sector ≡ ok s')
      × ((k : ℕ) → k ≤ sector + 7 → sector < k + 7 → Blocked s'.table false 8 k)
swap_remove-leaks current s sector ready within taken =
    go (swap_remove-Becomes current s ready sector (omega arith))
  where
    go :
        (s' : Swap) × (swap_remove current s sector ≡ ok s')
          × (s'.device ≡ s.device)
          × Becomes s.table s'.table (λ j. if sector == j then false else get s.table j)
        → (s' : Swap) × (swap_remove current s sector ≡ ok s')
          × ((k : ℕ) → k ≤ sector + 7 → sector < k + 7 → Blocked s'.table false 8 k)
    go (s', e, device, (cnt, len, bits)) = (
      s',
      e,
      λ k low high.
          let p : k + (max k (sector + 1) - k) ≡ max k (sector + 1) = omega arith in
          let q : sector + (max k (sector + 1) - sector) ≡ max k (sector + 1) = omega arith in
          (
            max k (sector + 1) - k,
            omega arith,
            rw p (
                bits (max k (sector + 1))
                ∙ rw (==_ne sector (max k (sector + 1)) (λ h. absurd (omega arith)))
                    (rw q at (taken (max k (sector + 1) - sector) (omega arith)))),
          ),
    )
