-- ===== src/Inode/RoundTrip.antt =====
-- Writing to an inode and reading back, and the counters of its openers.
use cs439_project.Prelude.{
  in_range, ℕ, ◌+◌, ◌-◌, ◌≤◌, ◌<◌, Bool, true, List, ◌≡◌, ap, sym, ◌∙◌, ok, get_or, take, slice,
  slice_ext, take-eq-slice, length, arith,
}
use cs439_project.Block.{Block}
use cs439_project.Inode.{Inode, inode_read_at, inode_write_at, inode_deny_write, inode_allow_write}
use cs439_project.Inode.Content.{byte, IsOnDisk, available}
use cs439_project.Inode.Reading.{ReadsAs, inode_read_at-ReadsAs}
use cs439_project.Inode.Writing.{WritesAs, inode_write_at-WritesAs}

-- What `inode_write_at` writes to an inode, `inode_read_at` of the same range reads back: as many
-- bytes of the buffer as there is room for up to the end of the data. This is for an inode whose
-- sectors are inside of a valid device of less than 2 ^ 32 sectors and that nobody denies writes to
-- (`deny_write_cnt` is zero), a buffer that has the bytes to be written, and memory for the bounce
-- buffers of both calls.
pub inode_read_at-inode_write_at :
    (device : Block) (inode : Inode) (buffer : List ℕ) (size offset : ℕ)
    → IsOnDisk device inode
    → inode.deny_write_cnt ≡ 0
    → size ≤ length buffer
    → (device' device'' : Block) × (inode_write_at true device inode buffer size offset
        ≡ ok (device', available inode size offset))
      × (inode_read_at true device' inode size offset
          ≡ ok (device'', take (available inode size offset) buffer))
inode_read_at-inode_write_at device inode buffer size offset d allowed len =
    go (inode_write_at-WritesAs device inode buffer size offset d allowed len)
  where
    n : ℕ
    n = available inode size offset

    go :
        WritesAs
          (inode_write_at true device inode buffer size offset)
          device
          inode
          offset
          n
          buffer
          n
        → (device' device'' : Block) × (inode_write_at true device inode buffer size offset
            ≡ ok (device', n))
          × (inode_read_at true device' inode size offset ≡ ok (device'', take n buffer))
    go (device', e, d', bytes, kept) = back (inode_read_at-ReadsAs device' inode size offset d')
      where
        same : slice (byte device'.sectors inode) offset n ≡ take n buffer
        same =
            slice_ext (byte device'.sectors inode) (λ i. get_or buffer i 0) offset 0 n
              (λ i lt.
                let t : in_range offset n (offset + i) ≡ true = ground arith in
                let q : offset + i - offset ≡ 0 + i = omega arith in bytes (offset + i) ∙ rw (t, q))
            ∙ sym (take-eq-slice n buffer 0 (omega arith))

        back :
            ReadsAs
              (inode_read_at true device' inode size offset)
              device'
              (slice (byte device'.sectors inode) offset n)
            → (device' device'' : Block) × (inode_write_at true device inode buffer size offset
                ≡ ok (device', n))
              × (inode_read_at true device' inode size offset ≡ ok (device'', take n buffer))
        back (device'', e', sectors, size') =
            (device', device'', e, e' ∙ ap (λ (bs : List ℕ). ok (device'', bs)) same)

-- While an opener denies writes, `inode_write_at` writes nothing and changes no sector, whatever
-- it is asked to write.
pub inode_write_at_denied :
    (memory : Bool) (device : Block) (inode : Inode) (buffer : List ℕ) (size offset : ℕ)
    → inode.deny_write_cnt < inode.open_cnt
    → (inode' : Inode) × (inode_deny_write inode ≡ ok inode')
      × (inode_write_at memory device inode' buffer size offset ≡ ok (device, 0))
      × (inode_allow_write inode' ≡ ok inode)
unfolding inode_deny_write inode_write_at inode_allow_write
inode_write_at_denied memory device inode buffer size offset room = (
  record inode { deny_write_cnt = inode.deny_write_cnt + 1 },
  ground arith,
  ground arith,
  ground arith,
)
