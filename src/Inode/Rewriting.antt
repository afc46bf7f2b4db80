-- ===== src/Inode/Rewriting.antt =====
-- What `write_chunk` does to one sector of an inode, and to the bytes of the data in it.
use cs439_project.Prelude.{
  in_range, Outcome, ℕ, ◌+◌, ◌-◌, ◌/◌, ◌%◌, ◌≤◌, ◌<◌, true, false, List, ◌≡◌, refl, ap, ◌∙◌, ok,
  ◌>>=◌, get_or, length, overwrite, length-overwrite, get_or-overwrite_in, get_or-overwrite_before,
  get_or-overwrite_after, write_bytes_ok, arith, if◌then◌else◌, ◌==◌, ◌&&◌, Bool-cases, inl, inr,
  ltb, ℕ_discrete, dec_lt, write_bytes,
}
use cs439_project.Block
use cs439_project.Block.{Block, read_ok, write_ok, counter, store}
use cs439_project.Inode.{Inode, write_chunk}
use cs439_project.Inode.Content.{byte}

-- The n bytes laid over a sector from its offset on.
abbrev pub Laid : List ℕ → ℕ → List ℕ → List ℕ → Type 0
Laid old ofs bytes new =
    (length new ≡ 512)
    × ((k : ℕ)
        → k < 512
        → get_or new k 0
          ≡ (if in_range ofs (length bytes) k then get_or bytes (k - ofs) 0 else get_or old k 0))

pub overwrite-Laid :
    (old : List ℕ) (ofs : ℕ) (bytes : List ℕ)
    → length old ≡ 512
    → ofs + length bytes ≤ 512
    → Laid old ofs bytes (overwrite old ofs bytes)
overwrite-Laid old ofs bytes len room = (
  length-overwrite old ofs bytes ∙ len,
  λ k lt. at k (dec_lt k ofs) (dec_lt k (ofs + length bytes)),
)
  where
    at :
        (k : ℕ)
        → Dec (k < ofs)
        → Dec (k < ofs + length bytes)
        → get_or (overwrite old ofs bytes) k 0
          ≡ (if in_range ofs (length bytes) k then get_or bytes (k - ofs) 0 else get_or old k 0)
    at k (yes low) _ =
        let t : in_range ofs (length bytes) k ≡ false = ground arith in
        get_or-overwrite_before old ofs bytes k 0 low ∙ rw t
    at k (no high) (yes h) =
        let t : in_range ofs (length bytes) k ≡ true = ground arith in
        let e : ofs + (k - ofs) ≡ k = omega arith in
        (rw e at (get_or-overwrite_in old ofs bytes (k - ofs) 0 (omega arith) (omega arith))) ∙ rw t
    at k (no high) (no h) =
        let t : in_range ofs (length bytes) k ≡ false = ground arith in
        get_or-overwrite_after old ofs bytes k 0 (omega arith) ∙ rw t

-- What one round writes: the sector's new bytes, the counters aside.
abbrev pub Rewrites : Block → ℕ → ℕ → List ℕ → Outcome Block → Type 0
Rewrites device idx ofs bytes outcome =
    (device' : Block) × (new : List ℕ) × (outcome ≡ ok device')
    × Laid (device.sectors idx) ofs bytes new
    × (device'.sectors ≡ store device.sectors idx new)
    × (device'.size ≡ device.size)
    × (device'.foreign ≡ device.foreign)

pub write_chunk-Rewrites :
    (device : Block) (idx ofs : ℕ) (bytes : List ℕ)
    → Block.IsValid device
    → idx < device.size
    → ofs + length bytes ≤ 512
    → Rewrites device idx ofs bytes (write_chunk device idx ofs (length bytes) bytes)
unfolding write_chunk
write_chunk-Rewrites device idx ofs bytes v within room =
    elim (Bool-cases (ofs == 0 && length bytes == 512)) [
      | inl whole ↦
          rw (whole, write_ok device idx bytes within v.native_type)
            (let z : ofs ≡ 0 = ground arith in
              let e : length bytes ≡ 512 = ground arith in
              (
                record device {
                  sectors = store device.sectors idx bytes;
                  write_cnt = counter device.write_cnt;
                },
                bytes,
                refl,
                (
                  e,
                  λ k lt.
                      let t : in_range ofs (length bytes) k ≡ true = ground arith in
                      rw (t, z) (ap (λ (j : ℕ). get_or bytes j 0) {x = k} (omega arith)),
                ),
                refl,
                refl,
                refl,
              ))
      | inr part ↦ elim (Bool-cases (ltb 0 ofs)) [
        | inl inside ↦ rw (part, inside) laid
        | inr start ↦
            let e : ltb (length bytes) (512 - ofs) ≡ true = ground arith in rw (part, start, e) laid
      ]
    ]
  where
    sector : List ℕ
    sector = device.sectors idx

    laid : Rewrites device idx ofs bytes (
        Block.read device idx >>= λ r.
        write_bytes r.1 ofs bytes >>= λ bounce. Block.write r.0 idx bounce)
    laid =
        rw
          (
            read_ok device idx within,
            ◌>>=◌,
            write_bytes_ok sector ofs bytes (omega (arith, v.sized idx)),
            ◌>>=◌,
            write_ok (record device { read_cnt = counter device.read_cnt }) idx
                (overwrite sector ofs bytes) within v.native_type,
          )
          (
            record device {
              read_cnt = counter device.read_cnt;
              sectors = store device.sectors idx (overwrite sector ofs bytes);
              write_cnt = counter device.write_cnt;
            },
            overwrite sector ofs bytes,
            refl,
            overwrite-Laid sector ofs bytes (v.sized idx) room,
            refl,
            refl,
            refl,
          )

-- One round, seen in the data: its bytes are those given and all others are kept.
pub rewritten_byte :
    (device device' : Block) (inode : Inode) (offset : ℕ) (bytes new : List ℕ) (p : ℕ)
    → offset % 512 + length bytes ≤ 512
    → Laid (device.sectors (inode.data_.start + offset / 512)) (offset % 512) bytes new
    → device'.sectors ≡ store device.sectors (inode.data_.start + offset / 512) new
    → byte device'.sectors inode p ≡ (
        if in_range offset (length bytes) p
        then get_or bytes (p - offset) 0
        else byte device.sectors inode p)
rewritten_byte device device' inode offset bytes new p room laid e =
    ap (λ (s : ℕ → List ℕ). byte s inode p) e ∙ at (ℕ_discrete (p / 512) (offset / 512))
  where
    at :
        Dec (p / 512 ≡ offset / 512)
        → byte (store device.sectors (inode.data_.start + offset / 512) new) inode p ≡ (
            if in_range offset (length bytes) p
            then get_or bytes (p - offset) 0
            else byte device.sectors inode p)
    at (yes q) =
        let z : (inode.data_.start + p / 512 == inode.data_.start + offset / 512) ≡ true =
          ground arith in
        let t : in_range (offset % 512) (length bytes) (p % 512)
            ≡ in_range offset (length bytes) p =
          ground arith in
        let m : inode.data_.start + offset / 512 ≡ inode.data_.start + p / 512 = omega arith in
        rw z (
          laid.1 (p % 512) (omega arith)
          ∙ rw (t, m)
              (ap
                (λ (x : ℕ).
                  if in_range offset (length bytes) p then x else byte device.sectors inode p)
                (ap (λ (k : ℕ). get_or bytes k 0) {x = p % 512 - offset % 512} (omega arith))))
    at (no ne) =
        let z : (inode.data_.start + p / 512 == inode.data_.start + offset / 512) ≡ false =
          ground arith in
        let t : in_range offset (length bytes) p ≡ false = ground arith in rw (z, t)

-- The bytes of this round, and those of the rounds after it.
pub both_parts :
    (old : ℕ) (f : ℕ → ℕ) (c a offset p : ℕ)
    → c ≤ a
    → (if in_range (offset + c) (a - c) p
        then f (c + (p - (offset + c)))
        else if in_range offset c p
        then f (p - offset)
        else old)
      ≡ (if in_range offset a p then f (p - offset) else old)
both_parts old f c a offset p h = ground arith
