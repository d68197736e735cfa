-- ===== src/Flash/Room.antt =====
-- Writing to erased flash at multiples of eight, whatever the write block size is, and writing a
-- run of bytes in pieces.
use zepboot.Base.{ℕ, ◌+◌, ◌*◌, ◌/◌, ◌%◌, ◌≤◌, ◌<◌, ◌≡◌, inl, inr, arith, List, length}
use zepboot.Platform.{Flash}
use zepboot.Platform.Laws.{FlashLaws, IsBlank, IsBytes, IsBlockSize}
use zepboot.Flash.Write.{CanWrite}

-- The whole write blocks that hold `len` bytes lie in a span of a multiple of eight bytes.
whole_room :
    {w : ℕ} (off len span : ℕ)
    → IsBlockSize w
    → off % 8 ≡ 0
    → span % 8 ≡ 0
    → len ≤ span
    → (room : ℕ) × (off % w ≡ 0) × (room % w ≡ 0) × (room < len + w) × (len ≤ room) × (room ≤ span)
whole_room off len span (inl e) a b h =
    (len, rw e (omega arith), rw e (omega arith), rw e (omega arith), omega arith, omega arith)
whole_room off len span (inr (inl e)) a b h = (
  (len + 1) / 2 * 2,
  rw e (omega arith),
  rw e (omega arith),
  rw e (omega arith),
  omega arith,
  omega arith,
)
whole_room off len span (inr (inr (inl e))) a b h = (
  (len + 3) / 4 * 4,
  rw e (omega arith),
  rw e (omega arith),
  rw e (omega arith),
  omega arith,
  omega arith,
)
whole_room off len span (inr (inr (inr e))) a b h = (
  (len + 7) / 8 * 8,
  rw e (omega arith),
  rw e (omega arith),
  rw e (omega arith),
  omega arith,
  omega arith,
)

module _ {S : Type 0} {fl : Flash S} {page : ℕ} (laws : FlashLaws fl page) where
  open laws use {cell, size}

  -- A span of erased bytes takes the data.
  pub can_write :
      (s : S) (dev off span : ℕ) (bs : List ℕ)
      → off % 8 ≡ 0
      → span % 8 ≡ 0
      → length bs ≤ span
      → off + span ≤ size dev
      → IsBlank (cell s dev) off span
      → IsBytes bs
      → (room : ℕ) × CanWrite laws s dev off bs room
  can_write s dev off span bs a b h fits blank bytes =
      let r = whole_room off (length bs) span (laws.block_size dev) a b h in
      let inside = r.5 in
      (
        r.0,
        record {
          start = r.1;
          whole = r.2;
          least = r.3;
          holds = r.4;
          fits = omega arith;
          blank = λ i p q. blank i p (omega arith);
          bytes = bytes;
        },
      )
