-- ===== src/Flash/Align.antt =====
-- Rounding to whole write blocks: zb_flash_align_size and zb_flash_align_offset.
use zepboot.Base.{
  ℕ, ◌+◌, ◌-◌, ◌%◌, ◌^◌, ◌≤◌, ◌<◌, ◌≡◌, ◌∙◌, inl, inr, arith, bit_and, not_below, add32,
}
use zepboot.Base.Bits.{bit_and-mask_one, bit_and-mask_two, bit_and-mask_four, bit_and-mask_eight}
use zepboot.Platform.{Device, Flash}
use zepboot.Platform.Laws.{IsBlockSize}
use zepboot.Flash.{zb_flash_align_size, zb_flash_align_offset}

minus-mod_one : (a : ℕ) → a ≡ a - a % 1
minus-mod_one a = omega arith

-- `a & ~(w - 1)` takes away the bytes beyond the last whole block.
pub bit_and-not_below :
    {w : ℕ} (a : ℕ) → IsBlockSize w → a < 2 ^ 32 → bit_and a (not_below w) ≡ a - a % w
bit_and-not_below a (inl e) h = rw e (bit_and-mask_one a h ∙ minus-mod_one a)
bit_and-not_below a (inr (inl e)) h = rw e (bit_and-mask_two a h)
bit_and-not_below a (inr (inr (inl e))) h = rw e (bit_and-mask_four a h)
bit_and-not_below a (inr (inr (inr e))) h = rw e (bit_and-mask_eight a h)

-- The facts on remainders that the block sizes have.
pub minus-mod_lem :
    {w : ℕ} (a : ℕ)
    → IsBlockSize w
    → ((a - a % w) % w ≡ 0) × (a % w < w) × (a % w ≤ a) × (0 < w) × (w ≤ 8)
minus-mod_lem a (inl e) = rw e (omega arith)
minus-mod_lem a (inr (inl e)) = rw e (omega arith)
minus-mod_lem a (inr (inr (inl e))) = rw e (omega arith)
minus-mod_lem a (inr (inr (inr e))) = rw e (omega arith)

pub mod_self : {w : ℕ} → IsBlockSize w → w % w ≡ 0
mod_self (inl e) = rw e (omega arith)
mod_self (inr (inl e)) = rw e (omega arith)
mod_self (inr (inr (inl e))) = rw e (omega arith)
mod_self (inr (inr (inr e))) = rw e (omega arith)

-- The least number of whole blocks that holds `len` bytes.
pub room_lem :
    {w : ℕ} (room len : ℕ)
    → IsBlockSize w
    → room % w ≡ 0
    → len ≤ room
    → room < len + w
    → (len % w ≡ 0 → room ≡ len) × (0 < len % w → room ≡ len - len % w + w)
room_lem room len (inl e) h = let h' = (rw e at h) in rw e (omega arith)
room_lem room len (inr (inl e)) h = let h' = (rw e at h) in rw e (omega arith)
room_lem room len (inr (inr (inl e))) h = let h' = (rw e at h) in rw e (omega arith)
room_lem room len (inr (inr (inr e))) h = let h' = (rw e at h) in rw e (omega arith)

pub add-mod_zero : {w : ℕ} (a b : ℕ) → IsBlockSize w → a % w ≡ 0 → b % w ≡ 0 → (a + b) % w ≡ 0
add-mod_zero a b (inl e) p q = rw e (omega arith)
add-mod_zero a b (inr (inl e)) p q =
    let p' : a % 2 ≡ 0 = rw e at p in let q' : b % 2 ≡ 0 = rw e at q in rw e (omega arith)
add-mod_zero a b (inr (inr (inl e))) p q =
    let p' : a % 4 ≡ 0 = rw e at p in let q' : b % 4 ≡ 0 = rw e at q in rw e (omega arith)
add-mod_zero a b (inr (inr (inr e))) p q =
    let p' : a % 8 ≡ 0 = rw e at p in let q' : b % 8 ≡ 0 = rw e at q in rw e (omega arith)

module _ {S : Type 0} (fl : Flash S) (dev : Device)
    (block : IsBlockSize (fl.write_block_size dev)) where
  open fl use {write_block_size}

  -- zb_flash_align_size is the least multiple of the write block size that is no less than the
  -- length, if the length and a block are together at most 2 ^ 32.
  pub align_size_bounds :
      (len : ℕ)
      → len + write_block_size dev ≤ 2 ^ 32
      → (zb_flash_align_size fl dev len % write_block_size dev ≡ 0)
        × (len ≤ zb_flash_align_size fl dev len)
        × (zb_flash_align_size fl dev len < len + write_block_size dev)
  unfolding zb_flash_align_size
  align_size_bounds len h = ground (
    arith,
    minus-mod_lem len block,
    minus-mod_lem (len + (write_block_size dev - 1)) block,
    bit_and-not_below (add32 len (write_block_size dev - 1)) block,
  )

  -- zb_flash_align_offset gives the start of the write block that holds the offset.
  pub align_offset_bounds :
      (off : ℕ)
      → off < 2 ^ 32
      → (zb_flash_align_offset fl dev off % write_block_size dev ≡ 0)
        × (zb_flash_align_offset fl dev off ≤ off)
        × (off < zb_flash_align_offset fl dev off + write_block_size dev)
  unfolding zb_flash_align_offset
  align_offset_bounds off h = ground (arith, minus-mod_lem off block, bit_and-not_below off block)
