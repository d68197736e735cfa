-- ===== src/Ec256/Checksum.antt =====
-- Checksums over flash: the loop of zb_crc32_flash (zepboot/src/zb_ec256.c) reads block by block from
-- the start of a write block, and gives the checksum of the whole range.
use zepboot.Base.{
  ℕ, zero, suc, ◌+◌, ◌-◌, ◌≤◌, ◌<◌, ◌≡◌, refl, sym, ap, ap₂, ◌∙◌, List, [], ◌++◌, append-nil, add32,
  sub32, arith, eq→==, ne→==, ◌≢◌, replicate,
}
use zepboot.Base.Ranges.{cells}
use native.Mathlib.Decide.{ℕ_discrete}
use zepboot.Platform.{ok, Device, null, Flash, Checksums}
use zepboot.Platform.Laws.{FlashLaws}
use zepboot.Flash.{zb_flash_align_offset}
use zepboot.Flash.Align.{align_offset_bounds}
use zepboot.Ec256.Blocks.{block_len, block-le, filled, block_read, block-cells, block-rest}
use zepboot.Ec256.{hash_flash_buffer_bytes, crc32_loop, zb_crc32_flash}

-- A checksum can be computed in pieces.
pub record IsRunning (sums : Checksums) : Type 0 where
  pub update-nil : sums.crc32_ieee_update 0 [] ≡ 0
  pub update-append :
      (c : ℕ) (xs ys : List ℕ)
      → sums.crc32_ieee_update c (xs ++ ys)
        ≡ sums.crc32_ieee_update (sums.crc32_ieee_update c xs) ys

module _ {S : Type 0} {fl : Flash S} {page : ℕ} (laws : FlashLaws fl page) (sums : Checksums)
    (running : IsRunning sums) where
  open laws use {cell, size}
  open sums use {crc32_ieee_update}

  crc32_loop_lem :
      (s : S) (dev : Device) (crc32 fuel start len jump : ℕ) (buf : List ℕ) (crc : ℕ)
      → crc32_ieee_update crc [] ≡ crc
      → dev ≢ null
      → len < fuel
      → jump ≤ len
      → jump ≤ hash_flash_buffer_bytes
      → start + len ≤ size dev
      → crc32_loop fl sums s dev crc32 fuel start len jump buf crc
        ≡ (ok, crc32_ieee_update crc (cells (cell s dev) (start + jump) (len - jump)))
  unfolding crc32_loop
  crc32_loop_lem s dev crc32 zero start len jump buf crc nil present enough h small inside =
      absurd (omega arith)
  crc32_loop_lem s dev crc32 (suc fuel) start len jump buf crc nil present enough h small inside =
      elim (ℕ_discrete len 0) [
        | yes e ↦
            let none_left : len - jump ≡ 0 = omega arith in rw (eq→== len 0 e, none_left, nil) refl
        | no ne ↦
            let f = cell s dev in
            let n = block_len len - jump in
            let crc' = crc32_ieee_update crc (cells f (start + jump) n) in
            let nil' : crc32_ieee_update crc' [] ≡ crc' =
              sym (running.update-append crc (cells f (start + jump) n) [])
              ∙ ap (crc32_ieee_update crc) (append-nil (cells f (start + jump) n)) in
            let lt = laws.size-lt dev in
            let read = block_read laws s dev start len jump buf present inside in
            let block = block-cells laws s dev start len jump buf (omega arith) in
            let next : add32 start (block_len len) ≡ start + block_len len = omega arith in
            let rest =
              crc32_loop_lem s dev crc32 fuel (start + block_len len) (len - block_len len) 0
                (filled laws s dev start len jump buf) crc' nil' present (omega arith) (omega arith)
                (omega arith) (omega arith) in
            let sum =
              ap (crc32_ieee_update crc) (block-rest laws s dev start len jump buf (omega arith))
              ∙ running.update-append crc _ _ in
            rw (ne→== len 0 ne, read, block, next, sum) rest
      ]

  -- If the range is inside a device that is there, and the checksum can be computed in pieces,
  -- zb_crc32_flash returns 0 and gives the checksum of the bytes of the range.
  pub zb_crc32_flash-whole :
      (s : S) (dev : Device) (crc32 off len : ℕ)
      → dev ≢ null
      → off + len ≤ size dev
      → zb_crc32_flash fl sums s crc32 dev off len
        ≡ (ok, crc32_ieee_update 0 (cells (cell s dev) off len))
  unfolding zb_crc32_flash
  zb_crc32_flash-whole s dev crc32 off len present inside =
      let lt = laws.size-lt dev in
      let start = zb_flash_align_offset fl dev off in
      let bounds = align_offset_bounds fl dev (laws.block_size dev) off (omega arith) in
      let least = bounds.1 in
      let near = bounds.2 in
      let small = block-le (laws.block_size dev) in
      let jump = off - start in
      let jumped : sub32 off start ≡ jump = omega arith in
      let length : add32 len jump ≡ len + jump = omega arith in
      let loop =
        crc32_loop_lem s dev crc32 (len + jump + 1) start (len + jump) jump
          (replicate hash_flash_buffer_bytes 0) 0 running.update-nil present (omega arith)
          (omega arith) (omega arith) (omega arith) in
      let there : start + jump ≡ off = omega arith in
      let left : len + jump - jump ≡ len = omega arith in
      rw (jumped, length)
        (loop ∙ ap₂ (λ o k. (ok, crc32_ieee_update 0 (cells (cell s dev) o k))) there left)
