-- ===== src/Ec256/Blocks.antt =====
-- Reading flash block by block, from the start of a write block on: the loops of zb_hash_flash and
-- zb_crc32_flash in zepboot/src/zb_ec256.c.
use zepboot.Base.{
  ℕ, zero, suc, ◌+◌, ◌-◌, ◌≤◌, ◌≡◌, ◌≢◌, ◌∙◌, ap, ap₂, List, ◌++◌, take, drop, min, arith,
  take-append, inl, inr,
}
use zepboot.Base.Ranges.{cells, length-cells, cells-add}
use mathlib.Core.Path.{subst}
use zepboot.Platform.{ok, Device, null, Flash}
use zepboot.Platform.Laws.{FlashLaws, IsBlockSize}
use zepboot.Flash.{zb_flash_read}
use zepboot.Flash.Write.{zb_flash_read-lem}
use zepboot.Ec256.{hash_flash_buffer_bytes}

-- The part of a block behind a jump.
behind_jump :
    (f : ℕ → ℕ) (start jump n : ℕ) (rest : List ℕ)
    → take n (drop jump (cells f start (jump + n) ++ rest)) ≡ cells f (start + jump) n
behind_jump f start zero n rest =
    let e : 0 + n ≡ n = omega arith in
    let e' : start + 0 ≡ start = omega arith in
    rw (e, e')
      (subst (λ k. take k (cells f start n ++ rest) ≡ cells f start n) (length-cells f start n)
        (take-append (cells f start n) rest))
behind_jump f start (suc jump) n rest =
    let e : suc jump + n ≡ suc (jump + n) = omega arith in
    let e' : start + suc jump ≡ start + 1 + jump = omega arith in
    rw (e, e') (behind_jump f (start + 1) jump n rest)

-- Write blocks are small.
pub block-le : {w : ℕ} → IsBlockSize w → w ≤ 8
block-le (inl e) = omega arith
block-le (inr (inl e)) = omega arith
block-le (inr (inr (inl e))) = omega arith
block-le (inr (inr (inr e))) = omega arith

-- The length of a block, and the buffer with it.
abbrev pub block_len : ℕ → ℕ
block_len len = min hash_flash_buffer_bytes len

module _ {S : Type 0} {fl : Flash S} {page : ℕ} (laws : FlashLaws fl page) (s : S) (dev : Device)
    (start len jump : ℕ) (buf : List ℕ) where
  open laws use {cell, size}

  abbrev pub filled : List ℕ
  filled = cells (cell s dev) start (block_len len) ++ drop (block_len len) buf

  pub block_read :
      dev ≢ null
      → start + len ≤ size dev
      → zb_flash_read fl s dev start (block_len len) buf ≡ (ok, filled)
  block_read present inside =
      zb_flash_read-lem laws s dev start (block_len len) buf present (ground arith)

  -- What the block adds.
  pub block-cells :
      jump ≤ block_len len
      → take (block_len len - jump) (drop jump filled)
        ≡ cells (cell s dev) (start + jump) (block_len len - jump)
  block-cells h =
      let n = block_len len - jump in
      let whole : jump + n ≡ block_len len = omega arith in
      subst
        (λ k.
          take n (drop jump (cells (cell s dev) start k ++ drop (block_len len) buf))
          ≡ cells (cell s dev) (start + jump) n)
        whole (behind_jump (cell s dev) start jump n (drop (block_len len) buf))

  -- The block, and what is behind it.
  pub block-rest :
      jump ≤ block_len len
      → cells (cell s dev) (start + jump) (len - jump)
        ≡ cells (cell s dev) (start + jump) (block_len len - jump)
          ++ cells (cell s dev) (start + block_len len + 0) (len - block_len len - 0)
  block-rest h =
      let f = cell s dev in
      let n = block_len len - jump in
      let all : len - jump ≡ n + (len - block_len len) = ground arith in
      ap (cells f (start + jump)) all
      ∙ cells-add f (start + jump) n (len - block_len len)
      ∙ ap₂ (λ o k. cells f (start + jump) n ++ cells f o k) (omega arith) (omega arith)
