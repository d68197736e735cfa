-- ===== src/Ec256/Digest.antt =====
-- Hashes over flash: the loop of zb_hash_flash (zepboot/src/zb_ec256.c) gives the hash of the whole
-- range.
use zepboot.Base.{
  ℕ, zero, suc, ◌+◌, ◌-◌, ◌≤◌, ◌<◌, ◌≡◌, ◌≢◌, sym, ap, ap₂, ◌∙◌, List, [], ◌++◌, append-nil,
  append_assoc, replicate, add32, sub32, arith, eq→==, ne→==, some,
}
use zepboot.Base.Ranges.{cells}
use native.Mathlib.Decide.{ℕ_discrete}
use zepboot.Platform.{ok, Device, null, Flash}
use zepboot.Platform.Laws.{FlashLaws}
use zepboot.Flash.{zb_flash_align_offset}
use zepboot.Flash.Align.{align_offset_bounds}
use zepboot.TinyCrypt.{TinyCrypt}
use zepboot.Ec256.Blocks.{block_len, block-le, filled, block_read, block-cells, block-rest}
use zepboot.Ec256.{hash_flash_buffer_bytes, hash_loop, zb_hash_flash}

-- sha256.h: an initial state, states that have taken in bytes, and the hash of what was taken in.
pub record IsSha {H : Type 0} (tc : TinyCrypt H) (sha : List ℕ → List ℕ) : Type 0 where
  pub initial : H
  pub after : H → List ℕ → H
  pub taken_in : H → List ℕ
  pub init_lem : tc.sha256_init ≡ some initial
  pub update_lem : (h : H) (bs : List ℕ) → tc.sha256_update h bs ≡ some (after h bs)
  pub final_lem : (h : H) → tc.sha256_final h ≡ some (sha (taken_in h))
  pub initial_taken : taken_in initial ≡ []
  pub after_taken : (h : H) (bs : List ℕ) → taken_in (after h bs) ≡ taken_in h ++ bs

module _ {S H : Type 0} {fl : Flash S} {page : ℕ} (laws : FlashLaws fl page) (tc : TinyCrypt H)
    (sha : List ℕ → List ℕ) (is_sha : IsSha tc sha) where
  open laws use {cell, size}
  open is_sha use {taken_in, after}

  hash_loop_lem :
      (s : S) (dev : Device) (hash : List ℕ) (fuel start len jump : ℕ) (buf : List ℕ) (h : H)
      → dev ≢ null
      → len < fuel
      → jump ≤ len
      → jump ≤ hash_flash_buffer_bytes
      → start + len ≤ size dev
      → hash_loop tc fl s dev hash fuel start len jump buf h
        ≡ (ok, sha (taken_in h ++ cells (cell s dev) (start + jump) (len - jump)))
  unfolding hash_loop
  hash_loop_lem s dev hash zero start len jump buf h present enough q small inside =
      absurd (omega arith)
  hash_loop_lem s dev hash (suc fuel) start len jump buf h present enough q small inside =
      elim (ℕ_discrete len 0) [
        | yes e ↦
            let none_left : len - jump ≡ 0 = omega arith in
            rw (eq→== len 0 e, none_left, is_sha.final_lem h)
              (ap (λ bs. (ok, sha bs)) (sym (append-nil (taken_in h))))
        | no ne ↦
            let f = cell s dev in
            let n = block_len len - jump in
            let block_bytes = cells f (start + jump) n in
            let lt = laws.size-lt dev in
            let read = block_read laws s dev start len jump buf present inside in
            let block = block-cells laws s dev start len jump buf (omega arith) in
            let next : add32 start (block_len len) ≡ start + block_len len = omega arith in
            let rest =
              hash_loop_lem s dev hash fuel (start + block_len len) (len - block_len len) 0
                (filled laws s dev start len jump buf) (after h block_bytes) present (omega arith)
                (omega arith) (omega arith) (omega arith) in
            let all : taken_in (after h block_bytes)
                  ++ cells f (start + block_len len + 0) (len - block_len len - 0)
                ≡ taken_in h ++ cells f (start + jump) (len - jump) =
              ap (λ bs. bs ++ cells f (start + block_len len + 0) (len - block_len len - 0))
                (is_sha.after_taken h block_bytes)
              ∙ append_assoc (taken_in h) block_bytes _
              ∙ ap (λ bs. taken_in h ++ bs)
                  (sym (block-rest laws s dev start len jump buf (omega arith))) in
            rw (ne→== len 0 ne, read, block, is_sha.update_lem h block_bytes, next)
              (rw read (rest ∙ ap (λ bs. (ok, sha bs)) all))
      ]

  -- If the range is inside a device that is there, and the functions of the hash take in bytes piece by
  -- piece, zb_hash_flash returns 0 and gives the hash of the bytes of the range.
  pub zb_hash_flash-whole :
      (s : S) (hash : List ℕ) (dev : Device) (off len : ℕ)
      → dev ≢ null
      → off + len ≤ size dev
      → zb_hash_flash tc fl s hash dev off len ≡ (ok, sha (cells (cell s dev) off len))
  unfolding zb_hash_flash
  zb_hash_flash-whole s hash dev off len present inside =
      let lt = laws.size-lt dev in
      let start = zb_flash_align_offset fl dev off in
      let bounds = align_offset_bounds fl dev (laws.block_size dev) off (omega arith) in
      let least = bounds.1 in
      let near = bounds.2 in
      let small = block-le (laws.block_size dev) in
      let jump = off - start in
      let jumped : sub32 off start ≡ jump = omega arith in
      let length : add32 len jump ≡ len + jump = omega arith in
      let loop =
        hash_loop_lem s dev hash (len + jump + 1) start (len + jump) jump
          (replicate hash_flash_buffer_bytes 0) is_sha.initial present (omega arith) (omega arith)
          (omega arith) (omega arith) in
      let there : start + jump ≡ off = omega arith in
      let left : len + jump - jump ≡ len = omega arith in
      rw (is_sha.init_lem, jumped, length)
        (loop
          ∙ ap (λ bs. (ok, sha (bs ++ cells (cell s dev) (start + jump) (len + jump - jump))))
              is_sha.initial_taken
          ∙ ap₂ (λ o k. (ok, sha (cells (cell s dev) o k))) there left)
