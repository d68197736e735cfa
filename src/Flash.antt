-- ===== src/Flash.antt =====
-- The flash access of zepboot/src/zb_flash.c: rounding to write blocks, erase, write with
-- padding of the last block, and read.
pub mod Align
pub mod Write
pub mod Room
mod Tests
use zepboot.Base.{
  ℕ, ◌-◌, ◌%◌, ◌+◌, ◌≡◌, Bool, true, false, List, [], ◌++◌, length, take, drop, replicate, bit_and,
  ltb, leb, ◌==◌, if◌then◌else◌, add32, sub32, not_below,
}
use zepboot.Platform.{Rc, ok, enxio, is_ok, Device, null, Flash}

module _ {S : Type 0} (fl : Flash S) where
  unfoldable pub zb_flash_align_size : Device → ℕ → ℕ
  zb_flash_align_size flash_dev len =
      let write_block_size = fl.write_block_size flash_dev in
      if leb write_block_size 1
      then len
      else bit_and (add32 len (write_block_size - 1)) (not_below write_block_size)

  unfoldable pub zb_flash_align_offset : Device → ℕ → ℕ
  zb_flash_align_offset flash_dev offset =
      let write_block_size = fl.write_block_size flash_dev in
      if leb write_block_size 1 then offset else bit_and offset (not_below write_block_size)

  -- The state beside the code is what the flash holds when the function returns.
  unfoldable pub zb_flash_erase : S → Device → ℕ → ℕ → Rc × S
  zb_flash_erase s flash_dev offset len =
      if flash_dev == null
      then (enxio, s)
      else (let (rc, s₁) = fl.write_protection_set s flash_dev false in
          if is_ok rc
          then (let (rc', s₂) = fl.erase s₁ flash_dev offset len in
              if is_ok rc' then (ok, (fl.write_protection_set s₂ flash_dev true).1) else (rc', s₂))
          else (rc, s₁))

  -- `buf[0 .. write_block_size)` with the rest of the data and 0xff behind it.
  abbrev pub padded : List ℕ → ℕ → List ℕ
  padded rest write_block_size = rest ++ replicate (write_block_size - length rest) 0xff

  -- From `if (len)` on: the last block, and the label `end`.
  write_tail : S → Device → ℕ → List ℕ → Rc × S
  write_tail s flash_dev offset rest =
      if length rest == 0
      then (ok, lock s)
      else (let (rc, s₁) =
            fl.write s flash_dev offset (padded rest (fl.write_block_size flash_dev)) in
          (rc, lock s₁))
    where
      lock : S → S
      lock t = (fl.write_protection_set t flash_dev true).1

  -- From the write block size on, with the write protection taken off: the whole blocks first.
  write_blocks : S → Device → ℕ → List ℕ → Rc × S
  unfolding write_tail
  write_blocks s flash_dev offset bytes =
      let blen = bit_and (length bytes) (not_below (fl.write_block_size flash_dev)) in
      if ltb 0 blen
      then (let (rc, s₁) = fl.write s flash_dev offset (take blen bytes) in
          if is_ok rc
          then write_tail s₁ flash_dev (add32 offset blen) (drop blen bytes)
          else (rc, (fl.write_protection_set s₁ flash_dev true).1))
      else write_tail s flash_dev offset bytes

  -- `bytes` is `data[0 .. len)`.
  unfoldable pub zb_flash_write : S → Device → ℕ → List ℕ → Rc × S
  unfolding write_blocks
  zb_flash_write s flash_dev offset bytes =
      if flash_dev == null
      then (enxio, s)
      else (let (rc, s₁) = fl.write_protection_set s flash_dev false in
          if is_ok rc then write_blocks s₁ flash_dev offset bytes else (rc, s₁))

  -- `buf` is what the buffer held before; the list returned is what it holds afterwards.
  unfoldable pub zb_flash_read : S → Device → ℕ → ℕ → List ℕ → Rc × List ℕ
  zb_flash_read s flash_dev offset len buf =
      if flash_dev == null then (enxio, buf) else fl.read s flash_dev offset len buf
