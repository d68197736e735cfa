-- ===== src/Platform.antt =====
-- What the boot loader takes from Zephyr and TinyCrypt: the flash driver, the checksums and the
-- ciphers, none of them code of the repository, and the numbers that its build configures
-- (DT_* and SECTOR_SIZE of zepboot/include/zb_flash.h).
pub mod Laws
pub mod Memory
pub mod Example
pub mod Sim
use zepboot.Base.{ℕ, List, Bool, true, false}

-- An `int` that a function returns: 0, or one of the negative errors. `driver n` is any other
-- negative value, such as a flash driver's -EIO. `stuck` is no value of the code: it says that
-- a loop of the model ran out of fuel.
pub data Rc : Type 0 where
  ok enxio enoent enospc efault enotsup stuck : Rc
  driver : ℕ → Rc

-- `!rc`
abbrev pub is_ok : Rc → Bool
is_ok Rc.ok = true
is_ok _ = false

-- A `struct device *`: an address, 0 for NULL.
abbrev pub Device : Type 0
Device = ℕ

abbrev pub null : Device
null = 0

-- flash.h, over the states `S` of the flash chips. `read s dev off len buf` returns the contents
-- of the buffer after the call, which held `buf`; a write gives the bytes, an erase the length.
pub record Flash (S : Type 0) : Type 0 where
  pub write_block_size : Device → ℕ
  pub read : S → Device → ℕ → ℕ → List ℕ → Rc × List ℕ
  pub write : S → Device → ℕ → List ℕ → Rc × S
  pub erase : S → Device → ℕ → ℕ → Rc × S
  pub write_protection_set : S → Device → Bool → Rc × S

-- crc.h, with the initial value or the checksum so far as the first argument.
pub record Checksums : Type 0 where
  pub crc8_ccitt : ℕ → List ℕ → ℕ
  pub crc32_ieee_update : ℕ → List ℕ → ℕ
