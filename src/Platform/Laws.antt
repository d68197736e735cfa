-- ===== src/Platform/Laws.antt =====
-- What flash.h documents of a driver: inside a device, reads succeed; after write protection is
-- taken off, a write of whole blocks to erased cells and an erase of whole pages succeed, and
-- change the cells they name and no others.
use zepboot.Base.{
  ℕ, ◌+◌, ◌-◌, ◌%◌, ◌^◌, ◌≤◌, ◌<◌, ◌≡◌, ◌⊎◌, Bool, true, false, ◌&&◌, List, ◌++◌, length, drop,
  byte_at, ltb, leb, ◌==◌, if◌then◌else◌,
}
use zepboot.Base.Ranges.{cells}
use zepboot.Platform.{ok, Device, Flash}

-- Writing `bs` at `off` of a device, over a memory of bytes.
abbrev pub written : (Device → ℕ → ℕ) → Device → ℕ → List ℕ → Device → ℕ → ℕ
written mem dev off bs e i =
    if e == dev && leb off i && ltb i (off + length bs) then byte_at bs (i - off) else mem e i

-- The cells of a run set to 0xff.
abbrev pub blanked : (Device → ℕ → ℕ) → Device → ℕ → ℕ → Device → ℕ → ℕ
blanked mem dev off len e i = if e == dev && leb off i && ltb i (off + len) then 0xff else mem e i

-- A run of erased cells.
abbrev pub IsBlank : (ℕ → ℕ) → ℕ → ℕ → Type 0
IsBlank mem off len = (i : ℕ) → off ≤ i → i < off + len → mem i ≡ 0xff

abbrev pub IsBytes : List ℕ → Type 0
IsBytes bs = (i : ℕ) → i < length bs → byte_at bs i < 2 ^ 8

-- The write block sizes that occur below ALIGN_BUF_SIZE.
abbrev pub IsBlockSize : ℕ → Type 0
IsBlockSize w = (w ≡ 1) ⊎ (w ≡ 2) ⊎ (w ≡ 4) ⊎ (w ≡ 8)

-- `page` is the erase page size, which the boot loader knows as SECTOR_SIZE.
pub record FlashLaws {S : Type 0} (fl : Flash S) (page : ℕ) : Type 0 where
  pub cell : S → Device → ℕ → ℕ
  pub unlocked : S → Device → Bool
  pub size : Device → ℕ
  pub page_pos : 0 < page
  pub size-lt : (dev : Device) → size dev < 2 ^ 31
  pub block_size : (dev : Device) → IsBlockSize (fl.write_block_size dev)
  pub cell-lt : (s : S) (dev : Device) (i : ℕ) → cell s dev i < 2 ^ 8
  pub read_lem :
      (s : S) (dev : Device) (off len : ℕ) (buf : List ℕ)
      → off + len ≤ size dev
      → fl.read s dev off len buf ≡ (ok, cells (cell s dev) off len ++ drop len buf)
  pub protect-ok : (s : S) (dev : Device) (on : Bool) → (fl.write_protection_set s dev on).0 ≡ ok
  pub protect-unlocks :
      (s : S) (dev : Device) → unlocked (fl.write_protection_set s dev false).1 dev ≡ true
  pub cell-protect :
      (s : S) (dev : Device) (on : Bool) (e : Device) (i : ℕ)
      → cell (fl.write_protection_set s dev on).1 e i ≡ cell s e i
  pub write-ok :
      (s : S) (dev : Device) (off : ℕ) (bs : List ℕ)
      → unlocked s dev ≡ true
      → off % fl.write_block_size dev ≡ 0
      → length bs % fl.write_block_size dev ≡ 0
      → off + length bs ≤ size dev
      → IsBlank (cell s dev) off (length bs)
      → IsBytes bs
      → (fl.write s dev off bs).0 ≡ ok
  pub cell-write :
      (s : S) (dev : Device) (off : ℕ) (bs : List ℕ) (e : Device) (i : ℕ)
      → (fl.write s dev off bs).0 ≡ ok
      → cell (fl.write s dev off bs).1 e i ≡ written (cell s) dev off bs e i
  pub unlocked-write :
      (s : S) (dev : Device) (off : ℕ) (bs : List ℕ)
      → unlocked s dev ≡ true
      → unlocked (fl.write s dev off bs).1 dev ≡ true
  pub erase-ok :
      (s : S) (dev : Device) (off len : ℕ)
      → unlocked s dev ≡ true
      → off % page ≡ 0
      → len % page ≡ 0
      → off + len ≤ size dev
      → (fl.erase s dev off len).0 ≡ ok
  pub cell-erase :
      (s : S) (dev : Device) (off len : ℕ) (e : Device) (i : ℕ)
      → (fl.erase s dev off len).0 ≡ ok
      → cell (fl.erase s dev off len).1 e i ≡ blanked (cell s) dev off len e i
