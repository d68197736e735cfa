-- ===== src/Board.antt =====
-- What a build configures: the sizes of zepboot/include/zb_flash.h and its slot areas
-- (bootloader/src/slotmap.c), and the slot area functions of zepboot/src/zb_flash.c.
pub mod Bind
mod Tests
use Prim.Native.String.{String}
use zepboot.Base.{
  ℕ, zero, suc, Bool, ◌&&◌, Option, none, some, List, [], ◌∷◌, length, ltb, leb, ◌==◌,
  if◌then◌else◌, add32, u8,
}
use zepboot.Platform.{Rc, ok, enxio, Device, null}

-- `struct slt_area`: one row of the slot map.
pub record SltArea : Type 0 where
  pub slt0_offset : ℕ
  pub slt1_offset : ℕ
  pub swpstat_offset : ℕ
  pub slt0_size : ℕ
  pub slt1_size : ℕ
  pub swpstat_size : ℕ
  pub slt0_devname : String
  pub slt1_devname : String
  pub swpstat_devname : String

-- `struct zb_slt_area`: a row with its devices bound.
pub record ZbSltArea : Type 0 where
  pub slt0_offset : ℕ
  pub slt1_offset : ℕ
  pub swpstat_offset : ℕ
  pub slt0_size : ℕ
  pub slt1_size : ℕ
  pub swpstat_size : ℕ
  pub slt0_fldev : Device
  pub slt1_fldev : Device
  pub swpstat_fldev : Device

-- DT_FLASH_ERASE_BLOCK_SIZE, DT_SRAM_BASE_ADDRESS, DT_SRAM_SIZE, the slot map, and Zephyr's
-- `device_get_binding`.
pub record Board : Type 0 where
  pub sector_size : ℕ
  pub sram_base : ℕ
  pub sram_size : ℕ
  pub slot_map : List SltArea
  pub device_get_binding : String → Device

module _ (board : Board) where
  open board use {sram_base, sram_size, slot_map, device_get_binding}

  -- `slot_map_cnt` as a `u8_t`
  unfoldable pub zb_slt_area_cnt : ℕ
  zb_slt_area_cnt = u8 (length slot_map)

  -- `slot_map[slt_idx]`, `none` beyond the end of the array
  abbrev pub slot_map_row : List SltArea → ℕ → Option SltArea
  slot_map_row [] i = none
  slot_map_row (row ∷ rows) zero = some row
  slot_map_row (row ∷ rows) (suc i) = slot_map_row rows i

  bind_devices : SltArea → ZbSltArea → Rc × ZbSltArea
  bind_devices row area =
      let dev0 = device_get_binding row.slt0_devname in
      let area0 = record area { slt0_fldev = dev0 } in
      if dev0 == null
      then (enxio, area0)
      else (let dev1 = device_get_binding row.slt1_devname in
          let area1 = record area0 { slt1_fldev = dev1 } in
          if dev1 == null
          then (enxio, area1)
          else (let dev2 = device_get_binding row.swpstat_devname in
              let area2 = record area1 { swpstat_fldev = dev2 } in
              if dev2 == null then (enxio, area2) else (ok, area2)))

  -- `area` is what `*area` held before; `none` is a read beyond the slot map.
  unfoldable pub zb_slt_area_get : ZbSltArea → ℕ → Option (Rc × ZbSltArea)
  unfolding bind_devices
  zb_slt_area_get area slt_idx = elim (slot_map_row slot_map slt_idx) [
    | none ↦ none
    | some row ↦ some (
        bind_devices row (record area {
          slt0_offset = row.slt0_offset;
          slt1_offset = row.slt1_offset;
          swpstat_offset = row.swpstat_offset;
          slt0_size = row.slt0_size;
          slt1_size = row.slt1_size;
          swpstat_size = row.swpstat_size;
        }))
  ]

  unfoldable pub zb_in_ram : ℕ → Bool
  zb_in_ram address = leb sram_base address && ltb address (add32 sram_base sram_size)

unfoldable pub zb_in_slt_area : ZbSltArea → ℕ → ℕ → Bool
zb_in_slt_area area slt address =
    if slt == 1
    then leb area.slt1_offset address && ltb address (add32 area.slt1_offset area.slt1_size)
    else leb area.slt0_offset address && ltb address (add32 area.slt0_offset area.slt0_size)
