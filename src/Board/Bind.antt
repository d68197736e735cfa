-- ===== src/Board/Bind.antt =====
-- zb_slt_area_get (zepboot/src/zb_flash.c) binds the devices of a row of the slot map.
use zepboot.Base.{ℕ, ◌≡◌, ◌≢◌, refl, ap, true, false, eq→==, ◌∙◌, some, ◌==◌, Bool-cases, inl, inr}
use mathlib.Core.Path.{subst}
use mathlib.Core.Option.{some-injective}
use zepboot.Platform.{Rc, ok, is_ok, null}
use zepboot.Board.{Board, SltArea, ZbSltArea, slot_map_row, bind_devices, zb_slt_area_get}

-- The area is that of the row, and its three devices are there.
pub record IsBound (board : Board) (row : SltArea) (area : ZbSltArea) : Type 0 where
  pub same_slt0 : (area.slt0_offset ≡ row.slt0_offset) × (area.slt0_size ≡ row.slt0_size)
  pub same_slt1 : (area.slt1_offset ≡ row.slt1_offset) × (area.slt1_size ≡ row.slt1_size)
  pub same_swpstat :
      (area.swpstat_offset ≡ row.swpstat_offset) × (area.swpstat_size ≡ row.swpstat_size)
  pub slt0_there :
      (area.slt0_fldev ≡ board.device_get_binding row.slt0_devname) × (area.slt0_fldev ≢ null)
  pub slt1_there :
      (area.slt1_fldev ≡ board.device_get_binding row.slt1_devname) × (area.slt1_fldev ≢ null)
  pub swpstat_there :
      (area.swpstat_fldev ≡ board.device_get_binding row.swpstat_devname)
      × (area.swpstat_fldev ≢ null)

-- What zb_slt_area_get copies from the row.
abbrev with_row : ZbSltArea → SltArea → ZbSltArea
with_row area row = record area {
  slt0_offset = row.slt0_offset;
  slt1_offset = row.slt1_offset;
  swpstat_offset = row.swpstat_offset;
  slt0_size = row.slt0_size;
  slt1_size = row.slt1_size;
  swpstat_size = row.swpstat_size;
}

not_null : (dev : ℕ) → (dev == null) ≡ false → dev ≢ null
not_null dev e p = let bad = eq→== dev null p in cc

bind_devices-IsBound :
    (board : Board) (row : SltArea) (area : ZbSltArea)
    → is_ok (bind_devices board row (with_row area row)).0 ≡ true
    → IsBound board row (bind_devices board row (with_row area row)).1
unfolding bind_devices
bind_devices-IsBound board row area h =
    let dev0 = board.device_get_binding row.slt0_devname in
    let dev1 = board.device_get_binding row.slt1_devname in
    let dev2 = board.device_get_binding row.swpstat_devname in
    elim (Bool-cases (dev0 == null)) [
      | inl e ↦ let bad : false ≡ true = rw (e, bind_devices) at h in cc
      | inr e0 ↦ elim (Bool-cases (dev1 == null)) [
        | inl e ↦ let bad : false ≡ true = rw (e0, e, bind_devices) at h in cc
        | inr e1 ↦ elim (Bool-cases (dev2 == null)) [
          | inl e ↦ let bad : false ≡ true = rw (e0, e1, e, bind_devices) at h in cc
          | inr e2 ↦
              rw (e0, e1, e2, bind_devices)
                (record {
                  same_slt0 = (refl, refl);
                  same_slt1 = (refl, refl);
                  same_swpstat = (refl, refl);
                  slt0_there = (refl, not_null dev0 e0);
                  slt1_there = (refl, not_null dev1 e1);
                  swpstat_there = (refl, not_null dev2 e2);
                })
        ]
      ]
    ]

-- If zb_slt_area_get returns 0 for a row of the slot map, the area is that of the row, and its three
-- devices are there.
pub zb_slt_area_get-IsBound :
    (board : Board) (area : ZbSltArea) (slt_idx : ℕ) (row : SltArea) (r : Rc × ZbSltArea)
    → slot_map_row board board.slot_map slt_idx ≡ some row
    → zb_slt_area_get board area slt_idx ≡ some r
    → r.0 ≡ ok
    → IsBound board row r.1
unfolding zb_slt_area_get
zb_slt_area_get-IsBound board area slt_idx row r found got good =
    let bound = bind_devices board row (with_row area row) in
    let is_r : some bound ≡ some r = rw (found, zb_slt_area_get) at got in
    let same : bound ≡ r = some-injective bound r is_r in
    subst (IsBound board row) (ap (λ x. x.1) same)
      (bind_devices-IsBound board row area (ap (λ x. is_ok x.0) same ∙ ap is_ok good))
