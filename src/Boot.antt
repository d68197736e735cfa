-- ===== src/Boot.antt =====
-- The boot loader: `main` of bootloader/src/main.c. The jump of do_boot is the outcome `boots`.
pub mod Tested
pub mod First
mod Tests
use zepboot.Base.{
  ℕ, zero, suc, true, false, not, ◌&&◌, ◌||◌, Option, none, some, ◌==◌, if◌then◌else◌,
}
use zepboot.Platform.{Rc, ok, efault, is_ok, Flash, Checksums}
use zepboot.Board.{Board, ZbSltArea, zb_slt_area_cnt, zb_slt_area_get, zb_in_ram, zb_in_slt_area}
use zepboot.Cmd.{zb_cmd_read_slt1end}
use zepboot.Prm.{ZbPrm, zb_prm_read}
use zepboot.TinyCrypt.{TinyCrypt}
use zepboot.Image.{ImgInfo, zb_img_get_info_nsc, zb_img_calc_crc32}
use zepboot.Move.{Memory, zb_img_ram_move}
use zepboot.Swap.{SwapLocals, cmd1_mask_bt0_request}
use zepboot.Swap.Request.{zb_img_swap}

pub data Outcome : Type 0 where
  boots : ℕ → Outcome
  nothing_valid : Rc → Outcome

-- The code, the area that was set last, and the memory.
pub record Booting (S : Type 0) : Type 0 where
  pub rc : Rc
  pub area : ZbSltArea
  pub memory : Memory S

module _ {S H : Type 0} (fl : Flash S) (sums : Checksums) (tc : TinyCrypt H) (board : Board)
    (mine : SwapLocals) where
  open mine use {locals}

  -- `while ((cnt--) > 0)`: each area, from the last one down to slot_map[0]. `none` if a swap has
  -- not ended after `fuel` turns.
  unfoldable pub swap_loop : ℕ → ℕ → Booting S → Option (Booting S)
  swap_loop fuel zero b = some b
  swap_loop fuel (suc cnt) b = elim (zb_slt_area_get board b.area cnt) [
    | none ↦ none
    | some (rc, area) ↦ elim (is_ok rc) [
      | false ↦ swap_loop fuel cnt (record b { rc = rc; area = area })
      | true ↦ elim (zb_img_swap fl sums tc board mine area fuel b.memory.flash) [
        | none ↦ none
        | some (rc', s) ↦
            swap_loop fuel cnt
              (record { rc = rc'; area = area; memory = record b.memory { flash = s } })
      ]
    ]
  ]

  -- The image in a slot, and its crc32, in place of what `info` and `crc32` hold.
  pub image_crc32 : S → ZbSltArea → ℕ → ImgInfo × ℕ → ImgInfo × ℕ
  image_crc32 s area slt (info0, crc0) =
      let info = zb_img_get_info_nsc fl tc locals s info0 area slt 0 false in
      (info, (zb_img_calc_crc32 fl sums s info crc0).1)

  -- The address to load, and `info` and `crc32`: the address is that of the second image on
  -- request, or when the first image is in slot 1 and has another crc32 than the parameters say.
  unfoldable pub load_address : S → ZbSltArea → ZbPrm → ℕ × ImgInfo × ℕ
  unfolding image_crc32
  load_address s area prm =
      let cmd = (zb_cmd_read_slt1end fl sums board s area mine.cmd).1 in
      let address =
        if cmd.cmd1 == cmd1_mask_bt0_request then prm.sec_ld_address else prm.pri_ld_address in
      let (info, crc32) = image_crc32 s area 1 (locals.info, locals.crc32) in
      if zb_in_slt_area area 1 address
      then (if prm.slt1_crc32 == crc32 then address else prm.sec_ld_address, info, crc32)
      else (address, locals.info, locals.crc32)

  -- The test of the image in slot 0, and its move to RAM.
  unfoldable pub prepare : Memory S → ZbSltArea → ZbPrm → ℕ × ImgInfo × ℕ → Rc × Memory S
  unfolding image_crc32
  prepare m area prm (address, info0, crc0) =
      let (info, crc32) = image_crc32 m.flash area 0 (info0, crc0) in
      let rc = if prm.slt0_crc32 == crc32 then ok else efault in
      if zb_in_slt_area area 0 address || zb_in_ram board address
      then (if is_ok rc && zb_in_ram board address
          then zb_img_ram_move fl tc mine.buf m mine.mcmd info
          else (rc, m))
      else (ok, m)

  -- What follows the loop.
  unfoldable pub boot : Booting S → Outcome × Memory S
  boot b =
      let (rc, prm) = zb_prm_read fl board b.memory.flash b.area locals.prm in
      let chosen = load_address b.memory.flash b.area prm in
      let (rc', m) = prepare b.memory b.area prm chosen in
      if not (is_ok b.rc)
      then (nothing_valid b.rc, b.memory)
      else (if not (is_ok rc)
          then (nothing_valid rc, b.memory)
          else (if is_ok rc' then (boots chosen.0, m) else (nothing_valid rc', m)))

  -- `area` is what the local variable holds at first.
  unfoldable pub main : ℕ → ZbSltArea → Memory S → Option (Outcome × Memory S)
  main fuel area m =
      elim (swap_loop fuel (zb_slt_area_cnt board) (record { rc = ok; area = area; memory = m })) [
        | none ↦ none
        | some b ↦ some (boot b)
      ]
