-- ===== src/Swap.antt =====
-- The swap of images: the state machine of zepboot/src/zb_move.c, whose state is the last command
-- of the swap status area.
pub mod Proc
pub mod Request
pub mod Steps
pub mod Order
pub mod Sector
pub mod Slots
pub mod Transfers
pub mod Lift
pub mod Content
pub mod Reach
pub mod Halfway
pub mod Turns
pub mod Exchange
pub mod Torn
pub mod Restart
pub mod Cause
pub mod InPlace
pub mod End
pub mod Endless
pub mod Frame
pub mod Ends
pub mod Stable
pub mod Layout
pub mod Kept
pub mod Whole
pub mod Classic
pub mod Complete
pub mod Full
pub mod Stays
pub mod Settle
pub mod Begin
pub mod Begun
pub mod Requested
pub mod Undone
pub mod Loop
pub mod Record
pub mod Finish
pub mod Example
pub mod TwoImages
mod Tests
mod WholeTests
mod FullTests
mod SettleTests
use zepboot.Base.{
  ℕ, zero, suc, ◌+◌, ◌-◌, Bool, true, false, not, ◌&&◌, ◌||◌, Option, none, some, List, ltb, leb,
  ◌==◌, if◌then◌else◌, add32, sub32, mul32, u8, min, bit_and, bit_or, has_bits,
}
use zepboot.Platform.{Rc, ok, is_ok, Flash, Checksums}
use zepboot.Board.{Board, ZbSltArea, zb_in_ram}
use zepboot.Cmd.{
  ZbCmd, zb_erase_slt0end, zb_erase_slt1end, zb_erase_swpstat, zb_cmd_read_slt0end,
  zb_cmd_read_slt1end, zb_cmd_read_swpstat, zb_cmd_write_slt0end, zb_cmd_write_swpstat,
}
use zepboot.Prm.{ZbPrm, zb_prm_write}
use zepboot.TinyCrypt.{TinyCrypt}
use zepboot.Image.{
  ImgInfo, Locals, zb_img_get_info_nsc, zb_img_calc_crc32, zb_img_conv_version_u32, zb_img_check,
}
use zepboot.Move.{
  ZbMoveCmd, ZbImgSwpInfo, Memory, zb_sector_erase, set_mcmd_moveup, set_mcmd_swp_p1,
  set_mcmd_swp_p2, zb_img_move,
}

abbrev pub cmd1_error : ℕ
cmd1_error = 0b10000000

abbrev pub cmd1_mask_swp_perm : ℕ
cmd1_mask_swp_perm = 0b00000001

abbrev pub cmd1_mask_swp_request : ℕ
cmd1_mask_swp_request = 0b00010000

abbrev pub cmd1_mask_bt0_request : ℕ
cmd1_mask_bt0_request = 0b00100000

abbrev pub cmd2_mask_inplace : ℕ
cmd2_mask_inplace = 0b00100000

abbrev pub cmd2_swp_start : ℕ
cmd2_swp_start = 0b00010000

abbrev pub cmd2_move_up : ℕ
cmd2_move_up = 0b00010010

abbrev pub cmd2_swp_p1 : ℕ
cmd2_swp_p1 = 0b00010100

abbrev pub cmd2_swp_p2 : ℕ
cmd2_swp_p2 = 0b00010110

abbrev pub cmd2_swp_p3 : ℕ
cmd2_swp_p3 = 0b00011000

abbrev pub cmd2_swp_p4 : ℕ
cmd2_swp_p4 = 0b00011001

abbrev pub cmd2_swp_end : ℕ
cmd2_swp_end = 0b00011111

-- `flags & ~mask` and `flags |= mask` on a `u8_t`.
abbrev pub clear : ℕ → ℕ → ℕ
clear flags mask = bit_and flags (255 - mask)

abbrev pub phase : ZbCmd → ℕ
phase cmd = clear cmd.cmd2 cmd2_mask_inplace

-- A swap is going on: CMD2_SWP_START <= phase < CMD2_SWP_END.
abbrev pub is_swapping : ZbCmd → Bool
is_swapping cmd = leb cmd2_swp_start (phase cmd) && ltb (phase cmd) cmd2_swp_end

-- What the local variables hold before they are set.
pub record SwapLocals : Type 0 where
  pub locals : Locals
  pub cmd : ZbCmd
  pub mcmd : ZbMoveCmd
  pub buf : List ℕ
  pub swp_info : ZbImgSwpInfo
  pub slt : ℕ

-- The lengths `end_fr` and `end_to`.
abbrev pub end_fr : ZbImgSwpInfo → ℕ
end_fr info = sub32 info.fr.end info.fr.hdr_start

abbrev pub end_to : ZbImgSwpInfo → ℕ
end_to info = if info.to.is_valid then sub32 info.to.end info.to.hdr_start else 0

-- It does nothing, and returns 0.
abbrev pub zb_img_cmd_proc_p4_wrt : {S : Type 0} → S → ZbSltArea → ZbCmd → S
zb_img_cmd_proc_p4_wrt s area cmd = s

module _ {S H : Type 0} (fl : Flash S) (sums : Checksums) (tc : TinyCrypt H) (board : Board)
    (mine : SwapLocals) (area : ZbSltArea) where
  open board use {sector_size}
  open mine use {locals}

  -- The end of zb_img_cmd_proc_p3_wrt: the image in slot 1, or none. `info0` and `crc0`
  -- are what `info` and `crc32` hold from slot 0.
  unfoldable pub p3_slt1 : S → ImgInfo → ℕ → ZbPrm → ZbCmd → ZbPrm × ZbCmd
  p3_slt1 s info0 crc0 prm cmd =
      let info = zb_img_get_info_nsc fl tc locals s info0 area 1 0 false in
      let crc32 = (zb_img_calc_crc32 fl sums s info crc0).1 in
      let found = record prm {
        slt1_crc32 = crc32;
        slt1_ver = zb_img_conv_version_u32 info.version;
        pri_ld_address =
            if has_bits cmd.cmd2 cmd2_mask_inplace then info.load_address else prm.pri_ld_address;
      } in
      if info.is_valid then (found, cmd) else (
        record prm { slt1_crc32 = 0xffffffff; slt1_ver = 0 },
        record cmd { cmd1 = bit_or cmd.cmd1 cmd1_mask_swp_perm },
      )

  -- The boot parameters and the command that zb_img_cmd_proc_p3_wrt writes.
  unfoldable pub p3_record : S → ZbCmd → ZbPrm × ZbCmd
  unfolding p3_slt1
  p3_record s cmd =
      let info = zb_img_get_info_nsc fl tc locals s locals.info area 0 0 false in
      let crc32 = (zb_img_calc_crc32 fl sums s info locals.crc32).1 in
      let prm0 = record locals.prm {
        slt0_crc32 = crc32;
        slt0_ver = zb_img_conv_version_u32 info.version;
        sec_ld_address = info.load_address;
        pri_ld_address = info.load_address;
      } in
      p3_slt1 s info crc32 prm0 cmd

  unfoldable pub zb_img_cmd_proc_p3_wrt : S → ZbCmd → S
  zb_img_cmd_proc_p3_wrt s cmd =
      let (prm, cmd') = p3_record s cmd in
      let s' = (zb_prm_write fl board s area prm).1 in
      (zb_cmd_write_slt0end fl sums board s' area cmd').2

  -- Slot and header offset of the images of a command: `slt0`, `slt1` and `eoff`.
  unfoldable pub swp_slots : ZbCmd → ℕ × ℕ × ℕ
  swp_slots cmd =
      if has_bits cmd.cmd2 cmd2_mask_inplace
      then (1, 1, 0)
      else (if phase cmd == cmd2_swp_p1 || phase cmd == cmd2_swp_p2
          then (if cmd.cmd3 == 0 then (0, 1, sector_size) else (1, 0, 0))
          else (0, 1, 0))

  -- RAM images are not decrypted during a swap.
  abbrev pub keep_encrypted : ImgInfo → ImgInfo
  keep_encrypted info =
      if zb_in_ram board info.load_address then record info { enc_start = info.end } else info

  -- The image information; what zb_get_img_swp_info returns is always 0.
  unfoldable pub zb_get_img_swp_info : S → ZbImgSwpInfo → ZbCmd → ZbImgSwpInfo
  unfolding swp_slots
  zb_get_img_swp_info s swp_info cmd =
      let (slt0, slt1, eoff) = swp_slots cmd in
      record {
        to = keep_encrypted (zb_img_get_info_nsc fl tc locals s swp_info.to area slt0 eoff false);
        fr = keep_encrypted (zb_img_get_info_nsc fl tc locals s swp_info.fr area slt1 eoff false);
        loaded = true;
      }
