-- ===== src/Move.antt =====
-- Moving image data between flash and RAM: zb_img_move and its callers in zepboot/src/zb_move.c.
pub mod Chunk
pub mod Turn
pub mod Paste
pub mod Copy
pub mod Ram
mod Tests
use zepboot.Base.{
  ℕ, zero, suc, ◌+◌, ◌-◌, Bool, true, ◌&&◌, List, length, take, drop, replicate, ltb, leb, ◌==◌,
  if◌then◌else◌, add32, sub32, byte_at, min, ◌++◌,
}
use zepboot.Platform.{Rc, ok, stuck, Device, Flash}
use zepboot.Board.{Board}
use zepboot.Flash.{zb_flash_read, zb_flash_write, zb_flash_erase}
use zepboot.Aes.{aes_block_size, increment, zb_aes_ctr_mode}
use zepboot.TinyCrypt.{TinyCrypt}
use zepboot.Image.{ImgInfo}

abbrev pub move_block_size : ℕ
move_block_size = 512

-- `zb_move_cmd`, with the bytes that `key` points at.
pub record ZbMoveCmd : Type 0 where
  pub fr_off : ℕ
  pub fr_eoff : ℕ
  pub to_off : ℕ
  pub key : List ℕ
  pub fl_dev_fr : Device
  pub fl_dev_to : Device

-- `zb_img_swp_info`
pub record ZbImgSwpInfo : Type 0 where
  pub to : ImgInfo
  pub fr : ImgInfo
  pub loaded : Bool

-- The flash, and the RAM by addresses.
pub record Memory (S : Type 0) : Type 0 where
  pub flash : S
  pub ram : ℕ → ℕ

-- `memcpy` of bytes to an address.
abbrev pub memcpy : (ℕ → ℕ) → ℕ → List ℕ → ℕ → ℕ
memcpy ram to_off bs i =
    if leb to_off i && ltb i (to_off + length bs) then byte_at bs (i - to_off) else ram i

module _ (board : Board) where
  open board use {sector_size}

  unfoldable pub zb_sector_erase : {S : Type 0} → Flash S → S → ImgInfo → ℕ → Rc × S
  zb_sector_erase fl s info offset =
      zb_flash_erase fl s info.flash_device (add32 info.hdr_start offset) sector_size

  -- The key is not set.
  unfoldable pub set_mcmd_moveup : ZbMoveCmd → ZbImgSwpInfo → ℕ → ZbMoveCmd
  set_mcmd_moveup mcmd swp_info secoff =
      let fr_off = add32 swp_info.to.hdr_start secoff in
      record mcmd {
        fr_off = fr_off;
        fr_eoff = add32 fr_off sector_size;
        fl_dev_fr = swp_info.to.flash_device;
        to_off = add32 fr_off sector_size;
        fl_dev_to = swp_info.to.flash_device;
      }

  unfoldable pub set_mcmd_swp_p2 : ZbImgSwpInfo → ℕ → ZbMoveCmd
  set_mcmd_swp_p2 swp_info secoff = record {
    fr_off = add32 (add32 swp_info.to.hdr_start secoff) sector_size;
    fr_eoff = add32 swp_info.to.enc_start sector_size;
    fl_dev_fr = swp_info.to.flash_device;
    to_off = add32 swp_info.fr.hdr_start secoff;
    fl_dev_to = swp_info.fr.flash_device;
    key = swp_info.to.enc_key;
  }

  unfoldable pub set_mcmd_swp_p1 : ZbImgSwpInfo → ℕ → ZbMoveCmd
  set_mcmd_swp_p1 swp_info secoff = record {
    fr_off = add32 swp_info.fr.hdr_start secoff;
    fr_eoff = swp_info.fr.enc_start;
    fl_dev_fr = swp_info.fr.flash_device;
    to_off = add32 swp_info.to.hdr_start secoff;
    fl_dev_to = swp_info.to.flash_device;
    key = swp_info.fr.enc_key;
  }

-- The key and the device to write to are not set.
unfoldable pub set_mcmd_ramcopy : ZbMoveCmd → ImgInfo → ZbMoveCmd
set_mcmd_ramcopy mcmd info = record mcmd {
  fr_off = info.start;
  fr_eoff = info.enc_start;
  fl_dev_fr = info.flash_device;
  to_off = info.load_address;
}

-- The counter for a start inside the encrypted part: one increment for each block from `fr_eoff`.
-- `fr_off - fr_eoff` turns are enough, since each one adds a block to `fr_off`.
unfoldable pub advance_ctr : (fuel fr_off start : ℕ) → List ℕ → List ℕ
advance_ctr zero fr_off start ctr = ctr
advance_ctr (suc fuel) fr_off start ctr =
    let rest = advance_ctr fuel (fr_off + aes_block_size) start (increment aes_block_size ctr) in
    if ltb fr_off start then rest else ctr

module _ {S H : Type 0} (fl : Flash S) (tc : TinyCrypt H) where
  -- The loop: `ulen` bytes are left that are not decrypted, and `len` in all.
  move_loop :
      Memory S
      → ZbMoveCmd
      → Bool
      → (fuel ulen len fr_off to_off : ℕ) → (buf ctr : List ℕ) → Rc × Memory S
  move_loop m mcmd to_ram zero ulen len fr_off to_off buf ctr = (stuck, m)
  move_loop m mcmd to_ram (suc fuel) ulen len fr_off to_off buf ctr =
      let whole = min len move_block_size in
      let buf_len = if ltb 0 ulen then min whole ulen else whole in
      let buf' = (zb_flash_read fl m.flash mcmd.fl_dev_fr fr_off buf_len buf).1 in
      let crypt = zb_aes_ctr_mode tc.aes_encrypt mcmd.key (take buf_len buf') ctr in
      let bytes = if ltb 0 ulen then take buf_len buf' else crypt.out in
      let buf'' = bytes ++ drop buf_len buf' in
      let ctr' = if ltb 0 ulen then ctr else crypt.nonce in
      let m' : Memory S =
        if to_ram
        then record m { ram = memcpy m.ram to_off bytes }
        else record m { flash = (zb_flash_write fl m.flash mcmd.fl_dev_to to_off bytes).1 } in
      let rest =
        move_loop m' mcmd to_ram fuel (ulen - buf_len) (len - buf_len) (add32 fr_off buf_len)
          (add32 to_off buf_len) buf'' ctr' in
      if len == 0 then (ok, m) else rest

  -- `buf` is what the local buffer of MOVE_BLOCK_SIZE bytes holds at first.
  unfoldable pub zb_img_move : List ℕ → Memory S → ZbMoveCmd → ℕ → Bool → Rc × Memory S
  unfolding move_loop
  zb_img_move buf m mcmd len to_ram =
      let ulen = mcmd.fr_eoff - mcmd.fr_off in
      let zero_ctr = replicate aes_block_size 0 in
      let ctr =
        if ulen == 0
        then advance_ctr (mcmd.fr_off - mcmd.fr_eoff + 1) mcmd.fr_eoff mcmd.fr_off zero_ctr
        else zero_ctr in
      move_loop m mcmd to_ram (len + 1) ulen len mcmd.fr_off mcmd.to_off buf ctr

  -- `mcmd` is what the local move command holds at first.
  unfoldable pub zb_img_ram_move : List ℕ → Memory S → ZbMoveCmd → ImgInfo → Rc × Memory S
  zb_img_ram_move buf m mcmd info =
      zb_img_move buf m (set_mcmd_ramcopy mcmd info) (sub32 info.end info.start) true
