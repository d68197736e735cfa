-- ===== src/Swap/Restart.antt =====
-- A swap that goes on after a restart (zepboot/src/zb_move.c): what zb_get_img_swp_info finds in
-- phase 1, and what phase 1 does with it.
use zepboot.Base.{
  ℕ, ◌+◌, ◌^◌, ◌<◌, ◌≡◌, ◌≢◌, refl, sym, ◌∙◌, arith, true, false, leb, add32, sub32, min, mul32,
  has_bits, ne→==, eq→==, le→leb, Bool-cases, inl, inr,
}
use zepboot.Platform.{is_ok, Flash, Checksums}
use zepboot.Board.{Board, ZbSltArea, zb_in_ram}
use zepboot.Cmd.{ZbCmd}
use zepboot.TinyCrypt.{TinyCrypt}
use zepboot.Tlv.{zb_open_tlv_area}
use zepboot.Image.{ImgInfo, zb_img_get_info_nsc}
use zepboot.Image.Place.{zb_img_get_info-place, zb_img_get_info-none, slt_offset, slt_fldev}
use zepboot.Flash.{zb_flash_erase}
use zepboot.Move.{ZbMoveCmd, ZbImgSwpInfo, set_mcmd_swp_p1, zb_sector_erase}
use zepboot.Swap.{
  SwapLocals, cmd2_mask_inplace, cmd2_swp_p1, phase, end_fr, swp_slots, keep_encrypted,
  zb_get_img_swp_info,
}
use zepboot.Swap.Proc.{proc_p1, moved}

module _ {S H : Type 0} (fl : Flash S) (sums : Checksums) (tc : TinyCrypt H) (board : Board)
    (mine : SwapLocals) (area : ZbSltArea) where
  open board use {sector_size}

  -- Only the start of the encrypted part changes.
  keep_encrypted_lem :
      (info : ImgInfo)
      → let kept = keep_encrypted fl sums tc board mine area info in
        (kept.hdr_start ≡ info.hdr_start)
        × (kept.flash_device ≡ info.flash_device)
        × (kept.end ≡ info.end)
  keep_encrypted_lem info = elim (Bool-cases (zb_in_ram board info.load_address)) [
    | inl e ↦ rw e (refl, refl, refl)
    | inr e ↦ rw e (refl, refl, refl)
  ]

  swp_slots_later :
      (cmd : ZbCmd)
      → has_bits cmd.cmd2 cmd2_mask_inplace ≡ false
      → phase cmd ≡ cmd2_swp_p1
      → cmd.cmd3 ≢ 0
      → swp_slots fl sums tc board mine area cmd ≡ (1, 0, 0)
  unfolding swp_slots
  swp_slots_later cmd not_inplace first later = rw (not_inplace, first, ne→== cmd.cmd3 0 later) refl

  swp_slots_first :
      (cmd : ZbCmd)
      → has_bits cmd.cmd2 cmd2_mask_inplace ≡ false
      → phase cmd ≡ cmd2_swp_p1
      → cmd.cmd3 ≡ 0
      → swp_slots fl sums tc board mine area cmd ≡ (0, 1, sector_size)
  unfolding swp_slots
  swp_slots_first cmd not_inplace first zero = rw (not_inplace, first, eq→== cmd.cmd3 0 zero) refl

  -- Where the two images are taken to be.
  info_place :
      (s : S) (swp_info : ZbImgSwpInfo) (cmd : ZbCmd) (slt0 slt1 eoff : ℕ)
      → swp_slots fl sums tc board mine area cmd ≡ (slt0, slt1, eoff)
      → slt_offset area slt0 + eoff < 2 ^ 32
      → slt_offset area slt1 + eoff < 2 ^ 32
      → let info = zb_get_img_swp_info fl sums tc board mine area s swp_info cmd in
        (info.to.hdr_start ≡ slt_offset area slt0)
        × (info.to.flash_device ≡ slt_fldev area slt0)
        × (info.fr.hdr_start ≡ slt_offset area slt1)
        × (info.fr.flash_device ≡ slt_fldev area slt1)
  unfolding zb_get_img_swp_info
  info_place s swp_info cmd slt0 slt1 eoff e h0 h1 =
      let to = zb_img_get_info_nsc fl tc mine.locals s swp_info.to area slt0 eoff false in
      let fr = zb_img_get_info_nsc fl tc mine.locals s swp_info.fr area slt1 eoff false in
      let p0 =
        zb_img_get_info-place fl tc mine.locals s swp_info.to area slt0 eoff false false h0 in
      let p1 =
        zb_img_get_info-place fl tc mine.locals s swp_info.fr area slt1 eoff false false h1 in
      let k0 = keep_encrypted_lem to in
      let k1 = keep_encrypted_lem fr in
      rw (e, zb_get_img_swp_info) (k0.0 ∙ p0.0, k0.1 ∙ p0.1, k1.0 ∙ p1.0, k1.1 ∙ p1.1)

  p1_stays :
      (s : S) (info : ZbImgSwpInfo) (mcmd : ZbMoveCmd) (cmd : ZbCmd)
      → leb (end_fr info) (mul32 cmd.cmd3 sector_size) ≡ true
      → (proc_p1 fl sums tc board mine area s info mcmd cmd).flash ≡ s
  unfolding proc_p1
  p1_stays s info mcmd cmd h = rw (h, proc_p1) refl

  -- What phase 1 does to the flash, for an image information that names these slots.
  p1_flash :
      (s : S) (info : ZbImgSwpInfo) (mcmd : ZbMoveCmd) (cmd : ZbCmd) (fr fr_dev to to_dev : ℕ)
      → info.fr.hdr_start ≡ fr
      → info.fr.flash_device ≡ fr_dev
      → info.to.hdr_start ≡ to
      → info.to.flash_device ≡ to_dev
      → leb (end_fr info) (mul32 cmd.cmd3 sector_size) ≡ false
      → let sec = mul32 cmd.cmd3 sector_size in
        (proc_p1 fl sums tc board mine area s info mcmd cmd).flash
        ≡ moved fl sums tc board mine area
            (zb_flash_erase fl s to_dev (add32 to sec) sector_size).1
            (record {
              fr_off = add32 fr sec;
              fr_eoff = info.fr.enc_start;
              fl_dev_fr = fr_dev;
              to_off = add32 to sec;
              fl_dev_to = to_dev;
              key = info.fr.enc_key;
            })
            (min (sub32 (end_fr info) sec) sector_size)
  unfolding proc_p1 set_mcmd_swp_p1 zb_sector_erase
  p1_flash s info mcmd cmd fr fr_dev to to_dev e0 e1 e2 e3 h =
      rw (h, proc_p1, set_mcmd_swp_p1, zb_sector_erase, e0, e1, e2, e3) refl

  -- After a restart in phase 1 of a swap that is not in place, behind sector 0, the image to swap
  -- in is looked for in slot 0 and the image to swap out in slot 1, and phase 1, if the image
  -- information has more to swap in than the sectors in front of that of the command, erases the
  -- sector of slot 1 and moves to it that of slot 0, or what is left of the image: this is all it
  -- does to the flash. Conditions: the offsets of the slots fit a word.
  pub restart-later_sector :
      (s : S) (swp_info : ZbImgSwpInfo) (mcmd : ZbMoveCmd) (cmd : ZbCmd)
      → has_bits cmd.cmd2 cmd2_mask_inplace ≡ false
      → phase cmd ≡ cmd2_swp_p1
      → cmd.cmd3 ≢ 0
      → area.slt0_offset < 2 ^ 32
      → area.slt1_offset < 2 ^ 32
      → leb
          (end_fr (zb_get_img_swp_info fl sums tc board mine area s swp_info cmd))
          (mul32 cmd.cmd3 sector_size)
        ≡ false
      → let info = zb_get_img_swp_info fl sums tc board mine area s swp_info cmd in
        let sec = mul32 cmd.cmd3 sector_size in
        (info.fr.hdr_start ≡ area.slt0_offset)
        × (info.fr.flash_device ≡ area.slt0_fldev)
        × (info.to.hdr_start ≡ area.slt1_offset)
        × (info.to.flash_device ≡ area.slt1_fldev)
        × ((proc_p1 fl sums tc board mine area s info mcmd cmd).flash
            ≡ moved fl sums tc board mine area
                (zb_flash_erase fl s area.slt1_fldev (add32 area.slt1_offset sec) sector_size).1
                (record {
                  fr_off = add32 area.slt0_offset sec;
                  fr_eoff = info.fr.enc_start;
                  fl_dev_fr = area.slt0_fldev;
                  to_off = add32 area.slt1_offset sec;
                  fl_dev_to = area.slt1_fldev;
                  key = info.fr.enc_key;
                })
                (min (sub32 (end_fr info) sec) sector_size))
  restart-later_sector s swp_info mcmd cmd not_inplace first later small0 small1 more =
      let info = zb_get_img_swp_info fl sums tc board mine area s swp_info cmd in
      let place =
        info_place s swp_info cmd 1 0 0 (swp_slots_later cmd not_inplace first later) (omega arith)
          (omega arith) in
      (
        place.2,
        place.3,
        place.0,
        place.1,
        p1_flash s info mcmd cmd area.slt0_offset area.slt0_fldev area.slt1_offset area.slt1_fldev
            place.2 place.3 place.0 place.1 more,
      )

  -- zb_get_img_swp_info in phase 1 of a swap that is not in place, at sector 0: if there is no area
  -- one sector above the start of slot 1, the image to swap in has no bytes, and phase 1 leaves the
  -- flash as it is.
  pub restart-first_sector :
      (s : S) (swp_info : ZbImgSwpInfo) (mcmd : ZbMoveCmd) (cmd : ZbCmd)
      → has_bits cmd.cmd2 cmd2_mask_inplace ≡ false
      → phase cmd ≡ cmd2_swp_p1
      → cmd.cmd3 ≡ 0
      → is_ok
          (zb_open_tlv_area fl tc s mine.locals.hash area.slt1_fldev
            (add32 sector_size area.slt1_offset)
            mine.locals.tlv
            false).rc
        ≡ false
      → let info = zb_get_img_swp_info fl sums tc board mine area s swp_info cmd in
        (end_fr info ≡ 0) × ((proc_p1 fl sums tc board mine area s info mcmd cmd).flash ≡ s)
  unfolding proc_p1 zb_get_img_swp_info
  restart-first_sector s swp_info mcmd cmd not_inplace first zero none =
      let fr = zb_img_get_info_nsc fl tc mine.locals s swp_info.fr area 1 sector_size false in
      let info = zb_get_img_swp_info fl sums tc board mine area s swp_info cmd in
      let nothing =
        zb_img_get_info-none fl tc mine.locals s swp_info.fr area 1 sector_size false false none in
      let k = keep_encrypted_lem fr in
      let slots = swp_slots_first cmd not_inplace first zero in
      let empty : info.fr.end ≡ info.fr.hdr_start =
        rw (slots, zb_get_img_swp_info) (k.2 ∙ nothing.1 ∙ sym k.0) in
      let none_left : end_fr info ≡ 0 = rw empty (omega arith) in
      (
        none_left,
        p1_stays s info mcmd cmd (le→leb (end_fr info) (mul32 cmd.cmd3 sector_size) (omega arith)),
      )
