-- ===== src/Swap/Transfers.antt =====
-- The sectors that the commands of zb_img_cmd_proc (zepboot/src/zb_move.c) erase and write.
use zepboot.Base.{
  ℕ, suc, ◌+◌, ◌-◌, ◌*◌, ◌^◌, ◌≤◌, ◌<◌, ◌≡◌, refl, arith, Bool, false, List, byte_at, inl, inr,
  add32, sub32, mul32, leb, lt→not_leb, le→leb, suc-mul, mul32-small,
}
use zepboot.Platform.{Flash, Checksums}
use zepboot.Platform.Laws.{FlashLaws}
use zepboot.Board.{Board, ZbSltArea}
use zepboot.TinyCrypt.{TinyCrypt}
use zepboot.Aes.Stream.{Encrypts}
use zepboot.Move.{
  ZbMoveCmd, ZbImgSwpInfo, zb_sector_erase, set_mcmd_moveup, set_mcmd_swp_p1, set_mcmd_swp_p2,
}
use zepboot.Move.Paste.{Apart}
use zepboot.Cmd.{ZbCmd}
use zepboot.Swap.{SwapLocals, end_fr, end_to}
use zepboot.Swap.Proc.{proc_move_up, proc_p1, proc_p2}
use zepboot.Swap.Steps.{Plan, move_up, swp_p1, swp_p2}
use zepboot.Swap.Order.{command, end_to_lem}
use zepboot.Swap.Sector.{Transferred, transfer-Transferred}
use zepboot.Swap.Slots.{
  Slots, sector-lt, up_cmd, p1_cmd, p1_len, p2_cmd, p2_len, up-CanTransfer, p1-CanTransfer,
  p2-CanTransfer,
}

module _ {S H : Type 0} (fl : Flash S) (sums : Checksums) (tc : TinyCrypt H) (board : Board)
    (mine : SwapLocals) (area : ZbSltArea) (laws : FlashLaws fl board.sector_size)
    (enc : List ℕ → List ℕ → List ℕ)
    (encrypts : (key : List ℕ) → Encrypts tc.aes_encrypt key (enc key))
    (enc-lt : (key block : List ℕ) (i : ℕ) → byte_at (enc key block) i < 2 ^ 8)
    (info : ZbImgSwpInfo) (plan : Plan) (inplace : Bool) {span : ℕ}
    (z : Slots fl sums tc board mine area laws enc encrypts enc-lt info plan inplace span)
    (k : ℕ) where
  open board use {sector_size}
  open laws use {size}

  -- The erase and the move of a command, where it has one.
  pub up-Transferred :
      (s : S) (mcmd : ZbMoveCmd) (cmd : ZbCmd)
      → suc k * sector_size ≤ plan.to_sectors * sector_size
      → k ≤ 255
      → Transferred fl tc board mine.buf laws enc encrypts enc-lt s
          (proc_move_up fl sums tc board mine area s info mcmd inplace
            (command cmd move_up k)).flash
          (up_cmd fl sums tc board mine area laws enc encrypts enc-lt info plan inplace mcmd k)
          sector_size
  unfolding proc_move_up zb_sector_erase set_mcmd_moveup
  up-Transferred s mcmd cmd h few =
      let room = z.room_to in
      let fits = z.to_fits in
      let lt = laws.size-lt info.to.flash_device in
      let u : suc plan.to_sectors * sector_size ≡ plan.to_sectors * sector_size + sector_size =
        suc-mul plan.to_sectors sector_size in
      let v : suc k * sector_size ≡ k * sector_size + sector_size = suc-mul k sector_size in
      let m : mul32 k sector_size ≡ k * sector_size =
        mul32-small k sector_size few z.is_plan.small in
      let at : add32 info.to.hdr_start (k * sector_size) ≡ info.to.hdr_start + k * sector_size =
        omega arith in
      let above : add32 (info.to.hdr_start + k * sector_size) sector_size
          ≡ info.to.hdr_start + k * sector_size + sector_size =
        omega arith in
      let erase : add32 info.to.hdr_start (add32 (k * sector_size) sector_size)
          ≡ info.to.hdr_start + k * sector_size + sector_size =
        omega arith in
      rw (m, at, above, erase, proc_move_up, zb_sector_erase, set_mcmd_moveup)
        (transfer-Transferred fl tc board mine.buf laws enc encrypts enc-lt s _ sector_size (
          up-CanTransfer fl sums tc board mine area laws enc encrypts enc-lt info plan inplace z k
            mcmd h))

  pub p1-Transferred :
      (s : S) (mcmd : ZbMoveCmd) (cmd : ZbCmd)
      → k * sector_size < end_fr info
      → k ≤ 255
      → Apart info.to.flash_device info.to.hdr_start info.fr.flash_device info.fr.hdr_start span
      → Transferred fl tc board mine.buf laws enc encrypts enc-lt s
          (proc_p1 fl sums tc board mine area s info mcmd (command cmd swp_p1 k)).flash
          (p1_cmd fl sums tc board mine area laws enc encrypts enc-lt info plan inplace k)
          (p1_len fl sums tc board mine area laws enc encrypts enc-lt info plan inplace k)
  unfolding proc_p1 zb_sector_erase set_mcmd_swp_p1
  p1-Transferred s mcmd cmd inside few apart =
      let s_ = sector_size in
      let room = z.room_fr in
      let fits = z.to_fits in
      let fr_fits = z.fr_fits in
      let lt = laws.size-lt info.to.flash_device in
      let lt_fr = laws.size-lt info.fr.flash_device in
      let in_order = z.fr_in_order in
      let fr_end = z.fr_end in
      let v : suc k * s_ ≡ k * s_ + s_ = suc-mul k s_ in
      let more = sector-lt k z.is_plan.fr inside in
      let m : mul32 k s_ ≡ k * s_ = mul32-small k s_ few z.is_plan.small in
      let at : add32 info.to.hdr_start (k * s_) ≡ info.to.hdr_start + k * s_ = omega arith in
      let at_fr : add32 info.fr.hdr_start (k * s_) ≡ info.fr.hdr_start + k * s_ = omega arith in
      let left : sub32 (end_fr info) (k * s_) ≡ end_fr info - k * s_ = omega arith in
      let test : leb (end_fr info) (k * s_) ≡ false = lt→not_leb (end_fr info) (k * s_) inside in
      rw (m, at, at_fr, left, test, proc_p1, zb_sector_erase, set_mcmd_swp_p1)
        (transfer-Transferred fl tc board mine.buf laws enc encrypts enc-lt s _ _ (
          p1-CanTransfer fl sums tc board mine area laws enc encrypts enc-lt info plan inplace z k
            inside apart room))

  -- Phase 1 behind the image does nothing.
  pub p1_behind :
      (s : S) (mcmd : ZbMoveCmd) (cmd : ZbCmd)
      → end_fr info ≤ k * sector_size
      → k ≤ 255
      → (proc_p1 fl sums tc board mine area s info mcmd (command cmd swp_p1 k)).flash ≡ s
  unfolding proc_p1
  p1_behind s mcmd cmd behind few =
      let m : mul32 k sector_size ≡ k * sector_size =
        mul32-small k sector_size few z.is_plan.small in
      rw (m, le→leb (end_fr info) (k * sector_size) behind, proc_p1) refl

  pub p2-Transferred :
      (s : S) (mcmd : ZbMoveCmd) (cmd : ZbCmd)
      → k * sector_size < end_to info
      → k ≤ 255
      → Apart info.to.flash_device
          (info.to.hdr_start + k * sector_size + sector_size)
          info.fr.flash_device
          (info.fr.hdr_start + k * sector_size)
          sector_size
      → info.fr.hdr_start + k * sector_size + sector_size ≤ size info.fr.flash_device
      → Transferred fl tc board mine.buf laws enc encrypts enc-lt s
          (proc_p2 fl sums tc board mine area s info mcmd inplace (command cmd swp_p2 k)).flash
          (p2_cmd fl sums tc board mine area laws enc encrypts enc-lt info plan inplace k)
          (p2_len fl sums tc board mine area laws enc encrypts enc-lt info plan inplace k)
  unfolding proc_p2 zb_sector_erase set_mcmd_swp_p2
  p2-Transferred s mcmd cmd inside few apart to_fits =
      let s_ = sector_size in
      let room = z.room_to in
      let fits = z.to_fits in
      let lt = laws.size-lt info.to.flash_device in
      let lt_fr = laws.size-lt info.fr.flash_device in
      let in_order = z.is_plan.in_order in
      let word = z.is_plan.fits in
      let crypt : info.to.enc_start ≤ info.to.end = elim z.to_crypt [
        | inl c ↦ c.1
        | inr e ↦ omega arith
      ] in
      let u : suc plan.to_sectors * s_ ≡ plan.to_sectors * s_ + s_ = suc-mul plan.to_sectors s_ in
      let v : suc k * s_ ≡ k * s_ + s_ = suc-mul k s_ in
      let more = sector-lt k z.is_plan.to inside in
      let len : end_to info ≡ info.to.end - info.to.hdr_start =
        end_to_lem z.is_plan (omega arith) in
      let m : mul32 k s_ ≡ k * s_ = mul32-small k s_ few z.is_plan.small in
      let at : add32 (add32 info.to.hdr_start (k * s_)) s_ ≡ info.to.hdr_start + k * s_ + s_ =
        omega arith in
      let eoff : add32 info.to.enc_start s_ ≡ info.to.enc_start + s_ = omega arith in
      let at_fr : add32 info.fr.hdr_start (k * s_) ≡ info.fr.hdr_start + k * s_ = omega arith in
      let left : sub32 (end_to info) (k * s_) ≡ end_to info - k * s_ = omega arith in
      let test : leb (end_to info) (k * s_) ≡ false = lt→not_leb (end_to info) (k * s_) inside in
      rw (m, at, eoff, at_fr, left, test, proc_p2, zb_sector_erase, set_mcmd_swp_p2)
        (transfer-Transferred fl tc board mine.buf laws enc encrypts enc-lt s _ _ (
          p2-CanTransfer fl sums tc board mine area laws enc encrypts enc-lt info plan inplace z k
            inside apart to_fits))

  -- Phase 2 behind the image does nothing.
  pub p2_behind :
      (s : S) (mcmd : ZbMoveCmd) (cmd : ZbCmd)
      → end_to info ≤ k * sector_size
      → k ≤ 255
      → (proc_p2 fl sums tc board mine area s info mcmd inplace (command cmd swp_p2 k)).flash ≡ s
  unfolding proc_p2
  p2_behind s mcmd cmd behind few =
      let m : mul32 k sector_size ≡ k * sector_size =
        mul32-small k sector_size few z.is_plan.small in
      rw (m, le→leb (end_to info) (k * sector_size) behind, proc_p2) refl
