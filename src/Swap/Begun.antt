-- ===== src/Swap/Begun.antt =====
-- A swap that begins, to its end (zb_img_swap in zepboot/src/zb_move.c).
use zepboot.Base.{
  ℕ, ◌+◌, ◌-◌, ◌%◌, ◌^◌, ◌<◌, ◌≡◌, ◌≢◌, ◌⊎◌, refl, ◌∙◌, arith, true, false, some, List, [], ◌∷◌,
  byte_at, bit_or, if_true,
}
use zepboot.Base.Ranges.{cells, cells_shift}
use zepboot.Platform.{Flash, Checksums, ok, enoent}
use zepboot.Platform.Laws.{FlashLaws}
use zepboot.Board.{Board, ZbSltArea}
use zepboot.TinyCrypt.{TinyCrypt}
use zepboot.Aes.Stream.{Encrypts}
use zepboot.Cmd.{ZbCmd, CmdLoc, zb_cmd_read_slt0end, zb_cmd_read_slt1end, zb_cmd_read_swpstat}
use zepboot.Cmd.Read.{Location}
use zepboot.Cmd.Append.{sealed, Crc8IsByte}
use zepboot.Move.{ZbImgSwpInfo}
use zepboot.Move.Chunk.{decrypted}
use zepboot.Move.Paste.{Apart}
use zepboot.Swap.{SwapLocals, cmd1_error, cmd1_mask_swp_perm, end_fr, end_to, zb_get_img_swp_info}
use zepboot.Swap.Steps.{swp_start, swp_end, Plan, turns_left}
use zepboot.Swap.Order.{command}
use zepboot.Swap.Slots.{Slots}
use zepboot.Swap.Ends.{SectorEnd, slt0end, slt1end}
use zepboot.Swap.Layout.{Layout, untouched}
use zepboot.Swap.Stable.{fit_slots}
use zepboot.Swap.Complete.{zb_img_cmd_proc-Swapped}
use zepboot.Swap.Begin.{begin_swap-start}
use zepboot.Swap.Request.{Stage, begin_swap, decide, zb_img_swap}
use zepboot.Swap.Sector.{decrypted_same}
use zepboot.Swap.Loop.{stored, stored_sound}

module _ {S H : Type 0} (fl : Flash S) (sums : Checksums) (tc : TinyCrypt H) (board : Board)
    (mine : SwapLocals) (area : ZbSltArea) where
  abbrev pub begun : S → ZbCmd → Stage S
  begun s c = begin_swap fl sums tc board mine area s (command c swp_start 0)

module _ {S H : Type 0} (fl : Flash S) (sums : Checksums) (tc : TinyCrypt H) (board : Board)
    (mine : SwapLocals) (area : ZbSltArea) (laws : FlashLaws fl board.sector_size)
    (enc : List ℕ → List ℕ → List ℕ)
    (encrypts : (key : List ℕ) → Encrypts tc.aes_encrypt key (enc key))
    (enc-lt : (key block : List ℕ) (i : ℕ) → byte_at (enc key block) i < 2 ^ 8)
    (info : ZbImgSwpInfo) (plan : Plan) {span : ℕ}
    (z : Slots fl sums tc board mine area laws enc encrypts enc-lt info plan false span)
    (apart : Apart info.to.flash_device info.to.hdr_start info.fr.flash_device info.fr.hdr_start
      span)
    {n0 n1 n : ℕ} {status : CmdLoc} (here : Location laws board area 2 status n)
    (end0 : SectorEnd board area laws 0 (slt0end board area) n0)
    (end1 : SectorEnd board area laws 1 (slt1end board area) n1)
    (layout : Layout board area info span status) (byte : Crc8IsByte sums)
    (aligned : status.start % board.sector_size ≡ 0)
    (pages : (status.end - status.start) % board.sector_size ≡ 0)
    (loaded : info.loaded ≡ true) where
  open laws use {cell}

  -- Where the swap status is written, no image is.
  begun_to :
      (s : S) (c : ZbCmd)
      → c.cmd1 < 2 ^ 8
      → cells
          (decrypted
            (enc info.to.enc_key)
            info.to.enc_start
            (cell (begun fl sums tc board mine area s c).flash info.to.flash_device))
          info.to.hdr_start
          (end_to info)
        ≡ cells
            (decrypted (enc info.to.enc_key) info.to.enc_start (cell s info.to.flash_device))
            info.to.hdr_start
            (end_to info)
  begun_to s c h =
      let st = begun fl sums tc board mine area s c in
      let r = begin_swap-start fl sums tc board mine area here aligned pages byte s c h in
      let fit = fit_slots fl sums tc board mine area laws enc encrypts enc-lt info plan z apart s in
      cells_shift _ _ _ _ _ (λ i p.
        decrypted_same (enc info.to.enc_key) info.to.enc_start (cell st.flash info.to.flash_device)
          (cell s info.to.flash_device) (info.to.hdr_start + i)
          (untouched board area laws s st.flash r.2 layout.to.log i (omega arith)))

  begun_fr :
      (s : S) (c : ZbCmd)
      → c.cmd1 < 2 ^ 8
      → cells
          (decrypted
            (enc info.fr.enc_key)
            info.fr.enc_start
            (cell (begun fl sums tc board mine area s c).flash info.fr.flash_device))
          info.fr.hdr_start
          (end_fr info)
        ≡ cells
            (decrypted (enc info.fr.enc_key) info.fr.enc_start (cell s info.fr.flash_device))
            info.fr.hdr_start
            (end_fr info)
  begun_fr s c h =
      let st = begun fl sums tc board mine area s c in
      let r = begin_swap-start fl sums tc board mine area here aligned pages byte s c h in
      let fit = fit_slots fl sums tc board mine area laws enc encrypts enc-lt info plan z apart s in
      cells_shift _ _ _ _ _ (λ i p.
        decrypted_same (enc info.fr.enc_key) info.fr.enc_start (cell st.flash info.fr.flash_device)
          (cell s info.fr.flash_device) (info.fr.hdr_start + i)
          (untouched board area laws s st.flash r.2 layout.fr.log i (omega arith)))

  -- zb_img_swap, with `fuel` turns, ends the swap of the command `c`: it returns 0, each slot holds the
  -- image that the other one held, decrypted, the swap status reads as CMD2_SWP_END, the end of slot 0
  -- as the command, perhaps made permanent, and the end of slot 1 as no command.
  pub record Exchanges (fuel : ℕ) (s : S) (c : ZbCmd) : Type 0 where
    pub after : S
    pub sector : ℕ
    pub done : ZbCmd
    pub returns : zb_img_swap fl sums tc board mine area fuel s ≡ some (ok, after)
    pub to_image :
        cells (cell after info.to.flash_device) info.to.hdr_start (end_fr info)
        ≡ cells
            (decrypted (enc info.fr.enc_key) info.fr.enc_start (cell s info.fr.flash_device))
            info.fr.hdr_start
            (end_fr info)
    pub fr_image :
        cells (cell after info.fr.flash_device) info.fr.hdr_start (end_to info)
        ≡ cells
            (decrypted (enc info.to.enc_key) info.to.enc_start (cell s info.to.flash_device))
            info.to.hdr_start
            (end_to info)
    pub ended :
        (other : ZbCmd)
        → zb_cmd_read_swpstat fl sums board after area other
          ≡ (ok, stored sums false c swp_end sector)
    pub signed :
        (other : ZbCmd)
        → zb_cmd_read_slt0end fl sums board after area other ≡ (ok, sealed sums done)
    pub cleared : (other : ZbCmd) → (zb_cmd_read_slt1end fl sums board after area other).0 ≡ enoent
    pub flags : (done.cmd1 ≡ c.cmd1) ⊎ (done.cmd1 ≡ bit_or c.cmd1 cmd1_mask_swp_perm)

  -- The image information that the first turn of the swap finds.
  abbrev pub Informed : S → ZbCmd → Type 0
  Informed s c =
      zb_get_img_swp_info fl sums tc board mine area (begun fl sums tc board mine area s c).flash
        (record mine.swp_info { loaded = false }) (stored sums false c swp_start 0)
      ≡ info

  pub begun-Exchanges :
      (fuel : ℕ) (s : S) (c : ZbCmd)
      → ((begun fl sums tc board mine area s c).swap ≡ true
          → decide fl sums tc board mine area s ≡ begun fl sums tc board mine area s c)
      → c.cmd1 < 2 ^ 8
      → c.cmd1 ≢ cmd1_error
      → Informed s c
      → turns_left plan swp_start 0 < n
      → turns_left plan swp_start 0 < fuel
      → Exchanges fuel s c
  unfolding zb_img_swap
  begun-Exchanges fuel s c decided h no_error informed room fuelled =
      let st = begun fl sums tc board mine area s c in
      let b = begin_swap-start fl sums tc board mine area here aligned pages byte s c h in
      let sound = stored_sound sums false c swp_start 0 in
      let (s', k, done, e, to, fr, status, signed, cleared, flags) =
        zb_img_cmd_proc-Swapped fl sums tc board mine area laws enc encrypts enc-lt info plan z
          apart here end0 end1 layout byte c h no_error loaded st.flash fuel
          (record mine.swp_info { loaded = false }) (stored sums false c swp_start 0 ∷ []) informed
          b.1 (if_true _ _ sound) (omega arith) fuelled in
      let decides = decided b.0 in
      record {
        after = s';
        sector = k;
        done = done;
        returns = rw (decides, b.0, e, zb_img_swap) refl;
        to_image = to ∙ begun_fr s c h;
        fr_image = fr ∙ begun_to s c h;
        ended = status;
        signed = signed;
        cleared = cleared;
        flags = flags;
      }
