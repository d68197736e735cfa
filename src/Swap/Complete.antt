-- ===== src/Swap/Complete.antt =====
-- A swap that is not in place, as a whole: zb_img_cmd_proc (zepboot/src/zb_move.c) from the command
-- CMD2_SWP_START in the swap status to CMD2_SWP_END.
use zepboot.Base.{
  ℕ, ◌+◌, ◌^◌, ◌≤◌, ◌<◌, ◌≡◌, ◌≢◌, ◌⊎◌, refl, true, false, none, some, List, length, byte_at,
  bit_or, if◌then◌else◌,
}
use zepboot.Base.Ranges.{cells}
use zepboot.Platform.{Flash, Checksums, ok, enoent}
use zepboot.Platform.Laws.{FlashLaws}
use zepboot.Board.{Board, ZbSltArea}
use zepboot.TinyCrypt.{TinyCrypt}
use zepboot.Aes.Stream.{Encrypts}
use zepboot.Cmd.{ZbCmd, CmdLoc, zb_cmd_read_slt0end, zb_cmd_read_slt1end, zb_cmd_read_swpstat}
use zepboot.Cmd.Log.{last_sound}
use zepboot.Cmd.Read.{Location, LogOf}
use zepboot.Cmd.Append.{sealed, Crc8IsByte}
use zepboot.Move.{ZbImgSwpInfo}
use zepboot.Move.Chunk.{decrypted}
use zepboot.Move.Paste.{Apart}
use zepboot.Swap.{SwapLocals, cmd1_error, cmd1_mask_swp_perm, end_fr, end_to, zb_get_img_swp_info}
use zepboot.Swap.Proc.{zb_img_cmd_proc}
use zepboot.Swap.Steps.{swp_start, swp_end, Plan, turns_left}
use zepboot.Swap.Slots.{Slots}
use zepboot.Swap.Halfway.{begins, Halfway}
use zepboot.Swap.Ends.{SectorEnd, slt0end, slt1end}
use zepboot.Swap.Layout.{Layout}
use zepboot.Swap.Whole.{zb_img_cmd_proc-Completes}
use zepboot.Swap.Classic.{Halfway-Upholds}
use zepboot.Swap.Exchange.{Swapped}
use zepboot.Swap.Loop.{stored}

module _ {S H : Type 0} (fl : Flash S) (sums : Checksums) (tc : TinyCrypt H) (board : Board)
    (mine : SwapLocals) (area : ZbSltArea) (laws : FlashLaws fl board.sector_size)
    (enc : List ℕ → List ℕ → List ℕ)
    (encrypts : (key : List ℕ) → Encrypts tc.aes_encrypt key (enc key))
    (enc-lt : (key block : List ℕ) (i : ℕ) → byte_at (enc key block) i < 2 ^ 8)
    (info : ZbImgSwpInfo) (plan : Plan) {span : ℕ}
    (z : Slots fl sums tc board mine area laws enc encrypts enc-lt info plan false span)
    (apart : Apart info.to.flash_device info.to.hdr_start info.fr.flash_device info.fr.hdr_start
      span)
    {n0 n1 n : ℕ} {status : CmdLoc} (here : Location laws board area 2 status n)
    (end0 : SectorEnd board area laws 0 (slt0end board area) n0)
    (end1 : SectorEnd board area laws 1 (slt1end board area) n1)
    (layout : Layout board area info span status) (byte : Crc8IsByte sums) (c : ZbCmd)
    (good_cmd1 : c.cmd1 < 2 ^ 8) (no_error : c.cmd1 ≢ cmd1_error) (loaded : info.loaded ≡ true)
    (s0 : S) where
  open laws use {cell}

  -- zb_img_cmd_proc for a swap that is not in place, with CMD2_SWP_START as the last sound command
  -- of the swap status, returns within the bound of turns: each slot then holds the image that the
  -- other one held, decrypted, the swap status reads as CMD2_SWP_END, the end of slot 0 as the
  -- command of the swap, perhaps made permanent, and the end of slot 1 as no command. The images
  -- are those that zb_get_img_swp_info finds, if they are not given. Conditions: each image has at
  -- most 255 sectors, since cmd3 is one byte, and does not end in front of its start; a sector has
  -- at least one and at most 2 ^ 24 bytes, in whole cipher blocks; an image that is not plain has
  -- its encrypted part start at a multiple of 16 bytes and not behind its end; the image to swap
  -- out ends more than a sector below 2 ^ 32; the slots start at whole sectors, lie in devices that
  -- are there, do not meet, and have room for the images and for a sector above the image to swap
  -- out; the swap status starts at a whole write block of a device that is there, consists of whole
  -- records, and has room for a command of each turn; it, the ends of the slots (whole sectors of
  -- devices that are there, with room for their commands) and the parts of the slots in front of
  -- them are apart from each other; cmd1 of the command to process is a byte and not CMD1_ERROR,
  -- and a crc8 is a byte.
  pub zb_img_cmd_proc-Swapped :
      (fuel : ℕ) (info0 : ZbImgSwpInfo) (log : List ZbCmd)
      → (if info0.loaded
          then info0
          else zb_get_img_swp_info fl sums tc board mine area s0 info0
              (stored sums false c swp_start 0))
        ≡ info
      → LogOf here s0 log
      → last_sound sums none log ≡ some (stored sums false c swp_start 0)
      → length log + turns_left plan swp_start 0 ≤ n
      → turns_left plan swp_start 0 < fuel
      → (s' : S) × (k : ℕ) × (done : ZbCmd) × (zb_img_cmd_proc fl sums tc board mine area fuel s0
            info0
          ≡ some s')
        × (cells (cell s' info.to.flash_device) info.to.hdr_start (end_fr info)
            ≡ cells
                (decrypted (enc info.fr.enc_key) info.fr.enc_start (cell s0 info.fr.flash_device))
                info.fr.hdr_start
                (end_fr info))
        × (cells (cell s' info.fr.flash_device) info.fr.hdr_start (end_to info)
            ≡ cells
                (decrypted (enc info.to.enc_key) info.to.enc_start (cell s0 info.to.flash_device))
                info.to.hdr_start
                (end_to info))
        × ((other : ZbCmd)
            → zb_cmd_read_swpstat fl sums board s' area other ≡ (ok, stored sums false c swp_end k))
        × ((other : ZbCmd)
            → zb_cmd_read_slt0end fl sums board s' area other ≡ (ok, sealed sums done))
        × ((other : ZbCmd) → (zb_cmd_read_slt1end fl sums board s' area other).0 ≡ enoent)
        × ((done.cmd1 ≡ c.cmd1) ⊎ (done.cmd1 ≡ bit_or c.cmd1 cmd1_mask_swp_perm))
  zb_img_cmd_proc-Swapped fuel info0 log informed holds last room fuelled =
      let r =
        zb_img_cmd_proc-Completes fl sums tc board mine area laws info plan false c status
          (Halfway fl sums tc board mine area laws enc encrypts enc-lt info plan s0)
          (Swapped fl sums tc board mine area laws enc encrypts enc-lt info plan z apart s0)
          (Halfway-Upholds fl sums tc board mine area laws enc encrypts enc-lt info plan z apart
            status layout c s0)
          here end0 end1 layout.ends z.block byte good_cmd1 z.is_plan no_error loaded fuel s0 info0
          log (begins (λ i p. refl) (λ i p. refl)) informed holds last room fuelled in
      (
        r.after, r.sector, r.done, r.returns, r.good.0, r.good.1, r.ended, r.signed, r.cleared,
        r.flags,
      )
