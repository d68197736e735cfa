-- ===== src/Swap/Requested.antt =====
-- A swap request, from the end of slot 1 to the end of the swap (zb_img_swap in
-- zepboot/src/zb_move.c).
use zepboot.Base.{
  ℕ, ◌-◌, ◌%◌, ◌^◌, ◌<◌, ◌≡◌, ◌≢◌, refl, arith, true, false, List, byte_at, has_bits,
}
use zepboot.Platform.{Flash, Checksums, ok}
use zepboot.Platform.Laws.{FlashLaws}
use zepboot.Board.{Board, ZbSltArea}
use zepboot.TinyCrypt.{TinyCrypt}
use zepboot.Aes.Stream.{Encrypts}
use zepboot.Cmd.{ZbCmd, CmdLoc}
use zepboot.Cmd.Read.{Location}
use zepboot.Cmd.Append.{Crc8IsByte}
use zepboot.Move.{ZbImgSwpInfo}
use zepboot.Move.Paste.{Apart}
use zepboot.Swap.{SwapLocals, cmd1_error, clear, cmd1_mask_swp_request}
use zepboot.Swap.Steps.{swp_start, Plan, turns_left}
use zepboot.Swap.Slots.{Slots}
use zepboot.Swap.Ends.{SectorEnd, slt0end, slt1end}
use zepboot.Swap.Layout.{Layout}
use zepboot.Swap.Request.{Stage, going_on, swap_request, make_permanent, restore, decide}
use zepboot.Swap.Cause.{request}
use zepboot.Image.{zb_img_check}
use zepboot.Base.Bits.{bit_and-le}
use zepboot.Swap.Begun.{begun, Exchanges, Informed, begun-Exchanges}

module _ {S H : Type 0} (fl : Flash S) (sums : Checksums) (tc : TinyCrypt H) (board : Board)
    (mine : SwapLocals) (area : ZbSltArea) where
  -- The command of the swap: the request is taken out.
  abbrev pub granted : ZbCmd → ZbCmd
  granted req = record req { cmd1 = clear req.cmd1 cmd1_mask_swp_request }

  -- What is begun is not looked at again.
  decide-begun :
      (s : S) (st : Stage S)
      → swap_request fl sums tc board mine area (going_on fl sums tc board mine area s) ≡ st
      → st.swap ≡ true
      → decide fl sums tc board mine area s ≡ st
  unfolding decide make_permanent restore
  decide-begun s st e swap = rw (e, swap, decide, make_permanent, restore) refl

  -- An accepted request begins a swap.
  request-begun :
      (s : S) (req : ZbCmd)
      → (going_on fl sums tc board mine area s).swap ≡ false
      → request fl sums tc board mine area s ≡ (ok, req)
      → has_bits req.cmd1 cmd1_mask_swp_request ≡ true
      → zb_img_check fl tc board mine.locals s area mine.slt ≡ (ok, 0)
      → swap_request fl sums tc board mine area (going_on fl sums tc board mine area s)
        ≡ begun fl sums tc board mine area s (granted req)
  unfolding swap_request going_on
  request-begun s req idle asked wants accepted =
      rw (idle, asked, wants, accepted, swap_request) refl

module _ {S H : Type 0} (fl : Flash S) (sums : Checksums) (tc : TinyCrypt H) (board : Board)
    (mine : SwapLocals) (area : ZbSltArea) (laws : FlashLaws fl board.sector_size)
    (enc : List ℕ → List ℕ → List ℕ)
    (encrypts : (key : List ℕ) → Encrypts tc.aes_encrypt key (enc key))
    (enc-lt : (key block : List ℕ) (i : ℕ) → byte_at (enc key block) i < 2 ^ 8)
    (info : ZbImgSwpInfo) (plan : Plan) {span : ℕ}
    (z : Slots fl sums tc board mine area laws enc encrypts enc-lt info plan false span)
    (apart : Apart info.to.flash_device info.to.hdr_start info.fr.flash_device info.fr.hdr_start
      span)
    {n0 n1 n : ℕ} {status : CmdLoc} (here : Location laws board area 2 status n)
    (end0 : SectorEnd board area laws 0 (slt0end board area) n0)
    (end1 : SectorEnd board area laws 1 (slt1end board area) n1)
    (layout : Layout board area info span status) (byte : Crc8IsByte sums)
    (aligned : status.start % board.sector_size ≡ 0)
    (pages : (status.end - status.start) % board.sector_size ≡ 0)
    (loaded : info.loaded ≡ true) where
  -- zb_img_swap for a swap request in the end of slot 1, if no swap is going on and zb_img_check
  -- accepts the image of slot 1 for slot 0, returns 0 within the bound of turns: each slot then
  -- holds the image that the other one held, decrypted, the swap status reads as CMD2_SWP_END, the
  -- end of slot 0 as the command of the request, without the request and perhaps made permanent,
  -- and the end of slot 1 as no command. The images are those that zb_get_img_swp_info finds once
  -- the swap status has the first command. Conditions: each image has at most 255 sectors, since
  -- cmd3 is one byte, and does not end in front of its start; a sector has at least one and at most
  -- 2 ^ 24 bytes, in whole cipher blocks; an image that is not plain has its encrypted part start
  -- at a multiple of 16 bytes and not behind its end; the image to swap out ends more than a sector
  -- below 2 ^ 32; the slots start at whole sectors, lie in devices that are there, do not meet, and
  -- have room for the images and for a sector above the image to swap out; the swap status starts
  -- at a whole write block of a device that is there, consists of whole records, and has room for a
  -- command of each turn and one more, in whole sectors; it, the ends of the slots (whole sectors
  -- of devices that are there, with room for their commands) and the parts of the slots in front of
  -- them are apart from each other; cmd1 of the command to process is a byte and not CMD1_ERROR,
  -- and a crc8 is a byte.
  pub zb_img_swap-requested :
      (fuel : ℕ) (s : S) (req : ZbCmd)
      → (going_on fl sums tc board mine area s).swap ≡ false
      → request fl sums tc board mine area s ≡ (ok, req)
      → has_bits req.cmd1 cmd1_mask_swp_request ≡ true
      → zb_img_check fl tc board mine.locals s area mine.slt ≡ (ok, 0)
      → clear req.cmd1 cmd1_mask_swp_request ≢ cmd1_error
      → Informed fl sums tc board mine area laws enc encrypts enc-lt info plan z apart here end0
          end1 layout byte aligned pages loaded s
          (granted fl sums tc board mine area req)
      → turns_left plan swp_start 0 < n
      → turns_left plan swp_start 0 < fuel
      → Exchanges fl sums tc board mine area laws enc encrypts enc-lt info plan z apart here end0
          end1 layout byte aligned pages loaded fuel s
          (granted fl sums tc board mine area req)
  zb_img_swap-requested fuel s req idle asked wants accepted no_error informed room fuelled =
      let c = granted fl sums tc board mine area req in
      let h : c.cmd1 < 2 ^ 8 = omega (arith, bit_and-le req.cmd1 (255 - cmd1_mask_swp_request)) in
      begun-Exchanges fl sums tc board mine area laws enc encrypts enc-lt info plan z apart here
        end0 end1 layout byte aligned pages loaded fuel s c
        (decide-begun fl sums tc board mine area s (begun fl sums tc board mine area s c)
          (request-begun fl sums tc board mine area s req idle asked wants accepted))
        h no_error informed room fuelled
