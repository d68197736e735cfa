-- ===== src/Swap/Undone.antt =====
-- A swap that was not made permanent is undone at the next start (zb_img_swap in
-- zepboot/src/zb_move.c).
use zepboot.Base.{
  ℕ, ◌-◌, ◌%◌, ◌^◌, ◌<◌, ◌≡◌, ◌≢◌, refl, ◌∙◌, arith, true, false, List, byte_at, bit_or, has_bits,
  ap, sym,
}
use zepboot.Platform.{Flash, Checksums, ok, enoent}
use zepboot.Platform.Laws.{FlashLaws}
use zepboot.Board.{Board, ZbSltArea}
use zepboot.TinyCrypt.{TinyCrypt}
use zepboot.Aes.Stream.{Encrypts}
use zepboot.Cmd.{ZbCmd, CmdLoc, zb_cmd_read_slt0end, zb_cmd_read_slt1end}
use zepboot.Cmd.Read.{Location}
use zepboot.Cmd.Append.{Crc8IsByte}
use zepboot.Move.{ZbImgSwpInfo}
use zepboot.Move.Paste.{Apart}
use zepboot.Swap.{SwapLocals, cmd1_error, cmd1_mask_swp_perm}
use zepboot.Swap.Steps.{swp_start, Plan, turns_left}
use zepboot.Swap.Slots.{Slots}
use zepboot.Swap.Ends.{SectorEnd, slt0end, slt1end}
use zepboot.Swap.Layout.{Layout}
use zepboot.Swap.Request.{Stage, going_on, swap_request, make_permanent, restore, decide}
use zepboot.Swap.Begun.{begun, Exchanges, Informed, begun-Exchanges}
use zepboot.Base.Fields.{bit_or-one}
use mathlib.Core.Path.{subst}

module _ {S H : Type 0} (fl : Flash S) (sums : Checksums) (tc : TinyCrypt H) (board : Board)
    (mine : SwapLocals) (area : ZbSltArea) where
  -- The command of the swap that undoes another one: it is permanent.
  abbrev pub undoing : ZbCmd → ZbCmd
  undoing done = record done { cmd1 = bit_or done.cmd1 cmd1_mask_swp_perm }

  -- Nothing is asked for at the end of slot 1.
  unasked :
      (st : Stage S)
      → st.swap ≡ false
      → ((other : ZbCmd) → (zb_cmd_read_slt1end fl sums board st.flash area other).0 ≡ enoent)
      → ((swap_request fl sums tc board mine area st).swap ≡ false)
        × ((swap_request fl sums tc board mine area st).flash ≡ st.flash)
        × ((make_permanent fl sums tc board mine area st).swap ≡ false)
        × ((make_permanent fl sums tc board mine area st).flash ≡ st.flash)
  unfolding swap_request make_permanent
  unasked st idle no_cmd =
      rw (no_cmd st.cmd, idle, swap_request, make_permanent) (refl, refl, refl, refl)

  restored-begun :
      (st : Stage S) (done : ZbCmd)
      → st.swap ≡ false
      → ((other : ZbCmd) → zb_cmd_read_slt0end fl sums board st.flash area other ≡ (ok, done))
      → has_bits done.cmd1 cmd1_mask_swp_perm ≡ false
      → restore fl sums tc board mine area st
        ≡ begun fl sums tc board mine area st.flash (undoing done)
  unfolding restore
  restored-begun st done idle found temporary = rw (found st.cmd, idle, temporary, restore) refl

  undone-begun :
      (s : S) (done : ZbCmd)
      → (going_on fl sums tc board mine area s).swap ≡ false
      → ((other : ZbCmd) → (zb_cmd_read_slt1end fl sums board s area other).0 ≡ enoent)
      → ((other : ZbCmd) → zb_cmd_read_slt0end fl sums board s area other ≡ (ok, done))
      → has_bits done.cmd1 cmd1_mask_swp_perm ≡ false
      → decide fl sums tc board mine area s ≡ begun fl sums tc board mine area s (undoing done)
  unfolding decide going_on
  undone-begun s done idle no_cmd found temporary =
      let st0 = going_on fl sums tc board mine area s in
      let st1 = swap_request fl sums tc board mine area st0 in
      let st2 = make_permanent fl sums tc board mine area st1 in
      let a = unasked st0 idle no_cmd in
      let b = unasked st1 a.0 (λ other.
        subst (λ x. (zb_cmd_read_slt1end fl sums board x area other).0 ≡ enoent) (sym a.1)
          (no_cmd other)) in
      let same : st2.flash ≡ s = b.3 ∙ a.1 in
      restored-begun st2 done b.2
        (λ other.
          subst (λ x. zb_cmd_read_slt0end fl sums board x area other ≡ (ok, done)) (sym same)
            (found other))
        temporary
      ∙ ap (λ x. begun fl sums tc board mine area x (undoing done)) same

module _ {S H : Type 0} (fl : Flash S) (sums : Checksums) (tc : TinyCrypt H) (board : Board)
    (mine : SwapLocals) (area : ZbSltArea) (laws : FlashLaws fl board.sector_size)
    (enc : List ℕ → List ℕ → List ℕ)
    (encrypts : (key : List ℕ) → Encrypts tc.aes_encrypt key (enc key))
    (enc-lt : (key block : List ℕ) (i : ℕ) → byte_at (enc key block) i < 2 ^ 8)
    (info : ZbImgSwpInfo) (plan : Plan) {span : ℕ}
    (z : Slots fl sums tc board mine area laws enc encrypts enc-lt info plan false span)
    (apart : Apart info.to.flash_device info.to.hdr_start info.fr.flash_device info.fr.hdr_start
      span)
    {n0 n1 n : ℕ} {status : CmdLoc} (here : Location laws board area 2 status n)
    (end0 : SectorEnd board area laws 0 (slt0end board area) n0)
    (end1 : SectorEnd board area laws 1 (slt1end board area) n1)
    (layout : Layout board area info span status) (byte : Crc8IsByte sums)
    (aligned : status.start % board.sector_size ≡ 0)
    (pages : (status.end - status.start) % board.sector_size ≡ 0)
    (loaded : info.loaded ≡ true) where
  -- zb_img_swap, if no swap is going on, the end of slot 1 has no command, and the end of slot 0
  -- has that of a swap that is not permanent, swaps the images back and returns 0 within the bound
  -- of turns: each slot then holds the image that the other one held, decrypted, the swap status
  -- reads as CMD2_SWP_END, the end of slot 0 as the command made permanent, and the end of slot 1
  -- as no command. The images are those that zb_get_img_swp_info finds once the swap status has the
  -- first command. Conditions: each image has at most 255 sectors, since cmd3 is one byte, and does
  -- not end in front of its start; a sector has at least one and at most 2 ^ 24 bytes, in whole
  -- cipher blocks; an image that is not plain has its encrypted part start at a multiple of 16
  -- bytes and not behind its end; the image to swap out ends more than a sector below 2 ^ 32; the
  -- slots start at whole sectors, lie in devices that are there, do not meet, and have room for the
  -- images and for a sector above the image to swap out; the swap status starts at a whole write
  -- block of a device that is there, consists of whole records, and has room for a command of each
  -- turn and one more, in whole sectors; it, the ends of the slots (whole sectors of devices that
  -- are there, with room for their commands) and the parts of the slots in front of them are apart
  -- from each other; cmd1 of the command, made permanent, is a byte and not CMD1_ERROR, and a crc8
  -- is a byte.
  pub zb_img_swap-undone :
      (fuel : ℕ) (s : S) (done : ZbCmd)
      → (going_on fl sums tc board mine area s).swap ≡ false
      → ((other : ZbCmd) → (zb_cmd_read_slt1end fl sums board s area other).0 ≡ enoent)
      → ((other : ZbCmd) → zb_cmd_read_slt0end fl sums board s area other ≡ (ok, done))
      → has_bits done.cmd1 cmd1_mask_swp_perm ≡ false
      → done.cmd1 < 2 ^ 8
      → bit_or done.cmd1 cmd1_mask_swp_perm ≢ cmd1_error
      → Informed fl sums tc board mine area laws enc encrypts enc-lt info plan z apart here end0
          end1 layout byte aligned pages loaded s
          (undoing fl sums tc board mine area done)
      → turns_left plan swp_start 0 < n
      → turns_left plan swp_start 0 < fuel
      → Exchanges fl sums tc board mine area laws enc encrypts enc-lt info plan z apart here end0
          end1 layout byte aligned pages loaded fuel s
          (undoing fl sums tc board mine area done)
  zb_img_swap-undone fuel s done idle no_cmd found temporary small no_error informed room fuelled =
      let c = undoing fl sums tc board mine area done in
      let one = bit_or-one done.cmd1 in
      begun-Exchanges fl sums tc board mine area laws enc encrypts enc-lt info plan z apart here
        end0 end1 layout byte aligned pages loaded fuel s c
        (λ _. undone-begun fl sums tc board mine area s done idle no_cmd found temporary)
        (omega arith) no_error informed room fuelled
