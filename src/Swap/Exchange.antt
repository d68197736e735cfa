-- ===== src/Swap/Exchange.antt =====
-- A swap exchanges the images: the turns of zb_img_cmd_proc (zepboot/src/zb_move.c) from the start of
-- a swap to the phases that write the slot ends, and a turn that a power failure cut off.
use zepboot.Base.{ℕ, ◌^◌, ◌≤◌, ◌<◌, ◌≡◌, ◌⊎◌, refl, arith, false, List, byte_at, inl, inr}
use zepboot.Base.Ranges.{cells, cells_shift}
use zepboot.Platform.{Flash, Checksums}
use zepboot.Platform.Laws.{FlashLaws}
use zepboot.Board.{Board, ZbSltArea}
use zepboot.TinyCrypt.{TinyCrypt}
use zepboot.Aes.Stream.{Encrypts}
use zepboot.Cmd.{ZbCmd}
use zepboot.Move.{ZbMoveCmd, ZbImgSwpInfo}
use zepboot.Move.Chunk.{decrypted}
use zepboot.Move.Paste.{Apart}
use zepboot.Swap.{SwapLocals, end_fr, end_to}
use zepboot.Swap.Proc.{switch}
use zepboot.Swap.Steps.{
  Phase, swp_start, move_up, swp_p1, swp_p2, swp_p3, swp_p4, swp_end, Plan, next, turns_left,
}
use zepboot.Swap.Order.{command}
use zepboot.Swap.End.{switches}
use zepboot.Swap.Reach.{Moves, starts, up, first, second, Arrives, invariant-Arrives}
use zepboot.Swap.Slots.{Slots}
use zepboot.Swap.Content.{Exchanged, image_fr, image_to}
use zepboot.Swap.Halfway.{Halfway, begins, raises, takes, gives, completes}
use zepboot.Swap.Turns.{start-Halfway, up-Halfway, p1-Halfway, p2-Halfway}

module _ {S H : Type 0} (fl : Flash S) (sums : Checksums) (tc : TinyCrypt H) (board : Board)
    (mine : SwapLocals) (area : ZbSltArea) (laws : FlashLaws fl board.sector_size)
    (enc : List ℕ → List ℕ → List ℕ)
    (encrypts : (key : List ℕ) → Encrypts tc.aes_encrypt key (enc key))
    (enc-lt : (key block : List ℕ) (i : ℕ) → byte_at (enc key block) i < 2 ^ 8)
    (info : ZbImgSwpInfo) (plan : Plan) {span : ℕ}
    (z : Slots fl sums tc board mine area laws enc encrypts enc-lt info plan false span)
    (apart : Apart info.to.flash_device info.to.hdr_start info.fr.flash_device info.fr.hdr_start
      span)
    (s0 : S) where
  open board use {sector_size}
  open laws use {cell}

  -- Each turn of the switch in a swap that is not in place, up to phase 2, takes slots that hold
  -- what they are to hold at its command to slots that hold what they are to hold at the command
  -- that follows. Conditions: the sector of the command is at most 255; each image has at most 255
  -- sectors, since cmd3 is one byte, and does not end in front of its start; a sector has at least
  -- one and at most 2 ^ 24 bytes, in whole cipher blocks; an image that is not plain has its
  -- encrypted part start at a multiple of 16 bytes and not behind its end; the image to swap out
  -- ends more than a sector below 2 ^ 32; the slots start at whole sectors, lie in devices that are
  -- there, do not meet, and have room for the images and for a sector above the image to swap out.
  pub switch-Halfway :
      (s : S) (mcmd : ZbMoveCmd) (cmd : ZbCmd) (p : Phase) (k : ℕ)
      → Moves p
      → k ≤ 255
      → Halfway fl sums tc board mine area laws enc encrypts enc-lt info plan s0 p k s
      → Halfway fl sums tc board mine area laws enc encrypts enc-lt info plan s0
          (next plan p k).0
          (next plan p k).1
          (switch fl sums tc board mine area s info mcmd false (command cmd p k)).flash
  unfolding switch
  switch-Halfway s mcmd cmd swp_start k m few (begins same_to same_fr) =
      start-Halfway fl sums tc board mine area laws enc encrypts enc-lt info plan z apart s0 s mcmd
        cmd k same_to same_fr
  switch-Halfway s mcmd cmd move_up k m few (raises h r) =
      up-Halfway fl sums tc board mine area laws enc encrypts enc-lt info plan z apart s0 s mcmd cmd
        k h few r
  switch-Halfway s mcmd cmd swp_p1 k m few (takes r) =
      p1-Halfway fl sums tc board mine area laws enc encrypts enc-lt info plan z apart s0 s mcmd cmd
        k few r
  switch-Halfway s mcmd cmd swp_p2 k m few (gives r) =
      p2-Halfway fl sums tc board mine area laws enc encrypts enc-lt info plan z apart s0 s mcmd cmd
        k few r
  switch-Halfway s mcmd cmd swp_p3 k m few _ = elim m [ ]
  switch-Halfway s mcmd cmd swp_p4 k m few _ = elim m [ ]
  switch-Halfway s mcmd cmd swp_end k m few _ = elim m [ ]

  -- Each slot holds the image that was in the other one, decrypted.
  abbrev pub Swapped : S → Type 0
  Swapped s =
      (cells (cell s info.to.flash_device) info.to.hdr_start (end_fr info)
        ≡ cells (image_fr fl sums tc board mine area laws enc encrypts enc-lt info plan s0)
            info.fr.hdr_start (end_fr info))
      × (cells (cell s info.fr.flash_device) info.fr.hdr_start (end_to info)
          ≡ cells (image_to fl sums tc board mine area laws enc encrypts enc-lt info plan s0)
              info.to.hdr_start (end_to info))

  pub Exchanged-Swapped :
      (s : S)
      → Exchanged fl sums tc board mine area laws enc encrypts enc-lt info plan s0
          (end_fr info)
          (end_to info)
          s
      → Swapped s
  Exchanged-Swapped s r =
      (cells_shift _ _ _ _ _ (λ i p. r.fr_in i p p), cells_shift _ _ _ _ _ (λ i p. r.to_in i p p))

  pub Halfway-cases :
      (p : Phase) (k : ℕ) (s : S)
      → Halfway fl sums tc board mine area laws enc encrypts enc-lt info plan s0 p k s
      → Moves p ⊎ ((p ≡ swp_p3) × Swapped s)
  Halfway-cases swp_start k s h = inl starts
  Halfway-cases move_up k s h = inl up
  Halfway-cases swp_p1 k s h = inl first
  Halfway-cases swp_p2 k s h = inl second
  Halfway-cases swp_p3 k s (completes r) = inr (refl, Exchanged-Swapped s r)
  Halfway-cases swp_p4 k s h = elim h [ ]
  Halfway-cases swp_end k s h = elim h [ ]

  pub Halfway-Arrives :
      (n : ℕ) (s : S) (mcmd : ZbMoveCmd) (cmd : ZbCmd) (p : Phase) (k : ℕ)
      → k ≤ 255
      → turns_left plan p k ≤ n
      → Halfway fl sums tc board mine area laws enc encrypts enc-lt info plan s0 p k s
      → Arrives fl sums tc board mine area info false Swapped n s mcmd cmd p k
  Halfway-Arrives =
      invariant-Arrives fl sums tc board mine area info false Swapped plan z.is_plan
        (Halfway fl sums tc board mine area laws enc encrypts enc-lt info plan s0) switch-Halfway
        Halfway-cases

  -- The switch of zb_img_cmd_proc from the start of a swap that is not in place: if the slots have room for the
  -- images and for a sector above the image to swap out, do not meet, and lie in whole sectors of whole
  -- cipher blocks, then after at most as many turns of the switch as the bound says, phase 3 is
  -- reached, and each slot holds the image that the other one held, decrypted.
  pub switches-Swapped :
      (mcmd : ZbMoveCmd) (cmd : ZbCmd)
      → (m : ℕ) × (k : ℕ) × (m ≤ turns_left plan swp_start 0)
        × ((switches fl sums tc board mine area m s0 info mcmd false (command cmd swp_start 0)).cmd
            ≡ command cmd swp_p3 k)
        × ((cells
                (cell
                  (switches fl sums tc board mine area m s0 info mcmd false
                    (command cmd swp_start 0)).flash
                  info.to.flash_device)
                info.to.hdr_start
                (end_fr info)
              ≡ cells
                  (decrypted (enc info.fr.enc_key) info.fr.enc_start (cell s0 info.fr.flash_device))
                  info.fr.hdr_start
                  (end_fr info))
            × (cells
                  (cell
                    (switches fl sums tc board mine area m s0 info mcmd false
                      (command cmd swp_start 0)).flash
                    info.fr.flash_device)
                  info.fr.hdr_start
                  (end_to info)
                ≡ cells
                    (decrypted
                      (enc info.to.enc_key)
                      info.to.enc_start
                      (cell s0 info.to.flash_device))
                    info.to.hdr_start
                    (end_to info)))
  switches-Swapped mcmd cmd =
      Halfway-Arrives (turns_left plan swp_start 0) s0 mcmd cmd swp_start 0 (omega arith)
        (omega arith) (begins (λ i p. refl) (λ i p. refl))
