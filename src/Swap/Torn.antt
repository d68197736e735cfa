-- ===== src/Swap/Torn.antt =====
-- A power failure in the middle of a turn of zb_img_cmd_proc (zepboot/src/zb_move.c): the turn can be
-- done again, since it does not write what it reads.
use zepboot.Base.{
  ℕ, suc, ◌+◌, ◌*◌, ◌^◌, ◌≤◌, ◌<◌, ◌≡◌, ◌∙◌, arith, false, List, byte_at, inl, inr,
  mul-le-mul_right, suc-mul,
}
use zepboot.Base.Ranges.{cells}
use zepboot.Platform.{Flash, Checksums}
use zepboot.Platform.Laws.{FlashLaws}
use zepboot.Board.{Board, ZbSltArea}
use zepboot.TinyCrypt.{TinyCrypt}
use zepboot.Aes.Stream.{Encrypts}
use zepboot.Cmd.{ZbCmd}
use zepboot.Move.{ZbMoveCmd, ZbImgSwpInfo}
use zepboot.Move.Chunk.{decrypted}
use zepboot.Move.Paste.{Apart}
use zepboot.Swap.{SwapLocals, end_fr, end_to}
use zepboot.Swap.Steps.{
  Phase, swp_start, move_up, swp_p1, swp_p2, swp_p3, swp_p4, swp_end, Plan, turns_left,
}
use zepboot.Swap.Order.{command}
use zepboot.Swap.End.{switches}
use zepboot.Swap.Sector.{Outside}
use zepboot.Swap.Slots.{Slots, Apart-sym, sector-lt}
use zepboot.Swap.Content.{Outside-parts}
use zepboot.Swap.Halfway.{Halfway, raises, takes, gives}
use zepboot.Swap.Exchange.{Halfway-Arrives}

module _ {S H : Type 0} (fl : Flash S) (sums : Checksums) (tc : TinyCrypt H) (board : Board)
    (mine : SwapLocals) (area : ZbSltArea) (laws : FlashLaws fl board.sector_size)
    (enc : List ℕ → List ℕ → List ℕ)
    (encrypts : (key : List ℕ) → Encrypts tc.aes_encrypt key (enc key))
    (enc-lt : (key block : List ℕ) (i : ℕ) → byte_at (enc key block) i < 2 ^ 8)
    (info : ZbImgSwpInfo) (plan : Plan) {span : ℕ}
    (z : Slots fl sums tc board mine area laws enc encrypts enc-lt info plan false span)
    (apart : Apart info.to.flash_device info.to.hdr_start info.fr.flash_device info.fr.hdr_start
      span)
    (s0 : S) where
  open board use {sector_size}
  open laws use {cell}

  inside_slot : {i : ℕ} → i < end_to info → i < span
  inside_slot p =
      let u : suc plan.to_sectors * sector_size ≡ plan.to_sectors * sector_size + sector_size =
        suc-mul plan.to_sectors sector_size in
      let room = z.room_to in let enough = z.is_plan.to.enough in omega arith

  -- A flash that differs from another one in the sector that a turn writes.
  pub data Torn (s s' : S) : Phase → ℕ → Type 0 where
    torn_up :
        {k : ℕ}
        → ((e i : ℕ)
            → Outside info.to.flash_device (info.to.hdr_start + suc k * sector_size) sector_size e i
            → cell s' e i ≡ cell s e i)
        → Torn s s' move_up k
    torn_first :
        {k : ℕ}
        → k * sector_size < end_fr info
        → ((e i : ℕ)
            → Outside info.to.flash_device (info.to.hdr_start + k * sector_size) sector_size e i
            → cell s' e i ≡ cell s e i)
        → Torn s s' swp_p1 k
    torn_second :
        {k : ℕ}
        → k * sector_size < end_to info
        → ((e i : ℕ)
            → Outside info.fr.flash_device (info.fr.hdr_start + k * sector_size) sector_size e i
            → cell s' e i ≡ cell s e i)
        → Torn s s' swp_p2 k

  -- The turn can be done again.
  Torn-Halfway :
      (s s' : S) (p : Phase) (k : ℕ)
      → Torn s s' p k
      → Halfway fl sums tc board mine area laws enc encrypts enc-lt info plan s0 p k s
      → Halfway fl sums tc board mine area laws enc encrypts enc-lt info plan s0 p k s'
  Torn-Halfway s s' move_up k (torn_up same) (raises h r) =
      let v : suc (suc k) * sector_size ≡ suc k * sector_size + sector_size =
        suc-mul (suc k) sector_size in
      let more : suc k * sector_size ≤ plan.to_sectors * sector_size =
        mul-le-mul_right sector_size h in
      let room = z.room_to in
      let room_fr = z.room_fr in
      let enough = z.is_plan.fr.enough in
      let u : suc plan.to_sectors * sector_size ≡ plan.to_sectors * sector_size + sector_size =
        suc-mul plan.to_sectors sector_size in
      raises h (record {
        lifted = record {
          up = λ i p q. same _ _ (inr (inr (omega arith))) ∙ r.lifted.up i p q;
          place = λ i p. same _ _ (inr (inl (omega arith))) ∙ r.lifted.place i p;
        };
        waits = λ i p.
            same _ _ (
              Outside-parts info.fr.flash_device info.fr.hdr_start info.to.flash_device
                info.to.hdr_start span (suc k * sector_size) i sector_size (omega arith)
                (omega arith)
                (Apart-sym info.to.flash_device info.to.hdr_start info.fr.flash_device
                  info.fr.hdr_start span apart))
            ∙ r.waits i p;
      })
  Torn-Halfway s s' swp_p1 k (torn_first inside same) (takes r) =
      let o = k * sector_size in
      let v : suc k * sector_size ≡ o + sector_size = suc-mul k sector_size in
      let more = sector-lt k z.is_plan.fr inside in
      let room_fr = z.room_fr in
      let enough = z.is_plan.fr.enough in
      let stays : (i : ℕ)
          → i < span
          → cell s' info.fr.flash_device (info.fr.hdr_start + i)
            ≡ cell s info.fr.flash_device (info.fr.hdr_start + i) =
        λ i q. same _ _ (
          Outside-parts info.fr.flash_device info.fr.hdr_start info.to.flash_device
            info.to.hdr_start span o i sector_size (omega arith) q
            (Apart-sym info.to.flash_device info.to.hdr_start info.fr.flash_device info.fr.hdr_start
              span apart)) in
      takes (record {
        fr_in = λ i p q. same _ _ (inr (inl (omega arith))) ∙ r.fr_in i p q;
        to_in = λ i p q. stays i (inside_slot q) ∙ r.to_in i p q;
        fr_left = λ i p q. stays i (omega arith) ∙ r.fr_left i p q;
        to_left = λ i p q. same _ _ (inr (inr (omega arith))) ∙ r.to_left i p q;
      })
  Torn-Halfway s s' swp_p2 k (torn_second inside same) (gives r) =
      let o = k * sector_size in
      let v : suc k * sector_size ≡ o + sector_size = suc-mul k sector_size in
      let more = sector-lt k z.is_plan.to inside in
      let room = z.room_to in
      let room_fr = z.room_fr in
      let enough = z.is_plan.fr.enough in
      let enough_to = z.is_plan.to.enough in
      let u : suc plan.to_sectors * sector_size ≡ plan.to_sectors * sector_size + sector_size =
        suc-mul plan.to_sectors sector_size in
      let stays : (i : ℕ)
          → i < span
          → cell s' info.to.flash_device (info.to.hdr_start + i)
            ≡ cell s info.to.flash_device (info.to.hdr_start + i) =
        λ i q. same _ _ (
          Outside-parts info.to.flash_device info.to.hdr_start info.fr.flash_device
            info.fr.hdr_start span o i sector_size (omega arith) q apart) in
      gives (record {
        fr_in = λ i p q. stays i (omega arith) ∙ r.fr_in i p q;
        to_in = λ i p q. same _ _ (inr (inl (omega arith))) ∙ r.to_in i p q;
        fr_left = λ i p q. same _ _ (inr (inr (omega arith))) ∙ r.fr_left i p q;
        to_left = λ i p q. stays (sector_size + i) (omega arith) ∙ r.to_left i p q;
      })
  Torn-Halfway s s' swp_start k t _ = elim t [ ]
  Torn-Halfway s s' swp_p3 k t _ = elim t [ ]
  Torn-Halfway s s' swp_p4 k t _ = elim t [ ]
  Torn-Halfway s s' swp_end k t _ = elim t [ ]

  -- After a power failure in the middle of a turn of a swap that is not in place, whatever it left
  -- in the sector that the turn writes, doing the turn again with the same image information still
  -- leads to phase 3, within the bound of turns of the switch, and to the exchanged images, if the
  -- slots hold what they are to hold at the command. Conditions: the sector of the command is at
  -- most 255; each image has at most 255 sectors, since cmd3 is one byte, and does not end in front
  -- of its start; a sector has at least one and at most 2 ^ 24 bytes, in whole cipher blocks; an
  -- image that is not plain has its encrypted part start at a multiple of 16 bytes and not behind
  -- its end; the image to swap out ends more than a sector below 2 ^ 32; the slots start at whole
  -- sectors, lie in devices that are there, do not meet, and have room for the images and for a
  -- sector above the image to swap out.
  pub switches-Torn :
      (s s' : S) (mcmd : ZbMoveCmd) (cmd : ZbCmd) (p : Phase) (k : ℕ)
      → k ≤ 255
      → Halfway fl sums tc board mine area laws enc encrypts enc-lt info plan s0 p k s
      → Torn s s' p k
      → (m : ℕ) × (k' : ℕ) × (m ≤ turns_left plan p k)
        × ((switches fl sums tc board mine area m s' info mcmd false (command cmd p k)).cmd
            ≡ command cmd swp_p3 k')
        × ((cells
                (cell
                  (switches fl sums tc board mine area m s' info mcmd false (command cmd p k)).flash
                  info.to.flash_device)
                info.to.hdr_start
                (end_fr info)
              ≡ cells
                  (decrypted (enc info.fr.enc_key) info.fr.enc_start (cell s0 info.fr.flash_device))
                  info.fr.hdr_start
                  (end_fr info))
            × (cells
                  (cell
                    (switches fl sums tc board mine area m s' info mcmd false
                      (command cmd p k)).flash
                    info.fr.flash_device)
                  info.fr.hdr_start
                  (end_to info)
                ≡ cells
                    (decrypted
                      (enc info.to.enc_key)
                      info.to.enc_start
                      (cell s0 info.to.flash_device))
                    info.to.hdr_start
                    (end_to info)))
  switches-Torn s s' mcmd cmd p k few h torn =
      Halfway-Arrives fl sums tc board mine area laws enc encrypts enc-lt info plan z apart s0
        (turns_left plan p k) s' mcmd cmd p k few (omega arith) (Torn-Halfway s s' p k torn h)
