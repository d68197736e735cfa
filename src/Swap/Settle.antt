-- ===== src/Swap/Settle.antt =====
-- A swap in place, as a whole: zb_img_cmd_proc (zepboot/src/zb_move.c) from the command CMD2_SWP_START in
-- the swap status to CMD2_SWP_END.
use zepboot.Base.{
  ℕ, ◌+◌, ◌^◌, ◌≤◌, ◌<◌, ◌≡◌, ◌≢◌, ◌⊎◌, refl, true, List, byte_at, none, some, length, bit_or,
  if◌then◌else◌,
}
use zepboot.Base.Ranges.{cells}
use zepboot.Platform.{Flash, Checksums, ok, enoent}
use zepboot.Platform.Laws.{FlashLaws}
use zepboot.Board.{Board, ZbSltArea}
use zepboot.TinyCrypt.{TinyCrypt}
use zepboot.Aes.Stream.{Encrypts}
use zepboot.Cmd.{ZbCmd, CmdLoc, zb_cmd_read_slt0end, zb_cmd_read_slt1end, zb_cmd_read_swpstat}
use zepboot.Move.{ZbImgSwpInfo}
use zepboot.Move.Chunk.{decrypted}
use zepboot.Swap.{SwapLocals, end_to, cmd1_error, cmd1_mask_swp_perm, zb_get_img_swp_info}
use zepboot.Swap.Steps.{swp_start, swp_end, Plan, turns_left}
use zepboot.Swap.Slots.{Slots}
use zepboot.Cmd.Log.{last_sound}
use zepboot.Cmd.Read.{Location, LogOf}
use zepboot.Cmd.Append.{sealed, Crc8IsByte}
use zepboot.Swap.Proc.{zb_img_cmd_proc}
use zepboot.Swap.Ends.{SectorEnd, slt0end, slt1end}
use zepboot.Swap.Layout.{Layout, Disjoint-sym, Disjoint-Outside, untouched}
use zepboot.Swap.Loop.{stored}
use zepboot.Swap.Kept.{Upholds}
use zepboot.Swap.Whole.{zb_img_cmd_proc-Completes}
use zepboot.Swap.InPlace.{IsInPlace, Along, begins, switch-Along, Along-cases, Decrypted}
use zepboot.Swap.Stays.{switch-Outside, Along-same, Decrypted-same}

module _ {S H : Type 0} (fl : Flash S) (sums : Checksums) (tc : TinyCrypt H) (board : Board)
    (mine : SwapLocals) (area : ZbSltArea) (laws : FlashLaws fl board.sector_size)
    (enc : List ℕ → List ℕ → List ℕ)
    (encrypts : (key : List ℕ) → Encrypts tc.aes_encrypt key (enc key))
    (enc-lt : (key block : List ℕ) (i : ℕ) → byte_at (enc key block) i < 2 ^ 8)
    (info : ZbImgSwpInfo) (plan : Plan) {span : ℕ}
    (z : Slots fl sums tc board mine area laws enc encrypts enc-lt info plan true span)
    (one : IsInPlace info plan) {n0 n1 n : ℕ} {status : CmdLoc}
    (here : Location laws board area 2 status n)
    (end0 : SectorEnd board area laws 0 (slt0end board area) n0)
    (end1 : SectorEnd board area laws 1 (slt1end board area) n1)
    (layout : Layout board area info span status) (byte : Crc8IsByte sums) (c : ZbCmd)
    (good_cmd1 : c.cmd1 < 2 ^ 8) (no_error : c.cmd1 ≢ cmd1_error) (loaded : info.loaded ≡ true)
    (s0 : S) where
  open laws use {cell}

  Along-Upholds :
      Upholds fl sums tc board mine area laws info plan true c status
        (Along fl sums tc board mine area laws enc encrypts enc-lt info plan s0)
        (Decrypted fl sums tc board mine area laws enc encrypts enc-lt info plan s0)
  Along-Upholds = record {
    cases = Along-cases fl sums tc board mine area laws enc encrypts enc-lt info plan s0;
    turns = λ s mcmd p k m few h. (
      switch-Along fl sums tc board mine area laws enc encrypts enc-lt info plan z one s0 s mcmd
          (stored sums true c p k) k p m few h,
      λ i q.
          switch-Outside fl sums tc board mine area laws enc encrypts enc-lt info plan z one s0 s
            mcmd (stored sums true c p k) k few p m h status.fl_dev (status.start + i)
            (Disjoint-Outside i (Disjoint-sym layout.to.log) q)
            (Disjoint-Outside i (Disjoint-sym layout.fr.log) q),
    );
    half_status = λ p k s s' only.
        Along-same fl sums tc board mine area laws enc encrypts enc-lt info plan z one s0 s s'
          (untouched board area laws s s' only layout.to.log)
          (untouched board area laws s s' only layout.fr.log) p k;
    good_status = λ s s' only.
        Decrypted-same fl sums tc board mine area laws enc encrypts enc-lt info plan z one s0 s s'
          (untouched board area laws s s' only layout.to.log)
          (untouched board area laws s s' only layout.fr.log);
    good_end0 = λ s s' only.
        Decrypted-same fl sums tc board mine area laws enc encrypts enc-lt info plan z one s0 s s'
          (untouched board area laws s s' only layout.to.end0)
          (untouched board area laws s s' only layout.fr.end0);
    good_end1 = λ s s' only.
        Decrypted-same fl sums tc board mine area laws enc encrypts enc-lt info plan z one s0 s s'
          (untouched board area laws s s' only layout.to.end1)
          (untouched board area laws s s' only layout.fr.end1);
  }

  -- zb_img_cmd_proc for a swap in place, of an encrypted image that is not empty, with
  -- CMD2_SWP_START as the last sound command of the swap status, returns within the bound of turns:
  -- the slot then holds the image, decrypted, the swap status reads as CMD2_SWP_END in place, the
  -- end of slot 0 as the command of the swap, perhaps made permanent, and the end of slot 1 as no
  -- command. Conditions: the image has at most 255 sectors, since cmd3 is one byte, and does not
  -- end in front of its start; a sector has at least one and at most 2 ^ 24 bytes, in whole cipher
  -- blocks; its encrypted part starts at a multiple of 16 bytes and not behind its end; it ends
  -- more than a sector below 2 ^ 32; the slot starts at a whole sector, lies in a device that is
  -- there, and has room for the image and for a sector above it; the swap status starts at a whole
  -- write block of a device that is there, consists of whole records, and has room for a command of
  -- each turn; it, the ends of the slots (whole sectors of devices that are there, with room for
  -- their commands) and the part of the slot in front of its end are apart from each other; cmd1 of
  -- the command to process is a byte and not CMD1_ERROR, and a crc8 is a byte.
  pub zb_img_cmd_proc-Decrypted :
      (fuel : ℕ) (info0 : ZbImgSwpInfo) (log : List ZbCmd)
      → (if info0.loaded
          then info0
          else zb_get_img_swp_info fl sums tc board mine area s0 info0
              (stored sums true c swp_start 0))
        ≡ info
      → LogOf here s0 log
      → last_sound sums none log ≡ some (stored sums true c swp_start 0)
      → length log + turns_left plan swp_start 0 ≤ n
      → turns_left plan swp_start 0 < fuel
      → (s' : S) × (k : ℕ) × (done : ZbCmd) × (zb_img_cmd_proc fl sums tc board mine area fuel s0
            info0
          ≡ some s')
        × (cells (cell s' info.fr.flash_device) info.fr.hdr_start (end_to info)
            ≡ cells
                (decrypted (enc info.to.enc_key) info.to.enc_start (cell s0 info.to.flash_device))
                info.to.hdr_start
                (end_to info))
        × ((other : ZbCmd)
            → zb_cmd_read_swpstat fl sums board s' area other ≡ (ok, stored sums true c swp_end k))
        × ((other : ZbCmd)
            → zb_cmd_read_slt0end fl sums board s' area other ≡ (ok, sealed sums done))
        × ((other : ZbCmd) → (zb_cmd_read_slt1end fl sums board s' area other).0 ≡ enoent)
        × ((done.cmd1 ≡ c.cmd1) ⊎ (done.cmd1 ≡ bit_or c.cmd1 cmd1_mask_swp_perm))
  zb_img_cmd_proc-Decrypted fuel info0 log informed holds last room fuelled =
      let r =
        zb_img_cmd_proc-Completes fl sums tc board mine area laws info plan true c status
          (Along fl sums tc board mine area laws enc encrypts enc-lt info plan s0)
          (Decrypted fl sums tc board mine area laws enc encrypts enc-lt info plan s0) Along-Upholds
          here end0 end1 layout.ends z.block byte good_cmd1 z.is_plan no_error loaded fuel s0 info0
          log (begins (λ i p. refl)) informed holds last room fuelled in
      (r.after, r.sector, r.done, r.returns, r.good, r.ended, r.signed, r.cleared, r.flags)
