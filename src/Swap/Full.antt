-- ===== src/Swap/Full.antt =====
-- A swap status that is full: the loop of zb_img_cmd_proc (zepboot/src/zb_move.c) does not look at the code of
-- zb_cmd_write_swpstat.
use zepboot.Base.{
  ℕ, ◌+◌, ◌^◌, ◌≤◌, ◌<◌, ◌≡◌, ◌≢◌, ◌∙◌, refl, sym, ap, arith, zero, suc, true, false, none, some,
  List, length, byte_at, if◌then◌else◌,
}
use mathlib.Core.Path.{subst}
use zepboot.Platform.{Flash, Checksums}
use zepboot.Platform.Laws.{FlashLaws}
use zepboot.Board.{Board, ZbSltArea}
use zepboot.TinyCrypt.{TinyCrypt}
use zepboot.Aes.Stream.{Encrypts}
use zepboot.Cmd.{ZbCmd, CmdLoc}
use zepboot.Cmd.Log.{last_sound}
use zepboot.Cmd.Read.{Location, LogOf}
use zepboot.Cmd.Append.{Crc8IsByte, zb_cmd_write-full}
use zepboot.Move.{ZbImgSwpInfo}
use zepboot.Move.Paste.{Apart}
use zepboot.Swap.{SwapLocals, cmd1_error, zb_get_img_swp_info}
use zepboot.Swap.Proc.{Round, turn, proc_loop, zb_img_cmd_proc}
use zepboot.Swap.Steps.{Phase, move_up, swp_end, Plan}
use zepboot.Swap.Reach.{Moves, starts, up, first, second}
use zepboot.Swap.Slots.{Slots}
use zepboot.Swap.Frame.{turn-OffSlots}
use zepboot.Swap.Layout.{SlotApart, Disjoint-sym, Disjoint-Outside, same-LogOf}
use zepboot.Swap.Loop.{Ready, AtCmd, turn_lem, proc_loop-AtCmd, stored, switched, follower}

Moves-goes_on : {p : Phase} → Moves p → p ≢ swp_end
Moves-goes_on starts e = cc
Moves-goes_on up e = cc
Moves-goes_on first e = cc
Moves-goes_on second e = cc

module _ {S H : Type 0} (fl : Flash S) (sums : Checksums) (tc : TinyCrypt H) (board : Board)
    (mine : SwapLocals) (area : ZbSltArea) (laws : FlashLaws fl board.sector_size)
    (enc : List ℕ → List ℕ → List ℕ)
    (encrypts : (key : List ℕ) → Encrypts tc.aes_encrypt key (enc key))
    (enc-lt : (key block : List ℕ) (i : ℕ) → byte_at (enc key block) i < 2 ^ 8)
    (info : ZbImgSwpInfo) (plan : Plan) {span : ℕ}
    (z : Slots fl sums tc board mine area laws enc encrypts enc-lt info plan false span)
    (apart : Apart info.to.flash_device info.to.hdr_start info.fr.flash_device info.fr.hdr_start
      span)
    {n : ℕ} {status : CmdLoc} (here : Location laws board area 2 status n)
    (to : SlotApart board area status info.to.flash_device info.to.hdr_start span)
    (fr : SlotApart board area status info.fr.flash_device info.fr.hdr_start span)
    (byte : Crc8IsByte sums) (c : ZbCmd) (good_cmd1 : c.cmd1 < 2 ^ 8)
    (no_error : c.cmd1 ≢ cmd1_error) (loaded : info.loaded ≡ true) where
  open laws use {cell}

  abbrev IsAt : Phase → ℕ → List ZbCmd → S → Type 0
  IsAt =
      AtCmd fl sums tc board mine area info false c plan z.is_plan here byte good_cmd1 no_error
        loaded

  -- The turn finds no room for its command, and leaves the log as it was.
  turn-full :
      (r : Round S) (p : Phase) (k : ℕ) (log : List ZbCmd)
      → Moves p
      → (p ≡ move_up → suc k ≤ plan.to_sectors)
      → k ≤ 255
      → length log ≡ n
      → Ready fl sums tc board mine area info false c p k r
      → IsAt p k log r.flash
      → let r' = turn fl sums tc board mine area r (stored sums false c p k) in
        Ready fl sums tc board mine area info false c p k r' × IsAt p k log r'.flash
  turn-full r p k log m inside few full ready at =
      let cmd = stored sums false c p k in
      let s' = switched fl sums tc board mine area info false c r p k in
      let low : status.start ≤ here.start =
        let first : status.start ≡ here.start = here.first in omega arith in
      let holds : LogOf here s' log =
        same-LogOf board area laws r.flash s' here log low
          (λ i q.
            turn-OffSlots fl sums tc board mine area laws enc encrypts enc-lt info plan z apart
              r.flash r.flash r.mcmd cmd k few p m inside status.fl_dev (status.start + i)
              (
                Disjoint-Outside i (Disjoint-sym to.log) q,
                Disjoint-Outside i (Disjoint-sym fr.log) q,
              ))
          at.holds in
      let e = turn_lem fl sums tc board mine area info false c plan z.is_plan r p k few ready in
      let none_written =
        zb_cmd_write-full here sums (follower fl sums tc board mine area info false c plan p k)
          holds full in
      let same = e.0 ∙ ap (λ x. x.2) none_written in
      (
        record { informed = rw (e.1, loaded) refl; mark = rw e.2 refl },
        subst (IsAt p k log) (sym same) (record { holds = holds; last = at.last }),
      )

  proc_loop-full :
      (p : Phase) (k : ℕ) (log : List ZbCmd)
      → Moves p
      → (p ≡ move_up → suc k ≤ plan.to_sectors)
      → k ≤ 255
      → length log ≡ n
      → (fuel : ℕ) (r : Round S) → Ready fl sums tc board mine area info false c p k r
      → IsAt p k log r.flash
      → proc_loop fl sums tc board mine area fuel r ≡ none
  unfolding proc_loop
  proc_loop-full p k log m inside few full zero r ready at = refl
  proc_loop-full p k log m inside few full (suc fuel) r ready at =
      let t = turn-full r p k log m inside few full ready at in
      proc_loop-AtCmd fl sums tc board mine area info false c plan z.is_plan here byte good_cmd1
        no_error loaded fuel r p k log at (Moves-goes_on m)
      ∙ proc_loop-full p k log m inside few full fuel
          (turn fl sums tc board mine area r (stored sums false c p k)) t.0 t.1

  -- zb_img_cmd_proc does not return, however many turns it has, if the swap status is full and its
  -- last sound command is one of a swap that is not in place, before phase 3: the loop does the
  -- turn of that command again and again. Conditions: cmd1 of the command is a byte and not
  -- CMD1_ERROR, and a crc8 is a byte; the sector of the command is at most 255, and one of the
  -- image to swap out in a move up; the swap status starts at a whole write block of a device that
  -- is there and consists of whole records; each image has at most 255 sectors, since cmd3 is one
  -- byte, and does not end in front of its start; a sector has at least one and at most 2 ^ 24
  -- bytes, in whole cipher blocks; an image that is not plain has its encrypted part start at a
  -- multiple of 16 bytes and not behind its end; the image to swap out ends more than a sector
  -- below 2 ^ 32; the slots start at whole sectors, lie in devices that are there, do not meet, and
  -- have room for the images and for a sector above the image to swap out, and the parts of them in
  -- front of their ends are apart from the ends and from the swap status.
  pub zb_img_cmd_proc-full :
      (fuel : ℕ) (s : S) (info0 : ZbImgSwpInfo) (p : Phase) (k : ℕ) (log : List ZbCmd)
      → Moves p
      → (p ≡ move_up → suc k ≤ plan.to_sectors)
      → k ≤ 255
      → (if info0.loaded
          then info0
          else zb_get_img_swp_info fl sums tc board mine area s info0 (stored sums false c p k))
        ≡ info
      → LogOf here s log
      → last_sound sums none log ≡ some (stored sums false c p k)
      → length log ≡ n
      → zb_img_cmd_proc fl sums tc board mine area fuel s info0 ≡ none
  unfolding zb_img_cmd_proc
  zb_img_cmd_proc-full fuel s info0 p k log m inside few informed holds last full =
      proc_loop-full p k log m inside few full fuel
        (record { flash = s; info = info0; cmd = mine.cmd; mcmd = mine.mcmd; inplace = false })
        (record { informed = informed; mark = refl }) (record { holds = holds; last = last })
