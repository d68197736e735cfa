-- ===== src/Swap/Whole.antt =====
-- The loop of zb_img_cmd_proc (zepboot/src/zb_move.c) from the command CMD2_SWP_START to CMD2_SWP_END,
-- for any invariant of the turns before phase 3.
use zepboot.Base.{
  ℕ, ◌+◌, ◌%◌, ◌^◌, ◌≤◌, ◌<◌, ◌≡◌, ◌≢◌, ◌⊎◌, ◌∙◌, arith, Bool, List, [], ◌∷◌, bit_or, refl, true,
  false, none, some, length, if◌then◌else◌, eq→==,
}
use zepboot.Platform.{Flash, Checksums, ok, enoent}
use zepboot.Platform.Laws.{FlashLaws}
use zepboot.Board.{Board, ZbSltArea}
use zepboot.TinyCrypt.{TinyCrypt}
use zepboot.Cmd.{
  ZbCmd, CmdLoc, zb_erase_slt1end, zb_cmd_read_slt0end, zb_cmd_read_slt1end, zb_cmd_read_swpstat,
}
use zepboot.Cmd.Read.{Location, LogOf, zb_cmd_read-last_sound}
use zepboot.Cmd.Append.{sealed, Crc8IsByte}
use zepboot.Move.{ZbMoveCmd, ZbImgSwpInfo}
use zepboot.Swap.{SwapLocals, cmd1_mask_swp_perm, cmd1_error, zb_get_img_swp_info}
use zepboot.Swap.Proc.{switch, proc_p3, proc_p4, zb_img_cmd_proc}
use zepboot.Swap.Steps.{
  Phase, swp_start, move_up, swp_p1, swp_p2, swp_p3, swp_p4, swp_end, Plan, next, turns_left,
}
use zepboot.Swap.Order.{command, IsPlan}
use zepboot.Swap.Sector.{Outside}
use zepboot.Swap.Reach.{Moves, starts, up, first, second}
use zepboot.Swap.Ends.{SectorEnd, slt0end, slt1end, erased_end, blanked-Outside}
use zepboot.Swap.Layout.{EndsApart, untouched, same-LogOf, end-LogOf}
use zepboot.Swap.Record.{p3_done, p3_done_cmd1, p3-Recorded}
use zepboot.Swap.Loop.{stored, fields-stored}
use mathlib.Core.Path.{subst}
use zepboot.Cmd.Log.{is_sound, last_sound}
use zepboot.Swap.Finish.{proc_loop-Ends}
use zepboot.Swap.Kept.{Upholds, Kept, Half-Kept, status_low, status-Kept}

module _ {S H : Type 0} (fl : Flash S) (sums : Checksums) (tc : TinyCrypt H) (board : Board)
    (mine : SwapLocals) (area : ZbSltArea) (laws : FlashLaws fl board.sector_size)
    (info : ZbImgSwpInfo) (plan : Plan) (inplace : Bool) (c : ZbCmd) (status : CmdLoc)
    (Half : Phase → ℕ → S → Type 0) (Good : S → Type 0)
    (upholds : Upholds fl sums tc board mine area laws info plan inplace c status Half Good)
    {n0 n1 n : ℕ} (here : Location laws board area 2 status n)
    (end0 : SectorEnd board area laws 0 (slt0end board area) n0)
    (end1 : SectorEnd board area laws 1 (slt1end board area) n1)
    (ends : EndsApart board area status) (whole : board.sector_size % 16 ≡ 0)
    (byte : Crc8IsByte sums) (good_cmd1 : c.cmd1 < 2 ^ 8) where
  open board use {sector_size}
  open laws use {cell}

  abbrev Keeps : Phase → ℕ → S → Type 0
  Keeps =
      Kept fl sums tc board mine area laws info plan inplace c status Half Good upholds here end0
        end1 ends

  p3-Keeps :
      (s : S) (mcmd : ZbMoveCmd) (k : ℕ) (log : List ZbCmd)
      → k ≤ 255
      → Keeps swp_p3 k s
      → LogOf here s log
      → let s' =
          (proc_p3 fl sums tc board mine area s mcmd inplace
            (command (stored sums inplace c swp_p3 k) swp_p3 k)).flash in
        Keeps swp_p4 k s' × LogOf here s' log
  p3-Keeps s mcmd k log few good holds =
      let low =
        status_low fl sums tc board mine area laws info plan inplace c status Half Good upholds here
          end0 end1 ends in
      let cmd = stored sums inplace c swp_p3 k in
      let s' = (proc_p3 fl sums tc board mine area s mcmd inplace (command cmd swp_p3 k)).flash in
      let f = (fields-stored sums inplace c swp_p3 k).0 in
      let small : cmd.cmd1 < 2 ^ 8 = rw f good_cmd1 in
      let r =
        p3-Recorded fl sums tc board mine area end0 whole byte s mcmd inplace cmd k small few in
      let done = p3_done fl sums tc board mine area s inplace cmd k in
      (
        (
          upholds.good_end0 s s' r.keeps good,
          (
            done,
            subst (λ x. (done.cmd1 ≡ x) ⊎ (done.cmd1 ≡ bit_or x cmd1_mask_swp_perm)) f
                (p3_done_cmd1 fl sums tc board mine area s inplace cmd k),
            r.logged,
          ),
        ),
        same-LogOf board area laws s s' here log low
            (untouched board area laws s s' r.keeps ends.status_end0) holds,
      )

  p4-Keeps :
      (s : S) (mcmd : ZbMoveCmd) (k : ℕ) (log : List ZbCmd)
      → Keeps swp_p4 k s
      → LogOf here s log
      → let s' =
          (proc_p4 fl sums tc board mine area s mcmd inplace
            (command (stored sums inplace c swp_p4 k) swp_p4 k)).flash in
        Keeps swp_end k s' × LogOf here s' log
  unfolding proc_p4
  p4-Keeps s mcmd k log (good, (done, cmd1, logged)) holds =
      let low =
        status_low fl sums tc board mine area laws info plan inplace c status Half Good upholds here
          end0 end1 ends in
      let s' = (zb_erase_slt1end fl board s area).1 in
      let keeps : (e i : ℕ)
          → Outside area.slt1_fldev (slt1end board area).start sector_size e i
          → cell s' e i ≡ cell s e i =
        λ e i out.
          (erased_end board area laws end1 s).1 e i
          ∙ blanked-Outside (cell s) area.slt1_fldev (slt1end board area).start sector_size e i
              out in
      (
        (
          upholds.good_end1 s s' keeps good,
          (
            (
              done,
              cmd1,
              end-LogOf board area laws s s' end0 (sealed sums done ∷ []) keeps ends.both logged,
            ),
            (erased_end board area laws end1 s).0,
          ),
        ),
        same-LogOf board area laws s s' here log low
            (untouched board area laws s s' keeps ends.status_end1) holds,
      )

  moves-Keeps :
      (s : S) (mcmd : ZbMoveCmd) (p : Phase) (k : ℕ) (log : List ZbCmd)
      → Moves p
      → k ≤ 255
      → Half p k s
      → LogOf here s log
      → let s' =
          (switch fl sums tc board mine area s info mcmd inplace
            (command (stored sums inplace c p k) p k)).flash in
        Keeps (next plan p k).0 (next plan p k).1 s' × LogOf here s' log
  moves-Keeps s mcmd p k log m few h holds =
      let low =
        status_low fl sums tc board mine area laws info plan inplace c status Half Good upholds here
          end0 end1 ends in
      let cmd = stored sums inplace c p k in
      let s' = (switch fl sums tc board mine area s info mcmd inplace (command cmd p k)).flash in
      let r = upholds.turns s mcmd p k m few h in
      (
        Half-Kept fl sums tc board mine area laws info plan inplace c status Half Good upholds here
            end0 end1 ends (next plan p k).0 (next plan p k).1 s' r.0,
        same-LogOf board area laws s s' here log low r.1 holds,
      )

  -- Each turn keeps what the swap has reached, and the log of the status.
  switch-Keeps :
      (s : S) (mcmd : ZbMoveCmd) (p : Phase) (k : ℕ) (log : List ZbCmd)
      → p ≢ swp_end
      → k ≤ 255
      → Keeps p k s
      → LogOf here s log
      → let s' =
          (switch fl sums tc board mine area s info mcmd inplace
            (command (stored sums inplace c p k) p k)).flash in
        Keeps (next plan p k).0 (next plan p k).1 s' × LogOf here s' log
  unfolding switch next
  switch-Keeps s mcmd swp_start k log ne few h holds =
      moves-Keeps s mcmd swp_start k log starts few h holds
  switch-Keeps s mcmd move_up k log ne few h holds = moves-Keeps s mcmd move_up k log up few h holds
  switch-Keeps s mcmd swp_p1 k log ne few h holds =
      moves-Keeps s mcmd swp_p1 k log first few h holds
  switch-Keeps s mcmd swp_p2 k log ne few h holds =
      moves-Keeps s mcmd swp_p2 k log second few h holds
  switch-Keeps s mcmd swp_p3 k log ne few h holds = p3-Keeps s mcmd k log few h holds
  switch-Keeps s mcmd swp_p4 k log ne few h holds = p4-Keeps s mcmd k log h holds
  switch-Keeps s mcmd swp_end k log ne few h holds = absurd (ne refl)

  -- zb_img_cmd_proc with `fuel` turns returns with CMD2_SWP_END in the swap status, the command of
  -- the swap, perhaps made permanent, at the end of slot 0, no command at the end of slot 1, and the
  -- images as they are to be.
  pub record Completes (fuel : ℕ) (s0 : S) (info0 : ZbImgSwpInfo) : Type 0 where
    pub after : S
    pub sector : ℕ
    pub done : ZbCmd
    pub returns : zb_img_cmd_proc fl sums tc board mine area fuel s0 info0 ≡ some after
    pub good : Good after
    pub ended :
        (other : ZbCmd)
        → zb_cmd_read_swpstat fl sums board after area other
          ≡ (ok, stored sums inplace c swp_end sector)
    pub signed :
        (other : ZbCmd)
        → zb_cmd_read_slt0end fl sums board after area other ≡ (ok, sealed sums done)
    pub cleared : (other : ZbCmd) → (zb_cmd_read_slt1end fl sums board after area other).0 ≡ enoent
    pub flags : (done.cmd1 ≡ c.cmd1) ⊎ (done.cmd1 ≡ bit_or c.cmd1 cmd1_mask_swp_perm)

  pub zb_img_cmd_proc-Completes :
      IsPlan sector_size info inplace plan
      → c.cmd1 ≢ cmd1_error
      → info.loaded ≡ true
      → (fuel : ℕ) (s0 : S) (info0 : ZbImgSwpInfo) (log : List ZbCmd) → Half swp_start 0 s0
      → (if info0.loaded
          then info0
          else zb_get_img_swp_info fl sums tc board mine area s0 info0
              (stored sums inplace c swp_start 0))
        ≡ info
      → LogOf here s0 log
      → last_sound sums none log ≡ some (stored sums inplace c swp_start 0)
      → length log + turns_left plan swp_start 0 ≤ n
      → turns_left plan swp_start 0 < fuel
      → Completes fuel s0 info0
  unfolding zb_img_cmd_proc
  zb_img_cmd_proc-Completes z no_error loaded fuel s0 info0 log half informed holds last room
        fuelled =
      let ends' =
        proc_loop-Ends fl sums tc board mine area info inplace c plan z here byte good_cmd1 no_error
          loaded Keeps switch-Keeps
          (status-Kept fl sums tc board mine area laws info plan inplace c status Half Good upholds
            here end0 end1 ends)
          (turns_left plan swp_start 0) fuel
          (record { flash = s0; info = info0; cmd = mine.cmd; mcmd = mine.mcmd; inplace = false })
          swp_start 0 log (omega arith) fuelled room (omega arith)
          (record { informed = informed; mark = refl }) (record { holds = holds; last = last })
          half in
      let (s', k, log', e, at, (good, ((done, cmd1, logged), cleared))) = ends' in
      let sound : is_sound sums (sealed sums done) ≡ true = eq→== _ _ refl in
      record {
        after = s';
        sector = k;
        done = done;
        returns = e;
        good = good;
        ended = λ other. let r = zb_cmd_read-last_sound here sums other at.holds in rw at.last at r;
        signed =
            λ other. let r = zb_cmd_read-last_sound end0.here sums other logged in rw sound at r;
        cleared = λ other. zb_cmd_read-last_sound end1.here sums other cleared;
        flags = cmd1;
      }
