-- ===== src/Swap/End.antt =====
-- A swap comes to its end: the `switch` of zb_img_cmd_proc (zepboot/src/zb_move.c), turn by turn.
use zepboot.Base.{ℕ, zero, suc, ◌≤◌, ◌≡◌, sym, Bool, arith}
use mathlib.Core.Path.{subst}
use zepboot.Platform.{Flash, Checksums}
use zepboot.Board.{Board, ZbSltArea}
use zepboot.Cmd.{ZbCmd}
use zepboot.TinyCrypt.{TinyCrypt}
use zepboot.Move.{ZbMoveCmd, ZbImgSwpInfo}
use zepboot.Swap.{SwapLocals, cmd2_swp_end}
use zepboot.Swap.Proc.{Switched, switch}
use zepboot.Swap.Steps.{
  Phase, Plan, next, turns_left, turns_left-is_end, next-turns_left, next-sector_bound,
}
use zepboot.Swap.Order.{IsPlan, command, switch-next}

module _ {S H : Type 0} (fl : Flash S) (sums : Checksums) (tc : TinyCrypt H) (board : Board)
    (mine : SwapLocals) (area : ZbSltArea) where
  -- The turns of the loop, each with the command that the one before has left.
  unfoldable pub switches : ℕ → S → ZbImgSwpInfo → ZbMoveCmd → Bool → ZbCmd → Switched S
  switches zero s info mcmd inplace cmd = record { cmd = cmd; mcmd = mcmd; flash = s }
  switches (suc n) s info mcmd inplace cmd =
      let done = switch fl sums tc board mine area s info mcmd inplace cmd in
      switches n done.flash info done.mcmd inplace done.cmd

  -- From a command of a swap, the turns that are left by the bound, or more of them, lead to
  -- CMD2_SWP_END. Conditions: the sector of the command is at most 255, and so is the number of
  -- sectors of each image, since cmd3 is one byte; a sector has at least one and at most 2 ^ 24
  -- bytes; the image to swap out does not end in front of its start, and ends more than a sector
  -- below 2 ^ 32.
  pub switches-end :
      (n : ℕ) (s : S) (info : ZbImgSwpInfo) (mcmd : ZbMoveCmd) (inplace : Bool) (plan : Plan)
      (cmd : ZbCmd) (p : Phase) (k : ℕ)
      → IsPlan board.sector_size info inplace plan
      → k ≤ 255
      → turns_left plan p k ≤ n
      → (switches n s info mcmd inplace (command cmd p k)).cmd.cmd2 ≡ cmd2_swp_end
  unfolding switches
  switches-end zero s info mcmd inplace plan cmd p k z few turns = turns_left-is_end plan p k turns
  switches-end (suc n) s info mcmd inplace plan cmd p k z few turns =
      let done = switch fl sums tc board mine area s info mcmd inplace (command cmd p k) in
      let p' = (next plan p k).0 in
      let k' = (next plan p k).1 in
      let fewer = next-turns_left plan p k in
      subst (λ c. (switches n done.flash info done.mcmd inplace c).cmd.cmd2 ≡ cmd2_swp_end)
        (sym (switch-next fl sums tc board mine area s info mcmd inplace plan cmd p k z few))
        (switches-end n done.flash info done.mcmd inplace plan cmd p' k' z
          (next-sector_bound plan p k 255 few z.fr.few z.to.few) (omega arith))
