-- ===== src/Swap/Reach.antt =====
-- What the turns of a swap keep, and what is there when they reach phase 3, for the `switch` of
-- zb_img_cmd_proc (zepboot/src/zb_move.c).
use zepboot.Base.{ℕ, zero, suc, ◌≤◌, ◌<◌, ◌≡◌, ◌⊎◌, refl, sym, arith, Bool, inl, inr}
use mathlib.Core.Path.{subst}
use zepboot.Platform.{Flash, Checksums}
use zepboot.Board.{Board, ZbSltArea}
use zepboot.TinyCrypt.{TinyCrypt}
use zepboot.Cmd.{ZbCmd}
use zepboot.Move.{ZbMoveCmd, ZbImgSwpInfo}
use zepboot.Swap.{SwapLocals}
use zepboot.Swap.Proc.{switch}
use zepboot.Swap.Steps.{
  Phase, swp_start, move_up, swp_p1, swp_p2, swp_p3, Plan, next, turns_left, next-turns_left,
  next-sector_bound,
}
use zepboot.Swap.Order.{IsPlan, command, switch-next}
use zepboot.Swap.End.{switches}

-- The phases before phase 3.
pub data Moves : Phase → Type 0 where
  starts : Moves swp_start
  up : Moves move_up
  first : Moves swp_p1
  second : Moves swp_p2

Moves-turns_left : (plan : Plan) (p : Phase) (k : ℕ) → Moves p → 0 < turns_left plan p k
unfolding turns_left
Moves-turns_left plan p k starts = omega arith
Moves-turns_left plan p k up = omega arith
Moves-turns_left plan p k first = omega arith
Moves-turns_left plan p k second = omega arith

module _ {S H : Type 0} (fl : Flash S) (sums : Checksums) (tc : TinyCrypt H) (board : Board)
    (mine : SwapLocals) (area : ZbSltArea) (info : ZbImgSwpInfo) (inplace : Bool)
    (Good : S → Type 0) where
  -- At most `n` turns hand over to phase 3, and leave a good flash.
  abbrev pub Arrives : ℕ → S → ZbMoveCmd → ZbCmd → Phase → ℕ → Type 0
  Arrives n s mcmd cmd p k =
      (m : ℕ) × (k' : ℕ) × (m ≤ n)
      × ((switches fl sums tc board mine area m s info mcmd inplace (command cmd p k)).cmd
          ≡ command cmd swp_p3 k')
      × Good (switches fl sums tc board mine area m s info mcmd inplace (command cmd p k)).flash

  at_once-Arrives :
      (n : ℕ) (s : S) (mcmd : ZbMoveCmd) (cmd : ZbCmd) (p : Phase) (k : ℕ)
      → p ≡ swp_p3
      → Good s
      → Arrives n s mcmd cmd p k
  unfolding switches
  at_once-Arrives n s mcmd cmd p k e good =
      subst (λ q. Arrives n s mcmd cmd q k) (sym e) (0, k, omega arith, refl, good)

  module _ (plan : Plan) (z : IsPlan board.sector_size info inplace plan) where
    -- A turn first.
    later-Arrives :
        (n : ℕ) (s : S) (mcmd : ZbMoveCmd) (cmd : ZbCmd) (p : Phase) (k : ℕ)
        → k ≤ 255
        → (let done = switch fl sums tc board mine area s info mcmd inplace (command cmd p k) in
            Arrives n done.flash done.mcmd cmd (next plan p k).0 (next plan p k).1)
        → Arrives (suc n) s mcmd cmd p k
    unfolding switches
    later-Arrives n s mcmd cmd p k few r =
        let done = switch fl sums tc board mine area s info mcmd inplace (command cmd p k) in
        let step =
          sym (switch-next fl sums tc board mine area s info mcmd inplace plan cmd p k z few) in
        let fewer = r.2 in
        (
          suc r.0,
          r.1,
          omega arith,
          subst
              (λ c.
                (switches fl sums tc board mine area r.0 done.flash info done.mcmd inplace c).cmd
                ≡ command cmd swp_p3 r.1)
              step r.3,
          subst
              (λ c.
                Good
                  (switches fl sums tc board mine area r.0 done.flash info done.mcmd inplace
                    c).flash)
              step r.4,
        )

    -- What every turn before phase 3 keeps, and what makes the flash good at phase 3, leads there.
    pub invariant-Arrives :
        (Kept : Phase → ℕ → S → Type 0)
        → ((s : S) (mcmd : ZbMoveCmd) (cmd : ZbCmd) (p : Phase) (k : ℕ)
            → Moves p
            → k ≤ 255
            → Kept p k s
            → Kept
                (next plan p k).0
                (next plan p k).1
                (switch fl sums tc board mine area s info mcmd inplace (command cmd p k)).flash)
        → ((p : Phase) (k : ℕ) (s : S) → Kept p k s → Moves p ⊎ ((p ≡ swp_p3) × Good s))
        → (n : ℕ) (s : S) (mcmd : ZbMoveCmd) (cmd : ZbCmd) (p : Phase) (k : ℕ) → k ≤ 255
        → turns_left plan p k ≤ n
        → Kept p k s
        → Arrives n s mcmd cmd p k
    invariant-Arrives Kept keep cases zero s mcmd cmd p k few turns h = elim (cases p k s h) [
      | inl m ↦
          let more : 0 < turns_left plan p k = Moves-turns_left plan p k m in absurd (omega arith)
      | inr (e, good) ↦ at_once-Arrives zero s mcmd cmd p k e good
    ]
    invariant-Arrives Kept keep cases (suc n) s mcmd cmd p k few turns h = elim (cases p k s h) [
      | inl m ↦
          let done = switch fl sums tc board mine area s info mcmd inplace (command cmd p k) in
          let fewer = next-turns_left plan p k in
          later-Arrives n s mcmd cmd p k few (
            invariant-Arrives Kept keep cases n done.flash done.mcmd cmd (next plan p k).0
              (next plan p k).1 (next-sector_bound plan p k 255 few z.fr.few z.to.few) (omega arith)
              (keep s mcmd cmd p k m few h))
      | inr (e, good) ↦ at_once-Arrives (suc n) s mcmd cmd p k e good
    ]
