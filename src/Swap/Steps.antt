-- ===== src/Swap/Steps.antt =====
-- The order of the commands of a swap: a machine on phases and sectors, for the `switch` of
-- zb_img_cmd_proc in zepboot/src/zb_move.c.
use zepboot.Base.{
  ℕ, zero, suc, ◌+◌, ◌-◌, ◌*◌, ◌≤◌, ◌≡◌, Bool, ◌&&◌, leb, ◌==◌, if◌then◌else◌, arith, refl,
}
use zepboot.Swap.{
  cmd2_swp_start, cmd2_move_up, cmd2_swp_p1, cmd2_swp_p2, cmd2_swp_p3, cmd2_swp_p4, cmd2_swp_end,
}

pub data Phase : Type 0 where
  swp_start move_up swp_p1 swp_p2 swp_p3 swp_p4 swp_end : Phase

-- What decides on the order: whether the image stays in slot 1, whether the image to swap in is
-- not encrypted, and the sectors that the two images take.
pub record Plan : Type 0 where
  pub inplace : Bool
  pub plain : Bool
  pub fr_sectors : ℕ
  pub to_sectors : ℕ

abbrev pub code : Phase → ℕ
code swp_start = cmd2_swp_start
code move_up = cmd2_move_up
code swp_p1 = cmd2_swp_p1
code swp_p2 = cmd2_swp_p2
code swp_p3 = cmd2_swp_p3
code swp_p4 = cmd2_swp_p4
code swp_end = cmd2_swp_end

-- The phase and the sector that follow.
unfoldable pub next : Plan → Phase → ℕ → Phase × ℕ
next plan swp_start k =
    if plan.inplace && plan.plain
    then (swp_p3, 0)
    else (if plan.to_sectors == 0 then (swp_p1, 0) else (move_up, plan.to_sectors - 1))
next plan move_up zero = (if plan.inplace then swp_p2 else swp_p1, 0)
next plan move_up (suc k) = (move_up, k)
next plan swp_p1 k = (if leb plan.fr_sectors k && leb plan.to_sectors k then swp_p3 else swp_p2, k)
next plan swp_p2 k =
    if leb plan.to_sectors k
    then (if leb plan.fr_sectors k then (swp_p3, k) else (swp_p1, k + 1))
    else (if plan.inplace then swp_p2 else swp_p1, k + 1)
next plan swp_p3 k = (swp_p4, k)
next plan swp_p4 k = (swp_end, k)
next plan swp_end k = (swp_end, k)

-- The sectors that are still to be swapped.
abbrev pub sectors_left : Plan → ℕ → ℕ
sectors_left plan k = (plan.fr_sectors + (plan.to_sectors - plan.fr_sectors)) - k

-- A bound of the turns until the end.
unfoldable pub turns_left : Plan → Phase → ℕ → ℕ
turns_left plan swp_start k = 6 + 2 * sectors_left plan 0 + plan.to_sectors
turns_left plan move_up k = 5 + 2 * sectors_left plan 0 + k
turns_left plan swp_p1 k = 4 + 2 * sectors_left plan k
turns_left plan swp_p2 k = 3 + 2 * sectors_left plan k
turns_left plan swp_p3 k = 2
turns_left plan swp_p4 k = 1
turns_left plan swp_end k = 0

-- Each turn leaves one turn less, until none is left.
pub next-turns_left :
    (plan : Plan) (p : Phase) (k : ℕ)
    → turns_left plan (next plan p k).0 (next plan p k).1 ≤ turns_left plan p k - 1
unfolding next turns_left
next-turns_left plan swp_start k = ground arith
next-turns_left plan move_up zero = ground arith
next-turns_left plan move_up (suc k) = omega arith
next-turns_left plan swp_p1 k = ground arith
next-turns_left plan swp_p2 k = ground arith
next-turns_left plan swp_p3 k = omega arith
next-turns_left plan swp_p4 k = omega arith
next-turns_left plan swp_end k = omega arith

-- The sector stays below a bound that is above both images.
pub next-sector_bound :
    (plan : Plan) (p : Phase) (k w : ℕ)
    → k ≤ w
    → plan.fr_sectors ≤ w
    → plan.to_sectors ≤ w
    → (next plan p k).1 ≤ w
unfolding next
next-sector_bound plan swp_start k w h f t = ground arith
next-sector_bound plan move_up zero w h f t = ground arith
next-sector_bound plan move_up (suc k) w h f t = omega arith
next-sector_bound plan swp_p1 k w h f t = ground arith
next-sector_bound plan swp_p2 k w h f t = ground arith
next-sector_bound plan swp_p3 k w h f t = h
next-sector_bound plan swp_p4 k w h f t = h
next-sector_bound plan swp_end k w h f t = h

pub turns_left-is_end :
    (plan : Plan) (p : Phase) (k : ℕ) → turns_left plan p k ≤ 0 → code p ≡ cmd2_swp_end
unfolding turns_left
turns_left-is_end plan swp_start k h = absurd (omega arith)
turns_left-is_end plan move_up k h = absurd (omega arith)
turns_left-is_end plan swp_p1 k h = absurd (omega arith)
turns_left-is_end plan swp_p2 k h = absurd (omega arith)
turns_left-is_end plan swp_p3 k h = absurd (omega arith)
turns_left-is_end plan swp_p4 k h = absurd (omega arith)
turns_left-is_end plan swp_end k h = refl
