-- ===== src/Swap/Kept.antt =====
-- What a swap has reached at each of its commands, phase 3 and 4 included, and that each turn of
-- zb_img_cmd_proc (zepboot/src/zb_move.c) keeps it: for any invariant of the turns before phase 3.
use zepboot.Base.{ℕ, ◌+◌, ◌-◌, ◌≤◌, ◌<◌, ◌≡◌, ◌⊎◌, arith, Bool, [], ◌∷◌, bit_or, inl, inr}
use zepboot.Platform.{Flash, Checksums}
use zepboot.Platform.Laws.{FlashLaws}
use zepboot.Board.{Board, ZbSltArea}
use zepboot.TinyCrypt.{TinyCrypt}
use zepboot.Cmd.{ZbCmd, CmdLoc}
use zepboot.Cmd.Read.{Location, LogOf}
use zepboot.Cmd.Append.{sealed}
use zepboot.Cmd.Kept.{OffLog}
use zepboot.Move.{ZbMoveCmd, ZbImgSwpInfo}
use zepboot.Swap.{SwapLocals, cmd1_mask_swp_perm}
use zepboot.Swap.Proc.{switch}
use zepboot.Swap.Steps.{
  Phase, swp_start, move_up, swp_p1, swp_p2, swp_p3, swp_p4, swp_end, Plan, next,
}
use zepboot.Swap.Order.{command}
use zepboot.Swap.Sector.{Outside}
use zepboot.Swap.Reach.{Moves}
use zepboot.Swap.Ends.{SectorEnd, slt0end, slt1end}
use zepboot.Swap.Layout.{EndsApart, Disjoint-sym, end-LogOf}
use zepboot.Swap.Loop.{stored}

module _ {S H : Type 0} (fl : Flash S) (sums : Checksums) (tc : TinyCrypt H) (board : Board)
    (mine : SwapLocals) (area : ZbSltArea) (laws : FlashLaws fl board.sector_size)
    (info : ZbImgSwpInfo) (plan : Plan) (inplace : Bool) (c : ZbCmd) (status : CmdLoc)
    (Half : Phase → ℕ → S → Type 0) (Good : S → Type 0) where
  open board use {sector_size}
  open laws use {cell}

  -- No cell outside of a run differs.
  abbrev pub OnlyIn : ℕ → ℕ → ℕ → S → S → Type 0
  OnlyIn dev b m s s' = (e i : ℕ) → Outside dev b m e i → cell s' e i ≡ cell s e i

  -- The log of the swap status is the same.
  abbrev pub SameStatus : S → S → Type 0
  SameStatus s s' =
      (i : ℕ)
      → i < status.end - status.start
      → cell s' status.fl_dev (status.start + i) ≡ cell s status.fl_dev (status.start + i)

  -- An invariant `Half` of the turns before phase 3, which gives `Good` at phase 3: a turn changes
  -- nothing in the swap status, and neither the swap status nor the ends of the slots count.
  pub record Upholds : Type 0 where
    pub cases : (p : Phase) (k : ℕ) (s : S) → Half p k s → Moves p ⊎ ((p ≡ swp_p3) × Good s)
    pub turns :
        (s : S) (mcmd : ZbMoveCmd) (p : Phase) (k : ℕ)
        → Moves p
        → k ≤ 255
        → Half p k s
        → let s' =
            (switch fl sums tc board mine area s info mcmd inplace
              (command (stored sums inplace c p k) p k)).flash in
          Half (next plan p k).0 (next plan p k).1 s' × SameStatus s s'
    pub half_status :
        (p : Phase) (k : ℕ) (s s' : S)
        → OnlyIn status.fl_dev status.start (status.end - status.start) s s'
        → Half p k s
        → Half p k s'
    pub good_status :
        (s s' : S)
        → OnlyIn status.fl_dev status.start (status.end - status.start) s s'
        → Good s
        → Good s'
    pub good_end0 :
        (s s' : S)
        → OnlyIn area.slt0_fldev (slt0end board area).start sector_size s s'
        → Good s
        → Good s'
    pub good_end1 :
        (s s' : S)
        → OnlyIn area.slt1_fldev (slt1end board area).start sector_size s s'
        → Good s
        → Good s'

  module _ (upholds : Upholds) {n0 n1 n : ℕ} (here : Location laws board area 2 status n)
      (end0 : SectorEnd board area laws 0 (slt0end board area) n0)
      (end1 : SectorEnd board area laws 1 (slt1end board area) n1)
      (ends : EndsApart board area status) where
    -- The end of slot 0 holds the command of the swap, perhaps made permanent.
    abbrev pub Signed : S → Type 0
    Signed s =
        (done : ZbCmd) × ((done.cmd1 ≡ c.cmd1) ⊎ (done.cmd1 ≡ bit_or c.cmd1 cmd1_mask_swp_perm))
        × LogOf end0.here s (sealed sums done ∷ [])

    -- The end of slot 1 holds no command.
    abbrev pub Cleared : S → Type 0
    Cleared s = LogOf end1.here s []

    abbrev pub Kept : Phase → ℕ → S → Type 0
    Kept swp_p3 k s = Good s
    Kept swp_p4 k s = Good s × Signed s
    Kept swp_end k s = Good s × (Signed s × Cleared s)
    Kept p k s = Half p k s

    pub Half-Kept : (p : Phase) (k : ℕ) (s : S) → Half p k s → Kept p k s
    Half-Kept swp_start k s h = h
    Half-Kept move_up k s h = h
    Half-Kept swp_p1 k s h = h
    Half-Kept swp_p2 k s h = h
    Half-Kept swp_p3 k s h = elim (upholds.cases swp_p3 k s h) [
      | inl m ↦ elim m [ ]
      | inr (e, good) ↦ good
    ]
    Half-Kept swp_p4 k s h = elim (upholds.cases swp_p4 k s h) [
      | inl m ↦ elim m [ ]
      | inr (e, good) ↦ absurd cc
    ]
    Half-Kept swp_end k s h = elim (upholds.cases swp_end k s h) [
      | inl m ↦ elim m [ ]
      | inr (e, good) ↦ absurd cc
    ]

    pub status_low : status.start ≤ here.start
    status_low = let first : status.start ≡ here.start = here.first in omega arith

    OffLog-OnlyIn :
        (s s' : S)
        → ((e i : ℕ) → OffLog here e i → cell s' e i ≡ cell s e i)
        → OnlyIn status.fl_dev status.start (status.end - status.start) s s'
    OffLog-OnlyIn s s' same e i (inl ne) = same e i (inl ne)
    OffLog-OnlyIn s s' same e i (inr (inl before)) =
        let low = status_low in same e i (inr (inl (omega arith)))
    OffLog-OnlyIn s s' same e i (inr (inr behind)) =
        let low = status_low in let stop = here.stop in same e i (inr (inr (omega arith)))

    -- A command that is appended to the log changes nothing of it.
    pub status-Kept :
        (s s' : S) (p : Phase) (k : ℕ)
        → Kept p k s
        → ((e i : ℕ) → OffLog here e i → cell s' e i ≡ cell s e i)
        → Kept p k s'
    status-Kept s s' swp_start k h same =
        upholds.half_status swp_start k s s' (OffLog-OnlyIn s s' same) h
    status-Kept s s' move_up k h same =
        upholds.half_status move_up k s s' (OffLog-OnlyIn s s' same) h
    status-Kept s s' swp_p1 k h same = upholds.half_status swp_p1 k s s' (OffLog-OnlyIn s s' same) h
    status-Kept s s' swp_p2 k h same = upholds.half_status swp_p2 k s s' (OffLog-OnlyIn s s' same) h
    status-Kept s s' swp_p3 k h same = upholds.good_status s s' (OffLog-OnlyIn s s' same) h
    status-Kept s s' swp_p4 k (good, (done, cmd1, logged)) same =
        let only = OffLog-OnlyIn s s' same in
        (
          upholds.good_status s s' only good,
          (
            done,
            cmd1,
            end-LogOf board area laws s s' end0 (sealed sums done ∷ []) only
                (Disjoint-sym ends.status_end0) logged,
          ),
        )
    status-Kept s s' swp_end k (good, ((done, cmd1, logged), cleared)) same =
        let only = OffLog-OnlyIn s s' same in
        (
          upholds.good_status s s' only good,
          (
            (
              done,
              cmd1,
              end-LogOf board area laws s s' end0 (sealed sums done ∷ []) only
                  (Disjoint-sym ends.status_end0) logged,
            ),
            end-LogOf board area laws s s' end1 [] only (Disjoint-sym ends.status_end1) cleared,
          ),
        )
