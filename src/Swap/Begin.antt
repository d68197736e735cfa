-- ===== src/Swap/Begin.antt =====
-- How a swap begins (zb_img_swap in zepboot/src/zb_move.c): the swap status is erased and gets the command
-- CMD2_SWP_START, and zb_img_cmd_proc runs.
use zepboot.Base.{ℕ, ◌-◌, ◌%◌, ◌^◌, ◌<◌, ◌≡◌, refl, ◌∙◌, arith, true, false, [], ◌∷◌, inl, inr}
use zepboot.Platform.{Flash, Checksums, Device}
use zepboot.Platform.Laws.{FlashLaws}
use zepboot.Board.{Board, ZbSltArea}
use zepboot.TinyCrypt.{TinyCrypt}
use zepboot.Cmd.{ZbCmd, CmdLoc}
use zepboot.Cmd.Read.{Location, LogOf}
use zepboot.Cmd.Append.{Crc8IsByte, zb_cmd_write-append}
use zepboot.Cmd.Kept.{OffLog, zb_cmd_write-OffLog}
use zepboot.Cmd.Erase.{zb_erase_loc-empty}
use zepboot.Swap.{SwapLocals}
use zepboot.Swap.Steps.{swp_start}
use zepboot.Swap.Order.{command}
use zepboot.Swap.Request.{begin_swap}
use zepboot.Swap.Sector.{Outside}
use zepboot.Swap.Ends.{blanked-Outside}
use zepboot.Swap.Loop.{stored, stored-IsCmd, stored_full}

module _ {S H : Type 0} (fl : Flash S) (sums : Checksums) (tc : TinyCrypt H) (board : Board)
    (mine : SwapLocals) (area : ZbSltArea) {laws : FlashLaws fl board.sector_size} {n : ℕ}
    {status : CmdLoc} (here : Location laws board area 2 status n)
    (aligned : status.start % board.sector_size ≡ 0)
    (pages : (status.end - status.start) % board.sector_size ≡ 0) (byte : Crc8IsByte sums) where
  open laws use {cell}

  -- Outside of the swap status nothing changes.
  abbrev pub OffStatus : Device → ℕ → Type 0
  OffStatus e i = Outside status.fl_dev status.start (status.end - status.start) e i

  OffStatus-OffLog : {e i : ℕ} → OffStatus e i → OffLog here e i
  OffStatus-OffLog (inl ne) = inl ne
  OffStatus-OffLog (inr (inl before)) =
      let first : status.start ≡ here.start = here.first in inr (inl (omega arith))
  OffStatus-OffLog (inr (inr behind)) =
      let first : status.start ≡ here.start = here.first in
      let stop = here.stop in inr (inr (omega arith))

  pub begin_swap-start :
      (s : S) (c : ZbCmd)
      → c.cmd1 < 2 ^ 8
      → let st = begin_swap fl sums tc board mine area s (command c swp_start 0) in
        (st.swap ≡ true)
        × LogOf here st.flash (stored sums false c swp_start 0 ∷ [])
        × ((e i : ℕ) → OffStatus e i → cell st.flash e i ≡ cell s e i)
  unfolding begin_swap
  begin_swap-start s c h =
      let first : status.start ≡ here.start = here.first in
      let some_room = here.some_room in
      let erase = zb_erase_loc-empty here s (omega arith) aligned pages in
      let fields = stored-IsCmd sums false c swp_start 0 h (omega arith) in
      let full = stored_full sums false c swp_start 0 h (omega arith) byte in
      let wrote =
        zb_cmd_write-append here sums (command c swp_start 0) byte fields full erase.1 some_room in
      let off =
        zb_cmd_write-OffLog here sums (command c swp_start 0) byte fields full erase.1 some_room in
      (
        rw wrote.0 refl,
        wrote.2,
        λ e i out.
            off e i (OffStatus-OffLog out)
            ∙ erase.2 e i
            ∙ blanked-Outside (cell s) status.fl_dev status.start (status.end - status.start) e i
                out,
      )
