-- ===== src/Cmd/Erase.antt =====
-- Erasing a location gives it an empty log.
use zepboot.Base.{ℕ, ◌-◌, ◌%◌, ◌≤◌, ◌≡◌, ◌∙◌, arith, [], sub32}
use zepboot.Platform.Laws.{blanked, FlashLaws}
use zepboot.Platform.{Flash, ok}
use zepboot.Board.{Board, ZbSltArea}
use zepboot.Flash.Write.{zb_flash_erase-lem}
use zepboot.Cmd.{CmdLoc, zb_erase_loc}
use zepboot.Cmd.Log.{blank}
use zepboot.Cmd.Read.{Location, LogOf}

module _ {S : Type 0} {fl : Flash S} {page : ℕ} {laws : FlashLaws fl page} {board : Board}
    {area : ZbSltArea} {loc_id : ℕ} {loc : CmdLoc} {n : ℕ}
    (here : Location laws board area loc_id loc n) where
  open laws use {cell}

  -- The functions zb_erase_* on a location of whole pages return 0; the location then holds no
  -- command, all its bytes are erased, and what lies outside of it is unchanged.
  pub zb_erase_loc-empty :
      (s : S)
      → loc.start ≤ here.start
      → loc.start % page ≡ 0
      → (loc.end - loc.start) % page ≡ 0
      → let (rc, s') = zb_erase_loc fl board s area loc_id in
        (rc ≡ ok)
        × LogOf here s' []
        × ((e i : ℕ)
            → cell s' e i ≡ blanked (cell s) loc.fl_dev loc.start (loc.end - loc.start) e i)
  unfolding zb_erase_loc
  zb_erase_loc-empty s low a b =
      let ends : loc.start ≤ loc.end = omega (arith, here.stop) in
      let len : sub32 loc.end loc.start ≡ loc.end - loc.start =
        omega (arith, here.fits, laws.size-lt loc.fl_dev) in
      let r =
        zb_flash_erase-lem laws s loc.fl_dev loc.start (loc.end - loc.start) here.present a b
          (omega (arith, here.fits)) in
      rw (here.found, zb_erase_loc, len)
        (r.0, blank (λ i p q. r.1 loc.fl_dev i ∙ ground (arith, here.stop)), λ e i. r.1 e i)
