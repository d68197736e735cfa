-- ===== src/Cmd/Kept.antt =====
-- What zb_cmd_write (zepboot/src/zb_flash.c) leaves alone.
use zepboot.Base.{ℕ, ◌+◌, ◌≤◌, ◌<◌, ◌≡◌, ◌≢◌, ◌⊎◌, ◌∙◌, arith, false, List, length, inl, inr, ne→==}
use zepboot.Platform.{Flash, Checksums, Device}
use zepboot.Platform.Laws.{FlashLaws, written}
use zepboot.Board.{Board, ZbSltArea}
use zepboot.Cmd.{ZbCmd, CmdLoc, to_bytes, is_empty, zb_cmd_write}
use zepboot.Cmd.Read.{Location, LogOf, stride, stride_lem}
use zepboot.Cmd.Write.{length-log-mul-le}
use zepboot.Cmd.Append.{sealed, Crc8IsByte, IsCmd, next_record, zb_cmd_write-append}

module _ {S : Type 0} {fl : Flash S} {page : ℕ} {laws : FlashLaws fl page} {board : Board}
    {area : ZbSltArea} {loc_id : ℕ} {loc : CmdLoc} {n : ℕ}
    (here : Location laws board area loc_id loc n) where
  open laws use {cell}

  -- A cell that is not in the records of the location.
  abbrev pub OffLog : Device → ℕ → Type 0
  OffLog e i = (e ≢ loc.fl_dev) ⊎ ((i < here.start) ⊎ (loc.end ≤ i))

  written-OffLog :
      (mem : Device → ℕ → ℕ) (off : ℕ) (c : ZbCmd) (e i : ℕ)
      → here.start ≤ off
      → off + 4 ≤ loc.end
      → OffLog e i
      → written mem loc.fl_dev off (to_bytes c) e i ≡ mem e i
  written-OffLog mem off c e i low high (inl ne) = ground (arith, ne→== e loc.fl_dev ne)
  written-OffLog mem off c e i low high (inr (inl before)) = ground arith
  written-OffLog mem off c e i low high (inr (inr behind)) = ground arith

  pub zb_cmd_write-OffLog :
      (sums : Checksums) {s : S} {log : List ZbCmd} (c : ZbCmd)
      → Crc8IsByte sums
      → IsCmd c
      → is_empty (sealed sums c) ≡ false
      → LogOf here s log
      → length log < n
      → (e i : ℕ) → OffLog e i
      → cell (zb_cmd_write fl sums board s area c loc_id).2 e i ≡ cell s e i
  zb_cmd_write-OffLog sums {s} {log} c byte fields full holds room e i off =
      let q = stride_lem here in
      let fits =
        length-log-mul-le laws s loc.fl_dev loc.end (stride here) here.present q.1 here.fits holds
          room in
      let stop = here.stop in
      (zb_cmd_write-append here sums c byte fields full holds room).3 e i
      ∙ written-OffLog (cell s) (next_record here log) (sealed sums c) e i (omega arith)
          (omega arith) off
