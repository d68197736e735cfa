-- ===== src/Swap/Ends.antt =====
-- The ends of the slots: phase 3 and phase 4 of zb_img_cmd_proc (zepboot/src/zb_move.c) erase them, and
-- phase 3 records the two images and the swap at the end of slot 0.
use zepboot.Base.{
  ℕ, ◌+◌, ◌-◌, ◌%◌, ◌≤◌, ◌≡◌, ap, ◌∙◌, false, arith, List, [], ◌∷◌, length, inl, inr, add32, sub32,
  Bool-cases, leb, ltb, ◌&&◌, ne→==,
}
use native.Mathlib.Nat.{mod_self}
use mathlib.Core.Path.{subst}
use zepboot.Platform.{Flash, Checksums, Device}
use zepboot.Platform.Laws.{FlashLaws, blanked, written, IsBlockSize}
use zepboot.Board.{Board, ZbSltArea}
use zepboot.Flash.{zb_flash_align_size}
use zepboot.Flash.Align.{align_size_bounds}
use zepboot.Flash.Write.{zb_flash_write-lem, CanWrite}
use zepboot.Cmd.{
  ZbCmd, CmdLoc, prm_bytes, is_empty, zb_erase_slt0end, zb_cmd_write_slt0end, zb_erase_loc,
}
use zepboot.Cmd.Log.{Holds-congr}
use zepboot.Cmd.Read.{Location, LogOf, stride_lem}
use zepboot.Cmd.Append.{sealed, Crc8IsByte, IsCmd, zb_cmd_write-append}
use zepboot.Cmd.Erase.{zb_erase_loc-empty}
use zepboot.Cmd.Kept.{OffLog, zb_cmd_write-OffLog}
use zepboot.Prm.{ZbPrm, to_bytes, prm_offset, zb_prm_write}
use zepboot.Prm.RoundTrip.{CanWrite-prm, length-to_bytes}
use zepboot.Swap.Sector.{Outside}
use zepboot.Swap.Slots.{whole_blocks}

-- The end of slot 0, and of slot 1: the last sector.
abbrev pub slt0end : Board → ZbSltArea → CmdLoc
slt0end board area = record {
  start = sub32 (add32 area.slt0_offset area.slt0_size) board.sector_size;
  end = add32 area.slt0_offset area.slt0_size;
  fl_dev = area.slt0_fldev;
}

abbrev pub slt1end : Board → ZbSltArea → CmdLoc
slt1end board area = record {
  start = sub32 (add32 area.slt1_offset area.slt1_size) board.sector_size;
  end = add32 area.slt1_offset area.slt1_size;
  fl_dev = area.slt1_fldev;
}

pub blanked-Outside :
    (mem : Device → ℕ → ℕ) (dev off sector e i : ℕ)
    → Outside dev off sector e i
    → blanked mem dev off sector e i ≡ mem e i
blanked-Outside mem dev off sector e i (inl ne) = ground (arith, ne→== e dev ne)
blanked-Outside mem dev off sector e i (inr (inl before)) = ground arith
blanked-Outside mem dev off sector e i (inr (inr behind)) = ground arith

written-Outside :
    (mem : Device → ℕ → ℕ) (dev off sector : ℕ) (bs : List ℕ) (e i : ℕ)
    → length bs ≤ sector
    → Outside dev off sector e i
    → written mem dev off bs e i ≡ mem e i
written-Outside mem dev off sector bs e i h (inl ne) = ground (arith, ne→== e dev ne)
written-Outside mem dev off sector bs e i h (inr (inl before)) = ground arith
written-Outside mem dev off sector bs e i h (inr (inr behind)) = ground arith

block_size-le : {w : ℕ} → IsBlockSize w → w ≤ 8
block_size-le (inl e) = omega arith
block_size-le (inr (inl e)) = omega arith
block_size-le (inr (inr (inl e))) = omega arith
block_size-le (inr (inr (inr e))) = omega arith

block_size-mod : {w : ℕ} (x : ℕ) → IsBlockSize w → x % 16 ≡ 0 → x % w ≡ 0
block_size-mod x (inl e) h = rw e (omega arith)
block_size-mod x (inr (inl e)) h = rw e (omega arith)
block_size-mod x (inr (inr (inl e))) h = rw e (omega arith)
block_size-mod x (inr (inr (inr e))) h = rw e (omega arith)

module _ {S : Type 0} {fl : Flash S} (board : Board) (area : ZbSltArea)
    (laws : FlashLaws fl board.sector_size) where
  open board use {sector_size}
  open laws use {cell}

  -- A location that is a whole sector of whole blocks.
  pub record SectorEnd (loc_id : ℕ) (loc : CmdLoc) (n : ℕ) : Type 0 where
    pub here : Location laws board area loc_id loc n
    pub low : loc.start ≤ here.start
    pub aligned : loc.start % sector_size ≡ 0
    pub sector : loc.end ≡ loc.start + sector_size

  -- Erasing it.
  pub erased_end :
      {loc_id n : ℕ} {loc : CmdLoc} (end : SectorEnd loc_id loc n) (s : S)
      → let s' = (zb_erase_loc fl board s area loc_id).1 in
        LogOf end.here s' []
        × ((e i : ℕ) → cell s' e i ≡ blanked (cell s) loc.fl_dev loc.start sector_size e i)
  erased_end {loc_id = loc_id} {loc = loc} end s =
      let len : loc.end - loc.start ≡ sector_size = omega (arith, end.sector) in
      let r =
        zb_erase_loc-empty end.here s end.low end.aligned
          (ap (λ x. x % sector_size) len ∙ mod_self sector_size) in
      (
        r.1,
        subst
            (λ x.
              (e i : ℕ)
              → cell (zb_erase_loc fl board s area loc_id).1 e i
                ≡ blanked (cell s) loc.fl_dev loc.start x e i)
            len r.2,
      )

  module _ {n : ℕ} (end : SectorEnd 0 (slt0end board area) n) where
    -- The records stand behind the parameters.
    behind_prm : (slt0end board area).start + prm_bytes ≤ end.here.start
    behind_prm =
        let loc = slt0end board area in
        let w = block_size-le (laws.block_size loc.fl_dev) in
        let a =
          align_size_bounds fl loc.fl_dev (laws.block_size loc.fl_dev) prm_bytes (omega arith) in
        let first : add32 loc.start (zb_flash_align_size fl loc.fl_dev prm_bytes) ≡ end.here.start =
          end.here.first in
        let fits = end.here.fits in
        let lt = laws.size-lt loc.fl_dev in let sector = end.sector in omega (arith, a.1, a.2)

    pub prm_fits : prm_offset fl board area + prm_bytes ≤ laws.size area.slt0_fldev
    prm_fits =
        let low = behind_prm in let stop = end.here.stop in let fits = end.here.fits in omega arith

    -- The sector as phase 3 leaves it: erased, with parameters and a command written to it.
    abbrev pub recorded : Checksums → S → ZbPrm → ZbCmd → S
    recorded sums s prm c =
        (zb_cmd_write_slt0end fl sums board
          (zb_prm_write fl board (zb_erase_slt0end fl board s area).1 area prm).1 area c).2

    pub record Recorded (sums : Checksums) (s s' : S) (prm : ZbPrm) (c : ZbCmd) : Type 0 where
      pub logged : LogOf end.here s' (sealed sums c ∷ [])
      pub has_prm :
          (i : ℕ)
          → cell s' area.slt0_fldev i
            ≡ written
                (cell s')
                area.slt0_fldev
                (prm_offset fl board area)
                (to_bytes prm)
                area.slt0_fldev
                i
      pub keeps :
          (e i : ℕ)
          → Outside area.slt0_fldev (prm_offset fl board area) sector_size e i
          → cell s' e i ≡ cell s e i

    Outside-OffLog :
        (e i : ℕ)
        → Outside area.slt0_fldev (prm_offset fl board area) sector_size e i
        → OffLog end.here e i
    Outside-OffLog e i (inl ne) = inl ne
    Outside-OffLog e i (inr (inl before)) = let low = behind_prm in inr (inl (omega arith))
    Outside-OffLog e i (inr (inr behind)) = let sector = end.sector in inr (inr (omega arith))

    prm-CanWrite :
        (s : S) (prm : ZbPrm)
        → sector_size % 16 ≡ 0
        → CanWrite laws
            (zb_erase_slt0end fl board s area).1
            area.slt0_fldev
            (prm_offset fl board area)
            (to_bytes prm)
            prm_bytes
    prm-CanWrite s prm whole =
        let start = prm_offset fl board area in
        let low = behind_prm in
        let stop = end.here.stop in
        let fits = end.here.fits in
        let sector = end.sector in
        let at = whole_blocks sector_size start whole end.aligned in
        CanWrite-prm laws board area (zb_erase_slt0end fl board s area).1 prm
          (block_size-mod start (laws.block_size area.slt0_fldev) at) (omega arith)
          (λ i p q. (erased_end end s).1 area.slt0_fldev i ∙ ground arith)

    pub recorded-Recorded :
        (sums : Checksums) (s : S) (prm : ZbPrm) (c : ZbCmd)
        → sector_size % 16 ≡ 0
        → Crc8IsByte sums
        → IsCmd c
        → is_empty (sealed sums c) ≡ false
        → Recorded sums s (recorded sums s prm c) prm c
    unfolding zb_prm_write
    recorded-Recorded sums s prm c whole byte fields full =
        let dev = area.slt0_fldev in
        let start = prm_offset fl board area in
        let s1 = (zb_erase_slt0end fl board s area).1 in
        let s2 = (zb_prm_write fl board s1 area prm).1 in
        let low = behind_prm in
        let stop = end.here.stop in
        let sector = end.sector in
        let some_room = end.here.some_room in
        let len = length-to_bytes prm in
        let blank = erased_end end s in
        let wrote = zb_flash_write-lem laws (prm-CanWrite s prm whole) end.here.present in
        let two : LogOf end.here s2 [] =
          Holds-congr (stride_lem end.here).1 (λ i p q. wrote.1 dev i ∙ ground arith) blank.0 in
        let three = zb_cmd_write-append end.here sums c byte fields full two some_room in
        let off = zb_cmd_write-OffLog end.here sums c byte fields full two some_room in
        record {
          logged = three.2;
          has_prm = λ i. elim (Bool-cases (leb start i && ltb i (start + prm_bytes))) [
            | inl inside ↦ off dev i (inr (inl (ground arith))) ∙ wrote.1 dev i ∙ ground arith
            | inr outside ↦ ground arith
          ];
          keeps = λ e i out.
              off e i (Outside-OffLog e i out)
              ∙ wrote.1 e i
              ∙ written-Outside (cell s1) dev start sector_size (to_bytes prm) e i (omega arith) out
              ∙ blank.1 e i
              ∙ blanked-Outside (cell s) dev start sector_size e i out;
        }
