-- ===== src/Swap/Record.antt =====
-- Phase 3 and phase 4 of a swap (zepboot/src/zb_move.c): what they write to the ends of the slots, and
-- that they write nothing else.
use zepboot.Base.{
  ℕ, ◌%◌, ◌^◌, ◌≤◌, ◌<◌, ◌≡◌, ◌⊎◌, refl, Bool, true, false, arith, inl, inr, ◌==◌, if◌then◌else◌,
  bit_or, Bool-cases, eq→==, sym, ap,
}
use zepboot.Base.Fields.{bit_or-one}
use mathlib.Core.Path.{subst}
use zepboot.Platform.{Flash, Checksums, ok, enoent}
use zepboot.Platform.Laws.{FlashLaws}
use zepboot.Board.{Board, ZbSltArea}
use zepboot.TinyCrypt.{TinyCrypt}
use zepboot.Cmd.{ZbCmd, empty_u32, zb_erase_slt0end, zb_cmd_read_slt0end}
use zepboot.Cmd.Log.{is_sound}
use zepboot.Cmd.Read.{zb_cmd_read-last_sound}
use zepboot.Cmd.Append.{sealed, Crc8IsByte, IsCmd, full_cmd}
use zepboot.Prm.{ZbPrm, prm_offset, zb_prm_read}
use zepboot.Prm.RoundTrip.{IsPrm, zb_prm_read_back}
use zepboot.Image.{ImgInfo, zb_img_get_info_nsc}
use zepboot.Move.{ZbMoveCmd}
use zepboot.Swap.{SwapLocals, cmd1_mask_swp_perm, p3_slt1, p3_record, zb_img_cmd_proc_p3_wrt}
use zepboot.Swap.Proc.{marked, proc_p3}
use zepboot.Swap.Steps.{swp_p3}
use zepboot.Swap.Order.{command}
use zepboot.Swap.Sector.{Outside}
use zepboot.Swap.Loop.{cmd2-stored, fields-stored, stored-IsCmd}
use zepboot.Swap.Ends.{SectorEnd, slt0end, prm_fits, recorded, Recorded, recorded-Recorded}

module _ {S H : Type 0} (fl : Flash S) (sums : Checksums) (tc : TinyCrypt H) (board : Board)
    (mine : SwapLocals) (area : ZbSltArea) where
  open mine use {locals}

  -- What phase 3 computes, from the flash with the end of slot 0 erased.
  abbrev pub p3_wrote : S → Bool → ZbCmd → ℕ → ZbPrm × ZbCmd
  p3_wrote s inplace c k =
      p3_record fl sums tc board mine area (zb_erase_slt0end fl board s area).1
        (marked inplace (command c swp_p3 k))

  -- The image that it finds in a slot.
  abbrev pub image_in : S → ImgInfo → ℕ → ImgInfo
  image_in s info slt = zb_img_get_info_nsc fl tc locals s info area slt 0 false

  -- The command of the swap, permanent if there is no image in slot 1.
  abbrev pub p3_done : S → Bool → ZbCmd → ℕ → ZbCmd
  p3_done s inplace c k =
      let s1 = (zb_erase_slt0end fl board s area).1 in
      let m = marked inplace (command c swp_p3 k) in
      if (image_in s1 (image_in s1 locals.info 0) 1).is_valid
      then m
      else record m { cmd1 = bit_or m.cmd1 cmd1_mask_swp_perm }

  p3_cmd :
      (s : S) (inplace : Bool) (c : ZbCmd) (k : ℕ)
      → (p3_wrote s inplace c k).1 ≡ p3_done s inplace c k
  unfolding p3_record p3_slt1
  p3_cmd s inplace c k =
      let s1 = (zb_erase_slt0end fl board s area).1 in
      elim (Bool-cases (image_in s1 (image_in s1 locals.info 0) 1).is_valid) [
        | inl e ↦ rw e refl
        | inr e ↦ rw e refl
      ]

  -- Only the bit that makes the swap permanent may change.
  pub p3_done_cmd1 :
      (s : S) (inplace : Bool) (c : ZbCmd) (k : ℕ)
      → ((p3_done s inplace c k).cmd1 ≡ c.cmd1)
        ⊎ ((p3_done s inplace c k).cmd1 ≡ bit_or c.cmd1 cmd1_mask_swp_perm)
  p3_done_cmd1 s inplace c k =
      let s1 = (zb_erase_slt0end fl board s area).1 in
      let f = (fields-stored sums inplace c swp_p3 k).0 in
      elim (Bool-cases (image_in s1 (image_in s1 locals.info 0) 1).is_valid) [
        | inl e ↦ rw e (inl f)
        | inr e ↦ rw e (inr (ap (λ x. bit_or x cmd1_mask_swp_perm) f))
      ]

  -- It can be written.
  p3_done-IsCmd :
      (s : S) (inplace : Bool) (c : ZbCmd) (k : ℕ)
      → c.cmd1 < 2 ^ 8
      → k ≤ 255
      → IsCmd (p3_done s inplace c k) × ((p3_done s inplace c k).cmd2 < 64)
  p3_done-IsCmd s inplace c k h few =
      let s1 = (zb_erase_slt0end fl board s area).1 in
      let m = marked inplace (command c swp_p3 k) in
      let fields = stored-IsCmd sums inplace c swp_p3 k h few in
      let low = (cmd2-stored sums inplace c swp_p3 k).2 in
      let one = bit_or-one m.cmd1 in
      elim (Bool-cases (image_in s1 (image_in s1 locals.info 0) 1).is_valid) [
        | inl e ↦ rw e (fields, low)
        | inr e ↦ rw (e, one) ((omega arith, fields.1, fields.2), low)
      ]

  module _ {laws : FlashLaws fl board.sector_size} {n : ℕ}
      (end : SectorEnd board area laws 0 (slt0end board area) n)
      (whole : board.sector_size % 16 ≡ 0) (byte : Crc8IsByte sums) where
    open laws use {cell}

    pub p3-Recorded :
        (s : S) (mcmd : ZbMoveCmd) (inplace : Bool) (c : ZbCmd) (k : ℕ)
        → c.cmd1 < 2 ^ 8
        → k ≤ 255
        → Recorded board area laws end sums s
            (proc_p3 fl sums tc board mine area s mcmd inplace (command c swp_p3 k)).flash
            (p3_wrote s inplace c k).0
            (p3_done s inplace c k)
    unfolding proc_p3 zb_img_cmd_proc_p3_wrt
    p3-Recorded s mcmd inplace c k h few =
        let fields = p3_done-IsCmd s inplace c k h few in
        let e = p3_cmd s inplace c k in
        subst
          (λ x.
            Recorded board area laws end sums s
              (recorded board area laws end sums s (p3_wrote s inplace c k).0 x)
              (p3_wrote s inplace c k).0 (p3_done s inplace c k))
          (sym e)
          (recorded-Recorded board area laws end sums s (p3_wrote s inplace c k).0
            (p3_done s inplace c k) whole byte fields.0
            (full_cmd sums (p3_done s inplace c k) byte fields.0 fields.1))

    -- Phase 3 of a swap, if the end of slot 0 is a sector of whole blocks with room for the parameters
    -- and a command: the end of slot 0 then reads as the command of the swap, with
    -- CMD1_MASK_SWP_PERM set if slot 1 holds no image, the parameters read as those computed from the
    -- two images, with -ENOENT if the primary load address is the empty pattern, and no byte outside
    -- of that sector is changed. The fields of the parameters and of the command, and every crc8, have
    -- their widths.
    pub proc_p3-read :
        (s : S) (mcmd : ZbMoveCmd) (inplace : Bool) (c other : ZbCmd) (other_prm : ZbPrm) (k : ℕ)
        → c.cmd1 < 2 ^ 8
        → k ≤ 255
        → IsPrm (p3_wrote s inplace c k).0
        → let s' = (proc_p3 fl sums tc board mine area s mcmd inplace (command c swp_p3 k)).flash in
          (zb_cmd_read_slt0end fl sums board s' area other
            ≡ (ok, sealed sums (p3_done s inplace c k)))
          × (zb_prm_read fl board s' area other_prm ≡ (
            if (p3_wrote s inplace c k).0.pri_ld_address == empty_u32 then enoent else ok,
            (p3_wrote s inplace c k).0,
          ))
          × ((e i : ℕ)
              → Outside area.slt0_fldev (prm_offset fl board area) board.sector_size e i
              → cell s' e i ≡ cell s e i)
    proc_p3-read s mcmd inplace c other other_prm k h few words =
        let r = p3-Recorded s mcmd inplace c k h few in
        let s' = (proc_p3 fl sums tc board mine area s mcmd inplace (command c swp_p3 k)).flash in
        let read = zb_cmd_read-last_sound end.here sums other r.logged in
        let sound : is_sound sums (sealed sums (p3_done s inplace c k)) ≡ true = eq→== _ _ refl in
        (
          rw sound at read,
          zb_prm_read_back laws board area s' s' (p3_wrote s inplace c k).0 other_prm words
              end.here.present (prm_fits board area laws end) r.has_prm,
          r.keeps,
        )
