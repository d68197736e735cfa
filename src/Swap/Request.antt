-- ===== src/Swap/Request.antt =====
-- zb_img_swap (zepboot/src/zb_move.c): whether a swap is going on, requested or to be undone.
use zepboot.Base.{
  ℕ, Bool, false, not, ◌&&◌, Option, none, some, ◌==◌, if◌then◌else◌, bit_or, has_bits,
}
use zepboot.Platform.{Rc, ok, is_ok, Flash, Checksums}
use zepboot.Board.{Board, ZbSltArea}
use zepboot.Cmd.{
  ZbCmd, zb_erase_swpstat, zb_cmd_read_slt0end, zb_cmd_read_slt1end, zb_cmd_read_swpstat,
  zb_cmd_write_slt0end, zb_cmd_write_swpstat,
}
use zepboot.TinyCrypt.{TinyCrypt}
use zepboot.Image.{zb_img_check}
use zepboot.Swap.{
  SwapLocals, cmd1_mask_swp_perm, cmd1_mask_swp_request, cmd2_mask_inplace, cmd2_swp_start, clear,
  is_swapping,
}
use zepboot.Swap.Proc.{zb_img_cmd_proc}

-- The local variables `rc`, `cmd` and `swap`, and the flash.
pub record Stage (S : Type 0) : Type 0 where
  pub rc : Rc
  pub cmd : ZbCmd
  pub swap : Bool
  pub flash : S

module _ {S H : Type 0} (fl : Flash S) (sums : Checksums) (tc : TinyCrypt H) (board : Board)
    (mine : SwapLocals) (area : ZbSltArea) where
  -- The swap status is erased and gets the command; if that goes well there is a swap.
  unfoldable pub begin_swap : S → ZbCmd → Stage S
  begin_swap s cmd =
      let s' = (zb_erase_swpstat fl board s area).1 in
      let (rc, cmd', s'') = zb_cmd_write_swpstat fl sums board s' area cmd in
      record { rc = rc; cmd = cmd'; swap = is_ok rc; flash = s'' }

  -- A swap was going on.
  unfoldable pub going_on : S → Stage S
  going_on s =
      let (rc, cmd) = zb_cmd_read_swpstat fl sums board s area mine.cmd in
      record { rc = rc; cmd = cmd; swap = is_ok rc && is_swapping cmd; flash = s }

  -- A swap request.
  unfoldable pub swap_request : Stage S → Stage S
  swap_request st =
      let (rc, cmd) = zb_cmd_read_slt1end fl sums board st.flash area st.cmd in
      let cmd1 = clear cmd.cmd1 cmd1_mask_swp_request in
      let (bad, slt) = zb_img_check fl tc board mine.locals st.flash area mine.slt in
      let start =
        if slt == 1
        then record cmd {
          cmd1 = bit_or cmd1 cmd1_mask_swp_perm;
          cmd2 = bit_or cmd2_swp_start cmd2_mask_inplace;
          cmd3 = 0;
        }
        else record cmd { cmd1 = cmd1; cmd2 = cmd2_swp_start; cmd3 = 0 } in
      if st.swap
      then st
      else (if not (is_ok rc && has_bits cmd.cmd1 cmd1_mask_swp_request)
          then record st { rc = rc; cmd = cmd }
          else (if is_ok bad
              then begin_swap st.flash start
              else record st { rc = rc; cmd = record cmd { cmd1 = cmd1 } }))

  -- A request to make the swap permanent. The write is done whatever the second read returns.
  unfoldable pub make_permanent : Stage S → Stage S
  make_permanent st =
      let (rc, cmd) = zb_cmd_read_slt1end fl sums board st.flash area st.cmd in
      let (rc0, cmd0) = zb_cmd_read_slt0end fl sums board st.flash area cmd in
      let cmd0' =
        if is_ok rc0 && not (has_bits cmd0.cmd1 cmd1_mask_swp_perm)
        then record cmd0 { cmd1 = bit_or cmd0.cmd1 cmd1_mask_swp_perm }
        else cmd0 in
      let (rc', cmd', s) = zb_cmd_write_slt0end fl sums board st.flash area cmd0' in
      if st.swap
      then st
      else (if is_ok rc && has_bits cmd.cmd1 cmd1_mask_swp_perm
          then record st { rc = rc'; cmd = cmd'; flash = s }
          else record st { rc = rc; cmd = cmd })

  -- A swap that is not permanent is undone.
  unfoldable pub restore : Stage S → Stage S
  restore st =
      let (rc, cmd) = zb_cmd_read_slt0end fl sums board st.flash area st.cmd in
      if st.swap
      then st
      else (if is_ok rc && not (has_bits cmd.cmd1 cmd1_mask_swp_perm)
          then begin_swap st.flash (record cmd {
            cmd1 = bit_or cmd.cmd1 cmd1_mask_swp_perm;
            cmd2 = cmd2_swp_start;
            cmd3 = 0;
          })
          else record st { rc = rc; cmd = cmd })

  -- What is decided before the swap itself.
  unfoldable pub decide : S → Stage S
  decide s = restore (make_permanent (swap_request (going_on s)))

  -- The swap has `fuel` turns: `none` says that it is not done after them.
  unfoldable pub zb_img_swap : ℕ → S → Option (Rc × S)
  zb_img_swap fuel s =
      let st = decide s in
      if st.swap
      then elim (zb_img_cmd_proc fl sums tc board mine area fuel st.flash
          (record mine.swp_info { loaded = false })) [ none ↦ none | some s' ↦ some (ok, s') ]
      else some (st.rc, st.flash)
