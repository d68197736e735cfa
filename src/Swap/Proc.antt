-- ===== src/Swap/Proc.antt =====
-- The loop of zb_img_cmd_proc (zepboot/src/zb_move.c): what each command of a swap does, and which
-- command comes next.
use zepboot.Base.{
  ℕ, zero, suc, ◌+◌, ◌-◌, Bool, false, not, ◌&&◌, ◌||◌, Option, none, some, ltb, leb, ◌==◌,
  if◌then◌else◌, add32, sub32, mul32, u8, min, bit_or, has_bits,
}
use zepboot.Platform.{is_ok, Flash, Checksums}
use zepboot.Board.{Board, ZbSltArea}
use zepboot.Cmd.{
  ZbCmd, zb_erase_slt0end, zb_erase_slt1end, zb_cmd_read_swpstat, zb_cmd_write_swpstat,
}
use zepboot.TinyCrypt.{TinyCrypt}
use zepboot.Move.{
  ZbMoveCmd, ZbImgSwpInfo, zb_sector_erase, set_mcmd_moveup, set_mcmd_swp_p1, set_mcmd_swp_p2,
  zb_img_move,
}
use zepboot.Swap.{
  SwapLocals, cmd1_error, cmd2_mask_inplace, cmd2_swp_start, cmd2_move_up, cmd2_swp_p1, cmd2_swp_p2,
  cmd2_swp_p3, cmd2_swp_p4, cmd2_swp_end, phase, is_swapping, zb_img_cmd_proc_p3_wrt,
  zb_img_cmd_proc_p4_wrt, zb_get_img_swp_info, end_fr, end_to,
}

-- What a command leaves: the next one, the local move command and the flash.
pub record Switched (S : Type 0) : Type 0 where
  pub cmd : ZbCmd
  pub mcmd : ZbMoveCmd
  pub flash : S

-- The local variables of the loop, and the flash.
pub record Round (S : Type 0) : Type 0 where
  pub flash : S
  pub info : ZbImgSwpInfo
  pub cmd : ZbCmd
  pub mcmd : ZbMoveCmd
  pub inplace : Bool

-- `cmd.cmd2 |= CMD2_MASK_INPLACE` if the image stays in slot 1.
abbrev pub marked : Bool → ZbCmd → ZbCmd
marked inplace cmd =
    if inplace then record cmd { cmd2 = bit_or cmd.cmd2 cmd2_mask_inplace } else cmd

-- CMD2_SWP_START counts the sectors that are moved up, in a byte: `while ((addr + SECTOR_SIZE) <
-- end)`. Each turn brings `addr` nearer to the end.
unfoldable pub count_loop : (sector_size fuel addr end cmd3 : ℕ) → ℕ
count_loop sector_size zero addr end cmd3 = cmd3
count_loop sector_size (suc fuel) addr end cmd3 =
    let addr' = add32 addr sector_size in
    let rest = count_loop sector_size fuel addr' end (u8 (cmd3 + 1)) in
    if ltb addr' end then rest else cmd3

abbrev pub sectors_up : ℕ → ZbImgSwpInfo → ℕ
sectors_up sector_size info =
    count_loop sector_size (info.to.end - info.to.hdr_start) info.to.hdr_start info.to.end 0

module _ {S H : Type 0} (fl : Flash S) (sums : Checksums) (tc : TinyCrypt H) (board : Board)
    (mine : SwapLocals) (area : ZbSltArea) where
  open board use {sector_size}

  -- zb_img_move from flash to flash: the RAM is not touched.
  abbrev pub moved : S → ZbMoveCmd → ℕ → S
  moved s mcmd len =
      (zb_img_move fl tc mine.buf (record { flash = s; ram = λ _. 0 }) mcmd len false).1.flash

  unfoldable pub proc_start : S → ZbImgSwpInfo → ZbMoveCmd → Bool → ZbCmd → Switched S
  proc_start s info mcmd inplace cmd =
      let cmd0 = record cmd { cmd3 = 0 } in
      let up = record cmd { cmd2 = cmd2_move_up; cmd3 = sectors_up sector_size info } in
      record {
        cmd =
            if inplace && (info.fr.enc_start == info.fr.end)
            then record cmd0 { cmd2 = cmd2_swp_p3 }
            else (if end_to info == 0 then record cmd0 { cmd2 = cmd2_swp_p1 } else up);
        mcmd = mcmd;
        flash = s;
      }

  unfoldable pub proc_move_up : S → ZbImgSwpInfo → ZbMoveCmd → Bool → ZbCmd → Switched S
  proc_move_up s info mcmd inplace cmd =
      let cmd_off = mul32 cmd.cmd3 sector_size in
      let s' = (zb_sector_erase board fl s info.to (add32 cmd_off sector_size)).1 in
      let mcmd' = set_mcmd_moveup board mcmd info cmd_off in
      record {
        cmd =
            if cmd.cmd3 == 0
            then record cmd { cmd2 = if inplace then cmd2_swp_p2 else cmd2_swp_p1 }
            else record cmd { cmd3 = cmd.cmd3 - 1 };
        mcmd = mcmd';
        flash = moved s' mcmd' sector_size;
      }

  unfoldable pub proc_p1 : S → ZbImgSwpInfo → ZbMoveCmd → ZbCmd → Switched S
  proc_p1 s info mcmd cmd =
      let cmd_off = mul32 cmd.cmd3 sector_size in
      let s' = (zb_sector_erase board fl s info.to cmd_off).1 in
      let mcmd' = set_mcmd_swp_p1 board info cmd_off in
      let len = min (sub32 (end_fr info) cmd_off) sector_size in
      if leb (end_fr info) cmd_off
      then record {
        cmd = record cmd { cmd2 = if leb (end_to info) cmd_off then cmd2_swp_p3 else cmd2_swp_p2 };
        mcmd = mcmd;
        flash = s;
      }
      else record {
        cmd = record cmd { cmd2 = cmd2_swp_p2 };
        mcmd = mcmd';
        flash = moved s' mcmd' len;
      }

  unfoldable pub proc_p2 : S → ZbImgSwpInfo → ZbMoveCmd → Bool → ZbCmd → Switched S
  proc_p2 s info mcmd inplace cmd =
      let cmd_off = mul32 cmd.cmd3 sector_size in
      let s' = (zb_sector_erase board fl s info.fr cmd_off).1 in
      let mcmd' = set_mcmd_swp_p2 board info cmd_off in
      let len = min (sub32 (end_to info) cmd_off) sector_size in
      if leb (end_to info) cmd_off
      then record {
        cmd =
            if leb (end_fr info) cmd_off
            then record cmd { cmd2 = cmd2_swp_p3 }
            else record cmd { cmd2 = cmd2_swp_p1; cmd3 = u8 (cmd.cmd3 + 1) };
        mcmd = mcmd;
        flash = s;
      }
      else record {
        cmd = record cmd {
          cmd2 = if inplace then cmd2_swp_p2 else cmd2_swp_p1;
          cmd3 = u8 (cmd.cmd3 + 1);
        };
        mcmd = mcmd';
        flash = moved s' mcmd' len;
      }

  unfoldable pub proc_p3 : S → ZbMoveCmd → Bool → ZbCmd → Switched S
  proc_p3 s mcmd inplace cmd =
      let s' = (zb_erase_slt0end fl board s area).1 in
      let cmd' = marked inplace cmd in
      record {
        cmd = record cmd' { cmd2 = cmd2_swp_p4 };
        mcmd = mcmd;
        flash = zb_img_cmd_proc_p3_wrt fl sums tc board mine area s' cmd';
      }

  unfoldable pub proc_p4 : S → ZbMoveCmd → Bool → ZbCmd → Switched S
  proc_p4 s mcmd inplace cmd =
      let s' = (zb_erase_slt1end fl board s area).1 in
      let cmd' = marked inplace cmd in
      record {
        cmd = record cmd' { cmd2 = cmd2_swp_end };
        mcmd = mcmd;
        flash = zb_img_cmd_proc_p4_wrt s' area cmd';
      }

  -- `switch (cmd.cmd2)`, where the bit CMD2_MASK_INPLACE is cleared.
  unfoldable pub switch : S → ZbImgSwpInfo → ZbMoveCmd → Bool → ZbCmd → Switched S
  switch s info mcmd inplace cmd =
      if cmd.cmd2 == cmd2_swp_start
      then proc_start s info mcmd inplace cmd
      else (if cmd.cmd2 == cmd2_move_up
          then proc_move_up s info mcmd inplace cmd
          else (if cmd.cmd2 == cmd2_swp_p1
              then proc_p1 s info mcmd cmd
              else (if cmd.cmd2 == cmd2_swp_p2
                  then proc_p2 s info mcmd inplace cmd
                  else (if cmd.cmd2 == cmd2_swp_p3
                      then proc_p3 s mcmd inplace cmd
                      else (if cmd.cmd2 == cmd2_swp_p4
                          then proc_p4 s mcmd inplace cmd
                          else record { cmd = cmd; mcmd = mcmd; flash = s })))))

  -- One turn behind the test that ends the loop, for the command that was read.
  unfoldable pub turn : Round S → ZbCmd → Round S
  turn r cmd =
      let info =
        if r.info.loaded
        then r.info
        else zb_get_img_swp_info fl sums tc board mine area r.flash r.info cmd in
      let inplace = r.inplace || has_bits cmd.cmd2 cmd2_mask_inplace in
      let done = switch r.flash info r.mcmd inplace (record cmd { cmd2 = phase cmd }) in
      let (_, cmd', s) =
        zb_cmd_write_swpstat fl sums board done.flash area (marked inplace done.cmd) in
      record { flash = s; info = info; cmd = cmd'; mcmd = done.mcmd; inplace = inplace }

  -- `while (1)`, at most `fuel` turns of it: `none` says that it would go on.
  unfoldable pub proc_loop : ℕ → Round S → Option S
  proc_loop zero r = none
  proc_loop (suc fuel) r =
      let (rc, cmd) = zb_cmd_read_swpstat fl sums board r.flash area r.cmd in
      let rest = proc_loop fuel (turn r cmd) in
      if not (is_ok rc) || cmd.cmd1 == cmd1_error || not (is_swapping cmd)
      then some r.flash
      else rest

  -- The flash at the end; the code is always 0.
  unfoldable pub zb_img_cmd_proc : ℕ → S → ZbImgSwpInfo → Option S
  zb_img_cmd_proc fuel s info =
      proc_loop fuel
        (record { flash = s; info = info; cmd = mine.cmd; mcmd = mine.mcmd; inplace = false })
