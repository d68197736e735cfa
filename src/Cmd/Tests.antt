-- ===== src/Cmd/Tests.antt =====
-- The theorems on commands, at the swap status of a board on the simulated chip.
use zepboot.Base.{ℕ, ◌<◌, ◌≡◌, refl, false, arith, List, [], ◌∷◌, ◌^◌, ◌==◌, if◌then◌else◌}
use zepboot.Platform.Laws.{written, blanked}
use zepboot.Cmd.{to_bytes, ZbCmd, CmdLoc, zb_get_cmd_loc, zb_cmd_read, zb_cmd_write, zb_erase_loc}
use zepboot.Platform.{ok, enospc}
use zepboot.Platform.Sim.{Chip, sim, sim_laws}
use zepboot.Platform.Example.{sums, board, area, started}
use zepboot.Board.{ZbSltArea}
use zepboot.Flash.{zb_flash_align_size}
use zepboot.Cmd.Erase.{zb_erase_loc-empty}
use zepboot.Cmd.Log.{blank, entry}
use zepboot.Cmd.Read.{Location, LogOf, zb_cmd_read-last_sound}
use zepboot.Cmd.Append.{
  sealed, next_record, zb_cmd_write-append, zb_cmd_write-full, zb_cmd_read-write, zb_cmd_read-torn,
}

abbrev swpstat : CmdLoc
swpstat = record { start = 0x300; end = 0x340; fl_dev = 1 }

abbrev start_cmd : ZbCmd
start_cmd = record { cmd1 = 0x01; cmd2 = 0x10; cmd3 = 0; crc8 = 0x10 }

abbrev move_up_cmd : ZbCmd
move_up_cmd = record { cmd1 = 0x01; cmd2 = 0x12; cmd3 = 2; crc8 = 0 }

swpstat_here : Location sim_laws board area 2 swpstat 16
unfolding sim_laws sim zb_flash_align_size zb_get_cmd_loc
swpstat_here = record {
  found = refl;
  present = omega arith;
  start = 0x300;
  first = refl;
  aligned = refl;
  some_room = omega arith;
  stop = refl;
  fits = omega arith;
}

started_log : LogOf swpstat_here started (start_cmd ∷ [])
unfolding swpstat_here sim_laws sim zb_flash_align_size
started_log = entry refl refl refl (blank (λ i p q. ground arith))

zb_cmd_read-last_sound_example :
    zb_cmd_read sim sums board started area move_up_cmd 2 ≡ (ok, start_cmd)
zb_cmd_read-last_sound_example = zb_cmd_read-last_sound swpstat_here sums move_up_cmd started_log

sums-byte : (init : ℕ) (bs : List ℕ) → sums.crc8_ccitt init bs < 2 ^ 8
sums-byte init bs = omega arith

zb_cmd_write-append_example :
    let (rc, c', s') = zb_cmd_write sim sums board started area move_up_cmd 2 in
    (rc ≡ ok)
    × (c' ≡ sealed sums move_up_cmd)
    × LogOf swpstat_here s' (start_cmd ∷ sealed sums move_up_cmd ∷ [])
    × ((e i : ℕ)
        → sim_laws.cell s' e i
          ≡ written
              (sim_laws.cell started)
              1
              (next_record swpstat_here (start_cmd ∷ []))
              (to_bytes (sealed sums move_up_cmd))
              e
              i)
zb_cmd_write-append_example =
    zb_cmd_write-append swpstat_here sums move_up_cmd sums-byte (omega arith) refl started_log
      (omega arith)

zb_cmd_read-write_example :
    zb_cmd_read sim sums board
      (zb_cmd_write sim sums board started area move_up_cmd 2).2
      area
      start_cmd
      2
    ≡ (ok, sealed sums move_up_cmd)
zb_cmd_read-write_example =
    zb_cmd_read-write swpstat_here sums move_up_cmd start_cmd sums-byte (omega arith) refl
      started_log (omega arith)

-- A swap status of one record, which is full after the first command.
abbrev tiny : ZbSltArea
tiny = record area { swpstat_size = 4 }

tiny_here : Location sim_laws board tiny 2 (record { start = 0x300; end = 0x304; fl_dev = 1 }) 1
unfolding sim_laws sim zb_flash_align_size zb_get_cmd_loc
tiny_here = record {
  found = refl;
  present = omega arith;
  start = 0x300;
  first = refl;
  aligned = refl;
  some_room = omega arith;
  stop = refl;
  fits = omega arith;
}

tiny_log : LogOf tiny_here started (start_cmd ∷ [])
unfolding tiny_here sim_laws sim zb_flash_align_size
tiny_log = entry refl refl refl (blank (λ i p q. absurd (omega arith)))

zb_cmd_write-full_example :
    zb_cmd_write sim sums board started tiny move_up_cmd 2 ≡ (enospc, move_up_cmd, started)
zb_cmd_write-full_example = zb_cmd_write-full tiny_here sums move_up_cmd tiny_log refl

-- The second record of the swap status after a power failure: two of its bytes are written.
abbrev torn_chip : Chip
torn_chip = record {
  mem = λ dev i. if i == 0x304 then 0x01 else (if i == 0x305 then 0x12 else started.mem dev i);
  opened = false;
}

zb_cmd_read-torn_example : zb_cmd_read sim sums board torn_chip area move_up_cmd 2 ≡ (ok, start_cmd)
unfolding swpstat_here sim_laws sim zb_flash_align_size
zb_cmd_read-torn_example =
    zb_cmd_read-torn swpstat_here sums {s = started} {s' = torn_chip}
      {torn = record { cmd1 = 0x01; cmd2 = 0x12; cmd3 = 0xff; crc8 = 0xff }} move_up_cmd started_log
      (omega arith) (λ i p. ground arith) refl refl refl

zb_erase_loc-empty_example :
    let (rc, s') = zb_erase_loc sim board started area 2 in
    (rc ≡ ok)
    × LogOf swpstat_here s' []
    × ((e i : ℕ) → sim_laws.cell s' e i ≡ blanked (sim_laws.cell started) 1 0x300 0x40 e i)
unfolding swpstat_here
zb_erase_loc-empty_example =
    zb_erase_loc-empty swpstat_here started (omega arith) (omega arith) (omega arith)
