-- ===== src/Cmd.antt =====
-- The commands that the boot loader keeps in flash (zepboot/src/zb_flash.c): each location is a
-- run of four-byte records with a crc8, written one behind the other.
pub mod Log
pub mod Read
pub mod Write
pub mod Append
pub mod Erase
pub mod Kept
mod Tests
use zepboot.Base.{
  ℕ, zero, suc, ◌+◌, ◌-◌, Bool, false, ◌||◌, not, Option, none, some, List, [], ◌∷◌, leb, ◌==◌,
  if◌then◌else◌, add32, sub32, byte_at, le32,
}
use zepboot.Platform.{Rc, ok, enoent, enospc, enotsup, stuck, is_ok, Device, Flash, Checksums}
use zepboot.Board.{ZbSltArea, Board}
use zepboot.Flash.{zb_flash_align_size, zb_flash_read, zb_flash_write, zb_flash_erase}

-- `struct zb_cmd`
pub record ZbCmd : Type 0 where
  pub cmd1 : ℕ
  pub cmd2 : ℕ
  pub cmd3 : ℕ
  pub crc8 : ℕ

-- `sizeof(struct zb_cmd)` and `sizeof(struct zb_prm)`
abbrev pub cmd_bytes : ℕ
cmd_bytes = 4

abbrev pub prm_bytes : ℕ
prm_bytes = 24

-- EMPTY_U32
abbrev pub empty_u32 : ℕ
empty_u32 = 0xffffffff

-- The packed structure as bytes, and back.
abbrev pub to_bytes : ZbCmd → List ℕ
to_bytes cmd = cmd.cmd1 ∷ cmd.cmd2 ∷ cmd.cmd3 ∷ cmd.crc8 ∷ []

abbrev pub of_bytes : List ℕ → ZbCmd
of_bytes bs = record {
  cmd1 = byte_at bs 0;
  cmd2 = byte_at bs 1;
  cmd3 = byte_at bs 2;
  crc8 = byte_at bs 3;
}

-- `memcpy(&re_cmd_u32, &re_cmd, 4)` and the test for EMPTY_U32
abbrev pub is_empty : ZbCmd → Bool
is_empty cmd = le32 (to_bytes cmd) 0 == empty_u32

pub record CmdLoc : Type 0 where
  pub start : ℕ
  pub end : ℕ
  pub fl_dev : Device

-- `none` is -ENOTSUP.
unfoldable pub zb_get_cmd_loc : Board → ZbSltArea → ℕ → Option CmdLoc
zb_get_cmd_loc board area loc_id =
    let end0 = add32 area.slt0_offset area.slt0_size in
    let end1 = add32 area.slt1_offset area.slt1_size in
    if loc_id == 0
    then some
        (record { fl_dev = area.slt0_fldev; end = end0; start = sub32 end0 board.sector_size })
    else (if loc_id == 1
        then some
            (record { fl_dev = area.slt1_fldev; end = end1; start = sub32 end1 board.sector_size })
        else (if loc_id == 2
            then some (record {
              fl_dev = area.swpstat_fldev;
              end = add32 area.swpstat_offset area.swpstat_size;
              start = area.swpstat_offset;
            })
            else none))

module _ (sums : Checksums) where
  open sums use {crc8_ccitt}

  -- The crc8 over the bytes in front of it.
  abbrev pub crc_of : ZbCmd → ℕ
  crc_of cmd = crc8_ccitt 0xff (cmd.cmd1 ∷ cmd.cmd2 ∷ cmd.cmd3 ∷ [])

  -- The result, 0 if the crc8 was right, and the command with its crc8 updated.
  unfoldable pub zb_cmd_crc8 : ZbCmd → ℕ × ZbCmd
  zb_cmd_crc8 cmd =
      let cmd' = record cmd { crc8 = crc_of cmd } in
      if cmd'.crc8 == cmd.crc8 then (0, cmd') else (1, cmd')

module _ {S : Type 0} (fl : Flash S) where
  unfoldable pub zb_cmd_loc_erase : S → CmdLoc → Rc × S
  zb_cmd_loc_erase s loc = zb_flash_erase fl s loc.fl_dev loc.start (sub32 loc.end loc.start)

  -- The first record of a location: behind the parameters in the last sector of slot 0.
  abbrev pub first_record : ℕ → CmdLoc → ℕ
  first_record loc_id loc =
      if loc_id == 0
      then add32 loc.start (zb_flash_align_size fl loc.fl_dev prm_bytes)
      else loc.start

  -- The loop of zb_cmd_write: the code, and the offset at which it stopped.
  pub write_loop : S → Device → (end stride fuel off : ℕ) → Rc × ℕ
  write_loop s fl_dev end stride zero off = (stuck, off)
  write_loop s fl_dev end stride (suc fuel) off =
      let (rc, bs) = zb_flash_read fl s fl_dev off cmd_bytes [] in
      let off' = add32 off stride in
      let rest = write_loop s fl_dev end stride fuel off' in
      if not (is_ok rc)
      then (rc, off)
      else (if is_empty (of_bytes bs)
          then (ok, off)
          else (if leb end off' then (enospc, off') else rest))

  module _ (sums : Checksums) where
    -- The loop of zb_cmd_read: `cmd` is what `*cmd` holds, and `found` whether a record with
    -- a right crc8 was met. It runs on fuel, and answers `stuck` when that is used up.
    read_loop : S → Device → (end stride fuel off : ℕ) → Bool → ZbCmd → Rc × ZbCmd
    read_loop s fl_dev end stride zero off found cmd = (stuck, cmd)
    read_loop s fl_dev end stride (suc fuel) off found cmd =
        let (rc, bs) = zb_flash_read fl s fl_dev off cmd_bytes [] in
        let re_cmd = of_bytes bs in
        let (bad, re_cmd') = zb_cmd_crc8 sums re_cmd in
        let found' = found || (bad == 0) in
        let cmd' = if bad == 0 then re_cmd' else cmd in
        let off' = add32 off stride in
        let rest = read_loop s fl_dev end stride fuel off' found' cmd' in
        if not (is_ok rc)
        then (rc, cmd)
        else (if is_empty re_cmd
            then (if found then (ok, cmd) else (enoent, re_cmd))
            else (if leb end off' then (if found' then (ok, cmd') else (enoent, cmd')) else rest))

    module _ (board : Board) where
      -- `cmd` is what `*cmd` holds before the call, and the result has what it holds after it.
      unfoldable pub zb_cmd_read : S → ZbSltArea → ZbCmd → ℕ → Rc × ZbCmd
      unfolding read_loop
      zb_cmd_read s area cmd loc_id = elim (zb_get_cmd_loc board area loc_id) [
        | none ↦ (enotsup, cmd)
        | some loc ↦
            let off = first_record loc_id loc in
            let stride = zb_flash_align_size fl loc.fl_dev cmd_bytes in
            read_loop s loc.fl_dev loc.end stride (loc.end - off + 1) off false cmd
      ]

      -- The code, `*cmd` with its crc8, and the flash.
      unfoldable pub zb_cmd_write : S → ZbSltArea → ZbCmd → ℕ → Rc × ZbCmd × S
      unfolding write_loop
      zb_cmd_write s area cmd loc_id = elim (zb_get_cmd_loc board area loc_id) [
        | none ↦ (enotsup, cmd, s)
        | some loc ↦
            let off = first_record loc_id loc in
            let stride = zb_flash_align_size fl loc.fl_dev cmd_bytes in
            let (rc, off') = write_loop s loc.fl_dev loc.end stride (loc.end - off + 1) off in
            if is_ok rc
            then (let (_, cmd') = zb_cmd_crc8 sums cmd in
                let (rc', s') = zb_flash_write fl s loc.fl_dev off' (to_bytes cmd') in
                (rc', cmd', s'))
            else (rc, cmd, s)
      ]

  module _ (board : Board) where
    -- zb_erase_slt0end, zb_erase_slt1end and zb_erase_swpstat, by the number of the location.
    unfoldable pub zb_erase_loc : S → ZbSltArea → ℕ → Rc × S
    unfolding zb_cmd_loc_erase
    zb_erase_loc s area loc_id = elim (zb_get_cmd_loc board area loc_id) [
      | none ↦ (enotsup, s)
      | some loc ↦ zb_cmd_loc_erase s loc
    ]

-- The functions that name a location: 0 is the end of slot 0, 1 the end of slot 1, and 2 the swap
-- status area.
module _ {S : Type 0} (fl : Flash S) (board : Board) where
  abbrev pub zb_erase_swpstat : S → ZbSltArea → Rc × S
  zb_erase_swpstat s area = zb_erase_loc fl board s area 2

  abbrev pub zb_erase_slt0end : S → ZbSltArea → Rc × S
  zb_erase_slt0end s area = zb_erase_loc fl board s area 0

  abbrev pub zb_erase_slt1end : S → ZbSltArea → Rc × S
  zb_erase_slt1end s area = zb_erase_loc fl board s area 1

module _ {S : Type 0} (fl : Flash S) (sums : Checksums) (board : Board) where
  abbrev pub zb_cmd_read_slt0end : S → ZbSltArea → ZbCmd → Rc × ZbCmd
  zb_cmd_read_slt0end s area cmd = zb_cmd_read fl sums board s area cmd 0

  abbrev pub zb_cmd_read_slt1end : S → ZbSltArea → ZbCmd → Rc × ZbCmd
  zb_cmd_read_slt1end s area cmd = zb_cmd_read fl sums board s area cmd 1

  abbrev pub zb_cmd_read_swpstat : S → ZbSltArea → ZbCmd → Rc × ZbCmd
  zb_cmd_read_swpstat s area cmd = zb_cmd_read fl sums board s area cmd 2

  abbrev pub zb_cmd_write_slt0end : S → ZbSltArea → ZbCmd → Rc × ZbCmd × S
  zb_cmd_write_slt0end s area cmd = zb_cmd_write fl sums board s area cmd 0

  abbrev pub zb_cmd_write_slt1end : S → ZbSltArea → ZbCmd → Rc × ZbCmd × S
  zb_cmd_write_slt1end s area cmd = zb_cmd_write fl sums board s area cmd 1

  abbrev pub zb_cmd_write_swpstat : S → ZbSltArea → ZbCmd → Rc × ZbCmd × S
  zb_cmd_write_swpstat s area cmd = zb_cmd_write fl sums board s area cmd 2
